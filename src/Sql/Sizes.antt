-- ===== src/Sql/Sizes.antt =====
-- The depth of a printed condition is at most the length of its text.
use mathlib.Core.List.{◌++◌}
use soap_sqlx.Prelude.{ℕ, suc, ◌+◌, ◌≤◌, ◌<◌, List, [], ◌∷◌, arith, length, length-append}
use soap_sqlx.Portable.{LogicalOperator, logical_and, logical_or}
use soap_sqlx.Sql.{
  Test, null, not_null, compares, resembles, among, not_among, Hole, print_hole, print_more_holes,
  print_column, print_test, Sql, Sqls, falsity, test, single, several, nil, cons, between, print,
  print_more,
}
use soap_sqlx.Sql.Chars.{chars}
use soap_sqlx.Sql.Reads.Tests.{test_size}

-- A bound on the depth of the reading.
unfoldable mutual
  pub size : Sql → ℕ
  size falsity = 1
  size (test c t) = suc (test_size t)
  size (single a) = 2 + size a
  size (several op a b cs) = 2 + (size a + (size b + size_more cs))

  pub size_more : Sqls → ℕ
  size_more nil = 1
  size_more (cons c cs) = suc (size c + size_more cs)

pub size_positive : (e : Sql) → 1 ≤ size e
unfolding size
size_positive falsity = omega arith
size_positive (test c t) = omega arith
size_positive (single a) = omega arith
size_positive (several op a b cs) = omega arith

pub size_more_positive : (cs : Sqls) → 1 ≤ size_more cs
unfolding size_more
size_more_positive nil = omega arith
size_more_positive (cons c cs) = omega arith

holes-length : (hs : List Hole) → length hs < length (print_more_holes hs)
holes-length [] = omega arith
holes-length (h ∷ hs) =
    omega (arith, holes-length hs, length-append (print_hole h) (print_more_holes hs))

set-length : (h : Hole) (hs : List Hole) → length hs < length (print_hole h ++ print_more_holes hs)
set-length h hs = omega (arith, holes-length hs, length-append (print_hole h) (print_more_holes hs))

test-length : (t : Test) → test_size t ≤ length (print_test t)
test-length null = omega arith
test-length not_null = omega arith
test-length (compares c h) = omega arith
test-length (resembles h) = omega arith
test-length (among h hs) = omega (arith, set-length h hs)
test-length (not_among h hs) = omega (arith, set-length h hs)

between-length : (op : LogicalOperator) → 1 ≤ length (between op)
between-length logical_and = omega arith
between-length logical_or = omega arith

mutual
  unfolding size print

  pub size-length : (e : Sql) → size e ≤ length (print e)
  size-length falsity = omega arith
  size-length (test c t) =
      omega (arith, test-length t, length-append (print_column c) (print_test t))
  size-length (single a) = omega (arith, size-length a, length-append (print a) (chars ")"))
  size-length (several op a b cs) = omega (
    arith,
    size-length a,
    size-length b,
    size_more-length op cs,
    between-length op,
    length-append (print a) (between op ++ (print b ++ print_more op cs)),
    length-append (between op) (print b ++ print_more op cs),
    length-append (print b) (print_more op cs),
  )

  size_more-length : (op : LogicalOperator) (cs : Sqls) → size_more cs ≤ length (print_more op cs)
  size_more-length op nil = omega arith
  size_more-length op (cons c cs) = omega (
    arith,
    size-length c,
    size_more-length op cs,
    between-length op,
    length-append (between op) (print c ++ print_more op cs),
    length-append (print c) (print_more op cs),
  )
