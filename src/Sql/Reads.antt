-- ===== src/Sql/Reads.antt =====
-- The reader takes what the grammar prints back to what it was printed from.
pub mod Holes
pub mod Tests
use mathlib.Core.List.{◌++◌, append_assoc, append-nil}
use soap_sqlx.Prelude.{
  ℕ, zero, suc, ◌+◌, ◌≤◌, ◌<◌, List, [], ◌∷◌, Option, none, some, ◌≡◌, refl, arith, length,
  length-append,
}
use soap_sqlx.Portable.{LogicalOperator, logical_and, logical_or}
use soap_sqlx.Sql.{
  Column, Test, null, not_null, compares, resembles, among, not_among, Hole, print_hole,
  print_more_holes, print_column, print_test, Sql, Sqls, falsity, test, single, several, nil, cons,
  between, print, print_more,
}
use soap_sqlx.Sql.Chars.{Text, chars, strip, strip-append}
use soap_sqlx.Sql.Reader.{read_between, read_item, read, read_after, read_more}
use soap_sqlx.Sql.Sizes.{size, size_more, size_positive, size_more_positive, size-length}
use soap_sqlx.Sql.Reads.Holes.{Ends}
use soap_sqlx.Sql.Reads.Tests.{
  IsName, read_column-print_column, IsTest, test_size, read_test-print_test,
}

-- What can be read: columns with the names of identifiers, casts with the names of types.
abbrev mutual
  pub IsReadable : Sql → Type 0
  IsReadable falsity = Unit
  IsReadable (test c t) = IsName c.name × IsTest t
  IsReadable (single a) = IsReadable a
  IsReadable (several op a b cs) = IsReadable a × IsReadable b × AllReadable cs

  pub AllReadable : Sqls → Type 0
  AllReadable nil = Unit
  AllReadable (cons c cs) = IsReadable c × AllReadable cs

read_between-between :
    (op : LogicalOperator) (rest : Text) → read_between (between op ++ rest) ≡ some (op, rest)
read_between-between logical_and rest = refl
read_between-between logical_or rest = refl

strip_close : (op : LogicalOperator) (rest : Text) → strip (chars ")") (between op ++ rest) ≡ none
strip_close logical_and rest = refl
strip_close logical_or rest = refl

Ends-between : (op : LogicalOperator) (rest : Text) → Ends (between op ++ rest)
Ends-between logical_and rest = omega arith
Ends-between logical_or rest = omega arith

Ends-print_more : (op : LogicalOperator) (cs : Sqls) (rest : Text) → Ends (print_more op cs ++ rest)
unfolding print_more
Ends-print_more op nil rest = omega arith
Ends-print_more op (cons c cs) rest = rw append_assoc (Ends-between op _)

read_item-print :
    (fuel : ℕ) (c : Column) (t : Test) (rest : Text)
    → test_size t ≤ fuel
    → IsName c.name
    → IsTest t
    → Ends rest
    → read_item fuel ((print_column c ++ print_test t) ++ rest) ≡ some (test c t, rest)
read_item-print fuel c t rest enough named good ends =
    rw
      (
        append_assoc,
        read_column-print_column c t rest named,
        read_test-print_test fuel t rest enough good ends,
      )
      refl

mutual
  unfolding read print size read_after

  pub read-print :
      (fuel : ℕ) (e : Sql) (rest : Text)
      → size e ≤ fuel
      → IsReadable e
      → Ends rest
      → read fuel (print e ++ rest) ≡ some (e, rest)
  read-print zero e rest enough good ends = absurd (omega (arith, size_positive e))
  read-print (suc fuel) falsity rest enough good ends = refl
  read-print (suc fuel) (test c t) rest enough (named, good) ends =
      read_item-print fuel c t rest (omega arith) named good ends
  read-print (suc zero) (single a) rest enough good ends = absurd (omega arith)
  read-print (suc (suc fuel)) (single a) rest enough good ends =
      rw
        (append_assoc, read-print (suc fuel) a (chars ")" ++ rest) (omega arith) good (omega arith))
        refl
  read-print (suc zero) (several op a b cs) rest enough good ends = absurd (omega arith)
  read-print (suc (suc fuel)) (several op a b cs) rest enough (good_a, good_b, good) ends =
      rw
        (
          append_assoc,
          append_assoc,
          append_assoc,
          read-print (suc fuel) a (between op ++ (print b ++ (print_more op cs ++ rest)))
              (omega arith) good_a (Ends-between op _),
          strip_close op (print b ++ (print_more op cs ++ rest)),
          read_between-between op (print b ++ (print_more op cs ++ rest)),
          read-print fuel b (print_more op cs ++ rest) (omega arith) good_b
              (Ends-print_more op cs rest),
          read_more-print_more fuel op cs rest (omega arith) good,
        )
        refl

  read_more-print_more :
      (fuel : ℕ) (op : LogicalOperator) (cs : Sqls) (rest : Text)
      → size_more cs ≤ fuel
      → AllReadable cs
      → read_more fuel op (print_more op cs ++ rest) ≡ some (cs, rest)
  read_more-print_more zero op cs rest enough good = absurd (omega (arith, size_more_positive cs))
  read_more-print_more (suc fuel) op nil rest enough good = refl
  read_more-print_more (suc fuel) op (cons c cs) rest enough (good_c, good) =
      rw
        (
          append_assoc,
          append_assoc,
          strip_close op (print c ++ (print_more op cs ++ rest)),
          strip-append (between op) (print c ++ (print_more op cs ++ rest)),
          read-print fuel c (print_more op cs ++ rest) (omega arith) good_c
              (Ends-print_more op cs rest),
          read_more-print_more fuel op cs rest (omega arith) good,
        )
        refl

-- The whole of a text, as a condition.
abbrev whole : Option (Sql × Text) → Option Sql
whole (some (e, [])) = some e
whole _ = none

abbrev pub read_sql : Text → Option Sql
read_sql s = whole (read (length s) s)

pub read_sql-print : (e : Sql) → IsReadable e → read_sql (print e) ≡ some e
read_sql-print e good =
    let done : read (length (print e)) (print e) ≡ some (e, []) =
      rw append-nil at (read-print (length (print e)) e [] (size-length e) good tt) in
    rw done refl
