-- ===== src/Sql/Reads/Tests.antt =====
-- The reader on printed columns and tests.
use mathlib.Core.List.{◌++◌, append_assoc}
use soap_sqlx.Prelude.{ℕ, suc, ◌≤◌, ◌<◌, List, some, code, true, ◌≡◌, refl, All, arith, length}
use soap_sqlx.Sql.{
  Form, plain, as_numeric, collated, Column, Hole, Comparator, equal, unequal, greater, at_least,
  less, at_most, Test, null, not_null, compares, resembles, among, not_among, print_hole,
  print_more_holes, print_form, print_column, print_test,
}
use soap_sqlx.Sql.Chars.{Text, chars, span, span-append, is_word}
use soap_sqlx.Sql.Reader.{read_form, read_column, read_comparison, read_set, read_like, read_test}
use soap_sqlx.Sql.Reads.Holes.{
  Ends, IsCast, read_hole-print_hole, Ends-print_more_holes, read_more_holes-print_more_holes,
}

read_form-print_form :
    (f : Form) (t : Test) (rest : Text)
    → read_form (print_form f ++ (print_test t ++ rest)) ≡ (f, print_test t ++ rest)
read_form-print_form as_numeric t rest = refl
read_form-print_form collated t rest = refl
read_form-print_form plain null rest = refl
read_form-print_form plain not_null rest = refl
read_form-print_form plain (compares equal h) rest = refl
read_form-print_form plain (compares unequal h) rest = refl
read_form-print_form plain (compares greater h) rest = refl
read_form-print_form plain (compares at_least h) rest = refl
read_form-print_form plain (compares less h) rest = refl
read_form-print_form plain (compares at_most h) rest = refl
read_form-print_form plain (resembles h) rest = refl
read_form-print_form plain (among h hs) rest = refl
read_form-print_form plain (not_among h hs) rest = refl

-- A name of word characters.
abbrev pub IsName : Text → Type 0
IsName = All (λ c. is_word (code c) ≡ true)

-- A column is read before any text that its form does not run into.
pub read_column-before :
    (c : Column) (rest : Text)
    → IsName c.name
    → read_form (print_form c.form ++ rest) ≡ (c.form, rest)
    → read_column (print_column c ++ rest) ≡ some (c, rest)
read_column-before c rest named ends =
    let spanned : span is_word (c.name ++ (chars "\"" ++ (print_form c.form ++ rest)))
        ≡ (c.name, chars "\"" ++ (print_form c.form ++ rest)) =
      span-append is_word c.name (chars "\"" ++ (print_form c.form ++ rest)) named refl in
    rw (append_assoc, spanned, ends) refl

pub read_column-print_column :
    (c : Column) (t : Test) (rest : Text)
    → IsName c.name
    → read_column (print_column c ++ (print_test t ++ rest)) ≡ some (c, print_test t ++ rest)
read_column-print_column c t rest named =
    read_column-before c (print_test t ++ rest) named (read_form-print_form c.form t rest)

-- Every placeholder of a test has a cast's name, if any.
abbrev pub IsTest : Test → Type 0
IsTest (compares c h) = IsCast h.cast
IsTest (resembles h) = IsCast h.cast
IsTest (among h hs) = IsCast h.cast × All (λ h. IsCast h.cast) hs
IsTest (not_among h hs) = IsCast h.cast × All (λ h. IsCast h.cast) hs
IsTest _ = Unit

abbrev pub test_size : Test → ℕ
test_size (among h hs) = suc (length hs)
test_size (not_among h hs) = suc (length hs)
test_size _ = 0

read_comparison-print_hole :
    (c : Comparator) (h : Hole) (rest : Text)
    → IsCast h.cast
    → Ends rest
    → read_comparison c (print_hole h ++ rest) ≡ some (compares c h, rest)
read_comparison-print_hole c h rest good ends = rw (read_hole-print_hole h rest good ends) refl

read_set-print_holes :
    (fuel : ℕ) (set : Hole → List Hole → Test) (h : Hole) (hs : List Hole) (rest : Text)
    → length hs < fuel
    → IsCast h.cast
    → All (λ h. IsCast h.cast) hs
    → read_set fuel set ((print_hole h ++ print_more_holes hs) ++ rest) ≡ some (set h hs, rest)
read_set-print_holes fuel set h hs rest enough good goods =
    rw
      (
        append_assoc,
        read_hole-print_hole h (print_more_holes hs ++ rest) good (Ends-print_more_holes hs rest),
        read_more_holes-print_more_holes fuel hs rest enough goods,
      )
      refl

read_like-print_hole :
    (h : Hole) (rest : Text)
    → IsCast h.cast
    → read_like ((print_hole h ++ chars " ESCAPE ''") ++ rest) ≡ some (resembles h, rest)
read_like-print_hole h rest good =
    rw (append_assoc, read_hole-print_hole h (chars " ESCAPE ''" ++ rest) good (omega arith)) refl

pub read_test-print_test :
    (fuel : ℕ) (t : Test) (rest : Text)
    → test_size t ≤ fuel
    → IsTest t
    → Ends rest
    → read_test fuel (print_test t ++ rest) ≡ some (t, rest)
read_test-print_test fuel null rest enough good ends = refl
read_test-print_test fuel not_null rest enough good ends = refl
read_test-print_test fuel (compares equal h) rest enough good ends =
    read_comparison-print_hole equal h rest good ends
read_test-print_test fuel (compares unequal h) rest enough good ends =
    read_comparison-print_hole unequal h rest good ends
read_test-print_test fuel (compares greater h) rest enough good ends =
    read_comparison-print_hole greater h rest good ends
read_test-print_test fuel (compares at_least h) rest enough good ends =
    read_comparison-print_hole at_least h rest good ends
read_test-print_test fuel (compares less h) rest enough good ends =
    read_comparison-print_hole less h rest good ends
read_test-print_test fuel (compares at_most h) rest enough good ends =
    read_comparison-print_hole at_most h rest good ends
read_test-print_test fuel (resembles h) rest enough good ends = read_like-print_hole h rest good
read_test-print_test fuel (among h hs) rest enough (good, goods) ends =
    read_set-print_holes fuel among h hs rest enough good goods
read_test-print_test fuel (not_among h hs) rest enough (good, goods) ends =
    read_set-print_holes fuel not_among h hs rest enough good goods
