-- ===== src/Sql.antt =====
-- The grammar of the conditions that src/postgres/compiler.rs writes, as PostgreSQL reads it:
-- parenthesised junctions of tests on quoted columns.
pub mod Chars
pub mod Reader
pub mod Sizes
pub mod Reads
pub mod Search
pub mod Statement
use mathlib.Core.List.{◌++◌}
use soap_sqlx.Prelude.{ℕ, Char, List, [], ◌∷◌, Option, none, some, nat_to_string}
use soap_sqlx.Portable.{LogicalOperator, logical_and, logical_or}
use soap_sqlx.Sql.Chars.{Text, chars}

-- What follows the column's name.
pub data Form : Type 0 where
  plain as_numeric collated : Form

pub record Column : Type 0 where
  pub name : Text
  pub form : Form

-- A placeholder: its number and its cast.
pub record Hole : Type 0 where
  pub number : ℕ
  pub cast : Option Text

pub data Comparator : Type 0 where
  equal unequal greater at_least less at_most : Comparator

pub data Test : Type 0 where
  null not_null : Test
  compares : Comparator → Hole → Test
  resembles : Hole → Test
  among not_among : Hole → List Hole → Test

-- A junction has two items or more; a single item in parentheses is no junction.
mutual
  pub data Sql : Type 0 where
    falsity : Sql
    test : Column → Test → Sql
    single : Sql → Sql
    several : LogicalOperator → Sql → Sql → Sqls → Sql

  pub data Sqls : Type 0 where
    nil : Sqls
    cons : Sql → Sqls → Sqls

abbrev pub between : LogicalOperator → Text
between logical_and = chars " AND "
between logical_or = chars " OR "

abbrev pub print_form : Form → Text
print_form plain = []
print_form as_numeric = chars "::numeric"
print_form collated = chars " COLLATE \"C\""

abbrev pub print_column : Column → Text
print_column c = chars "\"" ++ (c.name ++ (chars "\"" ++ print_form c.form))

abbrev pub print_cast : Option Text → Text
print_cast none = []
print_cast (some cast) = chars "::" ++ cast

abbrev pub print_hole : Hole → Text
print_hole h = chars "$" ++ (chars (nat_to_string h.number) ++ print_cast h.cast)

abbrev pub comparator_text : Comparator → Text
comparator_text equal = chars " = "
comparator_text unequal = chars " <> "
comparator_text greater = chars " > "
comparator_text at_least = chars " >= "
comparator_text less = chars " < "
comparator_text at_most = chars " <= "

abbrev pub print_more_holes : List Hole → Text
print_more_holes [] = chars ")"
print_more_holes (h ∷ hs) = chars ", " ++ (print_hole h ++ print_more_holes hs)

abbrev pub print_test : Test → Text
print_test null = chars " IS NULL"
print_test not_null = chars " IS NOT NULL"
print_test (compares c h) = comparator_text c ++ print_hole h
print_test (resembles h) = chars " LIKE " ++ (print_hole h ++ chars " ESCAPE ''")
print_test (among h hs) = chars " IN (" ++ (print_hole h ++ print_more_holes hs)
print_test (not_among h hs) = chars " NOT IN (" ++ (print_hole h ++ print_more_holes hs)

unfoldable mutual
  pub print : Sql → Text
  print falsity = chars "FALSE"
  print (test c t) = print_column c ++ print_test t
  print (single a) = chars "(" ++ (print a ++ chars ")")
  print (several op a b cs) =
      chars "(" ++ (print a ++ (between op ++ (print b ++ print_more op cs)))

  pub print_more : LogicalOperator → Sqls → Text
  print_more op nil = chars ")"
  print_more op (cons c cs) = between op ++ (print c ++ print_more op cs)
