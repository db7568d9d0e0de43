-- ===== src/Sql/Statement/Reads.antt =====
-- The reader of the statements takes what is printed back to what it was printed from.
use mathlib.Core.List.{◌++◌, append_assoc, append-nil}
use soap_sqlx.Prelude.{List, [], ◌∷◌, Option, none, some, ◌≡◌, refl, ap, ◌∙◌, All, arith}
use soap_sqlx.Sql.{print_hole}
use soap_sqlx.Sql.Chars.{Text, chars, strip}
use soap_sqlx.Sql.Reads.Holes.{Ends, IsCast, read_hole-print_hole}
use soap_sqlx.Sql.Reads.Tests.{IsName}
use soap_sqlx.Sql.Statement.{
  Items, Table, Given, Assignment, Row, Insertion, Replacement, print_name, print_schema,
  print_given, print_assignment, print_items, print_row, print_returning, print_insertion,
  print_replacement, read_name, read_table, read_given, read_assignment, read_items, read_row,
  read_returning, read_insertion, read_replacement,
}
use soap_sqlx.Sql.Statement.Lists.{
  read_name-print_name, IsGiven, read_given-print_given, IsAssignment,
  read_assignment-print_assignment, read_items-print_items,
}

abbrev pub IsSchema : Option Text → Type 0
IsSchema none = Unit
IsSchema (some schema) = IsName schema

abbrev pub IsTable : Table → Type 0
IsTable t = IsSchema t.schema × IsName t.name

-- Every item of a list has a property.
abbrev pub EveryItem : {A : Type 0} → (A → Type 0) → Items A → Type 0
EveryItem P items = P items.first × All P items.others

abbrev pub IsRow : Option Row → Type 0
IsRow none = Unit
IsRow (some row) = EveryItem IsName row.columns × EveryItem IsGiven row.values

abbrev pub IsReturning : Option (Items Text) → Type 0
IsReturning none = Unit
IsReturning (some columns) = EveryItem IsName columns

abbrev pub IsInserting : Insertion → Type 0
IsInserting i = IsTable i.table × IsRow i.row × IsReturning i.returning

abbrev pub IsReplacing : Replacement → Type 0
IsReplacing r =
    IsTable r.table
    × EveryItem IsAssignment r.assignments
    × IsName r.key
    × IsCast r.equals.cast
    × IsReturning r.returning

read_schema :
    (schema : Option Text) (name rest : Text)
    → IsSchema schema
    → IsName name
    → strip (chars ".") rest ≡ none
    → read_table (print_schema schema name ++ rest)
      ≡ some (record { schema = schema; name = name }, rest)
read_schema none name rest good named ends = rw (read_name-print_name name rest named, ends) refl
read_schema (some schema) name rest good named ends =
    rw
      (
        append_assoc,
        read_name-print_name schema (chars "." ++ (print_name name ++ rest)) good,
        read_name-print_name name rest named,
      )
      refl

every_weaker :
    {A : Type 0} {P Q : A → Type 0}
    → ((a : A) → P a → Q a)
    → (more : List A) → All P more
    → All Q more
every_weaker f [] h = tt
every_weaker f (a ∷ more) (h, hs) = (f a h, every_weaker f more hs)

names_read :
    (columns : Items Text) (rest : Text)
    → EveryItem IsName columns
    → Ends rest
    → strip (chars ", ") rest ≡ none
    → read_items read_name (print_items print_name columns ++ rest) ≡ some (columns, rest)
names_read columns rest (good, goods) = read_items-print_items read_name print_name columns rest (
  λ rest _. read_name-print_name columns.first rest good,
  every_weaker (λ name good rest _. read_name-print_name name rest good) columns.others goods,
)

givens_read :
    (values : Items Given) (rest : Text)
    → EveryItem IsGiven values
    → Ends rest
    → strip (chars ", ") rest ≡ none
    → read_items read_given (print_items print_given values ++ rest) ≡ some (values, rest)
givens_read values rest (good, goods) = read_items-print_items read_given print_given values rest (
  λ rest. read_given-print_given values.first rest good,
  every_weaker (λ g good rest. read_given-print_given g rest good) values.others goods,
)

assignments_read :
    (assignments : Items Assignment) (rest : Text)
    → EveryItem IsAssignment assignments
    → Ends rest
    → strip (chars ", ") rest ≡ none
    → read_items read_assignment (print_items print_assignment assignments ++ rest)
      ≡ some (assignments, rest)
assignments_read assignments rest (good, goods) =
    read_items-print_items read_assignment print_assignment assignments rest (
      λ rest. read_assignment-print_assignment assignments.first rest good,
      every_weaker (λ a good rest. read_assignment-print_assignment a rest good) assignments.others
          goods,
    )

row_read :
    (row : Option Row) (rest : Text)
    → IsRow row
    → read_row (print_row row ++ rest) ≡ some (row, rest)
row_read none rest good = refl
row_read (some row) rest (named, given) =
    let names = print_items print_name row.columns in
    let values = print_items print_given row.values in
    let flat : (names ++ (chars ") VALUES (" ++ (values ++ chars ")"))) ++ rest
        ≡ names ++ (chars ") VALUES (" ++ ((values ++ chars ")") ++ rest)) =
      append_assoc names _ rest in
    let flat' : (values ++ chars ")") ++ rest ≡ values ++ (chars ")" ++ rest) =
      append_assoc values _ rest in
    let after = chars ") VALUES (" ++ (values ++ (chars ")" ++ rest)) in
    let whole : print_row (some row) ++ rest ≡ chars " (" ++ (names ++ after) =
      ap (λ t. chars " (" ++ t) (flat ∙ ap (λ t. names ++ (chars ") VALUES (" ++ t)) flat') in
    ap read_row whole
    ∙ rw
        (
          names_read row.columns after named (omega arith) refl,
          givens_read row.values (chars ")" ++ rest) given (omega arith) refl,
        )
        refl

returning_read :
    (columns : Option (Items Text))
    → IsReturning columns
    → read_returning (print_returning columns) ≡ some (columns, [])
returning_read none good = refl
returning_read (some columns) good =
    let done : read_items read_name (print_items print_name columns) ≡ some (columns, []) =
      rw append-nil at (names_read columns [] good tt refl) in
    rw done refl

no_dot : (row : Option Row) (rest : Text) → strip (chars ".") (print_row row ++ rest) ≡ none
no_dot none rest = refl
no_dot (some row) rest = refl

pub read_insertion-print_insertion :
    (i : Insertion) → IsInserting i → read_insertion (print_insertion i) ≡ some i
read_insertion-print_insertion i ((schema, name), row, columns) =
    rw
      (
        read_schema i.table.schema i.table.name _ schema name
            (no_dot i.row (print_returning i.returning)),
        row_read i.row (print_returning i.returning) row,
        returning_read i.returning columns,
      )
      refl

Ends-print_returning : (columns : Option (Items Text)) → Ends (print_returning columns)
Ends-print_returning none = tt
Ends-print_returning (some columns) = omega arith

pub read_replacement-print_replacement :
    (r : Replacement) → IsReplacing r → read_replacement (print_replacement r) ≡ some r
read_replacement-print_replacement r ((schema, name), assignments, key, cast, columns) =
    let equation = chars " = " ++ (print_hole r.equals ++ print_returning r.returning) in
    let filter = chars " WHERE " ++ (print_name r.key ++ equation) in
    rw
      (
        read_schema r.table.schema r.table.name _ schema name refl,
        assignments_read r.assignments filter assignments (omega arith) refl,
        read_name-print_name r.key equation key,
        read_hole-print_hole r.equals (print_returning r.returning) cast
            (Ends-print_returning r.returning),
        returning_read r.returning columns,
      )
      refl
