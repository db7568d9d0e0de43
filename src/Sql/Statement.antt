-- ===== src/Sql/Statement.antt =====
-- The grammar of the statements that src/postgres/repository.rs writes, with a reader: insertions and
-- replacements, with their `RETURNING` clause.
pub mod Lists
pub mod Reads
use mathlib.Core.List.{◌++◌}
use soap_sqlx.Prelude.{ℕ, zero, suc, List, [], ◌∷◌, Option, none, some, length}
use soap_sqlx.Sql.{Hole, print_hole}
use soap_sqlx.Sql.Chars.{Text, chars, strip, span, is_word}
use soap_sqlx.Sql.Reader.{Read, and_then, expect, if_stripped, read_hole}

-- One item or more.
pub record Items (A : Type 0) : Type 0 where
  pub first : A
  pub others : List A

pub record Table : Type 0 where
  pub schema : Option Text
  pub name : Text

-- What a column is given: `DEFAULT` or a placeholder.
pub data Given : Type 0 where
  left : Given
  bound : Hole → Given

pub record Assignment : Type 0 where
  pub column : Text
  pub given : Given

pub record Row : Type 0 where
  pub columns : Items Text
  pub values : Items Given

-- `INSERT`: of a row, or of a row of defaults alone.
pub record Insertion : Type 0 where
  pub table : Table
  pub row : Option Row
  pub returning : Option (Items Text)

-- `UPDATE`: of the rows whose key equals a placeholder.
pub record Replacement : Type 0 where
  pub table : Table
  pub assignments : Items Assignment
  pub key : Text
  pub equals : Hole
  pub returning : Option (Items Text)

abbrev pub print_name : Text → Text
print_name name = chars "\"" ++ (name ++ chars "\"")

abbrev pub print_schema : Option Text → Text → Text
print_schema none name = print_name name
print_schema (some schema) name = print_name schema ++ (chars "." ++ print_name name)

abbrev pub print_table : Table → Text
print_table t = print_schema t.schema t.name

abbrev pub print_given : Given → Text
print_given left = chars "DEFAULT"
print_given (bound h) = print_hole h

abbrev pub print_assignment : Assignment → Text
print_assignment a = print_name a.column ++ (chars " = " ++ print_given a.given)

abbrev pub print_others : {A : Type 0} → (A → Text) → List A → Text
print_others show [] = []
print_others show (a ∷ more) = chars ", " ++ (show a ++ print_others show more)

abbrev pub print_items : {A : Type 0} → (A → Text) → Items A → Text
print_items show items = show items.first ++ print_others show items.others

abbrev pub print_row : Option Row → Text
print_row none = chars " DEFAULT VALUES"
print_row (some row) =
    chars " ("
    ++ (print_items print_name row.columns
        ++ (chars ") VALUES (" ++ (print_items print_given row.values ++ chars ")")))

abbrev pub print_returning : Option (Items Text) → Text
print_returning none = []
print_returning (some columns) = chars " RETURNING " ++ print_items print_name columns

abbrev pub print_insertion : Insertion → Text
print_insertion i =
    chars "INSERT INTO "
    ++ (print_table i.table ++ (print_row i.row ++ print_returning i.returning))

abbrev pub print_replacement : Replacement → Text
print_replacement r =
    chars "UPDATE "
    ++ (print_table r.table
        ++ (chars " SET "
            ++ (print_items print_assignment r.assignments
                ++ (chars " WHERE "
                    ++ (print_name r.key
                        ++ (chars " = "
                            ++ (print_hole r.equals ++ print_returning r.returning)))))))

abbrev pub read_name : Text → Read Text
read_name s =
    expect (strip (chars "\"") s)
      (λ s. expect (strip (chars "\"") (span is_word s).1) (λ s'. some ((span is_word s).0, s')))

abbrev pub read_table : Text → Read Table
read_table s = and_then (read_name s) (λ a s.
    if_stripped (strip (chars ".") s)
      (λ s. and_then (read_name s) (λ b s. some (record { schema = some a; name = b }, s)))
      (some (record { schema = none; name = a }, s)))

abbrev pub read_given : Text → Read Given
read_given s =
    if_stripped (strip (chars "DEFAULT") s) (λ s. some (left, s))
      (and_then (read_hole s) (λ h s. some (bound h, s)))

abbrev pub read_assignment : Text → Read Assignment
read_assignment s = and_then (read_name s) (λ c s.
    expect (strip (chars " = ") s)
      (λ s. and_then (read_given s) (λ g s. some (record { column = c; given = g }, s))))

abbrev pub read_others : {A : Type 0} → (Text → Read A) → ℕ → Text → Read (List A)
read_others reader zero s = none
read_others reader (suc fuel) s =
    if_stripped (strip (chars ", ") s)
      (λ s.
        and_then (reader s)
          (λ a s. and_then (read_others reader fuel s) (λ more s. some (a ∷ more, s))))
      (some ([], s))

abbrev pub read_items : {A : Type 0} → (Text → Read A) → Text → Read (Items A)
read_items reader s = and_then (reader s) (λ a s.
    and_then (read_others reader (suc (length s)) s)
      (λ more s. some (record { first = a; others = more }, s)))

abbrev pub read_row : Text → Read (Option Row)
read_row s =
    if_stripped (strip (chars " DEFAULT VALUES") s) (λ s. some (none, s))
      (expect (strip (chars " (") s) (λ s. and_then (read_items read_name s) (λ columns s.
        expect (strip (chars ") VALUES (") s) (λ s. and_then (read_items read_given s) (λ values s.
          expect (strip (chars ")") s)
            (λ s. some (some (record { columns = columns; values = values }), s)))))))

abbrev pub read_returning : Text → Read (Option (Items Text))
read_returning s =
    if_stripped (strip (chars " RETURNING ") s)
      (λ s. and_then (read_items read_name s) (λ columns s. some (some columns, s)))
      (some (none, s))

-- A statement is read to its end.
abbrev pub to_end : {A : Type 0} → A → Text → Option A
to_end a [] = some a
to_end a (_ ∷ _) = none

abbrev pub finally : {A : Type 0} → Option Text → (Text → Option A) → Option A
finally none f = none
finally (some s) f = f s

abbrev pub read_insertion : Text → Option Insertion
read_insertion s = finally (strip (chars "INSERT INTO ") s) (λ s. and_then (read_table s) (λ t s.
    and_then (read_row s) (λ row s.
      and_then (read_returning s)
        (λ columns s. to_end (record { table = t; row = row; returning = columns }) s))))

abbrev pub read_replacement : Text → Option Replacement
read_replacement s = finally (strip (chars "UPDATE ") s) (λ s. and_then (read_table s) (λ t s.
    finally (strip (chars " SET ") s) (λ s.
      and_then (read_items read_assignment s) (λ assignments s.
        finally (strip (chars " WHERE ") s) (λ s. and_then (read_name s) (λ key s.
          finally (strip (chars " = ") s) (λ s. and_then (read_hole s) (λ h s.
            and_then (read_returning s) (λ columns s.
              to_end
                (record {
                  table = t;
                  assignments = assignments;
                  key = key;
                  equals = h;
                  returning = columns;
                })
                s)))))))))
