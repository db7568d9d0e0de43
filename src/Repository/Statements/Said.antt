-- ===== src/Repository/Statements/Said.antt =====
-- What the statements of src/postgres/repository.rs say of an entity, as statements of the SQL grammar:
-- the table, the columns of the slots with what each is given, and the columns that are returned.
pub mod Texts
pub mod Names
pub mod Inserted
pub mod Updated
use soap_sqlx.Prelude.{
  ℕ, suc, ◌+◌, Bool, true, false, List, [], ◌∷◌, Option, none, some, ok, length, ◌≡◌,
}
use soap_sqlx.External.{External}
use soap_sqlx.Identifier.{PgIdentifier}
use soap_sqlx.Identifier.Grammar.{IsIdentifier}
use soap_sqlx.Mapping.{PgColumn, resolve}
use soap_sqlx.Mapping.Lookup.{HasValidColumns}
use soap_sqlx.Binding.{PgBindValue}
use soap_sqlx.Entity.{PgTable, PgEntityMapping, selectable_fields}
use soap_sqlx.Repository.{PgEntityCodec}
use soap_sqlx.Repository.Statements.Slots.{Slot, slot_binding, slot_bindings}
use soap_sqlx.Compiler.Meaning.{hole_of}
use soap_sqlx.Sql.Chars.{Text, chars}
use soap_sqlx.Sql.Statement.{
  Items, Table, Given, left, bound, Assignment, Row, Insertion, Replacement,
}

abbrev pub schema_of : Option PgIdentifier → Option Text
schema_of none = none
schema_of (some schema) = some (chars schema.text)

abbrev pub table_of : PgTable → Table
table_of table = record { schema = schema_of table.schema; name = chars table.name.text }

abbrev pub name_of : PgColumn → Text
name_of column = chars column.identifier.text

abbrev pub names_of : List PgColumn → List Text
names_of [] = []
names_of (column ∷ columns) = name_of column ∷ names_of columns

abbrev pub items_of : {A : Type 0} → List A → Option (Items A)
items_of [] = none
items_of (a ∷ more) = some (record { first = a; others = more })

-- The columns of a `RETURNING` clause, if it is asked for.
abbrev pub returning_of : Bool → List PgColumn → Option (Items Text)
returning_of false columns = none
returning_of true columns = items_of (names_of columns)

module _ (x : External) where
  -- A value that is left to the database is `DEFAULT`; any other is the next placeholder.
  abbrev pub given_of : ℕ → PgColumn → Option (PgBindValue x.types) → Given
  given_of n column none = left
  given_of n column (some _) = bound (hole_of n column.scalar_kind)

  abbrev pub givens_of : ℕ → List (Slot x) → List Given
  givens_of n [] = []
  givens_of n ((column, o) ∷ slots) =
      given_of n column o ∷ givens_of (n + length (slot_binding x o)) slots

  abbrev pub slot_names : List (Slot x) → List Text
  slot_names [] = []
  slot_names ((column, _) ∷ slots) = name_of column ∷ slot_names slots

  abbrev pub row_of : List (Slot x) → Option Row
  row_of [] = none
  row_of ((column, o) ∷ slots) = some (record {
    columns = record { first = name_of column; others = slot_names slots };
    values = record {
      first = given_of 0 column o;
      others = givens_of (0 + length (slot_binding x o)) slots;
    };
  })

  abbrev pub assignments_of : ℕ → List (Slot x) → List Assignment
  assignments_of n [] = []
  assignments_of n ((column, o) ∷ slots) =
      record { column = name_of column; given = given_of n column o }
      ∷ assignments_of (n + length (slot_binding x o)) slots

  -- The columns that fields are mapped to, in order.
  abbrev pub ColumnsOf : PgEntityMapping x → List x.FieldName → List PgColumn → Type 0
  ColumnsOf m [] [] = Unit
  ColumnsOf m [] (_ ∷ _) = ⊥
  ColumnsOf m (_ ∷ _) [] = ⊥
  ColumnsOf m (field ∷ fields) (column ∷ columns) =
      (resolve x m.fields field ≡ ok column) × ColumnsOf m fields columns

  -- The columns that a statement returns: all that can be selected, or none.
  abbrev pub Returned : PgEntityMapping x → Bool → List PgColumn → Type 0
  Returned m false columns = columns ≡ []
  Returned m true columns = ColumnsOf m (selectable_fields x m) columns

  abbrev pub IsSchemaNamed : Option PgIdentifier → Type 0
  IsSchemaNamed none = Unit
  IsSchemaNamed (some schema) = IsIdentifier schema.text

  -- The table and the columns have names of the identifier grammar.
  abbrev pub HasNames : PgEntityMapping x → Type 0
  HasNames m =
      IsSchemaNamed m.table.schema × IsIdentifier m.table.name.text × HasValidColumns x m.fields

  abbrev pub insertion_of : PgEntityMapping x → List (Slot x) → Bool → List PgColumn → Insertion
  insertion_of m slots returning columns = record {
    table = table_of m.table;
    row = row_of slots;
    returning = returning_of returning columns;
  }

  -- A replacement of no assignment is no statement. The placeholder of the key is the one after those of
  -- the assignments.
  abbrev pub replacement_of :
      PgEntityMapping x → List (Slot x) → PgColumn → Bool → List PgColumn → Option Replacement
  replacement_of m [] key returning columns = none
  replacement_of m ((column, o) ∷ slots) key returning columns = some (record {
    table = table_of m.table;
    assignments = record {
      first = record { column = name_of column; given = given_of 0 column o };
      others = assignments_of (0 + length (slot_binding x o)) slots;
    };
    key = name_of key;
    equals = hole_of (length (slot_bindings x ((column, o) ∷ slots))) key.scalar_kind;
    returning = returning_of returning columns;
  })
