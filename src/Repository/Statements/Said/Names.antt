-- ===== src/Repository/Statements/Said/Names.antt =====
-- What the statements of src/postgres/repository.rs say can be read, if the mapping's names are
-- identifiers.
use soap_sqlx.Prelude.{
  ℕ, ◌+◌, Bool, true, false, List, [], ◌∷◌, Option, none, some, ok, length, ◌≡◌, All,
}
use soap_sqlx.External.{External}
use soap_sqlx.Identifier.{PgIdentifier}
use soap_sqlx.Mapping.{PgColumn, resolve}
use soap_sqlx.Mapping.Lookup.{resolve-IsIdentifier}
use soap_sqlx.Binding.{PgBindValue}
use soap_sqlx.Entity.{PgEntityMapping}
use soap_sqlx.Repository.{PgEntityCodec}
use soap_sqlx.Repository.Statements.Slots.{Slot, SlotsOf, slot_binding}
use soap_sqlx.Repository.Statements.Said.{
  schema_of, table_of, name_of, names_of, items_of, returning_of, given_of, givens_of, slot_names,
  row_of, assignments_of, ColumnsOf, Returned, IsSchemaNamed, HasNames,
}
use soap_sqlx.Compiler.Meaning.Readable.{IsIdentifier-IsName, text_of-IsCast}
use soap_sqlx.Sql.Chars.{Text}
use soap_sqlx.Sql.Reads.Tests.{IsName}
use soap_sqlx.Sql.Statement.Lists.{IsGiven, IsAssignment}
use soap_sqlx.Sql.Statement.Reads.{IsSchema, IsTable, IsRow, IsReturning}

module _ (x : External) where
  schema_of-IsSchema :
      (schema : Option PgIdentifier) → IsSchemaNamed x schema → IsSchema (schema_of schema)
  schema_of-IsSchema none h = tt
  schema_of-IsSchema (some schema) h = IsIdentifier-IsName _ h

  pub table_of-IsTable : (m : PgEntityMapping x) → HasNames x m → IsTable (table_of m.table)
  table_of-IsTable m (schema, name, _) =
      (schema_of-IsSchema m.table.schema schema, IsIdentifier-IsName _ name)

  pub given_of-IsGiven :
      (n : ℕ) (column : PgColumn) (o : Option (PgBindValue x.types))
      → IsGiven (given_of x n column o)
  given_of-IsGiven n column none = tt
  given_of-IsGiven n column (some b) = text_of-IsCast column.scalar_kind

  givens_of-IsGiven : (n : ℕ) (slots : List (Slot x)) → All IsGiven (givens_of x n slots)
  givens_of-IsGiven n [] = tt
  givens_of-IsGiven n ((column, o) ∷ slots) =
      (given_of-IsGiven n column o, givens_of-IsGiven (n + length (slot_binding x o)) slots)

  pub mapped-IsName :
      (m : PgEntityMapping x) (field : x.FieldName) (column : PgColumn)
      → HasNames x m
      → resolve x m.fields field ≡ ok column
      → IsName (name_of column)
  mapped-IsName m field column (_, _, valid) found =
      IsIdentifier-IsName _ (resolve-IsIdentifier x m.fields field column valid found)

  names_of-IsName :
      (m : PgEntityMapping x) (fields : List x.FieldName) (columns : List PgColumn)
      → HasNames x m
      → ColumnsOf x m fields columns
      → All IsName (names_of columns)
  names_of-IsName m [] [] named h = tt
  names_of-IsName m [] (_ ∷ _) named h = absurd h
  names_of-IsName m (_ ∷ _) [] named h = absurd h
  names_of-IsName m (field ∷ fields) (column ∷ columns) named (found, h) =
      (mapped-IsName m field column named found, names_of-IsName m fields columns named h)

  items_of-IsReturning : (names : List Text) → All IsName names → IsReturning (items_of names)
  items_of-IsReturning [] h = tt
  items_of-IsReturning (name ∷ names) h = h

  pub returning_of-IsReturning :
      (m : PgEntityMapping x) (returning : Bool) (columns : List PgColumn)
      → HasNames x m
      → Returned x m returning columns
      → IsReturning (returning_of returning columns)
  returning_of-IsReturning m false columns named h = tt
  returning_of-IsReturning m true columns named h =
      items_of-IsReturning (names_of columns) (names_of-IsName m _ columns named h)

  module _ {E Key : Type 0} (codec : PgEntityCodec x E Key) (entity : E)
      (named : HasNames x codec.mapping) where
    slot_names-IsName :
        (fields : List x.FieldName) (slots : List (Slot x))
        → SlotsOf x codec entity fields slots
        → All IsName (slot_names x slots)
    slot_names-IsName [] [] h = tt
    slot_names-IsName [] (_ ∷ _) h = absurd h
    slot_names-IsName (_ ∷ _) [] h = absurd h
    slot_names-IsName (field ∷ fields) ((column, o) ∷ slots) (found, _, h) =
        (mapped-IsName codec.mapping field column named found, slot_names-IsName fields slots h)

    pub row_of-IsRow :
        (fields : List x.FieldName) (slots : List (Slot x))
        → SlotsOf x codec entity fields slots
        → IsRow (row_of x slots)
    row_of-IsRow fields [] h = tt
    row_of-IsRow fields ((column, o) ∷ slots) h = (
      slot_names-IsName fields ((column, o) ∷ slots) h,
      givens_of-IsGiven 0 ((column, o) ∷ slots),
    )

    pub assignments_of-IsAssignment :
        (n : ℕ) (fields : List x.FieldName) (slots : List (Slot x))
        → SlotsOf x codec entity fields slots
        → All IsAssignment (assignments_of x n slots)
    assignments_of-IsAssignment n [] [] h = tt
    assignments_of-IsAssignment n [] (_ ∷ _) h = absurd h
    assignments_of-IsAssignment n (_ ∷ _) [] h = absurd h
    assignments_of-IsAssignment n (field ∷ fields) ((column, o) ∷ slots) (found, _, h) = (
      (mapped-IsName codec.mapping field column named found, given_of-IsGiven n column o),
      assignments_of-IsAssignment (n + length (slot_binding x o)) fields slots h,
    )
