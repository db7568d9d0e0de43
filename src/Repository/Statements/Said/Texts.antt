-- ===== src/Repository/Statements/Said/Texts.antt =====
-- The parts of the texts of the statements of src/postgres/repository.rs are the print of what they say.
use mathlib.Core.List.{◌++◌, append-nil}
use soap_sqlx.Prelude.{
  ℕ, suc, ◌+◌, true, false, Bool, String, List, [], ◌∷◌, Option, none, some, ok, >>=-eq-ok, collect,
  length, ◌≡◌, refl, sym, ap, ◌∙◌, ok-injective,
}
use soap_sqlx.External.{External}
use soap_sqlx.Identifier
use soap_sqlx.Identifier.{PgIdentifier}
use soap_sqlx.Mapping.{PgScalarKind, PgColumn, resolve}
use soap_sqlx.Binding.{PgBindValue, placeholder_cast}
use soap_sqlx.Entity.{PgTable, quoted, selectable_fields}
use soap_sqlx.Repository.{
  PgEntityCodec, join, placeholder_as, placeholder, quoted_column, selected_columns,
}
use soap_sqlx.Repository.Statements.{value_alone, assignment}
use soap_sqlx.Repository.Statements.Slots.{Slot, slot_text, slot_texts, slot_binding}
use soap_sqlx.Repository.Statements.Replaceable.{IsNonempty}
use soap_sqlx.Repository.Statements.Compiled.{slot_columns, WithReturning}
use soap_sqlx.Repository.Statements.Said.{
  Returned, table_of, names_of, items_of, returning_of, given_of, givens_of, slot_names,
  assignments_of, ColumnsOf,
}
use soap_sqlx.Compiler.Meaning.{text_of, hole_of}
use soap_sqlx.Compiler.Meaning.Predicates.{chars-quoted}
use soap_sqlx.Sql.{print_hole}
use soap_sqlx.Sql.Chars.{chars, chars-append}
use soap_sqlx.Sql.Statement.{
  print_name, print_table, print_given, print_assignment, print_others, print_returning,
}

chars-schema :
    (schema : Option PgIdentifier) (name : PgIdentifier)
    → let t : PgTable = record { schema = schema; name = name } in
      chars (quoted t) ≡ print_table (table_of t)
unfolding quoted
chars-schema none name = chars-quoted name
chars-schema (some schema) name =
    rw (chars-append, chars-append, chars-quoted schema, chars-quoted name) refl

pub chars-table : (t : PgTable) → chars (quoted t) ≡ print_table (table_of t)
chars-table t = chars-schema t.schema t.name

chars-placeholder_as :
    (cast : Option String) (n : ℕ)
    → chars (placeholder_as cast (suc n))
      ≡ print_hole (record { number = suc n; cast = text_of cast })
chars-placeholder_as none n = rw (chars-append, append-nil) refl
chars-placeholder_as (some cast) n = rw (chars-append, chars-append, chars-append) refl

pub chars-placeholder :
    (n : ℕ) (kind : PgScalarKind) → chars (placeholder (suc n) kind) ≡ print_hole (hole_of n kind)
unfolding placeholder
chars-placeholder n kind = chars-placeholder_as (placeholder_cast kind) n

pub chars-join :
    (s : String) (more : List String) → chars (join (s ∷ more)) ≡ chars s ++ print_others chars more
chars-join s [] = sym (append-nil (chars s))
chars-join s (t ∷ more) = rw (chars-append, chars-append, chars-join t more) refl

module _ (x : External) where
  pub chars-slot_text :
      (n : ℕ) (column : PgColumn) (o : Option (PgBindValue x.types))
      → chars (slot_text x n column o) ≡ print_given (given_of x n column o)
  chars-slot_text n column none = refl
  chars-slot_text n column (some b) = chars-placeholder n column.scalar_kind

  pub others-slot_columns :
      (slots : List (Slot x))
      → print_others chars (slot_columns x slots) ≡ print_others print_name (slot_names x slots)
  others-slot_columns [] = refl
  others-slot_columns ((column, o) ∷ slots) =
      rw (chars-quoted column.identifier, others-slot_columns slots) refl

  module _ {E Key : Type 0} (codec : PgEntityCodec x E Key) where
    pub others-values :
        (n : ℕ) (slots : List (Slot x))
        → print_others chars (slot_texts x (value_alone x codec) n slots)
          ≡ print_others print_given (givens_of x n slots)
    others-values n [] = refl
    others-values n ((column, o) ∷ slots) =
        rw (chars-slot_text n column o, others-values (n + length (slot_binding x o)) slots) refl

    pub chars-assignment :
        (n : ℕ) (column : PgColumn) (o : Option (PgBindValue x.types))
        → chars (assignment x codec column (slot_text x n column o))
          ≡ print_assignment
              (record { column = chars column.identifier.text; given = given_of x n column o })
    chars-assignment n column o =
        rw (chars-append, chars-append, chars-quoted column.identifier, chars-slot_text n column o)
          refl

    pub others-assignments :
        (n : ℕ) (slots : List (Slot x))
        → print_others chars (slot_texts x (assignment x codec) n slots)
          ≡ print_others print_assignment (assignments_of x n slots)
    others-assignments n [] = refl
    others-assignments n ((column, o) ∷ slots) =
        rw (chars-assignment n column o, others-assignments (n + length (slot_binding x o)) slots)
          refl

    columns_named :
        (fields : List x.FieldName) (texts : List String)
        → collect (quoted_column x codec) fields ≡ ok texts
        → (columns : List PgColumn) × ColumnsOf x codec.mapping fields columns
          × (print_others chars texts ≡ print_others print_name (names_of columns))
    columns_named [] texts h = let done : [] ≡ texts = ok-injective h in ([], tt, rw (← done) refl)
    columns_named (field ∷ fields) texts h =
        let (text, named, h1) = >>=-eq-ok (quoted_column x codec field) _ h in
        let (rest, others, h2) = >>=-eq-ok (collect (quoted_column x codec) fields) _ h1 in
        let (column, found, h3) = >>=-eq-ok (resolve x codec.mapping.fields field) _ named in
        let (columns, columns_of, same) = columns_named fields rest others in
        let done : text ∷ rest ≡ texts = ok-injective h2 in
        let quoted_text : Identifier.quoted column.identifier ≡ text = ok-injective h3 in
        (
          column ∷ columns,
          (found, columns_of),
          rw (← done, ← quoted_text, chars-quoted column.identifier, same) refl,
        )

    some_columns :
        (fields : List x.FieldName) (texts : List String)
        → IsNonempty fields
        → collect (quoted_column x codec) fields ≡ ok texts
        → (columns : List PgColumn) × ColumnsOf x codec.mapping fields columns
          × (chars " RETURNING " ++ chars (join texts)
              ≡ print_returning (items_of (names_of columns)))
    some_columns [] texts some_field h = absurd some_field
    some_columns (field ∷ fields) texts some_field h =
        let (text, named, h1) = >>=-eq-ok (quoted_column x codec field) _ h in
        let (rest, others, h2) = >>=-eq-ok (collect (quoted_column x codec) fields) _ h1 in
        let (column, found, h3) = >>=-eq-ok (resolve x codec.mapping.fields field) _ named in
        let (columns, columns_of, same) = columns_named fields rest others in
        let done : text ∷ rest ≡ texts = ok-injective h2 in
        let quoted_text : Identifier.quoted column.identifier ≡ text = ok-injective h3 in
        (
          column ∷ columns,
          (found, columns_of),
          rw (← done, chars-join, ← quoted_text, chars-quoted column.identifier, same) refl,
        )

    -- The text of a statement with its `RETURNING` clause.
    pub chars-returning :
        (returning : Bool) (body sql : String)
        → (returning ≡ true → IsNonempty (selectable_fields x codec.mapping))
        → WithReturning x codec returning body sql
        → (columns : List PgColumn) × Returned x codec.mapping returning columns
          × (chars sql ≡ chars body ++ print_returning (returning_of returning columns))
    unfolding selected_columns
    chars-returning false body sql some_field same =
        ([], refl, ap chars same ∙ sym (append-nil (chars body)))
    chars-returning true body sql some_field (listed, selected, same) =
        let (texts, found, done) =
          >>=-eq-ok (collect (quoted_column x codec) (selectable_fields x codec.mapping)) _
            selected in
        let (columns, columns_of, shown) = some_columns _ texts (some_field refl) found in
        let joined : join texts ≡ listed = ok-injective done in
        (
          columns,
          columns_of,
          rw (same, chars-append, chars-append, ← joined) (ap (λ t. chars body ++ t) shown),
        )
