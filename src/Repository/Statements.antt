-- ===== src/Repository/Statements.antt =====
-- The statements that src/postgres/repository.rs compiles from an entity.
pub mod Slots
pub mod Compiled
pub mod Replaced
pub mod Accepts
pub mod Replaceable
pub mod Said
use Prim.Native.String.{◌++◌}
use mathlib.Core.List.{◌++◌ as append}
use soap_sqlx.Prelude.{
  Bool, true, false, not, String, List, [], ◌∷◌, ok, err, ◌>>=◌, collect, filter, length,
  if◌then◌else◌,
}
use soap_sqlx.External.{External, SoapResult, unsupported}
use soap_sqlx.Identifier
use soap_sqlx.Mapping.{PgColumn, resolve}
use soap_sqlx.Value.{PgValue, is_default}
use soap_sqlx.Binding.{PgBindValue, normalize_entity_binding}
use soap_sqlx.Entity.{quoted, insertable_fields, updatable_fields}
use soap_sqlx.Repository.{
  PgEntityCodec, Bindings, join, placeholder, quoted_column, selected_columns, entity_value,
  id_binding, compiled_arguments,
}

module _ (x : External) {E Key : Type 0} (codec : PgEntityCodec x E Key) where
  -- `bindings.push(binding); placeholder(bindings.len(), kind)`
  abbrev pub push : PgColumn → Bindings x → PgBindValue x.types → String × Bindings x
  push column bindings binding =
      let bindings' = append bindings (binding ∷ []) in
      (placeholder (length bindings') column.scalar_kind, bindings')

  -- The text that stands for a value: `DEFAULT`, or a placeholder and one more binding.
  abbrev pub write_value :
      PgColumn → PgValue x.types → Bindings x → SoapResult x (String × Bindings x)
  write_value column value bindings =
      if is_default value
      then ok ("DEFAULT", bindings)
      else (normalize_entity_binding x column.scalar_kind value >>= λ binding.
          ok (push column bindings binding))

  -- The closures of `compile_insert` and `compile_replace` over the fields; `shape` is what each
  -- makes of a column and the text of its value.
  pub write_fields :
      (PgColumn → String → String)
      → E
      → List x.FieldName
      → Bindings x
      → SoapResult x (List String × Bindings x)
  write_fields shape entity [] bindings = ok ([], bindings)
  write_fields shape entity (field ∷ fields) bindings = do
    column ← resolve x codec.mapping.fields field
    value ← entity_value x codec entity field
    written ← write_value column value bindings
    rest ← write_fields shape entity fields written.1
    ok (shape column written.0 ∷ rest.0, rest.1)

  abbrev pub value_alone : PgColumn → String → String
  value_alone column text = text

  abbrev pub assignment : PgColumn → String → String
  assignment column text = Identifier.quoted column.identifier ++ (" = " ++ text)

  abbrev pub insert_text : String → String → String
  insert_text columns values =
      "INSERT INTO "
      ++ (quoted codec.mapping.table ++ (" (" ++ (columns ++ (") VALUES (" ++ (values ++ ")")))))

  insert_body : E → List x.FieldName → SoapResult x (String × Bindings x)
  unfolding write_fields
  insert_body entity [] =
      ok ("INSERT INTO " ++ (quoted codec.mapping.table ++ " DEFAULT VALUES"), [])
  insert_body entity (field ∷ fields) = do
    columns ← collect (quoted_column x codec) (field ∷ fields)
    written ← write_fields value_alone entity (field ∷ fields) []
    ok (insert_text (join columns) (join written.0), written.1)

  -- `if returning { … }`
  abbrev pub push_returning : Bool → String → SoapResult x String
  push_returning false sql = ok sql
  push_returning true sql = do
    columns ← selected_columns x codec
    ok (sql ++ (" RETURNING " ++ columns))

  unfoldable pub compile_insert : E → Bool → SoapResult x (String × x.PgArguments)
  unfolding insert_body
  compile_insert entity returning = do
    body ← insert_body entity (insertable_fields x codec.mapping)
    sql ← push_returning returning body.0
    arguments ← compiled_arguments x body.1
    ok (sql, arguments)

  abbrev pub replaced_fields : List x.FieldName
  replaced_fields =
      filter (λ field. not (x.field_eq field codec.mapping.id_field))
        (updatable_fields x codec.mapping)

  abbrev pub update_text : String → PgColumn → String → String
  update_text assignments id_column id_placeholder =
      "UPDATE "
      ++ (quoted codec.mapping.table
          ++ (" SET "
              ++ (assignments
                  ++ (" WHERE "
                      ++ (Identifier.quoted id_column.identifier ++ (" = " ++ id_placeholder))))))

  replace_body : E → List x.FieldName → SoapResult x (String × Bindings x)
  unfolding write_fields
  replace_body entity [] =
      err (x.error unsupported "PostgreSQL replacement requires an updatable non-identity field")
  replace_body entity (field ∷ fields) = do
    written ← write_fields assignment entity (field ∷ fields) []
    id_column ← resolve x codec.mapping.fields codec.mapping.id_field
    id_value ← codec.id_value (codec.id entity)
    binding ← id_binding x codec id_column id_value
    let pushed = push id_column written.1 binding
    ok (update_text (join written.0) id_column pushed.0, pushed.1)

  unfoldable pub compile_replace : E → Bool → SoapResult x (String × x.PgArguments)
  unfolding replace_body
  compile_replace entity returning = do
    body ← replace_body entity replaced_fields
    sql ← push_returning returning body.0
    arguments ← compiled_arguments x body.1
    ok (sql, arguments)
