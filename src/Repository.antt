-- ===== src/Repository.antt =====
-- src/postgres/repository.rs: the generic repository, its statements and its operations on a source.
-- The codec and the entity are the application's, so they are parameters.
pub mod Statements
pub mod Operations
use Prim.Native.String.{[], ◌∷◌, ◌++◌}
use mathlib.Core.List.{◌++◌ as append}
use soap_sqlx.Prelude.{
  ℕ, Bool, true, false, not, String, Option, none, some, List, Result, ok, err, ◌>>=◌, ◌>>◌,
  collect, filter, length, nat_to_string, if◌then◌else◌, is_empty,
}
use soap_sqlx.Prelude
use soap_sqlx.Sqlx.{SqlTypes}
use soap_sqlx.External.{External, SoapResult, validation}
use soap_sqlx.Identifier
use soap_sqlx.Mapping.{PgScalarKind, PgColumn, resolve}
use soap_sqlx.Value.{PgValue, is_default}
use soap_sqlx.Binding.{PgBindValue, placeholder_cast, normalize_entity_binding}
use soap_sqlx.Output.{from_bindings, into_arguments}
use soap_sqlx.Entity.{
  PgEntityMapping, quoted, selectable_fields, insertable_fields, updatable_fields,
}

-- `PgEntityCodec<E>`, with the identifier that `Entity::id` gives.
pub record PgEntityCodec (x : External) (E Key : Type 0) : Type 0 where
  pub mapping : PgEntityMapping x
  pub decode : x.PgRow → SoapResult x E
  pub value : E → x.FieldName → SoapResult x (PgValue x.types)
  pub id_value : Key → SoapResult x (PgValue x.types)
  pub id : E → Key

-- `columns.join(", ")`
abbrev pub join : List String → String
join List.[] = ""
join (List.◌∷◌ s List.[]) = s
join (List.◌∷◌ s (List.◌∷◌ t rest)) = s ++ (", " ++ join (List.◌∷◌ t rest))

abbrev pub append_fragment : String → String → String
append_fragment sql [] = sql
append_fragment sql (c ∷ fragment) = sql ++ (" " ++ (c ∷ fragment))

abbrev pub placeholder_as : Option String → ℕ → String
placeholder_as (some cast) index = "$" ++ (nat_to_string index ++ ("::" ++ cast))
placeholder_as none index = "$" ++ nat_to_string index

unfoldable pub placeholder : ℕ → PgScalarKind → String
placeholder index kind = placeholder_as (placeholder_cast kind) index

-- `matches!(value, PgValue::Null | PgValue::Default)`
abbrev pub is_missing : {t : SqlTypes} → PgValue t → Bool
is_missing PgValue.null = true
is_missing PgValue.default = true
is_missing _ = false

module _ (x : External) where
  abbrev pub Bindings : Type 0
  Bindings = List (PgBindValue x.types)

  unfoldable pub compiled_arguments : Bindings → SoapResult x x.PgArguments
  compiled_arguments bindings = into_arguments x (from_bindings bindings)

  abbrev pub missing_id : x.SoapError
  missing_id = x.error validation "PostgreSQL entity identifier cannot be null or default"

  module _ {E Key : Type 0} (codec : PgEntityCodec x E Key) where
    abbrev mapping : PgEntityMapping x
    mapping = codec.mapping

    abbrev pub quoted_column : x.FieldName → SoapResult x String
    quoted_column field = do
      column ← resolve x mapping.fields field
      ok (Identifier.quoted column.identifier)

    unfoldable pub selected_columns : SoapResult x String
    selected_columns = do
      columns ← collect quoted_column (selectable_fields x mapping)
      ok (join columns)

    unfoldable pub select_prefix : SoapResult x String
    unfolding selected_columns
    select_prefix = do
      columns ← selected_columns
      ok ("SELECT " ++ (columns ++ (" FROM " ++ quoted mapping.table)))

    unfoldable pub entity_value : E → x.FieldName → SoapResult x (PgValue x.types)
    entity_value entity field =
        if x.field_eq field mapping.id_field
        then codec.id_value (codec.id entity)
        else codec.value entity field

    -- `if matches!(…) { return Err(…) }; normalize_entity_binding(…)?`
    abbrev pub id_binding : PgColumn → PgValue x.types → SoapResult x (PgBindValue x.types)
    id_binding column value =
        if is_missing value
        then err missing_id
        else normalize_entity_binding x column.scalar_kind value

    unfoldable pub compiled_id : Key → SoapResult x (String × x.PgArguments)
    compiled_id id = do
      column ← resolve x mapping.fields mapping.id_field
      value ← codec.id_value id
      binding ← id_binding column value
      arguments ← compiled_arguments (List.◌∷◌ binding List.[])
      ok (
        Identifier.quoted column.identifier ++ (" = " ++ placeholder 1 column.scalar_kind),
        arguments,
      )
