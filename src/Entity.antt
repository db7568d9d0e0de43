-- ===== src/Entity.antt =====
-- src/postgres/entity.rs: table names and the mapping of an entity to its table.
pub mod Built
use Prim.Native.String.{◌++◌}
use mathlib.Core.List.{◌++◌ as append}
use soap_sqlx.Prelude.{
  Bool, true, false, ◌&&◌, not, String, Option, none, some, List, [], ◌∷◌, Result, ok, err, ◌>>=◌,
  is_ok_and, is_empty, filter, if◌then◌else◌,
}
use soap_sqlx.External.{External, SoapResult, validation}
use soap_sqlx.Identifier
use soap_sqlx.Identifier.{PgIdentifier}
use soap_sqlx.Mapping.{
  PgScalarKind, PgFieldPermissions, PgColumn, PgFieldMap, persisted, immutable, generated, empty,
  insert_with_permissions, resolve, contains,
}

pub record PgTable : Type 0 where
  pub schema : Option PgIdentifier
  pub name : PgIdentifier

-- `PgTable::quoted`
abbrev quoted_in : Option PgIdentifier → String → String
quoted_in (some schema) name = Identifier.quoted schema ++ ("." ++ name)
quoted_in none name = name

unfoldable pub quoted : PgTable → String
quoted table = quoted_in table.schema (Identifier.quoted table.name)

module _ (x : External) where
  unfoldable pub new_table : String → SoapResult x PgTable
  new_table name = do name' ← Identifier.new x name; ok (record { schema = none; name = name' })

  unfoldable pub table_in_schema : String → String → SoapResult x PgTable
  table_in_schema schema name = do
    schema' ← Identifier.new x schema
    name' ← Identifier.new x name
    ok (record { schema = some schema'; name = name' })

  pub record PgEntityMapping : Type 0 where
    pub table : PgTable
    pub id_field : x.FieldName
    pub fields : PgFieldMap x
    pub ordered_fields : List x.FieldName

  abbrev pub start : PgTable → x.FieldName → PgEntityMapping
  start table id_field = record {
    table = table;
    id_field = id_field;
    fields = empty x;
    ordered_fields = [];
  }

  unfoldable pub new : String → String → SoapResult x PgEntityMapping
  unfolding new_table
  new table id_field = do
    table' ← new_table table
    id_field' ← x.new_field_name id_field
    ok (start table' id_field')

  unfoldable pub in_schema : String → String → String → SoapResult x PgEntityMapping
  unfolding table_in_schema
  in_schema schema table id_field = do
    table' ← table_in_schema schema table
    id_field' ← x.new_field_name id_field
    ok (start table' id_field')

  -- The end of `with_field_permissions`, from its `?` on.
  abbrev pub push_field :
      PgEntityMapping
      → x.FieldName
      → PgFieldMap x × SoapResult x (Unit {0})
      → SoapResult x PgEntityMapping
  push_field m logical (fields, err e) = err e
  push_field m logical (fields, ok _) =
      ok (record m { fields = fields; ordered_fields = append m.ordered_fields (logical ∷ []) })

  unfoldable pub with_field_permissions :
      PgEntityMapping
      → String
      → String
      → PgScalarKind
      → PgFieldPermissions
      → SoapResult x PgEntityMapping
  with_field_permissions m logical physical scalar_kind permissions =
      if not permissions.selectable && (not permissions.insertable && not permissions.updatable)
      then err
          (x.error validation "PostgreSQL mapped field must participate in at least one operation")
      else do
        logical' ← x.new_field_name logical
        push_field m logical' (
            insert_with_permissions x m.fields (x.as_str logical') physical scalar_kind permissions)

  unfoldable pub with_field :
      PgEntityMapping → String → String → PgScalarKind → SoapResult x PgEntityMapping
  with_field m logical physical scalar_kind =
      with_field_permissions m logical physical scalar_kind persisted

  unfoldable pub with_immutable_field :
      PgEntityMapping → String → String → PgScalarKind → SoapResult x PgEntityMapping
  with_immutable_field m logical physical scalar_kind =
      with_field_permissions m logical physical scalar_kind immutable

  unfoldable pub with_generated_field :
      PgEntityMapping → String → String → PgScalarKind → SoapResult x PgEntityMapping
  with_generated_field m logical physical scalar_kind =
      with_field_permissions m logical physical scalar_kind generated

  unfoldable pub fields_matching : (PgFieldPermissions → Bool) → PgEntityMapping → List x.FieldName
  fields_matching predicate m =
      filter
        (λ field. is_ok_and (λ column. predicate column.permissions) (resolve x m.fields field))
        m.ordered_fields

  abbrev pub selectable_fields : PgEntityMapping → List x.FieldName
  selectable_fields = fields_matching (λ permissions. permissions.selectable)

  abbrev pub insertable_fields : PgEntityMapping → List x.FieldName
  insertable_fields = fields_matching (λ permissions. permissions.insertable)

  abbrev pub updatable_fields : PgEntityMapping → List x.FieldName
  updatable_fields = fields_matching (λ permissions. permissions.updatable)

  -- The end of `validate`, with the identity column resolved.
  abbrev pub validate_columns : PgEntityMapping → PgColumn → SoapResult x (Unit {0})
  validate_columns m id =
      if not id.permissions.selectable
      then err (x.error validation "PostgreSQL identity field must be selectable")
      else if is_empty (selectable_fields m)
      then err (x.error validation "PostgreSQL entity mapping must select at least one field")
      else ok tt

  unfoldable pub validate : PgEntityMapping → SoapResult x (Unit {0})
  validate m =
      if is_empty m.ordered_fields
      then err (x.error validation "PostgreSQL entity mapping must contain at least one field")
      else if not (contains x m.fields m.id_field)
      then err (
          x.error validation (
            "PostgreSQL identity field `"
            ++ (x.field_name_to_string m.id_field ++ "` is not mapped")))
      else (resolve x m.fields m.id_field >>= λ id. validate_columns m id)
