-- ===== src/Mapping.antt =====
-- src/postgres/mapping.rs: the allow-list from logical fields to physical columns. The `BTreeMap`
-- is an association list: its order is never observed, only `insert`, `get` and `contains_key`.
pub mod Lookup
use Prim.Native.String.{◌++◌}
use soap_sqlx.Prelude.{
  Bool, true, false, String, Option, none, some, List, [], ◌∷◌, Result, ok, err, ok_or, ◌>>=◌,
  if◌then◌else◌,
}
use soap_sqlx.External.{External, SoapResult, validation}
use soap_sqlx.Identifier
use soap_sqlx.Identifier.{PgIdentifier}

pub data PgScalarKind : Type 0 where
  bool numeric text bytes uuid json date time timestamp timestamp_tz : PgScalarKind

pub record PgFieldPermissions : Type 0 where
  pub selectable : Bool
  pub insertable : Bool
  pub updatable : Bool

abbrev pub persisted : PgFieldPermissions
persisted = record { selectable = true; insertable = true; updatable = true }

abbrev pub immutable : PgFieldPermissions
immutable = record { selectable = true; insertable = true; updatable = false }

abbrev pub generated : PgFieldPermissions
generated = record { selectable = true; insertable = false; updatable = false }

pub record PgColumn : Type 0 where
  pub identifier : PgIdentifier
  pub scalar_kind : PgScalarKind
  pub permissions : PgFieldPermissions

abbrev pub is_some {ℓ} : {A : Type ℓ} → Option A → Bool
is_some none = false
is_some (some _) = true

module _ (x : External) where
  pub record PgFieldMap : Type 0 where
    pub columns : List (x.FieldName × PgColumn)

  -- `BTreeMap::get` and `BTreeMap::insert`; what `insert` returns is the `get` before it.
  unfoldable pub get : x.FieldName → List (x.FieldName × PgColumn) → Option PgColumn
  get field [] = none
  get field ((key, column) ∷ rest) = if x.field_eq key field then some column else get field rest

  pub put : x.FieldName → PgColumn → List (x.FieldName × PgColumn) → List (x.FieldName × PgColumn)
  put field column [] = (field, column) ∷ []
  put field column ((key, old) ∷ rest) =
      if x.field_eq key field then (key, column) ∷ rest else (key, old) ∷ put field column rest

  abbrev pub empty : PgFieldMap
  empty = record { columns = [] }

  pub duplicate : x.FieldName → x.SoapError
  duplicate logical = x.error validation (
      "duplicate PostgreSQL mapping for logical field `" ++ (x.field_name_to_string logical ++ "`"))

  -- The part of `insert_with_permissions` after its two `?`: the map is written in any case.
  insert_column : PgFieldMap → x.FieldName → PgColumn → PgFieldMap × SoapResult x (Unit {0})
  unfolding get put duplicate
  insert_column m logical column = (
    record { columns = put logical column m.columns },
    if is_some (get logical m.columns) then err (duplicate logical) else ok tt,
  )

  -- The two `?` of `insert_with_permissions`: nothing is written when a name is refused.
  abbrev pub new_column :
      String → String → PgScalarKind → PgFieldPermissions → SoapResult x (x.FieldName × PgColumn)
  new_column logical physical scalar_kind permissions = do
    field ← x.new_field_name logical
    identifier ← Identifier.new x physical
    ok (
      field,
      record { identifier = identifier; scalar_kind = scalar_kind; permissions = permissions },
    )

  write_column :
      PgFieldMap → SoapResult x (x.FieldName × PgColumn) → PgFieldMap × SoapResult x (Unit {0})
  unfolding insert_column
  write_column m (err e) = (m, err e)
  write_column m (ok (field, column)) = insert_column m field column

  -- `&mut self`: the new map stands beside the result, since the caller keeps it after an error.
  unfoldable pub insert_with_permissions :
      PgFieldMap
      → String
      → String
      → PgScalarKind
      → PgFieldPermissions
      → PgFieldMap × SoapResult x (Unit {0})
  unfolding write_column
  insert_with_permissions m logical physical scalar_kind permissions =
      write_column m (new_column logical physical scalar_kind permissions)

  unfoldable pub insert :
      PgFieldMap → String → String → PgScalarKind → PgFieldMap × SoapResult x (Unit {0})
  unfolding insert_with_permissions
  insert m logical physical scalar_kind =
      insert_with_permissions m logical physical scalar_kind persisted

  -- `self.insert(…)?; Ok(self)`
  abbrev pub finish : PgFieldMap × SoapResult x (Unit {0}) → SoapResult x PgFieldMap
  finish (m, ok _) = ok m
  finish (m, err e) = err e

  unfoldable pub with : PgFieldMap → String → String → PgScalarKind → SoapResult x PgFieldMap
  unfolding insert
  with m logical physical scalar_kind = finish (insert m logical physical scalar_kind)

  abbrev pub unknown_field : x.FieldName → x.SoapError
  unknown_field logical =
      x.error validation
        ("unknown logical field `" ++ (x.field_name_to_string logical ++ "` for PostgreSQL"))

  unfoldable pub resolve : PgFieldMap → x.FieldName → SoapResult x PgColumn
  unfolding get
  resolve m logical = ok_or (get logical m.columns) (unknown_field logical)

  unfoldable pub contains : PgFieldMap → x.FieldName → Bool
  unfolding get
  contains m logical = is_some (get logical m.columns)
