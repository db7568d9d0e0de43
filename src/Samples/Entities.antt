-- ===== src/Samples/Entities.antt =====
-- Runs of the identifiers, the field map and the entity mapping, and their theorems at them.
use Prim.Native.String.{◌++◌}
use soap_sqlx.Prelude.{
  ◌≡◌, ◌↔◌, ◌⊎◌, refl, true, false, none, some, [], ◌∷◌, ok, err, if◌then◌else◌, is_ok_and,
}
use soap_sqlx.External.{validation}
use soap_sqlx.Identifier.{PgIdentifier, new, quoted}
use soap_sqlx.Identifier.Grammar.{IsIdentifier, new_iff, new_cases}
use soap_sqlx.Identifier.Quoting.{read_quoted, read_quoted-quoted}
use soap_sqlx.Mapping.{
  PgScalarKind, insert_with_permissions, resolve, contains, duplicate, persisted, generated,
}
use soap_sqlx.Mapping.Lookup.{
  column_of, resolve-insert_with_permissions, insert_with_permissions-duplicate, HasValidColumns,
  insert_with_permissions-HasValidColumns,
}
use soap_sqlx.Entity.{PgEntityMapping, start, with_field_permissions, validate}
use soap_sqlx.Entity.Built.{IsBuilt, start-IsBuilt, with_field_permissions-IsBuilt, validate_iff}
use soap_sqlx.Samples.{sample}
use soap_sqlx.Samples.Fields.{fields, column}

abbrev user_age : PgIdentifier
user_age = record { text = "user_age" }

accepted : new sample "user_age" ≡ ok user_age
unfolding new
accepted = refl

read_quoted-quoted_example :
    read_quoted (quoted user_age ++ "::numeric") ≡ some ("user_age", "::numeric")
read_quoted-quoted_example =
    read_quoted-quoted sample "user_age" "::numeric" user_age accepted (λ h. cc)

new_cases_example :
    (IsIdentifier "1 OR 1=1" × (new sample "1 OR 1=1" ≡ ok (record { text = "1 OR 1=1" })))
    ⊎ ((¬ IsIdentifier "1 OR 1=1")
        × (e : sample.SoapError) × (new sample "1 OR 1=1" ≡ err e)
        × (sample.kind e ≡ validation))
new_cases_example = new_cases sample "1 OR 1=1"

resolve-insert_with_permissions_example :
    let (m', result) =
      insert_with_permissions sample fields "years" "user_age" PgScalarKind.numeric generated in
    (resolve sample m' "age" ≡ (
      if sample.field_eq "years" "age"
      then ok (column_of sample user_age PgScalarKind.numeric generated)
      else resolve sample fields "age"))
    × ((result ≡ ok tt) ↔ (contains sample fields "years" ≡ false))
resolve-insert_with_permissions_example =
    resolve-insert_with_permissions sample fields "years" "user_age" PgScalarKind.numeric generated
      "years" "age" user_age refl accepted

insert_with_permissions-duplicate_example :
    let (m', result) =
      insert_with_permissions sample fields "name" "user_age" PgScalarKind.numeric generated in
    (result ≡ err (duplicate sample "name"))
    × (resolve sample m' "name" ≡ ok (column_of sample user_age PgScalarKind.numeric generated))
unfolding contains
insert_with_permissions-duplicate_example =
    insert_with_permissions-duplicate sample fields "name" "user_age" PgScalarKind.numeric generated
      "name" user_age refl accepted refl

abbrev display_name : PgIdentifier
display_name = record { text = "display_name" }

accepted_name : new sample "display_name" ≡ ok display_name
unfolding new
accepted_name = refl

pub valid_fields : HasValidColumns sample fields
valid_fields = (
  ((new_iff sample "user_age" user_age).0 accepted).0,
  (((new_iff sample "display_name" display_name).0 accepted_name).0, tt),
)

insert_with_permissions-HasValidColumns_example :
    HasValidColumns sample
      (insert_with_permissions sample fields "years" "1 OR 1=1" PgScalarKind.numeric generated).0
insert_with_permissions-HasValidColumns_example =
    insert_with_permissions-HasValidColumns sample fields "years" "1 OR 1=1" PgScalarKind.numeric
      generated valid_fields

abbrev users : PgEntityMapping sample
users = start sample (record { schema = none; name = record { text = "users" } }) "id"

abbrev with_id : PgEntityMapping sample
with_id = record users {
  fields = record { columns = ("id", column "user_id" PgScalarKind.uuid) ∷ [] };
  ordered_fields = "id" ∷ [];
}

added_id :
    with_field_permissions sample users "id" "user_id" PgScalarKind.uuid persisted ≡ ok with_id
unfolding with_field_permissions insert_with_permissions new
added_id = refl

users-IsBuilt : IsBuilt sample users
users-IsBuilt = start-IsBuilt sample users.table "id"

with_id-IsBuilt : IsBuilt sample with_id
with_id-IsBuilt =
    with_field_permissions-IsBuilt sample users with_id "id" "user_id" PgScalarKind.uuid persisted
      users-IsBuilt added_id

with_field_permissions-IsBuilt_example : IsBuilt sample with_id
with_field_permissions-IsBuilt_example =
    with_field_permissions-IsBuilt sample users with_id "id" "user_id" PgScalarKind.uuid persisted
      users-IsBuilt added_id

validate_iff_example : (validate sample with_id ≡ ok tt) ↔ (
    is_ok_and (λ c. c.permissions.selectable) (resolve sample with_id.fields with_id.id_field)
    ≡ true)
validate_iff_example = validate_iff sample with_id with_id-IsBuilt

valid_users : validate sample with_id ≡ ok tt
unfolding resolve
valid_users = (validate_iff sample with_id with_id-IsBuilt).1 refl
