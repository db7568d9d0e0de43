-- ===== src/UnitTests/Storing.antt =====
-- The tests of src/postgres/repository.rs, with their codec and recording source.
use mathlib.Core.List.{◌++◌}
use soap_sqlx.Prelude.{
  ℕ, ◌≡◌, refl, true, if◌then◌else◌, str_eq, String, List, [], ◌∷◌, ok, err, ◌>>=◌, nat_to_string,
}
use soap_sqlx.Sqlx.{SqlxError}
use soap_sqlx.External.{SoapResult, unsupported, validation}
use soap_sqlx.Identifier
use soap_sqlx.Mapping.{PgScalarKind, insert_with_permissions, contains, resolve}
use soap_sqlx.Value.{PgValue, from_unsigned, from_string}
use soap_sqlx.Source.{PgSource}
use soap_sqlx.Entity.{
  PgEntityMapping, in_schema, with_field, with_immutable_field, with_generated_field,
  with_field_permissions, validate, fields_matching, quoted,
}
use soap_sqlx.Repository.{
  PgEntityCodec, placeholder, entity_value, selected_columns, compiled_arguments,
}
use soap_sqlx.Binding.{normalize_entity_binding, placeholder_cast}
use soap_sqlx.Output.{into_arguments, argument}
use soap_sqlx.Repository.Statements.{compile_insert}
use soap_sqlx.Repository.Operations.{PgRepository, new, insert}
use soap_sqlx.Samples.{sample}

pub record User : Type 0 where
  pub id : ℕ
  pub name : String

abbrev mapping : SoapResult sample (PgEntityMapping sample)
mapping = do
  mapping ← in_schema sample "app" "users" "id"
  mapping ← with_immutable_field sample mapping "id" "id" PgScalarKind.numeric
  mapping ← with_field sample mapping "name" "display_name" PgScalarKind.text
  with_generated_field sample mapping "created_at" "created_at" PgScalarKind.timestamp_tz

-- The match of `UserCodec::value` on a field's name.
abbrev value : User → String → SoapResult sample (PgValue sample.types)
value entity field =
    if str_eq field "name"
    then (if str_eq entity.name "" then ok PgValue.default else ok (from_string entity.name))
    else err (sample.error validation "unknown user field")

-- `UserCodec`
abbrev codec : PgEntityMapping sample → PgEntityCodec sample User ℕ
codec mapping = record {
  mapping = mapping;
  decode = λ _. err (sample.error unsupported "recording source does not return rows");
  value = value;
  id_value = λ id. ok (from_unsigned id);
  id = λ entity. entity.id;
}

-- `RecordingSource`: the world is the list of its statements, the result of an execution the
-- default one.
abbrev recording_source : PgSource sample (List String)
recording_source = record {
  fetch_all = λ _ _ s. (err SqlxError.pool_closed, s);
  fetch_optional = λ _ _ s. (err SqlxError.pool_closed, s);
  fetch_one = λ _ _ s. (err SqlxError.pool_closed, s);
  apply = λ sql _ s. (ok 0, s ++ sql ∷ []);
  apply_one = λ _ _ s. (err SqlxError.pool_closed, s);
}

abbrev repository : SoapResult sample (PgRepository sample (List String) User ℕ)
repository = mapping >>= λ mapping. new sample recording_source (codec mapping)

abbrev DelegatesSchemaQualifiedInsertToTheInjectedSource : Type 0
DelegatesSchemaQualifiedInsertToTheInjectedSource =
    (users : PgRepository sample (List String) User ℕ) × (repository ≡ ok users)
    × (insert sample users (record { id = 7; name = "Ada" }) [] ≡ (
      ok tt,
      "INSERT INTO \"app\".\"users\" (\"id\", \"display_name\") VALUES ($1::numeric, $2)" ∷ [],
    ))

delegates_schema_qualified_insert_to_the_injected_source :
    DelegatesSchemaQualifiedInsertToTheInjectedSource
unfolding insert new in_schema compile_insert Identifier.new with_immutable_field
    with_field_permissions insert_with_permissions with_field with_generated_field validate contains
    resolve fields_matching entity_value normalize_entity_binding compiled_arguments into_arguments
    quoted Identifier.quoted nat_to_string placeholder placeholder_cast argument
delegates_schema_qualified_insert_to_the_injected_source = (_, refl, refl)

abbrev EmitsDefaultAndReturningForDatabaseManagedValues : Type 0
EmitsDefaultAndReturningForDatabaseManagedValues =
    (do
      users ← repository
      statement ← compile_insert sample users.codec (record { id = 9; name = "" }) true
      ok statement.0)
    ≡ ok
        "INSERT INTO \"app\".\"users\" (\"id\", \"display_name\") VALUES ($1::numeric, DEFAULT) RETURNING \"id\", \"display_name\", \"created_at\""

emits_default_and_returning_for_database_managed_values :
    EmitsDefaultAndReturningForDatabaseManagedValues
unfolding new in_schema compile_insert Identifier.new with_immutable_field with_field_permissions
    insert_with_permissions with_field with_generated_field validate contains resolve
    fields_matching entity_value normalize_entity_binding selected_columns compiled_arguments
    into_arguments quoted Identifier.quoted nat_to_string placeholder placeholder_cast argument
emits_default_and_returning_for_database_managed_values = refl
