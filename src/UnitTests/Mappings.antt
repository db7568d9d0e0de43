-- ===== src/UnitTests/Mappings.antt =====
-- The tests of src/postgres/identifier.rs, mapping.rs, value.rs, entity.rs and native_query.rs.
use soap_sqlx.Prelude.{
  ◌≡◌, refl, true, false, none, some, [], ◌∷◌, ok, ◌>>=◌, pos, length, nat_to_string,
}
use soap_sqlx.External.{External, validation}
use soap_sqlx.Identifier
use soap_sqlx.Identifier.{as_str, is_ascii_alphabetic, is_ascii_alphanumeric}
use soap_sqlx.Identifier.{quoted as quoted_identifier}
use soap_sqlx.Mapping.{
  PgScalarKind, PgFieldMap, empty, with, resolve, contains, insert_with_permissions,
}
use soap_sqlx.Value.{PgValue, from_signed, from_unsigned, from_option}
use soap_sqlx.Value
use soap_sqlx.Binding.{PgBindValue, normalize_entity_binding}
use soap_sqlx.Entity.{
  PgEntityMapping, new, in_schema, with_field, with_field_permissions, with_immutable_field,
  with_generated_field, validate, quoted, insertable_fields, updatable_fields, selectable_fields,
  fields_matching,
}
use soap_sqlx.Native
use soap_sqlx.Native.{bind}
use soap_sqlx.Samples.{sample}
use soap_sqlx.UnitTests.{error_kind, is_ok}

abbrev ValidatesIdentifiersBeforeQuoting : Type 0
ValidatesIdentifiersBeforeQuoting =
    ((Identifier.new sample "display_name" >>= λ value. ok (as_str value)) ≡ ok "display_name")
    × (is_ok (Identifier.new sample "users.name") ≡ false)
    × (is_ok (Identifier.new sample "name; DROP TABLE users") ≡ false)
    × (is_ok (Identifier.new sample "") ≡ false)

validates_identifiers_before_quoting : ValidatesIdentifiersBeforeQuoting
unfolding Identifier.new is_ascii_alphabetic is_ascii_alphanumeric
validates_identifiers_before_quoting = (refl, refl, refl, refl)

abbrev ResolvesOnlyExplicitlyMappedFields : Type 0
ResolvesOnlyExplicitlyMappedFields =
    (mapping : PgFieldMap sample) × (with sample (empty sample) "name" "display_name"
        PgScalarKind.text
      ≡ ok mapping)
    × (is_ok (resolve sample mapping "name") ≡ true)
    × (is_ok (resolve sample mapping "unknown") ≡ false)

resolves_only_explicitly_mapped_fields : ResolvesOnlyExplicitlyMappedFields
unfolding with Identifier.new is_ascii_alphabetic is_ascii_alphanumeric resolve
resolves_only_explicitly_mapped_fields = (_, refl, refl, refl)

-- The same outside, where no number is finite.
abbrev with_nan : External
with_nan = record sample { is_finite = λ n. false }

abbrev ConvertsNullableValuesAndRejectsNonFiniteFloats : Type 0
ConvertsNullableValuesAndRejectsNonFiniteFloats =
    (from_option {t = sample.types} from_signed (some (pos 7)) ≡ PgValue.i64 (pos 7))
    × (from_option {t = sample.types} from_signed none ≡ PgValue.null)
    × (error_kind (Value.validate with_nan (PgValue.f64 0)) ≡ some validation)

converts_nullable_values_and_rejects_non_finite_floats :
    ConvertsNullableValuesAndRejectsNonFiniteFloats
unfolding Value.validate
converts_nullable_values_and_rejects_non_finite_floats = (refl, refl, refl)

abbrev RequiresTheIdentityFieldToBeMappedAndSelectable : Type 0
RequiresTheIdentityFieldToBeMappedAndSelectable =
    let missing = do
      mapping ← new sample "users" "id"
      mapping ← with_field sample mapping "name" "display_name" PgScalarKind.text
      validate sample mapping
    in let hidden = do
      mapping ← new sample "users" "id"
      mapping ←
          with_field_permissions sample mapping "id" "id" PgScalarKind.numeric
            (record { selectable = false; insertable = true; updatable = false })
      validate sample mapping
      in (error_kind missing ≡ some validation) × (error_kind hidden ≡ some validation)

requires_the_identity_field_to_be_mapped_and_selectable :
    RequiresTheIdentityFieldToBeMappedAndSelectable
unfolding new with_field with_field_permissions validate Identifier.new insert_with_permissions
    contains resolve
requires_the_identity_field_to_be_mapped_and_selectable = (refl, refl)

abbrev SupportsQualifiedTablesAndFieldRoles : Type 0
SupportsQualifiedTablesAndFieldRoles =
    let made = do
      mapping ← in_schema sample "billing" "users" "id"
      mapping ← with_immutable_field sample mapping "id" "id" PgScalarKind.uuid
      with_generated_field sample mapping "created_at" "created_at" PgScalarKind.timestamp_tz
    in (mapping : PgEntityMapping sample) × (made ≡ ok mapping)
      × (quoted mapping.table ≡ "\"billing\".\"users\"")
      × (length (insertable_fields sample mapping) ≡ 1)
      × (length (updatable_fields sample mapping) ≡ 0)
      × (length (selectable_fields sample mapping) ≡ 2)

supports_qualified_tables_and_field_roles : SupportsQualifiedTablesAndFieldRoles
unfolding in_schema Identifier.new with_immutable_field with_field_permissions
    insert_with_permissions with_generated_field quoted quoted_identifier fields_matching resolve
supports_qualified_tables_and_field_roles = (_, refl, refl, refl, refl, refl)

abbrev AcceptsOnlyTypedValuesAndRejectsDefault : Type 0
AcceptsOnlyTypedValuesAndRejectsDefault =
    let statement =
      bind sample (Native.new sample "SELECT * FROM users WHERE age >= $1::numeric")
        PgScalarKind.numeric (from_unsigned 18) in
    let invalid = bind sample (Native.new sample "SELECT 1") PgScalarKind.numeric PgValue.default in
    ((statement >>= λ statement. ok statement.bindings) ≡ ok (PgBindValue.numeric "18" ∷ []))
    × (error_kind invalid ≡ some validation)

accepts_only_typed_values_and_rejects_default : AcceptsOnlyTypedValuesAndRejectsDefault
unfolding bind normalize_entity_binding nat_to_string
accepts_only_typed_values_and_rejects_default = (refl, refl)
