-- ===== src/UnitTests/Compiling.antt =====
-- The tests of src/postgres/compiler.rs.
use soap_sqlx.Prelude.{
  ◌≡◌, refl, String, none, some, [], ◌∷◌, ok, ◌>>=◌, true, pos, ◌^◌, ◌-◌, nat_to_string,
}
use soap_sqlx.External.{SoapResult, validation}
use soap_sqlx.Portable.{
  ScalarValue, ScalarValues, Condition, Conditions, group, predicate, logical_and, logical_or, eq,
  gte, like, in_set, not_in, ascending, descending, FindParams,
}
use soap_sqlx.Identifier.{new, is_ascii_alphabetic, is_ascii_alphanumeric}
use soap_sqlx.Mapping.{PgScalarKind, PgFieldMap, empty, with, resolve}
use soap_sqlx.Binding.{PgBindValue, normalize_binding, placeholder_cast, column_expression}
use soap_sqlx.Output.{PgCompiledQuery, push_binding}
use soap_sqlx.Compiler.{compile_condition, compile_find, compile_count}
use soap_sqlx.Samples.{sample, sample_types}
use soap_sqlx.UnitTests.{error_kind}

abbrev compiler : SoapResult sample (PgFieldMap sample)
compiler = do
  mapping ← with sample (empty sample) "active" "is_active" PgScalarKind.bool
  mapping ← with sample mapping "age" "age" PgScalarKind.numeric
  mapping ← with sample mapping "name" "display_name" PgScalarKind.text
  with sample mapping "nickname" "nickname" PgScalarKind.text

abbrev compiled : Condition String sample.F64 → SoapResult sample (PgCompiledQuery sample_types)
compiled condition = compiler >>= λ fields. compile_condition sample fields condition

abbrev CompilesNestedConditionsAndBindingOrder : Type 0
CompilesNestedConditionsAndBindingOrder =
    let age_or_name = group logical_or (
      Conditions.cons (predicate "age" gte (some (ScalarValue.u64 18))) (
        Conditions.cons (predicate "name" like (some (ScalarValue.string "A\\_%")))
          Conditions.nil)) in
    let condition = group logical_and (
      Conditions.cons (predicate "active" eq (some (ScalarValue.bool true)))
        (Conditions.cons age_or_name Conditions.nil)) in
    compiled condition
    ≡ ok (record {
      sql =
          "(\"is_active\" = $1 AND (\"age\"::numeric >= $2::numeric OR \"display_name\" COLLATE \"C\" LIKE $3 ESCAPE ''))";
      bindings = PgBindValue.bool true ∷ PgBindValue.numeric "18" ∷ PgBindValue.text "A\\_%" ∷ [];
    })

compiles_nested_conditions_and_binding_order : CompilesNestedConditionsAndBindingOrder
unfolding with new is_ascii_alphabetic is_ascii_alphanumeric compile_condition resolve
    normalize_binding push_binding placeholder_cast column_expression nat_to_string
compiles_nested_conditions_and_binding_order = refl

abbrev malicious : String
malicious = "Ada'; DROP TABLE users; --"

-- The text is stated whole, so the value is not in it.
abbrev KeepsUntrustedValuesOutOfSqlText : Type 0
KeepsUntrustedValuesOutOfSqlText =
    compiled (predicate "name" eq (some (ScalarValue.string malicious)))
    ≡ ok (record {
      sql = "\"display_name\" COLLATE \"C\" = $1";
      bindings = PgBindValue.text malicious ∷ [];
    })

keeps_untrusted_values_out_of_sql_text : KeepsUntrustedValuesOutOfSqlText
unfolding with new is_ascii_alphabetic is_ascii_alphanumeric compile_condition resolve
    normalize_binding push_binding placeholder_cast column_expression nat_to_string
keeps_untrusted_values_out_of_sql_text = refl

abbrev sql : PgCompiledQuery sample_types → SoapResult sample String
sql query = ok query.sql

abbrev RewritesEmptySetsWithPortableNullSemantics : Type 0
RewritesEmptySetsWithPortableNullSemantics =
    ((compiled (predicate "nickname" in_set (some (ScalarValue.list ScalarValues.nil))) >>= sql)
      ≡ ok "FALSE")
    × ((compiled (predicate "nickname" not_in (some (ScalarValue.list ScalarValues.nil))) >>= sql)
        ≡ ok "\"nickname\" COLLATE \"C\" IS NOT NULL")

rewrites_empty_sets_with_portable_null_semantics : RewritesEmptySetsWithPortableNullSemantics
unfolding with new is_ascii_alphabetic is_ascii_alphanumeric compile_condition resolve
    column_expression
rewrites_empty_sets_with_portable_null_semantics = (refl, refl)

-- `FindParams::all()`
abbrev all : FindParams String sample.F64
all = record { condition = none; sort = []; limit = none; offset = 0 }

abbrev EmitsExplicitNullOrderingAndBoundPagination : Type 0
EmitsExplicitNullOrderingAndBoundPagination =
    let params = record all {
      sort = record { field = "age"; direction = descending } ∷ [];
      limit = some 20;
      offset = 40;
    } in
    (compiler >>= λ fields. compile_find sample fields params)
    ≡ ok (record {
      sql = "ORDER BY \"age\"::numeric DESC NULLS LAST LIMIT $1 OFFSET $2";
      bindings = PgBindValue.i64 (pos 20) ∷ PgBindValue.i64 (pos 40) ∷ [];
    })

emits_explicit_null_ordering_and_bound_pagination : EmitsExplicitNullOrderingAndBoundPagination
unfolding with new is_ascii_alphabetic is_ascii_alphanumeric compile_find resolve push_binding
    column_expression nat_to_string
emits_explicit_null_ordering_and_bound_pagination = refl

abbrev RejectsUnknownFieldsAndIncompatibleValues : Type 0
RejectsUnknownFieldsAndIncompatibleValues =
    (error_kind (compiled (predicate "missing" eq (some (ScalarValue.i64 (pos 1)))))
      ≡ some validation)
    × (error_kind (compiled (predicate "active" eq (some (ScalarValue.string "yes"))))
        ≡ some validation)

rejects_unknown_fields_and_incompatible_values : RejectsUnknownFieldsAndIncompatibleValues
unfolding with new is_ascii_alphabetic is_ascii_alphanumeric compile_condition resolve
    normalize_binding column_expression
rejects_unknown_fields_and_incompatible_values = (refl, refl)

abbrev CastsPortableStringsForNativeColumnsAndRejectsLike : Type 0
CastsPortableStringsForNativeColumnsAndRejectsLike =
    let fields = with sample (empty sample) "id" "id" PgScalarKind.uuid in
    let equality =
      predicate "id" eq (some (ScalarValue.string "67e55044-10b1-426f-9247-bb680e5fe0c8")) in
    let pattern = predicate "id" like (some (ScalarValue.string "67e5%")) in
    ((fields >>= (λ fields. compile_condition sample fields equality >>= sql))
      ≡ ok "\"id\" = $1::uuid")
    × (error_kind (fields >>= (λ fields. compile_condition sample fields pattern))
        ≡ some validation)

casts_portable_strings_for_native_columns_and_rejects_like :
    CastsPortableStringsForNativeColumnsAndRejectsLike
unfolding with new is_ascii_alphabetic is_ascii_alphanumeric compile_condition resolve
    normalize_binding push_binding placeholder_cast column_expression nat_to_string
casts_portable_strings_for_native_columns_and_rejects_like = (refl, refl)

abbrev PreservesFullUnsignedIntegerPrecisionThroughNumericText : Type 0
PreservesFullUnsignedIntegerPrecisionThroughNumericText =
    compiled (predicate "age" eq (some (ScalarValue.u64 (2 ^ 64 - 1))))
    ≡ ok (record {
      sql = "\"age\"::numeric = $1::numeric";
      bindings = PgBindValue.numeric "18446744073709551615" ∷ [];
    })

preserves_full_unsigned_integer_precision_through_numeric_text :
    PreservesFullUnsignedIntegerPrecisionThroughNumericText
unfolding with new is_ascii_alphabetic is_ascii_alphanumeric compile_condition resolve
    normalize_binding push_binding placeholder_cast column_expression nat_to_string
preserves_full_unsigned_integer_precision_through_numeric_text = refl

abbrev CountIgnoresSortPaginationAndUnknownSortFields : Type 0
CountIgnoresSortPaginationAndUnknownSortFields =
    let params = record all {
      sort = record { field = "not_mapped"; direction = ascending } ∷ [];
      limit = some 1;
      offset = 2;
    } in
    (compiler >>= λ fields. compile_count sample fields params)
    ≡ ok (record { sql = ""; bindings = [] })

count_ignores_sort_pagination_and_unknown_sort_fields :
    CountIgnoresSortPaginationAndUnknownSortFields
unfolding with new is_ascii_alphabetic is_ascii_alphanumeric compile_count
count_ignores_sort_pagination_and_unknown_sort_fields = refl
