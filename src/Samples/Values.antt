-- ===== src/Samples/Values.antt =====
-- Runs of the conversions of values, errors and finished queries, and their theorems at them.
use soap_sqlx.Prelude.{
  true, List, ◌>>=◌, ◌≡◌, ◌↔◌, ◌⊎◌, refl, int_to_string, nat_to_string, pos, negsuc, String, some,
  [], ◌∷◌, ok, err, Result, Succeeds,
}
use soap_sqlx.Sqlx.{SqlxError, DatabaseError, Argument, unique_violation, sqlx, binding_encode}
use soap_sqlx.External.{External, infrastructure}
use soap_sqlx.Portable.{ScalarValue}
use soap_sqlx.Mapping.{PgScalarKind}
use soap_sqlx.Value.{PgValue, try_from}
use soap_sqlx.Value.Conversions.{to_scalar, try_from_iff}
use soap_sqlx.Binding.{PgBindValue, normalize_binding, normalize_entity_binding}
use soap_sqlx.Binding.Exact.{Fits, read_int, normalize_binding_iff, read_int-normalize_binding}
use soap_sqlx.Output.{argument, into_arguments, into_sqlx_parts}
use soap_sqlx.Output.Arguments.{arguments_of, into_sqlx_parts_cases}
use soap_sqlx.Errors.{is_connection, map_sqlx_error}
use soap_sqlx.Errors.Classes.{IsConnection, is_connection_iff}
use soap_sqlx.Errors.Alike.{disconnected, map_sqlx_error-alike}
use soap_sqlx.Errors.Table.{Judged, map_sqlx_error-Judged}
use soap_sqlx.Value
use soap_sqlx.Native
use soap_sqlx.Native.{bind, into_parts}
use soap_sqlx.Native.Bound.{bind_all, Normal, into_parts-bind_all}
use soap_sqlx.Binding.Persisted.{Suits, normalize_entity_binding_iff}
use soap_sqlx.Samples.{sample}
use soap_sqlx.Samples.Fields.{older_query, thirty}

abbrev refused : {E A : Type 0} {e : E} {a : A} → Path (Result E A) (err e) (ok a) → ⊥
refused h = cc

try_from_iff_example : (try_from sample thirty ≡ ok (PgValue.i64 (pos 30))) ↔ (
    (sample.validate_scalar thirty ≡ ok tt)
    × (to_scalar sample (PgValue.i64 (pos 30)) ≡ some thirty))
try_from_iff_example = try_from_iff sample thirty (PgValue.i64 (pos 30))

normalize_binding_iff_example :
    Succeeds (normalize_binding sample PgScalarKind.uuid (ScalarValue.string "a")) ↔ (
      (sample.validate_scalar (ScalarValue.string "a") ≡ ok tt)
      × Fits {F64 = sample.F64} PgScalarKind.uuid (ScalarValue.string "a"))
normalize_binding_iff_example =
    normalize_binding_iff sample PgScalarKind.uuid (ScalarValue.string "a")

read_int-normalize_binding_example :
    (s : String) × Path
      (PgBindValue sample.types)
      (PgBindValue.numeric "-5")
      (PgBindValue.numeric s)
    × (read_int s ≡ negsuc 4)
unfolding normalize_binding int_to_string nat_to_string
read_int-normalize_binding_example =
    read_int-normalize_binding sample (ScalarValue.i64 (negsuc 4)) (negsuc 4)
      (PgBindValue.numeric "-5") refl refl

-- The same outside, but for arguments that are never taken.
abbrev refusing : External
refusing = record sample {
  add = λ a args. err "too large";
  contents-add = λ a args args' h. absurd (refused h);
}

into_sqlx_parts_cases_example :
    let q = older_query "30" "A%" in
    ((args : refusing.PgArguments) × (into_sqlx_parts refusing q ≡ ok (q.sql, args))
      × (refusing.contents args ≡ arguments_of refusing q.bindings))
    ⊎ ((e : refusing.SoapError) × (into_sqlx_parts refusing q ≡ err e)
        × (refusing.kind e ≡ infrastructure)
        × ((detail : String) × (refusing.source e
              ≡ some (binding_encode (record { inner = detail })))))
into_sqlx_parts_cases_example = into_sqlx_parts_cases refusing (older_query "30" "A%")

abbrev failed : String → DatabaseError String
failed code = record { code = some code; kind = unique_violation; detail = "users_pkey" }

map_sqlx_error-Judged_example :
    Judged sample
      (SqlxError.database (failed "40P01"))
      (map_sqlx_error sample (SqlxError.database (failed "40P01")) "insert entity")
    × (sample.source (map_sqlx_error sample (SqlxError.database (failed "40P01")) "insert entity")
        ≡ some (sqlx (SqlxError.database (failed "40P01"))))
map_sqlx_error-Judged_example =
    map_sqlx_error-Judged sample (SqlxError.database (failed "40P01")) "insert entity"

of_connections : (code : String) → is_connection (some code) ≡ true → IsConnection (some code)
of_connections code h = (is_connection_iff (some code)).0 h

map_sqlx_error-alike_example :
    (plain : sample.SoapError) × (map_sqlx_error sample
        (SqlxError.database (failed "08003"))
        "get entity"
      ≡ sample.with_source plain (sqlx (SqlxError.database (failed "08003"))))
    × (map_sqlx_error sample (SqlxError.database (failed "08006")) "get entity"
        ≡ sample.with_source plain (sqlx (SqlxError.database (failed "08006"))))
map_sqlx_error-alike_example =
    map_sqlx_error-alike sample (SqlxError.database (failed "08003"))
      (SqlxError.database (failed "08006")) "get entity"
      (disconnected (failed "08003") (failed "08006") (of_connections "08003" refl)
        (of_connections "08006" refl))

normalize_entity_binding_iff_example :
    Succeeds (normalize_entity_binding sample PgScalarKind.numeric (PgValue.u64 30)) ↔ (
      (Value.validate sample (PgValue.u64 30) ≡ ok tt)
      × Suits sample PgScalarKind.numeric (PgValue.u64 30))
normalize_entity_binding_iff_example =
    normalize_entity_binding_iff sample PgScalarKind.numeric (PgValue.u64 30)

abbrev bound_values : List (PgScalarKind × PgValue sample.types)
bound_values = (PgScalarKind.numeric, PgValue.u64 30) ∷ (PgScalarKind.text, PgValue.text "Ada") ∷ []

abbrev native_sql : String
native_sql = "SELECT $1::numeric, $2"

abbrev native_arguments : sample.PgArguments
native_arguments = Argument.string "30" ∷ Argument.string "Ada" ∷ []

compiled_native :
    (bind_all sample (Native.new sample native_sql) bound_values >>= into_parts sample)
    ≡ ok (native_sql, native_arguments)
unfolding bind into_parts normalize_entity_binding into_arguments argument nat_to_string
compiled_native = refl

into_parts-bind_all_example :
    (native_sql ≡ native_sql)
    × ((bindings : List (PgBindValue sample.types)) × Normal sample bound_values bindings
        × (sample.contents native_arguments ≡ arguments_of sample bindings))
into_parts-bind_all_example =
    into_parts-bind_all sample native_sql native_sql bound_values native_arguments compiled_native
