-- ===== src/Repository/Operations.antt =====
-- The operations of src/postgres/repository.rs: each compiles one statement and sends it in at most
-- one call of the source.
pub mod Effects
pub mod Reports
pub mod Routed
pub mod Sessions
use Prim.Native.String.{◌++◌}
use soap_sqlx.Prelude.{
  ℕ, zero, suc, ℤ, pos, negsuc, Bool, true, false, String, Option, none, some, List, Result, ok,
  err, ◌>>=◌, map_err, collect,
}
use soap_sqlx.Portable.{FindParams}
use soap_sqlx.External.{External, SoapResult, SqlxResult, infrastructure, not_found}
use soap_sqlx.Errors.{map_sqlx_error}
use soap_sqlx.Source.{Action, PgSource}
use soap_sqlx.Mapping.{PgFieldMap}
use soap_sqlx.Entity.{quoted, validate}
use soap_sqlx.Output.{into_sqlx_parts}
use soap_sqlx.Compiler.{compile_find, compile_count}
use soap_sqlx.Repository.{PgEntityCodec, append_fragment, select_prefix, compiled_id}
use soap_sqlx.Repository.Statements.{compile_insert, compile_replace}

-- `PgRepository`: its compiler holds a copy of the codec's field map.
pub record PgRepository (x : External) (S E Key : Type 0) : Type 0 where
  pub source : PgSource x S
  pub codec : PgEntityCodec x E Key
  pub compiler : PgFieldMap x

module _ (x : External) {S : Type 0} where
  -- The call of the source, after a statement that compiles.
  abbrev pub send :
      {A : Type 0}
      → (String → x.PgArguments → Action x S A)
      → String
      → SoapResult x (String × x.PgArguments)
      → S
      → SoapResult x A × S
  send call operation (err e) s = (err e, s)
  send call operation (ok (sql, arguments)) s =
      let (result, s') = call sql arguments s in
      (map_err (λ e. map_sqlx_error x e operation) result, s')

  -- What is done with the answer.
  abbrev pub answer :
      {A B : Type 0} → (A → SoapResult x B) → SoapResult x A × S → SoapResult x B × S
  answer f (result, s) = (result >>= f, s)

module _ (x : External) {S E Key : Type 0} where
  unfoldable pub new : PgSource x S → PgEntityCodec x E Key → SoapResult x (PgRepository x S E Key)
  new source codec = validate x codec.mapping >>= λ _.
      ok (record { source = source; codec = codec; compiler = codec.mapping.fields })

  module _ (repository : PgRepository x S E Key) where
    abbrev codec : PgEntityCodec x E Key
    codec = repository.codec

    abbrev pub find_statement : FindParams x.FieldName x.F64 → SoapResult x (String × x.PgArguments)
    find_statement params = do
      compiled ← compile_find x repository.compiler params
      parts ← into_sqlx_parts x compiled
      prefix ← select_prefix x codec
      ok (append_fragment prefix parts.0, parts.1)

    unfoldable pub find : FindParams x.FieldName x.F64 → S → SoapResult x (List E) × S
    find params s =
        answer x (λ rows. collect codec.decode rows)
          (send x repository.source.fetch_all "find entities" (find_statement params) s)

    abbrev pub get_statement : Key → SoapResult x (String × x.PgArguments)
    get_statement id = do
      condition ← compiled_id x codec id
      prefix ← select_prefix x codec
      ok (prefix ++ (" WHERE " ++ condition.0), condition.1)

    -- `row.as_ref().map(…).transpose()`
    abbrev pub decode_option : Option x.PgRow → SoapResult x (Option E)
    decode_option none = ok none
    decode_option (some row) = codec.decode row >>= λ entity. ok (some entity)

    unfoldable pub get : Key → S → SoapResult x (Option E) × S
    get id s =
        answer x decode_option
          (send x repository.source.fetch_optional "get entity" (get_statement id) s)

    abbrev pub count_statement :
        FindParams x.FieldName x.F64 → SoapResult x (String × x.PgArguments)
    count_statement params = do
      compiled ← compile_count x repository.compiler params
      parts ← into_sqlx_parts x compiled
      ok (
        append_fragment ("SELECT COUNT(*) AS count FROM " ++ quoted codec.mapping.table) parts.0,
        parts.1,
      )

    -- `u64::try_from(count)`
    abbrev pub to_u64 : ℤ → SoapResult x ℕ
    to_u64 (pos n) = ok n
    to_u64 (negsuc _) = err (x.error infrastructure "PostgreSQL returned a negative count")

    -- `try_get` is `row.try_get("count")`.
    unfoldable pub count :
        (x.PgRow → SqlxResult x ℤ) → FindParams x.FieldName x.F64 → S → SoapResult x ℕ × S
    count try_get params s =
        answer x
          (λ row. map_err (λ e. map_sqlx_error x e "decode entity count") (try_get row) >>= to_u64)
          (send x repository.source.fetch_one "count entities" (count_statement params) s)

    unfoldable pub insert : E → S → SoapResult x (Unit {0}) × S
    insert entity s =
        answer x (λ _. ok tt)
          (send x repository.source.apply "insert entity" (compile_insert x codec entity false) s)

    abbrev pub replaced_one : ℕ → SoapResult x (Unit {0})
    replaced_one zero = err (x.error not_found "entity identifier")
    replaced_one (suc _) = ok tt

    unfoldable pub replace : E → S → SoapResult x (Unit {0}) × S
    replace entity s =
        answer x (λ result. replaced_one (x.rows_affected result))
          (send x repository.source.apply "replace entity" (compile_replace x codec entity false) s)

    abbrev pub remove_statement : Key → SoapResult x (String × x.PgArguments)
    remove_statement id = do
      condition ← compiled_id x codec id
      ok ("DELETE FROM " ++ (quoted codec.mapping.table ++ (" WHERE " ++ condition.0)), condition.1)

    abbrev pub is_positive : ℕ → Bool
    is_positive zero = false
    is_positive (suc _) = true

    unfoldable pub remove : Key → S → SoapResult x Bool × S
    remove id s =
        answer x (λ result. ok (is_positive (x.rows_affected result)))
          (send x repository.source.apply "remove entity" (remove_statement id) s)

    unfoldable pub insert_returning : E → S → SoapResult x E × S
    insert_returning entity s = answer x codec.decode (
        send x repository.source.apply_one "insert and return entity"
          (compile_insert x codec entity true) s)

    unfoldable pub replace_returning : E → S → SoapResult x E × S
    replace_returning entity s = answer x codec.decode (
        send x repository.source.apply_one "replace and return entity"
          (compile_replace x codec entity true) s)
