-- ===== src/Native.antt =====
-- src/postgres/native_query.rs: trusted statements with typed bindings, and their handler.
pub mod Bound
use mathlib.Core.List.{◌++◌}
use soap_sqlx.Prelude.{String, List, [], ◌∷◌, ok, err, ◌>>=◌, if◌then◌else◌}
use soap_sqlx.External.{External, SoapResult, validation}
use soap_sqlx.Mapping.{PgScalarKind}
use soap_sqlx.Value.{PgValue, is_default}
use soap_sqlx.Binding.{PgBindValue, normalize_entity_binding}
use soap_sqlx.Output.{from_bindings, into_arguments}
use soap_sqlx.Source.{PgSource}
use soap_sqlx.Repository.Operations.{send, answer}

module _ (x : External) where
  pub record PgNativeStatement : Type 0 where
    pub sql : String
    pub bindings : List (PgBindValue x.types)

  abbrev pub new : String → PgNativeStatement
  new sql = record { sql = sql; bindings = [] }

  unfoldable pub bind :
      PgNativeStatement → PgScalarKind → PgValue x.types → SoapResult x PgNativeStatement
  bind statement kind value =
      if is_default value
      then err (x.error validation "native PostgreSQL query binding cannot use DEFAULT")
      else (normalize_entity_binding x kind value >>= λ binding.
          ok (record statement { bindings = statement.bindings ++ binding ∷ [] }))

  unfoldable pub into_parts : PgNativeStatement → SoapResult x (String × x.PgArguments)
  into_parts statement = do
    arguments ← into_arguments x (from_bindings statement.bindings)
    ok (statement.sql, arguments)

  -- `PgNativeQuerySpec<Q>`: the application's.
  pub record PgNativeQuerySpec (Q Output : Type 0) : Type 0 where
    pub compile : Q → SoapResult x PgNativeStatement
    pub decode : List x.PgRow → SoapResult x Output

  -- `QueryHandler::query` of a `PgNativeQueryHandler`.
  unfoldable pub query :
      {S Q Output : Type 0}
      → PgSource x S
      → PgNativeQuerySpec Q Output
      → Q
      → S
      → SoapResult x Output × S
  unfolding into_parts
  query source spec q s =
      answer x spec.decode
        (send x source.fetch_all "run native query" (spec.compile q >>= into_parts) s)
