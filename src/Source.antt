-- ===== src/Source.antt =====
-- src/postgres/source.rs: the execution boundary of the repositories. A method is a function from
-- the state of the world to its result and the state after it.
pub mod Calls
use soap_sqlx.Prelude.{String, List, Option}
use soap_sqlx.External.{External, SqlxResult}

-- An action on a world of states `S`.
abbrev pub Action : External → Type 0 → Type 0 → Type 0
Action x S A = S → SqlxResult x A × S

-- The trait `PgSource`.
pub record PgSource (x : External) (S : Type 0) : Type 0 where
  pub fetch_all : String → x.PgArguments → Action x S (List x.PgRow)
  pub fetch_optional : String → x.PgArguments → Action x S (Option x.PgRow)
  pub fetch_one : String → x.PgArguments → Action x S x.PgRow
  pub apply : String → x.PgArguments → Action x S x.PgQueryResult
  pub apply_one : String → x.PgArguments → Action x S x.PgRow

-- `sqlx::query_with(sql, arguments)` run on an executor, a pool or a connection: SQLx's part.
pub record Executor (x : External) (S : Type 0) : Type 0 where
  pub fetch_all : String → x.PgArguments → Action x S (List x.PgRow)
  pub fetch_optional : String → x.PgArguments → Action x S (Option x.PgRow)
  pub fetch_one : String → x.PgArguments → Action x S x.PgRow
  pub execute : String → x.PgArguments → Action x S x.PgQueryResult

module _ {x : External} {S : Type 0} where
  -- `impl PgSource for PgPoolSource`
  unfoldable pub pool_source : Executor x S → PgSource x S
  pool_source pool = record {
    fetch_all = λ sql arguments. pool.fetch_all sql arguments;
    fetch_optional = λ sql arguments. pool.fetch_optional sql arguments;
    fetch_one = λ sql arguments. pool.fetch_one sql arguments;
    apply = λ sql arguments. pool.execute sql arguments;
    apply_one = λ sql arguments. pool.fetch_one sql arguments;
  }
