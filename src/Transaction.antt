-- ===== src/Transaction.antt =====
-- src/postgres/transaction.rs: one transaction shared by repositories. The mutex makes each method
-- one step on the state; what SQLx does with the open transaction is a parameter.
pub mod Lifecycle
pub mod Driver
use soap_sqlx.Prelude.{String, Result, ok, err, map_err, map_ok}
use soap_sqlx.Sqlx.{SqlxError}
use soap_sqlx.External.{External, SoapResult, SqlxResult, infrastructure}
use soap_sqlx.Errors.{map_sqlx_error}
use soap_sqlx.Source.{Action, PgSource, Executor}

-- SQLx's part: a transaction handle `Tx` in a world `W`. A query may change both; `commit` and
-- `rollback` consume the handle.
pub record TransactionApi (x : External) (Tx W : Type 0) : Type 0 where
  pub begin : Action x W Tx
  pub connection : Executor x (Tx × W)
  pub commit : Tx → Action x W (Unit {0})
  pub rollback : Tx → Action x W (Unit {0})

pub data TransactionState (Tx : Type 0) : Type 0 where
  active : Tx → TransactionState Tx
  completed : TransactionState Tx

-- A `PgTransactionSource`: its state beside the world.
pub record PgTransactionSource (Tx W : Type 0) : Type 0 where
  pub state : TransactionState Tx
  pub world : W

module _ (x : External) where
  abbrev pub already_completed : String
  already_completed = "PostgreSQL transaction source is already completed"

  module _ {Tx : Type 0} where
    -- `std::mem::replace(state, Completed)`
    unfoldable pub take_active : TransactionState Tx → SoapResult x Tx × TransactionState Tx
    take_active (active transaction) = (ok transaction, completed)
    take_active completed = (err (x.error infrastructure already_completed), completed)

    -- The free function `active`.
    unfoldable pub get_active : TransactionState Tx → SqlxResult x Tx
    get_active (active transaction) = ok transaction
    get_active completed = err (SqlxError.protocol already_completed)

  module _ {Tx W : Type 0} (api : TransactionApi x Tx W) where
    abbrev Source : Type 0
    Source = PgTransactionSource Tx W

    unfoldable pub begin : W → SoapResult x Source × W
    begin world =
        let (result, world') = api.begin world in
        (
          map_ok (λ transaction. record { state = active transaction; world = world' })
              (map_err (λ e. map_sqlx_error x e "begin transaction") result),
          world',
        )

    -- The end of `commit` and of `rollback`, once the state has been taken.
    end :
        (Tx → Action x W (Unit {0}))
        → String
        → SoapResult x Tx × TransactionState Tx
        → W
        → SoapResult x (Unit {0}) × Source
    end finish operation (err e, state) world = (err e, record { state = state; world = world })
    end finish operation (ok transaction, state) world =
        let (result, world') = finish transaction world in
        (
          map_err (λ e. map_sqlx_error x e operation) result,
          record { state = state; world = world' },
        )

    unfoldable pub commit : Source → SoapResult x (Unit {0}) × Source
    unfolding end take_active
    commit s = end api.commit "commit transaction" (take_active s.state) s.world

    unfoldable pub rollback : Source → SoapResult x (Unit {0}) × Source
    unfolding end take_active
    rollback s = end api.rollback "rollback transaction" (take_active s.state) s.world

    -- The body of each of the five methods: `active(&mut state)?`, then the query on the connection.
    on_active : {A : Type 0} → Action x (Tx × W) A → SqlxResult x Tx → Action x Source A
    on_active query (err e) s = (err e, s)
    on_active query (ok transaction) s =
        let (result, (transaction', world')) = query (transaction, s.world) in
        (result, record { state = active transaction'; world = world' })

    unfoldable pub transaction_source : PgSource x Source
    unfolding on_active get_active
    transaction_source = record {
      fetch_all = λ sql arguments s.
          on_active (api.connection.fetch_all sql arguments) (get_active s.state) s;
      fetch_optional = λ sql arguments s.
          on_active (api.connection.fetch_optional sql arguments) (get_active s.state) s;
      fetch_one = λ sql arguments s.
          on_active (api.connection.fetch_one sql arguments) (get_active s.state) s;
      apply = λ sql arguments s.
          on_active (api.connection.execute sql arguments) (get_active s.state) s;
      apply_one = λ sql arguments s.
          on_active (api.connection.fetch_one sql arguments) (get_active s.state) s;
    }
