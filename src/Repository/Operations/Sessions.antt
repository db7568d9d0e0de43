-- ===== src/Repository/Operations/Sessions.antt =====
-- The operations of src/postgres/repository.rs over the session of src/postgres/transaction.rs, in
-- either of its states.
use soap_sqlx.Prelude.{true, false, ℤ, String, ok, err, ◌≡◌, refl}
use soap_sqlx.External.{External, SoapResult, SqlxResult}
use soap_sqlx.Source.{Action, pool_source}
use soap_sqlx.Mapping.{PgFieldMap}
use soap_sqlx.Transaction.{
  TransactionApi, TransactionState, active, completed, PgTransactionSource, transaction_source,
}
use soap_sqlx.Transaction.Lifecycle.{over as completed_error, calls-completed}
use soap_sqlx.Repository.{PgEntityCodec}
use soap_sqlx.Repository.Statements.{compile_insert, compile_replace}
use soap_sqlx.Repository.Operations.{
  send, answer, find_statement, get_statement, count_statement, remove_statement, find, get, count,
  insert, replace, remove, insert_returning, replace_returning,
}
use soap_sqlx.Repository.Operations.Effects.{
  Operation, finding, counting, getting, removing, inserting, replacing, inserting_returning,
  replacing_returning,
}
use soap_sqlx.Repository.Operations.Reports.{statement_of, name_of, blamed, answer-failed}
use soap_sqlx.Repository.Operations.Routed.{Answer, run, over}

module _ (x : External) {Tx W : Type 0} where
  -- The session that goes on with a transaction.
  abbrev pub resumed :
      {A : Type 0} → SoapResult x A × (Tx × W) → SoapResult x A × PgTransactionSource Tx W
  resumed (result, (transaction, world)) =
      (result, record { state = active transaction; world = world })

  -- A call of an active session is the query on its transaction.
  abbrev Resumes :
      {A : Type 0} → Action x (PgTransactionSource Tx W) A → Action x (Tx × W) A → Tx → W → Type 0
  Resumes call query transaction world =
      call (record { state = active transaction; world = world }) ≡ (
        (query (transaction, world)).0,
        record {
          state = active (query (transaction, world)).1.0;
          world = (query (transaction, world)).1.1;
        },
      )

  answer-resumed :
      {A B : Type 0} (f : A → SoapResult x B)
      (call : String → x.PgArguments → Action x (PgTransactionSource Tx W) A)
      (query : String → x.PgArguments → Action x (Tx × W) A) (operation : String)
      (statement : SoapResult x (String × x.PgArguments)) (transaction : Tx) (world : W)
      → ((sql : String) (arguments : x.PgArguments)
          → Resumes (call sql arguments) (query sql arguments) transaction world)
      → answer x f
          (send x call operation statement (record { state = active transaction; world = world }))
        ≡ resumed (answer x f (send x query operation statement (transaction, world)))
  answer-resumed f call query operation (err e) transaction world same = refl
  answer-resumed f call query operation (ok (sql, arguments)) transaction world same =
      rw (same sql arguments, send, answer) refl

module _ {x : External} {Tx W E Key : Type 0} (api : TransactionApi x Tx W)
    (try_get : x.PgRow → SqlxResult x ℤ) (codec : PgEntityCodec x E Key)
    (compiler : PgFieldMap x) where
  -- What an operation does to a session: over an active one it runs on the transaction, as over a
  -- source of its own; a completed one stays as it is.
  abbrev pub during :
      (operation : Operation x E Key)
      → TransactionState Tx
      → W
      → SoapResult x (Answer operation) × PgTransactionSource Tx W
  during operation (active transaction) world = resumed x (
      run try_get (over codec compiler (pool_source api.connection)) operation (transaction, world))
  during operation completed world = (
    err (
        blamed x (statement_of (over codec compiler (transaction_source x api)) operation)
          (completed_error api) (name_of operation)),
    record { state = completed; world = world },
  )

  -- Over an active session an operation of a repository gives the result that it gives over a pool
  -- source of the transaction's connection, and the session goes on with the transaction that this
  -- leaves; over a completed one it leaves the session and the world as they are and reports the
  -- error of its statement, or, if that compiles, the mapped error of a completed session under
  -- the operation's name.
  pub run-transaction_source :
      (operation : Operation x E Key) (state : TransactionState Tx) (world : W)
      → run try_get
          (over codec compiler (transaction_source x api))
          operation
          (record { state = state; world = world })
        ≡ during operation state world
  unfolding transaction_source pool_source find count get remove insert replace insert_returning
      replace_returning
  run-transaction_source (finding params) (active t) w =
      answer-resumed x _ (transaction_source x api).fetch_all api.connection.fetch_all _
        (find_statement x (over codec compiler (transaction_source x api)) params) t w
        (λ sql arguments. refl)
  run-transaction_source (finding params) completed w =
      answer-failed x _ (transaction_source x api).fetch_all _
        (find_statement x (over codec compiler (transaction_source x api)) params) _
        (completed_error api) (λ sql arguments. (calls-completed api sql arguments _ refl).0)
  run-transaction_source (counting params) (active t) w =
      answer-resumed x _ (transaction_source x api).fetch_one api.connection.fetch_one _
        (count_statement x (over codec compiler (transaction_source x api)) params) t w
        (λ sql arguments. refl)
  run-transaction_source (counting params) completed w =
      answer-failed x _ (transaction_source x api).fetch_one _
        (count_statement x (over codec compiler (transaction_source x api)) params) _
        (completed_error api) (λ sql arguments. (calls-completed api sql arguments _ refl).2)
  run-transaction_source (getting id) (active t) w =
      answer-resumed x _ (transaction_source x api).fetch_optional api.connection.fetch_optional _
        (get_statement x (over codec compiler (transaction_source x api)) id) t w
        (λ sql arguments. refl)
  run-transaction_source (getting id) completed w =
      answer-failed x _ (transaction_source x api).fetch_optional _
        (get_statement x (over codec compiler (transaction_source x api)) id) _
        (completed_error api) (λ sql arguments. (calls-completed api sql arguments _ refl).1)
  run-transaction_source (removing id) (active t) w =
      answer-resumed x _ (transaction_source x api).apply api.connection.execute _
        (remove_statement x (over codec compiler (transaction_source x api)) id) t w
        (λ sql arguments. refl)
  run-transaction_source (removing id) completed w =
      answer-failed x _ (transaction_source x api).apply _
        (remove_statement x (over codec compiler (transaction_source x api)) id) _
        (completed_error api) (λ sql arguments. (calls-completed api sql arguments _ refl).3)
  run-transaction_source (inserting entity) (active t) w =
      answer-resumed x _ (transaction_source x api).apply api.connection.execute _
        (compile_insert x codec entity false) t w (λ sql arguments. refl)
  run-transaction_source (inserting entity) completed w =
      answer-failed x _ (transaction_source x api).apply _ (compile_insert x codec entity false) _
        (completed_error api) (λ sql arguments. (calls-completed api sql arguments _ refl).3)
  run-transaction_source (replacing entity) (active t) w =
      answer-resumed x _ (transaction_source x api).apply api.connection.execute _
        (compile_replace x codec entity false) t w (λ sql arguments. refl)
  run-transaction_source (replacing entity) completed w =
      answer-failed x _ (transaction_source x api).apply _ (compile_replace x codec entity false) _
        (completed_error api) (λ sql arguments. (calls-completed api sql arguments _ refl).3)
  run-transaction_source (inserting_returning entity) (active t) w =
      answer-resumed x _ (transaction_source x api).apply_one api.connection.fetch_one _
        (compile_insert x codec entity true) t w (λ sql arguments. refl)
  run-transaction_source (inserting_returning entity) completed w =
      answer-failed x _ (transaction_source x api).apply_one _ (compile_insert x codec entity true)
        _ (completed_error api) (λ sql arguments. (calls-completed api sql arguments _ refl).4)
  run-transaction_source (replacing_returning entity) (active t) w =
      answer-resumed x _ (transaction_source x api).apply_one api.connection.fetch_one _
        (compile_replace x codec entity true) t w (λ sql arguments. refl)
  run-transaction_source (replacing_returning entity) completed w =
      answer-failed x _ (transaction_source x api).apply_one _ (compile_replace x codec entity true)
        _ (completed_error api) (λ sql arguments. (calls-completed api sql arguments _ refl).4)
