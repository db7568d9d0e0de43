-- ===== src/Transaction/Driver.antt =====
-- What reaches the server in a session over src/postgres/transaction.rs: the driver's calls are
-- recorded, the latest first.
use soap_sqlx.Prelude.{List, [], ◌∷◌, All}
use soap_sqlx.External.{External}
use soap_sqlx.Source.{Action}
use soap_sqlx.Source.Calls.{fetch_all, fetch_optional, fetch_one, apply, apply_one}
use soap_sqlx.Transaction.{
  TransactionApi, TransactionState, active, completed, PgTransactionSource, take_active, get_active,
  end, commit, rollback, on_active, transaction_source,
}
use soap_sqlx.Transaction.Lifecycle.{Request, ask, ask_commit, ask_rollback, step, steps}

pub data Event : Type 0 where
  began asked committed rolled_back : Event

abbrev pub IsAsked : Event → Type 0
IsAsked asked = Unit
IsAsked _ = ⊥

abbrev pub IsEnding : Event → Type 0
IsEnding committed = Unit
IsEnding rolled_back = Unit
IsEnding _ = ⊥

-- Queries, and at most one ending, after the queries; `end` says whether it is there.
abbrev pub IsOrderly : List Event → Type 0
IsOrderly [] = Unit
IsOrderly (asked ∷ events) = All IsAsked events
IsOrderly (event ∷ events) = IsEnding event × All IsAsked events

module _ {x : External} {Tx W : Type 0} (api : TransactionApi x Tx W) where
  abbrev W' : Type 0
  W' = List Event × W

  -- An action on the world that is recorded as an event.
  abbrev recording : {A : Type 0} → Event → Action x W A → Action x W' A
  recording event action (events, world) =
      let (result, world') = action world in (result, (event ∷ events, world'))

  abbrev asking : {A : Type 0} → Action x (Tx × W) A → Action x (Tx × W') A
  asking action (transaction, (events, world)) =
      let (result, (transaction', world')) = action (transaction, world) in
      (result, (transaction', (asked ∷ events, world')))

  -- The same driver, with its calls recorded.
  abbrev pub recorded : TransactionApi x Tx W'
  recorded = record {
    begin = recording began api.begin;
    connection = record {
      fetch_all = λ sql arguments. asking (api.connection.fetch_all sql arguments);
      fetch_optional = λ sql arguments. asking (api.connection.fetch_optional sql arguments);
      fetch_one = λ sql arguments. asking (api.connection.fetch_one sql arguments);
      execute = λ sql arguments. asking (api.connection.execute sql arguments);
    };
    commit = λ transaction. recording committed (api.commit transaction);
    rollback = λ transaction. recording rolled_back (api.rollback transaction);
  }

  -- What the record says of the state: only queries while the session is active.
  abbrev Reached : TransactionState Tx → List Event → Type 0
  Reached (active _) events = All IsAsked events
  Reached completed events = IsOrderly events

  Reached-IsOrderly :
      (state : TransactionState Tx) (events : List Event) → Reached state events → IsOrderly events
  Reached-IsOrderly (active t) [] h = tt
  Reached-IsOrderly (active t) (asked ∷ events) h = h.1
  Reached-IsOrderly (active t) (began ∷ events) h = elim h.0 [ ]
  Reached-IsOrderly (active t) (committed ∷ events) h = elim h.0 [ ]
  Reached-IsOrderly (active t) (rolled_back ∷ events) h = elim h.0 [ ]
  Reached-IsOrderly completed events h = h

  step-Reached :
      (r : Request x) (state : TransactionState Tx) (events : List Event) (w : W)
      → Reached state events
      → let s = step recorded r (record { state = state; world = (events, w) }) in
        Reached s.state s.world.0
  unfolding commit rollback take_active get_active end on_active transaction_source
  step-Reached (ask (fetch_all sql arguments)) (active t) events w h = (tt, h)
  step-Reached (ask (fetch_optional sql arguments)) (active t) events w h = (tt, h)
  step-Reached (ask (fetch_one sql arguments)) (active t) events w h = (tt, h)
  step-Reached (ask (apply sql arguments)) (active t) events w h = (tt, h)
  step-Reached (ask (apply_one sql arguments)) (active t) events w h = (tt, h)
  step-Reached ask_commit (active t) events w h = (tt, h)
  step-Reached ask_rollback (active t) events w h = (tt, h)
  step-Reached (ask (fetch_all sql arguments)) completed events w h = h
  step-Reached (ask (fetch_optional sql arguments)) completed events w h = h
  step-Reached (ask (fetch_one sql arguments)) completed events w h = h
  step-Reached (ask (apply sql arguments)) completed events w h = h
  step-Reached (ask (apply_one sql arguments)) completed events w h = h
  step-Reached ask_commit completed events w h = h
  step-Reached ask_rollback completed events w h = h

  steps-Reached :
      (rs : List (Request x)) (s : PgTransactionSource Tx W')
      → Reached s.state s.world.0
      → let s' = steps recorded rs s in Reached s'.state s'.world.0
  steps-Reached [] s h = h
  steps-Reached (r ∷ rs) s h =
      steps-Reached rs (step recorded r s) (step-Reached r s.state s.world.0 s.world.1 h)

  -- Any schedule of requests to a session that begins with an open transaction sends the driver
  -- queries and at most one commit or rollback, and nothing after it.
  pub steps-IsOrderly :
      (t : Tx) (w : W) (rs : List (Request x))
      → IsOrderly (steps recorded rs (record { state = active t; world = ([], w) })).world.0
  steps-IsOrderly t w rs =
      let s = steps recorded rs (record { state = active t; world = ([], w) }) in
      Reached-IsOrderly s.state s.world.0
        (steps-Reached rs (record { state = active t; world = ([], w) }) tt)
