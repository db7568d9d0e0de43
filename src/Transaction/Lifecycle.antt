-- ===== src/Transaction/Lifecycle.antt =====
-- The life of a session over src/postgres/transaction.rs: calls, commits and rollbacks in any order.
use soap_sqlx.Prelude.{String, ◌≡◌, refl, some, List, [], ◌∷◌, err}
use soap_sqlx.Sqlx.{SqlxError}
use soap_sqlx.External.{External, infrastructure}
use soap_sqlx.Source.Calls.{
  Call, fetch_all, fetch_optional, fetch_one, apply, apply_one, perform, failure,
}
use soap_sqlx.Transaction.{
  TransactionApi, TransactionState, active, completed, PgTransactionSource, already_completed,
  take_active, get_active, end, commit, rollback, on_active, transaction_source,
}

-- What a user of a session can ask of it.
pub data Request (x : External) : Type 0 where
  ask : Call x → Request x
  ask_commit ask_rollback : Request x

-- The two requests that end a session.
abbrev pub IsEnd : {x : External} → Request x → Type 0
IsEnd (ask _) = ⊥
IsEnd _ = Unit

module _ {x : External} {Tx W : Type 0} (api : TransactionApi x Tx W) where
  abbrev pub step : Request x → PgTransactionSource Tx W → PgTransactionSource Tx W
  step (ask c) s = perform (transaction_source x api) c s
  step ask_commit s = (commit x api s).1
  step ask_rollback s = (rollback x api s).1

  abbrev pub steps : List (Request x) → PgTransactionSource Tx W → PgTransactionSource Tx W
  steps [] s = s
  steps (r ∷ rs) s = steps rs (step r s)

  -- The request fails because the session is completed.
  abbrev pub Refused : Request x → PgTransactionSource Tx W → Type 0
  Refused (ask c) s =
      failure (transaction_source x api) c s ≡ some (SqlxError.protocol (already_completed x))
  Refused ask_commit s = (commit x api s).0 ≡ err (x.error infrastructure (already_completed x))
  Refused ask_rollback s = (rollback x api s).0 ≡ err (x.error infrastructure (already_completed x))

  pub step-end :
      (state : TransactionState Tx) (w : W) (r : Request x)
      → IsEnd r
      → (step r (record { state = state; world = w })).state ≡ completed
  unfolding commit rollback take_active end
  step-end state w (ask _) h = elim h [ ]
  step-end (active t) w ask_commit _ = refl
  step-end (active t) w ask_rollback _ = refl
  step-end completed w ask_commit _ = refl
  step-end completed w ask_rollback _ = refl

  step-completed :
      (r : Request x) (s : PgTransactionSource Tx W)
      → s.state ≡ completed
      → (step r s ≡ s) × Refused r s
  unfolding commit rollback take_active get_active end on_active transaction_source
  step-completed (ask (fetch_all sql arguments)) s h = (cc, cc)
  step-completed (ask (fetch_optional sql arguments)) s h = (cc, cc)
  step-completed (ask (fetch_one sql arguments)) s h = (cc, cc)
  step-completed (ask (apply sql arguments)) s h = (cc, cc)
  step-completed (ask (apply_one sql arguments)) s h = (cc, cc)
  step-completed ask_commit s h = (cc, cc)
  step-completed ask_rollback s h = (cc, cc)

  steps-completed :
      (rs : List (Request x)) (s : PgTransactionSource Tx W) → s.state ≡ completed → steps rs s ≡ s
  steps-completed [] s h = refl
  steps-completed (r ∷ rs) s h =
      let (same, _) = step-completed r s h in rw same (steps-completed rs s h)

  -- Once a session has been asked to commit or to roll back, whatever state it was in and whatever
  -- the server answered, no schedule of later requests changes the session or the world, and every
  -- later request is refused because the session is completed.
  pub steps-ended :
      (s : PgTransactionSource Tx W) (last : Request x)
      → IsEnd last
      → (rs : List (Request x)) (r : Request x)
      → (steps (last ∷ rs) s ≡ step last s) × Refused r (steps (last ∷ rs) s)
  steps-ended s last h rs r =
      let over = step-end s.state s.world last h in
      let same = steps-completed rs (step last s) over in
      let (_, refused) = step-completed r (step last s) over in (same, rw same refused)

  -- What each call of a completed session answers.
  abbrev pub over : SqlxError x.Detail
  over = SqlxError.protocol (already_completed x)

  pub calls-completed :
      (sql : String) (arguments : x.PgArguments) (s : PgTransactionSource Tx W)
      → s.state ≡ completed
      → ((transaction_source x api).fetch_all sql arguments s ≡ (err over, s))
        × ((transaction_source x api).fetch_optional sql arguments s ≡ (err over, s))
        × ((transaction_source x api).fetch_one sql arguments s ≡ (err over, s))
        × ((transaction_source x api).apply sql arguments s ≡ (err over, s))
        × ((transaction_source x api).apply_one sql arguments s ≡ (err over, s))
  unfolding get_active on_active transaction_source
  calls-completed sql arguments s h = (rw h refl, rw h refl, rw h refl, rw h refl, rw h refl)
