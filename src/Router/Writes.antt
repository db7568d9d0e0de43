-- ===== src/Router/Writes.antt =====
-- Which source an operation of the router can reach (src/postgres/router.rs).
use soap_sqlx.Prelude.{ℕ, zero, suc, ◌<◌, arith, List, [], ◌∷◌, length, All}
use soap_sqlx.External.{External}
use soap_sqlx.Source.{PgSource}
use soap_sqlx.Source.Calls.{
  Call, fetch_all, fetch_optional, fetch_one, apply, apply_one, IsRead, perform,
}
use soap_sqlx.Router.{nth, RouterState, new, router_source}

module _ {x : External} {S : Type 0} where
  abbrev pub perform_all : PgSource x S → List (Call x) → S → S
  perform_all source [] s = s
  perform_all source (call ∷ calls) s = perform_all source calls (perform source call s)

module _ {x : External} {S : Type 0} where
  -- An invariant that the calls of a class on a source keep.
  abbrev pub Keeps : (S → Type 0) → (Call x → Type 0) → PgSource x S → Type 0
  Keeps P Class source = (call : Call x) (s : S) → Class call → P s → P (perform source call s)

  nth-All :
      (Q : PgSource x S → Type 0) (xs : List (PgSource x S)) (i : ℕ) (h : i < length xs)
      → All Q xs
      → Q (nth xs i h)
  unfolding nth
  nth-All Q [] i h all = absurd (omega arith)
  nth-All Q (a ∷ xs) zero h all = all.0
  nth-All Q (a ∷ xs) (suc i) h all = nth-All Q xs i _ all.1

module _ {x : External} {S : Type 0} where
  module _ (P : S → Type 0) (primary replica : PgSource x S) (replicas : List (PgSource x S)) where
    abbrev pub replicated : PgSource x (RouterState x S)
    replicated = router_source (new primary (replica ∷ replicas))

    module _ (reads : All (Keeps P IsRead) (replica ∷ replicas))
        (writes : Keeps P (λ call. ¬ IsRead call) primary) where
      call-keeps :
          (call : Call x) (s : RouterState x S) → P s.world → P (perform replicated call s).world
      unfolding router_source
      call-keeps (fetch_all sql arguments) s h =
          nth-All (Keeps P IsRead) (replica ∷ replicas) _ _ reads (fetch_all sql arguments) s.world
            tt h
      call-keeps (fetch_optional sql arguments) s h =
          nth-All (Keeps P IsRead) (replica ∷ replicas) _ _ reads (fetch_optional sql arguments)
            s.world tt h
      call-keeps (fetch_one sql arguments) s h =
          nth-All (Keeps P IsRead) (replica ∷ replicas) _ _ reads (fetch_one sql arguments) s.world
            tt h
      call-keeps (apply sql arguments) s h = writes (apply sql arguments) s.world (λ r. r) h
      call-keeps (apply_one sql arguments) s h = writes (apply_one sql arguments) s.world (λ r. r) h

    -- With at least one replica, an invariant of the world that the reads of every replica and the
    -- writes of the primary keep holds through any schedule of calls.
    pub perform_all-keeps :
        All (Keeps P IsRead) (replica ∷ replicas)
        → Keeps P (λ call. ¬ IsRead call) primary
        → (calls : List (Call x)) (s : RouterState x S) → P s.world
        → P (perform_all replicated calls s).world
    perform_all-keeps reads writes [] s h = h
    perform_all-keeps reads writes (call ∷ calls) s h =
        perform_all-keeps reads writes calls _ (call-keeps reads writes call s h)
