-- ===== src/Router.antt =====
-- src/postgres/router.rs: reads go round the replicas, writes go to the primary.
pub mod Rotation
pub mod Writes
use Prim.Native.Nat.{◌%◌}
use native.Mathlib.Nat.{mod-lt}
use soap_sqlx.Prelude.{ℕ, zero, suc, ◌+◌, ◌^◌, ◌<◌, arith, String, List, [], ◌∷◌, length, ◌≡◌, refl}
use soap_sqlx.External.{External, SqlxResult}
use soap_sqlx.Source.{Action, PgSource}

-- The size of an `AtomicUsize` on a 64-bit machine; `fetch_add` wraps around.
abbrev pub usize_mod : ℕ
usize_mod = 2 ^ 64

-- `v[index]`: the proof stands for the bounds check that never fails.
unfoldable pub nth {ℓ} : {A : Type ℓ} (xs : List A) (i : ℕ) → i < length xs → A
nth [] i h = absurd (omega arith)
nth (a ∷ xs) zero h = a
nth (a ∷ xs) (suc i) h = nth xs i (omega arith)

module _ (x : External) (S : Type 0) where
  pub record PgPrimaryReplicaSource : Type 0 where
    pub primary : PgSource x S
    pub replicas : List (PgSource x S)

  -- The counter `next_replica` beside the world that the sources act on.
  pub record RouterState : Type 0 where
    pub next_replica : ℕ
    pub world : S

module _ {x : External} {S : Type 0} where
  abbrev pub new : PgSource x S → List (PgSource x S) → PgPrimaryReplicaSource x S
  new primary replicas = record { primary = primary; replicas = replicas }

  -- The replica that a counter value selects.
  replica_at : (replica : PgSource x S) (replicas : List (PgSource x S)) → ℕ → PgSource x S
  unfolding nth
  replica_at replica replicas counter =
      nth (replica ∷ replicas) (counter % length (replica ∷ replicas)) (omega arith)

  -- The source for a read, and the counter after `fetch_add`.
  read_from : PgSource x S → List (PgSource x S) → ℕ → PgSource x S × ℕ
  unfolding replica_at
  read_from primary [] counter = (primary, counter)
  read_from primary (replica ∷ replicas) counter =
      (replica_at replica replicas counter, (counter + 1) % usize_mod)

  unfoldable pub read_source : PgPrimaryReplicaSource x S → ℕ → PgSource x S × ℕ
  unfolding read_from
  read_source router counter = read_from router.primary router.replicas counter

  -- Run an action of a source on the world, with the counter as given.
  abbrev pub on_world :
      {A : Type 0} → Action x S A → ℕ → RouterState x S → SqlxResult x A × RouterState x S
  on_world action counter state =
      let (result, world) = action state.world in
      (result, record { next_replica = counter; world = world })

  -- `impl PgSource for PgPrimaryReplicaSource`, on the router's own state.
  unfoldable pub router_source : PgPrimaryReplicaSource x S → PgSource x (RouterState x S)
  unfolding read_source
  router_source router = record {
    fetch_all = λ sql arguments state.
        let (source, counter) = read_source router state.next_replica in
        on_world (source.fetch_all sql arguments) counter state;
    fetch_optional = λ sql arguments state.
        let (source, counter) = read_source router state.next_replica in
        on_world (source.fetch_optional sql arguments) counter state;
    fetch_one = λ sql arguments state.
        let (source, counter) = read_source router state.next_replica in
        on_world (source.fetch_one sql arguments) counter state;
    apply = λ sql arguments state.
        on_world (router.primary.apply sql arguments) state.next_replica state;
    apply_one = λ sql arguments state.
        on_world (router.primary.apply_one sql arguments) state.next_replica state;
  }
