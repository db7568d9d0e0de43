-- ===== src/Router/Rotation.antt =====
-- The rotation of the reads (src/postgres/router.rs).
use Prim.Native.Nat.{◌%◌}
use native.Mathlib.Nat.{mod-lt, mod-eq_of_lt, mod-add-mod, add-mod_right, zero-mod}
use native.Mathlib.Decide.{dec_lt}
use soap_sqlx.Prelude.{
  ℕ, zero, suc, ◌+◌, ◌-◌, ◌<◌, arith, List, [], ◌∷◌, length, get_elem?, some, ◌≡◌, refl, subst,
}
use soap_sqlx.External.{External}
use soap_sqlx.Source.{PgSource}
use soap_sqlx.Router.{usize_mod, nth, new, PgPrimaryReplicaSource, read_source}

-- In a window of `k` numbers every residue below `k` occurs.
shift : (counter k i : ℕ) → i < k → (j : ℕ) × (j < k) × ((counter + j) % k ≡ i)
shift counter k i h = elim (dec_lt i (counter % k)) [
  | yes before ↦ (
    i + k - counter % k,
    omega (arith, mod-lt counter {m = k} (omega arith)),
    rw (← mod-add-mod counter k (i + k - counter % k)) (
        let sum : counter % k + (i + k - counter % k) ≡ i + k =
          omega (arith, mod-lt counter {m = k} (omega arith)) in
        rw (sum, add-mod_right i k) (mod-eq_of_lt h)),
  )
  | no from ↦ (
    i - counter % k,
    omega arith,
    rw (← mod-add-mod counter k (i - counter % k))
        (let sum : counter % k + (i - counter % k) ≡ i = omega arith in rw sum (mod-eq_of_lt h)),
  )
]

-- The counter after `m` reads.
abbrev after : {x : External} {S : Type 0} → PgPrimaryReplicaSource x S → ℕ → ℕ → ℕ
after router counter zero = counter
after router counter (suc m) = (read_source router (after router counter m)).1

module _ {x : External} {S : Type 0} where
  -- The source of the `m`-th of a run of reads that starts at a counter value.
  abbrev pub read_at : PgPrimaryReplicaSource x S → ℕ → ℕ → PgSource x S
  read_at router counter m = (read_source router (after router counter m)).0

  get_elem?-nth :
      (xs : List (PgSource x S)) (i : ℕ) (h : i < length xs) → get_elem? xs i ≡ some (nth xs i h)
  unfolding nth
  get_elem?-nth [] i h = absurd (omega arith)
  get_elem?-nth (a ∷ xs) zero h = refl
  get_elem?-nth (a ∷ xs) (suc i) h = get_elem?-nth xs i _

  module _ (primary replica : PgSource x S) (replicas : List (PgSource x S)) where
    abbrev pub all_replicas : List (PgSource x S)
    all_replicas = replica ∷ replicas

    abbrev pub router : PgPrimaryReplicaSource x S
    router = new primary all_replicas

    -- Until the counter wraps, `m` reads on it has grown by `m`.
    after-eq : (counter m : ℕ) → counter + m < usize_mod → after router counter m ≡ counter + m
    unfolding read_source
    after-eq counter zero h = omega arith
    after-eq counter (suc m) h = let ih = after-eq counter m (omega arith) in rw ih (omega arith)

    -- Until the counter wraps, the m-th read after a counter value goes to the replica with index
    -- (counter + m) modulo the number of replicas.
    pub get_elem?-read_at :
        (counter m : ℕ)
        → counter + m < usize_mod
        → get_elem? all_replicas ((counter + m) % length all_replicas)
          ≡ some (read_at router counter m)
    unfolding read_source
    get_elem?-read_at counter m h = rw (← after-eq counter m h) (get_elem?-nth all_replicas _ _)

    -- In any run of as many consecutive reads as there are replicas, over which the counter does
    -- not wrap, each replica serves a read.
    pub read_at-fair :
        (counter i : ℕ)
        → i < length all_replicas
        → counter + length all_replicas < usize_mod
        → (j : ℕ) × (j < length all_replicas)
          × (get_elem? all_replicas i ≡ some (read_at router counter j))
    read_at-fair counter i h bound =
        let (j, below, hits) = shift counter (length all_replicas) i h in
        (
          j,
          below,
          subst (λ index. get_elem? all_replicas index ≡ some (read_at router counter j)) hits
              (get_elem?-read_at counter j (omega arith)),
        )

    -- The read after the one at the counter's last value goes to the first replica, while the next
    -- one in the rotation is the replica with index 2^64 modulo their number.
    pub read_at-wrap :
        (get_elem? all_replicas 0 ≡ some (read_at router (usize_mod - 1) 1))
        × (((usize_mod - 1) % length all_replicas + 1) % length all_replicas
            ≡ usize_mod % length all_replicas)
    unfolding read_source nth
    read_at-wrap = (
      subst (λ index. get_elem? all_replicas index ≡ some (read_at router (usize_mod - 1) 1))
          (zero-mod (length all_replicas)) (get_elem?-nth all_replicas (0 % length all_replicas) _),
      mod-add-mod (usize_mod - 1) (length all_replicas) 1,
    )
