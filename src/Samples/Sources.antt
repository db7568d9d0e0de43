-- ===== src/Samples/Sources.antt =====
-- Runs of the router, and its theorems at them. The world counts the writes of the primary.
use soap_sqlx.Prelude.{
  ◌≡◌, ℕ, suc, ◌+◌, ◌-◌, ◌%◌, ◌≤◌, ◌<◌, arith, List, [], ◌∷◌, get_elem?, some, ok,
}
use soap_sqlx.Source.{PgSource}
use soap_sqlx.Source.Calls.{Call, fetch_all, fetch_optional, fetch_one, apply, apply_one, IsRead}
use soap_sqlx.Router.{usize_mod}
use soap_sqlx.Router.Rotation.{
  read_at, all_replicas, router, get_elem?-read_at, read_at-fair, read_at-wrap,
}
use soap_sqlx.Router.Writes.{Keeps, replicated, perform_all, perform_all-keeps}
use soap_sqlx.Samples.{sample}

-- A source whose rows are a name and whose writes set the count.
abbrev counting : (ℕ → ℕ) → PgSource sample ℕ
counting write = record {
  fetch_all = λ sql arguments n. (ok [], n);
  fetch_optional = λ sql arguments n. (ok (some "row"), n);
  fetch_one = λ sql arguments n. (ok "row", n);
  apply = λ sql arguments n. (ok 1, write n);
  apply_one = λ sql arguments n. (ok "row", write n);
}

abbrev pub primary : PgSource sample ℕ
primary = counting suc

abbrev pub stale : PgSource sample ℕ
stale = counting (λ _. 0)

abbrev pub two : List (PgSource sample ℕ)
two = stale ∷ stale ∷ []

get_elem?-read_at_example :
    get_elem? (all_replicas primary stale two) ((5 + 2) % 3)
    ≡ some (read_at (router primary stale two) 5 2)
get_elem?-read_at_example = get_elem?-read_at primary stale two 5 2 (omega arith)

read_at-fair_example :
    (j : ℕ) × (j < 3)
    × (get_elem? (all_replicas primary stale two) 1 ≡ some (read_at (router primary stale two) 5 j))
read_at-fair_example = read_at-fair primary stale two 5 1 (omega arith) (omega arith)

read_at-wrap_example :
    (get_elem? (all_replicas primary stale two) 0
      ≡ some (read_at (router primary stale two) (usize_mod - 1) 1))
    × (((usize_mod - 1) % 3 + 1) % 3 ≡ usize_mod % 3)
read_at-wrap_example = read_at-wrap primary stale two

-- Once something is written, the count is positive: stale sources keep it by their reads.
abbrev Written : ℕ → Type 0
Written n = 1 ≤ n

reads-keep : (write : ℕ → ℕ) → Keeps Written IsRead (counting write)
reads-keep write (fetch_all sql arguments) n r h = h
reads-keep write (fetch_optional sql arguments) n r h = h
reads-keep write (fetch_one sql arguments) n r h = h
reads-keep write (apply sql arguments) n r h = absurd r
reads-keep write (apply_one sql arguments) n r h = absurd r

writes-keep : Keeps Written (λ call. ¬ IsRead call) primary
writes-keep (fetch_all sql arguments) n r h = h
writes-keep (fetch_optional sql arguments) n r h = h
writes-keep (fetch_one sql arguments) n r h = h
writes-keep (apply sql arguments) n r h = omega arith
writes-keep (apply_one sql arguments) n r h = omega arith

abbrev session : List (Call sample)
session =
    apply "INSERT" [] ∷ fetch_one "SELECT" [] ∷ apply_one "UPDATE" [] ∷ fetch_all "SELECT" [] ∷ []

perform_all-keeps_example :
    Written
      (perform_all
        (replicated Written primary stale two)
        session
        (record { next_replica = 0; world = 1 })).world
perform_all-keeps_example =
    perform_all-keeps Written primary stale two (reads-keep _, (reads-keep _, (reads-keep _, tt)))
      writes-keep session (record { next_replica = 0; world = 1 }) (omega arith)
