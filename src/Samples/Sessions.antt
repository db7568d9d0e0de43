-- ===== src/Samples/Sessions.antt =====
-- Runs of a transaction session, and its theorems at them. The world holds the count of changes.
use soap_sqlx.Prelude.{◌≡◌, ℕ, suc, List, [], ◌∷◌, some, ok, err}
use soap_sqlx.Sqlx.{SqlxError}
use soap_sqlx.Source.Calls.{fetch_one, apply}
use soap_sqlx.Transaction.{TransactionApi, active, PgTransactionSource}
use soap_sqlx.Transaction.Lifecycle.{
  Request, ask, ask_commit, ask_rollback, step, steps, Refused, steps-ended,
}
use soap_sqlx.Transaction.Driver.{recorded, IsOrderly, steps-IsOrderly}
use soap_sqlx.Samples.{sample}

-- A server whose commits fail.
abbrev pub server : TransactionApi sample ℕ ℕ
server = record {
  begin = λ n. (ok 0, n);
  connection = record {
    fetch_all = λ sql arguments s. (ok [], s);
    fetch_optional = λ sql arguments s. (ok (some "row"), s);
    fetch_one = λ sql arguments s. (ok "row", s);
    execute = λ sql arguments (t, n). (ok 1, (suc t, n));
  };
  commit = λ t n. (err SqlxError.pool_closed, n);
  rollback = λ t n. (ok tt, n);
}

abbrev pub open_session : PgTransactionSource ℕ ℕ
open_session = record { state = active 3; world = 7 }

abbrev later : List (Request sample)
later = ask (apply "UPDATE" []) ∷ ask_rollback ∷ ask_commit ∷ []

steps-ended_example :
    (steps server (ask_commit ∷ later) open_session ≡ step server ask_commit open_session)
    × Refused server (ask (fetch_one "SELECT" [])) (steps server (ask_commit ∷ later) open_session)
steps-ended_example =
    steps-ended server open_session ask_commit tt later (ask (fetch_one "SELECT" []))

abbrev busy : List (Request sample)
busy = ask (apply "UPDATE" []) ∷ ask (fetch_one "SELECT" []) ∷ ask_commit ∷ later

steps-IsOrderly_example :
    IsOrderly (steps (recorded server) busy (record { state = active 3; world = ([], 7) })).world.0
steps-IsOrderly_example = steps-IsOrderly server 3 7 busy
