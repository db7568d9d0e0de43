-- ===== src/Repository/Operations/Routed.antt =====
-- The operations of src/postgres/repository.rs over the router of src/postgres/router.rs.
use soap_sqlx.Prelude.{ℕ, ℤ, Bool, true, false, String, List, Option, Result, ok, err, ◌≡◌, refl}
use soap_sqlx.External.{External, SoapResult, SqlxResult}
use soap_sqlx.Source.{Action, PgSource}
use soap_sqlx.Mapping.{PgFieldMap}
use soap_sqlx.Router.{PgPrimaryReplicaSource, RouterState, read_source, on_world, router_source}
use soap_sqlx.Repository.{PgEntityCodec}
use soap_sqlx.Repository.Statements.{compile_insert, compile_replace}
use soap_sqlx.Repository.Operations.{
  PgRepository, send, answer, find_statement, get_statement, count_statement, remove_statement,
  find, get, count, insert, replace, remove, insert_returning, replace_returning,
}
use soap_sqlx.Repository.Operations.Effects.{
  Operation, finding, counting, getting, removing, inserting, replacing, inserting_returning,
  replacing_returning,
}
use soap_sqlx.Repository.Operations.Reports.{statement_of}

module _ {x : External} {E Key : Type 0} where
  -- What an operation gives when it succeeds.
  abbrev pub Answer : Operation x E Key → Type 0
  Answer (finding _) = List E
  Answer (counting _) = ℕ
  Answer (getting _) = Option E
  Answer (removing _) = Bool
  Answer (inserting _) = Unit
  Answer (replacing _) = Unit
  Answer (inserting_returning _) = E
  Answer (replacing_returning _) = E

  abbrev pub run :
      {S : Type 0}
      → (x.PgRow → SqlxResult x ℤ)
      → PgRepository x S E Key
      → (operation : Operation x E Key) → S
      → SoapResult x (Answer operation) × S
  run try_get r (finding params) s = find x r params s
  run try_get r (counting params) s = count x r try_get params s
  run try_get r (getting id) s = get x r id s
  run try_get r (removing id) s = remove x r id s
  run try_get r (inserting entity) s = insert x r entity s
  run try_get r (replacing entity) s = replace x r entity s
  run try_get r (inserting_returning entity) s = insert_returning x r entity s
  run try_get r (replacing_returning entity) s = replace_returning x r entity s

  -- The source that serves an operation at a counter value, and the counter after it: a replica for
  -- a reading one, the primary for the others.
  abbrev pub serving :
      {S : Type 0} → PgPrimaryReplicaSource x S → Operation x E Key → ℕ → PgSource x S × ℕ
  serving router (finding _) counter = read_source router counter
  serving router (counting _) counter = read_source router counter
  serving router (getting _) counter = read_source router counter
  serving router _ counter = (router.primary, counter)

abbrev pub over :
    {x : External} {S E Key : Type 0}
    → PgEntityCodec x E Key
    → PgFieldMap x
    → PgSource x S
    → PgRepository x S E Key
over codec compiler source = record { source = source; codec = codec; compiler = compiler }

-- The counter moves only if there is a statement to send.
abbrev pub if_sent : {F A : Type 0} → Result F A → ℕ → ℕ → ℕ
if_sent (ok _) moved counter = moved
if_sent (err _) moved counter = counter

-- A result on the world alone, beside a counter.
abbrev pub beside :
    {x : External} {S A : Type 0} → ℕ → SoapResult x A × S → SoapResult x A × RouterState x S
beside counter (result, world) = (result, record { next_replica = counter; world = world })

module _ (x : External) where
  answer-on_world :
      {S A B : Type 0} (f : A → SoapResult x B)
      (routed : String → x.PgArguments → Action x (RouterState x S) A)
      (call : String → x.PgArguments → Action x S A) (operation : String)
      (statement : SoapResult x (String × x.PgArguments)) (moved : ℕ) (s : RouterState x S)
      → ((sql : String) (arguments : x.PgArguments)
          → routed sql arguments s ≡ on_world (call sql arguments) moved s)
      → answer x f (send x routed operation statement s)
        ≡ beside
            (if_sent statement moved s.next_replica)
            (answer x f (send x call operation statement s.world))
  answer-on_world f routed call operation (err e) moved s same = refl
  answer-on_world f routed call operation (ok (sql, arguments)) moved s same =
      rw (same sql arguments, send, answer) refl

module _ {x : External} {S E Key : Type 0} (try_get : x.PgRow → SqlxResult x ℤ)
    (codec : PgEntityCodec x E Key) (compiler : PgFieldMap x) where
  -- An operation of a repository over a router gives the result and the world that it gives over
  -- one source, the primary for the writing operations and, for the reading ones, the source that
  -- is next in the rotation; the counter is left as it is by a writing operation and by one whose
  -- statement does not compile, and is that after the choice otherwise.
  pub run-router_source :
      (router : PgPrimaryReplicaSource x S) (operation : Operation x E Key) (s : RouterState x S)
      → let (source, moved) = serving router operation s.next_replica in
        run try_get (over codec compiler (router_source router)) operation s
        ≡ beside
            (if_sent (statement_of (over codec compiler source) operation) moved s.next_replica)
            (run try_get (over codec compiler source) operation s.world)
  unfolding router_source find count get remove insert replace insert_returning replace_returning
  run-router_source router (finding params) s =
      answer-on_world x _ _ _ "find entities"
        (find_statement x (over codec compiler router.primary) params) _ s (λ sql arguments. refl)
  run-router_source router (counting params) s =
      answer-on_world x _ _ _ "count entities"
        (count_statement x (over codec compiler router.primary) params) _ s (λ sql arguments. refl)
  run-router_source router (getting id) s =
      answer-on_world x _ _ _ "get entity" (get_statement x (over codec compiler router.primary) id)
        _ s (λ sql arguments. refl)
  run-router_source router (removing id) s =
      answer-on_world x _ _ router.primary.apply "remove entity"
        (remove_statement x (over codec compiler router.primary) id) _ s (λ sql arguments. refl)
  run-router_source router (inserting entity) s =
      answer-on_world x _ _ router.primary.apply "insert entity"
        (compile_insert x codec entity false) _ s (λ sql arguments. refl)
  run-router_source router (replacing entity) s =
      answer-on_world x _ _ router.primary.apply "replace entity"
        (compile_replace x codec entity false) _ s (λ sql arguments. refl)
  run-router_source router (inserting_returning entity) s =
      answer-on_world x _ _ router.primary.apply_one "insert and return entity"
        (compile_insert x codec entity true) _ s (λ sql arguments. refl)
  run-router_source router (replacing_returning entity) s =
      answer-on_world x _ _ router.primary.apply_one "replace and return entity"
        (compile_replace x codec entity true) _ s (λ sql arguments. refl)
