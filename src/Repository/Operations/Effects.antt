-- ===== src/Repository/Operations/Effects.antt =====
-- What the operations of src/postgres/repository.rs do to the world, and what they report.
use soap_sqlx.Prelude.{
  ℕ, zero, suc, false, ◌<◌, ℤ, String, ok, err, ◌≡◌, refl, ◌↔◌, arith, map_err, ◌>>=◌, ok-injective,
  subst, sym,
}
use soap_sqlx.Portable.{FindParams}
use soap_sqlx.External.{External, SoapResult, SqlxResult}
use soap_sqlx.Errors.{map_sqlx_error}
use soap_sqlx.Source.{Action}
use soap_sqlx.Source.Calls.{Call, fetch_all, fetch_optional, fetch_one, apply, apply_one, IsRead}
use soap_sqlx.Router.Writes.{Keeps}
use soap_sqlx.Repository.Statements.{compile_insert, compile_replace}
use soap_sqlx.Repository.Operations.{
  PgRepository, send, answer, replaced_one, find_statement, get_statement, count_statement,
  remove_statement, find, get, count, insert, replace, remove, insert_returning, replace_returning,
}

-- The operations, as data.
pub data Operation (x : External) (E Key : Type 0) : Type 0 where
  finding counting : FindParams x.FieldName x.F64 → Operation x E Key
  getting removing : Key → Operation x E Key
  inserting replacing inserting_returning replacing_returning : E → Operation x E Key

module _ {x : External} {E Key : Type 0} where
  -- The calls that an operation may make: reads for a reading one, writes for the others.
  abbrev pub Allowed : Operation x E Key → Call x → Type 0
  Allowed (finding _) call = IsRead call
  Allowed (counting _) call = IsRead call
  Allowed (getting _) call = IsRead call
  Allowed _ call = ¬ IsRead call

module _ (x : External) {S : Type 0} where
  send-keeps :
      {A : Type 0} (P : S → Type 0) (call : String → x.PgArguments → Action x S A)
      (operation : String) (statement : SoapResult x (String × x.PgArguments)) (s : S)
      → ((sql : String) (arguments : x.PgArguments) → P (call sql arguments s).1)
      → P s
      → P (send x call operation statement s).1
  send-keeps P call operation (err e) s kept h = h
  send-keeps P call operation (ok (sql, arguments)) s kept h = kept sql arguments

module _ {x : External} {S E Key : Type 0} where
  abbrev pub operate :
      (x.PgRow → SqlxResult x ℤ) → PgRepository x S E Key → Operation x E Key → S → S
  operate try_get r (finding params) s = (find x r params s).1
  operate try_get r (counting params) s = (count x r try_get params s).1
  operate try_get r (getting id) s = (get x r id s).1
  operate try_get r (removing id) s = (remove x r id s).1
  operate try_get r (inserting entity) s = (insert x r entity s).1
  operate try_get r (replacing entity) s = (replace x r entity s).1
  operate try_get r (inserting_returning entity) s = (insert_returning x r entity s).1
  operate try_get r (replacing_returning entity) s = (replace_returning x r entity s).1

  -- The reading operations change the world only by reads of the source and the writing ones only
  -- by writes: an invariant that these calls of the source keep, the operation keeps, whether it
  -- succeeds or fails.
  pub operate-keeps :
      (try_get : x.PgRow → SqlxResult x ℤ) (P : S → Type 0) (r : PgRepository x S E Key)
      (operation : Operation x E Key)
      → Keeps P (Allowed operation) r.source
      → (s : S) → P s
      → P (operate try_get r operation s)
  unfolding find count get remove insert replace insert_returning replace_returning
  operate-keeps try_get P r (finding params) keeps s h =
      send-keeps x P r.source.fetch_all _ (find_statement x r params) s
        (λ sql arguments. keeps (fetch_all sql arguments) s tt h) h
  operate-keeps try_get P r (counting params) keeps s h =
      send-keeps x P r.source.fetch_one _ (count_statement x r params) s
        (λ sql arguments. keeps (fetch_one sql arguments) s tt h) h
  operate-keeps try_get P r (getting id) keeps s h =
      send-keeps x P r.source.fetch_optional _ (get_statement x r id) s
        (λ sql arguments. keeps (fetch_optional sql arguments) s tt h) h
  operate-keeps try_get P r (removing id) keeps s h =
      send-keeps x P r.source.apply _ (remove_statement x r id) s
        (λ sql arguments. keeps (apply sql arguments) s (λ b. b) h) h
  operate-keeps try_get P r (inserting entity) keeps s h =
      send-keeps x P r.source.apply _ (compile_insert x r.codec entity _) s
        (λ sql arguments. keeps (apply sql arguments) s (λ b. b) h) h
  operate-keeps try_get P r (replacing entity) keeps s h =
      send-keeps x P r.source.apply _ (compile_replace x r.codec entity _) s
        (λ sql arguments. keeps (apply sql arguments) s (λ b. b) h) h
  operate-keeps try_get P r (inserting_returning entity) keeps s h =
      send-keeps x P r.source.apply_one _ (compile_insert x r.codec entity _) s
        (λ sql arguments. keeps (apply_one sql arguments) s (λ b. b) h) h
  operate-keeps try_get P r (replacing_returning entity) keeps s h =
      send-keeps x P r.source.apply_one _ (compile_replace x r.codec entity _) s
        (λ sql arguments. keeps (apply_one sql arguments) s (λ b. b) h) h

  positive_iff : (r : PgRepository x S E Key) (n : ℕ) → (replaced_one x r n ≡ ok tt) ↔ (0 < n)
  positive_iff r zero = (λ h. cc, λ h. absurd (omega arith))
  positive_iff r (suc n) = (λ h. omega arith, λ h. refl)

  outcome_iff :
      (r : PgRepository x S E Key) (operation : String) (o : SqlxResult x x.PgQueryResult)
      → ((map_err (λ e. map_sqlx_error x e operation) o >>= λ result.
            replaced_one x r (x.rows_affected result))
          ≡ ok tt)
        ↔ ((result : x.PgQueryResult) × (o ≡ ok result) × (0 < x.rows_affected result))
  outcome_iff r operation (ok n) =
      let (to, from) = positive_iff r (x.rows_affected n) in
      (
        λ h. (n, refl, to h),
        λ (result, same, positive).
            let e : n ≡ result = ok-injective same in
            from (subst (λ m. 0 < x.rows_affected m) (sym e) positive),
      )
  outcome_iff r operation (err e) = (λ h. cc, λ (result, same, _). cc)

  replaced_iff :
      (r : PgRepository x S E Key) (operation : String)
      (statement : SoapResult x (String × x.PgArguments)) (s : S)
      → ((answer x
            (λ result. replaced_one x r (x.rows_affected result))
            (send x r.source.apply operation statement s)).0
          ≡ ok tt)
        ↔ ((sql : String) × (arguments : x.PgArguments) × (result : x.PgQueryResult) × (statement
              ≡ ok (sql, arguments))
            × ((r.source.apply sql arguments s).0 ≡ ok result)
            × (0 < x.rows_affected result))
  replaced_iff r operation (err e) s = (λ h. cc, λ (sql, arguments, result, h, _, _). cc)
  replaced_iff r operation (ok (sql, arguments)) s =
      let (to, from) = outcome_iff r operation (r.source.apply sql arguments s).0 in
      (
        λ h.
            let (result, applied, positive) = to h in
            (sql, arguments, result, refl, applied, positive),
        λ (sql', arguments', result, same, applied, positive). from (
          result,
          subst (λ p. (r.source.apply p.0 p.1 s).0 ≡ ok result) (sym (ok-injective same)) applied,
          positive,
        ),
      )

  -- A replacement reports success exactly if its statement compiles, the source executes it, and
  -- at least one row was affected.
  pub replace_iff :
      (r : PgRepository x S E Key) (entity : E) (s : S)
      → ((replace x r entity s).0 ≡ ok tt) ↔ (
          (sql : String) × (arguments : x.PgArguments) × (result : x.PgQueryResult)
          × (compile_replace x r.codec entity false ≡ ok (sql, arguments))
          × ((r.source.apply sql arguments s).0 ≡ ok result)
          × (0 < x.rows_affected result))
  unfolding replace
  replace_iff r entity s =
      replaced_iff r "replace entity" (compile_replace x r.codec entity false) s
