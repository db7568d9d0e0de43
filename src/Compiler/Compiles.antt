-- ===== src/Compiler/Compiles.antt =====
-- Exactly which conditions, searches and counts compile (src/postgres/compiler.rs).
use soap_sqlx.Prelude.{
  bind-Succeeds, then-Succeeds, ℕ, zero, suc, ◌^◌, ◌<◌, String, List, [], ◌∷◌, Option, none, some,
  ok, ◌≡◌, refl, ◌↔◌, pos, arith, inl, inr, Succeeds, All, ltb, ltb→lt, Bool-cases,
}
use soap_sqlx.External.{External}
use soap_sqlx.Portable.{Condition, Conditions, group, predicate, Sort, FindParams}
use soap_sqlx.Mapping.{PgColumn, PgFieldMap, resolve}
use soap_sqlx.Output.{CompilerOutput, default_output, push_str, finish}
use soap_sqlx.Compiler.{
  write_condition, write_conditions, compile_condition, write_where, write_sorts, write_order,
  write_limit, write_offset, to_i64, compile_find, compile_count, separator, push_after_first,
}
use soap_sqlx.Compiler.Accepts.{Takes, write_predicate_iff}

module _ (x : External) (fields : PgFieldMap x) where
  abbrev pub IsMapped : x.FieldName → Type 0
  IsMapped field = Succeeds (resolve x fields field)

  -- Every predicate of the condition is on a mapped field and gives its operator what it takes.
  abbrev mutual
    pub IsWellTyped : Condition x.FieldName x.F64 → Type 0
    IsWellTyped (group operator cs) = AllWellTyped cs
    IsWellTyped (predicate field operator v) =
        (column : PgColumn) × (resolve x fields field ≡ ok column) × Takes x column operator v

    pub AllWellTyped : Conditions x.FieldName x.F64 → Type 0
    AllWellTyped Conditions.nil = Unit
    AllWellTyped (Conditions.cons c cs) = IsWellTyped c × AllWellTyped cs

  mutual
    unfolding write_condition

    condition_iff :
        (c : Condition x.FieldName x.F64) (o : CompilerOutput x.types)
        → Succeeds (write_condition x fields c o) ↔ IsWellTyped c
    condition_iff (group operator cs) o =
        let (to, from) =
          then-Succeeds (write_conditions x fields cs (separator operator) 0 (push_str "(" o)) _ in
        let (typed, written) = conditions_iff cs (separator operator) 0 (push_str "(" o) in
        (λ s. typed (to s), λ t. from (written t))
    condition_iff (predicate field operator v) o =
        let (to, from) = bind-Succeeds (resolve x fields field) _ in
        (
          λ s.
              let (column, found, s') = to s in
              (column, found, (write_predicate_iff x column operator v o).0 s'),
          λ (column, found, t).
              from (column, found, (write_predicate_iff x column operator v o).1 t),
        )

    conditions_iff :
        (cs : Conditions x.FieldName x.F64) (between : String) (index : ℕ)
        (o : CompilerOutput x.types)
        → Succeeds (write_conditions x fields cs between index o) ↔ AllWellTyped cs
    conditions_iff Conditions.nil between index o = (λ _. tt, λ _. (_, refl))
    conditions_iff (Conditions.cons c cs) between index o =
        let first = push_after_first index between o in
        let (to, from) = bind-Succeeds (write_condition x fields c first) _ in
        (
          λ s.
              let (written, wrote, s') = to s in
              (
                (condition_iff c first).0 (written, wrote),
                (conditions_iff cs between (suc index) written).0 s',
              ),
          λ (t, ts).
              let (written, wrote) = (condition_iff c first).1 t in
              from (written, wrote, (conditions_iff cs between (suc index) written).1 ts),
        )

  -- A condition compiles exactly if it passes its validation and every predicate is on a mapped
  -- field and gives its operator what it takes.
  pub compile_condition_iff :
      (c : Condition x.FieldName x.F64)
      → Succeeds (compile_condition x fields c) ↔ ((x.validate_condition c ≡ ok tt) × IsWellTyped c)
  unfolding compile_condition
  compile_condition_iff c =
      let (to, from) = bind-Succeeds (x.validate_condition c) _ in
      let (to', from') = then-Succeeds (write_condition x fields c default_output) finish in
      (
        λ s. let (_, valid, s') = to s in (valid, (condition_iff c default_output).0 (to' s')),
        λ (valid, t). from (tt, valid, from' ((condition_iff c default_output).1 t)),
      )

  abbrev pub WhereTyped : Option (Condition x.FieldName x.F64) → Type 0
  WhereTyped none = Unit
  WhereTyped (some c) = IsWellTyped c

  write_where_iff :
      (c : Option (Condition x.FieldName x.F64)) (o : CompilerOutput x.types)
      → Succeeds (write_where x fields c o) ↔ WhereTyped c
  unfolding write_where
  write_where_iff none o = (λ _. tt, λ _. (o, refl))
  write_where_iff (some c) o = condition_iff c _

  abbrev pub SortsMapped : List (Sort x.FieldName) → Type 0
  SortsMapped = All (λ sort. IsMapped sort.field)

  write_sorts_iff :
      (sorts : List (Sort x.FieldName)) (index : ℕ) (o : CompilerOutput x.types)
      → Succeeds (write_sorts x fields sorts index o) ↔ SortsMapped sorts
  unfolding write_sorts
  write_sorts_iff [] index o = (λ _. tt, λ _. (o, refl))
  write_sorts_iff (sort ∷ sorts) index o =
      let (to, from) = bind-Succeeds (resolve x fields sort.field) _ in
      (
        λ s.
            let (column, found, s') = to s in
            ((column, found), (write_sorts_iff sorts (suc index) _).0 s'),
        λ ((column, found), h). from (column, found, (write_sorts_iff sorts (suc index) _).1 h),
      )

  write_order_iff :
      (sorts : List (Sort x.FieldName)) (o : CompilerOutput x.types)
      → Succeeds (write_order x fields sorts o) ↔ SortsMapped sorts
  unfolding write_order
  write_order_iff [] o = (λ _. tt, λ _. (o, refl))
  write_order_iff (sort ∷ sorts) o = write_sorts_iff (sort ∷ sorts) 0 _

  to_i64_iff : (n : ℕ) (message : String) → Succeeds (to_i64 x n message) ↔ (n < 2 ^ 63)
  to_i64_iff n message = elim (Bool-cases (ltb n (2 ^ 63))) [
    | inl fits ↦ rw fits (λ _. ltb→lt n (2 ^ 63) fits, λ _. (pos n, refl))
    | inr large ↦ rw large (λ s. cc, λ h. absurd (ground arith))
  ]

  abbrev pub LimitFits : Option ℕ → Type 0
  LimitFits none = Unit
  LimitFits (some n) = n < 2 ^ 63

  write_limit_iff :
      (limit : Option ℕ) (o : CompilerOutput x.types)
      → Succeeds (write_limit x fields limit o) ↔ LimitFits limit
  unfolding write_limit
  write_limit_iff none o = (λ _. tt, λ _. (o, refl))
  write_limit_iff (some n) o =
      let (to, from) = then-Succeeds (to_i64 x n _) _ in
      (λ s. (to_i64_iff n _).0 (to s), λ h. from ((to_i64_iff n _).1 h))

  write_offset_iff :
      (offset : ℕ) (o : CompilerOutput x.types)
      → Succeeds (write_offset x fields offset o) ↔ (offset < 2 ^ 63)
  unfolding write_offset
  write_offset_iff zero o = (λ _. omega arith, λ _. (o, refl))
  write_offset_iff (suc n) o =
      let (to, from) = then-Succeeds (to_i64 x (suc n) _) _ in
      (λ s. (to_i64_iff (suc n) _).0 (to s), λ h. from ((to_i64_iff (suc n) _).1 h))

  -- A search compiles exactly if it passes its validation, its condition is on mapped fields with
  -- a value that each operator takes, its sort fields are mapped, and its limit and offset are
  -- below 2^63.
  pub compile_find_iff :
      (p : FindParams x.FieldName x.F64)
      → Succeeds (compile_find x fields p) ↔ (
          (x.validate_params p ≡ ok tt)
          × WhereTyped p.condition
          × SortsMapped p.sort
          × LimitFits p.limit
          × (p.offset < 2 ^ 63))
  unfolding compile_find
  compile_find_iff p = (
    λ s.
        let (_, valid, s0) = (bind-Succeeds (x.validate_params p) _).0 s in
        let (a, wa, s1) =
          (bind-Succeeds (write_where x fields p.condition default_output) _).0 s0 in
        let (b, wb, s2) = (bind-Succeeds (write_order x fields p.sort a) _).0 s1 in
        let (c, wc, s3) = (bind-Succeeds (write_limit x fields p.limit b) _).0 s2 in
        let wd = (then-Succeeds (write_offset x fields p.offset c) finish).0 s3 in
        (
          valid,
          (write_where_iff p.condition default_output).0 (a, wa),
          (write_order_iff p.sort a).0 (b, wb),
          (write_limit_iff p.limit b).0 (c, wc),
          (write_offset_iff p.offset c).0 wd,
        ),
    λ (valid, typed, mapped, limited, small).
        let (a, wa) = (write_where_iff p.condition default_output).1 typed in
        let (b, wb) = (write_order_iff p.sort a).1 mapped in
        let (c, wc) = (write_limit_iff p.limit b).1 limited in
        let wd = (write_offset_iff p.offset c).1 small in
        (bind-Succeeds (x.validate_params p) _).1 (
          tt,
          valid,
          (bind-Succeeds (write_where x fields p.condition default_output) _).1 (
            a,
            wa,
            (bind-Succeeds (write_order x fields p.sort a) _).1 (
              b,
              wb,
              (bind-Succeeds (write_limit x fields p.limit b) _).1
                  (c, wc, (then-Succeeds (write_offset x fields p.offset c) finish).1 wd),
            ),
          ),
        ),
  )

  -- A count compiles exactly if the parameters pass their validation and the condition is well
  -- typed; beyond that validation, sort fields and pagination do not matter.
  pub compile_count_iff :
      (p : FindParams x.FieldName x.F64)
      → Succeeds (compile_count x fields p)
        ↔ ((x.validate_params p ≡ ok tt) × WhereTyped p.condition)
  unfolding compile_count
  compile_count_iff p =
      let (to, from) = bind-Succeeds (x.validate_params p) _ in
      let (to', from') = then-Succeeds (write_where x fields p.condition default_output) finish in
      let (typed, written) = write_where_iff p.condition default_output in
      (
        λ s. let (_, valid, s') = to s in (valid, typed (to' s')),
        λ (valid, t). from (tt, valid, from' (written t)),
      )
