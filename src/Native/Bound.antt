-- ===== src/Native/Bound.antt =====
-- Statements built by a chain of `bind` (src/postgres/native_query.rs).
use mathlib.Core.List.{◌++◌, append-nil, append_assoc}
use soap_sqlx.Prelude.{
  ◌≡◌, refl, ap, ◌∙◌, false, String, List, [], ◌∷◌, ok, ◌>>=◌, >>=-eq-ok, ok-injective, Bool-cases,
  inl, inr, arith,
}
use soap_sqlx.External.{External, SoapResult}
use soap_sqlx.Mapping.{PgScalarKind}
use soap_sqlx.Value.{PgValue, is_default}
use soap_sqlx.Binding.{PgBindValue, normalize_entity_binding}
use soap_sqlx.Output.{from_bindings, into_arguments}
use soap_sqlx.Output.Arguments.{arguments_of, into_arguments-contents}
use soap_sqlx.Native.{PgNativeStatement, new, bind, into_parts}

module _ (x : External) where
  -- `PgNativeStatement::new(sql).bind(…)?.bind(…)?…`
  abbrev pub bind_all :
      PgNativeStatement x
      → List (PgScalarKind × PgValue x.types)
      → SoapResult x (PgNativeStatement x)
  bind_all statement [] = ok statement
  bind_all statement ((kind, value) ∷ rest) =
      bind x statement kind value >>= λ next. bind_all next rest

  -- The bindings that are the normal forms of the values, in order.
  abbrev pub Normal : List (PgScalarKind × PgValue x.types) → List (PgBindValue x.types) → Type 0
  Normal [] [] = Unit
  Normal [] (_ ∷ _) = ⊥
  Normal (_ ∷ _) [] = ⊥
  Normal ((kind, value) ∷ values) (binding ∷ bindings) =
      (is_default value ≡ false)
      × (normalize_entity_binding x kind value ≡ ok binding)
      × Normal values bindings

  bind-eq-ok :
      (statement next : PgNativeStatement x) (kind : PgScalarKind) (value : PgValue x.types)
      → bind x statement kind value ≡ ok next
      → (is_default value ≡ false)
        × ((binding : PgBindValue x.types) × (normalize_entity_binding x kind value ≡ ok binding)
            × (record statement { bindings = statement.bindings ++ binding ∷ [] } ≡ next))
  unfolding bind
  bind-eq-ok statement next kind value h = elim (Bool-cases (is_default value)) [
    | inl left ↦ ground arith
    | inr given ↦
        let h' : (normalize_entity_binding x kind value >>= λ binding.
        ok (record statement { bindings = statement.bindings ++ binding ∷ [] }))
            ≡ ok next =
          ground arith in
        let (binding, normal, same) = >>=-eq-ok (normalize_entity_binding x kind value) _ h' in
        (given, (binding, normal, ok-injective same))
  ]

  bind_all-Normal :
      (values : List (PgScalarKind × PgValue x.types)) (statement final : PgNativeStatement x)
      → bind_all statement values ≡ ok final
      → (bindings : List (PgBindValue x.types)) × Normal values bindings
        × (final.sql ≡ statement.sql)
        × (final.bindings ≡ statement.bindings ++ bindings)
  bind_all-Normal [] statement final h =
      let same : statement ≡ final = ok-injective h in
      ([], tt, rw (← same) refl, rw (← same, append-nil) refl)
  bind_all-Normal ((kind, value) ∷ values) statement final h =
      let (next, bound, h') = >>=-eq-ok (bind x statement kind value) _ h in
      let (given, (binding, normal, same)) = bind-eq-ok statement next kind value bound in
      let (bindings, rest, sql, grown) = bind_all-Normal values next final h' in
      (
        binding ∷ bindings,
        (given, normal, rest),
        rw (sql, ← same) refl,
        rw (grown, ← same, append_assoc) refl,
      )

  into_parts-eq-ok :
      (final : PgNativeStatement x) (sql : String) (args : x.PgArguments)
      → into_parts x final ≡ ok (sql, args)
      → (sql ≡ final.sql) × (x.contents args ≡ arguments_of x final.bindings)
  unfolding into_parts
  into_parts-eq-ok final sql args h =
      let (args', held, h') = >>=-eq-ok (into_arguments x (from_bindings final.bindings)) _ h in
      let same : args' ≡ args = cc in
      (cc, rw (← same) (into_arguments-contents x (from_bindings final.bindings) args' held))

  -- A native statement built by a chain of `bind` that succeeds, and handed on, keeps its SQL
  -- text, and its arguments are those of the normal forms of the bound values, in order; no
  -- DEFAULT is among the values.
  pub into_parts-bind_all :
      (sql sql' : String) (values : List (PgScalarKind × PgValue x.types)) (args : x.PgArguments)
      → (bind_all (new x sql) values >>= into_parts x) ≡ ok (sql', args)
      → (sql' ≡ sql)
        × ((bindings : List (PgBindValue x.types)) × Normal values bindings
            × (x.contents args ≡ arguments_of x bindings))
  into_parts-bind_all sql sql' values args h =
      let (final, bound, h') = >>=-eq-ok (bind_all (new x sql) values) _ h in
      let (bindings, normal, sql_eq, bindings_eq) =
        bind_all-Normal values (new x sql) final bound in
      let (text, held) = into_parts-eq-ok final sql' args h' in
      (text ∙ sql_eq, (bindings, normal, held ∙ ap (arguments_of x) bindings_eq))
