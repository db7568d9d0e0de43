-- ===== src/Output/Arguments.antt =====
-- What a compiled query hands to SQLx (src/postgres/compiler.rs, `into_arguments`).
use mathlib.Core.List.{◌++◌, append-nil, append_assoc}
use soap_sqlx.Prelude.{
  Succeeds, Result-cases, ◌⊎◌, ◌≡◌, refl, List, [], ◌∷◌, ok, err, some, map_err, >>=-eq-ok,
  >>=-eq-err, map_err-eq-ok, map_err-eq-err, inl, inr, String,
}
use soap_sqlx.Sqlx.{Argument, binding_encode}
use soap_sqlx.External.{External, infrastructure}
use soap_sqlx.Binding.{PgBindValue}
use soap_sqlx.Output.{
  PgCompiledQuery, argument, encode_error, add_all, into_arguments, into_sqlx_parts,
}

module _ (x : External) where
  abbrev pub arguments_of : List (PgBindValue x.types) → List (Argument x.types)
  arguments_of [] = []
  arguments_of (binding ∷ rest) = argument binding ∷ arguments_of rest

  add_all-contents :
      (bindings : List (PgBindValue x.types)) (args args' : x.PgArguments)
      → add_all x bindings args ≡ ok args'
      → x.contents args' ≡ x.contents args ++ arguments_of bindings
  unfolding add_all
  add_all-contents [] args args' h = let same : args ≡ args' = cc in rw (← same, append-nil) refl
  add_all-contents (binding ∷ rest) args args' h =
      let (next, added, h') =
        >>=-eq-ok (map_err (encode_error x) (x.add (argument binding) args)) _ h in
      let holds =
        x.contents-add (argument binding) args next (map_err-eq-ok (encode_error x) _ added) in
      rw (add_all-contents rest next args' h', holds, append_assoc) refl

  pub into_arguments-contents :
      (q : PgCompiledQuery x.types) (args : x.PgArguments)
      → into_arguments x q ≡ ok args
      → x.contents args ≡ arguments_of q.bindings
  unfolding into_arguments
  into_arguments-contents q args h =
      let all = add_all-contents q.bindings x.default_arguments args h in
      let none_yet = x.contents-default in rw (all, none_yet) refl

  -- When `into_sqlx_parts` succeeds, it hands on the statement's text and arguments that hold one
  -- argument for each binding, in their order.
  into_sqlx_parts-contents :
      (q : PgCompiledQuery x.types) (sql : String) (args : x.PgArguments)
      → into_sqlx_parts x q ≡ ok (sql, args)
      → (sql ≡ q.sql) × (x.contents args ≡ arguments_of q.bindings)
  unfolding into_sqlx_parts
  into_sqlx_parts-contents q sql args h =
      let (args', added, h') = >>=-eq-ok (into_arguments x q) _ h in
      let same : args' ≡ args = cc in (cc, rw (← same) (into_arguments-contents q args' added))

  add_all-err :
      (bindings : List (PgBindValue x.types)) (args : x.PgArguments) (e : x.SoapError)
      → add_all x bindings args ≡ err e
      → (detail : x.Detail) × (e ≡ encode_error x detail)
  unfolding add_all
  add_all-err [] args e h = cc
  add_all-err (binding ∷ rest) args e h =
      elim (>>=-eq-err (map_err (encode_error x) (x.add (argument binding) args)) _ h) [
        | inl failed ↦
            (let (detail, _, same) =
                map_err-eq-err (encode_error x) (x.add (argument binding) args) failed in
              (detail, same))
        | inr (next, _, h') ↦ add_all-err rest next e h'
      ]

  -- When `into_sqlx_parts` fails, the error is an infrastructure error that keeps an encoder's
  -- error as its source.
  into_sqlx_parts-err :
      (q : PgCompiledQuery x.types) (e : x.SoapError)
      → into_sqlx_parts x q ≡ err e
      → (x.kind e ≡ infrastructure)
        × ((detail : x.Detail) × (x.source e ≡ some (binding_encode (record { inner = detail }))))
  unfolding into_arguments into_sqlx_parts
  into_sqlx_parts-err q e h = elim (>>=-eq-err (add_all x q.bindings x.default_arguments) _ h) [
    | inl failed ↦
        let (detail, same) = add_all-err q.bindings x.default_arguments e failed in
        (
          rw (same, x.kind-with_source, x.kind-error) refl,
          (detail, rw (same, x.source-with_source) refl),
        )
    | inr (args, _, h') ↦ cc
  ]

  -- For every query `into_sqlx_parts` either hands on the statement's text and arguments that hold
  -- one argument for each binding, in their order, or fails with an infrastructure error that
  -- keeps an encoder's error as its source.
  pub into_sqlx_parts_cases :
      (q : PgCompiledQuery x.types)
      → ((args : x.PgArguments) × (into_sqlx_parts x q ≡ ok (q.sql, args))
          × (x.contents args ≡ arguments_of q.bindings))
        ⊎ ((e : x.SoapError) × (into_sqlx_parts x q ≡ err e)
            × (x.kind e ≡ infrastructure)
            × ((detail : x.Detail) × (x.source e
                  ≡ some (binding_encode (record { inner = detail })))))
  into_sqlx_parts_cases q = elim (Result-cases (into_sqlx_parts x q)) [
    | inl ((sql, args), made) ↦
        let (same, held) = into_sqlx_parts-contents q sql args made in inl (args, cc, held)
    | inr (e, failed) ↦
        let (kind, kept) = into_sqlx_parts-err q e failed in inr (e, failed, kind, kept)
  ]

  add_all-Succeeds :
      ((a : Argument x.types) (args : x.PgArguments) → Succeeds (x.add a args))
      → (bindings : List (PgBindValue x.types)) (args : x.PgArguments)
      → Succeeds (add_all x bindings args)
  unfolding add_all
  add_all-Succeeds adds [] args = (args, refl)
  add_all-Succeeds adds (binding ∷ rest) args =
      let (args', added) = adds (argument binding) args in
      rw added (add_all-Succeeds adds rest args')

  -- Arguments that take every value take all bindings.
  pub into_arguments-Succeeds :
      ((a : Argument x.types) (args : x.PgArguments) → Succeeds (x.add a args))
      → (q : PgCompiledQuery x.types) → Succeeds (into_arguments x q)
  unfolding into_arguments
  into_arguments-Succeeds adds q = add_all-Succeeds adds q.bindings x.default_arguments
