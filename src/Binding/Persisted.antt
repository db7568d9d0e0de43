-- ===== src/Binding/Persisted.antt =====
-- Which persistence values a column takes as bindings (src/postgres/compiler.rs).
use soap_sqlx.Prelude.{◌≡◌, refl, ◌↔◌, Option, none, some, ok, inl, inr, Succeeds, Result-cases}
use soap_sqlx.External.{External}
use soap_sqlx.Mapping.{PgScalarKind}
use soap_sqlx.Value
use soap_sqlx.Value.{PgValue}
use soap_sqlx.Binding.{match_entity_binding, normalize_entity_binding}

module _ (x : External) where
  -- The kind of column that a value is for; the null and the default value are for none.
  abbrev pub kind_of : PgValue x.types → Option PgScalarKind
  kind_of (PgValue.bool _) = some PgScalarKind.bool
  kind_of (PgValue.i64 _) = some PgScalarKind.numeric
  kind_of (PgValue.u64 _) = some PgScalarKind.numeric
  kind_of (PgValue.f64 _) = some PgScalarKind.numeric
  kind_of (PgValue.decimal _) = some PgScalarKind.numeric
  kind_of (PgValue.text _) = some PgScalarKind.text
  kind_of (PgValue.bytes _) = some PgScalarKind.bytes
  kind_of (PgValue.uuid _) = some PgScalarKind.uuid
  kind_of (PgValue.json _) = some PgScalarKind.json
  kind_of (PgValue.date _) = some PgScalarKind.date
  kind_of (PgValue.time _) = some PgScalarKind.time
  kind_of (PgValue.timestamp _) = some PgScalarKind.timestamp
  kind_of (PgValue.timestamp_tz _) = some PgScalarKind.timestamp_tz
  kind_of PgValue.null = none
  kind_of PgValue.default = none

  -- A null is for every column.
  abbrev pub Suits : PgScalarKind → PgValue x.types → Type 0
  Suits kind PgValue.null = Unit
  Suits kind value = kind_of value ≡ some kind

  match_entity_binding_iff :
      (kind : PgScalarKind) (value : PgValue x.types)
      → Succeeds (match_entity_binding x kind value) ↔ Suits kind value
  unfolding match_entity_binding
  match_entity_binding_iff kind PgValue.null = (λ _. tt, λ _. (_, refl))
  match_entity_binding_iff PgScalarKind.bool (PgValue.bool _) = (λ _. refl, λ _. (_, refl))
  match_entity_binding_iff PgScalarKind.numeric (PgValue.i64 _) = (λ _. refl, λ _. (_, refl))
  match_entity_binding_iff PgScalarKind.numeric (PgValue.u64 _) = (λ _. refl, λ _. (_, refl))
  match_entity_binding_iff PgScalarKind.numeric (PgValue.f64 _) = (λ _. refl, λ _. (_, refl))
  match_entity_binding_iff PgScalarKind.numeric (PgValue.decimal _) = (λ _. refl, λ _. (_, refl))
  match_entity_binding_iff PgScalarKind.text (PgValue.text _) = (λ _. refl, λ _. (_, refl))
  match_entity_binding_iff PgScalarKind.bytes (PgValue.bytes _) = (λ _. refl, λ _. (_, refl))
  match_entity_binding_iff PgScalarKind.uuid (PgValue.uuid _) = (λ _. refl, λ _. (_, refl))
  match_entity_binding_iff PgScalarKind.json (PgValue.json _) = (λ _. refl, λ _. (_, refl))
  match_entity_binding_iff PgScalarKind.date (PgValue.date _) = (λ _. refl, λ _. (_, refl))
  match_entity_binding_iff PgScalarKind.time (PgValue.time _) = (λ _. refl, λ _. (_, refl))
  match_entity_binding_iff PgScalarKind.timestamp (PgValue.timestamp _) =
      (λ _. refl, λ _. (_, refl))
  match_entity_binding_iff PgScalarKind.timestamp_tz (PgValue.timestamp_tz _) =
      (λ _. refl, λ _. (_, refl))
  match_entity_binding_iff kind value = (λ h. cc, λ h. cc)

  -- A persistence value becomes a binding exactly when it passes its validation and is null or of
  -- the type that the kind of the column is for; DEFAULT never does.
  pub normalize_entity_binding_iff :
      (kind : PgScalarKind) (value : PgValue x.types)
      → Succeeds (normalize_entity_binding x kind value)
        ↔ ((Value.validate x value ≡ ok tt) × Suits kind value)
  unfolding normalize_entity_binding
  normalize_entity_binding_iff kind value = elim (Result-cases (Value.validate x value)) [
    | inl (u, valid) ↦ rw valid (
      λ h. (refl, (match_entity_binding_iff kind value).0 h),
      λ h. (match_entity_binding_iff kind value).1 h.1,
    )
    | inr (e, failed) ↦ rw failed (λ h. cc, λ h. cc)
  ]
