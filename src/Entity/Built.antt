-- ===== src/Entity/Built.antt =====
-- The mappings that the builder of src/postgres/entity.rs makes, and what `validate` asks of them.
use mathlib.Core.List.{◌++◌}
use soap_sqlx.Prelude.{
  ◌≡◌, refl, ◌↔◌, Bool, true, false, ◌||◌, String, not, ◌&&◌, ◌>>=◌, List, [], ◌∷◌, Result, ok, err,
  if◌then◌else◌, arith, Bool-cases, inl, inr, >>=-eq-ok, filter, is_ok_and, is_empty,
}
use soap_sqlx.External.{External}
use soap_sqlx.Mapping.{
  PgScalarKind, PgFieldPermissions, PgFieldMap, insert_with_permissions, get, resolve, contains,
}
use soap_sqlx.Mapping.Lookup.{contains-insert_with_permissions}
use soap_sqlx.Entity.{
  PgTable, PgEntityMapping, start, push_field, with_field_permissions, fields_matching, validate,
}

module _ (x : External) where
  abbrev pub elem : x.FieldName → List x.FieldName → Bool
  elem f [] = false
  elem f (g ∷ gs) = x.field_eq g f || elem f gs

  elem-append :
      (f g : x.FieldName) (gs : List x.FieldName)
      → elem f (gs ++ (g ∷ [])) ≡ (x.field_eq g f || elem f gs)
  elem-append f g [] = ground arith
  elem-append f g (h ∷ gs) = ground (arith, elem-append f g gs)

  -- The statement order lists exactly the fields of the map.
  abbrev pub IsBuilt : PgEntityMapping x → Type 0
  IsBuilt m = (f : x.FieldName) → contains x m.fields f ≡ elem f m.ordered_fields

  push_field-eq-ok :
      (m m' : PgEntityMapping x) (logical : x.FieldName)
      (r : PgFieldMap x × Result x.SoapError (Unit {0}))
      → push_field x m logical r ≡ ok m'
      → (r.1 ≡ ok tt) × (m'.fields ≡ r.0) × (m'.ordered_fields ≡ m.ordered_fields ++ (logical ∷ []))
  push_field-eq-ok m m' logical (fields, ok _) h = (refl, cc, cc)
  push_field-eq-ok m m' logical (fields, err e) h = cc

  guarded-eq-ok :
      {A : Type 0} (b : Bool) (e : x.SoapError) (r : Result x.SoapError A) {a : A}
      → (if b then err e else r) ≡ ok a
      → r ≡ ok a
  guarded-eq-ok true e r h = cc
  guarded-eq-ok false e r h = h

  pub start-IsBuilt : (table : PgTable) (id : x.FieldName) → IsBuilt (start x table id)
  unfolding contains get
  start-IsBuilt table id f = refl

  -- If the statement order of a mapping lists exactly the fields of its map, it still does after a
  -- step of the builder that succeeds.
  pub with_field_permissions-IsBuilt :
      (m m' : PgEntityMapping x) (logical physical : String) (scalar_kind : PgScalarKind)
      (permissions : PgFieldPermissions)
      → IsBuilt m
      → with_field_permissions x m logical physical scalar_kind permissions ≡ ok m'
      → IsBuilt m'
  unfolding with_field_permissions
  with_field_permissions-IsBuilt m m' logical physical scalar_kind permissions built h f =
      let useless =
        not permissions.selectable && (not permissions.insertable && not permissions.updatable) in
      let rest = λ (l : x.FieldName).
        push_field x m l
          (insert_with_permissions x m.fields (x.as_str l) physical scalar_kind permissions) in
      let done = guarded-eq-ok useless _ (x.new_field_name logical >>= rest) h in
      let (l, named, pushed) = >>=-eq-ok (x.new_field_name logical) rest done in
      let r = insert_with_permissions x m.fields (x.as_str l) physical scalar_kind permissions in
      let (done, fields, ordered) = push_field-eq-ok m m' l r pushed in
      rw
        (
          fields,
          ordered,
          elem-append,
          contains-insert_with_permissions x m.fields l f physical scalar_kind permissions done,
          built f,
        )
        refl

  elem-nonempty : (f : x.FieldName) (gs : List x.FieldName) → elem f gs ≡ true → is_empty gs ≡ false
  elem-nonempty f [] e = cc
  elem-nonempty f (g ∷ gs) e = refl

  -- A search that a member of the list passes finds something.
  filter-found :
      (q : x.FieldName → Bool) (f : x.FieldName) (gs : List x.FieldName)
      → elem f gs ≡ true
      → q f ≡ true
      → is_empty (filter q gs) ≡ false
  filter-found q f [] e h = cc
  filter-found q f (g ∷ gs) e h = elim (Bool-cases (q g)) [
    | inl here ↦ rw (here, is_empty, filter) refl
    | inr skip ↦ rw (skip, filter) (filter-found q f gs (ground (arith, x.field_eq_iff g f)) h)
  ]

  -- A mapping whose statement order lists exactly the fields of its map is valid exactly if its
  -- identity field is mapped to a selectable column.
  pub validate_iff :
      (m : PgEntityMapping x)
      → IsBuilt m
      → (validate x m ≡ ok tt)
        ↔ (is_ok_and (λ c. c.permissions.selectable) (resolve x m.fields m.id_field) ≡ true)
  unfolding validate contains resolve fields_matching
  validate_iff m built = (
    λ valid. ground arith,
    λ found.
        let mapped : contains x m.fields m.id_field ≡ true = ground arith in
        let listed = elem-nonempty m.id_field m.ordered_fields (rw (← built m.id_field) mapped) in
        let selected =
          filter-found (λ g. is_ok_and (λ c. c.permissions.selectable) (resolve x m.fields g))
            m.id_field m.ordered_fields (rw (← built m.id_field) mapped) found in
        ground arith,
  )
