-- ===== src/Mapping/Lookup.antt =====
-- What an insertion into the field map changes (src/postgres/mapping.rs).
use soap_sqlx.Prelude.{
  ◌≡◌, refl, ◌↔◌, true, false, String, some, List, [], ◌∷◌, ok, err, arith, ◌||◌, if◌then◌else◌,
  All, Bool-cases, inl, inr, Result-cases, >>=-eq-ok,
}
use soap_sqlx.External.{External}
use soap_sqlx.Identifier
use soap_sqlx.Identifier.{PgIdentifier}
use soap_sqlx.Identifier.Grammar.{IsIdentifier, new_iff}
use soap_sqlx.Mapping.{
  PgScalarKind, PgFieldPermissions, PgColumn, PgFieldMap, get, put, duplicate, new_column,
  insert_with_permissions, resolve, contains,
}

module _ (x : External) where
  pub get-put :
      (f g : x.FieldName) (column : PgColumn) (m : List (x.FieldName × PgColumn))
      → get x g (put x f column m) ≡ (if x.field_eq f g then some column else get x g m)
  unfolding get put
  get-put f g column [] = refl
  get-put f g column ((key, old) ∷ rest) = ground (
    arith,
    x.field_eq_iff key f,
    x.field_eq_iff key g,
    x.field_eq_iff f g,
    get-put f g column rest,
  )

  abbrev pub column_of : PgIdentifier → PgScalarKind → PgFieldPermissions → PgColumn
  column_of identifier scalar_kind permissions = record {
    identifier = identifier;
    scalar_kind = scalar_kind;
    permissions = permissions;
  }

  -- If both names are accepted, an insertion makes the logical field resolve to the new column and
  -- leaves every other field as it was; it reports success exactly if the field was not mapped.
  pub resolve-insert_with_permissions :
      (m : PgFieldMap x) (logical physical : String) (scalar_kind : PgScalarKind)
      (permissions : PgFieldPermissions) (f g : x.FieldName) (identifier : PgIdentifier)
      → x.new_field_name logical ≡ ok f
      → Identifier.new x physical ≡ ok identifier
      → let (m', result) = insert_with_permissions x m logical physical scalar_kind permissions in
        (resolve x m' g ≡ (
          if x.field_eq f g
          then ok (column_of identifier scalar_kind permissions)
          else resolve x m g))
        × ((result ≡ ok tt) ↔ (contains x m f ≡ false))
  unfolding insert_with_permissions resolve contains
  resolve-insert_with_permissions m logical physical scalar_kind permissions f g identifier hf hi =
      rw (hf, hi) (rw get-put (ground arith), ground arith)

  -- An insertion, with accepted names, of a field that is mapped already returns the duplicate
  -- error, and has replaced the field's column nonetheless.
  pub insert_with_permissions-duplicate :
      (m : PgFieldMap x) (logical physical : String) (scalar_kind : PgScalarKind)
      (permissions : PgFieldPermissions) (f : x.FieldName) (identifier : PgIdentifier)
      → x.new_field_name logical ≡ ok f
      → Identifier.new x physical ≡ ok identifier
      → contains x m f ≡ true
      → let (m', result) = insert_with_permissions x m logical physical scalar_kind permissions in
        (result ≡ err (duplicate x f))
        × (resolve x m' f ≡ ok (column_of identifier scalar_kind permissions))
  unfolding insert_with_permissions resolve contains
  insert_with_permissions-duplicate m logical physical scalar_kind permissions f identifier hf hi
        h =
      rw (hf, hi) (ground arith, rw (get-put, (x.field_eq_iff f f).1 refl))

  -- Every mapped column has a name of the identifier grammar.
  abbrev pub HasValidColumns : PgFieldMap x → Type 0
  HasValidColumns m = All (λ entry. IsIdentifier entry.1.identifier.text) m.columns

  put-All :
      (f : x.FieldName) (column : PgColumn) (m : List (x.FieldName × PgColumn))
      → IsIdentifier column.identifier.text
      → All (λ entry. IsIdentifier entry.1.identifier.text) m
      → All (λ entry. IsIdentifier entry.1.identifier.text) (put x f column m)
  unfolding put
  put-All f column [] h k = (h, tt)
  put-All f column ((key, old) ∷ rest) h (k, ks) = elim (Bool-cases (x.field_eq key f)) [
    | inl same ↦ rw same (h, ks)
    | inr other ↦ rw other (k, put-All f column rest h ks)
  ]

  new_column-valid :
      (logical physical : String) (scalar_kind : PgScalarKind) (permissions : PgFieldPermissions)
      {f : x.FieldName} {column : PgColumn}
      → new_column x logical physical scalar_kind permissions ≡ ok (f, column)
      → IsIdentifier column.identifier.text
  new_column-valid logical physical scalar_kind permissions {column} e =
      let (_, _, e') = >>=-eq-ok (x.new_field_name logical) _ e in
      let (identifier, made, e'') = >>=-eq-ok (Identifier.new x physical) _ e' in
      let (valid, same) = (new_iff x physical identifier).0 made in
      let same' : identifier ≡ column.identifier = cc in rw (← same') (rw same valid)

  -- If every mapped column has a name of the identifier grammar, it stays so after an insertion,
  -- successful or not.
  pub insert_with_permissions-HasValidColumns :
      (m : PgFieldMap x) (logical physical : String) (scalar_kind : PgScalarKind)
      (permissions : PgFieldPermissions)
      → HasValidColumns m
      → HasValidColumns (insert_with_permissions x m logical physical scalar_kind permissions).0
  unfolding insert_with_permissions
  insert_with_permissions-HasValidColumns m logical physical scalar_kind permissions h =
      elim (Result-cases (new_column x logical physical scalar_kind permissions)) [
        | inr (e, failed) ↦ rw failed h
        | inl ((f, column), made) ↦
            rw made (put-All f column m.columns (new_column-valid _ _ _ _ made) h)
      ]

  get-IsIdentifier :
      (f : x.FieldName) (m : List (x.FieldName × PgColumn)) (column : PgColumn)
      → All (λ entry. IsIdentifier entry.1.identifier.text) m
      → get x f m ≡ some column
      → IsIdentifier column.identifier.text
  unfolding get
  get-IsIdentifier f [] column h e = cc
  get-IsIdentifier f ((key, old) ∷ rest) column (k, ks) e = elim (Bool-cases (x.field_eq key f)) [
    | inl same ↦ let found : old ≡ column = ground arith in rw (← found) k
    | inr other ↦ get-IsIdentifier f rest column ks (ground arith)
  ]

  pub resolve-IsIdentifier :
      (m : PgFieldMap x) (f : x.FieldName) (column : PgColumn)
      → HasValidColumns m
      → resolve x m f ≡ ok column
      → IsIdentifier column.identifier.text
  unfolding resolve
  resolve-IsIdentifier m f column h e = get-IsIdentifier f m.columns column h (ground arith)

  -- After an insertion that succeeds, the mapped fields are the old ones and the new one.
  pub contains-insert_with_permissions :
      (m : PgFieldMap x) (f g : x.FieldName) (physical : String) (scalar_kind : PgScalarKind)
      (permissions : PgFieldPermissions)
      → (insert_with_permissions x m (x.as_str f) physical scalar_kind permissions).1 ≡ ok tt
      → contains x (insert_with_permissions x m (x.as_str f) physical scalar_kind permissions).0 g
        ≡ (x.field_eq f g || contains x m g)
  unfolding insert_with_permissions contains
  contains-insert_with_permissions m f g physical scalar_kind permissions =
      rw x.new_field_name-as_str (elim (Result-cases (Identifier.new x physical)) [
        | inr (e, failed) ↦ rw failed (λ h. cc)
        | inl (identifier, made) ↦ rw (made, get-put) (λ h. ground arith)
      ])
