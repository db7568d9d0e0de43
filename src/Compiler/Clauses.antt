-- ===== src/Compiler/Clauses.antt =====
-- The clauses of a search as the writer of src/postgres/compiler.rs emits them: a space goes before
-- a clause exactly if something was written before it.
use text.Mathlib.TextLemmas.{nil-append, cons-append}
use soap_sqlx.Prelude.{
  ℕ, zero, suc, ◌+◌, ◌^◌, ◌<◌, ℤ, pos, String, List, [], ◌∷◌, ◌++◌, Option, none, some, ok, ◌≡◌,
  refl, false, arith, >>=-eq-ok, subst, length, is_empty, append_assoc, append-nil, ◌∙◌,
}
use soap_sqlx.External.{External, SoapResult}
use soap_sqlx.Portable.{Condition, Sort}
use soap_sqlx.Mapping.{PgFieldMap, resolve}
use soap_sqlx.Binding.{column_expression}
use soap_sqlx.Output.{CompilerOutput, default_output, push_str}
use soap_sqlx.Compiler.{
  direction_text, text_is_empty, separate_clause, to_i64, write_where, write_sorts, write_order,
  write_limit, write_offset,
}
use soap_sqlx.Compiler.Template.{◌&◌, Piece, literal, render}
use soap_sqlx.Compiler.Wrote.{Wrote, Wrote-nil, Wrote-str, Wrote-page, Wrote-append}
use soap_sqlx.Compiler.Writes.{Wrote-after_first, Wrote-two, reached, write_condition-Wrote}
use soap_sqlx.Compiler.Pieces.{
  after_first, joined, sort_items, where_clause, order_clause, limit_clause, offset_clause,
}

abbrev HasText : String → Type 0
HasText s = text_is_empty s ≡ false

HasText-append_right : (s t : String) → HasText t → HasText (s & t)
HasText-append_right String.[] t h = rw nil-append h
HasText-append_right (String.◌∷◌ c s) t h = rw cons-append

HasText-append_left : (s t : String) → HasText s → HasText (s & t)
HasText-append_left String.[] t h = cc
HasText-append_left (String.◌∷◌ c s) t h = rw cons-append

joined-concat :
    {F64 : Type 0} (index : ℕ) (s : String) (items : List (List (Piece F64)))
    (item : List (Piece F64))
    → joined index s (items ++ item ∷ [])
      ≡ joined index s items ++ (after_first (index + length items) s ++ item)
joined-concat index s [] item = let same : index + 0 ≡ index = omega arith in rw (same, append-nil)
joined-concat index s (first ∷ items) item =
    let same : index + suc (length items) ≡ suc index + length items = omega arith in
    rw (same, joined-concat (suc index) s items item) (simp append_assoc)

joined_zero-concat :
    {F64 : Type 0} (s : String) (items : List (List (Piece F64))) (item : List (Piece F64))
    → joined 0 s (items ++ item ∷ []) ≡ joined 0 s items ++ (after_first (length items) s ++ item)
joined_zero-concat s items item =
    let same : 0 + length items ≡ length items = omega arith in
    rw (joined-concat 0 s items item, same)

is_empty-concat {ℓ} : {A : Type ℓ} (xs : List A) (a : A) → false ≡ is_empty (xs ++ a ∷ [])
is_empty-concat [] a = refl
is_empty-concat (_ ∷ xs) a = refl

module _ (x : External) where
  -- The clauses written so far, from nothing; the text is empty only if there are none.
  pub record At (items : List (List (Piece x.F64))) (o : CompilerOutput x.types) : Type 0 where
    pub wrote : Wrote x (joined 0 " " items) default_output o
    pub started : text_is_empty o.sql ≡ is_empty items

  pub At-nil : At [] default_output
  At-nil = record { wrote = Wrote-nil x; started = refl }

  separate_clause-Wrote :
      (items : List (List (Piece x.F64))) (o : CompilerOutput x.types)
      → text_is_empty o.sql ≡ is_empty items
      → Wrote x (after_first (length items) " ") o (separate_clause o)
  separate_clause-Wrote [] o e = rw e (Wrote-nil x)
  separate_clause-Wrote (_ ∷ items) o e = rw e (Wrote-str x " ")

  -- A step that pushed a keyword and wrote more has text.
  HasText-Wrote :
      {k : String} {p : List (Piece x.F64)} {o o' : CompilerOutput x.types}
      → HasText k
      → Wrote x (literal k ∷ p) o o'
      → HasText o'.sql
  unfolding render
  HasText-Wrote {k} {p} {o} h w =
      rw w.sql (HasText-append_right o.sql _ (HasText-append_left k _ h))

  -- One clause more: its keyword after the separator, then the rest of it.
  pub At-clause :
      (items : List (List (Piece x.F64))) (k : String) {p : List (Piece x.F64)}
      {o o' : CompilerOutput x.types}
      → HasText k
      → At items o
      → Wrote x p (push_str k (separate_clause o)) o'
      → At (items ++ (literal k ∷ p) ∷ []) o'
  At-clause items k {p} {o} {o'} h at w =
      let clause = Wrote-append x (Wrote-str x k) w in
      record {
        wrote = rw (joined_zero-concat " " items (literal k ∷ p)) (
            Wrote-append x at.wrote
              (Wrote-append x (separate_clause-Wrote items o at.started) clause));
        started = HasText-Wrote h clause ∙ is_empty-concat items (literal k ∷ p);
      }

  unchanged :
      {items : List (List (Piece x.F64))} {a b : CompilerOutput x.types}
      → Path (SoapResult x (CompilerOutput x.types)) (ok a) (ok b)
      → At items a
      → At items b
  unchanged {items} e at = subst (At items) (cc) at

  pub to_i64-bound :
      (n : ℕ) (message : String) (n' : ℤ) → to_i64 x n message ≡ ok n' → (n < 2 ^ 63) × (n' ≡ pos n)
  to_i64-bound n message n' h = ground arith

  module _ (fields : PgFieldMap x) where
    write_sorts-Wrote :
        (sorts : List (Sort x.FieldName)) (index : ℕ) (o o' : CompilerOutput x.types)
        → write_sorts x fields sorts index o ≡ ok o'
        → Wrote x (joined index ", " (sort_items x fields sorts)) o o'
    unfolding write_sorts
    write_sorts-Wrote [] index o o' h = reached x h (Wrote-nil x)
    write_sorts-Wrote (sort ∷ sorts) index o o' h =
        let (column, found, h') = >>=-eq-ok (resolve x fields sort.field) _ h in
        Wrote-append x (Wrote-after_first x index ", ") (
          rw found (
            Wrote-append x (Wrote-two x (column_expression column) (direction_text sort.direction))
              (write_sorts-Wrote sorts (suc index) _ o' h')))

    pub write_where-At :
        (c : Option (Condition x.FieldName x.F64)) (o : CompilerOutput x.types)
        → write_where x fields c default_output ≡ ok o
        → At (where_clause x fields c) o
    unfolding write_where
    write_where-At none o h = unchanged h At-nil
    write_where-At (some c) o h =
        At-clause [] "WHERE " refl At-nil (write_condition-Wrote x fields c _ o h)

    pub write_order-At :
        (items : List (List (Piece x.F64))) (sorts : List (Sort x.FieldName))
        (o o' : CompilerOutput x.types)
        → At items o
        → write_order x fields sorts o ≡ ok o'
        → At (items ++ order_clause x fields sorts) o'
    unfolding write_order
    write_order-At items [] o o' at h = rw append-nil (unchanged h at)
    write_order-At items (sort ∷ sorts) o o' at h =
        At-clause items "ORDER BY " refl at (write_sorts-Wrote (sort ∷ sorts) 0 _ o' h)

    pub write_limit-At :
        (items : List (List (Piece x.F64))) (limit : Option ℕ) (o o' : CompilerOutput x.types)
        → At items o
        → write_limit x fields limit o ≡ ok o'
        → At (items ++ limit_clause limit) o'
    unfolding write_limit
    write_limit-At items none o o' at h = rw append-nil (unchanged h at)
    write_limit-At items (some n) o o' at h =
        let (n', fits, h') = >>=-eq-ok (to_i64 x n _) _ h in
        let (bound, same) = to_i64-bound n _ n' fits in
        At-clause items "LIMIT " refl at (reached x (rw same at h') (Wrote-page x n bound))

    pub write_offset-At :
        (items : List (List (Piece x.F64))) (offset : ℕ) (o o' : CompilerOutput x.types)
        → At items o
        → write_offset x fields offset o ≡ ok o'
        → At (items ++ offset_clause offset) o'
    unfolding write_offset
    write_offset-At items zero o o' at h = rw append-nil (unchanged h at)
    write_offset-At items (suc n) o o' at h =
        let (n', fits, h') = >>=-eq-ok (to_i64 x (suc n) _) _ h in
        let (bound, same) = to_i64-bound (suc n) _ n' fits in
        At-clause items "OFFSET " refl at (reached x (rw same at h') (Wrote-page x (suc n) bound))
