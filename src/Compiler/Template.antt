-- ===== src/Compiler/Template.antt =====
-- What a compiled fragment is to be: a list of pieces, literal SQL and values to bind, in order. The
-- writer of src/postgres/compiler.rs is proved to write such a list.
use Prim.Native.String
use text.Mathlib.TextLemmas.{nil-append, append_assoc}
use soap_sqlx.Prelude.{
  ℕ, suc, ◌+◌, ◌^◌, ◌<◌, pos, String, List, [], ◌∷◌, ◌++◌, Option, none, some, ok, ◌≡◌, refl, sym,
  ap, nat_to_string, length, arith,
}
use soap_sqlx.External.{External}
use soap_sqlx.Portable.{ScalarValue}
use soap_sqlx.Mapping.{PgScalarKind}
use soap_sqlx.Binding.{PgBindValue, i64, placeholder_cast, normalize_binding}

-- Concatenation of texts.
infixr 65 ◌&◌
abbrev pub ◌&◌ : String → String → String
s & t = String.◌++◌ s t

-- Literal SQL, a query value for a column of a kind, or a number of the pagination.
pub data Piece (F64 : Type 0) : Type 0 where
  literal : String → Piece F64
  value : PgScalarKind → ScalarValue F64 → Piece F64
  page : ℕ → Piece F64

-- A placeholder: its number, from 1, and the cast that the column's kind asks for.
abbrev pub cast_suffix : Option String → String
cast_suffix none = ""
cast_suffix (some cast) = "::" & cast

abbrev pub placeholder : ℕ → Option String → String
placeholder index cast = "$" & (nat_to_string index & cast_suffix cast)

module _ {F64 : Type 0} where
  -- The SQL text of the pieces after `n` bindings. It does not look at a value.
  unfoldable pub render : ℕ → List (Piece F64) → String
  render n [] = ""
  render n (literal s ∷ pieces) = s & render n pieces
  render n (value kind _ ∷ pieces) =
      placeholder (suc n) (placeholder_cast kind) & render (suc n) pieces
  render n (page _ ∷ pieces) = placeholder (suc n) none & render (suc n) pieces

  unfoldable pub holes : List (Piece F64) → ℕ
  holes [] = 0
  holes (literal _ ∷ pieces) = holes pieces
  holes (_ ∷ pieces) = suc (holes pieces)

  pub holes-append : (p q : List (Piece F64)) → holes (p ++ q) ≡ holes p + holes q
  unfolding holes
  holes-append [] q = omega arith
  holes-append (literal s ∷ p) q = holes-append p q
  holes-append (value k v ∷ p) q = omega (arith, holes-append p q)
  holes-append (page m ∷ p) q = omega (arith, holes-append p q)

  pub render-append :
      (n : ℕ) (p q : List (Piece F64)) → render n (p ++ q) ≡ render n p & render (n + holes p) q
  unfolding render holes
  render-append n [] q = let same : n + 0 ≡ n = omega arith in rw (same, nil-append)
  render-append n (literal s ∷ p) q = rw (render-append n p q, append_assoc)
  render-append n (value k v ∷ p) q =
      let same : n + suc (holes p) ≡ suc n + holes p = omega arith in
      rw (same, render-append (suc n) p q) (sym (append_assoc _ _ _))
  render-append n (page m ∷ p) q =
      let same : n + suc (holes p) ≡ suc n + holes p = omega arith in
      rw (same, render-append (suc n) p q) (sym (append_assoc _ _ _))

module _ (x : External) where
  -- The bindings that belong to the pieces, each the normal form of its value.
  abbrev pub Bound : List (Piece x.F64) → List (PgBindValue x.types) → Type 0
  Bound [] [] = Unit
  Bound [] (_ ∷ _) = ⊥
  Bound (literal _ ∷ pieces) bindings = Bound pieces bindings
  Bound (value kind v ∷ pieces) (b ∷ bindings) =
      (normalize_binding x kind v ≡ ok b) × Bound pieces bindings
  Bound (page n ∷ pieces) (b ∷ bindings) = (b ≡ i64 (pos n)) × (n < 2 ^ 63) × Bound pieces bindings
  Bound (_ ∷ _) [] = ⊥

  pub Bound-append :
      (p q : List (Piece x.F64)) (bs cs : List (PgBindValue x.types))
      → Bound p bs
      → Bound q cs
      → Bound (p ++ q) (bs ++ cs)
  Bound-append [] q [] cs h k = k
  Bound-append [] q (b ∷ bs) cs h k = absurd h
  Bound-append (literal s ∷ p) q bs cs h k = Bound-append p q bs cs h k
  Bound-append (value kind v ∷ p) q (b ∷ bs) cs (e, h) k = (e, Bound-append p q bs cs h k)
  Bound-append (page n ∷ p) q (b ∷ bs) cs (e, l, h) k = (e, l, Bound-append p q bs cs h k)
  Bound-append (value kind v ∷ p) q [] cs h k = absurd h
  Bound-append (page n ∷ p) q [] cs h k = absurd h

  -- There are as many bindings as placeholders.
  pub holes_of_Bound :
      (p : List (Piece x.F64)) (bs : List (PgBindValue x.types)) → Bound p bs → holes p ≡ length bs
  unfolding holes
  holes_of_Bound [] [] h = refl
  holes_of_Bound [] (b ∷ bs) h = absurd h
  holes_of_Bound (literal s ∷ p) bs h = holes_of_Bound p bs h
  holes_of_Bound (value kind v ∷ p) (b ∷ bs) h = ap suc (holes_of_Bound p bs h.1)
  holes_of_Bound (page n ∷ p) (b ∷ bs) h = ap suc (holes_of_Bound p bs h.2)
  holes_of_Bound (value kind v ∷ p) [] h = absurd h
  holes_of_Bound (page n ∷ p) [] h = absurd h
