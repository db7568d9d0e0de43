-- ===== src/Sql/Chars.antt =====
-- A text as the list of its characters, with what the reader of the grammar takes off its front.
use Prim.Native.String
use text.Mathlib.TextLemmas.{nil-append, cons-append}
use mathlib.Core.List.{◌++◌}
use soap_sqlx.Prelude.{
  ℕ, ◌+◌, ◌*◌, ◌-◌, Char, code, String, Bool, true, false, List, [], ◌∷◌, Option, none, some, ◌==◌,
  leb, ◌&&◌, ◌||◌, ◌≡◌, refl, All, arith, read_from,
}

abbrev pub Text : Type 0
Text = List Char

abbrev pub chars : String → Text
chars String.[] = []
chars (String.◌∷◌ c s) = c ∷ chars s

pub chars-append : (s t : String) → chars (String.◌++◌ s t) ≡ chars s ++ chars t
chars-append String.[] t = rw nil-append refl
chars-append (String.◌∷◌ c s) t = rw (cons-append, chars-append s t) refl

abbrev pub strip : Text → Text → Option Text
strip [] s = some s
strip (p ∷ ps) [] = none
strip (p ∷ ps) (c ∷ s) = elim (code p == code c) [ true ↦ strip ps s | false ↦ none ]

pub strip-append : (p s : Text) → strip p (p ++ s) ≡ some s
strip-append [] s = refl
strip-append (c ∷ p) s =
    let same : (code c == code c) ≡ true = ground arith in rw (same, strip) (strip-append p s)

-- The longest run of characters that pass a test, and the rest.
abbrev pub span : (ℕ → Bool) → Text → Text × Text
span p [] = ([], [])
span p (c ∷ s) = elim (p (code c)) [ true ↦ (c ∷ (span p s).0, (span p s).1) | false ↦ ([], c ∷ s) ]

abbrev pub Stops : (ℕ → Bool) → Text → Type 0
Stops p [] = Unit
Stops p (c ∷ _) = p (code c) ≡ false

pub span-append :
    (p : ℕ → Bool) (s rest : Text)
    → All (λ c. p (code c) ≡ true) s
    → Stops p rest
    → span p (s ++ rest) ≡ (s, rest)
span-append p [] [] h stops = refl
span-append p [] (c ∷ rest) h stops = rw (stops, span) refl
span-append p (c ∷ s) rest (h, hs) stops = rw (h, span, span-append p s rest hs stops) refl

abbrev pub is_digit : ℕ → Bool
is_digit c = leb b'0' c && leb c b'9'

abbrev pub is_lower : ℕ → Bool
is_lower c = leb b'a' c && leb c b'z'

abbrev pub is_word : ℕ → Bool
is_word c = c == b'_' || (is_lower c || ((leb b'A' c && leb c b'Z') || is_digit c))

-- The number of a run of digits.
abbrev pub number_from : ℕ → Text → ℕ
number_from acc [] = acc
number_from acc (c ∷ s) = number_from (acc * 10 + (code c - b'0')) s

pub number_from-chars : (acc : ℕ) (s : String) → number_from acc (chars s) ≡ read_from acc s
unfolding read_from
number_from-chars acc String.[] = refl
number_from-chars acc (String.◌∷◌ c s) = number_from-chars (acc * 10 + (code c - b'0')) s
