-- ===== src/Sql/Reads/Holes.antt =====
-- The reader on printed placeholders.
use mathlib.Core.List.{◌++◌, append_assoc}
use soap_sqlx.Prelude.{
  ℕ, zero, suc, ◌<◌, List, [], ◌∷◌, Option, none, some, code, true, false, ◌≡◌, refl, All, arith,
  ◌==◌, String, length, nat_to_string, read_from-nat_to_string, nat_to_string-IsNumeral,
  AllDigits-of_IsNumeral, AllDigits,
}
use soap_sqlx.Sql.{Hole, print_cast, print_hole, print_more_holes}
use soap_sqlx.Sql.Chars.{
  Text, chars, strip, span, span-append, Stops, is_digit, is_lower, number_from, number_from-chars,
}
use soap_sqlx.Sql.Reader.{read_cast, read_hole, read_more_holes}

-- What may follow a placeholder: nothing, or a character before the digits, such as a space, a comma or
-- a parenthesis.
abbrev pub Ends : Text → Type 0
Ends [] = Unit
Ends (c ∷ _) = code c < b'0'

Stops-digit : (rest : Text) → Ends rest → Stops is_digit rest
Stops-digit [] h = tt
Stops-digit (c ∷ _) h = ground arith

Stops-lower : (rest : Text) → Ends rest → Stops is_lower rest
Stops-lower [] h = tt
Stops-lower (c ∷ _) h = ground arith

no_cast : (rest : Text) → Ends rest → strip (chars "::") rest ≡ none
no_cast [] h = refl
no_cast (c ∷ rest) h = let other : (b':' == code c) ≡ false = ground arith in rw (other, strip) refl

digits : (s : String) → AllDigits s → All (λ c. is_digit (code c) ≡ true) (chars s)
digits String.[] h = tt
digits (String.◌∷◌ c s) (h, hs) = (ground arith, digits s hs)

number_digits : (n : ℕ) → All (λ c. is_digit (code c) ≡ true) (chars (nat_to_string n))
number_digits n =
    digits (nat_to_string n) (AllDigits-of_IsNumeral (nat_to_string n) (nat_to_string-IsNumeral n))

number_read : (n : ℕ) → number_from 0 (chars (nat_to_string n)) ≡ n
number_read n = rw (number_from-chars, read_from-nat_to_string) refl

-- A cast's name is of lower-case letters.
abbrev pub IsCast : Option Text → Type 0
IsCast none = Unit
IsCast (some cast) = All (λ c. is_lower (code c) ≡ true) cast

read_cast-print_cast :
    (n : ℕ) (cast : Option Text) (rest : Text)
    → IsCast cast
    → Ends rest
    → read_cast n (print_cast cast ++ rest) ≡ some (record { number = n; cast = cast }, rest)
read_cast-print_cast n none rest h ends = rw (no_cast rest ends) refl
read_cast-print_cast n (some cast) rest h ends =
    rw (span-append is_lower cast rest h (Stops-lower rest ends)) refl

Stops-print_cast :
    (cast : Option Text) (rest : Text) → Ends rest → Stops is_digit (print_cast cast ++ rest)
Stops-print_cast none rest ends = Stops-digit rest ends
Stops-print_cast (some cast) rest ends = refl

pub read_hole-print_hole :
    (h : Hole) (rest : Text)
    → IsCast h.cast
    → Ends rest
    → read_hole (print_hole h ++ rest) ≡ some (h, rest)
read_hole-print_hole h rest good ends =
    let spanned : span is_digit (chars (nat_to_string h.number) ++ (print_cast h.cast ++ rest))
        ≡ (chars (nat_to_string h.number), print_cast h.cast ++ rest) =
      span-append is_digit (chars (nat_to_string h.number)) (print_cast h.cast ++ rest)
        (number_digits h.number) (Stops-print_cast h.cast rest ends) in
    rw (append_assoc, spanned, number_read) (read_cast-print_cast h.number h.cast rest good ends)

pub Ends-print_more_holes : (hs : List Hole) (rest : Text) → Ends (print_more_holes hs ++ rest)
Ends-print_more_holes [] rest = omega arith
Ends-print_more_holes (h ∷ hs) rest = omega arith

pub read_more_holes-print_more_holes :
    (fuel : ℕ) (hs : List Hole) (rest : Text)
    → length hs < fuel
    → All (λ h. IsCast h.cast) hs
    → read_more_holes fuel (print_more_holes hs ++ rest) ≡ some (hs, rest)
read_more_holes-print_more_holes zero hs rest h good = absurd (omega arith)
read_more_holes-print_more_holes (suc fuel) [] rest h good = refl
read_more_holes-print_more_holes (suc fuel) (hole ∷ hs) rest h (good, goods) =
    rw
      (
        append_assoc,
        read_hole-print_hole hole (print_more_holes hs ++ rest) good
            (Ends-print_more_holes hs rest),
        read_more_holes-print_more_holes fuel hs rest (omega arith) goods,
      )
      refl
