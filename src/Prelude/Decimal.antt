-- ===== src/Prelude/Decimal.antt =====
-- `to_string` of Rust's integers: decimal text, with the reader that it is inverse to.
use Prim.Native.Nat.{ℕ, zero, suc, ◌+◌, ◌-◌, ◌*◌, ◌/◌, ◌%◌, ◌<◌, ◌≤◌}
use Prim.Native.Char.{Char, code}
use Prim.Native.String.{String, [], ◌∷◌, ◌++◌}
use mathlib.Core.Path.{◌≡◌}
use mathlib.Core.Logic.{inl, inr}
use native.Mathlib.Omega.{arith}
use text.Mathlib.TextLemmas.{nil-append, cons-append}
use soap_sqlx.Prelude.Tests.{ltb, if◌then◌else◌, Bool-cases, ltb→lt}

-- An i64 as an integer: `negsuc n` is -(n + 1).
pub data ℤ : Type 0 where
  pos : ℕ → ℤ
  negsuc : ℕ → ℤ

abbrev pub digit : ℕ → String
digit zero = "0"
digit (suc zero) = "1"
digit (suc (suc zero)) = "2"
digit (suc (suc (suc zero))) = "3"
digit (suc (suc (suc (suc zero)))) = "4"
digit (suc (suc (suc (suc (suc zero))))) = "5"
digit (suc (suc (suc (suc (suc (suc zero)))))) = "6"
digit (suc (suc (suc (suc (suc (suc (suc zero))))))) = "7"
digit (suc (suc (suc (suc (suc (suc (suc (suc zero)))))))) = "8"
digit _ = "9"

-- One division by ten for each unit of fuel; fuel `n + 1` suffices for `n`.
decimal_fuel : ℕ → ℕ → String
decimal_fuel zero n = ""
decimal_fuel (suc fuel) n =
    let rest = decimal_fuel fuel (n / 10) ++ digit (n % 10) in if ltb n 10 then digit n else rest

unfoldable pub nat_to_string : ℕ → String
unfolding decimal_fuel
nat_to_string n = decimal_fuel (suc n) n

unfoldable pub int_to_string : ℤ → String
int_to_string (pos n) = nat_to_string n
int_to_string (negsuc n) = "-" ++ nat_to_string (suc n)

-- The number that a run of digits denotes.
unfoldable pub read_from : ℕ → String → ℕ
read_from acc [] = acc
read_from acc (c ∷ s) = read_from (acc * 10 + (code c - b'0')) s

read_from-append : (acc : ℕ) (s t : String) → read_from acc (s ++ t) ≡ read_from (read_from acc s) t
unfolding read_from
read_from-append acc [] t = rw nil-append
read_from-append acc (c ∷ s) t = rw cons-append (read_from-append (acc * 10 + (code c - b'0')) s t)

read_from-digit : (acc d : ℕ) → d < 10 → read_from acc (digit d) ≡ acc * 10 + d
unfolding read_from
read_from-digit acc zero h = omega arith
read_from-digit acc (suc zero) h = omega arith
read_from-digit acc (suc (suc zero)) h = omega arith
read_from-digit acc (suc (suc (suc zero))) h = omega arith
read_from-digit acc (suc (suc (suc (suc zero)))) h = omega arith
read_from-digit acc (suc (suc (suc (suc (suc zero))))) h = omega arith
read_from-digit acc (suc (suc (suc (suc (suc (suc zero)))))) h = omega arith
read_from-digit acc (suc (suc (suc (suc (suc (suc (suc zero))))))) h = omega arith
read_from-digit acc (suc (suc (suc (suc (suc (suc (suc (suc zero)))))))) h = omega arith
read_from-digit acc (suc (suc (suc (suc (suc (suc (suc (suc (suc n))))))))) h = omega arith

read_from-decimal_fuel : (fuel n : ℕ) → n < fuel → read_from 0 (decimal_fuel fuel n) ≡ n
unfolding decimal_fuel
read_from-decimal_fuel zero n h = absurd (omega arith)
read_from-decimal_fuel (suc fuel) n h = elim (Bool-cases (ltb n 10)) [
  | inl small ↦ rw small (omega (arith, read_from-digit 0 n (ltb→lt n 10 small)))
  | inr large ↦
      rw (large, read_from-append, read_from-decimal_fuel fuel (n / 10) (ground arith))
        (omega (arith, read_from-digit (n / 10) (n % 10) (omega arith)))
]

-- Printing loses nothing.
pub read_from-nat_to_string : (n : ℕ) → read_from 0 (nat_to_string n) ≡ n
unfolding nat_to_string
read_from-nat_to_string n = read_from-decimal_fuel (suc n) n (omega arith)

abbrev pub IsDigit : Char → Type 0
IsDigit c = (b'0' ≤ code c) × (code c ≤ b'9')

abbrev pub AllDigits : String → Type 0
AllDigits [] = Unit
AllDigits (c ∷ s) = IsDigit c × AllDigits s

-- A number's text: digits, and one at least.
abbrev pub IsNumeral : String → Type 0
IsNumeral [] = ⊥
IsNumeral (c ∷ s) = IsDigit c × AllDigits s

digit-IsNumeral : (d : ℕ) → IsNumeral (digit d)
digit-IsNumeral zero = omega arith
digit-IsNumeral (suc zero) = omega arith
digit-IsNumeral (suc (suc zero)) = omega arith
digit-IsNumeral (suc (suc (suc zero))) = omega arith
digit-IsNumeral (suc (suc (suc (suc zero)))) = omega arith
digit-IsNumeral (suc (suc (suc (suc (suc zero))))) = omega arith
digit-IsNumeral (suc (suc (suc (suc (suc (suc zero)))))) = omega arith
digit-IsNumeral (suc (suc (suc (suc (suc (suc (suc zero))))))) = omega arith
digit-IsNumeral (suc (suc (suc (suc (suc (suc (suc (suc zero)))))))) = omega arith
digit-IsNumeral _ = omega arith

AllDigits-append : (s t : String) → AllDigits s → AllDigits t → AllDigits (s ++ t)
AllDigits-append [] t hs ht = rw nil-append ht
AllDigits-append (c ∷ s) t (h, hs) ht = rw cons-append (h, AllDigits-append s t hs ht)

pub AllDigits-of_IsNumeral : (s : String) → IsNumeral s → AllDigits s
AllDigits-of_IsNumeral [] h = tt
AllDigits-of_IsNumeral (c ∷ s) h = h

IsNumeral-append : (s t : String) → IsNumeral s → IsNumeral t → IsNumeral (s ++ t)
IsNumeral-append [] t hs ht = absurd hs
IsNumeral-append (c ∷ s) t (h, hs) ht =
    rw cons-append (h, AllDigits-append s t hs (AllDigits-of_IsNumeral t ht))

decimal_fuel-IsNumeral : (fuel n : ℕ) → n < fuel → IsNumeral (decimal_fuel fuel n)
unfolding decimal_fuel
decimal_fuel-IsNumeral zero n h = absurd (omega arith)
decimal_fuel-IsNumeral (suc fuel) n h = elim (Bool-cases (ltb n 10)) [
  | inl small ↦ rw small (digit-IsNumeral n)
  | inr large ↦ rw large (
      IsNumeral-append _ (digit (n % 10)) (decimal_fuel-IsNumeral fuel (n / 10) (ground arith))
        (digit-IsNumeral (n % 10)))
]

-- What is printed is a numeral.
pub nat_to_string-IsNumeral : (n : ℕ) → IsNumeral (nat_to_string n)
unfolding nat_to_string
nat_to_string-IsNumeral n = decimal_fuel-IsNumeral (suc n) n (omega arith)
