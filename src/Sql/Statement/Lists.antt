-- ===== src/Sql/Statement/Lists.antt =====
-- The reader on printed names, values, assignments and lists of these.
use mathlib.Core.List.{◌++◌, append_assoc}
use soap_sqlx.Prelude.{
  ℕ, zero, suc, ◌≤◌, ◌<◌, List, [], ◌∷◌, none, some, ◌≡◌, refl, All, arith, length, length-append,
}
use soap_sqlx.Sql.Chars.{Text, chars, strip, span, span-append, is_word}
use soap_sqlx.Sql.Reader.{Read}
use soap_sqlx.Sql.Reads.Holes.{Ends, IsCast, read_hole-print_hole}
use soap_sqlx.Sql.Reads.Tests.{IsName}
use soap_sqlx.Sql.Statement.{
  Items, Given, left, bound, Assignment, print_name, print_given, print_assignment, print_others,
  print_items, read_name, read_given, read_assignment, read_others, read_items,
}

pub read_name-print_name :
    (name rest : Text) → IsName name → read_name (print_name name ++ rest) ≡ some (name, rest)
read_name-print_name name rest named =
    let spanned : span is_word (name ++ (chars "\"" ++ rest)) ≡ (name, chars "\"" ++ rest) =
      span-append is_word name (chars "\"" ++ rest) named refl in
    rw (append_assoc, spanned) refl

abbrev pub IsGiven : Given → Type 0
IsGiven left = Unit
IsGiven (bound h) = IsCast h.cast

pub read_given-print_given :
    (g : Given) (rest : Text)
    → IsGiven g
    → Ends rest
    → read_given (print_given g ++ rest) ≡ some (g, rest)
read_given-print_given left rest good ends = refl
read_given-print_given (bound h) rest good ends = rw (read_hole-print_hole h rest good ends) refl

abbrev pub IsAssignment : Assignment → Type 0
IsAssignment a = IsName a.column × IsGiven a.given

pub read_assignment-print_assignment :
    (a : Assignment) (rest : Text)
    → IsAssignment a
    → Ends rest
    → read_assignment (print_assignment a ++ rest) ≡ some (a, rest)
read_assignment-print_assignment a rest (named, good) ends =
    rw
      (
        append_assoc,
        read_name-print_name a.column (chars " = " ++ (print_given a.given ++ rest)) named,
        read_given-print_given a.given rest good ends,
      )
      refl

module _ {A : Type 0} (reader : Text → Read A) (show : A → Text) where
  -- An item is read before whatever ends it.
  abbrev pub IsItem : A → Type 0
  IsItem a = (rest : Text) → Ends rest → reader (show a ++ rest) ≡ some (a, rest)

  Ends-print_others :
      (more : List A) (rest : Text) → Ends rest → Ends (print_others show more ++ rest)
  Ends-print_others [] rest ends = ends
  Ends-print_others (a ∷ more) rest ends = omega arith

  read_others-print_others :
      (fuel : ℕ) (more : List A) (rest : Text)
      → length more < fuel
      → All IsItem more
      → Ends rest
      → strip (chars ", ") rest ≡ none
      → read_others reader fuel (print_others show more ++ rest) ≡ some (more, rest)
  read_others-print_others zero more rest enough good ends last = absurd (omega arith)
  read_others-print_others (suc fuel) [] rest enough good ends last = rw (last, read_others) refl
  read_others-print_others (suc fuel) (a ∷ more) rest enough (good, goods) ends last =
      rw
        (
          append_assoc,
          good (print_others show more ++ rest) (Ends-print_others more rest ends),
          read_others-print_others fuel more rest (omega arith) goods ends last,
        )
        refl

  others-length : (more : List A) → length more ≤ length (print_others show more)
  others-length [] = omega arith
  others-length (a ∷ more) =
      omega (arith, others-length more, length-append (show a) (print_others show more))

  abbrev pub AreItems : Items A → Type 0
  AreItems items = IsItem items.first × All IsItem items.others

  pub read_items-print_items :
      (items : Items A) (rest : Text)
      → AreItems items
      → Ends rest
      → strip (chars ", ") rest ≡ none
      → read_items reader (print_items show items ++ rest) ≡ some (items, rest)
  read_items-print_items items rest (good, goods) ends last =
      let enough : length items.others < suc (length (print_others show items.others ++ rest)) =
        omega (
          arith,
          others-length items.others,
          length-append (print_others show items.others) rest,
        ) in
      rw
        (
          append_assoc,
          good (print_others show items.others ++ rest) (Ends-print_others items.others rest ends),
          read_others-print_others _ items.others rest enough goods ends last,
        )
        refl
