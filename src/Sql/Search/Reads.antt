-- ===== src/Sql/Search/Reads.antt =====
-- The reader of a search takes what is printed back to what it was printed from.
use mathlib.Core.List.{◌++◌, append_assoc, append-nil}
use soap_sqlx.Prelude.{
  ◌≤◌, Bool, true, false, [], Option, none, some, ◌≡◌, refl, arith, length, length-append,
}
use soap_sqlx.Sql.{Hole, Sql, print_hole, print}
use soap_sqlx.Sql.Chars.{Text, chars, strip, strip-append}
use soap_sqlx.Sql.Reader.{Read, read_hole, read}
use soap_sqlx.Sql.Reads.{IsReadable, read-print}
use soap_sqlx.Sql.Sizes.{size, size-length}
use soap_sqlx.Sql.Reads.Holes.{Ends, IsCast, read_hole-print_hole}
use soap_sqlx.Sql.Search.Keys.{IsOrder, read_order-print_order}
use soap_sqlx.Sql.Search.{
  Order, Search, print_order, lead, print_clause, still, where_word, order_word, limit_word,
  offset_word, print_offset, print_limit, print_ordered, print_search, read_order, read_clause,
  read_search,
}

-- A clause is read if it is present and its content is, or if it is absent and its keyword is too.
abbrev Clause : {A : Type 0} → Bool → Text → (Text → Read A) → (A → Text) → Text → Option A → Type 0
Clause first keyword reader show rest none = strip (lead first keyword) rest ≡ none
Clause first keyword reader show rest (some a) = reader (show a ++ rest) ≡ some (a, rest)

read_clause-print_clause :
    {A : Type 0} (first : Bool) (keyword : Text) (reader : Text → Read A) (show : A → Text)
    (rest : Text) (a : Option A)
    → Clause first keyword reader show rest a
    → read_clause first keyword reader (print_clause first keyword show a ++ rest) ≡ some (a, rest)
read_clause-print_clause first keyword reader show rest none absent = rw absent refl
read_clause-print_clause first keyword reader show rest (some a) present =
    rw (append_assoc, strip-append, present) refl

-- What follows a clause does not run into it.
Ends-offset : (f : Option Hole) → Ends (print_offset false f)
Ends-offset none = tt
Ends-offset (some h) = omega arith

Ends-limit : (l f : Option Hole) → Ends (print_limit false l f)
Ends-limit none f = Ends-offset f
Ends-limit (some h) f = omega arith

Ends-ordered : (o : Option Order) (l f : Option Hole) → Ends (print_ordered false o l f)
Ends-ordered none l f = Ends-limit l f
Ends-ordered (some o) l f = omega arith

no_comma : (l f : Option Hole) → strip (chars ", ") (print_limit false l f) ≡ none
no_comma none none = refl
no_comma none (some f) = refl
no_comma (some l) f = refl

no_where :
    (o : Option Order) (l f : Option Hole) → strip where_word (print_ordered true o l f) ≡ none
no_where none none none = refl
no_where none none (some f) = refl
no_where none (some l) f = refl
no_where (some o) l f = refl

no_order :
    (first : Bool) (l f : Option Hole)
    → strip (lead first order_word) (print_limit first l f) ≡ none
no_order true none none = refl
no_order true none (some f) = refl
no_order true (some l) f = refl
no_order false none none = refl
no_order false none (some f) = refl
no_order false (some l) f = refl

no_limit :
    (first : Bool) (f : Option Hole) → strip (lead first limit_word) (print_offset first f) ≡ none
no_limit true none = refl
no_limit true (some f) = refl
no_limit false none = refl
no_limit false (some f) = refl

no_offset : (first : Bool) → strip (lead first offset_word) [] ≡ none
no_offset true = refl
no_offset false = refl

abbrev pub IsLimit : Option Hole → Type 0
IsLimit none = Unit
IsLimit (some h) = IsCast h.cast

abbrev pub IsCondition : Option Sql → Type 0
IsCondition none = Unit
IsCondition (some e) = IsReadable e

abbrev pub IsSorted : Option Order → Type 0
IsSorted none = Unit
IsSorted (some o) = IsOrder o

where_read :
    (c : Option Sql) (o : Option Order) (l f : Option Hole)
    → IsCondition c
    → Clause true where_word (λ s. read (length s) s) print (print_ordered (still true c) o l f) c
where_read none o l f good = no_where o l f
where_read (some e) o l f good =
    let rest = print_ordered false o l f in
    let enough : size e ≤ length (print e ++ rest) =
      omega (arith, size-length e, length-append (print e) rest) in
    read-print (length (print e ++ rest)) e rest enough good (Ends-ordered o l f)

order_read :
    (first : Bool) (o : Option Order) (l f : Option Hole)
    → IsSorted o
    → Clause first order_word read_order print_order (print_limit (still first o) l f) o
order_read first none l f good = no_order first l f
order_read first (some o) l f good =
    read_order-print_order o (print_limit false l f) good (no_comma l f)

limit_read :
    (first : Bool) (l f : Option Hole)
    → IsLimit l
    → Clause first limit_word read_hole print_hole (print_offset (still first l) f) l
limit_read first none f good = no_limit first f
limit_read first (some h) f good =
    read_hole-print_hole h (print_offset false f) good (Ends-offset f)

offset_read :
    (first : Bool) (f : Option Hole)
    → IsLimit f
    → Clause first offset_word read_hole print_hole [] f
offset_read first none good = no_offset first
offset_read first (some h) good = read_hole-print_hole h [] good tt

read_offset :
    (first : Bool) (f : Option Hole)
    → IsLimit f
    → read_clause first offset_word read_hole (print_offset first f) ≡ some (f, [])
read_offset first f good = rw append-nil at (
    read_clause-print_clause first offset_word read_hole print_hole [] f (offset_read first f good))

pub read_search-print_search :
    (s : Search)
    → IsCondition s.condition
    → IsSorted s.order
    → IsLimit s.limit
    → IsLimit s.offset
    → read_search (print_search s) ≡ some s
read_search-print_search s good_c good_o good_l good_f =
    let first = still true s.condition in
    let second = still first s.order in
    rw
      (
        read_clause-print_clause true where_word (λ s. read (length s) s) print _ s.condition
            (where_read s.condition s.order s.limit s.offset good_c),
        read_clause-print_clause first order_word read_order print_order _ s.order
            (order_read first s.order s.limit s.offset good_o),
        read_clause-print_clause second limit_word read_hole print_hole _ s.limit
            (limit_read second s.limit s.offset good_l),
        read_offset (still second s.limit) s.offset good_f,
      )
      refl
