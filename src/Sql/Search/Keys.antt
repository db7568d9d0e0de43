-- ===== src/Sql/Search/Keys.antt =====
-- The reader on a printed order.
use mathlib.Core.List.{◌++◌, append_assoc}
use soap_sqlx.Prelude.{
  ℕ, zero, suc, ◌≤◌, ◌<◌, List, [], ◌∷◌, none, some, ◌≡◌, refl, All, arith, length, length-append,
}
use soap_sqlx.Portable.{SortDirection, ascending, descending}
use soap_sqlx.Sql.{Form, plain, as_numeric, collated, print_form}
use soap_sqlx.Sql.Chars.{Text, chars, strip}
use soap_sqlx.Sql.Reader.{read_form}
use soap_sqlx.Sql.Reads.Tests.{IsName, read_column-before}
use soap_sqlx.Sql.Search.{
  Key, Order, print_direction, print_key, print_keys, print_order, read_direction, read_key,
  read_keys, read_order,
}

read_form-direction :
    (f : Form) (d : SortDirection) (rest : Text)
    → read_form (print_form f ++ (print_direction d ++ rest)) ≡ (f, print_direction d ++ rest)
read_form-direction plain ascending rest = refl
read_form-direction plain descending rest = refl
read_form-direction as_numeric d rest = refl
read_form-direction collated d rest = refl

read_direction-print_direction :
    (d : SortDirection) (rest : Text) → read_direction (print_direction d ++ rest) ≡ some (d, rest)
read_direction-print_direction ascending rest = refl
read_direction-print_direction descending rest = refl

read_key-print_key :
    (k : Key) (rest : Text) → IsName k.column.name → read_key (print_key k ++ rest) ≡ some (k, rest)
read_key-print_key k rest named =
    rw
      (
        append_assoc,
        read_column-before k.column (print_direction k.direction ++ rest) named
            (read_form-direction k.column.form k.direction rest),
        read_direction-print_direction k.direction rest,
      )
      refl

read_keys-print_keys :
    (fuel : ℕ) (ks : List Key) (rest : Text)
    → length ks < fuel
    → All (λ k. IsName k.column.name) ks
    → strip (chars ", ") rest ≡ none
    → read_keys fuel (print_keys ks ++ rest) ≡ some (ks, rest)
read_keys-print_keys zero ks rest enough named ends = absurd (omega arith)
read_keys-print_keys (suc fuel) [] rest enough named ends = rw (ends, read_keys) refl
read_keys-print_keys (suc fuel) (k ∷ ks) rest enough (named, names) ends =
    rw
      (
        append_assoc,
        read_key-print_key k (print_keys ks ++ rest) named,
        read_keys-print_keys fuel ks rest (omega arith) names ends,
      )
      refl

keys-length : (ks : List Key) → length ks ≤ length (print_keys ks)
keys-length [] = omega arith
keys-length (k ∷ ks) = omega (arith, keys-length ks, length-append (print_key k) (print_keys ks))

abbrev pub IsOrder : Order → Type 0
IsOrder o = IsName o.first.column.name × All (λ k. IsName k.column.name) o.others

pub read_order-print_order :
    (o : Order) (rest : Text)
    → IsOrder o
    → strip (chars ", ") rest ≡ none
    → read_order (print_order o ++ rest) ≡ some (o, rest)
read_order-print_order o rest (named, names) ends =
    let enough : length o.others < suc (length (print_keys o.others ++ rest)) =
      omega (arith, keys-length o.others, length-append (print_keys o.others) rest) in
    rw
      (
        append_assoc,
        read_key-print_key o.first (print_keys o.others ++ rest) named,
        read_keys-print_keys (suc (length (print_keys o.others ++ rest))) o.others rest enough names
            ends,
      )
      refl
