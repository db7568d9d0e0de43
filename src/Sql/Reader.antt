-- ===== src/Sql/Reader.antt =====
-- A reader of the grammar: what PostgreSQL takes a condition's text for.
use soap_sqlx.Prelude.{ℕ, zero, suc, List, [], ◌∷◌, Option, none, some}
use soap_sqlx.Portable.{LogicalOperator, logical_and, logical_or}
use soap_sqlx.Sql.{
  Form, plain, as_numeric, collated, Column, Hole, Comparator, equal, unequal, greater, at_least,
  less, at_most, Test, null, not_null, compares, resembles, among, not_among, Sql, Sqls, falsity,
  test, single, several, nil, cons, between,
}
use soap_sqlx.Sql.Chars.{Text, chars, strip, span, is_digit, is_lower, is_word, number_from}

-- What is read off the front of a text, and the rest.
abbrev pub Read : Type 0 → Type 0
Read A = Option (A × Text)

abbrev pub and_then : {A B : Type 0} → Read A → (A → Text → Option B) → Option B
and_then none f = none
and_then (some (a, s)) f = f a s

abbrev pub expect : {B : Type 0} → Option Text → (Text → Read B) → Read B
expect none f = none
expect (some s) f = f s

-- The first reading if the text begins as it should, or else the second.
abbrev pub if_stripped : {B : Type 0} → Option Text → (Text → Read B) → Read B → Read B
if_stripped none f other = other
if_stripped (some s) f other = f s

abbrev pub read_cast : ℕ → Text → Read Hole
read_cast n s =
    if_stripped (strip (chars "::") s)
      (λ s. some (record { number = n; cast = some (span is_lower s).0 }, (span is_lower s).1))
      (some (record { number = n; cast = none }, s))

abbrev pub read_hole : Text → Read Hole
read_hole s =
    expect (strip (chars "$") s)
      (λ s. read_cast (number_from 0 (span is_digit s).0) (span is_digit s).1)

abbrev pub read_more_holes : ℕ → Text → Read (List Hole)
read_more_holes zero s = none
read_more_holes (suc fuel) s =
    if_stripped (strip (chars ")") s) (λ s. some ([], s))
      (expect (strip (chars ", ") s) (λ s.
        and_then (read_hole s)
          (λ h s. and_then (read_more_holes fuel s) (λ hs s. some (h ∷ hs, s)))))

abbrev pub read_form : Text → Form × Text
read_form s = elim (strip (chars "::numeric") s) [
  | some s' ↦ (as_numeric, s')
  | none ↦ elim (strip (chars " COLLATE \"C\"") s) [ some s' ↦ (collated, s') | none ↦ (plain, s) ]
]

abbrev pub read_column : Text → Read Column
read_column s = expect (strip (chars "\"") s) (λ s.
    expect (strip (chars "\"") (span is_word s).1) (λ s'.
      some (record { name = (span is_word s).0; form = (read_form s').0 }, (read_form s').1)))

abbrev pub read_comparison : Comparator → Text → Read Test
read_comparison c s = and_then (read_hole s) (λ h s. some (compares c h, s))

abbrev pub read_set : ℕ → (Hole → List Hole → Test) → Text → Read Test
read_set fuel set s =
    and_then (read_hole s) (λ h s. and_then (read_more_holes fuel s) (λ hs s. some (set h hs, s)))

abbrev pub read_like : Text → Read Test
read_like s =
    and_then (read_hole s)
      (λ h s. expect (strip (chars " ESCAPE ''") s) (λ s. some (resembles h, s)))

abbrev pub read_test : ℕ → Text → Read Test
read_test fuel s =
    if_stripped (strip (chars " IS NULL") s) (λ s. some (null, s))
      (if_stripped (strip (chars " IS NOT NULL") s) (λ s. some (not_null, s))
        (if_stripped (strip (chars " IN (") s) (read_set fuel among) (
          if_stripped (strip (chars " NOT IN (") s) (read_set fuel not_among) (
            if_stripped (strip (chars " LIKE ") s) read_like (
              if_stripped (strip (chars " = ") s) (read_comparison equal) (
                if_stripped (strip (chars " <> ") s) (read_comparison unequal) (
                  if_stripped (strip (chars " >= ") s) (read_comparison at_least) (
                    if_stripped (strip (chars " > ") s) (read_comparison greater) (
                      if_stripped (strip (chars " <= ") s) (read_comparison at_most)
                        (expect (strip (chars " < ") s) (read_comparison less)))))))))))

abbrev pub read_between : Text → Read LogicalOperator
read_between s =
    if_stripped (strip (chars " AND ") s) (λ s. some (logical_and, s))
      (expect (strip (chars " OR ") s) (λ s. some (logical_or, s)))

abbrev pub read_item : ℕ → Text → Read Sql
read_item fuel s =
    if_stripped (strip (chars "FALSE") s) (λ s. some (falsity, s))
      (and_then (read_column s) (λ c s. and_then (read_test fuel s) (λ t s. some (test c t, s))))

unfoldable mutual
  pub read : ℕ → Text → Read Sql
  read zero s = none
  read (suc fuel) s =
      if_stripped (strip (chars "(") s) (λ s. and_then (read fuel s) (read_after fuel))
        (read_item fuel s)

  -- After the first item of a junction.
  pub read_after : ℕ → Sql → Text → Read Sql
  read_after zero a s = none
  read_after (suc fuel) a s =
      if_stripped (strip (chars ")") s) (λ s. some (single a, s))
        (and_then (read_between s) (λ op s.
          and_then (read fuel s)
            (λ b s. and_then (read_more fuel op s) (λ cs s. some (several op a b cs, s)))))

  pub read_more : ℕ → LogicalOperator → Text → Read Sqls
  read_more zero op s = none
  read_more (suc fuel) op s =
      if_stripped (strip (chars ")") s) (λ s. some (nil, s))
        (expect (strip (between op) s) (λ s.
          and_then (read fuel s)
            (λ c s. and_then (read_more fuel op s) (λ cs s. some (cons c cs, s)))))
