-- ===== src/Identifier/Quoting.antt =====
-- A quoted identifier against PostgreSQL's lexical rule for quoted identifiers.
use Prim.Native.String.{[], ◌∷◌, ◌++◌}
use text.Mathlib.TextLemmas.{nil-append, cons-append, append_assoc}
use mathlib.Core.Option
use soap_sqlx.Prelude.{
  ◌≡◌, ◌≢◌, Char, code, String, Option, none, some, ◌==◌, if◌then◌else◌, ok, arith, refl,
}
use soap_sqlx.External.{External}
use soap_sqlx.Identifier.{PgIdentifier, new, quoted}
use soap_sqlx.Identifier.Grammar.{IsIdentifier, AllWord, new_iff}

abbrev keep : Char → String × String → String × String
keep c (name, rest) = (c ∷ name, rest)

-- The body of a quoted identifier, after its opening quote: `""` stands for one quote, a single
-- quote ends the name. `none` is an unterminated name.
pub read_body : String → Option (String × String)
read_body [] = none
read_body (c ∷ []) = if code c == b'"' then some ("", "") else none
read_body (c ∷ d ∷ s) =
    let doubled = Option.map (keep c) (read_body s) in
    let plain = Option.map (keep c) (read_body (d ∷ s)) in
    if code c == b'"' then (if code d == b'"' then doubled else some ("", d ∷ s)) else plain

-- A quoted identifier at the front of a text, with what follows it.
pub read_quoted : String → Option (String × String)
unfolding read_body
read_quoted [] = none
read_quoted (c ∷ s) = if code c == b'"' then read_body s else none

abbrev pub NoQuoteNext : String → Type 0
NoQuoteNext [] = Unit
NoQuoteNext (c ∷ s) = code c ≢ b'"'

read_body-close : (rest : String) → NoQuoteNext rest → read_body ("\"" ++ rest) ≡ some ("", rest)
unfolding read_body
read_body-close [] h = refl
read_body-close (c ∷ s) h = rw (cons-append, nil-append, read_body) (ground arith)

read_body-plain :
    (c : Char) (s : String) → code c ≢ b'"' → read_body (c ∷ s) ≡ Option.map (keep c) (read_body s)
unfolding read_body
read_body-plain c [] h = ground arith
read_body-plain c (d ∷ s) h = ground arith

read_body-word :
    (s rest : String)
    → AllWord s
    → NoQuoteNext rest
    → read_body (s ++ ("\"" ++ rest)) ≡ some (s, rest)
read_body-word [] rest h k = rw nil-append (read_body-close rest k)
read_body-word (c ∷ s) rest h k =
    rw (cons-append, read_body-plain c _ (omega arith), read_body-word s rest h.1 k)

quoted-eq : (s rest : String) → quoted (record { text = s }) ++ rest ≡ "\"" ++ (s ++ ("\"" ++ rest))
unfolding quoted
quoted-eq s rest = rw (append_assoc, append_assoc)

read_quoted-word :
    (s rest : String)
    → IsIdentifier s
    → NoQuoteNext rest
    → read_quoted ("\"" ++ (s ++ ("\"" ++ rest))) ≡ some (s, rest)
unfolding read_quoted
read_quoted-word [] rest h k = absurd h
read_quoted-word (c ∷ s) rest h k = rw (
  cons-append,
  nil-append,
  cons-append,
  read_body-plain c _ (omega arith),
  read_body-word s rest h.1 k,
)

-- What `PgIdentifier::new` accepted and `quoted` printed, PostgreSQL's rule for quoted identifiers
-- reads back: the name and all that follows, provided that no quote follows at once.
pub read_quoted-quoted :
    (x : External) (s rest : String) (i : PgIdentifier)
    → new x s ≡ ok i
    → NoQuoteNext rest
    → read_quoted (quoted i ++ rest) ≡ some (s, rest)
read_quoted-quoted x s rest i h k =
    let (valid, same) = (new_iff x s i).0 h in
    rw (← same) (rw (quoted-eq i.text rest) (read_quoted-word i.text rest (rw same valid) k))
