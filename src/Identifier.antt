-- ===== src/Identifier.antt =====
-- src/postgres/identifier.rs: validated PostgreSQL identifiers.
pub mod Grammar
pub mod Quoting
use Prim.Native.String.{[], ◌∷◌, ◌++◌}
use soap_sqlx.Prelude.{
  ℕ, Char, code, String, Bool, true, false, ◌&&◌, ◌||◌, Result, ok, err, leb, ◌==◌, if◌then◌else◌,
}
use soap_sqlx.External.{External, SoapResult, validation}

pub record PgIdentifier : Type 0 where
  pub text : String

unfoldable pub is_ascii_alphabetic : ℕ → Bool
is_ascii_alphabetic c = (leb b'a' c && leb c b'z') || (leb b'A' c && leb c b'Z')

unfoldable pub is_ascii_alphanumeric : ℕ → Bool
unfolding is_ascii_alphabetic
is_ascii_alphanumeric c = is_ascii_alphabetic c || (leb b'0' c && leb c b'9')

-- `characters.all(…)`
all_tail : String → Bool
unfolding is_ascii_alphanumeric
all_tail [] = true
all_tail (c ∷ s) = (code c == b'_' || is_ascii_alphanumeric (code c)) && all_tail s

module _ (x : External) where
  unfoldable pub new : String → SoapResult x PgIdentifier
  unfolding is_ascii_alphabetic all_tail
  new [] = err (x.error validation "PostgreSQL identifier cannot be empty")
  new (first ∷ characters) =
      if (code first == b'_' || is_ascii_alphabetic (code first)) && all_tail characters
      then ok (record { text = first ∷ characters })
      else err
          (x.error validation ("invalid PostgreSQL identifier `" ++ ((first ∷ characters) ++ "`")))

abbrev pub as_str : PgIdentifier → String
as_str i = i.text

unfoldable pub quoted : PgIdentifier → String
quoted i = "\"" ++ (i.text ++ "\"")
