-- ===== src/Base64.antt =====
-- crypto.py: `encode_base64url` and `decode_base64url`. Bytes are numbers below 256.
pub mod RoundTrip
pub mod Shape
use Prim.Native.Char.{Char, code}
use mathlib.Core.List.{map}
use locus_mesh.Base.{
  ℕ, ◌+◌, ◌*◌, ◌/◌, ◌%◌, String, Bool, Option, none, some, List, [], ◌∷◌, ◌||◌, codes, nth,
  index_of, text_of, length, contains, ◌==◌, ◌!=◌, nat_eq, string_eq, if◌then◌else◌,
}
use locus_mesh.Fail.{Exn, value_error, Result, ok, err, ◌>>=◌, ◌>>◌, raise_if}

abbrev pub url_alphabet : String
url_alphabet = "ABCDEFGHIJKLMNOPQRSTUVWXYZabcdefghijklmnopqrstuvwxyz0123456789-_"

abbrev std_alphabet : String
std_alphabet = "ABCDEFGHIJKLMNOPQRSTUVWXYZabcdefghijklmnopqrstuvwxyz0123456789+/"

-- urlsafe_b64encode(raw).rstrip(b"="), as six-bit groups and then as text
pub sextets : List ℕ → List ℕ
sextets [] = []
sextets (x ∷ []) = (x / 4) ∷ (x % 4 * 16) ∷ []
sextets (x ∷ y ∷ []) = (x / 4) ∷ (x % 4 * 16 + y / 16) ∷ (y % 16 * 4) ∷ []
sextets (x ∷ y ∷ z ∷ rest) =
    (x / 4) ∷ (x % 4 * 16 + y / 16) ∷ (y % 16 * 4 + z / 64) ∷ (z % 64) ∷ sextets rest

unfoldable pub encode_base64url : List ℕ → String
unfolding sextets
encode_base64url raw = text_of (map (λ s. nth url_alphabet s) (sextets raw))

-- altchars=b"-_": these two are translated, and the standard ones stay valid
translate : ℕ → ℕ
translate c = if c == b'-' then b'+' else if c == b'_' then b'/' else c

pub sextet : ℕ → Option ℕ
unfolding translate
sextet c = index_of std_alphabet (translate c)

pub sextets_of : List ℕ → Option (List ℕ)
unfolding sextet
sextets_of [] = some []
sextets_of (c ∷ cs) = elim (sextet c) [
  | none ↦ none
  | some s ↦ elim (sextets_of cs) [ none ↦ none | some rest ↦ some (s ∷ rest) ]
]

-- The bytes of the groups once the padding is completed; a single group left over is an error,
-- and the bits below the last byte are dropped.
pub bytes_of : List ℕ → Option (List ℕ)
bytes_of [] = some []
bytes_of (a ∷ []) = none
bytes_of (a ∷ b ∷ []) = some ((a * 4 + b / 16) ∷ [])
bytes_of (a ∷ b ∷ c ∷ []) = some ((a * 4 + b / 16) ∷ (b % 16 * 16 + c / 4) ∷ [])
bytes_of (a ∷ b ∷ c ∷ d ∷ rest) = elim (bytes_of rest) [
  | none ↦ none
  | some tail ↦ some ((a * 4 + b / 16) ∷ (b % 16 * 16 + c / 4) ∷ (c % 4 * 64 + d) ∷ tail)
]

-- base64.b64decode(value + "=" * (-len(value) % 4), altchars=b"-_", validate=True), for a value
-- without "=": any other character outside the alphabet is refused
pub b64decode : String → Option (List ℕ)
unfolding sextets_of bytes_of
b64decode value = elim (sextets_of (codes value)) [ none ↦ none | some groups ↦ bytes_of groups ]

or_invalid : Option (List ℕ) → Result (List ℕ)
or_invalid none = err (value_error "invalid base64url value")
or_invalid (some raw) = ok raw

unfoldable pub decode_base64url : String → ℕ → Result (List ℕ)
unfolding b64decode or_invalid encode_base64url contains
decode_base64url value expected_length = do
  raise_if (contains (codes value) b'=') (value_error "base64url padding is not allowed")
  raw ← or_invalid (b64decode value)
  raise_if (length raw != expected_length || encode_base64url raw != value)
      (value_error "non-canonical or incorrectly sized base64url value")
  ok raw
