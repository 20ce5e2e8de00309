-- ===== src/Base64/Shape.antt =====
-- The alphabet and the length of an encoded text.
use Prim.Native.Char.{code}
use locus_mesh.Base.{
  ℕ, ◌+◌, ◌*◌, ◌/◌, ◌<◌, ◌≡◌, refl, Bool, true, ◌||◌, List, [], ◌∷◌, map, arith, All, length, codes,
  nth, text_of, all, all_below, all_below_sound, ◌==◌, nat_eq, nat_beq_iff,
}
use locus_mesh.Runtime.{IsBytes}
use locus_mesh.Models.Patterns.{is_alphanumeric, is_base64url}
use locus_mesh.Base64.{url_alphabet, sextets, encode_base64url}
use locus_mesh.Base64.RoundTrip.{sextets-IsSextets}

length-sextets : (raw : List ℕ) → length (sextets raw) ≡ (length raw * 4 + 2) / 3
unfolding sextets
length-sextets [] = refl
length-sextets (x ∷ []) = refl
length-sextets (x ∷ y ∷ []) = refl
length-sextets (x ∷ y ∷ z ∷ rest) = omega (arith, length-sextets rest)

length-alphabet :
    (ss : List ℕ) → length (codes (text_of (map (λ s. nth url_alphabet s) ss))) ≡ length ss
length-alphabet [] = refl
length-alphabet (s ∷ ss) = omega (arith, length-alphabet ss)

abbrev is_url_sign : ℕ → Bool
is_url_sign c = is_alphanumeric c || c == b'_' || c == b'-'

alphabet_table : all_below 64 (λ s. is_url_sign (code (nth url_alphabet s))) ≡ true
unfolding all_below
alphabet_table = refl

all_alphabet :
    (ss : List ℕ)
    → All (λ s. s < 64) ss
    → all is_url_sign (codes (text_of (map (λ s. nth url_alphabet s) ss))) ≡ true
all_alphabet [] h = refl
all_alphabet (s ∷ ss) h =
    let here =
      all_below_sound (λ s. is_url_sign (code (nth url_alphabet s))) 64 s h.0 alphabet_table in
    rw (here, all_alphabet ss h.1) refl

pub is_base64url-encode_base64url :
    (size : ℕ) (raw : List ℕ)
    → IsBytes size raw
    → is_base64url ((size * 4 + 2) / 3) (encode_base64url raw) ≡ true
unfolding is_base64url encode_base64url
is_base64url-encode_base64url size raw h =
    let ss = sextets raw in
    let signs = all_alphabet ss (sextets-IsSextets raw h.1) in
    rw signs (
      ground (
        arith,
        nat_beq_iff (length (codes (text_of (map (λ s. nth url_alphabet s) ss))))
            ((size * 4 + 2) / 3),
        length-alphabet ss,
        length-sextets raw,
        h.0,
      ))
