-- ===== src/Base64/RoundTrip.antt =====
-- Encoding and decoding of base64url are inverse to each other.
use Prim.Native.Char.{code}
use locus_mesh.Base.{
  ℕ, ◌+◌, ◌*◌, ◌/◌, ◌%◌, ◌<◌, String, ◌≡◌, refl, ap, ◌∙◌, subst, true, false, not, ◌&&◌, ◌||◌,
  Option, some, List, [], ◌∷◌, map, arith, All, length, codes, nth, index_of, text_of, contains,
  all_below, all_below_sound, ◌==◌, ◌!=◌, string_eq, nat_eq, option_beq, option_beq_iff,
  Option-cases, inl, inr, ◌↔◌, eq_iff, nat_beq_iff,
}
use mathlib.Core.Option.{some-injective}
use locus_mesh.Runtime.{IsBytes}
use locus_mesh.Fail.{ok, bind-eq-ok, guard-eq-ok}
use locus_mesh.Base64.{
  url_alphabet, std_alphabet, translate, sextets, encode_base64url, sextet, sextets_of, bytes_of,
  b64decode, or_invalid, decode_base64url,
}

abbrev pub AllBytes : List ℕ → Type 0
AllBytes = All (λ b. b < 256)

abbrev pub IsSextets : List ℕ → Type 0
IsSextets = All (λ s. s < 64)

pub sextets-IsSextets : (raw : List ℕ) → AllBytes raw → IsSextets (sextets raw)
unfolding sextets
sextets-IsSextets [] h = tt
sextets-IsSextets (x ∷ []) h = omega arith
sextets-IsSextets (x ∷ y ∷ []) h = omega arith
sextets-IsSextets (x ∷ y ∷ z ∷ rest) h =
    (omega arith, (omega arith, (omega arith, (omega arith, sextets-IsSextets rest h.1.1.1))))

bytes_of-sextets : (raw : List ℕ) → AllBytes raw → bytes_of (sextets raw) ≡ some raw
unfolding sextets bytes_of
bytes_of-sextets [] h = refl
bytes_of-sextets (x ∷ []) h = ground arith
bytes_of-sextets (x ∷ y ∷ []) h = ground arith
bytes_of-sextets (x ∷ y ∷ z ∷ rest) h = rw (bytes_of-sextets rest h.1.1.1) (ground arith)

-- Each of the 64 characters is read back, and none is the padding.
alphabet_table :
    all_below 64
      (λ s. let c = code (nth url_alphabet s) in option_beq (sextet c) (some s) && not (c == b'='))
    ≡ true
unfolding all_below sextet
alphabet_table = refl

alphabet_at :
    (s : ℕ)
    → s < 64
    → (sextet (code (nth url_alphabet s)) ≡ some s) × ((code (nth url_alphabet s) == b'=') ≡ false)
alphabet_at s h =
    let both = all_below_sound _ 64 s h alphabet_table in
    ((option_beq_iff _ _).0 (ground arith), ground arith)

sextets_of-text_of :
    (ss : List ℕ)
    → IsSextets ss
    → sextets_of (codes (text_of (map (λ s. nth url_alphabet s) ss))) ≡ some ss
unfolding sextets_of
sextets_of-text_of [] h = refl
sextets_of-text_of (s ∷ ss) h = ground (arith, (alphabet_at s h.0).0, sextets_of-text_of ss h.1)

no_padding :
    (ss : List ℕ)
    → IsSextets ss
    → contains (codes (text_of (map (λ s. nth url_alphabet s) ss))) b'=' ≡ false
unfolding contains
no_padding [] h = refl
no_padding (s ∷ ss) h = rw ((alphabet_at s h.0).1) (no_padding ss h.1)

b64decode-encode : (raw : List ℕ) → AllBytes raw → b64decode (encode_base64url raw) ≡ some raw
unfolding b64decode encode_base64url
b64decode-encode raw h =
    ground
      (arith, sextets_of-text_of (sextets raw) (sextets-IsSextets raw h), bytes_of-sextets raw h)

unpadded : (raw : List ℕ) → AllBytes raw → contains (codes (encode_base64url raw)) b'=' ≡ false
unfolding encode_base64url
unpadded raw h = no_padding (sextets raw) (sextets-IsSextets raw h)

or_invalid-eq-ok : (o : Option (List ℕ)) {raw : List ℕ} → or_invalid o ≡ ok raw → o ≡ some raw
unfolding or_invalid
or_invalid-eq-ok o h = ground arith

-- What the guards of `decode_base64url` let through, and what passes them.
module _ (text : String) (raw : List ℕ) (n : ℕ) where
  unfold_decode :
      contains (codes text) b'=' ≡ false
      → b64decode text ≡ some raw
      → (length raw == n) ≡ true
      → (encode_base64url raw == text) ≡ true
      → decode_base64url text n ≡ ok raw
  unfolding decode_base64url
  unfold_decode plain decoded size same = ground arith

  decoded_by :
      decode_base64url text n ≡ ok raw
      → (b64decode text ≡ some raw) × (length raw ≡ n) × (encode_base64url raw ≡ text)
  unfolding decode_base64url
  decoded_by h =
      let (plain, rest) = guard-eq-ok (contains (codes text) b'=') _ _ h in
      let (raw', decoded, checked) = bind-eq-ok (or_invalid (b64decode text)) _ rest in
      let found : b64decode text ≡ some raw' = or_invalid-eq-ok (b64decode text) decoded in
      let (right, same) =
        guard-eq-ok (length raw' != n || encode_base64url raw' != text) _ _ checked in
      let e : raw' ≡ raw = cc in
      (
        found ∙ ap some e,
        subst (λ r. length r ≡ n) e (ground (arith, nat_beq_iff (length raw') n)),
        subst (λ r. encode_base64url r ≡ text) e
            (ground (arith, eq_iff (encode_base64url raw') text)),
      )

decode-encode :
    (raw : List ℕ) → AllBytes raw → decode_base64url (encode_base64url raw) (length raw) ≡ ok raw
decode-encode raw h =
    let decoded = b64decode-encode raw h in
    let plain = unpadded raw h in
    let size = (nat_beq_iff (length raw) (length raw)).1 refl in
    let same = (eq_iff (encode_base64url raw) (encode_base64url raw)).1 refl in
    unfold_decode (encode_base64url raw) raw (length raw) plain decoded size same

index_of-lt : (s : String) (c : ℕ) {i : ℕ} → index_of s c ≡ some i → i < length (codes s)
index_of-lt String.[] c h = cc
index_of-lt (String.◌∷◌ d s) c h = elim (Option-cases (index_of s c)) [
  | inl missing ↦ ground arith
  | inr (j, found) ↦ ground (arith, index_of-lt s c found)
]

sextet-lt : (c : ℕ) {s : ℕ} → sextet c ≡ some s → s < 64
unfolding sextet
sextet-lt c h = index_of-lt std_alphabet (translate c) h

sextets_of-IsSextets : (cs : List ℕ) {ss : List ℕ} → sextets_of cs ≡ some ss → IsSextets ss
unfolding sextets_of
sextets_of-IsSextets [] h = subst IsSextets (some-injective _ _ h) tt
sextets_of-IsSextets (c ∷ cs) {ss} h = elim (Option-cases (sextet c)) [
  | inl bad ↦ ground arith
  | inr (s, good) ↦ elim (Option-cases (sextets_of cs)) [
    | inl bad ↦ ground arith
    | inr (rest, read) ↦
        let e : s ∷ rest ≡ ss = ground arith in
        subst IsSextets e (sextet-lt c good, sextets_of-IsSextets cs read)
  ]
]

bytes_of-All : (ss : List ℕ) {raw : List ℕ} → IsSextets ss → bytes_of ss ≡ some raw → AllBytes raw
unfolding bytes_of
bytes_of-All [] g h = subst AllBytes (some-injective _ _ h) tt
bytes_of-All (a ∷ []) g h = cc
bytes_of-All (a ∷ b ∷ []) g h = subst AllBytes (some-injective _ _ h) (omega arith)
bytes_of-All (a ∷ b ∷ c ∷ []) g h = subst AllBytes (some-injective _ _ h) (omega arith)
bytes_of-All (a ∷ b ∷ c ∷ d ∷ rest) {raw} g h = elim (Option-cases (bytes_of rest)) [
  | inl bad ↦ ground arith
  | inr (tail, read) ↦
      let e : (a * 4 + b / 16) ∷ (b % 16 * 16 + c / 4) ∷ (c % 4 * 64 + d) ∷ tail ≡ raw =
        ground arith in
      subst AllBytes e (omega arith, (omega arith, (omega arith, bytes_of-All rest g.1.1.1.1 read)))
]

b64decode-All : (text : String) {raw : List ℕ} → b64decode text ≡ some raw → AllBytes raw
unfolding b64decode
b64decode-All text h = elim (Option-cases (sextets_of (codes text))) [
  | inl bad ↦ ground arith
  | inr (ss, read) ↦ bytes_of-All ss (sextets_of-IsSextets (codes text) read) (ground arith)
]

decoded_is :
    (text : String) (n : ℕ) (raw : List ℕ)
    → decode_base64url text n ≡ ok raw
    → (encode_base64url raw ≡ text) × IsBytes n raw
decoded_is text n raw h =
    let (decoded, size, same) = decoded_by text raw n h in
    (same, (size, b64decode-All text decoded))

-- A text decodes to a value exactly if it is the encoding of these bytes and their number is the
-- expected one: no second text is accepted for the same bytes.
pub decode-eq-ok_iff :
    (text : String) (n : ℕ) (raw : List ℕ)
    → (decode_base64url text n ≡ ok raw) ↔ ((encode_base64url raw ≡ text) × IsBytes n raw)
decode-eq-ok_iff text n raw =
    (decoded_is text n raw, λ (same, (size, bytes)). rw (← same, ← size) (decode-encode raw bytes))
