-- ===== src/Crypto/Shape.antt =====
-- The texts that the digests make have the shapes which models.py asks for.
use Prim.Native.Char.{code}
use locus_mesh.Base.{
  ℕ, ◌*◌, ◌/◌, ◌%◌, ◌<◌, ◌≤◌, String, ◌⧺◌, ◌≡◌, refl, ◌∙◌, Bool, true, List, [], ◌∷◌, ◌++◌, arith,
  ◌⊎◌, inl, inr, Bool-cases, All, length, all, codes, codes-append, all_below, all_below_sound, ltb,
}
use locus_mesh.Fail.{ok, err, value_error, bind-eq-ok, ok-injective}
use locus_mesh.Runtime.{Runtime, IsLawful, IsBytes}
use locus_mesh.Json.{Json, canonical_json_bytes}
use locus_mesh.Base64.{decode_base64url}
use locus_mesh.Models.Patterns.{is_hex, is_hex64, after_prefix, is_digest, is_commitment, is_key_id}
use locus_mesh.Crypto.{hex_char, hexdigest, sha256_digest, commit_request, derive_key_id}

hex_table : all_below 16 (λ n. is_hex (code (hex_char n))) ≡ true
unfolding all_below
hex_table = refl

is_hex-hex_char : (n : ℕ) → n < 16 → is_hex (code (hex_char n)) ≡ true
is_hex-hex_char n h = all_below_sound (λ k. is_hex (code (hex_char k))) 16 n h hex_table

all_hex-hexdigest : (bs : List ℕ) → All (λ b. b < 256) bs → all is_hex (codes (hexdigest bs)) ≡ true
unfolding hexdigest
all_hex-hexdigest [] h = refl
all_hex-hexdigest (b ∷ bs) h =
    rw (is_hex-hex_char (b / 16) (omega arith), is_hex-hex_char (b % 16) (omega arith))
      (all_hex-hexdigest bs h.1)

length-hexdigest : (bs : List ℕ) → length (codes (hexdigest bs)) ≡ 2 * length bs
unfolding hexdigest
length-hexdigest [] = refl
length-hexdigest (b ∷ bs) = omega (arith, length-hexdigest bs)

is_hex64-hexdigest : (bs : List ℕ) → IsBytes 32 bs → is_hex64 (codes (hexdigest bs)) ≡ true
unfolding is_hex64
is_hex64-hexdigest bs h = ground (arith, length-hexdigest bs, h.0, all_hex-hexdigest bs h.1)

after_prefix-append :
    (test : List ℕ → Bool) (ps cs : List ℕ) → after_prefix ps test (ps ++ cs) ≡ test cs
unfolding after_prefix
after_prefix-append test [] cs = refl
after_prefix-append test (p ∷ ps) cs = ground (arith, after_prefix-append test ps cs)

labelled :
    (label : String) (bs : List ℕ)
    → IsBytes 32 bs
    → after_prefix (codes label) is_hex64 (codes (label ⧺ hexdigest bs)) ≡ true
labelled label bs h =
    rw codes-append
      (after_prefix-append is_hex64 (codes label) (codes (hexdigest bs)) ∙ is_hex64-hexdigest bs h)

module _ (rt : Runtime) (lawful : IsLawful rt) where
  pub is_digest-sha256_digest : (value : Json) → is_digest (sha256_digest rt value) ≡ true
  unfolding is_digest sha256_digest
  is_digest-sha256_digest value =
      labelled "sha256:" (rt.sha256 (canonical_json_bytes value)) (lawful.sha256_size _)

  pub is_key_id-derive_key_id :
      (public_key : String) {key_id : String}
      → derive_key_id rt public_key ≡ ok key_id
      → is_key_id key_id ≡ true
  unfolding is_key_id derive_key_id
  is_key_id-derive_key_id public_key h =
      let (raw, decoded, made) = bind-eq-ok (decode_base64url public_key 32) _ h in
      rw (← ok-injective made) (labelled "ed25519:sha256:" (rt.sha256 raw) (lawful.sha256_size raw))

  -- With lawful primitives a key of 32 bytes or more commits to a value under a well-formed text, and
  -- a shorter key is refused.
  pub commit_request_lem :
      (value : Json) (key : List ℕ)
      → ((32 ≤ length key)
          × ((commitment : String) × (commit_request rt value key ≡ ok commitment)
              × (is_commitment commitment ≡ true)))
        ⊎ ((length key < 32)
            × (commit_request rt value key
                ≡ err (value_error "commitment key must contain at least 32 bytes")))
  unfolding is_commitment commit_request
  commit_request_lem value key = elim (Bool-cases (ltb (length key) 32)) [
    | inl short ↦ inr (ground arith, rw short refl)
    | inr long ↦
        let digest = rt.hmac_sha256 key (canonical_json_bytes value) in
        inl (
          ground arith,
          (
            "hmac-sha256:" ⧺ hexdigest digest,
            rw long refl,
            labelled "hmac-sha256:" digest (lawful.hmac_size key _),
          ),
        )
  ]
