-- ===== src/Crypto.antt =====
-- crypto.py's key binding and verification, and canonical.py's digests.
pub mod Shape
pub mod Collision
use Prim.Native.Char.{Char}
use locus_mesh.Base.{
  ℕ, ◌+◌, ◌/◌, ◌%◌, String, Bool, true, false, List, [], ◌∷◌, ◌⧺◌, nth, length, ltb, if◌then◌else◌,
}
use locus_mesh.Fail.{Exn, value_error, Result, ok, err, ◌>>=◌, ◌>>◌, raise_if}
use locus_mesh.Runtime.{Runtime, Verdict, genuine, invalid_signature, bad_value}
use locus_mesh.Json.{Json, canonical_json_bytes}
use locus_mesh.Base64.{decode_base64url}

abbrev pub hex_char : ℕ → Char
hex_char n = nth "0123456789abcdef" n

pub hexdigest : List ℕ → String
hexdigest [] = String.[]
hexdigest (b ∷ bs) = String.◌∷◌ (hex_char (b / 16)) (String.◌∷◌ (hex_char (b % 16)) (hexdigest bs))

module _ (rt : Runtime) where
  unfoldable pub sha256_digest : Json → String
  unfolding hexdigest
  sha256_digest value = "sha256:" ⧺ hexdigest (rt.sha256 (canonical_json_bytes value))

  unfoldable pub commit_request : Json → List ℕ → Result String
  unfolding hexdigest
  commit_request value key = do
    raise_if (ltb (length key) 32) (value_error "commitment key must contain at least 32 bytes")
    ok ("hmac-sha256:" ⧺ hexdigest (rt.hmac_sha256 key (canonical_json_bytes value)))

  unfoldable pub derive_key_id : String → Result String
  unfolding hexdigest
  derive_key_id public_key = do
    raw ← decode_base64url public_key 32
    ok ("ed25519:sha256:" ⧺ hexdigest (rt.sha256 raw))

  is_genuine : Verdict → Bool
  is_genuine genuine = true
  is_genuine invalid_signature = false
  is_genuine bad_value = false

  verified : Result Verdict → Bool
  unfolding is_genuine
  verified (ok verdict) = is_genuine verdict
  verified (err e) = false

  unfoldable pub verify_ed25519 : String → List ℕ → String → Bool
  unfolding verified
  verify_ed25519 public_key payload signature = verified (do
    raw_key ← decode_base64url public_key 32
    raw_signature ← decode_base64url signature 64
    ok (rt.ed25519_verify raw_key raw_signature payload))
