-- ===== src/Runtime.antt =====
-- What the program takes from code outside src/: the digests of hashlib and hmac, the Ed25519
-- functions of the cryptography package, and the texts of a datetime.
use locus_mesh.Base.{ℕ, ◌<◌, String, ◌≡◌, Bool, Option, none, some, List, All, length, ltb, leb}

-- `instant` counts microseconds: of UTC for an aware value, of the wall clock for a naive one.
-- `tzinfo` is `none` where tzinfo is None, and `some none` where utcoffset() is None.
pub record DateTime : Type 0 where
  pub instant : ℕ
  pub tzinfo : Option (Option ℕ)

-- not (value.tzinfo is None or value.utcoffset() is None)
abbrev pub aware_zone : Option (Option ℕ) → Bool
aware_zone none = Bool.false
aware_zone (some none) = Bool.false
aware_zone (some (some _)) = Bool.true

abbrev pub is_aware : DateTime → Bool
is_aware t = aware_zone t.tzinfo

infix 50 ◌<?◌ ◌≤?◌
abbrev pub ◌<?◌ : DateTime → DateTime → Bool
a <? b = ltb a.instant b.instant

abbrev pub ◌≤?◌ : DateTime → DateTime → Bool
a ≤? b = leb a.instant b.instant

-- How `Ed25519PublicKey.from_public_bytes(key).verify(signature, payload)` ends.
pub data Verdict : Type 0 where
  genuine invalid_signature bad_value : Verdict

pub record Runtime : Type 0 where
  pub sha256 : List ℕ → List ℕ
  pub hmac_sha256 : List ℕ → List ℕ → List ℕ
  pub ed25519_public : List ℕ → List ℕ
  pub ed25519_sign : List ℕ → List ℕ → List ℕ
  -- the key, the signature and the payload
  pub ed25519_verify : List ℕ → List ℕ → List ℕ → Verdict
  -- datetime.isoformat, and the text that pydantic's JSON mode writes
  pub isoformat : DateTime → String
  pub json_datetime : DateTime → String

abbrev pub IsBytes : ℕ → List ℕ → Type 0
IsBytes n raw = (length raw ≡ n) × All (λ b. b < 256) raw

-- The documented sizes, and that a signature verifies under the key of its signer.
pub record IsLawful (rt : Runtime) : Type 0 where
  pub sha256_size : (m : List ℕ) → IsBytes 32 (rt.sha256 m)
  pub hmac_size : (k m : List ℕ) → IsBytes 32 (rt.hmac_sha256 k m)
  pub public_size : (k : List ℕ) → IsBytes 32 (rt.ed25519_public k)
  pub signature_size : (k m : List ℕ) → IsBytes 64 (rt.ed25519_sign k m)
  pub sign_verifies :
      (k m : List ℕ) → rt.ed25519_verify (rt.ed25519_public k) (rt.ed25519_sign k m) m ≡ genuine
