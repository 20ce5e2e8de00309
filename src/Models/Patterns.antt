-- ===== src/Models/Patterns.antt =====
-- The constrained text types of models.py. A `$` stands for the end of the text.
use locus_mesh.Base.{
  ℕ, String, Bool, false, ◌&&◌, ◌||◌, List, [], ◌∷◌, ◌++◌, ◌==◌, nat_eq, codes, between, all,
  length, leb, is_empty, if◌then◌else◌,
}
use locus_mesh.Fail.{Result, ok, err, validation_error}

-- len(text), in code points
abbrev pub len : String → ℕ
len s = length (codes s)

abbrev is_lower : ℕ → Bool
is_lower c = between b'a' b'z' c

abbrev is_upper : ℕ → Bool
is_upper c = between b'A' b'Z' c

abbrev is_digit : ℕ → Bool
is_digit c = between b'0' b'9' c

abbrev pub is_alphanumeric : ℕ → Bool
is_alphanumeric c = is_lower c || is_upper c || is_digit c

abbrev pub is_hex : ℕ → Bool
is_hex c = is_digit c || between b'a' b'f' c

-- [0-9a-f]{64}
unfoldable pub is_hex64 : List ℕ → Bool
is_hex64 cs = length cs == 64 && all is_hex cs

-- the rest of the text after a fixed prefix satisfies the test
unfoldable pub after_prefix : List ℕ → (List ℕ → Bool) → List ℕ → Bool
after_prefix [] test cs = test cs
after_prefix (p ∷ ps) test [] = false
after_prefix (p ∷ ps) test (c ∷ cs) = p == c && after_prefix ps test cs

unfoldable pub is_digest : String → Bool
unfolding is_hex64 after_prefix
is_digest s = after_prefix (codes "sha256:") is_hex64 (codes s)

unfoldable pub is_commitment : String → Bool
unfolding is_hex64 after_prefix
is_commitment s = after_prefix (codes "hmac-sha256:") is_hex64 (codes s)

unfoldable pub is_key_id : String → Bool
unfolding is_hex64 after_prefix
is_key_id s = after_prefix (codes "ed25519:sha256:") is_hex64 (codes s)

-- one first character and at most `most` further ones
headed : (ℕ → Bool) → (ℕ → Bool) → ℕ → List ℕ → Bool
headed first rest most [] = false
headed first rest most (c ∷ cs) = first c && all rest cs && leb (length cs) most

unfoldable pub is_peer_id : String → Bool
unfolding headed
is_peer_id s =
    headed is_alphanumeric
      (λ c. is_alphanumeric c || c == b'.' || c == b'_' || c == b':' || c == b'-') 127 (codes s)

unfoldable pub is_provider_id : String → Bool
unfolding headed
is_provider_id s = headed is_lower (λ c. is_lower c || is_digit c || c == b'_') 63 (codes s)

unfoldable pub is_state_label : String → Bool
unfolding headed
is_state_label s =
    headed is_lower (λ c. is_lower c || is_digit c || c == b'_' || c == b'-') 63 (codes s)

unfoldable pub is_reason_code : String → Bool
unfolding headed
is_reason_code s = headed is_upper (λ c. is_upper c || is_digit c || c == b'_') 127 (codes s)

abbrev pub bounded : ℕ → ℕ → String → Bool
bounded lo hi s = between lo hi (len s)

abbrev pub is_request_id : String → Bool
is_request_id s = bounded 1 128 s

abbrev pub is_model_id : String → Bool
is_model_id s = bounded 1 512 s

unfoldable pub is_nonce : String → Bool
is_nonce s =
    bounded 16 128 s
    && all (λ c. is_alphanumeric c || c == b'.' || c == b'_' || c == b'~' || c == b'-') (codes s)

-- [A-Za-z0-9_-]+ of a fixed length: a public key or a signature
unfoldable pub is_base64url : ℕ → String → Bool
is_base64url n s = len s == n && all (λ c. is_alphanumeric c || c == b'_' || c == b'-') (codes s)

-- The errors of a contract: those of its fields, or of its own validator where no field fails.
abbrev pub after_fields : List String → List String → List String
after_fields fields own = if is_empty fields then own else fields

-- A validator raises at its first failing test.
unfoldable pub first_error : List (Bool × String) → List String
first_error [] = []
first_error ((failed, message) ∷ tests) = if failed then message ∷ [] else first_error tests

-- `Model(...)` and `Model.model_validate(...)`: the value, or a ValidationError.
unfoldable pub validated {ℓ} : {A : Type ℓ} → (A → List String) → A → Result A
validated errors x = if is_empty (errors x) then ok x else err (validation_error (errors x))

unfoldable pub flat_errors {ℓ} : {A : Type ℓ} → (A → List String) → List A → List String
flat_errors errors [] = []
flat_errors errors (x ∷ xs) = errors x ++ flat_errors errors xs
