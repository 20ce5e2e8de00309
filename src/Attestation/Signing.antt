-- ===== src/Attestation/Signing.antt =====
-- Signers whose signatures verify, as the local one does.
use locus_mesh.Base.{ℕ, String, ◌≡◌, refl, true, List, length, nat_eq}
use locus_mesh.Fail.{ok, bind-returns}
use locus_mesh.Runtime.{Runtime, IsLawful, IsBytes}
use locus_mesh.Base64.{encode_base64url, decode_base64url}
use locus_mesh.Base64.RoundTrip.{decode-eq-ok_iff}
use locus_mesh.Crypto.{derive_key_id, verify_ed25519}
use locus_mesh.Crypto.Shape.{is_key_id-derive_key_id}
use locus_mesh.Models.Patterns.{is_key_id}
use locus_mesh.Attestation.Build.{SignerProvider, from_private_bytes}

-- The key id is that of the public key, and every signature verifies under the public key.
pub record IsKeyPair (rt : Runtime) (signer : SignerProvider) : Type 0 where
  pub bound : derive_key_id rt signer.public_key ≡ ok signer.key_id
  pub shape : is_key_id signer.key_id ≡ true
  pub signs :
      (payload : List ℕ) → verify_ed25519 rt signer.public_key payload (signer.sign payload) ≡ true

decode-encode_base64url :
    (n : ℕ) (raw : List ℕ) → IsBytes n raw → decode_base64url (encode_base64url raw) n ≡ ok raw
decode-encode_base64url n raw h = (decode-eq-ok_iff (encode_base64url raw) n raw).1 (refl, h)

module _ (rt : Runtime) (lawful : IsLawful rt) where
  derive_key_id_returns :
      (raw : List ℕ)
      → IsBytes 32 raw
      → (key_id : String) × (derive_key_id rt (encode_base64url raw) ≡ ok key_id)
  unfolding derive_key_id
  derive_key_id_returns raw h = bind-returns _ _ (decode-encode_base64url 32 raw h) (_, refl)

  verify_ed25519-sign :
      (key payload : List ℕ)
      → verify_ed25519 rt
          (encode_base64url (rt.ed25519_public key))
          payload
          (encode_base64url (rt.ed25519_sign key payload))
        ≡ true
  unfolding verify_ed25519
  verify_ed25519-sign key payload =
      rw
        (
          decode-encode_base64url 32 (rt.ed25519_public key) (lawful.public_size key),
          decode-encode_base64url 64 (rt.ed25519_sign key payload)
              (lawful.signature_size key payload),
          lawful.sign_verifies key payload,
        )
        refl

  -- With lawful primitives `from_private_bytes` makes of 32 bytes a signer whose key id is well-formed
  -- and is the one of its public key, and whose every signature verifies under that key.
  pub from_private_bytes_lem :
      (value : List ℕ)
      → length value ≡ 32
      → (signer : SignerProvider) × (from_private_bytes rt value ≡ ok signer) × IsKeyPair rt signer
  unfolding from_private_bytes
  from_private_bytes_lem value size =
      let (key_id, derived) =
        derive_key_id_returns (rt.ed25519_public value) (lawful.public_size value) in
      (
        record {
          key_id = key_id;
          public_key = encode_base64url (rt.ed25519_public value);
          sign = λ payload. encode_base64url (rt.ed25519_sign value payload);
        },
        rw (size, derived) refl,
        record {
          bound = derived;
          shape = is_key_id-derive_key_id rt lawful _ derived;
          signs = verify_ed25519-sign value;
        },
      )
