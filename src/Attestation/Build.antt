-- ===== src/Attestation/Build.antt =====
-- `build_attestation` of attestation.py, and the signers of ports.py and adapters/local_signer.py.
use locus_mesh.Base.{
  ℕ, suc, String, Option, none, some, List, [], ◌∷◌, ◌==◌, ◌!=◌, nat_eq, string_eq, length,
  get_elem?, if◌then◌else◌,
}
use locus_mesh.Fail.{Result, ok, err, value_error, key_error, ◌>>=◌, ◌>>◌, raise_if}
use locus_mesh.Scope.{EvidenceLevel}
use locus_mesh.Runtime.{Runtime, DateTime}
use locus_mesh.Json.{canonical_json_bytes}
use locus_mesh.Base64.{encode_base64url}
use locus_mesh.Crypto.{sha256_digest, derive_key_id}
use locus_mesh.Models.Patterns.{validated}
use locus_mesh.Models.Topology.{PeerManifest, AdmissionPolicy}
use locus_mesh.Models.Route.{RoutePlan, HopReceipt, RouteAttestation, receipt_errors, built_errors}
use locus_mesh.Policy.Digest.{topology_digest, policy_digest, plan_json, signing_payload}
use locus_mesh.Policy.Admit.{peer_of}
use locus_mesh.Attestation.Verify.{previous_of, digest_of}

-- A signer shows its public values, and signs bytes.
pub record SignerProvider : Type 0 where
  pub key_id : String
  pub public_key : String
  pub sign : List ℕ → String

-- The first entry for a key, in a mapping with each key once.
unfoldable pub entry {ℓ} : {A : Type ℓ} → String → List (String × A) → Option A
entry key [] = none
entry key ((k, v) ∷ entries) = if k == key then some v else entry key entries

unfoldable pub required_entry {ℓ} : {A : Type ℓ} → String → Option A → Result A
required_entry key none = err (key_error key)
required_entry key (some v) = ok v

abbrev pub placeholder : String
placeholder =
    "AAAAAAAAAAAAAAAAAAAAAAAAAAAAAAAAAAAAAAAAAAAAAAAAAAAAAAAAAAAAAAAAAAAAAAAAAAAAAAAAAAAAAA"

-- The claimed evidence: that of the override, if there is one for the peer.
unfoldable pub claimed_evidence :
    Option (List (String × EvidenceLevel)) → String → EvidenceLevel → EvidenceLevel
unfolding entry
claimed_evidence none peer_id level = level
claimed_evidence (some levels) peer_id level = elim (entry peer_id levels) [
  | none ↦ level
  | some claimed ↦ claimed
]

module _ (rt : Runtime) where
  -- LocalEd25519Signer(private_key)
  unfoldable pub local_signer : List ℕ → Result SignerProvider
  local_signer private_key = do
    let public_key = encode_base64url (rt.ed25519_public private_key)
    key_id ← derive_key_id rt public_key
    ok (record {
      key_id = key_id;
      public_key = public_key;
      sign = λ payload. encode_base64url (rt.ed25519_sign private_key payload);
    })

  -- generate, with the key that Ed25519PrivateKey.generate() draws
  unfoldable pub generate : List ℕ → Result SignerProvider
  unfolding local_signer
  generate drawn = local_signer drawn

  -- from_private_bytes
  unfoldable pub from_private_bytes : List ℕ → Result SignerProvider
  unfolding local_signer
  from_private_bytes value = do
    raise_if (length value != 32) (value_error "Ed25519 private key must contain exactly 32 bytes")
    local_signer value

  module _ (plan : RoutePlan) (policy : AdmissionPolicy) (signers : List (String × SignerProvider))
      (observed_at : DateTime) (evidence_levels : Option (List (String × EvidenceLevel))) where
    unfoldable pub unsigned_receipt :
        ℕ → String → Option HopReceipt → SignerProvider → PeerManifest → HopReceipt
    unsigned_receipt index peer_id previous signer manifest = record {
      schema_version = "locusmesh.hop-receipt.v1";
      request_id = plan.request_id;
      nonce = plan.nonce;
      request_commitment = plan.request_commitment;
      route_plan_digest = sha256_digest rt (plan_json rt plan);
      policy_digest = policy_digest rt policy;
      topology_digest = topology_digest rt policy.topology;
      intent = plan.intent;
      hop_index = index;
      hop_count = length plan.hop_peer_ids;
      peer_id = peer_id;
      previous_peer_id = previous_of plan.hop_peer_ids index;
      next_peer_id = get_elem? plan.hop_peer_ids (suc index);
      previous_receipt_digest = digest_of rt previous;
      model_digest = plan.model_digest;
      runtime_digest = plan.runtime_digest;
      evidence_level = claimed_evidence evidence_levels peer_id manifest.evidence_level;
      observed_at = observed_at;
      key_id = signer.key_id;
      signature_algorithm = "ed25519";
      signature = placeholder;
    }

    -- unsigned.model_copy(update={"signature": signature})
    unfoldable pub signed_receipt : SignerProvider → HopReceipt → HopReceipt
    signed_receipt signer unsigned = record unsigned {
      signature = signer.sign (canonical_json_bytes (signing_payload rt unsigned));
    }

    unfoldable pub build_receipt : ℕ → String → Option HopReceipt → Result HopReceipt
    unfolding unsigned_receipt signed_receipt required_entry
    build_receipt index peer_id previous = do
      signer ← required_entry peer_id (entry peer_id signers)
      manifest ← required_entry peer_id (peer_of peer_id policy.topology.peers)
      unsigned ← validated receipt_errors (unsigned_receipt index peer_id previous signer manifest)
      ok (signed_receipt signer unsigned)

    -- the receipts of the hops from `index` on
    unfoldable pub build_receipts : ℕ → List String → Option HopReceipt → Result (List HopReceipt)
    unfolding build_receipt
    build_receipts index [] previous = ok []
    build_receipts index (peer_id ∷ hops) previous = do
      receipt ← build_receipt index peer_id previous
      rest ← build_receipts (suc index) hops (some receipt)
      ok (receipt ∷ rest)

    unfoldable pub build_attestation : Result RouteAttestation
    unfolding build_receipts
    build_attestation = do
      receipts ← build_receipts 0 plan.hop_peer_ids none
      validated built_errors (record {
        schema_version = "locusmesh.route-attestation.v1";
        plan = plan;
        receipts = receipts;
      })
