-- ===== src/Attestation/Causes.antt =====
-- verify_attestation of attestation.py: the reason codes, each with what it says of the receipts.
use locus_mesh.Base.{
  ℕ, suc, ◌<◌, String, ◌⧺◌, ◌≡◌, ◌≢◌, false, Option, none, some, List, [], ◌∷◌, ◌++◌, length,
  get_elem?, Table,
}
use locus_mesh.Fail.{Result, ok, err}
use locus_mesh.Scope.{evidence_rank, effective_evidence}
use locus_mesh.Runtime.{Runtime, DateTime}
use locus_mesh.Json.{canonical_json_bytes}
use locus_mesh.Crypto.{sha256_digest, derive_key_id, verify_ed25519}
use locus_mesh.Models.Topology.{PeerManifest, AdmissionPolicy, floor_of}
use locus_mesh.Models.Route.{RoutePlan, HopReceipt, RouteAttestation}
use locus_mesh.Policy.Digest.{topology_digest, policy_digest, plan_json, signing_payload}
use locus_mesh.Policy.Admit.{peer_of}
use locus_mesh.Policy.Spec.{Within}
use locus_mesh.Policy.Causes.{Below, Raises, BoundElsewhere}
use locus_mesh.Attestation.Verify.{previous_of, digest_of}
use locus_mesh.Attestation.Spec.{NotBefore}

abbrev pub Unsigned : Result String → Type 0 → Type 0
Unsigned (ok key_id) unverified = unverified
Unsigned (err e) unverified = ⊥

module _ (rt : Runtime) (plan : RoutePlan) (policy : AdmissionPolicy) (now : DateTime) where
  abbrev pub field_causes : ℕ → String → Option HopReceipt → HopReceipt → Table
  field_causes index peer_id previous r =
      ("RECEIPT_REQUEST_ID_MISMATCH", r.request_id ≢ plan.request_id)
      ∷ ("RECEIPT_NONCE_MISMATCH", r.nonce ≢ plan.nonce)
      ∷ ("RECEIPT_REQUEST_COMMITMENT_MISMATCH", r.request_commitment ≢ plan.request_commitment)
      ∷ (
        "RECEIPT_ROUTE_PLAN_DIGEST_MISMATCH",
        r.route_plan_digest ≢ sha256_digest rt (plan_json rt plan),
      )
      ∷ ("RECEIPT_POLICY_DIGEST_MISMATCH", r.policy_digest ≢ policy_digest rt policy)
      ∷ ("RECEIPT_TOPOLOGY_DIGEST_MISMATCH", r.topology_digest ≢ topology_digest rt policy.topology)
      ∷ ("RECEIPT_INTENT_MISMATCH", r.intent ≢ plan.intent)
      ∷ ("RECEIPT_HOP_INDEX_MISMATCH", r.hop_index ≢ index)
      ∷ ("RECEIPT_HOP_COUNT_MISMATCH", r.hop_count ≢ length plan.hop_peer_ids)
      ∷ ("RECEIPT_PEER_ID_MISMATCH", r.peer_id ≢ peer_id)
      ∷ ("RECEIPT_PREVIOUS_PEER_MISMATCH", r.previous_peer_id ≢ previous_of plan.hop_peer_ids index)
      ∷ ("RECEIPT_NEXT_PEER_MISMATCH", r.next_peer_id ≢ get_elem? plan.hop_peer_ids (suc index))
      ∷ (
        "RECEIPT_PREVIOUS_RECEIPT_DIGEST_MISMATCH",
        r.previous_receipt_digest ≢ digest_of rt previous,
      )
      ∷ ("RECEIPT_MODEL_DIGEST_MISMATCH", r.model_digest ≢ plan.model_digest)
      ∷ ("RECEIPT_RUNTIME_DIGEST_MISMATCH", r.runtime_digest ≢ plan.runtime_digest)
      ∷ []

  abbrev pub moment_causes : PeerManifest → Option HopReceipt → HopReceipt → Table
  moment_causes manifest previous r =
      ("RECEIPT_OUTSIDE_PLAN_WINDOW", ¬ Within r.observed_at plan.created_at plan.expires_at)
      ∷ ("RECEIPT_FROM_FUTURE", now.instant < r.observed_at.instant)
      ∷ (
        "RECEIPT_OUTSIDE_TOPOLOGY_WINDOW",
        ¬ Within r.observed_at policy.topology.captured_at policy.topology.expires_at,
      )
      ∷ ("RECEIPT_TIME_REVERSED", ¬ NotBefore previous r.observed_at)
      ∷ (
        "RECEIPT_OUTSIDE_PEER_WINDOW",
        ¬ Within r.observed_at manifest.valid_from manifest.expires_at,
      )
      ∷ ("RECEIPT_KEY_ID_MISMATCH", r.key_id ≢ manifest.key_id)
      ∷ []

  abbrev pub key_causes : PeerManifest → HopReceipt → Result String → Table
  key_causes manifest r bound =
      ("PEER_PUBLIC_KEY_INVALID", Raises bound)
      ∷ ("PEER_KEY_BINDING_INVALID", BoundElsewhere bound manifest.key_id)
      ∷ (
        "SIGNATURE_INVALID",
        Unsigned bound (
            verify_ed25519 rt manifest.public_key (canonical_json_bytes (signing_payload rt r))
              r.signature
            ≡ false),
      )
      ∷ []

  abbrev pub evidence_causes : PeerManifest → HopReceipt → Table
  evidence_causes manifest r =
      (
        "RECEIPT_EVIDENCE_EXCEEDS_MANIFEST",
        evidence_rank manifest.evidence_level < evidence_rank r.evidence_level,
      )
      ∷ (
        "RECEIPT_EVIDENCE_BELOW_FLOOR",
        Below (effective_evidence r.evidence_level) (floor_of plan.intent policy.minimum_evidence),
      )
      ∷ []

  -- What is said of the receipt of a hop, without and with the manifest of its peer.
  abbrev pub receipt_causes :
      ℕ → String → Option PeerManifest → Option HopReceipt → HopReceipt → Table
  receipt_causes index peer_id none previous r =
      field_causes index peer_id previous r ++ (("PEER_UNKNOWN:" ⧺ peer_id, Unit) ∷ [])
  receipt_causes index peer_id (some manifest) previous r =
      field_causes index peer_id previous r
      ++ (moment_causes manifest previous r
          ++ (key_causes manifest r (derive_key_id rt manifest.public_key)
              ++ evidence_causes manifest r))

  -- The receipts from a place on; beyond the last hop the first one that is left is named, and those
  -- after it are not looked at.
  unfoldable pub chain_causes : ℕ → Option HopReceipt → List HopReceipt → Table
  chain_causes index previous [] = []
  chain_causes index previous (r ∷ receipts) = elim (get_elem? plan.hop_peer_ids index) [
    | none ↦ ("EXTRA_RECEIPT", Unit) ∷ []
    | some peer_id ↦
        receipt_causes index peer_id (peer_of peer_id policy.topology.peers) previous r
        ++ chain_causes (suc index) (some r) receipts
  ]

-- All that may be said against the receipts of an attestation.
abbrev pub attestation_causes : Runtime → RouteAttestation → AdmissionPolicy → DateTime → Table
attestation_causes rt a policy now =
    ("RECEIPT_COUNT_MISMATCH", length a.receipts ≢ length a.plan.hop_peer_ids)
    ∷ chain_causes rt a.plan policy now 0 none a.receipts
