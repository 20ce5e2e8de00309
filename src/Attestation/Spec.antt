-- ===== src/Attestation/Spec.antt =====
-- When the receipts of a route are the evidence that its plan asks for.
use locus_mesh.Base.{
  ℕ, suc, ◌≤◌, String, ◌≡◌, true, Option, none, some, List, [], ◌∷◌, length, get_elem?,
}
use locus_mesh.Fail.{ok}
use locus_mesh.Scope.{EvidenceLevel, evidence_rank, effective_evidence}
use locus_mesh.Runtime.{Runtime, DateTime}
use locus_mesh.Json.{canonical_json_bytes}
use locus_mesh.Crypto.{sha256_digest, derive_key_id, verify_ed25519}
use locus_mesh.Models.Topology.{PeerManifest, AdmissionPolicy, floor_of}
use locus_mesh.Models.Route.{RoutePlan, HopReceipt, RouteAttestation}
use locus_mesh.Policy.Digest.{topology_digest, policy_digest, plan_json, signing_payload}
use locus_mesh.Policy.Admit.{peer_of}
use locus_mesh.Policy.Spec.{Within, IsAdmissible}
use locus_mesh.Attestation.Verify.{previous_of, digest_of}

-- A receipt does not go back in time.
abbrev pub NotBefore : Option HopReceipt → DateTime → Type 0
NotBefore none moment = Unit
NotBefore (some previous) moment = previous.observed_at.instant ≤ moment.instant

module _ (rt : Runtime) (plan : RoutePlan) (policy : AdmissionPolicy) (now : DateTime) where
  -- The receipt names this request, this plan, policy and topology, and this place in the route.
  pub record IsExact (index : ℕ) (peer_id : String) (previous : Option HopReceipt)
      (receipt : HopReceipt) : Type 0 where
    pub request_id : receipt.request_id ≡ plan.request_id
    pub nonce : receipt.nonce ≡ plan.nonce
    pub request_commitment : receipt.request_commitment ≡ plan.request_commitment
    pub route_plan : receipt.route_plan_digest ≡ sha256_digest rt (plan_json rt plan)
    pub policy_pin : receipt.policy_digest ≡ policy_digest rt policy
    pub topology_pin : receipt.topology_digest ≡ topology_digest rt policy.topology
    pub intent : receipt.intent ≡ plan.intent
    pub hop_index : receipt.hop_index ≡ index
    pub hop_count : receipt.hop_count ≡ length plan.hop_peer_ids
    pub peer : receipt.peer_id ≡ peer_id
    pub previous_peer : receipt.previous_peer_id ≡ previous_of plan.hop_peer_ids index
    pub next_peer : receipt.next_peer_id ≡ get_elem? plan.hop_peer_ids (suc index)
    pub previous_receipt : receipt.previous_receipt_digest ≡ digest_of rt previous
    pub model : receipt.model_digest ≡ plan.model_digest
    pub runtime : receipt.runtime_digest ≡ plan.runtime_digest

  pub record IsTimely (manifest : PeerManifest) (previous : Option HopReceipt)
      (receipt : HopReceipt) : Type 0 where
    pub plan_window : Within receipt.observed_at plan.created_at plan.expires_at
    pub not_future : receipt.observed_at.instant ≤ now.instant
    pub topology_window :
        Within receipt.observed_at policy.topology.captured_at policy.topology.expires_at
    pub forward : NotBefore previous receipt.observed_at
    pub peer_window : Within receipt.observed_at manifest.valid_from manifest.expires_at

  pub record IsSigned (manifest : PeerManifest) (receipt : HopReceipt) : Type 0 where
    pub key : receipt.key_id ≡ manifest.key_id
    pub bound : derive_key_id rt manifest.public_key ≡ ok manifest.key_id
    pub signature :
        verify_ed25519 rt manifest.public_key
          (canonical_json_bytes (signing_payload rt receipt))
          receipt.signature
        ≡ true

  pub record IsSupported (manifest : PeerManifest) (receipt : HopReceipt) : Type 0 where
    pub claim : evidence_rank receipt.evidence_level ≤ evidence_rank manifest.evidence_level
    pub required : EvidenceLevel
    pub floor : floor_of plan.intent policy.minimum_evidence ≡ some required
    pub reached : evidence_rank required ≤ evidence_rank (effective_evidence receipt.evidence_level)

  pub record IsReceiptFor (index : ℕ) (peer_id : String) (manifest : PeerManifest)
      (previous : Option HopReceipt) (receipt : HopReceipt) : Type 0 where
    pub exact : IsExact index peer_id previous receipt
    pub timely : IsTimely manifest previous receipt
    pub signed : IsSigned manifest receipt
    pub supported : IsSupported manifest receipt

  abbrev pub IsReceiptOf :
      ℕ → String → Option PeerManifest → Option HopReceipt → HopReceipt → Type 0
  IsReceiptOf index peer_id none previous receipt = ⊥
  IsReceiptOf index peer_id (some manifest) previous receipt =
      IsReceiptFor index peer_id manifest previous receipt

  -- The receipt at a place beyond the last hop is no evidence.
  abbrev pub IsReceiptAt : ℕ → Option String → Option HopReceipt → HopReceipt → Type 0
  IsReceiptAt index none previous receipt = ⊥
  IsReceiptAt index (some peer_id) previous receipt =
      IsReceiptOf index peer_id (peer_of peer_id policy.topology.peers) previous receipt

  abbrev pub IsChain : ℕ → Option HopReceipt → List HopReceipt → Type 0
  IsChain index previous [] = Unit
  IsChain index previous (receipt ∷ receipts) =
      IsReceiptAt index (get_elem? plan.hop_peer_ids index) previous receipt
      × IsChain (suc index) (some receipt) receipts

pub record IsVerified (rt : Runtime) (attestation : RouteAttestation) (policy : AdmissionPolicy)
    (now : DateTime) : Type 0 where
  pub admissible : IsAdmissible rt attestation.plan policy now
  pub count : length attestation.receipts ≡ length attestation.plan.hop_peer_ids
  pub chain : IsChain rt attestation.plan policy now 0 none attestation.receipts
