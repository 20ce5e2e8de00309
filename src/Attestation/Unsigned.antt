-- ===== src/Attestation/Unsigned.antt =====
-- The receipts that `build_attestation` makes are in their contract before they are signed.
use locus_mesh.Base.{
  ℕ, zero, suc, ◌+◌, ◌≤◌, String, ◌≡◌, refl, subst, true, Option, none, some, List, [], ◌∷◌, arith,
  length, get_elem?, string_eq, eq_iff,
}
use locus_mesh.Fail.{ok}
use locus_mesh.Scope.{EvidenceLevel}
use locus_mesh.Runtime.{Runtime, IsLawful, DateTime, is_aware}
use locus_mesh.Crypto.Shape.{is_digest-sha256_digest}
use locus_mesh.Models.Patterns.{
  is_digest, is_peer_id, is_key_id, is_base64url, validated, flat_errors,
}
use locus_mesh.Models.Topology.{PeerManifest, AdmissionPolicy}
use locus_mesh.Models.Route.{
  RoutePlan, HopReceipt, RouteAttestation, plan_errors, receipt_errors, built_errors, optional,
  peer_id_errors,
}
use locus_mesh.Policy.Digest.{topology_digest, policy_digest, plan_json, topology_json, policy_json}
use locus_mesh.Policy.Total.{IsValidPlan}
use locus_mesh.Attestation.Verify.{previous_of, digest_of}
use locus_mesh.Attestation.Build.{SignerProvider, placeholder, unsigned_receipt}

pub built_of_size :
    (attestation : RouteAttestation)
    → 1 ≤ length attestation.receipts
    → length attestation.receipts ≤ 64
    → built_errors attestation ≡ []
unfolding built_errors
built_of_size attestation least most = ground arith

pub from_first : {A : Type 0} (xs : List A) (i : ℕ) → get_elem? xs (0 + i) ≡ get_elem? xs i
from_first xs i =
    let same : i ≡ 0 + i = omega arith in subst (λ k. get_elem? xs k ≡ get_elem? xs i) same refl

pub validated-eq-ok :
    {A : Type 0} (errors : A → List String) (x : A) → errors x ≡ [] → validated errors x ≡ ok x
unfolding validated
validated-eq-ok errors x h = rw h refl

-- Every hop of a valid plan is a peer id.
hop_of_valid :
    (hops : List String) (i : ℕ)
    → flat_errors peer_id_errors hops ≡ []
    → optional is_peer_id (get_elem? hops i) ≡ true
unfolding flat_errors
hop_of_valid [] i h = refl
hop_of_valid (hop ∷ hops) zero h = ground arith
hop_of_valid (hop ∷ hops) (suc i) h = hop_of_valid hops i (ground arith)

previous_of_valid :
    (hops : List String) (i : ℕ)
    → flat_errors peer_id_errors hops ≡ []
    → optional is_peer_id (previous_of hops i) ≡ true
previous_of_valid hops zero h = refl
previous_of_valid hops (suc i) h = hop_of_valid hops i h

hops_of_valid :
    (plan : RoutePlan) → IsValidPlan plan → flat_errors peer_id_errors plan.hop_peer_ids ≡ []
unfolding plan_errors
hops_of_valid plan h = ground arith

placeholder-IsBase64url : is_base64url 86 placeholder ≡ true
unfolding is_base64url
placeholder-IsBase64url = refl

module _ (rt : Runtime) (lawful : IsLawful rt) (plan : RoutePlan) (policy : AdmissionPolicy)
    (signers : List (String × SignerProvider)) (observed_at : DateTime)
    (levels : Option (List (String × EvidenceLevel))) (valid : IsValidPlan plan)
    (aware : is_aware observed_at ≡ true) where
  digest_of_valid :
      (previous : Option HopReceipt) → optional is_digest (digest_of rt previous) ≡ true
  digest_of_valid none = refl
  digest_of_valid (some previous) = is_digest-sha256_digest rt lawful _

  pub unsigned_IsValid :
      (index : ℕ) (peer_id : String) (previous : Option HopReceipt) (signer : SignerProvider)
      (manifest : PeerManifest)
      → get_elem? plan.hop_peer_ids index ≡ some peer_id
      → index ≤ 63
      → is_key_id signer.key_id ≡ true
      → receipt_errors (
          unsigned_receipt rt plan policy signers observed_at levels index peer_id previous signer
            manifest)
        ≡ []
  unfolding receipt_errors unsigned_receipt plan_errors topology_digest policy_digest
  unsigned_IsValid index peer_id previous signer manifest place small key =
      let hops = hops_of_valid plan valid in
      let digest = is_digest-sha256_digest rt lawful in
      ground (
        arith,
        valid,
        hop_of_valid plan.hop_peer_ids index hops,
        hop_of_valid plan.hop_peer_ids (suc index) hops,
        previous_of_valid plan.hop_peer_ids index hops,
        digest_of_valid previous,
        digest (plan_json rt plan),
        digest (policy_json rt policy),
        digest (topology_json rt policy.topology),
        placeholder-IsBase64url,
        eq_iff "locusmesh.hop-receipt.v1" "locusmesh.hop-receipt.v1",
        eq_iff "ed25519" "ed25519",
      )
