-- ===== src/Attestation/Reasoned.antt =====
-- verify_attestation of attestation.py: the reasons that the loop over the receipts finds.
use locus_mesh.Base.{
  ℕ, suc, String, ◌≡◌, ◌≢◌, ◌↔◌, inl, inr, Bool, true, false, not, Option, some, arith, length,
  get_elem?, ◌==◌, ==_iff, Eq, nat_eq, string_eq, option_eq, Bool-cases, Explains, explain_none,
  explain_when, explain_then, explain_also, explain_one,
}
use locus_mesh.Fail.{Result, ok, err}
use locus_mesh.Scope.{EvidenceLevel, evidence_rank, effective_evidence, intent_eq}
use locus_mesh.Runtime.{Runtime, DateTime}
use locus_mesh.Json.{canonical_json_bytes}
use locus_mesh.Crypto.{sha256_digest, verify_ed25519}
use locus_mesh.Models.Topology.{PeerManifest, AdmissionPolicy, floor_of}
use locus_mesh.Models.Route.{RoutePlan, HopReceipt}
use locus_mesh.Policy.Digest.{topology_digest, policy_digest, plan_json, signing_payload}
use locus_mesh.Policy.Spec.{Within}
use locus_mesh.Policy.Denied.{before_iff, differs_iff, Below-iff}
use locus_mesh.Attestation.Verify.{
  mismatches, previous_of, digest_of, outside, reversed, exact_fields, moment_reasons, key_reasons,
  evidence_reasons,
}
use locus_mesh.Attestation.Spec.{NotBefore}
use locus_mesh.Attestation.Receipt.{forward_of, reversed_of}
use locus_mesh.Attestation.Causes.{field_causes, moment_causes, key_causes, evidence_causes}

module _ {ℓ} {A : Type ℓ} ⦃e : Eq A⦄ where
  pub unequal_iff : (a b : A) → (not (a == b) ≡ true) ↔ (a ≢ b)
  unequal_iff a b =
      let (to, from) = ==_iff a b in
      elim (Bool-cases (a == b)) [
        | inl h ↦ (λ f. cc, λ n. absurd (n (to h)))
        | inr h ↦ (λ _ s. cc (from s), λ _. ground arith)
      ]

outside_iff :
    (start moment end : DateTime) → (outside start moment end ≡ true) ↔ (¬ Within moment start end)
outside_iff start moment end = elim (Bool-cases (outside start moment end)) [
  | inl h ↦ (λ _ w. ground (arith, w.started, w.running), λ _. h)
  | inr h ↦ (λ f. cc, λ n. absurd (n (record { started = ground arith; running = ground arith })))
]

reversed_iff :
    (previous : Option HopReceipt) (moment : DateTime)
    → (reversed previous moment ≡ true) ↔ (¬ NotBefore previous moment)
reversed_iff previous moment = elim (Bool-cases (reversed previous moment)) [
  | inl h ↦ (λ _ n. cc (reversed_of previous moment n), λ _. h)
  | inr h ↦ (λ f. cc, λ n. absurd (n (forward_of previous moment h)))
]

unverified_iff : (b : Bool) → (not b ≡ true) ↔ (b ≡ false)
unverified_iff b = ground arith

module _ (rt : Runtime) (plan : RoutePlan) (policy : AdmissionPolicy) (now : DateTime) where
  pub exact_fields-Explains :
      (index : ℕ) (peer_id : String) (previous : Option HopReceipt) (r : HopReceipt)
      → Explains
          (mismatches (exact_fields rt plan policy now index peer_id previous r))
          (field_causes rt plan policy now index peer_id previous r)
  unfolding exact_fields mismatches
  exact_fields-Explains index peer_id previous r =
      let hops = plan.hop_peer_ids in
      explain_then _ _ (unequal_iff r.request_id plan.request_id) (
        explain_then _ _ (unequal_iff r.nonce plan.nonce) (
          explain_then _ _ (unequal_iff r.request_commitment plan.request_commitment) (
            explain_then _ _
              (unequal_iff r.route_plan_digest (sha256_digest rt (plan_json rt plan)))
              (explain_then _ _ (unequal_iff r.policy_digest (policy_digest rt policy)) (
                explain_then _ _
                  (unequal_iff r.topology_digest (topology_digest rt policy.topology))
                  (explain_then _ _ (unequal_iff r.intent plan.intent) (
                    explain_then _ _ (unequal_iff r.hop_index index) (
                      explain_then _ _ (unequal_iff r.hop_count (length hops)) (
                        explain_then _ _ (unequal_iff r.peer_id peer_id) (
                          explain_then _ _ (unequal_iff r.previous_peer_id (previous_of hops index))
                            (explain_then _ _
                              (unequal_iff r.next_peer_id (get_elem? hops (suc index)))
                              (explain_then _ _
                                (unequal_iff r.previous_receipt_digest (digest_of rt previous))
                                (explain_then _ _ (unequal_iff r.model_digest plan.model_digest) (
                                  explain_then _ _
                                    (unequal_iff r.runtime_digest plan.runtime_digest)
                                    explain_none))))))))))))))

  pub moment_reasons-Explains :
      (manifest : PeerManifest) (previous : Option HopReceipt) (r : HopReceipt)
      → Explains
          (moment_reasons rt plan policy now manifest previous r)
          (moment_causes rt plan policy now manifest previous r)
  unfolding moment_reasons
  moment_reasons-Explains manifest previous r =
      let t = policy.topology in
      explain_then _ _ (outside_iff plan.created_at r.observed_at plan.expires_at) (
        explain_then _ _ (before_iff now.instant r.observed_at.instant) (
          explain_then _ _ (outside_iff t.captured_at r.observed_at t.expires_at) (
            explain_then _ _ (reversed_iff previous r.observed_at) (
              explain_then _ _ (outside_iff manifest.valid_from r.observed_at manifest.expires_at)
                (explain_when _ _ (differs_iff r.key_id manifest.key_id))))))

  pub key_reasons-Explains :
      (manifest : PeerManifest) (r : HopReceipt) (bound : Result String)
      → Explains
          (key_reasons rt plan policy now manifest r bound)
          (key_causes rt plan policy now manifest r bound)
  unfolding key_reasons
  key_reasons-Explains manifest r (err e) =
      explain_one _ tt (explain_also _ (λ h. h) (explain_also _ (λ h. h) explain_none))
  key_reasons-Explains manifest r (ok key_id) =
      explain_also _ (λ h. h)
        (explain_then _ _ (differs_iff key_id manifest.key_id) (
          explain_when _ _ (
            unverified_iff (
              verify_ed25519 rt manifest.public_key (canonical_json_bytes (signing_payload rt r))
                r.signature))))

  pub evidence_reasons-Explains :
      (manifest : PeerManifest) (r : HopReceipt) (required : EvidenceLevel)
      → floor_of plan.intent policy.minimum_evidence ≡ some required
      → Explains
          (evidence_reasons rt plan policy now manifest r required)
          (evidence_causes rt plan policy now manifest r)
  unfolding evidence_reasons
  evidence_reasons-Explains manifest r required floor =
      explain_then _ _
        (before_iff (evidence_rank manifest.evidence_level) (evidence_rank r.evidence_level))
        (rw floor
          (explain_when _ _ (Below-iff (effective_evidence r.evidence_level) (some required))))
