-- ===== src/Attestation/Returns.antt =====
-- With a valid policy the loop over the receipts returns.
use locus_mesh.Base.{
  ℕ, suc, String, ◌≡◌, refl, ap, subst, false, Option, none, some, List, [], ◌∷◌, arith, In,
  get_elem?, Option-cases, inl, inr, nat_eq,
}
use locus_mesh.Fail.{ok, bind-returns}
use locus_mesh.Scope.{ExecutionIntent, EvidenceLevel}
use locus_mesh.Runtime.{Runtime, DateTime}
use locus_mesh.Models.Patterns.{first_error}
use locus_mesh.Models.Topology.{
  PeerManifest, AdmissionPolicy, floor_of, missing_floor, policy_errors,
}
use locus_mesh.Models.Route.{RoutePlan, HopReceipt}
use locus_mesh.Policy.Admit.{peer_of}
use locus_mesh.Attestation.Verify.{Trail, required_floor, check_receipt, check_receipts}

abbrev pub IsValidPolicy : AdmissionPolicy → Type 0
IsValidPolicy policy = policy_errors policy ≡ []

floor_of_allowed :
    (intents : List ExecutionIntent) (floors : List (ExecutionIntent × EvidenceLevel))
    (intent : ExecutionIntent)
    → missing_floor intents floors ≡ false
    → In intent intents
    → (level : EvidenceLevel) × (floor_of intent floors ≡ some level)
unfolding missing_floor
floor_of_allowed [] floors intent h i = absurd i
floor_of_allowed (j ∷ intents) floors intent h i = elim (Option-cases (floor_of j floors)) [
  | inl missing ↦ cc (rw (missing, missing_floor) at h)
  | inr (level, found) ↦ elim i [
    | inl same ↦ (level, subst (λ k. floor_of k floors ≡ some level) same found)
    | inr later ↦ floor_of_allowed intents floors intent (rw (found, missing_floor) at h) later
  ]
]

covered :
    (policy : AdmissionPolicy)
    → IsValidPolicy policy
    → missing_floor policy.allowed_intents policy.minimum_evidence ≡ false
unfolding policy_errors first_error
covered policy h = ground arith

-- A valid policy has a floor for every intent that it allows.
pub floor_of_valid :
    (policy : AdmissionPolicy) (intent : ExecutionIntent)
    → IsValidPolicy policy
    → In intent policy.allowed_intents
    → (level : EvidenceLevel) × (floor_of intent policy.minimum_evidence ≡ some level)
floor_of_valid policy intent valid allowed =
    floor_of_allowed policy.allowed_intents policy.minimum_evidence intent (covered policy valid)
      allowed

module _ (rt : Runtime) (plan : RoutePlan) (policy : AdmissionPolicy) (now : DateTime) where
  check_receipt_returns :
      (index : ℕ) (peer_id : String) (manifest : Option PeerManifest) (receipt : HopReceipt)
      (t : Trail) {level : EvidenceLevel}
      → floor_of plan.intent policy.minimum_evidence ≡ some level
      → (t' : Trail) × (check_receipt rt plan policy now index peer_id manifest receipt t ≡ ok t')
  unfolding check_receipt required_floor
  check_receipt_returns index peer_id none receipt t floor = (_, refl)
  check_receipt_returns index peer_id (some manifest) receipt t floor =
      bind-returns
        (required_floor rt plan policy now (floor_of plan.intent policy.minimum_evidence)) _
        (ap (required_floor rt plan policy now) floor) (_, refl)

  -- With a floor for the intent the loop raises nothing.
  pub check_receipts_returns :
      (index : ℕ) (receipts : List HopReceipt) (t : Trail) {level : EvidenceLevel}
      → floor_of plan.intent policy.minimum_evidence ≡ some level
      → (t' : Trail) × (check_receipts rt plan policy now index receipts t ≡ ok t')
  unfolding check_receipts
  check_receipts_returns index [] t floor = (t, refl)
  check_receipts_returns index (receipt ∷ receipts) t floor =
      elim (Option-cases (get_elem? plan.hop_peer_ids index)) [
        | inl missing ↦ rw (missing, check_receipts) (_, refl)
        | inr (peer_id, found) ↦
            let (t1, first) =
              check_receipt_returns index peer_id (peer_of peer_id policy.topology.peers) receipt t
                floor in
            rw (found, check_receipts)
              (bind-returns _ (check_receipts rt plan policy now (suc index) receipts) first
                (check_receipts_returns (suc index) receipts t1 floor))
      ]
