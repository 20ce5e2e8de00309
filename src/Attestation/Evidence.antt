-- ===== src/Attestation/Evidence.antt =====
-- The evidence level that an admitted verification names.
use mathlib.Core.Bool.{false≢true}
use locus_mesh.Base.{
  All-map, map-All, All-mono, ℕ, suc, ◌≤◌, ◌≡◌, refl, sym, ap, ◌∙◌, subst, inl, inr, Bool, true,
  false, Option, none, some, List, [], ◌∷◌, All, In, get_elem?, is_empty, Bool-cases, if-cases,
}
use locus_mesh.Fail.{ok, bind-eq-ok, ok-injective}
use locus_mesh.Scope.{EvidenceLevel, evidence_rank, effective_evidence, minimum_evidence}
use locus_mesh.Scope.Bounds.{minimum_evidence-IsWeakest}
use locus_mesh.Runtime.{Runtime, DateTime}
use locus_mesh.Models.Topology.{AdmissionPolicy, floor_of}
use locus_mesh.Models.Route.{RoutePlan, HopReceipt, RouteAttestation}
use locus_mesh.Models.Decision.{AdmissionDecision}
use locus_mesh.Policy.Admit.{admit_plan}
use locus_mesh.Policy.Spec.{AtLeast}
use locus_mesh.Replay.{ReplayStore}
use locus_mesh.Attestation.Verify.{
  Trail, check_receipts, consult, least_evidence, start, finish, conclude, attestation_hash, deny,
  verify_attestation,
}
use locus_mesh.Attestation.Spec.{IsChain}
use locus_mesh.Attestation.Chain.{effective_levels, receipt_at}
use locus_mesh.Attestation.Outcome.{IsComplete, clean_iff, trail_of}

All-In : {A : Type 0} (xs : List A) → All (λ x. In x xs) xs
All-In [] = tt
All-In (x ∷ xs) = (inl refl, All-mono xs (λ y i. inr i) (All-In xs))

All-both :
    {A : Type 0} (P Q : A → Type 0) (xs : List A) → All P xs → All Q xs → All (λ x. P x × Q x) xs
All-both P Q [] p q = tt
All-both P Q (x ∷ xs) p q = ((p.0, q.0), All-both P Q xs p.1 q.1)

-- The decision names a level that one of the receipts has, that none of them is below, and that
-- reaches the floor of the policy.
pub record IsEvidenced (attestation : RouteAttestation) (policy : AdmissionPolicy)
    (d : AdmissionDecision) : Type 0 where
  pub level : EvidenceLevel
  pub named : d.effective_evidence ≡ some level
  pub claimed : In level (effective_levels attestation.receipts)
  pub weakest :
      All
        (λ (r : HopReceipt).
          evidence_rank level ≤ evidence_rank (effective_evidence r.evidence_level))
        attestation.receipts
  pub reached : AtLeast (floor_of attestation.plan.intent policy.minimum_evidence) level

module _ (rt : Runtime) (plan : RoutePlan) (policy : AdmissionPolicy) (now : DateTime) where
  chain-AtLeast :
      (index : ℕ) (previous : Option HopReceipt) (receipts : List HopReceipt)
      → IsChain rt plan policy now index previous receipts
      → All
          (λ (r : HopReceipt).
            AtLeast
              (floor_of plan.intent policy.minimum_evidence)
              (effective_evidence r.evidence_level))
          receipts
  chain-AtLeast index previous [] chain = tt
  chain-AtLeast index previous (receipt ∷ receipts) chain =
      let (peer_id, found, manifest, known, good) =
        receipt_at rt plan policy now index (get_elem? plan.hop_peer_ids index) previous receipt
          refl chain.0 in
      let level = effective_evidence receipt.evidence_level in
      (
        subst (λ f. AtLeast f level) (sym good.supported.floor) good.supported.reached,
        chain-AtLeast (suc index) (some receipt) receipts chain.1,
      )

module _ {S : Type 0} (rt : Runtime) (attestation : RouteAttestation) (policy : AdmissionPolicy)
    (now : DateTime) (store : Option (ReplayStore S)) where
  abbrev floor : Option EvidenceLevel
  floor = floor_of attestation.plan.intent policy.minimum_evidence

  named-IsEvidenced :
      (receipts : List HopReceipt) (level : EvidenceLevel)
      → All (λ (r : HopReceipt). AtLeast floor (effective_evidence r.evidence_level)) receipts
      → least_evidence (minimum_evidence (effective_levels receipts)) ≡ ok level
      → In level (effective_levels receipts)
        × All
            (λ (r : HopReceipt).
              evidence_rank level ≤ evidence_rank (effective_evidence r.evidence_level))
            receipts
        × AtLeast floor level
  unfolding least_evidence
  named-IsEvidenced [] level reached least = unfold minimum_evidence in cc least
  named-IsEvidenced (r ∷ receipts) level reached least =
      let level_of = λ (r : HopReceipt). effective_evidence r.evidence_level in
      let levels = effective_levels (r ∷ receipts) in
      let (lowest, named, w) =
        minimum_evidence-IsWeakest (λ e. AtLeast floor e × In e levels) (level_of r)
          (effective_levels receipts)
          (All-both (AtLeast floor) (λ e. In e levels) levels
            (All-map level_of (AtLeast floor) (r ∷ receipts) reached) (All-In levels)) in
      let same : lowest ≡ level = ok-injective (rw named at least) in
      let weakest =
        map-All level_of (λ e. evidence_rank lowest ≤ evidence_rank e) (r ∷ receipts) w.weakest in
      subst
        (λ e.
          In e levels
          × All
              (λ (r : HopReceipt).
                evidence_rank e ≤ evidence_rank (effective_evidence r.evidence_level))
              (r ∷ receipts)
          × AtLeast floor e)
        same (w.kept.1, weakest, w.kept.0)

  finish-IsEvidenced :
      (fresh : Bool) (base : AdmissionDecision) (t : Trail) (s s' : S) (d : AdmissionDecision)
      → IsComplete rt attestation policy now store
      → t.evidence ≡ effective_levels attestation.receipts
      → finish rt attestation policy now store fresh base t s ≡ ok (d, s')
      → d.admitted ≡ true
      → IsEvidenced attestation policy d
  unfolding finish deny
  finish-IsEvidenced false base t s s' d complete same h admitted =
      absurd
        (false≢true (ap (λ (p : AdmissionDecision × S). p.0.admitted) (ok-injective h) ∙ admitted))
  finish-IsEvidenced true base t s s' d complete same h admitted =
      let (level, least, made) = bind-eq-ok (least_evidence (minimum_evidence t.evidence)) _ h in
      let (claimed, weakest, reached) =
        named-IsEvidenced attestation.receipts level
          (chain-AtLeast rt attestation.plan policy now 0 none attestation.receipts complete.1)
          (ap (λ l. least_evidence (minimum_evidence l)) (sym same) ∙ least) in
      record {
        level = level;
        named =
            sym (ap (λ (p : AdmissionDecision × S). p.0.effective_evidence) (ok-injective made));
        claimed = claimed;
        weakest = weakest;
        reached = reached;
      }

  conclude-IsEvidenced :
      (base : AdmissionDecision) (t : Trail) (s s' : S) (d : AdmissionDecision)
      → check_receipts rt attestation.plan policy now 0 attestation.receipts
          (start rt attestation policy now store)
        ≡ ok t
      → conclude rt attestation policy now store base t s ≡ ok (d, s')
      → d.admitted ≡ true
      → IsEvidenced attestation policy d
  unfolding conclude deny
  conclude-IsEvidenced base t s s' d ran h admitted = elim (Bool-cases (is_empty t.reasons)) [
    | inl empty ↦
        let ((fresh, s1), asked, finished) =
          bind-eq-ok
            (consult store attestation.plan.nonce attestation.plan.request_commitment
              (attestation_hash rt attestation policy now store) s)
            (λ (x : Bool × S). finish rt attestation policy now store x.0 base t x.1)
            (rw empty at h) in
        let complete = (clean_iff rt attestation policy now store t ran).0 empty in
        let trail = trail_of rt attestation policy now store t ran complete in
        finish-IsEvidenced fresh base t s1 s' d complete
          (sym (ap (λ (x : Trail). x.evidence) trail)) finished admitted
    | inr found ↦ absurd (
        false≢true (
          ap (λ (p : AdmissionDecision × S). p.0.admitted) (ok-injective (rw found at h))
          ∙ admitted))
  ]

  -- A decision of `verify_attestation` that admits names the weakest evidence of the receipts, and
  -- it reaches the floor of the policy for the intent of the plan.
  pub verify_attestation-IsEvidenced :
      (s s' : S) (d : AdmissionDecision)
      → verify_attestation rt attestation policy now store s ≡ ok (d, s')
      → d.admitted ≡ true
      → IsEvidenced attestation policy d
  unfolding verify_attestation
  verify_attestation-IsEvidenced s s' d h granted =
      let (base, decided, rest) = bind-eq-ok (admit_plan rt attestation.plan policy now) _ h in
      elim (if-cases base.admitted _ _ rest) [
        | inl (admitted, more) ↦
            let (t, ran, ended) =
              bind-eq-ok
                (check_receipts rt attestation.plan policy now 0 attestation.receipts
                  (start rt attestation policy now store))
                (λ t. conclude rt attestation policy now store base t s) more in
            conclude-IsEvidenced base t s s' d ran ended granted
        | inr (denied, made) ↦ absurd (
            false≢true (
              sym denied
              ∙ ap (λ (p : AdmissionDecision × S). p.0.admitted) (ok-injective made)
              ∙ granted))
      ]
