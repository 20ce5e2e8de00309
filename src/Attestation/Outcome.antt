-- ===== src/Attestation/Outcome.antt =====
-- What `verify_attestation` answers, on every path.
use locus_mesh.Base.{
  ◌≤◌, ◌≡◌, refl, ap, sym, ◌∙◌, subst, ◌↔◌, ◌⊎◌, Bool, true, false, not, Option, none, some, List,
  [], ◌∷◌, arith, length, when, is_empty, is_empty_iff, Bool-cases, inl, inr, if◌then◌else◌, nat_eq,
  nat_beq_iff,
}
use mathlib.Core.Bool.{false≢true}
use locus_mesh.Fail.{Result, ok, ◌>>=◌, ok-injective}
use locus_mesh.Scope.{EvidenceLevel, minimum_evidence}
use locus_mesh.Runtime.{Runtime, IsLawful, DateTime, is_aware}
use locus_mesh.Models.Topology.{AdmissionPolicy}
use locus_mesh.Models.Route.{HopReceipt, RouteAttestation}
use locus_mesh.Models.Decision.{AdmissionDecision}
use locus_mesh.Policy.Admit.{decision}
use locus_mesh.Policy.Sound.{decision-admitted_iff}
use locus_mesh.Policy.Total.{IsValidPlan, hop_count_of_IsValid, admit_plan-eq-ok}
use locus_mesh.Replay.{ReplayStore}
use locus_mesh.Attestation.Verify.{
  Trail, check_receipts, consult, least_evidence, start, finish, conclude, attestation_hash, deny,
  as_verification, verify_attestation,
}
use locus_mesh.Attestation.Spec.{IsChain, IsVerified}
use locus_mesh.Attestation.Returns.{IsValidPolicy, check_receipts_returns, floor_of_valid}
use locus_mesh.Attestation.Chain.{
  clean, effective_levels, last_of, check_receipts_sound, check_receipts_complete,
}

module _ {S : Type 0} (rt : Runtime) (attestation : RouteAttestation) (policy : AdmissionPolicy)
    (now : DateTime) (replay_store : Option (ReplayStore S)) where
  abbrev base : AdmissionDecision
  base = decision rt attestation.plan policy now

  abbrev pub IsComplete : Type 0
  IsComplete =
      (length attestation.receipts ≡ length attestation.plan.hop_peer_ids)
      × IsChain rt attestation.plan policy now 0 none attestation.receipts

  module _ (t : Trail)
      (ran : check_receipts rt attestation.plan policy now 0 attestation.receipts
          (start rt attestation policy now replay_store)
        ≡ ok t) where
    pub trail_of :
        IsComplete
        → clean (last_of none attestation.receipts) (effective_levels attestation.receipts) ≡ t
    trail_of (count, chain) =
        let same =
          (nat_beq_iff (length attestation.receipts) (length attestation.plan.hop_peer_ids)).1
            count in
        ok-injective (
          sym (
            check_receipts_complete rt attestation.plan policy now 0 attestation.receipts none []
              chain)
          ∙ subst
              (λ b.
                check_receipts rt attestation.plan policy now 0 attestation.receipts (record {
                  reasons = when (not b) "RECEIPT_COUNT_MISMATCH";
                  previous = none;
                  evidence = [];
                })
                ≡ ok t)
              same ran)

    -- The loop ends clean exactly if the receipts are as many as the hops and form the chain.
    pub clean_iff : (is_empty t.reasons ≡ true) ↔ IsComplete
    clean_iff = (
      λ empty.
          let (before, chain) =
            check_receipts_sound rt attestation.plan policy now 0 attestation.receipts _ t ran
              ((is_empty_iff t.reasons).0 empty) in
          (
            ground (
              arith,
              nat_beq_iff (length attestation.receipts) (length attestation.plan.hop_peer_ids),
            ),
            chain,
          ),
      λ complete. ap (λ (x : Trail). is_empty x.reasons) (sym (trail_of complete)),
    )

  -- With one hop at least, a complete chain has a least evidence.
  least_of :
      (receipts : List HopReceipt)
      → 1 ≤ length receipts
      → (level : EvidenceLevel) × (least_evidence (minimum_evidence (effective_levels receipts))
          ≡ ok level)
  unfolding least_evidence minimum_evidence
  least_of [] h = absurd (omega arith)
  least_of (r ∷ receipts) h = (_, refl)

  -- What a run means: it admits exactly the verified attestations whose nonce was fresh, and the
  -- replay store moves on only for a verified one.
  pub record IsOutcome (fresh : Bool) (s s' : S) (d : AdmissionDecision) (last : S) : Type 0 where
    pub admits : (d.admitted ≡ true) ↔ (IsVerified rt attestation policy now × (fresh ≡ true))
    pub stored :
        (IsVerified rt attestation policy now × (last ≡ s'))
        ⊎ ((¬ IsVerified rt attestation policy now) × (last ≡ s))

  module _ (fresh : Bool) (s s' : S) where
    unverified :
        (d : AdmissionDecision)
        → ¬ IsVerified rt attestation policy now
        → d.admitted ≡ false
        → IsOutcome fresh s s' d s
    unverified d no_proof denied = record {
      admits = (λ a. cc, λ v. absurd (no_proof v.0));
      stored = inr (no_proof, refl);
    }

    verified :
        (d : AdmissionDecision)
        → IsVerified rt attestation policy now
        → d.admitted ≡ fresh
        → IsOutcome fresh s s' d s'
    verified d proof same = record {
      admits = (λ a. (proof, sym same ∙ a), λ v. same ∙ v.1);
      stored = inl (proof, refl);
    }

  Outcome : Bool → S → S → Result (AdmissionDecision × S) → Type 0
  Outcome fresh s s' r =
      (d : AdmissionDecision) × (last : S) × (r ≡ ok (d, last)) × IsOutcome fresh s s' d last

  finish_returns :
      (t : Trail) (level : EvidenceLevel) (fresh : Bool) (s' : S)
      → base.admitted ≡ true
      → least_evidence (minimum_evidence t.evidence) ≡ ok level
      → (d : AdmissionDecision) × (finish rt attestation policy now replay_store fresh base t s'
          ≡ ok (d, s'))
        × (d.admitted ≡ fresh)
  unfolding finish deny
  finish_returns t level true s' admitted least = (
    record (as_verification base (attestation_hash rt attestation policy now replay_store)) {
      effective_evidence = some level;
    },
    rw least,
    admitted,
  )
  finish_returns t level false s' admitted least = (_, refl, refl)

  -- The end of the run, once the loop has returned.
  conclude-Outcome :
      (t : Trail) (fresh : Bool) (s s' : S)
      → base.admitted ≡ true
      → 1 ≤ length attestation.plan.hop_peer_ids
      → check_receipts rt attestation.plan policy now 0 attestation.receipts
          (start rt attestation policy now replay_store)
        ≡ ok t
      → consult replay_store attestation.plan.nonce attestation.plan.request_commitment
          (attestation_hash rt attestation policy now replay_store)
          s
        ≡ ok (fresh, s')
      → Outcome fresh s s' (conclude rt attestation policy now replay_store base t s)
  unfolding Outcome conclude
  conclude-Outcome t fresh s s' admitted hop ran answered = elim (Bool-cases (is_empty t.reasons)) [
    | inl empty ↦
        let complete = (clean_iff t ran).0 empty in
        let (level, least) = least_of attestation.receipts (omega (arith, complete.0)) in
        let levels = ap (λ (x : Trail). x.evidence) (trail_of t ran complete) in
        let (d, ended, same) =
          finish_returns t level fresh s' admitted
            (subst (λ l. least_evidence (minimum_evidence l) ≡ ok level) levels least) in
        let proof : IsVerified rt attestation policy now = record {
          admissible = (decision-admitted_iff rt attestation.plan policy now).0 admitted;
          count = complete.0;
          chain = complete.1;
        } in
        rw empty (
          d,
          s',
          ap
                (λ r. r >>= λ (x : Bool × S).
                  finish rt attestation policy now replay_store x.0 base t x.1)
                answered
              ∙ ended,
          verified fresh s s' d proof same,
        )
    | inr found ↦ rw found (
      deny base t.reasons _ _,
      s,
      refl,
      unverified fresh s s' (deny base t.reasons _ _)
          (λ v. absurd (false≢true (sym found ∙ (clean_iff t ran).1 (v.count, v.chain))))
          (unfold deny in refl),
    )
  ]

  -- The two ends of `verify_attestation` after the plan is decided.
  abbrev checked : S → Result (AdmissionDecision × S)
  checked s =
      check_receipts rt attestation.plan policy now 0 attestation.receipts
        (start rt attestation policy now replay_store)
      >>= λ t. conclude rt attestation policy now replay_store base t s

  abbrev unchecked : S → Result (AdmissionDecision × S)
  unchecked s =
      ok (as_verification base (attestation_hash rt attestation policy now replay_store), s)

  unchecked-Outcome :
      (fresh : Bool) (s s' : S) → base.admitted ≡ false → Outcome fresh s s' (unchecked s)
  unfolding Outcome
  unchecked-Outcome fresh s s' denied =
      let no_proof : ¬ IsVerified rt attestation policy now = λ v. absurd (
        false≢true
          (sym denied ∙ (decision-admitted_iff rt attestation.plan policy now).1 v.admissible)) in
      (_, s, refl, unverified fresh s s' _ no_proof denied)

  -- With lawful primitives, a valid plan and policy, an aware time and a replay store that answers,
  -- `verify_attestation` returns a decision. It admits exactly if the attestation is verified and the
  -- answer was that the nonce is fresh; the state of the store is the one after the answer if the
  -- attestation is verified, and the one before it otherwise.
  pub verify_attestation_decides :
      IsLawful rt
      → IsValidPlan attestation.plan
      → IsValidPolicy policy
      → is_aware now ≡ true
      → (fresh : Bool) (s s' : S)
      → consult replay_store attestation.plan.nonce attestation.plan.request_commitment
          (attestation_hash rt attestation policy now replay_store)
          s
        ≡ ok (fresh, s')
      → (d : AdmissionDecision) × (last : S) × (verify_attestation rt attestation policy now
            replay_store s
          ≡ ok (d, last))
        × IsOutcome fresh s s' d last
  unfolding verify_attestation Outcome
  verify_attestation_decides lawful valid_plan valid_policy aware fresh s s' answered =
      rw (admit_plan-eq-ok rt attestation.plan policy now lawful valid_plan aware)
        (elim (Bool-cases base.admitted) [
          | inr denied ↦
              subst (λ b. Outcome fresh s s' (if b then checked s else unchecked s)) (sym denied)
                (unchecked-Outcome fresh s s' denied)
          | inl admitted ↦
              let admissible = (decision-admitted_iff rt attestation.plan policy now).0 admitted in
              let (level, floor) =
                floor_of_valid policy attestation.plan.intent valid_policy
                  admissible.route.intent in
              let (t, ran) =
                check_receipts_returns rt attestation.plan policy now 0 attestation.receipts
                  (start rt attestation policy now replay_store) floor in
              let hop = (hop_count_of_IsValid attestation.plan valid_plan).0 in
              subst (λ b. Outcome fresh s s' (if b then checked s else unchecked s)) (sym admitted)
                (subst
                  (λ r.
                    Outcome fresh s s'
                      (r >>= λ t'. conclude rt attestation policy now replay_store base t' s))
                  (sym ran) (conclude-Outcome t fresh s s' admitted hop ran answered))
        ])
