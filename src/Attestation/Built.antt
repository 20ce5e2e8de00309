-- ===== src/Attestation/Built.antt =====
-- build_attestation of attestation.py: what it makes is verified.
use locus_mesh.Base.{
  ◌≤◌, String, ◌≡◌, ◌↔◌, refl, sym, All-mono, subst, true, Option, none, some, List, arith, All,
  string_eq,
}
use locus_mesh.Fail.{ok}
use locus_mesh.Scope.{EvidenceLevel}
use locus_mesh.Runtime.{Runtime, IsLawful, DateTime, is_aware}
use locus_mesh.Models.Topology.{PeerManifest, AdmissionPolicy}
use locus_mesh.Models.Route.{RoutePlan, RouteAttestation, built_errors}
use locus_mesh.Policy.Admit.{peer_of}
use locus_mesh.Policy.Spec.{IsEligiblePeer, IsAdmissible}
use locus_mesh.Policy.Total.{IsValidPlan, hop_count_of_IsValid}
use locus_mesh.Attestation.Verify.{consult, verify_attestation}
use locus_mesh.Attestation.Build.{SignerProvider, build_attestation, claimed_evidence}
use locus_mesh.Attestation.Spec.{IsVerified}
use locus_mesh.Attestation.Unsigned.{built_of_size, from_first, validated-eq-ok}
use locus_mesh.Attestation.Returns.{IsValidPolicy, floor_of_valid}
use locus_mesh.Attestation.Outcome.{verify_attestation_decides}
use locus_mesh.Models.Decision.{AdmissionDecision}
use locus_mesh.Attestation.Made.{IsReady, IsClaim, IsClaimed, build_receipts_lem}

module _ (rt : Runtime) (plan : RoutePlan) (policy : AdmissionPolicy)
    (signers : List (String × SignerProvider)) (observed_at now : DateTime) where
  -- With lawful primitives, a valid policy and a valid plan that is admissible at an aware time and
  -- at a later or equal one, and a signer for every hop that holds the key of the hop's manifest:
  -- whatever levels of evidence are claimed, `build_attestation` returns at the first time an
  -- attestation of this plan. At the second time it is verified exactly if every hop claims a level
  -- that its manifest has and that reaches the floor of the policy.
  pub built-IsVerified_iff :
      (levels : Option (List (String × EvidenceLevel)))
      → IsLawful rt
      → IsValidPlan plan
      → IsValidPolicy policy
      → is_aware observed_at ≡ true
      → observed_at.instant ≤ now.instant
      → IsAdmissible rt plan policy observed_at
      → IsAdmissible rt plan policy now
      → All (IsReady rt policy signers) plan.hop_peer_ids
      → (attestation : RouteAttestation) × (build_attestation rt plan policy signers observed_at
            levels
          ≡ ok attestation)
        × (attestation.plan ≡ plan)
        × (IsVerified rt attestation policy now
            ↔ All (IsClaimed plan policy levels) plan.hop_peer_ids)
  unfolding build_attestation
  built-IsVerified_iff levels lawful valid_plan valid_policy then_aware later then_admissible
        admissible ready =
      let (least, most) = hop_count_of_IsValid plan valid_plan in
      let (level, floor) = floor_of_valid policy plan.intent valid_policy admissible.route.intent in
      let (receipts, built, size, chain) =
        build_receipts_lem rt lawful plan policy signers observed_at levels valid_plan then_aware
          now later then_admissible floor 0 plan.hop_peer_ids none (from_first plan.hop_peer_ids)
          (omega (arith, most)) ready then_admissible.hops tt in
      let attestation : RouteAttestation = record {
        schema_version = "locusmesh.route-attestation.v1";
        plan = plan;
        receipts = receipts;
      } in
      (
        attestation,
        rw built (
            validated-eq-ok built_errors attestation
              (built_of_size attestation (omega (arith, size, least)) (omega (arith, size, most)))),
        refl,
        (
          λ v. chain.0 v.chain,
          λ c. record { admissible = admissible; count = size; chain = chain.1 c },
        ),
      )

  -- Without a mapping of levels a hop claims what its manifest does.
  unclaimed-IsClaim :
      (peer_id : String) (manifest : Option PeerManifest)
      → IsEligiblePeer rt plan policy observed_at manifest
      → IsClaim plan policy none peer_id manifest
  unfolding claimed_evidence
  unclaimed-IsClaim peer_id none h = tt
  unclaimed-IsClaim peer_id (some manifest) h = (omega arith, h.floor)

  -- With lawful primitives, a valid policy and a valid plan that is admissible at an aware time and
  -- at a later or equal one, and a signer for every hop that holds the key of the hop's manifest:
  -- `build_attestation`, without a mapping of claimed levels, returns at the first time an
  -- attestation of this plan; it is verified at the second, and without a replay store
  -- `verify_attestation` admits it.
  pub built-IsVerified :
      IsLawful rt
      → IsValidPlan plan
      → IsValidPolicy policy
      → is_aware observed_at ≡ true
      → is_aware now ≡ true
      → observed_at.instant ≤ now.instant
      → IsAdmissible rt plan policy observed_at
      → IsAdmissible rt plan policy now
      → All (IsReady rt policy signers) plan.hop_peer_ids
      → (attestation : RouteAttestation) × (build_attestation rt plan policy signers observed_at
            none
          ≡ ok attestation)
        × (attestation.plan ≡ plan)
        × IsVerified rt attestation policy now
        × ((d : AdmissionDecision) × (verify_attestation {S = Unit {0}} rt attestation policy now
                none tt
              ≡ ok (d, tt))
            × (d.admitted ≡ true))
  unfolding consult
  built-IsVerified lawful valid_plan valid_policy then_aware aware later then_admissible admissible
        ready =
      let (attestation, built, same_plan, verified) =
        built-IsVerified_iff none lawful valid_plan valid_policy then_aware later then_admissible
          admissible ready in
      let proof = verified.1 (
        All-mono plan.hop_peer_ids (λ p. unclaimed-IsClaim p (peer_of p policy.topology.peers))
          then_admissible.hops) in
      let (d, last, ran, outcome) =
        verify_attestation_decides {S = Unit {0}} rt attestation policy now none lawful
          (subst IsValidPlan (sym same_plan) valid_plan) valid_policy aware true tt tt refl in
      (attestation, built, same_plan, proof, (d, ran, outcome.admits.1 (proof, refl)))
