-- ===== src/Policy/Total.antt =====
-- `admit_plan` returns a decision that satisfies its own contract.
use locus_mesh.Base.{
  ◌≤◌, String, ◌≡◌, refl, ◌↔◌, inl, inr, true, false, not, List, [], arith, length, is_empty,
  contains, string_eq, contains-from_keys, is_empty-from_keys, Bool-cases, eq_iff,
}
use locus_mesh.Fail.{ok, err, value_error, guard-eq-ok}
use locus_mesh.Runtime.{Runtime, IsLawful, DateTime, is_aware}
use locus_mesh.Crypto.Shape.{is_digest-sha256_digest}
use locus_mesh.Models.Patterns.{validated, first_error}
use locus_mesh.Models.Topology.{AdmissionPolicy}
use locus_mesh.Models.Route.{RoutePlan, plan_errors}
use locus_mesh.Models.Decision.{AdmissionDecision, decision_errors, consistency_errors}
use locus_mesh.Policy.Digest.{topology_digest, policy_digest, topology_json, policy_json, plan_json}
use locus_mesh.Policy.Admit.{audit, decision, admit_plan}
use locus_mesh.Policy.Spec.{IsAdmissible}
use locus_mesh.Policy.Sound.{decision-admitted_iff}
use locus_mesh.Policy.Reasons.{audit-IsReason, not-contains_of_IsReason}

abbrev pub IsValidPlan : RoutePlan → Type 0
IsValidPlan plan = plan_errors plan ≡ []

validated_inv :
    {A : Type 0} (errors : A → List String) {x y : A} → validated errors x ≡ ok y → x ≡ y
unfolding validated
validated_inv errors {x} {y} h = ground arith

pub hop_count_of_IsValid :
    (plan : RoutePlan)
    → IsValidPlan plan
    → (1 ≤ length plan.hop_peer_ids) × (length plan.hop_peer_ids ≤ 64)
unfolding plan_errors
hop_count_of_IsValid plan h = ground arith

module _ (rt : Runtime) (plan : RoutePlan) (policy : AdmissionPolicy) (now : DateTime) where
  consistent : consistency_errors (decision rt plan policy now) ≡ []
  unfolding consistency_errors decision first_error
  consistent =
      let reasons = (audit rt plan policy now).reasons in
      let clear = contains-from_keys [] reasons "ADMITTED" (unfold contains in refl) in
      let none = not-contains_of_IsReason reasons (audit-IsReason rt plan policy now).each in
      let size = is_empty-from_keys reasons in
      elim (Bool-cases (is_empty reasons)) [
        | inl e ↦ rw e (ground arith)
        | inr e ↦ rw e (ground arith)
      ]

  -- The answer is a valid AdmissionDecision, so building it raises nothing.
  pub decision-IsValid :
      IsLawful rt
      → IsValidPlan plan
      → is_aware now ≡ true
      → decision_errors (decision rt plan policy now) ≡ []
  unfolding decision_errors decision topology_digest policy_digest
  decision-IsValid lawful valid aware =
      let (least, most) = hop_count_of_IsValid plan valid in
      let digest = is_digest-sha256_digest rt lawful in
      ground (
        arith,
        digest (plan_json rt plan),
        digest (policy_json rt policy),
        digest (topology_json rt policy.topology),
        consistent,
        eq_iff "locusmesh.admission-decision.v1" "locusmesh.admission-decision.v1",
      )

  pub admit_plan-eq-ok :
      IsLawful rt
      → IsValidPlan plan
      → is_aware now ≡ true
      → admit_plan rt plan policy now ≡ ok (decision rt plan policy now)
  unfolding admit_plan validated
  admit_plan-eq-ok lawful valid aware = rw (aware, decision-IsValid lawful valid aware)

  -- With lawful primitives, a valid plan and an aware time `admit_plan` returns; the decision keeps the contract of
  -- AdmissionDecision, and it admits the plan exactly if the plan is admissible.
  pub admit_plan_decides :
      IsLawful rt
      → IsValidPlan plan
      → is_aware now ≡ true
      → (d : AdmissionDecision) × (admit_plan rt plan policy now ≡ ok d)
        × (decision_errors d ≡ [])
        × ((d.admitted ≡ true) ↔ IsAdmissible rt plan policy now)
  admit_plan_decides lawful valid aware = (
    decision rt plan policy now,
    admit_plan-eq-ok lawful valid aware,
    decision-IsValid lawful valid aware,
    decision-admitted_iff rt plan policy now,
  )

  -- A naive verification time is refused, whatever the plan.
  pub admit_plan_naive :
      is_aware now ≡ false
      → admit_plan rt plan policy now
        ≡ err (value_error "timezone-aware verification time required")
  unfolding admit_plan
  admit_plan_naive naive = rw naive

  -- What `admit_plan` returns is the decision.
  pub admit_plan_inv :
      {d : AdmissionDecision}
      → admit_plan rt plan policy now ≡ ok d
      → decision rt plan policy now ≡ d
  unfolding admit_plan
  admit_plan_inv h =
      let (_, made) = guard-eq-ok (not (is_aware now)) _ _ h in validated_inv decision_errors made
