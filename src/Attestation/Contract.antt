-- ===== src/Attestation/Contract.antt =====
-- `model_copy` validates nothing, and still every decision of `verify_attestation` keeps the
-- contract of AdmissionDecision.
use locus_mesh.Attestation.ReasonCodes.{check_receipts-IsReason}
use Prim.Native.Nat.{min}
use locus_mesh.Base.{
  ℕ, ◌≤◌, String, ◌≡◌, refl, sym, subst, inl, inr, Bool, true, false, Option, some, List, [], ◌∷◌,
  arith, length, is_empty, contains, string_eq, contains-from_keys, is_empty-from_keys, Bool-cases,
  if-cases, if◌then◌else◌,
}
use locus_mesh.Fail.{ok, ◌>>=◌, ok-injective, bind-eq-ok}
use locus_mesh.Scope.{minimum_evidence}
use locus_mesh.Runtime.{Runtime, IsLawful, DateTime, is_aware}
use locus_mesh.Crypto.Shape.{is_digest-sha256_digest}
use locus_mesh.Models.Patterns.{is_digest, first_error}
use locus_mesh.Models.Topology.{AdmissionPolicy}
use locus_mesh.Models.Route.{RouteAttestation}
use locus_mesh.Models.Decision.{
  AdmissionDecision, attestation_verification, decision_errors, consistency_errors,
}
use locus_mesh.Policy.Admit.{decision, admit_plan}
use locus_mesh.Policy.Reasons.{AreReasons, fixed, when_last, one, not-contains_of_IsReason}
use locus_mesh.Policy.Total.{IsValidPlan, hop_count_of_IsValid, decision-IsValid, admit_plan_inv}
use locus_mesh.Replay.{ReplayStore}
use locus_mesh.Attestation.Outcome.{clean_iff}
use locus_mesh.Attestation.Verify.{
  Trail, check_receipts, consult, least_evidence, start, finish, conclude, attestation_hash, deny,
  as_verification, verify_attestation,
}

-- The two updates of a valid decision are valid.
deny-IsValid :
    (base : AdmissionDecision) (reasons : List String) (checked_hops : ℕ) (digest : String)
    → decision_errors base ≡ []
    → is_empty reasons ≡ false
    → AreReasons reasons
    → checked_hops ≤ 64
    → is_digest digest ≡ true
    → decision_errors (deny base reasons checked_hops digest) ≡ []
unfolding decision_errors consistency_errors first_error deny
deny-IsValid base reasons checked_hops digest valid some_reason are small shaped =
    let clear = contains-from_keys [] reasons "ADMITTED" (unfold contains in refl) in
    let absent = not-contains_of_IsReason reasons are.each in
    ground (arith, valid, clear, absent, is_empty-from_keys reasons, some_reason, small, shaped)

as_verification-IsValid :
    (base : AdmissionDecision) (digest : String)
    → decision_errors base ≡ []
    → is_digest digest ≡ true
    → decision_errors (as_verification base digest) ≡ []
unfolding decision_errors consistency_errors first_error
as_verification-IsValid base digest valid shaped = ground (arith, valid, shaped)

-- A decision within its contract that is about this attestation.
pub record IsSealed (digest : String) (d : AdmissionDecision) : Type 0 where
  pub contract : decision_errors d ≡ []
  pub kind : d.decision_kind ≡ attestation_verification
  pub lineage : d.attestation_digest ≡ some digest

module _ {S : Type 0} (rt : Runtime) (attestation : RouteAttestation) (policy : AdmissionPolicy)
    (now : DateTime) (store : Option (ReplayStore S)) (lawful : IsLawful rt)
    (valid_plan : IsValidPlan attestation.plan) (aware : is_aware now ≡ true) where
  abbrev hash : String
  hash = attestation_hash rt attestation policy now store

  abbrev base : AdmissionDecision
  base = decision rt attestation.plan policy now

  base_valid : decision_errors base ≡ []
  base_valid = decision-IsValid rt attestation.plan policy now lawful valid_plan aware

  hash_shaped : is_digest hash ≡ true
  hash_shaped = is_digest-sha256_digest rt lawful _

  deny-IsSealed :
      (reasons : List String) (checked_hops : ℕ)
      → is_empty reasons ≡ false
      → AreReasons reasons
      → checked_hops ≤ 64
      → IsSealed hash (deny base reasons checked_hops hash)
  unfolding deny
  deny-IsSealed reasons checked_hops some_reason are small = record {
    contract =
        deny-IsValid base reasons checked_hops hash base_valid some_reason are small hash_shaped;
    kind = refl;
    lineage = refl;
  }

  finish-IsSealed :
      (fresh : Bool) (t : Trail) (s s' : S) {d : AdmissionDecision}
      → length attestation.receipts ≤ 64
      → finish rt attestation policy now store fresh base t s ≡ ok (d, s')
      → IsSealed hash d
  unfolding finish
  finish-IsSealed true t s s' small h =
      let (level, least, made) = bind-eq-ok (least_evidence (minimum_evidence t.evidence)) _ h in
      subst (λ (p : AdmissionDecision × S). IsSealed hash p.0) (ok-injective made)
        (record {
          contract =
              unfold decision_errors consistency_errors first_error in
              as_verification-IsValid base hash base_valid hash_shaped;
          kind = refl;
          lineage = refl;
        })
  finish-IsSealed false t s s' small h =
      subst (λ (p : AdmissionDecision × S). IsSealed hash p.0) (ok-injective h)
        (deny-IsSealed ("REPLAY_DETECTED" ∷ []) _ refl (one _ (fixed "REPLAY_DETECTED" refl)) small)

  conclude-IsSealed :
      (t : Trail) (s s' : S) {d : AdmissionDecision}
      → check_receipts rt attestation.plan policy now 0 attestation.receipts
          (start rt attestation policy now store)
        ≡ ok t
      → conclude rt attestation policy now store base t s ≡ ok (d, s')
      → IsSealed hash d
  unfolding conclude
  conclude-IsSealed t s s' {d} ran h =
      let (least, most) = hop_count_of_IsValid attestation.plan valid_plan in
      elim (Bool-cases (is_empty t.reasons)) [
        | inl empty ↦
            let ((fresh, s1), asked, finished) =
              bind-eq-ok
                (consult store attestation.plan.nonce attestation.plan.request_commitment hash s)
                (λ (x : Bool × S). finish rt attestation policy now store x.0 base t x.1)
                (rw empty at h) in
            let (count, chain) = (clean_iff rt attestation policy now store t ran).0 empty in
            finish-IsSealed fresh t s1 s' (omega (arith, count, most)) finished
        | inr found ↦
            let are =
              check_receipts-IsReason rt attestation.plan policy now 0 attestation.receipts _ t ran
                (when_last _ _ (fixed "RECEIPT_COUNT_MISMATCH" refl)) in
            subst (λ (p : AdmissionDecision × S). IsSealed hash p.0) (ok-injective (rw found at h))
              (deny-IsSealed t.reasons
                (min (length attestation.receipts) (length attestation.plan.hop_peer_ids)) found are
                (omega (arith, most)))
      ]

  -- Whatever `verify_attestation` returns keeps the contract of AdmissionDecision, is a
  -- verification, and names the digest of the attestation.
  pub verify_attestation-IsSealed :
      (s s' : S) (d : AdmissionDecision)
      → verify_attestation rt attestation policy now store s ≡ ok (d, s')
      → IsSealed hash d
  unfolding verify_attestation
  verify_attestation-IsSealed s s' d h =
      let (made_base, decided, rest) = bind-eq-ok (admit_plan rt attestation.plan policy now) _ h in
      let same = admit_plan_inv rt attestation.plan policy now decided in
      let go =
        subst
          (λ (b : AdmissionDecision).
            (if b.admitted
              then (check_receipts rt attestation.plan policy now 0 attestation.receipts
                    (start rt attestation policy now store)
                  >>= λ t. conclude rt attestation policy now store b t s)
              else ok (as_verification b hash, s))
            ≡ ok (d, s'))
          (sym same) rest in
      elim (if-cases base.admitted _ _ go) [
        | inl (admitted, more) ↦
            let (t, ran, ended) =
              bind-eq-ok
                (check_receipts rt attestation.plan policy now 0 attestation.receipts
                  (start rt attestation policy now store))
                (λ t. conclude rt attestation policy now store base t s) more in
            conclude-IsSealed t s s' ran ended
        | inr (denied, made) ↦
            subst (λ (p : AdmissionDecision × S). IsSealed hash p.0) (ok-injective made)
              (record {
                contract = as_verification-IsValid base hash base_valid hash_shaped;
                kind = refl;
                lineage = refl;
              })
      ]
