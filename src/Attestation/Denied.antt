-- ===== src/Attestation/Denied.antt =====
-- verify_attestation of attestation.py: why an attestation is denied.
use mathlib.Core.Bool.{false≢true}
use locus_mesh.Base.{
  String, ◌≡◌, sym, ap, ◌∙◌, subst, ◌↔◌, ◌⊎◌, inl, inr, Bool, true, false, Option, [], ◌∷◌, length,
  nat_eq, string_eq, is_empty, is_empty_iff, from_keys, contains, In, Bool-cases, if-cases, Caused,
  Explains, explain_when, explain-from_keys,
}
use locus_mesh.Fail.{ok, bind-eq-ok, ok-injective}
use locus_mesh.Scope.{minimum_evidence}
use locus_mesh.Runtime.{Runtime, DateTime}
use locus_mesh.Models.Topology.{AdmissionPolicy}
use locus_mesh.Models.Route.{RouteAttestation}
use locus_mesh.Models.Decision.{AdmissionDecision}
use locus_mesh.Policy.Admit.{admit_plan, decision}
use locus_mesh.Policy.Spec.{IsAdmissible}
use locus_mesh.Policy.Sound.{decision-admitted_iff}
use locus_mesh.Policy.Total.{admit_plan_inv}
use locus_mesh.Policy.Causes.{plan_causes}
use locus_mesh.Policy.Denied.{admit_plan_denied}
use locus_mesh.Replay.{ReplayStore}
use locus_mesh.Attestation.Verify.{
  Trail, check_receipts, consult, least_evidence, start, finish, conclude, deny, attestation_hash,
  verify_attestation,
}
use locus_mesh.Attestation.Spec.{IsVerified}
use locus_mesh.Attestation.Outcome.{clean_iff}
use locus_mesh.Attestation.Causes.{attestation_causes}
use locus_mesh.Attestation.Reasoned.{unequal_iff}
use locus_mesh.Attestation.ReasonedChain.{check_receipts-Explains}

-- The reasons of the result of a run, as `conclude` and `finish` give them.
module _ {S : Type 0} (rt : Runtime) (a : RouteAttestation) (policy : AdmissionPolicy)
    (now : DateTime) (store : Option (ReplayStore S)) where
  -- Why a verification denies: the plan is not admissible, something is to be said against the
  -- receipts, or all is well and the nonce was used.
  abbrev pub Reason : String → Type 0
  Reason code =
      ((¬ IsAdmissible rt a.plan policy now) × Caused code (plan_causes rt a.plan policy now))
      ⊎ ((IsAdmissible rt a.plan policy now × Caused code (attestation_causes rt a policy now))
          ⊎ (IsVerified rt a policy now × ("REPLAY_DETECTED" ≡ code)))

  start-Explains :
      (t : Trail)
      → check_receipts rt a.plan policy now 0 a.receipts (start rt a policy now store) ≡ ok t
      → Explains t.reasons (attestation_causes rt a policy now)
  start-Explains t ran =
      check_receipts-Explains rt a.plan policy now 0 a.receipts (start rt a policy now store) t _
        ran (explain_when _ _ (unequal_iff (length a.receipts) (length a.plan.hop_peer_ids)))

  unadmitted :
      (code : String)
      → ¬ IsAdmissible rt a.plan policy now
      → Caused code (plan_causes rt a.plan policy now) ↔ Reason code
  unadmitted code n = (
    λ c. inl (n, c),
    λ r. elim r [
      | inl (_, c) ↦ c
      | inr later ↦ elim later [
        | inl (yes_adm, _) ↦ absurd (n yes_adm)
        | inr (v, _) ↦ absurd (n v.admissible)
      ]
    ],
  )

  flawed :
      (code : String)
      → IsAdmissible rt a.plan policy now
      → ¬ IsVerified rt a policy now
      → Caused code (attestation_causes rt a policy now) ↔ Reason code
  flawed code adm n = (
    λ c. inr (inl (adm, c)),
    λ r. elim r [
      | inl (never, _) ↦ absurd (never adm)
      | inr later ↦ elim later [ inl (_, c) ↦ c | inr (v, _) ↦ absurd (n v) ]
    ],
  )

  replayed :
      (code : String)
      → IsVerified rt a policy now
      → ¬ Caused code (attestation_causes rt a policy now)
      → In code ("REPLAY_DETECTED" ∷ []) ↔ Reason code
  replayed code v n = (
    λ i. elim i [ inl same ↦ inr (inr (v, same)) | inr never ↦ absurd never ],
    λ r. elim r [
      | inl (never, _) ↦ absurd (never v.admissible)
      | inr later ↦ elim later [ inl (_, c) ↦ absurd (n c) | inr (_, same) ↦ inl same ]
    ],
  )

  finished_denied :
      (fresh : Bool) (base d : AdmissionDecision) (t : Trail) (s s' : S)
      → base.admitted ≡ true
      → finish rt a policy now store fresh base t s ≡ ok (d, s')
      → d.admitted ≡ false
      → "REPLAY_DETECTED" ∷ [] ≡ d.reason_codes
  unfolding finish deny from_keys contains
  finished_denied true base d t s s' adm h denied =
      let (level, least, made) = bind-eq-ok (least_evidence (minimum_evidence t.evidence)) _ h in
      absurd (
        false≢true (
          sym denied
          ∙ sym (ap (λ (p : AdmissionDecision × S). p.0.admitted) (ok-injective made))
          ∙ adm))
  finished_denied false base d t s s' adm h denied =
      ap (λ (p : AdmissionDecision × S). p.0.reason_codes) (ok-injective h)

  concluded_denied :
      (d : AdmissionDecision) (t : Trail) (s s' : S)
      → (decision rt a.plan policy now).admitted ≡ true
      → check_receipts rt a.plan policy now 0 a.receipts (start rt a policy now store) ≡ ok t
      → conclude rt a policy now store (decision rt a.plan policy now) t s ≡ ok (d, s')
      → d.admitted ≡ false
      → (code : String) → In code d.reason_codes ↔ Reason code
  unfolding conclude deny
  concluded_denied d t s s' adm ran h denied code =
      let admissible = (decision-admitted_iff rt a.plan policy now).0 adm in
      let explained = start-Explains t ran in
      elim (Bool-cases (is_empty t.reasons)) [
        | inl empty ↦
            let ((fresh, s1), asked, ended) =
              bind-eq-ok
                (consult store a.plan.nonce a.plan.request_commitment
                  (attestation_hash rt a policy now store) s)
                (λ (x : Bool × S).
                  finish rt a policy now store x.0 (decision rt a.plan policy now) t x.1)
                (rw empty at h) in
            let (count, chain) = (clean_iff rt a policy now store t ran).0 empty in
            let v : IsVerified rt a policy now = record {
              admissible = admissible;
              count = count;
              chain = chain;
            } in
            let nothing = (is_empty_iff t.reasons).0 empty in
            let quiet : ¬ Caused code (attestation_causes rt a policy now) =
              λ c. subst (λ codes. In code codes) nothing ((explained.each code).1 c) in
            subst (λ codes. In code codes ↔ Reason code)
              (finished_denied fresh (decision rt a.plan policy now) d t s1 s' adm ended denied)
              (replayed code v quiet)
        | inr found ↦
            let unverified : ¬ IsVerified rt a policy now = λ v.
              false≢true
                (sym found ∙ (clean_iff rt a policy now store t ran).1 (v.count, v.chain)) in
            let (to, from) = flawed code admissible unverified in
            let (to', from') = (explain-from_keys explained).each code in
            subst (λ codes. In code codes ↔ Reason code)
              (ap (λ (p : AdmissionDecision × S). p.0.reason_codes) (ok-injective (rw found at h)))
              (λ i. to (to' i), λ r. from' (from r))
      ]

  -- A decision of `verify_attestation` that denies has a reason code exactly if the plan is not
  -- admissible and what the code says of the plan is the case, or the plan is admissible and what the
  -- code says of the receipts is the case, or the attestation is verified and the code is that of a
  -- used nonce.
  pub verify_attestation_denied :
      (d : AdmissionDecision) (s s' : S)
      → verify_attestation rt a policy now store s ≡ ok (d, s')
      → d.admitted ≡ false
      → (code : String)
      → In code d.reason_codes ↔ (
          ((¬ IsAdmissible rt a.plan policy now) × Caused code (plan_causes rt a.plan policy now))
          ⊎ ((IsAdmissible rt a.plan policy now × Caused code (attestation_causes rt a policy now))
              ⊎ (IsVerified rt a policy now × ("REPLAY_DETECTED" ≡ code))))
  unfolding verify_attestation
  verify_attestation_denied d s s' h denied code =
      let (base, decided, rest) = bind-eq-ok (admit_plan rt a.plan policy now) _ h in
      let same = admit_plan_inv rt a.plan policy now decided in
      elim (if-cases base.admitted _ _ rest) [
        | inl (adm, go) ↦
            let (t, ran, ended) =
              bind-eq-ok
                (check_receipts rt a.plan policy now 0 a.receipts (start rt a policy now store))
                (λ t. conclude rt a policy now store base t s) go in
            concluded_denied d t s s' (ap (λ (x : AdmissionDecision). x.admitted) same ∙ adm) ran
              (ap (λ b. conclude rt a policy now store b t s) same ∙ ended) denied code
        | inr (not_adm, made) ↦
            let unadmissible : ¬ IsAdmissible rt a.plan policy now = λ adm. false≢true (
              sym not_adm
              ∙ sym (ap (λ (x : AdmissionDecision). x.admitted) same)
              ∙ (decision-admitted_iff rt a.plan policy now).1 adm) in
            let (to, from) = unadmitted code unadmissible in
            let (to', from') = admit_plan_denied rt a.plan policy now base decided not_adm code in
            subst (λ codes. In code codes ↔ Reason code)
              (ap (λ (p : AdmissionDecision × S). p.0.reason_codes) (ok-injective made))
              (λ i. to (to' i), λ r. from' (from r))
      ]
