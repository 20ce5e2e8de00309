-- ===== src/Examples/Denied.antt =====
-- A plan that is looked at too late, and a second verification with one nonce.
use locus_mesh.Base.{String, ◌≡◌, ◌↔◌, ◌⊎◌, refl, false, some, none, In, Caused}
use locus_mesh.Fail.{ok}
use locus_mesh.Models.Decision.{AdmissionDecision}
use locus_mesh.Policy.Admit.{decision, admit_plan}
use locus_mesh.Policy.Spec.{IsAdmissible}
use locus_mesh.Policy.Causes.{plan_causes}
use locus_mesh.Policy.Denied.{admit_plan_denied}
use locus_mesh.Replay.{sqlite_port, close}
use locus_mesh.Attestation.Verify.{deny}
use locus_mesh.Attestation.Spec.{IsVerified}
use locus_mesh.Attestation.Causes.{attestation_causes}
use locus_mesh.Attestation.Denied.{verify_attestation_denied}
use locus_mesh.Examples.Runs.{plan_admission}
use locus_mesh.Examples.Witnesses.{second_decision, second_run, used_store}
use locus_mesh.Examples.Data.{constant, at, policy, plan, attestation}

abbrev late : AdmissionDecision
late = decision constant plan policy (at 100000)

late_run : admit_plan constant plan policy (at 100000) ≡ ok late
unfolding plan_admission
late_run = refl

late_denied : late.admitted ≡ false
unfolding plan_admission
late_denied = refl

admit_plan_denied_example :
    In "PLAN_EXPIRED" late.reason_codes
    ↔ Caused "PLAN_EXPIRED" (plan_causes constant plan policy (at 100000))
admit_plan_denied_example =
    admit_plan_denied constant plan policy (at 100000) late late_run late_denied "PLAN_EXPIRED"

verify_attestation_denied_example : In "REPLAY_DETECTED" second_decision.reason_codes ↔ (
    ((¬ IsAdmissible constant attestation.plan policy (at 500))
      × Caused "REPLAY_DETECTED" (plan_causes constant attestation.plan policy (at 500)))
    ⊎ ((IsAdmissible constant attestation.plan policy (at 500)
          × Caused "REPLAY_DETECTED" (attestation_causes constant attestation policy (at 500)))
        ⊎ (IsVerified constant attestation policy (at 500)
            × (◌≡◌ {A = String} "REPLAY_DETECTED" "REPLAY_DETECTED"))))
unfolding deny
verify_attestation_denied_example =
    verify_attestation_denied constant attestation policy (at 500) (some (sqlite_port none))
      second_decision (close used_store) used_store second_run refl "REPLAY_DETECTED"
