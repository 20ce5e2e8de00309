-- ===== src/Cli/Safety.antt =====
-- Exit code 0 means an admission, whatever the files hold and whatever goes wrong.
use locus_mesh.Cli.Loaded.{
  load_json_model-IsValid, load_yaml_model-IsValid, command_zero, without_effect-alone,
  without_effect-with_effect, decision_zero, plan_of_IsValid, unseen,
}
use mathlib.Core.Bool.{false≢true}
use locus_mesh.Base.{
  ◌≡◌, refl, sym, ap, ◌∙◌, inl, inr, String, Bool, true, false, Option, none, some, List, arith,
}
use locus_mesh.Fail.{ok, bind-eq-ok, ok-injective}
use locus_mesh.Runtime.{Runtime, IsLawful, DateTime, is_aware}
use locus_mesh.Models.Topology.{AdmissionPolicy, policy_errors}
use locus_mesh.Models.Validated.{
  validate_plan-IsRead, validate_attestation-IsRead, validate_policy-IsRead,
}
use locus_mesh.Models.Route.{RoutePlan, RouteAttestation, plan_errors, attestation_errors}
use locus_mesh.Models.Decision.{AdmissionDecision}
use locus_mesh.Policy.Spec.{IsAdmissible}
use locus_mesh.Policy.Total.{IsValidPlan, admit_plan_decides}
use locus_mesh.Replay.{ReplayStore, Row, StoreFault, open_store, sqlite_port, record_if_new}
use locus_mesh.Replay.Laws.{record_if_new_lem, connect_open}
use locus_mesh.Policy.Admit.{admit_plan}
use locus_mesh.Attestation.Outcome.{verify_attestation_decides}
use locus_mesh.Attestation.Verify.{attestation_hash, verify_attestation, consult}
use locus_mesh.Attestation.Spec.{IsVerified}
use locus_mesh.Attestation.Returns.{IsValidPolicy}
use locus_mesh.Attestation.Session.{verify_inv}
use locus_mesh.Cli.{CliResult, decision_result, run_admit, run_verify, verify_by}
use locus_mesh.Cli.Run.{
  admit, verify, World, stored, load_policy, load_plan, load_attestation, stored_rows, run,
  main_command,
}

module _ (rt : Runtime) (now : DateTime) (attestation : RouteAttestation) (policy : AdmissionPolicy)
    (lawful : IsLawful rt) (aware : is_aware now ≡ true) (valid_policy : IsValidPolicy policy)
    (valid : IsValidPlan attestation.plan) where
  pub admitted-IsVerified :
      {S : Type 0} (store : Option (ReplayStore S)) (fresh : Bool) (s s' last : S)
      (d : AdmissionDecision)
      → consult store attestation.plan.nonce attestation.plan.request_commitment
          (attestation_hash rt attestation policy now store)
          s
        ≡ ok (fresh, s')
      → verify_attestation rt attestation policy now store s ≡ ok (d, last)
      → d.admitted ≡ true
      → IsVerified rt attestation policy now × (fresh ≡ true)
  admitted-IsVerified store fresh s s' last d answered ran admitted =
      let (d', last', ran', outcome) =
        verify_attestation_decides rt attestation policy now store lawful valid valid_policy aware
          fresh s s' answered in
      let same = ap (λ (p : AdmissionDecision × _). p.0.admitted) (ok-injective (sym ran' ∙ ran)) in
      outcome.admits.0 (same ∙ admitted)

  verify_by_zero :
      (nonce_store : Option (List Row)) (fault : Option StoreFault) (d : AdmissionDecision)
      (after : Option (List Row))
      → verify_by rt now nonce_store fault attestation policy ≡ ok (d, after)
      → d.admitted ≡ true
      → IsVerified rt attestation policy now × (unseen attestation.plan.nonce nonce_store ≡ true)
  unfolding verify_by unseen consult sqlite_port record_if_new
  verify_by_zero none fault d after ran admitted =
      let ((d', s), decided, made) =
        bind-eq-ok (verify_attestation {S = Unit {0}} rt attestation policy now none tt) _ ran in
      let same =
        ap (λ (p : AdmissionDecision × Option (List Row)). p.0.admitted) (ok-injective made) in
      let (verified, fresh) =
        admitted-IsVerified none true tt tt s d' refl decided (same ∙ admitted) in
      (verified, refl)
  verify_by_zero (some rows) none d after ran admitted =
      let store = open_store false rows in
      let nonce = attestation.plan.nonce in
      let ((d', s), decided, made) =
        bind-eq-ok (verify_attestation rt attestation policy now (some (sqlite_port none)) store) _
          ran in
      let same =
        ap (λ (p : AdmissionDecision × Option (List Row)). p.0.admitted) (ok-injective made) in
      let (fresh, last, answered, recorded) =
        record_if_new_lem nonce attestation.plan.request_commitment
          (attestation_hash rt attestation policy now (some (sqlite_port none))) store in
      let (verified, new) =
        admitted-IsVerified (some (sqlite_port none)) fresh store last s d' answered decided
          (same ∙ admitted) in
      (verified, ground (arith, new, recorded.answer, connect_open nonce rows))
  verify_by_zero (some rows) (some f) d after ran admitted =
      let store = open_store false rows in
      let ((d', s), decided, made) =
        bind-eq-ok
          (verify_attestation rt attestation policy now (some (sqlite_port (some f))) store) _
          ran in
      let same =
        ap (λ (p : AdmissionDecision × Option (List Row)). p.0.admitted) (ok-injective made) in
      elim (verify_inv rt attestation policy now (some (sqlite_port (some f))) store s decided) [
        | inl (denied, kept) ↦ absurd (false≢true (sym denied ∙ same ∙ admitted))
        | inr (fresh, asked, only) ↦ cc asked
      ]

module _ (rt : Runtime) (w : World) (details : List String → String) (lawful : IsLawful rt)
    (aware : is_aware w.now ≡ true) where
  -- With lawful primitives and an aware time, whatever the files hold: if `admit` exits with 0, then its two files load, and the plan in the one is admissible under the policy
  -- in the other.
  pub admit_zero :
      (policy_path plan_path : String)
      → (main_command rt w details (admit policy_path plan_path)).0 ≡ 0
      → (policy : AdmissionPolicy) × (plan : RoutePlan) × (load_policy rt w policy_path ≡ ok policy)
        × (load_plan rt w plan_path ≡ ok plan)
        × IsAdmissible rt plan policy w.now
  unfolding run run_admit load_plan
  admit_zero policy_path plan_path zero =
      let (x, ran, code) = command_zero rt w details (admit policy_path plan_path) zero in
      let (policy, loaded, rest) =
        bind-eq-ok (load_policy rt w policy_path) _ (without_effect-alone _ x ran) in
      let (plan, read, rest1) = bind-eq-ok (load_plan rt w plan_path) _ rest in
      let (d, decided, made) =
        bind-eq-ok (admit_plan rt plan policy w.now) (λ d. ok (decision_result 3 d)) rest1 in
      let kept =
        load_json_model-IsValid _ plan_errors _ _ plan
          (λ j x h. (validate_plan-IsRead w.coercions j x h).kept) read in
      let (d', decided', contract, decides) =
        admit_plan_decides rt plan policy w.now lawful kept aware in
      let same = ok-injective (sym decided' ∙ decided) in
      let admitted =
        decision_zero 3 d (λ e. omega (arith, e))
          (ap (λ (y : CliResult). y.exit_code) (ok-injective made) ∙ code) in
      (
        policy,
        plan,
        loaded,
        read,
        decides.0 (ap (λ (e : AdmissionDecision). e.admitted) same ∙ admitted),
      )

  -- With lawful primitives and an aware time, whatever the files hold and whatever SQLite raises:
  -- if `verify` exits with 0, then its two files load, the attestation in the one is
  -- verified under the policy in the other, and the nonce is in no row of the nonce store, if one
  -- is named.
  pub verify_zero :
      (policy_path attestation_path : String) (nonce_store : Option String)
      → (main_command rt w details (verify policy_path attestation_path nonce_store)).0 ≡ 0
      → (policy : AdmissionPolicy) × (attestation : RouteAttestation) × (load_policy rt w
            policy_path
          ≡ ok policy)
        × (load_attestation rt w attestation_path ≡ ok attestation)
        × IsVerified rt attestation policy w.now
        × (unseen attestation.plan.nonce (stored_rows rt w nonce_store) ≡ true)
  unfolding run run_verify load_policy load_attestation attestation_errors
  verify_zero policy_path attestation_path nonce_store zero =
      let (x, ran, code) =
        command_zero rt w details (verify policy_path attestation_path nonce_store) zero in
      let (rows, ran1) = without_effect-with_effect stored _ x ran in
      let (policy, loaded, rest) = bind-eq-ok (load_policy rt w policy_path) _ ran1 in
      let (attestation, read, rest1) = bind-eq-ok (load_attestation rt w attestation_path) _ rest in
      let ((d, after), decided, made) =
        bind-eq-ok (verify_by rt w.now (stored_rows rt w nonce_store) w.fault attestation policy) _
          rest1 in
      let kept =
        load_json_model-IsValid _ attestation_errors _ _ attestation
          (λ j x h. (validate_attestation-IsRead w.coercions j x h).kept) read in
      let kept_policy =
        load_yaml_model-IsValid _ policy_errors _ _ policy
          (λ j x h. (validate_policy-IsRead w.coercions j x h).kept) loaded in
      let admitted =
        decision_zero 4 d (λ e. omega (arith, e))
          (ap (λ (y : CliResult × Option (List Row)). y.0.exit_code) (ok-injective made) ∙ code) in
      let (verified, fresh) =
        verify_by_zero rt w.now attestation policy lawful aware kept_policy
          (plan_of_IsValid attestation kept) (stored_rows rt w nonce_store) w.fault d after decided
          admitted in
      (policy, attestation, loaded, read, verified, fresh)
