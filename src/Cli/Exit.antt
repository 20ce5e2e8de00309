-- ===== src/Cli/Exit.antt =====
-- Exit code 0 is an admission, and no error is one.
use locus_mesh.Base.{
  Option, ℕ, ◌≡◌, refl, ◌↔◌, ◌⊎◌, inl, inr, String, true, false, none, some, List, arith,
  Bool-cases,
}
use locus_mesh.Fail.{Exn, ok, err}
use locus_mesh.Runtime.{Runtime, IsLawful, DateTime, is_aware}
use locus_mesh.Models.Topology.{AdmissionPolicy}
use locus_mesh.Models.Route.{RoutePlan, RouteAttestation}
use locus_mesh.Models.Decision.{AdmissionDecision}
use locus_mesh.Policy.Spec.{IsAdmissible}
use locus_mesh.Policy.Total.{IsValidPlan, admit_plan_decides}
use locus_mesh.Replay.{Row, open_store, sqlite_port, has_nonce}
use locus_mesh.Replay.Laws.{record_if_new_lem, connect_open}
use locus_mesh.Attestation.Verify.{consult, attestation_hash}
use locus_mesh.Attestation.Spec.{IsVerified}
use locus_mesh.Attestation.Returns.{IsValidPolicy}
use locus_mesh.Attestation.Outcome.{verify_attestation_decides}
use locus_mesh.Cli.{Envelope, main, decision_result, run_admit, run_verify, verify_by, result_of}

-- An exit code that is 0 if the decision is one way and another code if it is not.
pub record IsDecided (P : Type 0) (denied : ℕ) (out : ℕ × Envelope) : Type 0 where
  pub code : ((out.0 ≡ 0) × P) ⊎ ((out.0 ≡ denied) × (¬ P))
  pub says : (out.1.ok ≡ true) ↔ P

exit-IsDecided :
    {P : Type 0} (denied : ℕ) (details : List String → String) (command : String)
    (d : AdmissionDecision)
    → ((d.admitted ≡ true) ↔ P)
    → IsDecided P denied (main details command (ok (decision_result denied d)))
unfolding main
exit-IsDecided denied details command d (to, from) = elim (Bool-cases d.admitted) [
  | inl granted ↦ record { code = inl (rw granted refl, to granted); says = (to, from) }
  | inr denies ↦ record { code = inr (rw denies refl, λ p. cc (from p)); says = (to, from) }
]

-- With lawful primitives, an aware time, and a policy and a valid plan that load: `admit` exits with
-- 0 and says ok if the plan is admissible, and exits with 3 and does not otherwise.
pub admit_exit :
    (rt : Runtime) (now : DateTime) (plan : RoutePlan) (policy : AdmissionPolicy)
    (details : List String → String)
    → IsLawful rt
    → IsValidPlan plan
    → is_aware now ≡ true
    → IsDecided
        (IsAdmissible rt plan policy now)
        3
        (main details "admit" (run_admit rt now (ok policy) (ok plan)))
unfolding run_admit
admit_exit rt now plan policy details lawful valid aware =
    let (d, ran, contract, decides) = admit_plan_decides rt plan policy now lawful valid aware in
    rw ran (exit-IsDecided 3 details "admit" d decides)

-- With lawful primitives, an aware time, and a valid policy and an attestation of a valid plan that
-- load: `verify` without a nonce store exits with 0 and says ok if the attestation is verified, and
-- exits with 4 and does not otherwise.
pub verify_exit :
    (rt : Runtime) (now : DateTime) (attestation : RouteAttestation) (policy : AdmissionPolicy)
    (details : List String → String)
    → IsLawful rt
    → IsValidPlan attestation.plan
    → IsValidPolicy policy
    → is_aware now ≡ true
    → IsDecided (IsVerified rt attestation policy now) 4 (
        main details "verify"
          (result_of (run_verify rt now none none (ok policy) (ok attestation))))
unfolding run_verify verify_by result_of consult
verify_exit rt now attestation policy details lawful valid_plan valid_policy aware =
    let (d, last, ran, outcome) =
      verify_attestation_decides {S = Unit {0}} rt attestation policy now none lawful valid_plan
        valid_policy aware true tt tt refl in
    let (to, from) = outcome.admits in
    rw ran (exit-IsDecided 4 details "verify" d (λ a. (to a).0, λ v. from (v, refl)))

-- With lawful primitives, an aware time, and a valid policy and an attestation of a valid plan that
-- load: `verify` with a nonce store on a file, and no error of SQLite, exits with 0 and says ok if
-- the attestation is verified and its nonce is in no row of the file, and exits with 4 and does not
-- otherwise.
pub verify_exit_stored :
    (rt : Runtime) (now : DateTime) (attestation : RouteAttestation) (policy : AdmissionPolicy)
    (details : List String → String) (rows : List Row)
    → IsLawful rt
    → IsValidPlan attestation.plan
    → IsValidPolicy policy
    → is_aware now ≡ true
    → IsDecided
        (IsVerified rt attestation policy now × (has_nonce attestation.plan.nonce rows ≡ false))
        4
        (main details "verify"
          (result_of (run_verify rt now (some rows) none (ok policy) (ok attestation))))
unfolding run_verify verify_by result_of consult sqlite_port
verify_exit_stored rt now attestation policy details rows lawful valid_plan valid_policy aware =
    let store = open_store false rows in
    let nonce = attestation.plan.nonce in
    let (fresh, after, answered, recorded) =
      record_if_new_lem nonce attestation.plan.request_commitment
        (attestation_hash rt attestation policy now (some (sqlite_port none))) store in
    let (d, last, ran, outcome) =
      verify_attestation_decides rt attestation policy now (some (sqlite_port none)) lawful
        valid_plan valid_policy aware fresh store after answered in
    let (to, from) = outcome.admits in
    let known = connect_open nonce rows in
    rw ran (
      exit-IsDecided 4 details "verify" d (
        λ a. ((to a).0, ground (arith, (to a).1, recorded.answer, known)),
        λ v. from (v.0, ground (arith, v.1, recorded.answer, known)),
      ))

same_decision :
    {P Q : Type 0} {denied : ℕ} {out : ℕ × Envelope}
    → P ↔ Q
    → IsDecided P denied out
    → IsDecided Q denied out
same_decision (to, from) h = record {
  code = elim h.code [
    | inl (zero_code, p) ↦ inl (zero_code, to p)
    | inr (other, no_p) ↦ inr (other, λ q. no_p (from q))
  ];
  says = (λ t. to (h.says.0 t), λ q. h.says.1 (from q));
}

abbrev pub NotStored : String → Option (List Row) → Type 0
NotStored nonce none = Unit
NotStored nonce (some rows) = has_nonce nonce rows ≡ false

-- With lawful primitives, an aware time, a valid policy and an attestation of a valid plan that load,
-- and no error of SQLite: `verify` exits with 0 and says ok if the attestation is verified and its
-- nonce is in no row of the store, if one is named, and exits with 4 and does not say ok otherwise.
pub verify_exits :
    (rt : Runtime) (now : DateTime) (attestation : RouteAttestation) (policy : AdmissionPolicy)
    (details : List String → String) (nonce_store : Option (List Row))
    → IsLawful rt
    → IsValidPlan attestation.plan
    → IsValidPolicy policy
    → is_aware now ≡ true
    → IsDecided
        (IsVerified rt attestation policy now × NotStored attestation.plan.nonce nonce_store)
        4
        (main details "verify"
          (result_of (run_verify rt now nonce_store none (ok policy) (ok attestation))))
verify_exits rt now attestation policy details none lawful valid_plan valid_policy aware =
    same_decision (λ v. (v, tt), λ v. v.0)
      (verify_exit rt now attestation policy details lawful valid_plan valid_policy aware)
verify_exits rt now attestation policy details (some rows) lawful valid_plan valid_policy aware =
    verify_exit_stored rt now attestation policy details rows lawful valid_plan valid_policy aware

-- Whatever a command raises, `main` exits with 1 or 2, and its envelope is not ok and has no data.
pub main_error_lem :
    (details : List String → String) (command : String) (e : Exn)
    → (((main details command (err e)).0 ≡ 1) ⊎ ((main details command (err e)).0 ≡ 2))
      × ((main details command (err e)).1.ok ≡ false)
      × ((main details command (err e)).1.data_of ≡ none)
unfolding main
main_error_lem details command e = ground arith
