-- ===== src/Cli/Codes.antt =====
-- The exit codes of every command.
use mathlib.Core.Bool.{false≢true}
use locus_mesh.Base.{
  sym, ◌∙◌, subst, ℕ, ◌≡◌, refl, ◌↔◌, ◌≤◌, inl, inr, String, Bool, true, false, Option, List, arith,
  if◌then◌else◌,
}
use locus_mesh.Fail.{Result, ok, err, ◌>>=◌, ok-injective}
use locus_mesh.Runtime.{Runtime}
use locus_mesh.Models.Validate.Topology.{validate_topology}
use locus_mesh.Models.Fabric.{FabricObservation}
use locus_mesh.Models.Decision.{AdmissionDecision}
use locus_mesh.Replay.{Row}
use locus_mesh.Policy.Admit.{admit_plan}
use locus_mesh.Observer.Url.{new_observer}
use locus_mesh.Files.{snapshot}
use locus_mesh.Demo.{run_demo}
use locus_mesh.Schemas.{export_schemas}
use locus_mesh.Cli.{CliResult, decision_result, main, run_observe, run_admit, run_verify, verify_by}
use locus_mesh.Cli.Exit.{main_error_lem}
use locus_mesh.Cli.Run.{
  Command, doctor, demo, probe, observe_mesh_llm, admit, verify, schema_export, command_name, World,
  Effect, stored, exported, with_effect, alone, without_effect, load_policy, load_plan,
  load_attestation, stored_rows, run_probe, run_export, observed_now, run, main_command,
}

-- Success and exit code 0 go together, and a code is at most 5.
pub record IsCode (success : Bool) (code : ℕ) : Type 0 where
  pub agrees : (success ≡ true) ↔ (code ≡ 0)
  pub range : code ≤ 5

-- What a step returns, if it returns.
abbrev Always {ℓ} : {A : Type ℓ} → (A → Type 0) → Result A → Type ℓ
Always {A = A} P r = (x : A) → r ≡ ok x → P x

abbrev IsCoded : CliResult → Type 0
IsCoded x = IsCode x.ok x.exit_code

abbrev HasCode : Result CliResult → Type 0
HasCode r = Always IsCoded r

chosen-IsCode :
    (code : ℕ) (success : Bool) → 1 ≤ code → code ≤ 5 → IsCode success (if success then 0 else code)
chosen-IsCode code true least most = record { agrees = (λ e. refl, λ e. refl); range = omega arith }
chosen-IsCode code false least most = record {
  agrees = (λ e. cc, λ e. absurd (omega (arith, e, least)));
  range = most;
}

module _ {B : Type 0} (P : B → Type 0) where
  of_ok : (x : B) → P x → Always P (ok x)
  of_ok x holds y same = subst P (ok-injective same) holds

  of_bind :
      {A : Type 0} (step : Result A) (next : A → Result B)
      → ((a : A) → Always P (next a))
      → Always P (step >>= next)
  of_bind (ok a) next holds x same = holds a x same
  of_bind (err e) next holds x same = cc

of_alone : (r : Result CliResult) → HasCode r → HasCode (without_effect (alone r))
unfolding without_effect alone
of_alone (ok x) codes = codes
of_alone (err e) codes = codes

abbrev IsCodedWith : CliResult × Option (List Row) → Type 0
IsCodedWith p = IsCoded p.0

of_with_effect :
    {A : Type 0} (effect : A → Effect) (r : Result (CliResult × A))
    → Always (λ p. IsCoded p.0) r
    → HasCode (without_effect (with_effect effect r))
unfolding without_effect with_effect
of_with_effect effect (ok (x, a)) codes y same =
    subst IsCoded (ok-injective same) (codes (x, a) refl)
of_with_effect effect (err e) codes y same = cc

run_observe-HasCode : (o : Result FabricObservation) → HasCode (run_observe o)
unfolding run_observe
run_observe-HasCode o = of_bind IsCoded o _ λ made.
    of_ok IsCoded _ (chosen-IsCode 5 made.within_requested_scope (omega arith) (omega arith))

decision-HasCode :
    (code : ℕ) (d : AdmissionDecision) → 1 ≤ code → code ≤ 5 → HasCode (ok (decision_result code d))
decision-HasCode code d least most =
    of_ok IsCoded (decision_result code d) (chosen-IsCode code d.admitted least most)

success : IsCode true 0
success = record { agrees = (λ e. refl, λ e. refl); range = omega arith }

main-IsCode :
    (details : List String → String) (command : String) (r : Result CliResult)
    → HasCode r
    → IsCode (main details command r).1.ok (main details command r).0
unfolding main
main-IsCode details command (ok x) codes = codes x refl
main-IsCode details command (err e) codes =
    let (code, fails, empty) = main_error_lem details command e in
    elim code [
      | inl one ↦ record {
        agrees = (λ t. absurd (false≢true (sym fails ∙ t)), λ z. absurd (omega (arith, z, one)));
        range = omega (arith, one);
      }
      | inr two ↦ record {
        agrees = (λ t. absurd (false≢true (sym fails ∙ t)), λ z. absurd (omega (arith, z, two)));
        range = omega (arith, two);
      }
    ]

module _ (rt : Runtime) (w : World) where
  run-HasCode : (c : Command) → HasCode (without_effect (run rt w c))
  unfolding run without_effect run_admit run_verify with_effect run_probe run_export observed_now
  run-HasCode doctor = of_ok IsCoded _ success
  run-HasCode demo = of_alone _ (of_bind IsCoded (run_demo rt) _ λ d. of_ok IsCoded _ success)
  run-HasCode (probe topology) = of_alone _ (
      of_bind IsCoded (snapshot (validate_topology w.coercions) w.json_loads (w.file topology)) _
        λ t. of_ok IsCoded _ success)
  run-HasCode (observe_mesh_llm url scope timeout ttl) =
      of_alone _
        (of_bind IsCoded (new_observer w.urls url scope timeout ttl) _ λ o. run_observe-HasCode _)
  run-HasCode (admit policy plan) = of_alone _ (
      of_bind IsCoded (load_policy rt w policy) _ λ p. of_bind IsCoded (load_plan rt w plan) _ λ r.
        of_bind IsCoded (admit_plan rt r p w.now) _
          λ d. decision-HasCode 3 d (omega arith) (omega arith))
  run-HasCode (verify policy attestation nonce_store) = of_with_effect stored _ (
      of_bind IsCodedWith (load_policy rt w policy) _ λ p.
        of_bind IsCodedWith (load_attestation rt w attestation) _ λ a.
          of_bind IsCodedWith (verify_by rt w.now (stored_rows rt w nonce_store) w.fault a p) _
            λ d. of_ok IsCodedWith _ (chosen-IsCode 4 d.0.admitted (omega arith) (omega arith)))
  run-HasCode (schema_export out) = of_with_effect exported _ (
      let (paths, dir) =
        export_schemas w.schema_text (w.write_fault out) (w.mkdir_fault out) (w.directory out) in
      of_bind (λ p. IsCoded p.0) paths _ λ files. of_ok (λ p. IsCoded p.0) _ success)

  -- Whatever a command does, its envelope is ok exactly if `main` exits with 0, and the exit code is
  -- at most 5.
  pub main_command_codes :
      (details : List String → String) (c : Command)
      → IsCode (main_command rt w details c).1.ok (main_command rt w details c).0
  unfolding main_command
  main_command_codes details c = main-IsCode details (command_name c) _ (run-HasCode c)
