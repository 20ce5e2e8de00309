-- ===== src/Cli/Loaded.antt =====
-- What exit code 0 says of a run: its files loaded, and what they hold keeps its contract.
use locus_mesh.Base.{
  ℕ, ◌≡◌, refl, ap, inl, inr, String, Bool, not, true, Option, none, some, List, [], arith,
}
use locus_mesh.Fail.{Result, ok, err, bind-eq-ok, ok-injective}
use locus_mesh.Runtime.{Runtime}
use locus_mesh.Files.{InputFile, ParserWithHook, read_bounded, load_json_model, load_yaml_model}
use locus_mesh.Json.{Json}
use locus_mesh.Models.Route.{RouteAttestation, attestation_errors}
use locus_mesh.Models.Decision.{AdmissionDecision}
use locus_mesh.Policy.Total.{IsValidPlan}
use locus_mesh.Replay.{Row, has_nonce}
use locus_mesh.Observer.Payload.{reject_duplicate_keys}
use locus_mesh.Cli.{CliResult, main, decision_result}
use locus_mesh.Cli.Exit.{main_error_lem}
use locus_mesh.Cli.Run.{
  Command, command_name, World, Effect, with_effect, alone, run, without_effect, main_command,
}

-- model_validate returns nothing that breaks the contract.
abbrev pub IsValidator : {A : Type 0} → (Json → Result A) → (A → List String) → Type 0
IsValidator {A = A} validate errors = (j : Json) (x : A) → validate j ≡ ok x → errors x ≡ []

pub load_json_model-IsValid :
    {A : Type 0} (validate : Json → Result A) (errors : A → List String) (loads : ParserWithHook)
    (path : InputFile) (x : A)
    → IsValidator validate errors
    → load_json_model validate loads path ≡ ok x
    → errors x ≡ []
unfolding load_json_model
load_json_model-IsValid validate errors loads path x valid loaded =
    let (text, _, rest) = bind-eq-ok (read_bounded path) _ loaded in
    let (j, _, made) =
      bind-eq-ok (loads (reject_duplicate_keys "duplicate key: " []) text) validate rest in
    valid j x made

pub load_yaml_model-IsValid :
    {A : Type 0} (validate : Json → Result A) (errors : A → List String)
    (load : String → Result Json) (path : InputFile) (x : A)
    → IsValidator validate errors
    → load_yaml_model validate load path ≡ ok x
    → errors x ≡ []
unfolding load_yaml_model
load_yaml_model-IsValid validate errors load path x valid loaded =
    let (text, _, rest) = bind-eq-ok (read_bounded path) _ loaded in
    let (j, _, made) = bind-eq-ok (load text) validate rest in valid j x made

-- Exit code 0 is a result with that code: an error has another.
main_zero :
    (details : List String → String) (command : String) (r : Result CliResult)
    → (main details command r).0 ≡ 0
    → (x : CliResult) × (r ≡ ok x) × (x.exit_code ≡ 0)
unfolding main
main_zero details command (ok x) zero = (x, refl, zero)
main_zero details command (err e) zero = elim (main_error_lem details command e).0 [
  | inl one ↦ absurd (omega (arith, zero, one))
  | inr two ↦ absurd (omega (arith, zero, two))
]

pub command_zero :
    (rt : Runtime) (w : World) (details : List String → String) (c : Command)
    → (main_command rt w details c).0 ≡ 0
    → (x : CliResult) × (without_effect (run rt w c) ≡ ok x) × (x.exit_code ≡ 0)
unfolding main_command
command_zero rt w details c zero =
    main_zero details (command_name c) (without_effect (run rt w c)) zero

pub without_effect-alone :
    (r : Result CliResult) (x : CliResult) → without_effect (alone r) ≡ ok x → r ≡ ok x
unfolding without_effect alone
without_effect-alone (ok r) x h = h
without_effect-alone (err e) x h = h

pub without_effect-with_effect :
    {A : Type 0} (effect : A → Effect) (r : Result (CliResult × A)) (x : CliResult)
    → without_effect (with_effect effect r) ≡ ok x
    → (a : A) × (r ≡ ok (x, a))
unfolding without_effect with_effect
without_effect-with_effect effect (ok (r, a)) x h = (a, ap (λ y. ok (y, a)) (ok-injective h))
without_effect-with_effect effect (err e) x h = cc

-- Only an admitted decision exits with 0.
pub decision_zero :
    (code : ℕ) (d : AdmissionDecision)
    → ¬ (code ≡ 0)
    → (decision_result code d).exit_code ≡ 0
    → d.admitted ≡ true
decision_zero code d other zero = ground (arith, other, zero)

pub plan_of_IsValid : (a : RouteAttestation) → attestation_errors a ≡ [] → IsValidPlan a.plan
unfolding attestation_errors
plan_of_IsValid a valid = ground arith

-- No row of the nonce store, if there is one, has the nonce.
unfoldable pub unseen : String → Option (List Row) → Bool
unseen nonce none = true
unseen nonce (some rows) = not (has_nonce nonce rows)
