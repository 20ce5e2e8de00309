-- ===== src/Cli.antt =====
-- cli.py: `_run` for the commands that decide something, and `main` with its exit codes. A file is
-- what loading it returns or raises.
pub mod Codes
pub mod Exit
pub mod Run
pub mod Dumps
pub mod Print
pub mod Printable
pub mod Streams
pub mod Loaded
pub mod Safety
use locus_mesh.Base.{ℕ, String, Bool, true, false, Option, none, some, List, ◌∷◌, [], if◌then◌else◌}
use locus_mesh.Fail.{
  Exn, value_error, type_error, key_error, overflow_error, os_error, http_error, validation_error,
  yaml_error, sqlite_error, fabric_observation_error, assertion_error, Result, ok, err, ◌>>=◌,
}
use locus_mesh.Runtime.{Runtime, DateTime}
use locus_mesh.Models.Topology.{TopologySnapshot, AdmissionPolicy}
use locus_mesh.Models.Route.{RoutePlan, RouteAttestation}
use locus_mesh.Demo.{DemoResults}
use locus_mesh.Json.{Json}
use locus_mesh.Models.Decision.{AdmissionDecision}
use locus_mesh.Models.Fabric.{FabricObservation}
use locus_mesh.Policy.Admit.{admit_plan}
use locus_mesh.Replay.{Row, StoreFault, SqliteReplayStore, open_store, connect, close, sqlite_port}
use locus_mesh.Attestation.Verify.{verify_attestation}

-- The value whose JSON form is the data of an envelope.
pub data Data : Type 0 where
  decided : AdmissionDecision → Data
  observed : FabricObservation → Data
  scenarios : DemoResults → Data
  report : Json → Data

pub record CliResult : Type 0 where
  pub ok : Bool
  pub data_of : Data
  pub exit_code : ℕ

-- _Result(decision.admitted, ..., 0 if decision.admitted else code)
abbrev pub decision_result : ℕ → AdmissionDecision → CliResult
decision_result code d = record {
  ok = d.admitted;
  data_of = decided d;
  exit_code = if d.admitted then 0 else code;
}

pub record Envelope : Type 0 where
  pub command : String
  pub ok : Bool
  pub data_of : Option Data
  pub error : Option (String × String)

abbrev error_envelope : String → String → String → Envelope
error_envelope command code message = record {
  command = command;
  ok = false;
  data_of = none;
  error = some (code, message);
}

-- The handlers of `main`, in their order: a ValidationError is a ValueError, a URLError an OSError.
-- `details` is the text of the errors of a ValidationError.
unfoldable pub handled : (List String → String) → String → Exn → ℕ × Envelope
handled details command (validation_error errors) =
    (2, error_envelope command "INPUT_INVALID" (details errors))
handled details command (yaml_error m) =
    (2, error_envelope command "INPUT_INVALID" "invalid YAML input")
handled details command (sqlite_error m) =
    (2, error_envelope command "STATE_UNAVAILABLE" "configured state store is unavailable")
handled details command (fabric_observation_error m) = (
  2,
  error_envelope command "OBSERVATION_UNAVAILABLE"
      "provider observation was unavailable or incompatible",
)
handled details command (os_error m) = (2, error_envelope command "INPUT_INVALID" m)
handled details command (http_error m) = (2, error_envelope command "INPUT_INVALID" m)
handled details command (value_error m) = (2, error_envelope command "INPUT_INVALID" m)
handled details command _ =
    (1, error_envelope command "INTERNAL_ERROR" "unexpected internal failure; no admission granted")

unfoldable pub main : (List String → String) → String → Result CliResult → ℕ × Envelope
unfolding handled
main details command (ok r) =
    (r.exit_code, record { command = command; ok = r.ok; data_of = some r.data_of; error = none })
main details command (err e) = handled details command e

-- the branch `observe mesh-llm`, from the observation on
unfoldable pub run_observe : Result FabricObservation → Result CliResult
run_observe observation = do
  o ← observation
  ok (record {
    ok = o.within_requested_scope;
    data_of = observed o;
    exit_code = if o.within_requested_scope then 0 else 5;
  })

module _ (rt : Runtime) (now : DateTime) where
  -- the branch `admit`
  unfoldable pub run_admit : Result AdmissionPolicy → Result RoutePlan → Result CliResult
  run_admit load_policy load_plan = do
    policy ← load_policy
    plan ← load_plan
    d ← admit_plan rt plan policy now
    ok (decision_result 3 d)

  -- with SQLiteReplayStore(path) as replay_store: the rows of the file before and after
  verify_with_store :
      Option StoreFault
      → RouteAttestation
      → AdmissionPolicy
      → List Row
      → Result (AdmissionDecision × Option (List Row))
  verify_with_store fault attestation policy rows = do
    (d, s) ←
        verify_attestation rt attestation policy now (some (sqlite_port fault))
          (open_store false rows)
    let closed = close s
    ok (d, some closed.rows)

  verify_without_store :
      RouteAttestation → AdmissionPolicy → Result (AdmissionDecision × Option (List Row))
  verify_without_store attestation policy = do
    (d, s) ← verify_attestation {S = Unit {0}} rt attestation policy now none tt
    ok (d, none)

  -- if args.nonce_store is None
  unfoldable pub verify_by :
      Option (List Row)
      → Option StoreFault
      → RouteAttestation
      → AdmissionPolicy
      → Result (AdmissionDecision × Option (List Row))
  unfolding verify_with_store verify_without_store
  verify_by none fault attestation policy = verify_without_store attestation policy
  verify_by (some rows) fault attestation policy = verify_with_store fault attestation policy rows

  -- the branch `verify`, with the rows of the nonce store, if one is named
  unfoldable pub run_verify :
      Option (List Row)
      → Option StoreFault
      → Result AdmissionPolicy
      → Result RouteAttestation
      → Result (CliResult × Option (List Row))
  unfolding verify_by
  run_verify nonce_store fault load_policy load_attestation = do
    policy ← load_policy
    attestation ← load_attestation
    (d, rows) ← verify_by nonce_store fault attestation policy
    ok (decision_result 4 d, rows)

-- main on the result of a branch that also changes the nonce store
unfoldable pub result_of : Result (CliResult × Option (List Row)) → Result CliResult
result_of (ok (r, rows)) = ok r
result_of (err e) = err e
