-- ===== src/Cli/Run.antt =====
-- cli.py: `_command_name` and `_run` on the parsed arguments.
use locus_mesh.Base.{ℕ, String, Bool, true, false, ◌&&◌, Option, none, some, List, length, map}
use locus_mesh.Fail.{Result, ok, err, ◌>>=◌}
use locus_mesh.Scope.{ExecutionIntent, intent_value, evidence_value}
use locus_mesh.Runtime.{Runtime, DateTime, ◌≤?◌, ◌<?◌}
use locus_mesh.Json.{Json, num, arr, str, bool, obj, field, end}
use locus_mesh.Models.Validate.{Coercions}
use locus_mesh.Models.Validate.Route.{validate_plan, validate_attestation}
use locus_mesh.Models.Validate.Topology.{validate_topology, validate_policy}
use locus_mesh.Models.Topology.{PeerManifest, TopologySnapshot, AdmissionPolicy}
use locus_mesh.Models.Route.{RoutePlan, RouteAttestation}
use locus_mesh.Policy.Digest.{items_of, topology_digest}
use locus_mesh.Replay.{Row, StoreFault}
use locus_mesh.Observer.Observe.{Response, Loads, observe}
use locus_mesh.Observer.Timeout.{ℤ, Float}
use locus_mesh.Observer.Url.{UrlLibrary, new_observer}
use locus_mesh.Demo.{run_demo}
use locus_mesh.Files.{InputFile, ParserWithHook, load_json_model, load_yaml_model, snapshot}
use locus_mesh.Schemas.{Contract, Directory, WriteFault, export_schemas}
use locus_mesh.Cli.{
  Data, scenarios, report, CliResult, Envelope, main, run_observe, run_admit, run_verify,
}

-- The parsed arguments.
pub data Command : Type 0 where
  doctor demo : Command
  probe : (topology : String) → Command
  observe_mesh_llm :
      (management_url : String) (max_scope : ExecutionIntent) (timeout_seconds : Float)
      (ttl_seconds : ℤ)
      → Command
  admit : (policy plan : String) → Command
  verify : (policy attestation : String) (nonce_store : Option String) → Command
  schema_export : (out : String) → Command

unfoldable pub command_name : Command → String
command_name doctor = "doctor"
command_name demo = "demo"
command_name (probe topology) = "probe"
command_name (observe_mesh_llm url scope timeout ttl) = "observe mesh-llm"
command_name (admit policy plan) = "admit"
command_name (verify policy attestation nonce_store) = "verify"
command_name (schema_export out) = "schema export"

-- What a run finds: the time, the files and the parsers, what pydantic's types take, the rows of a
-- nonce store, the network, and the versions that `doctor` reports.
pub record World : Type 0 where
  pub now : DateTime
  pub file : String → InputFile
  pub json_loads : ParserWithHook
  pub yaml_load : String → Result Json
  pub coercions : Coercions
  pub rows : String → List Row
  pub fault : Option StoreFault
  pub urls : UrlLibrary
  pub opener : String → Result Response
  pub response_loads : Loads
  pub python : String
  pub dependencies : Json
  pub directory : String → Directory
  pub resolve : String → String
  pub mkdir_fault : String → Option String
  pub write_fault : String → String → Option WriteFault
  pub schema_text : Contract → String

-- What a run that returns leaves behind: nothing, the rows of the nonce store, or the files of a
-- directory.
pub data Effect : Type 0 where
  unchanged : Effect
  stored : Option (List Row) → Effect
  exported : Directory → Effect

abbrev reported : Data → CliResult
reported d = record { ok = true; data_of = d; exit_code = 0 }

unfoldable pub with_effect {ℓ} :
    {A : Type ℓ} → (A → Effect) → Result (CliResult × A) → Result (CliResult × Effect)
with_effect effect (ok (r, a)) = ok (r, effect a)
with_effect effect (err e) = err e

unfoldable pub alone : Result CliResult → Result (CliResult × Effect)
alone (ok r) = ok (r, unchanged)
alone (err e) = err e

abbrev peer_report : PeerManifest → Json
peer_report peer = obj (
    field "peer_id" (str peer.peer_id) (
      field "execution_scope" (str (intent_value peer.execution_scope)) (
        field "evidence_level" (str (evidence_value peer.evidence_level))
          (field "key_id" (str peer.key_id) end))))

module _ (rt : Runtime) (w : World) where
  unfoldable pub doctor_report : Json
  doctor_report = obj (
      field "version" (str "0.2.0a1") (
        field "python" (str w.python) (
          field "admission_offline" (bool true) (
            field "observation_network_required" (bool true)
              (field "secret_required" (bool false) (field "dependencies" w.dependencies end))))))

  unfoldable pub export_report : String → List String → Json
  export_report out files = obj (
      field "output_dir" (str (w.resolve out)) (field "files" (arr (items_of (map str files))) end))

  unfoldable pub probe_report : TopologySnapshot → Bool → Json
  probe_report topology valid_now = obj (
      field "snapshot_id" (str topology.snapshot_id) (
        field "local_peer_id" (str topology.local_peer_id) (
          field "peer_count" (num (length topology.peers)) (
            field "edge_count" (num (length topology.edges)) (
              field "valid_now" (bool valid_now) (
                field "topology_digest" (str (topology_digest rt topology))
                  (field "peers" (arr (items_of (map peer_report topology.peers))) end)))))))

  -- the branch `probe`
  unfoldable pub run_probe : String → Result CliResult
  unfolding probe_report
  run_probe path = do
    topology ← snapshot (validate_topology w.coercions) w.json_loads (w.file path)
    let valid_now = topology.captured_at ≤? w.now && w.now <? topology.expires_at
    ok (reported (report (probe_report topology valid_now)))

  unfoldable pub load_policy : String → Result AdmissionPolicy
  load_policy path = load_yaml_model (validate_policy w.coercions) w.yaml_load (w.file path)

  unfoldable pub load_plan : String → Result RoutePlan
  load_plan path = load_json_model (validate_plan w.coercions) w.json_loads (w.file path)

  unfoldable pub load_attestation : String → Result RouteAttestation
  load_attestation path =
      load_json_model (validate_attestation w.coercions) w.json_loads (w.file path)

  unfoldable pub stored_rows : Option String → Option (List Row)
  stored_rows none = none
  stored_rows (some path) = some (w.rows path)

  unfoldable pub observed_now : String → ExecutionIntent → Float → ℤ → Result CliResult
  observed_now url scope timeout ttl = do
    observer ← new_observer w.urls url scope timeout ttl
    run_observe (observe w.response_loads rt observer w.now w.opener)

  -- the branch `schema export`
  unfoldable pub run_export : String → Result (CliResult × Directory)
  unfolding export_report
  run_export out = do
    let (paths, dir) =
        export_schemas w.schema_text (w.write_fault out) (w.mkdir_fault out) (w.directory out)
    files ← paths
    ok (reported (report (export_report out files)), dir)

  unfoldable pub run : Command → Result (CliResult × Effect)
  unfolding doctor_report run_export run_probe load_policy load_plan load_attestation stored_rows
      with_effect alone observed_now
  run doctor = ok (reported (report doctor_report), unchanged)
  run demo = alone (run_demo rt >>= λ d. ok (reported (scenarios d)))
  run (probe topology) = alone (run_probe topology)
  run (observe_mesh_llm url scope timeout ttl) = alone (observed_now url scope timeout ttl)
  run (admit policy plan) = alone (run_admit rt w.now (load_policy policy) (load_plan plan))
  run (verify policy attestation nonce_store) = with_effect stored (
      run_verify rt w.now (stored_rows nonce_store) w.fault (load_policy policy)
        (load_attestation attestation))
  run (schema_export out) = with_effect exported (run_export out)

unfoldable pub without_effect : Result (CliResult × Effect) → Result CliResult
without_effect (ok (r, effect)) = ok r
without_effect (err e) = err e

-- `main` from the parsed arguments on; `details` is the text of the errors of a ValidationError
unfoldable pub main_command : Runtime → World → (List String → String) → Command → ℕ × Envelope
unfolding without_effect
main_command rt w details command =
    main details (command_name command) (without_effect (run rt w command))
