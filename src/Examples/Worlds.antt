-- ===== src/Examples/Worlds.antt =====
-- The commands in a world whose files hold the two-hop route.
use locus_mesh.Base.{
  String, map, ◌∷◌, ◌==◌, string_eq, if◌then◌else◌, ◌≡◌, refl, true, none, some, [],
}
use locus_mesh.Fail.{ok, err, value_error}
use locus_mesh.Json.{Json, num, str, arr, obj}
use locus_mesh.Models.Topology.{AdmissionPolicy}
use locus_mesh.Models.Route.{RoutePlan, RouteAttestation}
use locus_mesh.Policy.Spec.{IsAdmissible}
use locus_mesh.Attestation.Spec.{IsVerified}
use locus_mesh.Observer.Url.{UrlLibrary}
use locus_mesh.Files.{InputFile}
use locus_mesh.Cli.Codes.{IsCode, main_command_codes}
use locus_mesh.Cli.Run.{
  Command, admit, verify, World, load_policy, load_plan, load_attestation, stored_rows,
  main_command,
}
use locus_mesh.Cli.Loaded.{unseen}
use locus_mesh.Policy.Digest.{
  items_of, fields_of, peer_json, edge_json, plan_json, attestation_json,
}
use locus_mesh.Examples.Stamps.{stamped, coercions}
use locus_mesh.Cli.Safety.{admit_zero, verify_zero}
use locus_mesh.Examples.Runs.{commands}
use locus_mesh.Examples.Commands.{text_of_errors}
use locus_mesh.Examples.Data.{constant, constant-IsLawful, at, topology, plan, attestation}

-- A file holds its own name, which the parsers take for what it stands for.
abbrev short_file : String → InputFile
short_file path = record { st_size = ok 2; read_text = ok path }

abbrev no_urls : UrlLibrary
no_urls = record {
  strip = λ s. s;
  lower = λ s. s;
  urlparse = λ s. err (value_error "not a URL");
  ip_address = λ s. err (value_error "not an address");
}

abbrev policy_input : Json
policy_input = obj (
    fields_of (
      ("allowed_intents", arr (items_of (str "device_only" ∷ str "private_mesh" ∷ [])))
      ∷ ("max_hops", num 3)
      ∷ (
        "minimum_evidence",
        obj (
            fields_of
              (("device_only", str "observed") ∷ ("private_mesh", str "peer_asserted") ∷ [])),
      )
      ∷ (
        "topology",
        obj (
            fields_of (
              ("snapshot_id", str "demo")
              ∷ ("local_peer_id", str "device")
              ∷ ("captured_at", str "at 100")
              ∷ ("expires_at", str "at 800")
              ∷ ("peers", arr (items_of (map (peer_json stamped) topology.peers)))
              ∷ ("edges", arr (items_of (map edge_json topology.edges)))
              ∷ [])),
      )
      ∷ []))

abbrev pub world : World
world = record {
  now = at 500;
  file = short_file;
  json_loads = λ hook text.
      ok (if text == "plan" then plan_json stamped plan else attestation_json stamped attestation);
  yaml_load = λ text. ok policy_input;
  coercions = coercions;
  rows = λ path. [];
  fault = none;
  urls = no_urls;
  opener = λ url. err (value_error "no network");
  response_loads = λ hook raw. ok Json.null;
  python = "3.12.0";
  dependencies = Json.null;
  directory = λ path. [];
  resolve = λ path. path;
  mkdir_fault = λ path. none;
  write_fault = λ path file. none;
  schema_text = λ contract. "{}";
}

admit_exits : (main_command constant world text_of_errors (admit "policy" "plan")).0 ≡ 0
unfolding commands
admit_exits = refl

abbrev pub verify_command : Command
verify_command = verify "policy" "attestation" (some "nonces")

verify_runs : (main_command constant world text_of_errors verify_command).0 ≡ 0
unfolding commands
verify_runs = refl

admit_zero_example :
    (p : AdmissionPolicy) × (r : RoutePlan) × (load_policy constant world "policy" ≡ ok p)
    × (load_plan constant world "plan" ≡ ok r)
    × IsAdmissible constant r p (at 500)
admit_zero_example =
    admit_zero constant world text_of_errors constant-IsLawful refl "policy" "plan" admit_exits

verify_zero_example :
    (p : AdmissionPolicy) × (a : RouteAttestation) × (load_policy constant world "policy" ≡ ok p)
    × (load_attestation constant world "attestation" ≡ ok a)
    × IsVerified constant a p (at 500)
    × (unseen a.plan.nonce (stored_rows constant world (some "nonces")) ≡ true)
verify_zero_example =
    verify_zero constant world text_of_errors constant-IsLawful refl "policy" "attestation"
      (some "nonces") verify_runs

main_command_codes_example :
    IsCode
      (main_command constant world text_of_errors verify_command).1.ok
      (main_command constant world text_of_errors verify_command).0
main_command_codes_example = main_command_codes constant world text_of_errors verify_command
