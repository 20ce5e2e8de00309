-- ===== src/Cli/Print.antt =====
-- cli.py: `_envelope`, `_error_envelope`, and what `main` prints.
use locus_mesh.Base.{
  ℕ, String, Bool, true, false, Option, none, some, List, [], ◌∷◌, ◌++◌, codes, map, if◌then◌else◌,
}
use locus_mesh.Scope.{ExecutionIntent, EvidenceLevel, intent_value, evidence_value}
use locus_mesh.Runtime.{Runtime}
use locus_mesh.Json.{Json, null, bool, num, str, arr, obj}
use locus_mesh.Models.Decision.{
  AdmissionDecision, DecisionKind, plan_admission, attestation_verification,
}
use locus_mesh.Models.Fabric.{FabricCandidateObservation, FabricObservation}
use locus_mesh.Policy.Digest.{items_of, fields_of, optional_str}
use locus_mesh.Demo.{DemoResults}
use locus_mesh.Cli.{Data, decided, observed, scenarios, report, Envelope}
use locus_mesh.Cli.Dumps.{dumps, dumps_indented}
use locus_mesh.Cli.Run.{Command, World, main_command}

abbrev texts : List String → Json
texts xs = arr (items_of (map str xs))

abbrev optional_intent : Option ExecutionIntent → Json
optional_intent none = null
optional_intent (some i) = str (intent_value i)

abbrev optional_evidence : Option EvidenceLevel → Json
optional_evidence none = null
optional_evidence (some e) = str (evidence_value e)

abbrev kind_value : DecisionKind → String
kind_value plan_admission = "plan_admission"
kind_value attestation_verification = "attestation_verification"

-- model_dump(mode="json")
abbrev pub candidate_json : FabricCandidateObservation → Json
candidate_json c = obj (
    fields_of (
      ("schema_version", str c.schema_version)
      ∷ ("provider", str c.provider)
      ∷ ("candidate_id", str c.candidate_id)
      ∷ ("local_node", bool c.local_node)
      ∷ ("state", str c.state)
      ∷ ("serving_models", texts c.serving_models)
      ∷ ("provider_claimed_owner_verified", bool c.provider_claimed_owner_verified)
      ∷ ("observed_scope", str (intent_value c.observed_scope))
      ∷ ("evidence_level", str (evidence_value c.evidence_level))
      ∷ ("admission_authority", bool c.admission_authority)
      ∷ ("reason_codes", texts c.reason_codes)
      ∷ []))

module _ (rt : Runtime) where
  abbrev pub decision_json : AdmissionDecision → Json
  decision_json d = obj (
      fields_of (
        ("schema_version", str d.schema_version)
        ∷ ("decision_kind", str (kind_value d.decision_kind))
        ∷ ("admitted", bool d.admitted)
        ∷ ("reason_codes", texts d.reason_codes)
        ∷ ("evaluated_at", str (rt.json_datetime d.evaluated_at))
        ∷ ("checked_hops", num d.checked_hops)
        ∷ ("route_digest", optional_str d.route_digest)
        ∷ ("attestation_digest", optional_str d.attestation_digest)
        ∷ ("policy_digest", optional_str d.policy_digest)
        ∷ ("topology_digest", optional_str d.topology_digest)
        ∷ ("requested_intent", optional_intent d.requested_intent)
        ∷ ("effective_scope", optional_intent d.effective_scope)
        ∷ ("required_evidence", optional_evidence d.required_evidence)
        ∷ ("effective_evidence", optional_evidence d.effective_evidence)
        ∷ []))

  abbrev pub observation_json : FabricObservation → Json
  observation_json o = obj (
      fields_of (
        ("schema_version", str o.schema_version)
        ∷ ("provider", str o.provider)
        ∷ ("provider_version", str o.provider_version)
        ∷ ("provider_contract", str o.provider_contract)
        ∷ ("source_endpoint", str o.source_endpoint)
        ∷ ("projection_digest", str o.projection_digest)
        ∷ ("observed_at", str (rt.json_datetime o.observed_at))
        ∷ ("expires_at", str (rt.json_datetime o.expires_at))
        ∷ ("requested_max_scope", str (intent_value o.requested_max_scope))
        ∷ ("observed_scope", str (intent_value o.observed_scope))
        ∷ ("within_requested_scope", bool o.within_requested_scope)
        ∷ ("admission_authority", bool o.admission_authority)
        ∷ ("candidates", arr (items_of (map candidate_json o.candidates)))
        ∷ ("reason_codes", texts o.reason_codes)
        ∷ []))

  -- {"scenarios": run_demo()}
  abbrev pub scenarios_json : DemoResults → Json
  scenarios_json d = obj (
      fields_of (
        (
          "scenarios",
          obj (
              fields_of (
                ("device-local", decision_json d.device_local)
                ∷ ("private-mesh", decision_json d.private_route)
                ∷ ("loopback-escape", decision_json d.loopback_escape)
                ∷ ("tampered", decision_json d.tampered)
                ∷ (
                  "replay",
                  obj (
                      fields_of (
                        ("first", decision_json d.replay_first)
                        ∷ ("second", decision_json d.replay_second)
                        ∷ [])),
                )
                ∷ [])),
        )
        ∷ []))

  abbrev pub data_json : Data → Json
  data_json (decided d) = decision_json d
  data_json (observed o) = observation_json o
  data_json (scenarios d) = scenarios_json d
  data_json (report j) = j

  abbrev optional_data : Option Data → Json
  optional_data none = null
  optional_data (some d) = data_json d

  abbrev error_json : Option (String × String) → Json
  error_json none = null
  error_json (some (code, message)) =
      obj (fields_of (("code", str code) ∷ ("message", str message) ∷ []))

  -- _envelope and _error_envelope
  unfoldable pub envelope_json : Envelope → Json
  envelope_json e = obj (
      fields_of (
        ("schema_version", str "locusmesh.cli-output.v1")
        ∷ ("command", str e.command)
        ∷ ("ok", bool e.ok)
        ∷ ("data", optional_data e.data_of)
        ∷ ("error", error_json e.error)
        ∷ []))

-- The code points that the process writes to its two streams.
pub record Output : Type 0 where
  pub stdout : List ℕ
  pub stderr : List ℕ

-- print ends what it prints with a line feed
abbrev pub print : List ℕ → List ℕ
print text = text ++ (10 ∷ [])

abbrev complaint : String × String → List ℕ
complaint (code, message) =
    print (codes "locusmesh: " ++ (codes code ++ (codes ": " ++ codes message)))

abbrev boundary_line : List ℕ
boundary_line = print (codes "locusmesh: operation did not satisfy its boundary")

module _ (rt : Runtime) where
  -- The end of `main` after a result, without and with --json.
  abbrev print_data : Bool → Data → Output
  print_data ok data_of = record {
    stdout = print (dumps_indented (data_json rt data_of));
    stderr = if ok then [] else boundary_line;
  }

  -- A handler prints its line whether --json is set or not.
  unfoldable pub printed : Bool → Envelope → Output
  printed true e = record {
    stdout = print (dumps (envelope_json rt e));
    stderr = elim e.error [ none ↦ [] | some error ↦ complaint error ];
  }
  printed false e = elim e.error [
    | some error ↦ record { stdout = []; stderr = complaint error }
    | none ↦ elim e.data_of [
      | some data_of ↦ print_data e.ok data_of
      | none ↦ record { stdout = []; stderr = [] }
    ]
  ]

  -- A run of the process: its exit code and its streams. `json` is args.json.
  unfoldable pub process : World → (List String → String) → Bool → Command → ℕ × Output
  unfolding printed
  process w details json command =
      let (code, envelope) = main_command rt w details command in (code, printed json envelope)
