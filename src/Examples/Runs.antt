-- ===== src/Examples/Runs.antt =====
-- Names that open all that a run computes with.
use locus_mesh.Base.{contains, all_distinct, from_keys, insert_by, sort_by}
use locus_mesh.Models.Patterns
use locus_mesh.Models.Topology
use locus_mesh.Models.Route
use locus_mesh.Models.Decision
use locus_mesh.Base64
use locus_mesh.Crypto
use locus_mesh.Json
use locus_mesh.Scope
use locus_mesh.Policy.Admit
use locus_mesh.Policy.Digest
use locus_mesh.Attestation.Verify
use locus_mesh.Replay
use locus_mesh.Models.Fabric
use locus_mesh.Observer.Payload
use locus_mesh.Observer.Project
use locus_mesh.Observer.Observe
use locus_mesh.Attestation.Build
use locus_mesh.Observer.Timeout
use locus_mesh.Observer.Url
use locus_mesh.Files
use locus_mesh.Models.Validate.{items_as, intent_value_of, evidence_value_of}
use locus_mesh.Models.Validate.Route.{validate_plan, validate_attestation}
use locus_mesh.Models.Validate.Topology.{validate_policy}
use locus_mesh.Cli
use locus_mesh.Cli.Run

unfoldable pub contracts : Unit {0}
unfolding Patterns.is_peer_id Patterns.is_nonce Patterns.is_commitment Patterns.is_digest
    Patterns.is_key_id Patterns.is_base64url Patterns.first_error Patterns.validated
    Topology.policy_errors Topology.topology_errors Topology.peer_errors Topology.edge_errors
    Topology.dangling Topology.missing_floor Topology.floor_of Route.plan_errors
    Route.receipt_errors Route.attestation_errors Route.built_errors Decision.decision_errors
    Decision.consistency_errors contains all_distinct
contracts = tt

unfoldable pub admission : Unit {0}
unfolding contracts from_keys insert_by sort_by Json.canonical_json_bytes Json.text_lt
    Base64.decode_base64url Base64.encode_base64url Crypto.sha256_digest Crypto.derive_key_id
admission = tt

unfoldable pub plan_admission : Unit {0}
unfolding admission Admit.admit_plan Admit.decision Admit.peer_of Admit.route_reasons
    Admit.edge_reasons Admit.leaves_device Admit.peer_reasons Admit.binding_reasons
    Digest.policy_digest Digest.topology_digest Scope.minimum_scope Scope.minimum_evidence
plan_admission = tt

unfoldable pub building : Unit {0}
unfolding plan_admission Build.build_attestation Build.entry Build.required_entry
    Build.claimed_evidence Build.local_signer Digest.signing_payload
building = tt

unfoldable pub verification : Unit {0}
unfolding plan_admission Verify.verify_attestation Verify.conclude Verify.finish
    Verify.check_receipt Verify.consult Verify.deny Verify.mismatches Verify.exact_fields
    Verify.moment_reasons Verify.key_reasons Verify.evidence_reasons Crypto.verify_ed25519
    Digest.signing_payload
verification = tt

unfoldable pub storage : Unit {0}
unfolding Verify.consult Replay.record_if_new Replay.sqlite_port Replay.close
storage = tt

unfoldable pub observing : Unit {0}
unfolding admission Observe.observe Observe.fetch Observe.from_network Observe.from_parser
    Observe.as_payload Observe.from_projection Observe.read_response Project.project
    Project.read_local Project.read_discovery Project.read_peers Project.read_peer_list
    Project.read_peer Project.candidates_of Project.candidate_of Project.observation
    Project.observed_scope Payload.get Payload.mapping Payload.string Payload.boolean
    Payload.node_state Payload.models Fabric.candidate_errors Fabric.observation_errors
    Fabric.foreign Fabric.out_of_scope Patterns.is_provider_id Patterns.is_state_label
    Patterns.is_reason_code
observing = tt

unfoldable pub commands : Unit {0}
unfolding verification storage Cli.main Cli.run_admit Cli.run_verify Cli.verify_by Run.main_command
    Run.run Run.command_name Run.without_effect Run.with_effect Run.alone Run.load_policy
    Run.load_plan Run.load_attestation Run.stored_rows Files.read_bounded Files.load_json_model
    Files.load_yaml_model validate_policy validate_plan validate_attestation items_as
    intent_value_of evidence_value_of
commands = tt

unfoldable pub urls : Unit {0}
unfolding Timeout.timely Timeout.float_leb Timeout.lifetime Url.new_observer Url.status_url
    Url.check_url Url.origin_of Url.rstrip Url.loopback Url.valid_port
urls = tt
