-- ===== src/Demo.antt =====
-- demo.py: the scenarios of `run_demo`, on the operations of the library.
pub mod Valid
pub mod Routes
pub mod Outcome
use Prim.Native.Char.{code}
use locus_mesh.Base.{
  ℕ, ◌+◌, ◌-◌, ◌*◌, String, true, Option, none, some, List, [], ◌∷◌, ◌==◌, nat_eq, codes,
  if◌then◌else◌,
}
use locus_mesh.Fail.{index_error, Result, ok, err, ◌>>=◌}
use locus_mesh.Scope.{
  ExecutionIntent, device_only, private_mesh, public_mesh, observed, peer_asserted,
}
use locus_mesh.Runtime.{Runtime, DateTime}
use locus_mesh.Json.{Json, str, obj, end, field, encode_utf8}
use locus_mesh.Crypto.{sha256_digest, commit_request}
use locus_mesh.Models.Patterns.{validated}
use locus_mesh.Models.Topology.{
  PeerManifest, peer_errors, TopologyEdge, edge_errors, TopologySnapshot, topology_errors,
  AdmissionPolicy, policy_errors,
}
use locus_mesh.Models.Route.{RoutePlan, plan_errors, HopReceipt, RouteAttestation}
use locus_mesh.Models.Decision.{AdmissionDecision}
use locus_mesh.Policy.Admit.{admit_plan}
use locus_mesh.Replay.{open_store, sqlite_port}
use locus_mesh.Attestation.Build.{SignerProvider, from_private_bytes, build_attestation}
use locus_mesh.Attestation.Verify.{verify_attestation}

-- datetime(2030, 1, 1, 12, 0, tzinfo=UTC) in microseconds of the Unix time, and seconds around it
abbrev pub noon : ℕ
noon = 1893499200 * 1000000

abbrev pub utc : ℕ → DateTime
utc t = record { instant = t; tzinfo = some (some 0) }

abbrev pub demo_time : DateTime
demo_time = utc noon

abbrev pub before : ℕ → DateTime
before seconds = utc (noon - seconds * 1000000)

abbrev pub after : ℕ → DateTime
after seconds = utc (noon + seconds * 1000000)

abbrev pub commitment_key : List ℕ
commitment_key = codes "locusmesh-demo-commitment-key-v1-32-bytes"

abbrev pub model_value : Json
model_value = obj (field "model" (str "demo-model-v1") end)

abbrev pub runtime_value : Json
runtime_value = obj (field "runtime" (str "demo-runtime-v1") end)

abbrev pub edge_between : String → String → TopologyEdge
edge_between source target = record {
  schema_version = "locusmesh.topology-edge.v1";
  source_peer_id = source;
  target_peer_id = target;
}

-- replacement + signature[1:]
unfoldable pub tampered_signature : String → String
tampered_signature String.[] = "A"
tampered_signature (String.◌∷◌ c rest) =
    if code c == b'A' then String.◌∷◌ "B" rest else String.◌∷◌ "A" rest

-- receipts[0]
unfoldable pub first_receipt : List HopReceipt → Result HopReceipt
first_receipt [] = err (index_error "tuple index out of range")
first_receipt (r ∷ receipts) = ok r

pub record DemoResults : Type 0 where
  pub device_local : AdmissionDecision
  pub private_route : AdmissionDecision
  pub loopback_escape : AdmissionDecision
  pub tampered : AdmissionDecision
  pub replay_first : AdmissionDecision
  pub replay_second : AdmissionDecision

module _ (rt : Runtime) where
  -- from_private_bytes(hashlib.sha256(name.encode()).digest())
  unfoldable pub demo_signer : String → Result SignerProvider
  demo_signer name = from_private_bytes rt (rt.sha256 (encode_utf8 (codes name)))

  unfoldable pub demo_manifest :
      String → ExecutionIntent → SignerProvider → Option String → PeerManifest
  demo_manifest peer_id scope signer address_hint = record {
    schema_version = "locusmesh.peer-manifest.v1";
    peer_id = peer_id;
    execution_scope = scope;
    model_digest = sha256_digest rt model_value;
    runtime_digest = sha256_digest rt runtime_value;
    evidence_level = peer_asserted;
    key_id = signer.key_id;
    public_key = signer.public_key;
    valid_from = before 86400;
    expires_at = after 86400;
    address_hint = address_hint;
  }

  unfoldable pub demo_plan : String → String → ExecutionIntent → List String → Result RoutePlan
  demo_plan request_id nonce intent hops = do
    commitment ←
        commit_request rt
          (obj (field "operation" (str "classify") (field "request_id" (str request_id) end)))
          commitment_key
    validated plan_errors (record {
      schema_version = "locusmesh.route-plan.v1";
      request_id = request_id;
      nonce = nonce;
      request_commitment = commitment;
      intent = intent;
      model_digest = sha256_digest rt model_value;
      runtime_digest = sha256_digest rt runtime_value;
      hop_peer_ids = hops;
      created_at = before 300;
      expires_at = after 300;
    })

  unfoldable pub demo_topology :
      SignerProvider → SignerProvider → SignerProvider → Result TopologySnapshot
  unfolding demo_manifest
  demo_topology here private loopback = do
    device ← validated peer_errors (demo_manifest "device-local" device_only here none)
    peer ← validated peer_errors (demo_manifest "private-peer" private_mesh private none)
    public ←
        validated peer_errors
          (demo_manifest "loopback-public" public_mesh loopback (some "http://127.0.0.1:8080"))
    inner ← validated edge_errors (edge_between "device-local" "private-peer")
    outer ← validated edge_errors (edge_between "device-local" "loopback-public")
    validated topology_errors (record {
      schema_version = "locusmesh.topology-snapshot.v1";
      snapshot_id = "demo-topology-v1";
      local_peer_id = "device-local";
      captured_at = before 3600;
      expires_at = after 3600;
      peers = device ∷ peer ∷ public ∷ [];
      edges = inner ∷ outer ∷ [];
    })

  unfoldable pub demo_policy : TopologySnapshot → Result AdmissionPolicy
  demo_policy topology = validated policy_errors (record {
    schema_version = "locusmesh.admission-policy.v1";
    allowed_intents = device_only ∷ private_mesh ∷ [];
    max_hops = 3;
    minimum_evidence = (device_only, observed) ∷ (private_mesh, peer_asserted) ∷ [];
    topology = topology;
  })

  -- the two calls on one store in memory
  unfoldable pub replayed :
      RouteAttestation → AdmissionPolicy → Result (AdmissionDecision × AdmissionDecision)
  replayed attestation policy = do
    (first, s1) ←
        verify_attestation rt attestation policy demo_time (some (sqlite_port none))
          (open_store true [])
    (second, s2) ← verify_attestation rt attestation policy demo_time (some (sqlite_port none)) s1
    ok (first, second)

  unfoldable pub verified_alone : RouteAttestation → AdmissionPolicy → Result AdmissionDecision
  verified_alone attestation policy = do
    (d, s) ← verify_attestation {S = Unit {0}} rt attestation policy demo_time none tt
    ok d

  unfoldable pub tampered_attestation : RouteAttestation → Result RouteAttestation
  unfolding first_receipt tampered_signature
  tampered_attestation attestation = do
    first ← first_receipt attestation.receipts
    let altered = record first { signature = tampered_signature first.signature }
    ok (record attestation { receipts = altered ∷ [] })

  unfoldable pub run_demo : Result DemoResults
  unfolding demo_signer demo_topology demo_policy demo_plan replayed verified_alone
      tampered_attestation
  run_demo = do
    here ← demo_signer "device-local"
    private ← demo_signer "private-peer"
    loopback ← demo_signer "loopback-public-peer"
    let signers =
        ("device-local", here) ∷ ("private-peer", private) ∷ ("loopback-public", loopback) ∷ []
    topology ← demo_topology here private loopback
    policy ← demo_policy topology
    device_plan ← demo_plan "demo-device" "nonce-device-0001" device_only ("device-local" ∷ [])
    private_plan ←
        demo_plan "demo-private" "nonce-private-001" private_mesh
          ("device-local" ∷ "private-peer" ∷ [])
    escape_plan ←
        demo_plan "demo-loopback-escape" "nonce-loopback-01" device_only ("loopback-public" ∷ [])
    device_attestation ← build_attestation rt device_plan policy signers demo_time none
    private_attestation ← build_attestation rt private_plan policy signers demo_time none
    device_result ← verified_alone device_attestation policy
    private_result ← verified_alone private_attestation policy
    escape_result ← admit_plan rt escape_plan policy demo_time
    altered ← tampered_attestation device_attestation
    tampered_result ← verified_alone altered policy
    (first, second) ← replayed device_attestation policy
    ok (record {
      device_local = device_result;
      private_route = private_result;
      loopback_escape = escape_result;
      tampered = tampered_result;
      replay_first = first;
      replay_second = second;
    })
