-- ===== src/Examples/Data.antt =====
-- A small topology with a device, a private peer and an edge between them, and primitives that
-- answer constants of the documented sizes.
use locus_mesh.Base.{ℕ, zero, suc, refl, String, Option, none, some, List, [], ◌∷◌, arith}
use locus_mesh.Scope.{ExecutionIntent, device_only, private_mesh, observed, peer_asserted}
use locus_mesh.Runtime.{DateTime, Runtime, IsLawful, IsBytes, genuine}
use locus_mesh.Models.Topology.{PeerManifest, TopologyEdge, TopologySnapshot, AdmissionPolicy}
use locus_mesh.Models.Route.{RoutePlan, HopReceipt, RouteAttestation}
use locus_mesh.Base64.{encode_base64url}
use locus_mesh.Attestation.Build.{SignerProvider}

abbrev pub zeros : ℕ → List ℕ
zeros zero = []
zeros (suc n) = 0 ∷ zeros n

abbrev pub constant : Runtime
constant = record {
  sha256 = λ m. zeros 32;
  hmac_sha256 = λ k m. zeros 32;
  ed25519_public = λ k. zeros 32;
  ed25519_sign = λ k m. zeros 64;
  ed25519_verify = λ k s m. genuine;
  isoformat = λ t. "2030-01-01T12:00:00+00:00";
  json_datetime = λ t. "2030-01-01T12:00:00Z";
}

zeros_32 : IsBytes 32 (zeros 32)
zeros_32 = omega arith

zeros_64 : IsBytes 64 (zeros 64)
zeros_64 = omega arith

pub constant-IsLawful : IsLawful constant
constant-IsLawful = record {
  sha256_size = λ m. zeros_32;
  hmac_size = λ k m. zeros_32;
  public_size = λ k. zeros_32;
  signature_size = λ k m. zeros_64;
  sign_verifies = λ k m. refl;
}

abbrev pub at : ℕ → DateTime
at t = record { instant = t; tzinfo = some (some 0) }

abbrev pub zero_digest : String
zero_digest = "sha256:0000000000000000000000000000000000000000000000000000000000000000"

abbrev pub zero_key_id : String
zero_key_id = "ed25519:sha256:0000000000000000000000000000000000000000000000000000000000000000"

abbrev pub zero_key : String
zero_key = "AAAAAAAAAAAAAAAAAAAAAAAAAAAAAAAAAAAAAAAAAAA"

abbrev pub manifest : String → ExecutionIntent → PeerManifest
manifest peer_id scope = record {
  schema_version = "locusmesh.peer-manifest.v1";
  peer_id = peer_id;
  execution_scope = scope;
  model_digest = zero_digest;
  runtime_digest = zero_digest;
  evidence_level = peer_asserted;
  key_id = zero_key_id;
  public_key = zero_key;
  valid_from = at 100;
  expires_at = at 900;
  address_hint = none;
}

abbrev pub edge : String → String → TopologyEdge
edge source target = record {
  schema_version = "locusmesh.topology-edge.v1";
  source_peer_id = source;
  target_peer_id = target;
}

abbrev pub snapshot : List PeerManifest → List TopologyEdge → TopologySnapshot
snapshot peers edges = record {
  schema_version = "locusmesh.topology-snapshot.v1";
  snapshot_id = "demo";
  local_peer_id = "device";
  captured_at = at 100;
  expires_at = at 800;
  peers = peers;
  edges = edges;
}

abbrev pub topology : TopologySnapshot
topology =
    snapshot (manifest "device" device_only ∷ manifest "peer" private_mesh ∷ [])
      (edge "device" "peer" ∷ [])

abbrev pub policy_with : TopologySnapshot → AdmissionPolicy
policy_with t = record {
  schema_version = "locusmesh.admission-policy.v1";
  allowed_intents = device_only ∷ private_mesh ∷ [];
  max_hops = 3;
  minimum_evidence = (device_only, observed) ∷ (private_mesh, peer_asserted) ∷ [];
  topology = t;
}

abbrev pub policy : AdmissionPolicy
policy = policy_with topology

abbrev pub plan_for : ExecutionIntent → List String → RoutePlan
plan_for intent hops = record {
  schema_version = "locusmesh.route-plan.v1";
  request_id = "request-1";
  nonce = "nonce-0123456789";
  request_commitment =
      "hmac-sha256:0000000000000000000000000000000000000000000000000000000000000000";
  intent = intent;
  model_digest = zero_digest;
  runtime_digest = zero_digest;
  hop_peer_ids = hops;
  created_at = at 200;
  expires_at = at 700;
}

abbrev pub plan : RoutePlan
plan = plan_for private_mesh ("device" ∷ "peer" ∷ [])

abbrev pub signer : SignerProvider
signer = record {
  key_id = zero_key_id;
  public_key = zero_key;
  sign = λ payload. encode_base64url (zeros 64);
}

abbrev pub signers : List (String × SignerProvider)
signers = ("device", signer) ∷ ("peer", signer) ∷ []

abbrev pub zero_signature : String
zero_signature =
    "AAAAAAAAAAAAAAAAAAAAAAAAAAAAAAAAAAAAAAAAAAAAAAAAAAAAAAAAAAAAAAAAAAAAAAAAAAAAAAAAAAAAAA"

abbrev pub receipt : ℕ → String → Option String → Option String → Option String → HopReceipt
receipt index peer_id previous next digest = record {
  schema_version = "locusmesh.hop-receipt.v1";
  request_id = "request-1";
  nonce = "nonce-0123456789";
  request_commitment =
      "hmac-sha256:0000000000000000000000000000000000000000000000000000000000000000";
  route_plan_digest = zero_digest;
  policy_digest = zero_digest;
  topology_digest = zero_digest;
  intent = private_mesh;
  hop_index = index;
  hop_count = 2;
  peer_id = peer_id;
  previous_peer_id = previous;
  next_peer_id = next;
  previous_receipt_digest = digest;
  model_digest = zero_digest;
  runtime_digest = zero_digest;
  evidence_level = peer_asserted;
  observed_at = at 400;
  key_id = zero_key_id;
  signature_algorithm = "ed25519";
  signature = zero_signature;
}

abbrev pub attestation : RouteAttestation
attestation = record {
  schema_version = "locusmesh.route-attestation.v1";
  plan = plan;
  receipts =
      receipt 0 "device" none (some "peer") none
      ∷ receipt 1 "peer" (some "device") none (some zero_digest)
      ∷ [];
}
