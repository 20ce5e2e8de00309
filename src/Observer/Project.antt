-- ===== src/Observer/Project.antt =====
-- `_project` of the observer: a status payload becomes an observation.
use locus_mesh.Base.{
  ℕ, ◌+◌, ◌*◌, String, Bool, true, false, not, ◌&&◌, Option, some, List, [], ◌∷◌, ◌==◌, string_eq,
  leb, contains, map, if◌then◌else◌,
}
use locus_mesh.Fail.{Result, ok, err, type_error, value_error, ◌>>=◌, ◌>>◌, raise_if}
use locus_mesh.Scope.{ExecutionIntent, private_mesh, public_mesh, observed, scope_rank, intent_eq}
use locus_mesh.Runtime.{Runtime, DateTime}
use locus_mesh.Json.{Json, bool, str, arr, obj, Items, nil, item, Fields}
use locus_mesh.Crypto.{sha256_digest}
use locus_mesh.Models.Patterns.{validated}
use locus_mesh.Models.Fabric.{
  FabricCandidateObservation, candidate_errors, FabricObservation, observation_errors,
}
use locus_mesh.Policy.Digest.{items_of, fields_of}
use locus_mesh.Observer.Payload.{get, mapping, string, boolean, node_state, models, count}

-- The attributes of an observer.
pub record MeshLlmStatusObserver : Type 0 where
  pub source_endpoint : String
  pub status_url : String
  pub requested_max_scope : ExecutionIntent
  pub ttl_seconds : ℕ

pub record Discovery : Type 0 where
  pub mesh_discovery_mode : String
  pub discovery_scope : String
  pub discovery_source : String
  pub nostr_discovery : Bool
  pub publication_state : String

unfoldable pub read_discovery : Fields → Result Discovery
read_discovery payload = do
  mode ← string payload "mesh_discovery_mode" 64
  scope ← string payload "discovery_scope" 64
  source ← string payload "discovery_source" 128
  nostr ← boolean payload "nostr_discovery"
  publication ← string payload "publication_state" 64
  ok (record {
    mesh_discovery_mode = mode;
    discovery_scope = scope;
    discovery_source = source;
    nostr_discovery = nostr;
    publication_state = publication;
  })

unfoldable pub is_private : Discovery → Bool
is_private d =
    d.publication_state == "private"
    && contains ("private" ∷ "lan" ∷ "local" ∷ []) d.discovery_scope
    && contains ("mdns" ∷ "private" ∷ "local" ∷ []) d.mesh_discovery_mode
    && not d.nostr_discovery

unfoldable pub observed_scope : Discovery → ExecutionIntent
unfolding is_private
observed_scope d = if is_private d then private_mesh else public_mesh

pub record Projected : Type 0 where
  pub candidate_id : String
  pub state : String
  pub serving_models : List String
  pub provider_claimed_owner_verified : Bool

-- What is read of the node itself, in the order of the reads: its version first.
unfoldable pub read_local : Fields → Result (String × Projected)
read_local payload = do
  version ← string payload "version" 64
  local_id ← string payload "node_id" 128
  state ← node_state payload "node_state"
  serving ← models payload "serving_models"
  owner ← mapping payload "owner"
  claimed ← boolean owner "verified"
  ok (
    version,
    record {
      candidate_id = local_id;
      state = state;
      serving_models = serving;
      provider_claimed_owner_verified = claimed;
    },
  )

unfoldable pub read_peer_fields : Fields → Result Projected
read_peer_fields peer = do
  owner ← mapping peer "owner"
  peer_id ← string peer "id" 128
  state ← node_state peer "state"
  serving ← models peer "serving_models"
  claimed ← boolean owner "verified"
  ok (record {
    candidate_id = peer_id;
    state = state;
    serving_models = serving;
    provider_claimed_owner_verified = claimed;
  })

unfoldable pub read_peer : Json → Result Projected
unfolding read_peer_fields
read_peer (obj fields) = read_peer_fields fields
read_peer _ = err (type_error "peer must be an object")

unfoldable pub read_peer_list : Items → Result (List Projected)
unfolding read_peer
read_peer_list nil = ok []
read_peer_list (item peer peers) = do
  first ← read_peer peer
  rest ← read_peer_list peers
  ok (first ∷ rest)

unfoldable pub read_peers : Option Json → Result (List Projected)
unfolding read_peer_list
read_peers (some (arr peers)) = do
  raise_if (leb 256 (count peers)) (value_error "peer count exceeds observation bound")
  read_peer_list peers
read_peers _ = err (type_error "peers must be a list")

abbrev provider : String
provider = "mesh_llm"

-- `_candidate`
unfoldable pub candidate_of : ExecutionIntent → Bool → Projected → FabricCandidateObservation
candidate_of scope local_node p = record {
  schema_version = "locusmesh.fabric-candidate-observation.v1";
  provider = provider;
  candidate_id = p.candidate_id;
  local_node = local_node;
  state = p.state;
  serving_models = p.serving_models;
  provider_claimed_owner_verified = p.provider_claimed_owner_verified;
  observed_scope = scope;
  evidence_level = observed;
  admission_authority = false;
  reason_codes = "PROVIDER_STATUS_ONLY" ∷ "REQUEST_BINDING_MISSING" ∷ "POLICY_PIN_MISSING" ∷ [];
}

unfoldable pub candidates_of :
    ExecutionIntent → List Projected → Result (List FabricCandidateObservation)
unfolding candidate_of
candidates_of scope [] = ok []
candidates_of scope (p ∷ peers) = do
  first ← validated candidate_errors (candidate_of scope false p)
  rest ← candidates_of scope peers
  ok (first ∷ rest)

abbrev projected_json : Projected → Json
projected_json p = obj (
    fields_of (
      ("candidate_id", str p.candidate_id)
      ∷ ("state", str p.state)
      ∷ ("serving_models", arr (items_of (map str p.serving_models)))
      ∷ ("provider_claimed_owner_verified", bool p.provider_claimed_owner_verified)
      ∷ []))

abbrev discovery_json : Discovery → Json
discovery_json d = obj (
    fields_of (
      ("mesh_discovery_mode", str d.mesh_discovery_mode)
      ∷ ("discovery_scope", str d.discovery_scope)
      ∷ ("discovery_source", str d.discovery_source)
      ∷ ("nostr_discovery", bool d.nostr_discovery)
      ∷ ("publication_state", str d.publication_state)
      ∷ []))

abbrev projection_json : String → Projected → List Projected → Discovery → Json
projection_json version here peers d = obj (
    fields_of (
      ("provider", str provider)
      ∷ ("provider_version", str version)
      ∷ ("local", projected_json here)
      ∷ ("peers", arr (items_of (map projected_json peers)))
      ∷ ("discovery", discovery_json d)
      ∷ []))

-- now + timedelta(seconds=...); the end of the calendar is out of sight
abbrev pub after_seconds : ℕ → DateTime → DateTime
after_seconds seconds t = record t { instant = t.instant + seconds * 1000000 }

module _ (rt : Runtime) (observer : MeshLlmStatusObserver) (now : DateTime) where
  unfoldable pub observation :
      String → String → ExecutionIntent → List FabricCandidateObservation → FabricObservation
  observation version digest scope candidates =
      let within_scope = leb (scope_rank scope) (scope_rank observer.requested_max_scope) in
      record {
        schema_version = "locusmesh.fabric-observation.v1";
        provider = provider;
        provider_version = version;
        provider_contract = "mesh-llm.api-status.unversioned";
        source_endpoint = observer.source_endpoint;
        projection_digest = digest;
        observed_at = now;
        expires_at = after_seconds observer.ttl_seconds now;
        requested_max_scope = observer.requested_max_scope;
        observed_scope = scope;
        within_requested_scope = within_scope;
        admission_authority = false;
        candidates = candidates;
        reason_codes =
            "OBSERVATION_ONLY"
            ∷ "UNVERSIONED_PROVIDER_SCHEMA"
            ∷ (if scope == private_mesh
                then "PRIVATE_LAN_STATUS_SIGNAL"
                else "PUBLIC_OR_AMBIGUOUS_STATUS_SIGNAL")
            ∷ (if within_scope
                then "SCOPE_SIGNAL_WITHIN_MAXIMUM"
                else "SCOPE_SIGNAL_EXCEEDS_MAXIMUM")
            ∷ [];
      }

  unfoldable pub project : Fields → Result FabricObservation
  unfolding observed_scope observation
  project payload = do
    (version, here) ← read_local payload
    discovery ← read_discovery payload
    let scope = observed_scope discovery
    peers ← read_peers (get payload "peers")
    first ← validated candidate_errors (candidate_of scope true here)
    rest ← candidates_of scope peers
    validated observation_errors (
        observation version (sha256_digest rt (projection_json version here peers discovery)) scope
          (first ∷ rest))
