-- ===== src/Models/Topology.antt =====
-- PeerManifest, TopologyEdge, TopologySnapshot and AdmissionPolicy.
use locus_mesh.Base.{
  ℕ, String, Bool, true, false, not, ◌||◌, Option, none, some, List, [], ◌∷◌, ◌++◌, map, ◌==◌, ◌!=◌,
  nat_eq, string_eq, pair_eq, between, length, leb, when, contains, all_distinct, if◌then◌else◌,
}
use locus_mesh.Scope.{ExecutionIntent, EvidenceLevel, intent_eq}
use locus_mesh.Runtime.{DateTime, is_aware, ◌≤?◌}
use locus_mesh.Models.Patterns.{
  is_digest, is_peer_id, is_key_id, is_request_id, is_base64url, len, after_fields, first_error,
  flat_errors,
}

pub record PeerManifest : Type 0 where
  pub schema_version : String
  pub peer_id : String
  pub execution_scope : ExecutionIntent
  pub model_digest : String
  pub runtime_digest : String
  pub evidence_level : EvidenceLevel
  pub key_id : String
  pub public_key : String
  pub valid_from : DateTime
  pub expires_at : DateTime
  pub address_hint : Option String

unfoldable pub fits_hint : Option String → Bool
fits_hint none = true
fits_hint (some hint) = leb (len hint) 512

unfoldable pub peer_errors : PeerManifest → List String
unfolding fits_hint
peer_errors p =
    after_fields
      (when (p.schema_version != "locusmesh.peer-manifest.v1") "schema_version"
        ++ (when (not (is_peer_id p.peer_id)) "peer_id"
            ++ (when (not (is_digest p.model_digest)) "model_digest"
                ++ (when (not (is_digest p.runtime_digest)) "runtime_digest"
                    ++ (when (not (is_key_id p.key_id)) "key_id"
                        ++ (when (not (is_base64url 43 p.public_key)) "public_key"
                            ++ (when (not (is_aware p.valid_from)) "valid_from"
                                ++ (when (not (is_aware p.expires_at)) "expires_at"
                                    ++ when (not (fits_hint p.address_hint)) "address_hint"))))))))
      (first_error
        ((p.expires_at ≤? p.valid_from, "valid_from must be earlier than expires_at") ∷ []))

pub record TopologyEdge : Type 0 where
  pub schema_version : String
  pub source_peer_id : String
  pub target_peer_id : String

unfoldable pub edge_errors : TopologyEdge → List String
edge_errors e =
    when (e.schema_version != "locusmesh.topology-edge.v1") "schema_version"
    ++ (when (not (is_peer_id e.source_peer_id)) "source_peer_id"
        ++ when (not (is_peer_id e.target_peer_id)) "target_peer_id")

pub record TopologySnapshot : Type 0 where
  pub schema_version : String
  pub snapshot_id : String
  pub local_peer_id : String
  pub captured_at : DateTime
  pub expires_at : DateTime
  pub peers : List PeerManifest
  pub edges : List TopologyEdge

abbrev pub peer_ids : List PeerManifest → List String
peer_ids = map (λ p. p.peer_id)

abbrev pub edge_pairs : List TopologyEdge → List (String × String)
edge_pairs = map (λ e. (e.source_peer_id, e.target_peer_id))

-- any(source not in known or target not in known for source, target in edge_pairs)
unfoldable pub dangling : List String → List (String × String) → Bool
dangling known [] = false
dangling known ((source, target) ∷ pairs) =
    not (contains known source) || not (contains known target) || dangling known pairs

unfoldable pub topology_errors : TopologySnapshot → List String
unfolding flat_errors
topology_errors t =
    let known = peer_ids t.peers in
    let pairs = edge_pairs t.edges in
    after_fields
      (when (t.schema_version != "locusmesh.topology-snapshot.v1") "schema_version"
        ++ (when (not (is_request_id t.snapshot_id)) "snapshot_id"
            ++ (when (not (is_peer_id t.local_peer_id)) "local_peer_id"
                ++ (when (not (is_aware t.captured_at)) "captured_at"
                    ++ (when (not (is_aware t.expires_at)) "expires_at"
                        ++ (when (not (between 1 256 (length t.peers))) "peers"
                            ++ (when (not (leb (length t.edges) 1024)) "edges"
                                ++ (flat_errors peer_errors t.peers
                                    ++ flat_errors edge_errors t.edges))))))))
      (first_error (
        (t.expires_at ≤? t.captured_at, "captured_at must be earlier than expires_at")
        ∷ (not (all_distinct known), "peers must contain unique peer_id values")
        ∷ (
          not (contains known t.local_peer_id),
          "local_peer_id must reference a peer in the snapshot",
        )
        ∷ (not (all_distinct pairs), "edges must be unique")
        ∷ (dangling known pairs, "every edge endpoint must reference a peer in the snapshot")
        ∷ []))

-- A frozenset is a list with each member once, and a dict a list with each key once.
pub record AdmissionPolicy : Type 0 where
  pub schema_version : String
  pub allowed_intents : List ExecutionIntent
  pub max_hops : ℕ
  pub minimum_evidence : List (ExecutionIntent × EvidenceLevel)
  pub topology : TopologySnapshot

-- minimum_evidence.get(intent)
unfoldable pub floor_of :
    ExecutionIntent → List (ExecutionIntent × EvidenceLevel) → Option EvidenceLevel
floor_of intent [] = none
floor_of intent ((i, level) ∷ floors) = if i == intent then some level else floor_of intent floors

-- allowed_intents.difference(minimum_evidence) is not empty
unfoldable pub missing_floor : List ExecutionIntent → List (ExecutionIntent × EvidenceLevel) → Bool
missing_floor [] floors = false
missing_floor (i ∷ intents) floors = elim (floor_of i floors) [
  | none ↦ true
  | some _ ↦ missing_floor intents floors
]

unfoldable pub policy_errors : AdmissionPolicy → List String
policy_errors p =
    after_fields (when (not (between 1 64 p.max_hops)) "max_hops" ++ topology_errors p.topology) (
      first_error (
        (p.schema_version != "locusmesh.admission-policy.v1", "schema_version")
        ∷ (
          missing_floor p.allowed_intents p.minimum_evidence,
          "minimum_evidence must cover every allowed intent",
        )
        ∷ []))
