-- ===== src/Models/Validate/Topology.antt =====
-- models.py and policy.py: `model_validate` of PeerManifest, TopologyEdge, TopologySnapshot and
-- AdmissionPolicy.
use locus_mesh.Base.{ℕ, String, Option, none, some, List, [], ◌∷◌, ◌==◌, from_keys, if◌then◌else◌}
use locus_mesh.Fail.{Result}
use locus_mesh.Scope.{ExecutionIntent, EvidenceLevel, intent_eq}
use locus_mesh.Runtime.{DateTime}
use locus_mesh.Json.{Json, str, obj, Fields, end, field}
use locus_mesh.Models.Topology.{
  PeerManifest, TopologyEdge, TopologySnapshot, AdmissionPolicy, peer_errors, edge_errors,
  topology_errors, policy_errors,
}
use locus_mesh.Models.Validate.{
  good, ◌⊛◌, value_of, required, defaulted, extras, text, intent_value_of, evidence_value_of,
  nullable, sequence, modelled, of_result, of_object, Coercions, integer,
}

abbrev make_peer :
    String
    → String
    → ExecutionIntent
    → String
    → String
    → EvidenceLevel
    → String
    → String
    → DateTime
    → DateTime
    → Option String
    → PeerManifest
make_peer version peer scope model runtime level key public_key from until hint = record {
  schema_version = version;
  peer_id = peer;
  execution_scope = scope;
  model_digest = model;
  runtime_digest = runtime;
  evidence_level = level;
  key_id = key;
  public_key = public_key;
  valid_from = from;
  expires_at = until;
  address_hint = hint;
}

abbrev pub peer_names : List String
peer_names =
    "schema_version" ∷ "peer_id" ∷ "execution_scope" ∷ "model_digest" ∷ "runtime_digest"
    ∷ "evidence_level" ∷ "key_id" ∷ "public_key" ∷ "valid_from" ∷ "expires_at" ∷ "address_hint" ∷ []

abbrev make_edge : String → String → String → TopologyEdge
make_edge version source target = record {
  schema_version = version;
  source_peer_id = source;
  target_peer_id = target;
}

abbrev make_topology :
    String
    → String
    → String
    → DateTime
    → DateTime
    → List PeerManifest
    → List TopologyEdge
    → TopologySnapshot
make_topology version snapshot local captured expires peers edges = record {
  schema_version = version;
  snapshot_id = snapshot;
  local_peer_id = local;
  captured_at = captured;
  expires_at = expires;
  peers = peers;
  edges = edges;
}

abbrev pub topology_names : List String
topology_names =
    "schema_version" ∷ "snapshot_id" ∷ "local_peer_id" ∷ "captured_at" ∷ "expires_at" ∷ "peers"
    ∷ "edges" ∷ []

-- A dict's keys are a set: of equal keys the last stays, at the place of the first.
unfoldable pub put :
    ExecutionIntent
    → EvidenceLevel
    → List (ExecutionIntent × EvidenceLevel)
    → List (ExecutionIntent × EvidenceLevel)
put i level [] = (i, level) ∷ []
put i level ((j, e) ∷ floors) = if j == i then (i, level) ∷ floors else (j, e) ∷ put i level floors

-- dict[ExecutionIntent, EvidenceLevel], on the items in their order
unfoldable pub floors_from :
    List (ExecutionIntent × EvidenceLevel)
    → Fields
    → Option (List (ExecutionIntent × EvidenceLevel))
unfolding put
floors_from seen end = some seen
floors_from seen (field k v fs) = elim (intent_value_of (str k)) [
  | none ↦ none
  | some i ↦ elim (evidence_value_of v) [
    | none ↦ none
    | some level ↦ floors_from (put i level seen) fs
  ]
]

abbrev floors_of : Json → Option (List (ExecutionIntent × EvidenceLevel))
floors_of (obj fs) = floors_from [] fs
floors_of _ = none

-- frozenset[ExecutionIntent]
abbrev intents_of : Json → Option (List ExecutionIntent)
intents_of j = elim (sequence intent_value_of j) [
  | none ↦ none
  | some intents ↦ some (from_keys [] intents)
]

abbrev make_policy :
    String
    → List ExecutionIntent
    → ℕ
    → List (ExecutionIntent × EvidenceLevel)
    → TopologySnapshot
    → AdmissionPolicy
make_policy version intents hops floors topology = record {
  schema_version = version;
  allowed_intents = intents;
  max_hops = hops;
  minimum_evidence = floors;
  topology = topology;
}

module _ (c : Coercions) where
  unfoldable pub peer_fields : Fields → Result PeerManifest
  unfolding modelled value_of extras
  peer_fields fs =
      let need = λ (key : String). required text key (value_of key fs) in
      let time = λ (key : String). required c.moment key (value_of key fs) in
      modelled peer_errors (extras peer_names fs) (
        good make_peer
        ⊛ defaulted "locusmesh.peer-manifest.v1" text "schema_version"
            (value_of "schema_version" fs)
        ⊛ need "peer_id"
        ⊛ required intent_value_of "execution_scope" (value_of "execution_scope" fs)
        ⊛ need "model_digest"
        ⊛ need "runtime_digest"
        ⊛ required evidence_value_of "evidence_level" (value_of "evidence_level" fs)
        ⊛ need "key_id"
        ⊛ need "public_key"
        ⊛ time "valid_from"
        ⊛ time "expires_at"
        ⊛ defaulted none (nullable text) "address_hint" (value_of "address_hint" fs))

  unfoldable pub edge_fields : Fields → Result TopologyEdge
  unfolding modelled value_of extras
  edge_fields fs =
      modelled edge_errors (extras ("schema_version" ∷ "source_peer_id" ∷ "target_peer_id" ∷ []) fs)
        (good make_edge
          ⊛ defaulted "locusmesh.topology-edge.v1" text "schema_version"
              (value_of "schema_version" fs)
          ⊛ required text "source_peer_id" (value_of "source_peer_id" fs)
          ⊛ required text "target_peer_id" (value_of "target_peer_id" fs))

  unfoldable pub validate_peer : Json → Result PeerManifest
  unfolding peer_fields
  validate_peer = of_object peer_fields

  unfoldable pub validate_edge : Json → Result TopologyEdge
  unfolding edge_fields
  validate_edge = of_object edge_fields

  unfoldable pub topology_fields : Fields → Result TopologySnapshot
  unfolding modelled value_of extras validate_peer validate_edge
  topology_fields fs = modelled topology_errors (extras topology_names fs) (
      good make_topology
      ⊛ defaulted "locusmesh.topology-snapshot.v1" text "schema_version"
          (value_of "schema_version" fs)
      ⊛ required text "snapshot_id" (value_of "snapshot_id" fs)
      ⊛ required text "local_peer_id" (value_of "local_peer_id" fs)
      ⊛ required c.moment "captured_at" (value_of "captured_at" fs)
      ⊛ required c.moment "expires_at" (value_of "expires_at" fs)
      ⊛ required (sequence (λ j. of_result (validate_peer j))) "peers" (value_of "peers" fs)
      ⊛ defaulted [] (sequence (λ j. of_result (validate_edge j))) "edges" (value_of "edges" fs))

  -- TopologySnapshot.model_validate
  unfoldable pub validate_topology : Json → Result TopologySnapshot
  unfolding topology_fields
  validate_topology = of_object topology_fields

  unfoldable pub policy_fields : Fields → Result AdmissionPolicy
  unfolding modelled value_of extras validate_topology floors_from
  policy_fields fs =
      modelled policy_errors
        (extras
          ("schema_version" ∷ "allowed_intents" ∷ "max_hops" ∷ "minimum_evidence" ∷ "topology" ∷ [])
          fs)
        (good make_policy
          ⊛ defaulted "locusmesh.admission-policy.v1" text "schema_version"
              (value_of "schema_version" fs)
          ⊛ required intents_of "allowed_intents" (value_of "allowed_intents" fs)
          ⊛ required (integer c) "max_hops" (value_of "max_hops" fs)
          ⊛ required floors_of "minimum_evidence" (value_of "minimum_evidence" fs)
          ⊛ required (λ j. of_result (validate_topology j)) "topology" (value_of "topology" fs))

  -- AdmissionPolicy.model_validate
  unfoldable pub validate_policy : Json → Result AdmissionPolicy
  unfolding policy_fields
  validate_policy = of_object policy_fields
