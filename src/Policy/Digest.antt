-- ===== src/Policy/Digest.antt =====
-- The JSON forms of the contracts, and `topology_digest` and `policy_digest` of policy.py.
use locus_mesh.Base.{
  String, Bool, Option, none, some, List, [], ◌∷◌, map, ◌==◌, string_eq, codes, sort_by,
  if◌then◌else◌,
}
use locus_mesh.Scope.{ExecutionIntent, EvidenceLevel, intent_value, evidence_value}
use locus_mesh.Runtime.{Runtime}
use locus_mesh.Json.{Json, null, num, str, arr, obj, Items, nil, item, Fields, end, field, text_lt}
use locus_mesh.Crypto.{sha256_digest}
use locus_mesh.Models.Topology.{PeerManifest, TopologyEdge, TopologySnapshot, AdmissionPolicy}
use locus_mesh.Models.Route.{RoutePlan, HopReceipt, RouteAttestation}

abbrev pub items_of : List Json → Items
items_of [] = nil
items_of (x ∷ xs) = item x (items_of xs)

abbrev pub fields_of : List (String × Json) → Fields
fields_of [] = end
fields_of ((k, v) ∷ fs) = field k v (fields_of fs)

abbrev pub optional_str : Option String → Json
optional_str none = null
optional_str (some s) = str s

-- Texts in Python's order, and pairs of them as tuples.
abbrev pub str_lt : String → String → Bool
str_lt s t = text_lt (codes s) (codes t)

abbrev pub pair_lt : String × String → String × String → Bool
pair_lt (a, b) (c, d) = if a == c then str_lt b d else str_lt a c

abbrev pub peer_lt : PeerManifest → PeerManifest → Bool
peer_lt p q = str_lt p.peer_id q.peer_id

abbrev pub edge_lt : TopologyEdge → TopologyEdge → Bool
edge_lt e f = pair_lt (e.source_peer_id, e.target_peer_id) (f.source_peer_id, f.target_peer_id)

abbrev pub intent_lt : ExecutionIntent → ExecutionIntent → Bool
intent_lt i j = str_lt (intent_value i) (intent_value j)

abbrev pub floor_lt : ExecutionIntent × EvidenceLevel → ExecutionIntent × EvidenceLevel → Bool
floor_lt (i, _) (j, _) = intent_lt i j

abbrev pub edge_json : TopologyEdge → Json
edge_json e = obj (
    fields_of (
      ("schema_version", str e.schema_version)
      ∷ ("source_peer_id", str e.source_peer_id)
      ∷ ("target_peer_id", str e.target_peer_id)
      ∷ []))

module _ (rt : Runtime) where
  abbrev pub peer_json : PeerManifest → Json
  peer_json p = obj (
      fields_of (
        ("schema_version", str p.schema_version)
        ∷ ("peer_id", str p.peer_id)
        ∷ ("execution_scope", str (intent_value p.execution_scope))
        ∷ ("model_digest", str p.model_digest)
        ∷ ("runtime_digest", str p.runtime_digest)
        ∷ ("evidence_level", str (evidence_value p.evidence_level))
        ∷ ("key_id", str p.key_id)
        ∷ ("public_key", str p.public_key)
        ∷ ("valid_from", str (rt.json_datetime p.valid_from))
        ∷ ("expires_at", str (rt.json_datetime p.expires_at))
        ∷ ("address_hint", optional_str p.address_hint)
        ∷ []))

  unfoldable pub topology_json : TopologySnapshot → Json
  topology_json t =
      let ordered_peers = sort_by peer_lt t.peers in
      let ordered_edges = sort_by edge_lt t.edges in
      obj (
        fields_of (
          ("schema_version", str t.schema_version)
          ∷ ("snapshot_id", str t.snapshot_id)
          ∷ ("local_peer_id", str t.local_peer_id)
          ∷ ("captured_at", str (rt.isoformat t.captured_at))
          ∷ ("expires_at", str (rt.isoformat t.expires_at))
          ∷ ("peers", arr (items_of (map peer_json ordered_peers)))
          ∷ ("edges", arr (items_of (map edge_json ordered_edges)))
          ∷ []))

  unfoldable pub topology_digest : TopologySnapshot → String
  unfolding topology_json
  topology_digest t = sha256_digest rt (topology_json t)

  unfoldable pub policy_json : AdmissionPolicy → Json
  policy_json p = obj (
      fields_of (
        ("schema_version", str p.schema_version)
        ∷ (
          "allowed_intents",
          arr (items_of (map (λ i. str (intent_value i)) (sort_by intent_lt p.allowed_intents))),
        )
        ∷ ("max_hops", num p.max_hops)
        ∷ (
          "minimum_evidence",
          obj (
              fields_of (
                map (λ f. (intent_value f.0, str (evidence_value f.1)))
                  (sort_by floor_lt p.minimum_evidence))),
        )
        ∷ ("topology_digest", str (topology_digest p.topology))
        ∷ []))

  unfoldable pub policy_digest : AdmissionPolicy → String
  unfolding policy_json
  policy_digest p = sha256_digest rt (policy_json p)

  abbrev pub plan_json : RoutePlan → Json
  plan_json p = obj (
      fields_of (
        ("schema_version", str p.schema_version)
        ∷ ("request_id", str p.request_id)
        ∷ ("nonce", str p.nonce)
        ∷ ("request_commitment", str p.request_commitment)
        ∷ ("intent", str (intent_value p.intent))
        ∷ ("model_digest", str p.model_digest)
        ∷ ("runtime_digest", str p.runtime_digest)
        ∷ ("hop_peer_ids", arr (items_of (map str p.hop_peer_ids)))
        ∷ ("created_at", str (rt.json_datetime p.created_at))
        ∷ ("expires_at", str (rt.json_datetime p.expires_at))
        ∷ []))

  -- The fields of a receipt without the signature.
  abbrev pub signed_fields : HopReceipt → List (String × Json)
  signed_fields r =
      ("schema_version", str r.schema_version)
      ∷ ("request_id", str r.request_id)
      ∷ ("nonce", str r.nonce)
      ∷ ("request_commitment", str r.request_commitment)
      ∷ ("route_plan_digest", str r.route_plan_digest)
      ∷ ("policy_digest", str r.policy_digest)
      ∷ ("topology_digest", str r.topology_digest)
      ∷ ("intent", str (intent_value r.intent))
      ∷ ("hop_index", num r.hop_index)
      ∷ ("hop_count", num r.hop_count)
      ∷ ("peer_id", str r.peer_id)
      ∷ ("previous_peer_id", optional_str r.previous_peer_id)
      ∷ ("next_peer_id", optional_str r.next_peer_id)
      ∷ ("previous_receipt_digest", optional_str r.previous_receipt_digest)
      ∷ ("model_digest", str r.model_digest)
      ∷ ("runtime_digest", str r.runtime_digest)
      ∷ ("evidence_level", str (evidence_value r.evidence_level))
      ∷ ("observed_at", str (rt.json_datetime r.observed_at))
      ∷ ("key_id", str r.key_id)
      ∷ ("signature_algorithm", str r.signature_algorithm)
      ∷ []

  unfoldable pub signing_payload : HopReceipt → Json
  signing_payload r = obj (fields_of (signed_fields r))

  abbrev pub receipt_json : HopReceipt → Json
  receipt_json r = obj (fields_of (("signature", str r.signature) ∷ signed_fields r))

  abbrev pub attestation_json : RouteAttestation → Json
  attestation_json a = obj (
      fields_of (
        ("schema_version", str a.schema_version)
        ∷ ("plan", plan_json a.plan)
        ∷ ("receipts", arr (items_of (map receipt_json a.receipts)))
        ∷ []))
