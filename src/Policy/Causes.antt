-- ===== src/Policy/Causes.antt =====
-- admit_plan of policy.py: the reason codes, each with what it says of the plan.
use locus_mesh.Base.{
  ◌≤◌, ◌<◌, String, ◌⧺◌, ◌≡◌, ◌≢◌, Option, none, some, List, [], ◌∷◌, ◌++◌, length, In, Distinct,
  Table,
}
use locus_mesh.Fail.{Result, ok, err}
use locus_mesh.Scope.{
  EvidenceLevel, device_only, hardware_attested, scope_rank, evidence_rank, effective_evidence,
}
use locus_mesh.Runtime.{Runtime, DateTime}
use locus_mesh.Crypto.{derive_key_id}
use locus_mesh.Models.Topology.{PeerManifest, AdmissionPolicy, edge_pairs, floor_of}
use locus_mesh.Models.Route.{RoutePlan}
use locus_mesh.Policy.Admit.{peer_of}

abbrev pub edge_causes : List (String × String) → List String → Table
edge_causes allowed [] = []
edge_causes allowed (source ∷ []) = []
edge_causes allowed (source ∷ target ∷ hops) =
    ("EDGE_NOT_ALLOWED:" ⧺ (source ⧺ ("->" ⧺ target)), ¬ In (source, target) allowed)
    ∷ edge_causes allowed (target ∷ hops)

abbrev pub route_causes : RoutePlan → AdmissionPolicy → DateTime → Table
route_causes plan policy now =
    ("INTENT_NOT_ALLOWED", ¬ In plan.intent policy.allowed_intents)
    ∷ ("PLAN_NOT_YET_VALID", now.instant < plan.created_at.instant)
    ∷ ("PLAN_EXPIRED", plan.expires_at.instant ≤ now.instant)
    ∷ ("TOPOLOGY_NOT_YET_VALID", now.instant < policy.topology.captured_at.instant)
    ∷ ("TOPOLOGY_EXPIRED", policy.topology.expires_at.instant ≤ now.instant)
    ∷ ("MAX_HOPS_EXCEEDED", policy.max_hops < length plan.hop_peer_ids)
    ∷ ("DUPLICATE_PEER", ¬ Distinct plan.hop_peer_ids)
    ∷ (
      "DEVICE_ONLY_REQUIRES_LOCAL_SINGLE_HOP",
      (plan.intent ≡ device_only) × (plan.hop_peer_ids ≢ policy.topology.local_peer_id ∷ []),
    )
    ∷ (edge_causes (edge_pairs policy.topology.edges) plan.hop_peer_ids
        ++ ((
          "HARDWARE_ATTESTATION_UNSUPPORTED",
          floor_of plan.intent policy.minimum_evidence ≡ some hardware_attested,
        )
            ∷ []))

abbrev pub Below : EvidenceLevel → Option EvidenceLevel → Type 0
Below level none = ⊥
Below level (some required) = evidence_rank level < evidence_rank required

abbrev pub Raises : Result String → Type 0
Raises (ok key_id) = ⊥
Raises (err e) = Unit

abbrev pub BoundElsewhere : Result String → String → Type 0
BoundElsewhere (ok bound) key_id = bound ≢ key_id
BoundElsewhere (err e) key_id = ⊥

module _ (rt : Runtime) (plan : RoutePlan) (policy : AdmissionPolicy) (now : DateTime) where
  -- What is said of a hop that the topology does not know, and of one whose manifest it has.
  abbrev pub peer_causes : String → Option PeerManifest → Table
  peer_causes peer_id none = ("PEER_UNKNOWN:" ⧺ peer_id, Unit) ∷ []
  peer_causes peer_id (some peer) =
      ("PEER_NOT_YET_VALID:" ⧺ peer_id, now.instant < peer.valid_from.instant)
      ∷ ("PEER_EXPIRED:" ⧺ peer_id, peer.expires_at.instant ≤ now.instant)
      ∷ ("SCOPE_WIDENING:" ⧺ peer_id, scope_rank plan.intent < scope_rank peer.execution_scope)
      ∷ ("MODEL_DIGEST_MISMATCH:" ⧺ peer_id, peer.model_digest ≢ plan.model_digest)
      ∷ ("RUNTIME_DIGEST_MISMATCH:" ⧺ peer_id, peer.runtime_digest ≢ plan.runtime_digest)
      ∷ ("PEER_PUBLIC_KEY_INVALID:" ⧺ peer_id, Raises (derive_key_id rt peer.public_key))
      ∷ (
        "PEER_KEY_BINDING_INVALID:" ⧺ peer_id,
        BoundElsewhere (derive_key_id rt peer.public_key) peer.key_id,
      )
      ∷ (
        "EVIDENCE_BELOW_FLOOR:" ⧺ peer_id,
        Below (effective_evidence peer.evidence_level)
            (floor_of plan.intent policy.minimum_evidence),
      )
      ∷ []

  abbrev pub hop_causes : List String → Table
  hop_causes [] = []
  hop_causes (peer_id ∷ hops) =
      peer_causes peer_id (peer_of peer_id policy.topology.peers) ++ hop_causes hops

  -- All that may be said against the plan.
  abbrev pub plan_causes : Table
  plan_causes = route_causes plan policy now ++ hop_causes plan.hop_peer_ids
