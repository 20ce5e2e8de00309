-- ===== src/Policy/Spec.antt =====
-- When a route plan may be admitted, stated without the order and the texts of the reasons.
use locus_mesh.Base.{
  ◌≤◌, ◌<◌, String, ◌≡◌, ◌≢◌, Option, none, some, List, [], ◌∷◌, All, In, Distinct, length,
}
use locus_mesh.Fail.{ok}
use locus_mesh.Scope.{
  EvidenceLevel, device_only, hardware_attested, scope_rank, evidence_rank, effective_evidence,
}
use locus_mesh.Runtime.{Runtime, DateTime}
use locus_mesh.Crypto.{derive_key_id}
use locus_mesh.Models.Topology.{PeerManifest, AdmissionPolicy, edge_pairs, floor_of}
use locus_mesh.Models.Route.{RoutePlan}
use locus_mesh.Policy.Admit.{peer_of}

-- A half-open window of validity.
pub record Within (now from until : DateTime) : Type 0 where
  pub started : from.instant ≤ now.instant
  pub running : now.instant < until.instant

-- Every adjacent pair of hops is an allowed edge.
abbrev pub Connected : List (String × String) → List String → Type 0
Connected allowed [] = Unit
Connected allowed (source ∷ []) = Unit
Connected allowed (source ∷ target ∷ hops) =
    In (source, target) allowed × Connected allowed (target ∷ hops)

abbrev pub AtLeast : Option EvidenceLevel → EvidenceLevel → Type 0
AtLeast none level = Unit
AtLeast (some required) level = evidence_rank required ≤ evidence_rank level

module _ (rt : Runtime) (plan : RoutePlan) (policy : AdmissionPolicy) (now : DateTime) where
  pub record IsEligible (peer : PeerManifest) : Type 0 where
    pub window : Within now peer.valid_from peer.expires_at
    pub scope : scope_rank peer.execution_scope ≤ scope_rank plan.intent
    pub model : peer.model_digest ≡ plan.model_digest
    pub runtime : peer.runtime_digest ≡ plan.runtime_digest
    pub bound : derive_key_id rt peer.public_key ≡ ok peer.key_id
    pub floor :
        AtLeast
          (floor_of plan.intent policy.minimum_evidence)
          (effective_evidence peer.evidence_level)

  abbrev pub IsEligiblePeer : Option PeerManifest → Type 0
  IsEligiblePeer none = ⊥
  IsEligiblePeer (some peer) = IsEligible peer

  abbrev pub IsEligibleHop : String → Type 0
  IsEligibleHop peer_id = IsEligiblePeer (peer_of peer_id policy.topology.peers)

  pub record IsAdmissibleRoute : Type 0 where
    pub intent : In plan.intent policy.allowed_intents
    pub plan_window : Within now plan.created_at plan.expires_at
    pub topology_window : Within now policy.topology.captured_at policy.topology.expires_at
    pub hop_count : length plan.hop_peer_ids ≤ policy.max_hops
    pub no_repeat : Distinct plan.hop_peer_ids
    pub local_only :
        plan.intent ≡ device_only → plan.hop_peer_ids ≡ policy.topology.local_peer_id ∷ []
    pub edges : Connected (edge_pairs policy.topology.edges) plan.hop_peer_ids
    pub supported : floor_of plan.intent policy.minimum_evidence ≢ some hardware_attested

  pub record IsAdmissible : Type 0 where
    pub route : IsAdmissibleRoute
    pub hops : All IsEligibleHop plan.hop_peer_ids
