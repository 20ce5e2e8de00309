-- ===== src/Policy/Admit.antt =====
-- `admit_plan` of policy.py.
use locus_mesh.Base.{
  String, ◌⧺◌, Bool, true, false, not, ◌&&◌, Option, none, some, List, [], ◌∷◌, ◌++◌, ◌==◌, ◌!=◌,
  nat_eq, string_eq, pair_eq, ltb, length, when, is_empty, contains, all_distinct, from_keys,
  if◌then◌else◌,
}
use locus_mesh.Fail.{Result, ok, err, value_error, ◌>>◌, raise_if}
use locus_mesh.Scope.{
  ExecutionIntent, EvidenceLevel, device_only, hardware_attested, scope_rank, evidence_rank,
  intent_eq, evidence_eq, effective_evidence, minimum_scope, minimum_evidence,
}
use locus_mesh.Runtime.{Runtime, DateTime, is_aware, ◌<?◌, ◌≤?◌}
use locus_mesh.Crypto.{sha256_digest, derive_key_id}
use locus_mesh.Models.Patterns.{validated}
use locus_mesh.Models.Topology.{PeerManifest, AdmissionPolicy, edge_pairs, floor_of}
use locus_mesh.Models.Route.{RoutePlan}
use locus_mesh.Models.Decision.{AdmissionDecision, plan_admission, decision_errors}
use locus_mesh.Policy.Digest.{topology_digest, policy_digest, plan_json}

-- peers_by_id.get(peer_id): in a dict comprehension the last of equal keys stays
unfoldable pub peer_of : String → List PeerManifest → Option PeerManifest
peer_of peer_id [] = none
peer_of peer_id (p ∷ peers) = elim (peer_of peer_id peers) [
  | some q ↦ some q
  | none ↦ if p.peer_id == peer_id then some p else none
]

-- for source, target in zip(hops, hops[1:])
unfoldable pub edge_reasons : List (String × String) → List String → List String
edge_reasons allowed [] = []
edge_reasons allowed (source ∷ []) = []
edge_reasons allowed (source ∷ target ∷ hops) =
    when (not (contains allowed (source, target)))
      ("EDGE_NOT_ALLOWED:" ⧺ (source ⧺ ("->" ⧺ target)))
    ++ edge_reasons allowed (target ∷ hops)

-- len(hops) != 1 or hops[0] != local_peer_id
unfoldable pub leaves_device : List String → String → Bool
leaves_device (hop ∷ []) local_peer_id = hop != local_peer_id
leaves_device _ local_peer_id = true

abbrev pub is_hardware : Option EvidenceLevel → Bool
is_hardware none = false
is_hardware (some level) = level == hardware_attested

abbrev pub below_floor : EvidenceLevel → Option EvidenceLevel → Bool
below_floor level none = false
below_floor level (some required) = ltb (evidence_rank level) (evidence_rank required)

-- The reasons that concern the route as a whole, in the order of the source.
unfoldable pub route_reasons : RoutePlan → AdmissionPolicy → DateTime → List String
route_reasons plan policy now =
    when (not (contains policy.allowed_intents plan.intent)) "INTENT_NOT_ALLOWED"
    ++ (when (now <? plan.created_at) "PLAN_NOT_YET_VALID"
        ++ (when (plan.expires_at ≤? now) "PLAN_EXPIRED"
            ++ (when (now <? policy.topology.captured_at) "TOPOLOGY_NOT_YET_VALID"
                ++ (when (policy.topology.expires_at ≤? now) "TOPOLOGY_EXPIRED"
                    ++ (when (ltb policy.max_hops (length plan.hop_peer_ids)) "MAX_HOPS_EXCEEDED"
                        ++ (when (not (all_distinct plan.hop_peer_ids)) "DUPLICATE_PEER"
                            ++ (when
                                  (plan.intent == device_only
                                    && leaves_device plan.hop_peer_ids
                                        policy.topology.local_peer_id)
                                  "DEVICE_ONLY_REQUIRES_LOCAL_SINGLE_HOP"
                                ++ (edge_reasons (edge_pairs policy.topology.edges)
                                      plan.hop_peer_ids
                                    ++ when
                                        (is_hardware (floor_of plan.intent policy.minimum_evidence))
                                        "HARDWARE_ATTESTATION_UNSUPPORTED"))))))))

-- `derive_key_id` raises nothing but ValueError.
unfoldable pub binding_reasons : String → String → Result String → List String
binding_reasons peer_id key_id (ok bound) =
    when (bound != key_id) ("PEER_KEY_BINDING_INVALID:" ⧺ peer_id)
binding_reasons peer_id key_id (err e) = ("PEER_PUBLIC_KEY_INVALID:" ⧺ peer_id) ∷ []

-- The lists that the loop over the hops fills.
pub record Audit : Type 0 where
  pub reasons : List String
  pub scopes : List ExecutionIntent
  pub evidence : List EvidenceLevel

module _ (rt : Runtime) (plan : RoutePlan) (policy : AdmissionPolicy) (now : DateTime) where
  unfoldable pub peer_reasons : String → PeerManifest → List String
  peer_reasons peer_id peer =
      when (now <? peer.valid_from) ("PEER_NOT_YET_VALID:" ⧺ peer_id)
      ++ (when (peer.expires_at ≤? now) ("PEER_EXPIRED:" ⧺ peer_id)
          ++ (when (ltb (scope_rank plan.intent) (scope_rank peer.execution_scope))
                ("SCOPE_WIDENING:" ⧺ peer_id)
              ++ (when (peer.model_digest != plan.model_digest) ("MODEL_DIGEST_MISMATCH:" ⧺ peer_id)
                  ++ (when (peer.runtime_digest != plan.runtime_digest)
                        ("RUNTIME_DIGEST_MISMATCH:" ⧺ peer_id)
                      ++ (binding_reasons peer_id peer.key_id (derive_key_id rt peer.public_key)
                          ++ when
                              (below_floor (effective_evidence peer.evidence_level)
                                (floor_of plan.intent policy.minimum_evidence))
                              ("EVIDENCE_BELOW_FLOOR:" ⧺ peer_id))))))

  -- one round of the loop
  unfoldable pub audit_peer : String → Option PeerManifest → Audit → Audit
  audit_peer peer_id none a = record a { reasons = a.reasons ++ (("PEER_UNKNOWN:" ⧺ peer_id) ∷ []) }
  audit_peer peer_id (some peer) a = record {
    reasons = a.reasons ++ peer_reasons peer_id peer;
    scopes = a.scopes ++ (peer.execution_scope ∷ []);
    evidence = a.evidence ++ (effective_evidence peer.evidence_level ∷ []);
  }

  unfoldable pub audit_hops : List String → Audit → Audit
  unfolding audit_peer
  audit_hops [] a = a
  audit_hops (peer_id ∷ hops) a =
      audit_hops hops (audit_peer peer_id (peer_of peer_id policy.topology.peers) a)

  -- the state of the three lists after the last hop
  unfoldable pub audit : Audit
  unfolding audit_hops
  audit =
      audit_hops plan.hop_peer_ids
        (record { reasons = route_reasons plan policy now; scopes = []; evidence = [] })

  unfoldable pub decision : AdmissionDecision
  unfolding audit
  decision =
      let admitted = is_empty audit.reasons in
      record {
        schema_version = "locusmesh.admission-decision.v1";
        decision_kind = plan_admission;
        admitted = admitted;
        reason_codes = if admitted then "ADMITTED" ∷ [] else from_keys [] audit.reasons;
        evaluated_at = now;
        checked_hops = length plan.hop_peer_ids;
        route_digest = some (sha256_digest rt (plan_json rt plan));
        attestation_digest = none;
        policy_digest = some (policy_digest rt policy);
        topology_digest = some (topology_digest rt policy.topology);
        requested_intent = some plan.intent;
        effective_scope = minimum_scope audit.scopes;
        required_evidence = floor_of plan.intent policy.minimum_evidence;
        effective_evidence = minimum_evidence audit.evidence;
      }

  unfoldable pub admit_plan : Result AdmissionDecision
  unfolding decision
  admit_plan = do
    raise_if (not (is_aware now)) (value_error "timezone-aware verification time required")
    validated decision_errors decision
