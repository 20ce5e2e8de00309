-- ===== src/Policy/Sound.antt =====
-- The reasons of `admit_plan` are empty exactly for an admissible plan.
use locus_mesh.Base.{
  String, ◌⧺◌, ◌≡◌, refl, ◌≢◌, ◌↔◌, true, false, not, Option, none, some, List, [], ◌∷◌, arith, All,
  contains, string_eq, pair_eq, append-eq-nil_iff, when-append_iff, is_empty_iff, contains_iff,
  all_distinct_iff, eq_iff,
}
use locus_mesh.Fail.{Result, ok, err}
use locus_mesh.Scope.{
  EvidenceLevel, device_only, hardware_attested, effective_evidence, intent_eq, intent_beq_iff,
}
use locus_mesh.Runtime.{Runtime, DateTime}
use locus_mesh.Crypto.{derive_key_id}
use locus_mesh.Models.Topology.{PeerManifest, AdmissionPolicy, edge_pairs, floor_of}
use locus_mesh.Models.Route.{RoutePlan}
use locus_mesh.Policy.Admit.{
  peer_of, edge_reasons, leaves_device, is_hardware, below_floor, route_reasons, binding_reasons,
  Audit, peer_reasons, audit_peer, audit_hops, audit, decision,
}
use locus_mesh.Policy.Spec.{
  Connected, AtLeast, IsEligible, IsEligiblePeer, IsEligibleHop, IsAdmissibleRoute, IsAdmissible,
}

edge_reasons-nil_iff :
    (allowed : List (String × String)) (hops : List String)
    → (edge_reasons allowed hops ≡ []) ↔ Connected allowed hops
unfolding edge_reasons
edge_reasons-nil_iff allowed [] = (λ h. tt, λ h. refl)
edge_reasons-nil_iff allowed (a ∷ []) = (λ h. tt, λ h. refl)
edge_reasons-nil_iff allowed (a ∷ b ∷ hops) =
    let (to, from) =
      when-append_iff (not (contains allowed (a, b))) ("EDGE_NOT_ALLOWED:" ⧺ (a ⧺ ("->" ⧺ b)))
        (edge_reasons allowed (b ∷ hops)) in
    let (deep, back) = edge_reasons-nil_iff allowed (b ∷ hops) in
    let (sound, complete) = contains_iff allowed (a, b) in
    (
      λ h. (sound (ground (arith, to h)), deep (to h).1),
      λ c. from (ground (arith, complete c.0), back c.1),
    )

pub leaves_device_iff :
    (hops : List String) (here : String) → (leaves_device hops here ≡ false) ↔ (hops ≡ here ∷ [])
unfolding leaves_device
leaves_device_iff [] here = ground arith
leaves_device_iff (a ∷ []) here = ground (arith, eq_iff a here)
leaves_device_iff (a ∷ b ∷ hops) here = ground arith

is_hardware_iff :
    (level : Option EvidenceLevel) → (is_hardware level ≡ false) ↔ (level ≢ some hardware_attested)
is_hardware_iff level = ground arith

below_floor_iff :
    (level : EvidenceLevel) (required : Option EvidenceLevel)
    → (below_floor level required ≡ false) ↔ AtLeast required level
below_floor_iff level none = (λ h. tt, λ h. refl)
below_floor_iff level (some required) = ground arith

binding_reasons-nil_iff :
    (peer_id key_id : String) (bound : Result String)
    → (binding_reasons peer_id key_id bound ≡ []) ↔ (bound ≡ ok key_id)
unfolding binding_reasons
binding_reasons-nil_iff peer_id key_id (ok k) = ground (arith, eq_iff k key_id)
binding_reasons-nil_iff peer_id key_id (err e) = ground arith

module _ (rt : Runtime) (plan : RoutePlan) (policy : AdmissionPolicy) (now : DateTime) where
  route_reasons-nil_iff :
      (route_reasons plan policy now ≡ []) ↔ IsAdmissibleRoute rt plan policy now
  unfolding route_reasons
  route_reasons-nil_iff =
      let hops = plan.hop_peer_ids in
      let required = floor_of plan.intent policy.minimum_evidence in
      let (known, listed) = contains_iff policy.allowed_intents plan.intent in
      let (once, distinct) = all_distinct_iff hops in
      let (stays, single) = leaves_device_iff hops policy.topology.local_peer_id in
      let (joined, edges) = edge_reasons-nil_iff (edge_pairs policy.topology.edges) hops in
      let (soft, supported) = is_hardware_iff required in
      (
        λ h. record {
          intent = known (ground arith);
          plan_window = record { started = ground arith; running = ground arith };
          topology_window = record { started = ground arith; running = ground arith };
          hop_count = ground arith;
          no_repeat = once (ground arith);
          local_only = λ d. stays (ground arith);
          edges = joined (ground arith);
          supported = soft (ground arith);
        },
        λ a. ground (
          arith,
          listed a.intent,
          distinct a.no_repeat,
          edges a.edges,
          supported a.supported,
          a.local_only,
          single,
          intent_beq_iff plan.intent device_only,
        ),
      )

  peer_reasons-nil_iff :
      (peer_id : String) (peer : PeerManifest)
      → (peer_reasons rt plan policy now peer_id peer ≡ []) ↔ IsEligible rt plan policy now peer
  unfolding peer_reasons
  peer_reasons-nil_iff peer_id peer =
      let required = floor_of plan.intent policy.minimum_evidence in
      let level = effective_evidence peer.evidence_level in
      let bound = binding_reasons-nil_iff peer_id peer.key_id (derive_key_id rt peer.public_key) in
      let floor = below_floor_iff level required in
      (
        λ h. record {
          window = record { started = ground arith; running = ground arith };
          scope = ground arith;
          model = ground (arith, eq_iff peer.model_digest plan.model_digest);
          runtime = ground (arith, eq_iff peer.runtime_digest plan.runtime_digest);
          bound = bound.0 (ground arith);
          floor = floor.0 (ground arith);
        },
        λ e. ground (
          arith,
          bound.1 e.bound,
          floor.1 e.floor,
          eq_iff peer.model_digest plan.model_digest,
          eq_iff peer.runtime_digest plan.runtime_digest,
        ),
      )

  audit_peer-reasons_iff :
      (peer_id : String) (peer : Option PeerManifest) (a : Audit)
      → ((audit_peer rt plan policy now peer_id peer a).reasons ≡ [])
        ↔ ((a.reasons ≡ []) × IsEligiblePeer rt plan policy now peer)
  unfolding audit_peer
  audit_peer-reasons_iff peer_id none a =
      let (to, from) = append-eq-nil_iff a.reasons (("PEER_UNKNOWN:" ⧺ peer_id) ∷ []) in
      (λ h. cc ((to h).1), λ h. absurd h.1)
  audit_peer-reasons_iff peer_id (some peer) a =
      let (to, from) = append-eq-nil_iff a.reasons (peer_reasons rt plan policy now peer_id peer) in
      let (fit, back) = peer_reasons-nil_iff peer_id peer in
      (λ h. ((to h).0, fit (to h).1), λ h. from (h.0, back h.1))

  audit_hops-reasons_iff :
      (hops : List String) (a : Audit)
      → ((audit_hops rt plan policy now hops a).reasons ≡ [])
        ↔ ((a.reasons ≡ []) × All (IsEligibleHop rt plan policy now) hops)
  unfolding audit_hops
  audit_hops-reasons_iff [] a = (λ h. (h, tt), λ h. h.0)
  audit_hops-reasons_iff (peer_id ∷ hops) a =
      let peer = peer_of peer_id policy.topology.peers in
      let (to, from) = audit_hops-reasons_iff hops (audit_peer rt plan policy now peer_id peer a) in
      let (fit, back) = audit_peer-reasons_iff peer_id peer a in
      (
        λ h. let (here, later) = to h in let (before, this) = fit here in (before, (this, later)),
        λ h. from (back (h.0, h.1.0), h.1.1),
      )

  -- The decision admits exactly the admissible plans.
  pub decision-admitted_iff :
      ((decision rt plan policy now).admitted ≡ true) ↔ IsAdmissible rt plan policy now
  unfolding decision audit
  decision-admitted_iff =
      let (empty, clear) = is_empty_iff (audit rt plan policy now).reasons in
      let (to, from) =
        audit_hops-reasons_iff plan.hop_peer_ids
          (record { reasons = route_reasons plan policy now; scopes = []; evidence = [] }) in
      let (route, back) = route_reasons-nil_iff in
      (
        λ h. let (before, hops) = to (empty h) in record { route = route before; hops = hops },
        λ a. clear (from (back a.route, a.hops)),
      )
