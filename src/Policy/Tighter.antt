-- ===== src/Policy/Tighter.antt =====
-- admit_plan of policy.py: a policy that asks for less, and a time in between, admit what is admitted.
use locus_mesh.Base.{
  ℕ, ◌≤◌, String, ◌≡◌, ◌≢◌, ap, ◌∙◌, subst, true, Option, none, some, List, [], ◌∷◌, arith, All, In,
}
use locus_mesh.Fail.{ok}
use locus_mesh.Scope.{ExecutionIntent, EvidenceLevel, hardware_attested, evidence_rank}
use locus_mesh.Runtime.{Runtime, IsLawful, DateTime, is_aware}
use locus_mesh.Models.Topology.{PeerManifest, AdmissionPolicy, edge_pairs, floor_of}
use locus_mesh.Models.Route.{RoutePlan}
use locus_mesh.Models.Decision.{AdmissionDecision}
use locus_mesh.Policy.Admit.{peer_of, admit_plan}
use locus_mesh.Policy.Spec.{Within, Connected, AtLeast, IsEligiblePeer, IsEligibleHop, IsAdmissible}
use locus_mesh.Policy.Sound.{decision-admitted_iff}
use locus_mesh.Policy.Total.{IsValidPlan, admit_plan_decides, admit_plan_inv}

-- A missing floor asks for nothing.
abbrev pub floor_rank : Option EvidenceLevel → ℕ
floor_rank none = 0
floor_rank (some level) = evidence_rank level

-- Of two policies over the same peers, the first allows no more intents, hops, edges and times, and
-- asks for as much evidence.
pub record IsTighter (p q : AdmissionPolicy) : Type 0 where
  pub intents : (i : ExecutionIntent) → In i p.allowed_intents → In i q.allowed_intents
  pub hops : p.max_hops ≤ q.max_hops
  pub floors :
      (i : ExecutionIntent)
      → floor_rank (floor_of i q.minimum_evidence) ≤ floor_rank (floor_of i p.minimum_evidence)
  pub peers : p.topology.peers ≡ q.topology.peers
  pub local_peer : p.topology.local_peer_id ≡ q.topology.local_peer_id
  pub edges :
      (e : String × String)
      → In e (edge_pairs p.topology.edges)
      → In e (edge_pairs q.topology.edges)
  pub from : q.topology.captured_at.instant ≤ p.topology.captured_at.instant
  pub until : p.topology.expires_at.instant ≤ q.topology.expires_at.instant

Connected-mono :
    (a b : List (String × String)) (hops : List String)
    → ((e : String × String) → In e a → In e b)
    → Connected a hops
    → Connected b hops
Connected-mono a b [] more h = tt
Connected-mono a b (x ∷ []) more h = tt
Connected-mono a b (x ∷ y ∷ hops) more h = (more (x, y) h.0, Connected-mono a b (y ∷ hops) more h.1)

AtLeast-mono :
    (tight loose : Option EvidenceLevel) (level : EvidenceLevel)
    → floor_rank loose ≤ floor_rank tight
    → AtLeast tight level
    → AtLeast loose level
AtLeast-mono tight none level less h = tt
AtLeast-mono none (some floor) level less h = omega (arith, less)
AtLeast-mono (some t) (some floor) level less h = omega (arith, less, h)

supported_mono :
    (tight loose : Option EvidenceLevel)
    → floor_rank loose ≤ floor_rank tight
    → tight ≢ some hardware_attested
    → loose ≢ some hardware_attested
supported_mono tight loose less h = ground (arith, less, h)

-- A time between two of a window is in a window that is as wide.
Within-between :
    (t1 t2 t3 from until from' until' : DateTime)
    → t1.instant ≤ t2.instant
    → t2.instant ≤ t3.instant
    → from'.instant ≤ from.instant
    → until.instant ≤ until'.instant
    → Within t1 from until
    → Within t3 from until
    → Within t2 from' until'
Within-between t1 t2 t3 from until from' until' a b c d w1 w3 = record {
  started = omega (arith, a, c, w1.started);
  running = omega (arith, b, d, w3.running);
}

module _ (rt : Runtime) (plan : RoutePlan) (p q : AdmissionPolicy) (t1 t2 t3 : DateTime)
    (tighter : IsTighter p q) (after : t1.instant ≤ t2.instant)
    (before : t2.instant ≤ t3.instant) where
  between_peer :
      (peer : Option PeerManifest)
      → IsEligiblePeer rt plan p t1 peer
      → IsEligiblePeer rt plan p t3 peer
      → IsEligiblePeer rt plan q t2 peer
  between_peer none e1 e3 = e1
  between_peer (some peer) e1 e3 = record {
    window =
        Within-between t1 t2 t3 peer.valid_from peer.expires_at peer.valid_from peer.expires_at
          after before (omega arith) (omega arith) e1.window e3.window;
    scope = e1.scope;
    model = e1.model;
    runtime = e1.runtime;
    bound = e1.bound;
    floor = AtLeast-mono _ _ _ (tighter.floors plan.intent) e1.floor;
  }

  between_hops :
      (hops : List String)
      → All (IsEligibleHop rt plan p t1) hops
      → All (IsEligibleHop rt plan p t3) hops
      → All (IsEligibleHop rt plan q t2) hops
  between_hops [] h1 h3 = tt
  between_hops (hop ∷ hops) h1 h3 = (
    subst (λ peers. IsEligiblePeer rt plan q t2 (peer_of hop peers)) tighter.peers
        (between_peer (peer_of hop p.topology.peers) h1.0 h3.0),
    between_hops hops h1.1 h3.1,
  )

  between-IsAdmissible :
      IsAdmissible rt plan p t1 → IsAdmissible rt plan p t3 → IsAdmissible rt plan q t2
  between-IsAdmissible a1 a3 = record {
    route = record {
      intent = tighter.intents plan.intent a1.route.intent;
      plan_window =
          Within-between t1 t2 t3 plan.created_at plan.expires_at plan.created_at plan.expires_at
            after before (omega arith) (omega arith) a1.route.plan_window a3.route.plan_window;
      topology_window =
          Within-between t1 t2 t3 p.topology.captured_at p.topology.expires_at
            q.topology.captured_at q.topology.expires_at after before tighter.from tighter.until
            a1.route.topology_window a3.route.topology_window;
      hop_count = omega (arith, tighter.hops, a1.route.hop_count);
      no_repeat = a1.route.no_repeat;
      local_only = λ d. a1.route.local_only d ∙ ap (λ here. here ∷ []) tighter.local_peer;
      edges =
          Connected-mono (edge_pairs p.topology.edges) (edge_pairs q.topology.edges)
            plan.hop_peer_ids tighter.edges a1.route.edges;
      supported = supported_mono _ _ (tighter.floors plan.intent) a1.route.supported;
    };
    hops = between_hops plan.hop_peer_ids a1.hops a3.hops;
  }

  admitted-IsAdmissible :
      (policy : AdmissionPolicy) (now : DateTime) (d : AdmissionDecision)
      → admit_plan rt plan policy now ≡ ok d
      → d.admitted ≡ true
      → IsAdmissible rt plan policy now
  admitted-IsAdmissible policy now d made yes_d =
      (decision-admitted_iff rt plan policy now).0 (
        ap (λ (x : AdmissionDecision). x.admitted) (admit_plan_inv rt plan policy now made) ∙ yes_d)

  -- With lawful primitives, if `admit_plan` admits a valid plan under a policy at two times, then it
  -- admits it at every aware time between them, under that policy and under every policy over the
  -- same peers that asks for no more.
  pub admit_plan-IsTighter :
      IsLawful rt
      → IsValidPlan plan
      → is_aware t2 ≡ true
      → (d1 d3 : AdmissionDecision) → admit_plan rt plan p t1 ≡ ok d1
      → d1.admitted ≡ true
      → admit_plan rt plan p t3 ≡ ok d3
      → d3.admitted ≡ true
      → (d2 : AdmissionDecision) × (admit_plan rt plan q t2 ≡ ok d2) × (d2.admitted ≡ true)
  admit_plan-IsTighter lawful valid aware d1 d3 ran1 yes1 ran3 yes3 =
      let (d2, ran2, _, decides) = admit_plan_decides rt plan q t2 lawful valid aware in
      (
        d2,
        ran2,
        decides.1 (
            between-IsAdmissible (admitted-IsAdmissible p t1 d1 ran1 yes1)
              (admitted-IsAdmissible p t3 d3 ran3 yes3)),
      )
