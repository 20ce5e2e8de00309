-- ===== src/Policy/Effective.antt =====
-- The effective scope and evidence of an admitted plan.
use mathlib.Core.List.{append_assoc, append-nil}
use locus_mesh.Base.{
  ◌≤◌, String, ◌≡◌, refl, sym, ap, ◌∙◌, subst, true, some, List, [], ◌∷◌, ◌++◌, map, arith, All, In,
  length, Option-cases, inl, inr, All-map, map-All, All-mono,
}
use locus_mesh.Scope.{
  minimum_scope, minimum_evidence, ExecutionIntent, EvidenceLevel, scope_rank, evidence_rank,
  effective_evidence,
}
use locus_mesh.Scope.Bounds.{minimum_scope-IsWidest, minimum_evidence-IsWeakest}
use locus_mesh.Fail.{ok}
use locus_mesh.Runtime.{Runtime, DateTime}
use locus_mesh.Models.Topology.{PeerManifest, AdmissionPolicy, floor_of}
use locus_mesh.Models.Route.{RoutePlan}
use locus_mesh.Models.Decision.{AdmissionDecision}
use locus_mesh.Policy.Admit.{peer_of, Audit, audit_peer, audit_hops, audit, decision, admit_plan}
use locus_mesh.Policy.Spec.{AtLeast, IsEligible, IsEligiblePeer, IsEligibleHop}
use locus_mesh.Policy.Sound.{decision-admitted_iff}
use locus_mesh.Policy.Total.{IsValidPlan, hop_count_of_IsValid, admit_plan_inv}

-- All members of a list are members of it.
members : {A : Type 0} (xs : List A) → All (λ x. In x xs) xs
members [] = tt
members (x ∷ xs) = (inl refl, All-mono xs (λ y i. inr i) (members xs))

All-both :
    {A : Type 0} (P Q : A → Type 0) (xs : List A) → All P xs → All Q xs → All (λ x. P x × Q x) xs
All-both P Q [] h k = tt
All-both P Q (x ∷ xs) h k = ((h.0, k.0), All-both P Q xs h.1 k.1)

-- The manifests of the hops, in the order of the route.
abbrev pub Listed : List PeerManifest → List String → List PeerManifest → Type 0
Listed known [] [] = Unit
Listed known [] (p ∷ peers) = ⊥
Listed known (hop ∷ hops) [] = ⊥
Listed known (hop ∷ hops) (p ∷ peers) = (peer_of hop known ≡ some p) × Listed known hops peers

-- The decision names a scope that a hop has, none of the hops has a wider one, and it is within the
-- intent; and a level of evidence that a hop has, none has a weaker one, and it is at or above the
-- floor.
pub record IsBounded (plan : RoutePlan) (policy : AdmissionPolicy) (d : AdmissionDecision)
    : Type 0 where
  pub peers : List PeerManifest
  pub listed : Listed policy.topology.peers plan.hop_peer_ids peers
  pub scope : ExecutionIntent
  pub level : EvidenceLevel
  pub named_scope : d.effective_scope ≡ some scope
  pub named_level : d.effective_evidence ≡ some level
  pub within_intent : scope_rank scope ≤ scope_rank plan.intent
  pub above_floor : AtLeast d.required_evidence level
  pub scope_peer : (p : PeerManifest) × In p peers × (p.execution_scope ≡ scope)
  pub level_peer : (p : PeerManifest) × In p peers × (effective_evidence p.evidence_level ≡ level)
  pub widest : All (λ (p : PeerManifest). scope_rank p.execution_scope ≤ scope_rank scope) peers
  pub weakest :
      All
        (λ (p : PeerManifest).
          evidence_rank level ≤ evidence_rank (effective_evidence p.evidence_level))
        peers

module _ (rt : Runtime) (plan : RoutePlan) (policy : AdmissionPolicy) (now : DateTime) where
  abbrev scope_of : PeerManifest → ExecutionIntent
  scope_of p = p.execution_scope

  abbrev level_of : PeerManifest → EvidenceLevel
  level_of p = effective_evidence p.evidence_level

  -- Some of the peers has this scope, or this level.
  abbrev Among : {B : Type 0} → (PeerManifest → B) → List PeerManifest → B → Type 0
  Among f peers b = (p : PeerManifest) × In p peers × (f p ≡ b)

  -- What the loop leaves in the two lists.
  pub record IsAudited (hops : List String) (a b : Audit) : Type 0 where
    pub peers : List PeerManifest
    pub listed : Listed policy.topology.peers hops peers
    pub eligible : All (IsEligible rt plan policy now) peers
    pub scopes : b.scopes ≡ a.scopes ++ map scope_of peers
    pub evidence : b.evidence ≡ a.evidence ++ map level_of peers

  audit_hops-IsAudited :
      (hops : List String) (a : Audit)
      → All (IsEligibleHop rt plan policy now) hops
      → IsAudited hops a (audit_hops rt plan policy now hops a)
  unfolding audit_hops audit_peer
  audit_hops-IsAudited [] a h = record {
    peers = [];
    listed = tt;
    eligible = tt;
    scopes = sym (append-nil a.scopes);
    evidence = sym (append-nil a.evidence);
  }
  audit_hops-IsAudited (hop ∷ hops) a h = elim (Option-cases (peer_of hop policy.topology.peers)) [
    | inl missing ↦ absurd (subst (IsEligiblePeer rt plan policy now) missing h.0)
    | inr (p, known) ↦
        let here = subst (IsEligiblePeer rt plan policy now) known h.0 in
        let rest = audit_hops-IsAudited hops (audit_peer rt plan policy now hop (some p) a) h.1 in
        rw known (record {
          peers = p ∷ rest.peers;
          listed = (known, rest.listed);
          eligible = (here, rest.eligible);
          scopes = rest.scopes ∙ append_assoc a.scopes _ _;
          evidence = rest.evidence ∙ append_assoc a.evidence _ _;
        })
  ]

  decision-IsBounded :
      (hops : List String) (peers : List PeerManifest)
      → plan.hop_peer_ids ≡ hops
      → 1 ≤ length hops
      → Listed policy.topology.peers hops peers
      → All (IsEligible rt plan policy now) peers
      → (audit rt plan policy now).scopes ≡ map scope_of peers
      → (audit rt plan policy now).evidence ≡ map level_of peers
      → IsBounded plan policy (decision rt plan policy now)
  unfolding decision
  decision-IsBounded [] peers same some_hop listed eligible scopes evidence =
      absurd (omega (arith, some_hop))
  decision-IsBounded (hop ∷ hops) [] same some_hop listed eligible scopes evidence = absurd listed
  decision-IsBounded (hop ∷ hops) (p ∷ peers) same some_hop listed eligible scopes evidence =
      let floor = floor_of plan.intent policy.minimum_evidence in
      let known =
        All-both (IsEligible rt plan policy now) (λ q. In q (p ∷ peers)) (p ∷ peers) eligible
          (members (p ∷ peers)) in
      let (scope, named_scope, s) =
        minimum_scope-IsWidest
          (λ s. (scope_rank s ≤ scope_rank plan.intent) × Among scope_of (p ∷ peers) s)
          p.execution_scope (map scope_of peers)
          (All-map scope_of _ (p ∷ peers)
            (All-mono (p ∷ peers) (λ q e. (e.0.scope, (q, e.1, refl))) known)) in
      let (level, named_level, l) =
        minimum_evidence-IsWeakest (λ e. AtLeast floor e × Among level_of (p ∷ peers) e)
          (level_of p) (map level_of peers)
          (All-map level_of _ (p ∷ peers)
            (All-mono (p ∷ peers) (λ q e. (e.0.floor, (q, e.1, refl))) known)) in
      record {
        peers = p ∷ peers;
        listed = subst (λ h. Listed policy.topology.peers h (p ∷ peers)) (sym same) listed;
        scope = scope;
        level = level;
        named_scope = ap minimum_scope scopes ∙ named_scope;
        named_level = ap minimum_evidence evidence ∙ named_level;
        within_intent = s.kept.0;
        above_floor = l.kept.0;
        scope_peer = s.kept.1;
        level_peer = l.kept.1;
        widest = map-All scope_of (λ x. scope_rank x ≤ scope_rank scope) (p ∷ peers) s.widest;
        weakest =
            map-All level_of (λ x. evidence_rank level ≤ evidence_rank x) (p ∷ peers) l.weakest;
      }

  -- A decision that `admit_plan` returns for a valid plan and that admits it names the scope of a
  -- peer of the route, which no peer's scope exceeds and which is not wider than the intent, and the
  -- level of evidence that a peer of the route has, which is the weakest of them and reaches the
  -- floor that the decision states.
  pub admit_plan-IsBounded :
      (d : AdmissionDecision)
      → IsValidPlan plan
      → admit_plan rt plan policy now ≡ ok d
      → d.admitted ≡ true
      → IsBounded plan policy d
  unfolding audit
  admit_plan-IsBounded d valid ran admitted =
      let made = admit_plan_inv rt plan policy now ran in
      let admissible =
        (decision-admitted_iff rt plan policy now).0
          (ap (λ (x : AdmissionDecision). x.admitted) made ∙ admitted) in
      let audited = audit_hops-IsAudited plan.hop_peer_ids _ admissible.hops in
      subst (IsBounded plan policy) made (
        decision-IsBounded plan.hop_peer_ids audited.peers refl (hop_count_of_IsValid plan valid).0
          audited.listed audited.eligible audited.scopes audited.evidence)
