-- ===== src/Policy/Denied.antt =====
-- admit_plan of policy.py: why a plan is denied.
use locus_mesh.Base.{
  ℕ, ◌≤◌, ◌<◌, ltb, leb, ◌==◌, ◌!=◌, ◌&&◌, ◌∙◌, all_distinct, String, ◌⧺◌, ◌≡◌, ◌≢◌, refl, sym, ap,
  subst, ◌↔◌, inl, inr, Bool, true, false, not, Option, none, some, List, [], ◌∷◌, ◌++◌, arith,
  length, is_empty, from_keys, contains, In, Distinct, string_eq, pair_eq, eq_iff, not-contains_iff,
  all_distinct_iff, Bool-cases, Table, Caused, Explains, explain_none, explain_both, explain_when,
  explain_then, explain_also, explain_one, explain-from_keys,
}
use mathlib.Core.List.{append_assoc, append-nil}
use locus_mesh.Fail.{Result, ok, err}
use locus_mesh.Scope.{
  EvidenceLevel, device_only, hardware_attested, scope_rank, intent_eq, intent_beq_iff,
}
use locus_mesh.Runtime.{Runtime, DateTime}
use locus_mesh.Models.Topology.{PeerManifest, AdmissionPolicy}
use locus_mesh.Models.Route.{RoutePlan}
use locus_mesh.Models.Decision.{AdmissionDecision}
use locus_mesh.Policy.Admit.{
  peer_of, edge_reasons, leaves_device, is_hardware, below_floor, route_reasons, binding_reasons,
  Audit, peer_reasons, audit_peer, audit_hops, audit, decision, admit_plan,
}
use locus_mesh.Policy.Sound.{leaves_device_iff}
use locus_mesh.Policy.Total.{admit_plan_inv}
use locus_mesh.Policy.Causes.{
  edge_causes, route_causes, Below, Raises, BoundElsewhere, peer_causes, hop_causes, plan_causes,
}

edge_reasons-Explains :
    (allowed : List (String × String)) (hops : List String)
    → Explains (edge_reasons allowed hops) (edge_causes allowed hops)
unfolding edge_reasons
edge_reasons-Explains allowed [] = explain_none
edge_reasons-Explains allowed (a ∷ []) = explain_none
edge_reasons-Explains allowed (a ∷ b ∷ hops) =
    let (to, from) = not-contains_iff allowed (a, b) in
    explain_then (not (contains allowed (a, b))) _
      (λ h. to (ground arith), λ n. ground (arith, from n))
      (edge_reasons-Explains allowed (b ∷ hops))

leaves_iff :
    (hops : List String) (here : String) → (leaves_device hops here ≡ true) ↔ (hops ≢ here ∷ [])
leaves_iff hops here =
    let (to, from) = leaves_device_iff hops here in
    elim (Bool-cases (leaves_device hops here)) [
      | inl h ↦ (λ _ e. cc (from e), λ _. h)
      | inr h ↦ (λ e. cc, λ n. absurd (n (to h)))
    ]

pub before_iff : (m n : ℕ) → (ltb m n ≡ true) ↔ (m < n)
before_iff m n = ground arith

until_iff : (m n : ℕ) → (leb m n ≡ true) ↔ (m ≤ n)
until_iff m n = ground arith

pub refused_iff : {P : Type 0} (b : Bool) → (b ≡ false) ↔ P → (not b ≡ true) ↔ P
refused_iff b (to, from) = (λ h. to (ground arith), λ p. ground (arith, from p))

repeats_iff : (hops : List String) → (not (all_distinct hops) ≡ true) ↔ (¬ Distinct hops)
repeats_iff hops =
    let (to, from) = all_distinct_iff hops in
    elim (Bool-cases (all_distinct hops)) [
      | inl h ↦ (λ e. cc, λ n. absurd (n (to h)))
      | inr h ↦ (λ _ d. cc (from d), λ _. ground arith)
    ]

stays_iff :
    (plan : RoutePlan) (here : String)
    → ((plan.intent == device_only && leaves_device plan.hop_peer_ids here) ≡ true)
      ↔ ((plan.intent ≡ device_only) × (plan.hop_peer_ids ≢ here ∷ []))
stays_iff plan here =
    let (to, from) = leaves_iff plan.hop_peer_ids here in
    let (same, back) = intent_beq_iff plan.intent device_only in
    (λ h. (same (ground arith), to (ground arith)), λ h. ground (arith, back h.0, from h.1))

hardware_iff :
    (level : Option EvidenceLevel) → (is_hardware level ≡ true) ↔ (level ≡ some hardware_attested)
hardware_iff level = ground arith

pub differs_iff : (s t : String) → ((s != t) ≡ true) ↔ (s ≢ t)
differs_iff s t = ground (arith, eq_iff s t)

pub Below-iff :
    (level : EvidenceLevel) (required : Option EvidenceLevel)
    → (below_floor level required ≡ true) ↔ Below level required
Below-iff level none = (λ h. cc, λ h. absurd h)
Below-iff level (some required) = ground arith

route_reasons-Explains :
    (plan : RoutePlan) (policy : AdmissionPolicy) (now : DateTime)
    → Explains (route_reasons plan policy now) (route_causes plan policy now)
unfolding route_reasons
route_reasons-Explains plan policy now =
    let t = policy.topology in
    explain_then _ _ (refused_iff _ (not-contains_iff policy.allowed_intents plan.intent)) (
      explain_then _ _ (before_iff now.instant plan.created_at.instant) (
        explain_then _ _ (until_iff plan.expires_at.instant now.instant) (
          explain_then _ _ (before_iff now.instant t.captured_at.instant) (
            explain_then _ _ (until_iff t.expires_at.instant now.instant) (
              explain_then _ _ (before_iff policy.max_hops (length plan.hop_peer_ids)) (
                explain_then _ _ (repeats_iff plan.hop_peer_ids) (
                  explain_then _ _ (stays_iff plan t.local_peer_id) (
                    explain_both (edge_reasons-Explains _ plan.hop_peer_ids)
                      (explain_when _ _ (hardware_iff _))))))))))

binding_reasons-Explains :
    (peer_id key_id : String) (bound : Result String)
    → Explains (binding_reasons peer_id key_id bound) (
        ("PEER_PUBLIC_KEY_INVALID:" ⧺ peer_id, Raises bound)
        ∷ ("PEER_KEY_BINDING_INVALID:" ⧺ peer_id, BoundElsewhere bound key_id)
        ∷ [])
unfolding binding_reasons
binding_reasons-Explains peer_id key_id (ok bound) =
    explain_also _ (λ h. h) (explain_when _ _ (differs_iff bound key_id))
binding_reasons-Explains peer_id key_id (err e) =
    explain_one _ tt (explain_also _ (λ h. h) explain_none)

module _ (rt : Runtime) (plan : RoutePlan) (policy : AdmissionPolicy) (now : DateTime) where
  peer_reasons-Explains :
      (peer_id : String) (peer : PeerManifest)
      → Explains
          (peer_reasons rt plan policy now peer_id peer)
          (peer_causes rt plan policy now peer_id (some peer))
  unfolding peer_reasons
  peer_reasons-Explains peer_id peer =
      explain_then _ _ (before_iff now.instant peer.valid_from.instant) (
        explain_then _ _ (until_iff peer.expires_at.instant now.instant) (
          explain_then _ _ (before_iff (scope_rank plan.intent) (scope_rank peer.execution_scope)) (
            explain_then _ _ (differs_iff peer.model_digest plan.model_digest) (
              explain_then _ _ (differs_iff peer.runtime_digest plan.runtime_digest) (
                explain_both (binding_reasons-Explains peer_id peer.key_id _)
                  (explain_when _ _ (Below-iff _ _)))))))

  audit_peer-Explains :
      (peer_id : String) (peer : Option PeerManifest) (a : Audit) (t : Table)
      → Explains a.reasons t
      → Explains
          (audit_peer rt plan policy now peer_id peer a).reasons
          (t ++ peer_causes rt plan policy now peer_id peer)
  unfolding audit_peer
  audit_peer-Explains peer_id none a t h = explain_both h (explain_one _ tt explain_none)
  audit_peer-Explains peer_id (some peer) a t h =
      explain_both h (peer_reasons-Explains peer_id peer)

  audit_hops-Explains :
      (hops : List String) (a : Audit) (t : Table)
      → Explains a.reasons t
      → Explains
          (audit_hops rt plan policy now hops a).reasons
          (t ++ hop_causes rt plan policy now hops)
  unfolding audit_hops
  audit_hops-Explains [] a t h = subst (Explains a.reasons) (sym (append-nil t)) h
  audit_hops-Explains (peer_id ∷ hops) a t h =
      let peer = peer_of peer_id policy.topology.peers in
      subst (Explains (audit_hops rt plan policy now (peer_id ∷ hops) a).reasons)
        (append_assoc t (peer_causes rt plan policy now peer_id peer) _)
        (audit_hops-Explains hops (audit_peer rt plan policy now peer_id peer a) _
          (audit_peer-Explains peer_id peer a t h))

  pub audit-Explains : Explains (audit rt plan policy now).reasons (plan_causes rt plan policy now)
  unfolding audit
  audit-Explains =
      audit_hops-Explains plan.hop_peer_ids _ _ (route_reasons-Explains plan policy now)

  codes_of :
      is_empty (audit rt plan policy now).reasons ≡ false
      → from_keys [] (audit rt plan policy now).reasons ≡ (decision rt plan policy now).reason_codes
  unfolding decision
  codes_of found = rw found refl

  -- A decision of `admit_plan` that denies a plan has a reason code exactly if what the code says is
  -- the case.
  pub admit_plan_denied :
      (d : AdmissionDecision)
      → admit_plan rt plan policy now ≡ ok d
      → d.admitted ≡ false
      → (code : String) → In code d.reason_codes ↔ Caused code (plan_causes rt plan policy now)
  unfolding decision
  admit_plan_denied d made denied code =
      let same = admit_plan_inv rt plan policy now made in
      let found : is_empty (audit rt plan policy now).reasons ≡ false =
        ap (λ (x : AdmissionDecision). x.admitted) same ∙ denied in
      let kept = explain-from_keys audit-Explains in
      subst (λ codes. In code codes ↔ Caused code (plan_causes rt plan policy now))
        (codes_of found ∙ ap (λ (x : AdmissionDecision). x.reason_codes) same) (kept.each code)
