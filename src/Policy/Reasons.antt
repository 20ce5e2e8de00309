-- ===== src/Policy/Reasons.antt =====
-- No reason of `admit_plan` is the text "ADMITTED".
use Prim.Native.Char.{Char, code}
use text.Mathlib.TextLemmas.{cons-append, head-eq_of_cons-eq}
use locus_mesh.Base.{
  String, ◌⧺◌, ◌≡◌, refl, ap, sym, ◌∙◌, ◌≢◌, Bool, true, false, Option, none, some, List, [], ◌∷◌,
  ◌++◌, arith, All, when, contains, string_eq, eq_iff, ◌==◌,
}
use locus_mesh.Fail.{Result, ok, err}
use locus_mesh.Runtime.{Runtime, DateTime}
use locus_mesh.Models.Topology.{PeerManifest, AdmissionPolicy}
use locus_mesh.Models.Route.{RoutePlan}
use locus_mesh.Policy.Admit.{
  edge_reasons, route_reasons, binding_reasons, Audit, peer_reasons, audit_peer, audit_hops, audit,
}

abbrev pub IsReason : String → Type 0
IsReason r = r ≢ "ADMITTED"

-- A text that begins with another letter is a reason.
pub begins : (c : Char) (label id : String) → code c ≢ b'A' → IsReason (String.◌∷◌ c label ⧺ id)
begins c label id h e = h (ap code (head-eq_of_cons-eq (sym (cons-append c label id) ∙ e)))

-- A fixed text is told apart from it by evaluation.
pub fixed : (s : String) → (s == "ADMITTED") ≡ false → IsReason s
fixed s h e = cc ((eq_iff s "ADMITTED").1 e)

All-when : (P : String → Type 0) (b : Bool) (x : String) → P x → All P (when b x)
All-when P true x h = (h, tt)
All-when P false x h = tt

pub All-concat :
    {A : Type 0} (P : A → Type 0) (xs ys : List A) → All P xs → All P ys → All P (xs ++ ys)
All-concat P [] ys hx hy = hy
All-concat P (x ∷ xs) ys hx hy = (hx.0, All-concat P xs ys hx.1 hy)

-- The same, as a type of its own, so that a proof by rules determines its arguments.
pub record AreReasons (rs : List String) : Type 0 where
  pub each : All IsReason rs

pub when_then :
    (b : Bool) (x : String) (rest : List String)
    → IsReason x
    → AreReasons rest
    → AreReasons (when b x ++ rest)
when_then b x rest h k = record {
  each = All-concat IsReason (when b x) rest (All-when IsReason b x h) k.each;
}

pub when_last : (b : Bool) (x : String) → IsReason x → AreReasons (when b x)
when_last b x h = record { each = All-when IsReason b x h }

pub both : (xs ys : List String) → AreReasons xs → AreReasons ys → AreReasons (xs ++ ys)
both xs ys h k = record { each = All-concat IsReason xs ys h.each k.each }

pub one : (x : String) → IsReason x → AreReasons (x ∷ [])
one x h = record { each = (h, tt) }

edge_reasons-IsReason :
    (allowed : List (String × String)) (hops : List String) → AreReasons (edge_reasons allowed hops)
unfolding edge_reasons
edge_reasons-IsReason allowed [] = record { each = tt }
edge_reasons-IsReason allowed (a ∷ []) = record { each = tt }
edge_reasons-IsReason allowed (a ∷ b ∷ hops) =
    when_then _ _ _ (begins "E" "DGE_NOT_ALLOWED:" (a ⧺ ("->" ⧺ b)) (omega arith))
      (edge_reasons-IsReason allowed (b ∷ hops))

binding_reasons-IsReason :
    (peer_id key_id : String) (bound : Result String)
    → AreReasons (binding_reasons peer_id key_id bound)
unfolding binding_reasons
binding_reasons-IsReason peer_id key_id (ok k) =
    when_last _ _ (begins "P" "EER_KEY_BINDING_INVALID:" peer_id (omega arith))
binding_reasons-IsReason peer_id key_id (err e) =
    one _ (begins "P" "EER_PUBLIC_KEY_INVALID:" peer_id (omega arith))

route_reasons-IsReason :
    (plan : RoutePlan) (policy : AdmissionPolicy) (now : DateTime)
    → AreReasons (route_reasons plan policy now)
unfolding route_reasons
route_reasons-IsReason plan policy now = when_then _ _ _ (fixed "INTENT_NOT_ALLOWED" refl) (
    when_then _ _ _ (fixed "PLAN_NOT_YET_VALID" refl) (
      when_then _ _ _ (fixed "PLAN_EXPIRED" refl) (
        when_then _ _ _ (fixed "TOPOLOGY_NOT_YET_VALID" refl) (
          when_then _ _ _ (fixed "TOPOLOGY_EXPIRED" refl) (
            when_then _ _ _ (fixed "MAX_HOPS_EXCEEDED" refl) (
              when_then _ _ _ (fixed "DUPLICATE_PEER" refl) (
                when_then _ _ _ (fixed "DEVICE_ONLY_REQUIRES_LOCAL_SINGLE_HOP" refl) (
                  both _ _ (edge_reasons-IsReason _ plan.hop_peer_ids)
                    (when_last _ _ (fixed "HARDWARE_ATTESTATION_UNSUPPORTED" refl))))))))))

module _ (rt : Runtime) (plan : RoutePlan) (policy : AdmissionPolicy) (now : DateTime) where
  peer_reasons-IsReason :
      (peer_id : String) (peer : PeerManifest)
      → AreReasons (peer_reasons rt plan policy now peer_id peer)
  unfolding peer_reasons
  peer_reasons-IsReason peer_id peer =
      when_then _ _ _ (begins "P" "EER_NOT_YET_VALID:" peer_id (omega arith)) (
        when_then _ _ _ (begins "P" "EER_EXPIRED:" peer_id (omega arith)) (
          when_then _ _ _ (begins "S" "COPE_WIDENING:" peer_id (omega arith)) (
            when_then _ _ _ (begins "M" "ODEL_DIGEST_MISMATCH:" peer_id (omega arith)) (
              when_then _ _ _ (begins "R" "UNTIME_DIGEST_MISMATCH:" peer_id (omega arith)) (
                both _ _ (binding_reasons-IsReason peer_id peer.key_id _)
                  (when_last _ _ (begins "E" "VIDENCE_BELOW_FLOOR:" peer_id (omega arith))))))))

  audit_peer-IsReason :
      (peer_id : String) (peer : Option PeerManifest) (a : Audit)
      → AreReasons a.reasons
      → AreReasons (audit_peer rt plan policy now peer_id peer a).reasons
  unfolding audit_peer
  audit_peer-IsReason peer_id none a h =
      both a.reasons _ h (one _ (begins "P" "EER_UNKNOWN:" peer_id (omega arith)))
  audit_peer-IsReason peer_id (some peer) a h =
      both a.reasons _ h (peer_reasons-IsReason peer_id peer)

  audit_hops-IsReason :
      (hops : List String) (a : Audit)
      → AreReasons a.reasons
      → AreReasons (audit_hops rt plan policy now hops a).reasons
  unfolding audit_hops
  audit_hops-IsReason [] a h = h
  audit_hops-IsReason (peer_id ∷ hops) a h =
      audit_hops-IsReason hops _ (audit_peer-IsReason peer_id _ a h)

  pub audit-IsReason : AreReasons (audit rt plan policy now).reasons
  unfolding audit
  audit-IsReason = audit_hops-IsReason plan.hop_peer_ids _ (route_reasons-IsReason plan policy now)

pub not-contains_of_IsReason :
    (reasons : List String) → All IsReason reasons → contains reasons "ADMITTED" ≡ false
unfolding contains
not-contains_of_IsReason [] h = refl
not-contains_of_IsReason (r ∷ reasons) h =
    ground (arith, eq_iff r "ADMITTED", h.0, not-contains_of_IsReason reasons h.1)
