-- ===== src/Attestation/Receipt.antt =====
-- One round of `verify_attestation` finds nothing exactly if its receipt is the evidence asked for.
use locus_mesh.Base.{
  ℕ, ◌≤◌, String, ◌⧺◌, ◌≡◌, refl, ap, ◌∙◌, ◌↔◌, Bool, true, false, not, Option, none, some, List,
  [], ◌∷◌, arith, All, when-append_iff, nat_eq, string_eq, option_eq, ==_iff, eq_iff,
}
use locus_mesh.Fail.{Result, ok, err}
use locus_mesh.Scope.{EvidenceLevel, evidence_rank, effective_evidence, intent_eq}
use locus_mesh.Runtime.{Runtime, DateTime}
use locus_mesh.Crypto.{derive_key_id}
use locus_mesh.Models.Topology.{PeerManifest, AdmissionPolicy}
use locus_mesh.Models.Route.{RoutePlan, HopReceipt}
use locus_mesh.Attestation.Verify.{
  mismatches, reversed, exact_fields, key_reasons, moment_reasons, evidence_reasons,
}
use locus_mesh.Attestation.Spec.{NotBefore, IsExact, IsTimely, IsSigned}

mismatches-nil_iff :
    (fields : List (String × Bool)) → (mismatches fields ≡ []) ↔ All (λ f. f.1 ≡ true) fields
unfolding mismatches
mismatches-nil_iff [] = (λ h. tt, λ h. refl)
mismatches-nil_iff ((field, matches) ∷ fields) =
    let (to, from) = mismatches-nil_iff fields in
    let (split, join) =
      when-append_iff (not matches) ("RECEIPT_" ⧺ (field ⧺ "_MISMATCH")) (mismatches fields) in
    (
      λ h. let (here, rest) = split h in (ground arith, to rest),
      λ h. join (ground (arith, h.0), from h.1),
    )

pub forward_of :
    (previous : Option HopReceipt) (moment : DateTime)
    → reversed previous moment ≡ false
    → NotBefore previous moment
forward_of none moment h = tt
forward_of (some previous) moment h = ground arith

pub reversed_of :
    (previous : Option HopReceipt) (moment : DateTime)
    → NotBefore previous moment
    → reversed previous moment ≡ false
reversed_of none moment h = refl
reversed_of (some previous) moment h = ground arith

module _ (rt : Runtime) (plan : RoutePlan) (policy : AdmissionPolicy) (now : DateTime) where
  pub IsExact-iff :
      (index : ℕ) (peer_id : String) (previous : Option HopReceipt) (receipt : HopReceipt)
      → (mismatches (exact_fields rt plan policy now index peer_id previous receipt) ≡ [])
        ↔ IsExact rt plan policy now index peer_id previous receipt
  unfolding exact_fields
  IsExact-iff index peer_id previous receipt =
      let (to, from) =
        mismatches-nil_iff (exact_fields rt plan policy now index peer_id previous receipt) in
      (
        λ h.
            let (a, (b, (c, (d, (e, (f, (g, (i, (j, (k, (l, (m, (n, (o, (p, _))))))))))))))) =
              to h in
            record {
              request_id = (==_iff _ _).0 a;
              nonce = (==_iff _ _).0 b;
              request_commitment = (==_iff _ _).0 c;
              route_plan = (==_iff _ _).0 d;
              policy_pin = (==_iff _ _).0 e;
              topology_pin = (==_iff _ _).0 f;
              intent = (==_iff _ _).0 g;
              hop_index = (==_iff _ _).0 i;
              hop_count = (==_iff _ _).0 j;
              peer = (==_iff _ _).0 k;
              previous_peer = (==_iff _ _).0 l;
              next_peer = (==_iff _ _).0 m;
              previous_receipt = (==_iff _ _).0 n;
              model = (==_iff _ _).0 o;
              runtime = (==_iff _ _).0 p;
            },
        λ x. from (
          (==_iff _ _).1 x.request_id,
          (
            (==_iff _ _).1 x.nonce,
            (
              (==_iff _ _).1 x.request_commitment,
              (
                (==_iff _ _).1 x.route_plan,
                (
                  (==_iff _ _).1 x.policy_pin,
                  (
                    (==_iff _ _).1 x.topology_pin,
                    (
                      (==_iff _ _).1 x.intent,
                      (
                        (==_iff _ _).1 x.hop_index,
                        (
                          (==_iff _ _).1 x.hop_count,
                          (
                            (==_iff _ _).1 x.peer,
                            (
                              (==_iff _ _).1 x.previous_peer,
                              (
                                (==_iff _ _).1 x.next_peer,
                                (
                                  (==_iff _ _).1 x.previous_receipt,
                                  ((==_iff _ _).1 x.model, ((==_iff _ _).1 x.runtime, tt)),
                                ),
                              ),
                            ),
                          ),
                        ),
                      ),
                    ),
                  ),
                ),
              ),
            ),
          ),
        ),
      )

  pub moment_sound :
      (manifest : PeerManifest) (previous : Option HopReceipt) (receipt : HopReceipt)
      → moment_reasons rt plan policy now manifest previous receipt ≡ []
      → IsTimely rt plan policy now manifest previous receipt × (receipt.key_id ≡ manifest.key_id)
  unfolding moment_reasons
  moment_sound manifest previous receipt h = (
    record {
      plan_window = record { started = ground arith; running = ground arith };
      not_future = ground arith;
      topology_window = record { started = ground arith; running = ground arith };
      forward = forward_of previous receipt.observed_at (ground arith);
      peer_window = record { started = ground arith; running = ground arith };
    },
    ground (arith, eq_iff receipt.key_id manifest.key_id),
  )

  pub moment_complete :
      (manifest : PeerManifest) (previous : Option HopReceipt) (receipt : HopReceipt)
      → IsTimely rt plan policy now manifest previous receipt
      → receipt.key_id ≡ manifest.key_id
      → moment_reasons rt plan policy now manifest previous receipt ≡ []
  unfolding moment_reasons
  moment_complete manifest previous receipt h k = ground (
    arith,
    eq_iff receipt.key_id manifest.key_id,
    reversed_of previous receipt.observed_at h.forward,
  )

  pub key_sound :
      (manifest : PeerManifest) (receipt : HopReceipt) (bound : Result String)
      → derive_key_id rt manifest.public_key ≡ bound
      → key_reasons rt plan policy now manifest receipt bound ≡ []
      → receipt.key_id ≡ manifest.key_id
      → IsSigned rt plan policy now manifest receipt
  unfolding key_reasons
  key_sound manifest receipt (err e) b h k = cc
  key_sound manifest receipt (ok key_id) b h k = record {
    key = k;
    bound = b ∙ ap ok (ground (arith, eq_iff key_id manifest.key_id));
    signature = ground arith;
  }

  pub key_complete :
      (manifest : PeerManifest) (receipt : HopReceipt)
      → IsSigned rt plan policy now manifest receipt
      → key_reasons rt plan policy now manifest receipt (derive_key_id rt manifest.public_key) ≡ []
  unfolding key_reasons
  key_complete manifest receipt h =
      rw (h.bound, key_reasons)
        (ground (arith, h.signature, eq_iff manifest.key_id manifest.key_id))

  pub evidence_iff :
      (manifest : PeerManifest) (receipt : HopReceipt) (required : EvidenceLevel)
      → (evidence_reasons rt plan policy now manifest receipt required ≡ []) ↔ (
          (evidence_rank receipt.evidence_level ≤ evidence_rank manifest.evidence_level)
          × (evidence_rank required ≤ evidence_rank (effective_evidence receipt.evidence_level)))
  unfolding evidence_reasons
  evidence_iff manifest receipt required = ground arith
