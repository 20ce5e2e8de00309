-- ===== src/Attestation/ChainPinned.antt =====
-- attestation.py: each receipt of a chain carries the digest of the one before.
use locus_mesh.Base.{
  ℕ, suc, ◌≡◌, refl, sym, ap, ◌∙◌, ◌⊎◌, inl, inr, Option, none, some, List, [], ◌∷◌, length,
  get_elem?, arith, subst, map, In,
}
use locus_mesh.Runtime.{Runtime, IsLawful, DateTime}
use locus_mesh.Json.{Json}
use locus_mesh.Crypto.{sha256_digest}
use locus_mesh.Crypto.Collision.{Collide}
use locus_mesh.Models.Topology.{AdmissionPolicy}
use locus_mesh.Models.Route.{RoutePlan, HopReceipt, RouteAttestation}
use locus_mesh.Policy.Digest.{plan_json, receipt_json, policy_digest, topology_digest}
use locus_mesh.Attestation.Verify.{digest_of}
use locus_mesh.Attestation.Spec.{IsReceiptAt, IsChain}
use locus_mesh.Attestation.Chain.{last_of, receipt_at}
use locus_mesh.Attestation.Pinned.{SamePlan, SameReceipt, receipt_pinned}

-- Lists of receipts that agree one by one.
abbrev pub Alike : Runtime → List HopReceipt → List HopReceipt → Type 0
Alike rt [] [] = Unit
Alike rt (r ∷ rs) (s ∷ ss) = SameReceipt rt r s × Alike rt rs ss
Alike rt _ _ = ⊥

-- One value of each list, and the two collide.
pub record CollideAmong (rt : Runtime) (xs ys : List Json) : Type 0 where
  pub first : Json
  pub second : Json
  pub among_first : In first xs
  pub among_second : In second ys
  pub collide : Collide rt first second

-- The values that are digested for an attestation.
abbrev pub documents : Runtime → RouteAttestation → List Json
documents rt a = plan_json rt a.plan ∷ map (receipt_json rt) a.receipts

pub further :
    (rt : Runtime) (x y : Json) (xs ys : List Json)
    → CollideAmong rt xs ys
    → CollideAmong rt (x ∷ xs) (y ∷ ys)
further rt x y xs ys c = record {
  first = c.first;
  second = c.second;
  among_first = inr c.among_first;
  among_second = inr c.among_second;
  collide = c.collide;
}

pub at_head :
    (rt : Runtime) (x y : Json) (xs ys : List Json)
    → Collide rt x y
    → CollideAmong rt (x ∷ xs) (y ∷ ys)
at_head rt x y xs ys c = record {
  first = x;
  second = y;
  among_first = inl refl;
  among_second = inl refl;
  collide = c;
}

pub started : {P : Type 0} {r : HopReceipt} → (none ≡ some r) ⊎ P → P
started (inl h) = cc h
started (inr p) = p

module _ (rt : Runtime) (plan : RoutePlan) (policy : AdmissionPolicy) (now : DateTime) where
  -- What a receipt names, wherever it stands.
  pub record Names (receipt : HopReceipt) : Type 0 where
    pub route_plan : receipt.route_plan_digest ≡ sha256_digest rt (plan_json rt plan)
    pub policy_pin : receipt.policy_digest ≡ policy_digest rt policy
    pub topology_pin : receipt.topology_digest ≡ topology_digest rt policy.topology

  linked :
      (index : ℕ) (previous : Option HopReceipt) (receipt : HopReceipt)
      → IsReceiptAt rt plan policy now index (get_elem? plan.hop_peer_ids index) previous receipt
      → (receipt.previous_receipt_digest ≡ digest_of rt previous) × Names receipt
  linked index previous receipt h =
      let (_, _, _, _, good) =
        receipt_at rt plan policy now index (get_elem? plan.hop_peer_ids index) previous receipt
          refl h in
      (
        good.exact.previous_receipt,
        record {
          route_plan = good.exact.route_plan;
          policy_pin = good.exact.policy_pin;
          topology_pin = good.exact.topology_pin;
        },
      )

  pub last-Names :
      (index : ℕ) (previous : Option HopReceipt) (receipts : List HopReceipt) {last : HopReceipt}
      → IsChain rt plan policy now index previous receipts
      → last_of previous receipts ≡ some last
      → (previous ≡ some last) ⊎ Names last
  last-Names index previous [] chain h = inl h
  last-Names index previous (r ∷ receipts) {last} chain h =
      elim (last-Names (suc index) (some r) receipts chain.1 h) [
        | inl here ↦ inr (subst Names (cc here) (linked index previous r chain.0).1)
        | inr names ↦ inr names
      ]

module _ (rt : Runtime) (lawful : IsLawful rt) (plan plan' : RoutePlan)
    (policy policy' : AdmissionPolicy) (now now' : DateTime) where
  -- From the last receipts back to the first.
  pub chain_pinned :
      (index : ℕ) (previous previous' : Option HopReceipt) (receipts receipts' : List HopReceipt)
      → length receipts ≡ length receipts'
      → IsChain rt plan policy now index previous receipts
      → IsChain rt plan' policy' now' index previous' receipts'
      → digest_of rt (last_of previous receipts) ≡ digest_of rt (last_of previous' receipts')
      → (Alike rt receipts receipts' × (digest_of rt previous ≡ digest_of rt previous'))
        ⊎ CollideAmong rt (map (receipt_json rt) receipts) (map (receipt_json rt) receipts')
  chain_pinned index previous previous' [] [] size chain chain' same = inl (tt, same)
  chain_pinned index previous previous' [] (s ∷ ss) size chain chain' same = cc size
  chain_pinned index previous previous' (r ∷ rs) [] size chain chain' same = cc size
  chain_pinned index previous previous' (r ∷ rs) (s ∷ ss) size chain chain' same =
      let rest =
        chain_pinned (suc index) (some r) (some s) rs ss (omega arith) chain.1 chain'.1 same in
      elim rest [
        | inr collision ↦ inr (further rt _ _ _ _ collision)
        | inl (alike, digests) ↦ elim (receipt_pinned rt lawful r s (cc digests)) [
          | inr collision ↦ inr (at_head rt _ _ _ _ collision)
          | inl here ↦
              let (back, _) = linked rt plan policy now index previous r chain.0 in
              let (back', _) = linked rt plan' policy' now' index previous' s chain'.0 in
              inl (
                (here, alike),
                sym back ∙ ap (λ (x : HopReceipt). x.previous_receipt_digest) here.fields ∙ back',
              )
        ]
      ]

  pub size_pinned : SamePlan rt plan plan' → length plan.hop_peer_ids ≡ length plan'.hop_peer_ids
  size_pinned same = ap (λ (p : RoutePlan). length p.hop_peer_ids) same.fields
