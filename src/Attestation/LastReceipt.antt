-- ===== src/Attestation/LastReceipt.antt =====
-- attestation.py: what the last receipt of a verified attestation says about all of it.
use locus_mesh.Base.{◌≡◌, sym, ap, ◌∙◌, ◌⊎◌, inl, inr, Option, none, some, List, [], ◌∷◌, map, In}
use locus_mesh.Runtime.{Runtime, IsLawful, DateTime}
use locus_mesh.Crypto.{sha256_digest}
use locus_mesh.Models.Topology.{AdmissionPolicy}
use locus_mesh.Models.Route.{HopReceipt, RouteAttestation}
use locus_mesh.Policy.Digest.{receipt_json, policy_digest}
use locus_mesh.Attestation.Verify.{digest_of}
use locus_mesh.Attestation.Spec.{IsVerified}
use locus_mesh.Attestation.Chain.{last_of}
use locus_mesh.Attestation.Pinned.{SamePlan, SameReceipt, plan_pinned, receipt_pinned}
use locus_mesh.Attestation.ChainPinned.{
  Alike, CollideAmong, documents, further, at_head, started, Names, last-Names, chain_pinned,
  size_pinned,
}

module _ (rt : Runtime) (lawful : IsLawful rt) (a b : RouteAttestation)
    (policy policy' : AdmissionPolicy) (now now' : DateTime) (last last' : HopReceipt)
    (v : IsVerified rt a policy now) (w : IsVerified rt b policy' now')
    (ends : last_of none a.receipts ≡ some last)
    (ends' : last_of none b.receipts ≡ some last') where
  Agreement : Type 0
  Agreement =
      SamePlan rt a.plan b.plan
      × Alike rt a.receipts b.receipts
      × (policy_digest rt policy ≡ policy_digest rt policy')

  same_chain :
      sha256_digest rt (receipt_json rt last) ≡ sha256_digest rt (receipt_json rt last')
      → SamePlan rt a.plan b.plan
      → Alike rt a.receipts b.receipts
        ⊎ CollideAmong rt (map (receipt_json rt) a.receipts) (map (receipt_json rt) b.receipts)
  same_chain same plans =
      let size =
        v.count ∙ size_pinned rt lawful a.plan b.plan policy policy' now now' plans ∙ sym w.count in
      let whole =
        chain_pinned rt lawful a.plan b.plan policy policy' now now' 0 none none a.receipts
          b.receipts size v.chain w.chain
          (ap (digest_of rt) ends ∙ ap some same ∙ sym (ap (digest_of rt) ends')) in
      elim whole [ inl (alike, _) ↦ inl alike | inr collision ↦ inr collision ]

  agreement_of :
      sha256_digest rt (receipt_json rt last) ≡ sha256_digest rt (receipt_json rt last')
      → Names rt a.plan policy now last
      → Names rt b.plan policy' now' last'
      → SameReceipt rt last last'
      → Agreement ⊎ CollideAmong rt (documents rt a) (documents rt b)
  unfolding Agreement
  agreement_of same names names' here =
      let pinned = plan_pinned rt lawful a.plan b.plan (
        sym names.route_plan
        ∙ ap (λ (x : HopReceipt). x.route_plan_digest) here.fields
        ∙ names'.route_plan) in
      let policies =
        sym names.policy_pin
        ∙ ap (λ (x : HopReceipt). x.policy_digest) here.fields
        ∙ names'.policy_pin in
      elim pinned [
        | inr collision ↦ inr (at_head rt _ _ _ _ collision)
        | inl plans ↦ elim (same_chain same plans) [
          | inl alike ↦ inl (plans, alike, policies)
          | inr collision ↦ inr (further rt _ _ _ _ collision)
        ]
      ]

last_of-In :
    (previous : Option HopReceipt) (receipts : List HopReceipt) {last : HopReceipt}
    → last_of previous receipts ≡ some last
    → (previous ≡ some last) ⊎ In last receipts
last_of-In previous [] h = inl h
last_of-In previous (r ∷ receipts) h = elim (last_of-In (some r) receipts h) [
  | inl here ↦ inr (inl (cc here))
  | inr later ↦ inr (inr later)
]

In-map : {A B : Type 0} (f : A → B) (xs : List A) (a : A) → In a xs → In (f a) (map f xs)
In-map f [] a h = absurd h
In-map f (x ∷ xs) a (inl here) = inl (ap f here)
In-map f (x ∷ xs) a (inr later) = inr (In-map f xs a later)

module _ (rt : Runtime) (lawful : IsLawful rt) where
  -- Two verified attestations whose last receipts have one digest agree in the plan, in every
  -- receipt and in the digests of the policies, the times compared as texts, or two of the documents
  -- in them, one of each, differ under one SHA-256.
  pub attestation_pinned :
      (a b : RouteAttestation) (policy policy' : AdmissionPolicy) (now now' : DateTime)
      (last last' : HopReceipt)
      → IsVerified rt a policy now
      → IsVerified rt b policy' now'
      → last_of none a.receipts ≡ some last
      → last_of none b.receipts ≡ some last'
      → sha256_digest rt (receipt_json rt last) ≡ sha256_digest rt (receipt_json rt last')
      → (SamePlan rt a.plan b.plan
          × Alike rt a.receipts b.receipts
          × (policy_digest rt policy ≡ policy_digest rt policy'))
        ⊎ CollideAmong rt (documents rt a) (documents rt b)
  unfolding Agreement
  attestation_pinned a b policy policy' now now' last last' v w ends ends' same =
      let names = last-Names rt a.plan policy now 0 none a.receipts v.chain ends in
      let names' = last-Names rt b.plan policy' now' 0 none b.receipts w.chain ends' in
      elim (receipt_pinned rt lawful last last' same) [
        | inl here ↦
            agreement_of rt lawful a b policy policy' now now' last last' v w ends ends' same
              (started names) (started names') here
        | inr collision ↦ inr (record {
          first = receipt_json rt last;
          second = receipt_json rt last';
          among_first = inr (In-map _ _ _ (started (last_of-In none a.receipts ends)));
          among_second = inr (In-map _ _ _ (started (last_of-In none b.receipts ends')));
          collide = collision;
        })
      ]
