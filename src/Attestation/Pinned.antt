-- ===== src/Attestation/Pinned.antt =====
-- attestation.py: what the digests that receipts carry pin down. A plan and a receipt are read back
-- from the JSON that is digested; the times are pinned as the texts that stand there.
use locus_mesh.Base.{String, ◌≡◌, refl, sym, ap, ◌∙◌, ◌⊎◌, inl, inr, List, [], ◌∷◌, map, string_eq}
use locus_mesh.Runtime.{Runtime, IsLawful, DateTime}
use locus_mesh.Json.{
  Json, str, arr, Items, nil, item, normalize, normalize_items, canonical_json_bytes,
}
use locus_mesh.Json.Kind.{as_str}
use locus_mesh.Crypto.{sha256_digest}
use locus_mesh.Crypto.Collision.{Collide, sha256_digest-eq}
use locus_mesh.Models.Route.{RoutePlan, HopReceipt}
use locus_mesh.Policy.Digest.{items_of, plan_json, receipt_json}
use locus_mesh.Attestation.Payload.{
  pick, pick_field, the_text, receipt_of, as_optional_lem, intent_of, intent_of_lem,
  evidence_of_lem,
}

texts_of : Items → List String
unfolding as_str
texts_of nil = []
texts_of (item x xs) = as_str x ∷ texts_of xs

as_texts : Json → List String
unfolding texts_of
as_texts (arr xs) = texts_of xs
as_texts _ = []

texts_of_lem : (xs : List String) → texts_of (normalize_items (items_of (map str xs))) ≡ xs
unfolding texts_of canonical_json_bytes as_str
texts_of_lem [] = refl
texts_of_lem (x ∷ xs) = ap (λ l. x ∷ l) (texts_of_lem xs)

plan_of : DateTime → DateTime → Json → RoutePlan
unfolding pick pick_field as_str intent_of as_texts
plan_of created expires j = record {
  schema_version = the_text "schema_version" j;
  request_id = the_text "request_id" j;
  nonce = the_text "nonce" j;
  request_commitment = the_text "request_commitment" j;
  intent = intent_of (the_text "intent" j);
  model_digest = the_text "model_digest" j;
  runtime_digest = the_text "runtime_digest" j;
  hop_peer_ids = as_texts (pick "hop_peer_ids" j);
  created_at = created;
  expires_at = expires;
}

module _ (rt : Runtime) where
  -- Plans that agree in every field, the times in their texts.
  pub record SamePlan (p q : RoutePlan) : Type 0 where
    pub fields : record p { created_at = q.created_at; expires_at = q.expires_at } ≡ q
    pub created : rt.json_datetime p.created_at ≡ rt.json_datetime q.created_at
    pub expires : rt.json_datetime p.expires_at ≡ rt.json_datetime q.expires_at

  -- Receipts that agree in every field, the time in its text.
  pub record SameReceipt (r s : HopReceipt) : Type 0 where
    pub fields : record r { observed_at = s.observed_at } ≡ s
    pub observed : rt.json_datetime r.observed_at ≡ rt.json_datetime s.observed_at

  plan_of-json :
      (created expires : DateTime) (p : RoutePlan)
      → plan_of created expires (normalize (plan_json rt p))
        ≡ record p { created_at = created; expires_at = expires }
  unfolding canonical_json_bytes plan_of
  plan_of-json created expires p = rw (intent_of_lem p.intent, texts_of_lem p.hop_peer_ids) refl

  created_of-json :
      (p : RoutePlan)
      → the_text "created_at" (normalize (plan_json rt p)) ≡ rt.json_datetime p.created_at
  unfolding canonical_json_bytes pick pick_field as_str
  created_of-json p = refl

  expires_of-json :
      (p : RoutePlan)
      → the_text "expires_at" (normalize (plan_json rt p)) ≡ rt.json_datetime p.expires_at
  unfolding canonical_json_bytes pick pick_field as_str
  expires_of-json p = refl

  receipt_of-json :
      (time : DateTime) (signature : String) (r : HopReceipt)
      → receipt_of time signature (normalize (receipt_json rt r))
        ≡ record r { observed_at = time; signature = signature }
  unfolding canonical_json_bytes receipt_of
  receipt_of-json time signature r =
      rw
        (
          intent_of_lem r.intent,
          as_optional_lem r.previous_peer_id,
          as_optional_lem r.next_peer_id,
          as_optional_lem r.previous_receipt_digest,
          evidence_of_lem r.evidence_level,
        )
        refl

  observed_of-json :
      (r : HopReceipt)
      → the_text "observed_at" (normalize (receipt_json rt r)) ≡ rt.json_datetime r.observed_at
  unfolding canonical_json_bytes pick pick_field as_str
  observed_of-json r = refl

  signature_of-json :
      (r : HopReceipt) → the_text "signature" (normalize (receipt_json rt r)) ≡ r.signature
  unfolding canonical_json_bytes pick pick_field as_str
  signature_of-json r = refl

  same_plan :
      (p q : RoutePlan) → normalize (plan_json rt p) ≡ normalize (plan_json rt q) → SamePlan p q
  same_plan p q same = record {
    fields =
        sym (plan_of-json q.created_at q.expires_at p)
        ∙ ap (plan_of q.created_at q.expires_at) same
        ∙ plan_of-json q.created_at q.expires_at q;
    created = sym (created_of-json p) ∙ ap (the_text "created_at") same ∙ created_of-json q;
    expires = sym (expires_of-json p) ∙ ap (the_text "expires_at") same ∙ expires_of-json q;
  }

  same_receipt :
      (r s : HopReceipt)
      → normalize (receipt_json rt r) ≡ normalize (receipt_json rt s)
      → SameReceipt r s
  same_receipt r s same =
      let signature =
        sym (signature_of-json r) ∙ ap (the_text "signature") same ∙ signature_of-json s in
      record {
        fields =
            ap (λ t. record r { observed_at = s.observed_at; signature = t }) signature
            ∙ sym (receipt_of-json s.observed_at s.signature r)
            ∙ ap (receipt_of s.observed_at s.signature) same
            ∙ receipt_of-json s.observed_at s.signature s;
        observed = sym (observed_of-json r) ∙ ap (the_text "observed_at") same ∙ observed_of-json s;
      }

  module _ (lawful : IsLawful rt) where
    -- One digest is not the digest of two plans, unless these two collide.
    pub plan_pinned :
        (p q : RoutePlan)
        → sha256_digest rt (plan_json rt p) ≡ sha256_digest rt (plan_json rt q)
        → SamePlan p q ⊎ Collide rt (plan_json rt p) (plan_json rt q)
    plan_pinned p q same =
        elim (sha256_digest-eq rt lawful (plan_json rt p) (plan_json rt q) same) [
          | inl alike ↦ inl (same_plan p q alike)
          | inr collision ↦ inr collision
        ]

    pub receipt_pinned :
        (r s : HopReceipt)
        → sha256_digest rt (receipt_json rt r) ≡ sha256_digest rt (receipt_json rt s)
        → SameReceipt r s ⊎ Collide rt (receipt_json rt r) (receipt_json rt s)
    receipt_pinned r s same =
        elim (sha256_digest-eq rt lawful (receipt_json rt r) (receipt_json rt s) same) [
          | inl alike ↦ inl (same_receipt r s alike)
          | inr collision ↦ inr collision
        ]
