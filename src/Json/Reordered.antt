-- ===== src/Json/Reordered.antt =====
-- The order in which the fields of an object are given does not reach the canonical bytes.
use mathlib.Core.Path.{ap₂}
use locus_mesh.Base.{String, ◌≡◌, refl, ap, ◌∙◌, ◌≢◌, codes, arith}
use locus_mesh.Json.{
  Json, arr, obj, Items, nil, item, Fields, end, field, insert_field, sort_fields, normalize,
  normalize_items, normalize_fields, canonical_json_bytes,
}
use locus_mesh.Json.Keys.{text_lt_asym, text_lt_trans, text_lt_total, codes-injective}

-- The same value, but for the order of fields with different keys in any of its objects.
mutual
  pub data Same : Json → Json → Type 0 where
    same : {a : Json} → Same a a
    same_arr : {xs ys : Items} → SameItems xs ys → Same (arr xs) (arr ys)
    same_obj : {fs gs : Fields} → SameFields fs gs → Same (obj fs) (obj gs)

  pub data SameItems : Items → Items → Type 0 where
    no_item : SameItems nil nil
    same_item :
        {a b : Json} {xs ys : Items}
        → Same a b
        → SameItems xs ys
        → SameItems (item a xs) (item b ys)

  pub data SameFields : Fields → Fields → Type 0 where
    no_field : SameFields end end
    same_field :
        {k : String} {a b : Json} {fs gs : Fields}
        → Same a b
        → SameFields fs gs
        → SameFields (field k a fs) (field k b gs)
    swapped :
        {k l : String} {a b : Json} {fs : Fields}
        → k ≢ l
        → SameFields (field k a (field l b fs)) (field l b (field k a fs))
    after : {fs gs hs : Fields} → SameFields fs gs → SameFields gs hs → SameFields fs hs

insert_field_comm :
    (k l : String) (a b : Json) (fs : Fields)
    → k ≢ l
    → insert_field k a (insert_field l b fs) ≡ insert_field l b (insert_field k a fs)
unfolding insert_field
insert_field_comm k l a b end differ =
    let either = text_lt_total (codes k) (codes l) (λ e. differ (codes-injective k l e)) in
    ground (arith, either, text_lt_asym (codes k) (codes l), text_lt_asym (codes l) (codes k))
insert_field_comm k l a b (field j c fs) differ =
    let either = text_lt_total (codes k) (codes l) (λ e. differ (codes-injective k l e)) in
    ground (
      arith,
      either,
      insert_field_comm k l a b fs differ,
      text_lt_asym (codes k) (codes l),
      text_lt_asym (codes l) (codes k),
      text_lt_trans (codes j) (codes k) (codes l),
      text_lt_trans (codes j) (codes l) (codes k),
    )

mutual
  unfolding normalize normalize_items normalize_fields sort_fields

  Same-normalize : {a b : Json} → Same a b → normalize a ≡ normalize b
  Same-normalize same = refl
  Same-normalize (same_arr items) = ap arr (SameItems-normalize items)
  Same-normalize (same_obj fields) = ap obj (SameFields-normalize fields)

  SameItems-normalize : {xs ys : Items} → SameItems xs ys → normalize_items xs ≡ normalize_items ys
  SameItems-normalize no_item = refl
  SameItems-normalize (same_item first rest) =
      ap₂ item (Same-normalize first) (SameItems-normalize rest)

  SameFields-normalize :
      {fs gs : Fields}
      → SameFields fs gs
      → sort_fields (normalize_fields fs) ≡ sort_fields (normalize_fields gs)
  SameFields-normalize no_field = refl
  SameFields-normalize (same_field {k = k} first rest) =
      ap₂ (insert_field k) (Same-normalize first) (SameFields-normalize rest)
  SameFields-normalize (swapped {k = k} {l = l} differ) = insert_field_comm k l _ _ _ differ
  SameFields-normalize (after first second) =
      SameFields-normalize first ∙ SameFields-normalize second

-- Values that differ at most in the order of the fields of their objects, at any depth and with
-- different keys, have the same canonical bytes.
pub canonical_json_bytes-reordered :
    (a b : Json) → Same a b → canonical_json_bytes a ≡ canonical_json_bytes b
unfolding canonical_json_bytes
canonical_json_bytes-reordered a b alike = rw (Same-normalize alike) refl
