-- ===== src/Json/Written.antt =====
-- The canonical bytes determine the value that they write.
use mathlib.Core.Path.{ap₂}
use mathlib.Core.List.{append_assoc}
use locus_mesh.Base.{
  ℕ, true, false, sym, String, ◌≡◌, refl, ap, ◌∙◌, ◌↔◌, List, [], ◌∷◌, ◌++◌, arith, ◌==◌, nat_eq,
}
use locus_mesh.Json.{
  Json, null, bool, num, str, arr, obj, Items, nil, item, Fields, end, field, quoted, normalize,
  write, write_items, write_fields, encode_utf8, canonical_json_bytes,
}
use locus_mesh.Json.Utf8.{stops, encode_utf8-injective, decimal-injective}
use locus_mesh.Json.Kind.{
  as_num, as_str, as_arr, as_obj, same_kind, kind_null, kind_bool, kind_num, kind_str, kind_arr,
  kind_obj, no_bracket,
}
use locus_mesh.Json.Quoted.{quoted-injective}

items-stops : (xs : Items) (r : List ℕ) → stops (write_items xs ++ r) ≡ true
unfolding stops write_items
items-stops nil r = refl
items-stops (item x xs) r = refl

fields-stops : (fs : Fields) (r : List ℕ) → stops (write_fields fs ++ r) ≡ true
unfolding stops write_fields
fields-stops end r = refl
fields-stops (field k v fs) r = refl

-- The text of a field, and of those after it.
entry : String → Json → Fields → List ℕ
entry k v fs = quoted k ++ (58 ∷ (write v ++ write_fields fs))

-- No key starts with a closing brace.
no_brace : (k : String) (v : Json) (fs : Fields) (r s : List ℕ) → ¬ (125 ∷ r ≡ entry k v fs ++ s)
unfolding entry quoted
no_brace k v fs r s same = cc same

entry-append :
    (k : String) (v : Json) (fs : Fields) (r : List ℕ)
    → entry k v fs ++ r ≡ quoted k ++ (58 ∷ (write v ++ (write_fields fs ++ r)))
unfolding entry
entry-append k v fs r =
    append_assoc (quoted k) (58 ∷ (write v ++ write_fields fs)) r
    ∙ ap (λ t. quoted k ++ (58 ∷ t)) (append_assoc (write v) (write_fields fs) r)

-- The texts of two first items or fields, and of what follows.
pair-injective :
    {A B : Type 0} {x y : A} {xs ys : B} {r s : List ℕ} {C : Type 0} (make : A → B → C)
    → x ≡ y
    → (xs ≡ ys) × (r ≡ s)
    → (make x xs ≡ make y ys) × (r ≡ s)
pair-injective make first (later, rest) = (ap₂ make first later, rest)

tail_of : {c d : ℕ} {cs ds : List ℕ} → c ∷ cs ≡ d ∷ ds → cs ≡ ds
tail_of h = cc h

clash : (c d : ℕ) {cs ds : List ℕ} → (c == d) ≡ false → ¬ (c ∷ cs ≡ d ∷ ds)
clash c d differ h = ground (arith, differ, h)

-- What follows is known, and no digit: then so is the value.
abbrev Determined : Json → Json → Type 0
Determined a b =
    (r s : List ℕ)
    → stops r ≡ true
    → stops s ≡ true
    → write a ++ r ≡ write b ++ s
    → (a ≡ b) × (r ≡ s)

item-injective :
    (x y : Json) (xs ys : Items) (r s : List ℕ)
    → Determined x y
    → (write_items xs ++ r ≡ write_items ys ++ s → (xs ≡ ys) × (r ≡ s))
    → (write x ++ write_items xs) ++ r ≡ (write y ++ write_items ys) ++ s
    → (item x xs ≡ item y ys) × (r ≡ s)
unfolding write write_items
item-injective x y xs ys r s first_known later_known same =
    let (first, later) =
      first_known (write_items xs ++ r) (write_items ys ++ s) (items-stops xs r) (items-stops ys s)
        (sym (append_assoc (write x) (write_items xs) r)
          ∙ same
          ∙ append_assoc (write y) (write_items ys) s) in
    pair-injective item first (later_known later)

entry-injective :
    (k l : String) (v w : Json) (fs gs : Fields) (r s : List ℕ)
    → Determined v w
    → (write_fields fs ++ r ≡ write_fields gs ++ s → (fs ≡ gs) × (r ≡ s))
    → entry k v fs ++ r ≡ entry l w gs ++ s
    → (field k v fs ≡ field l w gs) × (r ≡ s)
unfolding entry
entry-injective k l v w fs gs r s first_known later_known same =
    let (keys, after) =
      quoted-injective k l (58 ∷ (write v ++ (write_fields fs ++ r)))
        (58 ∷ (write w ++ (write_fields gs ++ s)))
        (sym (entry-append k v fs r) ∙ same ∙ entry-append l w gs s) in
    let (first, later) =
      first_known (write_fields fs ++ r) (write_fields gs ++ s) (fields-stops fs r)
        (fields-stops gs s) (cc after) in
    pair-injective (λ k (p : Json × Fields). field k p.0 p.1) keys
      (pair-injective (λ v fs. (v, fs)) first (later_known later))

mutual
  unfolding write write_items write_fields entry

  write-injective :
      (a b : Json) (r s : List ℕ)
      → stops r ≡ true
      → stops s ≡ true
      → write a ++ r ≡ write b ++ s
      → (a ≡ b) × (r ≡ s)
  write-injective null b r s stop_r stop_s same =
      let known = kind_null b (sym (same_kind null b r s same)) in
      (sym known, cc (rw known at same))
  write-injective (bool true) b r s stop_r stop_s same =
      let known = kind_bool true b (sym (same_kind (bool true) b r s same)) in
      (sym known, cc (rw known at same))
  write-injective (bool false) b r s stop_r stop_s same =
      let known = kind_bool false b (sym (same_kind (bool false) b r s same)) in
      (sym known, cc (rw known at same))
  write-injective (num n) b r s stop_r stop_s same =
      let known = kind_num n b (sym (same_kind (num n) b r s same)) in
      let (digits, rest) = decimal-injective n (as_num b) r s stop_r stop_s (rw known at same) in
      (ap num digits ∙ sym known, rest)
  write-injective (str t) b r s stop_r stop_s same =
      let known = kind_str t b (sym (same_kind (str t) b r s same)) in
      let (texts, rest) = quoted-injective t (as_str b) r s (rw known at same) in
      (ap str texts ∙ sym known, rest)
  write-injective (arr xs) b r s stop_r stop_s same =
      let known = kind_arr xs b (sym (same_kind (arr xs) b r s same)) in
      let (items, rest) = array-injective xs (as_arr b) r s (rw known at same) in
      (ap arr items ∙ sym known, rest)
  write-injective (obj fs) b r s stop_r stop_s same =
      let known = kind_obj fs b (sym (same_kind (obj fs) b r s same)) in
      let (fields, rest) = object-injective fs (as_obj b) r s (rw known at same) in
      (ap obj fields ∙ sym known, rest)

  array-injective :
      (xs ys : Items) (r s : List ℕ)
      → write (arr xs) ++ r ≡ write (arr ys) ++ s
      → (xs ≡ ys) × (r ≡ s)
  array-injective nil nil r s same = (refl, tail_of (tail_of same))
  array-injective nil (item y ys) r s same = absurd (
      no_bracket y r (write_items ys ++ s)
        (tail_of same ∙ append_assoc (write y) (write_items ys) s))
  array-injective (item x xs) nil r s same = absurd (
      no_bracket x s (write_items xs ++ r)
        (tail_of (sym same) ∙ append_assoc (write x) (write_items xs) r))
  array-injective (item x xs) (item y ys) r s same =
      item-injective x y xs ys r s (write-injective x y) (items-injective xs ys r s) (tail_of same)

  items-injective :
      (xs ys : Items) (r s : List ℕ)
      → write_items xs ++ r ≡ write_items ys ++ s
      → (xs ≡ ys) × (r ≡ s)
  items-injective nil nil r s same = (refl, tail_of same)
  items-injective nil (item y ys) r s same = absurd (clash 93 44 refl same)
  items-injective (item x xs) nil r s same = absurd (clash 44 93 refl same)
  items-injective (item x xs) (item y ys) r s same =
      item-injective x y xs ys r s (write-injective x y) (items-injective xs ys r s) (tail_of same)

  object-injective :
      (fs gs : Fields) (r s : List ℕ)
      → write (obj fs) ++ r ≡ write (obj gs) ++ s
      → (fs ≡ gs) × (r ≡ s)
  object-injective end end r s same = (refl, tail_of (tail_of same))
  object-injective end (field l w gs) r s same = absurd (no_brace l w gs r s (tail_of same))
  object-injective (field k v fs) end r s same = absurd (no_brace k v fs s r (tail_of (sym same)))
  object-injective (field k v fs) (field l w gs) r s same =
      entry-injective k l v w fs gs r s (write-injective v w) (fields-injective fs gs r s)
        (tail_of same)

  fields-injective :
      (fs gs : Fields) (r s : List ℕ)
      → write_fields fs ++ r ≡ write_fields gs ++ s
      → (fs ≡ gs) × (r ≡ s)
  fields-injective end end r s same = (refl, tail_of same)
  fields-injective end (field l w gs) r s same = absurd (clash 125 44 refl same)
  fields-injective (field k v fs) end r s same = absurd (clash 44 125 refl same)
  fields-injective (field k v fs) (field l w gs) r s same =
      entry-injective k l v w fs gs r s (write-injective v w) (fields-injective fs gs r s)
        (tail_of same)

-- Two values have the same canonical bytes exactly if they are the same once the fields of every
-- object are in the order of their keys.
pub canonical_json_bytes-eq_iff :
    (a b : Json) → (canonical_json_bytes a ≡ canonical_json_bytes b) ↔ (normalize a ≡ normalize b)
unfolding canonical_json_bytes stops
canonical_json_bytes-eq_iff a b = (
  λ same.
      let written = encode_utf8-injective (write (normalize a)) (write (normalize b)) same in
      (write-injective (normalize a) (normalize b) [] [] refl refl (ap (λ t. t ++ []) written)).0,
  λ same. ap (λ j. encode_utf8 (write j)) same,
)
