-- ===== src/Policy/Order.antt =====
-- Sorting by a key gives one result for all orders of items with different keys.
use mathlib.Core.Path.{ap₂}
use mathlib.Core.Bool.{false≢true}
use mathlib.Core.List.{Permᴰ}
use locus_mesh.Base.{
  String, ◌≡◌, refl, sym, ap, ◌∙◌, subst, ◌≢◌, ◌⊎◌, inl, inr, Bool, true, false, List, [], ◌∷◌,
  arith, All, codes, insert_by, sort_by, Bool-cases, string_eq, eq_iff, ◌==◌,
}
use locus_mesh.Json.Keys.{text_lt_asym, text_lt_trans, text_lt_total, codes-injective}
use locus_mesh.Policy.Digest.{str_lt, pair_lt}

-- A strict order on the keys of items; items with one key are not ordered.
pub record IsKeyOrder {A : Type 0} (less : A → A → Bool) : Type 0 where
  pub asym : (a b : A) → less a b ≡ true → less b a ≡ false
  pub trans : (a b c : A) → less a b ≡ true → less b c ≡ true → less a c ≡ true

module _ {A : Type 0} (less : A → A → Bool) (order : IsKeyOrder less) where
  abbrev pub Differ : A → A → Type 0
  Differ a b = (less a b ≡ true) ⊎ (less b a ≡ true)

  abbrev pub Apart : List A → Type 0
  Apart [] = Unit
  Apart (x ∷ xs) = All (Differ x) xs × Apart xs

  Differ-sym : (a b : A) → Differ a b → Differ b a
  Differ-sym a b (inl h) = inr h
  Differ-sym a b (inr h) = inl h

  insert_comm :
      (a b : A) (l : List A)
      → Differ a b
      → insert_by less a (insert_by less b l) ≡ insert_by less b (insert_by less a l)
  unfolding insert_by
  insert_comm a b [] d = ground (arith, order.asym a b, order.asym b a)
  insert_comm a b (c ∷ l) d = ground (
    arith,
    insert_comm a b l d,
    order.asym a b,
    order.asym b a,
    order.trans c a b,
    order.trans c b a,
  )

  perm-All : (P : A → Type 0) {xs ys : List A} → Permᴰ xs ys → All P xs → All P ys
  perm-All P Permᴰ.nil h = h
  perm-All P (Permᴰ.cons e p) h = (subst P e h.0, perm-All P p h.1)
  perm-All P (Permᴰ.swap e f) h = (subst P f h.1.0, (subst P e h.0, h.1.1))
  perm-All P (Permᴰ.trans p q) h = perm-All P q (perm-All P p h)

  perm-Apart : {xs ys : List A} → Permᴰ xs ys → Apart xs → Apart ys
  perm-Apart Permᴰ.nil h = h
  perm-Apart (Permᴰ.cons {b = b} {l₂ = l₂} e p) h =
      (subst (λ x. All (Differ x) l₂) e (perm-All _ p h.0), perm-Apart p h.1)
  perm-Apart (Permᴰ.swap {a = a} {b = b} {b' = b'} {l = l} e f) ((d, ha), (hb, h)) = (
    subst (λ x. All (Differ x) (b' ∷ l)) f (subst (Differ b) e (Differ-sym a b d), hb),
    (subst (λ x. All (Differ x) l) e ha, h),
  )
  perm-Apart (Permᴰ.trans p q) h = perm-Apart q (perm-Apart p h)

  -- Whatever the order given, the sorted list is the same.
  pub sort_by-perm : {xs ys : List A} → Permᴰ xs ys → Apart xs → sort_by less xs ≡ sort_by less ys
  unfolding sort_by
  sort_by-perm Permᴰ.nil h = refl
  sort_by-perm (Permᴰ.cons e p) h = ap₂ (insert_by less) e (sort_by-perm p h.1)
  sort_by-perm (Permᴰ.swap {a = a} {b = b} {l = l} e f) ((d, _), _) =
      insert_comm a b (sort_by less l) d
      ∙ ap₂ (insert_by less) f (ap (λ x. insert_by less x (sort_by less l)) e)
  sort_by-perm (Permᴰ.trans p q) h = sort_by-perm p h ∙ sort_by-perm q (perm-Apart p h)

pub str_lt_order : IsKeyOrder str_lt
str_lt_order = record {
  asym = λ s t. text_lt_asym (codes s) (codes t);
  trans = λ s t u. text_lt_trans (codes s) (codes t) (codes u);
}

pub str_lt_total : (s t : String) → s ≢ t → Differ str_lt str_lt_order s t
str_lt_total s t h = text_lt_total (codes s) (codes t) (λ e. h (codes-injective s t e))

pair_lt_asym : (p q : String × String) → pair_lt p q ≡ true → pair_lt q p ≡ false
pair_lt_asym (a, b) (c, d) h =
    ground (arith, str_lt_order.asym a c, str_lt_order.asym b d, eq_iff a c, eq_iff c a)

pair_lt_trans :
    (p q r : String × String) → pair_lt p q ≡ true → pair_lt q r ≡ true → pair_lt p r ≡ true
pair_lt_trans (a, b) (c, d) (e, f) h k =
    grind (arith, str_lt_order.asym, str_lt_order.trans, eq_iff a c, eq_iff c e, eq_iff a e)

pub pair_lt_order : IsKeyOrder pair_lt
pair_lt_order = record { asym = pair_lt_asym; trans = pair_lt_trans }

pub pair_lt_total : (p q : String × String) → p ≢ q → Differ pair_lt pair_lt_order p q
pair_lt_total (a, b) (c, d) h = elim (Bool-cases (a == c)) [
  | inl same ↦
      let e = (eq_iff a c).0 same in
      let back = (eq_iff c a).1 (sym e) in
      let rest = str_lt_total b d (λ f. h (ap₂ (λ x y. (x, y)) e f)) in rw (same, back) rest
  | inr other ↦
      let apart : a ≢ c = λ e. false≢true (sym other ∙ (eq_iff a c).1 e) in
      let back : (c == a) ≡ false = elim (Bool-cases (c == a)) [
        | inl e ↦ absurd (apart (sym ((eq_iff c a).0 e)))
        | inr n ↦ n
      ] in
      rw (other, back) (str_lt_total a c apart)
]
