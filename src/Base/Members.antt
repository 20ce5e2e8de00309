-- ===== src/Base/Members.antt =====
-- What the Boolean tests on lists decide.
use mathlib.Core.Path.{◌≡◌, refl}
use mathlib.Core.Logic.{◌↔◌, ◌⊎◌, inl, inr}
use mathlib.Core.Bool.{true, false}
use mathlib.Core.List.{List, [], ◌∷◌}
use native.Mathlib.Omega.{arith}
use locus_mesh.Base.Tests.{Bool-cases}
use locus_mesh.Base.Lists.{is_empty}
use locus_mesh.Base.Equality.{Eq, ◌==◌, contains, all_distinct, from_keys}

abbrev pub In : {A : Type 0} → A → List A → Type 0
In a [] = ⊥
In a (x ∷ xs) = (x ≡ a) ⊎ In a xs

abbrev pub Distinct : {A : Type 0} → List A → Type 0
Distinct [] = Unit
Distinct (x ∷ xs) = (¬ In x xs) × Distinct xs

module _ {A : Type 0} ⦃e : Eq A⦄ where
  pub contains_sound : (xs : List A) (a : A) → contains xs a ≡ true → In a xs
  unfolding contains
  contains_sound [] a h = cc
  contains_sound (x ∷ xs) a h = elim (Bool-cases (x == a)) [
    | inl same ↦ inl ((e.beq_iff x a).0 same)
    | inr other ↦ inr (contains_sound xs a (ground arith))
  ]

  pub contains_complete : (xs : List A) (a : A) → In a xs → contains xs a ≡ true
  unfolding contains
  contains_complete [] a h = absurd h
  contains_complete (x ∷ xs) a (inl same) = ground (arith, (e.beq_iff x a).1 same)
  contains_complete (x ∷ xs) a (inr later) = ground (arith, contains_complete xs a later)

  pub contains_iff : (xs : List A) (a : A) → (contains xs a ≡ true) ↔ In a xs
  contains_iff xs a = (contains_sound xs a, contains_complete xs a)

  pub not-contains_iff : (xs : List A) (a : A) → (contains xs a ≡ false) ↔ (¬ In a xs)
  not-contains_iff xs a = elim (Bool-cases (contains xs a)) [
    | inl h ↦ (λ f. cc, λ n. absurd (n (contains_sound xs a h)))
    | inr h ↦ (λ f i. cc (contains_complete xs a i), λ n. h)
  ]

  pub all_distinct_iff : (xs : List A) → (all_distinct xs ≡ true) ↔ Distinct xs
  unfolding all_distinct
  all_distinct_iff [] = (λ h. tt, λ h. refl)
  all_distinct_iff (x ∷ xs) = (
    λ h. ((not-contains_iff xs x).0 (ground arith), (all_distinct_iff xs).0 (ground arith)),
    λ d. ground (arith, (not-contains_iff xs x).1 d.0, (all_distinct_iff xs).1 d.1),
  )

  -- `dict.fromkeys` drops no item that is new, and adds none.
  pub contains-from_keys :
      (seen xs : List A) (a : A)
      → contains seen a ≡ false
      → contains (from_keys seen xs) a ≡ contains xs a
  unfolding from_keys
  contains-from_keys seen [] a h = refl
  contains-from_keys seen (x ∷ xs) a h = elim (Bool-cases (contains seen x)) [
    | inl old ↦
        rw (old, from_keys)
          (unfold contains in ground (arith, contains-from_keys seen xs a h, e.beq_iff x a))
    | inr new ↦
        rw (new, from_keys) (unfold contains in ground (arith, contains-from_keys (x ∷ seen) xs a))
  ]

  pub is_empty-from_keys : (xs : List A) → is_empty (from_keys [] xs) ≡ is_empty xs
  unfolding from_keys contains
  is_empty-from_keys [] = refl
  is_empty-from_keys (x ∷ xs) = refl
