-- ===== src/Base/Parts.antt =====
-- Lists in two parts, and a property of all members.
use mathlib.Core.Path.{◌≡◌, refl, subst}
use mathlib.Core.Logic.{◌↔◌, ◌⊎◌, inl, inr}
use mathlib.Core.Bool.{Bool, true, false}
use mathlib.Core.List.{List, [], ◌∷◌, ◌++◌, map}
use locus_mesh.Base.Lists.{All, when}
use locus_mesh.Base.Members.{In, Distinct}

module _ {A : Type 0} where
  pub All-when : (P : A → Type 0) (b : Bool) (x : A) → (b ≡ true → P x) → All P (when b x)
  All-when P true x h = (h refl, tt)
  All-when P false x h = tt

  pub Distinct-when : (b : Bool) (x : A) → Distinct (when b x)
  Distinct-when true x = ((λ i. i), tt)
  Distinct-when false x = tt

  pub all_of : (P : A → Type 0) (xs : List A) (n : A) → All P xs → In n xs → P n
  all_of P (x ∷ xs) n h (inl same) = subst P same h.0
  all_of P (x ∷ xs) n h (inr later) = all_of P xs n h.1 later
  all_of P [] n h i = absurd i

  pub All-mono : {P Q : A → Type 0} (xs : List A) → ((n : A) → P n → Q n) → All P xs → All Q xs
  All-mono [] f h = tt
  All-mono (x ∷ xs) f h = (f x h.0, All-mono xs f h.1)

  pub In-append : (n : A) (xs ys : List A) → In n (xs ++ ys) ↔ (In n xs ⊎ In n ys)
  In-append n [] ys = (λ h. inr h, λ h. elim h [ inl never ↦ absurd never | inr later ↦ later ])
  In-append n (x ∷ xs) ys =
      let (to, from) = In-append n xs ys in
      (
        λ h. elim h [
          | inl here ↦ inl (inl here)
          | inr later ↦ elim (to later) [ inl l ↦ inl (inr l) | inr r ↦ inr r ]
        ],
        λ h. elim h [
          | inl l ↦ elim l [ inl here ↦ inl here | inr later ↦ inr (from (inl later)) ]
          | inr r ↦ inr (from (inr r))
        ],
      )

  pub Distinct-parts :
      (xs ys : List A)
      → Distinct xs
      → Distinct ys
      → ((n : A) → In n xs → ¬ In n ys)
      → Distinct (xs ++ ys)
  Distinct-parts [] ys d e apart = e
  Distinct-parts (x ∷ xs) ys d e apart = (
    λ i. elim ((In-append x xs ys).0 i) [ inl l ↦ d.0 l | inr r ↦ apart x (inl refl) r ],
    Distinct-parts xs ys d.1 e (λ n i. apart n (inr i)),
  )

-- A property of all images is one of all members.
module _ {A B : Type 0} (f : A → B) (P : B → Type 0) where
  pub All-map : (xs : List A) → All (λ x. P (f x)) xs → All P (map f xs)
  All-map [] h = tt
  All-map (x ∷ xs) h = (h.0, All-map xs h.1)

  pub map-All : (xs : List A) → All P (map f xs) → All (λ x. P (f x)) xs
  map-All [] h = tt
  map-All (x ∷ xs) h = (h.0, map-All xs h.1)
