-- ===== src/Json/Keys.antt =====
-- The order of keys by code points is a strict total order.
use mathlib.Core.Path.{ap₂}
use text.Mathlib.TextEquality.{Char-path}
use locus_mesh.Base.{
  ℕ, String, ◌≡◌, refl, ◌≢◌, ◌⊎◌, inl, inr, true, false, List, [], ◌∷◌, arith, ltb, codes,
  Bool-cases,
}
use locus_mesh.Json.{text_lt}

pub text_lt_asym : (s t : List ℕ) → text_lt s t ≡ true → text_lt t s ≡ false
unfolding text_lt
text_lt_asym [] [] h = refl
text_lt_asym [] (d ∷ t) h = refl
text_lt_asym (c ∷ s) [] h = cc
text_lt_asym (c ∷ s) (d ∷ t) h = ground (arith, text_lt_asym s t)

pub text_lt_trans : (s t u : List ℕ) → text_lt s t ≡ true → text_lt t u ≡ true → text_lt s u ≡ true
unfolding text_lt
text_lt_trans [] [] u h k = k
text_lt_trans [] (d ∷ t) [] h k = k
text_lt_trans [] (d ∷ t) (e ∷ u) h k = refl
text_lt_trans (c ∷ s) [] u h k = cc
text_lt_trans (c ∷ s) (d ∷ t) [] h k = cc
text_lt_trans (c ∷ s) (d ∷ t) (e ∷ u) h k = ground (arith, text_lt_trans s t u)

pub text_lt_total : (s t : List ℕ) → s ≢ t → (text_lt s t ≡ true) ⊎ (text_lt t s ≡ true)
unfolding text_lt
text_lt_total [] [] h = absurd (h refl)
text_lt_total [] (d ∷ t) h = inl refl
text_lt_total (c ∷ s) [] h = inr refl
text_lt_total (c ∷ s) (d ∷ t) h = elim (Bool-cases (ltb c d)) [
  | inl below ↦ inl (rw below refl)
  | inr not_below ↦ elim (Bool-cases (ltb d c)) [
    | inl above ↦ inr (rw above refl)
    | inr not_above ↦
        let same : c ≡ d = ground arith in
        let rest = text_lt_total s t (λ e. h (ap₂ ◌∷◌ same e)) in rw (not_below, not_above) rest
  ]
]

pub codes-injective : (s t : String) → codes s ≡ codes t → s ≡ t
codes-injective String.[] String.[] h = refl
codes-injective String.[] (String.◌∷◌ d t) h = cc
codes-injective (String.◌∷◌ c s) String.[] h = cc
codes-injective (String.◌∷◌ c s) (String.◌∷◌ d t) h =
    ap₂ String.◌∷◌ (Char-path c d (cc h)) (codes-injective s t (cc h))
