-- ===== src/Base/Text.antt =====
-- Text as the code points that Python's `str` holds.
use Prim.Native.Nat.{ℕ, zero, suc, ◌<◌}
use Prim.Native.Char.{Char, code}
use Prim.Native.String
use Prim.Native.String.{String}
use mathlib.Core.Bool.{Bool, true, ◌&&◌}
use mathlib.Core.Path.{◌≡◌, ap, ◌∙◌}
use mathlib.Core.List.{List, [], ◌∷◌, ◌++◌}
use native.Mathlib.Omega.{arith}
use text.Mathlib.TextLemmas.{nil-append, cons-append}
use mathlib.Core.Option.{Option, none, some}
use locus_mesh.Base.Tests.{leb, nat_beq, if◌then◌else◌}

abbrev pub codes : String → List ℕ
codes String.[] = []
codes (String.◌∷◌ c s) = code c ∷ codes s

-- f"{label}:{text}" and the like
infixr 65 ◌⧺◌
abbrev pub ◌⧺◌ : String → String → String
s ⧺ t = String.◌++◌ s t

abbrev pub between : ℕ → ℕ → ℕ → Bool
between lo hi c = leb lo c && leb c hi

-- alphabet[i]; the callers stay inside the alphabet
abbrev pub nth : String → ℕ → Char
nth String.[] i = "A"
nth (String.◌∷◌ c s) zero = c
nth (String.◌∷◌ c s) (suc i) = nth s i

-- The place of a code point in an alphabet.
abbrev pub index_of : String → ℕ → Option ℕ
index_of String.[] c = none
index_of (String.◌∷◌ d s) c =
    if nat_beq (code d) c
    then some 0
    else elim (index_of s c) [ none ↦ none | some i ↦ some (suc i) ]

abbrev pub all : (ℕ → Bool) → List ℕ → Bool
all p [] = true
all p (c ∷ cs) = p c && all p cs

abbrev pub text_of : List Char → String
text_of [] = String.[]
text_of (c ∷ cs) = String.◌∷◌ c (text_of cs)

pub codes-append : (s t : String) → codes (s ⧺ t) ≡ codes s ++ codes t
codes-append String.[] t = ap codes (nil-append t)
codes-append (String.◌∷◌ c s) t =
    ap codes (cons-append c s t) ∙ ap (◌∷◌ (code c)) (codes-append s t)

-- Over a small range every value is checked by evaluation.
unfoldable pub all_below : ℕ → (ℕ → Bool) → Bool
all_below zero p = true
all_below (suc n) p = p n && all_below n p

pub all_below_sound :
    (test : ℕ → Bool) (bound i : ℕ) → i < bound → all_below bound test ≡ true → test i ≡ true
unfolding all_below
all_below_sound test zero i small checked = absurd (omega (arith, small))
all_below_sound test (suc bound) i small checked = ground (arith, all_below_sound test bound i)
