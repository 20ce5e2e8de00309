-- ===== src/Json/Quoted.antt =====
-- A quoted text can be read back.
use Prim.Native.Char.{code}
use mathlib.Core.Path.{ap₂}
use mathlib.Core.Option.{some-injective, none-ne-some}
use mathlib.Core.List.{append_assoc}
use locus_mesh.Base.{
  ℕ, ◌+◌, ◌*◌, ◌/◌, ◌%◌, ◌<◌, true, false, Option, none, some, sym, inl, inr, Bool-cases, String,
  codes, ◌≡◌, refl, ap, ◌∙◌, List, [], ◌∷◌, ◌++◌, arith, ltb, nth, index_of, if◌then◌else◌, ◌==◌,
  nat_eq, option_beq, option_beq_iff, all_below, all_below_sound, subst, nat_beq_iff,
}
use locus_mesh.Json.Keys.{codes-injective}
use locus_mesh.Json.{escape, escape_all, quoted}

-- \u00XY
hex_pair : Option ℕ → Option ℕ → List ℕ → Option (ℕ × List ℕ)
hex_pair (some h) (some l) rest = some (h * 16 + l, rest)
hex_pair _ _ rest = none

hex_escape : List ℕ → Option (ℕ × List ℕ)
unfolding hex_pair
hex_escape (u ∷ z ∷ h ∷ l ∷ rest) =
    hex_pair (index_of "0123456789abcdef" h) (index_of "0123456789abcdef" l) rest
hex_escape _ = none

-- What stands after a backslash.
after_backslash : List ℕ → Option (ℕ × List ℕ)
unfolding hex_escape
after_backslash [] = none
after_backslash (c ∷ rest) =
    if c == 34
    then some (34, rest)
    else if c == 92
    then some (92, rest)
    else if c == 110
    then some (10, rest)
    else if c == 114
    then some (13, rest)
    else if c == 116
    then some (9, rest)
    else if c == 102
    then some (12, rest)
    else if c == 98
    then some (8, rest)
    else hex_escape rest

-- The next code point of a quoted text, or none at its end.
unescape : List ℕ → Option (ℕ × List ℕ)
unfolding after_backslash
unescape [] = none
unescape (c ∷ rest) =
    if c == 34 then none else if c == 92 then after_backslash rest else some (c, rest)

digits_table :
    all_below 16
      (λ i. option_beq (index_of "0123456789abcdef" (code (nth "0123456789abcdef" i))) (some i))
    ≡ true
unfolding all_below
digits_table = refl

digit_at : (i : ℕ) → i < 16 → index_of "0123456789abcdef" (code (nth "0123456789abcdef" i)) ≡ some i
digit_at i small = (option_beq_iff _ _).0 (all_below_sound _ 16 i small digits_table)

hex_escape_lem :
    (c : ℕ) (rest : List ℕ)
    → c < 32
    → hex_escape (
        48
        ∷ 48
        ∷ code (nth "0123456789abcdef" (c / 16))
        ∷ code (nth "0123456789abcdef" (c % 16))
        ∷ rest)
      ≡ some (c, rest)
unfolding hex_escape
hex_escape_lem c rest small =
    rw (digit_at (c / 16) (omega arith), digit_at (c % 16) (omega arith))
      (ap (λ n. some (n, rest)) (omega arith))

abbrev IsRead : ℕ → List ℕ → Type 0
IsRead c rest = unescape (escape c ++ rest) ≡ some (c, rest)

-- A character with an escape of two signs, or another one.
or_same :
    (c k : ℕ) (rest : List ℕ) → IsRead k rest → ((c == k) ≡ false → IsRead c rest) → IsRead c rest
or_same c k rest known other = elim (Bool-cases (c == k)) [
  | inl same ↦ subst (λ d. IsRead d rest) (sym ((nat_beq_iff c k).0 same)) known
  | inr differ ↦ other differ
]

IsRead-other :
    (c : ℕ) (rest : List ℕ)
    → (c == 34) ≡ false
    → (c == 92) ≡ false
    → (c == 10) ≡ false
    → (c == 13) ≡ false
    → (c == 9) ≡ false
    → (c == 12) ≡ false
    → (c == 8) ≡ false
    → IsRead c rest
unfolding escape unescape after_backslash
IsRead-other c rest n34 n92 n10 n13 n9 n12 n8 = elim (Bool-cases (ltb c 32)) [
  | inl small ↦
      rw (n34, n92, n10, n13, n9, n12, n8, small) (hex_escape_lem c rest (ground (arith, small)))
  | inr plain ↦ rw (n34, n92, n10, n13, n9, n12, n8, plain) (rw (n34, n92) refl)
]

unescape-escape : (c : ℕ) (rest : List ℕ) → IsRead c rest
unfolding escape unescape
unescape-escape c rest = or_same c 34 rest refl λ n34. or_same c 92 rest refl λ n92.
    or_same c 10 rest refl λ n10. or_same c 13 rest refl λ n13. or_same c 9 rest refl λ n9.
      or_same c 12 rest refl
        λ n12. or_same c 8 rest refl λ n8. IsRead-other c rest n34 n92 n10 n13 n9 n12 n8

escape_all-cons :
    (c : ℕ) (cs rest : List ℕ)
    → unescape (escape_all (c ∷ cs) ++ rest) ≡ some (c, escape_all cs ++ rest)
unfolding escape_all
escape_all-cons c cs rest =
    ap unescape (append_assoc (escape c) (escape_all cs) rest)
    ∙ unescape-escape c (escape_all cs ++ rest)

at_end : (rest : List ℕ) → none ≡ unescape (escape_all [] ++ (34 ∷ rest))
unfolding unescape escape_all
at_end rest = refl

escape_all-injective :
    (cs ds r s : List ℕ)
    → escape_all cs ++ (34 ∷ r) ≡ escape_all ds ++ (34 ∷ s)
    → (cs ≡ ds) × (r ≡ s)
unfolding unescape
escape_all-injective [] [] r s same = (refl, unfold escape_all in cc same)
escape_all-injective [] (d ∷ ds) r s same =
    absurd (none-ne-some _ (at_end r ∙ ap unescape same ∙ escape_all-cons d ds (34 ∷ s)))
escape_all-injective (c ∷ cs) [] r s same =
    absurd (none-ne-some _ (at_end s ∙ ap unescape (sym same) ∙ escape_all-cons c cs (34 ∷ r)))
escape_all-injective (c ∷ cs) (d ∷ ds) r s same =
    let read =
      some-injective _ _
        (sym (escape_all-cons c cs (34 ∷ r)) ∙ ap unescape same ∙ escape_all-cons d ds (34 ∷ s)) in
    let (rest, after) = escape_all-injective cs ds r s (ap (λ (p : ℕ × List ℕ). p.1) read) in
    (ap₂ ◌∷◌ (ap (λ (p : ℕ × List ℕ). p.0) read) rest, after)

pub quoted-injective :
    (k l : String) (r s : List ℕ) → quoted k ++ r ≡ quoted l ++ s → (k ≡ l) × (r ≡ s)
unfolding quoted
quoted-injective k l r s same =
    let joined =
      λ (t : String) (rest : List ℕ). append_assoc (escape_all (codes t)) (34 ∷ []) rest in
    let (same_codes, rest) =
      escape_all-injective (codes k) (codes l) r s (sym (joined k r) ∙ cc same ∙ joined l s) in
    (codes-injective k l same_codes, rest)
