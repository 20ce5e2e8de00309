-- ===== src/Base/Causes.antt =====
-- Tables of codes with what each of them says, and lists of codes that follow a table.
use Prim.Native.String.{String}
use mathlib.Core.Path.{◌≡◌, refl, ◌∙◌, sym}
use mathlib.Core.Logic.{◌↔◌, ◌⊎◌, inl, inr}
use mathlib.Core.Bool.{Bool, true, false, false≢true}
use mathlib.Core.List.{List, [], ◌∷◌, ◌++◌}
use locus_mesh.Base.Lists.{when}
use locus_mesh.Base.Equality.{contains, from_keys, string_eq}
use locus_mesh.Base.Parts.{In-append}
use locus_mesh.Base.Members.{In, contains_iff, contains-from_keys}

abbrev pub Table : Type 1
Table = List (String × Type 0)

-- A code is in the table, and what it says is the case.
abbrev pub Caused : String → Table → Type 0
Caused code [] = ⊥
Caused code ((x, cause) ∷ table) = (cause × (x ≡ code)) ⊎ Caused code table

-- The codes in the list are those that have their cause.
pub record Explains (codes : List String) (table : Table) : Type 0 where
  pub each : (code : String) → In code codes ↔ Caused code table

Caused-append :
    (code : String) (s t : Table) → Caused code (s ++ t) ↔ (Caused code s ⊎ Caused code t)
Caused-append code [] t = (λ h. inr h, λ h. elim h [ inl never ↦ absurd never | inr yes_t ↦ yes_t ])
Caused-append code ((x, cause) ∷ s) t =
    let (to, from) = Caused-append code s t in
    (
      λ h. elim h [
        | inl here ↦ inl (inl here)
        | inr later ↦ elim (to later) [ inl l ↦ inl (inr l) | inr r ↦ inr r ]
      ],
      λ h. elim h [
        | inl l ↦ elim l [ inl here ↦ inl here | inr later ↦ inr (from (inl later)) ]
        | inr r ↦ inr (from (inr r))
      ],
    )

sum_map : {A B C D : Type 0} → A ↔ C → B ↔ D → (A ⊎ B) ↔ (C ⊎ D)
sum_map f g = (
  λ h. elim h [ inl a ↦ inl (f.0 a) | inr b ↦ inr (g.0 b) ],
  λ h. elim h [ inl c ↦ inl (f.1 c) | inr d ↦ inr (g.1 d) ],
)

iff_trans : {A B C : Type 0} → A ↔ B → B ↔ C → A ↔ C
iff_trans f g = (λ a. g.0 (f.0 a), λ c. f.1 (g.1 c))

iff_sym : {A B : Type 0} → A ↔ B → B ↔ A
iff_sym f = (f.1, f.0)

pub explain_none : Explains [] []
explain_none = record { each = λ code. (λ h. h, λ h. h) }

pub explain_both :
    {xs ys : List String} {s t : Table}
    → Explains xs s
    → Explains ys t
    → Explains (xs ++ ys) (s ++ t)
explain_both {xs} {ys} {s} {t} h k = record {
  each = λ code.
      iff_trans (In-append code xs ys)
        (iff_trans (sum_map (h.each code) (k.each code)) (iff_sym (Caused-append code s t)));
}

-- The list that `when` gives, if its test decides the cause.
pub explain_when :
    (b : Bool) (x : String) {cause : Type 0}
    → (b ≡ true) ↔ cause
    → Explains (when b x) ((x, cause) ∷ [])
explain_when true x h = record {
  each = λ code. (
    λ i. elim i [ inl same ↦ inl (h.0 refl, same) | inr never ↦ absurd never ],
    λ c. elim c [ inl (_, same) ↦ inl same | inr never ↦ absurd never ],
  );
}
explain_when false x h = record {
  each = λ code. (
    λ i. absurd i,
    λ c. elim c [ inl (cause, same) ↦ absurd (false≢true (h.1 cause)) | inr never ↦ absurd never ],
  );
}

pub explain_then :
    (b : Bool) (x : String) {cause : Type 0} {rest : List String} {t : Table}
    → (b ≡ true) ↔ cause
    → Explains rest t
    → Explains (when b x ++ rest) ((x, cause) ∷ t)
explain_then b x h k = explain_both (explain_when b x h) k

-- A code whose cause is not the case adds nothing to a table, and one whose cause is adds itself.
pub explain_also :
    (x : String) {cause : Type 0} {codes : List String} {t : Table}
    → ¬ cause
    → Explains codes t
    → Explains codes ((x, cause) ∷ t)
explain_also x never k = record {
  each = λ code. (
    λ i. inr ((k.each code).0 i),
    λ c. elim c [ inl (cause, _) ↦ absurd (never cause) | inr later ↦ (k.each code).1 later ],
  );
}

pub explain_one :
    (x : String) {cause : Type 0} {codes : List String} {t : Table}
    → cause
    → Explains codes t
    → Explains (x ∷ codes) ((x, cause) ∷ t)
explain_one x yes_cause k = record {
  each = λ code. sum_map ((λ same. (yes_cause, same)), λ c. c.1) (k.each code);
}

-- `dict.fromkeys` keeps the codes, each of them once.
pub explain-from_keys :
    {codes : List String} {t : Table} → Explains codes t → Explains (from_keys [] codes) t
explain-from_keys {codes} k = record {
  each = λ code.
      let same = contains-from_keys [] codes code (unfold contains in refl) in
      let (to, from) = contains_iff codes code in
      let (to', from') = contains_iff (from_keys [] codes) code in
      iff_trans (λ i. to (sym same ∙ from' i), λ i. to' (same ∙ from i)) (k.each code);
}
