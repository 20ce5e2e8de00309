-- ===== src/Cli/Printable.antt =====
-- json.dumps as cli.py calls it writes printable ASCII, whatever the value holds.
use Prim.Native.Char.{code}
use locus_mesh.Base.{
  ℕ, zero, suc, ◌+◌, ◌-◌, ◌/◌, ◌%◌, ◌≤◌, String, ◌≡◌, refl, Bool, true, false, List, [], ◌∷◌, ◌++◌,
  arith, All, codes, nth, all, all_below, all_below_sound, between, ltb, if◌then◌else◌,
}
use locus_mesh.Json.{
  Json, null, bool, num, str, arr, obj, Items, nil, item, Fields, end, field, decimal_from, decimal,
  normalize,
}
use locus_mesh.Policy.Reasons.{All-concat}
use locus_mesh.Cli.Dumps.{
  hex_digit, unicode_escape, escape_ascii, escape_all_ascii, quoted_ascii, dump, dump_items,
  dump_fields, dumps,
}

abbrev pub IsPrintable : ℕ → Type 0
IsPrintable c = (32 ≤ c) × (c ≤ 126)

-- Printable signs only.
pub record IsLine (text : List ℕ) : Type 0 where
  pub each : All IsPrintable text

both : (xs ys : List ℕ) → IsLine xs → IsLine ys → IsLine (xs ++ ys)
both xs ys h k = record { each = All-concat IsPrintable xs ys h.each k.each }

sign : (c : ℕ) (cs : List ℕ) → between 32 126 c ≡ true → IsLine cs → IsLine (c ∷ cs)
sign c cs h k = record { each = ((ground arith, ground arith), k.each) }

all_printable : (cs : List ℕ) → all (between 32 126) cs ≡ true → IsLine cs
all_printable [] h = record { each = tt }
all_printable (c ∷ cs) h = sign c cs (ground arith) (all_printable cs (ground arith))

hex_table : all_below 16 (λ n. between 32 126 (code (nth "0123456789abcdef" n))) ≡ true
unfolding all_below
hex_table = refl

hex_digit-between : (n : ℕ) → between 32 126 (hex_digit n) ≡ true
unfolding hex_digit
hex_digit-between n =
    all_below_sound (λ k. between 32 126 (code (nth "0123456789abcdef" k))) 16 (n % 16)
      (omega arith) hex_table

unicode_escape-IsLine : (n : ℕ) → IsLine (unicode_escape n)
unfolding unicode_escape
unicode_escape-IsLine n = both (codes "\\u") _ (all_printable (codes "\\u") refl) (
    sign _ _ (hex_digit-between (n / 4096)) (
      sign _ _ (hex_digit-between (n / 256)) (
        sign _ _ (hex_digit-between (n / 16))
          (sign _ _ (hex_digit-between n) (record { each = tt })))))

chosen :
    (b : Bool) (xs ys : List ℕ) → (b ≡ true → IsLine xs) → IsLine ys → IsLine (if b then xs else ys)
chosen true xs ys h k = h refl
chosen false xs ys h k = k

-- A fixed text in one branch.
fixed_or :
    (b : Bool) (cs ys : List ℕ)
    → all (between 32 126) cs ≡ true
    → IsLine ys
    → IsLine (if b then cs else ys)
fixed_or b cs ys h k = chosen b cs ys (λ _. all_printable cs h) k

escape_ascii-IsLine : (c : ℕ) → IsLine (escape_ascii c)
unfolding escape_ascii
escape_ascii-IsLine c = fixed_or _ (codes "\\\"") _ refl (
    fixed_or _ (codes "\\\\") _ refl (
      fixed_or _ (codes "\\n") _ refl (
        fixed_or _ (codes "\\r") _ refl (
          fixed_or _ (codes "\\t") _ refl (
            fixed_or _ (codes "\\f") _ refl (
              fixed_or _ (codes "\\b") _ refl (
                chosen (between 32 126 c) (c ∷ []) _
                  (λ printable. sign c [] printable (record { each = tt }))
                  (chosen _ _ _ (λ _. unicode_escape-IsLine c)
                    (both (unicode_escape (55296 + (c - 65536) / 1024 % 1024)) _
                      (unicode_escape-IsLine _) (unicode_escape-IsLine _))))))))))

escape_all_ascii-IsLine : (cs : List ℕ) → IsLine (escape_all_ascii cs)
unfolding escape_all_ascii
escape_all_ascii-IsLine [] = record { each = tt }
escape_all_ascii-IsLine (c ∷ cs) =
    both (escape_ascii c) _ (escape_ascii-IsLine c) (escape_all_ascii-IsLine cs)

quoted_ascii-IsLine : (s : String) → IsLine (quoted_ascii s)
unfolding quoted_ascii
quoted_ascii-IsLine s = sign 34 _ refl (
    both (escape_all_ascii (codes s)) _ (escape_all_ascii-IsLine (codes s))
      (all_printable (34 ∷ []) refl))

decimal_from-IsLine : (fuel n : ℕ) (out : List ℕ) → IsLine out → IsLine (decimal_from fuel n out)
unfolding decimal_from
decimal_from-IsLine zero n out h = sign _ _ (ground arith) h
decimal_from-IsLine (suc fuel) n out h =
    chosen (ltb n 10) _ _ (λ one. sign _ _ (ground arith) h)
      (decimal_from-IsLine fuel (n / 10) _ (sign _ _ (ground arith) h))

decimal-IsLine : (n : ℕ) → IsLine (decimal n)
unfolding decimal
decimal-IsLine n = decimal_from-IsLine n n [] (record { each = tt })

-- One sign and a space after it.
spaced : (c : ℕ) (cs : List ℕ) → between 32 126 c ≡ true → IsLine cs → IsLine (c ∷ 32 ∷ cs)
spaced c cs h k = sign c _ h (sign 32 cs refl k)

keyed : (k : String) (cs : List ℕ) → IsLine cs → IsLine (quoted_ascii k ++ (58 ∷ 32 ∷ cs))
keyed k cs h = both (quoted_ascii k) _ (quoted_ascii-IsLine k) (spaced 58 cs refl h)

mutual
  unfolding dump

  dump-IsLine : (v : Json) → IsLine (dump v)
  dump-IsLine null = all_printable (codes "null") refl
  dump-IsLine (bool true) = all_printable (codes "true") refl
  dump-IsLine (bool false) = all_printable (codes "false") refl
  dump-IsLine (num n) = decimal-IsLine n
  dump-IsLine (str s) = quoted_ascii-IsLine s
  dump-IsLine (arr nil) = all_printable (codes "[]") refl
  dump-IsLine (arr (item x xs)) =
      sign 91 _ refl (both (dump x) _ (dump-IsLine x) (dump_items-IsLine xs))
  dump-IsLine (obj end) = all_printable (codes "{}") refl
  dump-IsLine (obj (field k v fs)) =
      sign 123 _ refl (keyed k _ (both (dump v) _ (dump-IsLine v) (dump_fields-IsLine fs)))

  dump_items-IsLine : (xs : Items) → IsLine (dump_items xs)
  dump_items-IsLine nil = all_printable (93 ∷ []) refl
  dump_items-IsLine (item x xs) =
      spaced 44 _ refl (both (dump x) _ (dump-IsLine x) (dump_items-IsLine xs))

  dump_fields-IsLine : (fs : Fields) → IsLine (dump_fields fs)
  dump_fields-IsLine end = all_printable (125 ∷ []) refl
  dump_fields-IsLine (field k v fs) =
      spaced 44 _ refl (keyed k _ (both (dump v) _ (dump-IsLine v) (dump_fields-IsLine fs)))

pub dumps-IsLine : (v : Json) → IsLine (dumps v)
unfolding dumps
dumps-IsLine v = dump-IsLine (normalize v)
