-- ===== src/Json/Utf8.antt =====
-- UTF-8 and the decimal digits can be read back.
use mathlib.Core.Path.{ap₂}
use mathlib.Core.Option.{some-injective}
use locus_mesh.Base.{
  not, sym, inl, inr, Bool-cases, ℕ, zero, suc, ◌+◌, ◌-◌, ◌*◌, ◌/◌, ◌%◌, ◌≤◌, Bool, true, Option,
  none, some, ◌≡◌, refl, ap, ◌∙◌, List, [], ◌∷◌, ◌++◌, arith, between, ltb, if◌then◌else◌, nat_eq,
}
use locus_mesh.Json.{decimal_from, decimal, utf8, encode_utf8}

-- The bytes after the first, six bits each.
continued : ℕ → ℕ → List ℕ → Option (ℕ × List ℕ)
continued zero acc bytes = some (acc, bytes)
continued (suc n) acc [] = none
continued (suc n) acc (b ∷ bytes) = continued n (acc * 64 + (b - 128)) bytes

decode_one : List ℕ → Option (ℕ × List ℕ)
unfolding continued
decode_one [] = none
decode_one (b ∷ bytes) =
    if ltb b 128
    then some (b, bytes)
    else if ltb b 224
    then continued 1 (b - 192) bytes
    else if ltb b 240
    then continued 2 (b - 224) bytes
    else continued 3 (b - 240) bytes

decode_one-utf8 : (c : ℕ) (rest : List ℕ) → decode_one (utf8 c ++ rest) ≡ some (c, rest)
unfolding decode_one utf8
decode_one-utf8 c rest = ground arith

pub encode_utf8-injective : (cs ds : List ℕ) → encode_utf8 cs ≡ encode_utf8 ds → cs ≡ ds
unfolding encode_utf8
encode_utf8-injective [] [] same = refl
encode_utf8-injective [] (d ∷ ds) same =
    let read = ap decode_one same ∙ decode_one-utf8 d (encode_utf8 ds) in
    unfold decode_one in cc read
encode_utf8-injective (c ∷ cs) [] same =
    let read = ap decode_one (sym same) ∙ decode_one-utf8 c (encode_utf8 cs) in
    unfold decode_one in cc read
encode_utf8-injective (c ∷ cs) (d ∷ ds) same =
    let read = some-injective _ _ (
      sym (decode_one-utf8 c (encode_utf8 cs))
      ∙ ap decode_one same
      ∙ decode_one-utf8 d (encode_utf8 ds)) in
    let rest = encode_utf8-injective cs ds (ap (λ (p : ℕ × List ℕ). p.1) read) in
    ap₂ ◌∷◌ (ap (λ (p : ℕ × List ℕ). p.0) read) rest

-- The digits at the front, after those that made `acc`.
unfoldable pub read_digits : ℕ → List ℕ → ℕ × List ℕ
read_digits acc [] = (acc, [])
read_digits acc (c ∷ cs) =
    if between 48 57 c then read_digits (acc * 10 + (c - 48)) cs else (acc, c ∷ cs)

read_digits-decimal_from :
    (fuel n : ℕ) (out rest : List ℕ)
    → n ≤ fuel
    → read_digits 0 (decimal_from fuel n out ++ rest) ≡ read_digits n (out ++ rest)
unfolding read_digits decimal_from
read_digits-decimal_from zero n out rest enough = ground (arith, enough)
read_digits-decimal_from (suc fuel) n out rest enough = elim (Bool-cases (ltb n 10)) [
  | inl one ↦ rw one (ground arith)
  | inr more ↦ rw more (
      read_digits-decimal_from fuel (n / 10) ((48 + n % 10) ∷ out) rest (ground arith)
      ∙ ground arith)
]

-- What follows a number starts with no digit.
unfoldable pub stops : List ℕ → Bool
stops [] = true
stops (c ∷ cs) = not (between 48 57 c)

read_digits-stops : (n : ℕ) (rest : List ℕ) → stops rest ≡ true → read_digits n rest ≡ (n, rest)
unfolding read_digits stops
read_digits-stops n [] stop = refl
read_digits-stops n (c ∷ cs) stop = ground arith

-- `n` rounds write all digits of `n`, so that they can be read back.
pub read_digits-decimal :
    (n : ℕ) (rest : List ℕ) → stops rest ≡ true → read_digits 0 (decimal n ++ rest) ≡ (n, rest)
unfolding decimal
read_digits-decimal n rest stop =
    read_digits-decimal_from n n [] rest (omega arith) ∙ read_digits-stops n rest stop

pub decimal-injective :
    (n m : ℕ) (r s : List ℕ)
    → stops r ≡ true
    → stops s ≡ true
    → decimal n ++ r ≡ decimal m ++ s
    → (n ≡ m) × (r ≡ s)
decimal-injective n m r s stop_r stop_s same =
    let read =
      sym (read_digits-decimal n r stop_r)
      ∙ ap (read_digits 0) same
      ∙ read_digits-decimal m s stop_s in
    (ap (λ (p : ℕ × List ℕ). p.0) read, ap (λ (p : ℕ × List ℕ). p.1) read)

decimal_from-head :
    (fuel n : ℕ) (out : List ℕ)
    → (c : ℕ) × (cs : List ℕ) × (decimal_from fuel n out ≡ c ∷ cs) × (48 ≤ c) × (c ≤ 57)
unfolding decimal_from
decimal_from-head zero n out = (48 + n % 10, out, refl, omega arith, omega arith)
decimal_from-head (suc fuel) n out = elim (Bool-cases (ltb n 10)) [
  | inl one ↦ rw one (48 + n % 10, out, refl, omega arith, omega arith)
  | inr more ↦ rw more (decimal_from-head fuel (n / 10) ((48 + n % 10) ∷ out))
]

pub decimal-head : (n : ℕ) → (c : ℕ) × (cs : List ℕ) × (decimal n ≡ c ∷ cs) × (48 ≤ c) × (c ≤ 57)
unfolding decimal
decimal-head n = decimal_from-head n n []
