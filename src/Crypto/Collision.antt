-- ===== src/Crypto/Collision.antt =====
-- canonical.py sha256_digest: what two values with one digest have in common.
use Prim.Native.Char.{code}
use locus_mesh.Base.{
  ℕ, true, ◌-◌, ◌*◌, ◌+◌, ◌/◌, ◌%◌, ◌<◌, String, ◌⧺◌, ◌≡◌, ◌≢◌, refl, sym, ap, ◌∙◌, ◌⊎◌, inl, inr,
  Bool-cases, List, [], ◌∷◌, arith, All, codes, codes-append, all_below, all_below_sound, ltb, ◌==◌,
  ==_iff, nat_eq, if◌then◌else◌,
}
use locus_mesh.Runtime.{Runtime, IsLawful}
use locus_mesh.Json.{Json, normalize, canonical_json_bytes}
use locus_mesh.Json.Written.{canonical_json_bytes-eq_iff}
use locus_mesh.Crypto.{hex_char, hexdigest, sha256_digest}

unhex : ℕ → ℕ
unhex c = if ltb c 58 then c - 48 else c - 87

-- The bytes that hexadecimal signs stand for.
read_hex : List ℕ → List ℕ
unfolding unhex
read_hex [] = []
read_hex (c ∷ []) = []
read_hex (c ∷ d ∷ cs) = (unhex c * 16 + unhex d) ∷ read_hex cs

unhex_table : all_below 16 (λ n. unhex (code (hex_char n)) == n) ≡ true
unfolding all_below unhex
unhex_table = refl

unhex-hex_char : (n : ℕ) → n < 16 → unhex (code (hex_char n)) ≡ n
unhex-hex_char n h =
    (==_iff _ _).0 (all_below_sound (λ k. unhex (code (hex_char k)) == k) 16 n h unhex_table)

read_hex-hexdigest : (bs : List ℕ) → All (λ b. b < 256) bs → read_hex (codes (hexdigest bs)) ≡ bs
unfolding hexdigest read_hex
read_hex-hexdigest [] h = refl
read_hex-hexdigest (b ∷ bs) h =
    rw
      (
        unhex-hex_char (b / 16) (omega arith),
        unhex-hex_char (b % 16) (omega arith),
        read_hex-hexdigest bs h.1,
      )
      (ap (λ n. n ∷ bs) (omega arith))

abbrev tail_of : List ℕ → List ℕ
tail_of [] = []
tail_of (c ∷ cs) = cs

-- The bytes of a digest, behind the seven signs of its label.
digest_bytes : String → List ℕ
unfolding read_hex
digest_bytes s =
    read_hex (tail_of (tail_of (tail_of (tail_of (tail_of (tail_of (tail_of (codes s))))))))

digest_bytes-digest :
    (bs : List ℕ) → All (λ b. b < 256) bs → digest_bytes ("sha256:" ⧺ hexdigest bs) ≡ bs
unfolding digest_bytes
digest_bytes-digest bs h = rw codes-append (read_hex-hexdigest bs h)

same_or_not : (xs ys : List ℕ) → (xs ≡ ys) ⊎ (xs ≢ ys)
same_or_not [] [] = inl refl
same_or_not [] (y ∷ ys) = inr (λ e. cc e)
same_or_not (x ∷ xs) [] = inr (λ e. cc e)
same_or_not (x ∷ xs) (y ∷ ys) = elim (Bool-cases (x == y)) [
  | inl same ↦ elim (same_or_not xs ys) [
    | inl rest ↦ inl (cc ((==_iff x y).0 same, rest))
    | inr differ ↦ inr (λ e. differ (ap tail_of e))
  ]
  | inr other ↦ inr (λ e. cc (other, (==_iff x y).1 (cc e)))
]

module _ (rt : Runtime) where
  -- Two values whose canonical bytes differ and that SHA-256 does not tell apart.
  pub record Collide (a b : Json) : Type 0 where
    pub differ : canonical_json_bytes a ≢ canonical_json_bytes b
    pub same_hash : rt.sha256 (canonical_json_bytes a) ≡ rt.sha256 (canonical_json_bytes b)

  module _ (lawful : IsLawful rt) where
    -- Values with one digest are the same up to the order of the fields of objects, or they
    -- themselves are a collision of SHA-256.
    pub sha256_digest-eq :
        (a b : Json)
        → sha256_digest rt a ≡ sha256_digest rt b
        → (normalize a ≡ normalize b) ⊎ Collide a b
    unfolding sha256_digest
    sha256_digest-eq a b same =
        let m = canonical_json_bytes a in
        let n = canonical_json_bytes b in
        elim (same_or_not m n) [
          | inl alike ↦ inl ((canonical_json_bytes-eq_iff a b).0 alike)
          | inr differ ↦ inr (record {
            differ = differ;
            same_hash =
                sym (digest_bytes-digest (rt.sha256 m) (lawful.sha256_size m).1)
                ∙ ap digest_bytes same
                ∙ digest_bytes-digest (rt.sha256 n) (lawful.sha256_size n).1;
          })
        ]
