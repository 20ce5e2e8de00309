-- ===== src/Observer/Timeout.antt =====
-- The numbers that the constructor of the observer takes, and the bounds on them.
use locus_mesh.Base.{
  ℕ, suc, ◌*◌, ◌^◌, ◌≤◌, ◌≡◌, ◌↔◌, Bool, true, false, not, ◌&&◌, arith, between, leb,
}
use locus_mesh.Fail.{Result, ok, err, value_error, ◌>>◌, raise_if}

-- An int of Python; `negsuc n` is -(n + 1).
pub data ℤ : Type 0 where
  pos negsuc : ℕ → ℤ

-- A float of Python: `finite n s` is n / 2 ** s, as every finite float is for some n and s.
pub data Float : Type 0 where
  finite : (numerator : ℤ) (scale : ℕ) → Float
  inf minus_inf nan : Float

-- x <= y
unfoldable pub float_leb : Float → Float → Bool
float_leb nan y = false
float_leb x nan = false
float_leb minus_inf y = true
float_leb x inf = true
float_leb inf y = false
float_leb x minus_inf = false
float_leb (finite (pos a) s) (finite (pos b) t) = leb (a * 2 ^ t) (b * 2 ^ s)
float_leb (finite (negsuc a) s) (finite (pos b) t) = true
float_leb (finite (pos a) s) (finite (negsuc b) t) = false
float_leb (finite (negsuc a) s) (finite (negsuc b) t) = leb (suc b * 2 ^ s) (suc a * 2 ^ t)

-- The literals 0.1, which is the float nearest to one tenth, and 30.
abbrev pub tenth : Float
tenth = finite (pos 3602879701896397) 55

abbrev pub thirty : Float
thirty = finite (pos 30) 0

-- 0.1 <= timeout_seconds <= 30
unfoldable pub timely : Float → Bool
unfolding float_leb
timely timeout = float_leb tenth timeout && float_leb timeout thirty

-- 1 <= ttl_seconds <= 60, and the number then
unfoldable pub lifetime : ℤ → Result ℕ
lifetime (pos n) = do
  raise_if (not (between 1 60 n)) (value_error "ttl_seconds must be between 1 and 60")
  ok n
lifetime (negsuc n) = err (value_error "ttl_seconds must be between 1 and 60")

-- A number n / 2 ** s that is not below the float 0.1 and not above 30.
abbrev pub IsTimely : Float → Type 0
IsTimely (finite (pos n) s) = (3602879701896397 * 2 ^ s ≤ n * 2 ^ 55) × (n ≤ 30 * 2 ^ s)
IsTimely _ = ⊥

pub timely_iff : (timeout : Float) → (timely timeout ≡ true) ↔ IsTimely timeout
unfolding timely float_leb
timely_iff (finite (pos n) s) = ground arith
timely_iff (finite (negsuc n) s) = (λ h. cc, λ i. absurd i)
timely_iff inf = (λ h. cc, λ i. absurd i)
timely_iff minus_inf = (λ h. cc, λ i. absurd i)
timely_iff nan = (λ h. cc, λ i. absurd i)

pub lifetime_iff : (ttl : ℤ) (n : ℕ) → (lifetime ttl ≡ ok n) ↔ ((ttl ≡ pos n) × (1 ≤ n) × (n ≤ 60))
unfolding lifetime
lifetime_iff (negsuc m) n = (λ h. cc, λ h. cc)
lifetime_iff (pos m) n = ground arith
