-- ===== src/Fail.antt =====
-- Python exceptions as values: the classes that the handlers of cli.py and mesh_llm.py tell apart.
use locus_mesh.Base.{String, ◌≡◌, refl, ap, ◌∙◌, Bool, false, List, arith, if◌then◌else◌}

pub data Exn : Type 0 where
  value_error type_error key_error overflow_error index_error os_error http_error : String → Exn
  validation_error : List String → Exn
  yaml_error sqlite_error fabric_observation_error assertion_error : String → Exn
  -- http.client.HTTPException, which is no OSError, and RecursionError
  http_exception recursion_error : String → Exn

pub data Result {ℓ} (A : Type ℓ) : Type ℓ where
  ok : A → Result A
  err : Exn → Result A

-- An exception leaves the steps that follow it undone.
module _ {ℓ κ} {A : Type ℓ} {B : Type κ} where
  infixl 5 ◌>>=◌
  abbrev pub ◌>>=◌ : Result A → (A → Result B) → Result B
  err e >>= next = err e
  ok a >>= next = next a

module _ {κ} {B : Type κ} where
  infixl 5 ◌>>◌
  abbrev pub ◌>>◌ : Result (Unit {0}) → Result B → Result B
  step >> rest = step >>= λ done. rest

-- if b: raise e
abbrev pub raise_if : Bool → Exn → Result (Unit {0})
raise_if b e = if b then err e else ok tt

-- Inversion of a successful chain.
module _ {ℓ κ} {A : Type ℓ} {B : Type κ} where
  pub bind-eq-ok :
      (step : Result A) (next : A → Result B) {y : B}
      → (step >>= next) ≡ ok y
      → (x : A) × (step ≡ ok x) × (next x ≡ ok y)
  bind-eq-ok (err e) next h = cc
  bind-eq-ok (ok x) next h = (x, refl, h)

pub guard-eq-ok {ℓ} :
    {B : Type ℓ} (b : Bool) (e : Exn) (k : Result B) {x : B}
    → (raise_if b e >> k) ≡ ok x
    → (b ≡ false) × (k ≡ ok x)
guard-eq-ok b e k h = ground arith

pub ok-injective {ℓ} : {A : Type ℓ} {a b : A} → ok a ≡ ok b → a ≡ b
ok-injective h = cc

-- A chain of steps that return returns.
pub bind-returns {ℓ κ} :
    {A : Type ℓ} {B : Type κ} (step : Result A) (next : A → Result B) {x : A}
    → step ≡ ok x
    → (y : B) × (next x ≡ ok y)
    → (y : B) × ((step >>= next) ≡ ok y)
bind-returns step next e (y, h) = (y, ap (λ r. r >>= next) e ∙ h)
