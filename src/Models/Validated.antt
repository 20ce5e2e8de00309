-- ===== src/Models/Validated.antt =====
-- models.py and policy.py: what model_validate returns keeps its contract.
use locus_mesh.Base.{String, ◌≡◌, refl, List, [], ◌∷◌, arith, is_empty, Bool-cases, inl, inr}
use locus_mesh.Fail.{ok}
use locus_mesh.Json.{Json, null, bool, num, str, arr, obj, Fields}
use locus_mesh.Models.Patterns.{validated}
use locus_mesh.Models.Topology.{AdmissionPolicy, policy_errors}
use locus_mesh.Models.Route.{RoutePlan, RouteAttestation, plan_errors, attestation_errors}
use locus_mesh.Models.Validate.{Checked, good, bad, modelled, extras, Coercions}
use locus_mesh.Models.Validate.Route.{plan_names, validate_plan, validate_attestation}
use locus_mesh.Models.Validate.Topology.{validate_policy}

modelled-IsValid :
    {A : Type 0} (errors : A → List String) (extra : List String) (c : Checked A) (x : A)
    → modelled errors extra c ≡ ok x
    → (errors x ≡ []) × (extra ≡ [])
unfolding modelled validated
modelled-IsValid errors [] (good a) x h = elim (Bool-cases (is_empty (errors a))) [
  | inl clean ↦ (ground arith, refl)
  | inr broken ↦ cc (rw broken at h)
]
modelled-IsValid errors (k ∷ extra) (good a) x h = cc h
modelled-IsValid errors [] (bad names) x h = cc h
modelled-IsValid errors (k ∷ extra) (bad names) x h = cc h

-- What reading a contract gives: the contract, kept, from an object with no other field, or a
-- ValidationError.
pub record IsRead {A : Type 0} (errors : A → List String) (known : List String) (j : Json) (x : A)
    : Type 0 where
  pub fields : Fields
  pub object : j ≡ obj fields
  pub kept : errors x ≡ []
  pub closed : extras known fields ≡ []

module _ (c : Coercions) where
  -- What model_validate makes of JSON data is a contract in its constraints, from an object that
  -- has no field but those of the contract.
  pub validate_plan-IsRead :
      (j : Json) (p : RoutePlan) → validate_plan c j ≡ ok p → IsRead plan_errors plan_names j p
  unfolding validate_plan
  validate_plan-IsRead (obj fs) p h =
      let (kept, closed) = modelled-IsValid plan_errors _ _ p h in
      record { fields = fs; object = refl; kept = kept; closed = closed }
  validate_plan-IsRead null p h = cc h
  validate_plan-IsRead (bool b) p h = cc h
  validate_plan-IsRead (num n) p h = cc h
  validate_plan-IsRead (str s) p h = cc h
  validate_plan-IsRead (arr xs) p h = cc h

  pub validate_attestation-IsRead :
      (j : Json) (a : RouteAttestation)
      → validate_attestation c j ≡ ok a
      → IsRead attestation_errors ("schema_version" ∷ "plan" ∷ "receipts" ∷ []) j a
  unfolding validate_attestation
  validate_attestation-IsRead (obj fs) a h =
      let (kept, closed) = modelled-IsValid attestation_errors _ _ a h in
      record { fields = fs; object = refl; kept = kept; closed = closed }
  validate_attestation-IsRead null a h = cc h
  validate_attestation-IsRead (bool b) a h = cc h
  validate_attestation-IsRead (num n) a h = cc h
  validate_attestation-IsRead (str s) a h = cc h
  validate_attestation-IsRead (arr xs) a h = cc h

  pub validate_policy-IsRead :
      (j : Json) (p : AdmissionPolicy)
      → validate_policy c j ≡ ok p
      → IsRead policy_errors
          ("schema_version" ∷ "allowed_intents" ∷ "max_hops" ∷ "minimum_evidence" ∷ "topology" ∷ [])
          j
          p
  unfolding validate_policy
  validate_policy-IsRead (obj fs) p h =
      let (kept, closed) = modelled-IsValid policy_errors _ _ p h in
      record { fields = fs; object = refl; kept = kept; closed = closed }
  validate_policy-IsRead null p h = cc h
  validate_policy-IsRead (bool b) p h = cc h
  validate_policy-IsRead (num n) p h = cc h
  validate_policy-IsRead (str s) p h = cc h
  validate_policy-IsRead (arr xs) p h = cc h
