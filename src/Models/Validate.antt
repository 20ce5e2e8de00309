-- ===== src/Models/Validate.antt =====
-- models.py: `model_validate` of the contracts on JSON data, one field after the other. What a
-- field's type takes beyond its own JSON form (a number in a text, the texts of a datetime) is
-- pydantic's, a parameter. The errors of fields that cannot be read are their names; those of a
-- nested contract are one name.
pub mod Route
pub mod Topology
use locus_mesh.Base.{
  ℕ, String, Bool, true, false, not, Option, none, some, List, [], ◌∷◌, ◌++◌, ◌==◌, string_eq, when,
  contains, if◌then◌else◌,
}
use locus_mesh.Fail.{Result, ok, err, validation_error}
use locus_mesh.Scope.{
  ExecutionIntent, device_only, private_mesh, public_mesh, EvidenceLevel, observed, peer_asserted,
  hardware_attested,
}
use locus_mesh.Runtime.{DateTime}
use locus_mesh.Json.{Json, null, num, str, arr, obj, Items, nil, item, Fields, end, field}
use locus_mesh.Models.Patterns.{validated}

-- The fields read so far, or the names of those that could not be read.
pub data Checked {ℓ} (A : Type ℓ) : Type ℓ where
  good : A → Checked A
  bad : List String → Checked A

infixl 4 ◌⊛◌
abbrev pub ◌⊛◌ {ℓ κ} : {A : Type ℓ} {B : Type κ} → Checked (A → B) → Checked A → Checked B
good f ⊛ good a = good (f a)
good f ⊛ bad ys = bad ys
bad xs ⊛ good a = bad xs
bad xs ⊛ bad ys = bad (xs ++ ys)

-- The loaders leave each key once.
unfoldable pub value_of : String → Fields → Option Json
value_of key end = none
value_of key (field k v fs) = if k == key then some v else value_of key fs

abbrev pub read_as {ℓ} : {A : Type ℓ} → String → Option A → Checked A
read_as key none = bad (key ∷ [])
read_as key (some a) = good a

-- A field without a default, and one with a default.
abbrev pub required {ℓ} : {A : Type ℓ} → (Json → Option A) → String → Option Json → Checked A
required reader key none = bad (key ∷ [])
required reader key (some j) = read_as key (reader j)

abbrev pub defaulted {ℓ} : {A : Type ℓ} → A → (Json → Option A) → String → Option Json → Checked A
defaulted default reader key none = good default
defaulted default reader key (some j) = read_as key (reader j)

-- extra="forbid"
unfoldable pub extras : List String → Fields → List String
unfolding contains
extras known end = []
extras known (field k v fs) = when (not (contains known k)) k ++ extras known fs

abbrev pub text : Json → Option String
text (str s) = some s
text _ = none

unfoldable pub intent_value_of : Json → Option ExecutionIntent
intent_value_of (str s) =
    if s == "device_only"
    then some device_only
    else if s == "private_mesh"
    then some private_mesh
    else if s == "public_mesh"
    then some public_mesh
    else none
intent_value_of _ = none

unfoldable pub evidence_value_of : Json → Option EvidenceLevel
evidence_value_of (str s) =
    if s == "observed"
    then some observed
    else if s == "peer_asserted"
    then some peer_asserted
    else if s == "hardware_attested"
    then some hardware_attested
    else none
evidence_value_of _ = none

-- X | None
abbrev pub nullable {ℓ} : {A : Type ℓ} → (Json → Option A) → Json → Option (Option A)
nullable reader null = some none
nullable reader j = elim (reader j) [ none ↦ none | some a ↦ some (some a) ]

module _ {ℓ} {A : Type ℓ} (reader : Json → Option A) where
  abbrev cons_option : Option A → Option (List A) → Option (List A)
  cons_option (some a) (some rest) = some (a ∷ rest)
  cons_option _ _ = none

  unfoldable pub items_as : Items → Option (List A)
  items_as nil = some []
  items_as (item x xs) = cons_option (reader x) (items_as xs)

  -- tuple[X, ...]
  abbrev pub sequence : Json → Option (List A)
  sequence (arr xs) = items_as xs
  sequence _ = none

-- The fields are read and there is no other one; then come the constraints and the validators.
unfoldable pub modelled {ℓ} : {A : Type ℓ} → (A → List String) → List String → Checked A → Result A
modelled errors [] (good a) = validated errors a
modelled errors (k ∷ extra) (good a) = err (validation_error (k ∷ extra))
modelled errors extra (bad names) = err (validation_error (names ++ extra))

abbrev pub of_result {ℓ} : {A : Type ℓ} → Result A → Option A
of_result (ok a) = some a
of_result (err e) = none

abbrev pub of_object {ℓ} : {A : Type ℓ} → (Fields → Result A) → Json → Result A
of_object read (obj fields) = read fields
of_object read _ = err (validation_error [])

pub record Coercions : Type 0 where
  pub moment : Json → Option DateTime
  pub integer_of : Json → Option ℕ

abbrev pub integer : Coercions → Json → Option ℕ
integer c (num n) = some n
integer c j = c.integer_of j
