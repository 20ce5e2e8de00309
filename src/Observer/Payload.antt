-- ===== src/Observer/Payload.antt =====
-- The readers of a status payload. No reader looks at a number, so the natural ones stand for all.
use locus_mesh.Base.{
  ℕ, ◌+◌, String, ◌⧺◌, Bool, true, false, not, ◌&&◌, Option, none, some, List, [], ◌∷◌, ◌==◌,
  nat_eq, string_eq, codes, between, ltb, contains, all_distinct, map, if◌then◌else◌,
}
use locus_mesh.Fail.{Result, ok, err, type_error, value_error, ◌>>=◌, ◌>>◌, raise_if}
use locus_mesh.Json.{Json, bool, str, arr, obj, Items, nil, item, Fields, end, field}
use locus_mesh.Models.Patterns.{len}

-- value.get(key), where no key is there twice
unfoldable pub get : Fields → String → Option Json
get end key = none
get (field k v fields) key = if k == key then some v else get fields key

-- dict construction that refuses a key which is there; the label is the start of the message
unfoldable pub reject_duplicate_keys : String → List String → List (String × Json) → Result Fields
reject_duplicate_keys label seen [] = ok end
reject_duplicate_keys label seen ((key, value) ∷ pairs) = do
  raise_if (contains seen key) (value_error (label ⧺ key))
  rest ← reject_duplicate_keys label (key ∷ seen) pairs
  ok (field key value rest)

unfoldable pub as_mapping : String → Option Json → Result Fields
as_mapping message (some (obj fields)) = ok fields
as_mapping message _ = err (type_error message)

unfoldable pub mapping : Fields → String → Result Fields
unfolding as_mapping
mapping value key = as_mapping (key ⧺ " must be an object") (get value key)

-- isinstance(item, str) and item and len(item) <= maximum
unfoldable pub as_string : ℕ → String → Option Json → Result String
as_string maximum message (some (str text)) = do
  raise_if (not (between 1 maximum (len text))) (type_error message)
  ok text
as_string maximum message _ = err (type_error message)

unfoldable pub string : Fields → String → ℕ → Result String
unfolding as_string
string value key maximum =
    as_string maximum (key ⧺ " must be a bounded non-empty string") (get value key)

unfoldable pub as_boolean : String → Option Json → Result Bool
as_boolean message (some (bool flag)) = ok flag
as_boolean message _ = err (type_error message)

unfoldable pub boolean : Fields → String → Result Bool
unfolding as_boolean
boolean value key = as_boolean (key ⧺ " must be a boolean") (get value key)

-- str.lower(), on the letters of the states; no other character is lowered to one of these
lower : ℕ → ℕ
lower c = if between b'A' b'Z' c then c + 32 else c

abbrev node_states : List String
node_states = "client" ∷ "standby" ∷ "loading" ∷ "serving" ∷ []

same_codes : List ℕ → List ℕ → Bool
same_codes [] [] = true
same_codes (c ∷ cs) (d ∷ ds) = c == d && same_codes cs ds
same_codes _ _ = false

pub lowered : List String → List ℕ → Option String
unfolding lower same_codes
lowered [] text = none
lowered (s ∷ states) text =
    if same_codes (codes s) (map lower text) then some s else lowered states text

unfoldable pub or_unsupported : String → Option String → Result String
or_unsupported key none = err (value_error (key ⧺ " is not a supported node state"))
or_unsupported key (some state) = ok state

unfoldable pub node_state : Fields → String → Result String
unfolding or_unsupported lowered
node_state value key = do
  text ← string value key 64
  or_unsupported key (lowered node_states (codes text))

-- the members of a list of texts, or none where one is no text of 1 to 512 characters
pub bounded_texts : Items → Option (List String)
bounded_texts nil = some []
bounded_texts (item (str s) items) = elim (bounded_texts items) [
  | none ↦ none
  | some rest ↦ if between 1 512 (len s) then some (s ∷ rest) else none
]
bounded_texts (item _ items) = none

unfoldable pub count : Items → ℕ
count nil = 0
count (item x items) = 1 + count items

unfoldable pub unique_texts : String → Option (List String) → Result (List String)
unique_texts key none = err (type_error (key ⧺ " must contain bounded non-empty strings"))
unique_texts key (some texts) = do
  raise_if (not (all_distinct texts)) (value_error (key ⧺ " must contain unique values"))
  ok texts

unfoldable pub as_models : String → Option Json → Result (List String)
unfolding unique_texts bounded_texts count
as_models key (some (arr items)) = do
  raise_if (ltb 256 (count items)) (type_error (key ⧺ " must be a bounded list"))
  unique_texts key (bounded_texts items)
as_models key _ = err (type_error (key ⧺ " must be a bounded list"))

unfoldable pub models : Fields → String → Result (List String)
unfolding as_models
models value key = as_models key (get value key)
