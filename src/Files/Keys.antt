-- ===== src/Files/Keys.antt =====
-- Which objects are refused for a repeated key.
use locus_mesh.Base.{String, ◌⧺◌, ◌≡◌, ◌⊎◌, List, [], ◌∷◌, In, string_eq}
use locus_mesh.Fail.{ok, err, value_error}
use locus_mesh.Json.{Json}
use locus_mesh.Policy.Digest.{fields_of}
use locus_mesh.Observer.Payload.{reject_duplicate_keys}

-- No key is among the keys before it.
abbrev pub NoRepeat : List String → List (String × Json) → Type 0
NoRepeat seen [] = Unit
NoRepeat seen ((key, value) ∷ pairs) = (¬ In key seen) × NoRepeat (key ∷ seen) pairs

abbrev pub Read : String → List String → List (String × Json) → Type 0
Read label seen pairs =
    (NoRepeat seen pairs × (reject_duplicate_keys label seen pairs ≡ ok (fields_of pairs)))
    ⊎ ((¬ NoRepeat seen pairs)
        × ((key : String) × (reject_duplicate_keys label seen pairs
              ≡ err (value_error (label ⧺ key)))))
