-- ===== src/Files/Yaml.antt =====
-- io.py: `_construct_unique_mapping`. The nodes, the objects that the loader makes of them, their
-- equality and their texts are PyYAML's and Python's.
pub mod Unique
use locus_mesh.Base.{
  String, ◌⧺◌, ◌≡◌, refl, ap, ◌∙◌, ◌↔◌, Bool, true, false, ◌||◌, List, [], ◌∷◌, ◌++◌, arith,
  if◌then◌else◌,
}
use locus_mesh.Fail.{
  Result, ok, err, value_error, ◌>>=◌, ◌>>◌, raise_if, bind-eq-ok, guard-eq-ok, ok-injective,
}

-- The pairs of a mapping node with its merge keys resolved, the object of a node, hash(key), which
-- raises for an unhashable key, the test of two keys, and str(key).
pub record Loader (N O : Type 0) : Type 0 where
  pub flatten_mapping : List (N × N) → Result (List (N × N))
  pub construct_object : N → Result O
  pub hash : O → Result (Unit {0})
  pub same : O → O → Bool
  pub text : O → String

module _ {N O : Type 0} (loader : Loader N O) where
  -- key in result
  unfoldable pub has_key : O → List (O × O) → Bool
  has_key key [] = false
  has_key key ((k, v) ∷ result) = loader.same k key || has_key key result

  -- the loop, from `result` on
  unfoldable pub fill : List (N × N) → List (O × O) → Result (List (O × O))
  unfolding has_key
  fill [] result = ok result
  fill ((key_node, value_node) ∷ nodes) result = do
    key ← loader.construct_object key_node
    hashed ← loader.hash key
    raise_if (has_key key result) (value_error ("duplicate key: " ⧺ loader.text key))
    value ← loader.construct_object value_node
    fill nodes (result ++ ((key, value) ∷ []))

  unfoldable pub construct_unique_mapping : List (N × N) → Result (List (O × O))
  unfolding fill
  construct_unique_mapping node = do nodes ← loader.flatten_mapping node; fill nodes []
