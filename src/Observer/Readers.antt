-- ===== src/Observer/Readers.antt =====
-- The readers of the observer return or raise one of the errors that `observe` catches.
use locus_mesh.Base.{
  ℕ, String, ◌≡◌, refl, inl, inr, Bool, true, false, Option, none, some, List, [], Bool-cases,
  is_empty, is_empty_iff,
}
use locus_mesh.Fail.{
  Exn, value_error, type_error, key_error, validation_error, Result, ok, err, ◌>>=◌, raise_if,
}
use locus_mesh.Json.{Json, null, bool, num, str, arr, obj, Items, nil, item, Fields}
use locus_mesh.Models.Patterns.{validated}
use locus_mesh.Observer.Payload.{
  get, as_mapping, mapping, as_string, string, as_boolean, boolean, or_unsupported, node_state,
  unique_texts, bounded_texts, as_models, models,
}
use locus_mesh.Observer.Project.{
  read_discovery, read_local, read_peer_fields, read_peer, read_peer_list, read_peers,
}

-- The errors that `observe` turns into its own.
pub data IsProjectionError : Exn → Type 0 where
  by_key : {m : String} → IsProjectionError (key_error m)
  by_type : {m : String} → IsProjectionError (type_error m)
  by_value : {m : String} → IsProjectionError (value_error m)
  by_validation : {m : List String} → IsProjectionError (validation_error m)

-- A result that satisfies P, or such an error.
pub data Yields {A : Type 0} (P : A → Type 0) : Result A → Type 0 where
  returns : {a : A} → P a → Yields P (ok a)
  raises : {e : Exn} → IsProjectionError e → Yields P (err e)

abbrev pub Any : {A : Type 0} → A → Type 0
Any a = Unit

pub bind-Yields :
    {A B : Type 0} {P : A → Type 0} {Q : B → Type 0} (m : Result A) (f : A → Result B)
    → Yields P m
    → ((a : A) → P a → Yields Q (f a))
    → Yields Q (m >>= f)
bind-Yields (ok a) f (returns h) k = k a h
bind-Yields (err e) f (raises h) k = raises h

-- a step of which nothing is kept
pub then-Yields :
    {A B : Type 0} {Q : B → Type 0} {m : Result A} (f : A → Result B)
    → Yields Any m
    → ((a : A) → Yields Q (f a))
    → Yields Q (m >>= f)
then-Yields {m = m} f h k = bind-Yields m f h (λ a u. k a)

pub weaken :
    {A : Type 0} {P Q : A → Type 0} {r : Result A} → Yields P r → ((a : A) → P a → Q a) → Yields Q r
weaken (returns h) k = returns (k _ h)
weaken (raises h) k = raises h

guard-Yields : (b : Bool) (e : Exn) → IsProjectionError e → Yields Any (raise_if b e)
guard-Yields true e h = raises h
guard-Yields false e h = returns tt

pub validated-Yields :
    {A : Type 0} (errors : A → List String) (x : A)
    → Yields (λ y. (x ≡ y) × (errors y ≡ [])) (validated errors x)
unfolding validated
validated-Yields errors x = elim (Bool-cases (is_empty (errors x))) [
  | inl e ↦ rw e (returns (refl, (is_empty_iff (errors x)).0 e))
  | inr n ↦ rw n (raises by_validation)
]

as_mapping-Yields : (message : String) (v : Option Json) → Yields Any (as_mapping message v)
unfolding as_mapping
as_mapping-Yields message none = raises by_type
as_mapping-Yields message (some null) = raises by_type
as_mapping-Yields message (some (bool b)) = raises by_type
as_mapping-Yields message (some (num n)) = raises by_type
as_mapping-Yields message (some (str s)) = raises by_type
as_mapping-Yields message (some (arr xs)) = raises by_type
as_mapping-Yields message (some (obj fs)) = returns tt

as_boolean-Yields : (message : String) (v : Option Json) → Yields Any (as_boolean message v)
unfolding as_boolean
as_boolean-Yields message none = raises by_type
as_boolean-Yields message (some null) = raises by_type
as_boolean-Yields message (some (bool b)) = returns tt
as_boolean-Yields message (some (num n)) = raises by_type
as_boolean-Yields message (some (str s)) = raises by_type
as_boolean-Yields message (some (arr xs)) = raises by_type
as_boolean-Yields message (some (obj fs)) = raises by_type

as_string-Yields :
    (maximum : ℕ) (message : String) (v : Option Json) → Yields Any (as_string maximum message v)
unfolding as_string
as_string-Yields maximum message none = raises by_type
as_string-Yields maximum message (some null) = raises by_type
as_string-Yields maximum message (some (bool b)) = raises by_type
as_string-Yields maximum message (some (num n)) = raises by_type
as_string-Yields maximum message (some (str s)) =
    then-Yields _ (guard-Yields _ (type_error message) by_type) (λ u. returns tt)
as_string-Yields maximum message (some (arr xs)) = raises by_type
as_string-Yields maximum message (some (obj fs)) = raises by_type

unique_texts-Yields :
    (key : String) (texts : Option (List String)) → Yields Any (unique_texts key texts)
unfolding unique_texts
unique_texts-Yields key none = raises by_type
unique_texts-Yields key (some texts) =
    then-Yields _ (guard-Yields _ (value_error _) by_value) (λ u. returns tt)

as_models-Yields : (key : String) (v : Option Json) → Yields Any (as_models key v)
unfolding as_models
as_models-Yields key none = raises by_type
as_models-Yields key (some null) = raises by_type
as_models-Yields key (some (bool b)) = raises by_type
as_models-Yields key (some (num n)) = raises by_type
as_models-Yields key (some (str s)) = raises by_type
as_models-Yields key (some (arr xs)) =
    then-Yields _ (guard-Yields _ (type_error _) by_type)
      (λ u. unique_texts-Yields key (bounded_texts xs))
as_models-Yields key (some (obj fs)) = raises by_type

mapping-Yields : (value : Fields) (key : String) → Yields Any (mapping value key)
unfolding mapping
mapping-Yields value key = as_mapping-Yields _ (get value key)

boolean-Yields : (value : Fields) (key : String) → Yields Any (boolean value key)
unfolding boolean
boolean-Yields value key = as_boolean-Yields _ (get value key)

string-Yields : (value : Fields) (key : String) (n : ℕ) → Yields Any (string value key n)
unfolding string
string-Yields value key n = as_string-Yields n _ (get value key)

models-Yields : (value : Fields) (key : String) → Yields Any (models value key)
unfolding models
models-Yields value key = as_models-Yields key (get value key)

or_unsupported-Yields : (key : String) (s : Option String) → Yields Any (or_unsupported key s)
unfolding or_unsupported
or_unsupported-Yields key none = raises by_value
or_unsupported-Yields key (some s) = returns tt

node_state-Yields : (value : Fields) (key : String) → Yields Any (node_state value key)
unfolding node_state
node_state-Yields value key =
    then-Yields _ (string-Yields value key 64) (λ text. or_unsupported-Yields key _)

pub read_discovery-Yields : (payload : Fields) → Yields Any (read_discovery payload)
unfolding read_discovery
read_discovery-Yields payload =
    then-Yields _ (string-Yields payload "mesh_discovery_mode" 64) λ mode.
      then-Yields _ (string-Yields payload "discovery_scope" 64) λ scope.
        then-Yields _ (string-Yields payload "discovery_source" 128) λ source.
          then-Yields _ (boolean-Yields payload "nostr_discovery") λ nostr.
            then-Yields _ (string-Yields payload "publication_state" 64) λ publication. returns tt

pub read_local-Yields : (payload : Fields) → Yields Any (read_local payload)
unfolding read_local
read_local-Yields payload = then-Yields _ (string-Yields payload "version" 64) λ version.
    then-Yields _ (string-Yields payload "node_id" 128) λ local_id.
      then-Yields _ (node_state-Yields payload "node_state") λ state.
        then-Yields _ (models-Yields payload "serving_models") λ serving.
          then-Yields _ (mapping-Yields payload "owner")
            λ owner. then-Yields _ (boolean-Yields owner "verified") λ claimed. returns tt

read_peer-Yields : (peer : Json) → Yields Any (read_peer peer)
unfolding read_peer read_peer_fields
read_peer-Yields (obj peer) = then-Yields _ (mapping-Yields peer "owner") λ owner.
    then-Yields _ (string-Yields peer "id" 128) λ peer_id.
      then-Yields _ (node_state-Yields peer "state") λ state.
        then-Yields _ (models-Yields peer "serving_models")
          λ serving. then-Yields _ (boolean-Yields owner "verified") λ claimed. returns tt
read_peer-Yields null = raises by_type
read_peer-Yields (bool b) = raises by_type
read_peer-Yields (num n) = raises by_type
read_peer-Yields (str s) = raises by_type
read_peer-Yields (arr xs) = raises by_type

read_peer_list-Yields : (peers : Items) → Yields Any (read_peer_list peers)
unfolding read_peer_list
read_peer_list-Yields nil = returns tt
read_peer_list-Yields (item peer peers) =
    then-Yields _ (read_peer-Yields peer)
      λ first. then-Yields _ (read_peer_list-Yields peers) λ rest. returns tt

pub read_peers-Yields : (v : Option Json) → Yields Any (read_peers v)
unfolding read_peers
read_peers-Yields none = raises by_type
read_peers-Yields (some null) = raises by_type
read_peers-Yields (some (bool b)) = raises by_type
read_peers-Yields (some (num n)) = raises by_type
read_peers-Yields (some (str s)) = raises by_type
read_peers-Yields (some (arr peers)) =
    then-Yields _ (guard-Yields _ (value_error _) by_value) (λ u. read_peer_list-Yields peers)
read_peers-Yields (some (obj fs)) = raises by_type
