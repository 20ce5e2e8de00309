-- ===== src/Observer/Unread.antt =====
-- Nothing that the observer does not read can reach an observation.
use locus_mesh.Base.{String, ◌≡◌, Option, some, List, [], ◌∷◌, All}
use locus_mesh.Runtime.{Runtime}
use locus_mesh.Json.{Json, arr, obj, Items, nil, item, Fields}
use locus_mesh.Observer.Payload.{get}

abbrev pub AgreeOn : List String → Fields → Fields → Type 0
AgreeOn keys p q = All (λ key. get p key ≡ get q key) keys

abbrev pub status_keys : List String
status_keys =
    "version" ∷ "node_id" ∷ "node_state" ∷ "serving_models" ∷ "mesh_discovery_mode"
    ∷ "discovery_scope" ∷ "discovery_source" ∷ "nostr_discovery" ∷ "publication_state" ∷ []

abbrev pub peer_keys : List String
peer_keys = "id" ∷ "state" ∷ "serving_models" ∷ []

-- Of an owner only `verified` is read: two owners are objects that agree on it, or the same.
pub data SameOwner : Option Json → Option Json → Type 0 where
  same_verified :
      {p q : Fields} → get p "verified" ≡ get q "verified" → SameOwner (some (obj p)) (some (obj q))
  same_owner : {o : Option Json} → SameOwner o o

-- Peer by peer, what is read is the same.
pub data SamePeers : Items → Items → Type 0 where
  none_left : SamePeers nil nil
  next_peer :
      {p q : Fields} {ps qs : Items}
      → AgreeOn peer_keys p q
      → SameOwner (get p "owner") (get q "owner")
      → SamePeers ps qs
      → SamePeers (item (obj p) ps) (item (obj q) qs)

-- Two payloads that differ at most in what the observer does not read.
pub record IsSameStatus (p q : Fields) : Type 0 where
  pub fields : AgreeOn status_keys p q
  pub owner : SameOwner (get p "owner") (get q "owner")
  pub left_peers : Items
  pub right_peers : Items
  pub left_listed : get p "peers" ≡ some (arr left_peers)
  pub right_listed : get q "peers" ≡ some (arr right_peers)
  pub peers : SamePeers left_peers right_peers
