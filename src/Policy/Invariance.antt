-- ===== src/Policy/Invariance.antt =====
-- A topology and a policy have one digest, in whatever order their members are listed.
use mathlib.Core.List.{Permᴰ, map-id}
use locus_mesh.Base.{
  ◌≡◌, refl, sym, ◌≢◌, inl, inr, Bool, List, [], ◌∷◌, map, arith, All, In, Distinct,
  all_distinct_iff, string_eq, pair_eq, sort_by,
}
use locus_mesh.Scope.{
  ExecutionIntent, EvidenceLevel, device_only, private_mesh, public_mesh, intent_value,
}
use locus_mesh.Runtime.{Runtime}
use locus_mesh.Models.Patterns.{first_error}
use locus_mesh.Models.Topology.{
  PeerManifest, TopologyEdge, TopologySnapshot, AdmissionPolicy, peer_ids, edge_pairs,
  topology_errors,
}
use locus_mesh.Json.{text_lt}
use locus_mesh.Policy.Digest.{
  str_lt, pair_lt, intent_lt, topology_json, topology_digest, policy_json, policy_digest,
}
use locus_mesh.Policy.Order.{
  IsKeyOrder, Differ, Apart, sort_by-perm, str_lt_order, str_lt_total, pair_lt_order, pair_lt_total,
}

-- Items are ordered by a key that orders.
module _ {A K : Type 0} (key : A → K) (key_lt : K → K → Bool) (order : IsKeyOrder key_lt)
    (total : (j k : K) → j ≢ k → Differ key_lt order j k) where
  abbrev by_key : A → A → Bool
  by_key a b = key_lt (key a) (key b)

  by_key_order : IsKeyOrder by_key
  by_key_order = record {
    asym = λ a b. order.asym (key a) (key b);
    trans = λ a b c. order.trans (key a) (key b) (key c);
  }

  not-In-Differ :
      (x : A) (xs : List A) → ¬ In (key x) (map key xs) → All (Differ by_key by_key_order x) xs
  not-In-Differ x [] h = tt
  not-In-Differ x (y ∷ xs) h =
      (total (key x) (key y) (λ e. h (inl (sym e))), not-In-Differ x xs (λ i. h (inr i)))

  Distinct-Apart : (xs : List A) → Distinct (map key xs) → Apart by_key by_key_order xs
  Distinct-Apart [] h = tt
  Distinct-Apart (x ∷ xs) h = (not-In-Differ x xs h.0, Distinct-Apart xs h.1)

  sort_by_key-perm :
      {xs ys : List A} → Permᴰ xs ys → Distinct (map key xs) → sort_by by_key xs ≡ sort_by by_key ys
  sort_by_key-perm {xs} p h = sort_by-perm by_key by_key_order p (Distinct-Apart xs h)

intent_lt_order : IsKeyOrder intent_lt
intent_lt_order = by_key_order intent_value str_lt str_lt_order str_lt_total

intent_lt_total : (i j : ExecutionIntent) → i ≢ j → Differ intent_lt intent_lt_order i j
unfolding text_lt
intent_lt_total device_only device_only h = absurd (h refl)
intent_lt_total device_only private_mesh h = inl refl
intent_lt_total device_only public_mesh h = inl refl
intent_lt_total private_mesh device_only h = inr refl
intent_lt_total private_mesh private_mesh h = absurd (h refl)
intent_lt_total private_mesh public_mesh h = inl refl
intent_lt_total public_mesh device_only h = inr refl
intent_lt_total public_mesh private_mesh h = inr refl
intent_lt_total public_mesh public_mesh h = absurd (h refl)

topology_errors-Distinct :
    (t : TopologySnapshot)
    → topology_errors t ≡ []
    → Distinct (peer_ids t.peers) × Distinct (edge_pairs t.edges)
unfolding topology_errors first_error
topology_errors-Distinct t h = (
  (all_distinct_iff (peer_ids t.peers)).0 (ground arith),
  (all_distinct_iff (edge_pairs t.edges)).0 (ground arith),
)

module _ (rt : Runtime) where
  -- A valid topology has the digest of every topology that lists its peers and edges in another
  -- order and is otherwise equal.
  pub topology_digest-perm :
      (t : TopologySnapshot) (peers : List PeerManifest) (edges : List TopologyEdge)
      → topology_errors t ≡ []
      → Permᴰ t.peers peers
      → Permᴰ t.edges edges
      → topology_digest rt t ≡ topology_digest rt (record t { peers = peers; edges = edges })
  unfolding topology_digest topology_json
  topology_digest-perm t peers edges valid p q =
      let (ids, pairs) = topology_errors-Distinct t valid in
      rw
        (
          sort_by_key-perm (λ (m : PeerManifest). m.peer_id) str_lt str_lt_order str_lt_total p ids,
          sort_by_key-perm (λ (e : TopologyEdge). (e.source_peer_id, e.target_peer_id)) pair_lt
              pair_lt_order pair_lt_total q pairs,
        )
        refl

  -- For a policy over a valid topology, with each intent once and one floor for an intent, the digest
  -- stays the same when the intents, the floors, the peers and the edges are listed in another order.
  pub policy_digest-perm :
      (policy : AdmissionPolicy) (intents : List ExecutionIntent)
      (floors : List (ExecutionIntent × EvidenceLevel)) (peers : List PeerManifest)
      (edges : List TopologyEdge)
      → topology_errors policy.topology ≡ []
      → Distinct policy.allowed_intents
      → Distinct (map (λ (f : ExecutionIntent × EvidenceLevel). f.0) policy.minimum_evidence)
      → Permᴰ policy.allowed_intents intents
      → Permᴰ policy.minimum_evidence floors
      → Permᴰ policy.topology.peers peers
      → Permᴰ policy.topology.edges edges
      → policy_digest rt policy
        ≡ policy_digest rt (record policy {
          allowed_intents = intents;
          minimum_evidence = floors;
          topology = record policy.topology { peers = peers; edges = edges };
        })
  unfolding policy_digest policy_json
  policy_digest-perm policy intents floors peers edges valid once keyed p q r t =
      rw
        (
          sort_by_key-perm (λ (i : ExecutionIntent). i) intent_lt intent_lt_order intent_lt_total p
              (rw (map-id policy.allowed_intents) once),
          sort_by_key-perm (λ (f : ExecutionIntent × EvidenceLevel). f.0) intent_lt intent_lt_order
              intent_lt_total q keyed,
          topology_digest-perm policy.topology peers edges valid r t,
        )
        refl
