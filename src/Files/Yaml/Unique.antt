-- ===== src/Files/Yaml/Unique.antt =====
-- Which mappings a YAML file can hold.
use mathlib.Core.List.{append_assoc, append-nil}
use locus_mesh.Base.{
  ◌≡◌, refl, sym, ap, ◌∙◌, subst, ◌↔◌, false, ◌||◌, List, [], ◌∷◌, ◌++◌, arith, All,
}
use locus_mesh.Fail.{ok, bind-eq-ok, guard-eq-ok, ok-injective}
use locus_mesh.Files.Yaml.{Loader, has_key, fill, construct_unique_mapping}

module _ {N O : Type 0} (loader : Loader N O) where
  -- The objects of the nodes, pair by pair.
  pub data Built : List (N × N) → List (O × O) → Type 0 where
    no_pair : Built [] []
    pair :
        {key_node value_node : N} {key value : O} {nodes : List (N × N)} {built : List (O × O)}
        → loader.construct_object key_node ≡ ok key
        → loader.hash key ≡ ok tt
        → loader.construct_object value_node ≡ ok value
        → Built nodes built
        → Built ((key_node, value_node) ∷ nodes) ((key, value) ∷ built)

  -- No two pairs have the same key.
  abbrev pub Unique : List (O × O) → Type 0
  Unique [] = Unit
  Unique (p ∷ built) = All (λ (q : O × O). loader.same p.0 q.0 ≡ false) built × Unique built

  abbrev Free : List (O × O) → List (O × O) → Type 0
  Free result built = All (λ (q : O × O). has_key loader q.0 result ≡ false) built

  has_key-snoc :
      (key : O) (result : List (O × O)) (p : O × O)
      → has_key loader key (result ++ (p ∷ [])) ≡ (has_key loader key result || loader.same p.0 key)
  unfolding has_key
  has_key-snoc key [] (k, v) = ground arith
  has_key-snoc key ((k, v) ∷ result) p = ground (arith, has_key-snoc key result p)

  Free-snoc :
      (result : List (O × O)) (p : O × O) (built : List (O × O))
      → Free (result ++ (p ∷ [])) built
        ↔ (Free result built × All (λ (q : O × O). loader.same p.0 q.0 ≡ false) built)
  Free-snoc result p [] = (λ h. (tt, tt), λ h. tt)
  Free-snoc result p (q ∷ built) =
      let known = has_key-snoc q.0 result p in
      let (to, from) = Free-snoc result p built in
      (
        λ h. ((ground (arith, known, h.0), (to h.1).0), (ground (arith, known, h.0), (to h.1).1)),
        λ h. (ground (arith, known, h.0.0, h.1.0), from (h.0.1, h.1.1)),
      )

  Free-nil : (built : List (O × O)) → Free [] built
  unfolding has_key
  Free-nil [] = tt
  Free-nil (q ∷ built) = (refl, Free-nil built)

  -- The loop adds to what it has the objects of the nodes, if no key is there already or twice.
  record IsFilled (result : List (O × O)) (nodes : List (N × N)) (m : List (O × O)) : Type 0 where
    built : List (O × O)
    joined : result ++ built ≡ m
    objects : Built nodes built
    free : Free result built
    unique : Unique built

  fill_sound :
      (nodes : List (N × N)) (result m : List (O × O))
      → fill loader nodes result ≡ ok m
      → IsFilled result nodes m
  unfolding fill
  fill_sound [] result m h = record {
    built = [];
    joined = append-nil result ∙ ok-injective h;
    objects = no_pair;
    free = tt;
    unique = tt;
  }
  fill_sound ((key_node, value_node) ∷ nodes) result m h =
      let (key, made, h1) = bind-eq-ok (loader.construct_object key_node) _ h in
      let (done, hashed, h2) = bind-eq-ok (loader.hash key) _ h1 in
      let (new, h3) = guard-eq-ok (has_key loader key result) _ _ h2 in
      let (value, made_value, h4) = bind-eq-ok (loader.construct_object value_node) _ h3 in
      let rest = fill_sound nodes (result ++ ((key, value) ∷ [])) m h4 in
      let (free, apart) = (Free-snoc result (key, value) rest.built).0 rest.free in
      record {
        built = (key, value) ∷ rest.built;
        joined = sym (append_assoc result ((key, value) ∷ []) rest.built) ∙ rest.joined;
        objects = pair made hashed made_value rest.objects;
        free = (new, free);
        unique = (apart, rest.unique);
      }

  fill_complete :
      (result : List (O × O)) {nodes : List (N × N)} {built : List (O × O)}
      → Built nodes built
      → Free result built
      → Unique built
      → fill loader nodes result ≡ ok (result ++ built)
  unfolding fill
  fill_complete result no_pair free unique = ap ok (sym (append-nil result))
  fill_complete result
        (pair {key = key} {value = value} {built = built} made hashed made_value objects)
        (new, free) (apart, unique) =
      let next =
        fill_complete (result ++ ((key, value) ∷ [])) objects
          ((Free-snoc result (key, value) built).1 (free, apart)) unique in
      rw (made, hashed, new, made_value)
        (next ∙ ap ok (append_assoc result ((key, value) ∷ []) built))

  -- What a mapping node with merge keys resolved stands for.
  pub record IsMapping (node : List (N × N)) (m : List (O × O)) : Type 0 where
    pub nodes : List (N × N)
    pub flat : loader.flatten_mapping node ≡ ok nodes
    pub objects : Built nodes m
    pub unique : Unique m

  -- A mapping node is read exactly if its merge keys resolve, the objects of its nodes can be made
  -- and its keys be hashed, and no two keys are the same; what is read are all its pairs, in order.
  pub construct_unique_mapping_iff :
      (node : List (N × N)) (m : List (O × O))
      → (construct_unique_mapping loader node ≡ ok m) ↔ IsMapping node m
  unfolding construct_unique_mapping
  construct_unique_mapping_iff node m = (
    λ h.
        let (nodes, flat, filled) =
          bind-eq-ok (loader.flatten_mapping node) (λ nodes. fill loader nodes []) h in
        let f = fill_sound nodes [] m filled in
        record {
          nodes = nodes;
          flat = flat;
          objects = subst (Built nodes) f.joined f.objects;
          unique = subst Unique f.joined f.unique;
        },
    λ i. rw i.flat (fill_complete [] i.objects (Free-nil m) i.unique),
  )
