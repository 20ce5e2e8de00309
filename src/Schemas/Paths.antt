-- ===== src/Schemas/Paths.antt =====
-- The file of each contract, and that _SCHEMAS names each once.
use locus_mesh.Base.{
  ap, subst, contains, String, ◌≡◌, refl, inl, inr, List, [], ◌∷◌, map, All, In, Distinct,
  string_eq, all_distinct, all_distinct_iff,
}
use locus_mesh.Schemas.{
  Contract, execution_intent, evidence_level, fabric_candidate_observation, fabric_observation,
  peer_manifest, topology_edge, topology_snapshot, route_plan, hop_receipt, route_attestation,
  admission_policy, admission_decision, schemas, schema_file,
}

-- The file of each contract, as docs/runbook.md lists them.
abbrev pub file_of : Contract → String
file_of execution_intent = "execution-intent.schema.json"
file_of evidence_level = "evidence-level.schema.json"
file_of fabric_candidate_observation = "fabric-candidate-observation.schema.json"
file_of fabric_observation = "fabric-observation.schema.json"
file_of peer_manifest = "peer-manifest.schema.json"
file_of topology_edge = "topology-edge.schema.json"
file_of topology_snapshot = "topology-snapshot.schema.json"
file_of route_plan = "route-plan.schema.json"
file_of hop_receipt = "hop-receipt.schema.json"
file_of route_attestation = "route-attestation.schema.json"
file_of admission_policy = "admission-policy.schema.json"
file_of admission_decision = "admission-decision.schema.json"

abbrev pub path_of : String × Contract → String
path_of p = schema_file p.0

pub listed : (c : Contract) → (n : String) × In (n, c) schemas × (schema_file n ≡ file_of c)
listed execution_intent = ("execution-intent", inl refl, refl)
listed evidence_level = ("evidence-level", inr (inl refl), refl)
listed fabric_candidate_observation = ("fabric-candidate-observation", inr (inr (inl refl)), refl)
listed fabric_observation = ("fabric-observation", inr (inr (inr (inl refl))), refl)
listed peer_manifest = ("peer-manifest", inr (inr (inr (inr (inl refl)))), refl)
listed topology_edge = ("topology-edge", inr (inr (inr (inr (inr (inl refl))))), refl)
listed topology_snapshot = ("topology-snapshot", inr (inr (inr (inr (inr (inr (inl refl)))))), refl)
listed route_plan = ("route-plan", inr (inr (inr (inr (inr (inr (inr (inl refl))))))), refl)
listed hop_receipt = ("hop-receipt", inr (inr (inr (inr (inr (inr (inr (inr (inl refl)))))))), refl)
listed route_attestation =
    ("route-attestation", inr (inr (inr (inr (inr (inr (inr (inr (inr (inl refl))))))))), refl)
listed admission_policy =
    ("admission-policy", inr (inr (inr (inr (inr (inr (inr (inr (inr (inr (inl refl)))))))))), refl)
listed admission_decision = (
  "admission-decision",
  inr (inr (inr (inr (inr (inr (inr (inr (inr (inr (inr (inl refl))))))))))),
  refl,
)

pub named : All (λ p. file_of p.1 ≡ path_of p) schemas
named = (
  refl,
  (refl, (refl, (refl, (refl, (refl, (refl, (refl, (refl, (refl, (refl, (refl, tt))))))))))),
)

pub schemas-Distinct : Distinct (map path_of schemas)
unfolding all_distinct contains
schemas-Distinct = (all_distinct_iff (map path_of schemas)).0 refl

map-In :
    (p : String × Contract) (pairs : List (String × Contract))
    → In p pairs
    → In (path_of p) (map path_of pairs)
map-In p (q ∷ pairs) (inl same) = inl (ap path_of same)
map-In p (q ∷ pairs) (inr later) = inr (map-In p pairs later)
map-In p [] i = absurd i

pub file_of-In : (c : Contract) → In (file_of c) (map path_of schemas)
file_of-In c =
    let (n, i, same) = listed c in
    subst (λ path. In path (map path_of schemas)) same (map-In (n, c) schemas i)
