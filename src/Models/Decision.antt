-- ===== src/Models/Decision.antt =====
-- AdmissionDecision, the answer of admission and verification.
use locus_mesh.Base.{
  ℕ, String, Bool, true, false, not, ◌&&◌, ◌||◌, Option, none, some, List, [], ◌∷◌, ◌++◌, ◌==◌,
  ◌!=◌, string_eq, leb, when, is_empty, contains,
}
use locus_mesh.Scope.{ExecutionIntent, EvidenceLevel}
use locus_mesh.Runtime.{DateTime, is_aware}
use locus_mesh.Models.Patterns.{is_digest, after_fields, first_error}

pub data DecisionKind : Type 0 where
  plan_admission attestation_verification : DecisionKind

pub record AdmissionDecision : Type 0 where
  pub schema_version : String
  pub decision_kind : DecisionKind
  pub admitted : Bool
  pub reason_codes : List String
  pub evaluated_at : DateTime
  pub checked_hops : ℕ
  pub route_digest : Option String
  pub attestation_digest : Option String
  pub policy_digest : Option String
  pub topology_digest : Option String
  pub requested_intent : Option ExecutionIntent
  pub effective_scope : Option ExecutionIntent
  pub required_evidence : Option EvidenceLevel
  pub effective_evidence : Option EvidenceLevel

abbrev pub is_none {ℓ} : {A : Type ℓ} → Option A → Bool
is_none none = true
is_none (some _) = false

-- self.reason_codes != ("ADMITTED",)
abbrev only_admitted : List String → Bool
only_admitted (r ∷ []) = r == "ADMITTED"
only_admitted _ = false

abbrev is_verification : DecisionKind → Bool
is_verification plan_admission = false
is_verification attestation_verification = true

abbrev pub optional_digest : Option String → Bool
optional_digest none = true
optional_digest (some s) = is_digest s

unfoldable pub consistency_errors : AdmissionDecision → List String
consistency_errors d = first_error (
    (
      d.admitted && not (only_admitted d.reason_codes),
      "admitted decisions must contain only ADMITTED",
    )
    ∷ (
      d.admitted
          && (is_none d.route_digest
              || is_none d.policy_digest
              || is_none d.topology_digest
              || is_none d.requested_intent),
      "admitted decisions require complete lineage",
    )
    ∷ (
      d.admitted && is_verification d.decision_kind && is_none d.attestation_digest,
      "verified decisions require an attestation digest",
    )
    ∷ (
      not d.admitted && (is_empty d.reason_codes || contains d.reason_codes "ADMITTED"),
      "denied decisions require non-ADMITTED reason codes",
    )
    ∷ (
      not (is_verification d.decision_kind) && not (is_none d.attestation_digest),
      "plan admission cannot carry an attestation digest",
    )
    ∷ [])

unfoldable pub decision_errors : AdmissionDecision → List String
decision_errors d =
    after_fields
      (when (d.schema_version != "locusmesh.admission-decision.v1") "schema_version"
        ++ (when (not (is_aware d.evaluated_at)) "evaluated_at"
            ++ (when (not (leb d.checked_hops 64)) "checked_hops"
                ++ (when (not (optional_digest d.route_digest)) "route_digest"
                    ++ (when (not (optional_digest d.attestation_digest)) "attestation_digest"
                        ++ (when (not (optional_digest d.policy_digest)) "policy_digest"
                            ++ when (not (optional_digest d.topology_digest))
                                "topology_digest"))))))
      (consistency_errors d)
