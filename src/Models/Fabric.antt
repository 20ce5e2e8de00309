-- ===== src/Models/Fabric.antt =====
-- FabricCandidateObservation and FabricObservation, the records of an observer without authority.
use locus_mesh.Base.{
  ◌+◌, ◌*◌, String, Bool, false, not, ◌&&◌, ◌||◌, List, [], ◌∷◌, ◌++◌, map, ◌==◌, ◌!=◌, string_eq,
  bool_eq, between, length, leb, ltb, when, contains, all_distinct, if◌then◌else◌,
}
use locus_mesh.Scope.{
  ExecutionIntent, EvidenceLevel, observed, private_mesh, scope_rank, device_only, intent_eq,
  evidence_eq,
}
use locus_mesh.Runtime.{DateTime, is_aware, ◌≤?◌}
use locus_mesh.Models.Patterns.{
  is_digest, is_peer_id, is_provider_id, is_model_id, is_state_label, is_reason_code, bounded,
  after_fields, first_error, flat_errors,
}

pub record FabricCandidateObservation : Type 0 where
  pub schema_version : String
  pub provider : String
  pub candidate_id : String
  pub local_node : Bool
  pub state : String
  pub serving_models : List String
  pub provider_claimed_owner_verified : Bool
  pub observed_scope : ExecutionIntent
  pub evidence_level : EvidenceLevel
  pub admission_authority : Bool
  pub reason_codes : List String

abbrev model_errors : String → List String
model_errors m = when (not (is_model_id m)) "serving_models"

abbrev reason_errors : String → List String
reason_errors r = when (not (is_reason_code r)) "reason_codes"

unfoldable pub candidate_errors : FabricCandidateObservation → List String
unfolding flat_errors
candidate_errors c =
    after_fields
      (when (c.schema_version != "locusmesh.fabric-candidate-observation.v1") "schema_version"
        ++ (when (not (is_provider_id c.provider)) "provider"
            ++ (when (not (is_peer_id c.candidate_id)) "candidate_id"
                ++ (when (not (is_state_label c.state)) "state"
                    ++ (when (not (leb (length c.serving_models) 256)) "serving_models"
                        ++ (flat_errors model_errors c.serving_models
                            ++ (when (c.observed_scope == device_only) "observed_scope"
                                ++ (when (c.evidence_level != observed) "evidence_level"
                                    ++ (when c.admission_authority "admission_authority"
                                        ++ flat_errors reason_errors c.reason_codes)))))))))
      (first_error (
        (not (all_distinct c.serving_models), "serving_models must be unique")
        ∷ (not (all_distinct c.reason_codes), "reason_codes must be unique")
        ∷ (
          not (
              contains c.reason_codes "PROVIDER_STATUS_ONLY"
              && contains c.reason_codes "REQUEST_BINDING_MISSING"
              && contains c.reason_codes "POLICY_PIN_MISSING"),
          "observation-only candidates require boundary reason codes",
        )
        ∷ []))

pub record FabricObservation : Type 0 where
  pub schema_version : String
  pub provider : String
  pub provider_version : String
  pub provider_contract : String
  pub source_endpoint : String
  pub projection_digest : String
  pub observed_at : DateTime
  pub expires_at : DateTime
  pub requested_max_scope : ExecutionIntent
  pub observed_scope : ExecutionIntent
  pub within_requested_scope : Bool
  pub admission_authority : Bool
  pub candidates : List FabricCandidateObservation
  pub reason_codes : List String

abbrev pub candidate_ids : List FabricCandidateObservation → List String
candidate_ids = map (λ c. c.candidate_id)

-- any(candidate.provider != self.provider ...), any(candidate.observed_scope != ...)
unfoldable pub foreign : String → List FabricCandidateObservation → Bool
foreign provider [] = false
foreign provider (c ∷ cs) = c.provider != provider || foreign provider cs

unfoldable pub out_of_scope : ExecutionIntent → List FabricCandidateObservation → Bool
out_of_scope scope [] = false
out_of_scope scope (c ∷ cs) = c.observed_scope != scope || out_of_scope scope cs

unfoldable pub observation_errors : FabricObservation → List String
unfolding flat_errors
observation_errors o =
    after_fields
      (when (o.schema_version != "locusmesh.fabric-observation.v1") "schema_version"
        ++ (when (not (is_provider_id o.provider)) "provider"
            ++ (when (not (bounded 1 64 o.provider_version)) "provider_version"
                ++ (when (not (bounded 1 128 o.provider_contract)) "provider_contract"
                    ++ (when (not (bounded 1 512 o.source_endpoint)) "source_endpoint"
                        ++ (when (not (is_digest o.projection_digest)) "projection_digest"
                            ++ (when (not (is_aware o.observed_at)) "observed_at"
                                ++ (when (not (is_aware o.expires_at)) "expires_at"
                                    ++ (when (o.observed_scope == device_only) "observed_scope"
                                        ++ (when o.admission_authority "admission_authority"
                                            ++ (when (not (between 1 256 (length o.candidates)))
                                                  "candidates"
                                                ++ (flat_errors candidate_errors o.candidates
                                                    ++ flat_errors reason_errors
                                                        o.reason_codes))))))))))))
      (first_error (
        (o.expires_at ≤? o.observed_at, "observed_at must be earlier than expires_at")
        ∷ (
          ltb (o.observed_at.instant + 60 * 1000000) o.expires_at.instant,
          "observation lifetime cannot exceed 60 seconds",
        )
        ∷ (
          not (all_distinct (candidate_ids o.candidates)),
          "candidates must contain unique candidate_id values",
        )
        ∷ (foreign o.provider o.candidates, "candidate provider must match observation provider")
        ∷ (
          out_of_scope o.observed_scope o.candidates,
          "candidate scope must match the fabric observation",
        )
        ∷ (not (all_distinct o.reason_codes), "reason_codes must be unique")
        ∷ (
          not (
              contains o.reason_codes (
                if o.within_requested_scope
                then "SCOPE_SIGNAL_WITHIN_MAXIMUM"
                else "SCOPE_SIGNAL_EXCEEDS_MAXIMUM")),
          "reason_codes must explain the scope comparison",
        )
        ∷ (
          not (
              contains o.reason_codes (
                if o.observed_scope == private_mesh
                then "PRIVATE_LAN_STATUS_SIGNAL"
                else "PUBLIC_OR_AMBIGUOUS_STATUS_SIGNAL")),
          "reason_codes must explain the provider scope signal",
        )
        ∷ (
          not (
              o.within_requested_scope
              == leb (scope_rank o.observed_scope) (scope_rank o.requested_max_scope)),
          "within_requested_scope must match the scope lattice",
        )
        ∷ (
          not (contains o.reason_codes "OBSERVATION_ONLY"),
          "reason_codes must preserve the observation-only boundary",
        )
        ∷ []))
