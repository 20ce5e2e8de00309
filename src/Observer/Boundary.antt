-- ===== src/Observer/Boundary.antt =====
-- What an observation may say, and which errors leave the observer.
use locus_mesh.Base.{◌≤◌, ◌≡◌, ◌≢◌, ◌↔◌, true, false, [], All}
use locus_mesh.Scope.{ExecutionIntent, device_only, observed, scope_rank}
use locus_mesh.Runtime.{Runtime, DateTime}
use locus_mesh.Models.Fabric.{
  FabricCandidateObservation, candidate_errors, FabricObservation, observation_errors,
}
use locus_mesh.Observer.Project.{MeshLlmStatusObserver, observed_scope, after_seconds}
use locus_mesh.Observer.Escapes.{Escapes}

-- A candidate within its contract, of the scope of the observation, without authority or evidence.
pub record IsPowerless (scope : ExecutionIntent) (c : FabricCandidateObservation) : Type 0 where
  pub fits : candidate_errors c ≡ []
  pub no_authority : c.admission_authority ≡ false
  pub weakest : c.evidence_level ≡ observed
  pub same_scope : c.observed_scope ≡ scope

-- An observation within its contract, without authority, that is never of the device alone and
-- says truly whether its scope is within the requested one.
pub record IsObservationOnly (observer : MeshLlmStatusObserver) (now : DateTime)
    (o : FabricObservation) : Type 0 where
  pub fits : observation_errors o ≡ []
  pub no_authority : o.admission_authority ≡ false
  pub candidates : All (IsPowerless o.observed_scope) o.candidates
  pub meshed : o.observed_scope ≢ device_only
  pub within :
      (o.within_requested_scope ≡ true)
      ↔ (scope_rank o.observed_scope ≤ scope_rank observer.requested_max_scope)
  pub began : o.observed_at ≡ now
  pub ends : o.expires_at ≡ after_seconds observer.ttl_seconds now
