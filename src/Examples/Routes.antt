-- ===== src/Examples/Routes.antt =====
-- Admission, building and verification of the two-hop route.
use locus_mesh.Base.{◌≡◌, refl, true, none, some}
use locus_mesh.Fail.{ok}
use locus_mesh.Policy.Total.{IsValidPlan}
use locus_mesh.Policy.Admit.{decision}
use locus_mesh.Attestation.Build.{build_attestation}
use locus_mesh.Attestation.Verify.{verify_attestation, as_verification}
use locus_mesh.Scope.{peer_asserted}
use locus_mesh.Attestation.Returns.{IsValidPolicy}
use locus_mesh.Examples.Runs.{contracts, plan_admission, building, verification}
use locus_mesh.Examples.Data.{constant, at, plan, policy, attestation, signers, zero_digest}

pub plan-IsValid : IsValidPlan plan
unfolding contracts
plan-IsValid = refl

pub policy-IsValid : IsValidPolicy policy
unfolding contracts
policy-IsValid = refl

-- The two-hop plan is admitted.
pub admitted : (decision constant plan policy (at 500)).admitted ≡ true
unfolding plan_admission
admitted = refl

-- What the loop over the hops signs is the attestation that is verified below.
built : build_attestation constant plan policy signers (at 400) none ≡ ok attestation
unfolding building
built = refl

pub verified :
    verify_attestation {S = Unit {0}} constant attestation policy (at 500) none tt
    ≡ ok (
      record (as_verification (decision constant plan policy (at 500)) zero_digest) {
        effective_evidence = some peer_asserted;
      },
      tt,
    )
unfolding verification
verified = refl
