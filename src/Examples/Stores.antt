-- ===== src/Examples/Stores.antt =====
-- A store through an error, a repeated nonce and a close, the contract of a decision, and the demo.
use locus_mesh.Base.{Bool, true, false, Option, none, some, ◌≡◌, refl, List, [], ◌∷◌}
use locus_mesh.Scope.{peer_asserted}
use locus_mesh.Policy.Admit.{decision}
use locus_mesh.Replay.{by_directory, SqliteReplayStore, open_store}
use locus_mesh.Replay.Invariant.{IsValid, open_store-IsValid}
use locus_mesh.Replay.Refinement.{
  Call, record_call, close_call, run, promised_run, set_of, run_refines, run-IsValid,
}
use locus_mesh.Attestation.Verify.{attestation_hash, as_verification}
use locus_mesh.Attestation.Contract.{IsSealed, verify_attestation-IsSealed}
use locus_mesh.Attestation.Evidence.{IsEvidenced, verify_attestation-IsEvidenced}
use locus_mesh.Fail.{ok}
use locus_mesh.Demo.{DemoResults, run_demo}
use locus_mesh.Demo.Outcome.{IsShown, run_demo_lem}
use locus_mesh.Examples.Runs.{storage}
use locus_mesh.Examples.Routes.{plan-IsValid, verified, admitted}
use locus_mesh.Examples.Data.{
  constant, constant-IsLawful, at, policy, plan, attestation, zero_digest,
}

abbrev store : SqliteReplayStore
store = open_store false []

abbrev calls : List Call
calls =
    record_call none "a" "c" "d"
    ∷ record_call (some (by_directory "not a directory")) "b" "c" "d"
    ∷ close_call
    ∷ record_call none "a" "c" "d"
    ∷ record_call none "b" "c" "d"
    ∷ []

abbrev answers : List (Option Bool)
answers = some true ∷ none ∷ none ∷ some false ∷ some true ∷ []

promised_answers : (promised_run false calls (set_of store)).0 ≡ answers
unfolding storage promised_run
promised_answers = refl

run_refines_example :
    ((run calls store).0 ≡ (promised_run false calls (set_of store)).0)
    × (set_of (run calls store).1 ≡ (promised_run false calls (set_of store)).1)
run_refines_example = run_refines calls store

run-IsValid_example : IsValid (run calls store).1
run-IsValid_example = run-IsValid calls store (open_store-IsValid false [] tt)

verify_attestation-IsSealed_example :
    IsSealed
      (attestation_hash {S = Unit {0}} constant attestation policy (at 500) none)
      (record (as_verification (decision constant plan policy (at 500)) zero_digest) {
        effective_evidence = some peer_asserted;
      })
verify_attestation-IsSealed_example =
    verify_attestation-IsSealed {S = Unit {0}} constant attestation policy (at 500) none
      constant-IsLawful plan-IsValid refl tt tt _ verified

verify_attestation-IsEvidenced_example :
    IsEvidenced attestation policy
      (record (as_verification (decision constant plan policy (at 500)) zero_digest) {
        effective_evidence = some peer_asserted;
      })
verify_attestation-IsEvidenced_example =
    verify_attestation-IsEvidenced {S = Unit {0}} constant attestation policy (at 500) none tt tt _
      verified admitted

run_demo_lem_example : (r : DemoResults) × (run_demo constant ≡ ok r) × IsShown r
run_demo_lem_example = run_demo_lem constant constant-IsLawful
