-- ===== src/Examples/Shared.antt =====
-- Two processes with one file: both verify the attestation, one of them with an error of SQLite first.
use locus_mesh.Base.{ℕ, ◌≡◌, refl, true, false, none, some, List, [], ◌∷◌, map, All, Distinct}
use locus_mesh.Replay.{by_sqlite, has_nonce}
use locus_mesh.Replay.Refinement.{Call, record_call, close_call, promised_run}
use locus_mesh.Replay.Shared.{SharedFile, interleave, file_set, interleave_refines}
use locus_mesh.Attestation.Concurrent.{
  Event, verify_event, close_event, serve_all, admitted_once_shared,
}
use locus_mesh.Examples.Runs.{verification, storage}
use locus_mesh.Examples.Data.{constant, at, policy, attestation}

abbrev new_file : SharedFile
new_file = record { rows = []; connected = λ i. false }

abbrev calls : List (ℕ × Call)
calls =
    (0, record_call none "a" "c" "d")
    ∷ (1, record_call (some (by_sqlite "database is locked")) "a" "c" "d")
    ∷ (0, close_call)
    ∷ (1, record_call none "a" "c" "d")
    ∷ (0, record_call none "b" "c" "d")
    ∷ []

answers : (interleave calls new_file).0 ≡ some true ∷ none ∷ none ∷ some false ∷ some true ∷ []
unfolding storage interleave
answers = refl

interleave_refines_example :
    ((interleave calls new_file).0
      ≡ (promised_run false (map (λ c. c.1) calls) (file_set new_file)).0)
    × (file_set (interleave calls new_file).1
        ≡ (promised_run false (map (λ c. c.1) calls) (file_set new_file)).1)
interleave_refines_example = interleave_refines calls new_file

abbrev events : List (ℕ × Event)
events =
    (1, verify_event (some (by_sqlite "database is locked")) attestation policy (at 500))
    ∷ (0, verify_event none attestation policy (at 500))
    ∷ (0, close_event)
    ∷ (1, verify_event none attestation policy (at 500))
    ∷ (0, verify_event none attestation policy (at 600))
    ∷ []

admitted_nonces : (serve_all constant events new_file).0 ≡ "nonce-0123456789" ∷ []
unfolding verification storage serve_all
admitted_nonces = refl

admitted_once_shared_example :
    let (nonces, last) = serve_all constant events new_file in
    Distinct nonces
    × All (λ n. (has_nonce n new_file.rows ≡ false) × (has_nonce n last.rows ≡ true)) nonces
admitted_once_shared_example = admitted_once_shared constant events new_file
