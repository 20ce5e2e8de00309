-- ===== src/Attestation/Concurrent.antt =====
-- attestation.py and replay.py together: processes that verify attestations with stores on one file.
-- A verification calls its store at most once, so a process that reads its inputs earlier and answers
-- later acts as one step, at the time of that call.
use mathlib.Core.Bool.{false≢true}
use locus_mesh.Base.{
  ℕ, String, ◌≡◌, refl, sym, ap, ◌∙◌, inl, inr, Bool, true, false, Option, none, some, List, [],
  ◌∷◌, ◌++◌, arith, All, Distinct, when, Bool-cases, all_of, All-mono, All-when, Distinct-when,
  Distinct-parts, string_eq, eq_iff,
}
use locus_mesh.Fail.{Result, ok, err}
use locus_mesh.Runtime.{Runtime, DateTime}
use locus_mesh.Models.Topology.{AdmissionPolicy}
use locus_mesh.Models.Route.{RouteAttestation}
use locus_mesh.Models.Decision.{AdmissionDecision}
use locus_mesh.Policy.Reasons.{All-concat}
use locus_mesh.Replay.{StoreFault, SqliteReplayStore, has_nonce, record_if_new, close, sqlite_port}
use locus_mesh.Replay.Laws.{Recorded}
use locus_mesh.Replay.Shared.{SharedFile, view, write_back, connect-file}
use locus_mesh.Attestation.Verify.{consult, attestation_hash, verify_attestation}
use locus_mesh.Attestation.Session.{verify_inv, Asked-Recorded}

-- What a process does; `fault` is the failure of the call of the store, if it fails.
pub data Event : Type 0 where
  verify_event :
      (fault : Option StoreFault) (attestation : RouteAttestation) (policy : AdmissionPolicy)
      (now : DateTime)
      → Event
  close_event : Event

served :
    ℕ
    → SharedFile
    → RouteAttestation
    → Result (AdmissionDecision × SqliteReplayStore)
    → List String × SharedFile
served i file attestation (err e) = ([], file)
served i file attestation (ok (d, s)) =
    (when d.admitted attestation.plan.nonce, write_back i s file)

module _ (rt : Runtime) where
  -- The nonce that the event admits, if any, and the file after it.
  unfoldable pub serve : ℕ → Event → SharedFile → List String × SharedFile
  unfolding served
  serve i (verify_event fault attestation policy now) file =
      served i file attestation
        (verify_attestation rt attestation policy now (some (sqlite_port fault)) (view i file))
  serve i close_event file = ([], write_back i (close (view i file)) file)

  unfoldable pub serve_all : List (ℕ × Event) → SharedFile → List String × SharedFile
  unfolding serve
  serve_all [] file = ([], file)
  serve_all ((i, event) ∷ events) file =
      let (here, after) = serve i event file in
      let (later, last) = serve_all events after in (here ++ later, last)

  abbrev Stays : SharedFile → SharedFile → Type 0
  Stays file after = (n : String) → has_nonce n file.rows ≡ true → has_nonce n after.rows ≡ true

  -- A nonce that was not in the file and is now.
  abbrev New : SharedFile → SharedFile → String → Type 0
  New file after n = (has_nonce n file.rows ≡ false) × (has_nonce n after.rows ≡ true)

  record IsServed (file : SharedFile) (nonces : List String) (after : SharedFile) : Type 0 where
    stays : Stays file after
    new : All (New file after) nonces
    once : Distinct nonces

  idle : (file : SharedFile) → IsServed file [] file
  idle file = record { stays = λ n h. h; new = tt; once = tt }

  asked-IsServed :
      (i : ℕ) (file : SharedFile) (nonce : String) (fresh : Bool) (s' : SqliteReplayStore)
      (d : AdmissionDecision)
      → Recorded nonce (view i file) fresh s'
      → (d.admitted ≡ true → fresh ≡ true)
      → IsServed file (when d.admitted nonce) (write_back i s' file)
  asked-IsServed i file nonce fresh s' d recorded only =
      let seen = connect-file (file.connected i) file.rows in
      record {
        stays = λ n h. ground (arith, recorded.stored n, ap (has_nonce n) seen, h);
        new = All-when (New file (write_back i s' file)) d.admitted nonce λ a. (
          ground (arith, recorded.answer, only a, ap (has_nonce nonce) seen),
          ground (arith, recorded.stored nonce, eq_iff nonce nonce),
        );
        once = Distinct-when d.admitted nonce;
      }

  -- A call that raises has no answer.
  asked-Recorded :
      (i : ℕ) (file : SharedFile) (fault : Option StoreFault) (attestation : RouteAttestation)
      (policy : AdmissionPolicy) (now : DateTime) (fresh : Bool) (s' : SqliteReplayStore)
      → consult
          (some (sqlite_port fault))
          attestation.plan.nonce
          attestation.plan.request_commitment
          (attestation_hash rt attestation policy now (some (sqlite_port fault)))
          (view i file)
        ≡ ok (fresh, s')
      → Recorded attestation.plan.nonce (view i file) fresh s'
  unfolding consult sqlite_port record_if_new
  asked-Recorded i file none attestation policy now fresh s' asked =
      Asked-Recorded rt attestation policy now (view i file) s' fresh asked
  asked-Recorded i file (some fault) attestation policy now fresh s' asked = cc asked

  verify-IsServed :
      (i : ℕ) (file : SharedFile) (fault : Option StoreFault) (attestation : RouteAttestation)
      (policy : AdmissionPolicy) (now : DateTime)
      (r : Result (AdmissionDecision × SqliteReplayStore))
      → verify_attestation rt attestation policy now (some (sqlite_port fault)) (view i file) ≡ r
      → let (nonces, after) = served i file attestation r in IsServed file nonces after
  unfolding served
  verify-IsServed i file fault attestation policy now (err e) ran = idle file
  verify-IsServed i file fault attestation policy now (ok (d, s')) ran =
      elim (verify_inv rt attestation policy now (some (sqlite_port fault)) (view i file) s' ran) [
        | inl (denied, same) ↦ rw (denied, same) (record { stays = λ n h. h; new = tt; once = tt })
        | inr (fresh, asked, only) ↦
            asked-IsServed i file attestation.plan.nonce fresh s' d
              (asked-Recorded i file fault attestation policy now fresh s' asked) only
      ]

  serve-IsServed :
      (i : ℕ) (event : Event) (file : SharedFile)
      → let (nonces, after) = serve i event file in IsServed file nonces after
  unfolding serve close
  serve-IsServed i (verify_event fault attestation policy now) file =
      verify-IsServed i file fault attestation policy now _ refl
  serve-IsServed i close_event file = record {
    stays = λ n h. ground (arith, h);
    new = tt;
    once = tt;
  }

  joined :
      (file middle last : SharedFile) (here later : List String)
      → IsServed file here middle
      → IsServed middle later last
      → IsServed file (here ++ later) last
  joined file middle last here later h k = record {
    stays = λ n known. k.stays n (h.stays n known);
    new =
        All-concat (New file last) here later (All-mono here (λ n p. (p.0, k.stays n p.1)) h.new) (
          All-mono later
            (λ n p. (
              elim (Bool-cases (has_nonce n file.rows)) [
                | inl known ↦ absurd (false≢true (sym p.0 ∙ h.stays n known))
                | inr new ↦ new
              ],
              p.1,
            ))
            k.new);
    once =
        Distinct-parts here later h.once k.once
          λ n i j. false≢true (sym (all_of _ later n k.new j).0 ∙ (all_of _ here n h.new i).1);
  }

  serve_all-IsServed :
      (events : List (ℕ × Event)) (file : SharedFile)
      → IsServed file (serve_all events file).0 (serve_all events file).1
  unfolding serve_all
  serve_all-IsServed [] file = idle file
  serve_all-IsServed ((i, event) ∷ events) file =
      let (here, middle) = serve i event file in
      let (later, last) = serve_all events middle in
      joined file middle last here later (serve-IsServed i event file)
        (serve_all-IsServed events middle)

  -- However the verifications and closings of any number of processes on one file interleave, and
  -- whatever calls of SQLite raise, the nonces that are admitted are all different, none was in the
  -- file before, and all are in it afterwards.
  pub admitted_once_shared :
      (events : List (ℕ × Event)) (file : SharedFile)
      → let (nonces, last) = serve_all events file in
        Distinct nonces
        × All (λ n. (has_nonce n file.rows ≡ false) × (has_nonce n last.rows ≡ true)) nonces
  admitted_once_shared events file =
      let all_served = serve_all-IsServed events file in (all_served.once, all_served.new)
