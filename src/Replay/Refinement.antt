-- ===== src/Replay/Refinement.antt =====
-- A store seen by its clients: calls one after the other, and the set of nonces that they act on.
use mathlib.Core.Path.{fun_ext, ap₂}
use locus_mesh.Base.{
  String, ◌≡◌, refl, sym, ap, ◌∙◌, subst, Bool, true, false, not, ◌||◌, Option, none, some, List,
  [], ◌∷◌, ◌==◌, string_eq, if◌then◌else◌,
}
use locus_mesh.Fail.{Result, ok, err, ok-injective}
use locus_mesh.Replay.{
  row_of, Row, StoreFault, SqliteReplayStore, connect, has_nonce, insert_or_ignore, record_if_new,
  close,
}
use locus_mesh.Replay.Laws.{connect_opens, connect_keeps, Recorded, record_if_new_lem}
use locus_mesh.Replay.Invariant.{
  IsValid, store_of, connect-IsValid, insert_or_ignore-IsValid, close-IsValid,
}

-- `fault` is the failure of the call, if it fails.
pub data Call : Type 0 where
  record_call : (fault : Option StoreFault) (nonce commitment digest : String) → Call
  close_call : Call

-- The answer of a call, or none for an error and for a close, and the store after it: an error
-- leaves the table as it was.
answered : SqliteReplayStore → Result (Bool × SqliteReplayStore) → Option Bool × SqliteReplayStore
answered s (ok (fresh, after)) = (some fresh, after)
answered s (err e) = (none, s)

unfoldable pub perform : Call → SqliteReplayStore → Option Bool × SqliteReplayStore
unfolding answered
perform (record_call fault nonce commitment digest) s =
    answered s (record_if_new fault nonce commitment digest s)
perform close_call s = (none, close s)

unfoldable pub run : List Call → SqliteReplayStore → List (Option Bool) × SqliteReplayStore
unfolding perform
run [] s = ([], s)
run (call ∷ calls) s =
    let (answer, after) = perform call s in
    let (answers, last) = run calls after in (answer ∷ answers, last)

-- The promise of the port: a set of nonces, which a call adds to. A set in memory is empty again
-- after a close.
abbrev pub NonceSet : Type 0
NonceSet = String → Bool

unfoldable pub promised : Bool → Call → NonceSet → Option Bool × NonceSet
promised memory (record_call none nonce commitment digest) known =
    (some (not (known nonce)), λ other. known other || nonce == other)
promised memory (record_call (some fault) nonce commitment digest) known = (none, known)
promised memory close_call known = (none, if memory then (λ other. false) else known)

unfoldable pub promised_run : Bool → List Call → NonceSet → List (Option Bool) × NonceSet
unfolding promised
promised_run memory [] known = ([], known)
promised_run memory (call ∷ calls) known =
    let (answer, after) = promised memory call known in
    let (answers, last) = promised_run memory calls after in (answer ∷ answers, last)

-- The set that a store stands for: the nonces of the rows that the next call sees.
abbrev pub set_of : SqliteReplayStore → NonceSet
set_of s nonce = has_nonce nonce (connect s).rows

-- A store on a path, open with its rows or not yet connected.
pub record IsRefined (call : Call) (s : SqliteReplayStore) : Type 0 where
  pub answer : (perform call s).0 ≡ (promised s.memory call (set_of s)).0
  pub after : set_of (perform call s).1 ≡ (promised s.memory call (set_of s)).1
  pub same_path : (perform call s).1.memory ≡ s.memory
  pub keeps : IsValid s → IsValid (perform call s).1

record-IsRefined :
    (fault : Option StoreFault) (nonce commitment digest : String) (s : SqliteReplayStore)
    → IsRefined (record_call fault nonce commitment digest) s
unfolding perform promised record_if_new
record-IsRefined (some fault) nonce commitment digest s = record {
  answer = refl;
  after = refl;
  same_path = refl;
  keeps = λ valid. valid;
}
record-IsRefined none nonce commitment digest s =
    let (fresh, after, made, recorded) = record_if_new_lem nonce commitment digest s in
    let stored = insert_or_ignore (row_of nonce commitment digest) (connect s) in
    let recorded' =
      subst (λ (p : Bool × SqliteReplayStore). Recorded nonce s p.0 p.1) (ok-injective (sym made))
        recorded in
    let up = (connect_opens s).0 in
    record {
      answer = ap some recorded'.answer;
      after =
          fun_ext
            λ other. connect_keeps other stored.1 recorded'.open_after ∙ recorded'.stored other;
      same_path = recorded'.same_path;
      keeps = λ valid.
          insert_or_ignore-IsValid (row_of nonce commitment digest) (connect s) up
            (connect-IsValid s valid);
    }

close-set_of :
    (memory connected : Bool) (rows : List Row)
    → let s = store_of memory connected rows in
      (set_of (close s) ≡ (if memory then (λ other. false) else set_of s))
      × ((close s).memory ≡ memory)
unfolding connect close
close-set_of true false rows = (fun_ext λ other. unfold has_nonce in refl, refl)
close-set_of true true rows = (fun_ext λ other. unfold has_nonce in refl, refl)
close-set_of false false rows = (refl, refl)
close-set_of false true rows = (refl, refl)

pub perform-IsRefined : (call : Call) (s : SqliteReplayStore) → IsRefined call s
unfolding perform promised
perform-IsRefined (record_call fault nonce commitment digest) s =
    record-IsRefined fault nonce commitment digest s
perform-IsRefined close_call s =
    let (same_set, same_path) = close-set_of s.memory s.connected s.rows in
    record { answer = refl; after = same_set; same_path = same_path; keeps = close-IsValid s }

-- From any store, a sequence of calls, some of which may raise an error of SQLite, answers as the
-- promised set of nonces does, and ends in a store that stands for the promised set.
pub run_refines :
    (calls : List Call) (s : SqliteReplayStore)
    → ((run calls s).0 ≡ (promised_run s.memory calls (set_of s)).0)
      × (set_of (run calls s).1 ≡ (promised_run s.memory calls (set_of s)).1)
unfolding run promised_run
run_refines [] s = (refl, refl)
run_refines (call ∷ calls) s =
    let one = perform-IsRefined call s in
    let (answers, last) = run_refines calls (perform call s).1 in
    let moved = λ (memory : Bool) (known : NonceSet). promised_run memory calls known in
    let step =
      ap (λ m. moved m (set_of (perform call s).1)) one.same_path ∙ ap (moved s.memory) one.after in
    (
      ap₂ ◌∷◌ one.answer (answers ∙ ap (λ (p : List (Option Bool) × NonceSet). p.0) step),
      last ∙ ap (λ (p : List (Option Bool) × NonceSet). p.1) step,
    )

-- If no nonce has two rows, none has after any sequence of calls.
pub run-IsValid : (calls : List Call) (s : SqliteReplayStore) → IsValid s → IsValid (run calls s).1
unfolding run
run-IsValid [] s valid = valid
run-IsValid (call ∷ calls) s valid =
    run-IsValid calls (perform call s).1 ((perform-IsRefined call s).keeps valid)
