-- ===== src/Replay/Shared.antt =====
-- replay.py: several stores on one file, each with a connection of its own. A connection commits each
-- statement by itself (isolation_level=None) and SQLite runs one INSERT at a time, so the processes
-- on a file act as some sequence of calls, each on the rows that the one before left.
use mathlib.Core.Path.{ap₂, fun_ext}
use locus_mesh.Base.{
  ℕ, ◌≡◌, refl, ap, ◌∙◌, Bool, false, Option, List, [], ◌∷◌, map, ◌==◌, nat_eq, arith, sym,
  if◌then◌else◌,
}
use locus_mesh.Replay.{Row, SqliteReplayStore, connect, has_nonce}
use locus_mesh.Replay.Invariant.{store_of}
use locus_mesh.Replay.Refinement.{
  Call, NonceSet, set_of, perform, promised, promised_run, perform-IsRefined,
}

-- The rows of the file, and which of the stores on it are connected.
pub record SharedFile : Type 0 where
  pub rows : List Row
  pub connected : ℕ → Bool

-- The file as one of the stores has it, and the file after a call of this store.
abbrev pub view : ℕ → SharedFile → SqliteReplayStore
view i file = store_of false (file.connected i) file.rows

abbrev pub write_back : ℕ → SqliteReplayStore → SharedFile → SharedFile
write_back i s file = record {
  rows = s.rows;
  connected = λ j. if j == i then s.connected else file.connected j;
}

unfoldable pub interleave : List (ℕ × Call) → SharedFile → List (Option Bool) × SharedFile
unfolding perform
interleave [] file = ([], file)
interleave ((i, call) ∷ calls) file =
    let (answer, after) = perform call (view i file) in
    let (answers, last) = interleave calls (write_back i after file) in (answer ∷ answers, last)

abbrev pub file_set : SharedFile → NonceSet
file_set file nonce = has_nonce nonce file.rows

pub connect-file :
    (connected : Bool) (rows : List Row) → (connect (store_of false connected rows)).rows ≡ rows
unfolding connect
connect-file connected rows = ground arith

set_of-file : (s : SqliteReplayStore) → s.memory ≡ false → set_of s ≡ (λ n. has_nonce n s.rows)
unfolding connect
set_of-file s file = fun_ext λ nonce. rw file (ground arith)

-- The calls of any number of stores on one file, in any order, answer as if one set of nonces had
-- been asked in this order, and leave the rows of that set.
pub interleave_refines :
    (calls : List (ℕ × Call)) (file : SharedFile)
    → ((interleave calls file).0 ≡ (promised_run false (map (λ c. c.1) calls) (file_set file)).0)
      × (file_set (interleave calls file).1
          ≡ (promised_run false (map (λ c. c.1) calls) (file_set file)).1)
unfolding interleave promised_run
interleave_refines [] file = (refl, refl)
interleave_refines ((i, call) ∷ calls) file =
    let one = perform-IsRefined call (view i file) in
    let after = (perform call (view i file)).1 in
    let (answers, last) = interleave_refines calls (write_back i after file) in
    let seen = set_of-file (view i file) refl in
    let set =
      sym (set_of-file after one.same_path)
      ∙ one.after
      ∙ ap (λ (k : NonceSet). (promised false call k).1) seen in
    let rest = λ (k : NonceSet). promised_run false (map (λ c. c.1) calls) k in
    (
      ap₂ ◌∷◌ (one.answer ∙ ap (λ (k : NonceSet). (promised false call k).0) seen)
          (answers ∙ ap (λ k. (rest k).0) set),
      last ∙ ap (λ k. (rest k).1) set,
    )
