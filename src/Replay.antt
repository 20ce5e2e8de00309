-- ===== src/Replay.antt =====
-- ports.py's ReplayStore and replay.py's SQLiteReplayStore. A table is the list of its rows; the
-- environment decides whether a call fails, so `record_if_new` is handed the failure.
pub mod Laws
pub mod Invariant
pub mod Refinement
pub mod Shared
use locus_mesh.Base.{
  String, Bool, true, false, Option, none, some, List, [], ◌∷◌, ◌++◌, ◌==◌, string_eq, ◌||◌,
  if◌then◌else◌,
}
use locus_mesh.Fail.{Exn, os_error, sqlite_error, Result, ok, err}

-- nonce, request_commitment and attestation_digest, and the state before and after the call
pub record ReplayStore (S : Type 0) : Type 0 where
  pub record_if_new : String → String → String → S → Result (Bool × S)

pub record Row : Type 0 where
  pub nonce : String
  pub request_commitment : String
  pub attestation_digest : String

-- `memory` is the path ":memory:", whose table lives as long as the connection.
pub record SqliteReplayStore : Type 0 where
  pub memory : Bool
  pub connected : Bool
  pub rows : List Row

abbrev pub open_store : Bool → List Row → SqliteReplayStore
open_store memory rows = record { memory = memory; connected = false; rows = rows }

-- CREATE TABLE IF NOT EXISTS keeps the rows of a file
pub connect : SqliteReplayStore → SqliteReplayStore
connect s =
    if s.connected then s else record s { connected = true; rows = if s.memory then [] else s.rows }

pub has_nonce : String → List Row → Bool
has_nonce nonce [] = false
has_nonce nonce (row ∷ rows) = row.nonce == nonce || has_nonce nonce rows

-- INSERT OR IGNORE, and rowcount == 1
pub insert_or_ignore : Row → SqliteReplayStore → Bool × SqliteReplayStore
unfolding has_nonce
insert_or_ignore row s =
    if has_nonce row.nonce s.rows
    then (false, s)
    else (true, record s { rows = s.rows ++ (row ∷ []) })

abbrev pub row_of : String → String → String → Row
row_of nonce commitment digest = record {
  nonce = nonce;
  request_commitment = commitment;
  attestation_digest = digest;
}

-- Why a call fails: the store is not open, and `_connect` cannot make the directory of its file, or
-- SQLite raises an error.
pub data StoreFault : Type 0 where
  by_directory by_sqlite : String → StoreFault

pub store_error : StoreFault → Exn
store_error (by_directory m) = os_error m
store_error (by_sqlite m) = sqlite_error m

-- `fault` is the failure of this call, if it fails.
unfoldable pub record_if_new :
    Option StoreFault
    → String
    → String
    → String
    → SqliteReplayStore
    → Result (Bool × SqliteReplayStore)
unfolding connect insert_or_ignore store_error
record_if_new (some fault) nonce commitment digest s = err (store_error fault)
record_if_new none nonce commitment digest s =
    ok (insert_or_ignore (row_of nonce commitment digest) (connect s))

unfoldable pub close : SqliteReplayStore → SqliteReplayStore
close s =
    if s.connected
    then record s { connected = false; rows = if s.memory then [] else s.rows }
    else s

unfoldable pub sqlite_port : Option StoreFault → ReplayStore SqliteReplayStore
unfolding record_if_new
sqlite_port fault = record { record_if_new = record_if_new fault }
