-- ===== src/Replay/Laws.antt =====
-- The nonce store accepts a nonce once, and keeps what it has.
use locus_mesh.Base.{
  String, ◌≡◌, refl, Bool, true, false, not, ◌||◌, none, List, [], ◌∷◌, ◌++◌, arith, ◌==◌,
  string_eq, eq_iff, Bool-cases, inl, inr,
}
use locus_mesh.Fail.{ok}
use locus_mesh.Replay.{open_store, Row, SqliteReplayStore, connect, has_nonce, record_if_new, close}

has_nonce-append :
    (nonce : String) (rows : List Row) (row : Row)
    → has_nonce nonce (rows ++ (row ∷ [])) ≡ (has_nonce nonce rows || row.nonce == nonce)
unfolding has_nonce
has_nonce-append nonce [] row = ground arith
has_nonce-append nonce (r ∷ rows) row = ground (arith, has_nonce-append nonce rows row)

-- What one call answers and leaves behind, whether the connection was open or not.
pub record Recorded (nonce : String) (s : SqliteReplayStore) (fresh : Bool)
    (after : SqliteReplayStore) : Type 0 where
  pub answer : fresh ≡ not (has_nonce nonce (connect s).rows)
  pub stored :
      (other : String)
      → has_nonce other after.rows ≡ (has_nonce other (connect s).rows || nonce == other)
  pub open_after : after.connected ≡ true
  pub same_path : after.memory ≡ s.memory

pub connect_opens :
    (s : SqliteReplayStore) → ((connect s).connected ≡ true) × ((connect s).memory ≡ s.memory)
unfolding connect
connect_opens s = ground arith

-- Without an error of SQLite a nonce is accepted exactly if it is not in the table; afterwards
-- the table has this nonce and those that it had, and no other.
pub record_if_new_lem :
    (nonce commitment digest : String) (s : SqliteReplayStore)
    → (fresh : Bool) × (after : SqliteReplayStore) × (record_if_new none nonce commitment digest s
        ≡ ok (fresh, after))
      × Recorded nonce s fresh after
unfolding record_if_new
record_if_new_lem nonce commitment digest s = elim (Bool-cases (has_nonce nonce (connect s).rows)) [
  | inl known ↦ rw known (
    false,
    connect s,
    refl,
    record {
      answer = ground (arith, known);
      stored = λ other. ground (arith, known, eq_iff nonce other);
      open_after = (connect_opens s).0;
      same_path = (connect_opens s).1;
    },
  )
  | inr new ↦ rw new (
    true,
    _,
    refl,
    record {
      answer = ground (arith, new);
      stored = λ other. has_nonce-append other (connect s).rows _;
      open_after = (connect_opens s).0;
      same_path = (connect_opens s).1;
    },
  )
]

-- A nonce stays through a connect of an open store, and through the closing of a file.
pub connect_keeps :
    (nonce : String) (s : SqliteReplayStore)
    → s.connected ≡ true
    → has_nonce nonce (connect s).rows ≡ has_nonce nonce s.rows
unfolding connect
connect_keeps nonce s h = rw h

pub close_keeps :
    (nonce : String) (s : SqliteReplayStore)
    → s.memory ≡ false
    → has_nonce nonce (connect (close s)).rows ≡ has_nonce nonce (connect s).rows
unfolding connect close
close_keeps nonce s h = ground arith

-- Connecting to a file shows its rows.
pub connect_open :
    (nonce : String) (rows : List Row)
    → has_nonce nonce (connect (open_store false rows)).rows ≡ has_nonce nonce rows
unfolding connect
connect_open nonce rows = refl

-- A new store in memory has no nonce.
pub empty_memory : (nonce : String) → has_nonce nonce (connect (open_store true [])).rows ≡ false
unfolding connect has_nonce
empty_memory nonce = refl
