-- ===== src/Replay/Invariant.antt =====
-- nonce TEXT PRIMARY KEY: no nonce has two rows, whatever is called.
use mathlib.Core.Bool.{false≢true}
use locus_mesh.Base.{
  String, ◌≡◌, sym, ◌∙◌, ◌⊎◌, inl, inr, Bool, true, false, List, [], ◌∷◌, ◌++◌, map, arith, In,
  Distinct, Bool-cases, string_eq, eq_iff,
}
use locus_mesh.Replay.{
  Row, SqliteReplayStore, open_store, connect, has_nonce, insert_or_ignore, close,
}

abbrev pub nonces : List Row → List String
nonces = map (λ r. r.nonce)

-- The rows that the next call sees.
abbrev pub IsValid : SqliteReplayStore → Type 0
IsValid s = Distinct (nonces (connect s).rows)

In-has_nonce :
    (nonce : String) (rows : List Row) → In nonce (nonces rows) → has_nonce nonce rows ≡ true
unfolding has_nonce
In-has_nonce nonce [] i = absurd i
In-has_nonce nonce (row ∷ rows) (inl same) = ground (arith, eq_iff row.nonce nonce)
In-has_nonce nonce (row ∷ rows) (inr later) = ground (arith, In-has_nonce nonce rows later)

In-append :
    (a : String) (rows : List Row) (row : Row)
    → In a (nonces (rows ++ (row ∷ [])))
    → In a (nonces rows) ⊎ (row.nonce ≡ a)
In-append a [] row (inl same) = inr same
In-append a [] row (inr later) = absurd later
In-append a (r ∷ rows) row (inl same) = inl (inl same)
In-append a (r ∷ rows) row (inr later) = elim (In-append a rows row later) [
  | inl i ↦ inl (inr i)
  | inr e ↦ inr e
]

Distinct-append :
    (rows : List Row) (row : Row)
    → Distinct (nonces rows)
    → ¬ In row.nonce (nonces rows)
    → Distinct (nonces (rows ++ (row ∷ [])))
Distinct-append [] row d n = ((λ i. i), tt)
Distinct-append (r ∷ rows) row d n = (
  λ i. elim (In-append r.nonce rows row i) [ inl old ↦ d.0 old | inr same ↦ n (inl (sym same)) ],
  Distinct-append rows row d.1 (λ i. n (inr i)),
)

pub connect-IsValid : (s : SqliteReplayStore) → IsValid s → IsValid (connect s)
unfolding connect
connect-IsValid s h = elim (Bool-cases s.connected) [
  | inl yes_open ↦ rw yes_open (rw yes_open at h)
  | inr shut ↦ rw shut (rw shut at h)
]

-- A table that is empty, or a file with each nonce once, is valid when it is opened.
pub open_store-IsValid :
    (memory : Bool) (rows : List Row) → Distinct (nonces rows) → IsValid (open_store memory rows)
unfolding connect
open_store-IsValid true rows d = tt
open_store-IsValid false rows d = d

pub insert_or_ignore-IsValid :
    (row : Row) (s : SqliteReplayStore)
    → s.connected ≡ true
    → IsValid s
    → IsValid (insert_or_ignore row s).1
unfolding connect insert_or_ignore
insert_or_ignore-IsValid row s up valid =
    let distinct : Distinct (nonces s.rows) = rw up at valid in
    elim (Bool-cases (has_nonce row.nonce s.rows)) [
      | inl known ↦ rw (known, up) distinct
      | inr new ↦
          let absent : ¬ In row.nonce (nonces s.rows) =
            λ i. false≢true (sym new ∙ In-has_nonce row.nonce s.rows i) in
          rw (new, up) (Distinct-append s.rows row distinct absent)
    ]

abbrev pub store_of : Bool → Bool → List Row → SqliteReplayStore
store_of memory connected rows = record { memory = memory; connected = connected; rows = rows }

store_of-IsValid :
    (memory connected : Bool) (rows : List Row)
    → IsValid (store_of memory connected rows)
    → IsValid (close (store_of memory connected rows))
unfolding connect close
store_of-IsValid memory false rows valid = valid
store_of-IsValid true true rows valid = tt
store_of-IsValid false true rows valid = valid

-- Closing keeps the rows of a file, and what is in memory is gone.
pub close-IsValid : (s : SqliteReplayStore) → IsValid s → IsValid (close s)
close-IsValid s = store_of-IsValid s.memory s.connected s.rows
