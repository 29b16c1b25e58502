-- ===== src/Sql/Memory.antt =====
-- A server in memory that never fails, on which the definitions run in tests and which meets the
-- hypotheses of Sql/Laws.
use ipld_eth_beacon_indexer.Base.{
  ℕ, ◌≡◌, ◌⊎◌, inl, inr, refl, List, [], ◌∷◌, Any, here, there, Bool-cases, Option-cases, ltb, true,
  some-inj, ap, ◌∙◌, none, some, Option, arith,
}
use ipld_eth_beacon_indexer.Sql.{
  Error, Stmt, Driver, failed, uncounted, affected, scanned, no_rows, Row,
}
use ipld_eth_beacon_indexer.Sql.Tables.{
  Tables, BatchRow, OpenEntry, is_open, batch_rows, max_slot, pick_entry, meaning,
}
use ipld_eth_beacon_indexer.Sql.Laws.{IsPostgres, PicksOpen, AbortsFailed, IsAvailable}

pub record Server : Type 0 where
  pub committed : Tables
  pub working : Tables

abbrev pub no_tables : Tables
no_tables = record {
  slots = [];
  signed_block = [];
  state = [];
  blocks = [];
  gaps = [];
  historic = [];
  default_priority = 0;
}

abbrev pub serving : Tables → Server
serving t = record { committed = t; working = t }

abbrev entry_row : Option BatchRow → Row (ℕ × ℕ)
entry_row none = no_rows
entry_row (some r) = scanned (r.start_slot, r.end_slot)

abbrev pub memory : Driver Server
memory = record {
  db_exec = λ stmt s.
      let r : ℕ × Tables = meaning stmt s.committed in (affected r.0, record s { committed = r.1 });
  query_highest_slot = λ s. (scanned (max_slot s.committed.slots), s);
  begin = λ s. (none, record s { working = s.committed });
  tx_exec = λ stmt s.
      let r : ℕ × Tables = meaning stmt s.working in (affected r.0, record s { working = r.1 });
  tx_get_entry =
      λ table minimum s. (entry_row (pick_entry minimum (batch_rows table s.working)), s);
  commit = λ s. (none, record s { committed = s.working });
  rollback = λ s. (none, record s { working = s.committed });
}

pub tx_affected_lem :
    (stmt : Stmt) (s : Server) (n : ℕ)
    → (memory.tx_exec stmt s).0 ≡ affected n
    → (n ≡ (meaning stmt s.working).0)
      × ((memory.tx_exec stmt s).1.working ≡ (meaning stmt s.working).1)
tx_affected_lem stmt s n h = ground arith

pub db_affected_lem :
    (stmt : Stmt) (s : Server) (n : ℕ)
    → (memory.db_exec stmt s).0 ≡ affected n
    → (n ≡ (meaning stmt s.committed).0)
      × ((memory.db_exec stmt s).1.committed ≡ (meaning stmt s.committed).1)
db_affected_lem stmt s n h = ground arith

pub never_uncounted :
    {A : Type 0} (stmt : Stmt) (s : Server) (e : Error)
    → ((memory.tx_exec stmt s).0 ≡ uncounted e) ⊎ ((memory.db_exec stmt s).0 ≡ uncounted e)
    → A
never_uncounted stmt s e (inl h) = cc
never_uncounted stmt s e (inr h) = cc

pub never_failed :
    {A : Type 0} (stmt : Stmt) (s : Server) (e : Error) → (memory.db_exec stmt s).0 ≡ failed e → A
never_failed stmt s e h = cc

pub commit_fails : {A : Type 0} (s : Server) (e : Error) → (memory.commit s).0 ≡ some e → A
commit_fails s e h = cc

pub highest_slot_lem :
    (s : Server) (m : ℕ)
    → (memory.query_highest_slot s).0 ≡ scanned m
    → m ≡ max_slot s.committed.slots
highest_slot_lem s m h = ground arith

abbrev pub memory-IsPostgres : IsPostgres memory
memory-IsPostgres = record {
  committed = λ s. s.committed;
  working = λ s. s.working;
  tx_affected = tx_affected_lem;
  tx_uncounted = λ stmt s e h. never_uncounted stmt s e (inl h);
  tx_isolated = λ stmt s. refl;
  db_affected = db_affected_lem;
  db_uncounted = λ stmt s e h. never_uncounted stmt s e (inr h);
  db_failed = λ stmt s e h. never_failed stmt s e h;
  highest_slot = highest_slot_lem;
  highest_slot_reads = λ s. refl;
  get_entry_reads = λ table minimum s. (refl, refl);
  begin_ok = λ s h. refl;
  begin_isolated = λ s. refl;
  commit_ok = λ s h. refl;
  commit_failed = λ s e h. commit_fails s e h;
  rollback_isolated = λ s. refl;
}

pub memory-IsAvailable : IsAvailable memory
memory-IsAvailable = record {
  tx_runs = λ stmt s. ((meaning stmt s.working).0, refl);
  db_runs = λ stmt s. ((meaning stmt s.committed).0, refl);
  highest_slot_runs = λ s. (max_slot s.committed.slots, refl);
  begin_runs = λ s. refl;
  commit_runs = λ s. refl;
}

tx_never_failed :
    {A : Type 0} (stmt : Stmt) (s : Server) (e : Error) → (memory.tx_exec stmt s).0 ≡ failed e → A
tx_never_failed stmt s e h = cc

pub memory-AbortsFailed : AbortsFailed memory
memory-AbortsFailed = record {
  Aborted = λ s. ⊥;
  failure_aborts = λ stmt s e h. tx_never_failed stmt s e h;
  aborted_refuses = λ stmt s h. absurd h;
  aborted_commit = λ s h. absurd h;
}

chosen-Open :
    (minimum : ℕ) (r b : BatchRow)
    → is_open minimum r ≡ true
    → some r ≡ some b
    → OpenEntry minimum b.start_slot b.end_slot r
chosen-Open minimum r b is_there same =
    (is_there, (ap (λ x. x.start_slot) (some-inj same), ap (λ x. x.end_slot) (some-inj same)))

pick_entry-Open :
    (minimum : ℕ) (rows : List BatchRow) (b : BatchRow)
    → pick_entry minimum rows ≡ some b
    → Any (OpenEntry minimum b.start_slot b.end_slot) rows
unfolding pick_entry
pick_entry-Open minimum [] b h = cc
pick_entry-Open minimum (r ∷ rows) b h = elim (Bool-cases (is_open minimum r)) [
  | inr shut ↦ there (pick_entry-Open minimum rows b (rw shut at h))
  | inl is_there ↦ elim (Option-cases (pick_entry minimum rows)) [
    | inl nothing ↦ here (chosen-Open minimum r b is_there (rw (is_there, nothing) at h))
    | inr (best, found) ↦ elim (Bool-cases (ltb best.priority r.priority)) [
      | inl later ↦
          there (pick_entry-Open minimum rows b (found ∙ (rw (is_there, found, later) at h)))
      | inr first ↦ here (chosen-Open minimum r b is_there (rw (is_there, found, first) at h))
    ]
  ]
]

entry_row-Open :
    (minimum : ℕ) (rows : List BatchRow) (entry : Option BatchRow) (start end : ℕ)
    → pick_entry minimum rows ≡ entry
    → entry_row entry ≡ scanned (start, end)
    → Any (OpenEntry minimum start end) rows
entry_row-Open minimum rows none start end picks h = cc
entry_row-Open minimum rows (some b) start end picks h =
    let first : b.start_slot ≡ start = cc in
    let last : b.end_slot ≡ end = cc in
    let there_is : Any (OpenEntry minimum b.start_slot b.end_slot) rows =
      pick_entry-Open minimum rows b picks in
    rw (first, last) at there_is

pub memory-PicksOpen : PicksOpen memory memory-IsPostgres
memory-PicksOpen = record {
  picked = λ table minimum s start end h.
      entry_row-Open minimum (batch_rows table s.working)
        (pick_entry minimum (batch_rows table s.working)) start end refl h;
}
