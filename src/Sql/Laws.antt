-- ===== src/Sql/Laws.antt =====
-- What the program relies on of PostgreSQL, as the hypotheses of the theorems about tables: a
-- statement that succeeds does what its text says, one that fails does nothing, a transaction
-- starts from the committed tables and publishes its own by COMMIT only. Between the BEGIN and the
-- end of a transaction no other session changes the tables that it reads.
use ipld_eth_beacon_indexer.Base.{ℕ, ◌≡◌, none, some, Any}
use ipld_eth_beacon_indexer.Sql.{
  Error, BatchTable, Stmt, Driver, failed, uncounted, affected, scanned,
}
use ipld_eth_beacon_indexer.Sql.Tables.{Tables, OpenEntry, batch_rows, max_slot, meaning}

pub record IsPostgres {S : Type 0} (db : Driver S) : Type 0 where
  -- the tables that every session sees, and those that the open transaction sees
  pub committed : S → Tables
  pub working : S → Tables
  pub tx_affected :
      (stmt : Stmt) (s : S) (n : ℕ)
      → (db.tx_exec stmt s).0 ≡ affected n
      → (n ≡ (meaning stmt (working s)).0)
        × (working (db.tx_exec stmt s).1 ≡ (meaning stmt (working s)).1)
  pub tx_uncounted :
      (stmt : Stmt) (s : S) (e : Error)
      → (db.tx_exec stmt s).0 ≡ uncounted e
      → working (db.tx_exec stmt s).1 ≡ (meaning stmt (working s)).1
  pub tx_isolated : (stmt : Stmt) (s : S) → committed (db.tx_exec stmt s).1 ≡ committed s
  pub db_affected :
      (stmt : Stmt) (s : S) (n : ℕ)
      → (db.db_exec stmt s).0 ≡ affected n
      → (n ≡ (meaning stmt (committed s)).0)
        × (committed (db.db_exec stmt s).1 ≡ (meaning stmt (committed s)).1)
  pub db_uncounted :
      (stmt : Stmt) (s : S) (e : Error)
      → (db.db_exec stmt s).0 ≡ uncounted e
      → committed (db.db_exec stmt s).1 ≡ (meaning stmt (committed s)).1
  pub db_failed :
      (stmt : Stmt) (s : S) (e : Error)
      → (db.db_exec stmt s).0 ≡ failed e
      → committed (db.db_exec stmt s).1 ≡ committed s
  pub highest_slot :
      (s : S) (m : ℕ) → (db.query_highest_slot s).0 ≡ scanned m → m ≡ max_slot (committed s).slots
  pub highest_slot_reads : (s : S) → committed (db.query_highest_slot s).1 ≡ committed s
  pub get_entry_reads :
      (table : BatchTable) (minimum : ℕ) (s : S)
      → (working (db.tx_get_entry table minimum s).1 ≡ working s)
        × (committed (db.tx_get_entry table minimum s).1 ≡ committed s)
  pub begin_ok : (s : S) → (db.begin s).0 ≡ none → working (db.begin s).1 ≡ committed s
  pub begin_isolated : (s : S) → committed (db.begin s).1 ≡ committed s
  pub commit_ok : (s : S) → (db.commit s).0 ≡ none → committed (db.commit s).1 ≡ working s
  pub commit_failed :
      (s : S) (e : Error) → (db.commit s).0 ≡ some e → committed (db.commit s).1 ≡ committed s
  pub rollback_isolated : (s : S) → committed (db.rollback s).1 ≡ committed s

-- The query for an entry returns the range of an open one.
pub record PicksOpen {S : Type 0} (db : Driver S) (laws : IsPostgres db) : Type 0 where
  pub picked :
      (table : BatchTable) (minimum : ℕ) (s : S) (start end : ℕ)
      → (db.tx_get_entry table minimum s).0 ≡ scanned (start, end)
      → Any (OpenEntry minimum start end) (batch_rows table (laws.working s))

-- A statement that fails aborts its transaction: every later one of it is refused, and so is its
-- COMMIT, which PostgreSQL answers with ROLLBACK and pgx reports as an error.
pub record AbortsFailed {S : Type 0} (db : Driver S) : Type 1 where
  pub Aborted : S → Type 0
  pub failure_aborts :
      (stmt : Stmt) (s : S) (e : Error)
      → (db.tx_exec stmt s).0 ≡ failed e
      → Aborted (db.tx_exec stmt s).1
  pub aborted_refuses :
      (stmt : Stmt) (s : S) → Aborted s → (e : Error) × ((db.tx_exec stmt s).0 ≡ failed e)
  pub aborted_commit : (s : S) → Aborted s → (e : Error) × ((db.commit s).0 ≡ some e)

-- No call of the server fails.
pub record IsAvailable {S : Type 0} (db : Driver S) : Type 0 where
  pub tx_runs : (stmt : Stmt) (s : S) → (n : ℕ) × ((db.tx_exec stmt s).0 ≡ affected n)
  pub db_runs : (stmt : Stmt) (s : S) → (n : ℕ) × ((db.db_exec stmt s).0 ≡ affected n)
  pub highest_slot_runs : (s : S) → (m : ℕ) × ((db.query_highest_slot s).0 ≡ scanned m)
  pub begin_runs : (s : S) → (db.begin s).0 ≡ none
  pub commit_runs : (s : S) → (db.commit s).0 ≡ none
