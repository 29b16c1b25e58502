-- ===== src/Sql.antt =====
-- The database as the program sees it: the statements that it sends (the SQL texts of
-- pkg/beaconclient/databasewrite.go, processhistoric.go and processknowngaps.go, each with its
-- arguments), what comes back, and the methods of `sql.Database` and `sql.Tx`
-- (pkg/database/sql/interfaces.go). The server is a parameter: `Driver`.
pub mod Tables
pub mod Laws
pub mod Memory
use ipld_eth_beacon_indexer.Base.{ℕ, ◌≡◌, refl, String, List, Option, none, some}
use ipld_eth_beacon_indexer.Models.{
  DbSlots, DbExecutionPayloadHeader, DbSignedBeaconBlock, DbBeaconState, DbKnownGaps,
}

-- The text of a Go error.
abbrev pub Error : Type 0
Error = String

-- eth_beacon.historic_process and eth_beacon.known_gaps, for the statements that exist for both.
pub data BatchTable : Type 0 where
  historic_process known_gaps : BatchTable

pub data Stmt : Type 0 where
  upsert_slots : DbSlots → Stmt
  upsert_signed_beacon_block : DbSignedBeaconBlock → Stmt
  upsert_signed_beacon_block_with_payload : DbSignedBeaconBlock → DbExecutionPayloadHeader → Stmt
  upsert_beacon_state : DbBeaconState → Stmt
  upsert_blocks : String → List ℕ → Stmt
  update_forked update_proposed : ℕ → String → Stmt
  check_signed_beacon_block check_beacon_state : ℕ → String → Stmt
  query_by_slot : ℕ → Stmt
  upsert_known_gaps : DbKnownGaps → Stmt
  upsert_known_gaps_error : ℕ → ℕ → String → Stmt
  check_kg_single_slot : ℕ → ℕ → Stmt
  check_entry : BatchTable → ℕ → Stmt
  lock_entry : BatchTable → ℕ → ℕ → String → Stmt
  delete_entry : BatchTable → ℕ → ℕ → Stmt
  release_lock : BatchTable → String → Stmt

-- What `Exec` and then `RowsAffected` return: the first fails, only the second fails, or a count.
pub data Reply : Type 0 where
  failed uncounted : Error → Reply
  affected : ℕ → Reply

-- The answer to `QueryRow(...).Scan(...)`: no row (pgx.ErrNoRows), another error, or the columns.
pub data Row (A : Type 0) : Type 0 where
  no_rows : Row A
  scan_failed : Error → Row A
  scanned : A → Row A

-- `S` is the server with the program's session: what is committed, and what an open transaction
-- has written.
pub record Driver (S : Type 0) : Type 0 where
  pub db_exec : Stmt → S → Reply × S
  pub query_highest_slot : S → Row ℕ × S
  pub begin : S → Option Error × S
  pub tx_exec : Stmt → S → Reply × S
  pub tx_get_entry : BatchTable → ℕ → S → Row (ℕ × ℕ) × S
  pub commit : S → Option Error × S
  pub rollback : S → Option Error × S

abbrev pub exec_error : Reply → Option Error
exec_error (failed e) = some e
exec_error (uncounted e) = none
exec_error (affected n) = none

-- `RowsAffected` on its own: of a failed `Exec` the pgx wrapper counts no row.
abbrev pub count_error : Reply → Option Error
count_error (failed e) = none
count_error (uncounted e) = some e
count_error (affected n) = none

abbrev pub rows_affected : Reply → ℕ
rows_affected (failed e) = 0
rows_affected (uncounted e) = 0
rows_affected (affected n) = n

-- To split on a reply and keep the equation.
pub data ReplyIs (r : Reply) : Type 0 where
  is_failed : (e : Error) → r ≡ failed e → ReplyIs r
  is_uncounted : (e : Error) → r ≡ uncounted e → ReplyIs r
  is_affected : (n : ℕ) → r ≡ affected n → ReplyIs r

pub Reply-cases : (r : Reply) → ReplyIs r
Reply-cases (failed e) = is_failed e refl
Reply-cases (uncounted e) = is_uncounted e refl
Reply-cases (affected n) = is_affected n refl

pub data RowIs {A : Type 0} (r : Row A) : Type 0 where
  is_no_rows : r ≡ no_rows → RowIs r
  is_scan_failed : (e : Error) → r ≡ scan_failed e → RowIs r
  is_scanned : (a : A) → r ≡ scanned a → RowIs r

pub Row-cases : {A : Type 0} (r : Row A) → RowIs r
Row-cases no_rows = is_no_rows refl
Row-cases (scan_failed e) = is_scan_failed e refl
Row-cases (scanned a) = is_scanned a refl
