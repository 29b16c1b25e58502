-- ===== src/Writer/Reorgs.antt =====
-- The reorgs of pkg/beaconclient/databasewrite.go: of the rows of a slot, the one with the latest
-- block root becomes proposed and the others forked (`transactReorgs`, `writeReorgs`).
pub mod Marks
pub mod Table
pub mod Committed
pub mod Aborted
use ipld_eth_beacon_indexer.Base.{
  ℕ, suc, zero, String, Option, none, some, ltb, ◌==◌, if◌then◌else◌,
}
use ipld_eth_beacon_indexer.Metrics.{increment_reorgs_insert}
use ipld_eth_beacon_indexer.Sql.{
  Error, Driver, Stmt, Reply, failed, uncounted, affected, update_forked, update_proposed,
}
use ipld_eth_beacon_indexer.Action.{Action, ◌>>=◌, ◌>>◌, pure, call, count}
use ipld_eth_beacon_indexer.Writer.KnownGaps.{fatal_error, transact_known_gaps}

-- `updateForked` and `updateProposed` return a count of 0 beside an error.
abbrev pub update_result : Reply → ℕ × Option Error
update_result (failed e) = (0, some e)
update_result (uncounted e) = (0, some e)
update_result (affected n) = (n, none)

module _ {S : Type 0} (db : Driver S) where
  abbrev pub write_reorg_gap : (slot : ℕ) → Option Error → Action S (Unit {0})
  write_reorg_gap slot error = transact_known_gaps db 1 slot slot error "reorg"

  abbrev pub gap_on_error : (slot : ℕ) → Option Error → Action S (Unit {0})
  gap_on_error slot none = pure tt
  gap_on_error slot (some e) = write_reorg_gap slot (some e)

  unfoldable pub updated_rows : Stmt → Action S (ℕ × Option Error)
  updated_rows stmt = do reply ← call (db.tx_exec stmt); pure (update_result reply)

  -- The row that should be proposed is there once, or the slot becomes a known gap.
  unfoldable pub check_proposed_count : (slot proposed_count : ℕ) → Action S (Unit {0})
  check_proposed_count slot proposed_count =
      if proposed_count == 1
      then pure tt
      else if ltb 1 proposed_count
      then write_reorg_gap slot (some "Too many rows were marked as unproposed.")
      else write_reorg_gap slot (some "Unable to find properly proposed row in DB")

  unfoldable pub transact_reorgs : (slot : ℕ) (latest_block_root : String) → Action S (Unit {0})
  transact_reorgs slot latest_block_root = do
    forked ← updated_rows (update_forked slot latest_block_root)
    gap_on_error slot forked.1
    proposed ← updated_rows (update_proposed slot latest_block_root)
    gap_on_error slot proposed.1
    check_proposed_count slot proposed.0
    count (increment_reorgs_insert 1)

  unfoldable pub write_reorgs : (slot : ℕ) (latest_block_root : String) → Action S (Unit {0})
  write_reorgs slot latest_block_root = do
    begin_error ← call db.begin
    fatal_error db begin_error
    transact_reorgs slot latest_block_root
    commit_error ← call db.commit
    fatal_error db commit_error
    call db.rollback
    pure tt
