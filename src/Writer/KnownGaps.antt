-- ===== src/Writer/KnownGaps.antt =====
-- The known gaps of pkg/beaconclient/databasewrite.go: a range of slots that were not processed is
-- cut into entries of eth_beacon.known_gaps (`transactKnownGaps`), in a transaction of its own
-- (`writeKnownGaps`), also at start-up (`writeStartUpGaps`) and when an entry fails again
-- (`updateKnownGapErrors`).
pub mod Ranges
pub mod Trace
pub mod Table
pub mod Commit
pub mod Cut
pub mod Total
use ipld_eth_beacon_indexer.Base.{
  ℕ, zero, suc, ◌+◌, ◌/◌, ◌%◌, Option, none, some, Bool, true, false, ltb, leb, ◌==◌, ◌/=◌,
  if◌then◌else◌, String, List, [], ◌∷◌,
}
use ipld_eth_beacon_indexer.Word.{add64, sub64, mul64, rounds}
use ipld_eth_beacon_indexer.Slot.{plus_int}
use ipld_eth_beacon_indexer.Models.{DbKnownGaps}
use ipld_eth_beacon_indexer.Metrics.{
  increment_known_gaps_inserts, increment_known_gaps_reprocess_error,
}
use ipld_eth_beacon_indexer.Sql.{
  Error, Driver, Reply, Row, failed, uncounted, affected, no_rows, scan_failed, scanned,
  upsert_known_gaps, upsert_known_gaps_error,
}
use ipld_eth_beacon_indexer.Action.{Action, ◌>>=◌, ◌>>◌, pure, exit, panics, call, count}

-- The model that is written for the slots from `start` to `end`.
abbrev pub gap_model : String → String → ℕ → ℕ → DbKnownGaps
gap_model message process start end = record {
  start_slot = start;
  end_slot = end;
  checked_out = false;
  reprocessing_error = "";
  entry_error = message;
  entry_process = process;
}

-- `tempStart` and `tempEnd` of round `i`. The loop's index is an int; the products wrap.
abbrev pub chunk_start : ℕ → ℕ → ℕ → ℕ
chunk_start increment start i = plus_int start (mul64 i increment)

abbrev pub chunk_end : ℕ → ℕ → ℕ → ℕ → ℕ → ℕ
chunk_end increment start end chunks i =
    if i + 1 == chunks then end else plus_int start (mul64 (i + 1) increment)

-- The number of rounds of a range that is wider than `increment`, which is not zero.
unfoldable pub chunk_count : ℕ → ℕ → ℕ → ℕ
chunk_count increment start end =
    let total = sub64 end start in
    let chunks = total / increment in if total % increment /= 0 then add64 chunks 1 else chunks

abbrev pub error_message : Option Error → String
error_message none = ""
error_message (some e) = e

module _ {S : Type 0} (db : Driver S) where
  -- Only the error of `Exec` is looked at.
  abbrev pub upsert_reply : Reply → Action S (Unit {0})
  upsert_reply (failed e) = exit
  upsert_reply (uncounted e) = count (increment_known_gaps_inserts 1)
  upsert_reply (affected n) = count (increment_known_gaps_inserts 1)

  unfoldable pub upsert_known_gap : DbKnownGaps → Action S (Unit {0})
  upsert_known_gap model = do
    reply ← call (db.tx_exec (upsert_known_gaps model))
    upsert_reply reply

  -- The rounds from `i` on, with `left` of them to go.
  unfoldable pub insert_chunks :
      (increment start end chunks : ℕ) (message process : String) (left i : ℕ) → Action S (Unit {0})
  insert_chunks increment start end chunks message process zero i = pure tt
  insert_chunks increment start end chunks message process (suc left) i = do
    upsert_known_gap (
        gap_model message process (chunk_start increment start i)
          (chunk_end increment start end chunks i))
    insert_chunks increment start end chunks message process left (i + 1)

  -- A range wider than an increment of zero divides by zero.
  unfoldable pub transact_known_gaps :
      (increment start end : ℕ) (error : Option Error) (process : String) → Action S (Unit {0})
  transact_known_gaps increment start end error process =
      if leb (sub64 end start) increment
      then upsert_known_gap (gap_model (error_message error) process start end)
      else if increment == 0
      then panics
      else let chunks = chunk_count increment start end in
        insert_chunks increment start end chunks (error_message error) process (rounds chunks) 0

  abbrev pub fatal_error : Option Error → Action S (Unit {0})
  fatal_error none = pure tt
  fatal_error (some e) = exit

  -- The deferred rollback runs after a commit too; its error is only logged.
  unfoldable pub write_known_gaps :
      (increment start end : ℕ) (error : Option Error) (process : String) → Action S (Unit {0})
  write_known_gaps increment start end error process = do
    begin_error ← call db.begin
    fatal_error begin_error
    transact_known_gaps increment start end error process
    commit_error ← call db.commit
    fatal_error commit_error
    call db.rollback
    pure tt

  abbrev highest : Row ℕ → Action S ℕ
  highest no_rows = exit
  highest (scan_failed e) = exit
  highest (scanned m) = pure m

  -- The slots between the highest one of the table and the one before the first.
  unfoldable pub write_missing : (increment max_slot last : ℕ) → Action S (Unit {0})
  write_missing increment max_slot last =
      if max_slot /= last
      then if ltb max_slot last
        then if max_slot == 0
          then write_known_gaps increment max_slot last (some "") "startup"
          else write_known_gaps increment (add64 max_slot 1) last (some "") "startup"
        else pure tt
      else pure tt

  -- `firstSlot-1` is a uint64.
  unfoldable pub write_start_up_gaps : (increment first : ℕ) → Action S (Unit {0})
  write_start_up_gaps increment first = do
    row ← call db.query_highest_slot
    max_slot ← highest row
    write_missing increment max_slot (sub64 first 1)

  -- Where another number of rows than one is affected, the error that is returned is the nil of
  -- `RowsAffected`.
  abbrev reprocess_reply : Reply → Action S (Option Error)
  reprocess_reply (failed e) = pure (some e)
  reprocess_reply (uncounted e) = pure (some e)
  reprocess_reply (affected n) =
      if n /= 1
      then (count (increment_known_gaps_reprocess_error 1) >> pure none)
      else (count (increment_known_gaps_reprocess_error 1) >> pure none)

  unfoldable pub update_known_gap_errors : (start end : ℕ) (error : Error) → Action S (Option Error)
  update_known_gap_errors start end error = do
    reply ← call (db.db_exec (upsert_known_gaps_error start end error))
    reprocess_reply reply
