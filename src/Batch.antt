-- ===== src/Batch.antt =====
-- Batch processing of eth_beacon.historic_process and eth_beacon.known_gaps:
-- pkg/beaconclient/capturehistoric.go, processhistoric.go and processknowngaps.go. Each goroutine is
-- given as one round of its loop; a sleep before the next round changes nothing and is left out.
pub mod Distribute
pub mod Rows
pub mod Removed
pub mod Pipeline
pub mod Errors
pub mod Accounted
pub mod Range
pub mod Entries
use ipld_eth_beacon_indexer.Base.{
  ℕ, zero, suc, ◌+◌, ◌-◌, String, List, [], ◌∷◌, ◌++◌, Option, none, some, Bool, true, false, ltb,
  leb, ◌==◌, ◌&&◌, if◌then◌else◌,
}
use ipld_eth_beacon_indexer.Word.{add64}
use ipld_eth_beacon_indexer.Sql.{
  Error, BatchTable, historic_process, known_gaps, Driver, Reply, Row, failed, uncounted, affected,
  no_rows, scan_failed, scanned, exec_error, rows_affected, check_entry, lock_entry, delete_entry,
  release_lock, check_kg_single_slot,
}
use ipld_eth_beacon_indexer.Metrics.{
  increment_historic_slot_processed, increment_known_gaps_processed,
}
use ipld_eth_beacon_indexer.Server.{Node, decimal}
use ipld_eth_beacon_indexer.Consensus.{Zrnt, Coded, coded, refused}
use ipld_eth_beacon_indexer.Action.{Action, ◌>>=◌, ◌>>◌, pure, call, count}
use ipld_eth_beacon_indexer.Writer.KnownGaps.{write_known_gaps, update_known_gap_errors}
use ipld_eth_beacon_indexer.Writer.Slot.{Ipfs, is_slot_processed}
use ipld_eth_beacon_indexer.ProcessSlot.{SlotProcessingDetails, Schedule}
use ipld_eth_beacon_indexer.ProcessSlot.Store.{SlotResult}
use ipld_eth_beacon_indexer.ProcessSlot.Full.{handle_historic_slot}

pub record SlotsToProcess : Type 0 where
  pub start_slot : ℕ
  pub end_slot : ℕ

pub record BatchHistoricError : Type 0 where
  pub err : Error
  pub err_process : String
  pub slot : ℕ

-- What the distributor sends: on errCh, workCh and processedCh.
pub data Message : Type 0 where
  error_message : BatchHistoricError → Message
  work : ℕ → Message
  processed : SlotsToProcess → Message

-- `for i := start; i <= end; i++` over uint64, on fuel: none where the fuel runs out.
unfoldable pub send_work : (fuel i end : ℕ) → List Message → Option (List Message)
send_work zero i end last = none
send_work (suc fuel) i end last =
    let rest = send_work fuel (add64 i 1) end last in
    if leb i end
    then elim rest [ none ↦ none | some messages ↦ some (work i ∷ messages) ]
    else some last

-- One range of the distributor of `handleBatchProcess`.
unfoldable pub distribute : SlotsToProcess → Option (List Message)
distribute slots =
    let walk =
      send_work (slots.end_slot - slots.start_slot + 2) slots.start_slot slots.end_slot
        (processed slots ∷ []) in
    if ltb slots.end_slot slots.start_slot
    then some (
        error_message (record {
          err = "We received a startSlot where the start was greater than the end.";
          err_process = "RangeOrder";
          slot = slots.start_slot;
        })
        ∷ error_message (record {
          err = "We received a endSlot where the start was greater than the end.";
          err_process = "RangeOrder";
          slot = slots.end_slot;
        })
        ∷ [])
    else if slots.start_slot == slots.end_slot
    then some (work slots.start_slot ∷ processed slots ∷ [])
    else walk

-- What a round of `getBatchProcessRow` does: errors (nil among them) to its list, or a range to
-- slotCh. `begun`: a transaction was begun, and its rollback deferred; of a round that sends one was.
pub data Round : Type 0 where
  again : (begun : Bool) → List (Option Error) → Round
  sent : SlotsToProcess → Round

-- Where a round of the goroutine of `removeRowPostProcess` comes to: the end of the goroutine, the
-- sleep before its next round, or the send of an error to errCh. Nobody receives from that channel,
-- which has no buffer: at a send the goroutine stays for ever, and no later line of it runs.
pub data Removal : Type 0 where
  removed waiting : Removal
  at_send : Error → Removal

module _ {S : Type 0} (db : Driver S) where
  module _ (table : BatchTable) (node : String) where
    abbrev pub after_commit : SlotsToProcess → Option Error → Action S Round
    after_commit slots none = pure (sent slots)
    after_commit slots (some e) = pure (again true (some e ∷ []))

    abbrev pub after_lock : SlotsToProcess → Reply → Action S Round
    after_lock slots (failed e) = pure (again true (some e ∷ []))
    after_lock slots (uncounted e) = pure (again true (some e ∷ []))
    after_lock slots (affected n) =
        if ltb 1 n
        then pure (again true (none ∷ []))
        else if n == 0
        then pure (again true (none ∷ []))
        else (do commit_error ← call db.commit; after_commit slots commit_error)

    abbrev pub after_entry : Row (ℕ × ℕ) → Action S Round
    after_entry no_rows = pure (again true [])
    after_entry (scan_failed e) = pure (again true (some e ∷ []))
    after_entry (scanned (start, end)) = do
      reply ← call (db.tx_exec (lock_entry table start end node))
      after_lock (record { start_slot = start; end_slot = end }) reply

    abbrev pub after_begin : (minimum : ℕ) → Option Error → Action S Round
    after_begin minimum (some e) = pure (again false (some e ∷ []))
    after_begin minimum none = do row ← call (db.tx_get_entry table minimum); after_entry row

    abbrev pub after_check : (minimum : ℕ) → Reply → Action S Round
    after_check minimum (failed e) = pure (again false (some e ∷ []))
    after_check minimum (uncounted e) = pure (again false (some e ∷ []))
    after_check minimum (affected n) =
        if ltb n 1
        then pure (again false [])
        else (do begin_error ← call db.begin; after_begin minimum begin_error)

    -- One round of `getBatchProcessRow`. Its deferred rollback runs when the function returns, not at
    -- the end of the round.
    unfoldable pub get_batch_process_row : (minimum : ℕ) → Action S Round
    get_batch_process_row minimum = do
      reply ← call (db.db_exec (check_entry table minimum))
      after_check minimum reply

  abbrev pub after_removal : Reply → Action S Removal
  after_removal (failed e) = pure (at_send e)
  after_removal (uncounted e) = pure removed
  after_removal (affected n) = pure removed

  abbrev pub remove_if : BatchTable → SlotsToProcess → Coded Bool → Coded Bool → Action S Removal
  remove_if table slots (coded is_start) (coded is_end) =
      if is_start && is_end
      then (do
        reply ← call (db.db_exec (delete_entry table slots.start_slot slots.end_slot))
        after_removal reply)
      else pure waiting
  remove_if table slots (coded is_start) (refused e) = pure (at_send e)
  remove_if table slots (refused e) is_end = pure (at_send e)

  abbrev pub check_end : BatchTable → SlotsToProcess → Coded Bool → Action S Removal
  check_end table slots (refused e) = pure (at_send e)
  check_end table slots (coded is_start) = do
    is_end ← is_slot_processed db slots.end_slot
    remove_if table slots (coded is_start) is_end

  -- One round of the goroutine for an entry, as far as it comes.
  unfoldable pub remove_row_post_process : BatchTable → SlotsToProcess → Action S Removal
  remove_row_post_process table slots = do
    is_start ← is_slot_processed db slots.start_slot
    check_end table slots is_start

  -- The two `releaseDbLocks`. `text` is what fmt makes of an error: the identity for the known gaps.
  abbrev pub released : (text : Error → Error) → Reply → Option Error
  released text (failed e) = some (text e)
  released text (uncounted e) = some (text e)
  released text (affected n) = none

  unfoldable pub release_db_locks :
      (text : Error → Error) → BatchTable → (node : ℕ) → Action S (Option Error)
  release_db_locks text table node = do
    reply ← call (db.db_exec (release_lock table (decimal node)))
    pure (released text reply)

  -- One error of the historic process.
  unfoldable pub handle_historic_error : BatchHistoricError → Action S (Unit {0})
  handle_historic_error m = write_known_gaps db 1 m.slot m.slot (some m.err) m.err_process

  -- One error of the known gaps: an entry of that one slot is updated, or else written. The errors of
  -- the check and of the update are only logged.
  unfoldable pub handle_known_gap_error : BatchHistoricError → Action S (Unit {0})
  handle_known_gap_error m = do
    reply ← call (db.db_exec (check_kg_single_slot m.slot m.slot))
    if ltb 0 (rows_affected reply)
        then (update_known_gap_errors db m.slot m.slot m.err >> pure tt)
        else write_known_gaps db 1 m.slot m.slot (some m.err) m.err_process

  -- The `handleProcessingErrors` of the two processes.
  abbrev pub handle_processing_error : BatchTable → BatchHistoricError → Action S (Unit {0})
  handle_processing_error historic_process m = handle_historic_error m
  handle_processing_error known_gaps m = handle_known_gap_error m

  -- The error of a slot, where there is one, is handled.
  abbrev pub handle_error : BatchTable → Option BatchHistoricError → Action S (Unit {0})
  handle_error table none = pure tt
  handle_error table (some m) = handle_processing_error table m

module _ (z : Zrnt) (node : Node) (ipfs : Ipfs) {S : Type 0} (db : Driver S) where
  abbrev pub increment_tracker : BatchTable → Action S (Unit {0})
  increment_tracker historic_process = count (increment_historic_slot_processed 1)
  increment_tracker known_gaps = count (increment_known_gaps_processed 1)

  abbrev pub worker_result : BatchTable → ℕ → SlotResult → Action S (Option BatchHistoricError)
  worker_result table slot (some e, process) =
      pure (some (record { err = e; err_process = process; slot = slot }))
  worker_result table slot (none, process) = increment_tracker table >> pure none

  -- One slot of `processSlotRangeWorker`, with what it sends to errCh.
  unfoldable pub process_slot_range_worker :
      BatchTable
      → Schedule
      → (slot : ℕ) → SlotProcessingDetails
      → Action S (Option BatchHistoricError)
  process_slot_range_worker table schedule slot spd = do
    result ← handle_historic_slot z node ipfs db schedule slot spd
    worker_result table slot result
