-- ===== src/Batch/Range/Kept.antt =====
-- The workers and the goroutine of the errors (pkg/beaconclient/processhistoric.go and
-- processknowngaps.go) keep what their statements keep of the committed tables.
use ipld_eth_beacon_indexer.Base.{
  ℕ, sym, subst, List, [], ◌∷◌, Option, none, some, inl, inr, Bool-cases, ltb,
}
use ipld_eth_beacon_indexer.Sql.{
  BatchTable, historic_process, known_gaps, Driver, rows_affected, check_kg_single_slot,
}
use ipld_eth_beacon_indexer.Sql.Tables.{Tables}
use ipld_eth_beacon_indexer.Sql.Laws.{IsPostgres, AbortsFailed}
use ipld_eth_beacon_indexer.Server.{Node}
use ipld_eth_beacon_indexer.Consensus.{Zrnt}
use ipld_eth_beacon_indexer.Action.{World, ◌>>=◌, ◌>>◌, pure}
use ipld_eth_beacon_indexer.Action.Keeps.{Keeps, Keeps-bind}
use ipld_eth_beacon_indexer.Writer.KnownGaps.{update_known_gap_errors}
use ipld_eth_beacon_indexer.Writer.Slot.{Ipfs}
use ipld_eth_beacon_indexer.ProcessSlot.{SlotProcessingDetails, Schedule}
use ipld_eth_beacon_indexer.ProcessSlot.Store.{SlotResult}
use ipld_eth_beacon_indexer.ProcessSlot.Full.{handle_historic_slot}
use ipld_eth_beacon_indexer.ProcessSlot.Grown.{KeptByMarks, KeptByInserts}
use ipld_eth_beacon_indexer.ProcessSlot.Undisturbed.{
  Committed, write_known_gaps-Keeps, process_full_slot-Keeps,
}
use ipld_eth_beacon_indexer.Batch.{
  BatchHistoricError, Message, error_message, work, processed, increment_tracker, worker_result,
  process_slot_range_worker, handle_historic_error, handle_known_gap_error, handle_processing_error,
  handle_error,
}
use ipld_eth_beacon_indexer.Batch.Errors.{KeptByErrors, check-reads, update_known_gap_errors-Keeps}
use ipld_eth_beacon_indexer.Batch.Range.{run_message, run_messages}

-- The calls of the batch keep of the committed tables what their statements keep.
module _ {S : Type 0} (db : Driver S) (laws : IsPostgres db) (aborts : AbortsFailed db)
    (Q : Tables → Type 0) (marks : KeptByMarks Q) (inserts : KeptByInserts Q)
    (errors : KeptByErrors Q) where
  abbrev I : World S → Type 0
  I = Committed db laws aborts Q marks

  handle_known_gap_error-Keeps : (m : BatchHistoricError) → Keeps I (handle_known_gap_error db m)
  unfolding handle_known_gap_error
  handle_known_gap_error-Keeps m w h =
      let reply : _ = db.db_exec (check_kg_single_slot m.slot m.slot) w.store in
      let w1 : World S = record w { store = reply.1 } in
      let h1 : I w1 = subst Q (sym (check-reads db laws m.slot w)) h in
      elim (Bool-cases (ltb 0 (rows_affected reply.0))) [
        | inl known ↦ rw known (
            Keeps-bind I (update_known_gap_errors db m.slot m.slot m.err) (λ _. pure tt)
              (update_known_gap_errors-Keeps db laws Q errors m.slot m.slot m.err)
              (λ _ _ kept. kept) w1 h1)
        | inr new ↦ rw new (
            write_known_gaps-Keeps db laws aborts Q marks 1 m.slot m.slot (some m.err) m.err_process
              w1 h1)
      ]

  handle_processing_error-Keeps :
      (table : BatchTable) (m : BatchHistoricError) → Keeps I (handle_processing_error db table m)
  unfolding handle_historic_error
  handle_processing_error-Keeps historic_process m =
      write_known_gaps-Keeps db laws aborts Q marks 1 m.slot m.slot (some m.err) m.err_process
  handle_processing_error-Keeps known_gaps m = handle_known_gap_error-Keeps m

  handle_error-Keeps :
      (table : BatchTable) (m : Option BatchHistoricError) → Keeps I (handle_error db table m)
  handle_error-Keeps table none = λ w h. h
  handle_error-Keeps table (some m) = handle_processing_error-Keeps table m

  module _ (z : Zrnt) (node : Node) (ipfs : Ipfs) (table : BatchTable) where
    tracker-Keeps :
        (t : BatchTable)
        → Keeps I {A = Option BatchHistoricError} (increment_tracker z node ipfs db t >> pure none)
    tracker-Keeps historic_process w h = h
    tracker-Keeps known_gaps w h = h

    result-Keeps : (slot : ℕ) (r : SlotResult) → Keeps I (worker_result z node ipfs db table slot r)
    result-Keeps slot (some e, reason) = λ w h. h
    result-Keeps slot (none, reason) = tracker-Keeps table

    worker-Keeps :
        (schedule : Schedule) (slot : ℕ) (spd : SlotProcessingDetails)
        → Keeps I (
            process_slot_range_worker z node ipfs db table schedule slot spd
            >>= handle_error db table)
    unfolding process_slot_range_worker handle_historic_slot
    worker-Keeps schedule slot spd =
        Keeps-bind I (process_slot_range_worker z node ipfs db table schedule slot spd)
          (handle_error db table)
          (Keeps-bind I (handle_historic_slot z node ipfs db schedule slot spd)
            (worker_result z node ipfs db table slot)
            (process_full_slot-Keeps db laws aborts Q marks inserts z node ipfs schedule slot "" ""
              0 "" 1 "historic" spd)
            (result-Keeps slot))
          (handle_error-Keeps table)

    run_message-Keeps :
        (spd : SlotProcessingDetails) (schedule : ℕ → Schedule) (m : Message)
        → Keeps I (run_message z node ipfs db table spd schedule m)
    unfolding run_message
    run_message-Keeps spd schedule (error_message m) = handle_processing_error-Keeps table m
    run_message-Keeps spd schedule (work slot) = worker-Keeps (schedule slot) slot spd
    run_message-Keeps spd schedule (processed slots) = λ w h. h

    pub run_messages-Keeps :
        (spd : SlotProcessingDetails) (schedule : ℕ → Schedule) (messages : List Message)
        → Keeps I (run_messages z node ipfs db table spd schedule messages)
    unfolding run_messages
    run_messages-Keeps spd schedule [] = λ w h. h
    run_messages-Keeps spd schedule (m ∷ messages) =
        Keeps-bind I (run_message z node ipfs db table spd schedule m)
          (λ _. run_messages z node ipfs db table spd schedule messages)
          (run_message-Keeps spd schedule m) (λ _. run_messages-Keeps spd schedule messages)
