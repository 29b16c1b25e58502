-- ===== src/Batch/Accounted.antt =====
-- No slot of a range is lost between a worker (`processSlotRangeWorker`) and the goroutine of the
-- errors (`handleProcessingErrors`), in pkg/beaconclient/processhistoric.go.
use ipld_eth_beacon_indexer.Base.{
  ℕ, ◌≤◌, ◌≡◌, ◌⊎◌, refl, subst, sym, Option, none, some, Bool, true, inl, inr,
}
use ipld_eth_beacon_indexer.Word.{max_u64}
use ipld_eth_beacon_indexer.Sql.{BatchTable, historic_process, known_gaps, Driver}
use ipld_eth_beacon_indexer.Sql.Tables.{Tables}
use ipld_eth_beacon_indexer.Sql.Laws.{IsPostgres}
use ipld_eth_beacon_indexer.Server.{Node}
use ipld_eth_beacon_indexer.Consensus.{Zrnt}
use ipld_eth_beacon_indexer.Action.{World, ◌>>=◌, ◌>>◌, pure, Ensures}
use ipld_eth_beacon_indexer.Action.Rules.{Ensures-bind, Ensures-map, Ensures-weaken}
use ipld_eth_beacon_indexer.Writer.KnownGaps.Table.{in_tx, in_db, Uncommitted, Covers}
use ipld_eth_beacon_indexer.Writer.Slot.{Ipfs}
use ipld_eth_beacon_indexer.ProcessSlot.{SlotProcessingDetails, Schedule}
use ipld_eth_beacon_indexer.ProcessSlot.Store.{SlotResult, handle_previous}
use ipld_eth_beacon_indexer.ProcessSlot.Full.{process_full_slot, handle_historic_slot}
use ipld_eth_beacon_indexer.ProcessSlot.Found.{Found}
use ipld_eth_beacon_indexer.ProcessSlot.Atomic.{Stored, Handles, process_full_slot-Stored}
use ipld_eth_beacon_indexer.ProcessSlot.Accounted.{HasSlot, row-run_all}
use ipld_eth_beacon_indexer.Batch.{
  BatchHistoricError, increment_tracker, process_slot_range_worker, worker_result,
  handle_processing_error, handle_error,
}
use ipld_eth_beacon_indexer.Batch.Errors.{handle_processing_error-Covers}

-- The slot has a row, or its objects were there before and the check found them, or a known gap
-- holds it, or the context was done before the slot was begun.
abbrev pub AccountedUnlessIn : Bool → SlotProcessingDetails → ℕ → Tables → Type 0
AccountedUnlessIn cancelled spd slot t =
    HasSlot slot t
    ⊎ ((((spd.check_db ≡ true) × Found spd slot t) ⊎ (cancelled ≡ true)) ⊎ Covers slot t)

module _ {S : Type 0} (db : Driver S) (laws : IsPostgres db) where
  abbrev pub AccountedUnless : Bool → SlotProcessingDetails → ℕ → World S → Type 0
  AccountedUnless cancelled spd slot w = AccountedUnlessIn cancelled spd slot (in_db db laws w)

  -- What the result of a worker says of the slot.
  abbrev Reported : Bool → SlotProcessingDetails → ℕ → Option BatchHistoricError → World S → Type 0
  Reported cancelled spd slot none w = AccountedUnless cancelled spd slot w
  Reported cancelled spd slot (some m) w = m.slot ≡ slot

  tracked :
      (z : Zrnt) (node : Node) (ipfs : Ipfs) (table : BatchTable) (cancelled : Bool)
      (spd : SlotProcessingDetails) (slot : ℕ) (w : World S)
      → AccountedUnless cancelled spd slot w
      → Ensures
          (Reported cancelled spd slot)
          (λ _. Unit)
          ((increment_tracker z node ipfs db table >> pure none) w)
  tracked z node ipfs historic_process cancelled spd slot w h = h
  tracked z node ipfs known_gaps cancelled spd slot w h = h

  handle_error-Accounted :
      (table : BatchTable) (cancelled : Bool) (spd : SlotProcessingDetails) (slot : ℕ)
      (m : Option BatchHistoricError) (w : World S)
      → slot ≤ max_u64
      → Reported cancelled spd slot m w
      → Ensures (λ _. AccountedUnless cancelled spd slot) (λ _. Unit) (handle_error db table m w)
  handle_error-Accounted table cancelled spd slot none w word h = h
  handle_error-Accounted table cancelled spd slot (some m) w word h =
      Ensures-map (λ _ w'. Covers m.slot (in_db db laws w'))
        (λ _. AccountedUnless cancelled spd slot) (λ _. Unit) (handle_processing_error db table m w)
        (λ _ w' held. inr (inr (subst (λ n. Covers n (in_db db laws w')) h held)))
        (handle_processing_error-Covers db laws table m w (subst (λ n. n ≤ max_u64) (sym h) word))

  module _ (z : Zrnt) (node : Node) (ipfs : Ipfs) (table : BatchTable) (schedule : Schedule)
      (slot : ℕ) (spd : SlotProcessingDetails) where
    module _ (db0 : Tables) where
      abbrev Idle : Type 0
      Idle = ((spd.check_db ≡ true) × Found spd slot db0) ⊎ (schedule.start_done ≡ true)

      abbrev HistoricStored : SlotResult → World S → Type 0
      HistoricStored =
          Stored db laws db0 (λ dw t. HasSlot slot t) slot Idle (λ _. ⊥) (λ s h. absurd h)

      historic-Handles :
          Handles db laws db0
            (λ dw t. HasSlot slot t)
            slot
            Idle
            (λ _. ⊥)
            (λ s h. absurd h)
            z
            "historic"
            0
            ""
            1
      unfolding handle_previous
      historic-Handles ps dw w for is_slot ran same =
          rw for.1 (inl (row-run_all db0 slot dw (in_tx db laws w) is_slot ran), same)

      idle-Accounted :
          (w : World S)
          → Uncommitted db laws db0 w
          → Idle
          → AccountedUnless schedule.start_done spd slot w
      idle-Accounted w same (inl (checks, found)) =
          inr (inl (inl (checks, subst (Found spd slot) (sym same) found)))
      idle-Accounted w same (inr cancelled) = inr (inl (inr cancelled))

      result-Reported :
          (r : SlotResult) (w : World S)
          → HistoricStored r w
          → Ensures
              (Reported schedule.start_done spd slot)
              (λ _. Unit)
              (worker_result z node ipfs db table slot r w)
      result-Reported (some e, reason) w h = refl
      result-Reported (none, reason) w (inl (same, idle)) =
          tracked z node ipfs table schedule.start_done spd slot w (idle-Accounted w same idle)
      result-Reported (none, reason) w (inr (dw, is_slot, row)) =
          tracked z node ipfs table schedule.start_done spd slot w (inl row)

    -- For a uint64 slot, where a worker's call and the handling of its error, if any, return: the
    -- committed tables have a row of the slot, or the check of the database is on and each object of
    -- the slot that is processed has a row, or a known gap holds the slot, or the context was done
    -- when the call began.
    pub worker-Accounted :
        (w : World S)
        → slot ≤ max_u64
        → Ensures
            (λ _. AccountedUnless schedule.start_done spd slot)
            (λ _. Unit)
            ((process_slot_range_worker z node ipfs db table schedule slot spd
                >>= handle_error db table)
              w)
    unfolding process_slot_range_worker handle_historic_slot
    worker-Accounted w word =
        let db0 : Tables = in_db db laws w in
        let stored : _ =
          process_full_slot-Stored db laws db0 (λ dw t. HasSlot slot t) slot (Idle db0) (λ _. ⊥)
            (λ s h. absurd h) z "historic" 0 "" 1 (historic-Handles db0) node ipfs schedule "" ""
            spd w (λ cancelled. inr cancelled) (λ checks found. inl (checks, found)) refl in
        Ensures-bind (Reported schedule.start_done spd slot)
          (λ _. AccountedUnless schedule.start_done spd slot) (λ _. Unit)
          (process_slot_range_worker z node ipfs db table schedule slot spd) (handle_error db table)
          w
          (Ensures-bind (HistoricStored db0) (Reported schedule.start_done spd slot) (λ _. Unit)
            (handle_historic_slot z node ipfs db schedule slot spd)
            (λ r. worker_result z node ipfs db table slot r) w
            (Ensures-weaken (HistoricStored db0) (HistoricStored db0) (Uncommitted db laws db0)
              (λ _. Unit)
              (process_full_slot z node ipfs db schedule slot "" "" 0 "" 1 "historic" spd w)
              (λ _ _ h. h) (λ _ _. tt) stored)
            (λ r w1 h. result-Reported db0 r w1 h))
          (λ m w2 h. handle_error-Accounted table schedule.start_done spd slot m w2 word h)
