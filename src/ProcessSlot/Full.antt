-- ===== src/ProcessSlot/Full.antt =====
-- `processFullSlot` of pkg/beaconclient/processslot.go with what it calls, and its two wrappers for a
-- slot at head and a historic one.
use ipld_eth_beacon_indexer.Base.{
  ℕ, String, Option, none, some, Bool, true, false, not, ◌&&◌, str_eq, ◌==◌, if◌then◌else◌,
}
use ipld_eth_beacon_indexer.Sql.{Error, Driver}
use ipld_eth_beacon_indexer.Server.{Node}
use ipld_eth_beacon_indexer.Consensus.{Zrnt, coded}
use ipld_eth_beacon_indexer.Action.{Action, ◌>>=◌, ◌>>◌, pure}
use ipld_eth_beacon_indexer.Writer.KnownGaps.{write_known_gaps, write_start_up_gaps}
use ipld_eth_beacon_indexer.Writer.Slot.{Ipfs}
use ipld_eth_beacon_indexer.ProcessSlot.{
  SlotProcessingDetails, Schedule, ProcessSlot, new_process_slot, get_signed_beacon_block,
  get_beacon_state,
}
use ipld_eth_beacon_indexer.ProcessSlot.Hashes.{provide_final_hash}
use ipld_eth_beacon_indexer.ProcessSlot.Store.{
  SlotResult, check_db_required, write_required, write_slot,
}

-- The first error of the group is the one of `Wait`.
abbrev first_error : Bool → Option Error → Option Error → Option Error
first_error state_first none e = e
first_error state_first (some e) none = some e
first_error state_first (some e) (some e') = if state_first then some e else some e'

module _ (z : Zrnt) (node : Node) {S : Type 0} where
  abbrev pub retrieve_state :
      Schedule → SlotProcessingDetails → ProcessSlot z → Action S (Option Error × ProcessSlot z)
  retrieve_state schedule spd ps =
      if spd.perform_beacon_state_processing && not schedule.state_done
      then get_beacon_state z node spd.server_endpoint ps
      else pure (none, ps)

  abbrev pub retrieve_block :
      Schedule → SlotProcessingDetails → ProcessSlot z → Action S (Option Error × ProcessSlot z)
  retrieve_block schedule spd ps =
      if spd.perform_beacon_block_processing && not schedule.block_done
      then get_signed_beacon_block z node spd.server_endpoint ps
      else pure (none, ps)

  -- The two retrievals write different fields and read none of each other's, so that of their
  -- interleavings only the order of their errors is left.
  unfoldable pub retrieve :
      Schedule → SlotProcessingDetails → ProcessSlot z → Action S (Option Error × ProcessSlot z)
  retrieve schedule spd ps = do
    state ← retrieve_state schedule spd ps
    both ← retrieve_block schedule spd state.1
    pure (first_error schedule.state_first state.0 both.0, both.1)

module _ (z : Zrnt) (ipfs : Ipfs) {S : Type 0} (db : Driver S) where
  abbrev pub after_retrieval :
      Option Error
      → SlotProcessingDetails
      → ProcessSlot z
      → (previous_slot : ℕ) (previous_block_root : String) (increment : ℕ) → Action S SlotResult
  after_retrieval (some e) spd ps previous_slot previous_block_root increment =
      pure (some e, "processSlot")
  after_retrieval none spd ps previous_slot previous_block_root increment = do
    final ← provide_final_hash z ps
    needed ← (if spd.check_db then check_db_required db spd ps.slot final else pure (coded true))
    write_required needed (write_slot z ipfs db ps previous_slot previous_block_root increment)

-- The background context of `processHeadSlot` is never done.
abbrev pub never_done : Bool → Schedule
never_done state_first = record {
  start_done = false;
  state_done = false;
  block_done = false;
  state_first = state_first;
}

module _ {S : Type 0} (db : Driver S) where
  abbrev pub gap_of_slot : SlotProcessingDetails → ℕ → SlotResult → Action S (Unit {0})
  gap_of_slot spd slot (none, reason) = pure tt
  gap_of_slot spd slot (some e, reason) =
      write_known_gaps db spd.known_gap_table_increment slot slot (some e) reason

  abbrev pub start_up : SlotProcessingDetails → ℕ → Action S (Unit {0})
  start_up spd slot =
      if spd.previous_slot == 0 && str_eq spd.previous_block_root ""
      then write_start_up_gaps db spd.known_gap_table_increment slot
      else pure tt

module _ (z : Zrnt) (node : Node) (ipfs : Ipfs) {S : Type 0} (db : Driver S) where
  unfoldable pub process_full_slot :
      Schedule
      → (slot : ℕ) (block_root state_root : String) (previous_slot : ℕ)
        (previous_block_root : String) (increment : ℕ) (head_or_historic : String)
      → SlotProcessingDetails
      → Action S SlotResult
  process_full_slot schedule slot block_root state_root previous_slot previous_block_root increment
        head_or_historic spd =
      if schedule.start_done then pure (none, "") else (do
        retrieved ←
            retrieve z node schedule spd
              (new_process_slot z slot block_root state_root head_or_historic)
        after_retrieval z ipfs db retrieved.0 spd retrieved.1 previous_slot previous_block_root
            increment)

  unfoldable pub process_head_slot :
      (state_first : Bool) (slot : ℕ) (block_root state_root : String)
      → SlotProcessingDetails
      → Action S (Unit {0})
  process_head_slot state_first slot block_root state_root spd = do
    start_up db spd slot
    result ←
        process_full_slot (never_done state_first) slot block_root state_root spd.previous_slot
          spd.previous_block_root spd.known_gap_table_increment "head" spd
    gap_of_slot db spd slot result

  unfoldable pub handle_historic_slot :
      Schedule → (slot : ℕ) → SlotProcessingDetails → Action S SlotResult
  handle_historic_slot schedule slot spd =
      process_full_slot schedule slot "" "" 0 "" 1 "historic" spd
