-- ===== src/Batch/Range.antt =====
-- What the goroutines of `handleBatchProcess` (pkg/beaconclient/capturehistoric.go) do with what the
-- distributor sends: a worker and the goroutine of the errors for each slot, one after the other in
-- the order of the list. The entry of the range is removed by others.
pub mod Lasting
pub mod Kept
pub mod Accounted
use ipld_eth_beacon_indexer.Base.{ℕ, List, [], ◌∷◌}
use ipld_eth_beacon_indexer.Sql.{BatchTable, Driver}
use ipld_eth_beacon_indexer.Server.{Node}
use ipld_eth_beacon_indexer.Consensus.{Zrnt}
use ipld_eth_beacon_indexer.Action.{Action, ◌>>=◌, ◌>>◌, pure}
use ipld_eth_beacon_indexer.Writer.Slot.{Ipfs}
use ipld_eth_beacon_indexer.ProcessSlot.{SlotProcessingDetails, Schedule}
use ipld_eth_beacon_indexer.Batch.{
  Message, error_message, work, processed, handle_processing_error, handle_error,
  process_slot_range_worker,
}

module _ (z : Zrnt) (node : Node) (ipfs : Ipfs) {S : Type 0} (db : Driver S) (table : BatchTable)
    (spd : SlotProcessingDetails) (schedule : ℕ → Schedule) where
  unfoldable pub run_message : Message → Action S (Unit {0})
  run_message (error_message m) = handle_processing_error db table m
  run_message (work slot) =
      process_slot_range_worker z node ipfs db table (schedule slot) slot spd
      >>= handle_error db table
  run_message (processed slots) = pure tt

  unfoldable pub run_messages : List Message → Action S (Unit {0})
  run_messages [] = pure tt
  run_messages (m ∷ messages) = run_message m >> run_messages messages
