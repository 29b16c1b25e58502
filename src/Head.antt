-- ===== src/Head.antt =====
-- The events of the head and of reorgs: pkg/beaconclient/processevents.go, one message at a time.
-- `go processHeadSlot` is given by its arguments.
pub mod Gaps
pub mod Sequence
pub mod Reorged
pub mod Schedule
use ipld_eth_beacon_indexer.Base.{
  ℕ, ◌+◌, Bool, String, List, Option, none, some, ◌==◌, ◌/=◌, ◌&&◌, str_eq, if◌then◌else◌,
}
use ipld_eth_beacon_indexer.Word.{add64}
use ipld_eth_beacon_indexer.Slot.{NumError, parse_slot}
use ipld_eth_beacon_indexer.Sql.{Driver}
use ipld_eth_beacon_indexer.Action.{Action, ◌>>=◌, ◌>>◌, pure}
use ipld_eth_beacon_indexer.Writer.KnownGaps.{write_known_gaps}
use ipld_eth_beacon_indexer.Writer.Reorgs.{write_reorgs}
use ipld_eth_beacon_indexer.ProcessSlot.{SlotProcessingDetails}

-- The fields of the message that are read; the slot is still a text.
pub record Head : Type 0 where
  pub slot : List ℕ
  pub block : String
  pub state : String

pub record ChainReorg : Type 0 where
  pub slot : List ℕ
  pub new_head_block : String

-- The fields of `BeaconClient` that `handleHead` reads and writes, and its counter.
pub record Tracking : Type 0 where
  pub previous_slot : ℕ
  pub previous_block_root : String
  pub starting_slot : ℕ
  pub error_slots : ℕ

-- The configuration in `BeaconClient`.
pub record Settings : Type 0 where
  pub server_endpoint : String
  pub known_gap_table_increment : ℕ
  pub check_db : Bool
  pub perform_beacon_state_processing : Bool
  pub perform_beacon_block_processing : Bool

-- `BeaconClient.SlotProcessingDetails`
abbrev pub slot_processing_details : Settings → Tracking → SlotProcessingDetails
slot_processing_details bc t = record {
  server_endpoint = bc.server_endpoint;
  known_gap_table_increment = bc.known_gap_table_increment;
  check_db = bc.check_db;
  perform_beacon_state_processing = bc.perform_beacon_state_processing;
  perform_beacon_block_processing = bc.perform_beacon_block_processing;
  starting_slot = t.starting_slot;
  previous_slot = t.previous_slot;
  previous_block_root = t.previous_block_root;
}

-- The arguments of a call of `processHeadSlot`.
pub record Spawned : Type 0 where
  pub slot : ℕ
  pub block : String
  pub state : String
  pub details : SlotProcessingDetails

abbrev at_start : Tracking → ℕ → Tracking
at_start t slot =
    if t.previous_slot == 0 && str_eq t.previous_block_root ""
    then record t { starting_slot = slot }
    else t

abbrev pub spawn : Settings → Tracking → ℕ → Head → Tracking × Option Spawned
spawn bc t slot head =
    let started = at_start t slot in
    (
      record started { previous_slot = slot; previous_block_root = head.block },
      some (record {
        slot = slot;
        block = head.block;
        state = head.state;
        details = slot_processing_details bc started;
      }),
    )

module _ {S : Type 0} (db : Driver S) (bc : Settings) where
  abbrev pub write_bad_heads : Tracking → ℕ → Action S Tracking
  write_bad_heads t slot =
      if (t.error_slots /= 0) && (t.previous_slot /= 0)
      then (write_known_gaps db bc.known_gap_table_increment (add64 t.previous_slot 1) slot
            (some "Bad Head Messages") "headProcessing"
          >> pure (record t { error_slots = 0 }))
      else pure t

  abbrev parsed_head : Tracking → Head → ℕ × Option NumError → Action S (Tracking × Option Spawned)
  parsed_head t head (slot, some e) = pure (record t { error_slots = t.error_slots + 1 }, none)
  parsed_head t head (slot, none) = do
    cleared ← write_bad_heads t slot
    pure (spawn bc cleared slot head)

  -- One message of `handleHead`; an error goes to the error channel of the head too.
  unfoldable pub handle_head : Tracking → Head → Action S (Tracking × Option Spawned)
  handle_head t head = parsed_head t head (parse_slot head.slot)

module _ {S : Type 0} (db : Driver S) where
  -- One message of `handleReorg`: an error of the parse is logged, and its number is used.
  unfoldable pub handle_reorg : ChainReorg → Action S (Unit {0})
  handle_reorg reorg = write_reorgs db (parse_slot reorg.slot).0 reorg.new_head_block
