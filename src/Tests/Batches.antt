-- ===== src/Tests/Batches.antt =====
-- Batches and head events on the server in memory.
use ipld_eth_beacon_indexer.Base.{◌≡◌, refl, Bool, List, [], ◌∷◌, some, none, false, true, arith}
use ipld_eth_beacon_indexer.Action.{World, Outcome, Ensures, Returns, done, fatal, panic}
use ipld_eth_beacon_indexer.Slot.{codes, parse_slot}
use ipld_eth_beacon_indexer.Sql.{historic_process}
use ipld_eth_beacon_indexer.Sql.Tables.{Tables, BatchRow, pick_entry, meaning}
use ipld_eth_beacon_indexer.Sql.Tables.Rows.{count_where, update_where}
use ipld_eth_beacon_indexer.Sql.Memory.{
  Server, no_tables, serving, memory, memory-IsPostgres, memory-PicksOpen,
}
use ipld_eth_beacon_indexer.Metrics.{no_metrics}
use ipld_eth_beacon_indexer.Writer.KnownGaps.Table.{Uncommitted}
use ipld_eth_beacon_indexer.Batch.{
  SlotsToProcess, work, processed, distribute, send_work, get_batch_process_row,
  remove_row_post_process,
}
use ipld_eth_beacon_indexer.Batch.Distribute.{all_work, distribute-all_work}
use ipld_eth_beacon_indexer.Batch.Entries.{Entries, no_entries, get_slot_range}
use ipld_eth_beacon_indexer.Batch.Entries.Once.{Ended, get_slot_range-Once}
use ipld_eth_beacon_indexer.Batch.Removed.{Checked, remove_row_post_process-Checked}
use ipld_eth_beacon_indexer.Head.{Head, Settings, Tracking, handle_head}
use ipld_eth_beacon_indexer.Head.Gaps.{Started, handle_head-Started}
use ipld_eth_beacon_indexer.Tests.Toy.{fork_rows, fresh}

abbrev range : SlotsToProcess
range = record { start_slot = 5; end_slot = 7 }

distributed : distribute range ≡ some (work 5 ∷ work 6 ∷ work 7 ∷ processed range ∷ [])
unfolding distribute send_work
distributed = refl

distribute-all_work_example : distribute range ≡ some (all_work 3 5 (processed range ∷ []))
distribute-all_work_example = distribute-all_work range (omega arith) (omega arith)

abbrev entry : BatchRow
entry = record {
  start_slot = 5;
  end_slot = 6;
  checked_out = false;
  checked_out_by = none;
  priority = 1;
  reprocessing_error = "";
  entry_error = "";
  entry_process = "";
}

abbrev tables : Tables
tables = record no_tables { historic = entry ∷ []; slots = fork_rows }

abbrev world : World Server
world = record { store = serving tables; metrics = no_metrics }

-- The third round finds the context done.
abbrev rounds : List Bool
rounds = false ∷ false ∷ true ∷ []

sent_ranges : Outcome (Bool × Entries) → List SlotsToProcess
sent_ranges (done (returned, p)) = p.ranges
sent_ranges fatal = []
sent_ranges panic = []

-- The entry is sent by the first round, and no longer there for the second.
fetched :
    sent_ranges (get_slot_range memory historic_process "12" 0 rounds no_entries world).0
    ≡ record { start_slot = 5; end_slot = 6 } ∷ []
unfolding sent_ranges get_slot_range get_batch_process_row meaning pick_entry count_where
    update_where
fetched = refl

get_slot_range-Once_example :
    Returns
      (Ended memory memory-IsPostgres historic_process "12" 0 tables rounds)
      (get_slot_range memory historic_process "12" 0 rounds no_entries world)
get_slot_range-Once_example =
    get_slot_range-Once memory memory-IsPostgres historic_process "12" 0 tables memory-PicksOpen
      rounds world refl

remove_row_post_process-Checked_example :
    Returns
      (Checked memory memory-IsPostgres tables historic_process
        (record { start_slot = 5; end_slot = 6 }))
      (remove_row_post_process memory historic_process
        (record { start_slot = 5; end_slot = 6 })
        world)
remove_row_post_process-Checked_example =
    remove_row_post_process-Checked memory memory-IsPostgres tables historic_process
      (record { start_slot = 5; end_slot = 6 }) world refl

abbrev settings : Settings
settings = record {
  server_endpoint = "http://localhost:5052";
  known_gap_table_increment = 100;
  check_db = true;
  perform_beacon_state_processing = true;
  perform_beacon_block_processing = true;
}

-- Two bad messages behind slot 40.
abbrev tracking : Tracking
tracking = record {
  previous_slot = 40;
  previous_block_root = "0x01";
  starting_slot = 1;
  error_slots = 2;
}

abbrev head : Head
head = record { slot = codes "43"; block = "0x02"; state = "0x03" }

parsed_43 : parse_slot (codes "43") ≡ (43, none)
unfolding parse_slot
parsed_43 = refl

handle_head-Started_example :
    Ensures
      (Started memory memory-IsPostgres no_tables 42 43 head tracking)
      (Uncommitted memory memory-IsPostgres no_tables)
      (handle_head memory settings tracking head fresh)
handle_head-Started_example =
    handle_head-Started memory memory-IsPostgres no_tables settings tracking head 43 42 fresh
      parsed_43 (omega arith) (omega arith) (omega arith) (omega arith) (omega arith) (omega arith)
      refl
