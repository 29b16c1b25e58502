-- ===== src/Tests/Writes.antt =====
-- Reorgs and the writes of a slot: databasewrite.go on the server in memory.
use ipld_eth_beacon_indexer.Base.{
  ℕ, ◌≤◌, ◌≡◌, refl, List, Any, String, [], ◌∷◌, map, none, true, false, ◌&&◌, arith, All,
}
use ipld_eth_beacon_indexer.Models.{DbSlots}
use ipld_eth_beacon_indexer.Action.{World, Ensures, Returns}
use ipld_eth_beacon_indexer.Sql.Tables.{Tables, has_state_root, has_block_root, meaning}
use ipld_eth_beacon_indexer.Sql.Tables.Rows.{any, update_where}
use ipld_eth_beacon_indexer.Sql.Memory.{Server, no_tables, memory, memory-IsPostgres}
use ipld_eth_beacon_indexer.Writer.KnownGaps.{transact_known_gaps}
use ipld_eth_beacon_indexer.Writer.KnownGaps.Ranges.{Fits, Holds, IsRange}
use ipld_eth_beacon_indexer.Writer.KnownGaps.Cut.{
  cut, transact_known_gaps-eq-cut, transact_known_gaps-Fits,
}
use ipld_eth_beacon_indexer.Writer.KnownGaps.Table.{in_db, Uncommitted}
use ipld_eth_beacon_indexer.Writer.KnownGaps.Trace.{upsert_all}
use ipld_eth_beacon_indexer.Writer.Reorgs.{updated_rows, check_proposed_count, transact_reorgs}
use ipld_eth_beacon_indexer.Slot.{codes, parse_slot}
use ipld_eth_beacon_indexer.Writer.Reorgs.Committed.{IsResolved}
use ipld_eth_beacon_indexer.Head.{ChainReorg, handle_reorg}
use ipld_eth_beacon_indexer.Head.Reorged.{handle_reorg-IsResolved}
use ipld_eth_beacon_indexer.Writer.Slot.{DatabaseWriter, transact_full_slot}
use ipld_eth_beacon_indexer.Writer.Slot.Statements.{
  run_all, slot_stmts, RanAll, transact_full_slot-RanAll,
}
use ipld_eth_beacon_indexer.Writer.Slot.Idempotent.{
  Has, Stored, Unchanged, slot_stmts-Has, transact_full_slot-Stored, transact_full_slot-Unchanged,
}
use ipld_eth_beacon_indexer.Writer.Slot.Present.{Answers, is_slot_in_db, is_slot_in_db-Answers}
use ipld_eth_beacon_indexer.Tests.Toy.{fresh, forked_world}

abbrev root_and_status : DbSlots → String × String
root_and_status r = (r.block_root, r.status)

-- The reorg of slot 5 to its second block.
resolved_rows :
    map root_and_status (transact_reorgs memory 5 "0xbb" forked_world).1.store.working.slots
    ≡ ("0xaa", "forked") ∷ ("0xbb", "proposed") ∷ ("0xcc", "proposed") ∷ []
unfolding transact_reorgs updated_rows check_proposed_count meaning update_where
resolved_rows = refl

-- A proposed slot with a block and a state.
abbrev writer : DatabaseWriter
writer = record {
  tx_open = true;
  db_slots = record {
    epoch = 3;
    slot = 99;
    block_root = "0x01";
    state_root = "0x02";
    status = "proposed";
  };
  db_signed_beacon_block = record {
    slot = 99;
    block_root = "0x01";
    parent_block = "0x00";
    eth1_data_block_hash = "0x03";
    mh_key = "/blocks/a";
    execution_payload_header = none;
  };
  db_beacon_state = record { slot = 99; state_root = "0x02"; mh_key = "/blocks/b" };
  raw_beacon_state = 1 ∷ 2 ∷ [];
  raw_signed_beacon_block = 3 ∷ 4 ∷ [];
}

transact_full_slot-RanAll_example :
    Ensures
      (RanAll memory memory-IsPostgres no_tables (slot_stmts writer) no_tables)
      (Uncommitted memory memory-IsPostgres no_tables)
      (transact_full_slot memory writer fresh)
transact_full_slot-RanAll_example =
    transact_full_slot-RanAll memory memory-IsPostgres no_tables writer fresh refl

transact_full_slot-Stored_example :
    Ensures
      (Stored memory memory-IsPostgres no_tables writer)
      (Uncommitted memory memory-IsPostgres no_tables)
      (transact_full_slot memory writer fresh)
transact_full_slot-Stored_example =
    transact_full_slot-Stored memory memory-IsPostgres no_tables writer fresh refl

abbrev written : Tables
written = run_all (slot_stmts writer) no_tables

abbrev after : World Server
after = record fresh { store = record { committed = written; working = written } }

there : All (λ stmt. Has stmt written) (slot_stmts writer)
there = slot_stmts-Has writer no_tables

transact_full_slot-Unchanged_example :
    Ensures
      (Unchanged memory memory-IsPostgres written written)
      (Uncommitted memory memory-IsPostgres written)
      (transact_full_slot memory writer after)
transact_full_slot-Unchanged_example =
    transact_full_slot-Unchanged memory memory-IsPostgres written writer after refl there

-- The block that was written is there, with another state it is not: the state is looked up first.
is_slot_in_db-Answers_example :
    Returns
      (Answers memory memory-IsPostgres written (
        any (has_state_root 99 "0x05") written.state
        && any (has_block_root 99 "0x01") written.signed_block))
      (is_slot_in_db memory true false false 99 "0x01" "0x05" after)
is_slot_in_db-Answers_example =
    is_slot_in_db-Answers memory memory-IsPostgres written true false false 99 "0x01" "0x05" after
      refl

small-IsRange : IsRange 10 1 25
small-IsRange = record {
  positive = omega arith;
  ordered = omega arith;
  word = omega arith;
  narrow = omega arith;
}

transact_known_gaps-eq-cut_example :
    transact_known_gaps memory 10 1 25 none "startup" fresh
    ≡ upsert_all memory "" "startup" (cut 24 10 1 25) fresh
transact_known_gaps-eq-cut_example =
    transact_known_gaps-eq-cut memory 10 1 25 none "startup" fresh small-IsRange

-- Entries of eleven slots for an increment of ten, with slot 11 and slot 21 in two of them.
cut_ranges : cut 24 10 1 25 ≡ (1, 11) ∷ (11, 21) ∷ (21, 25) ∷ []
unfolding cut
cut_ranges = refl

transact_known_gaps-Fits_example :
    (ranges : List (ℕ × ℕ)) × ((transact_known_gaps memory 10 1 25 none "startup" fresh
        ≡ upsert_all memory "" "startup" ranges fresh)
      × (All (Fits 10 1 25) ranges × ((slot : ℕ) → 1 ≤ slot → slot ≤ 25 → Any (Holds slot) ranges)))
transact_known_gaps-Fits_example =
    transact_known_gaps-Fits memory 10 1 25 none "startup" fresh small-IsRange

-- The message of that reorg.
abbrev reorg : ChainReorg
reorg = record { slot = codes "5"; new_head_block = "0xbb" }

handle_reorg-IsResolved_example :
    Ensures
      (λ _ w'.
        IsResolved
          (parse_slot reorg.slot).0
          "0xbb"
          (in_db memory memory-IsPostgres forked_world).slots
          (in_db memory memory-IsPostgres w'))
      (Uncommitted memory memory-IsPostgres (in_db memory memory-IsPostgres forked_world))
      (handle_reorg memory reorg forked_world)
handle_reorg-IsResolved_example =
    handle_reorg-IsResolved memory memory-IsPostgres reorg forked_world
