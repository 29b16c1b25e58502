-- ===== src/Tests/Processing.antt =====
-- Whole slots: processslot.go, with the stand-ins of the libraries, the node and the server.
use ipld_eth_beacon_indexer.Base.{refl, false, arith}
use ipld_eth_beacon_indexer.Action.{Ensures}
use ipld_eth_beacon_indexer.Sql.Memory.{no_tables, memory, memory-IsPostgres}
use ipld_eth_beacon_indexer.Writer.KnownGaps.Table.{Uncommitted}
use ipld_eth_beacon_indexer.ProcessSlot.{ProcessSlot, new_process_slot}
use ipld_eth_beacon_indexer.ProcessSlot.Store.{check_parent}
use ipld_eth_beacon_indexer.ProcessSlot.Full.{process_full_slot, handle_historic_slot, never_done}
use ipld_eth_beacon_indexer.ProcessSlot.Commits.{
  FailsClean, SlotStored, process_full_slot-FailsClean, handle_historic_slot-SlotStored,
}
use ipld_eth_beacon_indexer.ProcessSlot.Previous.{Checked, check_parent-Linked}
use ipld_eth_beacon_indexer.Tests.Toy.{
  toy, toy_node, toy_ipfs, details, fresh, fork_tables, forked_world,
}

process_full_slot-FailsClean_example :
    Ensures
      (FailsClean memory memory-IsPostgres no_tables)
      (Uncommitted memory memory-IsPostgres no_tables)
      (process_full_slot toy toy_node toy_ipfs memory
        (never_done false)
        40
        "0x01"
        "0x02"
        39
        "0x00"
        100
        "head"
        details
        fresh)
process_full_slot-FailsClean_example =
    process_full_slot-FailsClean memory memory-IsPostgres no_tables toy toy_node toy_ipfs
      (never_done false) 40 "0x01" "0x02" 39 "0x00" 100 "head" details fresh refl

handle_historic_slot-SlotStored_example :
    Ensures
      (SlotStored memory memory-IsPostgres no_tables 40)
      (Uncommitted memory memory-IsPostgres no_tables)
      (handle_historic_slot toy toy_node toy_ipfs memory (never_done false) 40 details fresh)
handle_historic_slot-SlotStored_example =
    handle_historic_slot-SlotStored memory memory-IsPostgres no_tables toy toy_node toy_ipfs
      (never_done false) 40 details fresh refl

abbrev at_head : ProcessSlot toy
at_head = new_process_slot toy 5 "0xbb" "" "head"

check_parent-Linked_example :
    Ensures
      (Checked memory memory-IsPostgres fork_tables forked_world 5 "0xbb" "0x99" 5 "0xaa")
      (Uncommitted memory memory-IsPostgres fork_tables)
      (check_parent toy memory at_head "0x99" 5 "0xaa" 100 forked_world)
check_parent-Linked_example =
    check_parent-Linked memory memory-IsPostgres fork_tables toy at_head "0x99" 5 "0xaa" 100
      forked_world (omega arith) (omega arith) (omega arith) refl
