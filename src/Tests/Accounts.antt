-- ===== src/Tests/Accounts.antt =====
-- A slot at head and one of a range on the server in memory.
use ipld_eth_beacon_indexer.Base.{
  ℕ, ◌≤◌, ◌==◌, some, ◌≡◌, List, [], ◌∷◌, ◌++◌, map, arith, true, false,
}
use ipld_eth_beacon_indexer.Writer.KnownGaps.Table.{in_db}
use ipld_eth_beacon_indexer.Batch.Pipeline.Account.{times}
use ipld_eth_beacon_indexer.Head.Sequence.{good_slots}
use ipld_eth_beacon_indexer.Head.Schedule.{Turn, message, process, run_turns, at_first, messages}
use ipld_eth_beacon_indexer.Head.Schedule.Starts.{AllIn, started_times}
use ipld_eth_beacon_indexer.Head.Schedule.Accounted.{run_turns-Accounted}
use ipld_eth_beacon_indexer.Tests.Streams.{settings, tracking, heads}
use ipld_eth_beacon_indexer.Action.{Ensures}
use ipld_eth_beacon_indexer.Sql.{known_gaps}
use ipld_eth_beacon_indexer.Sql.Memory.{memory, memory-IsPostgres, memory-AbortsFailed}
use ipld_eth_beacon_indexer.ProcessSlot.Full.{never_done}
use ipld_eth_beacon_indexer.Batch.{SlotsToProcess, Message, distribute}
use ipld_eth_beacon_indexer.Batch.Range.{run_messages}
use ipld_eth_beacon_indexer.Batch.Range.Accounted.{run_range-Accounted}
use ipld_eth_beacon_indexer.ProcessSlot.{Schedule}
use ipld_eth_beacon_indexer.Batch.Accounted.{AccountedUnless}
use ipld_eth_beacon_indexer.Tests.Toy.{toy, toy_ipfs, toy_node, details, fresh, forked_world}

abbrev range : SlotsToProcess
range = record { start_slot = 5; end_slot = 7 }

-- A range of the known gaps, of which the second slot finds the context done.
abbrev schedule : ℕ → Schedule
schedule slot = record (never_done false) { start_done = slot == 6 }

run_range-Accounted_example :
    (messages : List Message) × ((distribute range ≡ some messages)
      × Ensures
          (λ _ w'.
            (slot : ℕ)
            → 5 ≤ slot
            → slot ≤ 7
            → AccountedUnless memory memory-IsPostgres (schedule slot).start_done details slot w')
          (λ _. Unit)
          (run_messages toy toy_node toy_ipfs memory known_gaps details schedule messages
            forked_world))
run_range-Accounted_example =
    run_range-Accounted memory memory-IsPostgres memory-AbortsFailed toy toy_node toy_ipfs
      known_gaps details schedule range forked_world (omega arith) (omega arith)

-- Three messages, of which one is bad; the second call returns before the first.
abbrev turns : List Turn
turns = map message heads ++ process 1 false ∷ process 0 true ∷ []

run_turns-Accounted_example :
    Ensures
      (λ p w'.
        AllIn p.finished (in_db memory memory-IsPostgres w')
        × ((slot : ℕ) → started_times slot p ≡ times slot (good_slots (messages turns))))
      (λ _. Unit)
      (run_turns toy toy_node toy_ipfs memory settings turns (at_first tracking) fresh)
run_turns-Accounted_example =
    run_turns-Accounted memory memory-IsPostgres memory-AbortsFailed toy toy_node toy_ipfs settings
      turns tracking fresh (omega arith)
