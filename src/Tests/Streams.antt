-- ===== src/Tests/Streams.antt =====
-- Runs of an event stream, several head messages, and the shutdown.
use ipld_eth_beacon_indexer.Base.{ℕ, ◌≡◌, refl, List, [], ◌∷◌, some, Bool, true}
use ipld_eth_beacon_indexer.Slot.{codes}
use ipld_eth_beacon_indexer.Sql.Tables.{Tables, BatchRow}
use ipld_eth_beacon_indexer.Sql.Memory.{Server, no_tables, serving, memory}
use ipld_eth_beacon_indexer.Metrics.{no_metrics}
use ipld_eth_beacon_indexer.Action.{World, Ensures}
use ipld_eth_beacon_indexer.Consensus.{Coded, coded}
use ipld_eth_beacon_indexer.Head.{Head, Settings, Tracking}
use ipld_eth_beacon_indexer.Head.Sequence.{
  Linked, good_slots, call_slots, handle_heads, handle_heads-Linked,
}
use ipld_eth_beacon_indexer.Events.{
  SseEvents, connect, deliver, take_message, parse, process, idle, disconnect, Reach, begin, later,
  opened,
}
use ipld_eth_beacon_indexer.Events.Messages.{Delivered, Counted, Parsed, Reach-Delivered}
use ipld_eth_beacon_indexer.Tests.Toy.{fresh}

-- Every message is an event.
abbrev unmarshal : List ℕ → Coded (List ℕ)
unmarshal msg = coded msg

-- Two messages were delivered, 1 and then 2, and processed in the other order.
abbrev overtaken : SseEvents
overtaken = record opened {
  subscribed = true;
  delivered = (2 ∷ []) ∷ (1 ∷ []) ∷ [];
  processed = (1 ∷ []) ∷ (2 ∷ []) ∷ [];
}

overtaken-reached : Reach unmarshal true overtaken
overtaken-reached =
    let two_taken : Reach unmarshal true (record opened {
      subscribed = true;
      parsing = (2 ∷ []) ∷ (1 ∷ []) ∷ [];
      delivered = (2 ∷ []) ∷ (1 ∷ []) ∷ [];
    }) =
      later
        (later
          (later (later (later begin (connect _)) (deliver _ 1 [] refl refl))
            (take_message _ 1 [] refl))
          (deliver _ 2 [] refl refl))
        (take_message _ 2 [] refl) in
    later
      (later
        (later (later two_taken (parse _ [] (2 ∷ []) _ (2 ∷ []) refl refl))
          (process _ [] (2 ∷ []) [] refl))
        (parse _ [] (1 ∷ []) [] (1 ∷ []) refl refl))
      (process _ [] (1 ∷ []) [] refl)

Reach-Delivered_example :
    ((test : List ℕ → Bool) → Delivered overtaken test)
    × (Counted unmarshal true overtaken × Parsed unmarshal true overtaken)
Reach-Delivered_example = Reach-Delivered unmarshal true overtaken-reached

-- A stream that was left by the shutdown is subscribed again by the idle timeout, and where
-- finishProcessingChannel ends, with no message in MessagesCh, one may be on its way.
resubscribed : Reach unmarshal true (record opened {
  subscribed = true;
  parsing = (1 ∷ []) ∷ [];
  delivered = (1 ∷ []) ∷ [];
  timeouts = 1;
  error_metric = 1;
})
resubscribed =
    later
      (later
        (later (later (later begin (connect _)) (deliver _ 1 [] refl refl))
          (take_message _ 1 [] refl))
        (disconnect _))
      (idle _ true refl)

abbrev pub settings : Settings
settings = record {
  server_endpoint = "http://localhost:5052";
  known_gap_table_increment = 100;
  check_db = true;
  perform_beacon_state_processing = true;
  perform_beacon_block_processing = true;
}

abbrev pub tracking : Tracking
tracking = record {
  previous_slot = 40;
  previous_block_root = "0x01";
  starting_slot = 1;
  error_slots = 0;
}

-- A good message, a bad one and a good one.
abbrev pub heads : List Head
heads =
    record { slot = codes "41"; block = "0x02"; state = "0x12" }
    ∷ record { slot = codes "x"; block = "0x03"; state = "0x13" }
    ∷ record { slot = codes "44"; block = "0x04"; state = "0x14" }
    ∷ []

handle_heads-Linked_example :
    Ensures
      (λ r _. Linked 40 "0x01" r.1 × (call_slots r.1 ≡ good_slots heads))
      (λ _. Unit)
      (handle_heads memory settings heads tracking fresh)
handle_heads-Linked_example = handle_heads-Linked memory settings heads tracking fresh

abbrev held : BatchRow
held = record {
  start_slot = 5;
  end_slot = 6;
  checked_out = true;
  checked_out_by = some "12";
  priority = 1;
  reprocessing_error = "";
  entry_error = "";
  entry_process = "";
}

abbrev tables : Tables
tables = record no_tables { historic = held ∷ []; gaps = held ∷ [] }

abbrev world : World Server
world = record { store = serving tables; metrics = no_metrics }
