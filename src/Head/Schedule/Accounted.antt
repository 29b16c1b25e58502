-- ===== src/Head/Schedule/Accounted.antt =====
-- No slot at head is lost, in whatever order the messages and the calls of `processHeadSlot` take
-- their turns (pkg/beaconclient/processevents.go and processslot.go).
use ipld_eth_beacon_indexer.Base.{
  ℕ, ◌+◌, ◌<◌, ◌≡◌, refl, List, [], ◌∷◌, Option, none, some, Bool, All, arith,
}
use ipld_eth_beacon_indexer.Slot.{NumError, parse_slot}
use ipld_eth_beacon_indexer.Sql.{Driver}
use ipld_eth_beacon_indexer.Sql.Laws.{IsPostgres, AbortsFailed}
use ipld_eth_beacon_indexer.Server.{Node}
use ipld_eth_beacon_indexer.Consensus.{Zrnt}
use ipld_eth_beacon_indexer.Action.{World, Action, pure, Ensures}
use ipld_eth_beacon_indexer.Action.Rules.{Ensures-bind, Ensures-map, Ensures-weaken, Ensures-both}
use ipld_eth_beacon_indexer.Writer.KnownGaps.Table.{in_db}
use ipld_eth_beacon_indexer.Writer.Slot.{Ipfs}
use ipld_eth_beacon_indexer.ProcessSlot.Full.{process_head_slot}
use ipld_eth_beacon_indexer.ProcessSlot.Accounted.{Accounted, process_head_slot-Accounted}
use ipld_eth_beacon_indexer.ProcessSlot.Undisturbed.{process_head_slot-Keeps}
use ipld_eth_beacon_indexer.Batch.Pipeline.Account.{times}
use ipld_eth_beacon_indexer.Head.{Tracking, Settings, Spawned, handle_head}
use ipld_eth_beacon_indexer.Head.Sequence.{with_parsed, good_slots}
use ipld_eth_beacon_indexer.Head.Schedule.{
  Turn, message, process, Progress, take_at, added, run_call, run_turn, run_turns, at_first,
  messages,
}
use ipld_eth_beacon_indexer.Head.Schedule.Starts.{
  AllIn, mark-AllIn, insert-AllIn, Sound, started_times, Takes, take_at-Takes, Starts,
  parsed_head-Starts, turn_slots, added-times, added-Sound,
}

module _ {S : Type 0} (db : Driver S) (laws : IsPostgres db) (aborts : AbortsFailed db) (z : Zrnt)
    (node : Node) (ipfs : Ipfs) (bc : Settings) where
  -- The calls that have returned are accounted for, the others can be, and of each slot as many were
  -- started as were before and these more.
  abbrev Holds : Progress → World S → Type 0
  Holds p w = All Sound p.pending × AllIn p.finished (in_db db laws w)

  abbrev Moved : Progress → List ℕ → Progress → World S → Type 0
  Moved p slots p' w' =
      Holds p' w' × ((slot : ℕ) → started_times slot p' ≡ started_times slot p + times slot slots)

  run_call-Moved :
      (state_first : Bool) (p : Progress) (o : Option (Spawned × List Spawned)) (w : World S)
      → Takes p.pending o
      → Holds p w
      → Ensures (Moved p []) (λ _. Unit) (run_call z node ipfs db bc state_first p o w)
  run_call-Moved state_first p none w takes h = (h, λ slot. omega arith)
  run_call-Moved state_first p (some (call, rest)) w takes h =
      let (sound, others) = takes.0 h.0 in
      let now : World S → Type 0 = Accounted db laws aborts call.details call.slot in
      let before : World S → Type 0 = λ w'. AllIn p.finished (in_db db laws w') in
      let run : Action S (Unit {0}) =
        process_head_slot z node ipfs db state_first call.slot call.block call.state call.details in
      Ensures-bind (λ _ w'. now w' × before w') (Moved p []) (λ _. Unit) run _ w
        (Ensures-weaken (λ _ w'. now w' × before w') (λ _ w'. now w' × before w')
          (λ w'. Unit × before w') (λ _. Unit) (run w) (λ _ _ k. k) (λ _ _. tt)
          (Ensures-both (λ _. now) (λ _. before) (λ _. Unit) before (run w)
            (process_head_slot-Accounted db laws aborts z node ipfs state_first call.slot call.block
              call.state call.details w sound.0 sound.1)
            (process_head_slot-Keeps db laws aborts (AllIn p.finished) (mark-AllIn p.finished)
              (insert-AllIn p.finished) z node ipfs state_first call.slot call.block call.state
              call.details w h.1)))
        (λ _ w' k. ((others, k), λ slot. omega (arith, takes.1 slot)))

  run_turn-Moved :
      (turn : Turn) (p : Progress) (w : World S)
      → 0 < bc.known_gap_table_increment
      → Holds p w
      → Ensures (Moved p (turn_slots turn)) (λ _. Unit) (run_turn z node ipfs db bc turn p w)
  unfolding run_turn handle_head
  run_turn-Moved (message head) p w positive h =
      Ensures-bind
        (λ r w'. Starts bc (parse_slot head.slot) r.1 × AllIn p.finished (in_db db laws w'))
        (Moved p (turn_slots (message head))) (λ _. Unit) (handle_head db bc p.tracking head)
        (λ (after, call). pure (record p { tracking = after; pending = added call p.pending })) w
        (parsed_head-Starts db laws aborts bc p.finished p.tracking head (parse_slot head.slot) w
          h.1)
        (λ (after, call) w' k. (
          (added-Sound bc head _ call p.pending positive refl k.0 h.0, k.1),
          λ slot. omega (arith, added-times bc slot head _ call p.pending refl k.0),
        ))
  run_turn-Moved (process place state_first) p w positive h =
      run_call-Moved state_first p (take_at place p.pending) w (take_at-Takes place p.pending) h

  parsed-times :
      (slot : ℕ) (parsed : ℕ × Option NumError) (slots : List ℕ)
      → times slot (with_parsed parsed slots)
        ≡ times slot (with_parsed parsed []) + times slot slots
  parsed-times slot (n, some e) slots = omega arith
  parsed-times slot (n, none) slots = omega arith

  turns-times :
      (slot : ℕ) (turn : Turn) (turns : List Turn)
      → times slot (good_slots (messages (turn ∷ turns)))
        ≡ times slot (turn_slots turn) + times slot (good_slots (messages turns))
  turns-times slot (message head) turns =
      parsed-times slot (parse_slot head.slot) (good_slots (messages turns))
  turns-times slot (process place state_first) turns = omega arith

  run_turns-Moved :
      (turns : List Turn) (p : Progress) (w : World S)
      → 0 < bc.known_gap_table_increment
      → Holds p w
      → Ensures
          (Moved p (good_slots (messages turns)))
          (λ _. Unit)
          (run_turns z node ipfs db bc turns p w)
  unfolding run_turns
  run_turns-Moved [] p w positive h = (h, λ slot. omega arith)
  run_turns-Moved (turn ∷ turns) p w positive h =
      Ensures-bind (Moved p (turn_slots turn)) (Moved p (good_slots (messages (turn ∷ turns))))
        (λ _. Unit) (run_turn z node ipfs db bc turn p) (run_turns z node ipfs db bc turns) w
        (run_turn-Moved turn p w positive h)
        (λ p1 w1 step.
          Ensures-map (Moved p1 (good_slots (messages turns)))
            (Moved p (good_slots (messages (turn ∷ turns)))) (λ _. Unit)
            (run_turns z node ipfs db bc turns p1 w1)
            (λ p2 w2 rest. (
              rest.0,
              λ slot. omega (arith, step.1 slot, rest.1 slot, turns-times slot turn turns),
            ))
            (run_turns-Moved turns p1 w1 positive step.0))

  -- With a positive increment, in whatever order the messages and the calls that they start take
  -- their turns, unless the process ends: for every slot, as many calls have returned or are pending
  -- as there are messages whose slot parses to it; and the slot of each call that has returned has a
  -- committed row, or the check of the database is on and each of its objects that is processed has
  -- one, or a committed known gap holds it.
  pub run_turns-Accounted :
      (turns : List Turn) (t : Tracking) (w : World S)
      → 0 < bc.known_gap_table_increment
      → Ensures
          (λ p w'.
            AllIn p.finished (in_db db laws w')
            × ((slot : ℕ) → started_times slot p ≡ times slot (good_slots (messages turns))))
          (λ _. Unit)
          (run_turns z node ipfs db bc turns (at_first t) w)
  run_turns-Accounted turns t w positive =
      Ensures-map (Moved (at_first t) (good_slots (messages turns)))
        (λ p w'.
          AllIn p.finished (in_db db laws w')
          × ((slot : ℕ) → started_times slot p ≡ times slot (good_slots (messages turns))))
        (λ _. Unit) (run_turns z node ipfs db bc turns (at_first t) w)
        (λ p w' h. (h.0.1, λ slot. omega (arith, h.1 slot)))
        (run_turns-Moved turns (at_first t) w positive (tt, tt))
