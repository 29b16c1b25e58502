-- ===== src/ProcessSlot/Commits.antt =====
-- What `processFullSlot` and `handleHistoricSlot` (processslot.go) leave committed.
use ipld_eth_beacon_indexer.Base.{ℕ, ◌≡◌, ◌∙◌, String, none, some, ◌⊎◌, inl, inr}
use ipld_eth_beacon_indexer.Server.{Node}
use ipld_eth_beacon_indexer.Sql.{Driver}
use ipld_eth_beacon_indexer.Sql.Tables.{Tables}
use ipld_eth_beacon_indexer.Sql.Laws.{IsPostgres}
use ipld_eth_beacon_indexer.Consensus.{Zrnt}
use ipld_eth_beacon_indexer.Action.{World, Ensures}
use ipld_eth_beacon_indexer.Action.Rules.{Ensures-map}
use ipld_eth_beacon_indexer.Writer.KnownGaps.Table.{in_db, Uncommitted}
use ipld_eth_beacon_indexer.ProcessSlot.Marks.{handle_previous-Keeps}
use ipld_eth_beacon_indexer.Writer.Slot.{Ipfs, DatabaseWriter}
use ipld_eth_beacon_indexer.Writer.Slot.Statements.{run_all, slot_stmts}
use ipld_eth_beacon_indexer.ProcessSlot.{SlotProcessingDetails, Schedule}
use ipld_eth_beacon_indexer.ProcessSlot.Store.{SlotResult, handle_previous}
use ipld_eth_beacon_indexer.ProcessSlot.Full.{process_full_slot, handle_historic_slot}
use ipld_eth_beacon_indexer.ProcessSlot.Atomic.{Stored, Handles, process_full_slot-Stored}

module _ {S : Type 0} (db : Driver S) (laws : IsPostgres db) (db0 : Tables) where
  abbrev I : World S → Type 0
  I = Uncommitted db laws db0

  -- After an error nothing of the slot is committed.
  abbrev pub FailsClean : SlotResult → World S → Type 0
  FailsClean (some e, reason) w = Uncommitted db laws db0 w
  FailsClean (none, reason) w = Unit

  -- `processFullSlot`, at head or historic and with any arguments: when it returns an error, and when
  -- it ends the process by a fatal log or a panic, the committed tables are those before the call.
  pub process_full_slot-FailsClean :
      (z : Zrnt) (node : Node) (ipfs : Ipfs) (schedule : Schedule) (slot : ℕ)
      (block_root state_root : String) (previous_slot : ℕ) (previous_block_root : String)
      (increment : ℕ) (mode : String) (spd : SlotProcessingDetails) (w : World S)
      → Uncommitted db laws db0 w
      → Ensures FailsClean (Uncommitted db laws db0) (
          process_full_slot z node ipfs db schedule slot block_root state_root previous_slot
            previous_block_root increment mode spd w)
  process_full_slot-FailsClean z node ipfs schedule slot block_root state_root previous_slot
        previous_block_root increment mode spd w same =
      Ensures-map (Stored db laws db0 (λ _ _. Unit) slot Unit (λ _. ⊥) (λ s h. absurd h)) FailsClean
        I
        (process_full_slot z node ipfs db schedule slot block_root state_root previous_slot
          previous_block_root increment mode spd w)
        weaken
        (process_full_slot-Stored db laws db0 (λ _ _. Unit) slot Unit (λ _. ⊥) (λ s h. absurd h) z
          mode previous_slot previous_block_root increment
          (λ ps dw w1 for is_slot ran same1.
            Ensures-map (λ _. I) (λ _ w'. (Unit ⊎ ⊥) × I w') I
              (handle_previous z db ps previous_slot previous_block_root increment w1)
              (λ _ w' h. (inl tt, h))
              (handle_previous-Keeps db (λ s. laws.committed s ≡ db0)
                (λ stmt s mark same2. laws.tx_isolated stmt s ∙ same2) z ps previous_slot
                previous_block_root increment w1 same1))
          node ipfs schedule block_root state_root spd w (λ _. tt) (λ _ _. tt) same)
    where
      weaken :
          (r : SlotResult) (w' : World S)
          → Stored db laws db0 (λ _ _. Unit) slot Unit (λ _. ⊥) (λ s h. absurd h) r w'
          → FailsClean r w'
      weaken (some e, reason) w' h = h
      weaken (none, reason) w' h = tt

  -- A historic slot looks at no previous slot.
  historic-Handles :
      (slot : ℕ) (z : Zrnt) (previous_slot : ℕ) (previous_block_root : String) (increment : ℕ)
      → Handles db laws db0
          (λ dw t. t ≡ run_all (slot_stmts dw) db0)
          slot
          Unit
          (λ _. ⊥)
          (λ s h. absurd h)
          z
          "historic"
          previous_slot
          previous_block_root
          increment
  unfolding handle_previous
  historic-Handles slot z previous_slot previous_block_root increment ps dw w for is_slot ran same =
      rw for.1 (inl ran, same)

  -- After an error nothing is committed. With none, either nothing is committed, as the slot was
  -- there, or the statements of the slot and nothing else.
  abbrev pub SlotStored : ℕ → SlotResult → World S → Type 0
  SlotStored slot (some e, reason) w = Uncommitted db laws db0 w
  SlotStored slot (none, reason) w =
      Uncommitted db laws db0 w
      ⊎ ((dw : DatabaseWriter) × (dw.db_slots.slot ≡ slot)
          × (in_db db laws w ≡ run_all (slot_stmts dw) db0))

  SlotStored_lem :
      (slot : ℕ) (r : SlotResult) (w : World S)
      → Stored db laws db0
          (λ dw t. t ≡ run_all (slot_stmts dw) db0)
          slot
          Unit
          (λ _. ⊥)
          (λ s h. absurd h)
          r
          w
      → SlotStored slot r w
  SlotStored_lem slot (some e, reason) w h = h
  SlotStored_lem slot (none, reason) w (inl (same, why)) = inl same
  SlotStored_lem slot (none, reason) w (inr stored) = inr stored

  -- `handleHistoricSlot`: after an error, a fatal log or a panic the committed tables are those
  -- before the call. When it returns no error, they are either unchanged or what the statements of
  -- one writer of this slot make of them, run in order and nothing else.
  pub handle_historic_slot-SlotStored :
      (z : Zrnt) (node : Node) (ipfs : Ipfs) (schedule : Schedule) (slot : ℕ)
      (spd : SlotProcessingDetails) (w : World S)
      → Uncommitted db laws db0 w
      → Ensures
          (SlotStored slot)
          (Uncommitted db laws db0)
          (handle_historic_slot z node ipfs db schedule slot spd w)
  unfolding handle_historic_slot
  handle_historic_slot-SlotStored z node ipfs schedule slot spd w same =
      Ensures-map
        (Stored db laws db0 (λ dw t. t ≡ run_all (slot_stmts dw) db0) slot Unit (λ _. ⊥)
          (λ s h. absurd h))
        (SlotStored slot) I
        (process_full_slot z node ipfs db schedule slot "" "" 0 "" 1 "historic" spd w)
        (SlotStored_lem slot)
        (process_full_slot-Stored db laws db0 (λ dw t. t ≡ run_all (slot_stmts dw) db0) slot Unit
          (λ _. ⊥) (λ s h. absurd h) z "historic" 0 "" 1 (historic-Handles slot z 0 "" 1) node ipfs
          schedule "" "" spd w (λ _. tt) (λ _ _. tt) same)
