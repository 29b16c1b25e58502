-- ===== src/ProcessSlot/Undisturbed.antt =====
-- `processHeadSlot`, `processFullSlot` and the known gaps (processslot.go, databasewrite.go) keep what
-- their statements keep of the committed tables, whether they return or end the process.
use ipld_eth_beacon_indexer.Base.{
  ℕ, refl, sym, subst, String, Option, none, some, Bool, inl, inr, ◌==◌, ◌/=◌, ltb, str_eq, ◌&&◌,
}
use ipld_eth_beacon_indexer.Word.{sub64, add64}
use ipld_eth_beacon_indexer.Sql.{Error, Driver, Row-cases, is_no_rows, is_scan_failed, is_scanned}
use ipld_eth_beacon_indexer.Sql.Tables.{Tables}
use ipld_eth_beacon_indexer.Sql.Laws.{IsPostgres, AbortsFailed}
use ipld_eth_beacon_indexer.Server.{Node}
use ipld_eth_beacon_indexer.Consensus.{Zrnt}
use ipld_eth_beacon_indexer.Action.{World, Action, pure}
use ipld_eth_beacon_indexer.Action.Rules.{Ensures-weaken}
use ipld_eth_beacon_indexer.Action.Keeps.{Keeps, Keeps-bind, Keeps-if}
use ipld_eth_beacon_indexer.Writer.KnownGaps.Table.{in_db, Uncommitted}
use ipld_eth_beacon_indexer.Writer.KnownGaps.{
  transact_known_gaps, write_known_gaps, write_missing, write_start_up_gaps,
}
use ipld_eth_beacon_indexer.Writer.Kept.{transact_known_gaps-Kept}
use ipld_eth_beacon_indexer.Writer.Transact.{transact-or}
use ipld_eth_beacon_indexer.Writer.Slot.{Ipfs}
use ipld_eth_beacon_indexer.ProcessSlot.{SlotProcessingDetails, Schedule}
use ipld_eth_beacon_indexer.ProcessSlot.Store.{SlotResult}
use ipld_eth_beacon_indexer.ProcessSlot.Full.{
  never_done, start_up, gap_of_slot, process_full_slot, process_head_slot,
}
use ipld_eth_beacon_indexer.ProcessSlot.Grown.{
  KeptByMarks, KeptByInserts, slot_stmts-KeptByInserts, Pending, exec-Pending, marks-Handles,
}
use ipld_eth_beacon_indexer.ProcessSlot.Atomic.{Stored, process_full_slot-Stored}

module _ {S : Type 0} (db : Driver S) (laws : IsPostgres db) (aborts : AbortsFailed db)
    (Q : Tables → Type 0) (marks : KeptByMarks Q) where
  -- The property of the committed tables.
  abbrev pub Committed : World S → Type 0
  Committed w = Q (in_db db laws w)

  unchanged : (db0 : Tables) (w : World S) → Q db0 → Uncommitted db laws db0 w → Committed w
  unchanged db0 w h same = subst Q (sym same) h

  pub write_known_gaps-Keeps :
      (increment start end : ℕ) (error : Option Error) (process : String)
      → Keeps Committed (write_known_gaps db increment start end error process)
  unfolding write_known_gaps
  write_known_gaps-Keeps increment start end error process w h =
      let db0 : Tables = in_db db laws w in
      let body : Action S (Unit {0}) = transact_known_gaps db increment start end error process in
      let Held : S → Type 0 = Pending db laws aborts Q marks db0 in
      Ensures-weaken (λ _. Committed) (λ _. Committed) (Uncommitted db laws db0) Committed _
        (λ _ _ kept. kept) (λ w' same. unchanged db0 w' h same)
        (transact-or db laws db0 aborts.Aborted aborts.aborted_commit Q body w refl
          (λ w1 opened same1.
            Ensures-weaken (λ _ w'. Held w'.store) (λ _ w'. Held w'.store) (λ w'. Held w'.store)
              (Uncommitted db laws db0) (body w1) (λ _ _ kept. kept) (λ _ kept. kept.1)
              (transact_known_gaps-Kept db Held (exec-Pending db laws aborts Q marks db0) increment
                start end error process w1 (inl (subst Q (sym opened) h), same1))))

  write_missing-Keeps :
      (increment highest last : ℕ) → Keeps Committed (write_missing db increment highest last)
  unfolding write_missing
  write_missing-Keeps increment highest last =
      Keeps-if Committed (highest /= last) _ (pure tt)
        (Keeps-if Committed (ltb highest last) _ (pure tt)
          (Keeps-if Committed (highest == 0)
            (write_known_gaps db increment highest last (some "") "startup")
            (write_known_gaps db increment (add64 highest 1) last (some "") "startup")
            (write_known_gaps-Keeps increment highest last (some "") "startup")
            (write_known_gaps-Keeps increment (add64 highest 1) last (some "") "startup"))
          (λ w h. h))
        (λ w h. h)

  write_start_up_gaps-Keeps :
      (increment first : ℕ) → Keeps Committed (write_start_up_gaps db increment first)
  unfolding write_start_up_gaps
  write_start_up_gaps-Keeps increment first w h =
      let s : S = (db.query_highest_slot w.store).1 in
      let h1 : Committed (record w { store = s }) =
        subst Q (sym (laws.highest_slot_reads w.store)) h in
      elim (Row-cases (db.query_highest_slot w.store).0) [
        | is_no_rows e ↦ rw e h1
        | is_scan_failed error e ↦ rw e h1
        | is_scanned m e ↦
            rw e (write_missing-Keeps increment m (sub64 first 1) (record w { store = s }) h1)
      ]

  start_up-Keeps : (spd : SlotProcessingDetails) (slot : ℕ) → Keeps Committed (start_up db spd slot)
  start_up-Keeps spd slot =
      Keeps-if Committed (spd.previous_slot == 0 && str_eq spd.previous_block_root "")
        (write_start_up_gaps db spd.known_gap_table_increment slot) (pure tt)
        (write_start_up_gaps-Keeps spd.known_gap_table_increment slot) (λ w h. h)

  gap_of_slot-Keeps :
      (spd : SlotProcessingDetails) (slot : ℕ) (r : SlotResult)
      → Keeps Committed (gap_of_slot db spd slot r)
  gap_of_slot-Keeps spd slot (none, reason) = λ w h. h
  gap_of_slot-Keeps spd slot (some e, reason) =
      write_known_gaps-Keeps spd.known_gap_table_increment slot slot (some e) reason

  module _ (inserts : KeptByInserts Q) (z : Zrnt) (node : Node) (ipfs : Ipfs) where
    pub process_full_slot-Keeps :
        (schedule : Schedule) (slot : ℕ) (block_root state_root : String) (previous_slot : ℕ)
        (previous_block_root : String) (increment : ℕ) (mode : String) (spd : SlotProcessingDetails)
        → Keeps Committed (
            process_full_slot z node ipfs db schedule slot block_root state_root previous_slot
              previous_block_root increment mode spd)
    process_full_slot-Keeps schedule slot block_root state_root previous_slot previous_block_root
          increment mode spd w h =
        let db0 : Tables = in_db db laws w in
        Ensures-weaken
          (Stored db laws db0 (λ _ t. Q t) slot Unit aborts.Aborted aborts.aborted_commit)
          (λ _. Committed) (Uncommitted db laws db0) Committed _ (kept db0 slot h)
          (λ w' same. unchanged db0 w' h same)
          (process_full_slot-Stored db laws db0 (λ _ t. Q t) slot Unit aborts.Aborted
            aborts.aborted_commit z mode previous_slot previous_block_root increment
            (marks-Handles db laws aborts Q marks db0 slot Unit z mode previous_slot
              previous_block_root increment
              (λ dw t is_slot ran. subst Q (sym ran) (slot_stmts-KeptByInserts Q dw db0 inserts h)))
            node ipfs schedule block_root state_root spd w (λ _. tt) (λ _ _. tt) refl)
      where
        kept :
            (db0 : Tables) (n : ℕ)
            → Q db0
            → (r : SlotResult) (w' : World S)
            → Stored db laws db0 (λ _ t. Q t) n Unit aborts.Aborted aborts.aborted_commit r w'
            → Committed w'
        kept db0 n before (some e, reason) w' same = unchanged db0 w' before same
        kept db0 n before (none, reason) w' (inl (same, why)) = unchanged db0 w' before same
        kept db0 n before (none, reason) w' (inr (dw, is_slot, after)) = after

    pub process_head_slot-Keeps :
        (state_first : Bool) (slot : ℕ) (block_root state_root : String)
        (spd : SlotProcessingDetails)
        → Keeps Committed
            (process_head_slot z node ipfs db state_first slot block_root state_root spd)
    unfolding process_head_slot
    process_head_slot-Keeps state_first slot block_root state_root spd =
        Keeps-bind Committed (start_up db spd slot) _ (start_up-Keeps spd slot) (λ _.
          Keeps-bind Committed
            (process_full_slot z node ipfs db (never_done state_first) slot block_root state_root
              spd.previous_slot spd.previous_block_root spd.known_gap_table_increment "head" spd)
            (λ r. gap_of_slot db spd slot r)
            (process_full_slot-Keeps (never_done state_first) slot block_root state_root
              spd.previous_slot spd.previous_block_root spd.known_gap_table_increment "head" spd)
            (gap_of_slot-Keeps spd slot))
