-- ===== src/ProcessSlot/Accounted.antt =====
-- No slot at head is lost: `processHeadSlot` (pkg/beaconclient/processslot.go) leaves its row, or a known
-- gap.
use ipld_eth_beacon_indexer.Base.{
  ℕ, ◌≤◌, ◌<◌, ◌≡◌, ◌⊎◌, ◌∙◌, refl, sym, subst, String, List, [], ◌∷◌, none, some, Bool, true, ◌==◌,
  inl, inr, arith,
}
use ipld_eth_beacon_indexer.Word.{max_u64}
use ipld_eth_beacon_indexer.Models.{DbSlots}
use ipld_eth_beacon_indexer.Sql.{Driver, Stmt, update_forked, update_proposed, upsert_known_gaps}
use ipld_eth_beacon_indexer.Sql.Tables.{Tables, has_root, has_other_root, set_status, meaning}
use ipld_eth_beacon_indexer.Sql.Tables.Rows.{any, update_where}
use ipld_eth_beacon_indexer.Sql.Laws.{IsPostgres, AbortsFailed}
use ipld_eth_beacon_indexer.Server.{Node}
use ipld_eth_beacon_indexer.Consensus.{Zrnt}
use ipld_eth_beacon_indexer.Action.{World, Ensures}
use ipld_eth_beacon_indexer.Action.Rules.{Ensures-bind, Ensures-weaken, Ensures-Unit}
use ipld_eth_beacon_indexer.Writer.KnownGaps.Ranges.{IsRange}
use ipld_eth_beacon_indexer.Writer.KnownGaps.Table.{in_db, Uncommitted, Covers}
use ipld_eth_beacon_indexer.Writer.KnownGaps.{write_known_gaps}
use ipld_eth_beacon_indexer.Writer.KnownGaps.Commit.{write_known_gaps-Covers}
use ipld_eth_beacon_indexer.Writer.Kept.{IsMark}
use ipld_eth_beacon_indexer.Writer.Slot.{Ipfs, DatabaseWriter}
use ipld_eth_beacon_indexer.Writer.Slot.Statements.{run_all, slot_stmts}
use ipld_eth_beacon_indexer.Writer.Slot.Idempotent.{slot_stmts-Has}
use ipld_eth_beacon_indexer.ProcessSlot.{SlotProcessingDetails}
use ipld_eth_beacon_indexer.ProcessSlot.Store.{SlotResult}
use ipld_eth_beacon_indexer.ProcessSlot.Full.{
  never_done, start_up, gap_of_slot, process_full_slot, process_head_slot,
}
use ipld_eth_beacon_indexer.ProcessSlot.Grown.{marks-Handles}
use ipld_eth_beacon_indexer.ProcessSlot.Found.{Found}
use ipld_eth_beacon_indexer.ProcessSlot.Atomic.{Stored, process_full_slot-Stored}

-- eth_beacon.slots has a row of the slot.
abbrev pub HasSlot : ℕ → Tables → Type 0
HasSlot slot t = any (λ r. r.slot == slot) t.slots ≡ true

any-weaken :
    (slot : ℕ) (root : String) (rows : List DbSlots)
    → any (has_root slot root) rows ≡ true
    → any (λ r. r.slot == slot) rows ≡ true
unfolding any
any-weaken slot root [] h = h
any-weaken slot root (r ∷ rows) h = ground (arith, any-weaken slot root rows)

any-update :
    (slot : ℕ) (test : DbSlots → Bool) (status : String) (rows : List DbSlots)
    → any (λ r. r.slot == slot) (update_where test (set_status status) rows).1
      ≡ any (λ r. r.slot == slot) rows
unfolding any update_where
any-update slot test status [] = refl
any-update slot test status (r ∷ rows) = ground (arith, any-update slot test status rows)

-- The statements of reorgs and known gaps delete no row of a slot.
pub mark-HasSlot :
    (slot : ℕ) (stmt : Stmt) (t : Tables)
    → IsMark stmt
    → HasSlot slot t
    → HasSlot slot (meaning stmt t).1
unfolding meaning
mark-HasSlot slot (upsert_known_gaps g) t mark h = h
mark-HasSlot slot (update_forked n root) t mark h =
    any-update slot (has_other_root n root) "forked" t.slots ∙ h
mark-HasSlot slot (update_proposed n root) t mark h =
    any-update slot (has_root n root) "proposed" t.slots ∙ h
mark-HasSlot slot _ t mark h = absurd mark

-- The slot has a row, or its objects were there before and the check found them, or a known gap
-- holds it.
abbrev pub AccountedIn : SlotProcessingDetails → ℕ → Tables → Type 0
AccountedIn spd slot t =
    HasSlot slot t ⊎ (((spd.check_db ≡ true) × Found spd slot t) ⊎ Covers slot t)

-- The statements of a slot leave its row.
pub row-run_all :
    (db0 : Tables) (slot : ℕ) (dw : DatabaseWriter) (t : Tables)
    → dw.db_slots.slot ≡ slot
    → t ≡ run_all (slot_stmts dw) db0
    → HasSlot slot t
row-run_all db0 slot dw t is_slot ran = subst (HasSlot slot) (sym ran) (
    subst (λ n. HasSlot n (run_all (slot_stmts dw) db0)) is_slot
      (any-weaken dw.db_slots.slot dw.db_slots.block_root (run_all (slot_stmts dw) db0).slots
        (slot_stmts-Has dw db0).0))

module _ {S : Type 0} (db : Driver S) (laws : IsPostgres db) (aborts : AbortsFailed db) where
  abbrev pub Accounted : SlotProcessingDetails → ℕ → World S → Type 0
  Accounted spd slot w = AccountedIn spd slot (in_db db laws w)

  result-Accounted :
      (db0 : Tables) (spd : SlotProcessingDetails) (slot : ℕ) (r : SlotResult) (w : World S)
      → 0 < spd.known_gap_table_increment
      → slot ≤ max_u64
      → Stored db laws db0
          (λ dw t. HasSlot slot t)
          slot
          ((spd.check_db ≡ true) × Found spd slot db0)
          aborts.Aborted
          aborts.aborted_commit
          r
          w
      → Ensures (λ _. Accounted spd slot) (λ _. Unit) (gap_of_slot db spd slot r w)
  result-Accounted db0 spd slot (none, reason) w positive word (inl (same, found)) =
      inr (inl (found.0, subst (Found spd slot) (sym same) found.1))
  result-Accounted db0 spd slot (none, reason) w positive word (inr (dw, is_slot, row)) = inl row
  result-Accounted db0 spd slot (some e, reason) w positive word same =
      let range : IsRange spd.known_gap_table_increment slot slot = record {
        positive = positive;
        ordered = omega arith;
        word = word;
        narrow = omega arith;
      } in
      Ensures-weaken (λ _ w'. Covers slot (in_db db laws w')) (λ _. Accounted spd slot)
        (Uncommitted db laws db0) (λ _. Unit)
        (write_known_gaps db spd.known_gap_table_increment slot slot (some e) reason w)
        (λ _ _ held. inr (inr held)) (λ _ _. tt)
        (write_known_gaps-Covers db laws db0 spd.known_gap_table_increment slot slot slot (some e)
          reason w range same (inl (omega arith, omega arith)))

  -- With a positive increment and a slot that is a uint64, where processHeadSlot returns: the
  -- committed tables have a row of the slot, or the check of the database is on and each object of
  -- the slot that is processed has a row, or a known gap holds the slot.
  pub process_head_slot-Accounted :
      (z : Zrnt) (node : Node) (ipfs : Ipfs) (state_first : Bool) (slot : ℕ)
      (block_root state_root : String) (spd : SlotProcessingDetails) (w : World S)
      → 0 < spd.known_gap_table_increment
      → slot ≤ max_u64
      → Ensures
          (λ _. Accounted spd slot)
          (λ _. Unit)
          (process_head_slot z node ipfs db state_first slot block_root state_root spd w)
  unfolding process_head_slot
  process_head_slot-Accounted z node ipfs state_first slot block_root state_root spd w positive
        word =
      Ensures-bind (λ _ _. Unit) (λ _. Accounted spd slot) (λ _. Unit) (start_up db spd slot) _ w
        (Ensures-Unit (start_up db spd slot w))
        (λ _ w1 _.
          let db0 : Tables = in_db db laws w1 in
          let Idle : Type 0 = (spd.check_db ≡ true) × Found spd slot db0 in
          let stored : _ =
            process_full_slot-Stored db laws db0 (λ dw t. HasSlot slot t) slot Idle aborts.Aborted
              aborts.aborted_commit z "head" spd.previous_slot spd.previous_block_root
              spd.known_gap_table_increment
              (marks-Handles db laws aborts (HasSlot slot) (mark-HasSlot slot) db0 slot Idle z
                "head" spd.previous_slot spd.previous_block_root spd.known_gap_table_increment
                (row-run_all db0 slot))
              node ipfs (never_done state_first) block_root state_root spd w1 (λ h. absurd cc)
              (λ checks found. (checks, found)) refl in
          Ensures-bind
            (Stored db laws db0 (λ dw t. HasSlot slot t) slot Idle aborts.Aborted
              aborts.aborted_commit)
            (λ _. Accounted spd slot) (λ _. Unit)
            (process_full_slot z node ipfs db (never_done state_first) slot block_root state_root
              spd.previous_slot spd.previous_block_root spd.known_gap_table_increment "head" spd)
            (λ r. gap_of_slot db spd slot r) w1
            (Ensures-weaken
              (Stored db laws db0 (λ dw t. HasSlot slot t) slot Idle aborts.Aborted
                aborts.aborted_commit)
              _ (Uncommitted db laws db0) (λ _. Unit)
              (process_full_slot z node ipfs db (never_done state_first) slot block_root state_root
                spd.previous_slot spd.previous_block_root spd.known_gap_table_increment "head" spd
                w1)
              (λ _ _ h. h) (λ _ _. tt) stored)
            (λ r w2 h. result-Accounted db0 spd slot r w2 positive word h))
