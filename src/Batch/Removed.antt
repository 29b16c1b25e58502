-- ===== src/Batch/Removed.antt =====
-- An entry is removed after its first and last slot are in the table of slots (processhistoric.go).
use ipld_eth_beacon_indexer.Base.{
  ℕ, ◌≡◌, ◌⊎◌, inl, inr, ◌<◌, ◌∙◌, ap, true, false, Bool, arith, ltb, ◌==◌,
}
use ipld_eth_beacon_indexer.Sql.{
  BatchTable, Driver, is_failed, is_uncounted, is_affected, Reply-cases, query_by_slot,
  delete_entry,
}
use ipld_eth_beacon_indexer.Sql.Tables.{Tables, meaning}
use ipld_eth_beacon_indexer.Sql.Tables.Rows.{count_where}
use ipld_eth_beacon_indexer.Sql.Laws.{IsPostgres}
use ipld_eth_beacon_indexer.Consensus.{Coded, coded, refused}
use ipld_eth_beacon_indexer.Action.{World, Returns}
use ipld_eth_beacon_indexer.Action.Rules.{Ensures-bind}
use ipld_eth_beacon_indexer.Writer.KnownGaps.Table.{in_db, Uncommitted}
use ipld_eth_beacon_indexer.Writer.Slot.{is_slot_processed}
use ipld_eth_beacon_indexer.Batch.{
  SlotsToProcess, Removal, removed, waiting, at_send, remove_if, check_end, remove_row_post_process,
}

-- How many rows the slot has.
abbrev pub slot_rows : ℕ → Tables → ℕ
slot_rows slot t = count_where (λ r. r.slot == slot) t.slots

module _ {S : Type 0} (db : Driver S) (laws : IsPostgres db) (db0 : Tables) where
  abbrev Processed : ℕ → Coded Bool → World S → Type 0
  Processed slot (coded b) w = (b ≡ ltb 0 (slot_rows slot db0)) × Uncommitted db laws db0 w
  Processed slot (refused e) w = Uncommitted db laws db0 w

  is_slot_processed-Processed :
      (slot : ℕ) (w : World S)
      → Uncommitted db laws db0 w
      → Returns (Processed slot) (is_slot_processed db slot w)
  unfolding is_slot_processed meaning
  is_slot_processed-Processed slot w same =
      elim (Reply-cases (db.db_exec (query_by_slot slot) w.store).0) [
        | is_failed e h ↦ rw h (laws.db_failed _ w.store e h ∙ same)
        | is_uncounted e h ↦ rw h (laws.db_uncounted _ w.store e h ∙ same)
        | is_affected n h ↦
            let ran : _ = laws.db_affected _ w.store n h in
            rw h (ap (ltb 0) (ran.0 ∙ ap (slot_rows slot) same), ran.1 ∙ same)
      ]

  -- An end of a range that has no row is why the goroutine sleeps.
  abbrev pub Checked : BatchTable → SlotsToProcess → Removal → World S → Type 0
  Checked table slots removed w =
      (0 < slot_rows slots.start_slot db0)
      × (0 < slot_rows slots.end_slot db0)
      × (in_db db laws w ≡ (meaning (delete_entry table slots.start_slot slots.end_slot) db0).1)
  Checked table slots waiting w =
      ((slot_rows slots.start_slot db0 ≡ 0) ⊎ (slot_rows slots.end_slot db0 ≡ 0))
      × Uncommitted db laws db0 w
  Checked table slots (at_send e) w = Uncommitted db laws db0 w

  delete-Checked :
      (table : BatchTable) (slots : SlotsToProcess) (w : World S)
      → 0 < slot_rows slots.start_slot db0
      → 0 < slot_rows slots.end_slot db0
      → Uncommitted db laws db0 w
      → Returns (Checked table slots) (remove_if db table slots (coded true) (coded true) w)
  delete-Checked table slots w first last same =
      let stmt : _ = delete_entry table slots.start_slot slots.end_slot in
      elim (Reply-cases (db.db_exec stmt w.store).0) [
        | is_failed e h ↦ rw h (laws.db_failed stmt w.store e h ∙ same)
        | is_uncounted e h ↦
            rw h
              (first, last, laws.db_uncounted stmt w.store e h ∙ ap (λ t. (meaning stmt t).1) same)
        | is_affected n h ↦
            rw h (
              first,
              last,
              (laws.db_affected stmt w.store n h).1 ∙ ap (λ t. (meaning stmt t).1) same,
            )
      ]

  remove_if-Checked :
      (table : BatchTable) (slots : SlotsToProcess) (is_start : Bool) (is_end : Coded Bool)
      (w : World S)
      → is_start ≡ ltb 0 (slot_rows slots.start_slot db0)
      → Processed slots.end_slot is_end w
      → Returns (Checked table slots) (remove_if db table slots (coded is_start) is_end w)
  remove_if-Checked table slots is_start (refused e) w first h = h
  remove_if-Checked table slots false (coded b) w first h = (inl (ground arith), h.1)
  remove_if-Checked table slots true (coded false) w first h =
      let last : false ≡ ltb 0 (slot_rows slots.end_slot db0) = h.0 in (inr (ground arith), h.1)
  remove_if-Checked table slots true (coded true) w first h =
      delete-Checked table slots w (ground arith)
        (let last : true ≡ ltb 0 (slot_rows slots.end_slot db0) = h.0 in ground arith) h.1

  check_end-Checked :
      (table : BatchTable) (slots : SlotsToProcess) (is_start : Coded Bool) (w : World S)
      → Processed slots.start_slot is_start w
      → Returns (Checked table slots) (check_end db table slots is_start w)
  check_end-Checked table slots (refused e) w h = h
  check_end-Checked table slots (coded b) w h =
      Ensures-bind (Processed slots.end_slot) (Checked table slots) (λ _. ⊥)
        (is_slot_processed db slots.end_slot) (remove_if db table slots (coded b)) w
        (is_slot_processed-Processed slots.end_slot w h.1)
        (λ is_end w' h'. remove_if-Checked table slots b is_end w' h.0 h')

  -- A round of the goroutine of `removeRowPostProcess` comes to one of three places and does not end
  -- the process. It removes the entry, where the first and the last slot of the range have rows in
  -- eth_beacon.slots, and changes nothing else; or it sleeps, where the first or the last slot has no
  -- row, and has changed nothing; or it is at the send of an error, which no one receives and from
  -- which it never goes on, and has changed nothing.
  pub remove_row_post_process-Checked :
      (table : BatchTable) (slots : SlotsToProcess) (w : World S)
      → Uncommitted db laws db0 w
      → Returns (Checked table slots) (remove_row_post_process db table slots w)
  unfolding remove_row_post_process
  remove_row_post_process-Checked table slots w same =
      Ensures-bind (Processed slots.start_slot) (Checked table slots) (λ _. ⊥)
        (is_slot_processed db slots.start_slot) (check_end db table slots) w
        (is_slot_processed-Processed slots.start_slot w same) (check_end-Checked table slots)
