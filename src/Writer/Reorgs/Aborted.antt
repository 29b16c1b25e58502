-- ===== src/Writer/Reorgs/Aborted.antt =====
-- `transactReorgs` (databasewrite.go) after a statement that failed: PostgreSQL refuses every later
-- statement of the transaction, also that of the known gap.
use ipld_eth_beacon_indexer.Base.{
  ℕ, ◌≡◌, ◌⊎◌, inl, inr, refl, String, Option, some, true, arith, leb,
}
use ipld_eth_beacon_indexer.Word.{sub64}
use ipld_eth_beacon_indexer.Models.{DbKnownGaps}
use ipld_eth_beacon_indexer.Sql.{
  Error, Driver, failed, affected, update_forked, update_proposed, upsert_known_gaps,
}
use ipld_eth_beacon_indexer.Sql.Laws.{AbortsFailed}
use ipld_eth_beacon_indexer.Action.{World, fatal}
use ipld_eth_beacon_indexer.Writer.KnownGaps.{
  gap_model, error_message, upsert_known_gap, transact_known_gaps,
}
use ipld_eth_beacon_indexer.Writer.Reorgs.{write_reorg_gap, updated_rows, transact_reorgs}

module _ {S : Type 0} (db : Driver S) (aborts : AbortsFailed db) where
  upsert_known_gap-fatal :
      (g : DbKnownGaps) (w : World S) → aborts.Aborted w.store → (upsert_known_gap db g w).0 ≡ fatal
  unfolding upsert_known_gap
  upsert_known_gap-fatal g w aborted =
      rw (aborts.aborted_refuses (upsert_known_gaps g) w.store aborted).1 refl

  write_reorg_gap-fatal :
      (slot : ℕ) (error : Option Error) (w : World S)
      → aborts.Aborted w.store
      → (write_reorg_gap db slot error w).0 ≡ fatal
  unfolding transact_known_gaps
  write_reorg_gap-fatal slot error w aborted =
      let narrow : leb (sub64 slot slot) 1 ≡ true = ground arith in
      rw narrow
        (upsert_known_gap-fatal (gap_model (error_message error) "reorg" slot slot) w aborted)

  -- The first update fails, or the second one after the first has succeeded.
  abbrev pub UpdateFails : (slot : ℕ) (root : String) → S → Type 0
  UpdateFails slot root s =
      ((e : Error) × ((db.tx_exec (update_forked slot root) s).0 ≡ failed e))
      ⊎ ((n : ℕ) × ((db.tx_exec (update_forked slot root) s).0 ≡ affected n)
          × ((e : Error) × ((db.tx_exec (update_proposed slot root)
                  (db.tx_exec (update_forked slot root) s).1).0
                ≡ failed e)))

  -- Where a failed statement aborts its transaction: when the first update of a reorg fails, or the
  -- second one after it, the known gap that should record this is refused too, and the program exits.
  pub transact_reorgs-fatal :
      (slot : ℕ) (root : String) (w : World S)
      → UpdateFails slot root w.store
      → (transact_reorgs db slot root w).0 ≡ fatal
  unfolding transact_reorgs updated_rows
  transact_reorgs-fatal slot root w (inl (e, fails)) =
      let w1 : World S = record w { store = (db.tx_exec (update_forked slot root) w.store).1 } in
      let refused : (write_reorg_gap db slot (some e) w1).0 ≡ fatal =
        write_reorg_gap-fatal slot (some e) w1
          (aborts.failure_aborts (update_forked slot root) w.store e fails) in
      rw (fails, refused) refl
  transact_reorgs-fatal slot root w (inr (n, runs, (e, fails))) =
      let s1 : S = (db.tx_exec (update_forked slot root) w.store).1 in
      let w2 : World S = record w { store = (db.tx_exec (update_proposed slot root) s1).1 } in
      let refused : (write_reorg_gap db slot (some e) w2).0 ≡ fatal =
        write_reorg_gap-fatal slot (some e) w2
          (aborts.failure_aborts (update_proposed slot root) s1 e fails) in
      rw (runs, fails, refused) refl
