-- ===== src/ProcessSlot/Marks.antt =====
-- What the comparison with the previous slot (processslot.go) keeps of the server: all that the
-- statements of its reorgs and known gaps keep.
use ipld_eth_beacon_indexer.Base.{ℕ, String, Option, none, some, ◌==◌, ◌/=◌, ltb, not, str_eq}
use ipld_eth_beacon_indexer.Word.{add64, sub64}
use ipld_eth_beacon_indexer.Sql.{Driver, Stmt}
use ipld_eth_beacon_indexer.Consensus.{Zrnt, to_hex}
use ipld_eth_beacon_indexer.Consensus.Block.{SignedBeaconBlock, block, parent_root}
use ipld_eth_beacon_indexer.Action.{World, pure}
use ipld_eth_beacon_indexer.Action.Keeps.{Keeps, Keeps-bind, Keeps-if}
use ipld_eth_beacon_indexer.Writer.Kept.{IsMark, transact_known_gaps-Kept, transact_reorgs-Kept}
use ipld_eth_beacon_indexer.ProcessSlot.{ProcessSlot, block_or_panic}
use ipld_eth_beacon_indexer.ProcessSlot.Store.{
  checks_previous, check_parent, check_previous_block, check_previous_slot, handle_previous,
}
use ipld_eth_beacon_indexer.ProcessSlot.Retrieval.{block_or_panic-Keeps}

module _ {S : Type 0} (db : Driver S) (J : S → Type 0)
    (exec : (stmt : Stmt) (s : S) → IsMark stmt → J s → J (db.tx_exec stmt s).1) where
  abbrev I : World S → Type 0
  I w = J w.store

  check_parent-Keeps :
      (z : Zrnt) (ps : ProcessSlot z) (parent : String) (previous_slot : ℕ)
      (previous_block_root : String) (increment : ℕ)
      → Keeps I (check_parent z db ps parent previous_slot previous_block_root increment)
  unfolding check_parent
  check_parent-Keeps z ps parent previous_slot previous_block_root increment =
      Keeps-if I (previous_slot == ps.slot) _ _
        (transact_reorgs-Kept db J exec ps.slot ps.block_root)
        (Keeps-if I (ltb ps.slot previous_slot) (pure tt) _ (λ w same. same)
          (Keeps-if I (add64 previous_slot 1 /= ps.slot) _ _
            (transact_known_gaps-Kept db J exec increment (add64 previous_slot 1) (sub64 ps.slot 1)
              (some "gaps during head processing") "headGaps")
            (Keeps-if I (not (str_eq previous_block_root parent)) _ (pure tt)
              (transact_reorgs-Kept db J exec previous_slot parent) (λ w same. same))))

  check_previous_block-Keeps :
      (z : Zrnt) (b : Option (SignedBeaconBlock z)) (ps : ProcessSlot z) (previous_slot : ℕ)
      (previous_block_root : String) (increment : ℕ)
      → Keeps I (check_previous_block z db b ps previous_slot previous_block_root increment)
  check_previous_block-Keeps z none ps previous_slot previous_block_root increment = λ w same. same
  check_previous_block-Keeps z (some signed) ps previous_slot previous_block_root increment =
      Keeps-bind I (block_or_panic z (block z signed)) _ (block_or_panic-Keeps z I (block z signed))
        (λ b.
          check_parent-Keeps z ps (to_hex (parent_root z b)) previous_slot previous_block_root
            increment)

  pub handle_previous-Keeps :
      (z : Zrnt) (ps : ProcessSlot z) (previous_slot : ℕ) (previous_block_root : String)
      (increment : ℕ)
      → Keeps I (handle_previous z db ps previous_slot previous_block_root increment)
  unfolding handle_previous check_previous_slot
  handle_previous-Keeps z ps previous_slot previous_block_root increment =
      Keeps-if I (checks_previous z ps previous_slot previous_block_root) _ (pure tt)
        (check_previous_block-Keeps z ps.full_signed_beacon_block ps previous_slot
          previous_block_root increment)
        (λ w same. same)
