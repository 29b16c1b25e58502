-- ===== src/ProcessSlot/Store.antt =====
-- What `processFullSlot` (pkg/beaconclient/processslot.go) does with the objects of a slot: whether the
-- database needs them, the writes, the comparison with the previous slot, and the commit.
use ipld_eth_beacon_indexer.Base.{
  ℕ, String, Option, none, some, Bool, true, false, not, ◌&&◌, ◌||◌, str_eq, ltb, ◌==◌, ◌/=◌,
  if◌then◌else◌,
}
use ipld_eth_beacon_indexer.Text.{text_lower_eq}
use ipld_eth_beacon_indexer.Word.{add64, sub64}
use ipld_eth_beacon_indexer.Sql.{Error, Driver, Stmt, check_beacon_state, check_signed_beacon_block}
use ipld_eth_beacon_indexer.Consensus.{Zrnt, Coded, coded, refused, to_hex}
use ipld_eth_beacon_indexer.Consensus.Block.{SignedBeaconBlock, block, parent_root}
use ipld_eth_beacon_indexer.Action.{Action, ◌>>=◌, ◌>>◌, pure, call}
use ipld_eth_beacon_indexer.Writer.KnownGaps.{transact_known_gaps}
use ipld_eth_beacon_indexer.Writer.Reorgs.{transact_reorgs}
use ipld_eth_beacon_indexer.Writer.Slot.{
  Ipfs, DatabaseWriter, create_database_write, transact_full_slot, check_slot_and_root,
}
use ipld_eth_beacon_indexer.ProcessSlot.{SlotProcessingDetails, ProcessSlot, block_or_panic}
use ipld_eth_beacon_indexer.ProcessSlot.Hashes.{
  FinalHash, provide_final_hash, provide_execution_payload_details,
}

-- The error, and the process that it comes from.
abbrev pub SlotResult : Type 0
SlotResult = Option Error × String

-- `strings.ToLower(headOrHistoric)` is head or historic.
abbrev pub known_mode : String → Bool
known_mode mode = text_lower_eq mode "head" || text_lower_eq mode "historic"

abbrev pub required : Coded Bool → Coded Bool
required (coded exists) = coded (not exists)
required (refused e) = refused e

module _ {S : Type 0} where
  abbrev pub if_required : Coded Bool → (Bool → Action S (Coded Bool)) → Action S (Coded Bool)
  if_required (coded b) k = k b
  if_required (refused e) k = pure (refused e)

module _ {S : Type 0} (db : Driver S) where
  -- Whether an object that is processed has to be written; one that is not processed has not.
  unfoldable pub check_required : Bool → Stmt → Action S (Coded Bool)
  check_required processed stmt =
      if processed
      then (do found ← check_slot_and_root db stmt; pure (required found))
      else pure (coded false)

  -- Whether the block or the state has to be written.
  unfoldable pub check_db_required :
      SlotProcessingDetails → (slot : ℕ) → FinalHash → Action S (Coded Bool)
  check_db_required spd slot final = do
    block ←
        check_required spd.perform_beacon_block_processing
          (check_signed_beacon_block slot final.block_root)
    if_required block λ block_required. do
      state ←
          check_required spd.perform_beacon_state_processing
            (check_beacon_state slot final.state_root)
      if_required state λ state_required. pure (coded (block_required || state_required))

module _ (z : Zrnt) where
  -- Only at head, behind a slot that was processed, and for a slot that is not skipped.
  abbrev pub checks_previous :
      ProcessSlot z → (previous_slot : ℕ) (previous_block_root : String) → Bool
  checks_previous ps previous_slot previous_block_root =
      str_eq ps.head_or_historic "head"
      && (previous_slot /= 0)
      && not (str_eq previous_block_root "")
      && not (str_eq ps.status "skipped")

module _ (z : Zrnt) {S : Type 0} (db : Driver S) where
  -- `checkPreviousSlot`: the order of the slots is tested first, then the parent.
  unfoldable pub check_parent :
      ProcessSlot z
      → (parent_root : String) (previous_slot : ℕ) (previous_block_root : String) (increment : ℕ)
      → Action S (Unit {0})
  check_parent ps parent previous_slot previous_block_root increment =
      if previous_slot == ps.slot
      then transact_reorgs db ps.slot ps.block_root
      else if ltb ps.slot previous_slot
      then pure tt
      else if add64 previous_slot 1 /= ps.slot
      then transact_known_gaps db increment (add64 previous_slot 1) (sub64 ps.slot 1)
          (some "gaps during head processing") "headGaps"
      else if not (str_eq previous_block_root parent)
      then transact_reorgs db previous_slot parent
      else pure tt

  abbrev pub check_previous_block :
      Option (SignedBeaconBlock z)
      → ProcessSlot z
      → (previous_slot : ℕ) (previous_block_root : String) (increment : ℕ) → Action S (Unit {0})
  check_previous_block none ps previous_slot previous_block_root increment = pure tt
  check_previous_block (some signed) ps previous_slot previous_block_root increment = do
    b ← block_or_panic z (block z signed)
    check_parent ps (to_hex (parent_root z b)) previous_slot previous_block_root increment

  unfoldable pub check_previous_slot :
      ProcessSlot z
      → (previous_slot : ℕ) (previous_block_root : String) (increment : ℕ) → Action S (Unit {0})
  check_previous_slot ps = check_previous_block ps.full_signed_beacon_block ps

  unfoldable pub handle_previous :
      ProcessSlot z
      → (previous_slot : ℕ) (previous_block_root : String) (increment : ℕ) → Action S (Unit {0})
  handle_previous ps previous_slot previous_block_root increment =
      if checks_previous z ps previous_slot previous_block_root
      then check_previous_slot ps previous_slot previous_block_root increment
      else pure tt

module _ {S : Type 0} (db : Driver S) where
  -- The deferred rollback runs at each return; its error is only logged.
  unfoldable pub roll_back : SlotResult → Action S SlotResult
  roll_back result = do call db.rollback; pure result

  abbrev pub commit_result : Option Error → Action S SlotResult
  commit_result none = roll_back (none, "")
  commit_result (some e) = roll_back (some e, "transactionCommit")

module _ (z : Zrnt) {S : Type 0} (db : Driver S) where
  abbrev pub after_slot :
      Option Error
      → ProcessSlot z
      → (previous_slot : ℕ) (previous_block_root : String) (increment : ℕ) → Action S SlotResult
  after_slot (some e) ps previous_slot previous_block_root increment =
      roll_back db (some e, "processSlot")
  after_slot none ps previous_slot previous_block_root increment =
      if not (known_mode ps.head_or_historic)
      then roll_back db (some "headOrHistoric must be either historic or head", "")
      else (do
        handle_previous z db ps previous_slot previous_block_root increment
        commit_error ← call db.commit
        commit_result db commit_error)

  -- An error of the models leaves the transaction open.
  abbrev pub write_models :
      Coded DatabaseWriter
      → ProcessSlot z
      → (previous_slot : ℕ) (previous_block_root : String) (increment : ℕ) → Action S SlotResult
  write_models (refused e) ps previous_slot previous_block_root increment =
      pure (some e, "blockRoot")
  write_models (coded dw) ps previous_slot previous_block_root increment = do
    error ← transact_full_slot db dw
    after_slot error ps previous_slot previous_block_root increment

module _ {S : Type 0} where
  abbrev pub write_required : Coded Bool → Action S SlotResult → Action S SlotResult
  write_required (refused e) write = pure (some e, "checkDb")
  write_required (coded false) write = pure (none, "")
  write_required (coded true) write = write

module _ (z : Zrnt) (ipfs : Ipfs) {S : Type 0} (db : Driver S) where
  unfoldable pub create_write_objects : ProcessSlot z → Action S (Coded DatabaseWriter)
  create_write_objects ps = do
    final ← provide_final_hash z ps
    payload ← provide_execution_payload_details z ps
    create_database_write db ipfs ps.slot final.state_root final.block_root ps.parent_block_root
        final.eth1_data_block_hash payload
        (if not (str_eq ps.status "") then ps.status else "proposed") ps.ssz_signed_beacon_block
        ps.ssz_beacon_state

  unfoldable pub write_slot :
      ProcessSlot z
      → (previous_slot : ℕ) (previous_block_root : String) (increment : ℕ) → Action S SlotResult
  write_slot ps previous_slot previous_block_root increment = do
    models ← create_write_objects ps
    write_models z db models ps previous_slot previous_block_root increment
