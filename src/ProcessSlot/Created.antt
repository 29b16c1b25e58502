-- ===== src/ProcessSlot/Created.antt =====
-- The models of a slot and the transaction that `createWriteObjects` opens for them (processslot.go).
use ipld_eth_beacon_indexer.Base.{
  ℕ, ◌≡◌, ◌∙◌, refl, ap, List, String, Option, Bool, false, inl, inr, Option-cases, ◌⊎◌,
}
use ipld_eth_beacon_indexer.Models.{DbSlots, DbSignedBeaconBlock, DbBeaconState}
use ipld_eth_beacon_indexer.Sql.{Error, Driver}
use ipld_eth_beacon_indexer.Sql.Tables.{Tables}
use ipld_eth_beacon_indexer.Sql.Laws.{IsPostgres}
use ipld_eth_beacon_indexer.Consensus.{Zrnt, Coded, coded, refused, ExecutionPayloadHeader}
use ipld_eth_beacon_indexer.Action.{World, Ensures}
use ipld_eth_beacon_indexer.Action.Rules.{Ensures-bind}
use ipld_eth_beacon_indexer.Writer.KnownGaps.Table.{in_tx, Uncommitted}
use ipld_eth_beacon_indexer.Writer.Slot.{
  Ipfs, DatabaseWriter, with_models, is_nil, writer_exec, prepare_slots_model,
  prepare_signed_beacon_block_model, prepare_beacon_state_model, prepare_models,
  create_database_write, transact_slots, transact_full_slot,
}
use ipld_eth_beacon_indexer.ProcessSlot.{ProcessSlot}
use ipld_eth_beacon_indexer.ProcessSlot.Hashes.{
  provide_final_hash, provide_execution_payload_details,
}
use ipld_eth_beacon_indexer.ProcessSlot.Store.{create_write_objects}
use ipld_eth_beacon_indexer.ProcessSlot.Retrieval.{
  provide_final_hash-Keeps, provide_execution_payload_details-Keeps,
}

-- The models are those of the slot, for the transaction that was opened or not.
abbrev pub ModelsFor : ℕ → Bool → Coded DatabaseWriter → Type 0
ModelsFor slot tx_open (refused e) = Unit
ModelsFor slot tx_open (coded dw) = (dw.db_slots.slot ≡ slot) × (dw.tx_open ≡ tx_open)

pub with_models-ModelsFor :
    (slots : DbSlots) (raw_block raw_state : List ℕ) (tx_open : Bool)
    (block : Coded DbSignedBeaconBlock) (state : Coded DbBeaconState)
    → ModelsFor slots.slot tx_open (with_models slots raw_block raw_state tx_open block state)
with_models-ModelsFor slots raw_block raw_state tx_open (refused e) state = tt
with_models-ModelsFor slots raw_block raw_state tx_open (coded block) (refused e) = tt
with_models-ModelsFor slots raw_block raw_state tx_open (coded block) (coded state) = (refl, refl)

pub prepare_models-ModelsFor :
    (ipfs : Ipfs) (slot : ℕ) (state_root block_root parent eth1_hash : String)
    (header : Option ExecutionPayloadHeader) (status : String) (raw_block raw_state : List ℕ)
    (tx_open : Bool)
    → ModelsFor slot tx_open (
        prepare_models ipfs slot state_root block_root parent eth1_hash header status raw_block
          raw_state tx_open)
unfolding prepare_models prepare_slots_model
prepare_models-ModelsFor ipfs slot state_root block_root parent eth1_hash header status raw_block
      raw_state tx_open =
    with_models-ModelsFor (prepare_slots_model slot state_root block_root status) raw_block
      raw_state tx_open
      (prepare_signed_beacon_block_model ipfs slot block_root parent eth1_hash header)
      (prepare_beacon_state_model ipfs slot state_root)

module _ {S : Type 0} (db : Driver S) (laws : IsPostgres db) (db0 : Tables) where
  abbrev pub I : World S → Type 0
  I = Uncommitted db laws db0

  -- The models of the slot, and the transaction that they are written in.
  abbrev pub Created : ℕ → Coded DatabaseWriter → World S → Type 0
  Created slot (refused e) w = Uncommitted db laws db0 w
  Created slot (coded dw) w =
      (dw.db_slots.slot ≡ slot)
      × ((dw.tx_open ≡ false) ⊎ (in_tx db laws w ≡ db0))
      × Uncommitted db laws db0 w

  pub Created_lem :
      (slot : ℕ) (tx_open : Bool) (c : Coded DatabaseWriter) (w : World S)
      → ModelsFor slot tx_open c
      → (tx_open ≡ false) ⊎ (in_tx db laws w ≡ db0)
      → Uncommitted db laws db0 w
      → Created slot c w
  Created_lem slot tx_open (refused e) w models opened same = same
  Created_lem slot tx_open (coded dw) w models (inl closed) same =
      (models.0, inl (models.1 ∙ closed), same)
  Created_lem slot tx_open (coded dw) w models (inr opened) same = (models.0, inr opened, same)

  pub create_database_write-Created :
      (ipfs : Ipfs) (slot : ℕ) (state_root block_root parent eth1_hash : String)
      (header : Option ExecutionPayloadHeader) (status : String) (raw_block raw_state : List ℕ)
      (w : World S)
      → Uncommitted db laws db0 w
      → Ensures (Created slot) (Uncommitted db laws db0) (
          create_database_write db ipfs slot state_root block_root parent eth1_hash header status
            raw_block raw_state w)
  unfolding create_database_write
  create_database_write-Created ipfs slot state_root block_root parent eth1_hash header status
        raw_block raw_state w same =
      let s : S = (db.begin w.store).1 in
      let w1 : World S = record w { store = s } in
      let same1 : laws.committed s ≡ db0 = laws.begin_isolated w.store ∙ same in
      let opened : (is_nil (db.begin w.store).0 ≡ false) ⊎ (in_tx db laws w1 ≡ db0) =
        elim (Option-cases (db.begin w.store).0) [
          | inl ok ↦ inr (laws.begin_ok w.store ok ∙ same)
          | inr (e, failed) ↦ inl (ap is_nil failed)
        ] in
      Created_lem slot _ _ w1
        (prepare_models-ModelsFor ipfs slot state_root block_root parent eth1_hash header status
          raw_block raw_state (is_nil (db.begin w.store).0))
        opened same1

  pub create_write_objects-Created :
      (z : Zrnt) (ipfs : Ipfs) (ps : ProcessSlot z) (w : World S)
      → Uncommitted db laws db0 w
      → Ensures (Created ps.slot) I (create_write_objects z ipfs db ps w)
  unfolding create_write_objects
  create_write_objects-Created z ipfs ps w same =
      Ensures-bind (λ _. I) (Created ps.slot) I (provide_final_hash z ps) _ w
        (provide_final_hash-Keeps z I ps w same)
        λ final w1 same1.
          Ensures-bind (λ _. I) (Created ps.slot) I (provide_execution_payload_details z ps) _ w1
            (provide_execution_payload_details-Keeps z I ps w1 same1)
            (λ payload w2 same2.
              create_database_write-Created ipfs ps.slot _ _ _ _ _ _ _ _ w2 same2)

  -- With a nil transaction the first write panics.
  pub transact_full_slot-nil :
      (dw : DatabaseWriter) (w : World S)
      → dw.tx_open ≡ false
      → Uncommitted db laws db0 w
      → (P : Option Error → World S → Type 0)
      → Ensures P (Uncommitted db laws db0) (transact_full_slot db dw w)
  unfolding transact_full_slot transact_slots writer_exec
  transact_full_slot-nil dw w nil same P = rw nil same
