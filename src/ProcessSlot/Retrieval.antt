-- ===== src/ProcessSlot/Retrieval.antt =====
-- What the parts of `processFullSlot` (processslot.go) that come before its writes keep: the slot and
-- the mode of the object, and the committed tables.
use ipld_eth_beacon_indexer.Base.{
  ℕ, ◌≡◌, ◌∙◌, refl, String, List, ◌++◌, Option, none, some, Bool, false, inl, inr, Bool-cases,
  Option-cases, not, ◌&&◌, ◌||◌, ◌/=◌, str_eq,
}
use ipld_eth_beacon_indexer.Slot.{codes}
use ipld_eth_beacon_indexer.Server.{Node, SszReply, query_ssz}
use ipld_eth_beacon_indexer.Sql.{
  Error, Driver, Stmt, is_failed, is_uncounted, is_affected, Reply-cases, check_beacon_state,
  check_signed_beacon_block,
}
use ipld_eth_beacon_indexer.Sql.Tables.{Tables, meaning}
use ipld_eth_beacon_indexer.Sql.Laws.{IsPostgres}
use ipld_eth_beacon_indexer.Consensus.{Zrnt, Coded, coded, refused, ExecutionPayloadHeader}
use ipld_eth_beacon_indexer.Consensus.Block.{
  SignedBeaconBlock, BeaconBlock, BeaconBlockBody, block, body, execution_payload_header,
  block_is_bellatrix,
}
use ipld_eth_beacon_indexer.Consensus.State.{BeaconState}
use ipld_eth_beacon_indexer.Action.{World, Action, pure, Ensures}
use ipld_eth_beacon_indexer.Action.Rules.{Ensures-bind}
use ipld_eth_beacon_indexer.Action.Keeps.{Keeps, Keeps-bind, Keeps-if}
use ipld_eth_beacon_indexer.Writer.KnownGaps.Table.{Uncommitted}
use ipld_eth_beacon_indexer.Writer.Slot.{check_slot_and_root}
use ipld_eth_beacon_indexer.ProcessSlot.{
  SlotProcessingDetails, Schedule, ProcessSlot, is_error, identifier, state_query_endpoint,
  block_or_panic, unmarshalled, take_block_reply, state_unmarshalled, take_state_reply,
  get_signed_beacon_block, get_beacon_state,
}
use ipld_eth_beacon_indexer.ProcessSlot.Hashes.{
  FinalHash, no_hash, body_or_panic, hash_of, provide_final_hash, payload_or_panic, payload_of,
  provide_execution_payload_details,
}
use ipld_eth_beacon_indexer.ProcessSlot.Store.{if_required, check_required, check_db_required}
use ipld_eth_beacon_indexer.ProcessSlot.Full.{retrieve, retrieve_state, retrieve_block}

-- The object is the one of the slot.
abbrev pub IsFor : (z : Zrnt) → ℕ → String → ProcessSlot z → Type 0
IsFor z slot mode ps = (ps.slot ≡ slot) × (ps.head_or_historic ≡ mode)

module _ (z : Zrnt) {S : Type 0} (I : World S → Type 0) where
  module _ (slot : ℕ) (mode : String) where
    abbrev pub Retrieved : Option Error × ProcessSlot z → World S → Type 0
    Retrieved r w = IsFor z slot mode r.1 × I w

    state_unmarshalled-IsFor :
        (ps : ProcessSlot z) (ssz : List ℕ) (r : Option Error × BeaconState z)
        → IsFor z slot mode ps
        → IsFor z slot mode (state_unmarshalled z ps ssz r).1
    state_unmarshalled-IsFor ps ssz (some e, x) h = h
    state_unmarshalled-IsFor ps ssz (none, x) h = h

    take_state_reply-IsFor :
        (ps : ProcessSlot z) (reply : SszReply)
        → IsFor z slot mode ps
        → IsFor z slot mode (take_state_reply z ps reply).1
    take_state_reply-IsFor ps reply h = elim (Option-cases reply.error) [
      | inl ok ↦ rw ok (state_unmarshalled-IsFor ps reply.bytes _ h)
      | inr (e, failed) ↦ rw failed h
    ]

    unmarshalled-Retrieved :
        (ps : ProcessSlot z) (ssz : List ℕ) (r : Option Error × SignedBeaconBlock z) (w : World S)
        → IsFor z slot mode ps
        → I w
        → Ensures Retrieved I (unmarshalled z ps ssz r w)
    unmarshalled-Retrieved ps ssz (some e, b) w h i = (h, i)
    unmarshalled-Retrieved ps ssz (none, b) w h i = elim (Option-cases (block z b)) [
      | inl nil ↦ rw nil i
      | inr (full, found) ↦ rw found (h, i)
    ]

    take_block_reply-Retrieved :
        (ps : ProcessSlot z) (reply : SszReply) (w : World S)
        → IsFor z slot mode ps
        → I w
        → Ensures Retrieved I (take_block_reply z ps reply w)
    unfolding take_block_reply
    take_block_reply-Retrieved ps reply w h i =
        elim (Bool-cases (is_error reply.error || reply.status /= 200)) [
          | inl bad ↦ rw bad (h, i)
          | inr good ↦ rw good (unmarshalled-Retrieved ps reply.bytes _ w h i)
        ]

    retrieve_state-Retrieved :
        (node : Node) (schedule : Schedule) (spd : SlotProcessingDetails) (ps : ProcessSlot z)
        (w : World S)
        → IsFor z slot mode ps
        → I w
        → Ensures Retrieved I (retrieve_state z node schedule spd ps w)
    unfolding get_beacon_state
    retrieve_state-Retrieved node schedule spd ps w h i =
        elim (Bool-cases (spd.perform_beacon_state_processing && not schedule.state_done)) [
          | inl wanted ↦ rw wanted (
            take_state_reply-IsFor ps
                (query_ssz node (
                  codes spd.server_endpoint
                  ++ codes state_query_endpoint
                  ++ identifier z ps.state_root ps.slot))
                h,
            i,
          )
          | inr unwanted ↦ rw unwanted (h, i)
        ]

    retrieve_block-Retrieved :
        (node : Node) (schedule : Schedule) (spd : SlotProcessingDetails) (ps : ProcessSlot z)
        (w : World S)
        → IsFor z slot mode ps
        → I w
        → Ensures Retrieved I (retrieve_block z node schedule spd ps w)
    unfolding get_signed_beacon_block
    retrieve_block-Retrieved node schedule spd ps w h i =
        elim (Bool-cases (spd.perform_beacon_block_processing && not schedule.block_done)) [
          | inl wanted ↦ rw wanted (take_block_reply-Retrieved ps _ w h i)
          | inr unwanted ↦ rw unwanted (h, i)
        ]

    -- The retrievals keep the slot of the object.
    pub retrieve-Retrieved :
        (node : Node) (schedule : Schedule) (spd : SlotProcessingDetails) (ps : ProcessSlot z)
        (w : World S)
        → IsFor z slot mode ps
        → I w
        → Ensures Retrieved I (retrieve z node schedule spd ps w)
    unfolding retrieve
    retrieve-Retrieved node schedule spd ps w h i =
        Ensures-bind Retrieved Retrieved I (retrieve_state z node schedule spd ps) _ w
          (retrieve_state-Retrieved node schedule spd ps w h i)
          λ state w1 h1.
            Ensures-bind Retrieved Retrieved I (retrieve_block z node schedule spd state.1) _ w1
              (retrieve_block-Retrieved node schedule spd state.1 w1 h1.0 h1.1) (λ both w2 h2. h2)

  -- The hashes and the payload are computed without the world.
  pub block_or_panic-Keeps : (b : Option (BeaconBlock z)) → Keeps I (block_or_panic z b)
  block_or_panic-Keeps none = λ w i. i
  block_or_panic-Keeps (some b) = λ w i. i

  body_or_panic-Keeps : (b : Option (BeaconBlockBody z)) → Keeps I (body_or_panic z b)
  body_or_panic-Keeps none = λ w i. i
  body_or_panic-Keeps (some b) = λ w i. i

  hash_of-Keeps : (ps : ProcessSlot z) (b : Option (SignedBeaconBlock z)) → Keeps I (hash_of z ps b)
  hash_of-Keeps ps none = λ w i. i
  hash_of-Keeps ps (some signed) =
      Keeps-bind I (block_or_panic z (block z signed)) _ (block_or_panic-Keeps (block z signed))
        λ b.
          Keeps-bind I (body_or_panic z (body z b)) _ (body_or_panic-Keeps (body z b)) (λ _ w i. i)

  pub provide_final_hash-Keeps : (ps : ProcessSlot z) → Keeps I (provide_final_hash z ps)
  unfolding provide_final_hash
  provide_final_hash-Keeps ps =
      Keeps-if I (str_eq ps.status "skipped") (pure no_hash)
        (hash_of z ps ps.full_signed_beacon_block) (λ w i. i)
        (hash_of-Keeps ps ps.full_signed_beacon_block)

  payload_or_panic-Keeps :
      (payload : Option ExecutionPayloadHeader) → Keeps I (payload_or_panic z payload)
  payload_or_panic-Keeps none = λ w i. i
  payload_or_panic-Keeps (some payload) = λ w i. i

  payload_of-Keeps : (b : Option (SignedBeaconBlock z)) → Keeps I (payload_of z b)
  payload_of-Keeps none = λ w i. i
  payload_of-Keeps (some signed) =
      Keeps-if I (not (block_is_bellatrix z signed)) (pure none) _ (λ w i. i)
        (Keeps-bind I (block_or_panic z (block z signed)) _ (block_or_panic-Keeps (block z signed))
          λ b.
            Keeps-bind I (body_or_panic z (body z b)) _ (body_or_panic-Keeps (body z b))
              (λ inner. payload_or_panic-Keeps (execution_payload_header z inner)))

  pub provide_execution_payload_details-Keeps :
      (ps : ProcessSlot z) → Keeps I (provide_execution_payload_details z ps)
  unfolding provide_execution_payload_details
  provide_execution_payload_details-Keeps ps = payload_of-Keeps ps.full_signed_beacon_block

module _ {S : Type 0} (db : Driver S) (laws : IsPostgres db) (db0 : Tables) where
  -- A statement that only reads keeps the committed tables.
  check_slot_and_root-Keeps :
      (stmt : Stmt)
      → ((t : Tables) → (meaning stmt t).1 ≡ t)
      → Keeps (Uncommitted db laws db0) (check_slot_and_root db stmt)
  unfolding check_slot_and_root
  check_slot_and_root-Keeps stmt reads w same = elim (Reply-cases (db.db_exec stmt w.store).0) [
    | is_failed e h ↦ laws.db_failed stmt w.store e h ∙ same
    | is_uncounted e h ↦ laws.db_uncounted stmt w.store e h ∙ reads (laws.committed w.store) ∙ same
    | is_affected n h ↦
        (laws.db_affected stmt w.store n h).1 ∙ reads (laws.committed w.store) ∙ same
  ]

  check_required-Keeps :
      (processed : Bool) (stmt : Stmt)
      → ((t : Tables) → (meaning stmt t).1 ≡ t)
      → Keeps (Uncommitted db laws db0) (check_required db processed stmt)
  unfolding check_required
  check_required-Keeps processed stmt reads =
      Keeps-if (Uncommitted db laws db0) processed _ (pure (coded false))
        (Keeps-bind (Uncommitted db laws db0) (check_slot_and_root db stmt) _
          (check_slot_and_root-Keeps stmt reads) (λ _ w same. same))
        (λ w same. same)

  if_required-Keeps :
      (r : Coded Bool) (k : Bool → Action S (Coded Bool))
      → ((b : Bool) → Keeps (Uncommitted db laws db0) (k b))
      → Keeps (Uncommitted db laws db0) (if_required r k)
  if_required-Keeps (coded b) k h = h b
  if_required-Keeps (refused e) k h = λ w same. same

  -- The check before the writes commits nothing.
  pub check_db_required-Keeps :
      (spd : SlotProcessingDetails) (slot : ℕ) (final : FinalHash)
      → Keeps (Uncommitted db laws db0) (check_db_required db spd slot final)
  unfolding check_db_required meaning
  check_db_required-Keeps spd slot final =
      let I : World S → Type 0 = Uncommitted db laws db0 in
      Keeps-bind I
        (check_required db spd.perform_beacon_block_processing
          (check_signed_beacon_block slot final.block_root))
        _
        (check_required-Keeps spd.perform_beacon_block_processing
          (check_signed_beacon_block slot final.block_root) (λ t. refl))
        λ block. if_required-Keeps block _ λ block_required.
          Keeps-bind I
            (check_required db spd.perform_beacon_state_processing
              (check_beacon_state slot final.state_root))
            _
            (check_required-Keeps spd.perform_beacon_state_processing
              (check_beacon_state slot final.state_root) (λ t. refl))
            λ state. if_required-Keeps state _ (λ state_required w same. same)
