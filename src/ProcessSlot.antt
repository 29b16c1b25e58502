-- ===== src/ProcessSlot.antt =====
-- One slot from the beacon node to the database: pkg/beaconclient/processslot.go. This file has the
-- objects, and how they are filled from the node's answers.
pub mod Hashes
pub mod Store
pub mod Full
pub mod Retrieval
pub mod Created
pub mod Atomic
pub mod Commits
pub mod Marks
pub mod Found
pub mod Grown
pub mod Accounted
pub mod Lasting
pub mod Undisturbed
pub mod Previous
use ipld_eth_beacon_indexer.Base.{
  ℕ, String, List, [], ◌++◌, Option, none, some, Bool, true, false, str_eq, not, ◌||◌, ◌/=◌, ◌==◌,
  if◌then◌else◌,
}
use ipld_eth_beacon_indexer.Slot.{codes, format}
use ipld_eth_beacon_indexer.Sql.{Error}
use ipld_eth_beacon_indexer.Server.{Node, SszReply, query_ssz}
use ipld_eth_beacon_indexer.Consensus.{Root, Zrnt, to_hex}
use ipld_eth_beacon_indexer.Consensus.Block.{
  SignedBeaconBlock, BeaconBlock, unmarshal_block, block, parent_root,
}
use ipld_eth_beacon_indexer.Consensus.State.{BeaconState, unmarshal_state}
use ipld_eth_beacon_indexer.Action.{Action, ◌>>=◌, pure, panics}

-- The context, the database and the metrics are arguments of the actions.
pub record SlotProcessingDetails : Type 0 where
  pub server_endpoint : String
  pub known_gap_table_increment : ℕ
  pub check_db : Bool
  pub perform_beacon_state_processing : Bool
  pub perform_beacon_block_processing : Bool
  pub starting_slot : ℕ
  pub previous_slot : ℕ
  pub previous_block_root : String

-- Whether the context is done at each `select` of `processFullSlot`, and which of the two retrievals
-- returns first.
pub record Schedule : Type 0 where
  pub start_done : Bool
  pub state_done : Bool
  pub block_done : Bool
  pub state_first : Bool

abbrev pub block_query_endpoint : String
block_query_endpoint = "/eth/v2/beacon/blocks/"

abbrev pub state_query_endpoint : String
state_query_endpoint = "/eth/v2/debug/beacon/states/"

abbrev pub is_error : Option Error → Bool
is_error none = false
is_error (some e) = true

module _ (z : Zrnt) where
  -- The performance metrics and the models are left out: the first are only logged, the second are
  -- never set.
  pub record ProcessSlot : Type 0 where
    pub slot : ℕ
    pub block_root : String
    pub state_root : String
    pub parent_block_root : String
    pub status : String
    pub head_or_historic : String
    pub ssz_signed_beacon_block : List ℕ
    pub full_signed_beacon_block : Option (SignedBeaconBlock z)
    pub full_beacon_state : Option (BeaconState z)
    pub ssz_beacon_state : List ℕ

  abbrev pub new_process_slot :
      (slot : ℕ) (block_root state_root head_or_historic : String) → ProcessSlot
  new_process_slot slot block_root state_root head_or_historic = record {
    slot = slot;
    block_root = block_root;
    state_root = state_root;
    parent_block_root = "";
    status = "";
    head_or_historic = head_or_historic;
    ssz_signed_beacon_block = [];
    full_signed_beacon_block = none;
    full_beacon_state = none;
    ssz_beacon_state = [];
  }

  abbrev pub empty_block : SignedBeaconBlock z
  empty_block = record { spec = none; bellatrix = none; altair = none; phase0 = none }

  abbrev pub empty_state : BeaconState z
  empty_state = record { spec = none; bellatrix = none; altair = none; phase0 = none }

  -- What each failure does to the object.
  abbrev pub skipped : ProcessSlot → ProcessSlot
  skipped ps = record ps {
    full_signed_beacon_block = none;
    ssz_signed_beacon_block = [];
    parent_block_root = "";
    status = "skipped";
  }

  -- A method call on a nil block panics.
  abbrev pub block_or_panic : {S : Type 0} → Option (BeaconBlock z) → Action S (BeaconBlock z)
  block_or_panic none = panics
  block_or_panic (some b) = pure b

  abbrev pub identifier : String → ℕ → List ℕ
  identifier root slot = if not (str_eq root "") then codes root else format slot

  abbrev pub block_address : String → ProcessSlot → List ℕ
  block_address server ps =
      codes server ++ codes block_query_endpoint ++ identifier ps.block_root ps.slot

  abbrev pub state_unmarshalled :
      ProcessSlot → List ℕ → Option Error × BeaconState z → Option Error × ProcessSlot
  state_unmarshalled ps ssz (some e, x) = (some e, ps)
  state_unmarshalled ps ssz (none, x) =
      (none, record ps { full_beacon_state = some x; ssz_beacon_state = ssz })

  abbrev pub take_state_reply : ProcessSlot → SszReply → Option Error × ProcessSlot
  take_state_reply ps reply = elim reply.error [
    | some e ↦ (some e, ps)
    | none ↦ state_unmarshalled ps reply.bytes (unmarshal_state z empty_state reply.bytes)
  ]

  module _ {S : Type 0} where
    abbrev pub unmarshalled :
        ProcessSlot
        → List ℕ
        → Option Error × SignedBeaconBlock z
        → Action S (Option Error × ProcessSlot)
    unmarshalled ps ssz (some e, b) = pure (some e, skipped ps)
    unmarshalled ps ssz (none, b) = do
      full ← block_or_panic (block z b)
      pure (
        none,
        record ps {
          full_signed_beacon_block = some b;
          ssz_signed_beacon_block = ssz;
          parent_block_root = to_hex (parent_root z full);
        },
      )

    -- A status of 404 is a skipped slot.
    unfoldable pub take_block_reply : ProcessSlot → SszReply → Action S (Option Error × ProcessSlot)
    take_block_reply ps reply =
        if is_error reply.error || reply.status /= 200
        then pure (if reply.status == 404 then none else reply.error, skipped ps)
        else unmarshalled ps reply.bytes (unmarshal_block z empty_block reply.bytes)

    unfoldable pub get_signed_beacon_block :
        Node → (server : String) → ProcessSlot → Action S (Option Error × ProcessSlot)
    get_signed_beacon_block node server ps =
        take_block_reply ps (query_ssz node (block_address server ps))

    unfoldable pub get_beacon_state :
        Node → (server : String) → ProcessSlot → Action S (Option Error × ProcessSlot)
    get_beacon_state node server ps = pure (
        take_state_reply ps (
          query_ssz node
            (codes server ++ codes state_query_endpoint ++ identifier ps.state_root ps.slot)))
