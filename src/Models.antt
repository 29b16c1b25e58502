-- ===== src/Models.antt =====
-- The rows that the program writes: the structs of pkg/beaconclient/models.go. A column of type
-- text is a String, an unsigned number a ℕ.
use ipld_eth_beacon_indexer.Base.{ℕ, String, Bool, Option}

pub record DbSlots : Type 0 where
  pub epoch : ℕ
  pub slot : ℕ
  pub block_root : String
  pub state_root : String
  pub status : String

pub record DbExecutionPayloadHeader : Type 0 where
  pub block_number : ℕ
  pub timestamp : ℕ
  pub block_hash : String
  pub parent_hash : String
  pub state_root : String
  pub receipts_root : String
  pub transactions_root : String

pub record DbSignedBeaconBlock : Type 0 where
  pub slot : ℕ
  pub block_root : String
  pub parent_block : String
  pub eth1_data_block_hash : String
  pub mh_key : String
  pub execution_payload_header : Option DbExecutionPayloadHeader

pub record DbBeaconState : Type 0 where
  pub slot : ℕ
  pub state_root : String
  pub mh_key : String

-- `EntryTime` is never set by the program: the server fills it in.
pub record DbKnownGaps : Type 0 where
  pub start_slot : ℕ
  pub end_slot : ℕ
  pub checked_out : Bool
  pub reprocessing_error : String
  pub entry_error : String
  pub entry_process : String
