-- ===== src/Writer/Slot.antt =====
-- The writer of one slot: `DatabaseWriter` of pkg/beaconclient/databasewrite.go, with the multihash
-- keys of multihash.go, and the checks for what is in the database. The ipfs libraries that make the
-- keys are a parameter: `Ipfs`.
pub mod Statements
pub mod Idempotent
pub mod Present
use Prim.Native.String.{◌++◌ as str_append}
use ipld_eth_beacon_indexer.Base.{
  ℕ, String, List, [], ◌∷◌, Option, none, some, Bool, true, false, ltb, not, str_eq, ◌&&◌,
  if◌then◌else◌,
}
use ipld_eth_beacon_indexer.Models.{
  DbSlots, DbExecutionPayloadHeader, DbSignedBeaconBlock, DbBeaconState,
}
use ipld_eth_beacon_indexer.Metrics.{increment_slot_inserts}
use ipld_eth_beacon_indexer.Slot.{codes, calculate_epoch, slots_per_epoch}
use ipld_eth_beacon_indexer.Consensus.{ExecutionPayloadHeader, Coded, coded, refused, to_hex}
use ipld_eth_beacon_indexer.Sql.{
  Error, Driver, Stmt, Reply, failed, uncounted, affected, exec_error, upsert_slots,
  upsert_signed_beacon_block, upsert_signed_beacon_block_with_payload, upsert_beacon_state,
  upsert_blocks, query_by_slot, check_beacon_state, check_signed_beacon_block,
}
use ipld_eth_beacon_indexer.Action.{Action, ◌>>=◌, ◌>>◌, pure, panics, call, count}

-- `multihash.Encode`, and the key that go-ipfs makes of a multihash, with the block prefix.
pub record Ipfs : Type 0 where
  pub encode : List ℕ → ℕ → Coded (List ℕ)
  pub prefixed_key : List ℕ → String

-- SSZ_SHA2_256_PREFIX
abbrev pub ssz_sha2_256_prefix : ℕ
ssz_sha2_256_prefix = 0xb502

abbrev key_of : Ipfs → Coded (List ℕ) → Coded String
key_of ipfs (coded mh) = coded (ipfs.prefixed_key mh)
key_of ipfs (refused e) = refused e

unfoldable pub multihash_key_from_ssz_root : Ipfs → List ℕ → Coded String
multihash_key_from_ssz_root ipfs root = key_of ipfs (ipfs.encode root ssz_sha2_256_prefix)

-- `tx_open` says that `Tx` is not nil: `Begin` may have failed.
pub record DatabaseWriter : Type 0 where
  pub tx_open : Bool
  pub db_slots : DbSlots
  pub db_signed_beacon_block : DbSignedBeaconBlock
  pub db_beacon_state : DbBeaconState
  pub raw_beacon_state : List ℕ
  pub raw_signed_beacon_block : List ℕ

unfoldable pub prepare_slots_model : (slot : ℕ) (state_root block_root status : String) → DbSlots
prepare_slots_model slot state_root block_root status = record {
  epoch = calculate_epoch slot slots_per_epoch;
  slot = slot;
  block_root = block_root;
  state_root = state_root;
  status = status;
}

unfoldable pub db_payload_header : ExecutionPayloadHeader → DbExecutionPayloadHeader
db_payload_header h = record {
  block_number = h.block_number;
  timestamp = h.timestamp;
  block_hash = to_hex h.block_hash;
  parent_hash = to_hex h.parent_hash;
  state_root = to_hex h.state_root;
  receipts_root = to_hex h.receipts_root;
  transactions_root = to_hex h.transactions_root;
}

abbrev payload_columns : Option ExecutionPayloadHeader → Option DbExecutionPayloadHeader
payload_columns none = none
payload_columns (some h) = some (db_payload_header h)

-- The multihash is made of the bytes of the hexadecimal text of the root.
unfoldable pub prepare_signed_beacon_block_model :
    Ipfs
    → (slot : ℕ) (block_root parent_block_root eth1_data_block_hash : String)
    → Option ExecutionPayloadHeader
    → Coded DbSignedBeaconBlock
prepare_signed_beacon_block_model ipfs slot block_root parent_block_root eth1_data_block_hash
      header =
    elim (multihash_key_from_ssz_root ipfs (codes block_root)) [
      | coded key ↦ coded (record {
        slot = slot;
        block_root = block_root;
        parent_block = parent_block_root;
        eth1_data_block_hash = eth1_data_block_hash;
        mh_key = key;
        execution_payload_header = payload_columns header;
      })
      | refused e ↦ refused e
    ]

unfoldable pub prepare_beacon_state_model :
    Ipfs → (slot : ℕ) (state_root : String) → Coded DbBeaconState
prepare_beacon_state_model ipfs slot state_root =
    elim (multihash_key_from_ssz_root ipfs (codes state_root)) [
      | coded key ↦ coded (record { slot = slot; state_root = state_root; mh_key = key })
      | refused e ↦ refused e
    ]

-- The first error of the two models is returned.
abbrev pub with_models :
    DbSlots
    → (raw_block raw_state : List ℕ) (tx_open : Bool) → Coded DbSignedBeaconBlock
    → Coded DbBeaconState
    → Coded DatabaseWriter
with_models slots raw_block raw_state tx_open (refused e) state = refused e
with_models slots raw_block raw_state tx_open (coded block) (refused e) = refused e
with_models slots raw_block raw_state tx_open (coded block) (coded state) = coded (record {
  tx_open = tx_open;
  db_slots = slots;
  db_signed_beacon_block = block;
  db_beacon_state = state;
  raw_beacon_state = raw_state;
  raw_signed_beacon_block = raw_block;
})

-- The models of a slot, given whether the transaction was opened.
unfoldable pub prepare_models :
    Ipfs
    → (slot : ℕ) (state_root block_root parent_block_root eth1_data_block_hash : String)
    → Option ExecutionPayloadHeader
    → (status : String) (raw_block raw_state : List ℕ) (tx_open : Bool) → Coded DatabaseWriter
prepare_models ipfs slot state_root block_root parent eth1_hash header status raw_block raw_state
      tx_open =
    with_models (prepare_slots_model slot state_root block_root status) raw_block raw_state tx_open
      (prepare_signed_beacon_block_model ipfs slot block_root parent eth1_hash header)
      (prepare_beacon_state_model ipfs slot state_root)

abbrev pub is_nil : Option Error → Bool
is_nil none = true
is_nil (some e) = false

-- `if err != nil { return err }`
abbrev pub unless_error :
    {S : Type 0} → Option Error → Action S (Option Error) → Action S (Option Error)
unless_error none k = k
unless_error (some e) k = pure (some e)

abbrev pub is_empty : List ℕ → Bool
is_empty [] = true
is_empty (b ∷ bytes) = false

abbrev pub signed_block_stmt : DbSignedBeaconBlock → Option DbExecutionPayloadHeader → Stmt
signed_block_stmt block none = upsert_signed_beacon_block block
signed_block_stmt block (some h) = upsert_signed_beacon_block_with_payload block h

module _ {S : Type 0} (db : Driver S) where
  -- An error of `Begin` is only logged.
  unfoldable pub create_database_write :
      Ipfs
      → (slot : ℕ) (state_root block_root parent_block_root eth1_data_block_hash : String)
      → Option ExecutionPayloadHeader
      → (status : String) (raw_block raw_state : List ℕ) → Action S (Coded DatabaseWriter)
  create_database_write ipfs slot state_root block_root parent eth1_hash header status raw_block
        raw_state =
      do
        begin_error ← call db.begin
        pure (
            prepare_models ipfs slot state_root block_root parent eth1_hash header status raw_block
              raw_state (is_nil begin_error))

  -- `dw.Tx.Exec` dereferences `Tx`.
  unfoldable pub writer_exec : DatabaseWriter → Stmt → Action S (Option Error)
  writer_exec dw stmt =
      if dw.tx_open then (do reply ← call (db.tx_exec stmt); pure (exec_error reply)) else panics

  -- `transactSlots` is `upsertSlots`.
  unfoldable pub transact_slots : DatabaseWriter → Action S (Option Error)
  transact_slots dw = writer_exec dw (upsert_slots dw.db_slots)

  unfoldable pub upsert_public_blocks :
      DatabaseWriter → (key : String) (bytes : List ℕ) → Action S (Option Error)
  upsert_public_blocks dw key bytes = writer_exec dw (upsert_blocks key bytes)

  unfoldable pub upsert_signed_block : DatabaseWriter → Action S (Option Error)
  upsert_signed_block dw =
      let block = dw.db_signed_beacon_block in
      writer_exec dw (signed_block_stmt block block.execution_payload_header)

  unfoldable pub transact_signed_beacon_blocks : DatabaseWriter → Action S (Option Error)
  transact_signed_beacon_blocks dw = if is_empty dw.raw_signed_beacon_block then pure none else (do
    error ← upsert_public_blocks dw dw.db_signed_beacon_block.mh_key dw.raw_signed_beacon_block
    unless_error error (upsert_signed_block dw))

  unfoldable pub upsert_state : DatabaseWriter → Action S (Option Error)
  upsert_state dw = writer_exec dw (upsert_beacon_state dw.db_beacon_state)

  unfoldable pub transact_beacon_state : DatabaseWriter → Action S (Option Error)
  transact_beacon_state dw = if is_empty dw.raw_beacon_state then pure none else (do
    error ← upsert_public_blocks dw dw.db_beacon_state.mh_key dw.raw_beacon_state
    unless_error error (upsert_state dw))

  -- The block and the state of a slot that was not skipped.
  unfoldable pub transact_objects : DatabaseWriter → Action S (Option Error)
  transact_objects dw = if str_eq dw.db_slots.status "skipped" then pure none else (do
    error ← transact_signed_beacon_blocks dw
    unless_error error (transact_beacon_state dw))

  unfoldable pub transact_full_slot : DatabaseWriter → Action S (Option Error)
  transact_full_slot dw = do
    slot_error ← transact_slots dw
    unless_error slot_error (do
      object_error ← transact_objects dw
      unless_error object_error (count (increment_slot_inserts 1) >> pure none))

  -- An error of `Exec` or of the count, or whether a row was found.
  abbrev pub found_rows : Reply → Coded Bool
  found_rows (failed e) = refused e
  found_rows (uncounted e) = refused e
  found_rows (affected n) = coded (ltb 0 n)

  unfoldable pub is_slot_processed : (slot : ℕ) → Action S (Coded Bool)
  is_slot_processed slot = do
    reply ← call (db.db_exec (query_by_slot slot))
    pure (found_rows reply)

  -- `checkSlotAndRoot` with one of its two statements.
  unfoldable pub check_slot_and_root : Stmt → Action S (Coded Bool)
  check_slot_and_root stmt = do reply ← call (db.db_exec stmt); pure (found_rows reply)
