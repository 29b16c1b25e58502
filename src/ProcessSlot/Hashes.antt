-- ===== src/ProcessSlot/Hashes.antt =====
-- The roots and the payload that are written for a slot: `provideFinalHash` and
-- `provideExecutionPayloadDetails` of pkg/beaconclient/processslot.go.
use ipld_eth_beacon_indexer.Base.{String, Option, none, some, str_eq, not, ◌==◌, if◌then◌else◌}
use ipld_eth_beacon_indexer.Consensus.{Root, Zrnt, ExecutionPayloadHeader, to_hex}
use ipld_eth_beacon_indexer.Consensus.Block.{
  SignedBeaconBlock, BeaconBlockBody, block, body, block_state_root, block_hash_tree_root,
  eth1_block_hash, execution_payload_header, block_is_bellatrix,
}
use ipld_eth_beacon_indexer.Action.{Action, ◌>>=◌, pure, panics}
use ipld_eth_beacon_indexer.ProcessSlot.{ProcessSlot, block_or_panic}

-- The block root, the state root and the hash of the eth1 block.
pub record FinalHash : Type 0 where
  pub block_root : String
  pub state_root : String
  pub eth1_data_block_hash : String

abbrev pub no_hash : FinalHash
no_hash = record { block_root = ""; state_root = ""; eth1_data_block_hash = "" }

-- The earliest Bellatrix payloads are all zero.
abbrev used_payload : ExecutionPayloadHeader → Option ExecutionPayloadHeader
used_payload payload = if payload.block_number == 0 then none else some payload

module _ (z : Zrnt) where
  abbrev pub body_or_panic :
      {S : Type 0} → Option (BeaconBlockBody z) → Action S (BeaconBlockBody z)
  body_or_panic none = panics
  body_or_panic (some b) = pure b

  -- The root that was given, or else the one of the block.
  abbrev given_or : String → Root → String
  given_or given root = if not (str_eq given "") then given else to_hex root

  module _ {S : Type 0} where
    abbrev pub hash_of : ProcessSlot z → Option (SignedBeaconBlock z) → Action S FinalHash
    hash_of ps none = pure (record {
      block_root = ps.block_root;
      state_root = ps.state_root;
      eth1_data_block_hash = "";
    })
    hash_of ps (some signed) = do
      b ← block_or_panic z (block z signed)
      inner ← body_or_panic (body z b)
      pure (record {
        block_root = given_or ps.block_root (block_hash_tree_root z b);
        state_root = given_or ps.state_root (block_state_root z b);
        eth1_data_block_hash = to_hex (eth1_block_hash z inner);
      })

    -- The error that it returns is always nil, and is left out.
    unfoldable pub provide_final_hash : ProcessSlot z → Action S FinalHash
    provide_final_hash ps =
        if str_eq ps.status "skipped" then pure no_hash else hash_of ps ps.full_signed_beacon_block

    abbrev pub payload_or_panic :
        Option ExecutionPayloadHeader → Action S (Option ExecutionPayloadHeader)
    payload_or_panic none = panics
    payload_or_panic (some payload) = pure (used_payload payload)

    abbrev pub payload_of : Option (SignedBeaconBlock z) → Action S (Option ExecutionPayloadHeader)
    payload_of none = pure none
    payload_of (some signed) = if not (block_is_bellatrix z signed) then pure none else (do
      b ← block_or_panic z (block z signed)
      inner ← body_or_panic (body z b)
      payload_or_panic (execution_payload_header z inner))

    unfoldable pub provide_execution_payload_details :
        ProcessSlot z → Action S (Option ExecutionPayloadHeader)
    provide_execution_payload_details ps = payload_of ps.full_signed_beacon_block
