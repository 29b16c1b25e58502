-- ===== src/Tests/Toy.antt =====
-- Small stand-ins for the libraries and the beacon node: a fork whose objects are bytes behind a tag.
use ipld_eth_beacon_indexer.Base.{
  ℕ, ◌≡◌, String, List, [], ◌∷◌, none, true, ◌==◌, Bool-cases, inl, inr, if◌then◌else◌,
}
use ipld_eth_beacon_indexer.Models.{DbSlots}
use ipld_eth_beacon_indexer.Metrics.{no_metrics}
use ipld_eth_beacon_indexer.Action.{World}
use ipld_eth_beacon_indexer.Sql.Tables.{Tables}
use ipld_eth_beacon_indexer.Sql.Memory.{Server, no_tables, serving}
use ipld_eth_beacon_indexer.Consensus.{Coded, coded, refused, Fork, Zrnt, to_hex, zero_root}
use ipld_eth_beacon_indexer.Consensus.Forks.{RoundTrips}
use ipld_eth_beacon_indexer.Server.{Node, answered}
use ipld_eth_beacon_indexer.Writer.Slot.{Ipfs}
use ipld_eth_beacon_indexer.ProcessSlot.{SlotProcessingDetails}

abbrev decode : ℕ → Unit {0} → List ℕ → Coded (List ℕ)
decode tag spec [] = refused "empty"
decode tag spec (b ∷ bytes) = if b == tag then coded (b ∷ bytes) else refused "tag"

abbrev tagged : ℕ → Fork (Unit {0})
tagged tag = record {
  Signed = List ℕ;
  Block = List ℕ;
  Body = List ℕ;
  State = List ℕ;
  decode_block = decode tag;
  encode_block = λ spec b. (none, b);
  message = λ b. b;
  signature = λ b. b;
  parent_root = λ b. zero_root;
  state_root = λ b. zero_root;
  body = λ b. b;
  eth1_block_hash = λ b. zero_root;
  block_hash_tree_root = λ spec b. b;
  decode_state = decode tag;
  encode_state = λ spec b. (none, b);
  state_hash_tree_root = λ spec b. b;
}

abbrev pub toy : Zrnt
toy = record {
  Spec = Unit {0};
  mainnet = tt;
  bellatrix = tagged 2;
  altair = tagged 1;
  phase0 = tagged 0;
  payload_header = λ spec b. record {
    block_number = 7;
    timestamp = 9;
    block_hash = b;
    parent_hash = b;
    state_root = b;
    receipts_root = b;
    transactions_root = b;
  };
}

decode_lem :
    (tag : ℕ) (spec : Unit {0}) (ssz b : List ℕ)
    → decode tag spec ssz ≡ coded b
    → (tagged tag).encode_block spec b ≡ (none, ssz)
decode_lem tag spec [] b h = cc
decode_lem tag spec (c ∷ ssz) b h = elim (Bool-cases (c == tag)) [
  | inl same ↦ cc (rw same at h)
  | inr other ↦ cc (rw other at h)
]

pub toy-RoundTrips : RoundTrips toy
toy-RoundTrips = record {
  bellatrix_block = decode_lem 2;
  altair_block = decode_lem 1;
  phase0_block = decode_lem 0;
  bellatrix_state = decode_lem 2;
  altair_state = decode_lem 1;
  phase0_state = decode_lem 0;
}

abbrev pub toy_ipfs : Ipfs
toy_ipfs = record { encode = λ bytes code. coded bytes; prefixed_key = to_hex }

-- A node that answers every query with one Bellatrix object.
abbrev pub toy_node : Node
toy_node = record { get = λ endpoint. answered 200 (coded (2 ∷ 5 ∷ [])) }

abbrev pub details : SlotProcessingDetails
details = record {
  server_endpoint = "http://localhost:5052";
  known_gap_table_increment = 100;
  check_db = true;
  perform_beacon_state_processing = true;
  perform_beacon_block_processing = true;
  starting_slot = 0;
  previous_slot = 0;
  previous_block_root = "";
}

abbrev row : ℕ → String → String → DbSlots
row slot root status = record {
  epoch = 0;
  slot = slot;
  block_root = root;
  state_root = "0x00";
  status = status;
}

-- Two blocks of slot 5 and one of slot 6.
abbrev pub fork_rows : List DbSlots
fork_rows = row 5 "0xaa" "proposed" ∷ row 5 "0xbb" "proposed" ∷ row 6 "0xcc" "proposed" ∷ []

abbrev pub fork_tables : Tables
fork_tables = record no_tables { slots = fork_rows }

abbrev pub fresh : World Server
fresh = record { store = serving no_tables; metrics = no_metrics }

abbrev pub forked_world : World Server
forked_world = record { store = serving fork_tables; metrics = no_metrics }
