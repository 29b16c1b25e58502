-- ===== src/Consensus.antt =====
-- Blocks and states of the three forks: pkg/beaconclient/consensus.go. The encodings and the
-- hashes are those of the zrnt library, which is a parameter: `Zrnt`.
pub mod Block
pub mod State
pub mod Forks
use Prim.Native.String.{◌++◌ as str_append}
use ipld_eth_beacon_indexer.Base.{ℕ, ◌/◌, ◌%◌, String, List, [], ◌∷◌, Option, none, some, zero, suc}
use ipld_eth_beacon_indexer.Sql.{Error}

-- [32]byte
abbrev pub Root : Type 0
Root = List ℕ

abbrev hex_digits : List String
hex_digits =
    "0" ∷ "1" ∷ "2" ∷ "3" ∷ "4" ∷ "5" ∷ "6" ∷ "7" ∷ "8" ∷ "9" ∷ "a" ∷ "b" ∷ "c" ∷ "d" ∷ "e" ∷ "f"
    ∷ []

nth : List String → ℕ → String
nth [] n = ""
nth (d ∷ ds) zero = d
nth (d ∷ ds) (suc n) = nth ds n

-- `hex.EncodeToString`
encode_to_string : List ℕ → String
encode_to_string [] = ""
encode_to_string (b ∷ bytes) =
    str_append (nth hex_digits (b / 16))
      (str_append (nth hex_digits (b % 16)) (encode_to_string bytes))

unfoldable pub to_hex : Root → String
unfolding encode_to_string nth
to_hex r = str_append "0x" (encode_to_string r)

-- `common.ExecutionPayloadHeader`, as far as it is read.
pub record ExecutionPayloadHeader : Type 0 where
  pub block_number : ℕ
  pub timestamp : ℕ
  pub block_hash : Root
  pub parent_hash : Root
  pub state_root : Root
  pub receipts_root : Root
  pub transactions_root : Root

-- What a decoder or an encoder of zrnt returns.
pub data Coded {ℓ} (A : Type ℓ) : Type ℓ where
  coded : A → Coded A
  refused : Error → Coded A

-- The package of one fork: its signed block, the block and the body in it, and its state.
pub record Fork (Spec : Type 0) : Type 1 where
  pub Signed : Type 0
  pub Block : Type 0
  pub Body : Type 0
  pub State : Type 0
  -- An encoder returns its error and what it has written to the buffer.
  pub decode_block : Spec → List ℕ → Coded Signed
  pub encode_block : Spec → Signed → Option Error × List ℕ
  pub message : Signed → Block
  pub signature : Signed → List ℕ
  pub parent_root : Block → Root
  pub state_root : Block → Root
  pub body : Block → Body
  pub eth1_block_hash : Body → Root
  pub block_hash_tree_root : Spec → Block → Root
  pub decode_state : Spec → List ℕ → Coded State
  pub encode_state : Spec → State → Option Error × List ℕ
  pub state_hash_tree_root : Spec → State → Root

-- The forks, the mainnet specification, and `ExecutionPayload.Header` of a Bellatrix body.
pub record Zrnt : Type 1 where
  pub Spec : Type 0
  pub mainnet : Spec
  pub bellatrix : Fork Spec
  pub altair : Fork Spec
  pub phase0 : Fork Spec
  pub payload_header : Spec → bellatrix.Body → ExecutionPayloadHeader

unfoldable pub choose_spec : (z : Zrnt) → Option z.Spec → z.Spec
choose_spec z none = z.mainnet
choose_spec z (some spec) = spec

-- Go's zero value of a root.
abbrev pub zero_root : Root
zero_root =
    0 ∷ 0 ∷ 0 ∷ 0 ∷ 0 ∷ 0 ∷ 0 ∷ 0 ∷ 0 ∷ 0 ∷ 0 ∷ 0 ∷ 0 ∷ 0 ∷ 0 ∷ 0 ∷ 0 ∷ 0 ∷ 0 ∷ 0 ∷ 0 ∷ 0 ∷ 0 ∷ 0
    ∷ 0 ∷ 0 ∷ 0 ∷ 0 ∷ 0 ∷ 0 ∷ 0 ∷ 0 ∷ []
