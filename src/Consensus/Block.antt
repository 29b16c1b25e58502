-- ===== src/Consensus/Block.antt =====
-- Signed blocks, blocks and bodies: pkg/beaconclient/consensus.go. Each holds a pointer for each
-- fork; the accessors look at Bellatrix, Altair and Phase0 in this order.
use ipld_eth_beacon_indexer.Base.{ℕ, List, [], ◌++◌, Option, none, some, Bool, is_some}
use ipld_eth_beacon_indexer.Sql.{Error}
use ipld_eth_beacon_indexer.Consensus.{
  Root, ExecutionPayloadHeader, Coded, coded, refused, Zrnt, choose_spec, zero_root,
}

module _ (z : Zrnt) where
  pub record SignedBeaconBlock : Type 0 where
    pub spec : Option z.Spec
    pub bellatrix : Option z.bellatrix.Signed
    pub altair : Option z.altair.Signed
    pub phase0 : Option z.phase0.Signed

  pub record BeaconBlock : Type 0 where
    pub spec : Option z.Spec
    pub bellatrix : Option z.bellatrix.Block
    pub altair : Option z.altair.Block
    pub phase0 : Option z.phase0.Block

  pub record BeaconBlockBody : Type 0 where
    pub spec : Option z.Spec
    pub bellatrix : Option z.bellatrix.Body
    pub altair : Option z.altair.Body
    pub phase0 : Option z.phase0.Body

  -- The last decoder's error is returned.
  abbrev from_phase0 : Option z.Spec → Coded z.phase0.Signed → Option Error × SignedBeaconBlock
  from_phase0 spec (coded b) =
      (none, record { spec = spec; bellatrix = none; altair = none; phase0 = some b })
  from_phase0 spec (refused e) =
      (some e, record { spec = spec; bellatrix = none; altair = none; phase0 = none })

  abbrev from_altair :
      Option z.Spec
      → Coded z.altair.Signed
      → Coded z.phase0.Signed
      → Option Error × SignedBeaconBlock
  from_altair spec (coded b) later =
      (none, record { spec = spec; bellatrix = none; altair = some b; phase0 = none })
  from_altair spec (refused e) later = from_phase0 spec later

  abbrev from_bellatrix :
      Option z.Spec
      → Coded z.bellatrix.Signed
      → Coded z.altair.Signed
      → Coded z.phase0.Signed
      → Option Error × SignedBeaconBlock
  from_bellatrix spec (coded b) next later =
      (none, record { spec = spec; bellatrix = some b; altair = none; phase0 = none })
  from_bellatrix spec (refused e) next later = from_altair spec next later

  -- `SignedBeaconBlock.UnmarshalSSZ`: the first fork whose decoder accepts the bytes.
  unfoldable pub unmarshal_block : SignedBeaconBlock → List ℕ → Option Error × SignedBeaconBlock
  unmarshal_block s ssz =
      let spec = choose_spec z s.spec in
      from_bellatrix s.spec (z.bellatrix.decode_block spec ssz) (z.altair.decode_block spec ssz)
        (z.phase0.decode_block spec ssz)

  abbrev pub block_is_bellatrix : SignedBeaconBlock → Bool
  block_is_bellatrix s = is_some s.bellatrix

  -- `Block`: nil where no fork is set.
  abbrev first_block :
      Option z.Spec
      → Option z.bellatrix.Signed
      → Option z.altair.Signed
      → Option z.phase0.Signed
      → Option BeaconBlock
  first_block spec (some b) a p = some (record {
    spec = spec;
    bellatrix = some (z.bellatrix.message b);
    altair = none;
    phase0 = none;
  })
  first_block spec none (some a) p =
      some (record {
        spec = spec;
        bellatrix = none;
        altair = some (z.altair.message a);
        phase0 = none;
      })
  first_block spec none none (some p) =
      some (record {
        spec = spec;
        bellatrix = none;
        altair = none;
        phase0 = some (z.phase0.message p);
      })
  first_block spec none none none = none

  unfoldable pub block : SignedBeaconBlock → Option BeaconBlock
  block s = first_block s.spec s.bellatrix s.altair s.phase0

  -- An accessor takes the value of the first fork that is set, and the zero value if none is.
  abbrev pick {ℓ} :
      {B A P : Type 0} {R : Type ℓ}
      → (B → R)
      → (A → R)
      → (P → R)
      → R
      → Option B
      → Option A
      → Option P
      → R
  pick b a p none_set (some x) y w = b x
  pick b a p none_set none (some y) w = a y
  pick b a p none_set none none (some w) = p w
  pick b a p none_set none none none = none_set

  unfoldable pub signature : SignedBeaconBlock → List ℕ
  signature s =
      pick z.bellatrix.signature z.altair.signature z.phase0.signature [] s.bellatrix s.altair
        s.phase0

  unfoldable pub parent_root : BeaconBlock → Root
  parent_root b =
      pick z.bellatrix.parent_root z.altair.parent_root z.phase0.parent_root zero_root b.bellatrix
        b.altair b.phase0

  unfoldable pub block_state_root : BeaconBlock → Root
  block_state_root b =
      pick z.bellatrix.state_root z.altair.state_root z.phase0.state_root zero_root b.bellatrix
        b.altair b.phase0

  unfoldable pub block_hash_tree_root : BeaconBlock → Root
  block_hash_tree_root b =
      let spec = choose_spec z b.spec in
      pick (z.bellatrix.block_hash_tree_root spec) (z.altair.block_hash_tree_root spec)
        (z.phase0.block_hash_tree_root spec) zero_root b.bellatrix b.altair b.phase0

  unfoldable pub body : BeaconBlock → Option BeaconBlockBody
  body b =
      pick
        (λ x. some (record {
          spec = b.spec;
          bellatrix = some (z.bellatrix.body x);
          altair = none;
          phase0 = none;
        }))
        (λ x. some (record {
          spec = b.spec;
          bellatrix = none;
          altair = some (z.altair.body x);
          phase0 = none;
        }))
        (λ x. some (record {
          spec = b.spec;
          bellatrix = none;
          altair = none;
          phase0 = some (z.phase0.body x);
        }))
        none b.bellatrix b.altair b.phase0

  -- `Eth1Data().BlockHash`
  unfoldable pub eth1_block_hash : BeaconBlockBody → Root
  eth1_block_hash b =
      pick z.bellatrix.eth1_block_hash z.altair.eth1_block_hash z.phase0.eth1_block_hash zero_root
        b.bellatrix b.altair b.phase0

  abbrev header_of : z.Spec → Option z.bellatrix.Body → Option ExecutionPayloadHeader
  header_of spec (some b) = some (z.payload_header spec b)
  header_of spec none = none

  unfoldable pub execution_payload_header : BeaconBlockBody → Option ExecutionPayloadHeader
  execution_payload_header b = header_of (choose_spec z b.spec) b.bellatrix

  -- The error and the buffer of `MarshalSSZ` after one fork's `if`.
  abbrev after_encoding :
      {A : Type 0}
      → (A → Option Error × List ℕ)
      → Option A
      → Option Error × List ℕ
      → Option Error × List ℕ
  after_encoding encode none done_so_far = done_so_far
  after_encoding encode (some x) done_so_far =
      let r : Option Error × List ℕ = encode x in (r.0, done_so_far.1 ++ r.1)

  abbrev marshalled : Option Error × List ℕ → Coded (List ℕ)
  marshalled (none, bytes) = coded bytes
  marshalled (some e, bytes) = refused e

  -- `SignedBeaconBlock.MarshalSSZ`: three tests in a row; with no fork set the bytes are empty.
  unfoldable pub marshal_block : SignedBeaconBlock → Coded (List ℕ)
  marshal_block s =
      let spec = choose_spec z s.spec in
      marshalled (
        after_encoding (z.phase0.encode_block spec) s.phase0 (
          after_encoding (z.altair.encode_block spec) s.altair
            (after_encoding (z.bellatrix.encode_block spec) s.bellatrix (none, []))))
