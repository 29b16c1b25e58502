-- ===== src/Consensus/State.antt =====
-- Beacon states: pkg/beaconclient/consensus.go.
use ipld_eth_beacon_indexer.Base.{ℕ, List, Option, none, some}
use ipld_eth_beacon_indexer.Sql.{Error}
use ipld_eth_beacon_indexer.Consensus.{Root, Coded, coded, refused, Zrnt, choose_spec, zero_root}

module _ (z : Zrnt) where
  pub record BeaconState : Type 0 where
    pub spec : Option z.Spec
    pub bellatrix : Option z.bellatrix.State
    pub altair : Option z.altair.State
    pub phase0 : Option z.phase0.State

  abbrev state_from_phase0 : Option z.Spec → Coded z.phase0.State → Option Error × BeaconState
  state_from_phase0 spec (coded x) =
      (none, record { spec = spec; bellatrix = none; altair = none; phase0 = some x })
  state_from_phase0 spec (refused e) =
      (some e, record { spec = spec; bellatrix = none; altair = none; phase0 = none })

  abbrev state_from_altair :
      Option z.Spec → Coded z.altair.State → Coded z.phase0.State → Option Error × BeaconState
  state_from_altair spec (coded x) later =
      (none, record { spec = spec; bellatrix = none; altair = some x; phase0 = none })
  state_from_altair spec (refused e) later = state_from_phase0 spec later

  abbrev state_from_bellatrix :
      Option z.Spec
      → Coded z.bellatrix.State
      → Coded z.altair.State
      → Coded z.phase0.State
      → Option Error × BeaconState
  state_from_bellatrix spec (coded x) next later =
      (none, record { spec = spec; bellatrix = some x; altair = none; phase0 = none })
  state_from_bellatrix spec (refused e) next later = state_from_altair spec next later

  -- `BeaconState.UnmarshalSSZ`
  unfoldable pub unmarshal_state : BeaconState → List ℕ → Option Error × BeaconState
  unmarshal_state s ssz =
      let spec = choose_spec z s.spec in
      state_from_bellatrix s.spec (z.bellatrix.decode_state spec ssz)
        (z.altair.decode_state spec ssz) (z.phase0.decode_state spec ssz)

  abbrev encoded : Option Error × List ℕ → Coded (List ℕ)
  encoded (none, bytes) = coded bytes
  encoded (some e, bytes) = refused e

  abbrev encode_first :
      z.Spec
      → Option z.bellatrix.State
      → Option z.altair.State
      → Option z.phase0.State
      → Coded (List ℕ)
  encode_first spec (some x) a p = encoded (z.bellatrix.encode_state spec x)
  encode_first spec none (some x) p = encoded (z.altair.encode_state spec x)
  encode_first spec none none (some x) = encoded (z.phase0.encode_state spec x)
  encode_first spec none none none = refused "BeaconState not set"

  -- `BeaconState.MarshalSSZ`
  unfoldable pub marshal_state : BeaconState → Coded (List ℕ)
  marshal_state s = encode_first (choose_spec z s.spec) s.bellatrix s.altair s.phase0

  abbrev first_root :
      z.Spec → Option z.bellatrix.State → Option z.altair.State → Option z.phase0.State → Root
  first_root spec (some x) a p = z.bellatrix.state_hash_tree_root spec x
  first_root spec none (some x) p = z.altair.state_hash_tree_root spec x
  first_root spec none none (some x) = z.phase0.state_hash_tree_root spec x
  first_root spec none none none = zero_root

  unfoldable pub state_hash_tree_root : BeaconState → Root
  state_hash_tree_root s = first_root (choose_spec z s.spec) s.bellatrix s.altair s.phase0
