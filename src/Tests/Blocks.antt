-- ===== src/Tests/Blocks.antt =====
-- Forks: consensus.go, with the stand-in of the zrnt library.
use ipld_eth_beacon_indexer.Base.{◌≡◌, refl, [], ◌∷◌, true, is_some}
use ipld_eth_beacon_indexer.Consensus.Block.{unmarshal_block}
use ipld_eth_beacon_indexer.Consensus.State.{unmarshal_state}
use ipld_eth_beacon_indexer.Consensus.Forks.{
  OneFork, Rewrites, RewritesState, unmarshal_block-OneFork, marshal-unmarshal_block,
  marshal-unmarshal_state,
}
use ipld_eth_beacon_indexer.ProcessSlot.{empty_block, empty_state}
use ipld_eth_beacon_indexer.Tests.Toy.{toy, toy-RoundTrips}

-- Bytes of an Altair block set that fork.
altair_bytes : is_some (unmarshal_block toy (empty_block toy) (1 ∷ 5 ∷ [])).1.altair ≡ true
unfolding unmarshal_block
altair_bytes = refl

unmarshal_block-OneFork_example : OneFork toy (unmarshal_block toy (empty_block toy) (1 ∷ 5 ∷ []))
unmarshal_block-OneFork_example = unmarshal_block-OneFork toy (empty_block toy) (1 ∷ 5 ∷ [])

marshal-unmarshal_block_example :
    Rewrites toy toy-RoundTrips (1 ∷ 5 ∷ []) (unmarshal_block toy (empty_block toy) (1 ∷ 5 ∷ []))
marshal-unmarshal_block_example =
    marshal-unmarshal_block toy toy-RoundTrips (empty_block toy) (1 ∷ 5 ∷ [])

marshal-unmarshal_state_example :
    RewritesState toy toy-RoundTrips
      (0 ∷ 5 ∷ [])
      (unmarshal_state toy (empty_state toy) (0 ∷ 5 ∷ []))
marshal-unmarshal_state_example =
    marshal-unmarshal_state toy toy-RoundTrips (empty_state toy) (0 ∷ 5 ∷ [])
