-- ===== src/Head/Reorged.antt =====
-- What `handleReorg` (pkg/beaconclient/processevents.go) commits for a message.
use ipld_eth_beacon_indexer.Slot.{parse_slot}
use ipld_eth_beacon_indexer.Slot.RoundTrip.{parse_slot-le}
use ipld_eth_beacon_indexer.Sql.{Driver}
use ipld_eth_beacon_indexer.Sql.Laws.{IsPostgres}
use ipld_eth_beacon_indexer.Action.{World, Ensures}
use ipld_eth_beacon_indexer.Writer.KnownGaps.Table.{in_db, Uncommitted}
use ipld_eth_beacon_indexer.Writer.Reorgs.Committed.{IsResolved, write_reorgs-IsResolved}
use ipld_eth_beacon_indexer.Head.{ChainReorg, handle_reorg}

module _ {S : Type 0} (db : Driver S) (laws : IsPostgres db) where
  -- For any message of a reorg, of which the slot is what ParseSlot returns, also beside an error:
  -- where exactly one row of the slot has the new root, the committed tables have it as proposed, the
  -- other rows of the slot as forked and the rows of other slots as they were; or a committed known
  -- gap holds the slot; or the program exits and nothing has been committed.
  pub handle_reorg-IsResolved :
      (reorg : ChainReorg) (w : World S)
      → Ensures
          (λ _ w'.
            IsResolved
              (parse_slot reorg.slot).0
              reorg.new_head_block
              (in_db db laws w).slots
              (in_db db laws w'))
          (Uncommitted db laws (in_db db laws w))
          (handle_reorg db reorg w)
  unfolding handle_reorg
  handle_reorg-IsResolved reorg w =
      write_reorgs-IsResolved db laws (parse_slot reorg.slot).0 reorg.new_head_block w
        (parse_slot-le reorg.slot)
