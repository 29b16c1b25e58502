-- ===== src/Writer/Reorgs/Committed.antt =====
-- What `writeReorgs` (databasewrite.go) commits.
use ipld_eth_beacon_indexer.Base.{ℕ, ◌≤◌, ◌≡◌, ◌⊎◌, ap, refl, String, List, map}
use ipld_eth_beacon_indexer.Word.{max_u64}
use ipld_eth_beacon_indexer.Models.{DbSlots}
use ipld_eth_beacon_indexer.Sql.{Driver}
use ipld_eth_beacon_indexer.Sql.Tables.{Tables, has_root}
use ipld_eth_beacon_indexer.Sql.Tables.Rows.{count_where}
use ipld_eth_beacon_indexer.Sql.Laws.{IsPostgres}
use ipld_eth_beacon_indexer.Action.{World, Ensures}
use ipld_eth_beacon_indexer.Writer.KnownGaps.Table.{in_db, Covers, Uncommitted}
use ipld_eth_beacon_indexer.Writer.Transact.{transact_lem}
use ipld_eth_beacon_indexer.Writer.Reorgs.{transact_reorgs, write_reorgs}
use ipld_eth_beacon_indexer.Writer.Reorgs.Marks.{resolve}
use ipld_eth_beacon_indexer.Writer.Reorgs.Table.{transact_reorgs-Resolved}

-- Of rows in which one has the root, that one is proposed and the others of the slot are forked; or
-- some known gap holds the slot.
abbrev pub IsResolved : (slot : ℕ) → (root : String) → (rows : List DbSlots) → Tables → Type 0
IsResolved slot root rows t =
    ((t.slots ≡ map (resolve slot root) rows) × (count_where (has_root slot root) rows ≡ 1))
    ⊎ Covers slot t

module _ {S : Type 0} (db : Driver S) (laws : IsPostgres db) (slot : ℕ) (root : String) where
  pub write_reorgs-IsResolved :
      (w : World S)
      → slot ≤ max_u64
      → Ensures
          (λ _ w'. IsResolved slot root (in_db db laws w).slots (in_db db laws w'))
          (Uncommitted db laws (in_db db laws w))
          (write_reorgs db slot root w)
  unfolding write_reorgs
  write_reorgs-IsResolved w word =
      let db0 : Tables = in_db db laws w in
      transact_lem db laws db0 (IsResolved slot root db0.slots) (transact_reorgs db slot root) w
        refl
        (λ w1 opened same.
          transact_reorgs-Resolved db laws db0 slot root db0.slots w1 word same
            (ap (λ (t : Tables). t.slots) opened))
