-- ===== src/Shutdown/Released.antt =====
-- What the shutdown leaves in the two batch tables (internal/shutdown/shutdown.go).
use ipld_eth_beacon_indexer.Base.{ℕ, zero, suc, ◌≡◌, String, Option, none, some, false, All}
use ipld_eth_beacon_indexer.Sql.{
  Error, BatchTable, historic_process, known_gaps, Driver, release_lock,
}
use ipld_eth_beacon_indexer.Sql.Tables.{Tables, held_by, batch_rows, meaning}
use ipld_eth_beacon_indexer.Sql.Laws.{IsPostgres}
use ipld_eth_beacon_indexer.Server.{decimal}
use ipld_eth_beacon_indexer.Action.{World}
use ipld_eth_beacon_indexer.Writer.KnownGaps.Table.{in_db}
use ipld_eth_beacon_indexer.Shutdown.Graceful.{timeout_err}

-- No row of the table is held by the node.
abbrev pub IsFree : BatchTable → ℕ → Tables → Type 0
IsFree table node t = All (λ r. held_by (decimal node) r ≡ false) (batch_rows table t)

abbrev released_both : ℕ → Tables → Tables
released_both node t =
    (meaning (release_lock known_gaps (decimal node))
      (meaning (release_lock historic_process (decimal node)) t).1).1

module _ {S : Type 0} (db : Driver S) (laws : IsPostgres db) where
  -- After that many of the three stages of `ShutdownFull` have ended in time: what is returned, and
  -- the tables of which no row is held by the node.
  abbrev pub Ends : (timeout : String) (node in_time : ℕ) → Option Error → World S → Type 0
  Ends timeout node zero error w = error ≡ some (timeout_err timeout)
  Ends timeout node (suc zero) error w =
      (error ≡ some (timeout_err timeout)) × IsFree historic_process node (in_db db laws w)
  Ends timeout node (suc (suc zero)) error w =
      (error ≡ some (timeout_err timeout))
      × (IsFree historic_process node (in_db db laws w) × IsFree known_gaps node (in_db db laws w))
  Ends timeout node (suc (suc (suc n))) error w =
      (error ≡ none)
      × (IsFree historic_process node (in_db db laws w) × IsFree known_gaps node (in_db db laws w))
