-- ===== src/Writer/KnownGaps/Total.antt =====
-- The known-gap writers of databasewrite.go return when the server is available, and have then
-- committed their entries.
use ipld_eth_beacon_indexer.Base.{ℕ, ◌<◌, List, [], ◌∷◌, String, Option}
use ipld_eth_beacon_indexer.Models.{DbKnownGaps}
use ipld_eth_beacon_indexer.Sql.{Error, Driver, upsert_known_gaps}
use ipld_eth_beacon_indexer.Sql.Laws.{IsPostgres, IsAvailable}
use ipld_eth_beacon_indexer.Sql.Tables.{Tables}
use ipld_eth_beacon_indexer.Action.{World, ◌>>=◌, ◌>>◌, pure, call, Returns}
use ipld_eth_beacon_indexer.Action.Rules.{Ensures-bind, Returns-Ensures}
use ipld_eth_beacon_indexer.Writer.KnownGaps.{
  gap_model, error_message, upsert_known_gap, transact_known_gaps, write_known_gaps, fatal_error,
}
use ipld_eth_beacon_indexer.Writer.KnownGaps.Ranges.{IsRange, gap_ranges}
use ipld_eth_beacon_indexer.Writer.KnownGaps.Table.{Covers, CoversAll, in_db, Uncommitted}
use ipld_eth_beacon_indexer.Writer.KnownGaps.Commit.{Written, write_known_gaps-Written}
use ipld_eth_beacon_indexer.Writer.KnownGaps.Trace.{upsert_all, transact_known_gaps-eq-upsert_all}

module _ {S : Type 0} (db : Driver S) (up : IsAvailable db) where
  abbrev AnyWorld : Unit {0} → World S → Type 0
  AnyWorld _ _ = Unit {0}

  upsert_known_gap-Returns :
      (g : DbKnownGaps) (w : World S) → Returns AnyWorld (upsert_known_gap db g w)
  unfolding upsert_known_gap
  upsert_known_gap-Returns g w = rw (up.tx_runs (upsert_known_gaps g) w.store).1 tt

  upsert_all-Returns :
      (message process : String) (ranges : List (ℕ × ℕ)) (w : World S)
      → Returns AnyWorld (upsert_all db message process ranges w)
  unfolding upsert_all
  upsert_all-Returns message process [] w = tt
  upsert_all-Returns message process ((start, end) ∷ ranges) w =
      Ensures-bind AnyWorld AnyWorld (λ _. ⊥)
        (upsert_known_gap db (gap_model message process start end))
        (λ _. upsert_all db message process ranges) w
        (upsert_known_gap-Returns (gap_model message process start end) w)
        λ _ w' _. upsert_all-Returns message process ranges w'

  -- On an available server and with a positive increment `transactKnownGaps` returns, for any slots.
  pub transact_known_gaps-Returns :
      (increment start end : ℕ) (error : Option Error) (process : String) (w : World S)
      → 0 < increment
      → Returns (λ _ _. Unit {0}) (transact_known_gaps db increment start end error process w)
  transact_known_gaps-Returns increment start end error process w positive =
      rw (transact_known_gaps-eq-upsert_all db increment start end error process w positive)
        (upsert_all-Returns (error_message error) process (gap_ranges increment start end) w)

  -- On an available server and with a positive increment `writeKnownGaps` returns, for any slots.
  write_known_gaps-Returns :
      (increment start end : ℕ) (error : Option Error) (process : String) (w : World S)
      → 0 < increment
      → Returns (λ _ _. Unit {0}) (write_known_gaps db increment start end error process w)
  unfolding write_known_gaps
  write_known_gaps-Returns increment start end error process w positive =
      let w1 : World S = record w { store = (db.begin w.store).1 } in
      rw (up.begin_runs w.store) (
        Ensures-bind AnyWorld AnyWorld (λ _. ⊥)
          (transact_known_gaps db increment start end error process)
          (λ _. do
            commit_error ← call db.commit
            fatal_error db commit_error
            call db.rollback
            pure tt)
          w1 (transact_known_gaps-Returns increment start end error process w1 positive)
          λ _ w' _. rw (up.commit_runs w'.store) tt)

module _ {S : Type 0} (db : Driver S) (laws : IsPostgres db) (up : IsAvailable db)
    (db0 : Tables) where
  -- On a server where no call fails, `writeKnownGaps` of a proper gap returns, and it has committed
  -- entries that hold every slot of the gap and every slot that an entry held before.
  pub write_known_gaps-CoversAll :
      (increment start end : ℕ) (error : Option Error) (process : String) (w : World S)
      → IsRange increment start end
      → Uncommitted db laws db0 w
      → Returns
          (λ _ w'.
            CoversAll start end (in_db db laws w')
            × ((slot : ℕ) → Covers slot db0 → Covers slot (in_db db laws w')))
          (write_known_gaps db increment start end error process w)
  write_known_gaps-CoversAll increment start end error process w range same =
      Returns-Ensures (λ _ _. Unit) (λ _. Written db laws db0 start end) (Uncommitted db laws db0)
        (write_known_gaps db increment start end error process w)
        (write_known_gaps-Returns db up increment start end error process w range.positive)
        (write_known_gaps-Written db laws db0 increment start end error process w range same)
