-- ===== src/Batch/Entries.antt =====
-- The loop of `getBatchProcessRow` (pkg/beaconclient/processhistoric.go), which the two
-- `getSlotRange` run: rounds until five errors are collected or the context is done. Each
-- transaction that was begun has a deferred rollback, which runs when the loop returns.
pub mod Locks
pub mod Once
use ipld_eth_beacon_indexer.Base.{
  ℕ, zero, suc, String, List, [], ◌∷◌, ◌++◌, length, Option, Bool, true, false, leb, ◌||◌,
  if◌then◌else◌,
}
use ipld_eth_beacon_indexer.Sql.{Error, BatchTable, Driver}
use ipld_eth_beacon_indexer.Action.{Action, ◌>>=◌, ◌>>◌, pure, call}
use ipld_eth_beacon_indexer.Batch.{SlotsToProcess, Round, again, sent, get_batch_process_row}

-- The errors collected, the ranges sent, the last one first, and the deferred rollbacks.
pub record Entries : Type 0 where
  pub errors : List (Option Error)
  pub ranges : List SlotsToProcess
  pub rollbacks : ℕ

abbrev pub no_entries : Entries
no_entries = record { errors = []; ranges = []; rollbacks = 0 }

abbrev pub add_round : Round → Entries → Entries
add_round (again begun errors) p = record {
  errors = p.errors ++ errors;
  ranges = p.ranges;
  rollbacks = if begun then suc p.rollbacks else p.rollbacks;
}
add_round (sent slots) p = record {
  errors = p.errors;
  ranges = slots ∷ p.ranges;
  rollbacks = suc p.rollbacks;
}

module _ {S : Type 0} (db : Driver S) where
  abbrev pub roll_back_all : ℕ → Action S (Unit {0})
  roll_back_all zero = pure tt
  roll_back_all (suc n) = call db.rollback >> roll_back_all n

  -- The deferred calls run after the errors to return are known: what they add is not returned.
  abbrev pub return_errors : Entries → Action S (Bool × Entries)
  return_errors p = roll_back_all p.rollbacks >> pure (true, p)

  module _ (table : BatchTable) (node : String) (minimum : ℕ) where
    -- For each round, whether the context is done when it begins. The result says whether the loop
    -- has returned; where it has not, every round of the list was taken.
    unfoldable pub get_slot_range : List Bool → Entries → Action S (Bool × Entries)
    get_slot_range [] p = pure (false, p)
    get_slot_range (context_done ∷ rounds) p =
        let rest : Round → Action S (Bool × Entries) =
          λ round. get_slot_range rounds (add_round round p) in
        if leb 5 (length p.errors) || context_done
        then return_errors p
        else (get_batch_process_row db table node minimum >>= rest)
