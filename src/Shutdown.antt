-- ===== src/Shutdown.antt =====
-- The end of the application: internal/shutdown/shutdown.go and the functions that stop the services
-- (capturehead.go, capturehistoric.go and processknowngaps.go in pkg/beaconclient). Each shutdown has
-- one operation, of which the timeout of ShutdownServices may leave a part undone; the goroutines
-- around it are in Graceful, and the end of the event streams is in Events.antt.
pub mod Released
pub mod Graceful
use ipld_eth_beacon_indexer.Base.{ℕ, zero, suc, String, List, [], ◌∷◌, Option, none, some}
use ipld_eth_beacon_indexer.Shutdown.Graceful.{timeout_err}
use ipld_eth_beacon_indexer.Sql.{Error, historic_process, known_gaps, Driver}
use ipld_eth_beacon_indexer.Action.{
  World, Outcome, done, fatal, panic, Action, ◌>>=◌, ◌>>◌, pure, panics,
}
use ipld_eth_beacon_indexer.Batch.{release_db_locks}

-- `BC.HistoricalProcess` and `BC.KnownGapsProcess`: the identifier of the node, or none for the zero
-- value, which has no database.
pub record Services : Type 0 where
  pub historical_process : Option ℕ
  pub known_gaps_process : Option ℕ

-- `close` is what `DB.Close` does to the server's session; it returns no error.
module _ {S : Type 0} (db : Driver S) (close : S → S) where
  -- `text` is what fmt makes of the error, which is only logged.
  abbrev pub stop_historic : (text : Error → Error) → Option ℕ → Action S (Option Error)
  stop_historic text none = panics
  stop_historic text (some node) = release_db_locks db text historic_process node >> pure none

  abbrev pub stop_known_gaps_processing : (node : ℕ) → Action S (Option Error)
  stop_known_gaps_processing node = release_db_locks db (λ e. e) known_gaps node >> pure none

  -- What `StopHeadTracking` does when it ends. It first waits until the channels of the two streams
  -- are empty, which may last longer than the timeout: the stage has then not ended in time.
  abbrev pub stop_head_tracking : Action S (Option Error)
  stop_head_tracking = pure none

  -- The known gaps are stopped where they were started, and their error takes the place of the
  -- one before.
  abbrev pub stop_known_gaps_if_started : Option ℕ → Option Error → Action S (Option Error)
  stop_known_gaps_if_started none error = pure error
  stop_known_gaps_if_started (some node) error = stop_known_gaps_processing node

  -- A stage of an operation takes the error of the one before.
  abbrev pub Stage : Type 0
  Stage = Option Error → Action S (Option Error)

  -- The first `in_time` stages end before the timeout. Where that is not all of them, there is no
  -- result when `ShutdownServices` returns.
  unfoldable pub run_stages :
      (in_time : ℕ) → List Stage → Option Error → Action S (Option (Option Error))
  run_stages in_time [] error = pure (some error)
  run_stages zero (stage ∷ stages) error = pure none
  run_stages (suc in_time) (stage ∷ stages) error = do
    error' ← stage error
    run_stages in_time stages error'

  -- The deferred `DB.Close` runs when the operation returns or panics, not while it has not ended.
  abbrev deferred :
      Outcome (Option (Option Error)) × World S → Outcome (Option (Option Error)) × World S
  deferred (done none, w) = (done none, w)
  deferred (done (some error), w) = (done (some error), record w { store = close w.store })
  deferred (panic, w) = (panic, record w { store = close w.store })
  deferred (fatal, w) = (fatal, w)

  abbrev pub operation : (in_time : ℕ) → List Stage → Action S (Option (Option Error))
  operation in_time stages w = deferred (run_stages in_time stages none w)

  unfoldable pub shutdown_head_tracking :
      (in_time : ℕ) → Services → Action S (Option (Option Error))
  shutdown_head_tracking in_time bc =
      operation in_time
        ((λ _. stop_head_tracking) ∷ stop_known_gaps_if_started bc.known_gaps_process ∷ [])

  unfoldable pub shutdown_historic_processing :
      (in_time : ℕ) → (text : Error → Error) → Services → Action S (Option (Option Error))
  shutdown_historic_processing in_time text bc = operation in_time (
      (λ _. stop_historic text bc.historical_process)
      ∷ stop_known_gaps_if_started bc.known_gaps_process
      ∷ [])

  unfoldable pub shutdown_full :
      (in_time : ℕ) → (text : Error → Error) → Services → Action S (Option (Option Error))
  shutdown_full in_time text bc = operation in_time (
      (λ _. stop_historic text bc.historical_process)
      ∷ stop_known_gaps_if_started bc.known_gaps_process
      ∷ (λ _. stop_head_tracking)
      ∷ [])

  -- `DB.Close` is the whole operation.
  unfoldable pub shutdown_boot : (in_time : ℕ) → Action S (Option (Option Error))
  shutdown_boot zero w = (done none, w)
  shutdown_boot (suc in_time) w = (done (some none), record w { store = close w.store })

-- The select of `ShutdownServices`: the success that follows the end of the operation, of which
-- `Shutdown` only logs the error, or the error of the timeout.
abbrev pub selected : (timeout : String) → Option (Option Error) → Option Error
selected timeout none = some (timeout_err timeout)
selected timeout (some error) = none

unfoldable pub shutdown_services :
    {S : Type 0} → (timeout : String) → Action S (Option (Option Error)) → Action S (Option Error)
shutdown_services timeout operation = operation >>= λ result. pure (selected timeout result)
