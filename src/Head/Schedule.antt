-- ===== src/Head/Schedule.antt =====
-- `handleHead` (pkg/beaconclient/processevents.go) with the goroutines that it starts: the messages
-- and the calls of `processHeadSlot` take turns in any order, a call after its message. A call takes
-- its turn whole.
pub mod Starts
pub mod Accounted
use ipld_eth_beacon_indexer.Base.{ℕ, zero, suc, List, [], ◌∷◌, ◌++◌, Option, none, some, Bool}
use ipld_eth_beacon_indexer.Sql.{Driver}
use ipld_eth_beacon_indexer.Server.{Node}
use ipld_eth_beacon_indexer.Consensus.{Zrnt}
use ipld_eth_beacon_indexer.Action.{Action, ◌>>=◌, ◌>>◌, pure}
use ipld_eth_beacon_indexer.Writer.Slot.{Ipfs}
use ipld_eth_beacon_indexer.ProcessSlot.Full.{process_head_slot}
use ipld_eth_beacon_indexer.Head.{Head, Tracking, Settings, Spawned, handle_head}

-- The next message; or the started call at a place of those that have not run, with the retrieval
-- that returns first.
pub data Turn : Type 0 where
  message : Head → Turn
  process : (place : ℕ) → (state_first : Bool) → Turn

pub record Progress : Type 0 where
  pub tracking : Tracking
  -- the calls that have started and those that have returned
  pub pending : List Spawned
  pub finished : List Spawned

abbrev pub take_at : ℕ → List Spawned → Option (Spawned × List Spawned)
take_at i [] = none
take_at zero (call ∷ calls) = some (call, calls)
take_at (suc i) (call ∷ calls) = elim (take_at i calls) [
  | none ↦ none
  | some (taken, rest) ↦ some (taken, call ∷ rest)
]

abbrev pub added : Option Spawned → List Spawned → List Spawned
added none calls = calls
added (some call) calls = call ∷ calls

module _ (z : Zrnt) (node : Node) (ipfs : Ipfs) {S : Type 0} (db : Driver S) (bc : Settings) where
  abbrev pub run_call :
      (state_first : Bool) → Progress → Option (Spawned × List Spawned) → Action S Progress
  run_call state_first p none = pure p
  run_call state_first p (some (call, rest)) =
      process_head_slot z node ipfs db state_first call.slot call.block call.state call.details
      >> pure (record p { pending = rest; finished = call ∷ p.finished })

  unfoldable pub run_turn : Turn → Progress → Action S Progress
  run_turn (message head) p = do
    (after, call) ← handle_head db bc p.tracking head
    pure (record p { tracking = after; pending = added call p.pending })
  run_turn (process place state_first) p = run_call state_first p (take_at place p.pending)

  unfoldable pub run_turns : List Turn → Progress → Action S Progress
  run_turns [] p = pure p
  run_turns (turn ∷ turns) p = run_turn turn p >>= run_turns turns

abbrev pub at_first : Tracking → Progress
at_first t = record { tracking = t; pending = []; finished = [] }

abbrev pub messages : List Turn → List Head
messages [] = []
messages (message head ∷ turns) = head ∷ messages turns
messages (process place state_first ∷ turns) = messages turns
