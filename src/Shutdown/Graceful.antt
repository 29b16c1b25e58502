-- ===== src/Shutdown/Graceful.antt =====
-- `Shutdown` of pkg/gracefulshutdown/gracefulshutdown.go with its goroutines, its timer and its two
-- channels, and the select of `ShutdownServices` (internal/shutdown/shutdown.go) that waits for it.
-- When an operation ends, and with what, is left open, and so is the order of the steps.
pub mod Sound
pub mod Returned
use Prim.Native.String.{◌++◌ as str_append}
use ipld_eth_beacon_indexer.Base.{
  ℕ, ◌+◌, ◌≡◌, String, List, [], ◌∷◌, ◌++◌, Option, none, some, Bool, true, false,
}
use ipld_eth_beacon_indexer.Sql.{Error}

-- `time.AfterFunc`: not set, running, its function waits to send on errCh, it has sent, or the timer
-- was stopped before it fired.
pub data Timer : Type 0 where
  unset armed firing sent stopped : Timer

pub record Graceful : Type 0 where
  -- a signal was taken from notifierCh
  pub signalled : Bool
  pub timer : Timer
  -- the keys of the operations to start, of those whose goroutine runs, and of those that have ended
  pub unstarted : List String
  pub running : List String
  pub ended : List (String × Option Error)
  -- waitCh is closed
  pub closed : Bool
  -- the goroutine has ended, with its deferred call
  pub finished : Bool
  -- what ShutdownServices has returned, if it has
  pub returned : Option (Option Error)

-- `timeout` is what `time.Duration.String` makes of the timeout.
abbrev pub timeout_err : (timeout : String) → Error
timeout_err timeout =
    str_append "The Timeout "
      (str_append timeout ", has been elapsed, the application will forcefully exit")

abbrev pub initial : List String → Graceful
initial ops = record {
  signalled = false;
  timer = unset;
  unstarted = ops;
  running = [];
  ended = [];
  closed = false;
  finished = false;
  returned = none;
}

-- `timeoutFunc.Stop()`, the deferred call of the goroutine: between the close of waitCh and this call
-- the timer may still fire.
abbrev pub stop : Timer → Timer
stop unset = unset
stop armed = stopped
stop firing = firing
stop sent = sent
stop stopped = stopped

-- What the program does by itself.
pub data Step (timeout : String) : Graceful → Graceful → Type 0 where
  -- the loop over the map, in any order
  start :
      (g : Graceful) (before : List String) (key : String) (after : List String)
      → g.signalled ≡ true
      → g.unstarted ≡ before ++ (key ∷ after)
      → Step timeout g (record g { unstarted = before ++ after; running = key ∷ g.running })
  elapse : (g : Graceful) → g.timer ≡ armed → Step timeout g (record g { timer = firing })
  -- wg.Wait() returns, and waitCh is closed
  close :
      (g : Graceful)
      → g.signalled ≡ true
      → g.unstarted ≡ []
      → g.running ≡ []
      → g.closed ≡ false
      → Step timeout g (record g { closed = true })
  stop_timer :
      (g : Graceful)
      → g.closed ≡ true
      → g.finished ≡ false
      → Step timeout g (record g { finished = true; timer = stop g.timer })
  return_success :
      (g : Graceful)
      → g.closed ≡ true
      → g.returned ≡ none
      → Step timeout g (record g { returned = some none })
  return_timeout :
      (g : Graceful)
      → g.timer ≡ firing
      → g.returned ≡ none
      → Step timeout g (record g { timer = sent; returned = some (some (timeout_err timeout)) })

-- What comes from outside: the signal, and the end of an operation, whose error is only logged.
pub data Event : Graceful → Graceful → Type 0 where
  signal :
      (g : Graceful) → g.signalled ≡ false → Event g (record g { signalled = true; timer = armed })
  finish :
      (g : Graceful) (before : List String) (key : String) (after : List String)
      → (error : Option Error) → g.running ≡ before ++ (key ∷ after)
      → Event g (record g { running = before ++ after; ended = (key, error) ∷ g.ended })

pub data Reach (timeout : String) (ops : List String) : ℕ → Graceful → Type 0 where
  begin : Reach timeout ops 0 (initial ops)
  step :
      {n : ℕ} {g h : Graceful}
      → Reach timeout ops n g
      → Step timeout g h
      → Reach timeout ops (n + 1) h
  event : {n : ℕ} {g h : Graceful} → Reach timeout ops n g → Event g h → Reach timeout ops (n + 1) h

-- The keys of the operations that have ended.
abbrev pub ended_keys : List (String × Option Error) → List String
ended_keys [] = []
ended_keys ((key, error) ∷ ended) = key ∷ ended_keys ended
