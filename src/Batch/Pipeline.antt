-- ===== src/Batch/Pipeline.antt =====
-- The goroutines of `handleBatchProcess` (pkg/beaconclient/capturehistoric.go) and their unbuffered
-- channels: one distributor, `max_workers` workers (processSlotRangeWorker), one goroutine for the
-- errors (handleProcessingErrors) and those that remove the entries (removeRowPostProcess). A step
-- is a hand-over on a channel or the end of a call, in any order; what a call of a worker comes to
-- is left open.
pub mod Account
pub mod Drain
use ipld_eth_beacon_indexer.Base.{ℕ, ◌+◌, ◌<◌, ◌≡◌, List, [], ◌∷◌, ◌++◌, Option, none, some, length}
use ipld_eth_beacon_indexer.Word.{max_u64}
use ipld_eth_beacon_indexer.Batch.{
  SlotsToProcess, BatchHistoricError, Message, error_message, work, processed, distribute,
}

pub record Pipeline : Type 0 where
  -- what the distributor has still to send of its range
  pub outbox : List Message
  -- the slots that workers process, and the errors that workers wait to send
  pub working : List ℕ
  pub failing : List BatchHistoricError
  -- the error that is being handled
  pub handling : Option BatchHistoricError
  -- what has happened: ranges taken from slotsCh, slots counted by incrementTracker, errors handled,
  -- ranges taken from processedCh
  pub received : List SlotsToProcess
  pub finished : List ℕ
  pub handled : List ℕ
  pub removing : List SlotsToProcess

abbrev pub idle : Pipeline
idle = record {
  outbox = [];
  working = [];
  failing = [];
  handling = none;
  received = [];
  finished = [];
  handled = [];
  removing = [];
}

-- Everything but the arrival of a range.
pub data Step (max_workers : ℕ) : Pipeline → Pipeline → Type 0 where
  -- workCh: there is a worker at its select
  start :
      (p : Pipeline) (slot : ℕ) (rest : List Message)
      → p.outbox ≡ work slot ∷ rest
      → length p.working + length p.failing < max_workers
      → Step max_workers p (record p { outbox = rest; working = slot ∷ p.working })
  -- handleHistoricSlot returns no error, and the slot is counted
  succeed :
      (p : Pipeline) (before : List ℕ) (slot : ℕ) (after : List ℕ)
      → p.working ≡ before ++ (slot ∷ after)
      → Step max_workers p (record p { working = before ++ after; finished = slot ∷ p.finished })
  -- it returns an error, and the worker stays at its send
  fail :
      (p : Pipeline) (before : List ℕ) (m : BatchHistoricError) (after : List ℕ)
      → p.working ≡ before ++ (m.slot ∷ after)
      → Step max_workers p (record p { working = before ++ after; failing = m ∷ p.failing })
  -- errCh, from a worker
  report :
      (p : Pipeline) (before : List BatchHistoricError) (m : BatchHistoricError)
      → (after : List BatchHistoricError) → p.failing ≡ before ++ (m ∷ after)
      → p.handling ≡ none
      → Step max_workers p (record p { failing = before ++ after; handling = some m })
  -- errCh, from the distributor
  report_order :
      (p : Pipeline) (m : BatchHistoricError) (rest : List Message)
      → p.outbox ≡ error_message m ∷ rest
      → p.handling ≡ none
      → Step max_workers p (record p { outbox = rest; handling = some m })
  -- the call that handles the error returns
  handle :
      (p : Pipeline) (m : BatchHistoricError)
      → p.handling ≡ some m
      → Step max_workers p (record p { handling = none; handled = m.slot ∷ p.handled })
  -- processedCh
  remove :
      (p : Pipeline) (slots : SlotsToProcess) (rest : List Message)
      → p.outbox ≡ processed slots ∷ rest
      → Step max_workers p (record p { outbox = rest; removing = slots ∷ p.removing })

-- slotsCh: the distributor takes a range when it has sent everything of the one before. A range that
-- ends at the greatest uint64 never comes to its end.
abbrev pub take_range : Pipeline → SlotsToProcess → List Message → Pipeline
take_range p slots messages = record p { outbox = messages; received = slots ∷ p.received }

pub data Reach (max_workers : ℕ) : Pipeline → Type 0 where
  begin : Reach max_workers idle
  arrive :
      {p : Pipeline} (slots : SlotsToProcess) (messages : List Message)
      → Reach max_workers p
      → p.outbox ≡ []
      → slots.end_slot < max_u64
      → distribute slots ≡ some messages
      → Reach max_workers (take_range p slots messages)
  later : {p q : Pipeline} → Reach max_workers p → Step max_workers p q → Reach max_workers q

-- `n` steps with no new range.
pub data Steps (max_workers : ℕ) : ℕ → Pipeline → Pipeline → Type 0 where
  stay : {p : Pipeline} → Steps max_workers 0 p p
  go :
      {n : ℕ} {p q r : Pipeline}
      → Steps max_workers n p q
      → Step max_workers q r
      → Steps max_workers (n + 1) p r
