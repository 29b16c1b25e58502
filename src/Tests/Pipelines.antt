-- ===== src/Tests/Pipelines.antt =====
-- Runs of the goroutines of a batch.
use ipld_eth_beacon_indexer.Base.{ℕ, ◌+◌, ◌≤◌, ◌≡◌, refl, [], ◌∷◌, arith}
use ipld_eth_beacon_indexer.Batch.{SlotsToProcess, work, processed, distribute, send_work}
use ipld_eth_beacon_indexer.Batch.Pipeline.{
  Pipeline, idle, start, succeed, remove, Reach, begin, arrive, later, take_range, Steps, stay, go,
}
use ipld_eth_beacon_indexer.Batch.Pipeline.Account.{
  times, asked, Accounted, Workers, Reach-Accounted,
}
use ipld_eth_beacon_indexer.Batch.Pipeline.Drain.{steps_left, IsStuck, Steps-Drained}

abbrev range : SlotsToProcess
range = record { start_slot = 5; end_slot = 7 }

abbrev taken : Pipeline
taken = take_range idle range (work 5 ∷ work 6 ∷ work 7 ∷ processed range ∷ [])

taken-reached : Reach 3 taken
unfolding distribute send_work
taken-reached = arrive range _ begin refl (omega arith) refl

-- The first and the last slot are done and the range is given to be removed, while a worker still
-- processes the slot between.
abbrev early : Pipeline
early = record idle {
  working = 6 ∷ [];
  received = range ∷ [];
  finished = 7 ∷ 5 ∷ [];
  removing = range ∷ [];
}

early-run : Steps 3 6 taken early
early-run =
    go
      (go
        (go
          (go (go (go stay (start _ 5 _ refl (omega arith))) (start _ 6 _ refl (omega arith)))
            (start _ 7 _ refl (omega arith)))
          (succeed _ (7 ∷ 6 ∷ []) 5 [] refl))
        (succeed _ [] 7 (6 ∷ []) refl))
      (remove _ range [] refl)

early-reached : Reach 3 early
early-reached =
    later
      (later
        (later
          (later
            (later (later taken-reached (start _ 5 _ refl (omega arith)))
              (start _ 6 _ refl (omega arith)))
            (start _ 7 _ refl (omega arith)))
          (succeed _ (7 ∷ 6 ∷ []) 5 [] refl))
        (succeed _ [] 7 (6 ∷ []) refl))
      (remove _ range [] refl)

Reach-Accounted_example : ((slot : ℕ) → Accounted early slot) × Workers 3 early
Reach-Accounted_example = Reach-Accounted early-reached

Steps-Drained_example :
    (6 ≤ steps_left taken)
    × (IsStuck 3 early
        → (slot : ℕ)
        → asked slot early.received ≡ times slot early.finished + times slot early.handled)
Steps-Drained_example = Steps-Drained 3 (omega arith) 6 taken early taken-reached early-run
