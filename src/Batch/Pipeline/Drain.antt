-- ===== src/Batch/Pipeline/Drain.antt =====
-- The batch process comes to rest between two ranges (pkg/beaconclient/capturehistoric.go).
use ipld_eth_beacon_indexer.Base.{
  ℕ, ◌+◌, ◌*◌, ◌≤◌, ◌<◌, ◌≡◌, refl, ap, ◌∙◌, List, [], ◌∷◌, Option, none, some, length, arith,
}
use ipld_eth_beacon_indexer.Batch.{BatchHistoricError, Message, error_message, work, processed}
use ipld_eth_beacon_indexer.Batch.Pipeline.{
  Pipeline, Step, start, succeed, fail, report, report_order, handle, remove, Reach, later, Steps,
  stay, go,
}
use ipld_eth_beacon_indexer.Batch.Pipeline.Account.{
  times, asked, outbox_times, error_times, handling_times, length-pick, Reach-Accounted,
}

abbrev message_weight : Message → ℕ
message_weight (error_message m) = 2
message_weight (work slot) = 4
message_weight (processed r) = 1

abbrev outbox_weight : List Message → ℕ
outbox_weight [] = 0
outbox_weight (m ∷ ms) = message_weight m + outbox_weight ms

abbrev handling_weight : Option BatchHistoricError → ℕ
handling_weight none = 0
handling_weight (some m) = 1

-- A bound of the steps that are left: four for a slot that is still to be sent.
abbrev pub steps_left : Pipeline → ℕ
steps_left p =
    outbox_weight p.outbox
    + 3 * length p.working
    + 2 * length p.failing
    + handling_weight p.handling

-- No goroutine can take a step before another range arrives.
abbrev pub IsStuck : ℕ → Pipeline → Type 0
IsStuck max_workers p = (q : Pipeline) → ¬ Step max_workers p q

Step-steps_left :
    {max_workers : ℕ} {p q : Pipeline} → Step max_workers p q → steps_left q < steps_left p
Step-steps_left (start p s rest h free) = omega (arith, ap outbox_weight h)
Step-steps_left (succeed p before s after h) =
    omega (arith, ap length h ∙ length-pick before s after)
Step-steps_left (fail p before m after h) =
    omega (arith, ap length h ∙ length-pick before m.slot after)
Step-steps_left (report p before m after h k) =
    omega (arith, ap length h ∙ length-pick before m after, ap handling_weight k)
Step-steps_left (report_order p m rest h k) =
    omega (arith, ap outbox_weight h, ap handling_weight k)
Step-steps_left (handle p m h) = omega (arith, ap handling_weight h)
Step-steps_left (remove p r rest h) = omega (arith, ap outbox_weight h)

Steps-steps_left :
    {max_workers n : ℕ} {p q : Pipeline} → Steps max_workers n p q → n + steps_left q ≤ steps_left p
Steps-steps_left stay = omega arith
Steps-steps_left (go {q = m} r s) = omega (arith, Steps-steps_left r, Step-steps_left s)

Steps-Reach :
    {max_workers n : ℕ} {p q : Pipeline}
    → Reach max_workers p
    → Steps max_workers n p q
    → Reach max_workers q
Steps-Reach reach stay = reach
Steps-Reach reach (go r s) = later (Steps-Reach reach r) s

-- All the places that hold work are empty.
record IsEmpty (p : Pipeline) : Type 0 where
  outbox : p.outbox ≡ []
  working : p.working ≡ []
  failing : p.failing ≡ []
  handling : p.handling ≡ none

module _ (max_workers : ℕ) (some_worker : 0 < max_workers) where
  -- With an idle goroutine at every end, the next message can go.
  stuck-outbox :
      (p : Pipeline) (l : List Message)
      → p.outbox ≡ l
      → p.working ≡ []
      → p.failing ≡ []
      → p.handling ≡ none
      → IsStuck max_workers p
      → IsEmpty p
  stuck-outbox p [] o w f h stuck = record { outbox = o; working = w; failing = f; handling = h }
  stuck-outbox p (error_message m ∷ rest) o w f h stuck =
      absurd (stuck _ (report_order p m rest o h))
  stuck-outbox p (work s ∷ rest) o w f h stuck =
      absurd (stuck _ (start p s rest o (omega (arith, ap length w, ap length f))))
  stuck-outbox p (processed r ∷ rest) o w f h stuck = absurd (stuck _ (remove p r rest o))

  stuck-failing :
      (p : Pipeline) (l : List BatchHistoricError)
      → p.failing ≡ l
      → p.working ≡ []
      → p.handling ≡ none
      → IsStuck max_workers p
      → IsEmpty p
  stuck-failing p [] f w h stuck = stuck-outbox p p.outbox refl w f h stuck
  stuck-failing p (m ∷ rest) f w h stuck = absurd (stuck _ (report p [] m rest f h))

  stuck-working :
      (p : Pipeline) (l : List ℕ)
      → p.working ≡ l
      → p.handling ≡ none
      → IsStuck max_workers p
      → IsEmpty p
  stuck-working p [] w h stuck = stuck-failing p p.failing refl w h stuck
  stuck-working p (s ∷ rest) w h stuck = absurd (stuck _ (succeed p [] s rest w))

  stuck-IsEmpty :
      (p : Pipeline) (o : Option BatchHistoricError)
      → p.handling ≡ o
      → IsStuck max_workers p
      → IsEmpty p
  stuck-IsEmpty p none h stuck = stuck-working p p.working refl h stuck
  stuck-IsEmpty p (some m) h stuck = absurd (stuck _ (handle p m h))

  -- With at least one worker, where the calls that handle a slot or an error return: from a reachable
  -- state the goroutines take at most `steps_left` steps without a new range, in any order; and
  -- where no step is left, every slot is as often counted as processed or handled as an error as
  -- the ranges received ask for it.
  pub Steps-Drained :
      (n : ℕ) (p q : Pipeline)
      → Reach max_workers p
      → Steps max_workers n p q
      → (n ≤ steps_left p)
        × (IsStuck max_workers q
            → (slot : ℕ) → asked slot q.received ≡ times slot q.finished + times slot q.handled)
  Steps-Drained n p q reach run = (
    omega (arith, Steps-steps_left run),
    λ stuck slot.
        let e : IsEmpty q = stuck-IsEmpty q q.handling refl stuck in
        let (accounted, workers) = Reach-Accounted (Steps-Reach reach run) in
        omega (
          arith,
          accounted slot,
          ap (outbox_times slot) e.outbox,
          ap (times slot) e.working,
          ap (error_times slot) e.failing,
          ap (handling_times slot) e.handling,
        ),
  )
