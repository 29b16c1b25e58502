-- ===== src/Batch/Pipeline/Account.antt =====
-- No slot is lost or taken twice between the goroutines of `handleBatchProcess`
-- (pkg/beaconclient/capturehistoric.go), and no more workers run than there are.
use ipld_eth_beacon_indexer.Base.{
  ℕ, zero, suc, ◌+◌, ◌-◌, ◌≤◌, ◌<◌, ◌≡◌, refl, sym, ap, ◌∙◌, List, [], ◌∷◌, ◌++◌, Option, none,
  some, ltb, leb, ◌==◌, ◌&&◌, length, if◌then◌else◌, arith, inl, inr, Bool-cases,
}
use ipld_eth_beacon_indexer.Word.{max_u64}
use ipld_eth_beacon_indexer.Batch.{
  SlotsToProcess, BatchHistoricError, Message, error_message, work, processed, distribute,
}
use ipld_eth_beacon_indexer.Batch.Distribute.{all_work, distribute-all_work}
use ipld_eth_beacon_indexer.Batch.Pipeline.{
  Pipeline, Step, start, succeed, fail, report, report_order, handle, remove, Reach, begin, arrive,
  later,
}

abbrev one_if : ℕ → ℕ → ℕ
one_if a b = if a == b then 1 else 0

-- How often a slot is in a list.
abbrev pub times : ℕ → List ℕ → ℕ
times slot [] = 0
times slot (x ∷ xs) = one_if x slot + times slot xs

-- How often a range asks for a slot: once for each slot of it; a range in the wrong order is
-- reported at both ends.
abbrev range_times : ℕ → SlotsToProcess → ℕ
range_times slot r =
    if ltb r.end_slot r.start_slot
    then one_if r.start_slot slot + one_if r.end_slot slot
    else if leb r.start_slot slot && leb slot r.end_slot
    then 1
    else 0

abbrev pub asked : ℕ → List SlotsToProcess → ℕ
asked slot [] = 0
asked slot (r ∷ rs) = range_times slot r + asked slot rs

abbrev message_times : ℕ → Message → ℕ
message_times slot (error_message m) = one_if m.slot slot
message_times slot (work s) = one_if s slot
message_times slot (processed r) = 0

abbrev pub outbox_times : ℕ → List Message → ℕ
outbox_times slot [] = 0
outbox_times slot (m ∷ ms) = message_times slot m + outbox_times slot ms

abbrev pub error_times : ℕ → List BatchHistoricError → ℕ
error_times slot [] = 0
error_times slot (m ∷ ms) = one_if m.slot slot + error_times slot ms

abbrev pub handling_times : ℕ → Option BatchHistoricError → ℕ
handling_times slot none = 0
handling_times slot (some m) = one_if m.slot slot

-- What was asked for is still to be sent, with a worker or the goroutine of the errors, or over.
abbrev pub Accounted : Pipeline → ℕ → Type 0
Accounted p slot =
    asked slot p.received
    ≡ outbox_times slot p.outbox
      + times slot p.working
      + error_times slot p.failing
      + handling_times slot p.handling
      + times slot p.finished
      + times slot p.handled

abbrev pub Workers : ℕ → Pipeline → Type 0
Workers max_workers p = length p.working + length p.failing ≤ max_workers

times-pick :
    (slot : ℕ) (before : List ℕ) (x : ℕ) (after : List ℕ)
    → times slot (before ++ (x ∷ after)) ≡ one_if x slot + times slot (before ++ after)
times-pick slot [] x after = refl
times-pick slot (b ∷ before) x after = omega (arith, times-pick slot before x after)

error_times-pick :
    (slot : ℕ) (before : List BatchHistoricError) (x : BatchHistoricError)
    → (after : List BatchHistoricError)
    → error_times slot (before ++ (x ∷ after))
      ≡ one_if x.slot slot + error_times slot (before ++ after)
error_times-pick slot [] x after = refl
error_times-pick slot (b ∷ before) x after = omega (arith, error_times-pick slot before x after)

pub length-pick :
    {A : Type 0} (before : List A) (x : A) (after : List A)
    → length (before ++ (x ∷ after)) ≡ suc (length (before ++ after))
length-pick [] x after = refl
length-pick (b ∷ before) x after = ap suc (length-pick before x after)

all_work-times :
    (slot n i : ℕ) (r : SlotsToProcess)
    → outbox_times slot (all_work n i (processed r ∷ []))
      ≡ (if leb i slot && ltb slot (i + n) then 1 else 0)
unfolding all_work
all_work-times slot zero i r = ground arith
all_work-times slot (suc n) i r =
    let rest : _ = all_work-times slot n (i + 1) r in rw rest (ground arith)

abbrev sent_times : ℕ → Option (List Message) → ℕ
sent_times slot none = 0
sent_times slot (some messages) = outbox_times slot messages

-- What the distributor sends of a range is what the range asks for.
distribute-times :
    (slot : ℕ) (r : SlotsToProcess)
    → r.end_slot < max_u64
    → sent_times slot (distribute r) ≡ range_times slot r
unfolding distribute
distribute-times slot r small = elim (Bool-cases (ltb r.end_slot r.start_slot)) [
  | inl backward ↦ rw backward (omega arith)
  | inr forward ↦
      let n : ℕ = r.end_slot - r.start_slot + 1 in
      let whole : distribute r ≡ some (all_work n r.start_slot (processed r ∷ [])) =
        distribute-all_work r (ground arith) small in
      ap (sent_times slot) whole ∙ all_work-times slot n r.start_slot r ∙ rw forward (ground arith)
]

Step-Accounted :
    {max_workers : ℕ} {p q : Pipeline}
    → Step max_workers p q
    → (slot : ℕ) → Accounted p slot
    → Accounted q slot
Step-Accounted (start p s rest h free) slot a = omega (arith, ap (outbox_times slot) h, a)
Step-Accounted (succeed p before s after h) slot a =
    omega (arith, ap (times slot) h ∙ times-pick slot before s after, a)
Step-Accounted (fail p before m after h) slot a =
    omega (arith, ap (times slot) h ∙ times-pick slot before m.slot after, a)
Step-Accounted (report p before m after h k) slot a = omega (
  arith,
  ap (error_times slot) h ∙ error_times-pick slot before m after,
  ap (handling_times slot) k,
  a,
)
Step-Accounted (report_order p m rest h k) slot a =
    omega (arith, ap (outbox_times slot) h, ap (handling_times slot) k, a)
Step-Accounted (handle p m h) slot a = omega (arith, ap (handling_times slot) h, a)
Step-Accounted (remove p r rest h) slot a = omega (arith, ap (outbox_times slot) h, a)

Step-Workers :
    {max_workers : ℕ} {p q : Pipeline}
    → Step max_workers p q
    → Workers max_workers p
    → Workers max_workers q
Step-Workers (start p s rest h free) w = omega arith
Step-Workers (succeed p before s after h) w =
    omega (arith, ap length h ∙ length-pick before s after)
Step-Workers (fail p before m after h) w =
    omega (arith, ap length h ∙ length-pick before m.slot after)
Step-Workers (report p before m after h k) w =
    omega (arith, ap length h ∙ length-pick before m after)
Step-Workers (report_order p m rest h k) w = w
Step-Workers (handle p m h) w = w
Step-Workers (remove p r rest h) w = w

-- In every reachable state every slot is as often still to be sent, with a worker, with the goroutine
-- of the errors, counted as processed or handled as an error, as the ranges received ask for it; and
-- no more slots are with workers than there are workers.
pub Reach-Accounted :
    {max_workers : ℕ} {p : Pipeline}
    → Reach max_workers p
    → ((slot : ℕ) → Accounted p slot) × Workers max_workers p
Reach-Accounted begin = (λ slot. refl, omega arith)
Reach-Accounted (arrive {p} slots messages r h small k) =
    let (a, w) = Reach-Accounted r in
    (
      λ slot. omega (
        arith,
        sym (ap (sent_times slot) k) ∙ distribute-times slot slots small,
        ap (outbox_times slot) h,
        a slot,
      ),
      w,
    )
Reach-Accounted (later r st) =
    let (a, w) = Reach-Accounted r in (λ slot. Step-Accounted st slot (a slot), Step-Workers st w)
