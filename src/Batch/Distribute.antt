-- ===== src/Batch/Distribute.antt =====
-- The distributor of `handleBatchProcess` (capturehistoric.go) sends every slot of a range once.
use ipld_eth_beacon_indexer.Base.{
  ℕ, zero, suc, ◌+◌, ◌-◌, ◌≤◌, ◌<◌, ◌≡◌, refl, List, [], ◌∷◌, some, ltb, leb, ◌==◌, true, false,
  arith, inl, inr, Bool-cases,
}
use ipld_eth_beacon_indexer.Word.{add64, max_u64}
use ipld_eth_beacon_indexer.Batch.{SlotsToProcess, Message, work, processed, send_work, distribute}

-- The slots from `i` on, `n` of them, and then `last`.
unfoldable pub all_work : (n i : ℕ) → List Message → List Message
all_work zero i last = last
all_work (suc n) i last = work i ∷ all_work n (i + 1) last

send_work-step :
    (fuel i end : ℕ) (last messages : List Message)
    → leb i end ≡ true
    → send_work fuel (add64 i 1) end last ≡ some messages
    → send_work (suc fuel) i end last ≡ some (work i ∷ messages)
unfolding send_work
send_work-step fuel i end last messages inside rest = rw (inside, rest) refl

send_work-stop :
    (fuel i end : ℕ) (last : List Message)
    → leb i end ≡ false
    → send_work (suc fuel) i end last ≡ some last
unfolding send_work
send_work-stop fuel i end last past = rw past refl

-- One more round than there are slots is enough.
send_work-all_work :
    (n i end : ℕ) (last : List Message)
    → i + n ≡ end + 1
    → end < max_u64
    → send_work (suc n) i end last ≡ some (all_work n i last)
unfolding all_work
send_work-all_work zero i end last reach small = send_work-stop 0 i end last (ground arith)
send_work-all_work (suc n) i end last reach small =
    let next : add64 i 1 ≡ i + 1 = omega arith in
    send_work-step (suc n) i end last (all_work n (i + 1) last) (ground arith)
      (rw next (send_work-all_work n (i + 1) end last (omega arith) small))

-- A range whose end is below the greatest uint64 and not before its start is distributed in finitely
-- many rounds: each of its slots is sent to the workers once and in order, and then the range is
-- sent as processed.
pub distribute-all_work :
    (slots : SlotsToProcess)
    → slots.start_slot ≤ slots.end_slot
    → slots.end_slot < max_u64
    → distribute slots
      ≡ some
          (all_work (slots.end_slot - slots.start_slot + 1) slots.start_slot (processed slots ∷ []))
unfolding distribute all_work
distribute-all_work slots ordered small =
    let forward : ltb slots.end_slot slots.start_slot ≡ false = ground arith in
    let fuel : slots.end_slot - slots.start_slot + 2 ≡ suc (slots.end_slot - slots.start_slot + 1) =
      omega arith in
    elim (Bool-cases (slots.start_slot == slots.end_slot)) [
      | inl same ↦
          let one : slots.end_slot - slots.start_slot + 1 ≡ 1 = ground arith in
          rw (forward, same, one) refl
      | inr other ↦
          rw
            (
              forward,
              other,
              fuel,
              send_work-all_work (slots.end_slot - slots.start_slot + 1) slots.start_slot
                  slots.end_slot (processed slots ∷ []) (omega arith) small,
            )
            refl
    ]
