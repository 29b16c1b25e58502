-- ===== src/Writer/KnownGaps/Cut.antt =====
-- The entries of `transactKnownGaps` (databasewrite.go) against a reference that counts no chunks: it
-- takes an entry of `increment` steps from the start while more than that is left. The next entry
-- begins at the last slot of the one before.
use ipld_eth_beacon_indexer.Base.{
  ℕ, zero, suc, ◌+◌, ◌-◌, ◌*◌, ◌≤◌, ◌<◌, ◌≡◌, refl, ◌∙◌, ap, true, false, List, [], ◌∷◌, arith, inl,
  inr, Bool-cases, leb, if◌then◌else◌, All, Any, String, Option,
}
use ipld_eth_beacon_indexer.Word.{sub64}
use ipld_eth_beacon_indexer.Sql.{Error, Driver}
use ipld_eth_beacon_indexer.Action.{World}
use ipld_eth_beacon_indexer.Writer.KnownGaps.{chunk_count, error_message, transact_known_gaps}
use ipld_eth_beacon_indexer.Writer.KnownGaps.Ranges.{
  ranges_from, gap_ranges, Holds, Fits, IsRange, IsCount, chunk_start-eq, chunk_end-eq,
  chunk_end-last, sub64-range, before_end, wide-IsCount, gap_ranges-wide, gap_ranges-Any,
  gap_ranges-All,
}
use ipld_eth_beacon_indexer.Writer.KnownGaps.Trace.{upsert_all, transact_known_gaps-eq-upsert_all}

unfoldable pub cut : (fuel increment start end : ℕ) → List (ℕ × ℕ)
cut zero increment start end = (start, end) ∷ []
cut (suc fuel) increment start end =
    let rest = cut fuel increment (start + increment) end in
    if leb (end - start) increment then (start, end) ∷ [] else (start, start + increment) ∷ rest

cut-narrow :
    (fuel increment start end : ℕ)
    → end - start ≤ increment
    → cut fuel increment start end ≡ (start, end) ∷ []
unfolding cut
cut-narrow zero increment start end narrow = refl
cut-narrow (suc fuel) increment start end narrow =
    let one : leb (end - start) increment ≡ true = ground arith in rw one refl

fewer : {width q increment : ℕ} → q * increment < width → 0 < increment → q ≤ width
fewer h positive = grind arith

wider : {a b : ℕ} → b < a → leb a b ≡ false
wider h = ground arith

module _ (increment start end chunks : ℕ) (range : IsRange increment start end)
    (number : IsCount increment (end - start) chunks) where
  -- The rounds from `i` on, with `left` rounds after it.
  ranges_from-eq-cut :
      (left fuel i : ℕ)
      → i + suc left ≡ chunks
      → left ≤ fuel
      → ranges_from increment start end chunks (suc left) i
        ≡ cut fuel increment (start + i * increment) end
  unfolding ranges_from
  ranges_from-eq-cut zero fuel i total enough =
      let step : (i + 1) * increment ≡ chunks * increment = ap (λ (t : ℕ). t * increment) total in
      let narrow : end - (start + i * increment) ≤ increment = omega (arith, number.enough, step) in
      rw
        (
          chunk_start-eq increment start end chunks range number i (omega arith),
          chunk_end-last increment start end chunks range number i total,
          cut-narrow fuel increment (start + i * increment) end narrow,
        )
        refl
  ranges_from-eq-cut (suc left) zero i total enough = absurd (omega arith)
  ranges_from-eq-cut (suc left) (suc fuel) i total enough =
      let further : (i + 1) * increment < end - start =
        before_end increment start end chunks range number (i + 1) (omega arith) in
      let more : leb (end - (start + i * increment)) increment ≡ false = wider (omega arith) in
      let next : start + (i + 1) * increment ≡ start + i * increment + increment = omega arith in
      rw
        (
          chunk_start-eq increment start end chunks range number i (omega arith),
          chunk_end-eq increment start end chunks range number i (omega arith),
          ranges_from-eq-cut left fuel (i + 1) (omega arith) (omega arith),
          next,
        )
        (unfold cut in rw more refl)

module _ (increment start end : ℕ) (range : IsRange increment start end) where
  gap_ranges-eq-cut : gap_ranges increment start end ≡ cut (end - start) increment start end
  gap_ranges-eq-cut = elim (Bool-cases (leb (sub64 end start) increment)) [
    | inl one ↦
        let below : sub64 end start ≤ increment = ground arith in
        let narrow : end - start ≤ increment =
          omega (arith, below, sub64-range increment start end range) in
        unfold gap_ranges in rw (one, cut-narrow (end - start) increment start end narrow) refl
    | inr more ↦
        let chunks : ℕ = chunk_count increment start end in
        let number : IsCount increment (end - start) chunks =
          wide-IsCount increment start end range more in
        let enough : chunks - 1 ≤ end - start = fewer number.needed range.positive in
        gap_ranges-wide increment start end range more
        ∙ ranges_from-eq-cut increment start end chunks range number (chunks - 1) (end - start) 0
            (omega (arith, number.some_chunk)) enough
        ∙ ap (λ (from : ℕ). cut (end - start) increment from end) (omega arith)
  ]

module _ {S : Type 0} (db : Driver S) where
  -- A proper gap: `transactKnownGaps`, which counts its chunks by a division and multiplies their
  -- numbers on wrapping integers, upserts the entries of the reference, in order, and nothing else.
  pub transact_known_gaps-eq-cut :
      (increment start end : ℕ) (error : Option Error) (process : String) (w : World S)
      → IsRange increment start end
      → transact_known_gaps db increment start end error process w
        ≡ upsert_all db (error_message error) process (cut (end - start) increment start end) w
  transact_known_gaps-eq-cut increment start end error process w range =
      transact_known_gaps-eq-upsert_all db increment start end error process w range.positive
      ∙ ap (λ ranges. upsert_all db (error_message error) process ranges w)
          (gap_ranges-eq-cut increment start end range)

  -- A proper gap: `transactKnownGaps` upserts entries, in order, each of which lies in the gap and
  -- holds at most one slot more than the increment, and each slot of the gap is in one of them.
  pub transact_known_gaps-Fits :
      (increment start end : ℕ) (error : Option Error) (process : String) (w : World S)
      → IsRange increment start end
      → (ranges : List (ℕ × ℕ)) × ((transact_known_gaps db increment start end error process w
            ≡ upsert_all db (error_message error) process ranges w)
          × (All (Fits increment start end) ranges
              × ((slot : ℕ) → start ≤ slot → slot ≤ end → Any (Holds slot) ranges)))
  transact_known_gaps-Fits increment start end error process w range = (
    gap_ranges increment start end,
    (
      transact_known_gaps-eq-upsert_all db increment start end error process w range.positive,
      (gap_ranges-All increment start end range, gap_ranges-Any increment start end range),
    ),
  )
