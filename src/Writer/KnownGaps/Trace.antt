-- ===== src/Writer/KnownGaps/Trace.antt =====
-- `transactKnownGaps` sends one upsert for each of its ranges, in order, and nothing else.
use ipld_eth_beacon_indexer.Base.{
  ℕ, zero, suc, ◌+◌, ◌<◌, ◌≡◌, refl, sym, List, [], ◌∷◌, String, Option, arith, inl, inr,
  Bool-cases, leb, false, ◌==◌,
}
use ipld_eth_beacon_indexer.Word.{sub64, rounds}
use ipld_eth_beacon_indexer.Sql.{Error, Driver}
use ipld_eth_beacon_indexer.Action.{World, Action, ◌>>◌, pure}
use ipld_eth_beacon_indexer.Action.Rules.{>>-pure}
use ipld_eth_beacon_indexer.Writer.KnownGaps.{
  gap_model, chunk_count, error_message, upsert_known_gap, insert_chunks, transact_known_gaps,
}
use ipld_eth_beacon_indexer.Writer.KnownGaps.Ranges.{ranges_from, gap_ranges}

module _ {S : Type 0} (db : Driver S) where
  unfoldable pub upsert_all : (message process : String) → List (ℕ × ℕ) → Action S (Unit {0})
  upsert_all message process [] = pure tt
  upsert_all message process ((start, end) ∷ ranges) = do
    upsert_known_gap db (gap_model message process start end)
    upsert_all message process ranges

  insert_chunks-eq :
      (increment start end chunks : ℕ) (message process : String) (left i : ℕ)
      → insert_chunks db increment start end chunks message process left i
        ≡ upsert_all message process (ranges_from increment start end chunks left i)
  unfolding insert_chunks upsert_all ranges_from
  insert_chunks-eq increment start end chunks message process zero i = refl
  insert_chunks-eq increment start end chunks message process (suc left) i =
      rw (insert_chunks-eq increment start end chunks message process left (i + 1)) refl

  upsert_all-single :
      (message process : String) (start end : ℕ) (w : World S)
      → upsert_known_gap db (gap_model message process start end) w
        ≡ upsert_all message process ((start, end) ∷ []) w
  unfolding upsert_all
  upsert_all-single message process start end w =
      sym (>>-pure (upsert_known_gap db (gap_model message process start end)) w)

  -- With a positive increment, whatever the slots: `transactKnownGaps` upserts its ranges in order.
  pub transact_known_gaps-eq-upsert_all :
      (increment start end : ℕ) (error : Option Error) (process : String) (w : World S)
      → 0 < increment
      → transact_known_gaps db increment start end error process w
        ≡ upsert_all (error_message error) process (gap_ranges increment start end) w
  unfolding transact_known_gaps gap_ranges
  transact_known_gaps-eq-upsert_all increment start end error process w positive =
      elim (Bool-cases (leb (sub64 end start) increment)) [
        | inl one ↦ rw one (upsert_all-single (error_message error) process start end w)
        | inr more ↦
            let positive' : (increment == 0) ≡ false = ground arith in
            let chunks : ℕ = chunk_count increment start end in
            rw (more, positive')
              (rw
                (insert_chunks-eq increment start end chunks (error_message error) process
                  (rounds chunks) 0)
                refl)
      ]
