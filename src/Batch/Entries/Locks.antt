-- ===== src/Batch/Entries/Locks.antt =====
-- What the locks of the ranges that `getBatchProcessRow` (pkg/beaconclient/processhistoric.go) sends
-- leave of the rows of a batch table.
use ipld_eth_beacon_indexer.Base.{
  ℕ, ◌≡◌, ◌∙◌, refl, ap, String, List, [], ◌∷◌, true, arith, inl, inr, Bool-cases, All, Any, here,
  there, map, if◌then◌else◌, some, subst,
}
use ipld_eth_beacon_indexer.Sql.{BatchTable, lock_entry}
use ipld_eth_beacon_indexer.Sql.Tables.{Tables, BatchRow, OpenEntry, has_range, batch_rows, meaning}
use ipld_eth_beacon_indexer.Sql.Tables.Rows.{
  count_where, update_where, update_where-rows, count_where-map,
}
use ipld_eth_beacon_indexer.Batch.{SlotsToProcess}
use ipld_eth_beacon_indexer.Batch.Rows.{set-batch_rows}

module _ (table : BatchTable) (node : String) where
  abbrev pub lock : SlotsToProcess → Tables → Tables
  lock slots t = (meaning (lock_entry table slots.start_slot slots.end_slot node) t).1

  -- The tables after the locks of some ranges, the last one first.
  abbrev pub lock_all : List SlotsToProcess → Tables → Tables
  lock_all [] t = t
  lock_all (slots ∷ ranges) t = lock slots (lock_all ranges t)

abbrev lock_row : String → SlotsToProcess → BatchRow → BatchRow
lock_row node slots r =
    if has_range slots.start_slot slots.end_slot r
    then record r { checked_out = true; checked_out_by = some node }
    else r

abbrev pub OtherRange : ℕ → ℕ → SlotsToProcess → Type 0
OtherRange start end slots = ¬ ((slots.start_slot ≡ start) × (slots.end_slot ≡ end))

-- A row that is open after a lock was open before it, and is not of the locked range.
lock_row-Open :
    (node : String) (slots : SlotsToProcess) (minimum start end : ℕ) (r : BatchRow)
    → OpenEntry minimum start end (lock_row node slots r)
    → OpenEntry minimum start end r × OtherRange start end slots
lock_row-Open node slots minimum start end r h =
    elim (Bool-cases (has_range slots.start_slot slots.end_slot r)) [
      | inl locked ↦ let is_shut : _ = (rw locked at h) in ground (arith, is_shut.0)
      | inr other ↦
          let kept : OpenEntry minimum start end r = (rw other at h) in
          (kept, λ same. ground (arith, kept, same, other))
    ]

lock_row-range :
    (node : String) (slots : SlotsToProcess) (start end : ℕ) (r : BatchRow)
    → has_range start end (lock_row node slots r) ≡ has_range start end r
lock_row-range node slots start end r =
    elim (Bool-cases (has_range slots.start_slot slots.end_slot r)) [
      | inl locked ↦ rw locked refl
      | inr other ↦ rw other refl
    ]

lock_rows-Open :
    (node : String) (slots : SlotsToProcess) (minimum start end : ℕ) (rows : List BatchRow)
    → Any (OpenEntry minimum start end) (map (lock_row node slots) rows)
    → Any (OpenEntry minimum start end) rows × OtherRange start end slots
lock_rows-Open node slots minimum start end [] h = elim h [ ]
lock_rows-Open node slots minimum start end (r ∷ rows) (here p) =
    let q : _ = lock_row-Open node slots minimum start end r p in (here q.0, q.1)
lock_rows-Open node slots minimum start end (r ∷ rows) (there later) =
    let q : _ = lock_rows-Open node slots minimum start end rows later in (there q.0, q.1)

module _ (table : BatchTable) (node : String) where
  lock-rows :
      (slots : SlotsToProcess) (t : Tables)
      → batch_rows table (lock table node slots t) ≡ map (lock_row node slots) (batch_rows table t)
  unfolding meaning
  lock-rows slots t =
      set-batch_rows table
        (update_where (has_range slots.start_slot slots.end_slot)
          (λ r. record r { checked_out = true; checked_out_by = some node }) (batch_rows table t)).1
        t
      ∙ update_where-rows (has_range slots.start_slot slots.end_slot)
          (λ r. record r { checked_out = true; checked_out_by = some node }) (batch_rows table t)

  pub lock_all-Open :
      (minimum start end : ℕ) (ranges : List SlotsToProcess) (t : Tables)
      → Any (OpenEntry minimum start end) (batch_rows table (lock_all table node ranges t))
      → Any (OpenEntry minimum start end) (batch_rows table t) × All (OtherRange start end) ranges
  lock_all-Open minimum start end [] t h = (h, tt)
  lock_all-Open minimum start end (slots ∷ ranges) t h =
      let q : _ =
        lock_rows-Open node slots minimum start end
          (batch_rows table (lock_all table node ranges t))
          (subst (Any (OpenEntry minimum start end))
            (lock-rows slots (lock_all table node ranges t)) h) in
      let before : _ = lock_all-Open minimum start end ranges t q.0 in (before.0, (q.1, before.1))

  -- A lock changes the range of no row.
  pub lock_all-count :
      (start end : ℕ) (ranges : List SlotsToProcess) (t : Tables)
      → count_where (has_range start end) (batch_rows table (lock_all table node ranges t))
        ≡ count_where (has_range start end) (batch_rows table t)
  lock_all-count start end [] t = refl
  lock_all-count start end (slots ∷ ranges) t =
      ap (count_where (has_range start end)) (lock-rows slots (lock_all table node ranges t))
      ∙ count_where-map (has_range start end) (lock_row node slots)
          (batch_rows table (lock_all table node ranges t)) (lock_row-range node slots start end)
      ∙ lock_all-count start end ranges t
