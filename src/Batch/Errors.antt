-- ===== src/Batch/Errors.antt =====
-- The errors of the known gaps (`handleProcessingErrors` of pkg/beaconclient/processknowngaps.go): the
-- slot of an error is held by a known gap after it.
use ipld_eth_beacon_indexer.Base.{
  ℕ, ◌≤◌, ◌<◌, ◌≡◌, refl, sym, subst, String, some, true, inl, inr, Bool-cases, ltb, ◌/=◌, arith,
}
use ipld_eth_beacon_indexer.Word.{max_u64}
use ipld_eth_beacon_indexer.Sql.{
  Error, BatchTable, historic_process, known_gaps, Driver, Reply, failed, uncounted, affected,
  is_failed, is_uncounted, is_affected, Reply-cases, rows_affected, check_kg_single_slot,
  upsert_known_gaps_error,
}
use ipld_eth_beacon_indexer.Sql.Tables.{Tables, has_range, meaning}
use ipld_eth_beacon_indexer.Sql.Tables.Rows.{count_where-Any, update_where-Any}
use ipld_eth_beacon_indexer.Sql.Laws.{IsPostgres}
use ipld_eth_beacon_indexer.Action.{World, pure, Ensures}
use ipld_eth_beacon_indexer.Action.Rules.{Ensures-bind, Ensures-weaken, Ensures-if}
use ipld_eth_beacon_indexer.Writer.KnownGaps.{update_known_gap_errors}
use ipld_eth_beacon_indexer.Writer.KnownGaps.Ranges.{IsRange}
use ipld_eth_beacon_indexer.Writer.KnownGaps.Table.{in_db, Uncommitted, RowHolds, Covers, Any-range}
use ipld_eth_beacon_indexer.Writer.KnownGaps.Commit.{write_known_gaps-Covers}
use ipld_eth_beacon_indexer.Batch.{
  BatchHistoricError, handle_historic_error, handle_known_gap_error, handle_processing_error,
}

-- A property of the tables that a new error of a known gap keeps.
abbrev pub KeptByErrors : (Tables → Type 0) → Type 0
KeptByErrors Q =
    (start end : ℕ) (message : String) (t : Tables)
    → Q t
    → Q (meaning (upsert_known_gaps_error start end message) t).1

pub error-Covers : (slot : ℕ) → KeptByErrors (Covers slot)
unfolding meaning
error-Covers slot start end message t h =
    update_where-Any (RowHolds slot) (has_range start end) _ t.gaps (λ r held. held) h

pub slot-IsRange : (slot : ℕ) → slot ≤ max_u64 → IsRange 1 slot slot
slot-IsRange slot word = record {
  positive = omega arith;
  ordered = omega arith;
  word = word;
  narrow = omega arith;
}

-- A gap of one slot that is there holds it.
single-Covers :
    (slot : ℕ) (t : Tables) → 0 < (meaning (check_kg_single_slot slot slot) t).0 → Covers slot t
unfolding meaning
single-Covers slot t h =
    Any-range slot slot slot t.gaps (omega arith) (omega arith)
      (count_where-Any (has_range slot slot) t.gaps h)

module _ {S : Type 0} (db : Driver S) (laws : IsPostgres db) where
  module _ (Q : Tables → Type 0) (errors : KeptByErrors Q) where
    abbrev Committed : World S → Type 0
    Committed w = Q (in_db db laws w)

    pub update_known_gap_errors-Keeps :
        (start end : ℕ) (message : Error) (w : World S)
        → Committed w
        → Ensures (λ _. Committed) Committed (update_known_gap_errors db start end message w)
    unfolding update_known_gap_errors
    update_known_gap_errors-Keeps start end message w h =
        let s : S = (db.db_exec (upsert_known_gaps_error start end message) w.store).1 in
        elim (Reply-cases (db.db_exec (upsert_known_gaps_error start end message) w.store).0) [
          | is_failed e r ↦ rw r (subst Q (sym (laws.db_failed _ w.store e r)) h)
          | is_uncounted e r ↦ rw r (
              subst Q (sym (laws.db_uncounted _ w.store e r))
                (errors start end message (in_db db laws w) h))
          | is_affected n r ↦
              let after : Q (laws.committed s) =
                subst Q (sym (laws.db_affected _ w.store n r).1)
                  (errors start end message (in_db db laws w) h) in
              rw r (
                Ensures-if (λ _. Committed) Committed (n /= 1) _ _ (record w { store = s }) after
                  after)
        ]

  -- The check for a gap of one slot reads only.
  pub check-reads :
      (slot : ℕ) (w : World S)
      → laws.committed (db.db_exec (check_kg_single_slot slot slot) w.store).1 ≡ in_db db laws w
  unfolding meaning
  check-reads slot w = elim (Reply-cases (db.db_exec (check_kg_single_slot slot slot) w.store).0) [
    | is_failed e r ↦ laws.db_failed _ w.store e r
    | is_uncounted e r ↦ laws.db_uncounted _ w.store e r
    | is_affected n r ↦ (laws.db_affected _ w.store n r).1
  ]

  -- What the check says of the tables.
  check-Covers :
      (slot : ℕ) (w : World S) (reply : Reply)
      → (db.db_exec (check_kg_single_slot slot slot) w.store).0 ≡ reply
      → ltb 0 (rows_affected reply) ≡ true
      → Covers slot (in_db db laws w)
  check-Covers slot w (failed e) r h = absurd (cc h)
  check-Covers slot w (uncounted e) r h = absurd (cc h)
  check-Covers slot w (affected n) r h =
      let many : 0 < n = ground arith in
      single-Covers slot (in_db db laws w)
        (subst (λ k. 0 < k) (laws.db_affected _ w.store n r).0 many)

  -- After the error of a known gap is handled, a committed entry holds its slot, or the program exits.
  pub handle_known_gap_error-Covers :
      (m : BatchHistoricError) (w : World S)
      → m.slot ≤ max_u64
      → Ensures
          (λ _ w'. Covers m.slot (in_db db laws w'))
          (λ _. Unit)
          (handle_known_gap_error db m w)
  unfolding handle_known_gap_error
  handle_known_gap_error-Covers m w word =
      let reply : Reply = (db.db_exec (check_kg_single_slot m.slot m.slot) w.store).0 in
      let w1 : World S = record w {
        store = (db.db_exec (check_kg_single_slot m.slot m.slot) w.store).1;
      } in
      elim (Bool-cases (ltb 0 (rows_affected reply))) [
        | inl known ↦ rw known (
            Ensures-bind (λ _ w'. Covers m.slot (in_db db laws w'))
              (λ _ w'. Covers m.slot (in_db db laws w')) (λ _. Unit)
              (update_known_gap_errors db m.slot m.slot m.err) (λ _. pure tt) w1
              (Ensures-weaken (λ _ w'. Covers m.slot (in_db db laws w'))
                (λ _ w'. Covers m.slot (in_db db laws w')) (λ w'. Covers m.slot (in_db db laws w'))
                (λ _. Unit) _ (λ _ _ h. h) (λ _ _. tt)
                (update_known_gap_errors-Keeps (Covers m.slot) (error-Covers m.slot) m.slot m.slot
                  m.err w1
                  (subst (Covers m.slot) (sym (check-reads m.slot w))
                    (check-Covers m.slot w reply refl known))))
              (λ _ _ h. h))
        | inr new ↦ rw new (
            Ensures-weaken (λ _ w'. Covers m.slot (in_db db laws w'))
              (λ _ w'. Covers m.slot (in_db db laws w')) (Uncommitted db laws (in_db db laws w1))
              (λ _. Unit) _ (λ _ _ h. h) (λ _ _. tt)
              (write_known_gaps-Covers db laws (in_db db laws w1) 1 m.slot m.slot m.slot
                (some m.err) m.err_process w1 (slot-IsRange m.slot word) refl
                (inl (omega arith, omega arith))))
      ]

  -- After an error of either process is handled, a committed known gap holds its slot, or the program
  -- exits.
  pub handle_processing_error-Covers :
      (table : BatchTable) (m : BatchHistoricError) (w : World S)
      → m.slot ≤ max_u64
      → Ensures
          (λ _ w'. Covers m.slot (in_db db laws w'))
          (λ _. Unit)
          (handle_processing_error db table m w)
  unfolding handle_historic_error
  handle_processing_error-Covers historic_process m w word =
      Ensures-weaken (λ _ w'. Covers m.slot (in_db db laws w'))
        (λ _ w'. Covers m.slot (in_db db laws w')) (Uncommitted db laws (in_db db laws w))
        (λ _. Unit) _ (λ _ _ h. h) (λ _ _. tt)
        (write_known_gaps-Covers db laws (in_db db laws w) 1 m.slot m.slot m.slot (some m.err)
          m.err_process w (slot-IsRange m.slot word) refl (inl (omega arith, omega arith)))
  handle_processing_error-Covers known_gaps m w word = handle_known_gap_error-Covers m w word
