-- ===== src/Writer/KnownGaps/Table.antt =====
-- What the known gaps of databasewrite.go leave in the table eth_beacon.known_gaps.
use ipld_eth_beacon_indexer.Base.{
  ℕ, ◌≤◌, ◌≡◌, ◌∙◌, List, [], ◌∷◌, String, Option, arith, inl, inr, true, ◌⊎◌, Any, here, there,
  Any-append_left, Bool-cases,
}
use ipld_eth_beacon_indexer.Models.{DbKnownGaps}
use ipld_eth_beacon_indexer.Sql.{
  Error, Driver, is_failed, is_uncounted, is_affected, Reply-cases, upsert_known_gaps,
}
use ipld_eth_beacon_indexer.Sql.Tables.{Tables, BatchRow, gap_row, has_range, meaning}
use ipld_eth_beacon_indexer.Sql.Tables.Rows.{any, insert_new, insert_new-Any}
use ipld_eth_beacon_indexer.Sql.Laws.{IsPostgres}
use ipld_eth_beacon_indexer.Action.{World, Ensures}
use ipld_eth_beacon_indexer.Action.Rules.{Ensures-bind, Ensures-map}
use ipld_eth_beacon_indexer.Writer.KnownGaps.{
  gap_model, error_message, upsert_known_gap, transact_known_gaps,
}
use ipld_eth_beacon_indexer.Writer.KnownGaps.Ranges.{Holds, IsRange, gap_ranges, gap_ranges-Any}
use ipld_eth_beacon_indexer.Writer.KnownGaps.Trace.{upsert_all, transact_known_gaps-eq-upsert_all}

abbrev pub RowHolds : ℕ → BatchRow → Type 0
RowHolds slot r = (r.start_slot ≤ slot) × (slot ≤ r.end_slot)

-- Some entry of the table has the slot in its range.
abbrev pub Covers : ℕ → Tables → Type 0
Covers slot t = Any (RowHolds slot) t.gaps

pub Any-range :
    (start end slot : ℕ) (rows : List BatchRow)
    → start ≤ slot
    → slot ≤ end
    → Any (λ r. has_range start end r ≡ true) rows
    → Any (RowHolds slot) rows
Any-range start end slot [] low high none_there = elim none_there [ ]
Any-range start end slot (r ∷ rows) low high (here key) = here (ground arith)
Any-range start end slot (r ∷ rows) low high (there later) =
    there (Any-range start end slot rows low high later)

-- An upsert adds its range.
upsert-Covers_self :
    (message process : String) (start end slot : ℕ) (t : Tables)
    → start ≤ slot
    → slot ≤ end
    → Covers slot (meaning (upsert_known_gaps (gap_model message process start end)) t).1
unfolding meaning
upsert-Covers_self message process start end slot t low high = Any-range start end slot _ low high (
    insert_new-Any (has_range start end)
      (gap_row t.default_priority (gap_model message process start end)) t.gaps (ground arith))

-- An upsert removes nothing.
pub upsert-Covers :
    (g : DbKnownGaps) (slot : ℕ) (t : Tables)
    → Covers slot t
    → Covers slot (meaning (upsert_known_gaps g) t).1
unfolding meaning insert_new
upsert-Covers g slot t old = elim (Bool-cases (any (has_range g.start_slot g.end_slot) t.gaps)) [
  | inl known ↦ rw known old
  | inr new ↦ rw new (Any-append_left _ old)
]

-- The slots from `start` to `end` are held by entries of the table.
abbrev pub CoversAll : ℕ → ℕ → Tables → Type 0
CoversAll start end t = (slot : ℕ) → start ≤ slot → slot ≤ end → Covers slot t

-- A slot that an entry or one of the ranges holds is, after the upsert of the first range, held by
-- an entry or by one of the others.
upsert-Holds :
    (message process : String) (start end : ℕ) (ranges : List (ℕ × ℕ)) (slot : ℕ) (t : Tables)
    → Covers slot t ⊎ Any (Holds slot) ((start, end) ∷ ranges)
    → Covers slot (meaning (upsert_known_gaps (gap_model message process start end)) t).1
      ⊎ Any (Holds slot) ranges
upsert-Holds message process start end ranges slot t (inl old) =
    inl (upsert-Covers (gap_model message process start end) slot t old)
upsert-Holds message process start end ranges slot t (inr (here (low, high))) =
    inl (upsert-Covers_self message process start end slot t low high)
upsert-Holds message process start end ranges slot t (inr (there later)) = inr later

module _ {S : Type 0} (db : Driver S) (laws : IsPostgres db) where
  -- The tables of the open transaction, and those that all sessions see.
  abbrev pub in_tx : World S → Tables
  in_tx w = laws.working w.store

  abbrev pub in_db : World S → Tables
  in_db w = laws.committed w.store

  module _ (db0 : Tables) where
    abbrev pub Uncommitted : World S → Type 0
    Uncommitted w = in_db w ≡ db0

    abbrev AfterUpsert : DbKnownGaps → World S → Unit {0} → World S → Type 0
    AfterUpsert g w _ w' = (in_tx w' ≡ (meaning (upsert_known_gaps g) (in_tx w)).1) × Uncommitted w'

    -- Either the program exits or the statement has been run; nothing is committed.
    upsert_known_gap_lem :
        (g : DbKnownGaps) (w : World S)
        → Uncommitted w
        → Ensures (AfterUpsert g w) Uncommitted (upsert_known_gap db g w)
    unfolding upsert_known_gap
    upsert_known_gap_lem g w same =
        let same' : laws.committed (db.tx_exec (upsert_known_gaps g) w.store).1 ≡ db0 =
          laws.tx_isolated _ w.store ∙ same in
        elim (Reply-cases (db.tx_exec (upsert_known_gaps g) w.store).0) [
          | is_failed e h ↦ rw h same'
          | is_uncounted e h ↦ rw h (laws.tx_uncounted _ w.store e h, same')
          | is_affected n h ↦ rw h ((laws.tx_affected _ w.store n h).1, same')
        ]

    abbrev Kept : (ranges : List (ℕ × ℕ)) → World S → Unit {0} → World S → Type 0
    Kept ranges w _ w' =
        ((slot : ℕ) → Covers slot (in_tx w) ⊎ Any (Holds slot) ranges → Covers slot (in_tx w'))
        × Uncommitted w'

    -- The upserts of a list of ranges hold every slot of the ranges, lose no slot that an entry held
    -- before, and commit nothing.
    upsert_all-Kept :
        (message process : String) (ranges : List (ℕ × ℕ)) (w : World S)
        → Uncommitted w
        → Ensures (Kept ranges w) Uncommitted (upsert_all db message process ranges w)
    unfolding upsert_all
    upsert_all-Kept message process [] w same =
        (λ slot. elim [ inl old ↦ old | inr none_there ↦ elim none_there [ ] ], same)
    upsert_all-Kept message process ((start, end) ∷ ranges) w same =
        Ensures-bind (AfterUpsert (gap_model message process start end) w)
          (Kept ((start, end) ∷ ranges) w) Uncommitted
          (upsert_known_gap db (gap_model message process start end))
          (λ _. upsert_all db message process ranges) w
          (upsert_known_gap_lem (gap_model message process start end) w same)
          λ _ w' step.
            Ensures-map (Kept ranges w') (Kept ((start, end) ∷ ranges) w) Uncommitted
              (upsert_all db message process ranges w')
              (λ _ w'' kept. (
                λ slot held.
                    kept.0 slot (
                      rw step.0
                        (upsert-Holds message process start end ranges slot (in_tx w) held)),
                kept.1,
              ))
              (upsert_all-Kept message process ranges w' step.1)

    -- In a transaction, a proper gap is cut into entries that hold every slot of it, beside those
    -- that the table held before; or the program exits, with nothing committed.
    pub transact_known_gaps-CoversAll :
        (increment start end : ℕ) (error : Option Error) (process : String) (w : World S)
        → IsRange increment start end
        → Uncommitted w
        → Ensures
            (λ _ w'.
              CoversAll start end (in_tx w')
              × ((slot : ℕ) → Covers slot (in_tx w) → Covers slot (in_tx w'))
              × Uncommitted w')
            Uncommitted
            (transact_known_gaps db increment start end error process w)
    transact_known_gaps-CoversAll increment start end error process w range same =
        rw (transact_known_gaps-eq-upsert_all db increment start end error process w range.positive)
          (Ensures-map (Kept (gap_ranges increment start end) w) _ Uncommitted _
            (λ _ w' kept. (
              λ slot low high.
                  kept.0 slot (inr (gap_ranges-Any increment start end range slot low high)),
              λ slot old. kept.0 slot (inl old),
              kept.1,
            ))
            (upsert_all-Kept (error_message error) process (gap_ranges increment start end) w same))
