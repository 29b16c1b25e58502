-- ===== src/Batch/Rows.antt =====
-- What the rounds of the batch process (processhistoric.go) do to the rows of the two batch tables.
use ipld_eth_beacon_indexer.Base.{
  ℕ, ◌≡◌, ◌∙◌, refl, sym, ap, String, List, [], ◌∷◌, Option, none, some, true, false, arith, inl,
  inr, Bool-cases, Option-cases, ltb, ◌==◌, All, Any, subst, length, ◌≤◌, map, if◌then◌else◌,
}
use ipld_eth_beacon_indexer.Sql.{
  Error, BatchTable, historic_process, known_gaps, Driver, affected, no_rows, scan_failed, scanned,
  Row, is_failed, is_uncounted, is_affected, Reply-cases, lock_entry, release_lock, check_entry,
}
use ipld_eth_beacon_indexer.Sql.Tables.{
  Tables, BatchRow, OpenEntry, has_range, held_by, batch_rows, set_batch_rows, meaning,
}
use ipld_eth_beacon_indexer.Sql.Tables.Rows.{
  count_where, update_where, update_where-rows, update_where-count,
}
use ipld_eth_beacon_indexer.Sql.Laws.{IsPostgres, PicksOpen}
use ipld_eth_beacon_indexer.Server.{decimal}
use ipld_eth_beacon_indexer.Action.{World, ◌>>=◌, call, Returns}
use ipld_eth_beacon_indexer.Writer.KnownGaps.Table.{in_tx, in_db, Uncommitted}
use ipld_eth_beacon_indexer.Batch.{
  SlotsToProcess, Round, again, sent, after_commit, after_lock, after_entry, after_begin,
  get_batch_process_row, release_db_locks,
}

lock-count :
    (table : BatchTable) (start end : ℕ) (node : String) (t : Tables)
    → (meaning (lock_entry table start end node) t).0
      ≡ count_where (has_range start end) (batch_rows table t)
unfolding meaning
lock-count table start end node t =
    update_where-count (has_range start end)
      (λ r. record r { checked_out = true; checked_out_by = some node }) (batch_rows table t)

pub set-batch_rows :
    (table : BatchTable) (rows : List BatchRow) (t : Tables)
    → batch_rows table (set_batch_rows table rows t) ≡ rows
set-batch_rows historic_process rows t = refl
set-batch_rows known_gaps rows t = refl

abbrev clear : BatchRow → BatchRow
clear r = record r { checked_out = false; checked_out_by = none }

cleared-All :
    (node : String) (rows : List BatchRow)
    → All (λ r. held_by node r ≡ false) (map (λ r. if held_by node r then clear r else r) rows)
cleared-All node [] = tt
cleared-All node (r ∷ rows) = (
  elim (Bool-cases (held_by node r)) [ inl held ↦ rw held refl | inr other ↦ rw other other ],
  cleared-All node rows,
)

pub released-All :
    (table : BatchTable) (node : String) (t : Tables)
    → All (λ r. held_by node r ≡ false) (batch_rows table (meaning (release_lock table node) t).1)
unfolding meaning
released-All table node t =
    rw
      (
        set-batch_rows table (update_where (held_by node) clear (batch_rows table t)).1 t,
        update_where-rows (held_by node) clear (batch_rows table t),
      )
      (cleared-All node (batch_rows table t))

module _ {S : Type 0} (db : Driver S) (laws : IsPostgres db) where
  -- With no error the node holds no row.
  abbrev pub Freed : BatchTable → ℕ → Option Error → World S → Type 0
  Freed table node none w =
      All (λ r. held_by (decimal node) r ≡ false) (batch_rows table (in_db db laws w))
  Freed table node (some e) w = Unit

  -- Where `releaseDbLocks` returns no error, no committed row of its table is held by the node.
  pub release_db_locks-Freed :
      (text : Error → Error) (table : BatchTable) (node : ℕ) (w : World S)
      → Returns (Freed table node) (release_db_locks db text table node w)
  unfolding release_db_locks
  release_db_locks-Freed text table node w =
      elim (Reply-cases (db.db_exec (release_lock table (decimal node)) w.store).0) [
        | is_failed e h ↦ rw h tt
        | is_uncounted e h ↦ rw h tt
        | is_affected n h ↦
            rw (h, (laws.db_affected _ w.store n h).1)
              (released-All table (decimal node) (laws.committed w.store))
      ]

  module _ (db0 : Tables) (table : BatchTable) (node : String) (minimum : ℕ) where
    -- A range that is sent is that of an open row, of no other row, and what is committed is that
    -- this row is checked out by the node; otherwise nothing is, and there is one error at most.
    abbrev pub Locked : Round → World S → Type 0
    Locked (again begun errors) w = Uncommitted db laws db0 w × (length errors ≤ 1)
    Locked (sent slots) w =
        Any (OpenEntry minimum slots.start_slot slots.end_slot) (batch_rows table db0)
        × ((count_where (has_range slots.start_slot slots.end_slot) (batch_rows table db0) ≡ 1)
            × (in_db db laws w
                ≡ (meaning (lock_entry table slots.start_slot slots.end_slot node) db0).1))

    after_commit-Locked :
        (slots : SlotsToProcess) (w : World S)
        → Any (OpenEntry minimum slots.start_slot slots.end_slot) (batch_rows table db0)
        → count_where (has_range slots.start_slot slots.end_slot) (batch_rows table db0) ≡ 1
        → in_tx db laws w ≡ (meaning (lock_entry table slots.start_slot slots.end_slot node) db0).1
        → Uncommitted db laws db0 w
        → Returns Locked ((call db.commit >>= after_commit db table node slots) w)
    after_commit-Locked slots w there_is one locked same =
        elim (Option-cases (db.commit w.store).0) [
          | inl ok ↦ rw ok (there_is, (one, laws.commit_ok w.store ok ∙ locked))
          | inr (e, fails) ↦ rw fails (laws.commit_failed w.store e fails ∙ same, omega arith)
        ]

    after_lock-Locked :
        (slots : SlotsToProcess) (n : ℕ) (w : World S)
        → Any (OpenEntry minimum slots.start_slot slots.end_slot) (batch_rows table db0)
        → n ≡ count_where (has_range slots.start_slot slots.end_slot) (batch_rows table db0)
        → in_tx db laws w ≡ (meaning (lock_entry table slots.start_slot slots.end_slot node) db0).1
        → Uncommitted db laws db0 w
        → Returns Locked (after_lock db table node slots (affected n) w)
    after_lock-Locked slots n w there_is counted locked same = elim (Bool-cases (ltb 1 n)) [
      | inl many ↦ rw many (same, omega arith)
      | inr few ↦ elim (Bool-cases (n == 0)) [
        | inl nothing ↦ rw (few, nothing) (same, omega arith)
        | inr some_row ↦
            let one : n ≡ 1 = ground arith in
            rw (few, some_row)
              (after_commit-Locked slots w there_is (sym counted ∙ one) locked same)
      ]
    ]

    after_entry-Locked :
        (row : Row (ℕ × ℕ)) (w : World S)
        → ((start end : ℕ)
            → row ≡ scanned (start, end)
            → Any (OpenEntry minimum start end) (batch_rows table db0))
        → in_tx db laws w ≡ db0
        → Uncommitted db laws db0 w
        → Returns Locked (after_entry db table node row w)
    after_entry-Locked no_rows w reads start same = (same, omega arith)
    after_entry-Locked (scan_failed e) w reads start same = (same, omega arith)
    after_entry-Locked (scanned (first, last)) w reads start same =
        let s : S = (db.tx_exec (lock_entry table first last node) w.store).1 in
        let same1 : laws.committed s ≡ db0 =
          laws.tx_isolated (lock_entry table first last node) w.store ∙ same in
        elim (Reply-cases (db.tx_exec (lock_entry table first last node) w.store).0) [
          | is_failed e h ↦ rw h (same1, omega arith)
          | is_uncounted e h ↦ rw h (same1, omega arith)
          | is_affected n h ↦
              let ran : _ = laws.tx_affected (lock_entry table first last node) w.store n h in
              rw h (
                after_lock-Locked (record { start_slot = first; end_slot = last }) n
                  (record w { store = s }) (reads first last refl)
                  (ran.0
                    ∙ ap (λ t. (meaning (lock_entry table first last node) t).0) start
                    ∙ lock-count table first last node db0)
                  (ran.1 ∙ ap (λ t. (meaning (lock_entry table first last node) t).1) start) same1)
        ]

    module _ (picks : PicksOpen db laws) where
      after_begin-Locked :
          (error : Option Error) (w : World S)
          → Uncommitted db laws db0 w
          → (error ≡ none → in_tx db laws w ≡ db0)
          → Returns Locked (after_begin db table node minimum error w)
      after_begin-Locked (some e) w same opened = (same, omega arith)
      after_begin-Locked none w same opened =
          let reads : _ = laws.get_entry_reads table minimum w.store in
          after_entry-Locked (db.tx_get_entry table minimum w.store).0
            (record w { store = (db.tx_get_entry table minimum w.store).1 })
            (λ start end scans.
              subst (λ t. Any (OpenEntry minimum start end) (batch_rows table t)) (opened refl)
                (picks.picked table minimum w.store start end scans))
            (reads.0 ∙ opened refl) (reads.1 ∙ same)

      begin-Locked :
          (w : World S)
          → Uncommitted db laws db0 w
          → Returns Locked ((call db.begin >>= after_begin db table node minimum) w)
      begin-Locked w same =
          after_begin-Locked (db.begin w.store).0 (record w { store = (db.begin w.store).1 })
            (laws.begin_isolated w.store ∙ same) (λ ok. laws.begin_ok w.store ok ∙ same)

      -- A round of `getBatchProcessRow` returns. A range that it sends to the workers is that of an
      -- open row of the table and of no other row, and what is committed is that this row is checked
      -- out by the node; a round that sends none commits nothing and adds one error at most.
      pub get_batch_process_row-Locked :
          (w : World S)
          → Uncommitted db laws db0 w
          → Returns Locked (get_batch_process_row db table node minimum w)
      unfolding get_batch_process_row meaning
      get_batch_process_row-Locked w same =
          let s : S = (db.db_exec (check_entry table minimum) w.store).1 in
          elim (Reply-cases (db.db_exec (check_entry table minimum) w.store).0) [
            | is_failed e h ↦ rw h (laws.db_failed _ w.store e h ∙ same, omega arith)
            | is_uncounted e h ↦ rw h (laws.db_uncounted _ w.store e h ∙ same, omega arith)
            | is_affected n h ↦
                let same1 : laws.committed s ≡ db0 = (laws.db_affected _ w.store n h).1 ∙ same in
                elim (Bool-cases (ltb n 1)) [
                  | inl nothing ↦ rw (h, nothing) (same1, omega arith)
                  | inr found ↦ rw (h, found) (begin-Locked (record w { store = s }) same1)
                ]
          ]
