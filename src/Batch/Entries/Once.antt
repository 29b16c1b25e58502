-- ===== src/Batch/Entries/Once.antt =====
-- What the loop of `getBatchProcessRow` (pkg/beaconclient/processhistoric.go) sends to the workers,
-- while it alone changes the rows of its table.
use ipld_eth_beacon_indexer.Base.{
  ℕ, zero, suc, ◌≤◌, ◌≡◌, ◌∙◌, refl, sym, ap, ◌⊎◌, inl, inr, String, List, [], ◌∷◌, length,
  length-append, Bool, true, false, ◌||◌, leb, arith, Bool-cases, All, Any, here, there,
}
use ipld_eth_beacon_indexer.Sql.{BatchTable, Driver}
use ipld_eth_beacon_indexer.Sql.Tables.{Tables, OpenEntry, has_range, batch_rows}
use ipld_eth_beacon_indexer.Sql.Tables.Rows.{count_where}
use ipld_eth_beacon_indexer.Sql.Laws.{IsPostgres, PicksOpen}
use ipld_eth_beacon_indexer.Action.{World, pure, Returns}
use ipld_eth_beacon_indexer.Action.Rules.{Ensures-bind, Ensures-map}
use ipld_eth_beacon_indexer.Writer.KnownGaps.Table.{in_db}
use ipld_eth_beacon_indexer.Batch.{SlotsToProcess, Round, again, sent, get_batch_process_row}
use ipld_eth_beacon_indexer.Batch.Rows.{Locked, get_batch_process_row-Locked}
use ipld_eth_beacon_indexer.Batch.Entries.{
  Entries, no_entries, add_round, roll_back_all, return_errors, get_slot_range,
}
use ipld_eth_beacon_indexer.Batch.Entries.Locks.{
  lock, lock_all, OtherRange, lock_all-Open, lock_all-count,
}

-- The loop has returned for five errors or a context that is done, or it has taken every round.
abbrev pub Stopped : List Bool → Bool → Entries → Type 0
Stopped rounds true p = (length p.errors ≡ 5) ⊎ Any (λ context_done. context_done ≡ true) rounds
Stopped rounds false p = All (λ context_done. context_done ≡ false) rounds

module _ {S : Type 0} (db : Driver S) (laws : IsPostgres db) where
  module _ (table : BatchTable) (node : String) (minimum : ℕ) (db0 : Tables) where
    -- Each range is that of one row, which was open, and differs from those before it.
    abbrev pub SentOnce : List SlotsToProcess → Type 0
    SentOnce [] = Unit
    SentOnce (slots ∷ ranges) =
        (All (OtherRange slots.start_slot slots.end_slot) ranges
          × (Any (OpenEntry minimum slots.start_slot slots.end_slot) (batch_rows table db0)
              × (count_where (has_range slots.start_slot slots.end_slot) (batch_rows table db0)
                  ≡ 1)))
        × SentOnce ranges

    -- What is committed is the tables of the start with the locks of the ranges.
    abbrev pub Fetched : Entries → World S → Type 0
    Fetched p w =
        (in_db db laws w ≡ lock_all table node p.ranges db0)
        × (SentOnce p.ranges × (length p.errors ≤ 5))

    add_round-Fetched :
        (p : Entries) (t : Tables) (round : Round) (w : World S)
        → t ≡ lock_all table node p.ranges db0
        → SentOnce p.ranges
        → suc (length p.errors) ≤ 5
        → Locked db laws t table node minimum round w
        → Fetched (add_round round p) w
    add_round-Fetched p t (again begun errors) w start once few (same, one) =
        (same ∙ start, (once, omega (arith, length-append p.errors errors)))
    add_round-Fetched p t (sent slots) w start once few (there_is, (one, locked)) =
        let before : _ =
          lock_all-Open table node minimum slots.start_slot slots.end_slot p.ranges db0
            (rw start at there_is) in
        (
          locked ∙ ap (lock table node slots) start,
          (
            (
              (
                before.1,
                (
                  before.0,
                  sym (lock_all-count table node slots.start_slot slots.end_slot p.ranges db0)
                      ∙ (rw start at one),
                ),
              ),
              once,
            ),
            omega arith,
          ),
        )

    roll_back_all-Fetched :
        (p : Entries) (n : ℕ) (w : World S)
        → Fetched p w
        → Returns (λ _. Fetched p) (roll_back_all db n w)
    roll_back_all-Fetched p zero w h = h
    roll_back_all-Fetched p (suc n) w h =
        roll_back_all-Fetched p n (record w { store = (db.rollback w.store).1 })
          (laws.rollback_isolated w.store ∙ h.0, h.1)

    abbrev pub Ended : List Bool → Bool × Entries → World S → Type 0
    Ended rounds (returned, p) w = Fetched p w × Stopped rounds returned p

    return_errors-Ended :
        (rounds : List Bool) (p : Entries) (w : World S)
        → Fetched p w
        → Stopped rounds true p
        → Returns (Ended rounds) (return_errors db p w)
    return_errors-Ended rounds p w h stopped =
        Ensures-bind (λ _. Fetched p) (Ended rounds) (λ _. ⊥) (roll_back_all db p.rollbacks)
          (λ _. pure (true, p)) w (roll_back_all-Fetched p p.rollbacks w h)
          (λ _ w' h'. (h', stopped))

    Stopped-later :
        (rounds : List Bool) (returned : Bool) (p : Entries) (context_done : Bool)
        → context_done ≡ false
        → Stopped rounds returned p
        → Stopped (context_done ∷ rounds) returned p
    Stopped-later rounds true p context_done going (inl five) = inl five
    Stopped-later rounds true p context_done going (inr is_done) = inr (there is_done)
    Stopped-later rounds false p context_done going h = (going, h)

    Stopped-now :
        (rounds : List Bool) (p : Entries) (context_done : Bool)
        → length p.errors ≤ 5
        → (leb 5 (length p.errors) || context_done) ≡ true
        → Stopped (context_done ∷ rounds) true p
    Stopped-now rounds p true few h = inr (here refl)
    Stopped-now rounds p false few h = inl (ground arith)

    module _ (picks : PicksOpen db laws) where
      get_slot_range-Ended :
          (rounds : List Bool) (p : Entries) (w : World S)
          → Fetched p w
          → Returns (Ended rounds) (get_slot_range db table node minimum rounds p w)
      unfolding get_slot_range
      get_slot_range-Ended [] p w h = (h, tt)
      get_slot_range-Ended (context_done ∷ rounds) p w h =
          elim (Bool-cases (leb 5 (length p.errors) || context_done)) [
            | inl stop ↦ rw stop (
                return_errors-Ended (context_done ∷ rounds) p w h
                  (Stopped-now rounds p context_done h.1.1 stop))
            | inr going ↦
                let few : suc (length p.errors) ≤ 5 = ground arith in
                let not_done : context_done ≡ false = ground arith in
                rw going (
                  Ensures-bind (Locked db laws (in_db db laws w) table node minimum)
                    (Ended (context_done ∷ rounds)) (λ _. ⊥)
                    (get_batch_process_row db table node minimum)
                    (λ round. get_slot_range db table node minimum rounds (add_round round p)) w
                    (get_batch_process_row-Locked db laws (in_db db laws w) table node minimum picks
                      w refl)
                    (λ round w' locked.
                      Ensures-map (Ended rounds) (Ended (context_done ∷ rounds)) (λ _. ⊥)
                        (get_slot_range db table node minimum rounds (add_round round p) w')
                        (λ e _ ended.
                          (ended.0, Stopped-later rounds e.0 e.1 context_done not_done ended.1))
                        (get_slot_range-Ended rounds (add_round round p) w'
                          (add_round-Fetched p (in_db db laws w) round w' h.0 h.1.0 few locked))))
          ]

      -- Where no other session changes the tables while the loop runs: a call of `getSlotRange` returns
      -- for five errors, never more, or because the context is done when a round begins; else it goes
      -- on. No range is sent to the workers twice, each is that of exactly one row of the table, which
      -- was not checked out, and what is committed is that these rows, and no others, are checked out
      -- by the node.
      pub get_slot_range-Once :
          (rounds : List Bool) (w : World S)
          → in_db db laws w ≡ db0
          → Returns (Ended rounds) (get_slot_range db table node minimum rounds no_entries w)
      get_slot_range-Once rounds w same =
          get_slot_range-Ended rounds no_entries w (same, (tt, omega arith))
