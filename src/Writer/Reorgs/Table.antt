-- ===== src/Writer/Reorgs/Table.antt =====
-- What `transactReorgs` (databasewrite.go) leaves in eth_beacon.slots and eth_beacon.known_gaps.
use ipld_eth_beacon_indexer.Base.{
  ℕ, ◌≤◌, ◌≡◌, ◌⊎◌, ◌∙◌, ap, sym, List, String, Option, none, some, arith, inl, inr, Bool-cases,
  ltb, map, ◌==◌,
}
use ipld_eth_beacon_indexer.Word.{max_u64}
use ipld_eth_beacon_indexer.Models.{DbSlots}
use ipld_eth_beacon_indexer.Sql.{
  Error, Driver, is_failed, is_uncounted, is_affected, Reply-cases, update_forked, update_proposed,
}
use ipld_eth_beacon_indexer.Sql.Tables.{Tables, has_root, meaning}
use ipld_eth_beacon_indexer.Sql.Tables.Rows.{count_where, count_where-map}
use ipld_eth_beacon_indexer.Sql.Laws.{IsPostgres}
use ipld_eth_beacon_indexer.Action.{World, Action, ◌>>=◌, ◌>>◌, count, Ensures}
use ipld_eth_beacon_indexer.Action.Rules.{Ensures-bind, Ensures-map}
use ipld_eth_beacon_indexer.Metrics.{increment_reorgs_insert}
use ipld_eth_beacon_indexer.Writer.KnownGaps.Ranges.{IsRange}
use ipld_eth_beacon_indexer.Writer.KnownGaps.Table.{
  Covers, in_tx, Uncommitted, transact_known_gaps-CoversAll,
}
use ipld_eth_beacon_indexer.Writer.Reorgs.{
  write_reorg_gap, gap_on_error, updated_rows, check_proposed_count, transact_reorgs,
}
use ipld_eth_beacon_indexer.Writer.Reorgs.Marks.{
  resolve, mark_forked, mark_proposed, marks-resolve, forked-slots, proposed-slots, proposed-count,
  proposed-gaps, mark_forked-has_root,
}

module _ {S : Type 0} (db : Driver S) (laws : IsPostgres db) (db0 : Tables) (slot : ℕ)
    (root : String) where
  -- Where the reorg is not carried out, the slot is a known gap.
  abbrev OrGap : Type 0 → World S → Type 0
  OrGap P w = (P ⊎ Covers slot (in_tx db laws w)) × Uncommitted db laws db0 w

  gap-IsRange : slot ≤ max_u64 → IsRange 1 slot slot
  gap-IsRange word = record {
    positive = omega arith;
    ordered = omega arith;
    word = word;
    narrow = omega arith;
  }

  -- The gap of the slot is written, or the program exits.
  write_reorg_gap-Covers :
      (error : Option Error) (w : World S)
      → slot ≤ max_u64
      → Uncommitted db laws db0 w
      → Ensures
          (λ _ w'. Covers slot (in_tx db laws w') × Uncommitted db laws db0 w')
          (Uncommitted db laws db0)
          (write_reorg_gap db slot error w)
  write_reorg_gap-Covers error w word same =
      Ensures-map _ (λ _ w'. Covers slot (in_tx db laws w') × Uncommitted db laws db0 w')
        (Uncommitted db laws db0) (write_reorg_gap db slot error w)
        (λ _ w' h. (h.0 slot (omega arith) (omega arith), h.2))
        (transact_known_gaps-CoversAll db laws db0 1 slot slot error "reorg" w (gap-IsRange word)
          same)

  -- A gap that is already there stays.
  write_reorg_gap-OrGap :
      (P : World S → Type 0) (error : Option Error) (w : World S)
      → slot ≤ max_u64
      → Uncommitted db laws db0 w
      → Ensures
          (λ _ w'. OrGap (P w') w')
          (Uncommitted db laws db0)
          (write_reorg_gap db slot error w)
  write_reorg_gap-OrGap P error w word same =
      Ensures-map (λ _ w'. Covers slot (in_tx db laws w') × Uncommitted db laws db0 w')
        (λ _ w'. OrGap (P w') w') (Uncommitted db laws db0) (write_reorg_gap db slot error w)
        (λ _ w' h. (inr h.0, h.1)) (write_reorg_gap-Covers error w word same)

  module _ (rows : List DbSlots) where
    abbrev Forked : World S → Type 0
    Forked w = OrGap ((in_tx db laws w).slots ≡ map (mark_forked slot root) rows) w

    abbrev Proposed : ℕ → World S → Type 0
    Proposed n w =
        OrGap
          (((in_tx db laws w).slots ≡ map (resolve slot root) rows)
            × (n ≡ count_where (has_root slot root) rows))
          w

    -- The rows are resolved and the one with the root is there once, or the slot is a known gap.
    abbrev pub Resolved : World S → Type 0
    Resolved w =
        OrGap
          (((in_tx db laws w).slots ≡ map (resolve slot root) rows)
            × (count_where (has_root slot root) rows ≡ 1))
          w

    -- With no error the state is reached; after an error nothing but the isolation is known.
    abbrev IfOk : (ℕ → World S → Type 0) → ℕ × Option Error → World S → Type 0
    IfOk P (n, none) w = P n w
    IfOk P (n, some e) w = Uncommitted db laws db0 w

    forked_lem :
        (w : World S)
        → Uncommitted db laws db0 w
        → (in_tx db laws w).slots ≡ rows
        → Ensures
            (IfOk λ _. Forked)
            (Uncommitted db laws db0)
            (updated_rows db (update_forked slot root) w)
    unfolding updated_rows
    forked_lem w same start =
        let same1 : laws.committed (db.tx_exec (update_forked slot root) w.store).1 ≡ db0 =
          laws.tx_isolated (update_forked slot root) w.store ∙ same in
        elim (Reply-cases (db.tx_exec (update_forked slot root) w.store).0) [
          | is_failed e h ↦ rw h same1
          | is_uncounted e h ↦ rw h same1
          | is_affected n h ↦ rw h (
            inl (
                ap (λ (t : Tables). t.slots) (laws.tx_affected _ w.store n h).1
                ∙ forked-slots slot root (in_tx db laws w)
                ∙ ap (map (mark_forked slot root)) start),
            same1,
          )
        ]

    resolved_state :
        (n : ℕ) (w w1 : World S)
        → (n ≡ (meaning (update_proposed slot root) (in_tx db laws w)).0)
          × (in_tx db laws w1 ≡ (meaning (update_proposed slot root) (in_tx db laws w)).1)
        → ((in_tx db laws w).slots ≡ map (mark_forked slot root) rows)
          ⊎ Covers slot (in_tx db laws w)
        → (((in_tx db laws w1).slots ≡ map (resolve slot root) rows)
            × (n ≡ count_where (has_root slot root) rows))
          ⊎ Covers slot (in_tx db laws w1)
    resolved_state n w w1 (counted, ran) (inl marked) = inl (
      ap (λ (t : Tables). t.slots) ran
          ∙ proposed-slots slot root (in_tx db laws w)
          ∙ ap (map (mark_proposed slot root)) marked
          ∙ marks-resolve slot root rows,
      counted
          ∙ proposed-count slot root (in_tx db laws w)
          ∙ ap (count_where (has_root slot root)) marked
          ∙ count_where-map (has_root slot root) (mark_forked slot root) rows
              (mark_forked-has_root slot root),
    )
    resolved_state n w w1 (counted, ran) (inr covered) =
        inr (rw (ran, proposed-gaps slot root (in_tx db laws w)) covered)

    proposed_lem :
        (w : World S)
        → Forked w
        → Ensures
            (IfOk Proposed)
            (Uncommitted db laws db0)
            (updated_rows db (update_proposed slot root) w)
    unfolding updated_rows
    proposed_lem w (state, same) =
        let s : S = (db.tx_exec (update_proposed slot root) w.store).1 in
        let same1 : laws.committed s ≡ db0 =
          laws.tx_isolated (update_proposed slot root) w.store ∙ same in
        elim (Reply-cases (db.tx_exec (update_proposed slot root) w.store).0) [
          | is_failed e h ↦ rw h same1
          | is_uncounted e h ↦ rw h same1
          | is_affected n h ↦ rw h (
            resolved_state n w (record w { store = s }) (laws.tx_affected _ w.store n h) state,
            same1,
          )
        ]

    -- After an error the gap of the slot is written.
    gap_on_error-Forked :
        (r : ℕ × Option Error) (w : World S)
        → slot ≤ max_u64
        → IfOk (λ _. Forked) r w
        → Ensures (λ _. Forked) (Uncommitted db laws db0) (gap_on_error db slot r.1 w)
    gap_on_error-Forked (n, none) w word h = h
    gap_on_error-Forked (n, some e) w word same =
        write_reorg_gap-OrGap (λ w'. (in_tx db laws w').slots ≡ map (mark_forked slot root) rows)
          (some e) w word same

    gap_on_error-Proposed :
        (r : ℕ × Option Error) (w : World S)
        → slot ≤ max_u64
        → IfOk Proposed r w
        → Ensures (λ _. Proposed r.0) (Uncommitted db laws db0) (gap_on_error db slot r.1 w)
    gap_on_error-Proposed (n, none) w word h = h
    gap_on_error-Proposed (n, some e) w word same =
        write_reorg_gap-OrGap
          (λ w'.
            ((in_tx db laws w').slots ≡ map (resolve slot root) rows)
            × (n ≡ count_where (has_root slot root) rows))
          (some e) w word same

    -- The last step, on the number of rows that became proposed.
    count_gap :
        (message : String) (w : World S)
        → slot ≤ max_u64
        → Uncommitted db laws db0 w
        → Ensures
            (λ _. Resolved)
            (Uncommitted db laws db0)
            (write_reorg_gap db slot (some message) w)
    count_gap message w word same =
        write_reorg_gap-OrGap
          (λ w'.
            ((in_tx db laws w').slots ≡ map (resolve slot root) rows)
            × (count_where (has_root slot root) rows ≡ 1))
          (some message) w word same

    settle : (n : ℕ) (w : World S) → n ≡ 1 → Proposed n w → Resolved w
    settle n w one (inl (resolved, counted), same) = (inl (resolved, sym counted ∙ one), same)
    settle n w one (inr covered, same) = (inr covered, same)

    count_lem :
        (n : ℕ) (w : World S)
        → slot ≤ max_u64
        → Proposed n w
        → Ensures (λ _. Resolved) (Uncommitted db laws db0) (check_proposed_count db slot n w)
    unfolding check_proposed_count
    count_lem n w word h = elim (Bool-cases (n == 1)) [
      | inl one ↦ rw one (settle n w (ground arith) h)
      | inr other ↦ elim (Bool-cases (ltb 1 n)) [
        | inl many ↦ rw (other, many) (count_gap _ w word h.1)
        | inr nothing ↦ rw (other, nothing) (count_gap _ w word h.1)
      ]
    ]

    -- In a transaction whose table of slots is `rows`, the reorg of a slot to a root leaves the row of
    -- the root proposed, every other row of the slot forked and the rows of other slots as they were,
    -- where exactly one row has the root; in every other case some known gap holds the slot, or the
    -- program exits. Nothing is committed.
    pub transact_reorgs-Resolved :
        (w : World S)
        → slot ≤ max_u64
        → Uncommitted db laws db0 w
        → (in_tx db laws w).slots ≡ rows
        → Ensures (λ _. Resolved) (Uncommitted db laws db0) (transact_reorgs db slot root w)
    unfolding transact_reorgs
    transact_reorgs-Resolved w word same start =
        let last : ℕ → Action S (Unit {0}) =
          λ n. check_proposed_count db slot n >> count (increment_reorgs_insert 1) in
        let second : Action S (Unit {0}) = do
          proposed ← updated_rows db (update_proposed slot root)
          gap_on_error db slot proposed.1
          last proposed.0
        in Ensures-bind (IfOk λ _. Forked) (λ _. Resolved) (Uncommitted db laws db0)
          (updated_rows db (update_forked slot root)) (λ f. gap_on_error db slot f.1 >> second) w
          (forked_lem w same start)
          λ f w1 h1.
            Ensures-bind (λ _. Forked) (λ _. Resolved) (Uncommitted db laws db0)
              (gap_on_error db slot f.1) (λ _. second) w1 (gap_on_error-Forked f w1 word h1)
              λ _ w2 h2.
                Ensures-bind (IfOk Proposed) (λ _. Resolved) (Uncommitted db laws db0)
                  (updated_rows db (update_proposed slot root))
                  (λ p. gap_on_error db slot p.1 >> last p.0) w2 (proposed_lem w2 h2)
                  λ p w3 h3.
                    Ensures-bind (λ _. Proposed p.0) (λ _. Resolved) (Uncommitted db laws db0)
                      (gap_on_error db slot p.1) (λ _. last p.0) w3
                      (gap_on_error-Proposed p w3 word h3)
                      λ _ w4 h4.
                        Ensures-bind (λ _. Resolved) (λ _. Resolved) (Uncommitted db laws db0)
                          (check_proposed_count db slot p.0)
                          (λ _. count (increment_reorgs_insert 1)) w4 (count_lem p.0 w4 word h4)
                          λ _ w5 h5. h5
