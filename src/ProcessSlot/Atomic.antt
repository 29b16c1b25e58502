-- ===== src/ProcessSlot/Atomic.antt =====
-- `processFullSlot` (processslot.go) writes a slot in one transaction: what it commits when it
-- returns, and that it commits nothing when it fails.
use ipld_eth_beacon_indexer.Base.{
  ℕ, ◌≡◌, ◌∙◌, refl, subst, String, Option, none, some, Bool, true, false, inl, inr, Bool-cases,
  Option-cases, ◌⊎◌, not, if◌then◌else◌,
}
use ipld_eth_beacon_indexer.Server.{Node}
use ipld_eth_beacon_indexer.Sql.{Error, Driver}
use ipld_eth_beacon_indexer.Sql.Tables.{Tables}
use ipld_eth_beacon_indexer.Sql.Laws.{IsPostgres}
use ipld_eth_beacon_indexer.Consensus.{Zrnt, Coded, coded, refused}
use ipld_eth_beacon_indexer.Action.{World, Action, ◌>>=◌, pure, call, Ensures}
use ipld_eth_beacon_indexer.Action.Rules.{Ensures-bind, Ensures-map, Ensures-cond}
use ipld_eth_beacon_indexer.Writer.KnownGaps.Table.{in_tx, in_db, Uncommitted}
use ipld_eth_beacon_indexer.Writer.Slot.{Ipfs, DatabaseWriter, transact_full_slot}
use ipld_eth_beacon_indexer.Writer.Slot.Statements.{
  run_all, slot_stmts, RanAll, transact_full_slot-RanAll,
}
use ipld_eth_beacon_indexer.ProcessSlot.{
  SlotProcessingDetails, Schedule, ProcessSlot, new_process_slot,
}
use ipld_eth_beacon_indexer.ProcessSlot.Hashes.{FinalHash, provide_final_hash}
use ipld_eth_beacon_indexer.ProcessSlot.Store.{
  SlotResult, known_mode, check_db_required, roll_back, commit_result, handle_previous, after_slot,
  create_write_objects, write_models, write_slot, write_required,
}
use ipld_eth_beacon_indexer.ProcessSlot.Full.{after_retrieval, retrieve, process_full_slot}
use ipld_eth_beacon_indexer.ProcessSlot.Retrieval.{
  IsFor, Retrieved, retrieve-Retrieved, provide_final_hash-Keeps,
}
use ipld_eth_beacon_indexer.ProcessSlot.Found.{Found, check_db_required-Found}
use ipld_eth_beacon_indexer.ProcessSlot.Created.{
  Created, create_write_objects-Created, transact_full_slot-nil,
}

module _ {S : Type 0} (db : Driver S) (laws : IsPostgres db) (db0 : Tables) where
  abbrev I : World S → Type 0
  I = Uncommitted db laws db0

  -- `Idle` is why nothing had to be written, and `B` a state in which the commit is refused.
  module _ (L : DatabaseWriter → Tables → Type 0) (slot : ℕ) (Idle : Type 0) (B : S → Type 0)
      (refuses : (s : S) → B s → (e : Error) × ((db.commit s).0 ≡ some e)) where
    -- After an error nothing is committed; with none, nothing had to be written, or what is committed
    -- stands in `L` to the models of the slot.
    abbrev pub Stored : SlotResult → World S → Type 0
    Stored (some e, reason) w = Uncommitted db laws db0 w
    Stored (none, reason) w =
        (Uncommitted db laws db0 w × Idle)
        ⊎ ((dw : DatabaseWriter) × (dw.db_slots.slot ≡ slot) × L dw (in_db db laws w))

    roll_back-failed :
        (e : Error) (reason : String) (w : World S)
        → Uncommitted db laws db0 w
        → Ensures Stored (Uncommitted db laws db0) (roll_back db (some e, reason) w)
    unfolding roll_back
    roll_back-failed e reason w same = laws.rollback_isolated w.store ∙ same

    commit-refused :
        (e : Error) (w : World S)
        → (db.commit w.store).0 ≡ some e
        → Uncommitted db laws db0 w
        → Ensures Stored (Uncommitted db laws db0) ((call db.commit >>= commit_result db) w)
    unfolding roll_back
    commit-refused e w failed same =
        rw failed (
          laws.rollback_isolated (db.commit w.store).1 ∙ laws.commit_failed w.store e failed ∙ same)

    commit-Stored :
        (dw : DatabaseWriter) (w : World S)
        → dw.db_slots.slot ≡ slot
        → L dw (in_tx db laws w) ⊎ B w.store
        → Uncommitted db laws db0 w
        → Ensures Stored (Uncommitted db laws db0) ((call db.commit >>= commit_result db) w)
    unfolding roll_back
    commit-Stored dw w is_slot (inl linked) same =
        let s : S = (db.commit w.store).1 in
        elim (Option-cases (db.commit w.store).0) [
          | inl ok ↦
              rw (ok, laws.rollback_isolated s, laws.commit_ok w.store ok)
                (inr (dw, is_slot, linked))
          | inr (e, failed) ↦ commit-refused e w failed same
        ]
    commit-Stored dw w is_slot (inr stuck) same =
        commit-refused (refuses w.store stuck).0 w (refuses w.store stuck).1 same

    module _ (z : Zrnt) (mode : String) (previous_slot : ℕ) (previous_block_root : String)
        (increment : ℕ) where
      -- What the step between the rows of the slot and the commit makes of the tables.
      abbrev pub Handles : Type 0
      Handles =
          (ps : ProcessSlot z) (dw : DatabaseWriter) (w : World S)
          → IsFor z slot mode ps
          → dw.db_slots.slot ≡ slot
          → in_tx db laws w ≡ run_all (slot_stmts dw) db0
          → Uncommitted db laws db0 w
          → Ensures (λ _ w'. (L dw (in_tx db laws w') ⊎ B w'.store) × Uncommitted db laws db0 w')
              (Uncommitted db laws db0)
              (handle_previous z db ps previous_slot previous_block_root increment w)

      after_slot-Stored :
          (handles : Handles) (error : Option Error) (ps : ProcessSlot z) (dw : DatabaseWriter)
          (w : World S)
          → IsFor z slot mode ps
          → dw.db_slots.slot ≡ slot
          → RanAll db laws db0 (slot_stmts dw) db0 error w
          → Ensures Stored
              (Uncommitted db laws db0)
              (after_slot z db error ps previous_slot previous_block_root increment w)
      after_slot-Stored handles (some e) ps dw w for is_slot ran = roll_back-failed e _ w ran
      after_slot-Stored handles none ps dw w for is_slot ran =
          elim (Bool-cases (not (known_mode ps.head_or_historic))) [
            | inl unknown ↦ rw unknown (roll_back-failed _ _ w ran.1)
            | inr known ↦ rw known (
                Ensures-bind _ Stored (Uncommitted db laws db0)
                  (handle_previous z db ps previous_slot previous_block_root increment)
                  (λ _. call db.commit >>= commit_result db) w
                  (handles ps dw w for is_slot ran.0 ran.1)
                  (λ _ w' h. commit-Stored dw w' is_slot h.0 h.1))
          ]

      write_models-Stored :
          (handles : Handles) (models : Coded DatabaseWriter) (ps : ProcessSlot z) (w : World S)
          → IsFor z slot mode ps
          → Created db laws db0 slot models w
          → Ensures Stored
              (Uncommitted db laws db0)
              (write_models z db models ps previous_slot previous_block_root increment w)
      write_models-Stored handles (refused e) ps w for same = same
      write_models-Stored handles (coded dw) ps w for (is_slot, inl nil, same) =
          Ensures-bind (λ _ _. ⊥) Stored (Uncommitted db laws db0) (transact_full_slot db dw)
            (λ e. after_slot z db e ps previous_slot previous_block_root increment) w
            (transact_full_slot-nil db laws db0 dw w nil same (λ _ _. ⊥)) (λ _ w' h. absurd h)
      write_models-Stored handles (coded dw) ps w for (is_slot, inr opened, same) =
          Ensures-bind (RanAll db laws db0 (slot_stmts dw) db0) Stored (Uncommitted db laws db0)
            (transact_full_slot db dw)
            (λ e. after_slot z db e ps previous_slot previous_block_root increment) w
            (subst
              (λ t.
                Ensures (RanAll db laws db0 (slot_stmts dw) t) (Uncommitted db laws db0)
                  (transact_full_slot db dw w))
              opened (transact_full_slot-RanAll db laws db0 dw w same))
            (λ e w' ran. after_slot-Stored handles e ps dw w' for is_slot ran)

      write_slot-Stored :
          (handles : Handles) (ipfs : Ipfs) (ps : ProcessSlot z) (w : World S)
          → IsFor z slot mode ps
          → Uncommitted db laws db0 w
          → Ensures Stored
              (Uncommitted db laws db0)
              (write_slot z ipfs db ps previous_slot previous_block_root increment w)
      unfolding write_slot
      write_slot-Stored handles ipfs ps w for same =
          Ensures-bind (Created db laws db0 ps.slot) Stored I (create_write_objects z ipfs db ps) _
            w (create_write_objects-Created db laws db0 z ipfs ps w same)
            (λ models w3 created.
              write_models-Stored handles models ps w3 for
                (subst (λ n. Created db laws db0 n models w3) for.0 created))

      write_required-Stored :
          (needed : Coded Bool) (write : Action S SlotResult) (w : World S)
          → (needed ≡ coded false → Idle)
          → Uncommitted db laws db0 w
          → Ensures Stored (Uncommitted db laws db0) (write w)
          → Ensures Stored (Uncommitted db laws db0) (write_required needed write w)
      write_required-Stored (refused e) write w idle same h = same
      write_required-Stored (coded false) write w idle same h = inl (same, idle refl)
      write_required-Stored (coded true) write w idle same h = h

      -- What the check of the database finds.
      needed-Found :
          (spd : SlotProcessingDetails) (final : FinalHash) (n : ℕ) (w : World S)
          → n ≡ slot
          → (spd.check_db ≡ true → Found spd slot db0 → Idle)
          → Uncommitted db laws db0 w
          → Ensures
              (λ needed w'. (needed ≡ coded false → Idle) × Uncommitted db laws db0 w')
              (Uncommitted db laws db0)
              ((if spd.check_db then check_db_required db spd n final else pure (coded true)) w)
      needed-Found spd final n w is_slot idle same =
          Ensures-cond (λ needed w'. (needed ≡ coded false → Idle) × I w') I spd.check_db
            (check_db_required db spd n final) (pure (coded true)) w
            (λ checks.
              Ensures-map (λ needed w'. (needed ≡ coded false → Found spd n db0) × I w')
                (λ needed w'. (needed ≡ coded false → Idle) × I w') I
                (check_db_required db spd n final w)
                (λ needed w' h. (
                  λ nothing. idle checks (subst (λ m. Found spd m db0) is_slot (h.0 nothing)),
                  h.1,
                ))
                (check_db_required-Found db laws db0 spd n final w same))
            (λ skips. (λ nothing. absurd cc, same))

      after_retrieval-Stored :
          (handles : Handles) (ipfs : Ipfs) (error : Option Error) (spd : SlotProcessingDetails)
          (ps : ProcessSlot z) (w : World S)
          → (spd.check_db ≡ true → Found spd slot db0 → Idle)
          → IsFor z slot mode ps
          → Uncommitted db laws db0 w
          → Ensures Stored
              (Uncommitted db laws db0)
              (after_retrieval z ipfs db error spd ps previous_slot previous_block_root increment w)
      after_retrieval-Stored handles ipfs (some e) spd ps w idle for same = same
      after_retrieval-Stored handles ipfs none spd ps w idle for same =
          Ensures-bind (λ _. I) Stored I (provide_final_hash z ps) _ w
            (provide_final_hash-Keeps z I ps w same)
            λ final w1 same1.
              Ensures-bind (λ needed w'. (needed ≡ coded false → Idle) × I w') Stored I
                (if spd.check_db then check_db_required db spd ps.slot final else pure (coded true))
                _ w1 (needed-Found spd final ps.slot w1 for.0 idle same1)
                (λ needed w2 h.
                  write_required-Stored needed _ w2 h.0 h.1
                    (write_slot-Stored handles ipfs ps w2 for h.1))

      -- The whole of `processFullSlot`, for any step before the commit.
      pub process_full_slot-Stored :
          (handles : Handles) (node : Node) (ipfs : Ipfs) (schedule : Schedule)
          (block_root state_root : String) (spd : SlotProcessingDetails) (w : World S)
          → (schedule.start_done ≡ true → Idle)
          → (spd.check_db ≡ true → Found spd slot db0 → Idle)
          → Uncommitted db laws db0 w
          → Ensures Stored (Uncommitted db laws db0) (
              process_full_slot z node ipfs db schedule slot block_root state_root previous_slot
                previous_block_root increment mode spd w)
      unfolding process_full_slot
      process_full_slot-Stored handles node ipfs schedule block_root state_root spd w started idle
            same =
          Ensures-cond Stored I schedule.start_done (pure (none, "")) _ w
            (λ at_once. inl (same, started at_once))
            (λ goes_on.
              Ensures-bind (Retrieved z I slot mode) Stored I
                (retrieve z node schedule spd (new_process_slot z slot block_root state_root mode))
                _ w
                (retrieve-Retrieved z I slot mode node schedule spd
                  (new_process_slot z slot block_root state_root mode) w (refl, refl) same)
                (λ r w1 h. after_retrieval-Stored handles ipfs r.0 spd r.1 w1 idle h.0 h.1))
