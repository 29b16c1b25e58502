-- ===== src/ProcessSlot/Found.antt =====
-- What it means that the check of the database (processslot.go) finds nothing to write.
use ipld_eth_beacon_indexer.Base.{
  ℕ, ◌≡◌, ◌∙◌, ◌<◌, refl, ap, subst, String, Bool, true, false, ◌||◌, ltb, arith,
}
use ipld_eth_beacon_indexer.Sql.{
  Driver, Stmt, is_failed, is_uncounted, is_affected, Reply-cases, check_beacon_state,
  check_signed_beacon_block,
}
use ipld_eth_beacon_indexer.Sql.Tables.{Tables, meaning}
use ipld_eth_beacon_indexer.Sql.Laws.{IsPostgres}
use ipld_eth_beacon_indexer.Consensus.{Coded, coded, refused}
use ipld_eth_beacon_indexer.Action.{World, ◌>>=◌, pure, Ensures}
use ipld_eth_beacon_indexer.Action.Rules.{Ensures-bind}
use ipld_eth_beacon_indexer.Writer.KnownGaps.Table.{Uncommitted}
use ipld_eth_beacon_indexer.Writer.Slot.{check_slot_and_root}
use ipld_eth_beacon_indexer.ProcessSlot.{SlotProcessingDetails}
use ipld_eth_beacon_indexer.ProcessSlot.Hashes.{FinalHash}
use ipld_eth_beacon_indexer.ProcessSlot.Store.{
  required, if_required, check_required, check_db_required,
}

-- Each object of the slot that is processed has a row, under some root.
abbrev pub Found : SlotProcessingDetails → ℕ → Tables → Type 0
Found spd slot t =
    (spd.perform_beacon_block_processing ≡ true
      → (root : String) × (0 < (meaning (check_signed_beacon_block slot root) t).0))
    × (spd.perform_beacon_state_processing ≡ true
        → (root : String) × (0 < (meaning (check_beacon_state slot root) t).0))

module _ {S : Type 0} (db : Driver S) (laws : IsPostgres db) (db0 : Tables) where
  abbrev I : World S → Type 0
  I = Uncommitted db laws db0

  check_slot_and_root-Found :
      (stmt : Stmt) (w : World S)
      → ((t : Tables) → (meaning stmt t).1 ≡ t)
      → I w
      → Ensures
          (λ r w'. (r ≡ coded true → 0 < (meaning stmt db0).0) × I w')
          I
          (check_slot_and_root db stmt w)
  unfolding check_slot_and_root
  check_slot_and_root-Found stmt w reads same = elim (Reply-cases (db.db_exec stmt w.store).0) [
    | is_failed e h ↦ rw h (λ found. absurd cc, laws.db_failed stmt w.store e h ∙ same)
    | is_uncounted e h ↦ rw h (
      λ found. absurd cc,
      laws.db_uncounted stmt w.store e h ∙ reads (laws.committed w.store) ∙ same,
    )
    | is_affected n h ↦
        let (count, tables) = laws.db_affected stmt w.store n h in
        rw h (
          λ found. subst (λ m. 0 < m) (count ∙ ap (λ t. (meaning stmt t).0) same) (counted n found),
          tables ∙ reads (laws.committed w.store) ∙ same,
        )
  ]
    where
      counted : (n : ℕ) → coded (ltb 0 n) ≡ coded true → 0 < n
      counted n h =
          let test : ltb 0 n ≡ true = ap (λ r. elim r [ coded b ↦ b | refused e ↦ false ]) h in
          ground arith

  required-false : (r : Coded Bool) → required r ≡ coded false → r ≡ coded true
  required-false (coded true) h = refl
  required-false (coded false) h = absurd cc
  required-false (refused e) h = absurd cc

  check_required-Found :
      (processed : Bool) (stmt : Stmt) (w : World S)
      → ((t : Tables) → (meaning stmt t).1 ≡ t)
      → I w
      → Ensures
          (λ r w'. (r ≡ coded false → processed ≡ true → 0 < (meaning stmt db0).0) × I w')
          I
          (check_required db processed stmt w)
  unfolding check_required
  check_required-Found true stmt w reads same =
      Ensures-bind (λ r w'. (r ≡ coded true → 0 < (meaning stmt db0).0) × I w')
        (λ r w'. (r ≡ coded false → true ≡ true → 0 < (meaning stmt db0).0) × I w') I
        (check_slot_and_root db stmt) (λ found. pure (required found)) w
        (check_slot_and_root-Found stmt w reads same)
        (λ r w' h. (λ nothing _. h.0 (required-false r nothing), h.1))
  check_required-Found false stmt w reads same = (λ nothing on. absurd cc, same)

  module _ (spd : SlotProcessingDetails) (slot : ℕ) where
    abbrev Finds : Coded Bool → World S → Type 0
    Finds r w = (r ≡ coded false → Found spd slot db0) × I w

    abbrev NeedsNo : Bool → Stmt → Coded Bool → World S → Type 0
    NeedsNo processed stmt r w =
        (r ≡ coded false → processed ≡ true → 0 < (meaning stmt db0).0) × I w

    both-Found :
        (block state : Coded Bool) (block_root state_root : String) (w : World S)
        → NeedsNo spd.perform_beacon_block_processing
            (check_signed_beacon_block slot block_root)
            block
            w
        → NeedsNo spd.perform_beacon_state_processing (check_beacon_state slot state_root) state w
        → (b : Bool) → block ≡ coded b
        → Ensures Finds I (if_required state (λ s. pure (coded (b || s))) w)
    both-Found block (refused e) block_root state_root w hb hs b e1 = (λ nothing. absurd cc, hs.1)
    both-Found block (coded s) block_root state_root w hb hs true e1 = (λ nothing. absurd cc, hs.1)
    both-Found block (coded true) block_root state_root w hb hs false e1 =
        (λ nothing. absurd cc, hs.1)
    both-Found block (coded false) block_root state_root w hb hs false e1 =
        (λ nothing. (λ on. (block_root, hb.0 e1 on), λ on. (state_root, hs.0 refl on)), hs.1)

    state-Found :
        (block : Coded Bool) (final : FinalHash) (w : World S)
        → NeedsNo spd.perform_beacon_block_processing
            (check_signed_beacon_block slot final.block_root)
            block
            w
        → Ensures Finds I (
            if_required block
              (λ block_required.
                check_required db spd.perform_beacon_state_processing
                  (check_beacon_state slot final.state_root)
                >>= λ state.
                    if_required state
                      (λ state_required. pure (coded (block_required || state_required))))
              w)
    unfolding meaning
    state-Found (refused e) final w h = (λ nothing. absurd cc, h.1)
    state-Found (coded b) final w h =
        Ensures-bind
          (NeedsNo spd.perform_beacon_state_processing (check_beacon_state slot final.state_root))
          Finds I
          (check_required db spd.perform_beacon_state_processing
            (check_beacon_state slot final.state_root))
          _ w
          (check_required-Found spd.perform_beacon_state_processing
            (check_beacon_state slot final.state_root) w (λ t. refl) h.1)
          (λ state w' hs.
            both-Found (coded b) state final.block_root final.state_root w' (h.0, hs.1) hs b refl)

    -- Where nothing has to be written, each object that is processed is there; the check commits
    -- nothing.
    pub check_db_required-Found :
        (final : FinalHash) (w : World S)
        → I w
        → Ensures Finds I (check_db_required db spd slot final w)
    unfolding check_db_required meaning
    check_db_required-Found final w same =
        Ensures-bind
          (NeedsNo spd.perform_beacon_block_processing
            (check_signed_beacon_block slot final.block_root))
          Finds I
          (check_required db spd.perform_beacon_block_processing
            (check_signed_beacon_block slot final.block_root))
          _ w
          (check_required-Found spd.perform_beacon_block_processing
            (check_signed_beacon_block slot final.block_root) w (λ t. refl) same)
          (λ block w' h. state-Found block final w' h)
