-- ===== src/Writer/Slot/Present.antt =====
-- `IsSlotInDb` (pkg/beaconclient/databasewrite.go): the two tests of an errgroup, in either order.
use ipld_eth_beacon_indexer.Base.{
  ℕ, ◌≡◌, ◌∙◌, refl, ap, String, Bool, true, false, not, ltb, ◌&&◌, if◌then◌else◌,
}
use ipld_eth_beacon_indexer.Sql.{
  Driver, Stmt, check_beacon_state, check_signed_beacon_block, is_failed, is_uncounted, is_affected,
  Reply-cases,
}
use ipld_eth_beacon_indexer.Sql.Tables.{Tables, has_state_root, has_block_root, meaning}
use ipld_eth_beacon_indexer.Sql.Tables.Rows.{any, count_where-any}
use ipld_eth_beacon_indexer.Sql.Laws.{IsPostgres}
use ipld_eth_beacon_indexer.Consensus.{Coded, coded, refused}
use ipld_eth_beacon_indexer.Action.{Action, World, ◌>>=◌, pure, Returns}
use ipld_eth_beacon_indexer.Action.Rules.{Ensures-bind, Ensures-map}
use ipld_eth_beacon_indexer.Writer.KnownGaps.Table.{Uncommitted}
use ipld_eth_beacon_indexer.Writer.Slot.{check_slot_and_root}

-- `errG.Wait` returns the first error.
abbrev both_found : Coded Bool → Coded Bool → Coded Bool
both_found (coded first) (coded second) = coded (first && second)
both_found (coded first) (refused e) = refused e
both_found (refused e) second = refused e

module _ {S : Type 0} (db : Driver S) where
  -- A goroutine that finds the context done leaves its variable false.
  abbrev check_unless_done : (context_done : Bool) → Stmt → Action S (Coded Bool)
  check_unless_done true stmt = pure (coded false)
  check_unless_done false stmt = check_slot_and_root db stmt

  abbrev check_both : (done1 : Bool) → Stmt → (done2 : Bool) → Stmt → Action S (Coded Bool)
  check_both done1 stmt1 done2 stmt2 = do
    first ← check_unless_done done1 stmt1
    second ← check_unless_done done2 stmt2
    pure (both_found first second)

  -- `state_first`: the goroutine of the state runs before that of the block. `state_done` and
  -- `block_done`: the context is done when the goroutine looks at it.
  unfoldable pub is_slot_in_db :
      (state_first state_done block_done : Bool) (slot : ℕ) (block_root state_root : String)
      → Action S (Coded Bool)
  is_slot_in_db state_first state_done block_done slot block_root state_root =
      let state : Stmt = check_beacon_state slot state_root in
      let block : Stmt = check_signed_beacon_block slot block_root in
      if state_first
      then check_both state_done state block_done block
      else check_both block_done block state_done state

and_comm : (a b : Bool) → (a && b) ≡ (b && a)
and_comm true true = refl
and_comm true false = refl
and_comm false true = refl
and_comm false false = refl

module _ {S : Type 0} (db : Driver S) (laws : IsPostgres db) (db0 : Tables) where
  abbrev pub Answers : Bool → Coded Bool → World S → Type 0
  Answers found (coded b) w = (b ≡ found) × Uncommitted db laws db0 w
  Answers found (refused e) w = Uncommitted db laws db0 w

  -- A statement that reads is one that leaves the tables as they are.
  check-Answers :
      (stmt : Stmt) (found context_done : Bool) (w : World S)
      → ltb 0 (meaning stmt db0).0 ≡ found
      → (meaning stmt db0).1 ≡ db0
      → Uncommitted db laws db0 w
      → Returns (Answers (not context_done && found)) (check_unless_done db context_done stmt w)
  unfolding check_slot_and_root
  check-Answers stmt found true w finds reads same = (refl, same)
  check-Answers stmt found false w finds reads same =
      elim (Reply-cases (db.db_exec stmt w.store).0) [
        | is_failed e h ↦ rw h (laws.db_failed stmt w.store e h ∙ same)
        | is_uncounted e h ↦
            rw h (laws.db_uncounted stmt w.store e h ∙ ap (λ t. (meaning stmt t).1) same ∙ reads)
        | is_affected n h ↦
            let ran : _ = laws.db_affected stmt w.store n h in
            rw h (
              ap (ltb 0) (ran.0 ∙ ap (λ t. (meaning stmt t).0) same) ∙ finds,
              ran.1 ∙ ap (λ t. (meaning stmt t).1) same ∙ reads,
            )
      ]

  both_found-Answers :
      (a b : Bool) (first second : Coded Bool) (w1 w2 : World S)
      → Answers a first w1
      → Answers b second w2
      → Answers (a && b) (both_found first second) w2
  both_found-Answers a b (coded x) (coded y) w1 w2 (h, same1) (k, same2) = (rw (h, k) refl, same2)
  both_found-Answers a b (coded x) (refused e) w1 w2 h k = k
  both_found-Answers a b (refused e) (coded y) w1 w2 h (k, same) = same
  both_found-Answers a b (refused e) (refused e') w1 w2 h k = k

  Answers-Uncommitted :
      (b : Bool) (r : Coded Bool) (w : World S) → Answers b r w → Uncommitted db laws db0 w
  Answers-Uncommitted b (coded x) w h = h.1
  Answers-Uncommitted b (refused e) w h = h

  check_both-Answers :
      (done1 found1 : Bool) (stmt1 : Stmt) (done2 found2 : Bool) (stmt2 : Stmt) (w : World S)
      → (ltb 0 (meaning stmt1 db0).0 ≡ found1) × ((meaning stmt1 db0).1 ≡ db0)
      → (ltb 0 (meaning stmt2 db0).0 ≡ found2) × ((meaning stmt2 db0).1 ≡ db0)
      → Uncommitted db laws db0 w
      → Returns
          (Answers ((not done1 && found1) && (not done2 && found2)))
          (check_both db done1 stmt1 done2 stmt2 w)
  check_both-Answers done1 found1 stmt1 done2 found2 stmt2 w reads1 reads2 same =
      let b1 : Bool = not done1 && found1 in
      let b2 : Bool = not done2 && found2 in
      Ensures-bind (λ first w1. Answers b1 first w1 × Uncommitted db laws db0 w1)
        (Answers (b1 && b2)) (λ _. ⊥) (check_unless_done db done1 stmt1)
        (λ first. check_unless_done db done2 stmt2 >>= λ second. pure (both_found first second)) w
        (Ensures-map (Answers b1) (λ first w1. Answers b1 first w1 × Uncommitted db laws db0 w1)
          (λ _. ⊥) (check_unless_done db done1 stmt1 w)
          (λ first w1 h. (h, Answers-Uncommitted b1 first w1 h))
          (check-Answers stmt1 found1 done1 w reads1.0 reads1.1 same))
        (λ first w1 h.
          Ensures-bind (Answers b2) (Answers (b1 && b2)) (λ _. ⊥) (check_unless_done db done2 stmt2)
            (λ second. pure (both_found first second)) w1
            (check-Answers stmt2 found2 done2 w1 reads2.0 reads2.1 h.1)
            (λ second w2 k. both_found-Answers b1 b2 first second w1 w2 h.0 k))

  -- In either order of its two tests: where `IsSlotInDb` returns no error, it answers whether the
  -- committed tables have both the state and the signed block of the slot with these roots, and the
  -- context was not done when either test began. It changes no table, also where it returns an error.
  pub is_slot_in_db-Answers :
      (state_first state_done block_done : Bool) (slot : ℕ) (block_root state_root : String)
      (w : World S)
      → Uncommitted db laws db0 w
      → Returns
          (Answers (
            (not state_done && any (has_state_root slot state_root) db0.state)
            && (not block_done && any (has_block_root slot block_root) db0.signed_block)))
          (is_slot_in_db db state_first state_done block_done slot block_root state_root w)
  unfolding is_slot_in_db meaning
  is_slot_in_db-Answers true state_done block_done slot block_root state_root w same =
      check_both-Answers state_done (any (has_state_root slot state_root) db0.state)
        (check_beacon_state slot state_root) block_done
        (any (has_block_root slot block_root) db0.signed_block)
        (check_signed_beacon_block slot block_root) w
        (count_where-any (has_state_root slot state_root) db0.state, refl)
        (count_where-any (has_block_root slot block_root) db0.signed_block, refl) same
  is_slot_in_db-Answers false state_done block_done slot block_root state_root w same =
      rw
        (and_comm (not state_done && any (has_state_root slot state_root) db0.state)
          (not block_done && any (has_block_root slot block_root) db0.signed_block))
        (check_both-Answers block_done (any (has_block_root slot block_root) db0.signed_block)
          (check_signed_beacon_block slot block_root) state_done
          (any (has_state_root slot state_root) db0.state) (check_beacon_state slot state_root) w
          (count_where-any (has_block_root slot block_root) db0.signed_block, refl)
          (count_where-any (has_state_root slot state_root) db0.state, refl) same)
