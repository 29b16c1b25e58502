-- ===== src/Head/Gaps.antt =====
-- The slots that bad head messages hide (processevents.go).
use ipld_eth_beacon_indexer.Base.{
  ℕ, ◌+◌, ◌≤◌, ◌<◌, ◌≡◌, refl, Option, none, some, true, ◌/=◌, arith, inl, subst, sym, false, ◌==◌,
}
use ipld_eth_beacon_indexer.Word.{add64, int_sign}
use ipld_eth_beacon_indexer.Slot.{parse_slot}
use ipld_eth_beacon_indexer.Sql.{Driver}
use ipld_eth_beacon_indexer.Sql.Tables.{Tables}
use ipld_eth_beacon_indexer.Sql.Laws.{IsPostgres}
use ipld_eth_beacon_indexer.Action.{World, Ensures, pure}
use ipld_eth_beacon_indexer.Action.Rules.{Ensures-bind}
use ipld_eth_beacon_indexer.Writer.KnownGaps.{write_known_gaps}
use ipld_eth_beacon_indexer.Writer.KnownGaps.Ranges.{IsRange}
use ipld_eth_beacon_indexer.Writer.KnownGaps.Table.{Covers, in_db, Uncommitted}
use ipld_eth_beacon_indexer.Writer.KnownGaps.Commit.{write_known_gaps-Covers}
use ipld_eth_beacon_indexer.Head.{
  Head, Tracking, Settings, Spawned, write_bad_heads, handle_head, spawn,
}

module _ {S : Type 0} (db : Driver S) (laws : IsPostgres db) (db0 : Tables) where
  -- The call that is started, and the state that the next message finds.
  abbrev pub Started : ℕ → ℕ → Head → Tracking → Tracking × Option Spawned → World S → Type 0
  Started hidden slot head t (t', none) w = ⊥
  Started hidden slot head t (t', some call) w =
      (t'.previous_slot ≡ slot)
      × (t'.error_slots ≡ 0)
      × (call.slot ≡ slot)
      × (call.details.previous_slot ≡ t.previous_slot)
      × Covers hidden (in_db db laws w)

  spawn-Started :
      (bc : Settings) (t : Tracking) (head : Head) (slot hidden : ℕ) (w : World S)
      → 0 < t.previous_slot
      → Covers hidden (in_db db laws w)
      → Started hidden slot head t (spawn bc (record t { error_slots = 0 }) slot head) w
  spawn-Started bc t head slot hidden w running held =
      let later : (t.previous_slot == 0) ≡ false = ground arith in
      rw later (refl, refl, refl, refl, held)

  write_bad_heads-Covers :
      (bc : Settings) (t : Tracking) (slot hidden : ℕ) (w : World S)
      → 0 < t.error_slots
      → 0 < t.previous_slot
      → 0 < bc.known_gap_table_increment
      → slot < int_sign
      → t.previous_slot < hidden
      → hidden ≤ slot
      → Uncommitted db laws db0 w
      → Ensures
          (λ t' w'. (t' ≡ record t { error_slots = 0 }) × Covers hidden (in_db db laws w'))
          (Uncommitted db laws db0)
          (write_bad_heads db bc t slot w)
  write_bad_heads-Covers bc t slot hidden w bad running positive small low high same =
      let errors : (t.error_slots /= 0) ≡ true = ground arith in
      let started : (t.previous_slot /= 0) ≡ true = ground arith in
      let next : add64 t.previous_slot 1 ≡ t.previous_slot + 1 = omega arith in
      let increment : ℕ = bc.known_gap_table_increment in
      let range : IsRange increment (add64 t.previous_slot 1) slot = record {
        positive = positive;
        ordered = omega arith;
        word = omega arith;
        narrow = omega arith;
      } in
      rw (errors, started)
        (Ensures-bind (λ _ w'. Covers hidden (in_db db laws w')) _ (Uncommitted db laws db0)
          (write_known_gaps db increment (add64 t.previous_slot 1) slot (some "Bad Head Messages")
            "headProcessing")
          (λ _. pure (record t { error_slots = 0 })) w
          (write_known_gaps-Covers db laws db0 increment (add64 t.previous_slot 1) slot hidden
            (some "Bad Head Messages") "headProcessing" w range same
            (inl (omega arith, omega arith)))
          (λ _ w' held. (refl, held)))

  -- After bad messages, where a previous slot is known (it is not 0) and with a positive increment: a
  -- good message of a slot after the previous one, both in the range of an int, commits known gaps
  -- that hold every slot after the previous one up to this one, forgets the bad messages and starts
  -- the slot with the previous one beside it; or the program exits and nothing has been committed.
  pub handle_head-Started :
      (bc : Settings) (t : Tracking) (head : Head) (slot hidden : ℕ) (w : World S)
      → parse_slot head.slot ≡ (slot, none)
      → 0 < t.error_slots
      → 0 < t.previous_slot
      → 0 < bc.known_gap_table_increment
      → slot < int_sign
      → t.previous_slot < hidden
      → hidden ≤ slot
      → Uncommitted db laws db0 w
      → Ensures (Started hidden slot head t) (Uncommitted db laws db0) (handle_head db bc t head w)
  unfolding handle_head
  handle_head-Started bc t head slot hidden w parsed bad running positive small low high same =
      rw parsed (
        Ensures-bind _ (Started hidden slot head t) (Uncommitted db laws db0)
          (write_bad_heads db bc t slot) (λ cleared. pure (spawn bc cleared slot head)) w
          (write_bad_heads-Covers bc t slot hidden w bad running positive small low high same)
          (λ cleared w' h.
            subst (λ c. Started hidden slot head t (spawn bc c slot head) w') (sym h.0)
              (spawn-Started bc t head slot hidden w' running h.1)))
