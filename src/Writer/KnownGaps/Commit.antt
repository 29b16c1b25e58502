-- ===== src/Writer/KnownGaps/Commit.antt =====
-- `writeKnownGaps` and `writeStartUpGaps` (databasewrite.go): the entries of a gap are committed
-- together or not at all.
use ipld_eth_beacon_indexer.Base.{
  ℕ, ◌+◌, ◌-◌, ◌≤◌, ◌<◌, ◌≡◌, ◌∙◌, ap, String, Option, some, arith, inl, inr, Bool-cases, ltb, ◌==◌,
  ◌/=◌, ◌⊎◌, true,
}
use ipld_eth_beacon_indexer.Word.{sub64, add64, int_sign}
use ipld_eth_beacon_indexer.Sql.{Error, Driver, is_no_rows, is_scan_failed, is_scanned, Row-cases}
use ipld_eth_beacon_indexer.Sql.Tables.{Tables, max_slot}
use ipld_eth_beacon_indexer.Sql.Laws.{IsPostgres}
use ipld_eth_beacon_indexer.Action.{World, Ensures}
use ipld_eth_beacon_indexer.Action.Rules.{Ensures-map}
use ipld_eth_beacon_indexer.Writer.KnownGaps.{
  transact_known_gaps, write_known_gaps, write_missing, write_start_up_gaps,
}
use ipld_eth_beacon_indexer.Writer.Transact.{Pending, transact_lem}
use ipld_eth_beacon_indexer.Writer.KnownGaps.Ranges.{IsRange}
use ipld_eth_beacon_indexer.Writer.KnownGaps.Table.{
  Covers, CoversAll, in_db, Uncommitted, transact_known_gaps-CoversAll,
}

module _ {S : Type 0} (db : Driver S) (laws : IsPostgres db) (db0 : Tables) where
  -- Committed: every slot of the gap is held, and so is every slot that was.
  abbrev pub Written : ℕ → ℕ → World S → Type 0
  Written start end w =
      CoversAll start end (in_db db laws w)
      × ((slot : ℕ) → Covers slot db0 → Covers slot (in_db db laws w))

  -- Either every slot of a proper gap is held by a committed entry of the table, and each slot that
  -- was held still is, or the program exits and nothing has been committed.
  pub write_known_gaps-Written :
      (increment start end : ℕ) (error : Option Error) (process : String) (w : World S)
      → IsRange increment start end
      → Uncommitted db laws db0 w
      → Ensures
          (λ _. Written start end)
          (Uncommitted db laws db0)
          (write_known_gaps db increment start end error process w)
  unfolding write_known_gaps
  write_known_gaps-Written increment start end error process w range same =
      transact_lem db laws db0
        (λ t. CoversAll start end t × ((slot : ℕ) → Covers slot db0 → Covers slot t))
        (transact_known_gaps db increment start end error process) w same
        (λ w1 opened same1.
          Ensures-map _
            (λ _.
              Pending db laws db0
                (λ t. CoversAll start end t × ((slot : ℕ) → Covers slot db0 → Covers slot t)))
            (Uncommitted db laws db0) _
            (λ _ w' h. ((h.0, λ slot old. h.1 slot (rw opened old)), h.2))
            (transact_known_gaps-CoversAll db laws db0 increment start end error process w1 range
              same1))

  -- `writeKnownGaps`, for one slot: if the slot is in the proper gap that is written, or an entry
  -- held it before, then a committed entry holds it after; or the program exits and nothing has been
  -- committed.
  pub write_known_gaps-Covers :
      (increment start end slot : ℕ) (error : Option Error) (process : String) (w : World S)
      → IsRange increment start end
      → Uncommitted db laws db0 w
      → ((start ≤ slot) × (slot ≤ end)) ⊎ Covers slot db0
      → Ensures
          (λ _ w'. Covers slot (in_db db laws w'))
          (Uncommitted db laws db0)
          (write_known_gaps db increment start end error process w)
  write_known_gaps-Covers increment start end slot error process w range same (inl inside) =
      Ensures-map (λ _. Written start end) (λ _ w'. Covers slot (in_db db laws w'))
        (Uncommitted db laws db0) (write_known_gaps db increment start end error process w)
        (λ _ w' h. h.0 slot inside.0 inside.1)
        (write_known_gaps-Written increment start end error process w range same)
  write_known_gaps-Covers increment start end slot error process w range same (inr old) =
      Ensures-map (λ _. Written start end) (λ _ w'. Covers slot (in_db db laws w'))
        (Uncommitted db laws db0) (write_known_gaps db increment start end error process w)
        (λ _ w' h. h.1 slot old)
        (write_known_gaps-Written increment start end error process w range same)

  write_missing-Covers :
      (increment highest first slot : ℕ) (w : World S)
      → 0 < increment
      → first < int_sign
      → Uncommitted db laws db0 w
      → highest < slot
      → slot < first
      → Ensures
          (λ _ w'. Covers slot (in_db db laws w'))
          (Uncommitted db laws db0)
          (write_missing db increment highest (sub64 first 1) w)
  unfolding write_missing
  write_missing-Covers increment highest first slot w positive small same low high =
      let last : sub64 first 1 ≡ first - 1 = omega arith in
      let differs : (highest /= sub64 first 1) ≡ true = ground arith in
      let below : ltb highest (sub64 first 1) ≡ true = ground arith in
      let next : add64 highest 1 ≡ highest + 1 = omega arith in
      rw (differs, below)
        (elim (Bool-cases (highest == 0)) [
          | inl empty ↦ rw empty (
              write_known_gaps-Covers increment highest (sub64 first 1) slot (some "") "startup" w
                (omega arith) same (inl (ground arith)))
          | inr filled ↦ rw filled (
              write_known_gaps-Covers increment (add64 highest 1) (sub64 first 1) slot (some "")
                "startup" w (omega arith) same (inl (omega arith)))
        ])

  -- `writeStartUpGaps`: every slot after the highest one of the table and before the first one is
  -- held by a committed entry; or the program exits and nothing has been committed.
  pub write_start_up_gaps-Covers :
      (increment first slot : ℕ) (w : World S)
      → 0 < increment
      → first < int_sign
      → Uncommitted db laws db0 w
      → max_slot db0.slots < slot
      → slot < first
      → Ensures
          (λ _ w'. Covers slot (in_db db laws w'))
          (Uncommitted db laws db0)
          (write_start_up_gaps db increment first w)
  unfolding write_start_up_gaps
  write_start_up_gaps-Covers increment first slot w positive small same low high =
      let s : S = (db.query_highest_slot w.store).1 in
      let same1 : laws.committed s ≡ db0 = laws.highest_slot_reads w.store ∙ same in
      elim (Row-cases (db.query_highest_slot w.store).0) [
        | is_no_rows h ↦ rw h same1
        | is_scan_failed e h ↦ rw h same1
        | is_scanned m h ↦
            let is_max : m ≡ max_slot db0.slots =
              laws.highest_slot w.store m h ∙ ap (λ (t : Tables). max_slot t.slots) same in
            rw h (
              write_missing-Covers increment m first slot (record w { store = s }) positive small
                same1 (rw is_max low) high)
      ]
