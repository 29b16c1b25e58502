-- ===== src/ProcessSlot/Previous.antt =====
-- `checkPreviousSlot` (processslot.go): what it makes of the rows of the transaction, in each relation
-- of the slot to the previous one.
use ipld_eth_beacon_indexer.Base.{
  ℕ, ◌+◌, ◌-◌, ◌<◌, ◌≡◌, refl, String, some, true, false, Bool-cases, inl, inr, ◌==◌, ◌/=◌, ltb,
  str_eq, arith,
}
use ipld_eth_beacon_indexer.Word.{add64, sub64, int_sign}
use ipld_eth_beacon_indexer.Sql.{Driver}
use ipld_eth_beacon_indexer.Sql.Tables.{Tables}
use ipld_eth_beacon_indexer.Sql.Laws.{IsPostgres}
use ipld_eth_beacon_indexer.Consensus.{Zrnt}
use ipld_eth_beacon_indexer.Action.{World, Ensures}
use ipld_eth_beacon_indexer.Action.Rules.{Ensures-map}
use ipld_eth_beacon_indexer.Writer.KnownGaps.{transact_known_gaps}
use ipld_eth_beacon_indexer.Writer.KnownGaps.Ranges.{IsRange}
use ipld_eth_beacon_indexer.Writer.KnownGaps.Table.{
  CoversAll, in_tx, Uncommitted, transact_known_gaps-CoversAll,
}
use ipld_eth_beacon_indexer.Writer.Reorgs.{transact_reorgs}
use ipld_eth_beacon_indexer.Writer.Reorgs.Table.{Resolved, transact_reorgs-Resolved}
use ipld_eth_beacon_indexer.ProcessSlot.{ProcessSlot}
use ipld_eth_beacon_indexer.ProcessSlot.Store.{check_parent}

module _ {S : Type 0} (db : Driver S) (laws : IsPostgres db) (db0 : Tables) (w : World S) (slot : ℕ)
    (block_root parent : String) (previous_slot : ℕ) (previous_block_root : String) where
  -- The five relations of a slot to the previous one, each with the tables of the transaction.
  pub data Linked (w' : World S) : Type 0 where
    chained :
        previous_slot + 1 ≡ slot
        → str_eq previous_block_root parent ≡ true
        → in_tx db laws w' ≡ in_tx db laws w
        → Linked w'
    behind : slot < previous_slot → in_tx db laws w' ≡ in_tx db laws w → Linked w'
    skipped_some :
        previous_slot + 1 < slot
        → CoversAll (previous_slot + 1) (slot - 1) (in_tx db laws w')
        → Linked w'
    forked :
        previous_slot ≡ slot
        → Resolved db laws db0 slot block_root (in_tx db laws w).slots w'
        → Linked w'
    parent_differs :
        previous_slot + 1 ≡ slot
        → str_eq previous_block_root parent ≡ false
        → Resolved db laws db0 previous_slot parent (in_tx db laws w).slots w'
        → Linked w'

  abbrev pub Checked : Unit {0} → World S → Type 0
  Checked _ w' = Linked w' × Uncommitted db laws db0 w'

module _ {S : Type 0} (db : Driver S) (laws : IsPostgres db) (db0 : Tables) (z : Zrnt) where
  -- The test of a slot against the previous one, at slots in the range of an int and with a positive
  -- increment: the slot follows the previous one and its block is the parent, and the tables of the
  -- transaction are unchanged; or it is behind the previous one, and they are unchanged; or slots lie
  -- between the two, and known gaps hold all of them; or the two are the same slot, and it is
  -- resolved to the new root or held by a known gap; or the parent is another one, and the previous
  -- slot is resolved to it or held by a known gap. Nothing is committed, also if the program exits.
  pub check_parent-Linked :
      (ps : ProcessSlot z) (parent : String) (previous_slot : ℕ) (previous_block_root : String)
      (increment : ℕ) (w : World S)
      → 0 < increment
      → ps.slot < int_sign
      → previous_slot < int_sign
      → Uncommitted db laws db0 w
      → Ensures
          (Checked db laws db0 w ps.slot ps.block_root parent previous_slot previous_block_root)
          (Uncommitted db laws db0)
          (check_parent z db ps parent previous_slot previous_block_root increment w)
  unfolding check_parent
  check_parent-Linked ps parent previous_slot previous_block_root increment w positive small small'
        same =
      let next : add64 previous_slot 1 ≡ previous_slot + 1 = omega arith in
      let Q : Unit {0} → World S → Type 0 =
        Checked db laws db0 w ps.slot ps.block_root parent previous_slot previous_block_root in
      elim (Bool-cases (previous_slot == ps.slot)) [
        | inl equal ↦ rw equal (
            Ensures-map (λ _. Resolved db laws db0 ps.slot ps.block_root (in_tx db laws w).slots) Q
              (Uncommitted db laws db0) (transact_reorgs db ps.slot ps.block_root w)
              (λ _ w' h. (forked (ground arith) h, h.1))
              (transact_reorgs-Resolved db laws db0 ps.slot ps.block_root (in_tx db laws w).slots w
                (omega arith) same refl))
        | inr other ↦ elim (Bool-cases (ltb ps.slot previous_slot)) [
          | inl less ↦ rw (other, less) (behind (ground arith) refl, same)
          | inr more ↦ elim (Bool-cases (add64 previous_slot 1 /= ps.slot)) [
            | inl far ↦
                let last : sub64 ps.slot 1 ≡ ps.slot - 1 = ground arith in
                let between : previous_slot + 1 < ps.slot = ground arith in
                let range : IsRange increment (add64 previous_slot 1) (sub64 ps.slot 1) = record {
                  positive = positive;
                  ordered = omega arith;
                  word = omega arith;
                  narrow = omega arith;
                } in
                rw (other, more, far)
                  (Ensures-map _ Q (Uncommitted db laws db0)
                    (transact_known_gaps db increment (add64 previous_slot 1) (sub64 ps.slot 1)
                      (some "gaps during head processing") "headGaps" w)
                    (λ _ w' h.
                      (skipped_some between (λ n low high. h.0 n (omega arith) (omega arith)), h.2))
                    (transact_known_gaps-CoversAll db laws db0 increment (add64 previous_slot 1)
                      (sub64 ps.slot 1) (some "gaps during head processing") "headGaps" w range
                      same))
            | inr near ↦ elim (Bool-cases (str_eq previous_block_root parent)) [
              | inl good ↦ rw (other, more, near, good) (chained (ground arith) good refl, same)
              | inr bad ↦
                  rw (other, more, near, bad)
                    (Ensures-map
                      (λ _. Resolved db laws db0 previous_slot parent (in_tx db laws w).slots) Q
                      (Uncommitted db laws db0) (transact_reorgs db previous_slot parent w)
                      (λ _ w' h. (parent_differs (ground arith) bad h, h.1))
                      (transact_reorgs-Resolved db laws db0 previous_slot parent
                        (in_tx db laws w).slots w (omega arith) same refl))
            ]
          ]
        ]
      ]
