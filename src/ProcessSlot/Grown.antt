-- ===== src/ProcessSlot/Grown.antt =====
-- What the processing of a slot (pkg/beaconclient/processslot.go) keeps of the committed tables: all
-- that the statements of slots, reorgs and known gaps keep.
use ipld_eth_beacon_indexer.Base.{
  ℕ, ◌≡◌, ◌⊎◌, ◌∙◌, sym, subst, String, List, [], ◌∷◌, All, inl, inr,
}
use ipld_eth_beacon_indexer.Sql.{Driver, Stmt, is_failed, is_uncounted, is_affected, Reply-cases}
use ipld_eth_beacon_indexer.Sql.Tables.{Tables, meaning}
use ipld_eth_beacon_indexer.Sql.Laws.{IsPostgres, AbortsFailed}
use ipld_eth_beacon_indexer.Consensus.{Zrnt}
use ipld_eth_beacon_indexer.Action.Rules.{Ensures-weaken}
use ipld_eth_beacon_indexer.Writer.KnownGaps.Table.{in_tx, Uncommitted}
use ipld_eth_beacon_indexer.Writer.Kept.{IsMark}
use ipld_eth_beacon_indexer.Writer.Slot.{DatabaseWriter}
use ipld_eth_beacon_indexer.Writer.Slot.Statements.{run_all, slot_stmts}
use ipld_eth_beacon_indexer.Writer.Slot.Idempotent.{IsInsert, slot_stmts-IsInsert}
use ipld_eth_beacon_indexer.ProcessSlot.Store.{handle_previous}
use ipld_eth_beacon_indexer.ProcessSlot.Marks.{handle_previous-Keeps}
use ipld_eth_beacon_indexer.ProcessSlot.Atomic.{Handles}

-- A property of the tables that the statements of reorgs and known gaps keep.
abbrev pub KeptByMarks : (Tables → Type 0) → Type 0
KeptByMarks Q = (stmt : Stmt) (t : Tables) → IsMark stmt → Q t → Q (meaning stmt t).1

-- A property that the inserts of a slot keep.
abbrev pub KeptByInserts : (Tables → Type 0) → Type 0
KeptByInserts Q = (stmt : Stmt) (t : Tables) → IsInsert stmt → Q t → Q (meaning stmt t).1

run_all-KeptByInserts :
    (Q : Tables → Type 0) (stmts : List Stmt) (t : Tables)
    → KeptByInserts Q
    → All IsInsert stmts
    → Q t
    → Q (run_all stmts t)
run_all-KeptByInserts Q [] t keeps inserts h = h
run_all-KeptByInserts Q (stmt ∷ stmts) t keeps inserts h =
    run_all-KeptByInserts Q stmts (meaning stmt t).1 keeps inserts.1 (keeps stmt t inserts.0 h)

-- What a slot finds in the tables it leaves there.
pub slot_stmts-KeptByInserts :
    (Q : Tables → Type 0) (dw : DatabaseWriter) (t : Tables)
    → KeptByInserts Q
    → Q t
    → Q (run_all (slot_stmts dw) t)
slot_stmts-KeptByInserts Q dw t keeps h =
    run_all-KeptByInserts Q (slot_stmts dw) t keeps (slot_stmts-IsInsert dw) h

module _ {S : Type 0} (db : Driver S) (laws : IsPostgres db) (aborts : AbortsFailed db)
    (Q : Tables → Type 0) (marks : KeptByMarks Q) where
  -- The transaction sees the property, or it can no longer commit.
  abbrev pub SeenOrAborted : S → Type 0
  SeenOrAborted s = Q (laws.working s) ⊎ aborts.Aborted s

  pub exec-SeenOrAborted :
      (stmt : Stmt) (s : S) → IsMark stmt → SeenOrAborted s → SeenOrAborted (db.tx_exec stmt s).1
  exec-SeenOrAborted stmt s mark (inl seen) = elim (Reply-cases (db.tx_exec stmt s).0) [
    | is_failed e h ↦ inr (aborts.failure_aborts stmt s e h)
    | is_uncounted e h ↦
        inl (subst Q (sym (laws.tx_uncounted stmt s e h)) (marks stmt (laws.working s) mark seen))
    | is_affected n h ↦
        inl (subst Q (sym (laws.tx_affected stmt s n h).1) (marks stmt (laws.working s) mark seen))
  ]
  exec-SeenOrAborted stmt s mark (inr stuck) =
      let (e, refused_stmt) = aborts.aborted_refuses stmt s stuck in
      inr (aborts.failure_aborts stmt s e refused_stmt)

  module _ (db0 : Tables) where
    abbrev pub Pending : S → Type 0
    Pending s = SeenOrAborted s × (laws.committed s ≡ db0)

    pub exec-Pending :
        (stmt : Stmt) (s : S) → IsMark stmt → Pending s → Pending (db.tx_exec stmt s).1
    exec-Pending stmt s mark h = (exec-SeenOrAborted stmt s mark h.0, laws.tx_isolated stmt s ∙ h.1)

    -- The comparison with the previous slot keeps the property from the rows of the slot to the
    -- commit.
    pub marks-Handles :
        (slot : ℕ) (Idle : Type 0) (z : Zrnt) (mode : String) (previous_slot : ℕ)
        (previous_block_root : String) (increment : ℕ)
        → ((dw : DatabaseWriter) (t : Tables)
            → dw.db_slots.slot ≡ slot
            → t ≡ run_all (slot_stmts dw) db0
            → Q t)
        → Handles db laws db0
            (λ dw t. Q t)
            slot
            Idle
            aborts.Aborted
            aborts.aborted_commit
            z
            mode
            previous_slot
            previous_block_root
            increment
    marks-Handles slot Idle z mode previous_slot previous_block_root increment first ps dw w for
          is_slot ran same =
        Ensures-weaken (λ _ w'. Pending w'.store) (λ _ w'. Pending w'.store)
          (λ w'. Pending w'.store) (Uncommitted db laws db0)
          (handle_previous z db ps previous_slot previous_block_root increment w) (λ _ _ h. h)
          (λ _ h. h.1)
          (handle_previous-Keeps db Pending exec-Pending z ps previous_slot previous_block_root
            increment w (inl (first dw (in_tx db laws w) is_slot ran), same))
