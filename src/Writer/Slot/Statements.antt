-- ===== src/Writer/Slot/Statements.antt =====
-- The statements of `transactFullSlot` (databasewrite.go), as a list, and what they do to the tables.
use mathlib.Core.List.{append-nil}
use ipld_eth_beacon_indexer.Models.{DbSignedBeaconBlock, DbBeaconState}
use ipld_eth_beacon_indexer.Base.{
  ◌≡◌, ◌∙◌, ap, refl, sym, List, [], ◌∷◌, ◌++◌, Option, none, some, inl, inr, Bool-cases, str_eq,
  if◌then◌else◌,
}
use ipld_eth_beacon_indexer.Sql.{
  Error, Driver, Stmt, is_failed, is_uncounted, is_affected, Reply-cases, upsert_slots,
  upsert_beacon_state, upsert_blocks,
}
use ipld_eth_beacon_indexer.Sql.Tables.{Tables, meaning}
use ipld_eth_beacon_indexer.Sql.Laws.{IsPostgres}
use ipld_eth_beacon_indexer.Action.{World, Action, ◌>>=◌, ◌>>◌, pure, count, Ensures}
use ipld_eth_beacon_indexer.Action.Rules.{Ensures-bind, Ensures-map}
use ipld_eth_beacon_indexer.Metrics.{increment_slot_inserts}
use ipld_eth_beacon_indexer.Writer.KnownGaps.Table.{in_tx, Uncommitted}
use ipld_eth_beacon_indexer.Writer.Slot.{
  DatabaseWriter, is_empty, signed_block_stmt, unless_error, writer_exec, transact_slots,
  upsert_public_blocks, upsert_signed_block, transact_signed_beacon_blocks, upsert_state,
  transact_beacon_state, transact_objects, transact_full_slot,
}

abbrev pub run_all : List Stmt → Tables → Tables
run_all [] t = t
run_all (stmt ∷ stmts) t = run_all stmts (meaning stmt t).1

run_all-append : (xs ys : List Stmt) (t : Tables) → run_all (xs ++ ys) t ≡ run_all ys (run_all xs t)
run_all-append [] ys t = refl
run_all-append (x ∷ xs) ys t = run_all-append xs ys (meaning x t).1

-- An object that was not retrieved has no bytes, and is not written.
abbrev pub block_stmts : DatabaseWriter → List Stmt
block_stmts dw =
    let block = dw.db_signed_beacon_block in
    if is_empty dw.raw_signed_beacon_block
    then []
    else upsert_blocks block.mh_key dw.raw_signed_beacon_block
      ∷ signed_block_stmt block block.execution_payload_header
      ∷ []

abbrev pub state_stmts : DatabaseWriter → List Stmt
state_stmts dw =
    let state = dw.db_beacon_state in
    if is_empty dw.raw_beacon_state
    then []
    else upsert_blocks state.mh_key dw.raw_beacon_state ∷ upsert_beacon_state state ∷ []

abbrev pub object_stmts : DatabaseWriter → List Stmt
object_stmts dw =
    if str_eq dw.db_slots.status "skipped" then [] else block_stmts dw ++ state_stmts dw

-- The row of the slot, then the block, then the state; of a skipped slot its row alone.
abbrev pub slot_stmts : DatabaseWriter → List Stmt
slot_stmts dw = upsert_slots dw.db_slots ∷ object_stmts dw

module _ {S : Type 0} (db : Driver S) (laws : IsPostgres db) (db0 : Tables) where
  -- With no error the statements have been run in order; nothing is committed in any case.
  abbrev pub RanAll : List Stmt → Tables → Option Error → World S → Type 0
  RanAll stmts t none w = (in_tx db laws w ≡ run_all stmts t) × Uncommitted db laws db0 w
  RanAll stmts t (some e) w = Uncommitted db laws db0 w

  RanAll-append :
      (xs ys : List Stmt) (t : Tables) (e : Option Error) (w : World S)
      → RanAll ys (run_all xs t) e w
      → RanAll (xs ++ ys) t e w
  RanAll-append xs ys t none w h = (h.0 ∙ sym (run_all-append xs ys t), h.1)
  RanAll-append xs ys t (some e) w h = h

  RanAll-rest :
      (xs ys : List Stmt) (t : Tables) (k : Action S (Option Error)) (e : Option Error)
      (w : World S)
      → ((w' : World S)
          → in_tx db laws w' ≡ run_all xs t
          → Uncommitted db laws db0 w'
          → Ensures (RanAll ys (run_all xs t)) (Uncommitted db laws db0) (k w'))
      → RanAll xs t e w
      → Ensures (RanAll (xs ++ ys) t) (Uncommitted db laws db0) (unless_error e k w)
  RanAll-rest xs ys t k none w rest h =
      Ensures-map (RanAll ys (run_all xs t)) (RanAll (xs ++ ys) t) (Uncommitted db laws db0) (k w)
        (RanAll-append xs ys t) (rest w h.0 h.1)
  RanAll-rest xs ys t k (some e) w rest h = h

  -- A part that may fail, and the rest that runs unless it did.
  RanAll-then :
      (xs ys : List Stmt) (t : Tables) (m k : Action S (Option Error)) (w : World S)
      → Ensures (RanAll xs t) (Uncommitted db laws db0) (m w)
      → ((w' : World S)
          → in_tx db laws w' ≡ run_all xs t
          → Uncommitted db laws db0 w'
          → Ensures (RanAll ys (run_all xs t)) (Uncommitted db laws db0) (k w'))
      → Ensures (RanAll (xs ++ ys) t) (Uncommitted db laws db0) ((m >>= λ e. unless_error e k) w)
  RanAll-then xs ys t m k w first rest =
      Ensures-bind (RanAll xs t) (RanAll (xs ++ ys) t) (Uncommitted db laws db0) m
        (λ e. unless_error e k) w first (λ e w' h. RanAll-rest xs ys t k e w' rest h)

  writer_exec-RanAll :
      (dw : DatabaseWriter) (stmt : Stmt) (t : Tables) (w : World S)
      → in_tx db laws w ≡ t
      → Uncommitted db laws db0 w
      → Ensures (RanAll (stmt ∷ []) t) (Uncommitted db laws db0) (writer_exec db dw stmt w)
  unfolding writer_exec
  writer_exec-RanAll dw stmt t w here_now same =
      let same1 : laws.committed (db.tx_exec stmt w.store).1 ≡ db0 =
        laws.tx_isolated stmt w.store ∙ same in
      let start : (meaning stmt (in_tx db laws w)).1 ≡ (meaning stmt t).1 =
        ap (λ (u : Tables). (meaning stmt u).1) here_now in
      elim (Bool-cases dw.tx_open) [
        | inr nil ↦ rw nil same
        | inl open_tx ↦ rw open_tx (elim (Reply-cases (db.tx_exec stmt w.store).0) [
          | is_failed e h ↦ rw h same1
          | is_uncounted e h ↦ rw h (laws.tx_uncounted stmt w.store e h ∙ start, same1)
          | is_affected n h ↦ rw h ((laws.tx_affected stmt w.store n h).1 ∙ start, same1)
        ])
      ]

  transact_signed_beacon_blocks-RanAll :
      (dw : DatabaseWriter) (t : Tables) (w : World S)
      → in_tx db laws w ≡ t
      → Uncommitted db laws db0 w
      → Ensures
          (RanAll (block_stmts dw) t)
          (Uncommitted db laws db0)
          (transact_signed_beacon_blocks db dw w)
  unfolding transact_signed_beacon_blocks upsert_public_blocks upsert_signed_block
  transact_signed_beacon_blocks-RanAll dw t w start same =
      let block : DbSignedBeaconBlock = dw.db_signed_beacon_block in
      let write : Stmt = upsert_blocks block.mh_key dw.raw_signed_beacon_block in
      let insert : Stmt = signed_block_stmt block block.execution_payload_header in
      elim (Bool-cases (is_empty dw.raw_signed_beacon_block)) [
        | inl empty ↦ rw empty (start, same)
        | inr bytes ↦ rw bytes (
            RanAll-then (write ∷ []) (insert ∷ []) t (writer_exec db dw write)
              (writer_exec db dw insert) w (writer_exec-RanAll dw write t w start same)
              (λ w' now still. writer_exec-RanAll dw insert _ w' now still))
      ]

  transact_beacon_state-RanAll :
      (dw : DatabaseWriter) (t : Tables) (w : World S)
      → in_tx db laws w ≡ t
      → Uncommitted db laws db0 w
      → Ensures
          (RanAll (state_stmts dw) t)
          (Uncommitted db laws db0)
          (transact_beacon_state db dw w)
  unfolding transact_beacon_state upsert_public_blocks upsert_state
  transact_beacon_state-RanAll dw t w start same =
      let state : DbBeaconState = dw.db_beacon_state in
      let write : Stmt = upsert_blocks state.mh_key dw.raw_beacon_state in
      let insert : Stmt = upsert_beacon_state state in
      elim (Bool-cases (is_empty dw.raw_beacon_state)) [
        | inl empty ↦ rw empty (start, same)
        | inr bytes ↦ rw bytes (
            RanAll-then (write ∷ []) (insert ∷ []) t (writer_exec db dw write)
              (writer_exec db dw insert) w (writer_exec-RanAll dw write t w start same)
              (λ w' now still. writer_exec-RanAll dw insert _ w' now still))
      ]

  transact_objects-RanAll :
      (dw : DatabaseWriter) (t : Tables) (w : World S)
      → in_tx db laws w ≡ t
      → Uncommitted db laws db0 w
      → Ensures (RanAll (object_stmts dw) t) (Uncommitted db laws db0) (transact_objects db dw w)
  unfolding transact_objects
  transact_objects-RanAll dw t w start same =
      elim (Bool-cases (str_eq dw.db_slots.status "skipped")) [
        | inl skipped ↦ rw skipped (start, same)
        | inr other ↦ rw other (
            RanAll-then (block_stmts dw) (state_stmts dw) t (transact_signed_beacon_blocks db dw)
              (transact_beacon_state db dw) w
              (transact_signed_beacon_blocks-RanAll dw t w start same)
              (λ w' now still. transact_beacon_state-RanAll dw _ w' now still))
      ]

  counted_RanAll :
      (t : Tables) (w : World S)
      → in_tx db laws w ≡ t
      → Uncommitted db laws db0 w
      → Ensures
          (RanAll [] t)
          (Uncommitted db laws db0)
          ((count (increment_slot_inserts 1) >> pure none) w)
  counted_RanAll t w start same = (start, same)

  objects_then_count :
      (dw : DatabaseWriter) (t : Tables) (w : World S)
      → in_tx db laws w ≡ t
      → Uncommitted db laws db0 w
      → Ensures (RanAll (object_stmts dw ++ []) t) (Uncommitted db laws db0) (
          (transact_objects db dw >>= λ e.
          unless_error e (count (increment_slot_inserts 1) >> pure none))
            w)
  objects_then_count dw t w start same =
      RanAll-then (object_stmts dw) [] t (transact_objects db dw)
        (count (increment_slot_inserts 1) >> pure none) w
        (transact_objects-RanAll dw t w start same)
        (λ w' now still. counted_RanAll (run_all (object_stmts dw) t) w' now still)

  -- With no error `transactFullSlot` has run exactly the statements of the slot, in order, in the open
  -- transaction; whether or not there is an error, and also where the nil transaction of a failed
  -- `Begin` panics, nothing is committed.
  pub transact_full_slot-RanAll :
      (dw : DatabaseWriter) (w : World S)
      → Uncommitted db laws db0 w
      → Ensures
          (RanAll (slot_stmts dw) (in_tx db laws w))
          (Uncommitted db laws db0)
          (transact_full_slot db dw w)
  unfolding transact_full_slot transact_slots
  transact_full_slot-RanAll dw w same =
      let first : Stmt = upsert_slots dw.db_slots in
      rw (← append-nil (object_stmts dw)) (
        RanAll-then (first ∷ []) (object_stmts dw ++ []) (in_tx db laws w) (writer_exec db dw first)
          (do
            object_error ← transact_objects db dw
            unless_error object_error (count (increment_slot_inserts 1) >> pure none))
          w (writer_exec-RanAll dw first _ w refl same)
          (λ w' now still. objects_then_count dw _ w' now still))
