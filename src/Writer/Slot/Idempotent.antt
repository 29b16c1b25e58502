-- ===== src/Writer/Slot/Idempotent.antt =====
-- Writing a slot again changes nothing: every statement of `transactFullSlot` (databasewrite.go) is
-- an INSERT ... ON CONFLICT DO NOTHING on the key of its row.
use mathlib.Core.Path.{subst}
use ipld_eth_beacon_indexer.Base.{
  ◌≡◌, refl, sym, ◌∙◌, ap, List, [], ◌∷◌, true, arith, inl, inr, Bool-cases, str_eq, str_eq_refl,
  All, All-append, Option, none, some, ◌&&◌, ◌==◌, ℕ, String, Bool,
}
use ipld_eth_beacon_indexer.Models.{
  DbSlots, DbBeaconState, DbSignedBeaconBlock, DbExecutionPayloadHeader,
}
use ipld_eth_beacon_indexer.Sql.{
  Stmt, upsert_slots, upsert_signed_beacon_block, upsert_signed_beacon_block_with_payload,
  upsert_beacon_state, upsert_blocks,
}
use ipld_eth_beacon_indexer.Sql.Tables.{
  Tables, meaning, has_root, has_block_root, has_state_root, has_key,
}
use ipld_eth_beacon_indexer.Sql.Tables.Rows.{
  any, insert_new, any-insert_new, any-insert_new_self, insert_new-known,
}
use ipld_eth_beacon_indexer.Sql.{Error, Driver}
use ipld_eth_beacon_indexer.Sql.Laws.{IsPostgres}
use ipld_eth_beacon_indexer.Action.{World, Ensures}
use ipld_eth_beacon_indexer.Action.Rules.{Ensures-map}
use ipld_eth_beacon_indexer.Writer.KnownGaps.Table.{in_tx, Uncommitted}
use ipld_eth_beacon_indexer.Writer.Slot.{
  DatabaseWriter, is_empty, signed_block_stmt, transact_full_slot,
}
use ipld_eth_beacon_indexer.Writer.Slot.Statements.{
  run_all, RanAll, transact_full_slot-RanAll, block_stmts, state_stmts, slot_stmts,
}

-- The table has a row with the key of the statement, which is one of the inserts of a slot.
abbrev pub Has : Stmt → Tables → Type 0
Has (upsert_slots r) t = any (has_root r.slot r.block_root) t.slots ≡ true
Has (upsert_signed_beacon_block b) t =
    any (has_block_root b.slot b.block_root) t.signed_block ≡ true
Has (upsert_signed_beacon_block_with_payload b h) t =
    any (has_block_root b.slot b.block_root) t.signed_block ≡ true
Has (upsert_beacon_state s) t = any (has_state_root s.slot s.state_root) t.state ≡ true
Has (upsert_blocks key bytes) t = any (has_key key) t.blocks ≡ true
Has _ t = ⊥

abbrev pub IsInsert : Stmt → Type 0
IsInsert (upsert_slots r) = Unit
IsInsert (upsert_signed_beacon_block b) = Unit
IsInsert (upsert_signed_beacon_block_with_payload b h) = Unit
IsInsert (upsert_beacon_state s) = Unit
IsInsert (upsert_blocks key bytes) = Unit
IsInsert _ = ⊥

key_refl : (n : ℕ) (s : String) → (n == n && str_eq s s) ≡ true
key_refl n s = ground (arith, str_eq_refl s)

Has-self : (stmt : Stmt) (t : Tables) → IsInsert stmt → Has stmt (meaning stmt t).1
unfolding meaning
Has-self (upsert_slots r) t h =
    any-insert_new_self (has_root r.slot r.block_root) r t.slots (key_refl r.slot r.block_root)
Has-self (upsert_signed_beacon_block b) t h =
    any-insert_new_self (has_block_root b.slot b.block_root) _ t.signed_block
      (key_refl b.slot b.block_root)
Has-self (upsert_signed_beacon_block_with_payload b p) t h =
    any-insert_new_self (has_block_root b.slot b.block_root) _ t.signed_block
      (key_refl b.slot b.block_root)
Has-self (upsert_beacon_state s) t h =
    any-insert_new_self (has_state_root s.slot s.state_root) s t.state
      (key_refl s.slot s.state_root)
Has-self (upsert_blocks key bytes) t h =
    any-insert_new_self (has_key key) (key, bytes) t.blocks (str_eq_refl key)
Has-self _ t h = elim h [ ]

Has-fixed : (stmt : Stmt) (t : Tables) → Has stmt t → (meaning stmt t).1 ≡ t
unfolding meaning
Has-fixed (upsert_slots r) t h = rw (insert_new-known _ r t.slots h)
Has-fixed (upsert_signed_beacon_block b) t h = rw (insert_new-known _ _ t.signed_block h)
Has-fixed (upsert_signed_beacon_block_with_payload b p) t h =
    rw (insert_new-known _ _ t.signed_block h)
Has-fixed (upsert_beacon_state s) t h = rw (insert_new-known _ s t.state h)
Has-fixed (upsert_blocks key bytes) t h = rw (insert_new-known _ (key, bytes) t.blocks h)
Has-fixed _ t h = elim h [ ]

-- An insertion into one table takes no row away from any.
Has-insert_slots :
    (stmt : Stmt) (t : Tables) (conflicts : DbSlots → Bool) (x : DbSlots)
    → Has stmt t
    → Has stmt (record t { slots = (insert_new conflicts x t.slots).1 })
Has-insert_slots (upsert_slots r) t conflicts x h =
    any-insert_new (has_root r.slot r.block_root) conflicts x t.slots h
Has-insert_slots _ t conflicts x h = h

Has-insert_signed_block :
    (stmt : Stmt) (t : Tables) (conflicts : DbSignedBeaconBlock → Bool) (x : DbSignedBeaconBlock)
    → Has stmt t
    → Has stmt (record t { signed_block = (insert_new conflicts x t.signed_block).1 })
Has-insert_signed_block (upsert_signed_beacon_block b) t conflicts x h =
    any-insert_new (has_block_root b.slot b.block_root) conflicts x t.signed_block h
Has-insert_signed_block (upsert_signed_beacon_block_with_payload b p) t conflicts x h =
    any-insert_new (has_block_root b.slot b.block_root) conflicts x t.signed_block h
Has-insert_signed_block _ t conflicts x h = h

Has-insert_state :
    (stmt : Stmt) (t : Tables) (conflicts : DbBeaconState → Bool) (x : DbBeaconState)
    → Has stmt t
    → Has stmt (record t { state = (insert_new conflicts x t.state).1 })
Has-insert_state (upsert_beacon_state s) t conflicts x h =
    any-insert_new (has_state_root s.slot s.state_root) conflicts x t.state h
Has-insert_state _ t conflicts x h = h

Has-insert_blocks :
    (stmt : Stmt) (t : Tables) (conflicts : String × List ℕ → Bool) (x : String × List ℕ)
    → Has stmt t
    → Has stmt (record t { blocks = (insert_new conflicts x t.blocks).1 })
Has-insert_blocks (upsert_blocks key bytes) t conflicts x h =
    any-insert_new (has_key key) conflicts x t.blocks h
Has-insert_blocks _ t conflicts x h = h

Has-keeps :
    (stmt other : Stmt) (t : Tables) → IsInsert other → Has stmt t → Has stmt (meaning other t).1
unfolding meaning
Has-keeps stmt (upsert_slots r) t i h = Has-insert_slots stmt t (has_root r.slot r.block_root) r h
Has-keeps stmt (upsert_signed_beacon_block b) t i h =
    Has-insert_signed_block stmt t (has_block_root b.slot b.block_root) _ h
Has-keeps stmt (upsert_signed_beacon_block_with_payload b p) t i h =
    Has-insert_signed_block stmt t (has_block_root b.slot b.block_root) _ h
Has-keeps stmt (upsert_beacon_state s) t i h =
    Has-insert_state stmt t (has_state_root s.slot s.state_root) s h
Has-keeps stmt (upsert_blocks key bytes) t i h =
    Has-insert_blocks stmt t (has_key key) (key, bytes) h
Has-keeps stmt _ t i h = elim i [ ]

run_all-keeps :
    (stmt : Stmt) (stmts : List Stmt) (t : Tables)
    → All IsInsert stmts
    → Has stmt t
    → Has stmt (run_all stmts t)
run_all-keeps stmt [] t i h = h
run_all-keeps stmt (x ∷ stmts) t i h =
    run_all-keeps stmt stmts (meaning x t).1 i.1 (Has-keeps stmt x t i.0 h)

run_all-Has :
    (stmts : List Stmt) (t : Tables)
    → All IsInsert stmts
    → All (λ stmt. Has stmt (run_all stmts t)) stmts
run_all-Has [] t i = tt
run_all-Has (x ∷ stmts) t i = (
  run_all-keeps x stmts (meaning x t).1 i.1 (Has-self x t i.0),
  run_all-Has stmts (meaning x t).1 i.1,
)

run_all-fixed :
    (stmts : List Stmt) (t : Tables) → All (λ stmt. Has stmt t) stmts → run_all stmts t ≡ t
run_all-fixed [] t h = refl
run_all-fixed (x ∷ stmts) t h = ap (run_all stmts) (Has-fixed x t h.0) ∙ run_all-fixed stmts t h.1

signed_block_stmt-IsInsert :
    (b : DbSignedBeaconBlock) (p : Option DbExecutionPayloadHeader)
    → IsInsert (signed_block_stmt b p)
signed_block_stmt-IsInsert b none = tt
signed_block_stmt-IsInsert b (some p) = tt

block_stmts-IsInsert : (dw : DatabaseWriter) → All IsInsert (block_stmts dw)
block_stmts-IsInsert dw = elim (Bool-cases (is_empty dw.raw_signed_beacon_block)) [
  | inl empty ↦ rw empty tt
  | inr bytes ↦ rw bytes (tt, (signed_block_stmt-IsInsert _ _, tt))
]

state_stmts-IsInsert : (dw : DatabaseWriter) → All IsInsert (state_stmts dw)
state_stmts-IsInsert dw = elim (Bool-cases (is_empty dw.raw_beacon_state)) [
  | inl empty ↦ rw empty tt
  | inr bytes ↦ rw bytes (tt, (tt, tt))
]

pub slot_stmts-IsInsert : (dw : DatabaseWriter) → All IsInsert (slot_stmts dw)
slot_stmts-IsInsert dw = elim (Bool-cases (str_eq dw.db_slots.status "skipped")) [
  | inl skipped ↦ rw skipped (tt, tt)
  | inr other ↦ rw other (
    tt,
    All-append IsInsert (block_stmts dw) (state_stmts dw) (block_stmts-IsInsert dw)
        (state_stmts-IsInsert dw),
  )
]

-- After the statements of a slot, the table of each has a row with its key.
pub slot_stmts-Has :
    (dw : DatabaseWriter) (t : Tables)
    → All (λ stmt. Has stmt (run_all (slot_stmts dw) t)) (slot_stmts dw)
slot_stmts-Has dw t = run_all-Has (slot_stmts dw) t (slot_stmts-IsInsert dw)

-- The statements of a slot change nothing where they have been run.
slot_stmts-twice :
    (dw : DatabaseWriter) (t : Tables)
    → run_all (slot_stmts dw) (run_all (slot_stmts dw) t) ≡ run_all (slot_stmts dw) t
slot_stmts-twice dw t = run_all-fixed (slot_stmts dw) _ (slot_stmts-Has dw t)

module _ {S : Type 0} (db : Driver S) (laws : IsPostgres db) (db0 : Tables) where
  -- With no error every key of the slot is in its table.
  abbrev pub Stored : DatabaseWriter → Option Error → World S → Type 0
  Stored dw none w = All (λ stmt. Has stmt (in_tx db laws w)) (slot_stmts dw)
  Stored dw (some e) w = Unit

  stored_lem :
      (dw : DatabaseWriter) (t : Tables) (e : Option Error) (w : World S)
      → RanAll db laws db0 (slot_stmts dw) t e w
      → Stored dw e w
  stored_lem dw t none w h =
      subst (λ u. All (λ stmt. Has stmt u) (slot_stmts dw)) (sym h.0) (slot_stmts-Has dw t)
  stored_lem dw t (some e) w h = tt

  -- When `transactFullSlot` returns no error, the tables have a row with the key of the slot and, for
  -- a slot that was not skipped, rows for each of its objects that was retrieved.
  pub transact_full_slot-Stored :
      (dw : DatabaseWriter) (w : World S)
      → Uncommitted db laws db0 w
      → Ensures (Stored dw) (Uncommitted db laws db0) (transact_full_slot db dw w)
  transact_full_slot-Stored dw w same =
      Ensures-map (RanAll db laws db0 (slot_stmts dw) (in_tx db laws w)) (Stored dw)
        (Uncommitted db laws db0) (transact_full_slot db dw w) (stored_lem dw (in_tx db laws w))
        (transact_full_slot-RanAll db laws db0 dw w same)

  abbrev pub Unchanged : Tables → Option Error → World S → Type 0
  Unchanged t none w = in_tx db laws w ≡ t
  Unchanged t (some e) w = Unit

  unchanged_lem :
      (dw : DatabaseWriter) (t : Tables) (e : Option Error) (w : World S)
      → All (λ stmt. Has stmt t) (slot_stmts dw)
      → RanAll db laws db0 (slot_stmts dw) t e w
      → Unchanged t e w
  unchanged_lem dw t none w there h = h.0 ∙ run_all-fixed (slot_stmts dw) t there
  unchanged_lem dw t (some e) w there h = tt

  -- Where the keys of a slot and of its retrieved objects are in the tables, `transactFullSlot` leaves
  -- every table as it is, unless it returns an error or ends the process.
  pub transact_full_slot-Unchanged :
      (dw : DatabaseWriter) (w : World S)
      → Uncommitted db laws db0 w
      → All (λ stmt. Has stmt (in_tx db laws w)) (slot_stmts dw)
      → Ensures (Unchanged (in_tx db laws w)) (Uncommitted db laws db0) (transact_full_slot db dw w)
  transact_full_slot-Unchanged dw w same there =
      Ensures-map (RanAll db laws db0 (slot_stmts dw) (in_tx db laws w))
        (Unchanged (in_tx db laws w)) (Uncommitted db laws db0) (transact_full_slot db dw w)
        (λ e w' h. unchanged_lem dw (in_tx db laws w) e w' there h)
        (transact_full_slot-RanAll db laws db0 dw w same)
