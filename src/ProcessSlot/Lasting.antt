-- ===== src/ProcessSlot/Lasting.antt =====
-- What is accounted for in the committed tables stays so while other slots are processed and known
-- gaps are written (processslot.go, databasewrite.go).
use ipld_eth_beacon_indexer.Base.{ℕ, ◌≤◌, String, inl, inr, arith, ◌==◌}
use ipld_eth_beacon_indexer.Sql.{
  Stmt, upsert_slots, upsert_signed_beacon_block, upsert_signed_beacon_block_with_payload,
  upsert_beacon_state, upsert_blocks, update_forked, update_proposed, upsert_known_gaps,
}
use ipld_eth_beacon_indexer.Sql.Tables.{Tables, has_root, has_block_root, has_state_root, meaning}
use ipld_eth_beacon_indexer.Sql.Tables.Rows.{any-insert_new, count_where, count_where-insert_new}
use ipld_eth_beacon_indexer.Writer.KnownGaps.Table.{Covers, upsert-Covers}
use ipld_eth_beacon_indexer.Writer.Kept.{IsMark}
use ipld_eth_beacon_indexer.Writer.Slot.Idempotent.{IsInsert}
use ipld_eth_beacon_indexer.ProcessSlot.{SlotProcessingDetails}
use ipld_eth_beacon_indexer.ProcessSlot.Found.{Found}
use ipld_eth_beacon_indexer.ProcessSlot.Grown.{KeptByMarks, KeptByInserts}
use ipld_eth_beacon_indexer.ProcessSlot.Accounted.{HasSlot, mark-HasSlot, AccountedIn}

insert-HasSlot : (slot : ℕ) → KeptByInserts (HasSlot slot)
unfolding meaning
insert-HasSlot slot (upsert_slots r) t insert h =
    any-insert_new (λ x. x.slot == slot) (has_root r.slot r.block_root) r t.slots h
insert-HasSlot slot (upsert_signed_beacon_block b) t insert h = h
insert-HasSlot slot (upsert_signed_beacon_block_with_payload b p) t insert h = h
insert-HasSlot slot (upsert_beacon_state s) t insert h = h
insert-HasSlot slot (upsert_blocks key bytes) t insert h = h
insert-HasSlot slot _ t insert h = absurd insert

pub mark-Covers : (slot : ℕ) → KeptByMarks (Covers slot)
unfolding meaning
mark-Covers slot (upsert_known_gaps g) t mark h = upsert-Covers g slot t h
mark-Covers slot (update_forked n root) t mark h = h
mark-Covers slot (update_proposed n root) t mark h = h
mark-Covers slot _ t mark h = absurd mark

pub insert-Covers : (slot : ℕ) → KeptByInserts (Covers slot)
unfolding meaning
insert-Covers slot (upsert_slots r) t insert h = h
insert-Covers slot (upsert_signed_beacon_block b) t insert h = h
insert-Covers slot (upsert_signed_beacon_block_with_payload b p) t insert h = h
insert-Covers slot (upsert_beacon_state s) t insert h = h
insert-Covers slot (upsert_blocks key bytes) t insert h = h
insert-Covers slot _ t insert h = absurd insert

-- The number of blocks and of states of a slot with a root does not fall.
abbrev Below : Tables → Tables → Type 0
Below t t' =
    ((slot : ℕ) (root : String)
      → count_where (has_block_root slot root) t.signed_block
        ≤ count_where (has_block_root slot root) t'.signed_block)
    × ((slot : ℕ) (root : String)
        → count_where (has_state_root slot root) t.state
          ≤ count_where (has_state_root slot root) t'.state)

Found-Below :
    (spd : SlotProcessingDetails) (slot : ℕ) (t t' : Tables)
    → Below t t'
    → Found spd slot t
    → Found spd slot t'
unfolding meaning
Found-Below spd slot t t' below found = (
  λ on. let (root, many) = found.0 on in (root, omega (arith, below.0 slot root)),
  λ on. let (root, many) = found.1 on in (root, omega (arith, below.1 slot root)),
)

mark-Below : (stmt : Stmt) (t : Tables) → IsMark stmt → Below t (meaning stmt t).1
unfolding meaning
mark-Below (upsert_known_gaps g) t mark = (λ n root. omega arith, λ n root. omega arith)
mark-Below (update_forked n root) t mark = (λ n root. omega arith, λ n root. omega arith)
mark-Below (update_proposed n root) t mark = (λ n root. omega arith, λ n root. omega arith)
mark-Below _ t mark = absurd mark

insert-Below : (stmt : Stmt) (t : Tables) → IsInsert stmt → Below t (meaning stmt t).1
unfolding meaning
insert-Below (upsert_slots r) t insert = (λ n root. omega arith, λ n root. omega arith)
insert-Below (upsert_signed_beacon_block b) t insert = (
  λ n root. count_where-insert_new (has_block_root n root) _ _ t.signed_block,
  λ n root. omega arith,
)
insert-Below (upsert_signed_beacon_block_with_payload b p) t insert = (
  λ n root. count_where-insert_new (has_block_root n root) _ _ t.signed_block,
  λ n root. omega arith,
)
insert-Below (upsert_beacon_state s) t insert =
    (λ n root. omega arith, λ n root. count_where-insert_new (has_state_root n root) _ _ t.state)
insert-Below (upsert_blocks key bytes) t insert = (λ n root. omega arith, λ n root. omega arith)
insert-Below _ t insert = absurd insert

-- A slot that is accounted for stays so.
pub mark-AccountedIn : (spd : SlotProcessingDetails) (slot : ℕ) → KeptByMarks (AccountedIn spd slot)
mark-AccountedIn spd slot stmt t mark (inl row) = inl (mark-HasSlot slot stmt t mark row)
mark-AccountedIn spd slot stmt t mark (inr (inl (checks, found))) =
    inr (inl (checks, Found-Below spd slot t _ (mark-Below stmt t mark) found))
mark-AccountedIn spd slot stmt t mark (inr (inr gap)) = inr (inr (mark-Covers slot stmt t mark gap))

pub insert-AccountedIn :
    (spd : SlotProcessingDetails) (slot : ℕ) → KeptByInserts (AccountedIn spd slot)
insert-AccountedIn spd slot stmt t insert (inl row) = inl (insert-HasSlot slot stmt t insert row)
insert-AccountedIn spd slot stmt t insert (inr (inl (checks, found))) =
    inr (inl (checks, Found-Below spd slot t _ (insert-Below stmt t insert) found))
insert-AccountedIn spd slot stmt t insert (inr (inr gap)) =
    inr (inr (insert-Covers slot stmt t insert gap))
