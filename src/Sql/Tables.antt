-- ===== src/Sql/Tables.antt =====
-- What each SQL text of the program says of the tables: INSERT ... ON CONFLICT DO NOTHING, UPDATE,
-- SELECT and DELETE on lists of rows, with the number of rows that the command reports.
pub mod Rows
use Rows.{any, insert_new, update_where, delete_where, count_where}
use ipld_eth_beacon_indexer.Base.{
  ℕ, ◌≡◌, ◌+◌, String, List, [], Option, none, some, Bool, true, false, ◌&&◌, not, str_eq, leb, ltb,
  ◌==◌, ◌∷◌, if◌then◌else◌,
}
use ipld_eth_beacon_indexer.Models.{
  DbSlots, DbExecutionPayloadHeader, DbSignedBeaconBlock, DbBeaconState, DbKnownGaps,
}
use ipld_eth_beacon_indexer.Sql.{
  Stmt, BatchTable, historic_process, known_gaps, upsert_slots, upsert_signed_beacon_block,
  upsert_signed_beacon_block_with_payload, upsert_beacon_state, upsert_blocks, update_forked,
  update_proposed, check_signed_beacon_block, check_beacon_state, query_by_slot, upsert_known_gaps,
  upsert_known_gaps_error, check_kg_single_slot, check_entry, lock_entry, delete_entry,
  release_lock,
}

-- A row of eth_beacon.known_gaps or eth_beacon.historic_process; the second has no error columns,
-- and they stay empty.
pub record BatchRow : Type 0 where
  pub start_slot : ℕ
  pub end_slot : ℕ
  pub checked_out : Bool
  pub checked_out_by : Option String
  pub priority : ℕ
  pub reprocessing_error : String
  pub entry_error : String
  pub entry_process : String

-- `default_priority` is the default of the column in the schema, which is not the program's.
pub record Tables : Type 0 where
  pub slots : List DbSlots
  pub signed_block : List DbSignedBeaconBlock
  pub state : List DbBeaconState
  pub blocks : List (String × List ℕ)
  pub gaps : List BatchRow
  pub historic : List BatchRow
  pub default_priority : ℕ

-- ON CONFLICT (slot, block_root), and WHERE slot=$1 AND block_root=$2
abbrev pub has_root : ℕ → String → DbSlots → Bool
has_root slot root r = r.slot == slot && str_eq r.block_root root

-- WHERE slot=$1 AND block_root<>$2
abbrev pub has_other_root : ℕ → String → DbSlots → Bool
has_other_root slot root r = r.slot == slot && not (str_eq r.block_root root)

abbrev pub has_block_root : ℕ → String → DbSignedBeaconBlock → Bool
has_block_root slot root r = r.slot == slot && str_eq r.block_root root

abbrev pub has_state_root : ℕ → String → DbBeaconState → Bool
has_state_root slot root r = r.slot == slot && str_eq r.state_root root

abbrev pub has_key : String → String × List ℕ → Bool
has_key key r = str_eq r.0 key

-- WHERE start_slot=$1 AND end_slot=$2
abbrev pub has_range : ℕ → ℕ → BatchRow → Bool
has_range start end r = r.start_slot == start && r.end_slot == end

-- WHERE checked_out=false AND end_slot >= $1
abbrev pub is_open : ℕ → BatchRow → Bool
is_open minimum r = not r.checked_out && leb minimum r.end_slot

abbrev pub held_by : String → BatchRow → Bool
held_by node r = elim r.checked_out_by [ none ↦ false | some by ↦ str_eq by node ]

abbrev pub set_status : String → DbSlots → DbSlots
set_status status r = record r { status = status }

abbrev pub gap_row : ℕ → DbKnownGaps → BatchRow
gap_row priority g = record {
  start_slot = g.start_slot;
  end_slot = g.end_slot;
  checked_out = g.checked_out;
  checked_out_by = none;
  priority = priority;
  reprocessing_error = g.reprocessing_error;
  entry_error = g.entry_error;
  entry_process = g.entry_process;
}

abbrev pub batch_rows : BatchTable → Tables → List BatchRow
batch_rows historic_process t = t.historic
batch_rows known_gaps t = t.gaps

abbrev pub set_batch_rows : BatchTable → List BatchRow → Tables → Tables
set_batch_rows historic_process rows t = record t { historic = rows }
set_batch_rows known_gaps rows t = record t { gaps = rows }

-- An open entry of the range.
abbrev pub OpenEntry : ℕ → ℕ → ℕ → BatchRow → Type 0
OpenEntry minimum start end r =
    (is_open minimum r ≡ true) × ((r.start_slot ≡ start) × (r.end_slot ≡ end))

-- SELECT start_slot, end_slot ... ORDER BY priority ASC LIMIT 1: of the open rows one with the
-- least priority, the first of these.
unfoldable pub pick_entry : ℕ → List BatchRow → Option BatchRow
pick_entry minimum [] = none
pick_entry minimum (r ∷ rows) =
    let best = pick_entry minimum rows in
    if is_open minimum r
    then elim best [ none ↦ some r | some b ↦ if ltb b.priority r.priority then some b else some r ]
    else best

-- SELECT COALESCE(MAX(slot), 0) FROM eth_beacon.slots
unfoldable pub max_slot : List DbSlots → ℕ
max_slot [] = 0
max_slot (r ∷ rows) = let m = max_slot rows in if ltb m r.slot then r.slot else m

-- The number of rows that the command tag reports, and the tables after the statement.
unfoldable pub meaning : Stmt → Tables → ℕ × Tables
meaning (upsert_slots r) t =
    let (n, rows) = insert_new (has_root r.slot r.block_root) r t.slots in
    (n, record t { slots = rows })
meaning (upsert_signed_beacon_block b) t =
    let (n, rows) =
      insert_new (has_block_root b.slot b.block_root) (record b { execution_payload_header = none })
        t.signed_block in
    (n, record t { signed_block = rows })
meaning (upsert_signed_beacon_block_with_payload b h) t =
    let (n, rows) =
      insert_new (has_block_root b.slot b.block_root)
        (record b { execution_payload_header = some h }) t.signed_block in
    (n, record t { signed_block = rows })
meaning (upsert_beacon_state s) t =
    let (n, rows) = insert_new (has_state_root s.slot s.state_root) s t.state in
    (n, record t { state = rows })
meaning (upsert_blocks key bytes) t =
    let (n, rows) = insert_new (has_key key) (key, bytes) t.blocks in
    (n, record t { blocks = rows })
meaning (update_forked slot root) t =
    let (n, rows) = update_where (has_other_root slot root) (set_status "forked") t.slots in
    (n, record t { slots = rows })
meaning (update_proposed slot root) t =
    let (n, rows) = update_where (has_root slot root) (set_status "proposed") t.slots in
    (n, record t { slots = rows })
meaning (check_signed_beacon_block slot root) t =
    (count_where (has_block_root slot root) t.signed_block, t)
meaning (check_beacon_state slot root) t = (count_where (has_state_root slot root) t.state, t)
meaning (query_by_slot slot) t = (count_where (λ r. r.slot == slot) t.slots, t)
meaning (upsert_known_gaps g) t =
    let (n, rows) =
      insert_new (has_range g.start_slot g.end_slot) (gap_row t.default_priority g) t.gaps in
    (n, record t { gaps = rows })
meaning (upsert_known_gaps_error start end message) t =
    let (n, rows) =
      update_where (has_range start end)
        (λ r. record r { reprocessing_error = message; priority = r.priority + 1 }) t.gaps in
    (n, record t { gaps = rows })
meaning (check_kg_single_slot start end) t = (count_where (has_range start end) t.gaps, t)
meaning (check_entry table minimum) t = (count_where (is_open minimum) (batch_rows table t), t)
meaning (lock_entry table start end node) t =
    let (n, rows) =
      update_where (has_range start end)
        (λ r. record r { checked_out = true; checked_out_by = some node }) (batch_rows table t) in
    (n, set_batch_rows table rows t)
meaning (delete_entry table start end) t =
    let (n, rows) = delete_where (has_range start end) (batch_rows table t) in
    (n, set_batch_rows table rows t)
meaning (release_lock table node) t =
    let (n, rows) =
      update_where (held_by node) (λ r. record r { checked_out = false; checked_out_by = none })
        (batch_rows table t) in
    (n, set_batch_rows table rows t)
