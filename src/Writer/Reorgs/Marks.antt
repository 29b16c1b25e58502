-- ===== src/Writer/Reorgs/Marks.antt =====
-- The two updates of a reorg (databasewrite.go) as maps over the rows of eth_beacon.slots.
use ipld_eth_beacon_indexer.Base.{
  ℕ, ◌≡◌, refl, List, [], ◌∷◌, String, arith, map, ◌==◌, str_eq, if◌then◌else◌,
}
use ipld_eth_beacon_indexer.Models.{DbSlots}
use ipld_eth_beacon_indexer.Sql.{update_forked, update_proposed}
use ipld_eth_beacon_indexer.Sql.Tables.{Tables, has_root, has_other_root, set_status, meaning}
use ipld_eth_beacon_indexer.Sql.Tables.Rows.{count_where, update_where-rows, update_where-count}

-- What a reorg makes of a row: of the rows of the slot, the one with the root is proposed and every
-- other one forked.
abbrev pub resolve : ℕ → String → DbSlots → DbSlots
resolve slot root r =
    if r.slot == slot
    then if str_eq r.block_root root then set_status "proposed" r else set_status "forked" r
    else r

abbrev pub mark_forked : ℕ → String → DbSlots → DbSlots
mark_forked slot root r = if has_other_root slot root r then set_status "forked" r else r

abbrev pub mark_proposed : ℕ → String → DbSlots → DbSlots
mark_proposed slot root r = if has_root slot root r then set_status "proposed" r else r

pub marks-resolve :
    (slot : ℕ) (root : String) (rows : List DbSlots)
    → map (mark_proposed slot root) (map (mark_forked slot root) rows)
      ≡ map (resolve slot root) rows
marks-resolve slot root [] = refl
marks-resolve slot root (r ∷ rows) = ground (arith, marks-resolve slot root rows)

pub forked-slots :
    (slot : ℕ) (root : String) (t : Tables)
    → (meaning (update_forked slot root) t).1.slots ≡ map (mark_forked slot root) t.slots
unfolding meaning
forked-slots slot root t =
    update_where-rows (has_other_root slot root) (set_status "forked") t.slots

pub proposed-slots :
    (slot : ℕ) (root : String) (t : Tables)
    → (meaning (update_proposed slot root) t).1.slots ≡ map (mark_proposed slot root) t.slots
unfolding meaning
proposed-slots slot root t = update_where-rows (has_root slot root) (set_status "proposed") t.slots

pub proposed-count :
    (slot : ℕ) (root : String) (t : Tables)
    → (meaning (update_proposed slot root) t).0 ≡ count_where (has_root slot root) t.slots
unfolding meaning
proposed-count slot root t = update_where-count (has_root slot root) (set_status "proposed") t.slots

pub forked-gaps :
    (slot : ℕ) (root : String) (t : Tables) → (meaning (update_forked slot root) t).1.gaps ≡ t.gaps
unfolding meaning
forked-gaps slot root t = refl

pub proposed-gaps :
    (slot : ℕ) (root : String) (t : Tables)
    → (meaning (update_proposed slot root) t).1.gaps ≡ t.gaps
unfolding meaning
proposed-gaps slot root t = refl

pub mark_forked-has_root :
    (slot : ℕ) (root : String) (r : DbSlots)
    → has_root slot root (mark_forked slot root r) ≡ has_root slot root r
mark_forked-has_root slot root r = ground arith
