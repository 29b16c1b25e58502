-- ===== src/Tests/Gaps.antt =====
-- Known gaps: databasewrite.go on the server in memory.
use ipld_eth_beacon_indexer.Base.{ℕ, ◌≡◌, refl, [], ◌∷◌, map, none, arith, inl}
use ipld_eth_beacon_indexer.Metrics.{no_metrics}
use ipld_eth_beacon_indexer.Action.{World, Ensures, Returns}
use ipld_eth_beacon_indexer.Sql.Tables.{BatchRow, max_slot, meaning}
use ipld_eth_beacon_indexer.Sql.Tables.Rows.{insert_new, any}
use ipld_eth_beacon_indexer.Sql.Memory.{
  Server, no_tables, serving, memory, memory-IsPostgres, memory-IsAvailable,
}
use ipld_eth_beacon_indexer.Writer.KnownGaps.{
  transact_known_gaps, write_known_gaps, write_start_up_gaps, upsert_known_gap, insert_chunks,
  chunk_count,
}
use ipld_eth_beacon_indexer.Writer.KnownGaps.Ranges.{gap_ranges, ranges_from, IsRange}
use ipld_eth_beacon_indexer.Writer.KnownGaps.Table.{Covers, CoversAll, in_db, Uncommitted}
use ipld_eth_beacon_indexer.Writer.KnownGaps.Commit.{
  write_known_gaps-Covers, write_start_up_gaps-Covers,
}
use ipld_eth_beacon_indexer.Writer.KnownGaps.Total.{write_known_gaps-CoversAll}
use ipld_eth_beacon_indexer.Word.{rounds}

abbrev fresh : World Server
fresh = record { store = serving no_tables; metrics = no_metrics }

abbrev range_of : BatchRow → ℕ × ℕ
range_of r = (r.start_slot, r.end_slot)

-- The entries of 1-101 in steps of ten overlap at their ends.
ranges_101 :
    gap_ranges 10 1 101
    ≡ (1, 11)
      ∷ (11, 21)
      ∷ (21, 31)
      ∷ (31, 41)
      ∷ (41, 51)
      ∷ (51, 61)
      ∷ (61, 71)
      ∷ (71, 81)
      ∷ (81, 91)
      ∷ (91, 101)
      ∷ []
unfolding gap_ranges ranges_from chunk_count rounds
ranges_101 = refl

-- The same by the whole call.
written_ranges :
    map range_of (write_known_gaps memory 10 1 25 none "startup" fresh).1.store.committed.gaps
    ≡ (1, 11) ∷ (11, 21) ∷ (21, 25) ∷ []
unfolding write_known_gaps transact_known_gaps insert_chunks upsert_known_gap chunk_count rounds
    meaning insert_new any
written_ranges = refl

small-IsRange : IsRange 10 1 25
small-IsRange = record {
  positive = omega arith;
  ordered = omega arith;
  word = omega arith;
  narrow = omega arith;
}

write_known_gaps-Covers_example :
    Ensures
      (λ _ w'. Covers 17 (in_db memory memory-IsPostgres w'))
      (Uncommitted memory memory-IsPostgres no_tables)
      (write_known_gaps memory 10 1 25 none "startup" fresh)
write_known_gaps-Covers_example =
    write_known_gaps-Covers memory memory-IsPostgres no_tables 10 1 25 17 none "startup" fresh
      small-IsRange refl (inl (omega arith, omega arith))

write_start_up_gaps-Covers_example :
    Ensures
      (λ _ w'. Covers 17 (in_db memory memory-IsPostgres w'))
      (Uncommitted memory memory-IsPostgres no_tables)
      (write_start_up_gaps memory 10 30 fresh)
unfolding max_slot
write_start_up_gaps-Covers_example =
    write_start_up_gaps-Covers memory memory-IsPostgres no_tables 10 30 17 fresh (omega arith)
      (omega arith) refl (omega arith) (omega arith)

write_known_gaps-CoversAll_example :
    Returns
      (λ _ w'.
        CoversAll 1 25 (in_db memory memory-IsPostgres w')
        × ((slot : ℕ) → Covers slot no_tables → Covers slot (in_db memory memory-IsPostgres w')))
      (write_known_gaps memory 10 1 25 none "startup" fresh)
write_known_gaps-CoversAll_example =
    write_known_gaps-CoversAll memory memory-IsPostgres memory-IsAvailable no_tables 10 1 25 none
      "startup" fresh small-IsRange refl
