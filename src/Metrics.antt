-- ===== src/Metrics.antt =====
-- The counters of pkg/beaconclient/metrics.go. `atomic.AddUint64` wraps at 2^64.
use ipld_eth_beacon_indexer.Base.{ℕ}
use ipld_eth_beacon_indexer.Word.{add64}

pub record Metrics : Type 0 where
  pub slot_inserts : ℕ
  pub reorg_inserts : ℕ
  pub known_gaps_inserts : ℕ
  pub known_gaps_processed : ℕ
  pub known_gaps_reprocess_error : ℕ
  pub historic_slot_processed : ℕ
  pub head_error : ℕ
  pub head_reorg_error : ℕ

abbrev pub no_metrics : Metrics
no_metrics = record {
  slot_inserts = 0;
  reorg_inserts = 0;
  known_gaps_inserts = 0;
  known_gaps_processed = 0;
  known_gaps_reprocess_error = 0;
  historic_slot_processed = 0;
  head_error = 0;
  head_reorg_error = 0;
}

abbrev pub increment_slot_inserts : ℕ → Metrics → Metrics
increment_slot_inserts inc m = record m { slot_inserts = add64 m.slot_inserts inc }

abbrev pub increment_reorgs_insert : ℕ → Metrics → Metrics
increment_reorgs_insert inc m = record m { reorg_inserts = add64 m.reorg_inserts inc }

abbrev pub increment_known_gaps_inserts : ℕ → Metrics → Metrics
increment_known_gaps_inserts inc m = record m {
  known_gaps_inserts = add64 m.known_gaps_inserts inc;
}

abbrev pub increment_known_gaps_processed : ℕ → Metrics → Metrics
increment_known_gaps_processed inc m = record m {
  known_gaps_processed = add64 m.known_gaps_processed inc;
}

abbrev pub increment_head_error : ℕ → Metrics → Metrics
increment_head_error inc m = record m { head_error = add64 m.head_error inc }

abbrev pub increment_reorg_error : ℕ → Metrics → Metrics
increment_reorg_error inc m = record m { head_reorg_error = add64 m.head_reorg_error inc }

abbrev pub increment_known_gaps_reprocess_error : ℕ → Metrics → Metrics
increment_known_gaps_reprocess_error inc m = record m {
  known_gaps_reprocess_error = add64 m.known_gaps_reprocess_error inc;
}

abbrev pub increment_historic_slot_processed : ℕ → Metrics → Metrics
increment_historic_slot_processed inc m = record m {
  historic_slot_processed = add64 m.historic_slot_processed inc;
}
