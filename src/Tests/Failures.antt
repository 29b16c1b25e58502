-- ===== src/Tests/Failures.antt =====
-- A server whose transactions fail.
use ipld_eth_beacon_indexer.Base.{◌≡◌, inl, refl, some}
use ipld_eth_beacon_indexer.Action.{fatal}
use ipld_eth_beacon_indexer.Sql.{Driver, failed}
use ipld_eth_beacon_indexer.Sql.Laws.{AbortsFailed}
use ipld_eth_beacon_indexer.Sql.Memory.{Server, memory}
use ipld_eth_beacon_indexer.Writer.Reorgs.{transact_reorgs}
use ipld_eth_beacon_indexer.Writer.Reorgs.Aborted.{transact_reorgs-fatal}
use ipld_eth_beacon_indexer.Tests.Toy.{forked_world}

abbrev broken : Driver Server
broken = record memory {
  tx_exec = λ stmt s. (failed "no space left on device", s);
  commit = λ s. (some "commit unexpectedly resulted in rollback", s);
}

abbrev broken-AbortsFailed : AbortsFailed broken
broken-AbortsFailed = record {
  Aborted = λ s. Unit;
  failure_aborts = λ stmt s e h. tt;
  aborted_refuses = λ stmt s h. ("no space left on device", refl);
  aborted_commit = λ s h. ("commit unexpectedly resulted in rollback", refl);
}

transact_reorgs-fatal_example : (transact_reorgs broken 5 "0xbb" forked_world).0 ≡ fatal
transact_reorgs-fatal_example =
    transact_reorgs-fatal broken broken-AbortsFailed 5 "0xbb" forked_world
      (inl ("no space left on device", refl))
