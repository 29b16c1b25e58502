-- ===== src/Writer/Kept.antt =====
-- What the known gaps and the reorgs of databasewrite.go that stand in a transaction keep of the
-- server, for any arguments and whether they return or end the process: all that their statements
-- keep.
use ipld_eth_beacon_indexer.Base.{
  ℕ, zero, suc, ◌+◌, String, Option, none, some, leb, ltb, ◌==◌, if◌then◌else◌,
}
use ipld_eth_beacon_indexer.Word.{sub64, rounds}
use ipld_eth_beacon_indexer.Models.{DbKnownGaps}
use ipld_eth_beacon_indexer.Metrics.{increment_reorgs_insert}
use ipld_eth_beacon_indexer.Sql.{
  Error, Driver, Stmt, Reply, failed, uncounted, affected, update_forked, update_proposed,
  upsert_known_gaps,
}
use ipld_eth_beacon_indexer.Action.{World, Action, pure, panics, call, count}
use ipld_eth_beacon_indexer.Action.Keeps.{Keeps, Keeps-bind, Keeps-if}
use ipld_eth_beacon_indexer.Writer.KnownGaps.{
  gap_model, chunk_start, chunk_end, chunk_count, error_message, upsert_reply, upsert_known_gap,
  insert_chunks, transact_known_gaps,
}
use ipld_eth_beacon_indexer.Writer.Reorgs.{
  write_reorg_gap, gap_on_error, updated_rows, check_proposed_count, transact_reorgs,
}

-- The statements that they send.
abbrev pub IsMark : Stmt → Type 0
IsMark (upsert_known_gaps g) = Unit
IsMark (update_forked slot root) = Unit
IsMark (update_proposed slot root) = Unit
IsMark _ = ⊥

module _ {S : Type 0} (db : Driver S) (J : S → Type 0)
    (exec : (stmt : Stmt) (s : S) → IsMark stmt → J s → J (db.tx_exec stmt s).1) where
  abbrev pub Held : World S → Type 0
  Held w = J w.store

  abbrev Kept : {A : Type 0} → Action S A → Type 0
  Kept m = Keeps Held m

  tx_exec-Kept : (stmt : Stmt) → IsMark stmt → Kept (call (db.tx_exec stmt))
  tx_exec-Kept stmt mark w h = exec stmt w.store mark h

  upsert_reply-Kept : (r : Reply) → Kept (upsert_reply db r)
  upsert_reply-Kept (failed e) w same = same
  upsert_reply-Kept (uncounted e) w same = same
  upsert_reply-Kept (affected n) w same = same

  upsert_known_gap-Kept : (g : DbKnownGaps) → Kept (upsert_known_gap db g)
  unfolding upsert_known_gap
  upsert_known_gap-Kept g =
      Keeps-bind (Held) (call (db.tx_exec (upsert_known_gaps g))) (upsert_reply db)
        (tx_exec-Kept (upsert_known_gaps g) tt) upsert_reply-Kept

  insert_chunks-Kept :
      (increment start end chunks : ℕ) (message process : String) (left i : ℕ)
      → Kept (insert_chunks db increment start end chunks message process left i)
  unfolding insert_chunks
  insert_chunks-Kept increment start end chunks message process zero i = λ w same. same
  insert_chunks-Kept increment start end chunks message process (suc left) i =
      let g : DbKnownGaps =
        gap_model message process (chunk_start increment start i)
          (chunk_end increment start end chunks i) in
      Keeps-bind (Held) (upsert_known_gap db g)
        (λ _. insert_chunks db increment start end chunks message process left (i + 1))
        (upsert_known_gap-Kept g)
        λ _. insert_chunks-Kept increment start end chunks message process left (i + 1)

  pub transact_known_gaps-Kept :
      (increment start end : ℕ) (error : Option Error) (process : String)
      → Kept (transact_known_gaps db increment start end error process)
  unfolding transact_known_gaps
  transact_known_gaps-Kept increment start end error process =
      let one : Action S (Unit {0}) =
        upsert_known_gap db (gap_model (error_message error) process start end) in
      let chunks : ℕ = chunk_count increment start end in
      let many : Action S (Unit {0}) =
        insert_chunks db increment start end chunks (error_message error) process (rounds chunks)
          0 in
      Keeps-if (Held) (leb (sub64 end start) increment) one
        (if increment == 0 then panics else many)
        (upsert_known_gap-Kept (gap_model (error_message error) process start end))
        (Keeps-if (Held) (increment == 0) panics many (λ w same. same)
          (insert_chunks-Kept increment start end chunks (error_message error) process
            (rounds chunks) 0))

  updated_rows-Kept : (stmt : Stmt) → IsMark stmt → Kept (updated_rows db stmt)
  unfolding updated_rows
  updated_rows-Kept stmt mark = tx_exec-Kept stmt mark

  gap_on_error-Kept : (slot : ℕ) (e : Option Error) → Kept (gap_on_error db slot e)
  gap_on_error-Kept slot none = λ w same. same
  gap_on_error-Kept slot (some e) = transact_known_gaps-Kept 1 slot slot (some e) "reorg"

  check_proposed_count-Kept : (slot n : ℕ) → Kept (check_proposed_count db slot n)
  unfolding check_proposed_count
  check_proposed_count-Kept slot n =
      let gap : String → Action S (Unit {0}) = λ message. write_reorg_gap db slot (some message) in
      let isolated : (message : String) → Kept (gap message) =
        λ message. transact_known_gaps-Kept 1 slot slot (some message) "reorg" in
      Keeps-if (Held) (n == 1) (pure tt) _ (λ w same. same)
        (Keeps-if (Held) (ltb 1 n) (gap _) (gap _) (isolated _) (isolated _))

  pub transact_reorgs-Kept : (slot : ℕ) (root : String) → Kept (transact_reorgs db slot root)
  unfolding transact_reorgs
  transact_reorgs-Kept slot root =
      let I : World S → Type 0 = Held in
      Keeps-bind I (updated_rows db (update_forked slot root)) _
        (updated_rows-Kept (update_forked slot root) tt)
        λ forked.
          Keeps-bind I (gap_on_error db slot forked.1) _ (gap_on_error-Kept slot forked.1) λ _.
            Keeps-bind I (updated_rows db (update_proposed slot root)) _
              (updated_rows-Kept (update_proposed slot root) tt)
              λ proposed.
                Keeps-bind I (gap_on_error db slot proposed.1) _ (gap_on_error-Kept slot proposed.1)
                  λ _.
                    Keeps-bind I (check_proposed_count db slot proposed.0)
                      (λ _. count (increment_reorgs_insert 1))
                      (check_proposed_count-Kept slot proposed.0) (λ _ w' same. same)
