-- ===== src/Batch/Range/Accounted.antt =====
-- No slot that the distributor of `handleBatchProcess` (capturehistoric.go) has sent is lost while the
-- others are processed.
use ipld_eth_beacon_indexer.Base.{
  ℕ, zero, suc, ◌+◌, ◌-◌, ◌≤◌, ◌<◌, ◌≡◌, ◌==◌, subst, List, [], ◌∷◌, some, inl, inr, Bool-cases,
  All, arith,
}
use ipld_eth_beacon_indexer.Word.{max_u64}
use ipld_eth_beacon_indexer.Sql.{BatchTable, Driver}
use ipld_eth_beacon_indexer.Sql.Tables.{Tables}
use ipld_eth_beacon_indexer.Sql.Laws.{IsPostgres, AbortsFailed}
use ipld_eth_beacon_indexer.Server.{Node}
use ipld_eth_beacon_indexer.Consensus.{Zrnt}
use ipld_eth_beacon_indexer.Action.{World, Action, Ensures}
use ipld_eth_beacon_indexer.Action.Rules.{Ensures-bind, Ensures-weaken, Ensures-map, Ensures-both}
use ipld_eth_beacon_indexer.Writer.KnownGaps.Table.{in_db}
use ipld_eth_beacon_indexer.Writer.Slot.{Ipfs}
use ipld_eth_beacon_indexer.ProcessSlot.{SlotProcessingDetails, Schedule}
use ipld_eth_beacon_indexer.Batch.{
  SlotsToProcess, Message, error_message, work, processed, distribute,
}
use ipld_eth_beacon_indexer.Batch.Distribute.{all_work, distribute-all_work}
use ipld_eth_beacon_indexer.Batch.Errors.{handle_processing_error-Covers}
use ipld_eth_beacon_indexer.Batch.Accounted.{AccountedUnlessIn, AccountedUnless, worker-Accounted}
use ipld_eth_beacon_indexer.Batch.Range.{run_message, run_messages}
use ipld_eth_beacon_indexer.Batch.Range.Lasting.{
  MessageIn, AllIn, mark-MessageIn, insert-MessageIn, error-MessageIn,
}
use ipld_eth_beacon_indexer.Batch.Range.Kept.{run_messages-Keeps}

-- The slot of a message is a uint64.
abbrev IsWord : Message → Type 0
IsWord (error_message m) = m.slot ≤ max_u64
IsWord (work slot) = slot ≤ max_u64
IsWord (processed slots) = Unit

all_work-IsWord :
    (n i : ℕ) (last : List Message)
    → i + n ≤ max_u64
    → All IsWord last
    → All IsWord (all_work n i last)
unfolding all_work
all_work-IsWord zero i last below h = h
all_work-IsWord (suc n) i last below h =
    (omega arith, all_work-IsWord n (i + 1) last (omega arith) h)

module _ {S : Type 0} (db : Driver S) (laws : IsPostgres db) (aborts : AbortsFailed db) (z : Zrnt)
    (node : Node) (ipfs : Ipfs) (table : BatchTable) (spd : SlotProcessingDetails)
    (schedule : ℕ → Schedule) where
  run_message-MessageIn :
      (m : Message) (w : World S)
      → IsWord m
      → Ensures
          (λ _ w'. MessageIn spd schedule m (in_db db laws w'))
          (λ _. Unit)
          (run_message z node ipfs db table spd schedule m w)
  unfolding run_message
  run_message-MessageIn (error_message m) w word =
      handle_processing_error-Covers db laws table m w word
  run_message-MessageIn (work slot) w word =
      worker-Accounted db laws z node ipfs table (schedule slot) slot spd w word
  run_message-MessageIn (processed slots) w word = tt

  -- Each message in turn, in any order: the rest keeps what the first has left.
  pub run_messages-AllIn :
      (messages : List Message) (w : World S)
      → All IsWord messages
      → Ensures
          (λ _ w'. AllIn spd schedule messages (in_db db laws w'))
          (λ _. Unit)
          (run_messages z node ipfs db table spd schedule messages w)
  unfolding run_messages
  run_messages-AllIn [] w words = tt
  run_messages-AllIn (m ∷ messages) w words =
      let first : World S → Type 0 = λ w'. MessageIn spd schedule m (in_db db laws w') in
      let others : World S → Type 0 = λ w'. AllIn spd schedule messages (in_db db laws w') in
      let rest : Action S (Unit {0}) = run_messages z node ipfs db table spd schedule messages in
      Ensures-bind (λ _. first) (λ _ w'. first w' × others w') (λ _. Unit)
        (run_message z node ipfs db table spd schedule m) (λ _. rest) w
        (run_message-MessageIn m w words.0)
        (λ _ w1 h.
          Ensures-weaken (λ _ w'. first w' × others w') (λ _ w'. first w' × others w')
            (λ w'. first w' × Unit) (λ _. Unit) (rest w1) (λ _ _ k. k) (λ _ _. tt)
            (Ensures-both (λ _. first) (λ _. others) first (λ _. Unit) (rest w1)
              (run_messages-Keeps db laws aborts (MessageIn spd schedule m)
                (mark-MessageIn spd schedule m) (insert-MessageIn spd schedule m)
                (error-MessageIn spd schedule m) z node ipfs table spd schedule messages w1 h)
              (run_messages-AllIn messages w1 words.1)))

  slot-In :
      (n i : ℕ) (last : List Message) (slot : ℕ) (t : Tables)
      → i ≤ slot
      → slot < i + n
      → AllIn spd schedule (all_work n i last) t
      → AccountedUnlessIn (schedule slot).start_done spd slot t
  unfolding all_work
  slot-In zero i last slot t low high h = absurd (omega arith)
  slot-In (suc n) i last slot t low high h = elim (Bool-cases (i == slot)) [
    | inl same ↦ subst (λ k. AccountedUnlessIn (schedule k).start_done spd k t) (ground arith) h.0
    | inr other ↦ slot-In n (i + 1) last slot t (ground arith) (omega arith) h.1
  ]

  -- A range whose end is below the greatest uint64 and not before its start is distributed, and after a
  -- worker and the goroutine of the errors have taken each slot of it, unless the process ends: every
  -- slot of the range has a committed row, or the check of the database is on and each of its objects
  -- that is processed has one, or a committed known gap holds it, or the context was done when its
  -- turn began.
  pub run_range-Accounted :
      (slots : SlotsToProcess) (w : World S)
      → slots.start_slot ≤ slots.end_slot
      → slots.end_slot < max_u64
      → (messages : List Message) × ((distribute slots ≡ some messages)
          × Ensures
              (λ _ w'.
                (slot : ℕ)
                → slots.start_slot ≤ slot
                → slot ≤ slots.end_slot
                → AccountedUnless db laws (schedule slot).start_done spd slot w')
              (λ _. Unit)
              (run_messages z node ipfs db table spd schedule messages w))
  run_range-Accounted slots w ordered small =
      let n : ℕ = slots.end_slot - slots.start_slot + 1 in
      let messages : List Message = all_work n slots.start_slot (processed slots ∷ []) in
      (
        messages,
        (
          distribute-all_work slots ordered small,
          Ensures-map (λ _ w'. AllIn spd schedule messages (in_db db laws w'))
              (λ _ w'.
                (slot : ℕ)
                → slots.start_slot ≤ slot
                → slot ≤ slots.end_slot
                → AccountedUnless db laws (schedule slot).start_done spd slot w')
              (λ _. Unit) (run_messages z node ipfs db table spd schedule messages w)
              (λ _ w' h slot low high.
                slot-In n slots.start_slot (processed slots ∷ []) slot (in_db db laws w') low
                  (omega arith) h)
              (run_messages-AllIn messages w
                (all_work-IsWord n slots.start_slot (processed slots ∷ []) (omega arith) (tt, tt))),
        ),
      )
