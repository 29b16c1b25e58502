-- ===== src/Batch/Range/Lasting.antt =====
-- What the distributor of `handleBatchProcess` (capturehistoric.go) has sent stays accounted for in
-- the committed tables.
use ipld_eth_beacon_indexer.Base.{ℕ, List, [], ◌∷◌, Bool, inl, inr}
use ipld_eth_beacon_indexer.Sql.Tables.{Tables, meaning}
use ipld_eth_beacon_indexer.Writer.KnownGaps.Table.{Covers}
use ipld_eth_beacon_indexer.ProcessSlot.{SlotProcessingDetails, Schedule}
use ipld_eth_beacon_indexer.ProcessSlot.Grown.{KeptByMarks, KeptByInserts}
use ipld_eth_beacon_indexer.ProcessSlot.Accounted.{AccountedIn}
use ipld_eth_beacon_indexer.ProcessSlot.Lasting.{
  mark-AccountedIn, insert-AccountedIn, mark-Covers, insert-Covers,
}
use ipld_eth_beacon_indexer.Batch.{Message, error_message, work, processed}
use ipld_eth_beacon_indexer.Batch.Errors.{KeptByErrors, error-Covers}
use ipld_eth_beacon_indexer.Batch.Accounted.{AccountedUnlessIn}

error-AccountedIn : (spd : SlotProcessingDetails) (slot : ℕ) → KeptByErrors (AccountedIn spd slot)
unfolding meaning
error-AccountedIn spd slot start end message t (inl row) = inl row
error-AccountedIn spd slot start end message t (inr (inl found)) = inr (inl found)
error-AccountedIn spd slot start end message t (inr (inr gap)) =
    inr (inr (error-Covers slot start end message t gap))

module _ (spd : SlotProcessingDetails) (slot : ℕ) (cancelled : Bool) where
  of_Accounted : (t : Tables) → AccountedIn spd slot t → AccountedUnlessIn cancelled spd slot t
  of_Accounted t (inl row) = inl row
  of_Accounted t (inr (inl found)) = inr (inl (inl found))
  of_Accounted t (inr (inr gap)) = inr (inr gap)

  -- What keeps a slot accounted for keeps it so unless the context was done.
  unless-map :
      (t t' : Tables)
      → (AccountedIn spd slot t → AccountedIn spd slot t')
      → AccountedUnlessIn cancelled spd slot t
      → AccountedUnlessIn cancelled spd slot t'
  unless-map t t' keep (inl row) = of_Accounted t' (keep (inl row))
  unless-map t t' keep (inr (inl (inl found))) = of_Accounted t' (keep (inr (inl found)))
  unless-map t t' keep (inr (inl (inr done))) = inr (inl (inr done))
  unless-map t t' keep (inr (inr gap)) = of_Accounted t' (keep (inr (inr gap)))

module _ (spd : SlotProcessingDetails) (schedule : ℕ → Schedule) where
  -- What was sent is accounted for in the tables.
  abbrev pub MessageIn : Message → Tables → Type 0
  MessageIn (error_message m) t = Covers m.slot t
  MessageIn (work slot) t = AccountedUnlessIn (schedule slot).start_done spd slot t
  MessageIn (processed slots) t = Unit

  abbrev pub AllIn : List Message → Tables → Type 0
  AllIn [] t = Unit
  AllIn (m ∷ messages) t = MessageIn m t × AllIn messages t

  pub mark-MessageIn : (m : Message) → KeptByMarks (MessageIn m)
  mark-MessageIn (error_message m) stmt t mark h = mark-Covers m.slot stmt t mark h
  mark-MessageIn (work slot) stmt t mark h =
      unless-map spd slot (schedule slot).start_done t _ (mark-AccountedIn spd slot stmt t mark) h
  mark-MessageIn (processed slots) stmt t mark h = tt

  pub insert-MessageIn : (m : Message) → KeptByInserts (MessageIn m)
  insert-MessageIn (error_message m) stmt t insert h = insert-Covers m.slot stmt t insert h
  insert-MessageIn (work slot) stmt t insert h =
      unless-map spd slot (schedule slot).start_done t _ (insert-AccountedIn spd slot stmt t insert)
        h
  insert-MessageIn (processed slots) stmt t insert h = tt

  pub error-MessageIn : (m : Message) → KeptByErrors (MessageIn m)
  error-MessageIn (error_message m) start end message t h =
      error-Covers m.slot start end message t h
  error-MessageIn (work slot) start end message t h =
      unless-map spd slot (schedule slot).start_done t _
        (error-AccountedIn spd slot start end message t) h
  error-MessageIn (processed slots) start end message t h = tt
