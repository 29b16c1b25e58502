-- ===== src/Head/Schedule/Starts.antt =====
-- What a turn of a head message starts (pkg/beaconclient/processevents.go), with the calls that have
-- returned staying accounted for.
use ipld_eth_beacon_indexer.Base.{
  ℕ, zero, suc, ◌+◌, ◌≤◌, ◌<◌, ◌≡◌, refl, subst, List, [], ◌∷◌, Option, none, some, All, ◌/=◌, ◌&&◌,
  arith,
}
use ipld_eth_beacon_indexer.Word.{max_u64, add64}
use ipld_eth_beacon_indexer.Slot.{NumError, parse_slot}
use ipld_eth_beacon_indexer.Slot.RoundTrip.{parse_slot-le}
use ipld_eth_beacon_indexer.Sql.{Driver}
use ipld_eth_beacon_indexer.Sql.Tables.{Tables}
use ipld_eth_beacon_indexer.Sql.Laws.{IsPostgres, AbortsFailed}
use ipld_eth_beacon_indexer.Action.{World, pure, Ensures}
use ipld_eth_beacon_indexer.Action.Rules.{Ensures-bind, Ensures-if, Ensures-weaken}
use ipld_eth_beacon_indexer.Writer.KnownGaps.{write_known_gaps}
use ipld_eth_beacon_indexer.Writer.KnownGaps.Table.{in_db}
use ipld_eth_beacon_indexer.ProcessSlot.Grown.{KeptByMarks, KeptByInserts}
use ipld_eth_beacon_indexer.ProcessSlot.Accounted.{AccountedIn}
use ipld_eth_beacon_indexer.ProcessSlot.Lasting.{mark-AccountedIn, insert-AccountedIn}
use ipld_eth_beacon_indexer.ProcessSlot.Undisturbed.{write_known_gaps-Keeps}
use ipld_eth_beacon_indexer.Batch.Pipeline.Account.{times}
use ipld_eth_beacon_indexer.Head.{
  Head, Tracking, Settings, Spawned, spawn, write_bad_heads, parsed_head,
}
use ipld_eth_beacon_indexer.Head.Sequence.{good_slots, call_slots}
use ipld_eth_beacon_indexer.Head.Schedule.{Turn, message, Progress, take_at, added, messages}

-- The slots of the calls are accounted for in the tables.
abbrev pub AllIn : List Spawned → Tables → Type 0
AllIn [] t = Unit
AllIn (call ∷ calls) t = AccountedIn call.details call.slot t × AllIn calls t

pub mark-AllIn : (calls : List Spawned) → KeptByMarks (AllIn calls)
mark-AllIn [] stmt t mark h = tt
mark-AllIn (call ∷ calls) stmt t mark h =
    (mark-AccountedIn call.details call.slot stmt t mark h.0, mark-AllIn calls stmt t mark h.1)

pub insert-AllIn : (calls : List Spawned) → KeptByInserts (AllIn calls)
insert-AllIn [] stmt t insert h = tt
insert-AllIn (call ∷ calls) stmt t insert h = (
  insert-AccountedIn call.details call.slot stmt t insert h.0,
  insert-AllIn calls stmt t insert h.1,
)

-- A call with what its accounting needs.
abbrev pub Sound : Spawned → Type 0
Sound call = (0 < call.details.known_gap_table_increment) × (call.slot ≤ max_u64)

-- How often a slot is in the calls that have started.
abbrev pub started_times : ℕ → Progress → ℕ
started_times slot p = times slot (call_slots p.pending) + times slot (call_slots p.finished)

-- The call that was taken, and the rest.
abbrev pub Takes : List Spawned → Option (Spawned × List Spawned) → Type 0
Takes calls none = Unit
Takes calls (some (call, rest)) =
    (All Sound calls → Sound call × All Sound rest)
    × ((slot : ℕ) → times slot (call_slots calls) ≡ times slot (call_slots (call ∷ rest)))

pub take_at-Takes : (i : ℕ) (calls : List Spawned) → Takes calls (take_at i calls)
take_at-Takes i [] = tt
take_at-Takes zero (call ∷ calls) = (λ h. h, λ slot. refl)
take_at-Takes (suc i) (call ∷ calls) = later (take_at i calls) (take_at-Takes i calls)
  where
    later :
        (o : Option (Spawned × List Spawned))
        → Takes calls o
        → Takes
            (call ∷ calls)
            (elim o [ none ↦ none | some (taken, rest) ↦ some (taken, call ∷ rest) ])
    later none h = tt
    later (some (taken, rest)) h =
        (λ sound. ((h.0 sound.1).0, (sound.0, (h.0 sound.1).1)), λ slot. omega (arith, h.1 slot))

-- What a message starts.
abbrev pub Starts : Settings → ℕ × Option NumError → Option Spawned → Type 0
Starts bc (slot, some e) none = Unit
Starts bc (slot, some e) (some call) = ⊥
Starts bc (slot, none) none = ⊥
Starts bc (slot, none) (some call) =
    (call.slot ≡ slot) × (call.details.known_gap_table_increment ≡ bc.known_gap_table_increment)

module _ {S : Type 0} (db : Driver S) (laws : IsPostgres db) (aborts : AbortsFailed db)
    (bc : Settings) (calls : List Spawned) where
  abbrev pub Kept : World S → Type 0
  Kept w = AllIn calls (in_db db laws w)

  pub parsed_head-Starts :
      (t : Tracking) (head : Head) (parsed : ℕ × Option NumError) (w : World S)
      → Kept w
      → Ensures
          (λ r w'. Starts bc parsed r.1 × Kept w')
          (λ _. Unit)
          (parsed_head db bc t head parsed w)
  parsed_head-Starts t head (slot, some e) w h = (tt, h)
  parsed_head-Starts t head (slot, none) w h =
      Ensures-bind (λ _. Kept) (λ r w'. Starts bc (slot, none) r.1 × Kept w') (λ _. Unit)
        (write_bad_heads db bc t slot) (λ cleared. pure (spawn bc cleared slot head)) w
        (Ensures-if (λ _. Kept) (λ _. Unit) ((t.error_slots /= 0) && (t.previous_slot /= 0)) _
          (pure t) w
          (Ensures-bind (λ _. Kept) (λ _. Kept) (λ _. Unit)
            (write_known_gaps db bc.known_gap_table_increment (add64 t.previous_slot 1) slot
              (some "Bad Head Messages") "headProcessing")
            (λ _. pure (record t { error_slots = 0 })) w
            (Ensures-weaken (λ _. Kept) (λ _. Kept) Kept (λ _. Unit) _ (λ _ _ kept. kept)
              (λ _ _. tt)
              (write_known_gaps-Keeps db laws aborts (AllIn calls) (mark-AllIn calls)
                bc.known_gap_table_increment (add64 t.previous_slot 1) slot
                (some "Bad Head Messages") "headProcessing" w h))
            (λ _ _ kept. kept))
          h)
        (λ cleared w' kept. ((refl, refl), kept))

-- The slots that a turn has a call started for.
abbrev pub turn_slots : Turn → List ℕ
turn_slots turn = good_slots (messages (turn ∷ []))

pub added-times :
    (bc : Settings) (slot : ℕ) (head : Head) (parsed : ℕ × Option NumError) (call : Option Spawned)
    (calls : List Spawned)
    → parse_slot head.slot ≡ parsed
    → Starts bc parsed call
    → times slot (call_slots (added call calls))
      ≡ times slot (call_slots calls) + times slot (turn_slots (message head))
added-times bc slot head (n, some e) none calls same h = rw same (omega arith)
added-times bc slot head (n, some e) (some call) calls same h = absurd h
added-times bc slot head (n, none) none calls same h = absurd h
added-times bc slot head (n, none) (some call) calls same h = rw (same, h.0) (omega arith)

pub added-Sound :
    (bc : Settings) (head : Head) (parsed : ℕ × Option NumError) (call : Option Spawned)
    (calls : List Spawned)
    → 0 < bc.known_gap_table_increment
    → parse_slot head.slot ≡ parsed
    → Starts bc parsed call
    → All Sound calls
    → All Sound (added call calls)
added-Sound bc head (n, some e) none calls positive same h sound = sound
added-Sound bc head (n, some e) (some call) calls positive same h sound = absurd h
added-Sound bc head (n, none) none calls positive same h sound = absurd h
added-Sound bc head (n, none) (some call) calls positive same h sound =
    let word : n ≤ max_u64 =
      subst (λ (p : ℕ × Option NumError). p.0 ≤ max_u64) same (parse_slot-le head.slot) in
    ((rw h.1 positive, rw h.0 word), sound)
