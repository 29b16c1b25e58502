-- ===== src/Head/Sequence.antt =====
-- The loop of `handleHead` (pkg/beaconclient/processevents.go) over several messages.
use ipld_eth_beacon_indexer.Base.{
  ℕ, ◌≤◌, ◌≡◌, refl, sym, All, ◌∙◌, ap, subst, String, List, [], ◌∷◌, Option, none, some, Bool,
  true, false, ◌==◌, ◌/=◌, ◌&&◌, str_eq, if◌then◌else◌,
}
use ipld_eth_beacon_indexer.Word.{add64, max_u64}
use ipld_eth_beacon_indexer.Slot.{NumError, parse_slot}
use ipld_eth_beacon_indexer.Slot.RoundTrip.{parse_slot-le}
use ipld_eth_beacon_indexer.Sql.{Driver}
use ipld_eth_beacon_indexer.Action.{World, Action, ◌>>=◌, pure, Ensures}
use ipld_eth_beacon_indexer.Action.Rules.{Ensures-Unit, Ensures-bind, Ensures-map, Ensures-if}
use ipld_eth_beacon_indexer.Writer.KnownGaps.{write_known_gaps}
use ipld_eth_beacon_indexer.Head.{
  Head, Tracking, Settings, Spawned, at_start, spawn, write_bad_heads, parsed_head, handle_head,
}

abbrev pub with_spawned : Option Spawned → List Spawned → List Spawned
with_spawned none calls = calls
with_spawned (some call) calls = call ∷ calls

-- Each call that is started has the slot and the root of the call before as the previous ones.
abbrev pub Linked : (slot : ℕ) → (root : String) → List Spawned → Type 0
Linked slot root [] = Unit
Linked slot root (call ∷ calls) =
    (call.details.previous_slot ≡ slot)
    × ((call.details.previous_block_root ≡ root) × Linked call.slot call.block calls)

Linked-subst :
    {slot slot' : ℕ} {root root' : String} (calls : List Spawned)
    → slot ≡ slot'
    → root ≡ root'
    → Linked slot root calls
    → Linked slot' root' calls
Linked-subst {slot} {slot'} {root} {root'} calls p q h =
    subst (λ r. Linked slot' r calls) q (subst (λ s. Linked s root calls) p h)

-- The slots of the messages whose slot parses.
abbrev pub with_parsed : ℕ × Option NumError → List ℕ → List ℕ
with_parsed (slot, some e) slots = slots
with_parsed (slot, none) slots = slot ∷ slots

abbrev pub good_slots : List Head → List ℕ
good_slots [] = []
good_slots (head ∷ heads) = with_parsed (parse_slot head.slot) (good_slots heads)

abbrev pub call_slots : List Spawned → List ℕ
call_slots [] = []
call_slots (call ∷ calls) = call.slot ∷ call_slots calls

module _ {S : Type 0} (db : Driver S) (bc : Settings) where
  -- The messages in order, with the calls of processHeadSlot that are started.
  unfoldable pub handle_heads : List Head → Tracking → Action S (Tracking × List Spawned)
  handle_heads [] t = pure (t, [])
  handle_heads (head ∷ heads) t = do
    (after, call) ← handle_head db bc t head
    (last, calls) ← handle_heads heads after
    pure (last, with_spawned call calls)

-- What one message leaves: a bad one is counted, a good one starts a call that has the previous slot
-- and root, and is the previous one for the next message.
abbrev AfterHead : ℕ × Option NumError → Tracking → Head → Tracking × Option Spawned → Type 0
AfterHead (slot, some e) t head (after, none) =
    (after.previous_slot ≡ t.previous_slot) × (after.previous_block_root ≡ t.previous_block_root)
AfterHead (slot, some e) t head (after, some call) = ⊥
AfterHead (slot, none) t head (after, none) = ⊥
AfterHead (slot, none) t head (after, some call) =
    (call.slot ≡ slot)
    × (call.details.previous_slot ≡ t.previous_slot)
    × ((call.details.previous_block_root ≡ t.previous_block_root)
        × ((after.previous_slot ≡ call.slot) × (after.previous_block_root ≡ call.block)))

-- What the comparison with the previous slot reads.
abbrev SamePrevious : Tracking → Tracking → Type 0
SamePrevious t after =
    (after.previous_slot ≡ t.previous_slot) × (after.previous_block_root ≡ t.previous_block_root)

at_start_if-SamePrevious :
    (t : Tracking) (slot : ℕ) (b : Bool)
    → SamePrevious t (if b then record t { starting_slot = slot } else t)
at_start_if-SamePrevious t slot true = (refl, refl)
at_start_if-SamePrevious t slot false = (refl, refl)

at_start-SamePrevious : (t : Tracking) (slot : ℕ) → SamePrevious t (at_start t slot)
at_start-SamePrevious t slot =
    at_start_if-SamePrevious t slot (t.previous_slot == 0 && str_eq t.previous_block_root "")

cons-eq : {a b : ℕ} {s t : List ℕ} → a ≡ b → s ≡ t → a ∷ s ≡ b ∷ t
cons-eq {a} {b} {s} {t} p q = ap (λ x. x ∷ s) p ∙ ap (λ xs. b ∷ xs) q

module _ {S : Type 0} (db : Driver S) (bc : Settings) where
  write_bad_heads-SamePrevious :
      (t : Tracking) (slot : ℕ) (w : World S)
      → Ensures (λ after _. SamePrevious t after) (λ _. Unit) (write_bad_heads db bc t slot w)
  write_bad_heads-SamePrevious t slot w =
      Ensures-if (λ after _. SamePrevious t after) (λ _. Unit)
        ((t.error_slots /= 0) && (t.previous_slot /= 0)) _ (pure t) w
        (Ensures-bind (λ _ _. Unit) (λ after _. SamePrevious t after) (λ _. Unit)
          (write_known_gaps db bc.known_gap_table_increment (add64 t.previous_slot 1) slot
            (some "Bad Head Messages") "headProcessing")
          (λ _. pure (record t { error_slots = 0 })) w (Ensures-Unit _) (λ _ _ _. (refl, refl)))
        (refl, refl)

  spawn-AfterHead :
      (t cleared : Tracking) (slot : ℕ) (head : Head)
      → SamePrevious t cleared
      → AfterHead (slot, none) t head (spawn bc cleared slot head)
  spawn-AfterHead t cleared slot head same =
      let started : SamePrevious cleared (at_start cleared slot) =
        at_start-SamePrevious cleared slot in
      (refl, started.0 ∙ same.0, (started.1 ∙ same.1, (refl, refl)))

  parsed_head-AfterHead :
      (t : Tracking) (head : Head) (parsed : ℕ × Option NumError) (w : World S)
      → Ensures (λ r _. AfterHead parsed t head r) (λ _. Unit) (parsed_head db bc t head parsed w)
  parsed_head-AfterHead t head (slot, some e) w = (refl, refl)
  parsed_head-AfterHead t head (slot, none) w =
      Ensures-bind (λ after _. SamePrevious t after) (λ r _. AfterHead (slot, none) t head r)
        (λ _. Unit) (write_bad_heads db bc t slot) (λ cleared. pure (spawn bc cleared slot head)) w
        (write_bad_heads-SamePrevious t slot w)
        (λ cleared w' same. spawn-AfterHead t cleared slot head same)

  abbrev Chain : List Head → Tracking → Tracking × List Spawned → Type 0
  Chain heads t r =
      Linked t.previous_slot t.previous_block_root r.1 × (call_slots r.1 ≡ good_slots heads)

  with_spawned-Chain :
      (t after last : Tracking) (head : Head) (heads : List Head) (call : Option Spawned)
      → (calls : List Spawned) (parsed : ℕ × Option NumError) → parse_slot head.slot ≡ parsed
      → AfterHead parsed t head (after, call)
      → Chain heads after (last, calls)
      → Chain (head ∷ heads) t (last, with_spawned call calls)
  with_spawned-Chain t after last head heads none calls (slot, some e) parsed step rest = (
    Linked-subst calls step.0 step.1 rest.0,
    rest.1 ∙ sym (ap (λ p. with_parsed p (good_slots heads)) parsed),
  )
  with_spawned-Chain t after last head heads (some call) calls (slot, some e) parsed step rest =
      absurd step
  with_spawned-Chain t after last head heads none calls (slot, none) parsed step rest = absurd step
  with_spawned-Chain t after last head heads (some call) calls (slot, none) parsed step rest = (
    (step.1, (step.2.0, Linked-subst calls step.2.1.0 step.2.1.1 rest.0)),
    cons-eq step.0 rest.1 ∙ sym (ap (λ p. with_parsed p (good_slots heads)) parsed),
  )

  -- Over any messages, unless the process ends: the calls of processHeadSlot that are started are for
  -- the slots of the messages whose slot parses, in order, and each has the slot and the root of the call before it
  -- as the previous ones, the first those that the loop began with.
  pub handle_heads-Linked :
      (heads : List Head) (t : Tracking) (w : World S)
      → Ensures
          (λ r _.
            Linked t.previous_slot t.previous_block_root r.1 × (call_slots r.1 ≡ good_slots heads))
          (λ _. Unit)
          (handle_heads db bc heads t w)
  unfolding handle_heads handle_head
  handle_heads-Linked [] t w = (tt, refl)
  handle_heads-Linked (head ∷ heads) t w =
      Ensures-bind (λ r _. AfterHead (parse_slot head.slot) t head r)
        (λ r _. Chain (head ∷ heads) t r) (λ _. Unit) (handle_head db bc t head)
        (λ (after, call).
          handle_heads db bc heads after >>= λ (last, calls). pure (last, with_spawned call calls))
        w (parsed_head-AfterHead t head (parse_slot head.slot) w)
        (λ (after, call) w' step.
          Ensures-bind (λ r _. Chain heads after r) (λ r _. Chain (head ∷ heads) t r) (λ _. Unit)
            (handle_heads db bc heads after) (λ (last, calls). pure (last, with_spawned call calls))
            w' (handle_heads-Linked heads after w')
            (λ (last, calls) w'' rest.
              with_spawned-Chain t after last head heads call calls (parse_slot head.slot) refl step
                rest))

good_slots-All : (heads : List Head) → All (λ slot. slot ≤ max_u64) (good_slots heads)
good_slots-All [] = tt
good_slots-All (head ∷ heads) =
    with_parsed-All (parse_slot head.slot) (good_slots heads) (parse_slot-le head.slot)
      (good_slots-All heads)
  where
    with_parsed-All :
        (parsed : ℕ × Option NumError) (slots : List ℕ)
        → parsed.0 ≤ max_u64
        → All (λ slot. slot ≤ max_u64) slots
        → All (λ slot. slot ≤ max_u64) (with_parsed parsed slots)
    with_parsed-All (slot, some e) slots word words = words
    with_parsed-All (slot, none) slots word words = (word, words)

module _ {S : Type 0} (db : Driver S) (bc : Settings) where
  -- Every call of processHeadSlot that the loop starts has a uint64 as its slot, whatever the messages.
  pub handle_heads-All :
      (heads : List Head) (t : Tracking) (w : World S)
      → Ensures
          (λ r _. All (λ slot. slot ≤ max_u64) (call_slots r.1))
          (λ _. Unit)
          (handle_heads db bc heads t w)
  handle_heads-All heads t w =
      Ensures-map
        (λ r _.
          Linked t.previous_slot t.previous_block_root r.1 × (call_slots r.1 ≡ good_slots heads))
        (λ r _. All (λ slot. slot ≤ max_u64) (call_slots r.1)) (λ _. Unit)
        (handle_heads db bc heads t w)
        (λ r _ h. subst (All (λ slot. slot ≤ max_u64)) (sym h.1) (good_slots-All heads))
        (handle_heads-Linked db bc heads t w)
