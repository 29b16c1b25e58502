-- ===== src/Events/Messages.antt =====
-- No message of an event stream is lost, doubled or made up (pkg/beaconclient/incomingsse.go).
use ipld_eth_beacon_indexer.Base.{
  ℕ, ◌+◌, ◌%◌, ◌≡◌, refl, ap, ◌∙◌, List, [], ◌∷◌, ◌++◌, Bool, length, arith, All, if◌then◌else◌,
}
use ipld_eth_beacon_indexer.Word.{u64_mod}
use ipld_eth_beacon_indexer.Consensus.{Coded, coded}
use ipld_eth_beacon_indexer.Events.{
  SseEvents, Step, connect, deliver, deliver_empty, take_message, drop_message, parse, parse_fails,
  process, report, report_slot, idle, disconnect, Reach, begin, later,
}

-- How many messages with data pass a test.
abbrev passes : (List ℕ → Bool) → List ℕ → ℕ
passes test [] = 0
passes test (byte ∷ msg) = if test (byte ∷ msg) then 1 else 0

abbrev pub number : (List ℕ → Bool) → List (List ℕ) → ℕ
number test [] = 0
number test (msg ∷ msgs) = passes test msg + number test msgs

-- What was delivered is in MessagesCh, with a goroutine, or was processed or reported.
abbrev pub Delivered : SseEvents → (List ℕ → Bool) → Type 0
Delivered s test =
    number test s.delivered
    ≡ number test s.messages
      + number test s.parsing
      + number test s.sending
      + number test s.failing
      + number test s.processed
      + number test s.reported

number-pick :
    (test : List ℕ → Bool) (before : List (List ℕ)) (msg : List ℕ) (after : List (List ℕ))
    → number test (before ++ (msg ∷ after)) ≡ passes test msg + number test (before ++ after)
number-pick test [] msg after = refl
number-pick test (b ∷ before) msg after = omega (arith, number-pick test before msg after)

module _ {P : Type 0} (unmarshal : List ℕ → Coded P) (idles : Bool) where
  -- The message has the form of the events of the stream.
  abbrev pub IsEvent : List ℕ → Type 0
  IsEvent msg = (p : P) × (unmarshal msg ≡ coded p)

  Step-Delivered :
      {s t : SseEvents}
      → Step unmarshal idles s t
      → (test : List ℕ → Bool) → Delivered s test
      → Delivered t test
  Step-Delivered (connect s) test d = d
  Step-Delivered (deliver s byte msg on free) test d = omega (arith, ap (number test) free, d)
  Step-Delivered (deliver_empty s on free) test d = omega (arith, ap (number test) free, d)
  Step-Delivered (take_message s byte msg h) test d = omega (arith, ap (number test) h, d)
  Step-Delivered (drop_message s h) test d = omega (arith, ap (number test) h, d)
  Step-Delivered (parse s before msg after p h good) test d =
      omega (arith, ap (number test) h ∙ number-pick test before msg after, d)
  Step-Delivered (parse_fails s before msg after e h bad) test d =
      omega (arith, ap (number test) h ∙ number-pick test before msg after, d)
  Step-Delivered (process s before msg after h) test d =
      omega (arith, ap (number test) h ∙ number-pick test before msg after, d)
  Step-Delivered (report s before msg after h) test d =
      omega (arith, ap (number test) h ∙ number-pick test before msg after, d)
  Step-Delivered (report_slot s few) test d = d
  Step-Delivered (idle s again i) test d = d
  Step-Delivered (disconnect s) test d = d

  -- The counter of the errors is the number of the reports, the bad slots and the timeouts, as a uint64.
  abbrev pub Counted : SseEvents → Type 0
  Counted s = s.error_metric ≡ (length s.reported + s.bad_slots + s.timeouts) % u64_mod

  Step-Counted : {s t : SseEvents} → Step unmarshal idles s t → Counted s → Counted t
  Step-Counted (connect s) c = c
  Step-Counted (deliver s byte msg on free) c = c
  Step-Counted (deliver_empty s on free) c = c
  Step-Counted (take_message s byte msg h) c = c
  Step-Counted (drop_message s h) c = c
  Step-Counted (parse s before msg after p h good) c = c
  Step-Counted (parse_fails s before msg after e h bad) c = c
  Step-Counted (process s before msg after h) c = c
  Step-Counted (report s before msg after h) c = omega (arith, c)
  Step-Counted (report_slot s few) c = omega (arith, c)
  Step-Counted (idle s again i) c = omega (arith, c)
  Step-Counted (disconnect s) c = c

  -- What is on its way to ProcessCh, or was processed, is an event.
  abbrev pub Parsed : SseEvents → Type 0
  Parsed s = All IsEvent s.sending × All IsEvent s.processed

  All-pick :
      (before : List (List ℕ)) (msg : List ℕ) (after : List (List ℕ))
      → All IsEvent (before ++ (msg ∷ after))
      → IsEvent msg × All IsEvent (before ++ after)
  All-pick [] msg after h = h
  All-pick (b ∷ before) msg after h =
      let (found, rest) = All-pick before msg after h.1 in (found, (h.0, rest))

  Step-Parsed : {s t : SseEvents} → Step unmarshal idles s t → Parsed s → Parsed t
  Step-Parsed (connect s) h = h
  Step-Parsed (deliver s byte msg on free) h = h
  Step-Parsed (deliver_empty s on free) h = h
  Step-Parsed (take_message s byte msg e) h = h
  Step-Parsed (drop_message s e) h = h
  Step-Parsed (parse s before msg after p e good) h = (((p, good), h.0), h.1)
  Step-Parsed (parse_fails s before msg after err e bad) h = h
  Step-Parsed (process s before msg after e) h =
      let (event, rest) = All-pick before msg after (rw e at h.0) in (rest, (event, h.1))
  Step-Parsed (report s before msg after e) h = h
  Step-Parsed (report_slot s few) h = h
  Step-Parsed (idle s again i) h = h
  Step-Parsed (disconnect s) h = h

  -- In every reachable state of a stream: of the messages with data that pass any test, as many were
  -- delivered as are in MessagesCh, with a goroutine, processed or reported; what was processed is
  -- an event; and the counter of the errors is the number of the reports, the bad slots
  -- and the timeouts modulo 2^64.
  pub Reach-Delivered :
      {s : SseEvents}
      → Reach unmarshal idles s
      → ((test : List ℕ → Bool) → Delivered s test) × (Counted s × Parsed s)
  Reach-Delivered begin = (λ test. refl, (refl, (tt, tt)))
  Reach-Delivered (later r st) =
      let (d, (c, p)) = Reach-Delivered r in
      (λ test. Step-Delivered st test (d test), (Step-Counted st c, Step-Parsed st p))
