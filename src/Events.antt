-- ===== src/Events.antt =====
-- The event streams of the beacon node: pkg/beaconclient/incomingsse.go, with `Connect` and
-- `Disconnect` of beaconclient.go and `finishProcessingChannel` of capturehead.go. A message is its
-- data; the sse library delivers messages while it is subscribed. A step is a hand-over on a channel
-- or the end of a call of one of the goroutines, in any order.
pub mod Messages
use ipld_eth_beacon_indexer.Base.{ℕ, ◌+◌, ◌<◌, ◌≡◌, List, [], ◌∷◌, ◌++◌, Bool, true, false, length}
use ipld_eth_beacon_indexer.Word.{add64}
use ipld_eth_beacon_indexer.Sql.{Error}
use ipld_eth_beacon_indexer.Consensus.{Coded, coded, refused}

pub record SseEvents : Type 0 where
  -- the client is there and subscribed
  pub subscribed : Bool
  -- MessagesCh, which holds one message
  pub messages : List (List ℕ)
  -- the goroutines of processMsg: before the decoding, and at their sends to ProcessCh and ErrorCh
  pub parsing : List (List ℕ)
  pub sending : List (List ℕ)
  pub failing : List (List ℕ)
  -- what has happened: messages with data that were delivered, processed and reported as errors, and
  -- idle timeouts
  pub delivered : List (List ℕ)
  pub processed : List (List ℕ)
  pub reported : List (List ℕ)
  pub timeouts : ℕ
  -- processed messages whose slot was no number
  pub bad_slots : ℕ
  -- the counter that errMetricInc increments
  pub error_metric : ℕ

abbrev pub opened : SseEvents
opened = record {
  subscribed = false;
  messages = [];
  parsing = [];
  sending = [];
  failing = [];
  delivered = [];
  processed = [];
  reported = [];
  timeouts = 0;
  bad_slots = 0;
  error_metric = 0;
}

-- `P` is the type of the messages. `idles` tells that there is an idle timeout.
pub data Step {P : Type 0} (unmarshal : List ℕ → Coded P) (idles : Bool)
    : SseEvents → SseEvents → Type 0 where
  -- Connect, at the start
  connect : (s : SseEvents) → Step unmarshal idles s (record s { subscribed = true })
  deliver :
      (s : SseEvents) (byte : ℕ) (data_of : List ℕ)
      → s.subscribed ≡ true
      → s.messages ≡ []
      → Step unmarshal idles s (record s {
        messages = (byte ∷ data_of) ∷ [];
        delivered = (byte ∷ data_of) ∷ s.delivered;
      })
  -- a keep-alive message has no data
  deliver_empty :
      (s : SseEvents)
      → s.subscribed ≡ true
      → s.messages ≡ []
      → Step unmarshal idles s (record s { messages = [] ∷ [] })
  take_message :
      (s : SseEvents) (byte : ℕ) (data_of : List ℕ)
      → s.messages ≡ (byte ∷ data_of) ∷ []
      → Step unmarshal idles s (record s { messages = []; parsing = (byte ∷ data_of) ∷ s.parsing })
  drop_message :
      (s : SseEvents) → s.messages ≡ [] ∷ [] → Step unmarshal idles s (record s { messages = [] })
  parse :
      (s : SseEvents) (before : List (List ℕ)) (msg : List ℕ) (after : List (List ℕ)) (p : P)
      → s.parsing ≡ before ++ (msg ∷ after)
      → unmarshal msg ≡ coded p
      → Step unmarshal idles s (record s { parsing = before ++ after; sending = msg ∷ s.sending })
  parse_fails :
      (s : SseEvents) (before : List (List ℕ)) (msg : List ℕ) (after : List (List ℕ)) (e : Error)
      → s.parsing ≡ before ++ (msg ∷ after)
      → unmarshal msg ≡ refused e
      → Step unmarshal idles s (record s { parsing = before ++ after; failing = msg ∷ s.failing })
  -- the loop that handles the events takes a message from ProcessCh
  process :
      (s : SseEvents) (before : List (List ℕ)) (msg : List ℕ) (after : List (List ℕ))
      → s.sending ≡ before ++ (msg ∷ after)
      → Step unmarshal idles s
          (record s { sending = before ++ after; processed = msg ∷ s.processed })
  report :
      (s : SseEvents) (before : List (List ℕ)) (msg : List ℕ) (after : List (List ℕ))
      → s.failing ≡ before ++ (msg ∷ after)
      → Step unmarshal idles s (record s {
        failing = before ++ after;
        reported = msg ∷ s.reported;
        error_metric = add64 s.error_metric 1;
      })
  -- handleHead sends an error of ParseSlot to ErrorCh, at most one for a message
  report_slot :
      (s : SseEvents)
      → s.bad_slots < length s.processed
      → Step unmarshal idles s
          (record s { bad_slots = s.bad_slots + 1; error_metric = add64 s.error_metric 1 })
  -- the stream is silent: Disconnect and Connect again, which fails or not
  idle :
      (s : SseEvents) (again : Bool)
      → idles ≡ true
      → Step unmarshal idles s (record s {
        timeouts = s.timeouts + 1;
        error_metric = add64 s.error_metric 1;
        subscribed = again;
      })
  -- finishProcessingChannel begins; it ends where MessagesCh is empty
  disconnect : (s : SseEvents) → Step unmarshal idles s (record s { subscribed = false })

pub data Reach {P : Type 0} (unmarshal : List ℕ → Coded P) (idles : Bool) : SseEvents → Type 0 where
  begin : Reach unmarshal idles opened
  later :
      {s t : SseEvents}
      → Reach unmarshal idles s
      → Step unmarshal idles s t
      → Reach unmarshal idles t
