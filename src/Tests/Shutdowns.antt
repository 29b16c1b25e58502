-- ===== src/Tests/Shutdowns.antt =====
-- A shutdown whose one operation does not end in time, and one that ends with an error.
use ipld_eth_beacon_indexer.Base.{
  ◌+◌, ◌*◌, ◌≤◌, ◌≡◌, refl, String, List, [], ◌∷◌, Option, none, some, true, false, length,
}
use ipld_eth_beacon_indexer.Sql.{Error}
use ipld_eth_beacon_indexer.Shutdown.Graceful.{
  armed, sent, stopped, Graceful, timeout_err, initial, start, elapse, close, stop_timer,
  return_success, return_timeout, signal, finish, Reach, begin, step, event, ended_keys,
}
use ipld_eth_beacon_indexer.Shutdown.Graceful.Sound.{occurs}
use ipld_eth_beacon_indexer.Shutdown.Graceful.Returned.{Reach-Ended, IsStuck, Reach-Returned}

abbrev ops : List String
ops = "beaconClient" ∷ []

abbrev cleaning : Graceful
cleaning = record (initial ops) {
  signalled = true;
  timer = armed;
  unstarted = [];
  running = "beaconClient" ∷ [];
}

cleaning-reached : Reach "20s" ops 2 cleaning
cleaning-reached = step (event begin (signal _ refl)) (start _ [] "beaconClient" [] refl refl)

-- The operation hangs.
abbrev late : Graceful
late = record cleaning { timer = sent; returned = some (some (timeout_err "20s")) }

late-reached : Reach "20s" ops 4 late
late-reached = step (step cleaning-reached (elapse _ refl)) (return_timeout _ refl refl)

-- The operation fails, and the shutdown succeeds.
abbrev over : Graceful
over = record cleaning {
  timer = stopped;
  running = [];
  ended = ("beaconClient", some "tx is closed") ∷ [];
  closed = true;
  finished = true;
  returned = some none;
}

over-reached : Reach "20s" ops 6 over
over-reached =
    step
      (step
        (step (event cleaning-reached (finish _ [] "beaconClient" [] (some "tx is closed") refl))
          (close _ refl refl refl refl))
        (stop_timer _ refl refl))
      (return_success _ refl refl)

Reach-Ended_example :
    (over.signalled ≡ false → (over.running ≡ []) × (over.ended ≡ []))
    × (over.returned ≡ some none
        → (key : String) → occurs key (ended_keys over.ended) ≡ occurs key ops)
    × ((e : Error) → over.returned ≡ some (some e) → (e ≡ timeout_err "20s") × (over.timer ≡ sent))
Reach-Ended_example = Reach-Ended over over-reached

Reach-Returned_example :
    (4 ≤ 2 * length ops + 5)
    × (late.signalled ≡ true → IsStuck "20s" late → (r : Option Error) × (late.returned ≡ some r))
Reach-Returned_example = Reach-Returned late late-reached
