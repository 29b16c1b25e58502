-- ===== src/Shutdown/Graceful/Returned.antt =====
-- What `ShutdownServices` (internal/shutdown/shutdown.go) returns, and that it returns.
use ipld_eth_beacon_indexer.Base.{
  ℕ, suc, ◌+◌, ◌≤◌, ◌*◌, ◌≡◌, inl, inr, refl, sym, ap, ◌∙◌, String, List, [], ◌∷◌, ◌++◌, Option,
  none, some, Bool, true, false, if◌then◌else◌, length, length-append, arith, Option-cases,
}
use ipld_eth_beacon_indexer.Sql.{Error}
use ipld_eth_beacon_indexer.Shutdown.Graceful.{
  Timer, unset, armed, firing, sent, stopped, Graceful, timeout_err, stop, Step, start, elapse,
  close, stop_timer, return_success, return_timeout, Event, signal, finish, Reach, begin, step,
  event, ended_keys,
}
use ipld_eth_beacon_indexer.Shutdown.Graceful.Sound.{occurs, Reason, Fits, IsSound, Reach-IsSound}

-- No operation runs before a signal. Where ShutdownServices has returned no error, each operation has
-- ended, once; where it has returned an error, it is that of the timeout, which has elapsed: the error
-- of an operation is never returned.
pub Reach-Ended :
    {timeout : String} {ops : List String} {n : ℕ} (g : Graceful)
    → Reach timeout ops n g
    → (g.signalled ≡ false → (g.running ≡ []) × (g.ended ≡ []))
      × (g.returned ≡ some none → (key : String) → occurs key (ended_keys g.ended) ≡ occurs key ops)
      × ((e : Error) → g.returned ≡ some (some e) → (e ≡ timeout_err timeout) × (g.timer ≡ sent))
Reach-Ended g r =
    let sound : _ = Reach-IsSound r in
    (
      λ off. ((sound.quiet off).0, (sound.quiet off).1),
      λ success key.
          let (started, run, on) = sound.over (rw success at (sound.reason)) in
          omega (arith, sound.kept key, ap (occurs key) started, ap (occurs key) run),
      λ e failed. rw failed at (sound.reason),
    )

abbrev timer_left : Timer → ℕ
timer_left unset = 1
timer_left armed = 1
timer_left firing = 0
timer_left sent = 0
timer_left stopped = 0

abbrev unreturned : Option (Option Error) → ℕ
unreturned none = 1
unreturned (some r) = 0

-- An upper bound of the steps that are left.
abbrev pub steps_left : Graceful → ℕ
steps_left g =
    2 * length g.unstarted
    + length g.running
    + (if g.signalled then 0 else 1)
    + timer_left g.timer
    + (if g.closed then 0 else 1)
    + (if g.finished then 0 else 1)
    + unreturned g.returned

stop-le : (t : Timer) → timer_left (stop t) ≤ timer_left t
stop-le unset = omega arith
stop-le armed = omega arith
stop-le firing = omega arith
stop-le sent = omega arith
stop-le stopped = omega arith

length-middle :
    (before : List String) (k : String) (after : List String)
    → length (before ++ (k ∷ after)) ≡ suc (length (before ++ after))
length-middle before k after =
    omega (arith, length-append before (k ∷ after), length-append before after)

Step-steps_left :
    {timeout : String} {g h : Graceful} → Step timeout g h → steps_left h + 1 ≤ steps_left g
Step-steps_left (start g before key after on h) =
    omega (arith, length-middle before key after, ap length h)
Step-steps_left (elapse g h) = rw h (omega arith)
Step-steps_left (close g on none_left none_running open_yet) = rw open_yet (omega arith)
Step-steps_left (stop_timer g shut unfinished) = rw unfinished (omega (arith, stop-le g.timer))
Step-steps_left (return_success g closed waiting) = rw waiting (omega arith)
Step-steps_left (return_timeout g fired waiting) = rw (fired, waiting) (omega arith)

-- Before the signal the timer is not set.
early-timer :
    (signalled closed : Bool) (t : Timer)
    → signalled ≡ false
    → closed ≡ false
    → Fits signalled closed t
    → timer_left t ≡ 1
early-timer signalled closed unset off open_yet h = refl
early-timer signalled closed armed off open_yet h = refl
early-timer signalled closed firing off open_yet h = absurd (cc (sym h ∙ off))
early-timer signalled closed sent off open_yet h = absurd (cc (sym h ∙ off))
early-timer signalled closed stopped off open_yet h = absurd (cc (sym h ∙ open_yet))

Event-steps_left :
    {timeout : String} {ops : List String} {g h : Graceful}
    → Event g h
    → IsSound timeout ops g
    → steps_left h + 1 ≤ steps_left g
Event-steps_left (signal g off) sound =
    rw off
      (omega (arith, early-timer g.signalled g.closed g.timer off (sound.quiet off).2 sound.fits))
Event-steps_left (finish g before key after error h) sound =
    omega (arith, length-middle before key after, ap length h)

Reach-steps_left :
    {timeout : String} {ops : List String} {n : ℕ} {g : Graceful}
    → Reach timeout ops n g
    → n + steps_left g ≤ 2 * length ops + 5
Reach-steps_left begin = omega arith
Reach-steps_left (step r s) = omega (arith, Reach-steps_left r, Step-steps_left s)
Reach-steps_left (event r e) =
    omega (arith, Reach-steps_left r, Event-steps_left e (Reach-IsSound r))

-- The program has no step of its own.
abbrev pub IsStuck : (timeout : String) → Graceful → Type 0
IsStuck timeout g = (h : Graceful) → Step timeout g h → ⊥

stuck-returned :
    (timeout : String) (g : Graceful) (t : Timer)
    → g.timer ≡ t
    → g.signalled ≡ true
    → g.returned ≡ none
    → Reason timeout t g.closed none
    → Fits g.signalled g.closed t
    → IsStuck timeout g
    → ⊥
stuck-returned timeout g unset same on waiting reason fits stuck = cc (sym fits ∙ on)
stuck-returned timeout g armed same on waiting reason fits stuck = stuck _ (elapse g same)
stuck-returned timeout g firing same on waiting reason fits stuck =
    stuck _ (return_timeout g same waiting)
stuck-returned timeout g sent same on waiting reason fits stuck = reason refl
stuck-returned timeout g stopped same on waiting reason fits stuck =
    stuck _ (return_success g fits waiting)

-- In any order the shutdown of some operations takes at most twice as many steps as there are
-- operations, and five more; and where the signal has come and the program has no step of its own
-- left, ShutdownServices has returned, also where an operation never ends.
pub Reach-Returned :
    {timeout : String} {ops : List String} {n : ℕ} (g : Graceful)
    → Reach timeout ops n g
    → (n ≤ 2 * length ops + 5)
      × (g.signalled ≡ true → IsStuck timeout g → (r : Option Error) × (g.returned ≡ some r))
Reach-Returned {timeout} g r =
    let sound : _ = Reach-IsSound r in
    (
      omega (arith, Reach-steps_left r),
      λ on stuck. elim (Option-cases g.returned) [
        | inl waiting ↦ absurd (
            stuck-returned timeout g g.timer refl on waiting (rw waiting at (sound.reason))
              sound.fits stuck)
        | inr done ↦ done
      ],
    )
