-- ===== src/Shutdown/Graceful/Sound.antt =====
-- An invariant of the shutdown of pkg/gracefulshutdown/gracefulshutdown.go.
use ipld_eth_beacon_indexer.Base.{
  ℕ, ◌+◌, ◌≡◌, ◌≢◌, refl, sym, ap, ◌∙◌, String, List, [], ◌∷◌, ◌++◌, Option, none, some, Bool, true,
  false, str_eq, if◌then◌else◌, arith,
}
use ipld_eth_beacon_indexer.Sql.{Error}
use ipld_eth_beacon_indexer.Shutdown.Graceful.{
  Timer, unset, armed, firing, sent, stopped, Graceful, timeout_err, stop, Step, start, elapse,
  close, stop_timer, return_success, return_timeout, Event, signal, finish, Reach, begin, step,
  event, ended_keys,
}

abbrev pub one_if : Bool → ℕ
one_if b = if b then 1 else 0

-- How often a key is in a list.
abbrev pub occurs : String → List String → ℕ
occurs key [] = 0
occurs key (k ∷ ks) = one_if (str_eq k key) + occurs key ks

occurs-middle :
    (key : String) (before : List String) (k : String) (after : List String)
    → occurs key (before ++ (k ∷ after)) ≡ one_if (str_eq k key) + occurs key (before ++ after)
occurs-middle key [] k after = refl
occurs-middle key (b ∷ before) k after = omega (arith, occurs-middle key before k after)

-- What a return comes from.
abbrev pub Reason : (timeout : String) → Timer → (closed : Bool) → Option (Option Error) → Type 0
Reason timeout timer closed none = timer ≢ sent
Reason timeout timer closed (some none) = closed ≡ true
Reason timeout timer closed (some (some e)) = (e ≡ timeout_err timeout) × (timer ≡ sent)

abbrev pub Fits : (signalled closed : Bool) → Timer → Type 0
Fits signalled closed unset = signalled ≡ false
Fits signalled closed stopped = closed ≡ true
Fits signalled closed _ = signalled ≡ true

pub record IsSound (timeout : String) (ops : List String) (g : Graceful) : Type 0 where
  pub kept :
      (key : String)
      → occurs key g.unstarted + (occurs key g.running + occurs key (ended_keys g.ended))
        ≡ occurs key ops
  pub quiet : g.signalled ≡ false → (g.running ≡ []) × (g.ended ≡ []) × (g.closed ≡ false)
  pub over : g.closed ≡ true → (g.unstarted ≡ []) × (g.running ≡ []) × (g.signalled ≡ true)
  pub reason : Reason timeout g.timer g.closed g.returned
  pub fits : Fits g.signalled g.closed g.timer

Reason-firing :
    (timeout : String) (timer : Timer) (closed : Bool) (r : Option (Option Error))
    → timer ≡ armed
    → Reason timeout timer closed r
    → Reason timeout firing closed r
Reason-firing timeout timer closed none h reason = λ e. cc
Reason-firing timeout timer closed (some none) h reason = reason
Reason-firing timeout timer closed (some (some e)) h reason = absurd (cc (sym h ∙ reason.1))

Reason-armed :
    (timeout : String) (signalled : Bool) (timer : Timer) (closed : Bool)
    (r : Option (Option Error))
    → signalled ≡ false
    → Fits signalled closed timer
    → Reason timeout timer closed r
    → Reason timeout armed closed r
Reason-armed timeout signalled timer closed none early fits reason = λ e. cc
Reason-armed timeout signalled timer closed (some none) early fits reason = reason
Reason-armed timeout signalled timer closed (some (some e)) early fits reason =
    absurd (cc (rw reason.1 at fits, early))

Reason-stop :
    (timeout : String) (timer : Timer) (closed : Bool) (r : Option (Option Error))
    → Reason timeout timer closed r
    → Reason timeout (stop timer) closed r
Reason-stop timeout timer closed none reason = stop-ne timer reason
  where
    stop-ne : (t : Timer) → t ≢ sent → stop t ≢ sent
    stop-ne unset h = h
    stop-ne armed h = λ e. cc
    stop-ne firing h = h
    stop-ne sent h = h
    stop-ne stopped h = h
Reason-stop timeout timer closed (some none) reason = reason
Reason-stop timeout timer closed (some (some e)) reason = (reason.0, rw reason.1 refl)

Fits-stop :
    (signalled closed : Bool) (timer : Timer)
    → closed ≡ true
    → Fits signalled closed timer
    → Fits signalled closed (stop timer)
Fits-stop signalled closed unset shut h = h
Fits-stop signalled closed armed shut h = shut
Fits-stop signalled closed firing shut h = h
Fits-stop signalled closed sent shut h = h
Fits-stop signalled closed stopped shut h = h

Fits-close :
    (signalled closed : Bool) (timer : Timer)
    → Fits signalled closed timer
    → Fits signalled true timer
Fits-close signalled closed unset h = h
Fits-close signalled closed armed h = h
Fits-close signalled closed firing h = h
Fits-close signalled closed sent h = h
Fits-close signalled closed stopped h = refl

Reason-close :
    (timeout : String) (timer : Timer) (closed : Bool) (r : Option (Option Error))
    → Reason timeout timer closed r
    → Reason timeout timer true r
Reason-close timeout timer closed none reason = reason
Reason-close timeout timer closed (some none) reason = refl
Reason-close timeout timer closed (some (some e)) reason = reason

pub no_middle : {A : Type 0} (before : List A) (x : A) (after : List A) → [] ≢ before ++ (x ∷ after)
no_middle [] x after h = cc
no_middle (y ∷ before) x after h = cc

Step-IsSound :
    {timeout : String} {ops : List String} {g h : Graceful}
    → Step timeout g h
    → IsSound timeout ops g
    → IsSound timeout ops h
Step-IsSound (start g before key after on h) sound = record {
  kept = λ k. omega (arith, sound.kept k, occurs-middle k before key after, ap (occurs k) h);
  quiet = λ off. absurd (cc (sym off ∙ on));
  over = λ closed. absurd (no_middle before key after (sym (sound.over closed).0 ∙ h));
  reason = sound.reason;
  fits = sound.fits;
}
Step-IsSound {timeout} (elapse g h) sound = record {
  kept = sound.kept;
  quiet = sound.quiet;
  over = sound.over;
  reason = Reason-firing timeout g.timer g.closed g.returned h sound.reason;
  fits = rw h at (sound.fits);
}
Step-IsSound {timeout} (close g on none_left none_running open_yet) sound = record {
  kept = sound.kept;
  quiet = λ off. absurd (cc (sym off ∙ on));
  over = λ closed. (none_left, none_running, on);
  reason = Reason-close timeout g.timer g.closed g.returned sound.reason;
  fits = Fits-close g.signalled g.closed g.timer sound.fits;
}
Step-IsSound {timeout} (stop_timer g shut unfinished) sound = record {
  kept = sound.kept;
  quiet = sound.quiet;
  over = sound.over;
  reason = Reason-stop timeout g.timer g.closed g.returned sound.reason;
  fits = Fits-stop g.signalled g.closed g.timer shut sound.fits;
}
Step-IsSound (return_success g closed waiting) sound = record {
  kept = sound.kept;
  quiet = sound.quiet;
  over = sound.over;
  reason = closed;
  fits = sound.fits;
}
Step-IsSound (return_timeout g fired waiting) sound = record {
  kept = sound.kept;
  quiet = sound.quiet;
  over = sound.over;
  reason = (refl, refl);
  fits = rw fired at (sound.fits);
}

Event-IsSound :
    {timeout : String} {ops : List String} {g h : Graceful}
    → Event g h
    → IsSound timeout ops g
    → IsSound timeout ops h
Event-IsSound {timeout} (signal g off) sound = record {
  kept = sound.kept;
  quiet = λ e. absurd (cc e);
  over = λ closed. absurd (cc (sym closed ∙ (sound.quiet off).2));
  reason = Reason-armed timeout g.signalled g.timer g.closed g.returned off sound.fits sound.reason;
  fits = refl;
}
Event-IsSound (finish g before key after error h) sound = record {
  kept = λ k. omega (arith, sound.kept k, occurs-middle k before key after, ap (occurs k) h);
  quiet = λ off. absurd (no_middle before key after (sym (sound.quiet off).0 ∙ h));
  over = λ closed. absurd (no_middle before key after (sym (sound.over closed).1 ∙ h));
  reason = sound.reason;
  fits = sound.fits;
}

pub Reach-IsSound :
    {timeout : String} {ops : List String} {n : ℕ} {g : Graceful}
    → Reach timeout ops n g
    → IsSound timeout ops g
Reach-IsSound begin = record {
  kept = λ key. omega arith;
  quiet = λ off. (refl, refl, refl);
  over = λ closed. absurd (cc closed);
  reason = λ e. cc;
  fits = refl;
}
Reach-IsSound (step r s) = Step-IsSound s (Reach-IsSound r)
Reach-IsSound (event r e) = Event-IsSound e (Reach-IsSound r)
