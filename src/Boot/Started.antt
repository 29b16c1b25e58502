-- ===== src/Boot/Started.antt =====
-- What `BootApplicationWithRetry` (internal/boot/boot.go) comes to.
use ipld_eth_beacon_indexer.Base.{
  ℕ, zero, suc, ◌+◌, ◌<◌, ◌≡◌, ◌⊎◌, refl, sym, ap, ◌∙◌, subst, String, Option, none, some, some-inj,
  true, false, leb, inl, inr, arith, Bool-cases,
}
use ipld_eth_beacon_indexer.Word.{int_sign}
use ipld_eth_beacon_indexer.Text.{text_lower_eq}
use ipld_eth_beacon_indexer.Sql.{Error}
use ipld_eth_beacon_indexer.Server.{Node}
use ipld_eth_beacon_indexer.Action.{Outcome, done, fatal, panic}
use ipld_eth_beacon_indexer.Status.{Json, check_beacon_client, get_latest_slot_in_beacon_server}
use ipld_eth_beacon_indexer.Client.{
  Prometheus, BeaconClient, endpoint_of, with_metrics, create_beacon_client,
  create_beacon_client_metrics,
}
use ipld_eth_beacon_indexer.Boot.{
  Surroundings, BootArgs, Booted, setup_of, after_create, boot_application, next_attempt,
  boot_attempts, boot_retries, unbooted, with_client, after_latest_slot, start_up,
  boot_application_with_retry,
}
use ipld_eth_beacon_indexer.Boot.Retries.{
  IsBootedBetween, Between-le, boot_attempts-Between, boot_attempts-retry,
}

module _ {R P : Type 0} (prometheus : Prometheus R) (json : Json) (text : Error → String)
    (args : BootArgs) where
  -- The attempt has failed and has left no client.
  abbrev pub Down : Booted R P → Type 0
  Down b = (b.bc ≡ none) × ((e : Error) × (b.err ≡ some e))

  after_create-Down :
      (around : Surroundings P) (attempt pools : ℕ) (e : Error) (m : Option Error × R)
      → check_beacon_client around.node (endpoint_of args.client) ≡ some e
      → Down (
          after_create json args.disregard_sync around.node
            (setup_of text args around)
            pools
            (with_metrics prometheus args.client attempt m))
  after_create-Down around attempt pools e (some e', r) sick = (refl, (e', refl))
  after_create-Down around attempt pools e (none, r) sick = rw sick (refl, (e, refl))

  boot_application-Down :
      (around : Surroundings P) (attempt : ℕ) (r : R) (pools : ℕ) (e : Error)
      → check_beacon_client around.node (endpoint_of args.client) ≡ some e
      → Down (boot_application prometheus json text args around attempt r pools)
  unfolding boot_application create_beacon_client
  boot_application-Down around attempt r pools e sick =
      after_create-Down around attempt pools e (create_beacon_client_metrics prometheus attempt r)
        sick

  -- The node fails its health check at every attempt.
  abbrev pub Sick : (ℕ → Surroundings P) → Type 0
  Sick around =
      (i : ℕ)
      → (e : Error) × (check_beacon_client (around i).node (endpoint_of args.client) ≡ some e)

  attempt-Down :
      (around : ℕ → Surroundings P) (n i : ℕ) (v : Booted R P)
      → Sick around
      → ((b : Booted R P)
          → Down b
          → Down (boot_attempts prometheus json text args around n (i + 1) b))
      → Down (boot_attempts prometheus json text args around (suc n) i v)
  attempt-Down around n i v sick rest =
      let next : Down (next_attempt prometheus json text args around i v) =
        boot_application-Down (around i) i v.registry v.pools (sick i).0 (sick i).1 in
      subst Down
        (sym (boot_attempts-retry prometheus json text args around n i v next.1.0 next.1.1))
        (rest (next_attempt prometheus json text args around i v) next)

  boot_attempts-Down :
      (around : ℕ → Surroundings P) (n i : ℕ) (v : Booted R P)
      → Sick around
      → Down v
      → Down (boot_attempts prometheus json text args around n i v)
  unfolding boot_attempts
  boot_attempts-Down around zero i v sick down = down
  boot_attempts-Down around (suc n) i v sick down =
      attempt-Down around n i v sick (λ b. boot_attempts-Down around n (i + 1) b sick)

  first-Down :
      (around : ℕ → Surroundings P) (n : ℕ) (v : Booted R P)
      → Sick around
      → 0 < n
      → Down (boot_attempts prometheus json text args around n 0 v)
  first-Down around zero v sick some_attempt = absurd (omega arith)
  first-Down around (suc n) v sick some_attempt =
      attempt-Down around n 0 v sick (λ b. boot_attempts-Down around n (0 + 1) b sick)

  start_up-panic :
      (node : Node) (bc_type mode : String) (b : Booted R P)
      → (text_lower_eq mode "head" ≡ true) ⊎ (text_lower_eq mode "historic" ≡ true)
      → b.bc ≡ none
      → start_up prometheus json text args node bc_type mode b ≡ panic
  unfolding start_up
  start_up-panic node bc_type mode b (inl head) nil = rw (head, nil) refl
  start_up-panic node bc_type mode b (inr historic) nil =
      elim (Bool-cases (text_lower_eq mode "head")) [
        | inl head ↦ rw (head, nil) refl
        | inr other ↦ rw (other, historic, nil) refl
      ]

  -- With a positive number of retries, where the node fails its health check at every attempt, the
  -- start in head or historic mode ends in a nil dereference instead of the error.
  pub boot_application_with_retry-panic :
      (around : ℕ → Surroundings P) (fuel bc_max_retry : ℕ) (r : R) (node : Node)
      → (bc_type mode : String) → Sick around
      → 0 < bc_max_retry
      → bc_max_retry < int_sign
      → (text_lower_eq mode "head" ≡ true) ⊎ (text_lower_eq mode "historic" ≡ true)
      → boot_application_with_retry prometheus json text args around fuel bc_max_retry r node
          bc_type mode
        ≡ some panic
  unfolding boot_application_with_retry boot_retries
  boot_application_with_retry-panic around fuel n r node bc_type mode sick positive bounded needs =
      let finite : leb int_sign n ≡ false = ground arith in
      let v : Booted R P = unbooted prometheus json text args around r in
      let down : Down (boot_attempts prometheus json text args around n 0 v) =
        first-Down around n v sick positive in
      rw
        (
          finite,
          start_up-panic node bc_type mode (boot_attempts prometheus json text args around n 0 v)
              needs down.0,
        )
        refl

  -- The error of an outcome.
  abbrev err_of : Outcome (Booted R P) → Option Error
  err_of (done b) = b.err
  err_of fatal = none
  err_of panic = some ""

  latest-err :
      (b b' : Booted R P) (s : ℕ × Option Error)
      → after_latest_slot prometheus json text args b s ≡ done b'
      → b'.err ≡ none
      → b.err ≡ none
  latest-err b b' (slot, some e) h good = absurd (cc (ap err_of h ∙ good))
  latest-err b b' (slot, none) h good = ap err_of h ∙ good

  head-err :
      (b b' : Booted R P) (bc : Option (BeaconClient P)) (f : BeaconClient P → Outcome (Booted R P))
      → ((c : BeaconClient P) → f c ≡ done b' → b'.err ≡ none → b.err ≡ none)
      → with_client prometheus json text args bc f ≡ done b'
      → b'.err ≡ none
      → b.err ≡ none
  head-err b b' none f k h good = absurd (cc (ap err_of h ∙ good))
  head-err b b' (some c) f k h good = k c h good

  start_up-err :
      (node : Node) (bc_type mode : String) (b b' : Booted R P)
      → start_up prometheus json text args node bc_type mode b ≡ done b'
      → b'.err ≡ none
      → b.err ≡ none
  unfolding start_up
  start_up-err node bc_type mode b b' h good = elim (Bool-cases (text_lower_eq mode "head")) [
    | inl head ↦ head-err b b' b.bc _ (λ c k. λ ok. ap err_of k ∙ ok) (rw head at h) good
    | inr other ↦ elim (Bool-cases (text_lower_eq mode "historic")) [
      | inl historic ↦
          head-err b b' b.bc _
            (λ c k ok.
              latest-err _ b' (get_latest_slot_in_beacon_server json node c.server_endpoint bc_type)
                k ok)
            (rw (other, historic) at h) good
      | inr neither ↦ ap err_of (rw (other, neither) at h) ∙ good
    ]
  ]

  -- With a positive number of retries, where BootApplicationWithRetry returns no error, its client is
  -- the one of an attempt of them that found the node and the database up, on the pool that this
  -- attempt has opened, with the step for the mode taken.
  pub boot_application_with_retry-Between :
      (around : ℕ → Surroundings P) (fuel bc_max_retry : ℕ) (r : R) (node : Node)
      → (bc_type mode : String) (b : Booted R P) → 0 < bc_max_retry
      → bc_max_retry < int_sign
      → boot_application_with_retry prometheus json text args around fuel bc_max_retry r node
          bc_type mode
        ≡ some (done b)
      → b.err ≡ none
      → (b0 : Booted R P) × (IsBootedBetween prometheus json text args around 0 bc_max_retry b0
          × (start_up prometheus json text args node bc_type mode b0 ≡ done b))
  unfolding boot_application_with_retry boot_retries
  boot_application_with_retry-Between around fuel zero r node bc_type mode b positive bounded h
        good =
      absurd (omega arith)
  boot_application_with_retry-Between around fuel (suc n) r node bc_type mode b positive bounded h
        good =
      let finite : leb int_sign (suc n) ≡ false = ground arith in
      let b0 : Booted R P =
        boot_attempts prometheus json text args around (suc n) 0
          (unbooted prometheus json text args around r) in
      let done_up : start_up prometheus json text args node bc_type mode b0 ≡ done b =
        some-inj (rw finite at h) in
      let ok : b0.err ≡ none = start_up-err node bc_type mode b0 b done_up good in
      (
        b0,
        (
          Between-le prometheus json text args around 0 (0 + suc n) (suc n) b0 (omega arith) (
              boot_attempts-Between prometheus json text args around n 0
                (unbooted prometheus json text args around r) ok),
          done_up,
        ),
      )
