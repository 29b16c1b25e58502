-- ===== src/Boot/Retries.antt =====
-- The loops of `BootApplicationWithRetry` (internal/boot/boot.go): what they end with, and that they
-- end.
use ipld_eth_beacon_indexer.Base.{
  ℕ, zero, suc, ◌+◌, ◌≤◌, ◌<◌, ◌≡◌, refl, sym, ap, ◌∙◌, subst, String, none, some, some-inj, true,
  leb, inl, inr, arith, Option-cases,
}
use ipld_eth_beacon_indexer.Word.{int_sign}
use ipld_eth_beacon_indexer.Sql.{Error}
use ipld_eth_beacon_indexer.Status.{Json}
use ipld_eth_beacon_indexer.Client.{Prometheus}
use ipld_eth_beacon_indexer.Client.Counters.{IsRegistry}
use ipld_eth_beacon_indexer.Boot.{
  Surroundings, BootArgs, Booted, setup_of, next_attempt, boot_attempts, boot_forever, boot_retries,
  unbooted,
}
use ipld_eth_beacon_indexer.Boot.Attempts.{
  IsUp, IsBooted, boot_application-IsBooted, boot_application-booted,
}

module _ {R P : Type 0} (prometheus : Prometheus R) (json : Json) (text : Error → String)
    (args : BootArgs) (around : ℕ → Surroundings P) where
  -- The outcome is the one of an attempt that has succeeded, from `first` on and before `last`.
  pub record IsBootedBetween (first last : ℕ) (b : Booted R P) : Type 0 where
    pub attempt : ℕ
    pub from : first ≤ attempt
    pub before : attempt < last
    pub booted :
        IsBooted json args.client args.disregard_sync
          (around attempt).node
          (setup_of text args (around attempt))
          attempt
          b

  abbrev attempt_at : ℕ → Booted R P → Booted R P
  attempt_at i v = next_attempt prometheus json text args around i v

  pub Between-le :
      (first last bound : ℕ) (b : Booted R P)
      → last ≤ bound
      → IsBootedBetween first last b
      → IsBootedBetween first bound b
  Between-le first last bound b wide h =
      let high : h.attempt < last = h.before in
      record { attempt = h.attempt; from = h.from; before = omega arith; booted = h.booted }

  attempt-Between :
      (n i : ℕ) (v : Booted R P)
      → (attempt_at i v).err ≡ none
      → IsBootedBetween i (i + suc n) (attempt_at i v)
  attempt-Between n i v h = record {
    attempt = i;
    from = omega arith;
    before = omega arith;
    booted = boot_application-IsBooted prometheus json text args (around i) i v.registry v.pools h;
  }

  later-Between :
      (n i : ℕ) (b : Booted R P)
      → IsBootedBetween (i + 1) (i + 1 + n) b
      → IsBootedBetween i (i + suc n) b
  later-Between n i b h =
      let low : i + 1 ≤ h.attempt = h.from in
      let high : h.attempt < i + 1 + n = h.before in
      record { attempt = h.attempt; from = omega arith; before = omega arith; booted = h.booted }

  pub boot_attempts-booted :
      (n i : ℕ) (v : Booted R P)
      → (attempt_at i v).err ≡ none
      → boot_attempts prometheus json text args around (suc n) i v ≡ attempt_at i v
  unfolding boot_attempts
  boot_attempts-booted n i v h = rw h refl

  pub boot_attempts-retry :
      (n i : ℕ) (v : Booted R P) (e : Error)
      → (attempt_at i v).err ≡ some e
      → boot_attempts prometheus json text args around (suc n) i v
        ≡ boot_attempts prometheus json text args around n (i + 1) (attempt_at i v)
  unfolding boot_attempts
  boot_attempts-retry n i v e h = rw h refl

  -- Where the last attempt has not succeeded, none is left.
  pub boot_attempts-Between :
      (n i : ℕ) (v : Booted R P)
      → (boot_attempts prometheus json text args around (suc n) i v).err ≡ none
      → IsBootedBetween i (i + suc n) (boot_attempts prometheus json text args around (suc n) i v)
  unfolding boot_attempts
  boot_attempts-Between zero i v h = elim (Option-cases (attempt_at i v).err) [
    | inl good ↦ rw (boot_attempts-booted 0 i v good) (attempt-Between 0 i v good)
    | inr (e, bad) ↦
        absurd (cc (sym bad ∙ sym (ap (λ b. b.err) (boot_attempts-retry 0 i v e bad)) ∙ h))
  ]
  boot_attempts-Between (suc n) i v h = elim (Option-cases (attempt_at i v).err) [
    | inl good ↦ rw (boot_attempts-booted (suc n) i v good) (attempt-Between (suc n) i v good)
    | inr (e, bad) ↦
        let same : _ = boot_attempts-retry (suc n) i v e bad in
        let rest : _ =
          boot_attempts-Between n (i + 1) (attempt_at i v) (sym (ap (λ b. b.err) same) ∙ h) in
        subst (IsBootedBetween i (i + suc (suc n))) (sym same) (later-Between (suc n) i _ rest)
  ]

  boot_forever-booted :
      (fuel i : ℕ) (v : Booted R P)
      → (attempt_at i v).err ≡ none
      → boot_forever prometheus json text args around (suc fuel) i v ≡ some (attempt_at i v)
  unfolding boot_forever
  boot_forever-booted fuel i v h = rw h refl

  boot_forever-retry :
      (fuel i : ℕ) (v : Booted R P) (e : Error)
      → (attempt_at i v).err ≡ some e
      → boot_forever prometheus json text args around (suc fuel) i v
        ≡ boot_forever prometheus json text args around fuel (i + 1) (attempt_at i v)
  unfolding boot_forever
  boot_forever-retry fuel i v e h = rw h refl

  pub boot_forever-Between :
      (fuel i : ℕ) (v b : Booted R P)
      → boot_forever prometheus json text args around fuel i v ≡ some b
      → (b.err ≡ none) × IsBootedBetween i (i + fuel) b
  unfolding boot_forever
  boot_forever-Between zero i v b h = absurd cc
  boot_forever-Between (suc n) i v b h = elim (Option-cases (attempt_at i v).err) [
    | inl good ↦
        let same : attempt_at i v ≡ b = some-inj (sym (boot_forever-booted n i v good) ∙ h) in
        subst (λ x. (x.err ≡ none) × IsBootedBetween i (i + suc n) x) same
          (good, attempt-Between n i v good)
    | inr (e, bad) ↦
        let (good, rest) =
          boot_forever-Between n (i + 1) (attempt_at i v) b
            (sym (boot_forever-retry n i v e bad) ∙ h) in
        (good, later-Between n i b rest)
  ]

module _ {R P : Type 0} (prometheus : Prometheus R) (laws : IsRegistry prometheus) (json : Json)
    (text : Error → String) (args : BootArgs) (around : ℕ → Surroundings P) where
  abbrev UpAt : ℕ → P → Type 0
  UpAt i pool =
      IsUp json args.client args.disregard_sync (around i).node (setup_of text args (around i)) pool

  -- `k` attempts after this one everything is up.
  attempt-booted :
      (i : ℕ) (v : Booted R P) (pool : P)
      → UpAt i pool
      → (next_attempt prometheus json text args around i v).err ≡ none
  attempt-booted i v pool up =
      boot_application-booted prometheus laws json text args (around i) i v.registry v.pools pool up

  boot_forever-some :
      (k i last : ℕ) (v : Booted R P) (pool : P)
      → last ≡ i + k
      → UpAt last pool
      → (b : Booted R P) × (boot_forever prometheus json text args around (suc k) i v ≡ some b)
  boot_forever-some zero i last v pool at up =
      let now : UpAt i pool = subst (λ n. UpAt n pool) (at ∙ omega arith) up in
      (_, boot_forever-booted prometheus json text args around 0 i v (attempt-booted i v pool now))
  boot_forever-some (suc k) i last v pool at up =
      let b : Booted R P = next_attempt prometheus json text args around i v in
      elim (Option-cases b.err) [
        | inl good ↦ (_, boot_forever-booted prometheus json text args around (suc k) i v good)
        | inr (e, bad) ↦
            let (found, rest) = boot_forever-some k (i + 1) last b pool (at ∙ omega arith) up in
            (found, boot_forever-retry prometheus json text args around (suc k) i v e bad ∙ rest)
      ]

  -- With a negative number of retries, where the registry refuses duplicates only: if the node and
  -- the database are up at some attempt, the loop ends with no error, and its client is the one of
  -- an attempt no later than that one, ready on the pool that this attempt has opened.
  pub boot_retries-Between :
      (k bc_max_retry : ℕ) (r : R) (pool : P)
      → int_sign ≤ bc_max_retry
      → UpAt k pool
      → (b : Booted R P) × ((boot_retries prometheus json text args around (suc k) bc_max_retry r
            ≡ some b)
          × ((b.err ≡ none) × IsBootedBetween prometheus json text args around 0 (suc k) b))
  unfolding boot_retries
  boot_retries-Between k bc_max_retry r pool negative up =
      let unbounded : leb int_sign bc_max_retry ≡ true = ground arith in
      let (b, ended) =
        boot_forever-some k 0 k (unbooted prometheus json text args around r) pool (omega arith)
          up in
      let (good, between) =
        boot_forever-Between prometheus json text args around (suc k) 0
          (unbooted prometheus json text args around r) b ended in
      (
        b,
        (
          rw unbounded ended,
          (
            good,
            Between-le prometheus json text args around 0 (0 + suc k) (suc k) b (omega arith)
                between,
          ),
        ),
      )
