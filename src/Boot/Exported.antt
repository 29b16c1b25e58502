-- ===== src/Boot/Exported.antt =====
-- Which client the exported counters belong to after `BootApplicationWithRetry`
-- (internal/boot/boot.go, pkg/beaconclient/metrics.go).
use ipld_eth_beacon_indexer.Base.{
  ℕ, zero, suc, ◌+◌, ◌≡◌, refl, sym, subst, String, Option, none, some, Bool, true, false, str_eq,
  inl, inr, Option-cases, Any,
}
use ipld_eth_beacon_indexer.Sql.{Error}
use ipld_eth_beacon_indexer.Consensus.{Coded, coded, refused}
use ipld_eth_beacon_indexer.Server.{Node}
use ipld_eth_beacon_indexer.Status.{Json, check_beacon_client, check_head_sync}
use ipld_eth_beacon_indexer.Client.{
  Prometheus, BeaconClient, client_of, counter_names, with_metrics, create_beacon_client,
  create_beacon_client_metrics, opened,
}
use ipld_eth_beacon_indexer.Client.Counters.{IsRegistry, register_names-kept, register_names-owned}
use ipld_eth_beacon_indexer.Boot.{
  Surroundings, BootArgs, Booted, setup_of, synced, check_sync, after_health, after_create,
  boot_application, next_attempt, boot_attempts,
}
use ipld_eth_beacon_indexer.Boot.Retries.{boot_attempts-booted, boot_attempts-retry}

synced-registry :
    {R P : Type 0} (bc : BeaconClient P) (pool : P) (r : R) (n : ℕ) (s : Bool × Option Error)
    → (synced bc pool r n s).registry ≡ r
synced-registry bc pool r n (status, some e) = refl
synced-registry bc pool r n (true, none) = refl
synced-registry bc pool r n (false, none) = refl

module _ {R P : Type 0} (json : Json) (node : Node) where
  check_sync-registry :
      (d : Bool) (bc : BeaconClient P) (pool : P) (r : R) (n : ℕ)
      → (check_sync json d node bc pool r n).registry ≡ r
  check_sync-registry true bc pool r n = refl
  check_sync-registry false bc pool r n =
      synced-registry bc pool r n (check_head_sync json node bc.server_endpoint)

  after_health-registry :
      (d : Bool) (setup : Coded P) (bc : BeaconClient P) (r : R) (n : ℕ) (e : Option Error)
      → (after_health json d node setup bc r n e).registry ≡ r
  after_health-registry d setup bc r n (some e) = refl
  after_health-registry d (refused e) bc r n none = refl
  after_health-registry d (coded pool) bc r n none =
      check_sync-registry d (record bc { db = opened pool }) pool r (n + 1)

module _ {R P : Type 0} (prometheus : Prometheus R) (json : Json) (text : Error → String)
    (args : BootArgs) where
  after_create-registry :
      (around : Surroundings P) (attempt pools : ℕ) (m : Option Error × R)
      → (after_create json args.disregard_sync around.node
          (setup_of text args around)
          pools
          (with_metrics prometheus args.client attempt m)).registry
        ≡ m.1
  after_create-registry around attempt pools (some e, r) = refl
  after_create-registry around attempt pools (none, r) =
      after_health-registry json around.node args.disregard_sync (setup_of text args around)
        (client_of args.client attempt) r pools
        (check_beacon_client around.node (client_of {P = P} args.client attempt).server_endpoint)

  boot_application-registry :
      (around : Surroundings P) (attempt : ℕ) (r : R) (pools : ℕ)
      → (boot_application prometheus json text args around attempt r pools).registry
        ≡ (create_beacon_client_metrics prometheus attempt r).1
  unfolding boot_application create_beacon_client
  boot_application-registry around attempt r pools =
      after_create-registry around attempt pools (create_beacon_client_metrics prometheus attempt r)

  module _ (laws : IsRegistry prometheus) (around : ℕ → Surroundings P) (name : String)
      (listed : Any (λ n. str_eq n name ≡ true) counter_names) where
    abbrev OwnedBy : ℕ → Booted R P → Type 0
    OwnedBy first b = laws.owner b.registry name ≡ some first

    abbrev attempt_at : ℕ → Booted R P → Booted R P
    attempt_at i v = next_attempt prometheus json text args around i v

    attempt-kept :
        (i first : ℕ) (v : Booted R P)
        → laws.owner v.registry name ≡ some first
        → OwnedBy first (attempt_at i v)
    attempt-kept i first v h =
        subst (λ r. laws.owner r name ≡ some first)
          (sym (boot_application-registry (around i) i v.registry v.pools))
          (register_names-kept prometheus laws counter_names name i first v.registry h)

    attempt-owned :
        (i : ℕ) (v : Booted R P) → laws.owner v.registry name ≡ none → OwnedBy i (attempt_at i v)
    attempt-owned i v h =
        subst (λ r. laws.owner r name ≡ some i)
          (sym (boot_application-registry (around i) i v.registry v.pools))
          (register_names-owned prometheus laws counter_names name i v.registry listed h)

    attempts-kept :
        (n i first : ℕ) (v : Booted R P)
        → OwnedBy first v
        → OwnedBy first (boot_attempts prometheus json text args around n i v)
    unfolding boot_attempts
    attempts-kept zero i first v h = h
    attempts-kept (suc n) i first v h = elim (Option-cases (attempt_at i v).err) [
      | inl good ↦
          subst (OwnedBy first)
            (sym (boot_attempts-booted prometheus json text args around n i v good))
            (attempt-kept i first v h)
      | inr (e, bad) ↦
          subst (OwnedBy first)
            (sym (boot_attempts-retry prometheus json text args around n i v e bad))
            (attempts-kept n (i + 1) first (attempt_at i v) (attempt-kept i first v h))
    ]

    -- Where a counter was not registered before the first of several attempts, it is exported from
    -- the counters of the client of that attempt, whichever attempt the client in use comes from.
    pub boot_attempts-owner :
        (n i : ℕ) (v : Booted R P)
        → laws.owner v.registry name ≡ none
        → laws.owner (boot_attempts prometheus json text args around (suc n) i v).registry name
          ≡ some i
    boot_attempts-owner n i v h = elim (Option-cases (attempt_at i v).err) [
      | inl good ↦
          subst (OwnedBy i) (sym (boot_attempts-booted prometheus json text args around n i v good))
            (attempt-owned i v h)
      | inr (e, bad) ↦
          subst (OwnedBy i) (sym (boot_attempts-retry prometheus json text args around n i v e bad))
            (attempts-kept n (i + 1) i (attempt_at i v) (attempt-owned i v h))
    ]
