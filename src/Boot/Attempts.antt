-- ===== src/Boot/Attempts.antt =====
-- When one attempt of `BootApplication` (internal/boot/boot.go) succeeds.
use ipld_eth_beacon_indexer.Base.{
  ℕ, ◌+◌, ◌≡◌, ◌⊎◌, refl, String, Option, none, some, Bool, true, false, inl, inr,
}
use ipld_eth_beacon_indexer.Sql.{Error}
use ipld_eth_beacon_indexer.Consensus.{Coded, coded, refused}
use ipld_eth_beacon_indexer.Server.{Node}
use ipld_eth_beacon_indexer.Status.{Json, check_beacon_client, check_head_sync}
use ipld_eth_beacon_indexer.Client.{
  Prometheus, opened, BeaconClient, ClientArgs, counter_names, client_of, endpoint_of, with_metrics,
  create_beacon_client, create_beacon_client_metrics,
}
use ipld_eth_beacon_indexer.Client.Counters.{IsRegistry, register_names-none}
use ipld_eth_beacon_indexer.Boot.{
  Surroundings, BootArgs, Booted, synced, check_sync, after_health, after_create, setup_of,
  boot_application,
}

module _ {P : Type 0} (json : Json) (args : ClientArgs) (disregard_sync : Bool) where
  -- The node is healthy, the database is reached, and the node is not syncing unless that is
  -- disregarded.
  pub record IsUp (node : Node) (setup : Coded P) (pool : P) : Type 0 where
    pub healthy : check_beacon_client node (endpoint_of args) ≡ none
    pub reached : setup ≡ coded pool
    pub ready :
        (disregard_sync ≡ true) ⊎ (check_head_sync json node (endpoint_of args) ≡ (false, none))

  -- The client of this attempt is ready, on a pool that this attempt has opened.
  pub record IsBooted {R : Type 0} (node : Node) (setup : Coded P) (attempt : ℕ) (b : Booted R P)
      : Type 0 where
    pub pool : P
    pub bc : b.bc ≡ some (record (client_of args attempt) { db = opened pool })
    pub db : b.db ≡ opened pool
    pub up : IsUp node setup pool

synced-inv :
    {R P : Type 0} (bc : BeaconClient P) (pool : P) (r : R) (n : ℕ) (s : Bool × Option Error)
    → (synced bc pool r n s).err ≡ none
    → (s ≡ (false, none))
      × (((synced bc pool r n s).bc ≡ some bc) × ((synced bc pool r n s).db ≡ opened pool))
synced-inv bc pool r n (status, some e) h = absurd cc
synced-inv bc pool r n (true, none) h = absurd cc
synced-inv bc pool r n (false, none) h = (refl, (refl, refl))

module _ {R P : Type 0} (json : Json) (args : ClientArgs) (node : Node) (attempt : ℕ) where
  check_sync-IsBooted :
      (d : Bool) (pool : P) (r : R) (n : ℕ)
      → check_beacon_client node (endpoint_of args) ≡ none
      → (check_sync json d node (record (client_of args attempt) { db = opened pool }) pool r n).err
        ≡ none
      → IsBooted json args d node
          (coded pool)
          attempt
          (check_sync json d node (record (client_of args attempt) { db = opened pool }) pool r n)
  check_sync-IsBooted true pool r n healthy h = record {
    pool = pool;
    bc = refl;
    db = refl;
    up = record { healthy = healthy; reached = refl; ready = inl refl };
  }
  check_sync-IsBooted false pool r n healthy h =
      let (ready, (bc, db)) =
        synced-inv (record (client_of args attempt) { db = opened pool }) pool r n
          (check_head_sync json node (endpoint_of args)) h in
      record {
        pool = pool;
        bc = bc;
        db = db;
        up = record { healthy = healthy; reached = refl; ready = inr ready };
      }

  after_health-IsBooted :
      (d : Bool) (setup : Coded P) (r : R) (n : ℕ) (health : Option Error)
      → check_beacon_client node (endpoint_of args) ≡ health
      → (after_health json d node setup (client_of args attempt) r n health).err ≡ none
      → IsBooted json args d node setup attempt
          (after_health json d node setup (client_of args attempt) r n health)
  after_health-IsBooted d setup r n (some e) q h = absurd cc
  after_health-IsBooted d (refused e) r n none q h = absurd cc
  after_health-IsBooted d (coded pool) r n none q h = check_sync-IsBooted d pool r (n + 1) q h

module _ {R P : Type 0} (prometheus : Prometheus R) (json : Json) (text : Error → String)
    (args : BootArgs) (around : Surroundings P) (attempt : ℕ) where
  abbrev setup : Coded P
  setup = setup_of text args around

  metrics-IsBooted :
      (pools : ℕ) (m : Option Error × R)
      → (after_create json args.disregard_sync around.node setup pools
          (with_metrics prometheus args.client attempt m)).err
        ≡ none
      → IsBooted json args.client args.disregard_sync around.node setup attempt (
          after_create json args.disregard_sync around.node setup pools
            (with_metrics prometheus args.client attempt m))
  metrics-IsBooted pools (some e, r) h = absurd cc
  metrics-IsBooted pools (none, r) h =
      after_health-IsBooted json args.client around.node attempt args.disregard_sync setup r pools
        (check_beacon_client around.node (endpoint_of args.client)) refl h

  pub boot_application-IsBooted :
      (r : R) (pools : ℕ)
      → (boot_application prometheus json text args around attempt r pools).err ≡ none
      → IsBooted json args.client args.disregard_sync around.node setup attempt
          (boot_application prometheus json text args around attempt r pools)
  unfolding boot_application create_beacon_client
  boot_application-IsBooted r pools h =
      metrics-IsBooted pools (create_beacon_client_metrics prometheus attempt r) h

module _ {R P : Type 0} (json : Json) (args : ClientArgs) (node : Node) (attempt : ℕ) where
  check_sync-booted :
      (d : Bool) (bc : BeaconClient P) (pool : P) (r : R) (n : ℕ)
      → (d ≡ true) ⊎ (check_head_sync json node bc.server_endpoint ≡ (false, none))
      → (check_sync json d node bc pool r n).err ≡ none
  check_sync-booted true bc pool r n ready = refl
  check_sync-booted false bc pool r n (inl skip) = absurd cc
  check_sync-booted false bc pool r n (inr idle) = rw idle refl

  after_create-booted :
      (d : Bool) (setup : Coded P) (pool : P) (n : ℕ) (r : R)
      → IsUp json args d node setup pool
      → (after_create json d node setup n (coded (client_of args attempt), r)).err ≡ none
  after_create-booted d setup pool n r up =
      rw (up.healthy, up.reached)
        (check_sync-booted d (record (client_of args attempt) { db = opened pool }) pool r (n + 1)
          up.ready)

module _ {R P : Type 0} (prometheus : Prometheus R) (laws : IsRegistry prometheus) (json : Json)
    (text : Error → String) (args : BootArgs) where
  with_metrics-coded :
      (attempt : ℕ) (m : Option Error × R)
      → m.0 ≡ none
      → with_metrics {P = P} prometheus args.client attempt m
        ≡ (coded (client_of args.client attempt), m.1)
  with_metrics-coded attempt (some e, r) h = absurd cc
  with_metrics-coded attempt (none, r) h = refl

  create_beacon_client-coded :
      (attempt : ℕ) (r : R)
      → create_beacon_client {P = P} prometheus args.client attempt r ≡ (
        coded (client_of args.client attempt),
        (create_beacon_client_metrics prometheus attempt r).1,
      )
  unfolding create_beacon_client
  create_beacon_client-coded attempt r =
      with_metrics-coded attempt (create_beacon_client_metrics prometheus attempt r)
        (register_names-none prometheus laws counter_names attempt r)

  -- An attempt that finds the node and the database up succeeds.
  pub boot_application-booted :
      (around : Surroundings P) (attempt : ℕ) (r : R) (pools : ℕ) (pool : P)
      → IsUp json args.client args.disregard_sync around.node (setup_of text args around) pool
      → (boot_application prometheus json text args around attempt r pools).err ≡ none
  unfolding boot_application
  boot_application-booted around attempt r pools pool up =
      rw (create_beacon_client-coded attempt r) (
        after_create-booted json args.client around.node attempt args.disregard_sync
          (setup_of text args around) pool pools
          (create_beacon_client_metrics prometheus attempt r).1 up)
