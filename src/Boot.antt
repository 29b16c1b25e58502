-- ===== src/Boot.antt =====
-- The start of the application: internal/boot/boot.go. What the node, the database and the
-- prometheus library answer may differ from one attempt to the next: `Surroundings` of an attempt.
-- The variables `BC` and `DB` of the package and the number of pools that were opened are explicit.
pub mod Attempts
pub mod Retries
pub mod Started
pub mod Exported
use ipld_eth_beacon_indexer.Base.{
  ℕ, zero, suc, ◌+◌, String, Option, none, some, Bool, true, false, leb, if◌then◌else◌,
}
use ipld_eth_beacon_indexer.Word.{int_sign}
use ipld_eth_beacon_indexer.Text.{text_lower_eq}
use ipld_eth_beacon_indexer.Sql.{Error}
use ipld_eth_beacon_indexer.Consensus.{Coded, coded, refused}
use ipld_eth_beacon_indexer.Server.{Node}
use ipld_eth_beacon_indexer.Action.{Outcome, done, fatal, panic}
use ipld_eth_beacon_indexer.Status.{
  Json, check_beacon_client, check_head_sync, get_latest_slot_in_beacon_server,
}
use ipld_eth_beacon_indexer.Postgres.{Pgx, setup_postgres_db}
use ipld_eth_beacon_indexer.Client.{
  Prometheus, Database, no_database, no_driver, opened, BeaconClient, zero_client, ClientArgs,
  create_beacon_client,
}

pub record Surroundings (P : Type 0) : Type 0 where
  pub node : Node
  pub lib : Pgx P

pub record BootArgs : Type 0 where
  pub db_hostname : String
  pub db_port : ℕ
  pub db_name : String
  pub db_username : String
  pub db_password : String
  pub driver_name : String
  pub client : ClientArgs
  pub disregard_sync : Bool

-- What `BootApplication` returns, with the registry of the counters and the pools opened so far.
pub record Booted (R P : Type 0) : Type 0 where
  pub bc : Option (BeaconClient P)
  pub db : Database P
  pub err : Option Error
  pub registry : R
  pub pools : ℕ

module _ {R P : Type 0} where
  abbrev pub synced : BeaconClient P → P → R → (pools : ℕ) → Bool × Option Error → Booted R P
  synced bc pool r pools (status, some e) = record {
    bc = some bc;
    db = opened pool;
    err = some e;
    registry = r;
    pools = pools;
  }
  synced bc pool r pools (true, none) = record {
    bc = some bc;
    db = opened pool;
    err = some "The node is still syncing.";
    registry = r;
    pools = pools;
  }
  synced bc pool r pools (false, none) = record {
    bc = some bc;
    db = opened pool;
    err = none;
    registry = r;
    pools = pools;
  }

  abbrev pub failed_boot : Error → R → (pools : ℕ) → Booted R P
  failed_boot e r pools = record {
    bc = none;
    db = no_database;
    err = some e;
    registry = r;
    pools = pools;
  }

module _ {R P : Type 0} (json : Json) where
  abbrev pub check_sync :
      (disregard_sync : Bool) → Node → BeaconClient P → P → R → (pools : ℕ) → Booted R P
  check_sync true node bc pool r pools = record {
    bc = some bc;
    db = opened pool;
    err = none;
    registry = r;
    pools = pools;
  }
  check_sync false node bc pool r pools =
      synced bc pool r pools (check_head_sync json node bc.server_endpoint)

  abbrev pub after_setup :
      (disregard_sync : Bool) → Node → BeaconClient P → R → (pools : ℕ) → Coded P → Booted R P
  after_setup disregard_sync node bc r pools (refused e) = failed_boot e r pools
  after_setup disregard_sync node bc r pools (coded pool) =
      check_sync disregard_sync node (record bc { db = opened pool }) pool r (pools + 1)

  -- The set-up of the database is the one that comes next, if any.
  abbrev pub after_health :
      (disregard_sync : Bool)
      → Node
      → Coded P
      → BeaconClient P
      → R
      → (pools : ℕ) → Option Error
      → Booted R P
  after_health disregard_sync node setup bc r pools (some e) = failed_boot e r pools
  after_health disregard_sync node setup bc r pools none =
      after_setup disregard_sync node bc r pools setup

  abbrev pub after_create :
      (disregard_sync : Bool)
      → Node
      → Coded P
      → (pools : ℕ) → Coded (BeaconClient P) × R
      → Booted R P
  after_create disregard_sync node setup pools (refused e, r) = failed_boot e r pools
  after_create disregard_sync node setup pools (coded bc, r) =
      after_health disregard_sync node setup bc r pools
        (check_beacon_client node bc.server_endpoint)

module _ {P : Type 0} (text : Error → String) (args : BootArgs) where
  abbrev pub setup_of : Surroundings P → Coded P
  setup_of around =
      setup_postgres_db around.lib text args.db_hostname args.db_port args.db_name args.db_username
        args.db_password args.driver_name

module _ {R P : Type 0} (prometheus : Prometheus R) (json : Json) (text : Error → String)
    (args : BootArgs) where
  -- The attempt with this number, which is the one of its set of counters.
  unfoldable pub boot_application :
      Surroundings P → (attempt : ℕ) → (registry : R) → (pools : ℕ) → Booted R P
  boot_application around attempt r pools =
      after_create json args.disregard_sync around.node (setup_of text args around) pools
        (create_beacon_client prometheus args.client attempt r)

  module _ (around : ℕ → Surroundings P) where
    abbrev pub next_attempt : (attempt : ℕ) → Booted R P → Booted R P
    next_attempt attempt v = boot_application (around attempt) attempt v.registry v.pools

    -- `retry` is what the loop goes on with after an error.
    abbrev pub unless_booted : {A : Type 0} → Option Error → (booted retry : A) → A
    unless_booted none booted retry = booted
    unless_booted (some e) booted retry = retry

    -- `for i := attempt; i < attempt + n; i++`, from the variables `v`.
    unfoldable pub boot_attempts : (n attempt : ℕ) → (v : Booted R P) → Booted R P
    boot_attempts zero attempt v = v
    boot_attempts (suc n) attempt v =
        let b = next_attempt attempt v in unless_booted b.err b (boot_attempts n (attempt + 1) b)

    -- The loop with no bound, on fuel.
    unfoldable pub boot_forever : (fuel attempt : ℕ) → Booted R P → Option (Booted R P)
    boot_forever zero attempt v = none
    boot_forever (suc fuel) attempt v =
        let b = next_attempt attempt v in
        unless_booted b.err (some b) (boot_forever fuel (attempt + 1) b)

    -- `BC` and `DB` before the first attempt.
    abbrev pub unbooted : R → Booted R P
    unbooted r = record {
      bc = some zero_client;
      db = no_driver;
      err = none;
      registry = r;
      pools = 0;
    }

    -- A negative number of retries is no bound.
    unfoldable pub boot_retries : (fuel bc_max_retry : ℕ) → R → Option (Booted R P)
    boot_retries fuel bc_max_retry r =
        if leb int_sign bc_max_retry
        then boot_forever fuel 0 (unbooted r)
        else some (boot_attempts bc_max_retry 0 (unbooted r))

  -- A nil client is dereferenced.
  abbrev pub with_client :
      Option (BeaconClient P) → (BeaconClient P → Outcome (Booted R P)) → Outcome (Booted R P)
  with_client none f = panic
  with_client (some bc) f = f bc

  -- `UpdateLatestSlotInBeaconServer` changes a copy of the client only.
  abbrev pub after_latest_slot : Booted R P → ℕ × Option Error → Outcome (Booted R P)
  after_latest_slot b (slot, some e) = done (record b { err = some e })
  after_latest_slot b (slot, none) = done b

  -- What `BootApplicationWithRetry` does after its loop. An unknown mode is only logged.
  unfoldable pub start_up : Node → (bc_type mode : String) → Booted R P → Outcome (Booted R P)
  start_up node bc_type mode b =
      if text_lower_eq mode "head"
      then with_client b.bc
          (λ bc. done (record b { bc = some (record bc { perform_head_tracking = true }) }))
      else if text_lower_eq mode "historic"
      then with_client b.bc (λ bc.
        after_latest_slot
          (record b { bc = some (record bc { perform_historical_processing = true }) })
          (get_latest_slot_in_beacon_server json node bc.server_endpoint bc_type))
      else done b

  abbrev pub started :
      Node → (bc_type mode : String) → Option (Booted R P) → Option (Outcome (Booted R P))
  started node bc_type mode none = none
  started node bc_type mode (some b) = some (start_up node bc_type mode b)

  -- The last argument but two is what the node answers after the loop.
  unfoldable pub boot_application_with_retry :
      (ℕ → Surroundings P)
      → (fuel bc_max_retry : ℕ) → R
      → Node
      → (bc_type mode : String) → Option (Outcome (Booted R P))
  boot_application_with_retry around fuel bc_max_retry r node bc_type mode =
      started node bc_type mode (boot_retries around fuel bc_max_retry r)
