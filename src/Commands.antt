-- ===== src/Commands.antt =====
-- The commands of the program: `startHeadTracking`, `startHistoricProcessing`, `startFullProcessing`
-- and `bootApp` in cmd/head.go, cmd/historic.go, cmd/full.go and cmd/boot.go. Each boots the
-- application from the configuration and then starts its services; it ends with the shutdown, which
-- is in Shutdown.antt.
pub mod Settings
pub mod Started
pub mod Workers
use Prim.Native.String.{◌++◌ as str_append}
use ipld_eth_beacon_indexer.Base.{ℕ, String, Option, none, some, Bool, true, false, if◌then◌else◌}
use ipld_eth_beacon_indexer.Sql.{Error}
use ipld_eth_beacon_indexer.Server.{Node, decimal}
use ipld_eth_beacon_indexer.Action.{Outcome, done, fatal, panic}
use ipld_eth_beacon_indexer.Status.{Json}
use ipld_eth_beacon_indexer.Client.{
  Prometheus, Database, no_database, no_driver, opened, ClientArgs,
}
use ipld_eth_beacon_indexer.Boot.{Surroundings, BootArgs, Booted, boot_application_with_retry}
use ipld_eth_beacon_indexer.Config.{CommandLine, Viper}

pub data Command : Type 0 where
  head historic full boot : Command

-- What a command has started: the address of the metrics, CaptureHead, and CaptureHistoric and
-- ProcessKnownGaps with their number of workers and their first slot.
pub record Services : Type 0 where
  pub prometheus : Option String
  pub capture_head : Bool
  pub capture_historic : Option (ℕ × ℕ)
  pub process_known_gaps : Option (ℕ × ℕ)

-- The process has exited with status 1, with the pool that it has closed; it has panicked; or it
-- waits for a signal with its services.
pub data CommandState (R P : Type 0) : Type 0 where
  exited : Option P → CommandState R P
  crashed : CommandState R P
  running : Booted R P → Services → CommandState R P

module _ {V : Type 0} (viper : Viper V) (line : CommandLine) (v : V) where
  abbrev pub client_args : ClientArgs
  client_args = record {
    connection_protocol = viper.get_string line v "bc.connectionProtocol";
    bc_address = viper.get_string line v "bc.address";
    bc_port = viper.get_int line v "bc.port";
    kg_table_increment = viper.get_int line v "kg.increment";
    unique_node_identifier = viper.get_int line v "bc.uniqueNodeIdentifier";
    check_db = viper.get_bool line v "bc.checkDb";
    perform_beacon_block_processing = viper.get_bool line v "bc.performBeaconBlockProcessing";
    perform_beacon_state_processing = viper.get_bool line v "bc.performBeaconStateProcessing";
  }

  -- The arguments of `BootApplicationWithRetry`, which are those of all commands but for the mode.
  unfoldable pub boot_args : BootArgs
  boot_args = record {
    db_hostname = viper.get_string line v "db.address";
    db_port = viper.get_int line v "db.port";
    db_name = viper.get_string line v "db.name";
    db_username = viper.get_string line v "db.username";
    db_password = viper.get_string line v "db.password";
    driver_name = viper.get_string line v "db.driver";
    client = client_args;
    disregard_sync = viper.get_bool line v "t.skipSync";
  }

  abbrev pub prometheus_address : Option String
  prometheus_address =
      if viper.get_bool line v "pm.metrics"
      then some (
          str_append (viper.get_string line v "pm.address")
            (str_append ":" (decimal (viper.get_int line v "pm.port"))))
      else none

  abbrev pub historic_settings : ℕ × ℕ
  historic_settings =
      (viper.get_int line v "bc.maxHistoricProcessWorker", viper.get_uint64 line v "bc.minimumSlot")

  unfoldable pub known_gaps_settings : Option (ℕ × ℕ)
  known_gaps_settings =
      if viper.get_bool line v "kg.processKnownGaps"
      then some
          (viper.get_int line v "kg.maxKnownGapsWorker", viper.get_uint64 line v "kg.minimumSlot")
      else none

  module _ {R P : Type 0} (prometheus : Prometheus R) (json : Json) (text : Error → String)
      (around : ℕ → Surroundings P) (fuel : ℕ) (registry : R) (node : Node) where
    -- none while the application is still booting.
    abbrev pub booted : (mode : String) → Option (Outcome (Booted R P))
    booted mode =
        boot_application_with_retry prometheus json text boot_args around fuel
          (viper.get_int line v "bc.bootMaxRetry") registry node (viper.get_string line v "bc.type")
          mode

    -- To close a database with no driver is a nil dereference.
    abbrev pub stop_application_pre_boot : Database P → CommandState R P
    stop_application_pre_boot no_database = exited none
    stop_application_pre_boot no_driver = crashed
    stop_application_pre_boot (opened pool) = exited (some pool)

    abbrev pub unless_failed : Booted R P → Services → Option Error → CommandState R P
    unless_failed b services (some e) = stop_application_pre_boot b.db
    unless_failed b services none = running b services

    abbrev pub after_boot : Services → Option (Outcome (Booted R P)) → Option (CommandState R P)
    after_boot services none = none
    after_boot services (some (done b)) = some (unless_failed b services b.err)
    after_boot services (some fatal) = some crashed
    after_boot services (some panic) = some crashed

    unfoldable pub start_head_tracking : Option (CommandState R P)
    start_head_tracking =
        after_boot
          (record {
            prometheus = prometheus_address;
            capture_head = true;
            capture_historic = none;
            process_known_gaps = known_gaps_settings;
          })
          (booted "head")

    unfoldable pub start_historic_processing : Option (CommandState R P)
    start_historic_processing =
        after_boot
          (record {
            prometheus = prometheus_address;
            capture_head = false;
            capture_historic = some historic_settings;
            process_known_gaps = known_gaps_settings;
          })
          (booted "historic")

    -- In the mode of the head.
    unfoldable pub start_full_processing : Option (CommandState R P)
    start_full_processing =
        after_boot
          (record {
            prometheus = prometheus_address;
            capture_head = true;
            capture_historic = some historic_settings;
            process_known_gaps = known_gaps_settings;
          })
          (booted "head")

    unfoldable pub boot_app : Option (CommandState R P)
    boot_app =
        after_boot
          (record {
            prometheus = none;
            capture_head = false;
            capture_historic = none;
            process_known_gaps = none;
          })
          (booted "boot")

    -- The `Run` field of each command.
    unfoldable pub run : Command → Option (CommandState R P)
    run head = start_head_tracking
    run historic = start_historic_processing
    run full = start_full_processing
    run boot = boot_app
