-- ===== src/Tests/Boots.antt =====
-- The start of the application on small stand-ins: a node that is sick at the first attempt and
-- answers that it is not syncing at the second, a pool that connects, and a registry that is a list.
use mathlib.Core.List.{reverse}
use ipld_eth_beacon_indexer.Base.{
  ℕ, ◌≡◌, ◌↔◌, refl, String, List, [], ◌∷◌, Option, none, some, true, false, str_eq, str_eq_refl,
  inr, ◌==◌, ◌||◌, here, arith, if◌then◌else◌, ◌++◌, map,
}
use ipld_eth_beacon_indexer.Word.{max_u64}
use ipld_eth_beacon_indexer.Slot.{codes, format, parse_slot}
use ipld_eth_beacon_indexer.Text.{atoi, text_lower_eq}
use ipld_eth_beacon_indexer.Sql.{Error}
use ipld_eth_beacon_indexer.Consensus.{coded}
use ipld_eth_beacon_indexer.Server.{decimal, Node, answered, no_answer}
use ipld_eth_beacon_indexer.Action.{done, panic}
use ipld_eth_beacon_indexer.Status.{
  LighthouseDatabaseInfo, Json, no_db_info, check_head_sync, check_beacon_client,
  get_latest_slot_in_beacon_server, query_head_sync, query_lighthouse_db_info, lh_db_info_endpoint,
  query_head_slot_in_beacon_server, is_no_anchor,
}
use ipld_eth_beacon_indexer.Status.Ready.{
  IsAnswer, IsReady, HeadSlot, check_head_sync-eq-IsReady,
  get_latest_slot_in_beacon_server-HeadSlot,
}
use ipld_eth_beacon_indexer.Postgres.{PoolConfig, Pgx, create_driver, setup_postgres_db}
use ipld_eth_beacon_indexer.Postgres.Setup.{Connects, aimed, setup_postgres_db-eq-Connects}
use ipld_eth_beacon_indexer.Client.{
  Prometheus, duplicate, ClientArgs, client_of, endpoint_of, opened, counter_names, register_names,
  create_beacon_client,
}
use ipld_eth_beacon_indexer.Client.Counters.{IsRegistry}
use ipld_eth_beacon_indexer.Boot.{
  Surroundings, BootArgs, Booted, setup_of, boot_application, boot_attempts, boot_retries, unbooted,
  start_up, boot_application_with_retry,
}
use ipld_eth_beacon_indexer.Boot.Attempts.{IsUp}
use ipld_eth_beacon_indexer.Boot.Retries.{IsBootedBetween, boot_retries-Between}
use ipld_eth_beacon_indexer.Boot.Started.{boot_application_with_retry-panic}
use ipld_eth_beacon_indexer.Boot.Exported.{boot_attempts-owner}

abbrev pub json : Json
json = record {
  decode_sync = λ bytes. (
    record { sync_data = record { is_syncing = false; head_slot = codes "7"; sync_distance = [] } },
    none,
  );
  decode_db_info = λ bytes. (no_db_info, none);
}

abbrev pub good_node : Node
good_node = record { get = λ endpoint. answered 200 (coded []) }

abbrev pub sick_node : Node
sick_node = record { get = λ endpoint. no_answer "connection refused" }

abbrev server : String
server = "http://localhost:5052"

check_head_sync-eq-IsReady_example :
    ((check_head_sync json good_node server).1 ≡ none)
    × ((check_head_sync json good_node server ≡ (false, none)) ↔ IsReady json good_node server)
check_head_sync-eq-IsReady_example = check_head_sync-eq-IsReady json good_node server

latest_slot_lem : get_latest_slot_in_beacon_server json good_node server "Lighthouse" ≡ (7, none)
unfolding get_latest_slot_in_beacon_server query_head_slot_in_beacon_server query_head_sync
    query_lighthouse_db_info atoi parse_slot
latest_slot_lem = refl

get_latest_slot_in_beacon_server-HeadSlot_example :
    (text_lower_eq "Lighthouse" "lighthouse" ≡ true)
    × (((info : LighthouseDatabaseInfo) × (IsAnswer json.decode_db_info info
              (good_node.get (codes server ++ codes lh_db_info_endpoint))
            × (is_no_anchor info.anchor ≡ true)))
        × HeadSlot json good_node server 7)
get_latest_slot_in_beacon_server-HeadSlot_example =
    get_latest_slot_in_beacon_server-HeadSlot json good_node server "Lighthouse" 7 latest_slot_lem

abbrev conf : PoolConfig
conf = record {
  host = "localhost";
  port = 5432;
  database = "";
  user = "";
  password = "";
  connect_timeout = 120;
  max_conns = 4;
  min_conns = 0;
  max_conn_lifetime = 3600;
  max_conn_idle_time = 1800;
}

abbrev pub lib : Pgx (Unit {0})
lib = record { parse_config = coded conf; connect_config = λ c. coded tt }

setup_postgres_db-eq-Connects_example :
    (setup_postgres_db lib (λ e. e) "localhost" 8076 "vulcanize_testing" "vdbm" "password" "PGX"
      ≡ coded tt)
    ↔ ((text_lower_eq "PGX" "pgx" || text_lower_eq "PGX" "pgxpool" ≡ true)
        × Connects lib (λ e. e) (aimed "localhost" 8076 "vulcanize_testing" "vdbm" "password") tt)
setup_postgres_db-eq-Connects_example =
    setup_postgres_db-eq-Connects lib (λ e. e) "localhost" 8076 "vulcanize_testing" "vdbm"
      "password" "PGX" tt

abbrev pub Registry : Type 0
Registry = List (String × ℕ)

abbrev pub owner : Registry → String → Option ℕ
owner [] name = none
owner ((taken, counters) ∷ r) name = if str_eq taken name then some counters else owner r name

abbrev pub register : Option ℕ → String → ℕ → Registry → Option Error × Registry
register none name counters r = (none, (name, counters) ∷ r)
register (some first) name counters r = (some duplicate, r)

abbrev pub prometheus : Prometheus Registry
prometheus = record { register = λ name counters r. register (owner r name) name counters r }

register-others :
    (o : Option ℕ) (name other : String) (counters : ℕ) (r : Registry)
    → str_eq name other ≡ false
    → owner (register o name counters r).1 other ≡ owner r other
register-others none name other counters r h = rw h refl
register-others (some first) name other counters r h = refl

prometheus-IsRegistry : IsRegistry prometheus
prometheus-IsRegistry = record {
  owner = owner;
  free = λ name counters r h. rw (h, str_eq_refl name) (refl, refl);
  taken = λ name counters first r h. rw (h, h) (refl, refl);
  others = λ name other counters r h. register-others (owner r name) name other counters r h;
}

abbrev client_args : ClientArgs
client_args = record {
  connection_protocol = "http";
  bc_address = "localhost";
  bc_port = 5052;
  kg_table_increment = 10000;
  unique_node_identifier = 1;
  check_db = true;
  perform_beacon_block_processing = true;
  perform_beacon_state_processing = true;
}

abbrev args : BootArgs
args = record {
  db_hostname = "localhost";
  db_port = 8076;
  db_name = "vulcanize_testing";
  db_username = "vdbm";
  db_password = "password";
  driver_name = "pgx";
  client = client_args;
  disregard_sync = false;
}

-- The node comes up after the first attempt.
abbrev pub around : ℕ → Surroundings (Unit {0})
around i = record { node = if i == 0 then sick_node else good_node; lib = lib }

abbrev sick : ℕ → Surroundings (Unit {0})
sick i = record { node = sick_node; lib = lib }

around-IsUp : IsUp json client_args false (around 1).node (setup_of (λ e. e) args (around 1)) tt
unfolding check_beacon_client setup_postgres_db create_driver check_head_sync query_head_sync
around-IsUp = record { healthy = refl; reached = refl; ready = inr refl }

boot_retries-Between_example :
    (b : Booted Registry (Unit {0})) × ((boot_retries prometheus json
          (λ e. e)
          args
          around
          2
          max_u64
          []
        ≡ some b)
      × ((b.err ≡ none) × IsBootedBetween prometheus json (λ e. e) args around 0 2 b))
boot_retries-Between_example =
    boot_retries-Between prometheus prometheus-IsRegistry json (λ e. e) args around 1 max_u64 [] tt
      (omega arith) around-IsUp

abbrev pub registered : Registry
registered = map (λ name. (name, 0)) (reverse counter_names)

abbrev booted : Booted Registry (Unit {0})
booted = record {
  bc = some (record (client_of client_args 1) { db = opened tt; perform_head_tracking = true });
  db = opened tt;
  err = none;
  registry = registered;
  pools = 1;
}

booted-done :
    boot_application_with_retry prometheus json
      (λ e. e)
      args
      around
      0
      3
      []
      good_node
      "lighthouse"
      "head"
    ≡ some (done booted)
unfolding boot_application_with_retry boot_retries boot_attempts boot_application
    create_beacon_client register_names start_up check_beacon_client setup_postgres_db create_driver
    check_head_sync query_head_sync decimal format
booted-done = refl

sick-refused :
    (i : ℕ) → (e : Error) × (check_beacon_client (sick i).node (endpoint_of client_args) ≡ some e)
unfolding check_beacon_client
sick-refused i = ("connection refused", refl)

boot_application_with_retry-panic_example :
    boot_application_with_retry prometheus json
      (λ e. e)
      args
      sick
      0
      5
      []
      good_node
      "lighthouse"
      "historic"
    ≡ some panic
boot_application_with_retry-panic_example =
    boot_application_with_retry-panic prometheus json (λ e. e) args sick 0 5 [] good_node
      "lighthouse" "historic" sick-refused (omega arith) (omega arith) (inr refl)

boot_attempts-owner_example :
    owner
      (boot_attempts prometheus json
        (λ e. e)
        args
        around
        3
        0
        (unbooted prometheus json (λ e. e) args around [])).registry
      "slot_inserts"
    ≡ some 0
unfolding prometheus-IsRegistry
boot_attempts-owner_example =
    boot_attempts-owner prometheus json (λ e. e) args prometheus-IsRegistry around "slot_inserts"
      (here refl) 2 0 (unbooted prometheus json (λ e. e) args around []) refl
