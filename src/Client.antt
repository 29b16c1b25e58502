-- ===== src/Client.antt =====
-- The construction of the beacon client: `CreateBeaconClient` and `createSseEvent` of
-- pkg/beaconclient/beaconclient.go, and the registration of its counters in metrics.go. The
-- registry of the prometheus library is a parameter, `Prometheus`; a set of counters is given by a
-- number.
pub mod Counters
use Prim.Native.String.{◌++◌ as str_append}
use ipld_eth_beacon_indexer.Base.{
  ℕ, String, List, [], ◌∷◌, Option, none, some, Bool, false, str_eq, if◌then◌else◌,
}
use ipld_eth_beacon_indexer.Server.{decimal}
use ipld_eth_beacon_indexer.Sql.{Error}
use ipld_eth_beacon_indexer.Consensus.{Coded, coded, refused}

-- `prometheus.Register` of a counter that reads one of the counters of a set.
pub record Prometheus (R : Type 0) : Type 0 where
  pub register : (name : String) → (counters : ℕ) → R → Option Error × R

abbrev pub duplicate : Error
duplicate = "duplicate metrics collector registration attempted"

abbrev pub unless_duplicate : Option Error → Option Error
unless_duplicate none = none
unless_duplicate (some e) = if str_eq e duplicate then none else some e

-- In the order of the code.
abbrev pub counter_names : List String
counter_names =
    "slot_inserts" ∷ "reorg_inserts" ∷ "known_gaps_inserts" ∷ "known_gaps_reprocess_error"
    ∷ "known_gaps_processed" ∷ "historic_slots_processed" ∷ "head_error" ∷ "head_reorg_error" ∷ []

module _ {R : Type 0} (prometheus : Prometheus R) where
  abbrev pub helped : Option Error × R → Option Error × R
  helped (e, r) = (unless_duplicate e, r)

  abbrev pub prometheus_register_helper : (name : String) → (counters : ℕ) → R → Option Error × R
  prometheus_register_helper name counters r = helped (prometheus.register name counters r)

  -- The first error ends the registration.
  abbrev pub or_register : (R → Option Error × R) → Option Error × R → Option Error × R
  or_register rest (some e, r) = (some e, r)
  or_register rest (none, r) = rest r

  unfoldable pub register_names : List String → (counters : ℕ) → R → Option Error × R
  register_names [] counters r = (none, r)
  register_names (name ∷ names) counters r =
      or_register (register_names names counters) (prometheus_register_helper name counters r)

  abbrev pub create_beacon_client_metrics : (counters : ℕ) → R → Option Error × R
  create_beacon_client_metrics counters r = register_names counter_names counters r

-- `DB`: a nil interface, a `postgres.DB` with no driver, or one of a connected pool.
pub data Database (P : Type 0) : Type 0 where
  no_database no_driver : Database P
  opened : P → Database P

-- `BeaconClient`, less its contexts and channels and what head tracking changes.
pub record BeaconClient (P : Type 0) : Type 0 where
  pub server_endpoint : String
  pub db : Database P
  pub counters : Option ℕ
  pub known_gap_table_increment : ℕ
  pub unique_node_identifier : ℕ
  pub check_db : Bool
  pub perform_beacon_state_processing : Bool
  pub perform_beacon_block_processing : Bool
  pub perform_head_tracking : Bool
  pub head_tracking : String
  pub reorg_tracking : String
  pub perform_historical_processing : Bool

-- `&beaconclient.BeaconClient{}`
abbrev pub zero_client : {P : Type 0} → BeaconClient P
zero_client = record {
  server_endpoint = "";
  db = no_database;
  counters = none;
  known_gap_table_increment = 0;
  unique_node_identifier = 0;
  check_db = false;
  perform_beacon_state_processing = false;
  perform_beacon_block_processing = false;
  perform_head_tracking = false;
  head_tracking = "";
  reorg_tracking = "";
  perform_historical_processing = false;
}

-- What the two functions that make a client take of the configuration.
pub record ClientArgs : Type 0 where
  pub connection_protocol : String
  pub bc_address : String
  pub bc_port : ℕ
  pub kg_table_increment : ℕ
  pub unique_node_identifier : ℕ
  pub check_db : Bool
  pub perform_beacon_block_processing : Bool
  pub perform_beacon_state_processing : Bool

abbrev pub endpoint_of : ClientArgs → String
endpoint_of a =
    str_append a.connection_protocol
      (str_append "://" (str_append a.bc_address (str_append ":" (decimal a.bc_port))))

-- The endpoint of a topic; its channels are not read here.
abbrev create_sse_event : (base_endpoint path : String) → String
create_sse_event base_endpoint path = str_append base_endpoint path

-- The identifier that is drawn for 0 is a new variable of the block that draws it: 0 stays.
abbrev pub client_of : {P : Type 0} → ClientArgs → (counters : ℕ) → BeaconClient P
client_of a counters = record zero_client {
  server_endpoint = endpoint_of a;
  counters = some counters;
  known_gap_table_increment = a.kg_table_increment;
  head_tracking = create_sse_event (endpoint_of a) "/eth/v1/events?topics=head";
  reorg_tracking = create_sse_event (endpoint_of a) "/eth/v1/events?topics=chain_reorg";
  unique_node_identifier = a.unique_node_identifier;
  check_db = a.check_db;
  perform_beacon_block_processing = a.perform_beacon_block_processing;
  perform_beacon_state_processing = a.perform_beacon_state_processing;
}

module _ {R P : Type 0} (prometheus : Prometheus R) (a : ClientArgs) (counters : ℕ) where
  abbrev pub with_metrics : Option Error × R → Coded (BeaconClient P) × R
  with_metrics (some e, r) = (refused e, r)
  with_metrics (none, r) = (coded (client_of a counters), r)

  -- A client or an error; `counters` is the set that `CreateBeaconClientMetrics` makes.
  unfoldable pub create_beacon_client : R → Coded (BeaconClient P) × R
  create_beacon_client r = with_metrics (create_beacon_client_metrics prometheus counters r)
