-- ===== src/Status.antt =====
-- The state of the beacon node: pkg/beaconclient/checkbeaconserverstatus.go and healthcheck.go. The
-- decoding of json is a parameter, `Json`.
pub mod Ready
use Prim.Native.String.{◌++◌ as str_append}
use ipld_eth_beacon_indexer.Base.{
  ℕ, String, List, [], ◌∷◌, ◌++◌, Option, none, some, Bool, true, false, ltb, ◌||◌, ◌&&◌,
  if◌then◌else◌,
}
use ipld_eth_beacon_indexer.Slot.{NumError, codes}
use ipld_eth_beacon_indexer.Text.{atoi, codes_eq, text_lower_eq}
use ipld_eth_beacon_indexer.Sql.{Error}
use ipld_eth_beacon_indexer.Consensus.{Coded, coded, refused}
use ipld_eth_beacon_indexer.Server.{Node, Response, no_request, no_answer, answered, decimal}

abbrev pub health_endpoint : String
health_endpoint = "/eth/v1/node/health"

abbrev pub sync_status_endpoint : String
sync_status_endpoint = "/eth/v1/node/syncing"

abbrev pub lh_db_info_endpoint : String
lh_db_info_endpoint = "/lighthouse/database/info"

pub record SyncData : Type 0 where
  pub is_syncing : Bool
  pub head_slot : List ℕ
  pub sync_distance : List ℕ

pub record Sync : Type 0 where
  pub sync_data : SyncData

pub record LhDbConfig : Type 0 where
  pub slots_per_restore_point : ℕ
  pub slots_per_restore_point_set_explicitly : Bool
  pub block_cache_size : ℕ
  pub compact_on_init : Bool
  pub compact_on_prune : Bool

pub record LhDbSplit : Type 0 where
  pub slot : List ℕ
  pub state_root : List ℕ

pub record LhDbAnchor : Type 0 where
  pub anchor_slot : List ℕ
  pub oldest_block_slot : List ℕ
  pub oldest_block_parent : List ℕ
  pub state_upper_limit : List ℕ
  pub state_lower_limit : List ℕ

pub record LighthouseDatabaseInfo : Type 0 where
  pub schema_version : ℕ
  pub config : LhDbConfig
  pub split : LhDbSplit
  pub anchor : LhDbAnchor

-- `json.Unmarshal` into a zero value: what it has set, and its error.
pub record Json : Type 0 where
  pub decode_sync : List ℕ → Sync × Option Error
  pub decode_db_info : List ℕ → LighthouseDatabaseInfo × Option Error

abbrev pub no_sync : Sync
no_sync = record { sync_data = record { is_syncing = false; head_slot = []; sync_distance = [] } }

abbrev pub no_db_info : LighthouseDatabaseInfo
no_db_info = record {
  schema_version = 0;
  config = record {
    slots_per_restore_point = 0;
    slots_per_restore_point_set_explicitly = false;
    block_cache_size = 0;
    compact_on_init = false;
    compact_on_prune = false;
  };
  split = record { slot = []; state_root = [] };
  anchor = record {
    anchor_slot = [];
    oldest_block_slot = [];
    oldest_block_parent = [];
    state_upper_limit = [];
    state_lower_limit = [];
  };
}

abbrev pub decoded_body :
    {A : Type 0} → A → (List ℕ → A × Option Error) → Coded (List ℕ) → A × Option Error
decoded_body zero_value decode (refused e) = (zero_value, some e)
decoded_body zero_value decode (coded bytes) = decode bytes

abbrev pub missing_beacon_server_type : Error
missing_beacon_server_type = "The beacon server type provided is not handled."

abbrev pub lighthouse_missing_slots : Error
lighthouse_missing_slots =
    "Anchor is not nil. This means lighthouse has not backfilled all the slots from Genesis to head."

-- `lhDb.Anchor == (LhDbAnchor{})`
abbrev pub is_no_anchor : LhDbAnchor → Bool
is_no_anchor a =
    codes_eq a.anchor_slot []
    && codes_eq a.oldest_block_slot []
    && codes_eq a.oldest_block_parent []
    && codes_eq a.state_upper_limit []
    && codes_eq a.state_lower_limit []

-- What the two queries share: `http.Get`, the test of the status, the reading of the body and its
-- decoding. `text` begins the error for another status than 2xx.
abbrev pub query_json :
    {A : Type 0} → A → (List ℕ → A × Option Error) → (text : String) → Response → A × Option Error
query_json zero_value decode text (no_request e) = (zero_value, some e)
query_json zero_value decode text (no_answer e) = (zero_value, some e)
query_json zero_value decode text (answered rc body) =
    if ltb rc 200 || ltb 299 rc
    then (zero_value, some (str_append text (decimal rc)))
    else decoded_body zero_value decode body

abbrev health_error : Response → Option Error
health_error (no_request e) = some e
health_error (no_answer e) = some e
health_error (answered rc body) =
    if ltb rc 200 || ltb 299 rc
    then some
        (str_append "beacon Node Provided a non 2xx status code, code provided: " (decimal rc))
    else none

module _ (node : Node) (server : String) where
  unfoldable pub check_beacon_client : Option Error
  check_beacon_client = health_error (node.get (codes server ++ codes health_endpoint))

abbrev pub syncing : Sync × Option Error → Bool × Option Error
syncing (status, some e) = (true, none)
syncing (status, none) = (status.sync_data.is_syncing, none)

abbrev pub atoi_or_zero : ℕ × Option NumError → ℕ × Option Error
atoi_or_zero (n, some e) = (0, none)
atoi_or_zero (n, none) = (n, none)

abbrev pub head_slot_of : Sync × Option Error → ℕ × Option Error
head_slot_of (status, some e) = (0, none)
head_slot_of (status, none) = atoi_or_zero (atoi status.sync_data.head_slot)

abbrev pub latest_slot : ℕ → LighthouseDatabaseInfo × Option Error → ℕ × Option Error
latest_slot head_slot (db_info, some e) = (0, some e)
latest_slot head_slot (db_info, none) =
    if is_no_anchor db_info.anchor then (head_slot, none) else (0, some lighthouse_missing_slots)

module _ (json : Json) (node : Node) (server : String) where
  unfoldable pub query_head_sync : Sync × Option Error
  query_head_sync =
      query_json no_sync json.decode_sync
        "Querying the sync status returned a non 2xx status code, code provided: "
        (node.get (codes server ++ codes sync_status_endpoint))

  -- A node whose state cannot be read counts as one that is still syncing.
  unfoldable pub check_head_sync : Bool × Option Error
  check_head_sync = syncing query_head_sync

  -- The slot is an int. Both errors are dropped for the slot 0.
  unfoldable pub query_head_slot_in_beacon_server : ℕ × Option Error
  query_head_slot_in_beacon_server = head_slot_of query_head_sync

  unfoldable pub query_lighthouse_db_info : LighthouseDatabaseInfo × Option Error
  query_lighthouse_db_info =
      query_json no_db_info json.decode_db_info
        "Querying the lighthouse database information returned a non 2xx status code, code provided: "
        (node.get (codes server ++ codes lh_db_info_endpoint))

  abbrev pub after_head_slot : ℕ × Option Error → ℕ × Option Error
  after_head_slot (head_slot, some e) = (0, some e)
  after_head_slot (head_slot, none) = latest_slot head_slot query_lighthouse_db_info

  unfoldable pub get_latest_slot_in_beacon_server : (beacon_server_type : String) → ℕ × Option Error
  get_latest_slot_in_beacon_server beacon_server_type =
      if text_lower_eq beacon_server_type "lighthouse"
      then after_head_slot query_head_slot_in_beacon_server
      else (0, some missing_beacon_server_type)
