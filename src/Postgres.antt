-- ===== src/Postgres.antt =====
-- The connection to the database: pkg/database/sql/postgres (config.go, database.go, pgx.go) and
-- pkg/database/sql/error.go. The pgx library is a parameter: `Pgx` for its configuration and its
-- connection, `Pool` for the calls of a pool and of the transaction that is open on it.
pub mod Setup
use Prim.Native.String.{◌++◌ as str_append}
use ipld_eth_beacon_indexer.Base.{
  ℕ, ◌%◌, String, List, Option, none, some, Bool, ◌==◌, ◌&&◌, ◌||◌, not, str_eq, if◌then◌else◌,
}
use ipld_eth_beacon_indexer.Text.{text_lower_eq}
use ipld_eth_beacon_indexer.Server.{decimal}
use ipld_eth_beacon_indexer.Consensus.{Coded, coded, refused}
use ipld_eth_beacon_indexer.Sql.{Error, BatchTable, Stmt, Reply, failed, affected, Row, Driver}

pub data DriverType : Type 0 where
  pgx sqlx unknown : DriverType

abbrev pub resolve_driver_type : String → DriverType × Option Error
resolve_driver_type str =
    if text_lower_eq str "pgx" || text_lower_eq str "pgxpool"
    then (pgx, none)
    else if text_lower_eq str "sqlx"
    then (sqlx, none)
    else (unknown, some (str_append "unrecognized driver type string: " str))

-- The ints and the durations are bit patterns.
pub record Config : Type 0 where
  pub hostname : String
  pub port : ℕ
  pub database_name : String
  pub username : String
  pub password : String
  pub max_conns : ℕ
  pub max_idle : ℕ
  pub min_conns : ℕ
  pub max_conn_idle_time : ℕ
  pub max_conn_lifetime : ℕ
  pub conn_timeout : ℕ
  pub driver : DriverType

abbrev server_part : Config → String
server_part c = str_append c.hostname (
    str_append ":" (
      str_append (decimal c.port) (str_append "/" (str_append c.database_name "?sslmode=disable"))))

-- The port is below 2^63, where `%d` prints it without a sign.
unfoldable pub db_connection_string : Config → String
db_connection_string c =
    if not (str_eq c.username "") && not (str_eq c.password "")
    then str_append "postgresql://" (
        str_append c.username
          (str_append ":" (str_append c.password (str_append "@" (server_part c)))))
    else if not (str_eq c.username "") && str_eq c.password ""
    then str_append "postgresql://" (str_append c.username (str_append "@" (server_part c)))
    else str_append "postgresql://" (server_part c)

-- The fields of `pgxpool.Config` that are set.
pub record PoolConfig : Type 0 where
  pub host : String
  pub port : ℕ
  pub database : String
  pub user : String
  pub password : String
  pub connect_timeout : ℕ
  pub max_conns : ℕ
  pub min_conns : ℕ
  pub max_conn_lifetime : ℕ
  pub max_conn_idle_time : ℕ

-- `pgxpool.ParseConfig("")` and `pgxpool.ConnectConfig`; `P` is a connected pool.
pub record Pgx (P : Type 0) : Type 0 where
  pub parse_config : Coded PoolConfig
  pub connect_config : PoolConfig → Coded P

abbrev unless_zero : (value standard : ℕ) → ℕ
unless_zero value standard = if value == 0 then standard else value

-- The conversions to uint16 and int32 drop the high bits.
abbrev pub configured : Config → PoolConfig → PoolConfig
configured config conf = record {
  host = config.hostname;
  port = config.port % 65536;
  database = config.database_name;
  user = config.username;
  password = config.password;
  connect_timeout = unless_zero config.conn_timeout conf.connect_timeout;
  max_conns = if config.max_conns == 0 then conf.max_conns else config.max_conns % 4294967296;
  min_conns = if config.min_conns == 0 then conf.min_conns else config.min_conns % 4294967296;
  max_conn_lifetime = unless_zero config.max_conn_lifetime conf.max_conn_lifetime;
  max_conn_idle_time = unless_zero config.max_conn_idle_time conf.max_conn_idle_time;
}

abbrev pub with_defaults : Config → Coded PoolConfig → Coded PoolConfig
with_defaults config (refused e) = refused e
with_defaults config (coded conf) = coded (configured config conf)

abbrev pub err_db_connection_failed : Error → Error
err_db_connection_failed e = str_append "db connection failed" (str_append ": " e)

-- The configuration that `SetupPostgresDb` fills in.
abbrev pub postgres_config :
    (hostname : String) → (port : ℕ) (name username password : String) → DriverType → Config
postgres_config hostname port name username password driver = record {
  hostname = hostname;
  port = port;
  database_name = name;
  username = username;
  password = password;
  max_conns = 0;
  max_idle = 0;
  min_conns = 0;
  max_conn_idle_time = 0;
  max_conn_lifetime = 0;
  conn_timeout = 0;
  driver = driver;
}

-- `text` is what fmt makes of an error for "%e".
module _ {P : Type 0} (lib : Pgx P) (text : Error → String) where
  abbrev pub make_config : Config → Coded PoolConfig
  make_config config = with_defaults config lib.parse_config

  abbrev pub connected : Coded P → Coded P
  connected (refused e) = refused (err_db_connection_failed e)
  connected (coded pool) = coded pool

  abbrev pub connect : Coded PoolConfig → Coded P
  connect (refused e) = refused e
  connect (coded conf) = connected (lib.connect_config conf)

  abbrev pub new_pgx_driver : Config → Coded P
  new_pgx_driver config = connect (make_config config)

  abbrev pub created : Coded P → Coded P
  created (refused e) = refused (str_append "Error Creating Driver, err: " (text e))
  created (coded pool) = coded pool

  abbrev pub driver_of : DriverType → Config → Coded P
  driver_of pgx c = created (new_pgx_driver c)
  driver_of sqlx c = refused "Can't find a driver to create"
  driver_of unknown c = refused "Can't find a driver to create"

  unfoldable pub create_driver : Config → Coded P
  create_driver c = driver_of c.driver c

  -- `NewPostgresDB` puts the driver in a `DB`, which only passes its methods on.
  abbrev pub new_postgres_db : Config → Coded P
  new_postgres_db c = create_driver c

  -- The error of `ResolveDriverType` is only logged.
  unfoldable pub setup_postgres_db :
      (hostname : String) → (port : ℕ) (name username password driver_name : String) → Coded P
  setup_postgres_db hostname port name username password driver_name =
      new_postgres_db
        (postgres_config hostname port name username password (resolve_driver_type driver_name).0)

-- The methods of the pool and of the open transaction: `Exec` gives the count of its command tag and
-- its error.
pub record Pool (S : Type 0) : Type 0 where
  pub exec : Stmt → S → (ℕ × Option Error) × S
  pub query_highest_slot : S → Row ℕ × S
  pub begin : S → Option Error × S
  pub tx_exec : Stmt → S → (ℕ × Option Error) × S
  pub tx_get_entry : BatchTable → ℕ → S → Row (ℕ × ℕ) × S
  pub commit : S → Option Error × S
  pub rollback : S → Option Error × S

-- A `resultWrapper` counts the rows without an error.
abbrev pub result : ℕ × Option Error → Reply
result (n, some e) = failed e
result (n, none) = affected n

abbrev replied : {S : Type 0} → (ℕ × Option Error) × S → Reply × S
replied (r, s) = (result r, s)

-- `pgxDriver` with `pgxTxWrapper`.
abbrev pub pgx_driver : {S : Type 0} → Pool S → Driver S
pgx_driver pool = record {
  db_exec = λ stmt s. replied (pool.exec stmt s);
  query_highest_slot = pool.query_highest_slot;
  begin = pool.begin;
  tx_exec = λ stmt s. replied (pool.tx_exec stmt s);
  tx_get_entry = pool.tx_get_entry;
  commit = pool.commit;
  rollback = pool.rollback;
}
