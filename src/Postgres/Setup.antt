-- ===== src/Postgres/Setup.antt =====
-- When SetupPostgresDb (pkg/database/sql/postgres/database.go) connects, and to what.
use ipld_eth_beacon_indexer.Base.{ℕ, ◌≡◌, ◌↔◌, refl, String, true, ◌%◌, ◌||◌, inl, inr, Bool-cases}
use ipld_eth_beacon_indexer.Text.{text_lower_eq}
use ipld_eth_beacon_indexer.Consensus.{Coded, coded, refused}
use ipld_eth_beacon_indexer.Sql.{Error}
use ipld_eth_beacon_indexer.Postgres.{
  pgx, Config, PoolConfig, Pgx, configured, with_defaults, postgres_config, connected, connect,
  created, create_driver, setup_postgres_db,
}

-- What is asked of the library: its own configuration, with the server, the user and the low 16 bits
-- of the port put in.
abbrev pub aimed : (hostname : String) → ℕ → String → String → String → PoolConfig → PoolConfig
aimed hostname port name username password conf = record conf {
  host = hostname;
  port = port % 65536;
  database = name;
  user = username;
  password = password;
}

module _ {P : Type 0} (lib : Pgx P) (text : Error → String) where
  abbrev pub Connects : (target : PoolConfig → PoolConfig) → P → Type 0
  Connects target pool =
      (conf : PoolConfig) × ((lib.parse_config ≡ coded conf)
        × (lib.connect_config (target conf) ≡ coded pool))

  connected-coded :
      (r : Coded P) (pool : P)
      → created lib text (connected lib text r) ≡ coded pool
      → r ≡ coded pool
  connected-coded (refused e) pool h = absurd cc
  connected-coded (coded p) pool h = h

  connect-Connects :
      (config : Config) (r : Coded PoolConfig) (pool : P)
      → lib.parse_config ≡ r
      → created lib text (connect lib text (with_defaults config r)) ≡ coded pool
      → Connects (configured config) pool
  connect-Connects config (refused e) pool parsed h = absurd cc
  connect-Connects config (coded conf) pool parsed h =
      (conf, (parsed, connected-coded (lib.connect_config (configured config conf)) pool h))

  module _ (hostname : String) (port : ℕ) (name username password : String) where
    abbrev Target : P → Type 0
    Target pool = Connects (aimed hostname port name username password) pool

    setup-Connects :
        (driver_name : String) (pool : P)
        → setup_postgres_db lib text hostname port name username password driver_name ≡ coded pool
        → (text_lower_eq driver_name "pgx" || text_lower_eq driver_name "pgxpool" ≡ true)
          × Target pool
    unfolding setup_postgres_db create_driver
    setup-Connects driver_name pool h =
        elim (Bool-cases (text_lower_eq driver_name "pgx" || text_lower_eq driver_name "pgxpool")) [
          | inl known ↦ (
            known,
            connect-Connects (postgres_config hostname port name username password pgx)
                lib.parse_config pool refl (rw known at h),
          )
          | inr other ↦ elim (Bool-cases (text_lower_eq driver_name "sqlx")) [
            | inl is_sqlx ↦ absurd (cc (rw (other, is_sqlx) at h))
            | inr not_sqlx ↦ absurd (cc (rw (other, not_sqlx) at h))
          ]
        ]

    Connects-setup :
        (driver_name : String) (pool : P)
        → text_lower_eq driver_name "pgx" || text_lower_eq driver_name "pgxpool" ≡ true
        → Target pool
        → setup_postgres_db lib text hostname port name username password driver_name ≡ coded pool
    unfolding setup_postgres_db create_driver
    Connects-setup driver_name pool known (conf, (parsed, reached)) =
        rw (known, parsed, reached) refl

    -- SetupPostgresDb gives a pool exactly where the name of the driver is pgx or pgxpool in any case
    -- and pgx gives that pool for its own configuration with the server, the user and the port, of
    -- which the low 16 bits are kept, put in.
    pub setup_postgres_db-eq-Connects :
        (driver_name : String) (pool : P)
        → (setup_postgres_db lib text hostname port name username password driver_name ≡ coded pool)
          ↔ ((text_lower_eq driver_name "pgx" || text_lower_eq driver_name "pgxpool" ≡ true)
              × Connects (aimed hostname port name username password) pool)
    setup_postgres_db-eq-Connects driver_name pool =
        (setup-Connects driver_name pool, λ h. Connects-setup driver_name pool h.0 h.1)
