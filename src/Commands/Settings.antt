-- ===== src/Commands/Settings.antt =====
-- What the commands boot with where the configuration comes from the flags alone (cmd/capture.go).
use ipld_eth_beacon_indexer.Base.{
  ℕ, ◌≡◌, ◌∙◌, refl, sym, ap, String, Option, none, some, some-inj, Bool, true, false, inl, inr,
  Option-cases, not, ◌==◌,
}
use ipld_eth_beacon_indexer.Boot.{BootArgs}
use ipld_eth_beacon_indexer.Config.{
  Value, CommandLine, string_flag, int_flag, bool_flag, capture_flags, capture_bindings, root_flags,
  root_bindings, Viper, init, IsViper,
}
use ipld_eth_beacon_indexer.Config.Bound.{read, value_of, init-read}
use ipld_eth_beacon_indexer.Commands.{client_args, boot_args}

-- What the command line sets, or the default.
abbrev pub set_or {ℓ} : {A : Type ℓ} → Option A → (default : A) → A
set_or none default = default
set_or (some a) default = a

-- No value comes from the environment or from a configuration file.
abbrev pub flags_alone : String → Option Value
flags_alone key = none

module _ {V : Type 0} (viper : Viper V) (empty : V) (config : String → Option Value)
    (laws : IsViper viper empty config) (v : V) (starts : init viper empty ≡ some v)
    (line : CommandLine) where
  -- What a key reads in the state that the start ends with.
  pub found-read :
      (key : String)
      → laws.found line v key
        ≡ read line config root_flags root_bindings key
            (read line config capture_flags capture_bindings key (config key))
  found-read key =
      let (v', (run, reads)) = init-read viper empty config laws in
      ap (λ u. laws.found line u key) (some-inj (sym starts ∙ run)) ∙ reads line key

  -- A key with the int flag of some name.
  pub get_int-flag :
      (key name : String) (default : ℕ)
      → config key ≡ none
      → laws.found line v key ≡ value_of line config key (int_flag name "" default)
      → (viper.get_int line v key ≡ set_or (line.int_of name) default)
        × (viper.get_bool line v key ≡ not (set_or (line.int_of name) default == 0))
  get_int-flag key name default unset h = elim (Option-cases (line.int_of name)) [
    | inl no_flag ↦ rw no_flag (laws.is_int line v key default (rw (no_flag, unset) at h))
    | inr (n, flag) ↦ rw flag (laws.is_int line v key n (rw flag at h))
  ]

  get_string-flag :
      (key name default : String)
      → config key ≡ none
      → laws.found line v key ≡ value_of line config key (string_flag name "" default)
      → viper.get_string line v key ≡ set_or (line.string_of name) default
  get_string-flag key name default unset h = elim (Option-cases (line.string_of name)) [
    | inl no_flag ↦ rw no_flag (laws.is_string line v key default (rw (no_flag, unset) at h))
    | inr (s, flag) ↦ rw flag (laws.is_string line v key s (rw flag at h))
  ]

  get_bool-flag :
      (key name : String) (default : Bool)
      → config key ≡ none
      → laws.found line v key ≡ value_of line config key (bool_flag name "" default)
      → viper.get_bool line v key ≡ set_or (line.bool_of name) default
  get_bool-flag key name default unset h = elim (Option-cases (line.bool_of name)) [
    | inl no_flag ↦ rw no_flag (laws.is_bool line v key default (rw (no_flag, unset) at h))
    | inr (b, flag) ↦ rw flag (laws.is_bool line v key b (rw flag at h))
  ]

-- The flags of the database and of the beacon client, under their own names.
abbrev pub args_of_flags : CommandLine → BootArgs
args_of_flags line = record {
  db_hostname = set_or (line.string_of "db.address") "";
  db_port = set_or (line.int_of "db.port") 0;
  db_name = set_or (line.string_of "db.name") "";
  db_username = set_or (line.string_of "db.username") "";
  db_password = set_or (line.string_of "db.password") "";
  driver_name = set_or (line.string_of "db.driver") "";
  client = record {
    connection_protocol = set_or (line.string_of "bc.connectionProtocol") "http";
    bc_address = set_or (line.string_of "bc.address") "";
    bc_port = set_or (line.int_of "bc.port") 0;
    kg_table_increment = set_or (line.int_of "kg.increment") 10000;
    unique_node_identifier = set_or (line.int_of "bc.uniqueNodeIdentifier") 0;
    check_db = set_or (line.bool_of "bc.checkDb") true;
    perform_beacon_block_processing = false;
    perform_beacon_state_processing = false;
  };
  disregard_sync = set_or (line.bool_of "t.skipSync") false;
}

module _ {V : Type 0} (viper : Viper V) (empty : V) (laws : IsViper viper empty flags_alone) (v : V)
    (starts : init viper empty ≡ some v) (line : CommandLine) where
  abbrev pub Reads : (key : String) → Option Value → Type 0
  Reads key value =
      read line flags_alone root_flags root_bindings key
        (read line flags_alone capture_flags capture_bindings key none)
      ≡ value

  pub string_key :
      (key default : String)
      → Reads key (value_of line flags_alone key (string_flag key "" default))
      → viper.get_string line v key ≡ set_or (line.string_of key) default
  string_key key default h =
      get_string-flag viper empty flags_alone laws v starts line key key default refl
        (found-read viper empty flags_alone laws v starts line key ∙ h)

  pub int_key :
      (key : String) (default : ℕ)
      → Reads key (value_of line flags_alone key (int_flag key "" default))
      → viper.get_int line v key ≡ set_or (line.int_of key) default
  int_key key default h =
      (get_int-flag viper empty flags_alone laws v starts line key key default refl
        (found-read viper empty flags_alone laws v starts line key ∙ h)).0

  bool_key :
      (key : String) (default : Bool)
      → Reads key (value_of line flags_alone key (bool_flag key "" default))
      → viper.get_bool line v key ≡ set_or (line.bool_of key) default
  bool_key key default h =
      get_bool-flag viper empty flags_alone laws v starts line key key default refl
        (found-read viper empty flags_alone laws v starts line key ∙ h)

  no_key : (key : String) → Reads key none → viper.get_bool line v key ≡ false
  no_key key h =
      (laws.is_unset line v key (found-read viper empty flags_alone laws v starts line key ∙ h)).2

  client_args-flags : client_args viper line v ≡ (args_of_flags line).client
  client_args-flags = rw (
    string_key "bc.connectionProtocol" "http" refl,
    string_key "bc.address" "" refl,
    int_key "bc.port" 0 refl,
    int_key "kg.increment" 10000 refl,
    int_key "bc.uniqueNodeIdentifier" 0 refl,
    bool_key "bc.checkDb" true refl,
    no_key "bc.performBeaconBlockProcessing" refl,
    no_key "bc.performBeaconStateProcessing" refl,
  )

  -- Where neither the environment nor a configuration file gives a value: every command boots with
  -- what the flags of the same names give, or their defaults, and processes neither blocks nor
  -- states.
  pub boot_args-eq-flags : boot_args viper line v ≡ args_of_flags line
  unfolding boot_args
  boot_args-eq-flags = rw (
    client_args-flags,
    string_key "db.address" "" refl,
    int_key "db.port" 0 refl,
    string_key "db.name" "" refl,
    string_key "db.username" "" refl,
    string_key "db.password" "" refl,
    string_key "db.driver" "" refl,
    bool_key "t.skipSync" false refl,
  )
