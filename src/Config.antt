-- ===== src/Config.antt =====
-- The flags of the program and their binding to the keys of the configuration: the `init` functions
-- of cmd/capture.go and cmd/root.go. The libraries pflag and viper are the parameters `CommandLine`,
-- what the command line gives for each flag, and `Viper`.
pub mod Bound
use ipld_eth_beacon_indexer.Base.{
  ℕ, ◌≡◌, String, List, [], ◌∷◌, Option, none, some, Bool, true, false, not, ◌==◌, str_eq,
  if◌then◌else◌,
}
use ipld_eth_beacon_indexer.Slot.{codes}
use ipld_eth_beacon_indexer.Text.{to_lower, codes_eq}
use ipld_eth_beacon_indexer.Sql.{Error}

pub data Value : Type 0 where
  string_value : String → Value
  int_value : ℕ → Value
  bool_value : Bool → Value

-- A flag with its default.
pub record Flag : Type 0 where
  pub name : String
  pub shorthand : String
  pub value : Value

-- The flags that the command line sets, by the kind that pflag parses them as.
pub record CommandLine : Type 0 where
  pub string_of : String → Option String
  pub int_of : String → Option ℕ
  pub bool_of : String → Option Bool

abbrev pub string_flag : (name shorthand default : String) → Flag
string_flag name shorthand default = record {
  name = name;
  shorthand = shorthand;
  value = string_value default;
}

abbrev pub int_flag : (name shorthand : String) → (default : ℕ) → Flag
int_flag name shorthand default = record {
  name = name;
  shorthand = shorthand;
  value = int_value default;
}

abbrev pub bool_flag : (name shorthand : String) → (default : Bool) → Flag
bool_flag name shorthand default = record {
  name = name;
  shorthand = shorthand;
  value = bool_value default;
}

abbrev pub capture_flags : List Flag
capture_flags =
    string_flag "db.username" "" ""
    ∷ string_flag "db.password" "" ""
    ∷ string_flag "db.address" "" ""
    ∷ string_flag "db.name" "n" ""
    ∷ string_flag "db.driver" "" ""
    ∷ int_flag "db.port" "" 0
    ∷ string_flag "bc.address" "l" ""
    ∷ string_flag "bc.type" "" "lighthouse"
    ∷ int_flag "bc.port" "r" 0
    ∷ string_flag "bc.connectionProtocol" "" "http"
    ∷ int_flag "bc.bootRetryInterval" "" 30
    ∷ int_flag "bc.bootMaxRetry" "" 5
    ∷ int_flag "bc.maxHistoricProcessWorker" "" 30
    ∷ int_flag "bc.uniqueNodeIdentifier" "" 0
    ∷ bool_flag "bc.checkDb" "" true
    ∷ bool_flag "kg.processKnownGaps" "" true
    ∷ int_flag "kg.increment" "" 10000
    ∷ int_flag "kg.maxKnownGapsWorker" "" 30
    ∷ bool_flag "pm.metrics" "" true
    ∷ string_flag "pm.address" "" "localhost"
    ∷ int_flag "pm.port" "" 9000
    ∷ bool_flag "t.skipSync" "" false
    ∷ []

-- The key and the name of the flag of each call of `viper.BindPFlag`, in the order of the code.
abbrev pub capture_bindings : List (String × String)
capture_bindings =
    ("db.username", "db.username")
    ∷ ("db.password", "db.password")
    ∷ ("db.address", "db.address")
    ∷ ("db.port", "db.port")
    ∷ ("db.name", "db.name")
    ∷ ("db.driver", "db.driver")
    ∷ ("t.skipSync", "t.skipSync")
    ∷ ("bc.address", "bc.address")
    ∷ ("bc.type", "bc.type")
    ∷ ("bc.port", "bc.port")
    ∷ ("bc.connectionProtocol", "bc.connectionProtocol")
    ∷ ("bc.bootRetryInterval", "bc.bootRetryInterval")
    ∷ ("bc.bootMaxRetry", "bc.bootMaxRetry")
    ∷ ("bc.maxHistoricProcessWorker", "bc.maxHistoricProcessWorker")
    ∷ ("bc.uniqueNodeIdentifier", "bc.uniqueNodeIdentifier")
    ∷ ("bc.checkDb", "bc.checkDb")
    ∷ ("kg.processKnownGaps", "kg.processKnownGaps")
    ∷ ("kg.increment", "kg.increment")
    ∷ ("kg.processKnownGaps", "kg.maxKnownGapsWorker")
    ∷ ("pm.metrics", "pm.metrics")
    ∷ ("pm.address", "pm.address")
    ∷ ("pm.port", "pm.port")
    ∷ []

-- The level of the log is the default level of the library.
abbrev pub root_flags : List Flag
root_flags =
    string_flag "config" "" ""
    ∷ string_flag "log.level" "" "info"
    ∷ string_flag "log.file" "" "ipld-eth-beacon-indexer.log"
    ∷ bool_flag "log.output" "" true
    ∷ string_flag "log.format" "" "json"
    ∷ []

abbrev pub root_bindings : List (String × String)
root_bindings =
    ("log.level", "log.level")
    ∷ ("log.file", "log.file")
    ∷ ("log.output", "log.output")
    ∷ ("log.format", "log.format")
    ∷ []

-- `PersistentFlags().Lookup`: none for nil.
abbrev pub lookup_flag : (name : String) → List Flag → Option Flag
lookup_flag name [] = none
lookup_flag name (f ∷ flags) = if str_eq f.name name then some f else lookup_flag name flags

-- `BindPFlag` of a nil flag is an error. The `get`s are those of the run, after the command line
-- has been read.
pub record Viper (V : Type 0) : Type 0 where
  pub bind_p_flag : (key : String) → Option Flag → V → Option Error × V
  pub get_string : CommandLine → V → (key : String) → String
  pub get_int : CommandLine → V → (key : String) → ℕ
  pub get_uint64 : CommandLine → V → (key : String) → ℕ
  pub get_bool : CommandLine → V → (key : String) → Bool

module _ {V : Type 0} (viper : Viper V) where
  -- none where the process exits.
  abbrev pub exit_err : Option Error × V → (V → Option V) → Option V
  exit_err (some e, v) rest = none
  exit_err (none, v) rest = rest v

  unfoldable pub bind_flags : List Flag → List (String × String) → V → Option V
  bind_flags flags [] v = some v
  bind_flags flags ((key, name) ∷ bindings) v =
      exit_err (viper.bind_p_flag key (lookup_flag name flags) v) (bind_flags flags bindings)

  abbrev pub unless_exited : Option V → (V → Option V) → Option V
  unless_exited none rest = none
  unless_exited (some v) rest = rest v

  -- Go runs the `init` functions of a package in the order of its files.
  unfoldable pub init : V → Option V
  init v =
      unless_exited (bind_flags capture_flags capture_bindings v)
        (bind_flags root_flags root_bindings)

-- Keys are compared without their case.
abbrev pub same_key : String → String → Bool
same_key k key = codes_eq (to_lower (codes k)) (to_lower (codes key))

-- What the command line gives for a flag.
abbrev pub given : CommandLine → (name : String) → Value → Option Value
given line name (string_value default) = elim (line.string_of name) [
  | none ↦ none
  | some s ↦ some (string_value s)
]
given line name (int_value default) = elim (line.int_of name) [
  | none ↦ none
  | some n ↦ some (int_value n)
]
given line name (bool_value default) = elim (line.bool_of name) [
  | none ↦ none
  | some b ↦ some (bool_value b)
]

-- What the documentation of viper says, for the values that the environment and the configuration
-- file give for keys: a flag that is set comes first, then these values, then the default of the
-- flag; a key has the last flag that was bound to it; a number is true where it is not 0; a key with
-- no value reads as a zero.
pub record IsViper {V : Type 0} (viper : Viper V) (empty : V) (config : String → Option Value)
    : Type 0 where
  pub found : CommandLine → V → (key : String) → Option Value
  pub found_empty : (line : CommandLine) (key : String) → found line empty key ≡ config key
  pub bind_ok : (key : String) (f : Flag) (v : V) → (viper.bind_p_flag key (some f) v).0 ≡ none
  pub found_bind :
      (line : CommandLine) (k : String) (f : Flag) (v : V) (key : String)
      → found line (viper.bind_p_flag k (some f) v).1 key ≡ (
          if same_key k key
          then elim (given line f.name f.value) [
            | some x ↦ some x
            | none ↦ elim (config key) [ some x ↦ some x | none ↦ some f.value ]
          ]
          else found line v key)
  pub is_string :
      (line : CommandLine) (v : V) (key s : String)
      → found line v key ≡ some (string_value s)
      → viper.get_string line v key ≡ s
  pub is_int :
      (line : CommandLine) (v : V) (key : String) (n : ℕ)
      → found line v key ≡ some (int_value n)
      → (viper.get_int line v key ≡ n) × (viper.get_bool line v key ≡ not (n == 0))
  pub is_bool :
      (line : CommandLine) (v : V) (key : String) (b : Bool)
      → found line v key ≡ some (bool_value b)
      → viper.get_bool line v key ≡ b
  pub is_unset :
      (line : CommandLine) (v : V) (key : String)
      → found line v key ≡ none
      → (viper.get_int line v key ≡ 0)
        × (viper.get_uint64 line v key ≡ 0)
        × (viper.get_bool line v key ≡ false)
