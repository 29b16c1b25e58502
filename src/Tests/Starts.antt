-- ===== src/Tests/Starts.antt =====
-- The commands on a small stand-in for viper: the list of the bindings, the last one first.
use ipld_eth_beacon_indexer.Base.{
  ℕ, ◌≡◌, refl, String, List, [], ◌∷◌, Option, none, some, is_some, Bool, true, false, not, ◌==◌,
  str_eq, if◌then◌else◌, arith,
}
use ipld_eth_beacon_indexer.Slot.{format}
use ipld_eth_beacon_indexer.Sql.{Error}
use ipld_eth_beacon_indexer.Server.{decimal}
use ipld_eth_beacon_indexer.Status.{check_beacon_client, check_head_sync, query_head_sync}
use ipld_eth_beacon_indexer.Postgres.{create_driver, setup_postgres_db}
use ipld_eth_beacon_indexer.Client.{client_of, opened, register_names, create_beacon_client}
use ipld_eth_beacon_indexer.Boot.{
  Booted, boot_application, boot_attempts, boot_retries, start_up, boot_application_with_retry,
}
use ipld_eth_beacon_indexer.Batch.Pipeline.{Pipeline, Reach}
use ipld_eth_beacon_indexer.Config.{
  Value, string_value, int_value, bool_value, Flag, CommandLine, Viper, bind_flags, init, same_key,
  IsViper,
}
use ipld_eth_beacon_indexer.Config.Bound.{value_of}
use ipld_eth_beacon_indexer.Commands.{
  head, Services, running, boot_args, known_gaps_settings, start_head_tracking, run,
}
use ipld_eth_beacon_indexer.Commands.Settings.{set_or, flags_alone, args_of_flags}
use ipld_eth_beacon_indexer.Commands.Started.{BootedBy, run-BootedBy}
use ipld_eth_beacon_indexer.Commands.Workers.{Untouched, run-Untouched}
use ipld_eth_beacon_indexer.Tests.Boots.{json, good_node, Registry, prometheus, around, registered}

abbrev Bindings : Type 0
Bindings = List (String × Flag)

abbrev bind : String → Option Flag → Bindings → Option Error × Bindings
bind key none v = (some "flag is nil", v)
bind key (some f) v = (none, (key, f) ∷ v)

abbrev found : CommandLine → Bindings → String → Option Value
found line [] key = none
found line ((k, f) ∷ v) key =
    if same_key k key then value_of line flags_alone key f else found line v key

abbrev as_string : Option Value → String
as_string (some (string_value s)) = s
as_string (some (int_value n)) = decimal n
as_string _ = ""

abbrev as_int : Option Value → ℕ
as_int (some (int_value n)) = n
as_int _ = 0

abbrev as_bool : Option Value → Bool
as_bool (some (bool_value b)) = b
as_bool (some (int_value n)) = not (n == 0)
as_bool _ = false

abbrev viper : Viper Bindings
viper = record {
  bind_p_flag = bind;
  get_string = λ line v key. as_string (found line v key);
  get_int = λ line v key. as_int (found line v key);
  get_uint64 = λ line v key. as_int (found line v key);
  get_bool = λ line v key. as_bool (found line v key);
}

viper-IsViper : IsViper viper [] flags_alone
viper-IsViper = record {
  found = found;
  found_empty = λ line key. refl;
  bind_ok = λ key f v. refl;
  found_bind = λ line k f v key. refl;
  is_string = λ line v key s h. rw h refl;
  is_int = λ line v key n h. (rw h refl, rw h refl);
  is_bool = λ line v key b h. rw h refl;
  is_unset = λ line v key h. (rw h refl, rw h refl, rw h refl);
}

abbrev configured : Bindings
unfolding init
configured = elim (init viper []) [ none ↦ [] | some v ↦ v ]

starts : init viper [] ≡ some configured
unfolding init bind_flags
starts = refl

-- `--db.driver pgx --bc.bootMaxRetry 3 --kg.processKnownGaps=false`
abbrev string_set : String → Option String
string_set name = if str_eq name "db.driver" then some "pgx" else none

abbrev int_set : String → Option ℕ
int_set name = if str_eq name "bc.bootMaxRetry" then some 3 else none

abbrev bool_set : String → Option Bool
bool_set name = if str_eq name "kg.processKnownGaps" then some false else none

abbrev line : CommandLine
line = record { string_of = string_set; int_of = int_set; bool_of = bool_set }

abbrev tracking : Booted Registry (Unit {0})
tracking = record {
  bc = some (record (client_of (args_of_flags line).client 1) {
    db = opened tt;
    perform_head_tracking = true;
  });
  db = opened tt;
  err = none;
  registry = registered;
  pools = 1;
}

abbrev head_services : Services
head_services = record {
  prometheus = some "localhost:9000";
  capture_head = true;
  capture_historic = none;
  process_known_gaps = some (0, 0);
}

head-running :
    run viper line configured prometheus json (λ e. e) around 0 [] good_node head
    ≡ some (running tracking head_services)
unfolding init bind_flags run start_head_tracking boot_args known_gaps_settings
    boot_application_with_retry boot_retries boot_attempts boot_application create_beacon_client
    register_names start_up check_beacon_client setup_postgres_db create_driver check_head_sync
    query_head_sync decimal format
head-running = refl

run-BootedBy_example :
    BootedBy viper [] viper-IsViper configured starts line prometheus json
      (λ e. e)
      around
      0
      []
      good_node
      (args_of_flags line)
      (set_or (line.int_of "bc.bootMaxRetry") 5)
      (set_or (line.string_of "bc.type") "lighthouse")
      "head"
      tracking
run-BootedBy_example =
    run-BootedBy viper [] viper-IsViper configured starts line prometheus json (λ e. e) around 0 []
      good_node head tracking head_services (omega arith) (omega arith) head-running

run-Untouched_example :
    (is_some head_services.process_known_gaps
      ≡ not (set_or (line.int_of "kg.maxKnownGapsWorker") 30 == 0))
    × ((workers first : ℕ)
        → head_services.process_known_gaps ≡ some (workers, first)
        → (p : Pipeline) → Reach workers p
        → Untouched p)
run-Untouched_example =
    run-Untouched viper [] flags_alone viper-IsViper configured starts line prometheus json (λ e. e)
      around 0 [] good_node head tracking head_services refl refl (λ h. cc) head-running
