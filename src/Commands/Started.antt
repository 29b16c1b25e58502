-- ===== src/Commands/Started.antt =====
-- What a command of cmd/ that has started runs on, and its services.
use ipld_eth_beacon_indexer.Base.{
  ℕ, ◌<◌, ◌≡◌, ◌≢◌, refl, sym, ap, subst, String, Option, none, some,
}
use ipld_eth_beacon_indexer.Word.{int_sign}
use ipld_eth_beacon_indexer.Sql.{Error}
use ipld_eth_beacon_indexer.Server.{Node}
use ipld_eth_beacon_indexer.Action.{Outcome, done, fatal, panic}
use ipld_eth_beacon_indexer.Status.{Json}
use ipld_eth_beacon_indexer.Client.{Prometheus, Database, no_database, no_driver, opened}
use ipld_eth_beacon_indexer.Boot.{Surroundings, BootArgs, Booted, start_up}
use ipld_eth_beacon_indexer.Boot.Retries.{IsBootedBetween}
use ipld_eth_beacon_indexer.Boot.Started.{boot_application_with_retry-Between}
use ipld_eth_beacon_indexer.Config.{CommandLine, Viper, init, IsViper}
use ipld_eth_beacon_indexer.Commands.{
  Command, head, historic, full, boot, Services, CommandState, exited, crashed, running, boot_args,
  known_gaps_settings, booted, stop_application_pre_boot, unless_failed, after_boot,
  start_head_tracking, start_historic_processing, start_full_processing, boot_app, run,
}
use ipld_eth_beacon_indexer.Commands.Settings.{
  set_or, flags_alone, int_key, string_key, args_of_flags, boot_args-eq-flags,
}

-- The mode that each command boots in.
abbrev pub mode_of : Command → String
mode_of head = "head"
mode_of historic = "historic"
mode_of full = "head"
mode_of boot = "boot"

module _ {V : Type 0} (viper : Viper V) (line : CommandLine) (v : V) {R P : Type 0}
    (prometheus : Prometheus R) (json : Json) (text : Error → String) (around : ℕ → Surroundings P)
    (fuel : ℕ) (registry : R) (node : Node) where
  abbrev IsRunning : CommandState R P → Booted R P → Services → Type 0
  IsRunning (exited pool) b s = ⊥
  IsRunning crashed b s = ⊥
  IsRunning (running b' s') b s = (b' ≡ b) × (s' ≡ s)

  abbrev Runs : Option (CommandState R P) → Booted R P → Services → Type 0
  Runs none b s = ⊥
  Runs (some c) b s = IsRunning c b s

  running-Runs :
      (o : Option (CommandState R P)) (b : Booted R P) (s : Services)
      → o ≡ some (running b s)
      → Runs o b s
  running-Runs o b s h = subst (λ o'. Runs o' b s) (sym h) (refl, refl)

  abbrev Boots : Option (Outcome (Booted R P)) → Booted R P → Type 0
  Boots o b = (o ≡ some (done b)) × (b.err ≡ none)

  stop-exits :
      (db : Database P) (b : Booted R P) (s : Services)
      → IsRunning
          (stop_application_pre_boot viper line v prometheus json text around fuel registry node db)
          b
          s
      → ⊥
  stop-exits no_database b s h = h
  stop-exits no_driver b s h = h
  stop-exits (opened pool) b s h = h

  unless_failed-running :
      (b0 b : Booted R P) (s0 s : Services) (e : Option Error)
      → b0.err ≡ e
      → IsRunning
          (unless_failed viper line v prometheus json text around fuel registry node b0 s0 e)
          b
          s
      → Boots (some (done b0)) b × (s0 ≡ s)
  unless_failed-running b0 b s0 s (some e) same h = absurd (stop-exits b0.db b s h)
  unless_failed-running b0 b s0 s none same h = (
    (subst (λ x. some (done b0) ≡ some (done x)) h.0 refl, subst (λ x. x.err ≡ none) h.0 same),
    h.1,
  )

  after_boot-running :
      (o : Option (Outcome (Booted R P))) (b : Booted R P) (s0 s : Services)
      → Runs (after_boot viper line v prometheus json text around fuel registry node s0 o) b s
      → Boots o b × (s0 ≡ s)
  after_boot-running none b s0 s h = absurd h
  after_boot-running (some (done b0)) b s0 s h = unless_failed-running b0 b s0 s b0.err refl h
  after_boot-running (some fatal) b s0 s h = absurd h
  after_boot-running (some panic) b s0 s h = absurd h

  abbrev runs : Command → Option (CommandState R P)
  runs command = run viper line v prometheus json text around fuel registry node command

  abbrev boots : String → Option (Outcome (Booted R P))
  boots mode = booted viper line v prometheus json text around fuel registry node mode

  -- A command that has started its services has booted in its mode.
  pub run-Boots :
      (command : Command) (b : Booted R P) (s : Services)
      → runs command ≡ some (running b s)
      → Boots (boots (mode_of command)) b
  unfolding run start_head_tracking start_historic_processing start_full_processing boot_app
  run-Boots head b s h = (after_boot-running (boots "head") b _ s (running-Runs _ b s h)).0
  run-Boots historic b s h = (after_boot-running (boots "historic") b _ s (running-Runs _ b s h)).0
  run-Boots full b s h = (after_boot-running (boots "head") b _ s (running-Runs _ b s h)).0
  run-Boots boot b s h = (after_boot-running (boots "boot") b _ s (running-Runs _ b s h)).0

  -- The three commands that capture process the known gaps as they are configured.
  pub run-known_gaps :
      (command : Command) (b : Booted R P) (s : Services)
      → command ≢ boot
      → runs command ≡ some (running b s)
      → s.process_known_gaps ≡ known_gaps_settings viper line v
  unfolding run start_head_tracking start_historic_processing start_full_processing
  run-known_gaps head b s captures h = sym (
      ap (λ x. x.process_known_gaps)
        (after_boot-running (boots "head") b _ s (running-Runs _ b s h)).1)
  run-known_gaps historic b s captures h = sym (
      ap (λ x. x.process_known_gaps)
        (after_boot-running (boots "historic") b _ s (running-Runs _ b s h)).1)
  run-known_gaps full b s captures h = sym (
      ap (λ x. x.process_known_gaps)
        (after_boot-running (boots "head") b _ s (running-Runs _ b s h)).1)
  run-known_gaps boot b s captures h = absurd (captures refl)

module _ {V : Type 0} (viper : Viper V) (empty : V) (laws : IsViper viper empty flags_alone) (v : V)
    (starts : init viper empty ≡ some v) (line : CommandLine) {R P : Type 0}
    (prometheus : Prometheus R) (json : Json) (text : Error → String) (around : ℕ → Surroundings P)
    (fuel : ℕ) (registry : R) (node : Node) where
  -- The application as it stands after an attempt to boot with these arguments and the step for the
  -- mode.
  abbrev pub BootedBy : BootArgs → (retries : ℕ) → (bc_type mode : String) → Booted R P → Type 0
  BootedBy args retries bc_type mode b =
      (b0 : Booted R P) × (IsBootedBetween prometheus json text args around 0 retries b0
        × (start_up prometheus json text args node bc_type mode b0 ≡ done b))

  -- Where neither the environment nor a configuration file gives a value, and the flag
  -- bc.bootMaxRetry is positive: the application of a command that has started its services was
  -- booted in the mode of the command by one of so many attempts, which found the node and the
  -- database of the flags up; its increment and identifier are those of the flags, and it processes
  -- neither blocks nor states.
  pub run-BootedBy :
      (command : Command) (b : Booted R P) (s : Services)
      → 0 < set_or (line.int_of "bc.bootMaxRetry") 5
      → set_or (line.int_of "bc.bootMaxRetry") 5 < int_sign
      → run viper line v prometheus json text around fuel registry node command ≡ some (running b s)
      → BootedBy
          (args_of_flags line)
          (set_or (line.int_of "bc.bootMaxRetry") 5)
          (set_or (line.string_of "bc.type") "lighthouse")
          (mode_of command)
          b
  run-BootedBy command b s positive bounded h =
      let retries : viper.get_int line v "bc.bootMaxRetry"
          ≡ set_or (line.int_of "bc.bootMaxRetry") 5 =
        int_key viper empty laws v starts line "bc.bootMaxRetry" 5 refl in
      let type : viper.get_string line v "bc.type"
          ≡ set_or (line.string_of "bc.type") "lighthouse" =
        string_key viper empty laws v starts line "bc.type" "lighthouse" refl in
      let (boots, good) =
        run-Boots viper line v prometheus json text around fuel registry node command b s h in
      let by : BootedBy (boot_args viper line v) (viper.get_int line v "bc.bootMaxRetry")
          (viper.get_string line v "bc.type") (mode_of command) b =
        boot_application_with_retry-Between prometheus json text (boot_args viper line v) around
          fuel (viper.get_int line v "bc.bootMaxRetry") registry node
          (viper.get_string line v "bc.type") (mode_of command) b (rw retries positive)
          (rw retries bounded) boots good in
      rw (boot_args-eq-flags viper empty laws v starts line, retries, type) at by
