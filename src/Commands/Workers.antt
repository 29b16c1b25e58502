-- ===== src/Commands/Workers.antt =====
-- The workers of the known gaps that the commands start (cmd/), with the goroutines of
-- `handleBatchProcess` (pkg/beaconclient/capturehistoric.go).
use ipld_eth_beacon_indexer.Base.{
  ℕ, ◌≡◌, ◌≢◌, ◌∙◌, refl, subst, String, List, [], ◌∷◌, ◌++◌, Option, none, some, is_some, inl, inr,
  Bool-cases, not, ◌==◌, ap, sym, arith,
}
use ipld_eth_beacon_indexer.Sql.{Error}
use ipld_eth_beacon_indexer.Server.{Node}
use ipld_eth_beacon_indexer.Status.{Json}
use ipld_eth_beacon_indexer.Client.{Prometheus}
use ipld_eth_beacon_indexer.Boot.{Surroundings, Booted}
use ipld_eth_beacon_indexer.Batch.Pipeline.{
  Pipeline, Step, start, succeed, fail, report, report_order, handle, remove, Reach, begin, arrive,
  later,
}
use ipld_eth_beacon_indexer.Config.{Value, CommandLine, Viper, init, IsViper}
use ipld_eth_beacon_indexer.Commands.{Command, boot, Services, running, known_gaps_settings, run}
use ipld_eth_beacon_indexer.Commands.Settings.{set_or, found-read, get_int-flag}
use ipld_eth_beacon_indexer.Commands.Started.{run-known_gaps}

-- No slot is with a worker, and none was processed.
abbrev pub Untouched : Pipeline → Type 0
Untouched p = (p.working ≡ []) × (p.finished ≡ [])

no_middle : {A : Type 0} (before : List A) (x : A) (after : List A) → [] ≢ before ++ (x ∷ after)
no_middle [] x after h = cc
no_middle (y ∷ before) x after h = cc

Step-Untouched : {p q : Pipeline} → Step 0 p q → Untouched p → Untouched q
Step-Untouched (start p slot rest h room) u = absurd (omega arith)
Step-Untouched (succeed p before slot after h) u =
    absurd (no_middle before slot after (sym u.0 ∙ h))
Step-Untouched (fail p before m after h) u = absurd (no_middle before m.slot after (sym u.0 ∙ h))
Step-Untouched (report p before m after h free) u = u
Step-Untouched (report_order p m rest h free) u = u
Step-Untouched (handle p m h) u = u
Step-Untouched (remove p slots rest h) u = u

-- With no worker the goroutines process nothing.
Reach-Untouched : {p : Pipeline} → Reach 0 p → Untouched p
Reach-Untouched begin = (refl, refl)
Reach-Untouched (arrive slots messages r empty bounded sent) = Reach-Untouched r
Reach-Untouched (later r s) = Step-Untouched s (Reach-Untouched r)

module _ {V : Type 0} (viper : Viper V) (empty : V) (config : String → Option Value)
    (laws : IsViper viper empty config) (v : V) (starts : init viper empty ≡ some v)
    (line : CommandLine) where
  -- The known gaps are processed where the flag of their workers is not 0, and with 0 workers.
  abbrev Settles : Option (ℕ × ℕ) → Type 0
  Settles settings =
      (is_some settings ≡ not (set_or (line.int_of "kg.maxKnownGapsWorker") 30 == 0))
      × ((workers first : ℕ) → settings ≡ some (workers, first) → workers ≡ 0)

  known_gaps_settings-Settles :
      config "kg.processKnownGaps" ≡ none
      → config "kg.maxKnownGapsWorker" ≡ none
      → Settles (known_gaps_settings viper line v)
  unfolding known_gaps_settings
  known_gaps_settings-Settles no_switch no_workers =
      let switch : viper.get_bool line v "kg.processKnownGaps"
          ≡ not (set_or (line.int_of "kg.maxKnownGapsWorker") 30 == 0) =
        (get_int-flag viper empty config laws v starts line "kg.processKnownGaps"
          "kg.maxKnownGapsWorker" 30 no_switch
          (found-read viper empty config laws v starts line "kg.processKnownGaps")).1 in
      let none_given : viper.get_int line v "kg.maxKnownGapsWorker" ≡ 0 =
        (laws.is_unset line v "kg.maxKnownGapsWorker" (
          found-read viper empty config laws v starts line "kg.maxKnownGapsWorker"
          ∙ no_workers)).0 in
      elim (Bool-cases (viper.get_bool line v "kg.processKnownGaps")) [
        | inl on ↦ rw on (
          sym on ∙ switch,
          λ workers first h. sym (ap (λ o. elim o [ none ↦ 0 | some s ↦ s.0 ]) h) ∙ none_given,
        )
        | inr off ↦ rw off (sym off ∙ switch, λ workers first h. absurd cc)
      ]

  -- Where neither the environment nor a configuration file gives a value for kg.processKnownGaps and
  -- kg.maxKnownGapsWorker: head, historic and full start the processing of the known gaps where the
  -- flag kg.maxKnownGapsWorker is not 0, whatever the flag kg.processKnownGaps; and they start it with
  -- workers that in no reachable state of its goroutines hold or have processed a slot.
  pub run-Untouched :
      {R P : Type 0} (prometheus : Prometheus R) (json : Json) (text : Error → String)
      (around : ℕ → Surroundings P) (fuel : ℕ) (registry : R) (node : Node) (command : Command)
      (b : Booted R P) (s : Services)
      → config "kg.processKnownGaps" ≡ none
      → config "kg.maxKnownGapsWorker" ≡ none
      → command ≢ boot
      → run viper line v prometheus json text around fuel registry node command ≡ some (running b s)
      → (is_some s.process_known_gaps ≡ not (set_or (line.int_of "kg.maxKnownGapsWorker") 30 == 0))
        × ((workers first : ℕ)
            → s.process_known_gaps ≡ some (workers, first)
            → (p : Pipeline) → Reach workers p
            → Untouched p)
  run-Untouched prometheus json text around fuel registry node command b s no_switch no_workers
        captures h =
      let same : s.process_known_gaps ≡ known_gaps_settings viper line v =
        run-known_gaps viper line v prometheus json text around fuel registry node command b s
          captures h in
      let (switch, idle) = known_gaps_settings-Settles no_switch no_workers in
      (
        ap is_some same ∙ switch,
        λ workers first e p r.
            Reach-Untouched (subst (λ n. Reach n p) (idle workers first (sym same ∙ e)) r),
      )
