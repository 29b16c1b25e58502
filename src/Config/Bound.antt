-- ===== src/Config/Bound.antt =====
-- Which flag a key of the configuration reads after the `init` functions of cmd/.
use ipld_eth_beacon_indexer.Base.{
  ◌≡◌, ◌∙◌, refl, ap, inl, inr, Option-cases, String, List, [], ◌∷◌, Option, none, some, Bool, true,
  is_some, ◌&&◌, if◌then◌else◌,
}
use ipld_eth_beacon_indexer.Config.{
  Value, Flag, CommandLine, capture_flags, capture_bindings, root_flags, root_bindings, lookup_flag,
  Viper, bind_flags, init, same_key, given, IsViper,
}

-- Every binding is of a flag that there is.
abbrev all_bound : List Flag → List (String × String) → Bool
all_bound flags [] = true
all_bound flags ((key, name) ∷ bindings) =
    is_some (lookup_flag name flags) && all_bound flags bindings

-- The value of a flag, which comes from the command line, from elsewhere, or is its default.
abbrev pub value_of : CommandLine → (String → Option Value) → (key : String) → Flag → Option Value
value_of line config key f = elim (given line f.name f.value) [
  | some x ↦ some x
  | none ↦ elim (config key) [ some x ↦ some x | none ↦ some f.value ]
]

abbrev flag_or :
    CommandLine
    → (String → Option Value)
    → (key : String) → Option Flag
    → Option Value
    → Option Value
flag_or line config key none before = before
flag_or line config key (some f) before = value_of line config key f

-- What a key reads after the bindings, from what it reads before.
abbrev pub read :
    CommandLine
    → (String → Option Value)
    → List Flag
    → List (String × String)
    → (key : String) → Option Value
    → Option Value
read line config flags [] key before = before
read line config flags ((k, name) ∷ bindings) key before =
    read line config flags bindings key
      (if same_key k key then flag_or line config key (lookup_flag name flags) before else before)

module _ {V : Type 0} (viper : Viper V) (empty : V) (config : String → Option Value)
    (laws : IsViper viper empty config) where
  -- The bindings end with a state in which every key reads the flag that was bound last.
  abbrev Binds : List Flag → List (String × String) → V → Type 0
  Binds flags bindings v =
      (v' : V) × ((bind_flags viper flags bindings v ≡ some v')
        × ((line : CommandLine) (key : String)
            → laws.found line v' key ≡ read line config flags bindings key (laws.found line v key)))

  bind_flags-Binds :
      (flags : List Flag) (bindings : List (String × String)) (v : V)
      → all_bound flags bindings ≡ true
      → Binds flags bindings v
  unfolding bind_flags
  bind_flags-Binds flags [] v h = (v, (refl, λ line key. refl))
  bind_flags-Binds flags ((k, name) ∷ bindings) v h = elim (Option-cases (lookup_flag name flags)) [
    | inl unknown ↦ absurd (cc (unknown, h))
    | inr (f, known) ↦
        let v1 : V = (viper.bind_p_flag k (some f) v).1 in
        let (v2, (run, reads)) = bind_flags-Binds flags bindings v1 (rw known at h) in
        (
          v2,
          (
            rw known (rw (laws.bind_ok k f v) run),
            λ line key.
                let step : laws.found line v2 key
                    ≡ read line config flags bindings key (
                        if same_key k key
                        then flag_or line config key (some f) (laws.found line v key)
                        else laws.found line v key) =
                  reads line key
                  ∙ ap (read line config flags bindings key) (laws.found_bind line k f v key) in
                rw known step,
          ),
        )
  ]

  -- After the start every key reads what the flags of the two commands that were bound to it last
  -- give, or what the environment and the configuration file give.
  pub init-read :
      (v : V) × ((init viper empty ≡ some v)
        × ((line : CommandLine) (key : String)
            → laws.found line v key
              ≡ read line config root_flags root_bindings key
                  (read line config capture_flags capture_bindings key (config key))))
  unfolding init
  init-read =
      let (v1, (run1, reads1)) = bind_flags-Binds capture_flags capture_bindings empty refl in
      let (v2, (run2, reads2)) = bind_flags-Binds root_flags root_bindings v1 refl in
      (
        v2,
        (
          rw run1 run2,
          λ line key.
              reads2 line key
              ∙ ap (read line config root_flags root_bindings key) (
                  reads1 line key
                  ∙ ap (read line config capture_flags capture_bindings key)
                      (laws.found_empty line key)),
        ),
      )
