-- ===== src/Client/Counters.antt =====
-- Which set of counters the registered counters read (pkg/beaconclient/metrics.go).
use ipld_eth_beacon_indexer.Base.{
  ℕ, ◌≡◌, ◌⊎◌, refl, ◌∙◌, sym, subst, String, List, [], ◌∷◌, Option, none, some, true, false,
  str_eq, eq_iff, inl, inr, Bool-cases, Option-cases, Any, here, there,
}
use ipld_eth_beacon_indexer.Client.{
  Prometheus, duplicate, or_register, prometheus_register_helper, register_names,
}

-- What is relied on of the registry: a name that is free is registered for the set that it comes
-- with, one that is taken is refused as a duplicate and stays as it was, and no other name changes.
pub record IsRegistry {R : Type 0} (prometheus : Prometheus R) : Type 0 where
  pub owner : R → String → Option ℕ
  pub free :
      (name : String) (counters : ℕ) (r : R)
      → owner r name ≡ none
      → ((prometheus.register name counters r).0 ≡ none)
        × (owner (prometheus.register name counters r).1 name ≡ some counters)
  pub taken :
      (name : String) (counters first : ℕ) (r : R)
      → owner r name ≡ some first
      → ((prometheus.register name counters r).0 ≡ some duplicate)
        × (owner (prometheus.register name counters r).1 name ≡ some first)
  pub others :
      (name other : String) (counters : ℕ) (r : R)
      → str_eq name other ≡ false
      → owner (prometheus.register name counters r).1 other ≡ owner r other

module _ {R : Type 0} (prometheus : Prometheus R) (laws : IsRegistry prometheus) where
  helper-none :
      (name : String) (counters : ℕ) (r : R)
      → (prometheus_register_helper prometheus name counters r).0 ≡ none
  helper-none name counters r = elim (Option-cases (laws.owner r name)) [
    | inl free ↦ rw (laws.free name counters r free).0 refl
    | inr (first, taken) ↦ rw (laws.taken name counters first r taken).0 refl
  ]

  or_register-none :
      (rest : R → Option String × R) (m : Option String × R)
      → m.0 ≡ none
      → or_register prometheus rest m ≡ rest m.1
  or_register-none rest (some e, r) h = absurd cc
  or_register-none rest (none, r) h = refl

  register_names-cons :
      (name : String) (names : List String) (counters : ℕ) (r : R)
      → register_names prometheus (name ∷ names) counters r
        ≡ register_names prometheus names counters (prometheus.register name counters r).1
  unfolding register_names
  register_names-cons name names counters r =
      or_register-none (register_names prometheus names counters)
        (prometheus_register_helper prometheus name counters r) (helper-none name counters r)

  pub register_names-none :
      (names : List String) (counters : ℕ) (r : R)
      → (register_names prometheus names counters r).0 ≡ none
  unfolding register_names
  register_names-none [] counters r = refl
  register_names-none (name ∷ names) counters r =
      rw (register_names-cons name names counters r)
        (register_names-none names counters (prometheus.register name counters r).1)

  register-kept :
      (name other : String) (counters first : ℕ) (r : R)
      → laws.owner r other ≡ some first
      → laws.owner (prometheus.register name counters r).1 other ≡ some first
  register-kept name other counters first r h = elim (Bool-cases (str_eq name other)) [
    | inl same ↦
        let e : name ≡ other = (eq_iff name other).0 same in
        subst (λ x. laws.owner (prometheus.register x counters r).1 other ≡ some first) (sym e)
          (laws.taken other counters first r h).1
    | inr different ↦ laws.others name other counters r different ∙ h
  ]

  -- A registered counter stays the one of the set that registered it.
  pub register_names-kept :
      (names : List String) (other : String) (counters first : ℕ) (r : R)
      → laws.owner r other ≡ some first
      → laws.owner (register_names prometheus names counters r).1 other ≡ some first
  unfolding register_names
  register_names-kept [] other counters first r h = h
  register_names-kept (name ∷ names) other counters first r h =
      rw (register_names-cons name names counters r) (
        register_names-kept names other counters first (prometheus.register name counters r).1
          (register-kept name other counters first r h))

  register-owned :
      (name other : String) (counters : ℕ) (r : R)
      → laws.owner r other ≡ none
      → (laws.owner (prometheus.register name counters r).1 other ≡ some counters)
        ⊎ ((laws.owner (prometheus.register name counters r).1 other ≡ none)
            × (str_eq name other ≡ false))
  register-owned name other counters r h = elim (Bool-cases (str_eq name other)) [
    | inl same ↦
        let e : name ≡ other = (eq_iff name other).0 same in
        inl (
          subst (λ x. laws.owner (prometheus.register x counters r).1 other ≡ some counters) (sym e)
            (laws.free other counters r h).1)
    | inr different ↦ inr (laws.others name other counters r different ∙ h, different)
  ]

  -- A name of the list that was free is registered for the set.
  pub register_names-owned :
      (names : List String) (other : String) (counters : ℕ) (r : R)
      → Any (λ name. str_eq name other ≡ true) names
      → laws.owner r other ≡ none
      → laws.owner (register_names prometheus names counters r).1 other ≡ some counters
  register_names-owned [] other counters r listed h = elim listed [ ]
  register_names-owned (name ∷ names) other counters r listed h =
      rw (register_names-cons name names counters r)
        (elim (register-owned name other counters r h) [
          | inl owned ↦
              register_names-kept names other counters counters
                (prometheus.register name counters r).1 owned
          | inr (free, different) ↦ elim listed [
            | here same ↦ absurd (cc)
            | there later ↦
                register_names-owned names other counters (prometheus.register name counters r).1
                  later free
          ]
        ])
