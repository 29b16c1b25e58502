-- ===== src/Action.antt =====
-- The effects of a call: the database and the counters change, and the process may end. Go's
-- errors are ordinary values of the model; `log.Fatal` and a nil dereference or a division by zero
-- end the call.
use ipld_eth_beacon_indexer.Base.{ℕ, ◌≡◌, Option, none, some, Bool, true, false, if◌then◌else◌}
pub mod Rules
pub mod Keeps
use ipld_eth_beacon_indexer.Metrics.{Metrics}
use ipld_eth_beacon_indexer.Sql.{Error, Stmt, Reply, Row, BatchTable, Driver}

pub record World (S : Type 0) : Type 0 where
  pub store : S
  pub metrics : Metrics

-- `fatal`: log.Fatal, which exits with no deferred call run; `panic`: a run-time panic.
pub data Outcome {ℓ} (A : Type ℓ) : Type ℓ where
  done : A → Outcome A
  fatal panic : Outcome A

abbrev pub Action : Type 0 → Type 0 → Type 0
Action S A = World S → Outcome A × World S

module _ {S A B : Type 0} where
  abbrev pub continue : Outcome A → (A → Action S B) → Action S B
  continue (done a) f w = f a w
  continue fatal f w = (fatal, w)
  continue panic f w = (panic, w)

module _ {S A B : Type 0} where
  infixl 5 ◌>>=◌ ◌>>◌
  abbrev pub ◌>>=◌ : Action S A → (A → Action S B) → Action S B
  ◌>>=◌ m f w = let (r, w') = m w in continue r f w'

  abbrev pub ◌>>◌ : Action S A → Action S B → Action S B
  m >> k = m >>= λ _. k

module _ {S A : Type 0} where
  abbrev pub pure : A → Action S A
  pure a w = (done a, w)

  abbrev pub exit : Action S A
  exit w = (fatal, w)

  abbrev pub panics : Action S A
  panics w = (panic, w)

  -- A database call.
  abbrev pub call : (S → A × S) → Action S A
  call f w = let (a, s) = f w.store in (done a, record w { store = s })

abbrev pub count : {S : Type 0} → (Metrics → Metrics) → Action S (Unit {0})
count f w = (done tt, record w { metrics = f w.metrics })

-- `P` of the result and the world of an action that returns, `F` of the world of one that ends the
-- process.
abbrev pub Ensures :
    {S A : Type 0} → (A → World S → Type 0) → (World S → Type 0) → Outcome A × World S → Type 0
Ensures P F (done a, w) = P a w
Ensures P F (fatal, w) = F w
Ensures P F (panic, w) = F w

-- The action returns.
abbrev pub Returns : {S A : Type 0} → (A → World S → Type 0) → Outcome A × World S → Type 0
Returns P o = Ensures P (λ _. ⊥) o
