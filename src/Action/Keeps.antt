-- ===== src/Action/Keeps.antt =====
-- Actions that keep a predicate of the world, whether they return or end the process.
use ipld_eth_beacon_indexer.Base.{Bool, true, false, if◌then◌else◌}
use ipld_eth_beacon_indexer.Action.{World, Action, ◌>>=◌, Ensures}
use ipld_eth_beacon_indexer.Action.Rules.{Ensures-bind}

module _ {S : Type 0} (I : World S → Type 0) where
  abbrev pub Keeps : {A : Type 0} → Action S A → Type 0
  Keeps m = (w : World S) → I w → Ensures (λ _. I) I (m w)

  pub Keeps-bind :
      {A B : Type 0} (m : Action S A) (f : A → Action S B)
      → Keeps m
      → ((a : A) → Keeps (f a))
      → Keeps (m >>= f)
  Keeps-bind m f first rest w i =
      Ensures-bind (λ _. I) (λ _. I) I m f w (first w i) (λ a w' h. rest a w' h)

  pub Keeps-if :
      {A : Type 0} (b : Bool) (m k : Action S A)
      → Keeps m
      → Keeps k
      → Keeps (λ w. (if b then m else k) w)
  Keeps-if true m k h h' = h
  Keeps-if false m k h h' = h'
