-- ===== src/Action/Rules.antt =====
-- Postconditions of sequences of actions.
use ipld_eth_beacon_indexer.Base.{◌≡◌, refl, Bool, true, false, if◌then◌else◌}
use ipld_eth_beacon_indexer.Action.{
  World, Outcome, done, fatal, panic, Action, continue, ◌>>=◌, ◌>>◌, pure, Ensures, Returns,
}

module _ {S A B : Type 0} (P : A → World S → Type 0) (Q : B → World S → Type 0)
    (F : World S → Type 0) where
  Ensures-continue :
      (r : Outcome A) (w : World S) (f : A → Action S B)
      → Ensures P F (r, w)
      → ((a : A) (w' : World S) → P a w' → Ensures Q F (f a w'))
      → Ensures Q F (continue r f w)
  Ensures-continue (done a) w f h k = k a w h
  Ensures-continue fatal w f h k = h
  Ensures-continue panic w f h k = h

  pub Ensures-bind :
      (m : Action S A) (f : A → Action S B) (w : World S)
      → Ensures P F (m w)
      → ((a : A) (w' : World S) → P a w' → Ensures Q F (f a w'))
      → Ensures Q F ((m >>= f) w)
  Ensures-bind m f w h k = let (r, w') = m w in Ensures-continue r w' f h k

module _ {S A : Type 0} (P Q : A → World S → Type 0) (F : World S → Type 0) where
  -- A weaker postcondition.
  pub Ensures-map :
      (o : Outcome A × World S)
      → ((a : A) (w : World S) → P a w → Q a w)
      → Ensures P F o
      → Ensures Q F o
  Ensures-map (done a, w) f h = f a w h
  Ensures-map (fatal, w) f h = h
  Ensures-map (panic, w) f h = h

  -- An action that is known to return meets what it ensures in any case.
  pub Returns-Ensures : (o : Outcome A × World S) → Returns P o → Ensures Q F o → Returns Q o
  Returns-Ensures (done a, w) h k = k
  Returns-Ensures (fatal, w) h k = absurd h
  Returns-Ensures (panic, w) h k = absurd h

module _ {S A : Type 0} (P : A → World S → Type 0) (F : World S → Type 0) where
  pub Ensures-if :
      (b : Bool) (m k : Action S A) (w : World S)
      → Ensures P F (m w)
      → Ensures P F (k w)
      → Ensures P F ((if b then m else k) w)
  Ensures-if true m k w h h' = h
  Ensures-if false m k w h h' = h'

  -- Each branch knows its test.
  pub Ensures-cond :
      (b : Bool) (m k : Action S A) (w : World S)
      → (b ≡ true → Ensures P F (m w))
      → (b ≡ false → Ensures P F (k w))
      → Ensures P F ((if b then m else k) w)
  Ensures-cond true m k w h h' = h refl
  Ensures-cond false m k w h h' = h' refl

module _ {S : Type 0} where
  continue-pure : (r : Outcome (Unit {0})) (w : World S) → continue r (λ _. pure tt) w ≡ (r, w)
  continue-pure (done tt) w = refl
  continue-pure fatal w = refl
  continue-pure panic w = refl

  pub >>-pure : (m : Action S (Unit {0})) (w : World S) → (m >> pure tt) w ≡ m w
  >>-pure m w = let (r, w') = m w in continue-pure r w'

-- Any action ends in some way.
pub Ensures-Unit : {S A : Type 0} (o : Outcome A × World S) → Ensures (λ _ _. Unit) (λ _. Unit) o
Ensures-Unit (done a, w) = tt
Ensures-Unit (fatal, w) = tt
Ensures-Unit (panic, w) = tt

-- Weaker postconditions of both ways to end.
pub Ensures-weaken :
    {S A : Type 0} (P Q : A → World S → Type 0) (F G : World S → Type 0) (o : Outcome A × World S)
    → ((a : A) (w : World S) → P a w → Q a w)
    → ((w : World S) → F w → G w)
    → Ensures P F o
    → Ensures Q G o
Ensures-weaken P Q F G (done a, w) f g h = f a w h
Ensures-weaken P Q F G (fatal, w) f g h = g w h
Ensures-weaken P Q F G (panic, w) f g h = g w h

-- Two postconditions of one action.
pub Ensures-both :
    {S A : Type 0} (P Q : A → World S → Type 0) (F G : World S → Type 0) (o : Outcome A × World S)
    → Ensures P F o
    → Ensures Q G o
    → Ensures (λ a w. P a w × Q a w) (λ w. F w × G w) o
Ensures-both P Q F G (done a, w) h k = (h, k)
Ensures-both P Q F G (fatal, w) h k = (h, k)
Ensures-both P Q F G (panic, w) h k = (h, k)
