-- ===== src/Base/Lists.antt =====
-- Predicates on lists by recursion, and lists measured by native numbers.
use Prim.Native.Nat.{ℕ, suc, ◌+◌}
use mathlib.Core.Path.{◌≡◌}
use mathlib.Core.List.{List, [], ◌∷◌, ◌++◌}
use native.Mathlib.Omega.{arith}

module _ {ℓ} {A : Type ℓ} where
  abbrev pub length : List A → ℕ
  length [] = 0
  length (x ∷ xs) = suc (length xs)

  pub length-append : (xs ys : List A) → length (xs ++ ys) ≡ length xs + length ys
  length-append [] ys = omega arith
  length-append (x ∷ xs) ys = omega (arith, length-append xs ys)

module _ {ℓ κ} {A : Type ℓ} (P : A → Type κ) where
  -- Every item satisfies `P`.
  abbrev pub All : List A → Type κ
  All [] = Unit
  All (x ∷ xs) = P x × All xs

  -- Some item satisfies `P`.
  pub data Any : List A → Type (ℓ ⊔ κ) where
    here : {x : A} {xs : List A} → P x → Any (x ∷ xs)
    there : {x : A} {xs : List A} → Any xs → Any (x ∷ xs)

module _ {ℓ κ} {A : Type ℓ} {P : A → Type κ} where
  pub Any-append_left : {xs : List A} (ys : List A) → Any P xs → Any P (xs ++ ys)
  Any-append_left ys (here p) = here p
  Any-append_left ys (there a) = there (Any-append_left ys a)

  pub Any-append_right : (xs : List A) {ys : List A} → Any P ys → Any P (xs ++ ys)
  Any-append_right [] a = a
  Any-append_right (x ∷ xs) a = there (Any-append_right xs a)

module _ {ℓ κ} {A : Type ℓ} (P : A → Type κ) where
  pub All-append : (xs ys : List A) → All P xs → All P ys → All P (xs ++ ys)
  All-append [] ys h k = k
  All-append (x ∷ xs) ys h k = (h.0, All-append xs ys h.1 k)
