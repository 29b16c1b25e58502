-- ===== src/Sql/Tables/Rows.antt =====
-- INSERT, UPDATE, DELETE and SELECT on a table that is a list of rows, with the rows affected.
use ipld_eth_beacon_indexer.Base.{
  ℕ, suc, ◌≤◌, ◌<◌, ◌≡◌, List, [], ◌∷◌, ◌++◌, Bool, true, false, ◌||◌, arith, inl, inr, Bool-cases,
  ltb, if◌then◌else◌, Any, here, there, Any-append_right, refl, map,
}

module _ {ℓ} {A : Type ℓ} where
  unfoldable pub any : (A → Bool) → List A → Bool
  any test [] = false
  any test (r ∷ rows) = test r || any test rows

  -- ON CONFLICT DO NOTHING; `conflicts` says which rows have the key of the new one.
  unfoldable pub insert_new : (A → Bool) → A → List A → ℕ × List A
  insert_new conflicts x rows = if any conflicts rows then (0, rows) else (1, rows ++ x ∷ [])

  unfoldable pub count_where : (A → Bool) → List A → ℕ
  count_where test [] = 0
  count_where test (r ∷ rows) = let n = count_where test rows in if test r then suc n else n

  unfoldable pub update_where : (A → Bool) → (A → A) → List A → ℕ × List A
  update_where test f [] = (0, [])
  update_where test f (r ∷ rows) =
      let (n, rest) = update_where test f rows in
      if test r then (suc n, f r ∷ rest) else (n, r ∷ rest)

  unfoldable pub delete_where : (A → Bool) → List A → ℕ × List A
  delete_where test [] = (0, [])
  delete_where test (r ∷ rows) =
      let (n, rest) = delete_where test rows in if test r then (suc n, rest) else (n, r ∷ rest)

-- A row that the test of `any` accepts.
module _ {ℓ} {A : Type ℓ} (test : A → Bool) where
  pub any-Any : (rows : List A) → any test rows ≡ true → Any (λ r. test r ≡ true) rows
  unfolding any
  any-Any [] h = cc
  any-Any (r ∷ rows) h = elim (Bool-cases (test r)) [
    | inl yes_here ↦ here yes_here
    | inr later ↦ there (any-Any rows (ground arith))
  ]

  -- After the insertion some row has the key, the new one or the old one.
  pub insert_new-Any :
      (x : A) (rows : List A) → test x ≡ true → Any (λ r. test r ≡ true) (insert_new test x rows).1
  unfolding insert_new
  insert_new-Any x rows fits = elim (Bool-cases (any test rows)) [
    | inl old ↦ rw old (any-Any rows old)
    | inr new ↦ rw new (Any-append_right rows (here fits))
  ]

-- UPDATE is a map over the rows, and reports how many rows pass its test.
module _ {ℓ} {A : Type ℓ} (test : A → Bool) (f : A → A) where
  pub update_where-rows :
      (rows : List A) → (update_where test f rows).1 ≡ map (λ r. if test r then f r else r) rows
  unfolding update_where
  update_where-rows [] = refl
  update_where-rows (r ∷ rows) = ground (arith, update_where-rows rows)

  pub update_where-count : (rows : List A) → (update_where test f rows).0 ≡ count_where test rows
  unfolding update_where count_where
  update_where-count [] = refl
  update_where-count (r ∷ rows) = ground (arith, update_where-count rows)

module _ {ℓ} {A : Type ℓ} (test : A → Bool) (f : A → A) where
  -- A map that does not change what the test reads changes no count.
  pub count_where-map :
      (rows : List A)
      → ((r : A) → test (f r) ≡ test r)
      → count_where test (map f rows) ≡ count_where test rows
  unfolding count_where
  count_where-map [] same = refl
  count_where-map (r ∷ rows) same = ground (arith, same r, count_where-map rows same)

module _ {ℓ} {A : Type ℓ} (test : A → Bool) where
  any-append_left : (rows more : List A) → any test rows ≡ true → any test (rows ++ more) ≡ true
  unfolding any
  any-append_left [] more h = cc
  any-append_left (r ∷ rows) more h = ground (arith, any-append_left rows more)

  any-append_last : (rows : List A) (x : A) → test x ≡ true → any test (rows ++ x ∷ []) ≡ true
  unfolding any
  any-append_last [] x h = ground arith
  any-append_last (r ∷ rows) x h = ground (arith, any-append_last rows x h)

  -- An insertion keeps what a test finds, and leaves a row with its own key.
  pub any-insert_new :
      (conflicts : A → Bool) (x : A) (rows : List A)
      → any test rows ≡ true
      → any test (insert_new conflicts x rows).1 ≡ true
  unfolding insert_new
  any-insert_new conflicts x rows h =
      ground (arith, any-append_left rows (x ∷ []) h, any conflicts rows)

  pub any-insert_new_self :
      (x : A) (rows : List A) → test x ≡ true → any test (insert_new test x rows).1 ≡ true
  unfolding insert_new
  any-insert_new_self x rows h = elim (Bool-cases (any test rows)) [
    | inl old ↦ rw old old
    | inr new ↦ rw new (any-append_last rows x h)
  ]

  -- Where a row has the key, nothing is inserted.
  pub insert_new-known :
      (x : A) (rows : List A) → any test rows ≡ true → insert_new test x rows ≡ (0, rows)
  unfolding insert_new
  insert_new-known x rows h = rw h

-- An insertion takes no row from a count.
module _ {ℓ} {A : Type ℓ} (test : A → Bool) where
  count_where-append :
      (rows more : List A) → count_where test rows ≤ count_where test (rows ++ more)
  unfolding count_where
  count_where-append [] more = omega arith
  count_where-append (r ∷ rows) more = ground (arith, count_where-append rows more)

  pub count_where-insert_new :
      (conflicts : A → Bool) (x : A) (rows : List A)
      → count_where test rows ≤ count_where test (insert_new conflicts x rows).1
  unfolding insert_new
  count_where-insert_new conflicts x rows = elim (Bool-cases (any conflicts rows)) [
    | inl known ↦ rw known (omega arith)
    | inr new ↦ rw new (count_where-append rows (x ∷ []))
  ]

  -- A row that is counted is there.
  pub count_where-Any : (rows : List A) → 0 < count_where test rows → Any (λ r. test r ≡ true) rows
  unfolding count_where
  count_where-Any [] h = absurd (omega arith)
  count_where-Any (r ∷ rows) h = elim (Bool-cases (test r)) [
    | inl fits ↦ here fits
    | inr other ↦ there (count_where-Any rows (rw other at h))
  ]

-- An update of a row keeps what the rows before it keep.
module _ {ℓ κ} {A : Type ℓ} (P : A → Type κ) (test : A → Bool) (f : A → A) where
  pub update_where-Any :
      (rows : List A) → ((r : A) → P r → P (f r)) → Any P rows → Any P (update_where test f rows).1
  unfolding update_where
  update_where-Any [] keeps none_there = elim none_there [ ]
  update_where-Any (r ∷ rows) keeps (here p) = elim (Bool-cases (test r)) [
    | inl fits ↦ rw fits (here (keeps r p))
    | inr other ↦ rw other (here p)
  ]
  update_where-Any (r ∷ rows) keeps (there later) = elim (Bool-cases (test r)) [
    | inl fits ↦ rw fits (there (update_where-Any rows keeps later))
    | inr other ↦ rw other (there (update_where-Any rows keeps later))
  ]

module _ {ℓ} {A : Type ℓ} (test : A → Bool) where
  pub count_where-any : (rows : List A) → ltb 0 (count_where test rows) ≡ any test rows
  unfolding count_where any
  count_where-any [] = refl
  count_where-any (r ∷ rows) = ground (arith, count_where-any rows)
