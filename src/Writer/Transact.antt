-- ===== src/Writer/Transact.antt =====
-- What `writeKnownGaps` and `writeReorgs` (databasewrite.go) share: the statements of a body run in
-- a transaction, which is committed or not at all.
use ipld_eth_beacon_indexer.Base.{◌≡◌, ◌⊎◌, ◌∙◌, some, inl, inr, Option-cases}
use ipld_eth_beacon_indexer.Sql.{Error, Driver}
use ipld_eth_beacon_indexer.Sql.Tables.{Tables}
use ipld_eth_beacon_indexer.Sql.Laws.{IsPostgres}
use ipld_eth_beacon_indexer.Action.{World, Action, ◌>>=◌, ◌>>◌, pure, call, Ensures}
use ipld_eth_beacon_indexer.Action.Rules.{Ensures-bind, Ensures-map}
use ipld_eth_beacon_indexer.Writer.KnownGaps.{fatal_error}
use ipld_eth_beacon_indexer.Writer.KnownGaps.Table.{in_tx, in_db, Uncommitted}

module _ {S : Type 0} (db : Driver S) (laws : IsPostgres db) (db0 : Tables) where
  abbrev commit_then_rollback : Action S (Unit {0})
  commit_then_rollback = do
    commit_error ← call db.commit
    fatal_error db commit_error
    call db.rollback
    pure tt

  -- The deferred rollback comes last.
  abbrev pub transact : Action S (Unit {0}) → Action S (Unit {0})
  transact body = do
    begin_error ← call db.begin
    fatal_error db begin_error
    body
    commit_error ← call db.commit
    fatal_error db commit_error
    call db.rollback
    pure tt

  -- `T` of the tables that the transaction sees, and nothing is committed.
  abbrev pub Pending : (T : Tables → Type 0) → World S → Type 0
  Pending T w = T (in_tx db laws w) × Uncommitted db laws db0 w

  -- `B` is a state in which the commit is refused.
  module _ (B : S → Type 0) (refuses : (s : S) → B s → (e : Error) × ((db.commit s).0 ≡ some e))
      (T : Tables → Type 0) where
    abbrev pub PendingOr : World S → Type 0
    PendingOr w = (T (in_tx db laws w) ⊎ B w.store) × Uncommitted db laws db0 w

    commit_refused :
        (e : Error) (w : World S)
        → (db.commit w.store).0 ≡ some e
        → Uncommitted db laws db0 w
        → Ensures (λ _ w'. T (in_db db laws w')) (Uncommitted db laws db0) (commit_then_rollback w)
    commit_refused e w failed same = rw failed (laws.commit_failed w.store e failed ∙ same)

    commit_lem :
        (w : World S)
        → PendingOr w
        → Ensures (λ _ w'. T (in_db db laws w')) (Uncommitted db laws db0) (commit_then_rollback w)
    commit_lem w (inl holds, same) =
        let s : S = (db.commit w.store).1 in
        elim (Option-cases (db.commit w.store).0) [
          | inl ok ↦ rw (ok, laws.rollback_isolated s, laws.commit_ok w.store ok) holds
          | inr (e, failed) ↦ commit_refused e w failed same
        ]
    commit_lem w (inr stuck, same) =
        commit_refused (refuses w.store stuck).0 w (refuses w.store stuck).1 same

    -- What the body makes of the tables that it starts from is committed, or the program exits and
    -- nothing is.
    pub transact-or :
        (body : Action S (Unit {0})) (w : World S)
        → Uncommitted db laws db0 w
        → ((w1 : World S)
            → in_tx db laws w1 ≡ db0
            → Uncommitted db laws db0 w1
            → Ensures (λ _. PendingOr) (Uncommitted db laws db0) (body w1))
        → Ensures (λ _ w'. T (in_db db laws w')) (Uncommitted db laws db0) (transact body w)
    transact-or body w same runs =
        let s : S = (db.begin w.store).1 in
        let w1 : World S = record w { store = s } in
        let same1 : laws.committed s ≡ db0 = laws.begin_isolated w.store ∙ same in
        elim (Option-cases (db.begin w.store).0) [
          | inl ok ↦ rw ok (
              Ensures-bind (λ _. PendingOr) (λ _ w'. T (in_db db laws w')) (Uncommitted db laws db0)
                body (λ _. commit_then_rollback) w1
                (runs w1 (laws.begin_ok w.store ok ∙ same) same1) (λ _ w' h. commit_lem w' h))
          | inr (e, failed) ↦ rw failed same1
        ]

  pub transact_lem :
      (T : Tables → Type 0) (body : Action S (Unit {0})) (w : World S)
      → Uncommitted db laws db0 w
      → ((w1 : World S)
          → in_tx db laws w1 ≡ db0
          → Uncommitted db laws db0 w1
          → Ensures (λ _. Pending T) (Uncommitted db laws db0) (body w1))
      → Ensures (λ _ w'. T (in_db db laws w')) (Uncommitted db laws db0) (transact body w)
  transact_lem T body w same runs =
      transact-or (λ _. ⊥) (λ s h. absurd h) T body w same
        (λ w1 opened same1.
          Ensures-map (λ _. Pending T) (λ _. PendingOr (λ _. ⊥) (λ s h. absurd h) T)
            (Uncommitted db laws db0) (body w1) (λ _ w' h. (inl h.0, h.1)) (runs w1 opened same1))
