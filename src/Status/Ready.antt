-- ===== src/Status/Ready.antt =====
-- What the answers of checkbeaconserverstatus.go mean for the node.
use ipld_eth_beacon_indexer.Base.{
  ℕ, ◌≡◌, ◌≤◌, ◌↔◌, ◌⊎◌, refl, sym, ap, subst, String, List, ◌++◌, Option, none, some, true, false,
  ltb, ◌||◌, arith, inl, inr, Bool-cases,
}
use ipld_eth_beacon_indexer.Slot.{NumError, codes}
use ipld_eth_beacon_indexer.Text.{atoi, text_lower_eq}
use ipld_eth_beacon_indexer.Sql.{Error}
use ipld_eth_beacon_indexer.Consensus.{Coded, coded, refused}
use ipld_eth_beacon_indexer.Server.{Node, Response, no_request, no_answer, answered}
use ipld_eth_beacon_indexer.Status.{
  Sync, LighthouseDatabaseInfo, Json, sync_status_endpoint, query_head_sync, check_head_sync,
  syncing, query_json, decoded_body, is_no_anchor, query_lighthouse_db_info,
  query_head_slot_in_beacon_server, lh_db_info_endpoint, atoi_or_zero, head_slot_of, latest_slot,
  after_head_slot, get_latest_slot_in_beacon_server,
}

-- A 2xx answer with a whole body that decodes to `a`.
pub data IsAnswer {A : Type 0} (decode : List ℕ → A × Option Error) (a : A) (r : Response)
    : Type 0 where
  is_answer :
      (rc : ℕ) (bytes : List ℕ)
      → r ≡ answered rc (coded bytes)
      → 200 ≤ rc
      → rc ≤ 299
      → decode bytes ≡ (a, none)
      → IsAnswer decode a r

module _ {A : Type 0} (zero_value : A) (decode : List ℕ → A × Option Error) (text : String) where
  body-IsAnswer :
      (rc : ℕ) (body : Coded (List ℕ)) (a : A)
      → 200 ≤ rc
      → rc ≤ 299
      → decoded_body zero_value decode body ≡ (a, none)
      → IsAnswer decode a (answered rc body)
  body-IsAnswer rc (refused e) a low high h = absurd cc
  body-IsAnswer rc (coded bytes) a low high h = is_answer rc bytes refl low high h

  query_json-IsAnswer :
      (r : Response) (a : A) → query_json zero_value decode text r ≡ (a, none) → IsAnswer decode a r
  query_json-IsAnswer (no_request e) a h = absurd cc
  query_json-IsAnswer (no_answer e) a h = absurd cc
  query_json-IsAnswer (answered rc body) a h = elim (Bool-cases (ltb rc 200 || ltb 299 rc)) [
    | inl bad ↦ absurd (cc (rw bad at h))
    | inr good ↦ body-IsAnswer rc body a (ground arith) (ground arith) (rw good at h)
  ]

-- The node has answered that it is not syncing.
abbrev pub IsReady : Json → Node → String → Type 0
IsReady json node server =
    (status : Sync) × (IsAnswer json.decode_sync status
        (node.get (codes server ++ codes sync_status_endpoint))
      × (status.sync_data.is_syncing ≡ false))

-- The head slot comes from a good status of the node, or is 0 where there was none or its text is
-- no int.
abbrev pub HeadSlot : Json → Node → String → ℕ → Type 0
HeadSlot json node server slot =
    ((status : Sync) × (IsAnswer json.decode_sync status
          (node.get (codes server ++ codes sync_status_endpoint))
        × (atoi status.sync_data.head_slot ≡ (slot, none))))
    ⊎ (slot ≡ 0)

module _ (json : Json) (node : Node) (server : String) where
  syncing-false :
      (r : Sync × Option Error)
      → syncing r ≡ (false, none)
      → (r ≡ (r.0, none)) × (r.0.sync_data.is_syncing ≡ false)
  syncing-false (status, some e) h = absurd cc
  syncing-false (status, none) h = (refl, ap (λ p. p.0) h)

  syncing-none : (r : Sync × Option Error) → (syncing r).1 ≡ none
  syncing-none (status, some e) = refl
  syncing-none (status, none) = refl

  check_head_sync-IsReady :
      check_head_sync json node server ≡ (false, none) → IsReady json node server
  unfolding check_head_sync query_head_sync
  check_head_sync-IsReady h =
      let (good, idle) = syncing-false (query_head_sync json node server) h in
      (_, (query_json-IsAnswer _ _ _ _ _ good, idle))

  IsReady-check_head_sync :
      IsReady json node server → check_head_sync json node server ≡ (false, none)
  unfolding check_head_sync query_head_sync
  IsReady-check_head_sync (status, (is_answer rc bytes answer low high decoded, idle)) =
      let inside : ltb rc 200 || ltb 299 rc ≡ false = ground arith in
      rw (answer, inside, decoded, idle) refl

  -- CheckHeadSync returns no error, and it tells that the node is not syncing exactly where the node
  -- has answered so with a 2xx status, a whole body and good json.
  pub check_head_sync-eq-IsReady :
      ((check_head_sync json node server).1 ≡ none)
      × ((check_head_sync json node server ≡ (false, none)) ↔ IsReady json node server)
  unfolding check_head_sync
  check_head_sync-eq-IsReady = (
    syncing-none (query_head_sync json node server),
    (check_head_sync-IsReady, IsReady-check_head_sync),
  )

  atoi_or_zero-cases :
      (r : ℕ × Option NumError) (slot : ℕ)
      → atoi_or_zero r ≡ (slot, none)
      → (r ≡ (slot, none)) ⊎ (slot ≡ 0)
  atoi_or_zero-cases (n, some e) slot h = inr (sym (ap (λ p. p.0) h))
  atoi_or_zero-cases (n, none) slot h = inl (ap (λ k. (k, none)) (ap (λ p. p.0) h))

  head_slot_of-HeadSlot :
      (r : Sync × Option Error) (slot : ℕ)
      → query_head_sync json node server ≡ r
      → head_slot_of r ≡ (slot, none)
      → HeadSlot json node server slot
  unfolding query_head_sync
  head_slot_of-HeadSlot (status, some e) slot q h = inr (sym (ap (λ p. p.0) h))
  head_slot_of-HeadSlot (status, none) slot q h =
      elim (atoi_or_zero-cases (atoi status.sync_data.head_slot) slot h) [
        | inl read ↦ inl (status, (query_json-IsAnswer _ _ _ _ _ q, read))
        | inr nothing ↦ inr nothing
      ]

  latest_slot-inv :
      (slot n : ℕ) (r : LighthouseDatabaseInfo × Option Error)
      → latest_slot slot r ≡ (n, none)
      → (slot ≡ n) × ((r ≡ (r.0, none)) × (is_no_anchor r.0.anchor ≡ true))
  latest_slot-inv slot n (info, some e) h = absurd cc
  latest_slot-inv slot n (info, none) h = elim (Bool-cases (is_no_anchor info.anchor)) [
    | inl whole ↦ (ap (λ p. p.0) (rw whole at h), (refl, whole))
    | inr anchored ↦ absurd (cc (rw anchored at h))
  ]

  after_head_slot-inv :
      (r : ℕ × Option Error) (n : ℕ)
      → after_head_slot json node server r ≡ (n, none)
      → (r ≡ (r.0, none))
        × (latest_slot r.0 (query_lighthouse_db_info json node server) ≡ (n, none))
  after_head_slot-inv (slot, some e) n h = absurd cc
  after_head_slot-inv (slot, none) n h = (refl, h)

  -- Where GetLatestSlotInBeaconServer returns a slot and no error, the type is lighthouse in any
  -- case, the node has answered with the information of its database, in which no anchor is set, and
  -- the slot is the one that the node has answered as its head, or 0.
  pub get_latest_slot_in_beacon_server-HeadSlot :
      (beacon_server_type : String) (slot : ℕ)
      → get_latest_slot_in_beacon_server json node server beacon_server_type ≡ (slot, none)
      → (text_lower_eq beacon_server_type "lighthouse" ≡ true)
        × (((info : LighthouseDatabaseInfo) × (IsAnswer json.decode_db_info info
                  (node.get (codes server ++ codes lh_db_info_endpoint))
                × (is_no_anchor info.anchor ≡ true)))
            × HeadSlot json node server slot)
  unfolding get_latest_slot_in_beacon_server query_lighthouse_db_info
      query_head_slot_in_beacon_server
  get_latest_slot_in_beacon_server-HeadSlot kind slot h =
      elim (Bool-cases (text_lower_eq kind "lighthouse")) [
        | inl lighthouse ↦
            let (head, rest) =
              after_head_slot-inv (query_head_slot_in_beacon_server json node server) slot
                (rw lighthouse at h) in
            let (same, (answered_info, whole)) =
              latest_slot-inv _ slot (query_lighthouse_db_info json node server) rest in
            (
              lighthouse,
              (
                (_, (query_json-IsAnswer _ _ _ _ _ answered_info, whole)),
                subst (HeadSlot json node server) same
                    (head_slot_of-HeadSlot (query_head_sync json node server) _ refl head),
              ),
            )
        | inr other ↦ absurd (cc (rw other at h))
      ]
