-- ===== src/Consensus/Forks.antt =====
-- Unmarshalling chooses one fork, and marshalling gives the bytes back (consensus.go).
use ipld_eth_beacon_indexer.Base.{
  ℕ, ◌≡◌, refl, List, [], Option, none, some, is_some, true, false, Bool, ◌+◌,
}
use ipld_eth_beacon_indexer.Sql.{Error}
use ipld_eth_beacon_indexer.Consensus.{Coded, coded, refused, Zrnt, choose_spec}
use ipld_eth_beacon_indexer.Consensus.Block.{
  SignedBeaconBlock, unmarshal_block, marshal_block, block,
}
use ipld_eth_beacon_indexer.Consensus.State.{BeaconState, unmarshal_state, marshal_state}

abbrev bit : Bool → ℕ
bit true = 1
bit false = 0

-- How many forks are set.
abbrev set_forks {ℓ} : {A B C : Type ℓ} → Option A → Option B → Option C → ℕ
set_forks a b c = bit (is_some a) + (bit (is_some b) + bit (is_some c))

-- What a decoder reads, the encoder of its fork writes.
pub record RoundTrips (z : Zrnt) : Type 1 where
  pub bellatrix_block :
      (spec : z.Spec) (ssz : List ℕ) (b : z.bellatrix.Signed)
      → z.bellatrix.decode_block spec ssz ≡ coded b
      → z.bellatrix.encode_block spec b ≡ (none, ssz)
  pub altair_block :
      (spec : z.Spec) (ssz : List ℕ) (b : z.altair.Signed)
      → z.altair.decode_block spec ssz ≡ coded b
      → z.altair.encode_block spec b ≡ (none, ssz)
  pub phase0_block :
      (spec : z.Spec) (ssz : List ℕ) (b : z.phase0.Signed)
      → z.phase0.decode_block spec ssz ≡ coded b
      → z.phase0.encode_block spec b ≡ (none, ssz)
  pub bellatrix_state :
      (spec : z.Spec) (ssz : List ℕ) (x : z.bellatrix.State)
      → z.bellatrix.decode_state spec ssz ≡ coded x
      → z.bellatrix.encode_state spec x ≡ (none, ssz)
  pub altair_state :
      (spec : z.Spec) (ssz : List ℕ) (x : z.altair.State)
      → z.altair.decode_state spec ssz ≡ coded x
      → z.altair.encode_state spec x ≡ (none, ssz)
  pub phase0_state :
      (spec : z.Spec) (ssz : List ℕ) (x : z.phase0.State)
      → z.phase0.decode_state spec ssz ≡ coded x
      → z.phase0.encode_state spec x ≡ (none, ssz)

pub data CodedIs {ℓ} {A : Type ℓ} (c : Coded A) : Type ℓ where
  is_coded : (a : A) → c ≡ coded a → CodedIs c
  is_refused : (e : Error) → c ≡ refused e → CodedIs c

Coded-cases {ℓ} : {A : Type ℓ} (c : Coded A) → CodedIs c
Coded-cases (coded a) = is_coded a refl
Coded-cases (refused e) = is_refused e refl

module _ (z : Zrnt) where
  -- Exactly one fork is set and there is no error, or none is set beside the error; the block that
  -- is read further is there exactly in the first case.
  abbrev pub OneFork : Option Error × SignedBeaconBlock z → Type 0
  OneFork (none, s) = (set_forks s.bellatrix s.altair s.phase0 ≡ 1) × (is_some (block z s) ≡ true)
  OneFork (some e, s) =
      (set_forks s.bellatrix s.altair s.phase0 ≡ 0) × (is_some (block z s) ≡ false)

  -- Unmarshalling a signed block sets exactly one fork and returns no error, and then there is a block
  -- to read, or it sets none and returns an error, and then there is none.
  pub unmarshal_block-OneFork :
      (s : SignedBeaconBlock z) (ssz : List ℕ) → OneFork (unmarshal_block z s ssz)
  unfolding unmarshal_block block
  unmarshal_block-OneFork s ssz =
      let spec : z.Spec = choose_spec z s.spec in
      elim (Coded-cases (z.bellatrix.decode_block spec ssz)) [
        | is_coded b h ↦ rw h (refl, refl)
        | is_refused e h ↦ elim (Coded-cases (z.altair.decode_block spec ssz)) [
          | is_coded b h2 ↦ rw (h, h2) (refl, refl)
          | is_refused e2 h2 ↦ elim (Coded-cases (z.phase0.decode_block spec ssz)) [
            | is_coded b h3 ↦ rw (h, h2, h3) (refl, refl)
            | is_refused e3 h3 ↦ rw (h, h2, h3) (refl, refl)
          ]
        ]
      ]

  module _ (laws : RoundTrips z) where
    abbrev pub Rewrites : List ℕ → Option Error × SignedBeaconBlock z → Type 0
    Rewrites ssz (none, s) = marshal_block z s ≡ coded ssz
    Rewrites ssz (some e, s) = marshal_block z s ≡ coded []

    -- A block that was unmarshalled with no error marshals to the bytes that it came from. After an
    -- error it marshals to no bytes, and no error.
    pub marshal-unmarshal_block :
        (s : SignedBeaconBlock z) (ssz : List ℕ) → Rewrites ssz (unmarshal_block z s ssz)
    unfolding unmarshal_block marshal_block
    marshal-unmarshal_block s ssz =
        let spec : z.Spec = choose_spec z s.spec in
        elim (Coded-cases (z.bellatrix.decode_block spec ssz)) [
          | is_coded b h ↦ rw (h, laws.bellatrix_block spec ssz b h)
          | is_refused e h ↦ elim (Coded-cases (z.altair.decode_block spec ssz)) [
            | is_coded b h2 ↦ rw (h, h2, laws.altair_block spec ssz b h2)
            | is_refused e2 h2 ↦ elim (Coded-cases (z.phase0.decode_block spec ssz)) [
              | is_coded b h3 ↦ rw (h, h2, h3, laws.phase0_block spec ssz b h3)
              | is_refused e3 h3 ↦ rw (h, h2, h3)
            ]
          ]
        ]

    abbrev pub RewritesState : List ℕ → Option Error × BeaconState z → Type 0
    RewritesState ssz (none, s) = marshal_state z s ≡ coded ssz
    RewritesState ssz (some e, s) = marshal_state z s ≡ refused "BeaconState not set"

    -- A state that was unmarshalled with no error marshals to the bytes that it came from. After an
    -- error it does not marshal.
    pub marshal-unmarshal_state :
        (s : BeaconState z) (ssz : List ℕ) → RewritesState ssz (unmarshal_state z s ssz)
    unfolding unmarshal_state marshal_state
    marshal-unmarshal_state s ssz =
        let spec : z.Spec = choose_spec z s.spec in
        elim (Coded-cases (z.bellatrix.decode_state spec ssz)) [
          | is_coded b h ↦ rw (h, laws.bellatrix_state spec ssz b h)
          | is_refused e h ↦ elim (Coded-cases (z.altair.decode_state spec ssz)) [
            | is_coded b h2 ↦ rw (h, h2, laws.altair_state spec ssz b h2)
            | is_refused e2 h2 ↦ elim (Coded-cases (z.phase0.decode_state spec ssz)) [
              | is_coded b h3 ↦ rw (h, h2, h3, laws.phase0_state spec ssz b h3)
              | is_refused e3 h3 ↦ rw (h, h2, h3)
            ]
          ]
        ]
