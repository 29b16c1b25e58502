-- ===== src/Writer/KnownGaps/Ranges.antt =====
-- The ranges into which `transactKnownGaps` (databasewrite.go) cuts a range of slots.
use native.Mathlib.Nat.{div-add-mod', mod-lt}
use ipld_eth_beacon_indexer.Base.{
  ℕ, zero, suc, ◌+◌, ◌-◌, ◌*◌, ◌/◌, ◌%◌, ◌≤◌, ◌<◌, ◌≡◌, sym, ap, false, List, [], ◌∷◌, arith, inl,
  inr, Bool-cases, ◌/=◌, leb, leb-false, ◌==◌, if◌then◌else◌, All, Any, here, there,
}
use ipld_eth_beacon_indexer.Word.{sub64, rounds, u64_mod, int_sign, max_u64}
use ipld_eth_beacon_indexer.Writer.KnownGaps.{chunk_start, chunk_end, chunk_count}

-- The ranges of the rounds from `i` on.
unfoldable pub ranges_from : (increment start end chunks left i : ℕ) → List (ℕ × ℕ)
ranges_from increment start end chunks zero i = []
ranges_from increment start end chunks (suc left) i =
    (chunk_start increment start i, chunk_end increment start end chunks i)
    ∷ ranges_from increment start end chunks left (i + 1)

unfoldable pub gap_ranges : (increment start end : ℕ) → List (ℕ × ℕ)
gap_ranges increment start end =
    if leb (sub64 end start) increment
    then (start, end) ∷ []
    else let chunks = chunk_count increment start end in
      ranges_from increment start end chunks (rounds chunks) 0

abbrev pub Holds : ℕ → ℕ × ℕ → Type 0
Holds slot r = (r.0 ≤ slot) × (slot ≤ r.1)

-- Inside the range that is cut, and at most `increment` from its first to its last slot.
abbrev pub Fits : ℕ → ℕ → ℕ → ℕ × ℕ → Type 0
Fits increment start end r = (start ≤ r.0) × (r.0 ≤ r.1) × (r.1 ≤ end) × (r.1 ≤ r.0 + increment)

-- A range of slots without wrap-around, as a proper gap is.
pub record IsRange (increment start end : ℕ) : Type 0 where
  pub positive : 0 < increment
  pub ordered : start ≤ end
  pub word : end ≤ max_u64
  pub narrow : end - start < int_sign

-- What the number of rounds is: the width divided by the increment, rounded up.
pub record IsCount (increment width chunks : ℕ) : Type 0 where
  pub enough : width ≤ chunks * increment
  pub needed : (chunks - 1) * increment < width
  pub some_chunk : 0 < chunks
  pub int : chunks < int_sign

-- A quotient of the width is no more than the width.
quotient-le : (increment width q r : ℕ) → 0 < increment → width ≡ q * increment + r → q ≤ width
quotient-le increment width q r positive split = grind arith

exact-IsCount :
    (increment width q : ℕ)
    → 0 < increment
    → increment < width
    → width < int_sign
    → width ≡ q * increment
    → IsCount increment width q
exact-IsCount increment width zero positive wide narrow split = absurd (omega arith)
exact-IsCount increment width (suc q) positive wide narrow split = record {
  enough = omega arith;
  needed = let less : suc q - 1 ≡ q = omega arith in rw less (omega arith);
  some_chunk = omega arith;
  int = omega (arith, quotient-le increment width (suc q) 0 positive (omega arith));
}

rounded-IsCount :
    (increment width q r : ℕ)
    → 0 < r
    → r < increment
    → increment < width
    → width < int_sign
    → width ≡ q * increment + r
    → IsCount increment width (q + 1)
rounded-IsCount increment width q r left small wide narrow split = record {
  enough = omega arith;
  needed = let less : q + 1 - 1 ≡ q = omega arith in rw less (omega arith);
  some_chunk = omega arith;
  int = grind arith;
}

module _ (increment start end : ℕ) (range : IsRange increment start end) where
  pub sub64-range : sub64 end start ≡ end - start
  sub64-range = omega arith

  chunk_count-IsCount :
      increment < end - start → IsCount increment (end - start) (chunk_count increment start end)
  unfolding chunk_count
  chunk_count-IsCount wide =
      let width : ℕ = end - start in
      let positive : 0 < increment = range.positive in
      let narrow : width < int_sign = range.narrow in
      let split : width ≡ width / increment * increment + width % increment =
        sym (div-add-mod' width increment) in
      let small : width % increment < increment = mod-lt width positive in
      rw sub64-range (elim (Bool-cases (width % increment /= 0)) [
        | inl more ↦
            let no_wrap : (width / increment + 1) % u64_mod ≡ width / increment + 1 = omega (
              arith,
              quotient-le increment width (width / increment) (width % increment) positive split,
            ) in
            rw (more, no_wrap)
              (rounded-IsCount increment width (width / increment) (width % increment)
                (ground arith) small wide narrow split)
        | inr exact ↦
            rw exact (
              exact-IsCount increment width (width / increment) positive wide narrow (ground arith))
      ])

-- The rounds of a range whose number of chunks is `chunks`.
module _ (increment start end chunks : ℕ) (range : IsRange increment start end)
    (number : IsCount increment (end - start) chunks) where
  pub before_end : (i : ℕ) → i < chunks → i * increment < end - start
  before_end i less =
      let less' : i ≤ chunks - 1 = omega arith in
      let needed : (chunks - 1) * increment < end - start = number.needed in grind arith

  pub chunk_start-eq : (i : ℕ) → i < chunks → chunk_start increment start i ≡ start + i * increment
  chunk_start-eq i less = let word : end ≤ max_u64 = range.word in omega (arith, before_end i less)

  pub chunk_end-eq :
      (i : ℕ)
      → i + 1 < chunks
      → chunk_end increment start end chunks i ≡ start + (i + 1) * increment
  chunk_end-eq i less =
      let more : (i + 1 == chunks) ≡ false = ground arith in rw more (chunk_start-eq (i + 1) less)

  pub chunk_end-last : (i : ℕ) → i + 1 ≡ chunks → chunk_end increment start end chunks i ≡ end
  chunk_end-last i last = ground arith

  -- From round `i` on, each slot from the start of that round to the end is in a range.
  ranges_from-Any :
      (left i slot : ℕ)
      → i + suc left ≡ chunks
      → start + i * increment ≤ slot
      → slot ≤ end
      → Any (Holds slot) (ranges_from increment start end chunks (suc left) i)
  unfolding ranges_from
  ranges_from-Any zero i slot total low high =
      here (rw (chunk_start-eq i (omega arith), chunk_end-last i (omega arith)) (low, high))
  ranges_from-Any (suc left) i slot total low high =
      elim (Bool-cases (leb slot (start + (i + 1) * increment))) [
        | inl now ↦
            here (
              rw (chunk_start-eq i (omega arith), chunk_end-eq i (omega arith)) (low, ground arith))
        | inr later ↦ there (ranges_from-Any left (i + 1) slot (omega arith) (ground arith) high)
      ]

  chunk-Fits :
      (i : ℕ)
      → i < chunks
      → Fits increment start end
          (chunk_start increment start i, chunk_end increment start end chunks i)
  chunk-Fits i less = elim (Bool-cases (i + 1 == chunks)) [
    | inl last ↦
        let last' : i + 1 ≡ chunks = ground arith in
        let enough : end - start ≤ chunks * increment = number.enough in
        let step : (i + 1) * increment ≡ chunks * increment = ap (λ (t : ℕ). t * increment) last' in
        rw (chunk_start-eq i less, chunk_end-last i last')
          (omega (arith, before_end i less, range.ordered))
    | inr more ↦
        let less' : i + 1 < chunks = ground arith in
        rw (chunk_start-eq i less, chunk_end-eq i less')
          (omega (arith, before_end (i + 1) less', range.ordered))
  ]

  ranges_from-All :
      (left i : ℕ)
      → i + left ≡ chunks
      → All (Fits increment start end) (ranges_from increment start end chunks left i)
  unfolding ranges_from
  ranges_from-All zero i total = tt
  ranges_from-All (suc left) i total =
      (chunk-Fits i (omega arith), ranges_from-All left (i + 1) (omega arith))

rounds-int : (n : ℕ) → n < int_sign → rounds n ≡ n
unfolding rounds
rounds-int n h = ground arith

module _ (increment start end : ℕ) (range : IsRange increment start end) where
  pub wide-IsCount :
      leb (sub64 end start) increment ≡ false
      → IsCount increment (end - start) (chunk_count increment start end)
  wide-IsCount more =
      chunk_count-IsCount increment start end range
        (omega (arith, leb-false _ _ more, sub64-range _ _ _ range))

  pub gap_ranges-wide :
      leb (sub64 end start) increment ≡ false
      → gap_ranges increment start end
        ≡ ranges_from increment start end
            (chunk_count increment start end)
            (suc (chunk_count increment start end - 1))
            0
  unfolding gap_ranges
  gap_ranges-wide more =
      let chunks : ℕ = chunk_count increment start end in
      let number : IsCount increment (end - start) chunks = wide-IsCount more in
      let last : suc (chunks - 1) ≡ chunks = omega (arith, number.some_chunk) in
      rw (more, rounds-int chunks number.int, last)

  -- The ranges of a proper gap leave out no slot of it.
  pub gap_ranges-Any :
      (slot : ℕ) → start ≤ slot → slot ≤ end → Any (Holds slot) (gap_ranges increment start end)
  gap_ranges-Any slot low high = elim (Bool-cases (leb (sub64 end start) increment)) [
    | inl one ↦ unfold gap_ranges in rw one (here (low, high))
    | inr more ↦ rw (gap_ranges-wide more) (
        ranges_from-Any increment start end (chunk_count increment start end) range
          (wide-IsCount more) (chunk_count increment start end - 1) 0 slot
          (omega (arith, (wide-IsCount more).some_chunk)) (omega arith) high)
  ]

  -- Each range of a proper gap lies inside it and spans at most `increment` steps.
  pub gap_ranges-All : All (Fits increment start end) (gap_ranges increment start end)
  gap_ranges-All = elim (Bool-cases (leb (sub64 end start) increment)) [
    | inl one ↦
        unfold gap_ranges in
        let narrow : sub64 end start ≤ increment = ground arith in
        rw one (omega (arith, range.ordered, sub64-range _ _ _ range, narrow), tt)
    | inr more ↦ rw (gap_ranges-wide more) (
        ranges_from-All increment start end (chunk_count increment start end) range
          (wide-IsCount more) (suc (chunk_count increment start end - 1)) 0
          (omega (arith, (wide-IsCount more).some_chunk)))
  ]
