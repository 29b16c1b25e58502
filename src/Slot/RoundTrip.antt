-- ===== src/Slot/RoundTrip.antt =====
-- Printing and parsing of slot numbers (consensus.go: `Slot.Format`, `ParseSlot`).
use native.Mathlib.Nat.{pow-suc}
use ipld_eth_beacon_indexer.Base.{
  ℕ, zero, suc, ◌+◌, ◌-◌, ◌*◌, ◌/◌, ◌%◌, ◌^◌, ◌≤◌, ◌<◌, ◌≡◌, ◌≢◌, refl, ◌∙◌, List, [], ◌∷◌, none,
  arith, inl, inr, Bool-cases, ltb,
}
use ipld_eth_beacon_indexer.Slot.{parse_digits, parse_slot, format_from, format}
use ipld_eth_beacon_indexer.Word.{max_u64}

-- One digit that is read back onto the number in front of it.
parse_digits-digit :
    (n q d : ℕ) (out : List ℕ)
    → d < 10
    → n ≡ q * 10 + d
    → n ≤ max_u64
    → parse_digits ((b'0' + d) ∷ out) q ≡ parse_digits out n
unfolding parse_digits
parse_digits-digit n q d out small split fits =
    let back : q * 10 + (b'0' + d - b'0') ≡ n = omega arith in rw back (ground arith)

parse_digits-format_from :
    (fuel n : ℕ) (out : List ℕ)
    → n < 10 ^ fuel
    → n ≤ max_u64
    → parse_digits (format_from fuel n out) 0 ≡ parse_digits out n
unfolding format_from
parse_digits-format_from zero n out small fits = let nothing : n ≡ 0 = omega arith in rw nothing
parse_digits-format_from (suc fuel) n out small fits = elim (Bool-cases (ltb n 10)) [
  | inl last ↦ rw last (parse_digits-digit n 0 n out (ground arith) (omega arith) fits)
  | inr more ↦ rw more (
      parse_digits-format_from fuel (n / 10) ((b'0' + n % 10) ∷ out)
        (omega (arith, pow-suc 10 fuel)) (omega arith)
      ∙ parse_digits-digit n (n / 10) (n % 10) out (omega arith) (omega arith) fits)
]

format_from-ne-nil : (fuel n c : ℕ) (out : List ℕ) → format_from fuel n (c ∷ out) ≢ []
unfolding format_from
format_from-ne-nil zero n c out e = cc
format_from-ne-nil (suc fuel) n c out e = elim (Bool-cases (ltb n 10)) [
  | inl last ↦ cc (rw last at e)
  | inr more ↦ format_from-ne-nil fuel (n / 10) (b'0' + n % 10) (c ∷ out) (rw more at e)
]

format-ne-nil : (n : ℕ) → format n ≢ []
unfolding format format_from
format-ne-nil n e = elim (Bool-cases (ltb n 10)) [
  | inl last ↦ cc (rw last at e)
  | inr more ↦ format_from-ne-nil 19 (n / 10) (b'0' + n % 10) [] (rw more at e)
]

parse_slot-cons : (s : List ℕ) → s ≢ [] → parse_slot s ≡ parse_digits s 0
unfolding parse_slot
parse_slot-cons [] h = absurd (h refl)
parse_slot-cons (c ∷ s) h = refl

-- Every slot number that fits 64 bits is printed as a text that parses back to it, with no error.
pub parse_slot-format : (n : ℕ) → n ≤ max_u64 → parse_slot (format n) ≡ (n, none)
unfolding format parse_digits
parse_slot-format n fits =
    parse_slot-cons (format n) (format-ne-nil n)
    ∙ parse_digits-format_from 20 n [] (omega arith) fits

parse_digits-le : (s : List ℕ) (n : ℕ) → n ≤ max_u64 → (parse_digits s n).0 ≤ max_u64
unfolding parse_digits
parse_digits-le [] n h = h
parse_digits-le (c ∷ s) n h = ground (arith, parse_digits-le s (n * 10 + (c - b'0')))

-- What `parse_slot` returns is a uint64, whatever the text and whether or not it reports an error.
pub parse_slot-le : (s : List ℕ) → (parse_slot s).0 ≤ max_u64
unfolding parse_slot
parse_slot-le [] = omega arith
parse_slot-le (c ∷ s) = parse_digits-le (c ∷ s) 0 (omega arith)
