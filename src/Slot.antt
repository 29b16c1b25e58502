-- ===== src/Slot.antt =====
-- The slot and epoch numbers of pkg/beaconclient/consensus.go, with `calculateEpoch` of
-- databasewrite.go. Text that is parsed or printed is the list of its bytes.
pub mod RoundTrip
use Prim.Native.Char.{code}
use Prim.Native.String
use ipld_eth_beacon_indexer.Base.{
  ℕ, zero, suc, ◌+◌, ◌-◌, ◌*◌, ◌/◌, ◌%◌, String, List, [], ◌∷◌, ◌++◌, Option, none, some, ltb, leb,
  ◌||◌, ◌==◌, if◌then◌else◌,
}
use ipld_eth_beacon_indexer.Word.{u64_mod, max_u64, add64}

-- The bytes of an ASCII text; a character outside ASCII counts as one that is no digit.
abbrev pub codes : String → List ℕ
codes String.[] = []
codes (String.◌∷◌ c s) = code c ∷ codes s

pub data NumError : Type 0 where
  syntax range : NumError

-- `strconv.ParseUint(v, 10, 64)` on what is left of the text: the number, and the error.
parse_digits : List ℕ → ℕ → ℕ × Option NumError
parse_digits [] n = (n, none)
parse_digits (c ∷ s) n =
    let rest = parse_digits s (n * 10 + (c - b'0')) in
    if ltb c b'0' || ltb b'9' c
    then (0, some syntax)
    else if ltb max_u64 (n * 10 + (c - b'0'))
    then (max_u64, some range)
    else rest

-- The number is 0 beside a syntax error and the greatest one beside a range error.
unfoldable pub parse_slot : List ℕ → ℕ × Option NumError
unfolding parse_digits
parse_slot [] = (0, some syntax)
parse_slot (c ∷ s) = parse_digits (c ∷ s) 0

-- `strconv.FormatUint(n, 10)`: digits are put in front of what was printed, on fuel.
format_from : ℕ → ℕ → List ℕ → List ℕ
format_from zero n out = out
format_from (suc fuel) n out =
    let rest = format_from fuel (n / 10) ((b'0' + n % 10) ∷ out) in
    if ltb n 10 then (b'0' + n) ∷ out else rest

-- A uint64 has at most 20 digits.
unfoldable pub format : ℕ → List ℕ
unfolding format_from
format n = format_from 20 n []

-- `Slot.Plus`
abbrev pub plus : ℕ → ℕ → ℕ
plus s v = add64 v s

-- `Slot.PlusInt`: the int's bit pattern is read as a uint64.
abbrev pub plus_int : ℕ → ℕ → ℕ
plus_int s v = plus s v

abbrev pub slots_per_epoch : ℕ
slots_per_epoch = 32

unfoldable pub calculate_epoch : ℕ → ℕ → ℕ
calculate_epoch slot slot_per_epoch = slot / slot_per_epoch
