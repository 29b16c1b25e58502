-- ===== src/Text.antt =====
-- What the program uses of the packages strings and strconv beside the printing of slots: texts are
-- lists of character codes, as in Slot.antt.
use ipld_eth_beacon_indexer.Base.{
  ℕ, ◌+◌, ◌-◌, String, List, [], ◌∷◌, Option, some, Bool, true, false, ltb, leb, ◌==◌, ◌&&◌,
  if◌then◌else◌,
}
use ipld_eth_beacon_indexer.Word.{int_sign, sub64}
use ipld_eth_beacon_indexer.Slot.{NumError, syntax, range, codes, parse_slot}

-- A character outside ASCII is kept, but for the two whose lower case is in ASCII.
abbrev lower_code : ℕ → ℕ
lower_code c =
    if leb 65 c && leb c 90
    then c + 32
    else if c == 0x130
    then 105
    else if c == 0x212a
    then 107
    else c

-- `strings.ToLower`
abbrev pub to_lower : List ℕ → List ℕ
to_lower [] = []
to_lower (c ∷ s) = lower_code c ∷ to_lower s

abbrev pub codes_eq : List ℕ → List ℕ → Bool
codes_eq [] [] = true
codes_eq [] (d ∷ t) = false
codes_eq (c ∷ s) [] = false
codes_eq (c ∷ s) (d ∷ t) = c == d && codes_eq s t

abbrev pub text_lower_eq : (text word : String) → Bool
text_lower_eq text word = codes_eq (to_lower (codes text)) (codes word)

-- The last part of `strconv.ParseInt`: an int64 of the number without its sign.
abbrev with_sign : (negative : Bool) → ℕ × Option NumError → ℕ × Option NumError
with_sign negative (n, some syntax) = (0, some syntax)
with_sign true (n, e) = if ltb int_sign n then (int_sign, some range) else (sub64 0 n, e)
with_sign false (n, e) = if leb int_sign n then (int_sign - 1, some range) else (n, e)

-- `strconv.Atoi`: the bit pattern of an int, and the error.
unfoldable pub atoi : List ℕ → ℕ × Option NumError
atoi [] = (0, some syntax)
atoi (c ∷ s) =
    if c == b'-'
    then with_sign true (parse_slot s)
    else if c == b'+'
    then with_sign false (parse_slot s)
    else with_sign false (parse_slot (c ∷ s))
