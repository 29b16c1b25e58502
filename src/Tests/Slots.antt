-- ===== src/Tests/Slots.antt =====
-- Slot numbers: consensus.go.
use ipld_eth_beacon_indexer.Base.{◌≡◌, refl, none, some, arith}
use ipld_eth_beacon_indexer.Slot.{parse_slot, format, codes, syntax, range}
use ipld_eth_beacon_indexer.Slot.RoundTrip.{parse_slot-format}

format-slot : format 3797056 ≡ codes "3797056"
unfolding format
format-slot = refl

parse_slot-range : parse_slot (codes "18446744073709551616") ≡ (18446744073709551615, some range)
unfolding parse_slot
parse_slot-range = refl

parse_slot-syntax : parse_slot (codes "12x") ≡ (0, some syntax)
unfolding parse_slot
parse_slot-syntax = refl

parse_slot-format_example : parse_slot (format 3797056) ≡ (3797056, none)
parse_slot-format_example = parse_slot-format 3797056 (omega arith)
