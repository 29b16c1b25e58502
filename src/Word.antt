-- ===== src/Word.antt =====
-- Go's uint64 and int on a 64-bit platform, as used by the slot numbers of
-- pkg/beaconclient. A value is a ℕ below 2^64; an int is its two's complement bit pattern.
use ipld_eth_beacon_indexer.Base.{ℕ, ◌+◌, ◌-◌, ◌*◌, ◌%◌, ltb, if◌then◌else◌}

abbrev pub u64_mod : ℕ
u64_mod = 18446744073709551616

abbrev pub max_u64 : ℕ
max_u64 = 18446744073709551615

-- The patterns from here on are the negative ints.
abbrev pub int_sign : ℕ
int_sign = 9223372036854775808

abbrev pub add64 : ℕ → ℕ → ℕ
add64 a b = (a + b) % u64_mod

abbrev pub sub64 : ℕ → ℕ → ℕ
sub64 a b = (a + u64_mod - b) % u64_mod

abbrev pub mul64 : ℕ → ℕ → ℕ
mul64 a b = (a * b) % u64_mod

-- The rounds of `for i := 0; i < n; i++` over ints: none for a negative bound.
unfoldable pub rounds : ℕ → ℕ
rounds n = if ltb n int_sign then n else 0
