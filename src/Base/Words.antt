-- ===== src/Base/Words.antt =====
-- The unsigned integers of Go. A `uint64` or `uint32` is a number below the modulus, and every
-- sum, difference and conversion keeps its wrap-around. Byte slices are lists of numbers.
use Prim.Native.Nat.{ℕ, zero, suc, ◌+◌, ◌-◌, ◌/◌, ◌%◌}
use mathlib.Core.List.{List, [], ◌∷◌, reverse}

abbrev pub word64 : ℕ
word64 = 18446744073709551616

abbrev pub word32 : ℕ
word32 = 4294967296

-- math.MaxUint64
abbrev pub max_uint64 : ℕ
max_uint64 = 18446744073709551615

abbrev pub add64 : ℕ → ℕ → ℕ
add64 a b = (a + b) % word64

abbrev pub sub64 : ℕ → ℕ → ℕ
sub64 a b = (a + word64 - b) % word64

abbrev pub u32 : ℕ → ℕ
u32 a = a % word32

abbrev pub add32 : ℕ → ℕ → ℕ
add32 a b = (a + b) % word32

abbrev pub sub32 : ℕ → ℕ → ℕ
sub32 a b = (a + word32 - b) % word32

-- The `k` low bytes of a number, the lowest first.
unfoldable pub le_bytes : ℕ → ℕ → List ℕ
le_bytes zero n = []
le_bytes (suc k) n = n % 256 ∷ le_bytes k (n / 256)

-- A byte array such as a hash or an address is kept as the number that it spells, highest byte
-- first, so the order of numbers is the order of the arrays.
unfoldable pub be_bytes : ℕ → ℕ → List ℕ
unfolding le_bytes
be_bytes k n = reverse (le_bytes k n)
