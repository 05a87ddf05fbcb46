-- ===== src/Common/Bytes.antt =====
-- Byte strings, and the exclusive or of bytes with its law, checked on all pairs of bytes.
use Prim.Native.Nat.{ℕ, zero, suc, ◌%◌, ◌<◌, bit_xor}
use mathlib.Core.Path.{◌≡◌, refl}
use mathlib.Core.Bool.{Bool, true, false, ◌&&◌}
use mathlib.Core.List.{List}
use native.Mathlib.Omega.{arith}
use rescale_interlink.Common.Tests.{ltb, ◌==◌, if◌then◌else◌}
use rescale_interlink.Common.Lists.{All}

abbrev pub Bytes : Type 0
Bytes = List ℕ

abbrev pub IsByte : ℕ → Type 0
IsByte b = b < 256

abbrev pub IsBytes : Bytes → Type 0
IsBytes = All IsByte

-- `byte(n)`
abbrev pub to_byte : ℕ → ℕ
to_byte n = n % 256

-- Whether a test on a byte passes for all numbers from 0 to the one before a bound.
passes_to : (ℕ → Bool) → ℕ → Bool
passes_to test zero = true
passes_to test (suc k) = let lower = passes_to test k in if test k then lower else false

passes_at :
    (test : ℕ → Bool) (bound b : ℕ) → b < bound → passes_to test bound ≡ true → test b ≡ true
unfolding passes_to
passes_at test zero b h every = absurd (omega arith)
passes_at test (suc k) b h every = ground (arith, passes_at test k b)

-- A byte comes back when another one is mixed in twice, and the mixture is a byte.
mixes : ℕ → ℕ → Bool
mixes a b = bit_xor (bit_xor a b) b == a && ltb (bit_xor a b) 256

mixes_with_all : ℕ → Bool
unfolding mixes passes_to
mixes_with_all a = passes_to (mixes a) 256

table : passes_to mixes_with_all 256 ≡ true
unfolding passes_to mixes_with_all
table = refl

bytes_mix : (a b : ℕ) → IsByte a → IsByte b → mixes a b ≡ true
unfolding mixes_with_all
bytes_mix a b ha hb = passes_at (mixes a) 256 b hb (passes_at mixes_with_all 256 a ha table)

pub xor_cancel : (a b : ℕ) → IsByte a → IsByte b → bit_xor (bit_xor a b) b ≡ a
unfolding mixes
xor_cancel a b ha hb = ground (arith, bytes_mix a b ha hb)

pub xor-IsByte : (a b : ℕ) → IsByte a → IsByte b → IsByte (bit_xor a b)
unfolding mixes
xor-IsByte a b ha hb = ground (arith, bytes_mix a b ha hb)
