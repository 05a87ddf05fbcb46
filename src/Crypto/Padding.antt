-- ===== src/Crypto/Padding.antt =====
-- internal/crypto/encryption.go: PKCS7 padding, and the errors of the package.
pub mod RoundTrip
use Prim.Native.Nat.{min}
use rescale_interlink.Common.{
  ℕ, zero, suc, ◌+◌, ◌-◌, ◌%◌, ◌++◌, Bool, true, false, ◌||◌, List, [], ◌∷◌, Option, none, some,
  ltb, ◌==◌, if◌then◌else◌, length, get_elem?, take, replicate,
}
use rescale_interlink.Common.Bytes.{Bytes, to_byte}

-- aes.BlockSize
abbrev pub block_size : ℕ
block_size = 16

-- The package's errors, one for each kind of message. `panics` is a run-time panic of Go.
pub data Fault : Type 0 where
  invalid_padding bad_key_size bad_iv_size bad_file_id_size bad_part_size : Fault
  bad_part_index empty_ciphertext not_block_multiple panics : Fault

pub data Result {ℓ} (A : Type ℓ) : Type ℓ where
  ok : A → Result A
  err : Fault → Result A

pub pkcs7_pad : Bytes → ℕ → Bytes
pkcs7_pad bytes size =
    let padding = size - length bytes % size in bytes ++ replicate padding (to_byte padding)

-- The element `data[i]`; the callers stay within bounds.
abbrev at : Bytes → ℕ → ℕ
at bytes i = elim (get_elem? bytes i) [ none ↦ 0 | some b ↦ b ]

-- `for i := 0; i < padding; i++`, from round `i` with `left` rounds to go.
padding_matches : Bytes → ℕ → ℕ → ℕ → Bool
padding_matches bytes padding i zero = true
padding_matches bytes padding i (suc left) =
    let rest = padding_matches bytes padding (i + 1) left in
    if at bytes (length bytes - 1 - i) == to_byte padding then rest else false

pub pkcs7_unpad : Bytes → Result Bytes
unfolding padding_matches
pkcs7_unpad bytes =
    let size = length bytes in
    if size == 0
    then err invalid_padding
    else let padding = at bytes (size - 1) in
      if ltb size padding || ltb block_size padding || padding == 0
      then err invalid_padding
      else if padding_matches bytes padding 0 padding
      then ok (take (size - padding) bytes)
      else err invalid_padding
