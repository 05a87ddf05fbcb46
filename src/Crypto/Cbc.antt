-- ===== src/Crypto/Cbc.antt =====
-- The parts of crypto/aes and crypto/cipher that internal/crypto calls: a block cipher, which is a
-- parameter of the model, and the CBC mode over it.
pub mod Chain
use Prim.Native.Nat.{bit_xor}
use rescale_interlink.Common.{
  ℕ, zero, suc, ◌-◌, ◌/◌, ◌<◌, ◌≡◌, ◌++◌, List, [], ◌∷◌, length, take, drop,
}
use rescale_interlink.Common.Bytes.{Bytes, IsBytes}

-- What the code relies on in AES: under each key a block is mapped to a block of bytes, and
-- decrypting undoes encrypting.
pub record BlockCipher : Type 0 where
  pub encrypt : Bytes → Bytes → Bytes
  pub decrypt : Bytes → Bytes → Bytes
  pub length-encrypt : (key b : Bytes) → length b ≡ 16 → length (encrypt key b) ≡ 16
  pub encrypt-IsBytes : (key b : Bytes) → IsBytes b → IsBytes (encrypt key b)
  pub decrypt-encrypt :
      (key b : Bytes) → length b ≡ 16 → IsBytes b → decrypt key (encrypt key b) ≡ b

pub xor_bytes : Bytes → Bytes → Bytes
xor_bytes (a ∷ xs) (b ∷ ys) = bit_xor a b ∷ xor_bytes xs ys
xor_bytes _ _ = []

module _ (c : BlockCipher) (key : Bytes) where
  -- NewCBCEncrypter(block, iv).CryptBlocks on `n` blocks.
  unfoldable pub cbc_encrypt : ℕ → Bytes → Bytes → Bytes
  cbc_encrypt zero iv text = []
  cbc_encrypt (suc n) iv text =
      let block = c.encrypt key (xor_bytes (take 16 text) iv) in
      block ++ cbc_encrypt n block (drop 16 text)

  -- NewCBCDecrypter(block, iv).CryptBlocks on `n` blocks.
  pub cbc_decrypt : ℕ → Bytes → Bytes → Bytes
  cbc_decrypt zero iv text = []
  cbc_decrypt (suc n) iv text =
      let block = take 16 text in
      xor_bytes (c.decrypt key block) iv ++ cbc_decrypt n block (drop 16 text)

unfoldable pub blocks : Bytes → ℕ
blocks text = length text / 16

-- `text[len(text)-aes.BlockSize:]`
pub last_block : Bytes → Bytes
last_block text = drop (length text - 16) text
