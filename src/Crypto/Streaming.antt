-- ===== src/Crypto/Streaming.antt =====
-- internal/crypto/streaming.go: the encryptor and the decryptor of the chained format.
pub mod RoundTrip
pub mod Resume
use rescale_interlink.Common.{
  ℕ, ◌-◌, ◌%◌, Bool, true, false, not, ◌||◌, ltb, ◌==◌, if◌then◌else◌, length, ◌+◌,
}
use rescale_interlink.Common.Bytes.{Bytes}
use rescale_interlink.Crypto.Padding.{
  block_size, Fault, Result, ok, err, bad_key_size, bad_iv_size, empty_ciphertext,
  not_block_multiple, panics, pkcs7_pad, pkcs7_unpad,
}
use rescale_interlink.Crypto.Cbc.{BlockCipher, cbc_encrypt, cbc_decrypt, blocks, last_block}

-- KeySize
abbrev pub key_size : ℕ
key_size = 32

-- IVSize
abbrev pub iv_size : ℕ
iv_size = 16

-- CBCStreamingEncryptor; its `block` is the cipher under `key`.
pub record Encryptor : Type 0 where
  pub key : Bytes
  pub initial_iv : Bytes
  pub current_iv : Bytes

-- CBCStreamingDecryptor
pub record Decryptor : Type 0 where
  pub key : Bytes
  pub current_iv : Bytes

infixl 5 ◌>>=◌
abbrev pub ◌>>=◌ {ℓ κ} : {A : Type ℓ} {B : Type κ} → Result A → (A → Result B) → Result B
ok a >>= f = f a
err e >>= f = err e

-- aes.NewCipher takes a key of 16, 24 or 32 bytes.
abbrev pub cipher_takes : Bytes → Bool
cipher_takes key = length key == 16 || length key == 24 || length key == 32

-- NewCBCStreamingEncryptor, on what GenerateKey and GenerateIV return.
pub new_encryptor : Result Bytes → Result Bytes → Result Encryptor
new_encryptor random_key random_iv = do
  key ← random_key
  iv ← random_iv
  if cipher_takes key
      then ok (record { key = key; initial_iv = iv; current_iv = iv })
      else err bad_key_size

-- NewCBCStreamingEncryptorWithKey
pub new_encryptor_with_key : Bytes → Bytes → Bytes → Result Encryptor
new_encryptor_with_key key initial_iv current_iv =
    if not (length key == key_size)
    then err bad_key_size
    else if not (length initial_iv == iv_size)
    then err bad_iv_size
    else if not (length current_iv == iv_size)
    then err bad_iv_size
    else if cipher_takes key
    then ok (record { key = key; initial_iv = initial_iv; current_iv = current_iv })
    else err bad_key_size

-- NewCBCStreamingDecryptor
pub new_decryptor : Bytes → Bytes → Result Decryptor
new_decryptor key iv =
    if not (length key == key_size)
    then err bad_key_size
    else if not (length iv == iv_size)
    then err bad_iv_size
    else if cipher_takes key
    then ok (record { key = key; current_iv = iv })
    else err bad_key_size

module _ (c : BlockCipher) where
  -- The end of EncryptPart: the cipher, and the slice of its last block, which panics on a
  -- ciphertext that has none.
  pub encrypt_blocks : Encryptor → Bytes → Encryptor × Result Bytes
  encrypt_blocks e text =
      let ciphertext = cbc_encrypt c e.key (blocks text) e.current_iv text in
      if ltb (length ciphertext) block_size
      then (e, err panics)
      else (record e { current_iv = last_block ciphertext }, ok ciphertext)

  -- CBCStreamingEncryptor.EncryptPart
  pub encrypt_part : Encryptor → Bytes → Bool → Encryptor × Result Bytes
  unfolding encrypt_blocks
  encrypt_part e plaintext is_final =
      if is_final
      then encrypt_blocks e (pkcs7_pad plaintext block_size)
      else if not (length plaintext % block_size == 0)
      then (e, err not_block_multiple)
      else encrypt_blocks e plaintext

  -- CBCStreamingDecryptor.DecryptPart
  pub decrypt_part : Decryptor → Bytes → Bool → Decryptor × Result Bytes
  decrypt_part d ciphertext is_final =
      if length ciphertext == 0
      then (d, err empty_ciphertext)
      else if not (length ciphertext % block_size == 0)
      then (d, err not_block_multiple)
      else let plaintext = cbc_decrypt c d.key (blocks ciphertext) d.current_iv ciphertext in
        let d' : Decryptor = record d { current_iv = last_block ciphertext } in
        (d', if is_final then pkcs7_unpad plaintext else ok plaintext)

-- CalculateEncryptedPartSize
pub calculate_encrypted_part_size : ℕ → ℕ
calculate_encrypted_part_size plaintext_size =
    let padding = block_size - plaintext_size % block_size in plaintext_size + padding
