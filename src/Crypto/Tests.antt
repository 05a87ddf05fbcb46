-- ===== src/Crypto/Tests.antt =====
-- internal/crypto, at concrete inputs: the cipher that changes nothing in place of AES.
use rescale_interlink.Common.{ℕ, ◌<◌, ◌≤◌, ◌≡◌, refl, [], ◌∷◌, ◌++◌, replicate, arith}
use rescale_interlink.Common.Bytes.{Bytes, IsBytes}
use rescale_interlink.Crypto.Padding.{ok, block_size, pkcs7_pad, pkcs7_unpad}
use rescale_interlink.Crypto.Padding.RoundTrip.{unpad-pad, unpad_sound}
use rescale_interlink.Crypto.Cbc.{BlockCipher}
use rescale_interlink.Crypto.Cbc.Chain.{IsBlock}
use rescale_interlink.Crypto.Streaming.{Encryptor, new_encryptor_with_key}
use rescale_interlink.Crypto.Streaming.RoundTrip.{IsPart, Streams, streaming}
use rescale_interlink.Crypto.Streaming.Resume.{encrypt_parts, resume-encrypt_parts, IsValid}

abbrev open_cipher : BlockCipher
open_cipher = record {
  encrypt = λ key b. b;
  decrypt = λ key b. b;
  length-encrypt = λ key b h. h;
  encrypt-IsBytes = λ key b h. h;
  decrypt-encrypt = λ key b h v. refl;
}

abbrev some_block : Bytes
some_block = 1 ∷ 2 ∷ 3 ∷ 4 ∷ 5 ∷ 6 ∷ 7 ∷ 8 ∷ 9 ∷ 10 ∷ 11 ∷ 12 ∷ 13 ∷ 14 ∷ 15 ∷ 255 ∷ []

abbrev some_encryptor : Encryptor
some_encryptor = record {
  key = some_block ++ some_block;
  initial_iv = some_block;
  current_iv = some_block;
}

some_block-IsBytes : IsBytes some_block
some_block-IsBytes = ground arith

some_block-IsBlock : IsBlock some_block
some_block-IsBlock = record { full = refl; of_bytes = some_block-IsBytes }

some_encryptor-IsValid : IsValid some_encryptor
some_encryptor-IsValid = record {
  key_full = refl;
  initial = some_block-IsBlock;
  current = some_block-IsBlock;
}

some_block-IsPart : IsPart some_block
some_block-IsPart = record { aligned = refl; nonempty = omega arith; of_bytes = some_block-IsBytes }

final-IsBytes : IsBytes (104 ∷ 105 ∷ [])
final-IsBytes = ground arith

streaming_example :
    Streams open_cipher some_encryptor (some_block ∷ some_block ∷ []) (104 ∷ 105 ∷ [])
streaming_example =
    streaming open_cipher some_encryptor (some_block ∷ some_block ∷ []) (104 ∷ 105 ∷ [])
      some_block-IsBlock (some_block-IsPart, (some_block-IsPart, tt)) final-IsBytes

unpad-pad_example : pkcs7_unpad (pkcs7_pad (104 ∷ 105 ∷ []) block_size) ≡ ok (104 ∷ 105 ∷ [])
unpad-pad_example = unpad-pad (104 ∷ 105 ∷ [])

unpad_sound_example :
    (n : ℕ) × (0 < n)
    × (n ≤ block_size)
    × (pkcs7_pad (104 ∷ 105 ∷ []) block_size ≡ (104 ∷ 105 ∷ []) ++ replicate n n)
unpad_sound_example =
    unpad_sound (pkcs7_pad (104 ∷ 105 ∷ []) block_size) {xs = 104 ∷ 105 ∷ []}
      (unpad-pad (104 ∷ 105 ∷ []))

resume-encrypt_parts_example :
    let stopped = encrypt_parts open_cipher some_encryptor (some_block ∷ some_block ∷ []) in
    new_encryptor_with_key stopped.key stopped.initial_iv stopped.current_iv ≡ ok stopped
resume-encrypt_parts_example =
    resume-encrypt_parts open_cipher some_encryptor (some_block ∷ some_block ∷ [])
      some_encryptor-IsValid (some_block-IsBytes, (some_block-IsBytes, tt))
