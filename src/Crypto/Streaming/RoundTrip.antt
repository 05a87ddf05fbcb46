-- ===== src/Crypto/Streaming/RoundTrip.antt =====
-- internal/crypto/streaming.go: parts encrypted in order are CBC over the whole padded file, and
-- decrypting them in order gives the parts back.
use mathlib.Core.List.{flatten, append-nil, append_assoc}
use rescale_interlink.Common.{
  Bool, if◌then◌else◌, ℕ, suc, ◌+◌, ◌-◌, ◌*◌, ◌/◌, ◌%◌, ◌<◌, ◌≡◌, refl, sym, ◌++◌, true, false,
  List, [], ◌∷◌, arith, length, length-append, All,
}
use rescale_interlink.Common.Bytes.{Bytes, IsBytes}
use rescale_interlink.Crypto.Padding.{Result, ok, pkcs7_pad, pkcs7_unpad, block_size}
use rescale_interlink.Crypto.Padding.RoundTrip.{unpad-pad, length-pad, pad-IsBytes, pad-append}
use rescale_interlink.Crypto.Cbc.{BlockCipher, cbc_encrypt, blocks, last_block}
use rescale_interlink.Crypto.Cbc.Chain.{
  IsBlock, cbc_decrypt-cbc_encrypt, cbc_encrypt-append, length-cbc_encrypt, last_block-IsBlock,
}
use rescale_interlink.Crypto.Streaming.{
  Encryptor, Decryptor, ◌>>=◌, encrypt_blocks, encrypt_part, decrypt_part,
}

-- A part that is not the last: whole blocks, and at least one.
pub record IsPart (part : Bytes) : Type 0 where
  pub aligned : length part % 16 ≡ 0
  pub nonempty : 0 < length part
  pub of_bytes : IsBytes part

pub count_blocks :
    (part : Bytes) → IsPart part → (m : ℕ) × (blocks part ≡ suc m) × (length part ≡ suc m * 16)
unfolding blocks
count_blocks part p = (length part / 16 - 1, omega arith, omega arith)

module _ (c : BlockCipher) where
  -- Each part of an upload, and its last part.
  pub encrypt_all : Encryptor → List Bytes → Bytes → Result (List Bytes)
  encrypt_all e [] final = do last ← (encrypt_part c e final true).1; ok (last ∷ [])
  encrypt_all e (part ∷ parts) final = do
    first ← (encrypt_part c e part false).1
    rest ← encrypt_all (encrypt_part c e part false).0 parts final
    ok (first ∷ rest)

  -- Each part of a download; the last one is unpadded.
  pub decrypt_all : Decryptor → List Bytes → Result (List Bytes)
  decrypt_all d [] = ok []
  decrypt_all d (part ∷ []) = do last ← (decrypt_part c d part true).1; ok (last ∷ [])
  decrypt_all d (part ∷ next ∷ parts) = do
    first ← (decrypt_part c d part false).1
    rest ← decrypt_all (decrypt_part c d part false).0 (next ∷ parts)
    ok (first ∷ rest)

  -- What one call does to whole blocks.
  pub encrypt_blocks_lem :
      (e : Encryptor) (text : Bytes)
      → IsBlock e.current_iv
      → IsPart text
      → encrypt_blocks c e text ≡ (
        record e { current_iv = last_block (cbc_encrypt c e.key (blocks text) e.current_iv text) },
        ok (cbc_encrypt c e.key (blocks text) e.current_iv text),
      )
  unfolding encrypt_blocks
  encrypt_blocks_lem e text v p =
      let (m, count, size) = count_blocks text p in
      let long = length-cbc_encrypt c e.key (suc m) e.current_iv text v p.of_bytes size in
      rw count (ground (arith, long))

  pub encrypt_part-false :
      (e : Encryptor) (text : Bytes)
      → IsPart text
      → encrypt_part c e text false ≡ encrypt_blocks c e text
  unfolding encrypt_part
  encrypt_part-false e text p = ground (arith, p.aligned)

  pub encrypt_part-true :
      (e : Encryptor) (text : Bytes)
      → encrypt_part c e text true ≡ encrypt_blocks c e (pkcs7_pad text block_size)
  unfolding encrypt_part
  encrypt_part-true e text = refl

  -- Decrypting what was encrypted under the same chaining value.
  decrypt_part_lem :
      (e : Encryptor) (text : Bytes) (is_final : Bool)
      → IsBlock e.current_iv
      → IsPart text
      → let ciphertext = cbc_encrypt c e.key (blocks text) e.current_iv text in
        decrypt_part c (record { key = e.key; current_iv = e.current_iv }) ciphertext is_final ≡ (
          record { key = e.key; current_iv = last_block ciphertext },
          if is_final then pkcs7_unpad text else ok text,
        )
  unfolding decrypt_part
  decrypt_part_lem e text is_final v p =
      let (m, count, size) = count_blocks text p in
      let long = length-cbc_encrypt c e.key (suc m) e.current_iv text v p.of_bytes size in
      let again : blocks (cbc_encrypt c e.key (suc m) e.current_iv text) ≡ suc m =
        unfold blocks in omega (arith, long) in
      let back = cbc_decrypt-cbc_encrypt c e.key (suc m) e.current_iv text v p.of_bytes size in
      rw count (ground (arith, long, again, back))

  pub pad-IsPart : (text : Bytes) → IsBytes text → IsPart (pkcs7_pad text block_size)
  pad-IsPart text t = record {
    aligned = (length-pad text).0;
    nonempty = omega (arith, length-pad text);
    of_bytes = pad-IsBytes text t;
  }

  pub next_IsBlock :
      (key iv part : Bytes)
      → IsBlock iv
      → IsPart part
      → IsBlock (last_block (cbc_encrypt c key (blocks part) iv part))
  next_IsBlock key iv part v p =
      let (m, count, size) = count_blocks part p in
      rw count (last_block-IsBlock c key m iv part v p.of_bytes size)

  whole_step :
      (key iv part text : Bytes)
      → IsBlock iv
      → IsPart part
      → cbc_encrypt c key (blocks (part ++ text)) iv (part ++ text)
        ≡ cbc_encrypt c key (blocks part) iv part
          ++ cbc_encrypt c key
              (blocks text)
              (last_block (cbc_encrypt c key (blocks part) iv part))
              text
  whole_step key iv part text v p =
      let (m, count, size) = count_blocks part p in
      let more : blocks (part ++ text) ≡ suc m + blocks text =
        unfold blocks in omega (arith, length-append part text) in
      rw (more, count) (cbc_encrypt-append c key m (blocks text) iv part text v p.of_bytes size)

  -- What an upload of parts and a last part comes to: some ciphertexts, which are those of the whole
  -- padded file, and which the decryptor turns into the parts.
  pub record Streams (e : Encryptor) (parts : List Bytes) (final : Bytes) : Type 0 where
    pub head : Bytes
    pub tail : List Bytes
    pub encrypts : encrypt_all e parts final ≡ ok (head ∷ tail)
    pub decrypts :
        decrypt_all (record { key = e.key; current_iv = e.current_iv }) (head ∷ tail)
        ≡ ok (parts ++ final ∷ [])
    pub whole :
        flatten (head ∷ tail)
        ≡ cbc_encrypt c e.key
            (blocks (pkcs7_pad (flatten parts ++ final) block_size))
            e.current_iv
            (pkcs7_pad (flatten parts ++ final) block_size)

  -- For a chaining value that is a block of bytes, parts of whole blocks of bytes and a last part of
  -- bytes: EncryptPart succeeds on each; DecryptPart, from the same key and chaining value, returns the
  -- parts from the ciphertexts; and the ciphertexts together are the CBC encryption of the whole file,
  -- padded once.
  pub streaming :
      (e : Encryptor) (parts : List Bytes) (final : Bytes)
      → IsBlock e.current_iv
      → All IsPart parts
      → IsBytes final
      → Streams e parts final
  unfolding encrypt_all decrypt_all flatten
  streaming e [] final v ps t =
      let p = pad-IsPart final t in
      record {
        head =
            cbc_encrypt c e.key (blocks (pkcs7_pad final block_size)) e.current_iv
              (pkcs7_pad final block_size);
        tail = [];
        encrypts = rw (encrypt_part-true e final, encrypt_blocks_lem e _ v p);
        decrypts = rw (decrypt_part_lem e _ true v p, unpad-pad final);
        whole = append-nil _;
      }
  streaming e (part ∷ parts) final v (p, ps) t =
      let ciphertext = cbc_encrypt c e.key (blocks part) e.current_iv part in
      let e' : Encryptor = record e { current_iv = last_block ciphertext } in
      let rest = streaming e' parts final (next_IsBlock e.key e.current_iv part v p) ps t in
      record {
        head = ciphertext;
        tail = rest.head ∷ rest.tail;
        encrypts = rw (encrypt_part-false e part p, encrypt_blocks_lem e part v p, rest.encrypts);
        decrypts = rw (decrypt_part_lem e part false v p, rest.decrypts);
        whole =
            rw
              (
                rest.whole,
                append_assoc part (flatten parts) final,
                pad-append part (flatten parts ++ final) p.aligned,
              )
              (sym (whole_step e.key e.current_iv part _ v p));
      }
