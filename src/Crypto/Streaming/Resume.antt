-- ===== src/Crypto/Streaming/Resume.antt =====
-- internal/crypto/streaming.go: the encryptor's invariant, what each call does on every branch, and
-- resuming from the saved key and IVs.
use rescale_interlink.Common.{
  [], ◌∷◌, List, All, suc, ◌%◌, ◌≡◌, ◌≢◌, Bool, true, false, length, arith, ◌/◌, ◌∙◌, sym,
}
use native.Mathlib.Decide.{ℕ_discrete}
use rescale_interlink.Common.Bytes.{Bytes, IsBytes}
use rescale_interlink.Crypto.Padding.{ok, err, not_block_multiple, panics, pkcs7_pad, block_size}
use rescale_interlink.Crypto.Padding.RoundTrip.{length-pad}
use rescale_interlink.Crypto.Cbc.{BlockCipher, cbc_encrypt, blocks, last_block}
use rescale_interlink.Crypto.Cbc.Chain.{IsBlock, length-cbc_encrypt}
use rescale_interlink.Crypto.Streaming.{
  Encryptor, new_encryptor_with_key, encrypt_part, encrypt_blocks, calculate_encrypted_part_size,
}
use rescale_interlink.Crypto.Streaming.RoundTrip.{
  IsPart, encrypt_part-false, encrypt_part-true, encrypt_blocks_lem, next_IsBlock, pad-IsPart,
  count_blocks,
}

pub record IsValid (e : Encryptor) : Type 0 where
  pub key_full : length e.key ≡ 32
  pub initial : IsBlock e.initial_iv
  pub current : IsBlock e.current_iv

Made : Bytes → Bytes → Bytes → Encryptor → Type 0
Made key initial_iv current_iv e =
    (length key ≡ 32)
    × (length initial_iv ≡ 16)
    × (length current_iv ≡ 16)
    × (e ≡ record { key = key; initial_iv = initial_iv; current_iv = current_iv })

made :
    (key initial_iv current_iv : Bytes) {e : Encryptor}
    → new_encryptor_with_key key initial_iv current_iv ≡ ok e
    → Made key initial_iv current_iv e
unfolding new_encryptor_with_key Made
made key initial_iv current_iv h = ground arith

pub new_encryptor_with_key-IsValid :
    (key initial_iv current_iv : Bytes) {e : Encryptor}
    → IsBytes initial_iv
    → IsBytes current_iv
    → new_encryptor_with_key key initial_iv current_iv ≡ ok e
    → IsValid e
unfolding Made
new_encryptor_with_key-IsValid key initial_iv current_iv hi hc h =
    let (k, i, j, same) = made key initial_iv current_iv h in
    rw same (record {
      key_full = k;
      initial = record { full = i; of_bytes = hi };
      current = record { full = j; of_bytes = hc };
    })

-- An encryptor made from the key and the IVs of a valid one is that one.
pub resume :
    (e : Encryptor) → IsValid e → new_encryptor_with_key e.key e.initial_iv e.current_iv ≡ ok e
unfolding new_encryptor_with_key
resume e v = ground (arith, v.key_full, v.initial.full, v.current.full)

module _ (c : BlockCipher) where
  -- A part that is not the last: three outcomes by its length.
  pub encrypt_part_misaligned :
      (e : Encryptor) (text : Bytes)
      → length text % 16 ≢ 0
      → encrypt_part c e text false ≡ (e, err not_block_multiple)
  unfolding encrypt_part
  encrypt_part_misaligned e text h = ground arith

  pub encrypt_part_empty :
      (e : Encryptor) (text : Bytes)
      → length text ≡ 0
      → encrypt_part c e text false ≡ (e, err panics)
  unfolding encrypt_part encrypt_blocks cbc_encrypt blocks
  encrypt_part_empty e text h =
      let none_left : length text / 16 ≡ 0 = omega arith in rw none_left (ground arith)

  -- Whole blocks are encrypted, and the chaining value becomes the last block of the result.
  pub encrypt_part_ok :
      (e : Encryptor) (text : Bytes)
      → IsValid e
      → IsPart text
      → (encrypt_part c e text false ≡ (
        record e { current_iv = last_block (cbc_encrypt c e.key (blocks text) e.current_iv text) },
        ok (cbc_encrypt c e.key (blocks text) e.current_iv text),
      ))
        × (length (cbc_encrypt c e.key (blocks text) e.current_iv text) ≡ length text)
  encrypt_part_ok e text v p =
      let (m, count, size) = count_blocks text p in
      (
        encrypt_part-false c e text p ∙ encrypt_blocks_lem c e text v.current p,
        rw count (
            length-cbc_encrypt c e.key (suc m) e.current_iv text v.current p.of_bytes size
            ∙ sym size),
      )

  -- From a valid encryptor the last part of bytes is always encrypted, to a ciphertext of just the size
  -- that CalculateEncryptedPartSize tells.
  pub encrypt_part_final :
      (e : Encryptor) (text : Bytes)
      → IsValid e
      → IsBytes text
      → (ciphertext : Bytes) × ((encrypt_part c e text true).1 ≡ ok ciphertext)
        × (length ciphertext ≡ calculate_encrypted_part_size (length text))
  unfolding calculate_encrypted_part_size
  encrypt_part_final e text v t =
      let p = pad-IsPart c text t in
      let padded = pkcs7_pad text block_size in
      let (m, count, size) = count_blocks padded p in
      (
        cbc_encrypt c e.key (blocks padded) e.current_iv padded,
        rw (encrypt_part-true c e text, encrypt_blocks_lem c e _ v.current p),
        rw count (
            length-cbc_encrypt c e.key (suc m) e.current_iv _ v.current p.of_bytes size
            ∙ omega (arith, size, length-pad text)),
      )

  -- EncryptPart keeps the encryptor valid for any text of bytes, whether it is the last part or not and
  -- whether the call succeeds or not: a key of 32 bytes and two IVs that are blocks of bytes.
  pub encrypt_part-IsValid :
      (e : Encryptor) (text : Bytes) (is_final : Bool)
      → IsValid e
      → IsBytes text
      → IsValid (encrypt_part c e text is_final).0
  encrypt_part-IsValid e text true v t =
      let p = pad-IsPart c text t in
      rw (encrypt_part-true c e text, encrypt_blocks_lem c e _ v.current p)
        (record {
          key_full = v.key_full;
          initial = v.initial;
          current = next_IsBlock c e.key e.current_iv _ v.current p;
        })
  encrypt_part-IsValid e text false v t = elim (ℕ_discrete (length text % 16) 0) [
    | no ne ↦ rw (encrypt_part_misaligned e text ne) v
    | yes aligned ↦ elim (ℕ_discrete (length text) 0) [
      | yes none_left ↦ rw (encrypt_part_empty e text none_left) v
      | no some_left ↦
          let p : IsPart text = record {
            aligned = aligned;
            nonempty = omega arith;
            of_bytes = t;
          } in
          rw (encrypt_part-false c e text p, encrypt_blocks_lem c e text v.current p)
            (record {
              key_full = v.key_full;
              initial = v.initial;
              current = next_IsBlock c e.key e.current_iv text v.current p;
            })
    ]
  ]

  -- The encryptor after some parts that are not the last.
  pub encrypt_parts : Encryptor → List Bytes → Encryptor
  encrypt_parts e [] = e
  encrypt_parts e (part ∷ parts) = encrypt_parts (encrypt_part c e part false).0 parts

  encrypt_parts-IsValid :
      (e : Encryptor) (parts : List Bytes)
      → IsValid e
      → All IsBytes parts
      → IsValid (encrypt_parts e parts)
  unfolding encrypt_parts
  encrypt_parts-IsValid e [] v t = v
  encrypt_parts-IsValid e (part ∷ parts) v (b, bs) =
      encrypt_parts-IsValid (encrypt_part c e part false).0 parts
        (encrypt_part-IsValid e part false v b) bs

  -- An upload that stops after any parts of bytes, from a valid encryptor, and saves the key and the
  -- two IVs: NewCBCStreamingEncryptorWithKey makes of them the very encryptor that stopped, so that
  -- the parts that follow are encrypted as if the upload had gone on.
  pub resume-encrypt_parts :
      (e : Encryptor) (parts : List Bytes)
      → IsValid e
      → All IsBytes parts
      → let stopped = encrypt_parts e parts in
        new_encryptor_with_key stopped.key stopped.initial_iv stopped.current_iv ≡ ok stopped
  resume-encrypt_parts e parts v t =
      resume (encrypt_parts e parts) (encrypt_parts-IsValid e parts v t)
