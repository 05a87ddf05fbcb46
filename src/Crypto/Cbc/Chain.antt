-- ===== src/Crypto/Cbc/Chain.antt =====
-- CBC over a text is CBC over its parts, each chained to the last block before it, and decryption
-- undoes encryption.
use rescale_interlink.Common.{
  ℕ, zero, suc, ◌+◌, ◌-◌, ◌*◌, ◌≤◌, ◌≡◌, refl, sym, ap, ◌∙◌, ◌++◌, [], ◌∷◌, arith, length, take,
  drop, length-append, take-append-drop, length-drop, take-append, drop-append,
}
use rescale_interlink.Common.Bytes.{Bytes, IsBytes, xor_cancel, xor-IsByte}
use rescale_interlink.Crypto.Cbc.{BlockCipher, xor_bytes, cbc_encrypt, cbc_decrypt, last_block}
use mathlib.Core.Path.{ap₂, subst}
use native.Mathlib.Nat.{zero-add}
use mathlib.Core.List.{append_assoc, append-nil}

pub length-xor_bytes :
    (xs ys : Bytes) → length xs ≡ length ys → length (xor_bytes xs ys) ≡ length xs
unfolding xor_bytes
length-xor_bytes [] ys e = refl
length-xor_bytes (a ∷ xs) [] e = absurd (omega arith)
length-xor_bytes (a ∷ xs) (b ∷ ys) e = omega (arith, length-xor_bytes xs ys)

pub xor_bytes-IsBytes : (xs ys : Bytes) → IsBytes xs → IsBytes ys → IsBytes (xor_bytes xs ys)
unfolding xor_bytes
xor_bytes-IsBytes [] ys ha hb = tt
xor_bytes-IsBytes (a ∷ xs) [] ha hb = tt
xor_bytes-IsBytes (a ∷ xs) (b ∷ ys) ha hb =
    (xor-IsByte a b ha.0 hb.0, xor_bytes-IsBytes xs ys ha.1 hb.1)

pub xor_bytes_cancel :
    (xs ys : Bytes)
    → length xs ≡ length ys
    → IsBytes xs
    → IsBytes ys
    → xor_bytes (xor_bytes xs ys) ys ≡ xs
unfolding xor_bytes
xor_bytes_cancel [] ys e ha hb = refl
xor_bytes_cancel (a ∷ xs) [] e ha hb = absurd (omega arith)
xor_bytes_cancel (a ∷ xs) (b ∷ ys) e ha hb =
    ap₂ ◌∷◌ (xor_cancel a b ha.0 hb.0) (xor_bytes_cancel xs ys (omega arith) ha.1 hb.1)

take-IsBytes : (n : ℕ) (xs : Bytes) → IsBytes xs → IsBytes (take n xs)
take-IsBytes zero xs h = tt
take-IsBytes (suc n) [] h = tt
take-IsBytes (suc n) (x ∷ xs) h = (h.0, take-IsBytes n xs h.1)

drop-IsBytes : (n : ℕ) (xs : Bytes) → IsBytes xs → IsBytes (drop n xs)
drop-IsBytes zero xs h = h
drop-IsBytes (suc n) [] h = tt
drop-IsBytes (suc n) (x ∷ xs) h = drop-IsBytes n xs h.1

take-append_le : (n : ℕ) (xs ys : Bytes) → n ≤ length xs → take n (xs ++ ys) ≡ take n xs
take-append_le zero xs ys h = refl
take-append_le (suc n) [] ys h = elim h [ ]
take-append_le (suc n) (x ∷ xs) ys h = ap (◌∷◌ x) (take-append_le n xs ys (omega arith))

drop-append_le : (n : ℕ) (xs ys : Bytes) → n ≤ length xs → drop n (xs ++ ys) ≡ drop n xs ++ ys
drop-append_le zero xs ys h = refl
drop-append_le (suc n) [] ys h = elim h [ ]
drop-append_le (suc n) (x ∷ xs) ys h = drop-append_le n xs ys (omega arith)

length-take_le : (n : ℕ) (xs : Bytes) → n ≤ length xs → length (take n xs) ≡ n
length-take_le zero xs h = refl
length-take_le (suc n) [] h = elim h [ ]
length-take_le (suc n) (x ∷ xs) h = ap suc (length-take_le n xs (omega arith))

length_zero : (xs : Bytes) → length xs ≡ 0 → xs ≡ []
length_zero [] h = refl
length_zero (x ∷ xs) h = absurd (omega arith)

cbc_suc : (m n : ℕ) → suc m + n ≡ suc (m + n)
cbc_suc m n = omega arith

-- A block of text and the value that it is combined with.
pub record IsBlock (b : Bytes) : Type 0 where
  pub full : length b ≡ 16
  pub of_bytes : IsBytes b

take_block : (b text : Bytes) → length b ≡ 16 → take 16 (b ++ text) ≡ b
take_block b text h = subst (λ n. take n (b ++ text) ≡ b) h (take-append b text)

drop_block : (b text : Bytes) → length b ≡ 16 → drop 16 (b ++ text) ≡ text
drop_block b text h = subst (λ n. drop n (b ++ text) ≡ text) h (drop-append b text)

drop_past : (n : ℕ) (b text : Bytes) → length b ≤ n → drop n (b ++ text) ≡ drop (n - length b) text
drop_past n [] text h = ap (λ k. drop k text) (omega arith)
drop_past zero (x ∷ b) text h = elim h [ ]
drop_past (suc n) (x ∷ b) text h =
    drop_past n b text (omega arith) ∙ ap (λ k. drop k text) (omega arith)

pub last_block-append_block :
    (b text : Bytes) → 16 ≤ length text → last_block (b ++ text) ≡ last_block text
unfolding last_block
last_block-append_block b text h =
    drop_past _ b text (omega (arith, length-append b text))
    ∙ ap (λ k. drop k text) (omega (arith, length-append b text))

pub last_block_one : (b : Bytes) → length b ≡ 16 → last_block (b ++ []) ≡ b
unfolding last_block
last_block_one b h = rw (append-nil b) (subst (λ k. drop (k - 16) b ≡ b) (sym h) refl)

module _ (c : BlockCipher) (key : Bytes) where
  abbrev first : Bytes → Bytes → Bytes
  first iv text = c.encrypt key (xor_bytes (take 16 text) iv)

  mixed-IsBlock :
      (n : ℕ) (iv text : Bytes)
      → IsBlock iv
      → IsBytes text
      → length text ≡ suc n * 16
      → IsBlock (xor_bytes (take 16 text) iv)
  mixed-IsBlock n iv text v t e = record {
    full =
        length-xor_bytes (take 16 text) iv (length-take_le 16 text (omega arith) ∙ sym v.full)
        ∙ length-take_le 16 text (omega arith);
    of_bytes = xor_bytes-IsBytes (take 16 text) iv (take-IsBytes 16 text t) v.of_bytes;
  }

  encrypted-IsBlock : (b : Bytes) → IsBlock b → IsBlock (c.encrypt key b)
  encrypted-IsBlock b h = record {
    full = c.length-encrypt key b h.full;
    of_bytes = c.encrypt-IsBytes key b h.of_bytes;
  }

  pub length-cbc_encrypt :
      (n : ℕ) (iv text : Bytes)
      → IsBlock iv
      → IsBytes text
      → length text ≡ n * 16
      → length (cbc_encrypt c key n iv text) ≡ n * 16
  unfolding cbc_encrypt
  length-cbc_encrypt zero iv text v t e = refl
  length-cbc_encrypt (suc n) iv text v t e =
      let b = encrypted-IsBlock _ (mixed-IsBlock n iv text v t e) in
      omega (
        arith,
        length-append (c.encrypt key (xor_bytes (take 16 text) iv)) (cbc_encrypt c key n _ _),
        b.full,
        length-cbc_encrypt n _ (drop 16 text) b (drop-IsBytes 16 text t)
            (omega (arith, length-drop 16 text)),
      )

  -- Decryption undoes encryption.
  pub cbc_decrypt-cbc_encrypt :
      (n : ℕ) (iv text : Bytes)
      → IsBlock iv
      → IsBytes text
      → length text ≡ n * 16
      → cbc_decrypt c key n iv (cbc_encrypt c key n iv text) ≡ text
  unfolding cbc_encrypt cbc_decrypt
  cbc_decrypt-cbc_encrypt zero iv [] v t e = refl
  cbc_decrypt-cbc_encrypt zero iv (x ∷ text) v t e = absurd (omega arith)
  cbc_decrypt-cbc_encrypt (suc n) iv text v t e =
      let mixed = mixed-IsBlock n iv text v t e in
      let b = encrypted-IsBlock _ mixed in
      let rest =
        cbc_decrypt-cbc_encrypt n _ (drop 16 text) b (drop-IsBytes 16 text t)
          (omega (arith, length-drop 16 text)) in
      rw
        (
          take_block _ (cbc_encrypt c key n _ (drop 16 text)) b.full,
          drop_block _ (cbc_encrypt c key n _ (drop 16 text)) b.full,
          c.decrypt-encrypt key _ mixed.full mixed.of_bytes,
          rest,
          xor_bytes_cancel (take 16 text) iv (length-take_le 16 text (omega arith) ∙ sym v.full)
              (take-IsBytes 16 text t) v.of_bytes,
        )
        (take-append-drop 16 text)

  cbc_step :
      (n : ℕ) (iv text : Bytes)
      → cbc_encrypt c key (suc n) iv text
        ≡ c.encrypt key (xor_bytes (take 16 text) iv)
          ++ cbc_encrypt c key n (c.encrypt key (xor_bytes (take 16 text) iv)) (drop 16 text)
  unfolding cbc_encrypt
  cbc_step n iv text = refl

  cbc_zero : (iv text : Bytes) → cbc_encrypt c key 0 iv text ≡ []
  unfolding cbc_encrypt
  cbc_zero iv text = refl

  -- The parts of a text, each chained to what came before, make up the whole.
  pub cbc_encrypt-append :
      (m n : ℕ) (iv xs ys : Bytes)
      → IsBlock iv
      → IsBytes xs
      → length xs ≡ suc m * 16
      → cbc_encrypt c key (suc m + n) iv (xs ++ ys)
        ≡ cbc_encrypt c key (suc m) iv xs
          ++ cbc_encrypt c key n (last_block (cbc_encrypt c key (suc m) iv xs)) ys
  cbc_encrypt-append zero n iv xs ys v t e =
      let b = encrypted-IsBlock _ (mixed-IsBlock 0 iv xs v t e) in
      rw (
        cbc_suc 0 n,
        zero-add n,
        cbc_step n iv (xs ++ ys),
        cbc_step 0 iv xs,
        cbc_zero _ (drop 16 xs),
        take-append_le 16 xs ys (omega arith),
        drop-append_le 16 xs ys (omega arith),
        length_zero (drop 16 xs) (omega (arith, length-drop 16 xs)),
        last_block_one _ b.full,
        append-nil (c.encrypt key (xor_bytes (take 16 xs) iv)),
      )
  cbc_encrypt-append (suc m) n iv xs ys v t e =
      let b = encrypted-IsBlock _ (mixed-IsBlock (suc m) iv xs v t e) in
      let fits : length (drop 16 xs) ≡ suc m * 16 = omega (arith, length-drop 16 xs) in
      let bytes = drop-IsBytes 16 xs t in
      let rest = cbc_encrypt-append m n _ (drop 16 xs) ys b bytes fits in
      let long = length-cbc_encrypt (suc m) _ (drop 16 xs) b bytes fits in
      rw
        (
          cbc_suc (suc m) n,
          cbc_step (suc m + n) iv (xs ++ ys),
          cbc_step (suc m) iv xs,
          take-append_le 16 xs ys (omega arith),
          drop-append_le 16 xs ys (omega arith),
          rest,
          last_block-append_block (first iv xs)
              (cbc_encrypt c key (suc m) (first iv xs) (drop 16 xs)) (omega (arith, long)),
        )
        (sym (
          append_assoc (first iv xs) (cbc_encrypt c key (suc m) (first iv xs) (drop 16 xs)) (
            cbc_encrypt c key n (last_block (cbc_encrypt c key (suc m) (first iv xs) (drop 16 xs)))
              ys)))

  -- The block that the next part is chained to is a block again.
  pub last_block-IsBlock :
      (m : ℕ) (iv xs : Bytes)
      → IsBlock iv
      → IsBytes xs
      → length xs ≡ suc m * 16
      → IsBlock (last_block (cbc_encrypt c key (suc m) iv xs))
  last_block-IsBlock zero iv xs v t e =
      let b = encrypted-IsBlock _ (mixed-IsBlock 0 iv xs v t e) in
      rw (cbc_step 0 iv xs, cbc_zero _ (drop 16 xs), last_block_one _ b.full) b
  last_block-IsBlock (suc m) iv xs v t e =
      let b = encrypted-IsBlock _ (mixed-IsBlock (suc m) iv xs v t e) in
      let fits : length (drop 16 xs) ≡ suc m * 16 = omega (arith, length-drop 16 xs) in
      let bytes = drop-IsBytes 16 xs t in
      let long = length-cbc_encrypt (suc m) _ (drop 16 xs) b bytes fits in
      rw
        (
          cbc_step (suc m) iv xs,
          last_block-append_block (first iv xs)
              (cbc_encrypt c key (suc m) (first iv xs) (drop 16 xs)) (omega (arith, long)),
        )
        (last_block-IsBlock m _ (drop 16 xs) b bytes fits)
