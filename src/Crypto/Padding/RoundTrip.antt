-- ===== src/Crypto/Padding/RoundTrip.antt =====
-- internal/crypto/encryption.go: what pkcs7Unpad accepts, and that it undoes pkcs7Pad.
use native.Mathlib.Decide.{ℕ_discrete}
use mathlib.Core.Path.{ap₂}
use mathlib.Core.List.{append_assoc}
use rescale_interlink.Common.{
  ℕ, zero, suc, ◌+◌, ◌-◌, ◌%◌, ◌≤◌, ◌<◌, ◌≡◌, refl, sym, ap, ◌∙◌, ◌++◌, true, [], ◌∷◌, some, arith,
  length, get_elem?, drop, replicate, length-append, length-replicate, take-append,
  take-append-drop, All-append,
}
use rescale_interlink.Common.Bytes.{Bytes, IsBytes}
use rescale_interlink.Crypto.Padding.{block_size, ok, pkcs7_pad, at, padding_matches, pkcs7_unpad}

get_elem?-replicate {ℓ} :
    {A : Type ℓ} (n j : ℕ) (a : A) → j < n → get_elem? (replicate n a) j ≡ some a
get_elem?-replicate zero j a h = elim h [ ]
get_elem?-replicate (suc n) zero a h = refl
get_elem?-replicate (suc n) (suc j) a h = get_elem?-replicate n j a (omega arith)

-- An index that points into the padding reads the padding byte.
get_elem?-append_replicate :
    (xs : Bytes) (n b j : ℕ)
    → length xs ≤ j
    → j < length xs + n
    → get_elem? (xs ++ replicate n b) j ≡ some b
get_elem?-append_replicate [] n b j lo hi = get_elem?-replicate n j b (omega arith)
get_elem?-append_replicate (x ∷ xs) n b zero lo hi = elim lo [ ]
get_elem?-append_replicate (x ∷ xs) n b (suc j) lo hi =
    get_elem?-append_replicate xs n b j (omega arith) (omega arith)

at-append_replicate :
    (xs : Bytes) (n b j : ℕ) → length xs ≤ j → j < length xs + n → at (xs ++ replicate n b) j ≡ b
at-append_replicate xs n b j lo hi = rw (get_elem?-append_replicate xs n b j lo hi, at)

length-append_replicate : (xs : Bytes) (n b : ℕ) → length (xs ++ replicate n b) ≡ length xs + n
length-append_replicate xs n b =
    omega (arith, length-append xs (replicate n b), length-replicate n b)

-- The loop passes over a text that ends in the padding.
padding_matches-append :
    (xs : Bytes) (n i left : ℕ)
    → n < 256
    → i + left ≤ n
    → padding_matches (xs ++ replicate n n) n i left ≡ true
unfolding padding_matches
padding_matches-append xs n i zero h b = refl
padding_matches-append xs n i (suc left) h b = ground (
  arith,
  length-append_replicate xs n n,
  at-append_replicate xs n n (length xs + n - 1 - i),
  padding_matches-append xs n (i + 1) left h,
)

unpad_padded :
    (xs : Bytes) (n : ℕ) → 0 < n → n ≤ block_size → pkcs7_unpad (xs ++ replicate n n) ≡ ok xs
unfolding pkcs7_unpad
unpad_padded xs n lo hi = ground (
  arith,
  length-append_replicate xs n n,
  at-append_replicate xs n n (length xs + n - 1),
  padding_matches-append xs n 0 n,
  take-append xs (replicate n n),
)

pad_shape :
    (xs : Bytes)
    → pkcs7_pad xs block_size ≡ xs ++ replicate (16 - length xs % 16) (16 - length xs % 16)
unfolding pkcs7_pad
pad_shape xs = ap (λ b. xs ++ replicate (16 - length xs % 16) b) (omega arith)

-- pkcs7Unpad takes away just what pkcs7Pad has added, for any text.
pub unpad-pad : (xs : Bytes) → pkcs7_unpad (pkcs7_pad xs block_size) ≡ ok xs
unpad-pad xs = rw (pad_shape xs) (unpad_padded xs (16 - length xs % 16) (omega arith) (omega arith))

-- A padded text fills whole blocks, and at least one.
pub length-pad :
    (xs : Bytes)
    → (length (pkcs7_pad xs block_size) % 16 ≡ 0)
      × (length xs < length (pkcs7_pad xs block_size))
      × (length (pkcs7_pad xs block_size) ≤ length xs + 16)
length-pad xs =
    rw (pad_shape xs)
      (omega (arith, length-append_replicate xs (16 - length xs % 16) (16 - length xs % 16)))

replicate-IsBytes : (n b : ℕ) → b < 256 → IsBytes (replicate n b)
replicate-IsBytes zero b h = tt
replicate-IsBytes (suc n) b h = (h, replicate-IsBytes n b h)

pub pad-IsBytes : (xs : Bytes) → IsBytes xs → IsBytes (pkcs7_pad xs block_size)
pad-IsBytes xs h = rw (pad_shape xs) (All-append _ xs _ h (replicate-IsBytes _ _ (omega arith)))

-- Padding concerns the last block alone.
pub pad-append :
    (xs ys : Bytes)
    → length xs % 16 ≡ 0
    → pkcs7_pad (xs ++ ys) block_size ≡ xs ++ pkcs7_pad ys block_size
unfolding pkcs7_pad
pad-append xs ys h =
    let same : 16 - length (xs ++ ys) % 16 ≡ 16 - length ys % 16 =
      omega (arith, length-append xs ys) in
    rw same (append_assoc xs ys _)

-- The loop that passes has seen the padding byte at each of its positions.
matches_all :
    (bytes : Bytes) (n i left k : ℕ)
    → n < 256
    → padding_matches bytes n i left ≡ true
    → i ≤ k
    → k < i + left
    → at bytes (length bytes - 1 - k) ≡ n
unfolding padding_matches
matches_all bytes n i zero k small h lo hi = absurd (omega arith)
matches_all bytes n i (suc left) k small h lo hi = elim (ℕ_discrete i k) [
  | yes e ↦ ground arith
  | no ne ↦ ground (arith, matches_all bytes n (i + 1) left k small)
]

drop_constant :
    (bytes : Bytes) (m n b : ℕ)
    → length bytes ≡ m + n
    → ((k : ℕ) → m ≤ k → k < m + n → at bytes k ≡ b)
    → drop m bytes ≡ replicate n b
drop_constant [] zero zero b e h = refl
drop_constant [] zero (suc n) b e h = absurd (omega arith)
drop_constant [] (suc m) n b e h = absurd (omega arith)
drop_constant (x ∷ xs) zero zero b e h = absurd (omega arith)
drop_constant (x ∷ xs) zero (suc n) b e h =
    ap₂ ◌∷◌ (h 0 (omega arith) (omega arith))
      (drop_constant xs 0 n b (omega arith) (λ k lo hi. h (suc k) (omega arith) (omega arith)))
drop_constant (x ∷ xs) (suc m) n b e h =
    drop_constant xs m n b (omega arith) (λ k lo hi. h (suc k) (omega arith) (omega arith))

matches_tail :
    (bytes : Bytes) (n : ℕ)
    → n ≤ length bytes
    → n < 256
    → padding_matches bytes n 0 n ≡ true
    → drop (length bytes - n) bytes ≡ replicate n n
matches_tail bytes n fits small h =
    drop_constant bytes (length bytes - n) n n (omega arith) λ k lo hi.
      let there : length bytes - 1 - (length bytes - 1 - k) ≡ k = omega arith in
      ap (at bytes) (sym there)
      ∙ matches_all bytes n 0 n (length bytes - 1 - k) small h (omega arith) (omega arith)

-- When pkcs7Unpad succeeds, its input is the result followed by n bytes of value n, for an n from 1 to
-- the block size: no other padding is accepted.
pub unpad_sound :
    (bytes : Bytes) {xs : Bytes}
    → pkcs7_unpad bytes ≡ ok xs
    → (n : ℕ) × (0 < n) × (n ≤ block_size) × (bytes ≡ xs ++ replicate n n)
unfolding pkcs7_unpad
unpad_sound bytes {xs} h =
    let n = at bytes (length bytes - 1) in
    (
      n,
      ground arith,
      ground arith,
      ground (arith, matches_tail bytes n, take-append-drop (length bytes - n) bytes),
    )
