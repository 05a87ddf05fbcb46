-- ===== src/Transfer/Queue/Pages.antt =====
-- internal/transfer/queue.go: the pages of GetBatchTasks.
use rescale_interlink.Common.{
  ℕ, ◌+◌, Bool, true, List, [], ◌∷◌, ◌++◌, ◌≡◌, refl, arith, take, drop, ltb, suc, ap, sym, zero,
  ◌∙◌, false, ◌<◌,
}
use rescale_interlink.Common.Int.{ℤ, pos, negsuc}
use Prim.Native.Nat.{◌^◌}
use rescale_interlink.Transfer.Queue.{Queue}

module _ {A : Type 0} where
  -- The elements from `offset` on, at most `limit` of them.
  abbrev pub window : ℕ → ℕ → List A → List A
  window offset limit xs = take limit (drop offset xs)

  take_none : (n : ℕ) → take {A = A} n [] ≡ []
  take_none zero = refl
  take_none (suc n) = refl

  take-append-take :
      (limit more : ℕ) (xs : List A)
      → take limit xs ++ take more (drop limit xs) ≡ take (limit + more) xs
  take-append-take zero more xs = let e : more ≡ zero + more = omega arith in ap (λ n. take n xs) e
  take-append-take (suc n) more [] =
      let e : suc n + more ≡ suc (n + more) = omega arith in
      take_none more ∙ sym (ap (λ k. take {A = A} k []) e)
  take-append-take (suc n) more (x ∷ xs) =
      let e : suc (n + more) ≡ suc n + more = omega arith in
      ap (◌∷◌ x) (take-append-take n more xs) ∙ ap (λ k. take k (x ∷ xs)) e

  drop_none : (n : ℕ) → drop {A = A} n [] ≡ []
  drop_none zero = refl
  drop_none (suc n) = refl

  drop-drop : (m n : ℕ) (xs : List A) → drop n (drop m xs) ≡ drop (m + n) xs
  drop-drop zero n xs = let e : n ≡ zero + n = omega arith in ap (λ k. drop k xs) e
  drop-drop (suc m) n [] = drop_none n ∙ sym (drop_none (suc m + n))
  drop-drop (suc m) n (x ∷ xs) =
      let e : suc (m + n) ≡ suc m + n = omega arith in
      drop-drop m n xs ∙ ap (λ k. drop k (x ∷ xs)) e

  pub window-append :
      (offset limit more : ℕ) (xs : List A)
      → window offset limit xs ++ window (offset + limit) more xs ≡ window offset (limit + more) xs
  window-append offset limit more xs =
      ap (λ ys. window offset limit xs ++ take more ys) (sym (drop-drop offset limit xs))
      ∙ take-append-take limit more (drop offset xs)

-- The integer is one of 64 bits.
abbrev pub IsInt64 : ℤ → Type 0
IsInt64 (pos n) = n < 2 ^ 63
IsInt64 (negsuc n) = n < 2 ^ 63

-- The integer is below 0.
abbrev pub negative : ℤ → Bool
negative (pos n) = false
negative (negsuc n) = true

abbrev pub before : ℤ → ℕ → Bool
before (pos n) bound = ltb n bound
before (negsuc n) bound = true
