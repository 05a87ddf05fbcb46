-- ===== src/Events/Ring/Recent.antt =====
-- internal/events/ringbuffer.go: the buffer holds the last events, in order.
use Prim.Native.Nat.{◌≤◌}
use native.Mathlib.Nat.{mod_self, mod-eq_of_lt}
use mathlib.Core.List.{append_assoc, append-nil}
use rescale_interlink.Common.Int.{ℤ}
use rescale_interlink.Common.{
  take_all, drop_all, drop_within, length-drop, length-set, length-append, length-replicate, ◌∙◌,
  sym, ap₂, leb, ltb, if◌then◌else◌, true, false, Bool-cases, ℕ, zero, suc, ◌+◌, ◌-◌, ◌%◌, ◌<◌, ◌≤◌,
  List, [], ◌∷◌, ◌++◌, ◌≡◌, refl, arith, length, set, take, drop, ap, inl, inr, ◌==◌, subst,
}
use rescale_interlink.Events.Ring.{RingBuffer, new_ring_buffer, add, snapshot}

-- The next position.
next_inside : (p n : ℕ) → suc p < n → (p + 1) % n ≡ suc p
next_inside p n h = mod-eq_of_lt (ground arith) ∙ omega arith

next_wraps : (p n : ℕ) → p < n → n ≤ suc p → (p + 1) % n ≡ 0
next_wraps p n h k = let e : p + 1 ≡ n = omega arith in ap (λ m. m % n) e ∙ mod_self n

module _ {A : Type 0} where
  -- The last `n` elements.
  abbrev pub last : ℕ → List A → List A
  last n xs = drop (length xs - n) xs

  take-set :
      (xs : List A) (i : ℕ) (v : A)
      → i < length xs
      → take (suc i) (set xs i v) ≡ take i xs ++ v ∷ []
  take-set [] i v h = absurd (omega arith)
  take-set (x ∷ xs) zero v h = refl
  take-set (x ∷ xs) (suc i) v h = ap (◌∷◌ x) (take-set xs i v (omega arith))

  drop-set : (xs : List A) (i : ℕ) (v : A) → drop (suc i) (set xs i v) ≡ drop (suc i) xs
  drop-set [] i v = refl
  drop-set (x ∷ xs) zero v = refl
  drop-set (x ∷ xs) (suc i) v = drop-set xs i v

  drop_one : (xs : List A) (i : ℕ) → drop 1 (drop i xs) ≡ drop (suc i) xs
  drop_one xs zero = refl
  drop_one [] (suc i) = refl
  drop_one (x ∷ xs) (suc i) = drop_one xs i

  drop_none : (n : ℕ) → drop {A = A} n [] ≡ []
  drop_none zero = refl
  drop_none (suc n) = refl

  pub record IsRing (rb : RingBuffer A) : Type 0 where
    pub sized : length rb.buf ≡ rb.cap
    pub within : rb.pos < rb.cap

  add-IsRing : (rb : RingBuffer A) (e : A) → IsRing rb → IsRing (add rb e)
  unfolding add
  add-IsRing rb e v = record {
    sized = omega (arith, length-set rb.buf rb.pos e, v.sized);
    within = omega (arith, v.within);
  }

  -- What is in the buffer after a write, when there are positions above it and when it was the last.
  set_inside :
      (buf : List A) (p : ℕ) (e : A)
      → suc p < length buf
      → drop (suc p) (set buf p e) ++ take (suc p) (set buf p e)
        ≡ drop 1 (drop p buf ++ take p buf) ++ e ∷ []
  set_inside buf p e h =
      ap₂ ◌++◌ (drop-set buf p e) (take-set buf p e (omega arith))
      ∙ sym (append_assoc (drop (suc p) buf) (take p buf) (e ∷ []))
      ∙ ap (λ xs. (xs ++ take p buf) ++ e ∷ []) (sym (drop_one buf p))
      ∙ ap (λ xs. xs ++ e ∷ [])
          (sym (drop_within 1 (drop p buf) (take p buf) (omega (arith, length-drop p buf))))

  set_last :
      (buf : List A) (p : ℕ) (e : A) → length buf ≡ suc p → set buf p e ≡ take p buf ++ e ∷ []
  set_last buf p e h =
      sym (take_all (suc p) (set buf p e) (omega (arith, length-set buf p e)))
      ∙ take-set buf p e (omega arith)

  set_last_full :
      (buf : List A) (p : ℕ) (e : A)
      → length buf ≡ suc p
      → set buf p e ≡ drop 1 (drop p buf ++ take p buf) ++ e ∷ []
  set_last_full buf p e h =
      set_last buf p e h
      ∙ ap (λ xs. (xs ++ take p buf) ++ e ∷ [])
          (sym (drop_one buf p ∙ drop_all (suc p) buf (omega arith)))
      ∙ ap (λ xs. xs ++ e ∷ [])
          (sym (drop_within 1 (drop p buf) (take p buf) (omega (arith, length-drop p buf))))

  -- One event comes in and, from a full buffer, the oldest goes.
  snapshot-add :
      (rb : RingBuffer A) (e : A)
      → IsRing rb
      → snapshot (add rb e) ≡ (if rb.full then drop 1 (snapshot rb) else snapshot rb) ++ e ∷ []
  unfolding add snapshot
  snapshot-add rb e v = elim (Bool-cases (ltb (rb.pos + 1) rb.cap)) [
    | inl inside ↦
        let below : suc rb.pos < rb.cap = ground arith in
        let next = next_inside rb.pos rb.cap below in
        let not_zero : (suc rb.pos == 0) ≡ false = ground arith in
        let fits : suc rb.pos < length rb.buf = omega (arith, v.sized) in
        elim (Bool-cases rb.full) [
          | inl f ↦ rw (next, not_zero, f) (set_inside rb.buf rb.pos e fits)
          | inr f ↦ rw (next, not_zero, f) (take-set rb.buf rb.pos e (omega arith))
        ]
    | inr wraps ↦
        let above : rb.cap ≤ suc rb.pos = ground arith in
        let next = next_wraps rb.pos rb.cap v.within above in
        let ends : length rb.buf ≡ suc rb.pos = omega (arith, v.within, v.sized) in
        elim (Bool-cases rb.full) [
          | inl f ↦ rw (next, f) (append-nil _ ∙ set_last_full rb.buf rb.pos e ends)
          | inr f ↦ rw (next, f) (append-nil _ ∙ set_last rb.buf rb.pos e ends)
        ]
  ]

  last-append :
      (n : ℕ) (xs : List A) (e : A)
      → 0 < n
      → (if leb n (length xs) then drop 1 (last n xs) else last n xs) ++ e ∷ []
        ≡ last n (xs ++ e ∷ [])
  last-append n xs e h =
      let longer : length (xs ++ e ∷ []) ≡ suc (length xs) =
        length-append xs (e ∷ []) ∙ omega arith in
      elim (Bool-cases (leb n (length xs))) [
        | inl more ↦
            let from : suc (length xs - n) ≡ length (xs ++ e ∷ []) - n = ground (arith, longer) in
            rw more (
              ap (λ ys. ys ++ e ∷ []) (drop_one xs (length xs - n))
              ∙ sym (drop_within (suc (length xs - n)) xs (e ∷ []) (ground arith))
              ∙ ap (λ k. drop k (xs ++ e ∷ [])) from)
        | inr less ↦
            let from : length xs - n ≡ length (xs ++ e ∷ []) - n = ground (arith, longer) in
            rw less (
              sym (drop_within (length xs - n) xs (e ∷ []) (omega arith))
              ∙ ap (λ k. drop k (xs ++ e ∷ [])) from)
      ]

  -- The buffer after some events are added, the first first.
  unfoldable pub add_all : RingBuffer A → List A → RingBuffer A
  add_all rb [] = rb
  add_all rb (e ∷ es) = add_all (add rb e) es

  -- What a buffer has seen: if it is full, more than it holds.
  record Shows (rb : RingBuffer A) (seen : List A) : Type 0 where
    ring : IsRing rb
    recent : snapshot rb ≡ last rb.cap seen
    fills : rb.full ≡ true → rb.cap ≤ length seen
    part : rb.full ≡ false → rb.pos ≡ length seen

  fullness :
      (rb : RingBuffer A) (seen : List A) → Shows rb seen → rb.full ≡ leb rb.cap (length seen)
  fullness rb seen v = ground (arith, v.fills, v.part, v.ring.within)

  add-Shows :
      (rb : RingBuffer A) (seen : List A) (e : A)
      → Shows rb seen
      → Shows (add rb e) (seen ++ e ∷ [])
  unfolding add
  add-Shows rb seen e v = record {
    ring = add-IsRing rb e v.ring;
    recent =
        snapshot-add rb e v.ring
        ∙ ap₂ (λ b xs. (if b then drop 1 xs else xs) ++ e ∷ []) (fullness rb seen v) v.recent
        ∙ last-append rb.cap seen e (omega (arith, v.ring.within));
    fills = ground (
      arith,
      length-append seen (e ∷ []),
      v.fills,
      v.part,
      v.ring.within,
      next_inside rb.pos rb.cap,
      next_wraps rb.pos rb.cap,
    );
    part = ground (
      arith,
      length-append seen (e ∷ []),
      v.fills,
      v.part,
      v.ring.within,
      next_inside rb.pos rb.cap,
      next_wraps rb.pos rb.cap,
    );
  }

  add_all-Shows :
      (rb : RingBuffer A) (seen events : List A)
      → Shows rb seen
      → Shows (add_all rb events) (seen ++ events)
  unfolding add_all
  add_all-Shows rb seen [] v = rw (append-nil seen) v
  add_all-Shows rb seen (e ∷ es) v =
      subst (λ xs. Shows (add_all (add rb e) es) xs) (append_assoc seen (e ∷ []) es)
        (add_all-Shows (add rb e) (seen ++ e ∷ []) es (add-Shows rb seen e v))

  add_all-cap : (rb : RingBuffer A) (events : List A) → (add_all rb events).cap ≡ rb.cap
  unfolding add_all add
  add_all-cap rb [] = refl
  add_all-cap rb (e ∷ es) = add_all-cap (add rb e) es

  new_ring_buffer-Shows : (nil : A) (capacity : ℤ) → Shows (new_ring_buffer nil capacity) []
  unfolding new_ring_buffer snapshot
  new_ring_buffer-Shows nil capacity = record {
    ring = record { sized = length-replicate _ nil; within = ground arith };
    recent = sym (drop_none _);
    fills = λ h. ground arith;
    part = λ h. refl;
  }

  -- After any events are added to a new buffer, Snapshot returns the last of them, as many as the
  -- capacity or all if they are fewer, in the order in which they came; a capacity that is not positive
  -- counts as 50 in the new buffer.
  pub snapshot-add_all :
      (nil : A) (capacity : ℤ) (events : List A)
      → snapshot (add_all (new_ring_buffer nil capacity) events)
        ≡ last (new_ring_buffer nil capacity).cap events
  snapshot-add_all nil capacity events =
      (add_all-Shows (new_ring_buffer nil capacity) [] events
        (new_ring_buffer-Shows nil capacity)).recent
      ∙ ap (λ n. last n events) (add_all-cap (new_ring_buffer nil capacity) events)
