-- ===== src/Daemon/LogBuffer/Window.antt =====
-- internal/daemon/logbuffer.go: GetRecent returns the last entries, in order.
use Prim.Native.Nat.{min}
use native.Mathlib.Nat.{mod_self, mod-eq_of_lt, add-mod_left, mod-lt}
use mathlib.Core.List.{append-nil, append_assoc}
use rescale_interlink.Common.{
  ℕ, zero, suc, ◌+◌, ◌-◌, ◌%◌, ◌<◌, ◌≤◌, List, [], ◌∷◌, ◌++◌, ◌≡◌, refl, arith, length, drop, ap,
  set, ◌∙◌, if◌then◌else◌, leb, Bool-cases, ◌≢◌, inl, ltb, ap₂, true, inr, sym, length-append,
  length-set, drop_within, drop_all, length-replicate, subst, ◌||◌, ◌==◌,
}
use rescale_interlink.Common.Int.{ℤ, pos, ltb_ℤ, pos_part}
use rescale_interlink.Events.Ring.Recent.{last}
use rescale_interlink.Daemon.LogBuffer.{
  LogEntryData, LogBuffer, new_log_buffer, add_entry, entry_at, read_from, get_recent,
}

-- The position i places above the one n places below w, in a ring of M.
place : ℕ → ℕ → ℕ → ℕ → ℕ
place w m n i = if leb n (w + i) then w + i - n else w + i + m - n

mod_once : (a m : ℕ) → m ≤ a → a < m + m → a % m ≡ a - m
mod_once a m low high =
    let split : a ≡ m + (a - m) = omega arith in
    ap (λ k. k % m) split ∙ add-mod_left m (a - m) ∙ mod-eq_of_lt (omega arith)

start_place : (w m n i : ℕ) → w < m → i ≤ n → n ≤ m → ((w + m - n) % m + i) % m ≡ place w m n i
unfolding place
start_place w m n i inside before fits = elim (Bool-cases (leb n w)) [
  | inl e ↦
      let start = mod_once (w + m - n) m (ground arith) (ground arith) in
      let from : w + m - n - m + i ≡ w + i - n = ground arith in
      let inner : (w + i - n) % m ≡ w + i - n = mod-eq_of_lt (ground arith) in
      let high : leb n (w + i) ≡ true = ground arith in rw (start, from, inner, high) refl
  | inr e ↦
      let start : (w + m - n) % m ≡ w + m - n = mod-eq_of_lt (ground arith) in
      elim (Bool-cases (leb n (w + i))) [
        | inl high ↦
            let inner = mod_once (w + m - n + i) m (ground arith) (ground arith) in
            let from : w + m - n + i - m ≡ w + i - n = ground arith in
            rw (start, inner, from, high) refl
        | inr low ↦
            let inner : (w + m - n + i) % m ≡ w + m - n + i = mod-eq_of_lt (ground arith) in
            let from : w + m - n + i ≡ w + i + m - n = ground arith in
            rw (start, inner, from, low) refl
      ]
]

start_next : (w m n : ℕ) → w < m → n < m → ((w + 1) % m + m - suc n) % m ≡ (w + m - n) % m
start_next w m n inside fits = elim (Bool-cases (ltb (w + 1) m)) [
  | inl e ↦
      let next : (w + 1) % m ≡ w + 1 = mod-eq_of_lt (ground arith) in
      let same : w + 1 + m - suc n ≡ w + m - n = omega arith in rw (next, same) refl
  | inr e ↦
      let ends : w + 1 ≡ m = ground arith in
      let next : (w + 1) % m ≡ 0 = ap (λ k. k % m) ends ∙ mod_self m in
      let low : (0 + m - suc n) % m ≡ m - suc n = mod-eq_of_lt (omega arith) ∙ omega arith in
      let high = mod_once (w + m - n) m (omega arith) (omega arith) in
      let same : m - suc n ≡ w + m - n - m = omega arith in rw next (low ∙ same ∙ sym high)
]

module _ {J : Type 0} where
  -- The buffer after some entries are added, the first first.
  unfoldable pub add_entries : LogBuffer J → List (LogEntryData J) → LogBuffer J
  add_entries lb [] = lb
  add_entries lb (e ∷ es) = add_entries (add_entry lb e) es

module _ {J : Type 0} (nil : LogEntryData J) where
  entry_at-set :
      (xs : List (LogEntryData J)) (i : ℕ) (e : LogEntryData J)
      → i < length xs
      → entry_at nil (set xs i e) i ≡ e
  entry_at-set [] i e h = absurd (omega arith)
  entry_at-set (x ∷ xs) zero e h = refl
  entry_at-set (x ∷ xs) (suc i) e h = entry_at-set xs i e (omega arith)

  entry_at_other :
      (xs : List (LogEntryData J)) (i j : ℕ) (e : LogEntryData J)
      → j ≢ i
      → entry_at nil (set xs i e) j ≡ entry_at nil xs j
  entry_at_other [] i j e h = refl
  entry_at_other (x ∷ xs) zero zero e h = absurd (h refl)
  entry_at_other (x ∷ xs) zero (suc j) e h = refl
  entry_at_other (x ∷ xs) (suc i) zero e h = refl
  entry_at_other (x ∷ xs) (suc i) (suc j) e h = entry_at_other xs i j e (λ q. h (ap suc q))

  read_from-last :
      (lb : LogBuffer J) (s i k : ℕ)
      → read_from lb nil s i (suc k)
        ≡ read_from lb nil s i k ++ entry_at nil lb.entries ((s + (i + k)) % lb.max_size) ∷ []
  unfolding read_from
  read_from-last lb s i zero = let here : i + 0 ≡ i = omega arith in rw here refl
  read_from-last lb s i (suc k) =
      let along : suc i + k ≡ i + suc k = omega arith in
      ap (◌∷◌ (entry_at nil lb.entries ((s + i) % lb.max_size))) (
        read_from-last lb s (suc i) k
        ∙ ap
            (λ j.
              read_from lb nil s (suc i) k ++ entry_at nil lb.entries ((s + j) % lb.max_size) ∷ [])
            along)

  -- Reading is the same after an entry is added, if it does not reach the place written.
  read_from-add :
      (lb : LogBuffer J) (e : LogEntryData J) (s i k : ℕ)
      → ((j : ℕ) → j < i + k → (s + j) % lb.max_size ≢ lb.write_idx)
      → read_from (add_entry lb e) nil s i k ≡ read_from lb nil s i k
  unfolding read_from add_entry
  read_from-add lb e s i zero h = refl
  read_from-add lb e s i (suc k) h =
      ap₂ ◌∷◌ (entry_at_other lb.entries lb.write_idx ((s + i) % lb.max_size) e (h i (omega arith)))
        (read_from-add lb e s (suc i) k λ j below. h j (omega arith))

  abbrev start : LogBuffer J → ℕ → ℕ
  start lb n = (lb.write_idx + lb.max_size - n) % lb.max_size

  -- What a buffer has seen.
  record Shows (lb : LogBuffer J) (seen : List (LogEntryData J)) : Type 0 where
    sized : length lb.entries ≡ lb.max_size
    within : lb.write_idx < lb.max_size
    counted : lb.count ≡ min lb.max_size (length seen)
    recent : (n : ℕ) → n ≤ lb.count → read_from lb nil (start lb n) 0 n ≡ last n seen

  read_from-add_entry :
      (lb : LogBuffer J) (seen : List (LogEntryData J)) (e : LogEntryData J) (n : ℕ)
      → Shows lb seen
      → n ≤ lb.count
      → n < lb.max_size
      → read_from (add_entry lb e) nil (start lb n) 0 (suc n) ≡ last n seen ++ e ∷ []
  unfolding place add_entry
  read_from-add_entry lb seen e n v counted fits =
      let w = lb.write_idx in
      let m = lb.max_size in
      let spot : (start lb n + (0 + n)) % m ≡ w =
        ap (λ k. (start lb n + k) % m) {x = 0 + n} {y = n} (omega arith)
        ∙ start_place w m n n v.within (omega arith) (omega arith)
        ∙ ground arith in
      let apart : (j : ℕ) → j < 0 + n → (start lb n + j) % m ≢ w = λ j below same.
        let moved = sym (start_place w m n j v.within (omega arith) (omega arith)) ∙ same in
        ground (arith, v.within, moved) in
      read_from-last (add_entry lb e) (start lb n) 0 n
      ∙ ap₂ (λ xs x. xs ++ x ∷ []) (read_from-add lb e (start lb n) 0 n apart ∙ v.recent n counted)
          (ap (entry_at nil (set lb.entries w e)) spot
            ∙ entry_at-set lb.entries w e (omega (arith, v.within, v.sized)))

  last-snoc :
      (n : ℕ) (seen : List (LogEntryData J)) (e : LogEntryData J)
      → last n seen ++ e ∷ [] ≡ last (suc n) (seen ++ e ∷ [])
  last-snoc n seen e =
      let from : length seen - n ≡ length (seen ++ e ∷ []) - suc n =
        omega (arith, length-append seen (e ∷ [])) in
      sym (drop_within (length seen - n) seen (e ∷ []) (omega arith))
      ∙ ap (λ k. drop k (seen ++ e ∷ [])) from

  last_none : (seen : List (LogEntryData J)) → [] ≡ last 0 seen
  last_none seen = sym (drop_all (length seen - 0) seen (omega arith))

  recent-add_entry :
      (lb : LogBuffer J) (seen : List (LogEntryData J)) (e : LogEntryData J)
      → Shows lb seen
      → (n : ℕ) → n ≤ (add_entry lb e).count
      → read_from (add_entry lb e) nil (start (add_entry lb e) n) 0 n ≡ last n (seen ++ e ∷ [])
  unfolding add_entry read_from
  recent-add_entry lb seen e v zero h = last_none (seen ++ e ∷ [])
  recent-add_entry lb seen e v (suc n) h =
      let fits : n < lb.max_size = ground (arith, v.counted) in
      let counted : n ≤ lb.count = ground (arith, v.counted) in
      ap (λ s. read_from (add_entry lb e) nil s 0 (suc n))
        (start_next lb.write_idx lb.max_size n v.within fits)
      ∙ read_from-add_entry lb seen e n v counted fits
      ∙ last-snoc n seen e

  add_entry-Shows :
      (lb : LogBuffer J) (seen : List (LogEntryData J)) (e : LogEntryData J)
      → Shows lb seen
      → Shows (add_entry lb e) (seen ++ e ∷ [])
  unfolding add_entry
  add_entry-Shows lb seen e v = record {
    sized = length-set lb.entries lb.write_idx e ∙ v.sized;
    within = mod-lt (lb.write_idx + 1) (omega (arith, v.within));
    counted = ground (arith, v.counted, length-append seen (e ∷ []));
    recent = recent-add_entry lb seen e v;
  }

  new_log_buffer-Shows : (max_size : ℤ) → Shows (new_log_buffer nil max_size) []
  unfolding new_log_buffer read_from
  new_log_buffer-Shows max_size = record {
    sized = length-replicate _ nil;
    within = ground arith;
    counted = omega arith;
    recent = none_read;
  }
    where
      none_read :
          (n : ℕ)
          → n ≤ 0
          → read_from (new_log_buffer nil max_size) nil (start (new_log_buffer nil max_size) n) 0 n
            ≡ last n []
      none_read zero h = last_none []
      none_read (suc n) h = absurd (omega arith)

  add_entries-Shows :
      (lb : LogBuffer J) (seen es : List (LogEntryData J))
      → Shows lb seen
      → Shows (add_entries lb es) (seen ++ es)
  unfolding add_entries
  add_entries-Shows lb seen [] v = subst (Shows lb) (sym (append-nil seen)) v
  add_entries-Shows lb seen (e ∷ es) v =
      subst (Shows (add_entries (add_entry lb e) es)) (append_assoc seen (e ∷ []) es)
        (add_entries-Shows (add_entry lb e) (seen ++ e ∷ []) es (add_entry-Shows lb seen e v))

  add_entries-max_size :
      (lb : LogBuffer J) (es : List (LogEntryData J)) → (add_entries lb es).max_size ≡ lb.max_size
  unfolding add_entries add_entry
  add_entries-max_size lb [] = refl
  add_entries-max_size lb (e ∷ es) = add_entries-max_size (add_entry lb e) es

  get_recent-Shows :
      (lb : LogBuffer J) (seen : List (LogEntryData J)) (n : ℤ)
      → Shows lb seen
      → get_recent lb nil n ≡ last (min (pos_part n) lb.max_size) seen
  unfolding get_recent
  get_recent-Shows lb seen n v = elim (Bool-cases (ltb_ℤ n (pos 1) || lb.count == 0)) [
    | inl e ↦ rw (get_recent, e) (sym (drop_all _ seen (ground (arith, e, v.counted, v.within))))
    | inr e ↦
        let m = if ltb lb.count (pos_part n) then lb.count else pos_part n in
        let from : length seen - m ≡ length seen - min (pos_part n) lb.max_size =
          ground (arith, v.counted) in
        rw (get_recent, e) (v.recent m (ground arith) ∙ ap (λ k. drop k seen) from)
  ]

  -- After any entries are added to a new buffer, GetRecent of n returns the last n of them, as many as
  -- the buffer holds at most, or all if they are fewer, in the order in which they came, and none for an
  -- n that is not positive; a size that is not positive counts as 1000.
  pub get_recent-add_entries :
      (max_size : ℤ) (es : List (LogEntryData J)) (n : ℤ)
      → get_recent (add_entries (new_log_buffer nil max_size) es) nil n
        ≡ last (min (pos_part n) (new_log_buffer nil max_size).max_size) es
  get_recent-add_entries max_size es n =
      let lb = new_log_buffer nil max_size in
      get_recent-Shows (add_entries lb es) es n
        (add_entries-Shows lb [] es (new_log_buffer-Shows max_size))
      ∙ ap (λ m. last (min (pos_part n) m) es) (add_entries-max_size lb es)
