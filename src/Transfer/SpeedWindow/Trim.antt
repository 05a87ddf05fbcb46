-- ===== src/Transfer/SpeedWindow/Trim.antt =====
-- internal/transfer/speed_window.go: which samples a new one leaves in the window.
use rescale_interlink.Common.{
  ℕ, ◌≤◌, List, [], ◌∷◌, All, arith, ◌≡◌, Bool-cases, suc, ltb, inl, inr, ◌-◌, ◌++◌, refl, keep,
  not, true, false, ◌∙◌,
}
use rescale_interlink.Transfer.SpeedWindow.{
  SpeedSample, first_keep, trim, last_of, SpeedWindow, add_sample,
}

-- Samples in the order in which they were taken.
abbrev pub InOrder : List SpeedSample → Type 0
InOrder [] = Unit {0}
InOrder (s ∷ []) = Unit {0}
InOrder (s ∷ t ∷ rest) = (s.time ≤ t.time) × InOrder (t ∷ rest)

abbrev pub NotBefore : ℕ → List SpeedSample → Type 0
NotBefore cutoff = All (λ s. cutoff ≤ s.time)

-- The samples that are older than the cutoff, and those that are not.
abbrev pub older : ℕ → List SpeedSample → List SpeedSample
older cutoff = keep (λ s. ltb s.time cutoff)

abbrev pub not_older : ℕ → List SpeedSample → List SpeedSample
not_older cutoff = keep (λ s. not (ltb s.time cutoff))

-- The newest sample alone.
abbrev pub newest : List SpeedSample → List SpeedSample
newest [] = []
newest (s ∷ []) = s ∷ []
newest (s ∷ t ∷ rest) = newest (t ∷ rest)

InOrder-NotBefore :
    (cutoff : ℕ) (s : SpeedSample) (rest : List SpeedSample)
    → InOrder (s ∷ rest)
    → cutoff ≤ s.time
    → NotBefore cutoff (s ∷ rest)
InOrder-NotBefore cutoff s [] o h = (h, tt)
InOrder-NotBefore cutoff s (t ∷ rest) o h = (h, InOrder-NotBefore cutoff t rest o.1 (omega arith))

-- Where no sample is older than the cutoff.
older_none : (cutoff : ℕ) (xs : List SpeedSample) → NotBefore cutoff xs → older cutoff xs ≡ []
older_none cutoff [] h = refl
older_none cutoff (s ∷ rest) h = ground (arith, h.0, older_none cutoff rest h.1)

not_older_all :
    (cutoff : ℕ) (xs : List SpeedSample) → NotBefore cutoff xs → not_older cutoff xs ≡ xs
not_older_all cutoff [] h = refl
not_older_all cutoff (s ∷ rest) h = ground (arith, h.0, not_older_all cutoff rest h.1)

rest_new :
    (cutoff : ℕ) (s : SpeedSample) (rest : List SpeedSample)
    → NotBefore cutoff rest
    → s ∷ rest ≡ newest (older cutoff (s ∷ rest)) ++ not_older cutoff (s ∷ rest)
rest_new cutoff s rest new = elim (Bool-cases (ltb s.time cutoff)) [
  | inl old ↦ rw (old, older_none cutoff rest new, not_older_all cutoff rest new) refl
  | inr young ↦ rw (young, older_none cutoff rest new, not_older_all cutoff rest new) refl
]

-- Two samples that are older lead: the first of them goes.
trim_two :
    (cutoff : ℕ) (s t : SpeedSample) (rest : List SpeedSample)
    → ltb s.time cutoff ≡ true
    → ltb t.time cutoff ≡ true
    → cutoff ≤ (last_of t rest).time
    → trim cutoff (s ∷ t ∷ rest) ≡ trim cutoff (t ∷ rest)
unfolding trim first_keep
trim_two cutoff s t [] old_s old_t h = ground (arith, old_t, h)
trim_two cutoff s t (u ∷ rest) old_s old_t h =
    let k = first_keep cutoff (u ∷ rest) in
    let e : suc (suc k) - 1 ≡ suc k = omega arith in
    let f : suc k - 1 ≡ k = omega arith in
    let g : ltb 0 (suc (suc k)) ≡ true = ground arith in
    let g' : ltb 0 (suc k) ≡ true = ground arith in rw (old_s, old_t, g, g', e, f) refl

-- The first sample that is not older is the first or the second: all stay.
trim_all :
    (cutoff : ℕ) (s : SpeedSample) (rest : List SpeedSample)
    → NotBefore cutoff rest
    → trim cutoff (s ∷ rest) ≡ s ∷ rest
unfolding trim first_keep
trim_all cutoff s [] new = refl
trim_all cutoff s (t ∷ []) new = ground arith
trim_all cutoff s (t ∷ u ∷ rest) new =
    let e : ltb t.time cutoff ≡ false = ground (arith, new.0) in rw e (ground arith)

trim_lem :
    (cutoff : ℕ) (s : SpeedSample) (rest : List SpeedSample)
    → InOrder (s ∷ rest)
    → cutoff ≤ (last_of s rest).time
    → trim cutoff (s ∷ rest) ≡ newest (older cutoff (s ∷ rest)) ++ not_older cutoff (s ∷ rest)
trim_lem cutoff s [] o h = trim_all cutoff s [] tt ∙ ground arith
trim_lem cutoff s (t ∷ rest) o h = elim (Bool-cases (ltb t.time cutoff)) [
  | inl old_t ↦
      let old_s : ltb s.time cutoff ≡ true = ground (arith, old_t, o.0) in
      let later = trim_lem cutoff t rest o.1 h in
      trim_two cutoff s t rest old_s old_t h ∙ later ∙ rw (old_s, old_t) refl
  | inr new_t ↦
      let new = InOrder-NotBefore cutoff t rest o.1 (ground (arith, new_t)) in
      trim_all cutoff s (t ∷ rest) new ∙ rest_new cutoff s (t ∷ rest) new
]

last_of-append : (s t : SpeedSample) (rest : List SpeedSample) → last_of s (rest ++ t ∷ []) ≡ t
last_of-append s t [] = refl
last_of-append s t (r ∷ rest) = last_of-append r t rest

module _ {F : Type 0} (w : SpeedWindow F) (now cumulative_bytes : ℕ) where
  abbrev new_sample : SpeedSample
  new_sample = record { time = now; bytes = cumulative_bytes }

  -- When the samples with the new one are in order of time, Record leaves the samples that are not older
  -- than the window, all of them, behind the newest one of those that are older, if there is one.
  pub add_sample_window :
      InOrder (w.samples ++ (record { time = now; bytes = cumulative_bytes }) ∷ [])
      → let all = w.samples ++ (record { time = now; bytes = cumulative_bytes }) ∷ [] in
        let cutoff = now - w.window_size in
        (add_sample w now cumulative_bytes).samples
        ≡ newest (older cutoff all) ++ not_older cutoff all
  unfolding add_sample
  add_sample_window o = go w.samples o
    where
      go :
          (xs : List SpeedSample)
          → InOrder (xs ++ new_sample ∷ [])
          → trim (now - w.window_size) (xs ++ new_sample ∷ [])
            ≡ newest (older (now - w.window_size) (xs ++ new_sample ∷ []))
              ++ not_older (now - w.window_size) (xs ++ new_sample ∷ [])
      go [] o = trim_lem (now - w.window_size) new_sample [] o (omega arith)
      go (x ∷ xs) o =
          trim_lem (now - w.window_size) x (xs ++ new_sample ∷ []) o
            (rw (last_of-append x new_sample xs) (omega arith))
