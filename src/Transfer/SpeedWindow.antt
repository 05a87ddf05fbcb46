-- ===== src/Transfer/SpeedWindow.antt =====
-- internal/transfer/speed_window.go: a rate over a sliding window of cumulative samples.
pub mod Trim
use rescale_interlink.Common.{
  ℕ, zero, suc, ◌+◌, ◌-◌, Bool, ◌||◌, ◌&&◌, not, List, [], ◌∷◌, ◌++◌, ltb, leb, ◌==◌, if◌then◌else◌,
  length, drop,
}
use rescale_interlink.Transfer.Float.{Float}

-- speedSample
pub record SpeedSample : Type 0 where
  pub time : ℕ
  pub bytes : ℕ

-- speedWindow; `window_size` is a duration in nanoseconds.
pub record SpeedWindow (F : Type 0) : Type 0 where
  pub samples : List SpeedSample
  pub window_size : ℕ
  pub last_non_zero : F
  pub last_non_zero_time : ℕ

-- speedGracePeriod: 3 seconds.
abbrev pub speed_grace_period : ℕ
speed_grace_period = 3_000_000_000

-- The loop over all samples but the last: how many lead the list and are older than the cutoff.
pub first_keep : ℕ → List SpeedSample → ℕ
first_keep cutoff [] = 0
first_keep cutoff (s ∷ []) = 0
first_keep cutoff (s ∷ t ∷ rest) =
    let next = first_keep cutoff (t ∷ rest) in if ltb s.time cutoff then suc next else 0

-- The sample before the first one kept stays as a baseline.
pub trim : ℕ → List SpeedSample → List SpeedSample
trim cutoff samples =
    let k = first_keep cutoff samples in if ltb 0 k then drop (k - 1) samples else samples

module _ {F : Type 0} where
  -- Record
  pub add_sample : SpeedWindow F → ℕ → ℕ → SpeedWindow F
  add_sample w now cumulative_bytes =
      let samples = w.samples ++ (record { time = now; bytes = cumulative_bytes }) ∷ [] in
      record w { samples = trim (now - w.window_size) samples }

-- The last sample of a list that begins with `s`.
abbrev pub last_of : SpeedSample → List SpeedSample → SpeedSample
last_of s [] = s
last_of s (t ∷ rest) = last_of t rest

module _ {F : Type 0} ⦃fl : Float F⦄ where
  -- newSpeedWindow
  unfoldable pub new_speed_window : ℕ → SpeedWindow F
  new_speed_window window_size = record {
    samples = [];
    window_size = window_size;
    last_non_zero = fl.literal 0 1;
    last_non_zero_time = 0;
  }

  -- The computed rate is kept; a transient zero is covered by the last rate for the grace period.
  abbrev rate_of : SpeedWindow F → SpeedSample → SpeedSample → F × SpeedWindow F
  rate_of w first last =
      let zero_rate = fl.literal 0 1 in
      let span = fl.seconds last.time first.time in
      if fl.less span (fl.literal 1 2)
      then (zero_rate, w)
      else if ltb first.bytes last.bytes
      then (let computed = fl.divided (fl.of_int (last.bytes - first.bytes)) span in
          (computed, record w { last_non_zero = computed; last_non_zero_time = last.time }))
      else if fl.less zero_rate w.last_non_zero
          && (not (w.last_non_zero_time == 0)
              && leb (last.time - w.last_non_zero_time) speed_grace_period)
      then (w.last_non_zero, w)
      else (zero_rate, w)

  speed_of : SpeedWindow F → List SpeedSample → F × SpeedWindow F
  speed_of w [] = (fl.literal 0 1, w)
  speed_of w (s ∷ []) = (fl.literal 0 1, w)
  speed_of w (s ∷ t ∷ rest) = rate_of w s (last_of t rest)

  -- Speed
  unfoldable pub speed : SpeedWindow F → F × SpeedWindow F
  unfolding speed_of
  speed w = speed_of w w.samples
