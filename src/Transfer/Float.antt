-- ===== src/Transfer/Float.antt =====
-- Go's float64, whose arithmetic is the processor's: a type and its operations, on which the code's
-- decisions about progress and speed rest. Instants are nanoseconds, and 0 is the zero `time.Time`.
use rescale_interlink.Common.{ℕ, Bool}

pub record Float (F : Type 0) : Type 0 where
  -- The literal a / b.
  pub literal : ℕ → ℕ → F
  -- float64(n) of an int64 that is not negative.
  pub of_int : ℕ → F
  -- int64(x), with 0 for all that is below 1.
  pub to_int : F → ℕ
  pub plus : F → F → F
  pub minus : F → F → F
  pub times : F → F → F
  pub divided : F → F → F
  pub less : F → F → Bool
  pub less_eq : F → F → Bool
  pub same : F → F → Bool
  -- now.Sub(then).Seconds()
  pub seconds : ℕ → ℕ → F
