-- ===== src/Resources/Pool/Concurrency/Fits.antt =====
-- internal/resources/manager.go: ComputeBatchConcurrency keeps within its bounds and the thread pool.
use native.Mathlib.Nat.{div-mul-le_self, div-le_of_le-mul, le_trans, mul-le-mul_right}
use Prim.Native.Nat.{◌^◌}
use rescale_interlink.Common.{
  ◌&&◌, [], ℕ, ◌*◌, ◌≤◌, ◌<◌, List, ◌∷◌, ◌≡◌, true, length, arith, ltb, ◌⊎◌, inl, inr, Bool-cases,
}
use rescale_interlink.Transfer.Float.{Float}
use rescale_interlink.Resources.Pool.{Manager, calculate_desired_threads}
use rescale_interlink.Resources.Pool.Desired.{calculate_desired_threads_bounds}
use rescale_interlink.Resources.Pool.Concurrency.{
  median, tier_of, fit_threads, fit_memory, thread_memory, cap_tier, compute_batch_concurrency,
}

-- Division of float64, for the usable part of a memory of 63 bits. If its whole part is below n * k then
-- it is below n * k itself, and its quotient by k is below n. For k and n up to 2 ^ 53, which float64
-- holds exactly, the nearest float64 to that quotient is n at most.
abbrev pub DividesDown : {F : Type 0} → Float F → Type 0
DividesDown {F} fl =
    (memory n k : ℕ)
    → memory < 2 ^ 63
    → n ≤ 2 ^ 53
    → k ≤ 2 ^ 53
    → let usable = fl.times (fl.of_int memory) (fl.literal 3 4) in
      fl.to_int usable < n * k → fl.to_int (fl.divided usable (fl.of_int k)) ≤ n

fit_threads_fits :
    (tier desired total : ℕ) → 1 ≤ desired → fit_threads tier desired total * desired ≤ total
unfolding fit_threads
fit_threads_fits tier desired total h = elim (Bool-cases (ltb total (tier * desired))) [
  | inl e ↦
      let some_thread : ltb 0 desired ≡ true = ground arith in
      rw (fit_threads, e, some_thread) (div-mul-le_self total desired)
  | inr e ↦ rw (fit_threads, e) (ground (arith, e))
]

fit_memory_below :
    {F : Type 0} (fl : Float F) (memory tier desired : ℕ)
    → DividesDown fl
    → memory < 2 ^ 63
    → tier ≤ 2 ^ 53
    → desired ≤ 16
    → fit_memory fl memory tier desired ≤ tier
unfolding fit_memory
fit_memory_below fl memory tier desired down hm ht hd =
    ground (arith, down memory tier (thread_memory desired) hm ht (omega arith))

fit_threads_below : (tier desired total : ℕ) → fit_threads tier desired total ≤ tier
unfolding fit_threads
fit_threads_below tier desired total =
    elim (Bool-cases (ltb total (tier * desired) && ltb 0 desired)) [
      | inl e ↦ rw (fit_threads, e) (div-le_of_le-mul desired (ground (arith, e)))
      | inr e ↦ rw (fit_threads, e) (omega arith)
    ]

tier_of_below : (size : ℕ) → tier_of size ≤ 20
unfolding tier_of
tier_of_below size = ground arith

cap_tier_bounds :
    (tier max_allowed files : ℕ)
    → 1 ≤ max_allowed
    → 1 ≤ files
    → (1 ≤ cap_tier tier max_allowed files)
      × (cap_tier tier max_allowed files ≤ max_allowed)
      × (cap_tier tier max_allowed files ≤ files)
      × ((cap_tier tier max_allowed files ≡ 1) ⊎ (cap_tier tier max_allowed files ≤ tier))
unfolding cap_tier
cap_tier_bounds tier max_allowed files h k = ground arith

capped_fits :
    {F : Type 0} (fl : Float F) (memory tier desired total max_allowed files : ℕ)
    → DividesDown fl
    → memory < 2 ^ 63
    → tier ≤ 20
    → desired ≤ 16
    → 1 ≤ desired
    → 1 ≤ max_allowed
    → 1 ≤ files
    → let n =
        cap_tier
          (fit_memory fl memory (fit_threads tier desired total) desired)
          max_allowed
          files in
      (1 ≤ n) × (n ≤ max_allowed) × (n ≤ files) × ((n ≡ 1) ⊎ (n * desired ≤ total))
capped_fits fl memory tier desired total max_allowed files down hm ht hb hd ha hf =
    let fitted = fit_threads tier desired total in
    let below =
      fit_memory_below fl memory fitted desired down hm
        (omega (arith, fit_threads_below tier desired total, ht)) hb in
    let fits = fit_threads_fits tier desired total hd in
    let (low, high, needed, either) =
      cap_tier_bounds (fit_memory fl memory fitted desired) max_allowed files ha hf in
    (
      low,
      high,
      needed,
      elim either [
        | inl one ↦ inl one
        | inr less ↦ inr (le_trans (mul-le-mul_right desired (le_trans less below)) fits)
      ],
    )

-- For a batch of some files and a cap that is positive, ComputeBatchConcurrency is from 1 to the cap
-- and at most the number of files; and it is 1, or that many files with the threads that the median
-- size asks for fit the thread pool. A core, a thread in the pool and a memory below 2 ^ 63 are
-- supposed, and that the quotient of float64 by a divisor up to 2 ^ 53 is not rounded past a whole number
-- up to 2 ^ 53.
pub compute_batch_concurrency_lem :
    {F : Type 0} (fl : Float F) (cores memory : ℕ) (m : Manager) (size : ℕ) (sizes : List ℕ)
    (max_allowed : ℕ)
    → DividesDown fl
    → memory < 2 ^ 63
    → 1 ≤ cores
    → 1 ≤ m.total_threads
    → 1 ≤ max_allowed
    → let n = compute_batch_concurrency fl cores memory m (size ∷ sizes) max_allowed in
      let middle = median (size ∷ sizes) in
      (1 ≤ n)
      × (n ≤ max_allowed)
      × (n ≤ length (size ∷ sizes))
      × ((n ≡ 1)
          ⊎ (n * calculate_desired_threads cores m middle (tier_of middle) ≤ m.total_threads))
unfolding compute_batch_concurrency
compute_batch_concurrency_lem fl cores memory m size sizes max_allowed down hm hc ht ha =
    let middle = median (size ∷ sizes) in
    let some_thread = calculate_desired_threads_bounds cores m middle (tier_of middle) hc ht in
    capped_fits fl memory (tier_of middle)
      (calculate_desired_threads cores m middle (tier_of middle)) m.total_threads max_allowed
      (length (size ∷ sizes)) down hm (tier_of_below middle) some_thread.1 some_thread.0 ha
      (omega arith)

-- The bounds alone, for any arithmetic.
pub compute_batch_concurrency_bounds :
    {F : Type 0} (fl : Float F) (cores memory : ℕ) (m : Manager) (sizes : List ℕ) (max_allowed : ℕ)
    → 1 ≤ length sizes
    → 1 ≤ max_allowed
    → (1 ≤ compute_batch_concurrency fl cores memory m sizes max_allowed)
      × (compute_batch_concurrency fl cores memory m sizes max_allowed ≤ max_allowed)
unfolding compute_batch_concurrency
compute_batch_concurrency_bounds fl cores memory m [] max_allowed hs ha = absurd (omega arith)
compute_batch_concurrency_bounds fl cores memory m (size ∷ sizes) max_allowed hs ha =
    let (low, high, _, _) = cap_tier_bounds _ max_allowed (length (size ∷ sizes)) ha hs in
    (low, high)
