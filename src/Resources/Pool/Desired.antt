-- ===== src/Resources/Pool/Desired.antt =====
-- internal/resources/manager.go: the bounds of calculateDesiredThreads.
use native.Mathlib.Nat.{div-le_self}
use rescale_interlink.Common.{ℕ, ◌≤◌, ◌≡◌, true, arith}
use rescale_interlink.Resources.Limits.{max_threads_per_file, min_threads_per_file}
use rescale_interlink.Resources.Pool.{
  pool_share, auto_desired, cap_desired, Manager, calculate_desired_threads,
}

pool_share_bounds :
    (m : Manager) (files : ℕ)
    → 1 ≤ m.total_threads
    → (1 ≤ pool_share m files) × (pool_share m files ≤ m.total_threads)
unfolding pool_share
pool_share_bounds m files h = ground (arith, div-le_self m.total_threads files)

auto_desired_positive : (m : Manager) (size : ℕ) → 1 ≤ auto_desired m size
unfolding auto_desired
auto_desired_positive m size = ground arith

cap_desired_bounds :
    (cores share desired : ℕ)
    → 1 ≤ cores
    → 1 ≤ share
    → 1 ≤ desired
    → (1 ≤ cap_desired cores share desired)
      × (cap_desired cores share desired ≤ 16)
      × (cap_desired cores share desired ≤ cores)
      × (cap_desired cores share desired ≤ share)
unfolding cap_desired
cap_desired_bounds cores share desired hc hs hd = ground arith

-- With a core and a thread in the pool, calculateDesiredThreads is from MinThreadsPerFile to
-- MaxThreadsPerFile, and under auto-scaling at most the number of cores and of threads in the pool.
pub calculate_desired_threads_bounds :
    (cores : ℕ) (m : Manager) (size files : ℕ)
    → 1 ≤ cores
    → 1 ≤ m.total_threads
    → (min_threads_per_file ≤ calculate_desired_threads cores m size files)
      × (calculate_desired_threads cores m size files ≤ max_threads_per_file)
      × (m.auto_scale ≡ true
          → (calculate_desired_threads cores m size files ≤ cores)
            × (calculate_desired_threads cores m size files ≤ m.total_threads))
unfolding calculate_desired_threads
calculate_desired_threads_bounds cores m size files hc ht =
    let (lo, hi) = pool_share_bounds m files ht in
    let caps =
      cap_desired_bounds cores (pool_share m files) (auto_desired m size) hc lo
        (auto_desired_positive m size) in
    ground (arith, caps, hi)
