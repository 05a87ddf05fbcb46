-- ===== src/Resources/Pool.antt =====
-- internal/resources/manager.go: the pool of threads. A method holds the lock from end to end, so it
-- is one step. `cores` and `memory` are what runtime.NumCPU and getAvailableMemory return.
pub mod Balance
pub mod Concurrency
pub mod Desired
use rescale_interlink.Common.{
  ℕ, ◌+◌, ◌-◌, ◌*◌, ◌/◌, String, Bool, true, not, ◌&&◌, Option, none, some, ltb, leb, ◌==◌,
  if◌then◌else◌, length, [],
}
use rescale_interlink.Common.Int.{ℤ, pos, ◌+ℤ◌, ◌-ℤ◌, ltb_ℤ, pos_part}
use rescale_interlink.Common.Map.{Map, get, put, delete}
use rescale_interlink.Resources.Limits.{
  absolute_max_threads, max_baseline_threads, min_threads_per_file, max_threads_per_file,
  memory_per_thread_mb, small_file_threshold, medium_file_threshold, large_file_1gb, large_file_5gb,
  large_file_10gb,
}

-- Manager. The available threads can be fewer than none: every transfer gets a thread at least.
pub record Manager : Type 0 where
  pub total_threads : ℕ
  pub available_threads : ℤ
  pub baseline_threads : ℕ
  pub memory_limit : ℕ
  pub auto_scale : Bool
  pub aggressive_mode : Bool
  pub aggressive_threshold : ℕ
  pub allocations : Map ℕ

-- Config
pub record Config : Type 0 where
  pub max_threads : ℕ
  pub auto_scale : Bool
  pub aggressive_mode : Bool
  pub aggressive_threshold : ℕ

-- The bounds on a number of threads in NewManager.
abbrev clamp_threads : ℕ → ℕ
clamp_threads n =
    let high = if ltb absolute_max_threads n then absolute_max_threads else n in
    if ltb high min_threads_per_file then min_threads_per_file else high

-- NewManager
unfoldable pub new_manager : ℕ → ℕ → Config → Manager
new_manager cores memory config =
    let baseline =
      if ltb max_baseline_threads (cores * 2) then max_baseline_threads else cores * 2 in
    let memory_threads = memory / (memory_per_thread_mb * 1024 * 1024) in
    let detected =
      clamp_threads (if ltb memory_threads baseline then memory_threads else baseline) in
    let total = if ltb 0 config.max_threads then clamp_threads config.max_threads else detected in
    record {
      total_threads = total;
      available_threads = pos total;
      baseline_threads = baseline;
      memory_limit = memory_threads;
      auto_scale = config.auto_scale;
      aggressive_mode =
          if not config.aggressive_mode && config.aggressive_threshold == 0
          then true
          else config.aggressive_mode;
      aggressive_threshold =
          if config.aggressive_threshold == 0
          then small_file_threshold
          else config.aggressive_threshold;
      allocations = [];
    }

-- `poolShare`
pub pool_share : Manager → ℕ → ℕ
pool_share m total_files =
    if ltb 1 total_files
    then (let share = m.total_threads / total_files in
        if ltb share min_threads_per_file then min_threads_per_file else share)
    else m.total_threads

-- `desired` by the size of the file.
abbrev desired_for_size : ℕ → ℕ
desired_for_size size =
    if leb medium_file_threshold size && ltb size large_file_1gb
    then 4
    else if leb large_file_1gb size && ltb size large_file_5gb
    then 8
    else if leb large_file_5gb size && ltb size large_file_10gb
    then 12
    else if leb large_file_10gb size
    then 16
    else min_threads_per_file

-- `desired` in aggressive mode.
abbrev aggressive_desired : ℕ → ℕ → ℕ
aggressive_desired size desired =
    if leb large_file_10gb size
    then desired * 2
    else if leb large_file_5gb size
    then desired * 7 / 4
    else if leb large_file_1gb size
    then desired * 3 / 2
    else desired

-- `desired` under auto-scaling, before the caps.
pub auto_desired : Manager → ℕ → ℕ
auto_desired m size =
    if m.aggressive_mode && leb m.aggressive_threshold size
    then aggressive_desired size (desired_for_size size)
    else desired_for_size size

-- The caps on it.
pub cap_desired : ℕ → ℕ → ℕ → ℕ
cap_desired cores share desired =
    let shared = if ltb share desired then share else desired in
    let limited = if ltb max_threads_per_file shared then max_threads_per_file else shared in
    if ltb cores limited then cores else limited

-- calculateDesiredThreads
unfoldable pub calculate_desired_threads : ℕ → Manager → ℕ → ℕ → ℕ
calculate_desired_threads cores m size total_files =
    if ltb size small_file_threshold
    then min_threads_per_file
    else if not m.auto_scale
    then (if ltb size medium_file_threshold then 1 else if ltb size large_file_1gb then 2 else 3)
    else cap_desired cores (pool_share m total_files) (auto_desired m size)

-- `allocated`. A negative number of available threads is below 1 as its positive part is.
abbrev pub granted : Manager → ℕ → ℕ
granted m desired =
    let allocated =
      if ltb_ℤ m.available_threads (pos desired) then pos_part m.available_threads else desired in
    if ltb allocated min_threads_per_file then min_threads_per_file else allocated

-- AllocateForTransfer, behind the computation of `desired`.
unfoldable pub grant : Manager → String → ℕ → Manager × ℕ
grant m id desired = (
  record m {
    available_threads = m.available_threads -ℤ pos (granted m desired);
    allocations = put m.allocations id (granted m desired);
  },
  granted m desired,
)

-- AllocateForTransfer
unfoldable pub allocate_for_transfer : ℕ → Manager → String → ℕ → ℕ → Manager × ℕ
allocate_for_transfer cores m id size total_files =
    grant m id (calculate_desired_threads cores m size total_files)

-- ReleaseTransfer
unfoldable pub release_transfer : Manager → String → Manager
release_transfer m id = elim (get m.allocations id) [
  | none ↦ m
  | some allocated ↦ record m {
    available_threads = m.available_threads +ℤ pos allocated;
    allocations = delete m.allocations id;
  }
]

-- `count`, once it is capped by what is available.
abbrev pub obtainable : Manager → ℤ → ℤ
obtainable m count = if ltb_ℤ m.available_threads count then m.available_threads else count

-- TryAcquire
unfoldable pub try_acquire : Manager → String → ℤ → Manager × ℕ
try_acquire m id count = elim (get m.allocations id) [
  | none ↦ (m, 0)
  | some allocated ↦
      if ltb_ℤ (pos 0) (obtainable m count)
      then (
        record m {
          available_threads = m.available_threads -ℤ obtainable m count;
          allocations = put m.allocations id (allocated + pos_part (obtainable m count));
        },
        pos_part (obtainable m count),
      )
      else (m, 0)
]

-- GetMaxForFileSize
unfoldable pub get_max_for_file_size : ℕ → Manager → ℕ → ℕ
get_max_for_file_size cores m size = calculate_desired_threads cores m size 1

-- ManagerStats
pub record ManagerStats : Type 0 where
  pub total_threads : ℕ
  pub available_threads : ℤ
  pub active_threads : ℤ
  pub active_transfers : ℕ
  pub baseline_threads : ℕ
  pub memory_limit : ℕ
  pub auto_scale_enabled : Bool

-- GetStats
unfoldable pub get_stats : Manager → ManagerStats
get_stats m = record {
  total_threads = m.total_threads;
  available_threads = m.available_threads;
  active_threads = pos m.total_threads -ℤ m.available_threads;
  active_transfers = length m.allocations;
  baseline_threads = m.baseline_threads;
  memory_limit = m.memory_limit;
  auto_scale_enabled = m.auto_scale;
}
