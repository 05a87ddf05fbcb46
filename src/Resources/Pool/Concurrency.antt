-- ===== src/Resources/Pool/Concurrency.antt =====
-- internal/resources/manager.go: ComputeBatchConcurrency, how many transfers of a batch run at once.
-- `memory` is what getAvailableMemory returns.
pub mod Fits
use rescale_interlink.Common.{
  ℕ, ◌+◌, ◌*◌, ◌/◌, List, [], ◌∷◌, Option, none, some, ◌&&◌, ltb, leb, if◌then◌else◌, length,
  get_elem?,
}
use rescale_interlink.Transfer.Float.{Float}
use rescale_interlink.Resources.Limits.{
  min_max_concurrent, default_max_concurrent, adaptive_small_file_concurrency,
  adaptive_medium_file_concurrency, adaptive_large_file_concurrency, small_file_threshold,
  large_file_1gb, memory_per_thread_mb,
}
use rescale_interlink.Resources.Pool.{Manager, calculate_desired_threads}

-- sort.Slice by size
unfoldable pub insert_size : ℕ → List ℕ → List ℕ
insert_size size [] = size ∷ []
insert_size size (x ∷ xs) = if leb size x then size ∷ x ∷ xs else x ∷ insert_size size xs

unfoldable pub sort_sizes : List ℕ → List ℕ
unfolding insert_size
sort_sizes [] = []
sort_sizes (x ∷ xs) = insert_size x (sort_sizes xs)

-- `median`
unfoldable pub median : List ℕ → ℕ
unfolding sort_sizes
median sizes = elim (get_elem? (sort_sizes sizes) (length (sort_sizes sizes) / 2)) [
  | none ↦ 0
  | some size ↦ size
]

-- `tier` by the median.
unfoldable pub tier_of : ℕ → ℕ
tier_of size =
    if ltb size small_file_threshold
    then adaptive_small_file_concurrency
    else if ltb size large_file_1gb
    then adaptive_medium_file_concurrency
    else adaptive_large_file_concurrency

-- The tier that fits the thread pool.
unfoldable pub fit_threads : ℕ → ℕ → ℕ → ℕ
fit_threads tier desired total =
    if ltb total (tier * desired) && ltb 0 desired then total / desired else tier

abbrev pub thread_memory : ℕ → ℕ
thread_memory desired = desired * memory_per_thread_mb * 1024 * 1024

-- The tier that fits the memory, of which 0.75 is used.
unfoldable pub fit_memory : {F : Type 0} → Float F → ℕ → ℕ → ℕ → ℕ
fit_memory fl memory tier desired =
    let usable = fl.times (fl.of_int memory) (fl.literal 3 4) in
    if ltb (fl.to_int usable) (tier * thread_memory desired) && ltb 0 desired
    then fl.to_int (fl.divided usable (fl.of_int (thread_memory desired)))
    else tier

-- The caps at the end.
unfoldable pub cap_tier : ℕ → ℕ → ℕ → ℕ
cap_tier tier max_allowed files =
    let allowed = if ltb max_allowed tier then max_allowed else tier in
    let needed = if ltb files allowed then files else allowed in
    if ltb needed min_max_concurrent then min_max_concurrent else needed

-- ComputeBatchConcurrency
unfoldable pub compute_batch_concurrency : {F : Type 0} → Float F → ℕ → ℕ → Manager → List ℕ → ℕ → ℕ
unfolding median tier_of fit_threads fit_memory cap_tier
compute_batch_concurrency fl cores memory m [] max_allowed = default_max_concurrent
compute_batch_concurrency fl cores memory m (size ∷ sizes) max_allowed =
    let middle = median (size ∷ sizes) in
    let desired = calculate_desired_threads cores m middle (tier_of middle) in
    let tier = fit_threads (tier_of middle) desired m.total_threads in
    cap_tier (fit_memory fl memory tier desired) max_allowed (length (size ∷ sizes))
