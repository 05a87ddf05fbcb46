-- ===== src/Resources/Chunk/Bounds.antt =====
-- internal/resources/manager.go: the chunk that an uploader takes and the one that a downloader
-- infers.
use rescale_interlink.Common.{ℕ, ◌%◌, ◌≤◌, ◌≡◌, arith, if◌then◌else◌, ltb, subst, ◌∙◌}
use rescale_interlink.Resources.Limits.{mb, min_chunk_size, max_chunk_size}
use rescale_interlink.Resources.Chunk.{
  chunk_size_from_file_size, base_chunk, fit_chunk, chunk_cap, calculate_dynamic_chunk_size,
}
use rescale_interlink.Transfer.Float.{Float}

base_chunk_lem : (size : ℕ) → base_chunk size ≡ chunk_size_from_file_size size
unfolding base_chunk chunk_size_from_file_size
base_chunk_lem size = ground arith

base_chunk_bounds :
    (size : ℕ)
    → (min_chunk_size ≤ base_chunk size)
      × (base_chunk size ≤ max_chunk_size)
      × (base_chunk size % mb ≡ 0)
unfolding base_chunk
base_chunk_bounds size = ground arith

fit_chunk_bounds :
    (base cap : ℕ)
    → (min_chunk_size ≤ fit_chunk base cap)
      × (fit_chunk base cap ≤ max_chunk_size)
      × (fit_chunk base cap % mb ≡ 0)
unfolding fit_chunk
fit_chunk_bounds base cap = ground arith

fit_chunk_base :
    (base cap : ℕ)
    → min_chunk_size ≤ base
    → base ≤ max_chunk_size
    → base % mb ≡ 0
    → (fit_chunk base cap ≤ base) × (base ≤ cap → fit_chunk base cap ≡ base)
unfolding fit_chunk
fit_chunk_base base cap lo hi whole = ground arith

module _ (F : Type 0) ⦃fl : Float F⦄ where
  -- CalculateDynamicChunkSize returns a whole number of MB, thus of AES blocks, from MinChunkSize to
  -- MaxChunkSize, however the memory limit comes out; it is at most what ChunkSizeFromFileSize says
  -- for the file, and equal to that when the memory limit for the threads allows it.
  pub calculate_dynamic_chunk_size_lem :
      (memory size threads : ℕ)
      → (min_chunk_size ≤ calculate_dynamic_chunk_size F memory size threads)
        × (calculate_dynamic_chunk_size F memory size threads ≤ max_chunk_size)
        × (calculate_dynamic_chunk_size F memory size threads % mb ≡ 0)
        × (calculate_dynamic_chunk_size F memory size threads ≤ chunk_size_from_file_size size)
        × (1 ≤ threads
            → chunk_size_from_file_size size ≤ chunk_cap F memory threads
            → calculate_dynamic_chunk_size F memory size threads ≡ chunk_size_from_file_size size)
  unfolding calculate_dynamic_chunk_size
  calculate_dynamic_chunk_size_lem memory size threads =
      let (lo, hi, whole) = base_chunk_bounds size in
      let cap = chunk_cap F memory (if ltb threads 1 then 1 else threads) in
      let (a, b, c) = fit_chunk_bounds (base_chunk size) cap in
      let (d, same) = fit_chunk_base (base_chunk size) cap lo hi whole in
      (
        a,
        b,
        c,
        subst (λ n. fit_chunk (base_chunk size) cap ≤ n) (base_chunk_lem size) d,
        λ some_threads fits.
            let one : (if ltb threads 1 then 1 else threads) ≡ threads = ground arith in
            same (rw (base_chunk_lem size, one) fits) ∙ base_chunk_lem size,
      )
