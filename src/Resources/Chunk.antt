-- ===== src/Resources/Chunk.antt =====
-- internal/resources/manager.go: the sizes of chunks. `memory` is what getAvailableMemory returns.
pub mod Bounds
use rescale_interlink.Common.{ℕ, ◌*◌, ◌/◌, ltb, if◌then◌else◌}
use rescale_interlink.Resources.Limits.{
  mb, chunk_size, min_chunk_size, max_chunk_size, small_file_threshold, medium_file_threshold,
  large_file_1gb, large_file_5gb,
}
use rescale_interlink.Transfer.Float.{Float}

-- ChunkSizeFromFileSize
pub chunk_size_from_file_size : ℕ → ℕ
chunk_size_from_file_size plaintext_size =
    if ltb plaintext_size small_file_threshold
    then min_chunk_size
    else if ltb plaintext_size large_file_1gb
    then chunk_size
    else if ltb plaintext_size large_file_5gb
    then 48 * mb
    else max_chunk_size

-- The base chunk size of CalculateDynamicChunkSize, its step 1.
pub base_chunk : ℕ → ℕ
base_chunk file_size =
    if ltb file_size small_file_threshold
    then min_chunk_size
    else if ltb file_size medium_file_threshold
    then chunk_size
    else if ltb file_size large_file_1gb
    then chunk_size
    else if ltb file_size large_file_5gb
    then 48 * mb
    else max_chunk_size

-- CalculateDynamicChunkSize, its steps 2 to 4, given the cap that step 2 computes.
pub fit_chunk : ℕ → ℕ → ℕ
fit_chunk base max_from_memory =
    let capped = if ltb max_from_memory base then max_from_memory else base in
    let low = if ltb capped min_chunk_size then min_chunk_size else capped in
    let high = if ltb max_chunk_size low then max_chunk_size else low in
    let rounded = high / mb * mb in if ltb rounded min_chunk_size then min_chunk_size else rounded

module _ (F : Type 0) ⦃fl : Float F⦄ where
  -- `maxFromMemory`
  unfoldable pub chunk_cap : ℕ → ℕ → ℕ
  chunk_cap memory threads =
      fl.to_int
        (fl.divided (fl.times (fl.of_int memory) (fl.literal 3 4)) (fl.of_int (threads * 2)))

  -- CalculateDynamicChunkSize; a number of threads below 1 counts as 1.
  pub calculate_dynamic_chunk_size : ℕ → ℕ → ℕ → ℕ
  calculate_dynamic_chunk_size memory file_size num_threads =
      let threads = if ltb num_threads 1 then 1 else num_threads in
      fit_chunk (base_chunk file_size) (chunk_cap memory threads)
