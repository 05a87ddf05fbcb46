-- ===== src/Resources/Limits.antt =====
-- internal/constants/app.go: the limits of the thread pool and the sizes of chunks.
use rescale_interlink.Common.{ℕ, ◌*◌}

abbrev pub mb : ℕ
mb = 1024 * 1024

abbrev pub gb : ℕ
gb = 1024 * 1024 * 1024

-- ChunkSize, MinChunkSize and MaxChunkSize
abbrev pub chunk_size : ℕ
chunk_size = 32 * mb

abbrev pub min_chunk_size : ℕ
min_chunk_size = 16 * mb

abbrev pub max_chunk_size : ℕ
max_chunk_size = 64 * mb

-- AbsoluteMaxThreads, MaxBaselineThreads, MinThreadsPerFile and MaxThreadsPerFile
abbrev pub absolute_max_threads : ℕ
absolute_max_threads = 32

abbrev pub max_baseline_threads : ℕ
max_baseline_threads = 16

abbrev pub min_threads_per_file : ℕ
min_threads_per_file = 1

abbrev pub max_threads_per_file : ℕ
max_threads_per_file = 16

-- MemoryPerThreadMB
abbrev pub memory_per_thread_mb : ℕ
memory_per_thread_mb = 128

-- SmallFileThreshold, MediumFileThreshold and the large files
abbrev pub small_file_threshold : ℕ
small_file_threshold = 100 * mb

abbrev pub medium_file_threshold : ℕ
medium_file_threshold = 500 * mb

abbrev pub large_file_1gb : ℕ
large_file_1gb = 1 * gb

abbrev pub large_file_5gb : ℕ
large_file_5gb = 5 * gb

abbrev pub large_file_10gb : ℕ
large_file_10gb = 10 * gb

-- DefaultMaxConcurrent, MinMaxConcurrent and MaxMaxConcurrent
abbrev pub default_max_concurrent : ℕ
default_max_concurrent = 5

abbrev pub min_max_concurrent : ℕ
min_max_concurrent = 1

abbrev pub max_max_concurrent : ℕ
max_max_concurrent = 20

-- AdaptiveSmallFileConcurrency, AdaptiveMediumFileConcurrency and AdaptiveLargeFileConcurrency
abbrev pub adaptive_small_file_concurrency : ℕ
adaptive_small_file_concurrency = 20

abbrev pub adaptive_medium_file_concurrency : ℕ
adaptive_medium_file_concurrency = 10

abbrev pub adaptive_large_file_concurrency : ℕ
adaptive_large_file_concurrency = 5
