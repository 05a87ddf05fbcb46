-- ===== src/Resources/Tests.antt =====
-- internal/resources/manager.go, at concrete inputs.
use rescale_interlink.Common.{ℕ, ◌+◌, ◌≤◌, ◌%◌, ◌≡◌, refl, List, [], ◌∷◌, true, false, length}
use rescale_interlink.Common.Int.{pos}
use rescale_interlink.Common.Map.{get, put, delete}
use rescale_interlink.Transfer.Samples.{whole_numbers}
use rescale_interlink.Resources.Pool.{allocate_for_transfer, grant, Config, new_manager}
use rescale_interlink.Resources.Pool.Balance.{
  pool_step, IsBalanced, PoolCall, allocates, releases, acquires, pool_run, held, AreNew,
  pool_run-IsBalanced,
}
use rescale_interlink.Resources.Limits.{mb, min_chunk_size, max_chunk_size}
use rescale_interlink.Resources.Chunk.{
  calculate_dynamic_chunk_size, chunk_size_from_file_size, chunk_cap,
}
use rescale_interlink.Resources.Chunk.Bounds.{calculate_dynamic_chunk_size_lem}

abbrev some_config : Config
some_config = record {
  max_threads = 2;
  auto_scale = true;
  aggressive_mode = false;
  aggressive_threshold = 0;
}

abbrev some_calls : List PoolCall
some_calls =
    allocates "a" 0 1
    ∷ allocates "b" 0 1
    ∷ allocates "c" 0 1
    ∷ acquires "a" (pos 4)
    ∷ releases "b"
    ∷ []

some_calls_new : AreNew 8 (new_manager 8 0 some_config) some_calls
unfolding get put delete new_manager pool_step allocate_for_transfer grant
some_calls_new = (refl, (refl, (refl, (tt, (tt, tt)))))

-- Three small files on a pool of two threads, of which one goes again.
pool_run-IsBalanced_example :
    IsBalanced (pool_run 8 (new_manager 8 0 some_config) some_calls)
    × (held (pool_run 8 (new_manager 8 0 some_config) some_calls).allocations
        ≤ (pool_run 8 (new_manager 8 0 some_config) some_calls).total_threads
          + length (pool_run 8 (new_manager 8 0 some_config) some_calls).allocations)
pool_run-IsBalanced_example = pool_run-IsBalanced 8 0 some_config some_calls some_calls_new

-- Six threads for a file of 600 MB, with 1 GB of memory.
calculate_dynamic_chunk_size_lem_example :
    let size = calculate_dynamic_chunk_size ℕ ⦃fl = whole_numbers⦄ 1_073_741_824 629_145_600 6 in
    (min_chunk_size ≤ size)
    × (size ≤ max_chunk_size)
    × (size % mb ≡ 0)
    × (size ≤ chunk_size_from_file_size 629_145_600)
    × (1 ≤ 6
        → chunk_size_from_file_size 629_145_600 ≤ chunk_cap ℕ ⦃fl = whole_numbers⦄ 1_073_741_824 6
        → size ≡ chunk_size_from_file_size 629_145_600)
calculate_dynamic_chunk_size_lem_example =
    calculate_dynamic_chunk_size_lem ℕ ⦃fl = whole_numbers⦄ 1_073_741_824 629_145_600 6
