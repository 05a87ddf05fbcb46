-- ===== src/Transfer/BatchTests.antt =====
-- internal/transfer/batch.go and ComputeBatchConcurrency, at concrete inputs.
use native.Mathlib.Nat.{div-le_of_le-mul, mul_comm}
use rescale_interlink.Common.{
  ℕ, ◌+◌, ◌-◌, ◌*◌, ◌/◌, ◌≤◌, ◌≡◌, refl, ◌⊎◌, List, [], ◌∷◌, true, false, arith, String, replicate,
}
use rescale_interlink.Common.Int.{pos, negsuc}
use rescale_interlink.Transfer.Float.{Float}
use rescale_interlink.Transfer.Samples.{whole_numbers}
use rescale_interlink.Resources.Limits.{mb}
use rescale_interlink.Resources.Pool.{Manager, calculate_desired_threads}
use rescale_interlink.Resources.Pool.Concurrency.{median, tier_of, compute_batch_concurrency}
use rescale_interlink.Resources.Pool.Concurrency.Fits.{DividesDown, compute_batch_concurrency_lem}
use rescale_interlink.Transfer.Batch.{
  BatchConfig, Batch, spawned, compute_workers, receive, leave, execute, succeed, fail, report,
  Steps, start, later, finished,
}
use rescale_interlink.Transfer.Batch.Workers.{Ends, steps-spawned}
use rescale_interlink.Transfer.Batch.Results.{IsComplete, run_batch-IsComplete}
use rescale_interlink.Transfer.Batch.Scaling.{dispatcher, dispatch_items, new_dispatcher}
use rescale_interlink.Transfer.Batch.Scaling.Bounds.{IsScaled, dispatcher-IsScaled}

-- Whole numbers, with a fraction rounded up.
abbrev arithmetic : Float ℕ
arithmetic = record whole_numbers { literal = λ a b. (a + b - 1) / b }

arithmetic-DividesDown : DividesDown arithmetic
arithmetic-DividesDown memory n k hm hn hk h = div-le_of_le-mul k (omega (arith, h, mul_comm n k))

abbrev sample_manager : Manager
sample_manager = record {
  total_threads = 16;
  available_threads = pos 16;
  baseline_threads = 16;
  memory_limit = 64;
  auto_scale = true;
  aggressive_mode = false;
  aggressive_threshold = 0;
  allocations = [];
}

-- Three files of 600 MB, with 16 cores and 8 GB of memory.
compute_batch_concurrency_lem_example :
    let sizes = 600 * mb ∷ 600 * mb ∷ 600 * mb ∷ [] in
    let n = compute_batch_concurrency arithmetic 16 (8192 * mb) sample_manager sizes 20 in
    (1 ≤ n)
    × (n ≤ 20)
    × (n ≤ 3)
    × ((n ≡ 1)
        ⊎ (n * calculate_desired_threads 16 sample_manager (median sizes) (tier_of (median sizes))
            ≤ 16))
compute_batch_concurrency_lem_example =
    compute_batch_concurrency_lem arithmetic 16 (8192 * mb) sample_manager (600 * mb)
      (600 * mb ∷ 600 * mb ∷ []) 20 arithmetic-DividesDown (omega arith) (omega arith) (omega arith)
      (omega arith)

abbrev sequential : BatchConfig
sequential = record {
  max_workers = negsuc 0;
  resource_mgr = sample_manager;
  force_sequential = true;
}

abbrev adaptive : BatchConfig
adaptive = record { max_workers = pos 20; resource_mgr = sample_manager; force_sequential = false }

-- One worker that downloads one item and fails on the other.
abbrev items : List String
items = "a" ∷ "b" ∷ []

abbrev ended : Batch String ℕ
ended = record {
  work = [];
  workers = finished ∷ [];
  completed = 1;
  failed = 1;
  errs = 404 ∷ [];
  cancelled = false;
  executed = items;
  dropped = [];
}

one_run : Steps (spawned 1 items) 8 ended
unfolding spawned
one_run =
    later
      (later
        (later
          (later
            (later
              (later (later (later start (receive 0 refl refl)) (execute 0 refl refl))
                (succeed 0 refl))
              (receive 0 refl refl))
            (execute 0 refl refl))
          (fail 0 404 refl))
        (report 0 refl))
      (leave 0 refl refl)

steps-spawned_example : Ends 2 1 8 ended
steps-spawned_example = steps-spawned 1 items 8 ended one_run

run_batch-IsComplete_example : IsComplete items ended
unfolding compute_workers
run_batch-IsComplete_example =
    run_batch-IsComplete arithmetic 16 (8192 * mb) (λ item. 0) items sequential 8 ended one_run
      (refl, tt)

-- Nineteen small files.
abbrev small_files : List ℕ
small_files = replicate 19 mb

dispatcher-IsScaled_example :
    IsScaled adaptive
      (dispatch_items arithmetic 16 (8192 * mb) adaptive (new_dispatcher adaptive) small_files)
    × IsScaled adaptive (dispatcher arithmetic 16 (8192 * mb) adaptive small_files)
dispatcher-IsScaled_example = dispatcher-IsScaled arithmetic 16 (8192 * mb) adaptive small_files

-- Behind the loop the workers go from 5 to 16 at once.
more_than_twice : (dispatcher arithmetic 16 (8192 * mb) adaptive small_files).active_workers ≡ 16
unfolding dispatcher compute_batch_concurrency calculate_desired_threads
more_than_twice = refl
