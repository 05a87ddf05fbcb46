-- ===== src/Transfer/Tests.antt =====
-- internal/transfer, at concrete inputs.
use rescale_interlink.Common.{
  ℕ, ◌≡◌, ◌≢◌, ◌↔◌, ◌++◌, refl, List, [], ◌∷◌, true, none, some, arith, inl, ◌+◌, ◌≤◌, false,
}
use rescale_interlink.Common.Map.{get}
use rescale_interlink.Transfer.Task.{upload, queued, failed, terminal, retryable, can_retry}
use rescale_interlink.Transfer.Queue.{Queue, new_queue}
use rescale_interlink.Transfer.Queue.Calls.{
  Call, tracks, activates, starts, completes, cancels, clears_completed, step, run,
}
use rescale_interlink.Transfer.Queue.Index.{IsIndexed}
use rescale_interlink.Transfer.Queue.History.{run-new_queue-IsIndexed}
use rescale_interlink.Transfer.Queue.Moves.{Moves, step-Moves}
use rescale_interlink.Transfer.Queue.Settled.{run-terminal}
use rescale_interlink.Transfer.Queue.Finish.{
  fail, cancel_all, relocked, retry, retry_check, retry_reset, cannot_be_retried,
}
use rescale_interlink.Transfer.Queue.CancelAll.{Drops, cancel_all_lem}
use rescale_interlink.Transfer.Pointers.{In}
use rescale_interlink.Transfer.Queue.Batch.{cancel_batch, scan_stopped, batch_relocked, in_batch}
use rescale_interlink.Transfer.Queue.CancelBatch.{cancel_batch_lem}
use rescale_interlink.Transfer.Queue.Retrying.{retry_lem, retry_twice}
use Prim.Native.Nat.{max}
use rescale_interlink.Common.Int.{pos}
use rescale_interlink.Resources.Pool.{Manager, get_max_for_file_size}
use rescale_interlink.Transfer.Handle.{Handle, try_acquire_more}
use rescale_interlink.Transfer.Handle.Holding.{IsHolding, try_acquire_more_lem}
use rescale_interlink.Transfer.Samples.{whole_numbers, sample_heap, sample_queue}

abbrev some_calls : List (Call ℕ)
some_calls =
    tracks "a" "mesh.dat" 100 upload "/data/mesh.dat" "folder" "PUR" "run" "Run" 1
    ∷ activates "a" 2
    ∷ starts "a"
    ∷ completes "a" 9
    ∷ clears_completed
    ∷ []

run-new_queue-IsIndexed_example :
    IsIndexed (run ⦃fl = whole_numbers⦄ (new_queue sample_heap true) some_calls)
unfolding new_queue get
run-new_queue-IsIndexed_example =
    run-new_queue-IsIndexed ⦃fl = whole_numbers⦄ sample_heap true some_calls
      (refl, (tt, (tt, (tt, (tt, tt)))))

step-Moves_example :
    Moves {F = ℕ}
      (completes "a" 9)
      (sample_queue.heap 0).state
      ((step ⦃fl = whole_numbers⦄ sample_queue (completes "a" 9)).heap 0).state
step-Moves_example = step-Moves ⦃fl = whole_numbers⦄ sample_queue (completes "a" 9) 0 (omega arith)

run-terminal_example :
    ((run ⦃fl = whole_numbers⦄ sample_queue (cancels "b" 5 ∷ activates "b" 6 ∷ [])).heap 1).state
    ≡ failed
run-terminal_example =
    run-terminal ⦃fl = whole_numbers⦄ sample_queue (cancels "b" 5 ∷ activates "b" 6 ∷ []) 1
      (omega arith) refl refl

-- CancelAll, while another call fails task "a" and before the lock is taken again.
cancel_all_lem_example :
    let now_failed : Queue ℕ → Queue ℕ = λ q. fail q "a" none 5 in
    (terminal ((cancel_all now_failed sample_queue 6).heap 0).state ≡ true)
    × Drops
        ((relocked now_failed sample_queue).heap 0).state
        ((cancel_all now_failed sample_queue 6).heap 0).state
cancel_all_lem_example = cancel_all_lem (λ q. fail q "a" none 5) sample_queue 6 0 (inl refl) refl

retry_lem_example :
    (((retry ⦃fl = whole_numbers⦄ sample_queue "b").1 ≡ none)
      ↔ ((retryable (sample_queue.heap 1).state ≡ true) × (sample_queue.retry_executor ≢ none)))
    × ((retry ⦃fl = whole_numbers⦄ sample_queue "b").1 ≡ none
        → (((retry ⦃fl = whole_numbers⦄ sample_queue "b").0.heap 1).state ≡ queued)
          × (((retry ⦃fl = whole_numbers⦄ sample_queue "b").0.heap 1).error ≡ none)
          × ((retry ⦃fl = whole_numbers⦄ sample_queue "b").0.retried
              ≡ sample_queue.retried ++ 1 ∷ [])
          × ((a : ℕ)
              → a ≢ 1
              → (retry ⦃fl = whole_numbers⦄ sample_queue "b").0.heap a ≡ sample_queue.heap a))
    × ((retry ⦃fl = whole_numbers⦄ sample_queue "b").1 ≢ none
        → (retry ⦃fl = whole_numbers⦄ sample_queue "b").0 ≡ sample_queue)
unfolding get
retry_lem_example = retry_lem ⦃fl = whole_numbers⦄ sample_queue "b" 1 refl

checked : retry_check sample_queue "b" ≡ inl (1, 3)
unfolding retry_check get can_retry
checked = refl

retry_twice_example :
    ((retry_reset ⦃fl = whole_numbers⦄ (retry_reset ⦃fl = whole_numbers⦄ sample_queue 1) 1).retried
      ≡ (sample_queue.retried ++ 1 ∷ []) ++ 1 ∷ [])
    × ((retry ⦃fl = whole_numbers⦄ (retry ⦃fl = whole_numbers⦄ sample_queue "b").0 "b").1
        ≡ some cannot_be_retried)
retry_twice_example = retry_twice ⦃fl = whole_numbers⦄ sample_queue "b" 1 3 checked

abbrev some_pool : Manager
some_pool = record {
  total_threads = 8;
  available_threads = pos 5;
  baseline_threads = 8;
  memory_limit = 8;
  auto_scale = true;
  aggressive_mode = false;
  aggressive_threshold = 0;
  allocations = ("transfer-1", 3) ∷ [];
}

abbrev some_handle : Handle
some_handle = record { id = "transfer-1"; file_size = 600_000_000; threads = 3; completed = false }

try_acquire_more_lem_example :
    IsHolding
      (try_acquire_more 8 some_pool some_handle (pos 4)).0.0
      (try_acquire_more 8 some_pool some_handle (pos 4)).0.1
    × ((try_acquire_more 8 some_pool some_handle (pos 4)).0.1.threads
        ≤ max some_handle.threads (get_max_for_file_size 8 some_pool some_handle.file_size))
    × ((try_acquire_more 8 some_pool some_handle (pos 4)).0.1.threads
        ≡ some_handle.threads + (try_acquire_more 8 some_pool some_handle (pos 4)).1)
unfolding get
try_acquire_more_lem_example =
    try_acquire_more_lem 8 some_pool some_handle (pos 4) (record { entry = refl })

-- CancelBatch, while another call fails task "a" before the lock is taken again.
cancel_batch_lem_example :
    let stopped = scan_stopped (λ q. q) sample_queue "run" in
    let after = cancel_batch (λ q. q) (λ q. fail q "a" none 5) sample_queue "run" 6 in
    (In 0 stopped.tasks
      → in_batch stopped "run" 0 ≡ true
      → (terminal (after.heap 0).state ≡ true)
        × Drops
            ((batch_relocked (λ q. fail q "a" none 5) stopped "run").heap 0).state
            (after.heap 0).state)
    × ((stopped.heap 0).batch_id ≢ "run"
        → after.heap 0 ≡ (batch_relocked (λ q. fail q "a" none 5) stopped "run").heap 0)
cancel_batch_lem_example = cancel_batch_lem (λ q. q) (λ q. fail q "a" none 5) sample_queue "run" 6 0
