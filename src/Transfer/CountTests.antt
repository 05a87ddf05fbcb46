-- ===== src/Transfer/CountTests.antt =====
-- internal/transfer, its counts and pages, at concrete inputs.
use Prim.Native.Nat.{max, ◌^◌}
use rescale_interlink.Common.{
  ℕ, ◌+◌, ◌-◌, ◌≡◌, ◌++◌, refl, [], ◌∷◌, none, arith, length, if◌then◌else◌,
}
use rescale_interlink.Common.Map.{get}
use rescale_interlink.Common.Int.{pos, ◌+ℤ◌}
use rescale_interlink.Transfer.Task.{TaskState, failed, terminal}
use rescale_interlink.Transfer.Queue.Finish.{complete, retry_reset, clear_completed}
use rescale_interlink.Transfer.Queue.Report.{
  get_stats, total, get_batch_tasks, matching_tasks, listed_tasks, page, passes,
}
use rescale_interlink.Transfer.Queue.Stats.{
  count_of, number_in, get_stats_lem, get_stats-clear_completed,
}
use rescale_interlink.Transfer.Queue.Accounting.{
  batch_bytes, counted, complete_bytes, update_progress_bytes, retry_reset-complete_bytes,
}
use rescale_interlink.Transfer.Queue.BatchReport.{get_all_batch_stats}
use rescale_interlink.Transfer.Queue.BatchTotals.{
  reported, tasks_in, bytes_in, get_all_batch_stats_totals,
}
use rescale_interlink.Transfer.Queue.Track.{update_progress}
use rescale_interlink.Transfer.SpeedWindow.{SpeedWindow, add_sample}
use rescale_interlink.Transfer.SpeedWindow.Trim.{newest, older, not_older, add_sample_window}
use rescale_interlink.Transfer.Samples.{whole_numbers, sample_queue}

get_stats_lem_example :
    ((s : TaskState)
      → count_of s (get_stats sample_queue) ≡ number_in sample_queue.heap s sample_queue.tasks)
    × (total (get_stats sample_queue) ≡ length sample_queue.tasks)
get_stats_lem_example = get_stats_lem sample_queue

get_stats-clear_completed_example :
    count_of failed (get_stats (clear_completed sample_queue))
    ≡ (if terminal failed then 0 else count_of failed (get_stats sample_queue))
get_stats-clear_completed_example = get_stats-clear_completed sample_queue failed

complete_bytes_example :
    (counted (complete ⦃fl = whole_numbers⦄ sample_queue "a" 9) 0
      ≡ max (sample_queue.heap 0).size (counted sample_queue 0))
    × (batch_bytes (complete ⦃fl = whole_numbers⦄ sample_queue "a" 9) (sample_queue.heap 0).batch_id
          + counted sample_queue 0
        ≡ batch_bytes sample_queue (sample_queue.heap 0).batch_id
          + max (sample_queue.heap 0).size (counted sample_queue 0))
unfolding get
complete_bytes_example =
    complete_bytes ⦃fl = whole_numbers⦄ sample_queue "a" 0 9 refl (λ e. cc) (omega arith)

update_progress_bytes_example :
    let q = update_progress ⦃fl = whole_numbers⦄ sample_queue "a" 1 9 in
    (counted q 0
      ≡ max
          (whole_numbers.to_int
            (whole_numbers.times 1 (whole_numbers.of_int (sample_queue.heap 0).size)))
          (counted sample_queue 0))
    × (batch_bytes q (sample_queue.heap 0).batch_id + counted sample_queue 0
        ≡ batch_bytes sample_queue (sample_queue.heap 0).batch_id + counted q 0)
unfolding get
update_progress_bytes_example =
    update_progress_bytes ⦃fl = whole_numbers⦄ sample_queue "a" 0 1 9 refl (λ e. cc) (omega arith)

-- Task "b" has counted its 100 bytes before it fails, and the batch counts them again.
retry_reset-complete_bytes_example :
    batch_bytes
      (complete ⦃fl = whole_numbers⦄ (retry_reset ⦃fl = whole_numbers⦄ sample_queue 1) "b" 9)
      (sample_queue.heap 1).batch_id
    ≡ batch_bytes sample_queue (sample_queue.heap 1).batch_id + (sample_queue.heap 1).size
unfolding get
retry_reset-complete_bytes_example =
    retry_reset-complete_bytes ⦃fl = whole_numbers⦄ sample_queue "b" 1 9 refl (λ e. cc)
      (omega arith)

wrapped_page : get_batch_tasks sample_queue "run" (pos 1) (pos (2 ^ 63 - 1)) "" ≡ none
unfolding get_batch_tasks matching_tasks listed_tasks page passes ◌+ℤ◌
wrapped_page = refl

abbrev some_window : SpeedWindow ℕ
some_window = record {
  samples =
      (record { time = 1; bytes = 0 })
      ∷ (record { time = 4; bytes = 10 })
      ∷ (record { time = 8; bytes = 30 })
      ∷ [];
  window_size = 3;
  last_non_zero = 0;
  last_non_zero_time = 0;
}

add_sample_window_example :
    (add_sample some_window 10 50).samples
    ≡ newest (older (10 - 3) (some_window.samples ++ (record { time = 10; bytes = 50 }) ∷ []))
      ++ not_older (10 - 3) (some_window.samples ++ (record { time = 10; bytes = 50 }) ∷ [])
add_sample_window_example =
    add_sample_window some_window 10 50 (omega arith, (omega arith, (omega arith, tt)))

get_all_batch_stats_totals_example :
    ((reported "run" (get_all_batch_stats ⦃fl = whole_numbers⦄ sample_queue).1).0
      ≡ tasks_in "run" (listed_tasks sample_queue))
    × ((reported "run" (get_all_batch_stats ⦃fl = whole_numbers⦄ sample_queue).1).1
        ≡ bytes_in "run" (listed_tasks sample_queue))
unfolding listed_tasks
get_all_batch_stats_totals_example =
    get_all_batch_stats_totals ⦃fl = whole_numbers⦄ sample_queue "run" (λ e. cc) (omega arith)
