-- ===== src/Transfer/Queue/Calls.antt =====
-- internal/transfer/queue.go: the calls of the queue's methods as one type, and a history of calls. A
-- method that releases the lock on the way is a call for each of its locked parts, so that other
-- calls can come between.
use rescale_interlink.Common.{ℕ, String, Bool, List, [], ◌∷◌, Option}
use rescale_interlink.Transfer.Float.{Float}
use rescale_interlink.Transfer.Task.{TaskType}
use rescale_interlink.Transfer.Queue.{Queue, call_all, set_retry_executor}
use rescale_interlink.Transfer.Queue.Track.{
  track_transfer_with_batch, activate, start_transfer, set_cancel, clear_cancel,
  fail_if_not_terminal, update_size, update_progress,
}
use rescale_interlink.Transfer.Queue.Finish.{
  complete, fail, cancel, cancel_live, publish_cancelled, retry_reset, clear_completed,
}
use rescale_interlink.Transfer.Queue.Batch.{
  cleanup_batch, cleanup_batch_metrics, register_batch_cancel, mark_batch_scan_in_progress,
  update_batch_discovered, increment_batch_skipped, pre_register_batch, batch_tick,
}

pub data Call (F : Type 0) : Type 0 where
  tracks : String → String → ℕ → TaskType → String → String → String → String → String → ℕ → Call F
  activates : String → ℕ → Call F
  starts : String → Call F
  sets_cancel : String → ℕ → Call F
  clears_cancel : String → Call F
  fails_if_not_terminal : String → Option String → ℕ → Call F
  updates_size : String → ℕ → Call F
  updates_progress : String → F → ℕ → Call F
  completes : String → ℕ → Call F
  fails : String → Option String → ℕ → Call F
  cancels : String → ℕ → Call F
  -- the two parts of CancelAll and CancelBatch, on the tasks that they collected
  calls_cancel_functions : List ℕ → Call F
  cancels_live : List ℕ → ℕ → Call F
  -- the part of Retry behind its checks
  resets : ℕ → Call F
  clears_completed : Call F
  sets_executor : Option ℕ → Call F
  cleans_batch cleans_metrics : String → Call F
  registers_batch_cancel : String → ℕ → Call F
  marks_scan : String → Bool → Call F
  updates_discovered : String → ℕ → ℕ → Call F
  increments_skipped : String → ℕ → Call F
  pre_registers : String → String → TaskType → String → ℕ → Call F
  ticks : F → ℕ → Call F

module _ {F : Type 0} ⦃fl : Float F⦄ where
  unfoldable pub step : Queue F → Call F → Queue F
  step q (tracks id name size task_type source dest label batch_id batch_label now) =
      (track_transfer_with_batch q id name size task_type source dest label batch_id batch_label
        now).0
  step q (activates id now) = (activate q id now).0
  step q (starts id) = start_transfer q id
  step q (sets_cancel id fn) = set_cancel q id fn
  step q (clears_cancel id) = clear_cancel q id
  step q (fails_if_not_terminal id e now) = (fail_if_not_terminal q id e now).0
  step q (updates_size id size) = update_size q id size
  step q (updates_progress id progress now) = update_progress q id progress now
  step q (completes id now) = complete q id now
  step q (fails id e now) = fail q id e now
  step q (cancels id now) = (cancel q id now).0
  step q (calls_cancel_functions fns) = call_all q fns
  step q (cancels_live ps now) = let (q', done) = cancel_live q ps now in publish_cancelled q' done
  step q (resets p) = retry_reset q p
  step q clears_completed = clear_completed q
  step q (sets_executor executor) = set_retry_executor q executor
  step q (cleans_batch id) = cleanup_batch q id
  step q (cleans_metrics id) = cleanup_batch_metrics q id
  step q (registers_batch_cancel id fn) = register_batch_cancel q id fn
  step q (marks_scan id in_progress) = mark_batch_scan_in_progress q id in_progress
  step q (updates_discovered id files bytes) = update_batch_discovered q id files bytes
  step q (increments_skipped id n) = increment_batch_skipped q id n
  step q (pre_registers id label direction source_label now) =
      pre_register_batch q id label direction source_label now
  step q (ticks unknown now) = batch_tick unknown q now

  unfoldable pub run : Queue F → List (Call F) → Queue F
  run q [] = q
  run q (c ∷ cs) = run (step q c) cs
