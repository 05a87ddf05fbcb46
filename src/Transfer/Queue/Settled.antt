-- ===== src/Transfer/Queue/Settled.antt =====
-- internal/transfer/queue.go: what any history of calls keeps of the states of the tasks.
use rescale_interlink.Transfer.Queue.Track.{
  track_transfer, track_transfer_with_label, track_transfer_with_batch, set_cancel, clear_cancel,
}
use rescale_interlink.Transfer.Queue.Finish.{cancel_live, clear_completed}
use rescale_interlink.Transfer.Queue.Batch.{
  cleanup_batch, cleanup_batch_metrics, register_batch_cancel, mark_batch_scan_in_progress,
  update_batch_discovered, increment_batch_skipped, pre_register_batch,
}
use rescale_interlink.Transfer.Queue.{
  Queue, call_all, set_retry_executor, ensure_batch_ticker, write, store, publish_transfer_event,
}
use rescale_interlink.Transfer.Task.{TaskType, TaskState, terminal}
use rescale_interlink.Transfer.Queue.Calls.{
  step, run, Call, tracks, activates, starts, sets_cancel, clears_cancel, fails_if_not_terminal,
  updates_size, updates_progress, completes, fails, cancels, calls_cancel_functions, cancels_live,
  resets, clears_completed, sets_executor, cleans_batch, cleans_metrics, registers_batch_cancel,
  marks_scan, updates_discovered, increments_skipped, pre_registers, ticks,
}
use rescale_interlink.Transfer.Queue.Moves.{step-Moves, Moves}
use rescale_interlink.Common.{
  ℕ, String, ◌<◌, ◌≤◌, Bool, true, false, List, [], ◌∷◌, ◌≡◌, refl, arith, all, ◌∙◌, inl, inr, suc,
  if◌then◌else◌,
}
use rescale_interlink.Transfer.Queue.Shape.{publish_cancelled-SameTasks, batch_tick-SameTasks}
use rescale_interlink.Transfer.Queue.Frame.{
  activate-Frame, start_transfer-Frame, fail_if_not_terminal-Frame, update_size-Frame, fail-Frame,
  cancel-Frame, cancel_live-Frame, complete-Frame, update_progress-Frame, retry_reset-Frame,
}
use rescale_interlink.Transfer.Float.{Float}

-- Whether a call makes a task.
abbrev tracks_task : {F : Type 0} → Call F → Bool
tracks_task (tracks id name size task_type source dest label batch batch_label now) = true
tracks_task _ = false

-- The calls that leave a task alone that has completed, failed or been cancelled: all but Complete,
-- Fail and the reset of a retry.
abbrev pub settled : {F : Type 0} → Call F → Bool
settled (completes id now) = false
settled (fails id e now) = false
settled (resets p) = false
settled _ = true

module _ {F : Type 0} ⦃fl : Float F⦄ where
  settled-Moves :
      (c : Call F) (s t : TaskState) → settled c ≡ true → terminal s ≡ true → Moves c s t → t ≡ s
  settled-Moves c s t k h (inl e) = e
  settled-Moves (activates id now) s t k h (inr e) = ground arith
  settled-Moves (starts id) s t k h (inr e) = ground arith
  settled-Moves (fails_if_not_terminal id r now) s t k h (inr e) = ground arith
  settled-Moves (cancels id now) s t k h (inr e) = ground arith
  settled-Moves (cancels_live ps now) s t k h (inr e) = ground arith
  settled-Moves (completes id now) s t k h (inr e) = ground arith
  settled-Moves (fails id r now) s t k h (inr e) = ground arith
  settled-Moves (resets p) s t k h (inr e) = ground arith
  settled-Moves (tracks id name size task_type source dest label batch batch_label now) s t k h
        (inr e) =
      ground arith
  settled-Moves (sets_cancel id fn) s t k h (inr e) = ground arith
  settled-Moves (clears_cancel id) s t k h (inr e) = ground arith
  settled-Moves (updates_size id size) s t k h (inr e) = ground arith
  settled-Moves (updates_progress id progress now) s t k h (inr e) = ground arith
  settled-Moves (calls_cancel_functions fns) s t k h (inr e) = ground arith
  settled-Moves clears_completed s t k h (inr e) = ground arith
  settled-Moves (sets_executor executor) s t k h (inr e) = ground arith
  settled-Moves (cleans_batch id) s t k h (inr e) = ground arith
  settled-Moves (cleans_metrics id) s t k h (inr e) = ground arith
  settled-Moves (registers_batch_cancel id fn) s t k h (inr e) = ground arith
  settled-Moves (marks_scan id in_progress) s t k h (inr e) = ground arith
  settled-Moves (updates_discovered id files bytes) s t k h (inr e) = ground arith
  settled-Moves (increments_skipped id n) s t k h (inr e) = ground arith
  settled-Moves (pre_registers id label direction source_label now) s t k h (inr e) = ground arith
  settled-Moves (ticks unknown now) s t k h (inr e) = ground arith

  track_transfer_with_batch-fresh :
      (q : Queue F) (id name : String) (size : ℕ) (task_type : TaskType)
      (source dest label batch batch_label : String) (now : ℕ)
      → (track_transfer_with_batch q id name size task_type source dest label batch batch_label
          now).0.fresh
        ≡ suc q.fresh
  unfolding track_transfer_with_batch track_transfer_with_label track_transfer write store
      publish_transfer_event ensure_batch_ticker
  track_transfer_with_batch-fresh q id name size task_type source dest label batch batch_label now =
      ground arith

  step_fresh :
      (q : Queue F) (c : Call F)
      → (step q c).fresh ≡ (if tracks_task c then suc q.fresh else q.fresh)
  unfolding step set_cancel clear_cancel call_all set_retry_executor cleanup_batch
      cleanup_batch_metrics register_batch_cancel mark_batch_scan_in_progress
      update_batch_discovered increment_batch_skipped pre_register_batch ensure_batch_ticker
      clear_completed
  step_fresh q (tracks id name size task_type source dest label batch batch_label now) =
      track_transfer_with_batch-fresh q id name size task_type source dest label batch batch_label
        now
  step_fresh q (activates id now) = (activate-Frame q id now).lists.fresh
  step_fresh q (starts id) = (start_transfer-Frame q id).lists.fresh
  step_fresh q (sets_cancel id fn) = refl
  step_fresh q (clears_cancel id) = refl
  step_fresh q (fails_if_not_terminal id e now) =
      (fail_if_not_terminal-Frame q id e now).lists.fresh
  step_fresh q (updates_size id size) = (update_size-Frame q id size).lists.fresh
  step_fresh q (updates_progress id progress now) =
      (update_progress-Frame q id progress now).lists.fresh
  step_fresh q (completes id now) = (complete-Frame q id now).lists.fresh
  step_fresh q (fails id e now) = (fail-Frame q id e now).lists.fresh
  step_fresh q (cancels id now) = (cancel-Frame q id now).lists.fresh
  step_fresh q (calls_cancel_functions fns) = refl
  step_fresh q (cancels_live ps now) =
      let (q', done) = cancel_live q ps now in
      (publish_cancelled-SameTasks q' done).lists.fresh ∙ (cancel_live-Frame q ps now).lists.fresh
  step_fresh q (resets p) = (retry_reset-Frame q p).lists.fresh
  step_fresh q clears_completed = refl
  step_fresh q (sets_executor executor) = refl
  step_fresh q (cleans_batch id) = refl
  step_fresh q (cleans_metrics id) = refl
  step_fresh q (registers_batch_cancel id fn) = refl
  step_fresh q (marks_scan id in_progress) = refl
  step_fresh q (updates_discovered id files bytes) = refl
  step_fresh q (increments_skipped id n) = refl
  step_fresh q (pre_registers id label direction source_label now) = ground arith
  step_fresh q (ticks unknown now) = (batch_tick-SameTasks unknown q now).lists.fresh

  step_grows : (q : Queue F) (c : Call F) → q.fresh ≤ (step q c).fresh
  step_grows q c = ground (arith, step_fresh q c)

  -- A task of the queue that is completed, failed or cancelled keeps its state through any calls other
  -- than Complete, Fail and the reset of Retry.
  pub run-terminal :
      (q : Queue F) (cs : List (Call F)) (a : ℕ)
      → a < q.fresh
      → all settled cs ≡ true
      → terminal (q.heap a).state ≡ true
      → ((run q cs).heap a).state ≡ (q.heap a).state
  unfolding run
  run-terminal q [] a h k d = refl
  run-terminal q (c ∷ cs) a h k d =
      let same =
        settled-Moves c (q.heap a).state ((step q c).heap a).state (ground arith) d
          (step-Moves q c a h) in
      run-terminal (step q c) cs a (omega (arith, step_grows q c)) (ground arith) (rw same d) ∙ same
