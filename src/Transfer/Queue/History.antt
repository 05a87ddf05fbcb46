-- ===== src/Transfer/Queue/History.antt =====
-- internal/transfer/queue.go: the index invariant along any history of calls, in any order.
use rescale_interlink.Common.{ℕ, Bool, List, [], ◌∷◌, none, ◌≡◌, arith}
use rescale_interlink.Common.Map.{get}
use rescale_interlink.Transfer.Float.{Float}
use rescale_interlink.Transfer.Task.{TransferTask}
use rescale_interlink.Transfer.Queue.{
  Queue, new_queue, call_all, set_retry_executor, ensure_batch_ticker,
}
use rescale_interlink.Transfer.Queue.Track.{set_cancel, clear_cancel}
use rescale_interlink.Transfer.Queue.Batch.{
  cleanup_batch, cleanup_batch_metrics, register_batch_cancel, mark_batch_scan_in_progress,
  update_batch_discovered, increment_batch_skipped, pre_register_batch,
}
use rescale_interlink.Transfer.Queue.Finish.{cancel_live}
use rescale_interlink.Transfer.Queue.Shape.{publish_cancelled-SameTasks, batch_tick-SameTasks}
use rescale_interlink.Transfer.Queue.Frame.{
  Frame-trans, SameTasks-Frame, activate-Frame, start_transfer-Frame, fail_if_not_terminal-Frame,
  update_size-Frame, fail-Frame, cancel-Frame, cancel_live-Frame, complete-Frame,
  update_progress-Frame, retry_reset-Frame,
}
use rescale_interlink.Transfer.Queue.Index.{
  IsIndexed, Frame-IsIndexed, new_queue-IsIndexed, clear_completed-IsIndexed,
  track_transfer_with_batch-IsIndexed,
}
use rescale_interlink.Transfer.Queue.Calls.{
  Call, tracks, activates, starts, sets_cancel, clears_cancel, fails_if_not_terminal, updates_size,
  updates_progress, completes, fails, cancels, calls_cancel_functions, cancels_live, resets,
  clears_completed, sets_executor, cleans_batch, cleans_metrics, registers_batch_cancel, marks_scan,
  updates_discovered, increments_skipped, pre_registers, ticks, step, run,
}

module _ {F : Type 0} ⦃fl : Float F⦄ where
  -- A call that makes a task has an identifier that the queue does not know.
  abbrev pub IsFresh : Queue F → Call F → Type 0
  IsFresh q (tracks id name size task_type source dest label batch_id batch_label now) =
      get q.tasks_by_id id ≡ none
  IsFresh q _ = Unit {0}

  -- So along a history.
  abbrev pub AreFresh : Queue F → List (Call F) → Type 0
  AreFresh q [] = Unit {0}
  AreFresh q (c ∷ cs) = IsFresh q c × AreFresh (step q c) cs

  pub step-IsIndexed : (q : Queue F) (c : Call F) → IsFresh q c → IsIndexed q → IsIndexed (step q c)
  unfolding step set_cancel clear_cancel call_all set_retry_executor cleanup_batch
      cleanup_batch_metrics register_batch_cancel mark_batch_scan_in_progress
      update_batch_discovered increment_batch_skipped pre_register_batch ensure_batch_ticker
  step-IsIndexed q (tracks id name size task_type source dest label batch_id batch_label now) f v =
      track_transfer_with_batch-IsIndexed q id name size task_type source dest label batch_id
        batch_label now f v
  step-IsIndexed q (activates id now) f v = Frame-IsIndexed (activate-Frame q id now) v
  step-IsIndexed q (starts id) f v = Frame-IsIndexed (start_transfer-Frame q id) v
  step-IsIndexed q (sets_cancel id fn) f v = record {
    listed = v.listed;
    found = v.found;
    below = v.below;
  }
  step-IsIndexed q (clears_cancel id) f v = record {
    listed = v.listed;
    found = v.found;
    below = v.below;
  }
  step-IsIndexed q (fails_if_not_terminal id e now) f v =
      Frame-IsIndexed (fail_if_not_terminal-Frame q id e now) v
  step-IsIndexed q (updates_size id size) f v = Frame-IsIndexed (update_size-Frame q id size) v
  step-IsIndexed q (updates_progress id progress now) f v =
      Frame-IsIndexed (update_progress-Frame q id progress now) v
  step-IsIndexed q (completes id now) f v = Frame-IsIndexed (complete-Frame q id now) v
  step-IsIndexed q (fails id e now) f v = Frame-IsIndexed (fail-Frame q id e now) v
  step-IsIndexed q (cancels id now) f v = Frame-IsIndexed (cancel-Frame q id now) v
  step-IsIndexed q (calls_cancel_functions fns) f v = record {
    listed = v.listed;
    found = v.found;
    below = v.below;
  }
  step-IsIndexed q (cancels_live ps now) f v =
      let (q', done) = cancel_live q ps now in
      Frame-IsIndexed
        (Frame-trans (cancel_live-Frame q ps now)
          (SameTasks-Frame (publish_cancelled-SameTasks q' done)))
        v
  step-IsIndexed q (resets p) f v = Frame-IsIndexed (retry_reset-Frame q p) v
  step-IsIndexed q clears_completed f v = clear_completed-IsIndexed q v
  step-IsIndexed q (sets_executor executor) f v = record {
    listed = v.listed;
    found = v.found;
    below = v.below;
  }
  step-IsIndexed q (cleans_batch id) f v = record {
    listed = v.listed;
    found = v.found;
    below = v.below;
  }
  step-IsIndexed q (cleans_metrics id) f v = record {
    listed = v.listed;
    found = v.found;
    below = v.below;
  }
  step-IsIndexed q (registers_batch_cancel id fn) f v = record {
    listed = v.listed;
    found = v.found;
    below = v.below;
  }
  step-IsIndexed q (marks_scan id in_progress) f v = record {
    listed = v.listed;
    found = v.found;
    below = v.below;
  }
  step-IsIndexed q (updates_discovered id files bytes) f v = record {
    listed = v.listed;
    found = v.found;
    below = v.below;
  }
  step-IsIndexed q (increments_skipped id n) f v = record {
    listed = v.listed;
    found = v.found;
    below = v.below;
  }
  step-IsIndexed q (pre_registers id label direction source_label now) f v =
      Frame-IsIndexed (record { lists = ground arith; ids = λ a. ground arith }) v
  step-IsIndexed q (ticks unknown now) f v =
      Frame-IsIndexed (SameTasks-Frame (batch_tick-SameTasks unknown q now)) v

  run-IsIndexed :
      (q : Queue F) (cs : List (Call F)) → AreFresh q cs → IsIndexed q → IsIndexed (run q cs)
  unfolding run
  run-IsIndexed q [] f v = v
  run-IsIndexed q (c ∷ cs) (f, fs) v = run-IsIndexed (step q c) cs fs (step-IsIndexed q c f v)

  -- After any calls on a new queue, in which tasks are made under identifiers that the index does not
  -- hold then, the list of tasks and the index agree: each listed task is found under its identifier,
  -- what is found is a listed task of that identifier, and listed tasks stand below the next address.
  pub run-new_queue-IsIndexed :
      (heap : ℕ → TransferTask F) (bus : Bool) (cs : List (Call F))
      → AreFresh (new_queue heap bus) cs
      → IsIndexed (run (new_queue heap bus) cs)
  run-new_queue-IsIndexed heap bus cs f =
      run-IsIndexed (new_queue heap bus) cs f (new_queue-IsIndexed heap bus)
