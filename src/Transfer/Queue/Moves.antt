-- ===== src/Transfer/Queue/Moves.antt =====
-- internal/transfer/queue.go: the state machine of a task, over all calls of the queue.
use rescale_interlink.Common.{
  ℕ, ◌<◌, Bool, true, false, not, ◌&&◌, ◌≡◌, refl, ◌⊎◌, inl, inr, arith, String, Option, suc,
  Option-cases, ap,
}
use rescale_interlink.Common.Map.{get}
use rescale_interlink.Transfer.Float.{Float}
use rescale_interlink.Transfer.Task.{
  TaskState, TaskType, completed, is_queued, is_initializing, is_active, is_completed, is_failed,
  is_cancelled, is_terminal, terminal,
}
use rescale_interlink.Transfer.Queue.{
  Queue, write, store, publish_transfer_event, call_all, set_retry_executor, ensure_batch_ticker,
}
use rescale_interlink.Transfer.Queue.Calls.{
  Call, tracks, activates, starts, sets_cancel, clears_cancel, fails_if_not_terminal, updates_size,
  updates_progress, completes, fails, cancels, calls_cancel_functions, cancels_live, resets,
  clears_completed, sets_executor, cleans_batch, cleans_metrics, registers_batch_cancel, marks_scan,
  updates_discovered, increments_skipped, pre_registers, ticks, step,
}
use rescale_interlink.Transfer.Queue.Track.{
  track_transfer, track_transfer_with_label, track_transfer_with_batch, activate, start_transfer,
  set_cancel, clear_cancel, fail_if_not_terminal, update_size, update_progress, count_bytes,
}
use rescale_interlink.Transfer.Queue.Finish.{
  complete, fail, cancel, cancel_live, retry_reset, clear_completed,
}
use rescale_interlink.Transfer.Queue.Batch.{
  cleanup_batch, cleanup_batch_metrics, register_batch_cancel, mark_batch_scan_in_progress,
  update_batch_discovered, increment_batch_skipped, pre_register_batch,
}
use rescale_interlink.Transfer.Queue.Shape.{publish_cancelled-SameTasks, batch_tick-SameTasks}
use rescale_interlink.Transfer.Queue.CancelAll.{cancel_live-Drops}

-- The moves from state to state that a call may make. Complete, Fail and the reset of a retry do not
-- look at the state that they leave.
abbrev pub may_move : {F : Type 0} → Call F → TaskState → TaskState → Bool
may_move (activates id now) s t = is_queued s && is_initializing t
may_move (starts id) s t = is_initializing s && is_active t
may_move (fails_if_not_terminal id e now) s t = not (terminal s) && is_failed t
may_move (completes id now) s t = is_completed t
may_move (fails id e now) s t = is_failed t
may_move (cancels id now) s t = not (terminal s) && is_cancelled t
may_move (cancels_live ps now) s t = not (terminal s) && is_cancelled t
may_move (resets p) s t = is_queued t
may_move _ s t = false

-- A call leaves a state or makes one of its moves.
abbrev pub Moves : {F : Type 0} → Call F → TaskState → TaskState → Type 0
Moves c s t = (t ≡ s) ⊎ (may_move c s t ≡ true)

module _ {F : Type 0} where
  activate-Moves :
      (q : Queue F) (id : String) (now a : ℕ)
      → Moves {F = F} (activates id now) (q.heap a).state ((activate q id now).0.heap a).state
  unfolding activate write store publish_transfer_event
  activate-Moves q id now a = ground arith

  start_transfer-Moves :
      (q : Queue F) (id : String) (a : ℕ)
      → Moves {F = F} (starts id) (q.heap a).state ((start_transfer q id).heap a).state
  unfolding start_transfer write store publish_transfer_event
  start_transfer-Moves q id a = ground arith

  fail_if_not_terminal-Moves :
      (q : Queue F) (id : String) (e : Option String) (now a : ℕ)
      → Moves {F = F}
          (fails_if_not_terminal id e now)
          (q.heap a).state
          ((fail_if_not_terminal q id e now).0.heap a).state
  unfolding fail_if_not_terminal clear_cancel is_terminal write store publish_transfer_event
  fail_if_not_terminal-Moves q id e now a = ground arith

  update_size-Moves :
      (q : Queue F) (id : String) (size a : ℕ)
      → ((update_size q id size).heap a).state ≡ (q.heap a).state
  unfolding update_size write store
  update_size-Moves q id size a = ground arith

  fail-Moves :
      (q : Queue F) (id : String) (e : Option String) (now a : ℕ)
      → Moves {F = F} (fails id e now) (q.heap a).state ((fail q id e now).heap a).state
  unfolding fail clear_cancel write store publish_transfer_event
  fail-Moves q id e now a = ground arith

  cancel-Moves :
      (q : Queue F) (id : String) (now a : ℕ)
      → Moves {F = F} (cancels id now) (q.heap a).state ((cancel q id now).0.heap a).state
  unfolding cancel call_all clear_cancel write store publish_transfer_event
  cancel-Moves q id now a = ground arith

module _ {F : Type 0} ⦃fl : Float F⦄ where
  count_bytes-Moves :
      (q : Queue F) (p bytes a : ℕ) → ((count_bytes q p bytes).heap a).state ≡ (q.heap a).state
  unfolding count_bytes write store
  count_bytes-Moves q p bytes a = ground arith

  complete-Moves :
      (q : Queue F) (id : String) (now a : ℕ)
      → Moves {F = F} (completes id now) (q.heap a).state ((complete q id now).heap a).state
  unfolding complete clear_cancel write store publish_transfer_event
  complete-Moves q id now a = elim (Option-cases (get q.tasks_by_id id)) [
    | inl e ↦ rw (complete, e) (inl refl)
    | inr (p, e) ↦
        let t = q.heap p in
        let q' =
          write q p
            (record t { state = completed; progress = fl.literal 1 1; completed_at = now }) in
        rw (complete, e) (ground (arith, count_bytes-Moves q' p t.size a))
  ]

  update_progress-Moves :
      (q : Queue F) (id : String) (progress : F) (now a : ℕ)
      → ((update_progress q id progress now).heap a).state ≡ (q.heap a).state
  unfolding update_progress write store publish_transfer_event
  update_progress-Moves q id progress now a = grind (arith, count_bytes-Moves)

  retry_reset-Moves :
      (q : Queue F) (p a : ℕ)
      → Moves {F = F} (resets p) (q.heap a).state ((retry_reset q p).heap a).state
  unfolding retry_reset write store publish_transfer_event
  retry_reset-Moves q p a = ground arith

  track_transfer_with_batch-Moves :
      (q : Queue F) (a : ℕ)
      → a < q.fresh
      → (id name : String) (size : ℕ) (task_type : TaskType)
        (source dest label batch batch_label : String) (now : ℕ)
      → (((track_transfer_with_batch q id name size task_type source dest label batch batch_label
              now).0.heap
            a).state
          ≡ (q.heap a).state)
        × ((track_transfer_with_batch q id name size task_type source dest label batch batch_label
              now).0.fresh
            ≡ suc q.fresh)
  unfolding track_transfer_with_batch track_transfer_with_label track_transfer write store
      publish_transfer_event ensure_batch_ticker
  track_transfer_with_batch-Moves q a h id name size task_type source dest label batch batch_label
        now =
      ground arith

  -- Every call leaves each task that the queue has in its state, or makes a move of the call's kind:
  -- queued to initializing by Activate, initializing to active by StartTransfer, a state that is not
  -- terminal to cancelled by Cancel and CancelAll or to failed by FailIfNotTerminal, any state to
  -- completed by Complete, to failed by Fail and to queued by the reset of Retry.
  pub step-Moves :
      (q : Queue F) (c : Call F) (a : ℕ)
      → a < q.fresh
      → Moves c (q.heap a).state ((step q c).heap a).state
  unfolding step set_cancel clear_cancel call_all set_retry_executor cleanup_batch
      cleanup_batch_metrics register_batch_cancel mark_batch_scan_in_progress
      update_batch_discovered increment_batch_skipped pre_register_batch ensure_batch_ticker
      clear_completed
  step-Moves q (tracks id name size task_type source dest label batch batch_label now) a h =
      inl
        (track_transfer_with_batch-Moves q a h id name size task_type source dest label batch
          batch_label now).0
  step-Moves q (activates id now) a h = activate-Moves q id now a
  step-Moves q (starts id) a h = start_transfer-Moves q id a
  step-Moves q (sets_cancel id fn) a h = inl refl
  step-Moves q (clears_cancel id) a h = inl refl
  step-Moves q (fails_if_not_terminal id e now) a h = fail_if_not_terminal-Moves q id e now a
  step-Moves q (updates_size id size) a h = inl (update_size-Moves q id size a)
  step-Moves q (updates_progress id progress now) a h =
      inl (update_progress-Moves q id progress now a)
  step-Moves q (completes id now) a h = complete-Moves q id now a
  step-Moves q (fails id e now) a h = fail-Moves q id e now a
  step-Moves q (cancels id now) a h = cancel-Moves q id now a
  step-Moves q (calls_cancel_functions fns) a h = inl refl
  step-Moves q (cancels_live ps now) a h =
      let (q', done) = cancel_live q ps now in
      let drop = cancel_live-Drops q ps now a in
      rw (publish_cancelled-SameTasks q' done).heap (ground arith)
  step-Moves q (resets p) a h = retry_reset-Moves q p a
  step-Moves q clears_completed a h = inl refl
  step-Moves q (sets_executor executor) a h = inl refl
  step-Moves q (cleans_batch id) a h = inl refl
  step-Moves q (cleans_metrics id) a h = inl refl
  step-Moves q (registers_batch_cancel id fn) a h = inl refl
  step-Moves q (marks_scan id in_progress) a h = inl refl
  step-Moves q (updates_discovered id files bytes) a h = inl refl
  step-Moves q (increments_skipped id n) a h = inl refl
  step-Moves q (pre_registers id label direction source_label now) a h = ground arith
  step-Moves q (ticks unknown now) a h =
      inl (ap (λ heap. (heap a).state) (batch_tick-SameTasks unknown q now).heap)
