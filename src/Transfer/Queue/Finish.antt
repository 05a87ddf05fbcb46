-- ===== src/Transfer/Queue/Finish.antt =====
-- internal/transfer/queue.go: Complete to ClearCompleted.
use rescale_interlink.Common.{
  ℕ, ◌+◌, String, Bool, false, not, ◌&&◌, ◌||◌, List, [], ◌∷◌, ◌++◌, Option, none, some, ◌===◌,
  if◌then◌else◌, keep, ◌⊎◌, inl, inr,
}
use rescale_interlink.Common.Map.{Map, get, put, delete, get_or}
use rescale_interlink.Transfer.Float.{Float}
use rescale_interlink.Transfer.Task.{
  TaskState, TransferTask, queued, completed, failed, cancelled, is_queued, is_initializing,
  is_active, is_terminal, can_retry,
}
use rescale_interlink.Transfer.Queue.{
  Queue, write, publish_transfer_event, call_all, transfer_completed, transfer_failed,
  transfer_cancelled, transfer_queued,
}
use rescale_interlink.Transfer.Queue.Track.{count_bytes, clear_cancel}

pub data QueueError : Type 0 where
  task_not_found not_cancellable cannot_be_retried no_retry_executor : QueueError

-- The states that Cancel and CancelAll take.
abbrev pub cancellable : TaskState → Bool
cancellable s = is_active s || is_initializing s || is_queued s

module _ {F : Type 0} ⦃fl : Float F⦄ where
  -- Complete
  unfoldable pub complete : Queue F → String → ℕ → Queue F
  complete q id now = elim (get q.tasks_by_id id) [
    | none ↦ clear_cancel q id
    | some p ↦
        let t = q.heap p in
        let q' =
          write q p
            (record t { state = completed; progress = fl.literal 1 1; completed_at = now }) in
        let q'' = count_bytes q' p t.size in
        let q''' : Queue F = if t.batch_id === "" then q'' else record q'' {
          batch_files_completed =
              put q''.batch_files_completed t.batch_id
                (get_or q''.batch_files_completed t.batch_id 0 + 1);
        } in
        publish_transfer_event (clear_cancel q''' id) transfer_completed p
  ]

module _ {F : Type 0} where
  -- Fail
  unfoldable pub fail : Queue F → String → Option String → ℕ → Queue F
  fail q id e now = elim (get q.tasks_by_id id) [
    | none ↦ clear_cancel q id
    | some p ↦
        publish_transfer_event
          (clear_cancel
            (write q p (record (q.heap p) { state = failed; error = e; completed_at = now })) id)
          transfer_failed p
  ]

  -- The cancel function that is stored for a task, if any.
  abbrev pub stored : Queue F → String → List ℕ
  stored q id = elim (get q.cancel_funcs id) [ none ↦ [] | some fn ↦ fn ∷ [] ]

  -- Cancel
  unfoldable pub cancel : Queue F → String → ℕ → Queue F × Option QueueError
  cancel q id now = elim (get q.tasks_by_id id) [
    | none ↦ (q, some task_not_found)
    | some p ↦
        if cancellable (q.heap p).state
        then (
          publish_transfer_event
              (call_all
                (clear_cancel
                  (write q p (record (q.heap p) { state = cancelled; completed_at = now })) id)
                (stored q id))
              transfer_cancelled p,
          none,
        )
        else (q, some not_cancellable)
  ]

  -- The stored cancel functions of some tasks.
  unfoldable pub cancel_fns : Queue F → List ℕ → List ℕ
  cancel_fns q [] = []
  cancel_fns q (p ∷ ps) = stored q (q.heap p).id ++ cancel_fns q ps

  -- One round of the loop below: a task that is not terminal is cancelled.
  unfoldable pub cancel_one : Queue F → ℕ → ℕ → Queue F
  cancel_one q p now =
      let t = q.heap p in
      clear_cancel
        (if is_terminal t
          then q
          else write q p (record t { state = cancelled; completed_at = now }))
        t.id

  -- The second locked part of CancelAll and CancelBatch: the queue and the tasks that it cancelled.
  unfoldable pub cancel_live : Queue F → List ℕ → ℕ → Queue F × List ℕ
  cancel_live q [] now = (q, [])
  cancel_live q (p ∷ ps) now =
      let (q', done) = cancel_live (cancel_one q p now) ps now in
      (q', if is_terminal (q.heap p) then done else p ∷ done)

  unfoldable pub publish_cancelled : Queue F → List ℕ → Queue F
  publish_cancelled q [] = q
  publish_cancelled q (p ∷ ps) =
      publish_cancelled (publish_transfer_event q transfer_cancelled p) ps

  -- The tasks that CancelAll collects.
  unfoldable pub collected : Queue F → List ℕ
  collected q = keep (λ p. cancellable (q.heap p).state) q.tasks

  -- The queue when CancelAll takes the lock again. It has called the stored cancel functions with the
  -- lock released; `meanwhile` is what they and other callers do to the queue before that.
  unfoldable pub relocked : (Queue F → Queue F) → Queue F → Queue F
  relocked meanwhile q = meanwhile (call_all q (cancel_fns q (collected q)))

  -- CancelAll
  unfoldable pub cancel_all : (Queue F → Queue F) → Queue F → ℕ → Queue F
  cancel_all meanwhile q now =
      let (q', done) = cancel_live (relocked meanwhile q) (collected q) now in
      publish_cancelled q' done

  -- Retry, its checks: the task and the executor.
  unfoldable pub retry_check : Queue F → String → (ℕ × ℕ) ⊎ QueueError
  retry_check q id = elim (get q.tasks_by_id id) [
    | none ↦ inr task_not_found
    | some p ↦ if not (can_retry (q.heap p)) then inr cannot_be_retried else elim q.retry_executor [
      | none ↦ inr no_retry_executor
      | some executor ↦ inl (p, executor)
    ]
  ]

module _ {F : Type 0} ⦃fl : Float F⦄ where
  -- Retry, the reset of the task, which locks the task and not the queue, and its start.
  unfoldable pub retry_reset : Queue F → ℕ → Queue F
  retry_reset q p =
      let q' = write q p (record (q.heap p) {
        state = queued;
        progress = fl.literal 0 1;
        speed = fl.literal 0 1;
        error = none;
        started_at = 0;
        completed_at = 0;
        last_bytes = 0;
        last_update_time = 0;
        last_batch_bytes = 0;
      }) in
      let q'' = publish_transfer_event q' transfer_queued p in
      record q'' { retried = q''.retried ++ p ∷ [] }

  -- Retry, when nothing comes between.
  unfoldable pub retry : Queue F → String → Queue F × Option QueueError
  retry q id = elim (retry_check q id) [
    | inl (p, _) ↦ (retry_reset q p, none)
    | inr e ↦ (q, some e)
  ]

module _ {F : Type 0} where
  abbrev pub live : (ℕ → TransferTask F) → ℕ → Bool
  live heap p = not (is_terminal (heap p))

  -- The deletions from the index that ClearCompleted makes.
  unfoldable pub forget_terminal : (ℕ → TransferTask F) → List ℕ → Map ℕ → Map ℕ
  forget_terminal heap [] index = index
  forget_terminal heap (p ∷ ps) index =
      forget_terminal heap ps (if is_terminal (heap p) then delete index (heap p).id else index)

  -- Whether a batch has a task that is not terminal: `survivingBatches`.
  unfoldable pub survives : (ℕ → TransferTask F) → List ℕ → String → Bool
  survives heap [] batch = false
  survives heap (p ∷ ps) batch =
      (live heap p && (not ((heap p).batch_id === "") && ((heap p).batch_id === batch)))
      || survives heap ps batch

  -- ClearCompleted
  unfoldable pub clear_completed : Queue F → Queue F
  clear_completed q = record q {
    tasks = keep (live q.heap) q.tasks;
    tasks_by_id = forget_terminal q.heap q.tasks q.tasks_by_id;
    batch_skipped = keep (λ entry. survives q.heap q.tasks entry.0) q.batch_skipped;
  }
