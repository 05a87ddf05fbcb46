-- ===== src/Transfer/Queue/Track.antt =====
-- internal/transfer/queue.go: TrackTransfer to UpdateProgress. The index holds no nil pointer, since
-- only TrackTransfer writes it; so a key that is found is a task. An event carries the task as the
-- locked part of the method left it.
use rescale_interlink.Common.{
  ℕ, ◌+◌, ◌-◌, ◌*◌, String, Bool, true, false, not, ◌&&◌, [], ◌∷◌, ◌++◌, Option, none, some, ltb,
  ◌===◌, if◌then◌else◌,
}
use rescale_interlink.Common.Map.{get, put, delete, get_or}
use rescale_interlink.Transfer.Float.{Float}
use rescale_interlink.Transfer.Task.{
  TaskType, TransferTask, initializing, active, failed, is_queued, is_initializing, is_terminal,
  new_transfer_task,
}
use rescale_interlink.Transfer.Queue.{
  Queue, write, publish_transfer_event, ensure_batch_ticker, transfer_queued, transfer_initializing,
  transfer_started, transfer_progress, transfer_failed,
}

-- generateTaskID: the package's counter after it, and the identifier. `format` is
-- fmt.Sprintf("task-%d-%d", …).
pub generate_task_id : (ℕ → ℕ → String) → ℕ → ℕ → ℕ × String
generate_task_id format counter now = (counter + 1, format now (counter + 1))

module _ {F : Type 0} ⦃fl : Float F⦄ where
  -- TrackTransfer, given the new task's identifier; returns the pointer.
  unfoldable pub track_transfer :
      Queue F → String → String → ℕ → TaskType → String → String → ℕ → Queue F × ℕ
  track_transfer q id name size task_type source dest now =
      let p = q.fresh in
      let q' = write q p (new_transfer_task id task_type name source dest size now) in
      let q'' : Queue F = record q' {
        fresh = p + 1;
        tasks = q.tasks ++ p ∷ [];
        tasks_by_id = put q.tasks_by_id id p;
      } in
      (publish_transfer_event q'' transfer_queued p, p)

  -- TrackTransferWithLabel
  unfoldable pub track_transfer_with_label :
      Queue F → String → String → ℕ → TaskType → String → String → String → ℕ → Queue F × ℕ
  track_transfer_with_label q id name size task_type source dest source_label now =
      let (q', p) = track_transfer q id name size task_type source dest now in
      (write q' p (record (q'.heap p) { source_label = source_label }), p)

  -- TrackTransferWithBatch
  unfoldable pub track_transfer_with_batch :
      Queue F
      → String
      → String
      → ℕ
      → TaskType
      → String
      → String
      → String
      → String
      → String
      → ℕ
      → Queue F × ℕ
  track_transfer_with_batch q id name size task_type source dest source_label batch_id batch_label
        now =
      let (q', p) =
        track_transfer_with_label q id name size task_type source dest source_label now in
      let q'' =
        write q' p (record (q'.heap p) { batch_id = batch_id; batch_label = batch_label }) in
      if batch_id === "" then (q'', p) else (
        ensure_batch_ticker (record q'' {
          batch_started_at = elim (get q''.batch_started_at batch_id) [
            | none ↦ put q''.batch_started_at batch_id now
            | some t ↦ q''.batch_started_at
          ];
        }),
        p,
      )

module _ {F : Type 0} where
  -- Activate
  unfoldable pub activate : Queue F → String → ℕ → Queue F × Bool
  activate q id now = elim (get q.tasks_by_id id) [
    | none ↦ (q, false)
    | some p ↦
        if is_queued (q.heap p).state
        then (
          publish_transfer_event
              (write q p (record (q.heap p) { state = initializing; started_at = now }))
              transfer_initializing p,
          true,
        )
        else (q, false)
  ]

  -- StartTransfer
  unfoldable pub start_transfer : Queue F → String → Queue F
  start_transfer q id = elim (get q.tasks_by_id id) [
    | none ↦ q
    | some p ↦
        if is_initializing (q.heap p).state
        then publish_transfer_event (write q p (record (q.heap p) { state = active }))
            transfer_started p
        else q
  ]

  -- SetCancel
  unfoldable pub set_cancel : Queue F → String → ℕ → Queue F
  set_cancel q id fn = record q { cancel_funcs = put q.cancel_funcs id fn }

  -- ClearCancel
  unfoldable pub clear_cancel : Queue F → String → Queue F
  clear_cancel q id = record q { cancel_funcs = delete q.cancel_funcs id }

  -- FailIfNotTerminal
  unfoldable pub fail_if_not_terminal : Queue F → String → Option String → ℕ → Queue F × Bool
  fail_if_not_terminal q id e now =
      let q' = clear_cancel q id in
      elim (get q.tasks_by_id id) [
        | none ↦ (q', false)
        | some p ↦ if is_terminal (q.heap p) then (q', false) else (
          publish_transfer_event
              (write q' p (record (q.heap p) { state = failed; error = e; completed_at = now }))
              transfer_failed p,
          true,
        )
      ]

  -- UpdateSize
  unfoldable pub update_size : Queue F → String → ℕ → Queue F
  update_size q id size = elim (get q.tasks_by_id id) [
    | none ↦ q
    | some p ↦ write q p (record (q.heap p) { size = size })
  ]

  -- `task.lastBatchBytes` and `q.batchBytesTransferred` once `bytes` of the task are known to be
  -- transferred: the part that was not counted before is added to the batch.
  unfoldable pub count_bytes : Queue F → ℕ → ℕ → Queue F
  count_bytes q p bytes =
      let t = q.heap p in
      if not (t.batch_id === "") && (ltb 0 t.size && ltb t.last_batch_bytes bytes)
      then record (write q p (record t { last_batch_bytes = bytes })) {
        batch_bytes_transferred =
            put q.batch_bytes_transferred t.batch_id
              (get_or q.batch_bytes_transferred t.batch_id 0 + (bytes - t.last_batch_bytes));
      }
      else q

module _ {F : Type 0} ⦃fl : Float F⦄ where
  -- The new value of `task.Speed`.
  unfoldable pub next_speed : TransferTask F → F → ℕ → F
  next_speed t progress now =
      let zero_speed = fl.literal 0 1 in
      let elapsed = fl.seconds now t.last_update_time in
      let progress_delta = fl.minus progress t.progress in
      let bytes_transferred = fl.times progress_delta (fl.of_int t.size) in
      if fl.less_eq (fl.literal 3 10) elapsed
        && (fl.less zero_speed progress_delta && fl.less (fl.of_int (100 * 1024)) bytes_transferred)
      then (let rate = fl.divided bytes_transferred elapsed in
          let instant_speed =
            if fl.less rate (fl.of_int 1024)
            then zero_speed
            else if fl.less (fl.of_int (1024 * 1024 * 1024)) rate
            then t.speed
            else rate in
          if fl.less zero_speed instant_speed
          then (if fl.same t.speed zero_speed
              then instant_speed
              else fl.plus (fl.times (fl.literal 1 10) instant_speed)
                  (fl.times (fl.literal 9 10) t.speed))
          else t.speed)
      else t.speed

  -- UpdateProgress
  unfoldable pub update_progress : Queue F → String → F → ℕ → Queue F
  update_progress q id progress now = elim (get q.tasks_by_id id) [
    | none ↦ q
    | some p ↦
        let t = q.heap p in
        let q' = write q p (record t {
          speed = next_speed t progress now;
          progress = progress;
          last_update_time = now;
        }) in
        publish_transfer_event (count_bytes q' p (fl.to_int (fl.times progress (fl.of_int t.size))))
          transfer_progress p
  ]
