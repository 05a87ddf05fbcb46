-- ===== src/Transfer/Queue/Accounting.antt =====
-- internal/transfer/queue.go: the bytes that a batch counts: `lastBatchBytes` of its tasks and
-- `batchBytesTransferred`.
use Prim.Native.Nat.{max}
use rescale_interlink.Common.{
  ℕ, ◌+◌, ◌<◌, ◌≡◌, ◌≢◌, arith, String, ===_iff, ===_self, ◌-◌, ◌∙◌, sym, some, ap,
}
use rescale_interlink.Common.Map.{get-put, get_or, get}
use rescale_interlink.Transfer.Float.{Float}
use rescale_interlink.Transfer.Task.{completed}
use rescale_interlink.Transfer.Queue.Track.{next_speed, update_progress, clear_cancel, count_bytes}
use rescale_interlink.Transfer.Queue.Finish.{complete, retry_reset}
use rescale_interlink.Transfer.Queue.{publish_transfer_event, write, store, Queue}

module _ {F : Type 0} where
  -- The bytes that a batch has counted.
  abbrev pub batch_bytes : Queue F → String → ℕ
  batch_bytes q batch = get_or q.batch_bytes_transferred batch 0

  abbrev pub counted : Queue F → ℕ → ℕ
  counted q p = (q.heap p).last_batch_bytes

  -- Once `bytes` of a task of a batch that has a size are known to be transferred, the task has
  -- counted the larger of `bytes` and what it had counted; its batch has grown by the difference,
  -- and no other batch and no other task has changed.
  pub count_bytes_lem :
      (q : Queue F) (p bytes : ℕ)
      → (q.heap p).batch_id ≢ ""
      → 0 < (q.heap p).size
      → (counted (count_bytes q p bytes) p ≡ max bytes (counted q p))
        × (batch_bytes (count_bytes q p bytes) (q.heap p).batch_id + counted q p
            ≡ batch_bytes q (q.heap p).batch_id + counted (count_bytes q p bytes) p)
        × ((batch : String)
            → batch ≢ (q.heap p).batch_id
            → batch_bytes (count_bytes q p bytes) batch ≡ batch_bytes q batch)
        × ((a : ℕ) → a ≢ p → (count_bytes q p bytes).heap a ≡ q.heap a)
  unfolding count_bytes write store
  count_bytes_lem q p bytes hb hs = (
    ground (arith, ===_iff (q.heap p).batch_id ""),
    ground (
      arith,
      ===_iff (q.heap p).batch_id "",
      ===_self (q.heap p).batch_id,
      get-put q.batch_bytes_transferred (q.heap p).batch_id (q.heap p).batch_id
          (batch_bytes q (q.heap p).batch_id + (bytes - counted q p)),
    ),
    λ batch ne. ground (
      arith,
      ===_iff (q.heap p).batch_id batch,
      get-put q.batch_bytes_transferred (q.heap p).batch_id batch
          (batch_bytes q (q.heap p).batch_id + (bytes - counted q p)),
    ),
    λ a ne. ground arith,
  )

module _ {F : Type 0} ⦃fl : Float F⦄ where
  -- Complete of a known task that has a batch and a size above 0: the task has counted the larger of its
  -- size and what it had counted, and its batch has grown by the difference.
  pub complete_bytes :
      (q : Queue F) (id : String) (p now : ℕ)
      → get q.tasks_by_id id ≡ some p
      → (q.heap p).batch_id ≢ ""
      → 0 < (q.heap p).size
      → (counted (complete q id now) p ≡ max (q.heap p).size (counted q p))
        × (batch_bytes (complete q id now) (q.heap p).batch_id + counted q p
            ≡ batch_bytes q (q.heap p).batch_id + max (q.heap p).size (counted q p))
  unfolding complete clear_cancel write store publish_transfer_event
  complete_bytes q id p now h hb hs =
      let t = q.heap p in
      let q' =
        write q p (record t { state = completed; progress = fl.literal 1 1; completed_at = now }) in
      let same : q'.heap p
          ≡ record t { state = completed; progress = fl.literal 1 1; completed_at = now } =
        ground arith in
      let counts = count_bytes_lem q' p t.size (rw same hb) (rw same hs) in
      rw (complete, h) (ground (arith, same, counts.0, counts.1))

  -- UpdateProgress of a known task that has a batch and a size above 0: the task has counted the larger
  -- of the bytes of its progress and what it had counted, and its batch has grown by the difference.
  pub update_progress_bytes :
      (q : Queue F) (id : String) (p : ℕ) (progress : F) (now : ℕ)
      → get q.tasks_by_id id ≡ some p
      → (q.heap p).batch_id ≢ ""
      → 0 < (q.heap p).size
      → (counted (update_progress q id progress now) p
          ≡ max (fl.to_int (fl.times progress (fl.of_int (q.heap p).size))) (counted q p))
        × (batch_bytes (update_progress q id progress now) (q.heap p).batch_id + counted q p
            ≡ batch_bytes q (q.heap p).batch_id + counted (update_progress q id progress now) p)
  unfolding update_progress write store publish_transfer_event
  update_progress_bytes q id p progress now h hb hs =
      let t = q.heap p in
      let q' = write q p (record t {
        speed = next_speed t progress now;
        progress = progress;
        last_update_time = now;
      }) in
      let same : q'.heap p ≡ record t {
        speed = next_speed t progress now;
        progress = progress;
        last_update_time = now;
      } =
        ground arith in
      let bytes = fl.to_int (fl.times progress (fl.of_int (q.heap p).size)) in
      let counts = count_bytes_lem q' p bytes (rw same hb) (rw same hs) in
      rw (update_progress, h) (ground (arith, same, counts.0, counts.1))

  -- What the reset of a retry does to the bytes that are counted.
  record Uncounted (q q' : Queue F) (p : ℕ) : Type 0 where
    index : q'.tasks_by_id ≡ q.tasks_by_id
    bytes : q'.batch_bytes_transferred ≡ q.batch_bytes_transferred
    batch : (q'.heap p).batch_id ≡ (q.heap p).batch_id
    size : (q'.heap p).size ≡ (q.heap p).size
    none_counted : counted q' p ≡ 0

  retry_reset_bytes : (q : Queue F) (p : ℕ) → Uncounted q (retry_reset q p) p
  unfolding retry_reset write store publish_transfer_event
  retry_reset_bytes q p = record {
    index = ground arith;
    bytes = ground arith;
    batch = ground arith;
    size = ground arith;
    none_counted = ground arith;
  }

  -- A known task that has a batch and a size above 0 and that is reset by Retry and then completed adds
  -- its whole size to its batch, however much of it the batch had counted before.
  pub retry_reset-complete_bytes :
      (q : Queue F) (id : String) (p now : ℕ)
      → get q.tasks_by_id id ≡ some p
      → (q.heap p).batch_id ≢ ""
      → 0 < (q.heap p).size
      → batch_bytes (complete (retry_reset q p) id now) (q.heap p).batch_id
        ≡ batch_bytes q (q.heap p).batch_id + (q.heap p).size
  retry_reset-complete_bytes q id p now h hb hs =
      let reset = retry_reset_bytes q p in
      ground (
        arith,
        reset,
        complete_bytes (retry_reset q p) id p now (ap (λ m. get m id) reset.index ∙ h)
            (λ e. hb (sym reset.batch ∙ e)) (rw reset.size hs),
      )
