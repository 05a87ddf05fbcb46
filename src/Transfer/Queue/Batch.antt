-- ===== src/Transfer/Queue/Batch.antt =====
-- internal/transfer/queue.go: the batches: cancelling, registering and retrying them, their
-- estimated times, and the ticker.
use rescale_interlink.Common.{
  ℕ, ◌+◌, String, Bool, true, false, not, ◌&&◌, ◌||◌, List, [], ◌∷◌, ◌++◌, none, some, ltb, leb,
  ◌===◌, if◌then◌else◌, keep,
}
use rescale_interlink.Common.Map.{Map, get, put, delete, get_or}
use rescale_interlink.Transfer.Float.{Float}
use rescale_interlink.Transfer.Task.{TaskType, TransferTask, is_failed}
use rescale_interlink.Transfer.SpeedWindow.{SpeedWindow, new_speed_window, add_sample}
use rescale_interlink.Transfer.Queue.{
  Queue, BatchStats, call_all, ensure_batch_ticker, batch_progress_event,
}
use rescale_interlink.Transfer.Queue.Finish.{
  cancel_fns, cancel_live, publish_cancelled, retry, live,
}
use rescale_interlink.Transfer.Queue.BatchReport.{get_all_batch_stats}

module _ {F : Type 0} where
  -- CleanupBatch
  unfoldable pub cleanup_batch : Queue F → String → Queue F
  cleanup_batch q id = record q {
    batch_cancel_funcs = delete q.batch_cancel_funcs id;
    batch_scan_in_progress = delete q.batch_scan_in_progress id;
    pre_registered_batches = delete q.pre_registered_batches id;
    batch_started_at = delete q.batch_started_at id;
  }

  -- cleanupBatchMetrics
  unfoldable pub cleanup_batch_metrics : Queue F → String → Queue F
  cleanup_batch_metrics q id = record q {
    batch_bytes_transferred = delete q.batch_bytes_transferred id;
    batch_speed_windows = delete q.batch_speed_windows id;
    batch_files_completed = delete q.batch_files_completed id;
    batch_file_rate_windows = delete q.batch_file_rate_windows id;
    batch_discovered_total = delete q.batch_discovered_total id;
    batch_discovered_bytes = delete q.batch_discovered_bytes id;
    batch_prev_eta = delete q.batch_prev_eta id;
    batch_last_eta = delete q.batch_last_eta id;
    batch_started_at = delete q.batch_started_at id;
  }

  -- The tasks that CancelBatch collects.
  abbrev pub in_batch : Queue F → String → ℕ → Bool
  in_batch q id p = ((q.heap p).batch_id === id) && live q.heap p

  -- The queue when CancelBatch collects the tasks. It has called the batch's cancel function;
  -- `scan_stops` is what happens after that and before the tasks are collected.
  unfoldable pub scan_stopped : (Queue F → Queue F) → Queue F → String → Queue F
  scan_stopped scan_stops q id =
      scan_stops (call_all q (elim (get q.batch_cancel_funcs id) [ none ↦ [] | some fn ↦ fn ∷ [] ]))

  -- The tasks that CancelBatch collects, in order.
  abbrev pub batch_collected : Queue F → String → List ℕ
  batch_collected q id = keep (in_batch q id) q.tasks

  -- The queue when CancelBatch takes the lock to cancel the tasks. It has called their cancel
  -- functions with the lock released; `meanwhile` is what happens to the queue then.
  unfoldable pub batch_relocked : (Queue F → Queue F) → Queue F → String → Queue F
  batch_relocked meanwhile q id = meanwhile (call_all q (cancel_fns q (batch_collected q id)))

  -- CancelBatch
  unfoldable pub cancel_batch :
      (Queue F → Queue F) → (Queue F → Queue F) → Queue F → String → ℕ → Queue F
  cancel_batch scan_stops meanwhile q id now =
      let q₁ = scan_stopped scan_stops q id in
      let (q₂, done) = cancel_live (batch_relocked meanwhile q₁ id) (batch_collected q₁ id) now in
      cleanup_batch_metrics (cleanup_batch (publish_cancelled q₂ done) id) id

  -- RegisterBatchCancel
  unfoldable pub register_batch_cancel : Queue F → String → ℕ → Queue F
  register_batch_cancel q id fn = record q { batch_cancel_funcs = put q.batch_cancel_funcs id fn }

  -- MarkBatchScanInProgress
  unfoldable pub mark_batch_scan_in_progress : Queue F → String → Bool → Queue F
  mark_batch_scan_in_progress q id in_progress = record q {
    batch_scan_in_progress =
        if in_progress
        then put q.batch_scan_in_progress id true
        else delete q.batch_scan_in_progress id;
  }

  -- UpdateBatchDiscovered
  unfoldable pub update_batch_discovered : Queue F → String → ℕ → ℕ → Queue F
  update_batch_discovered q id total_files total_bytes = record q {
    batch_discovered_total = put q.batch_discovered_total id total_files;
    batch_discovered_bytes = put q.batch_discovered_bytes id total_bytes;
  }

  -- IncrementBatchSkipped
  unfoldable pub increment_batch_skipped : Queue F → String → ℕ → Queue F
  increment_batch_skipped q id n = record q {
    batch_skipped = put q.batch_skipped id (get_or q.batch_skipped id 0 + n);
  }

  -- The failed tasks of a batch, by identifier.
  unfoldable pub failed_ids : (ℕ → TransferTask F) → String → List ℕ → List String
  failed_ids heap id [] = []
  failed_ids heap id (p ∷ ps) =
      let rest = failed_ids heap id ps in
      if ((heap p).batch_id === id) && is_failed (heap p).state then (heap p).id ∷ rest else rest

module _ {F : Type 0} ⦃fl : Float F⦄ where
  -- PreRegisterBatch
  unfoldable pub pre_register_batch : Queue F → String → String → TaskType → String → ℕ → Queue F
  pre_register_batch q id label direction source_label now =
      let zero_value = fl.literal 0 1 in
      let stats : BatchStats F = record {
        batch_id = id;
        batch_label = label;
        direction = direction;
        source_label = source_label;
        total = 0;
        queued = 0;
        active = 0;
        completed = 0;
        failed = 0;
        cancelled = 0;
        total_bytes = 0;
        progress = zero_value;
        speed = zero_value;
        total_known = false;
        files_per_sec = zero_value;
        eta_seconds = zero_value;
        discovered_total = 0;
        discovered_bytes = 0;
        started_at = now;
        skipped = 0;
      } in
      ensure_batch_ticker (record q {
        pre_registered_batches = put q.pre_registered_batches id stats;
        batch_started_at = put q.batch_started_at id now;
        batch_scan_in_progress = put q.batch_scan_in_progress id true;
        published =
            if q.has_event_bus then q.published ++ batch_progress_event stats ∷ [] else q.published;
      })

  -- The loop of RetryFailedInBatch; an error of one retry is passed over.
  unfoldable pub retry_each : Queue F → List String → Queue F
  retry_each q [] = q
  retry_each q (id ∷ ids) = retry_each (retry q id).0 ids

  -- RetryFailedInBatch
  unfoldable pub retry_failed_in_batch : Queue F → String → Queue F
  retry_failed_in_batch q id = retry_each q (failed_ids q.heap id q.tasks)

  -- smoothETA
  unfoldable pub smooth_eta : Queue F → String → F → Queue F × F
  smooth_eta q id raw_eta =
      let first : Queue F × F =
        (record q { batch_prev_eta = put q.batch_prev_eta id raw_eta }, raw_eta) in
      elim (get q.batch_prev_eta id) [
        | none ↦ first
        | some prev ↦
            if fl.less_eq prev (fl.literal 0 1)
            then first
            else let high = fl.times prev (fl.literal 2 1) in
              let low = fl.times prev (fl.literal 1 2) in
              let capped =
                if fl.less high raw_eta
                then high
                else if fl.less raw_eta low
                then low
                else raw_eta in
              let blend = λ (old : F).
                fl.plus (fl.times (fl.literal 3 10) capped) (fl.times (fl.literal 7 10) old) in
              let once = blend prev in
              let smoothed =
                if fl.less raw_eta (fl.times once (fl.literal 1 2)) then blend once else once in
              (record q { batch_prev_eta = put q.batch_prev_eta id smoothed }, smoothed)
      ]

  -- computeBatchETA; `unknown` is -1.
  unfoldable pub compute_batch_eta : F → Queue F → String → BatchStats F → Queue F × F
  compute_batch_eta unknown q id s =
      let zero_value = fl.literal 0 1 in
      let denominator =
        if ltb s.total_bytes s.discovered_bytes then s.discovered_bytes else s.total_bytes in
      let transferred = fl.times (fl.of_int denominator) s.progress in
      let remaining = fl.minus (fl.of_int denominator) transferred in
      if not s.total_known
      then (q, unknown)
      else if fl.less_eq (fl.literal 1 1) s.progress || (ltb 0 s.total && leb s.total s.completed)
      then (q, zero_value)
      else if fl.less_eq s.speed zero_value
      then (q, unknown)
      else if leb denominator 0
      then (q, unknown)
      else if fl.less_eq remaining zero_value
      then (q, zero_value)
      else smooth_eta q id (fl.divided remaining s.speed)

  -- One sample of each counter into its window; a new window is 10 seconds wide.
  unfoldable pub record_samples : ℕ → Map ℕ → Map (SpeedWindow F) → Map (SpeedWindow F)
  record_samples now [] windows = windows
  record_samples now ((id, count) ∷ rest) windows =
      let window = get_or windows id (new_speed_window 10_000_000_000) in
      record_samples now rest (put windows id (add_sample window now count))

  -- The estimated times of all batches, which the queue keeps.
  unfoldable pub compute_etas : F → Queue F → List (BatchStats F) → Queue F × List (BatchStats F)
  compute_etas unknown q [] = (q, [])
  compute_etas unknown q (s ∷ ss) =
      let (q', eta) = compute_batch_eta unknown q s.batch_id s in
      let (q'', ss') =
        compute_etas unknown (record q' { batch_last_eta = put q'.batch_last_eta s.batch_id eta })
          ss in
      (q'', record s { eta_seconds = eta } ∷ ss')

  -- Whether a batch keeps the ticker going.
  unfoldable pub is_running : BatchStats F → Bool
  is_running s = ltb 0 s.queued || ltb 0 s.active || not s.total_known

  unfoldable pub any_running : List (BatchStats F) → Bool
  any_running [] = false
  any_running (s ∷ ss) = is_running s || any_running ss

  unfoldable pub publish_batch : Queue F → BatchStats F → Queue F
  publish_batch q s =
      if q.has_event_bus
      then record q { published = q.published ++ batch_progress_event s ∷ [] }
      else q

  unfoldable pub publish_batches : Queue F → List (BatchStats F) → Queue F
  publish_batches q [] = q
  publish_batches q (s ∷ ss) = publish_batches (publish_batch q s) ss

  unfoldable pub cleanup_all_metrics : Queue F → List (BatchStats F) → Queue F
  cleanup_all_metrics q [] = q
  cleanup_all_metrics q (s ∷ ss) = cleanup_all_metrics (cleanup_batch_metrics q s.batch_id) ss

  -- One sample of each counter of the queue.
  unfoldable pub take_samples : Queue F → ℕ → Queue F
  take_samples q now = record q {
    batch_speed_windows = record_samples now q.batch_bytes_transferred q.batch_speed_windows;
    batch_file_rate_windows = record_samples now q.batch_files_completed q.batch_file_rate_windows;
  }

  -- The end of a tick: without any batch, with all batches at rest, or with more to come.
  unfoldable pub end_tick : Queue F → List (BatchStats F) → Queue F
  end_tick q [] = record q { batch_ticker_running = false }
  end_tick q (s ∷ ss) =
      if any_running (s ∷ ss)
      then q
      else record (cleanup_all_metrics q (s ∷ ss)) { batch_ticker_running = false }

  -- One tick of batchTickerLoop; the ticker has stopped where `batch_ticker_running` is false.
  unfoldable pub batch_tick : F → Queue F → ℕ → Queue F
  batch_tick unknown q now =
      let (q₁, stats) = get_all_batch_stats (take_samples q now) in
      let (q₂, timed) = compute_etas unknown q₁ stats in end_tick (publish_batches q₂ timed) timed
