-- ===== src/Transfer/Queue/BatchReport.antt =====
-- internal/transfer/queue.go: GetAllBatchStats and GetBatchStats. The map of batches with the order
-- of their insertion is one list of statistics; the order in which Go iterates over the
-- pre-registered batches is that of their entries.
use rescale_interlink.Common.{
  ℕ, ◌+◌, String, Bool, false, not, ◌||◌, List, [], ◌∷◌, ◌++◌, Option, none, some, map, ltb, ◌===◌,
  if◌then◌else◌,
}
use rescale_interlink.Common.Map.{Map, get, put, get_or}
use rescale_interlink.Transfer.Float.{Float}
use rescale_interlink.Transfer.Task.{
  TaskState, TransferTask, queued, initializing, active, paused, completed, failed, cancelled,
}
use rescale_interlink.Transfer.SpeedWindow.{SpeedWindow, speed}
use rescale_interlink.Transfer.Queue.{Queue, BatchStats}
use rescale_interlink.Transfer.Queue.Report.{listed_tasks}

module _ {F : Type 0} where
  -- The `switch` over a task's state: a paused task is counted in the total only.
  unfoldable pub count_in_batch : TaskState → BatchStats F → BatchStats F
  count_in_batch queued s = record s { queued = s.queued + 1 }
  count_in_batch initializing s = record s { active = s.active + 1 }
  count_in_batch active s = record s { active = s.active + 1 }
  count_in_batch paused s = s
  count_in_batch completed s = record s { completed = s.completed + 1 }
  count_in_batch failed s = record s { failed = s.failed + 1 }
  count_in_batch cancelled s = record s { cancelled = s.cancelled + 1 }

  -- One round of the loop, on the statistics of the task's batch.
  unfoldable pub add_task : TransferTask F → BatchStats F → BatchStats F
  add_task t s =
      count_in_batch t.state
        (record s { total = s.total + 1; total_bytes = s.total_bytes + t.size })

  unfoldable pub has_batch : String → List (BatchStats F) → Bool
  has_batch id [] = false
  has_batch id (s ∷ ss) = (s.batch_id === id) || has_batch id ss

  -- batchMap[id]
  unfoldable pub find_batch : String → List (BatchStats F) → Option (BatchStats F)
  find_batch id [] = none
  find_batch id (s ∷ ss) = if s.batch_id === id then some s else find_batch id ss

module _ {F : Type 0} ⦃fl : Float F⦄ where
  -- The statistics of a batch that is met for the first time.
  unfoldable pub new_batch : Queue F → TransferTask F → BatchStats F
  new_batch q t = record {
    batch_id = t.batch_id;
    batch_label = t.batch_label;
    direction = t.task_type;
    source_label = t.source_label;
    total = 0;
    queued = 0;
    active = 0;
    completed = 0;
    failed = 0;
    cancelled = 0;
    total_bytes = 0;
    progress = fl.literal 0 1;
    speed = fl.literal 0 1;
    total_known = not (get_or q.batch_scan_in_progress t.batch_id false);
    files_per_sec = fl.literal 0 1;
    eta_seconds = fl.literal 0 1;
    discovered_total = 0;
    discovered_bytes = 0;
    started_at = 0;
    skipped = 0;
  }

  unfoldable pub add_to_batches :
      Queue F → TransferTask F → List (BatchStats F) → List (BatchStats F)
  add_to_batches q t [] = add_task t (new_batch q t) ∷ []
  add_to_batches q t (s ∷ ss) =
      if s.batch_id === t.batch_id then add_task t s ∷ ss else s ∷ add_to_batches q t ss

  -- The loop over the tasks.
  unfoldable pub batches_from :
      Queue F → List (BatchStats F) → List (TransferTask F) → List (BatchStats F)
  batches_from q ss [] = ss
  batches_from q ss (t ∷ ts) =
      batches_from q (if t.batch_id === "" then ss else add_to_batches q t ss) ts

  -- `window.Speed()` on an entry of a map of windows; a missing entry leaves the zero rate.
  abbrev read_window : Map (SpeedWindow F) → String → F × Map (SpeedWindow F)
  read_window windows id = elim (get windows id) [
    | none ↦ (fl.literal 0 1, windows)
    | some w ↦ (let (rate, w') = speed w in (rate, put windows id w'))
  ]

  -- The speeds, totals and times that the queue keeps for a batch.
  unfoldable pub fill_metrics : Queue F → BatchStats F → Queue F × BatchStats F
  fill_metrics q s =
      let (batch_speed, windows) = read_window q.batch_speed_windows s.batch_id in
      let (file_rate, file_windows) = read_window q.batch_file_rate_windows s.batch_id in
      (
        record q { batch_speed_windows = windows; batch_file_rate_windows = file_windows },
        record s {
          speed = batch_speed;
          files_per_sec = file_rate;
          discovered_total = get_or q.batch_discovered_total s.batch_id s.discovered_total;
          discovered_bytes = get_or q.batch_discovered_bytes s.batch_id s.discovered_bytes;
          started_at = get_or q.batch_started_at s.batch_id s.started_at;
          skipped = get_or q.batch_skipped s.batch_id s.skipped;
          eta_seconds = get_or q.batch_last_eta s.batch_id s.eta_seconds;
        },
      )

  unfoldable pub fill_all : Queue F → List (BatchStats F) → Queue F × List (BatchStats F)
  fill_all q [] = (q, [])
  fill_all q (s ∷ ss) =
      let (q', s') = fill_metrics q s in let (q'', ss') = fill_all q' ss in (q'', s' ∷ ss')

  -- The pre-registered batches that have no task yet.
  unfoldable pub pre_registered :
      Queue F → List (BatchStats F) → Map (BatchStats F) → List (BatchStats F)
  pre_registered q ss [] = []
  pre_registered q ss ((id, s) ∷ rest) =
      let more = pre_registered q ss rest in
      if has_batch id ss
      then more
      else record s {
        total_known = not (get_or q.batch_scan_in_progress id false);
        skipped = get_or q.batch_skipped id s.skipped;
      }
        ∷ more

  -- The bytes of a batch when the queue has no counter for it.
  unfoldable pub progress_bytes : String → List (TransferTask F) → ℕ
  progress_bytes id [] = 0
  progress_bytes id (t ∷ ts) =
      (if t.batch_id === id then fl.to_int (fl.times t.progress (fl.of_int t.size)) else 0)
      + progress_bytes id ts

  -- The byte-weighted progress.
  unfoldable pub batch_progress : Queue F → BatchStats F → F
  batch_progress q s =
      let denominator =
        if ltb s.total_bytes s.discovered_bytes then s.discovered_bytes else s.total_bytes in
      if ltb 0 denominator
      then (let transferred : ℕ = elim (get q.batch_bytes_transferred s.batch_id) [
        | none ↦ progress_bytes s.batch_id (listed_tasks q)
        | some bytes ↦ bytes
      ] in
          let ratio = fl.divided (fl.of_int transferred) (fl.of_int denominator) in
          if fl.less (fl.literal 1 1) ratio then fl.literal 1 1 else ratio)
      else if ltb 0 s.total
      then fl.divided (fl.of_int s.completed) (fl.of_int s.total)
      else s.progress

  -- GetAllBatchStats. The read of a window's speed updates the window.
  unfoldable pub get_all_batch_stats : Queue F → Queue F × List (BatchStats F)
  get_all_batch_stats q =
      let (q', ss) = fill_all q (batches_from q [] (listed_tasks q)) in
      (
        q',
        map (λ (s : BatchStats F). record s { progress = batch_progress q' s })
            (ss ++ pre_registered q' ss q'.pre_registered_batches),
      )

  -- GetBatchStats
  unfoldable pub get_batch_stats : Queue F → String → Queue F × Option (BatchStats F)
  get_batch_stats q id = let (q', ss) = get_all_batch_stats q in (q', find_batch id ss)
