-- ===== src/Transfer/Queue/Report.antt =====
-- internal/transfer/queue.go: what the queue reports: GetStats to GetTask, the statistics of the
-- batches, and the filtered and paginated tasks. GetTasks and the others return clones of the tasks.
use rescale_interlink.Common.{
  ℕ, ◌+◌, String, Bool, true, not, ◌&&◌, ◌||◌, List, [], ◌∷◌, Option, none, some, map, leb, ◌===◌,
  if◌then◌else◌, length, keep, take, drop,
}
use rescale_interlink.Common.Int.{ℤ, pos, negsuc, ◌+ℤ◌, ltb_ℤ, wrap_int64}
use rescale_interlink.Common.Map.{get}
use rescale_interlink.Transfer.Task.{
  clone, TaskState, TransferTask, queued, initializing, active, paused, completed, failed,
  cancelled, is_queued, is_initializing, is_active, is_paused, is_failed, terminal,
}
use rescale_interlink.Transfer.Queue.{Queue}

-- QueueStats
pub record QueueStats : Type 0 where
  pub queued : ℕ
  pub initializing : ℕ
  pub active : ℕ
  pub paused : ℕ
  pub completed : ℕ
  pub failed : ℕ
  pub cancelled : ℕ

-- QueueStats.Total
unfoldable pub total : QueueStats → ℕ
total s = s.queued + s.initializing + s.active + s.paused + s.completed + s.failed + s.cancelled

abbrev pub no_stats : QueueStats
no_stats = record {
  queued = 0;
  initializing = 0;
  active = 0;
  paused = 0;
  completed = 0;
  failed = 0;
  cancelled = 0;
}

-- The `switch` of GetStats.
unfoldable pub count_state : TaskState → QueueStats → QueueStats
count_state queued s = record s { queued = s.queued + 1 }
count_state initializing s = record s { initializing = s.initializing + 1 }
count_state active s = record s { active = s.active + 1 }
count_state paused s = record s { paused = s.paused + 1 }
count_state completed s = record s { completed = s.completed + 1 }
count_state failed s = record s { failed = s.failed + 1 }
count_state cancelled s = record s { cancelled = s.cancelled + 1 }

module _ {F : Type 0} where
  -- The loop of GetStats.
  unfoldable pub stats_from : (ℕ → TransferTask F) → QueueStats → List ℕ → QueueStats
  stats_from heap s [] = s
  stats_from heap s (p ∷ ps) = stats_from heap (count_state (heap p).state s) ps

  -- GetStats
  unfoldable pub get_stats : Queue F → QueueStats
  get_stats q = stats_from q.heap no_stats q.tasks

  -- The tasks of the list, which the loops read.
  unfoldable pub listed_tasks : Queue F → List (TransferTask F)
  listed_tasks q = map q.heap q.tasks

  -- GetTasks
  unfoldable pub get_tasks : Queue F → List (TransferTask F)
  get_tasks q = map clone (listed_tasks q)

  -- GetTask
  unfoldable pub get_task : Queue F → String → Option (TransferTask F)
  get_task q id = elim (get q.tasks_by_id id) [ none ↦ none | some p ↦ some (clone (q.heap p)) ]

  -- GetUngroupedTasks
  unfoldable pub get_ungrouped_tasks : Queue F → List (TransferTask F)
  get_ungrouped_tasks q = map clone (keep (λ t. t.batch_id === "") (listed_tasks q))

-- string(state)
pub state_text : TaskState → String
state_text queued = "queued"
state_text initializing = "initializing"
state_text active = "active"
state_text paused = "paused"
state_text completed = "completed"
state_text failed = "failed"
state_text cancelled = "cancelled"

-- The state filter of GetBatchTasks.
unfoldable pub passes : String → TaskState → Bool
unfolding state_text
passes filter state =
    if filter === ""
    then true
    else if filter === "active"
    then not (terminal state || is_paused state)
    else if filter === "inprogress"
    then is_active state || is_initializing state
    else if filter === "queued"
    then is_queued state
    else state_text state === filter

-- `matching[offset:end]`, where `end` is at most the length; `none` is Go's panic on a bad slice.
abbrev pub slice {ℓ} : {A : Type ℓ} → ℤ → ℤ → List A → Option (List A)
slice (pos offset) (pos end) matching =
    if leb offset end then some (drop offset (take end matching)) else none
slice (pos offset) (negsuc end) matching = none
slice (negsuc offset) end matching = none

-- The pagination of GetBatchTasks; `offset + limit` wraps at 64 bits.
unfoldable pub page {ℓ} : {A : Type ℓ} → ℤ → ℤ → List A → Option (List A)
page offset limit matching =
    let count = pos (length matching) in
    let end = wrap_int64 (offset +ℤ limit) in
    if not (ltb_ℤ offset count)
    then some []
    else slice offset (if ltb_ℤ count end then count else end) matching

module _ {F : Type 0} where
  -- GetBatchTasks, up to the pagination.
  unfoldable pub matching_tasks : Queue F → String → String → List (TransferTask F)
  matching_tasks q batch filter =
      map clone (keep (λ t. (t.batch_id === batch) && passes filter t.state) (listed_tasks q))

  -- GetBatchTasks
  unfoldable pub get_batch_tasks :
      Queue F → String → ℤ → ℤ → String → Option (List (TransferTask F))
  get_batch_tasks q batch offset limit filter = page offset limit (matching_tasks q batch filter)

  -- The loop of GetFailedTaskErrors, with `count` messages so far: it stops when the limit is
  -- reached, and that is tested after a message is added.
  unfoldable pub errors_from : ℕ → ℤ → String → List (TransferTask F) → List String
  errors_from count limit batch [] = []
  errors_from count limit batch (t ∷ ts) =
      let rest = errors_from (count + 1) limit batch ts in
      let skip = errors_from count limit batch ts in
      if (t.batch_id === batch) && is_failed t.state
      then (elim t.error [
        | none ↦ skip
        | some message ↦ elim limit [
          | negsuc _ ↦ message ∷ []
          | pos n ↦ message ∷ (if leb n (count + 1) then [] else rest)
        ]
      ])
      else skip

  -- GetFailedTaskErrors
  unfoldable pub get_failed_task_errors : Queue F → String → ℤ → List String
  get_failed_task_errors q batch limit = errors_from 0 limit batch (listed_tasks q)
