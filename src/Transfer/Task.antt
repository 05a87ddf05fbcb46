-- ===== src/Transfer/Task.antt =====
-- internal/transfer/task.go. A method that locks the task and changes it returns the new task; the
-- time that `time.Now()` reads is an argument.
use rescale_interlink.Common.{
  ℕ, ◌-◌, String, Bool, true, false, ◌&&◌, ◌||◌, Option, none, ltb, ◌==◌, if◌then◌else◌,
}
use rescale_interlink.Transfer.Float.{Float}

pub data TaskType : Type 0 where
  upload download : TaskType

pub data TaskState : Type 0 where
  queued initializing active paused completed failed cancelled : TaskState

-- The tests `state == TaskQueued` and so on.
abbrev pub is_queued : TaskState → Bool
is_queued queued = true
is_queued _ = false

abbrev pub is_initializing : TaskState → Bool
is_initializing initializing = true
is_initializing _ = false

abbrev pub is_active : TaskState → Bool
is_active active = true
is_active _ = false

abbrev pub is_paused : TaskState → Bool
is_paused paused = true
is_paused _ = false

abbrev pub is_completed : TaskState → Bool
is_completed completed = true
is_completed _ = false

abbrev pub is_failed : TaskState → Bool
is_failed failed = true
is_failed _ = false

abbrev pub is_cancelled : TaskState → Bool
is_cancelled cancelled = true
is_cancelled _ = false

-- TransferTask. Sizes and byte counts are int64 values that are not negative.
pub record TransferTask (F : Type 0) : Type 0 where
  pub id : String
  pub task_type : TaskType
  pub name : String
  pub source : String
  pub dest : String
  pub size : ℕ
  pub source_label : String
  pub batch_id : String
  pub batch_label : String
  pub state : TaskState
  pub progress : F
  pub speed : F
  pub error : Option String
  pub last_bytes : ℕ
  pub last_update_time : ℕ
  pub last_batch_bytes : ℕ
  pub created_at : ℕ
  pub started_at : ℕ
  pub completed_at : ℕ
  -- whether `cancel` has been called on the task's context
  pub context_cancelled : Bool

-- IsTerminal, on the state that it reads.
abbrev pub terminal : TaskState → Bool
terminal s = is_completed s || is_failed s || is_cancelled s

-- CanRetry, on the state that it reads.
abbrev pub retryable : TaskState → Bool
retryable s = is_failed s || is_cancelled s

module _ {F : Type 0} where
  unfoldable pub is_terminal : TransferTask F → Bool
  is_terminal t = terminal t.state

  unfoldable pub can_retry : TransferTask F → Bool
  can_retry t = retryable t.state

  -- SetState
  unfoldable pub set_state : TransferTask F → TaskState → ℕ → TransferTask F
  set_state t state now =
      let t' : TransferTask F = record t { state = state } in
      let t'' : TransferTask F =
        if is_active state && t'.started_at == 0 then record t' { started_at = now } else t' in
      if terminal state then record t'' { completed_at = now } else t''

  -- SetError
  unfoldable pub set_error : TransferTask F → Option String → ℕ → TransferTask F
  set_error t e now = record t { error = e; state = failed; completed_at = now }

  -- Cancel of a task on its own, outside the queue.
  unfoldable pub cancel : TransferTask F → ℕ → TransferTask F
  cancel t now =
      let t' : TransferTask F = record t { context_cancelled = true } in
      if is_queued t'.state || is_active t'.state || is_paused t'.state
      then record t' { state = cancelled; completed_at = now }
      else t'

  -- Clone: the copy leaves out what a task keeps for itself, and its context.
  unfoldable pub clone : TransferTask F → TransferTask F
  clone t = record t {
    last_bytes = 0;
    last_update_time = 0;
    last_batch_bytes = 0;
    context_cancelled = false;
  }

  -- UpdateProgress, the deprecated one.
  unfoldable pub update_progress : TransferTask F → F → F → TransferTask F
  update_progress t progress speed = record t { progress = progress; speed = speed }

module _ {F : Type 0} ⦃fl : Float F⦄ where
  -- NewTransferTask, given the identifier that generateTaskID returns.
  unfoldable pub new_transfer_task :
      String → TaskType → String → String → String → ℕ → ℕ → TransferTask F
  new_transfer_task id task_type name source dest size now = record {
    id = id;
    task_type = task_type;
    name = name;
    source = source;
    dest = dest;
    size = size;
    source_label = "";
    batch_id = "";
    batch_label = "";
    state = queued;
    progress = fl.literal 0 1;
    speed = fl.literal 0 1;
    error = none;
    last_bytes = 0;
    last_update_time = 0;
    last_batch_bytes = 0;
    created_at = now;
    started_at = 0;
    completed_at = 0;
    context_cancelled = false;
  }

  -- The smoothed speed: a quarter of the new rate and three quarters of the old speed.
  abbrev smoothed : TransferTask F → F → F
  smoothed t rate =
      if fl.less (fl.literal 0 1) t.speed
      then fl.plus (fl.times (fl.literal 1 4) rate) (fl.times (fl.literal 3 4) t.speed)
      else rate

  -- UpdateProgressWithBytes
  unfoldable pub update_progress_with_bytes : TransferTask F → ℕ → ℕ → ℕ → TransferTask F
  update_progress_with_bytes t bytes total now =
      if total == 0
      then t
      else let t' : TransferTask F = record t {
        progress = fl.divided (fl.of_int bytes) (fl.of_int total);
      } in
        if t'.last_bytes == 0 && ltb 0 bytes
        then record t' {
          started_at = now;
          last_update_time = now;
          last_bytes = bytes;
          speed = fl.literal 0 1;
        }
        else if ltb 0 t'.last_bytes && ltb t'.last_bytes bytes
        then (let elapsed = fl.seconds now t'.last_update_time in
            if fl.less (fl.literal 1 10) elapsed
            then record t' {
              speed = smoothed t' (fl.divided (fl.of_int (bytes - t'.last_bytes)) elapsed);
              last_bytes = bytes;
              last_update_time = now;
            }
            else t')
        else t'
