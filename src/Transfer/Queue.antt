-- ===== src/Transfer/Queue.antt =====
-- internal/transfer/queue.go: the state of the queue and the helpers of its methods. Tasks are shared
-- by pointer between the list, the index and the callers, so they stand on a heap. A method is a
-- function from the queue to the new queue and its result; what it does between `q.mu.Lock()` and
-- `q.mu.Unlock()` is one step, and a method that unlocks in between is several functions.
pub mod Track
pub mod Finish
pub mod Report
pub mod BatchReport
pub mod Batch
pub mod Calls
pub mod Shape
pub mod Frame
pub mod Index
pub mod History
pub mod CancelAll
pub mod CancelBatch
pub mod Stats
pub mod BatchTotals
pub mod Moves
pub mod Settled
pub mod Accounting
pub mod Pages
pub mod Retrying
use rescale_interlink.Common.{
  ℕ, String, Bool, true, false, not, ◌&&◌, ◌||◌, List, [], ◌∷◌, ◌++◌, Option, none, ◌==◌, ◌===◌,
  if◌then◌else◌,
}
use rescale_interlink.Common.Map.{Map}
use rescale_interlink.Transfer.Task.{TaskType, TransferTask}
use rescale_interlink.Transfer.SpeedWindow.{SpeedWindow}

-- The events.EventType of a transfer event.
pub data EventType : Type 0 where
  transfer_queued transfer_initializing transfer_started transfer_progress : EventType
  transfer_completed transfer_failed transfer_cancelled : EventType

abbrev is_progress : EventType → Bool
is_progress transfer_progress = true
is_progress _ = false

-- BatchStats
pub record BatchStats (F : Type 0) : Type 0 where
  pub batch_id : String
  pub batch_label : String
  pub direction : TaskType
  pub source_label : String
  pub total : ℕ
  pub queued : ℕ
  pub active : ℕ
  pub completed : ℕ
  pub failed : ℕ
  pub cancelled : ℕ
  pub total_bytes : ℕ
  pub progress : F
  pub speed : F
  pub total_known : Bool
  pub files_per_sec : F
  pub eta_seconds : F
  pub discovered_total : ℕ
  pub discovered_bytes : ℕ
  pub started_at : ℕ
  pub skipped : ℕ

-- What the queue hands to the event bus. A batch progress event has most of the fields of the
-- statistics that it is made from, which stand here for it.
pub data Event (F : Type 0) : Type 0 where
  transfer_event : EventType → String → TaskType → String → ℕ → F → F → Option String → Event F
  batch_progress_event : BatchStats F → Event F

-- Queue. A pointer to a task is an address of `heap`; `fresh` is the next one that is not used.
-- A cancel function and a retry executor are known by a number. The fields from `published` on
-- record what the methods do outside the queue, in order: the events handed to the bus, the cancel
-- functions called and the tasks handed to the retry executor.
pub record Queue (F : Type 0) : Type 0 where
  pub heap : ℕ → TransferTask F
  pub fresh : ℕ
  pub tasks : List ℕ
  pub tasks_by_id : Map ℕ
  pub cancel_funcs : Map ℕ
  pub retry_executor : Option ℕ
  pub has_event_bus : Bool
  pub batch_ticker_running : Bool
  pub batch_cancel_funcs : Map ℕ
  pub batch_scan_in_progress : Map Bool
  pub pre_registered_batches : Map (BatchStats F)
  pub batch_bytes_transferred : Map ℕ
  pub batch_speed_windows : Map (SpeedWindow F)
  pub batch_files_completed : Map ℕ
  pub batch_file_rate_windows : Map (SpeedWindow F)
  pub batch_discovered_total : Map ℕ
  pub batch_discovered_bytes : Map ℕ
  pub batch_skipped : Map ℕ
  pub batch_prev_eta : Map F
  pub batch_last_eta : Map F
  pub batch_started_at : Map ℕ
  pub published : List (Event F)
  pub called : List ℕ
  pub retried : List ℕ

module _ {F : Type 0} where
  -- The heap after `*p = t`.
  pub store : (ℕ → TransferTask F) → ℕ → TransferTask F → ℕ → TransferTask F
  store heap p t a = if p == a then t else heap a

  -- The queue after the fields of `*p` are written.
  pub write : Queue F → ℕ → TransferTask F → Queue F
  unfolding store
  write q p t = record q { heap = store q.heap p t }

  -- NewQueue, on a heap that holds nothing of the queue's.
  unfoldable pub new_queue : (ℕ → TransferTask F) → Bool → Queue F
  new_queue heap has_event_bus = record {
    heap = heap;
    fresh = 0;
    tasks = [];
    tasks_by_id = [];
    cancel_funcs = [];
    retry_executor = none;
    has_event_bus = has_event_bus;
    batch_ticker_running = false;
    batch_cancel_funcs = [];
    batch_scan_in_progress = [];
    pre_registered_batches = [];
    batch_bytes_transferred = [];
    batch_speed_windows = [];
    batch_files_completed = [];
    batch_file_rate_windows = [];
    batch_discovered_total = [];
    batch_discovered_bytes = [];
    batch_skipped = [];
    batch_prev_eta = [];
    batch_last_eta = [];
    batch_started_at = [];
    published = [];
    called = [];
    retried = [];
  }

  -- SetRetryExecutor
  pub set_retry_executor : Queue F → Option ℕ → Queue F
  set_retry_executor q executor = record q { retry_executor = executor }

  -- publishTransferEvent: nothing without a bus, and no progress event of a batched task.
  pub publish_transfer_event : Queue F → EventType → ℕ → Queue F
  publish_transfer_event q kind p =
      let t = q.heap p in
      if not q.has_event_bus || (is_progress kind && not (t.batch_id === "")) then q else record q {
        published =
            q.published
            ++ transfer_event kind t.id t.task_type t.name t.size t.progress t.speed t.error ∷ [];
      }

  -- The calls of the stored cancel functions.
  pub call_all : Queue F → List ℕ → Queue F
  call_all q fns = record q { called = q.called ++ fns }

  -- ensureBatchTicker
  pub ensure_batch_ticker : Queue F → Queue F
  ensure_batch_ticker q =
      if q.batch_ticker_running then q else record q { batch_ticker_running = true }
