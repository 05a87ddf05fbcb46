-- ===== src/Transfer/Samples.antt =====
-- Test data: whole numbers in place of float64, and a queue of two tasks.
use rescale_interlink.Common.{
  ℕ, ◌+◌, ◌-◌, ◌*◌, ◌/◌, String, [], ◌∷◌, none, some, true, false, ltb, leb, ◌==◌, if◌then◌else◌,
}
use rescale_interlink.Transfer.Float.{Float}
use rescale_interlink.Transfer.Task.{TransferTask, TaskState, upload, failed, active}
use rescale_interlink.Transfer.Queue.{Queue}

abbrev pub whole_numbers : Float ℕ
whole_numbers = record {
  literal = λ a b. a / b;
  of_int = λ n. n;
  to_int = λ n. n;
  plus = λ a b. a + b;
  minus = λ a b. a - b;
  times = λ a b. a * b;
  divided = λ a b. a / b;
  less = λ a b. ltb a b;
  less_eq = λ a b. leb a b;
  same = λ a b. a == b;
  seconds = λ a b. (a - b) / 1_000_000_000;
}

abbrev pub sample_task : String → TaskState → ℕ → TransferTask ℕ
sample_task id state last_batch_bytes = record {
  id = id;
  task_type = upload;
  name = "mesh.dat";
  source = "/data/mesh.dat";
  dest = "folder";
  size = 100;
  source_label = "PUR";
  batch_id = "run";
  batch_label = "Run";
  state = state;
  progress = 0;
  speed = 0;
  error = none;
  last_bytes = 0;
  last_update_time = 0;
  last_batch_bytes = last_batch_bytes;
  created_at = 1;
  started_at = 0;
  completed_at = 0;
  context_cancelled = false;
}

-- Task "a" is active and has counted 40 of its 100 bytes; task "b" has failed.
abbrev pub sample_heap : ℕ → TransferTask ℕ
sample_heap p = if p == 0 then sample_task "a" active 40 else sample_task "b" failed 100

abbrev pub sample_queue : Queue ℕ
sample_queue = record {
  heap = sample_heap;
  fresh = 2;
  tasks = 0 ∷ 1 ∷ [];
  tasks_by_id = ("a", 0) ∷ ("b", 1) ∷ [];
  cancel_funcs = ("a", 7) ∷ [];
  retry_executor = some 3;
  has_event_bus = true;
  batch_ticker_running = true;
  batch_cancel_funcs = [];
  batch_scan_in_progress = [];
  pre_registered_batches = [];
  batch_bytes_transferred = ("run", 140) ∷ [];
  batch_speed_windows = [];
  batch_files_completed = [];
  batch_file_rate_windows = [];
  batch_discovered_total = [];
  batch_discovered_bytes = [];
  batch_skipped = [];
  batch_prev_eta = [];
  batch_last_eta = [];
  batch_started_at = [];
  published = [];
  called = [];
  retried = [];
}
