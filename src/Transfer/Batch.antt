-- ===== src/Transfer/Batch.antt =====
-- internal/transfer/batch.go: RunBatch, its workers as a relation of steps, and the number of workers.
pub mod Workers
pub mod Results
pub mod Scaling
use rescale_interlink.Common.{
  ℕ, ◌+◌, Bool, true, false, List, [], ◌∷◌, ◌++◌, Option, none, some, ◌≡◌, ltb, leb, ◌==◌,
  if◌then◌else◌, length, map, get_elem?, set, replicate, suc,
}
use rescale_interlink.Common.Int.{ℤ, pos, ltb_ℤ, pos_part}
use rescale_interlink.Transfer.Float.{Float}
use rescale_interlink.Resources.Limits.{max_max_concurrent}
use rescale_interlink.Resources.Pool.{Manager}
use rescale_interlink.Resources.Pool.Concurrency.{compute_batch_concurrency}

-- BatchConfig, without the label, the hook and the pointer for the live count.
pub record BatchConfig : Type 0 where
  pub max_workers : ℤ
  pub resource_mgr : Manager
  pub force_sequential : Bool

-- `maxWorkers`
unfoldable pub max_workers_of : BatchConfig → ℕ
max_workers_of cfg =
    if ltb_ℤ (pos 0) cfg.max_workers then pos_part cfg.max_workers else max_max_concurrent

-- computeWorkers; `file_size` is FileSize of an item, `cores` and `memory` are those of the manager.
unfoldable pub compute_workers :
    {F : Type 0} {T : Type 0} → Float F → ℕ → ℕ → (T → ℕ) → List T → BatchConfig → ℕ
unfolding max_workers_of
compute_workers fl cores memory file_size items cfg =
    let workers =
      compute_batch_concurrency fl cores memory cfg.resource_mgr (map file_size items)
        (max_workers_of cfg) in
    let needed = if ltb (length items) workers then length items else workers in
    if cfg.force_sequential then 1 else if ltb needed 1 then 1 else needed

-- ComputedWorkers
pub computed_workers :
    {F : Type 0} {T : Type 0} → Float F → ℕ → ℕ → (T → ℕ) → List T → BatchConfig → ℕ
unfolding compute_workers
computed_workers fl cores memory file_size [] cfg = 1
computed_workers fl cores memory file_size (x ∷ xs) cfg =
    compute_workers fl cores memory file_size (x ∷ xs) cfg

-- Where a worker's goroutine is: at the channel, before the test of the context with an item in hand,
-- in execute, before the append of an error, or behind wg.Done().
pub data Worker (T E : Type 0) : Type 0 where
  waiting : Worker T E
  holding : T → Worker T E
  executing : T → Worker T E
  reporting : E → Worker T E
  finished : Worker T E

-- BatchResult
pub record BatchResult (E : Type 0) : Type 0 where
  pub completed : ℕ
  pub failed : ℕ
  pub skipped : ℕ
  pub errors : List E

-- A run of RunBatch: what is left in the channel `work`, the workers, the counters and `errs`, whether
-- the context is cancelled, and as a record of the run the items that execute was called on, in order,
-- and those that were received and not executed.
pub record Batch (T E : Type 0) : Type 0 where
  pub work : List T
  pub workers : List (Worker T E)
  pub completed : ℕ
  pub failed : ℕ
  pub errs : List E
  pub cancelled : Bool
  pub executed : List T
  pub dropped : List T

module _ {T E : Type 0} where
  -- The workers of RunBatch as they are spawned, on a full channel that is closed.
  unfoldable pub spawned : ℕ → List T → Batch T E
  spawned num_workers items = record {
    work = items;
    workers = replicate num_workers waiting;
    completed = 0;
    failed = 0;
    errs = [];
    cancelled = false;
    executed = [];
    dropped = [];
  }

  -- What RunBatch returns behind wg.Wait().
  pub result : Batch T E → BatchResult E
  result b = record { completed = b.completed; failed = b.failed; skipped = 0; errors = b.errs }

  abbrev pub worker : Batch T E → ℕ → Option (Worker T E)
  worker b i = get_elem? b.workers i

  -- One step of the worker at a place, or of the context.
  pub data Step (b : Batch T E) : Batch T E → Type 0 where
    receive :
        (i : ℕ) {x : T} {xs : List T}
        → worker b i ≡ some waiting
        → b.work ≡ x ∷ xs
        → Step b (record b { work = xs; workers = set b.workers i (holding x) })
    leave :
        (i : ℕ)
        → worker b i ≡ some waiting
        → b.work ≡ []
        → Step b (record b { workers = set b.workers i finished })
    give_up :
        (i : ℕ) {x : T}
        → worker b i ≡ some (holding x)
        → b.cancelled ≡ true
        → Step b (record b { workers = set b.workers i finished; dropped = x ∷ b.dropped })
    execute :
        (i : ℕ) {x : T}
        → worker b i ≡ some (holding x)
        → b.cancelled ≡ false
        → Step b
            (record b { workers = set b.workers i (executing x); executed = b.executed ++ x ∷ [] })
    succeed :
        (i : ℕ) {x : T}
        → worker b i ≡ some (executing x)
        → Step b (record b { workers = set b.workers i waiting; completed = b.completed + 1 })
    fail :
        (i : ℕ) {x : T} (e : E)
        → worker b i ≡ some (executing x)
        → Step b (record b { workers = set b.workers i (reporting e); failed = b.failed + 1 })
    report :
        (i : ℕ) {e : E}
        → worker b i ≡ some (reporting e)
        → Step b (record b { workers = set b.workers i waiting; errs = b.errs ++ e ∷ [] })
    cancel : b.cancelled ≡ false → Step b (record b { cancelled = true })

  -- A number of steps.
  pub data Steps (b : Batch T E) : ℕ → Batch T E → Type 0 where
    start : Steps b 0 b
    later : {n : ℕ} {c d : Batch T E} → Steps b n c → Step c d → Steps b (suc n) d
