-- ===== src/Transfer/Queue/Stats.antt =====
-- internal/transfer/queue.go: the counts of GetStats, and what ClearCompleted does to them.
use rescale_interlink.Common.{ℕ, ◌+◌, Bool, List, [], ◌∷◌, ◌≡◌, arith, length, keep, if◌then◌else◌}
use rescale_interlink.Transfer.Task.{
  TaskState, TransferTask, queued, initializing, active, paused, completed, failed, cancelled,
  is_queued, is_initializing, is_active, is_paused, is_completed, is_failed, is_cancelled,
  is_terminal, terminal,
}
use rescale_interlink.Transfer.Queue.{Queue}
use rescale_interlink.Transfer.Queue.Finish.{clear_completed, live}
use rescale_interlink.Transfer.Queue.Report.{
  QueueStats, total, no_stats, count_state, stats_from, get_stats,
}

-- The test for a state, and the count of it.
abbrev pub in_state : TaskState → TaskState → Bool
in_state queued s = is_queued s
in_state initializing s = is_initializing s
in_state active s = is_active s
in_state paused s = is_paused s
in_state completed s = is_completed s
in_state failed s = is_failed s
in_state cancelled s = is_cancelled s

abbrev pub count_of : TaskState → QueueStats → ℕ
count_of queued c = c.queued
count_of initializing c = c.initializing
count_of active c = c.active
count_of paused c = c.paused
count_of completed c = c.completed
count_of failed c = c.failed
count_of cancelled c = c.cancelled

count_state-count_of :
    (s t : TaskState) (c : QueueStats)
    → count_of s (count_state t c) ≡ (if in_state s t then 1 else 0) + count_of s c
unfolding count_state
count_state-count_of s t c = ground arith

count_state-total : (t : TaskState) (c : QueueStats) → total (count_state t c) ≡ total c + 1
unfolding count_state total
count_state-total t c = ground arith

count_of_none : (s : TaskState) → count_of s no_stats ≡ 0
count_of_none s = ground arith

module _ {F : Type 0} where
  -- How many of the tasks are in a state.
  abbrev pub number_in : (ℕ → TransferTask F) → TaskState → List ℕ → ℕ
  number_in heap s ps = length (keep (λ p. in_state s (heap p).state) ps)

  stats_from_lem :
      (heap : ℕ → TransferTask F) (s : TaskState) (c : QueueStats) (ps : List ℕ)
      → count_of s (stats_from heap c ps) ≡ number_in heap s ps + count_of s c
  unfolding stats_from
  stats_from_lem heap s c [] = omega arith
  stats_from_lem heap s c (p ∷ ps) = ground (
    arith,
    count_state-count_of s (heap p).state c,
    stats_from_lem heap s (count_state (heap p).state c) ps,
  )

  stats_from-total :
      (heap : ℕ → TransferTask F) (c : QueueStats) (ps : List ℕ)
      → total (stats_from heap c ps) ≡ length ps + total c
  unfolding stats_from
  stats_from-total heap c [] = omega arith
  stats_from-total heap c (p ∷ ps) = ground (
    arith,
    count_state-total (heap p).state c,
    stats_from-total heap (count_state (heap p).state c) ps,
  )

  -- GetStats counts, for each state, the listed tasks in that state, and Total of its result is the
  -- number of listed tasks.
  pub get_stats_lem :
      (q : Queue F)
      → ((s : TaskState) → count_of s (get_stats q) ≡ number_in q.heap s q.tasks)
        × (total (get_stats q) ≡ length q.tasks)
  unfolding get_stats total
  get_stats_lem q = (
    λ s. omega (arith, stats_from_lem q.heap s no_stats q.tasks, count_of_none s),
    omega (arith, stats_from-total q.heap no_stats q.tasks),
  )

  number_in-live :
      (heap : ℕ → TransferTask F) (s : TaskState) (ps : List ℕ)
      → number_in heap s (keep (live heap) ps) ≡ (if terminal s then 0 else number_in heap s ps)
  unfolding is_terminal
  number_in-live heap s [] = ground arith
  number_in-live heap s (p ∷ ps) = ground (arith, number_in-live heap s ps)

  -- After ClearCompleted, GetStats reports no completed, failed or cancelled task, and as many tasks
  -- in every other state as before.
  pub get_stats-clear_completed :
      (q : Queue F) (s : TaskState)
      → count_of s (get_stats (clear_completed q))
        ≡ (if terminal s then 0 else count_of s (get_stats q))
  unfolding clear_completed
  get_stats-clear_completed q s =
      rw ((get_stats_lem (clear_completed q)).0 s, (get_stats_lem q).0 s)
        (number_in-live q.heap s q.tasks)
