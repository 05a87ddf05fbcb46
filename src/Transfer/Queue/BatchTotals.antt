-- ===== src/Transfer/Queue/BatchTotals.antt =====
-- internal/transfer/queue.go: the totals that GetAllBatchStats reports for a batch, against its tasks.
use rescale_interlink.Common.{
  ℕ, ◌+◌, ◌<◌, String, List, [], ◌∷◌, ◌++◌, ◌≡◌, ◌≢◌, refl, arith, map, if◌then◌else◌, ◌===◌,
  ===_iff, ◌∙◌, Bool-cases, inl, inr, ap,
}
use rescale_interlink.Transfer.Float.{Float}
use rescale_interlink.Transfer.Task.{TransferTask}
use rescale_interlink.Transfer.Queue.{Queue, BatchStats}
use rescale_interlink.Transfer.Queue.Report.{listed_tasks}
use rescale_interlink.Transfer.Queue.BatchReport.{
  count_in_batch, add_task, new_batch, add_to_batches, batches_from, fill_metrics, fill_all,
  pre_registered, batch_progress, get_all_batch_stats,
}

module _ {F : Type 0} where
  -- What a list of statistics says of a batch: the number of its tasks and of their bytes.
  abbrev pub reported : String → List (BatchStats F) → ℕ × ℕ
  reported id [] = (0, 0)
  reported id (s ∷ ss) = if s.batch_id === id then (s.total, s.total_bytes) else reported id ss

  -- The same, from the tasks.
  abbrev pub tasks_in : String → List (TransferTask F) → ℕ
  tasks_in id [] = 0
  tasks_in id (t ∷ ts) = (if t.batch_id === id then 1 else 0) + tasks_in id ts

  abbrev pub bytes_in : String → List (TransferTask F) → ℕ
  bytes_in id [] = 0
  bytes_in id (t ∷ ts) = (if t.batch_id === id then t.size else 0) + bytes_in id ts

  add_task_lem :
      (t : TransferTask F) (s : BatchStats F)
      → ((add_task t s).total ≡ s.total + 1)
        × ((add_task t s).total_bytes ≡ s.total_bytes + t.size)
        × ((add_task t s).batch_id ≡ s.batch_id)
  unfolding add_task count_in_batch
  add_task_lem t s = ground arith

module _ {F : Type 0} ⦃fl : Float F⦄ where
  add_to_batches_lem :
      (q : Queue F) (t : TransferTask F) (ss : List (BatchStats F)) (id : String)
      → ((reported id (add_to_batches q t ss)).0
          ≡ (if t.batch_id === id then 1 else 0) + (reported id ss).0)
        × ((reported id (add_to_batches q t ss)).1
            ≡ (if t.batch_id === id then t.size else 0) + (reported id ss).1)
  unfolding add_to_batches new_batch
  add_to_batches_lem q t [] id = ground (arith, add_task_lem t (new_batch q t))
  add_to_batches_lem q t (s ∷ ss) id = ground (
    arith,
    add_task_lem t s,
    add_to_batches_lem q t ss id,
    ===_iff s.batch_id t.batch_id,
    ===_iff s.batch_id id,
    ===_iff t.batch_id id,
  )

  batches_from_lem :
      (q : Queue F) (ss : List (BatchStats F)) (ts : List (TransferTask F)) (id : String)
      → id ≢ ""
      → ((reported id (batches_from q ss ts)).0 ≡ tasks_in id ts + (reported id ss).0)
        × ((reported id (batches_from q ss ts)).1 ≡ bytes_in id ts + (reported id ss).1)
  unfolding batches_from
  batches_from_lem q ss [] id h = ground arith
  batches_from_lem q ss (t ∷ ts) id h = elim (Bool-cases (t.batch_id === "")) [
    | inl e ↦ rw e (
        ground (arith, batches_from_lem q ss ts id h, ===_iff t.batch_id "", ===_iff t.batch_id id))
    | inr e ↦ rw e (
        ground
          (arith, batches_from_lem q (add_to_batches q t ss) ts id h, add_to_batches_lem q t ss id))
  ]

  fill_metrics_lem :
      (q : Queue F) (s : BatchStats F)
      → ((fill_metrics q s).1.total ≡ s.total)
        × ((fill_metrics q s).1.total_bytes ≡ s.total_bytes)
        × ((fill_metrics q s).1.batch_id ≡ s.batch_id)
  unfolding fill_metrics
  fill_metrics_lem q s = (refl, refl, refl)

  fill_all_lem :
      (q : Queue F) (ss : List (BatchStats F)) (id : String)
      → reported id (fill_all q ss).1 ≡ reported id ss
  unfolding fill_all fill_metrics
  fill_all_lem q [] id = refl
  fill_all_lem q (s ∷ ss) id =
      ap (λ r. if s.batch_id === id then (s.total, s.total_bytes) else r)
        (fill_all_lem (fill_metrics q s).0 ss id)

  finish_lem :
      (q : Queue F) (ss : List (BatchStats F)) (id : String)
      → reported id (map (λ (s : BatchStats F). record s { progress = batch_progress q s }) ss)
        ≡ reported id ss
  finish_lem q [] id = refl
  finish_lem q (s ∷ ss) id =
      ap (λ r. if s.batch_id === id then (s.total, s.total_bytes) else r) (finish_lem q ss id)

  reported-append :
      (xs ys : List (BatchStats F)) (id : String)
      → 0 < (reported id xs).0
      → reported id (xs ++ ys) ≡ reported id xs
  reported-append [] ys id h = absurd (omega arith)
  reported-append (x ∷ xs) ys id h = ground (arith, reported-append xs ys id)

  -- For a batch that has a listed task, GetAllBatchStats reports as its totals the number of listed
  -- tasks of the batch and the sum of their sizes.
  pub get_all_batch_stats_totals :
      (q : Queue F) (id : String)
      → id ≢ ""
      → 0 < tasks_in id (listed_tasks q)
      → ((reported id (get_all_batch_stats q).1).0 ≡ tasks_in id (listed_tasks q))
        × ((reported id (get_all_batch_stats q).1).1 ≡ bytes_in id (listed_tasks q))
  unfolding get_all_batch_stats
  get_all_batch_stats_totals q id h some_task =
      let ss = batches_from q [] (listed_tasks q) in
      let (q', filled) = fill_all q ss in
      let more = pre_registered q' filled q'.pre_registered_batches in
      let (count, bytes) = batches_from_lem q [] (listed_tasks q) id h in
      let same = fill_all_lem q ss id in
      let found : 0 < (reported id filled).0 = rw same (omega (arith, count, some_task)) in
      let all_same =
        finish_lem q' (filled ++ more) id ∙ reported-append filled more id found ∙ same in
      (ap (λ r. r.0) all_same ∙ count ∙ omega arith, ap (λ r. r.1) all_same ∙ bytes ∙ omega arith)
