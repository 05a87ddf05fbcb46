-- ===== src/Transfer/Queue/Shape.antt =====
-- Which calls leave the list of tasks, the index and the identifiers of the tasks alone, and what
-- each call does to the tasks on the heap.
use rescale_interlink.Common.{ℕ, String, List, [], ◌∷◌, ◌≡◌, refl, arith, ◌∙◌, Bool-cases, inl, inr}
use rescale_interlink.Common.Map.{put}
use rescale_interlink.Transfer.Float.{Float}
use rescale_interlink.Transfer.Queue.{
  Queue, BatchStats, publish_transfer_event, EventType, transfer_cancelled,
}
use rescale_interlink.Transfer.Queue.Finish.{publish_cancelled}
use rescale_interlink.Transfer.Queue.Batch.{
  cleanup_batch_metrics, batch_tick, publish_batch, take_samples, end_tick, publish_batches,
  cleanup_all_metrics, any_running, compute_etas, compute_batch_eta, smooth_eta,
}
use rescale_interlink.Transfer.Queue.Report.{listed_tasks}
use rescale_interlink.Transfer.Queue.BatchReport.{
  get_all_batch_stats, batches_from, fill_all, fill_metrics,
}

module _ {F : Type 0} where
  -- The new queue has the old list, index and next address.
  pub record SameLists (q q' : Queue F) : Type 0 where
    pub fresh : q'.fresh ≡ q.fresh
    pub tasks : q'.tasks ≡ q.tasks
    pub index : q'.tasks_by_id ≡ q.tasks_by_id

  -- It has the old tasks, too.
  pub record SameTasks (q q' : Queue F) : Type 0 where
    pub lists : SameLists q q'
    pub heap : q'.heap ≡ q.heap

  pub SameTasks-refl : (q : Queue F) → SameTasks q q
  SameTasks-refl q = record {
    lists = record { fresh = refl; tasks = refl; index = refl };
    heap = refl;
  }

  pub SameTasks-trans : {q r s : Queue F} → SameTasks q r → SameTasks r s → SameTasks q s
  SameTasks-trans h k = record {
    lists = record {
      fresh = k.lists.fresh ∙ h.lists.fresh;
      tasks = k.lists.tasks ∙ h.lists.tasks;
      index = k.lists.index ∙ h.lists.index;
    };
    heap = k.heap ∙ h.heap;
  }

  pub publish-SameTasks :
      (q : Queue F) (kind : EventType) (p : ℕ) → SameTasks q (publish_transfer_event q kind p)
  unfolding publish_transfer_event
  publish-SameTasks q kind p = ground arith

  pub publish_cancelled-SameTasks :
      (q : Queue F) (ps : List ℕ) → SameTasks q (publish_cancelled q ps)
  unfolding publish_cancelled
  publish_cancelled-SameTasks q [] = SameTasks-refl q
  publish_cancelled-SameTasks q (p ∷ ps) =
      SameTasks-trans (publish-SameTasks q transfer_cancelled p)
        (publish_cancelled-SameTasks (publish_transfer_event q transfer_cancelled p) ps)

module _ {F : Type 0} ⦃fl : Float F⦄ where
  fill_all-SameTasks : (q : Queue F) (ss : List (BatchStats F)) → SameTasks q (fill_all q ss).0
  unfolding fill_all fill_metrics
  fill_all-SameTasks q [] = SameTasks-refl q
  fill_all-SameTasks q (s ∷ ss) =
      SameTasks-trans (ground arith) (fill_all-SameTasks (fill_metrics q s).0 ss)

  compute_batch_eta-SameTasks :
      (unknown : F) (q : Queue F) (id : String) (s : BatchStats F)
      → SameTasks q (compute_batch_eta unknown q id s).0
  unfolding compute_batch_eta smooth_eta
  compute_batch_eta-SameTasks unknown q id s = ground arith

  compute_etas-SameTasks :
      (unknown : F) (q : Queue F) (ss : List (BatchStats F))
      → SameTasks q (compute_etas unknown q ss).0
  unfolding compute_etas
  compute_etas-SameTasks unknown q [] = SameTasks-refl q
  compute_etas-SameTasks unknown q (s ∷ ss) =
      let (q', eta) = compute_batch_eta unknown q s.batch_id s in
      SameTasks-trans
        (SameTasks-trans (compute_batch_eta-SameTasks unknown q s.batch_id s)
          (record { lists = record { fresh = refl; tasks = refl; index = refl }; heap = refl }))
        (compute_etas-SameTasks unknown
          (record q' { batch_last_eta = put q'.batch_last_eta s.batch_id eta }) ss)

  publish_batches-SameTasks :
      (q : Queue F) (ss : List (BatchStats F)) → SameTasks q (publish_batches q ss)
  unfolding publish_batches publish_batch
  publish_batches-SameTasks q [] = SameTasks-refl q
  publish_batches-SameTasks q (s ∷ ss) =
      SameTasks-trans (ground arith) (publish_batches-SameTasks (publish_batch q s) ss)

  cleanup_all_metrics-SameTasks :
      (q : Queue F) (ss : List (BatchStats F)) → SameTasks q (cleanup_all_metrics q ss)
  unfolding cleanup_all_metrics cleanup_batch_metrics
  cleanup_all_metrics-SameTasks q [] = SameTasks-refl q
  cleanup_all_metrics-SameTasks q (s ∷ ss) =
      SameTasks-trans (ground arith)
        (cleanup_all_metrics-SameTasks (cleanup_batch_metrics q s.batch_id) ss)

  pub get_all_batch_stats-SameTasks : (q : Queue F) → SameTasks q (get_all_batch_stats q).0
  unfolding get_all_batch_stats
  get_all_batch_stats-SameTasks q = fill_all-SameTasks q (batches_from q [] (listed_tasks q))

  end_tick-SameTasks : (q : Queue F) (ss : List (BatchStats F)) → SameTasks q (end_tick q ss)
  unfolding end_tick
  end_tick-SameTasks q [] = record {
    lists = record { fresh = refl; tasks = refl; index = refl };
    heap = refl;
  }
  end_tick-SameTasks q (s ∷ ss) = elim (Bool-cases (any_running (s ∷ ss))) [
    | inl e ↦ rw e (SameTasks-refl q)
    | inr e ↦
        let h = cleanup_all_metrics-SameTasks q (s ∷ ss) in
        rw e (record {
          lists = record { fresh = h.lists.fresh; tasks = h.lists.tasks; index = h.lists.index };
          heap = h.heap;
        })
  ]

  sampled : (q : Queue F) (now : ℕ) → SameTasks q (take_samples q now)
  unfolding take_samples
  sampled q now = record {
    lists = record { fresh = refl; tasks = refl; index = refl };
    heap = refl;
  }

  pub batch_tick-SameTasks :
      (unknown : F) (q : Queue F) (now : ℕ) → SameTasks q (batch_tick unknown q now)
  unfolding batch_tick
  batch_tick-SameTasks unknown q now =
      let (q₁, stats) = get_all_batch_stats (take_samples q now) in
      let (q₂, timed) = compute_etas unknown q₁ stats in
      SameTasks-trans (sampled q now) (
        SameTasks-trans (get_all_batch_stats-SameTasks (take_samples q now)) (
          SameTasks-trans (compute_etas-SameTasks unknown q₁ stats) (
            SameTasks-trans (publish_batches-SameTasks q₂ timed)
              (end_tick-SameTasks (publish_batches q₂ timed) timed))))
