-- ===== src/Transfer/Queue/CancelBatch.antt =====
-- internal/transfer/queue.go: what CancelBatch does to the tasks of the batch and to the others.
use rescale_interlink.Common.{
  ℕ, true, String, List, [], ◌∷◌, ◌≡◌, ◌≢◌, refl, arith, inl, inr, ◌∙◌, ===_iff,
}
use rescale_interlink.Transfer.Task.{terminal}
use rescale_interlink.Transfer.Pointers.{In, In-keep, keep-In}
use rescale_interlink.Transfer.Queue.{Queue, write, store}
use rescale_interlink.Transfer.Queue.Track.{clear_cancel}
use rescale_interlink.Transfer.Queue.Finish.{cancel_one, cancel_live}
use rescale_interlink.Transfer.Queue.Batch.{
  cancel_batch, scan_stopped, batch_relocked, batch_collected, in_batch, cleanup_batch,
  cleanup_batch_metrics,
}
use rescale_interlink.Transfer.Queue.CancelAll.{Drops, cancel_live_all, cancel_live-Drops}
use rescale_interlink.Transfer.Queue.Shape.{publish_cancelled-SameTasks}

module _ {F : Type 0} where
  cancel_one_other : (q : Queue F) (p now a : ℕ) → p ≢ a → (cancel_one q p now).heap a ≡ q.heap a
  unfolding cancel_one clear_cancel write store
  cancel_one_other q p now a ne = ground arith

  cancel_live_other :
      (q : Queue F) (ps : List ℕ) (now a : ℕ)
      → (In a ps → ⊥)
      → (cancel_live q ps now).0.heap a ≡ q.heap a
  unfolding cancel_live
  cancel_live_other q [] now a out = refl
  cancel_live_other q (p ∷ ps) now a out =
      cancel_live_other (cancel_one q p now) ps now a (λ i. out (inr i))
      ∙ cancel_one_other q p now a (λ e. out (inl e))

  cancel_batch-heap :
      (scan_stops meanwhile : Queue F → Queue F) (q : Queue F) (id : String) (now : ℕ)
      → (cancel_batch scan_stops meanwhile q id now).heap
        ≡ (cancel_live
            (batch_relocked meanwhile (scan_stopped scan_stops q id) id)
            (batch_collected (scan_stopped scan_stops q id) id)
            now).0.heap
  unfolding cancel_batch cleanup_batch cleanup_batch_metrics
  cancel_batch-heap scan_stops meanwhile q id now =
      let q₁ = scan_stopped scan_stops q id in
      let (q₂, done) = cancel_live (batch_relocked meanwhile q₁ id) (batch_collected q₁ id) now in
      (publish_cancelled-SameTasks q₂ done).heap

  collected_batch :
      (q : Queue F) (id : String) (a : ℕ) → in_batch q id a ≡ true → (q.heap a).batch_id ≡ id
  collected_batch q id a h = ground (arith, ===_iff (q.heap a).batch_id id)

  -- CancelBatch, whatever is done to the queue while it calls cancel functions: each task that was
  -- listed and in the batch and not terminal when the tasks were collected is terminal in the end, in
  -- the state that it had when the lock was taken again, or cancelled if that was not terminal; a task
  -- that was in another batch then is left as it was when the lock was taken again.
  pub cancel_batch_lem :
      (scan_stops meanwhile : Queue F → Queue F) (q : Queue F) (id : String) (now a : ℕ)
      → (In a (scan_stopped scan_stops q id).tasks
          → in_batch (scan_stopped scan_stops q id) id a ≡ true
          → (terminal ((cancel_batch scan_stops meanwhile q id now).heap a).state ≡ true)
            × Drops
                ((batch_relocked meanwhile (scan_stopped scan_stops q id) id).heap a).state
                ((cancel_batch scan_stops meanwhile q id now).heap a).state)
        × (((scan_stopped scan_stops q id).heap a).batch_id ≢ id
            → (cancel_batch scan_stops meanwhile q id now).heap a
              ≡ (batch_relocked meanwhile (scan_stopped scan_stops q id) id).heap a)
  cancel_batch_lem scan_stops meanwhile q id now a =
      let q₁ = scan_stopped scan_stops q id in
      let q₂ = batch_relocked meanwhile q₁ id in
      let final = cancel_batch-heap scan_stops meanwhile q id now in
      rw final (
        λ i h. (
          cancel_live_all q₂ (batch_collected q₁ id) now a
              (In-keep (in_batch q₁ id) a q₁.tasks i h),
          cancel_live-Drops q₂ (batch_collected q₁ id) now a,
        ),
        λ ne.
            cancel_live_other q₂ (batch_collected q₁ id) now a
              (λ i. ne (collected_batch q₁ id a (keep-In (in_batch q₁ id) a q₁.tasks i).1)),
      )
