-- ===== src/Transfer/Queue/CancelAll.antt =====
-- internal/transfer/queue.go: what the locked parts of CancelAll and CancelBatch do to each task,
-- whatever happened while the lock was released.
use rescale_interlink.Common.{ℕ, true, false, List, [], ◌∷◌, ◌≡◌, refl, ◌⊎◌, inl, inr, arith, subst}
use rescale_interlink.Transfer.Task.{TaskState, cancelled, is_terminal, terminal}
use rescale_interlink.Transfer.Pointers.{In, In-keep}
use rescale_interlink.Transfer.Queue.{Queue, write, store}
use rescale_interlink.Transfer.Queue.Track.{clear_cancel}
use rescale_interlink.Transfer.Queue.Finish.{
  cancel_one, cancel_live, cancel_all, collected, relocked, cancellable,
}
use rescale_interlink.Transfer.Queue.Shape.{publish_cancelled-SameTasks}

-- The state of a task after some rounds: as before, or cancelled if it was not terminal.
abbrev pub Drops : TaskState → TaskState → Type 0
Drops s t = (t ≡ s) ⊎ ((terminal s ≡ false) × (t ≡ cancelled))

stays_terminal : (s t : TaskState) → Drops s t → terminal s ≡ true → terminal t ≡ true
stays_terminal s t d h = ground arith

module _ {F : Type 0} where
  cancel_one-Drops :
      (q : Queue F) (p now a : ℕ) → Drops (q.heap a).state ((cancel_one q p now).heap a).state
  unfolding cancel_one clear_cancel write store is_terminal
  cancel_one-Drops q p now a = ground arith

  cancel_one_self : (q : Queue F) (p now : ℕ) → terminal ((cancel_one q p now).heap p).state ≡ true
  unfolding cancel_one clear_cancel write store is_terminal
  cancel_one_self q p now = ground arith

  pub cancel_live-Drops :
      (q : Queue F) (ps : List ℕ) (now a : ℕ)
      → Drops (q.heap a).state ((cancel_live q ps now).0.heap a).state
  unfolding cancel_live
  cancel_live-Drops q [] now a = inl refl
  cancel_live-Drops q (p ∷ ps) now a =
      ground (arith, cancel_one-Drops q p now a, cancel_live-Drops (cancel_one q p now) ps now a)

  -- Every task of the list is terminal in the end.
  pub cancel_live_all :
      (q : Queue F) (ps : List ℕ) (now a : ℕ)
      → In a ps
      → terminal ((cancel_live q ps now).0.heap a).state ≡ true
  unfolding cancel_live
  cancel_live_all q [] now a i = elim i [ ]
  cancel_live_all q (p ∷ ps) now a (inl e) =
      subst (λ b. terminal ((cancel_live (cancel_one q p now) ps now).0.heap b).state ≡ true) e
        (stays_terminal _ _ (cancel_live-Drops (cancel_one q p now) ps now p)
          (cancel_one_self q p now))
  cancel_live_all q (p ∷ ps) now a (inr i) = cancel_live_all (cancel_one q p now) ps now a i

  -- CancelAll, whatever is done to the queue while it calls the cancel functions: each listed task that
  -- was queued, initializing or active when it began is terminal when it returns, and its state is the
  -- one that it had when the lock was taken again, or cancelled if that was not terminal.
  pub cancel_all_lem :
      (meanwhile : Queue F → Queue F) (q : Queue F) (now a : ℕ)
      → In a q.tasks
      → cancellable (q.heap a).state ≡ true
      → (terminal ((cancel_all meanwhile q now).heap a).state ≡ true)
        × Drops ((relocked meanwhile q).heap a).state ((cancel_all meanwhile q now).heap a).state
  unfolding cancel_all collected
  cancel_all_lem meanwhile q now a i h =
      let (q', done) = cancel_live (relocked meanwhile q) (collected q) now in
      let quiet = publish_cancelled-SameTasks q' done in
      rw quiet.heap (
        cancel_live_all (relocked meanwhile q) (collected q) now a
            (In-keep (λ p. cancellable (q.heap p).state) a q.tasks i h),
        cancel_live-Drops (relocked meanwhile q) (collected q) now a,
      )
