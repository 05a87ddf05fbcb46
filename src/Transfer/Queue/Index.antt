-- ===== src/Transfer/Queue/Index.antt =====
-- The list of tasks and the index of the queue agree after any history of calls.
use rescale_interlink.Transfer.Float.{Float}
use rescale_interlink.Transfer.Task.{TaskType, TransferTask, is_terminal, new_transfer_task}
use rescale_interlink.Transfer.Queue.{
  transfer_queued, ensure_batch_ticker, Queue, new_queue, store, write,
}
use rescale_interlink.Transfer.Queue.Frame.{SameTasks-Frame, Frame}
use rescale_interlink.Transfer.Queue.Shape.{publish-SameTasks}
use rescale_interlink.Transfer.Queue.Track.{
  track_transfer, track_transfer_with_label, track_transfer_with_batch,
}
use rescale_interlink.Transfer.Queue.Finish.{forget_terminal, clear_completed, live}
use rescale_interlink.Transfer.Pointers.{
  In, In-append_last, In-append_left, below_more, In-below, In-keep, All-keep,
}
use rescale_interlink.Common.{
  All-append, ===_self, Bool-cases, ℕ, ◌<◌, String, Bool, List, [], ◌∷◌, none, some, ◌≡◌, arith,
  ◌∙◌, All, ===_iff, ◌+◌, inl, ◌++◌, ◌===◌, inr, subst, refl, keep, true, false,
}
use rescale_interlink.Common.Map.{Map, get, put, get-put, get-delete}

module _ {F : Type 0} where
  -- Every listed task is found under its identifier, and what the index finds is a listed task with
  -- that identifier; the addresses in use are below the next one.
  pub record IsIndexed (q : Queue F) : Type 0 where
    pub listed : All (λ p. get q.tasks_by_id (q.heap p).id ≡ some p) q.tasks
    pub found :
        (id : String) (p : ℕ) → get q.tasks_by_id id ≡ some p → ((q.heap p).id ≡ id) × In p q.tasks
    pub below : All (λ p. p < q.fresh) q.tasks

  listed_frame :
      (index index' : Map ℕ) (heap heap' : ℕ → TransferTask F) (ps : List ℕ)
      → index' ≡ index
      → ((a : ℕ) → (heap' a).id ≡ (heap a).id)
      → All (λ p. get index (heap p).id ≡ some p) ps
      → All (λ p. get index' (heap' p).id ≡ some p) ps
  listed_frame index index' heap heap' [] e h all = tt
  listed_frame index index' heap heap' (p ∷ ps) e h all =
      (rw (e, h p) all.0, listed_frame index index' heap heap' ps e h all.1)

  pub Frame-IsIndexed : {q q' : Queue F} → Frame q q' → IsIndexed q → IsIndexed q'
  Frame-IsIndexed {q} {q'} h v = record {
    listed =
        rw h.lists.tasks (listed_frame _ _ q.heap q'.heap q.tasks h.lists.index h.ids v.listed);
    found = λ id p e.
        let (same, there) = v.found id p (rw h.lists.index at e) in
        (h.ids p ∙ same, rw h.lists.tasks there);
    below = rw (h.lists.tasks, h.lists.fresh) v.below;
  }

  pub new_queue-IsIndexed :
      (heap : ℕ → TransferTask F) (bus : Bool) → IsIndexed (new_queue heap bus)
  unfolding new_queue get
  new_queue-IsIndexed heap bus = record { listed = tt; found = λ id p e. cc; below = tt }

  -- An address that is not in use can be written.
  listed_store :
      (index : Map ℕ) (heap : ℕ → TransferTask F) (t : TransferTask F) (fresh : ℕ) (ps : List ℕ)
      → get index t.id ≡ none
      → All (λ p. p < fresh) ps
      → All (λ p. get index (heap p).id ≡ some p) ps
      → All (λ p. get (put index t.id fresh) (store heap fresh t p).id ≡ some p) ps
  unfolding store
  listed_store index heap t fresh [] new below all = tt
  listed_store index heap t fresh (p ∷ ps) new below all = (
    ground (arith, get-put index t.id (heap p).id fresh, ===_iff t.id (heap p).id),
    listed_store index heap t fresh ps new below.1 all.1,
  )

  -- A new task under a new identifier, at the next address.
  add_task : Queue F → TransferTask F → Queue F
  unfolding write
  add_task q t = record q {
    heap = store q.heap q.fresh t;
    fresh = q.fresh + 1;
    tasks = q.tasks ++ q.fresh ∷ [];
    tasks_by_id = put q.tasks_by_id t.id q.fresh;
  }

  add_task-IsIndexed :
      (q : Queue F) (t : TransferTask F)
      → get q.tasks_by_id t.id ≡ none
      → IsIndexed q
      → IsIndexed (add_task q t)
  unfolding add_task store
  add_task-IsIndexed q t new v = record {
    listed =
        All-append _ q.tasks (q.fresh ∷ [])
          (listed_store q.tasks_by_id q.heap t q.fresh q.tasks new v.below v.listed)
          (ground (arith, get-put q.tasks_by_id t.id t.id q.fresh, ===_self t.id), tt);
    found = λ id p e. elim (Bool-cases (t.id === id)) [
      | inl same ↦
          let place : q.fresh ≡ p = ground (arith, get-put q.tasks_by_id t.id id q.fresh) in
          (
            ground (arith, ===_iff t.id id),
            subst (λ r. In r (q.tasks ++ q.fresh ∷ [])) place (In-append_last q.fresh q.tasks),
          )
      | inr other ↦
          let old : get q.tasks_by_id id ≡ some p =
            ground (arith, get-put q.tasks_by_id t.id id q.fresh) in
          let (named, there) = v.found id p old in
          let small = In-below p q.fresh q.tasks v.below there in
          (ground arith, In-append_left p q.fresh q.tasks there)
    ];
    below =
        All-append _ q.tasks (q.fresh ∷ []) (below_more q.fresh q.tasks v.below) (omega arith, tt);
  }

  forget_none :
      (heap : ℕ → TransferTask F) (ps : List ℕ) (index : Map ℕ) (id : String)
      → get index id ≡ none
      → get (forget_terminal heap ps index) id ≡ none
  unfolding forget_terminal
  forget_none heap [] index id h = h
  forget_none heap (p ∷ ps) index id h =
      forget_none heap ps _ id (ground (arith, get-delete index (heap p).id id))

  forget_gone :
      (heap : ℕ → TransferTask F) (ps : List ℕ) (index : Map ℕ) (p : ℕ)
      → In p ps
      → is_terminal (heap p) ≡ true
      → get (forget_terminal heap ps index) (heap p).id ≡ none
  unfolding forget_terminal
  forget_gone heap [] index p i h = elim i [ ]
  forget_gone heap (x ∷ ps) index p (inl e) h =
      forget_none heap ps _ (heap p).id
        (ground (arith, get-delete index (heap x).id (heap p).id, ===_self (heap p).id))
  forget_gone heap (x ∷ ps) index p (inr i) h = forget_gone heap ps _ p i h

  forget_subset :
      (heap : ℕ → TransferTask F) (ps : List ℕ) (index : Map ℕ) (id : String) (p : ℕ)
      → get (forget_terminal heap ps index) id ≡ some p
      → get index id ≡ some p
  unfolding forget_terminal
  forget_subset heap [] index id p h = h
  forget_subset heap (x ∷ ps) index id p h =
      let less = forget_subset heap ps _ id p h in
      ground (arith, less, get-delete index (heap x).id id)

  forget_keeps :
      (heap : ℕ → TransferTask F) (ps : List ℕ) (all index : Map ℕ) (id : String) (p : ℕ)
      → All (λ x. get all (heap x).id ≡ some x) ps
      → get all id ≡ some p
      → is_terminal (heap p) ≡ false
      → get index id ≡ some p
      → get (forget_terminal heap ps index) id ≡ some p
  unfolding forget_terminal
  forget_keeps heap [] all index id p l e live h = h
  forget_keeps heap (x ∷ ps) all index id p l e live h =
      forget_keeps heap ps all _ id p l.1 e live
        (ground (arith, l.0, get-delete index (heap x).id id, ===_iff (heap x).id id))

  -- ClearCompleted drops the terminal tasks from the list and from the index alike.
  pub clear_completed-IsIndexed : (q : Queue F) → IsIndexed q → IsIndexed (clear_completed q)
  unfolding clear_completed
  clear_completed-IsIndexed q v = record {
    listed = kept q.tasks v.listed (λ p i. i);
    found = λ id p e.
        let (named, there) = v.found id p (forget_subset q.heap q.tasks q.tasks_by_id id p e) in
        (
          named,
          elim (Bool-cases (is_terminal (q.heap p))) [
            | inl gone ↦
                let forgotten = forget_gone q.heap q.tasks q.tasks_by_id p there gone in
                ground arith
            | inr still ↦ In-keep (live q.heap) p q.tasks there (rw still refl)
          ],
        );
    below = All-keep _ (live q.heap) q.tasks v.below;
  }
    where
      index : Map ℕ
      index = forget_terminal q.heap q.tasks q.tasks_by_id

      kept :
          (ps : List ℕ)
          → All (λ p. get q.tasks_by_id (q.heap p).id ≡ some p) ps
          → ((p : ℕ) → In p ps → In p q.tasks)
          → All (λ p. get index (q.heap p).id ≡ some p) (keep (live q.heap) ps)
      kept [] l inside = tt
      kept (p ∷ ps) l inside = elim (Bool-cases (is_terminal (q.heap p))) [
        | inl gone ↦ rw gone (kept ps l.1 (λ r i. inside r (inr i)))
        | inr still ↦ rw still (
          forget_keeps q.heap q.tasks q.tasks_by_id q.tasks_by_id (q.heap p).id p v.listed l.0 still
              l.0,
          kept ps l.1 (λ r i. inside r (inr i)),
        )
      ]

module _ {F : Type 0} ⦃fl : Float F⦄ where
  track_transfer-IsIndexed :
      (q : Queue F) (id name : String) (size : ℕ) (task_type : TaskType) (source dest : String)
      (now : ℕ)
      → get q.tasks_by_id id ≡ none
      → IsIndexed q
      → IsIndexed (track_transfer q id name size task_type source dest now).0
  unfolding track_transfer add_task write new_transfer_task
  track_transfer-IsIndexed q id name size task_type source dest now new v =
      Frame-IsIndexed
        (SameTasks-Frame (
          publish-SameTasks (add_task q (new_transfer_task id task_type name source dest size now))
            transfer_queued q.fresh))
        (add_task-IsIndexed q (new_transfer_task id task_type name source dest size now) new v)

  track_transfer_with_batch-Frame :
      (q : Queue F) (id name : String) (size : ℕ) (task_type : TaskType)
      (source dest label batch_id batch_label : String) (now : ℕ)
      → Frame
          (track_transfer q id name size task_type source dest now).0
          (track_transfer_with_batch q id name size task_type source dest label batch_id batch_label
            now).0
  unfolding track_transfer_with_batch track_transfer_with_label write store ensure_batch_ticker
  track_transfer_with_batch-Frame q id name size task_type source dest label batch_id batch_label
        now =
      record { lists = ground arith; ids = λ a. ground arith }

  -- TrackTransfer and its two variants make a task under a new identifier.
  pub track_transfer_with_batch-IsIndexed :
      (q : Queue F) (id name : String) (size : ℕ) (task_type : TaskType)
      (source dest label batch_id batch_label : String) (now : ℕ)
      → get q.tasks_by_id id ≡ none
      → IsIndexed q
      → IsIndexed
          (track_transfer_with_batch q id name size task_type source dest label batch_id batch_label
            now).0
  track_transfer_with_batch-IsIndexed q id name size task_type source dest label batch_id
        batch_label now new v =
      Frame-IsIndexed
        (track_transfer_with_batch-Frame q id name size task_type source dest label batch_id
          batch_label now)
        (track_transfer-IsIndexed q id name size task_type source dest now new v)
