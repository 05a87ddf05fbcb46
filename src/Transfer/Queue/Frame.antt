-- ===== src/Transfer/Queue/Frame.antt =====
-- The calls that change no list, index or identifier.
use rescale_interlink.Common.{ℕ, String, List, [], ◌∷◌, Option, ◌≡◌, refl, arith, ◌∙◌, ap}
use rescale_interlink.Transfer.Float.{Float}
use rescale_interlink.Transfer.Queue.{Queue, write, store, call_all, publish_transfer_event}
use rescale_interlink.Transfer.Queue.Track.{
  activate, start_transfer, clear_cancel, fail_if_not_terminal, update_size, update_progress,
  count_bytes,
}
use rescale_interlink.Transfer.Queue.Finish.{
  complete, fail, cancel, cancel_one, cancel_live, retry_reset,
}
use rescale_interlink.Transfer.Queue.Shape.{SameLists, SameTasks}

module _ {F : Type 0} where
  pub record Frame (q q' : Queue F) : Type 0 where
    pub lists : SameLists q q'
    pub ids : (a : ℕ) → (q'.heap a).id ≡ (q.heap a).id

  pub SameTasks-Frame : {q q' : Queue F} → SameTasks q q' → Frame q q'
  SameTasks-Frame h = record { lists = h.lists; ids = λ a. ap (λ heap. (heap a).id) h.heap }

  pub Frame-trans : {q r s : Queue F} → Frame q r → Frame r s → Frame q s
  Frame-trans h k = record {
    lists = record {
      fresh = k.lists.fresh ∙ h.lists.fresh;
      tasks = k.lists.tasks ∙ h.lists.tasks;
      index = k.lists.index ∙ h.lists.index;
    };
    ids = λ a. k.ids a ∙ h.ids a;
  }

  pub Frame-refl : (q : Queue F) → Frame q q
  Frame-refl q = record {
    lists = record { fresh = refl; tasks = refl; index = refl };
    ids = λ a. refl;
  }

  pub activate-Frame : (q : Queue F) (id : String) (now : ℕ) → Frame q (activate q id now).0
  unfolding activate write store publish_transfer_event
  activate-Frame q id now = record { lists = ground arith; ids = λ a. ground arith }

  pub start_transfer-Frame : (q : Queue F) (id : String) → Frame q (start_transfer q id)
  unfolding start_transfer write store publish_transfer_event
  start_transfer-Frame q id = record { lists = ground arith; ids = λ a. ground arith }

  pub fail_if_not_terminal-Frame :
      (q : Queue F) (id : String) (e : Option String) (now : ℕ)
      → Frame q (fail_if_not_terminal q id e now).0
  unfolding fail_if_not_terminal clear_cancel write store publish_transfer_event
  fail_if_not_terminal-Frame q id e now = record { lists = ground arith; ids = λ a. ground arith }

  pub update_size-Frame : (q : Queue F) (id : String) (size : ℕ) → Frame q (update_size q id size)
  unfolding update_size write store
  update_size-Frame q id size = record { lists = ground arith; ids = λ a. ground arith }

  pub count_bytes-Frame : (q : Queue F) (p bytes : ℕ) → Frame q (count_bytes q p bytes)
  unfolding count_bytes write store
  count_bytes-Frame q p bytes = record { lists = ground arith; ids = λ a. ground arith }

  pub fail-Frame :
      (q : Queue F) (id : String) (e : Option String) (now : ℕ) → Frame q (fail q id e now)
  unfolding fail clear_cancel write store publish_transfer_event
  fail-Frame q id e now = record { lists = ground arith; ids = λ a. ground arith }

  pub cancel-Frame : (q : Queue F) (id : String) (now : ℕ) → Frame q (cancel q id now).0
  unfolding cancel call_all clear_cancel write store publish_transfer_event
  cancel-Frame q id now = record { lists = ground arith; ids = λ a. ground arith }

  pub cancel_one-Frame : (q : Queue F) (p now : ℕ) → Frame q (cancel_one q p now)
  unfolding cancel_one clear_cancel write store
  cancel_one-Frame q p now = record { lists = ground arith; ids = λ a. ground arith }

  pub cancel_live-Frame : (q : Queue F) (ps : List ℕ) (now : ℕ) → Frame q (cancel_live q ps now).0
  unfolding cancel_live
  cancel_live-Frame q [] now = Frame-refl q
  cancel_live-Frame q (p ∷ ps) now =
      Frame-trans (cancel_one-Frame q p now) (cancel_live-Frame (cancel_one q p now) ps now)

module _ {F : Type 0} ⦃fl : Float F⦄ where
  pub complete-Frame : (q : Queue F) (id : String) (now : ℕ) → Frame q (complete q id now)
  unfolding complete clear_cancel count_bytes write store publish_transfer_event
  complete-Frame q id now = record { lists = ground arith; ids = λ a. ground arith }

  pub update_progress-Frame :
      (q : Queue F) (id : String) (progress : F) (now : ℕ)
      → Frame q (update_progress q id progress now)
  unfolding update_progress count_bytes write store publish_transfer_event
  update_progress-Frame q id progress now = record { lists = ground arith; ids = λ a. ground arith }

  pub retry_reset-Frame : (q : Queue F) (p : ℕ) → Frame q (retry_reset q p)
  unfolding retry_reset write store publish_transfer_event
  retry_reset-Frame q p = record { lists = ground arith; ids = λ a. ground arith }
