-- ===== src/Daemon/State/History.antt =====
-- internal/daemon/state.go: what a history of calls leaves of one job, against a machine of its own.
use rescale_interlink.Common.{
  ℕ, ◌+◌, ◌*◌, String, Bool, true, false, not, ◌&&◌, ◌||◌, List, [], ◌∷◌, ◌≡◌, none, some, ltb, leb,
  ◌==◌, ◌===◌, if◌then◌else◌, arith, suc, Option-cases, ===_iff, ◌∙◌, ◌<◌, inl, ap, zero, inr, refl,
}
use rescale_interlink.Common.Map.{get, put, get-put, get-delete}
use rescale_interlink.Daemon.State.{
  State, DownloadedJob, new_state, minute, backoff, skipped, is_downloaded, mark_downloaded,
  set_pending, mark_pending_tag_apply, clear_pending_tag_apply, previous_retries, mark_failed,
  clear_failed, update_last_poll,
}

-- A call that changes the state.
pub data StateCall : Type 0 where
  downloads : String → String → String → ℕ → ℕ → ℕ → StateCall
  marks_pending : String → StateCall
  clears_pending : String → StateCall
  fails : String → String → String → ℕ → StateCall
  clears_failed : String → StateCall
  polls : ℕ → StateCall

unfoldable pub call : State → StateCall → State
call s (downloads id name dir files size now) = mark_downloaded s id name dir files size now
call s (marks_pending id) = mark_pending_tag_apply s id
call s (clears_pending id) = clear_pending_tag_apply s id
call s (fails id name error now) = mark_failed s id name error now
call s (clears_failed id) = clear_failed s id
call s (polls now) = update_last_poll s now

unfoldable pub run : State → List StateCall → State
run s [] = s
run s (c ∷ cs) = run (call s c) cs

-- What is known of one job: nothing, that it is downloaded, or how often in a row it has failed and
-- when it did last. The Boolean is whether its tag is pending.
pub data Status : Type 0 where
  unseen : Status
  done : Bool → Status
  failing : ℕ → ℕ → Bool → Status

abbrev pub failures : Status → ℕ
failures unseen = 0
failures (done pending) = 0
failures (failing n at pending) = n

abbrev pub with_pending : Bool → Status → Status
with_pending p unseen = unseen
with_pending p (done _) = done p
with_pending p (failing n at _) = failing n at p

abbrev pub without_failure : Status → Status
without_failure (failing n at pending) = unseen
without_failure status = status

-- An error without a text counts as a success.
abbrev pub next : String → Status → StateCall → Status
next id status (downloads j name dir files size now) = if j === id then done false else status
next id status (marks_pending j) = if j === id then with_pending true status else status
next id status (clears_pending j) = if j === id then with_pending false status else status
next id status (fails j name error now) =
    if j === id
    then if error === "" then done false else failing (failures status + 1) now false
    else status
next id status (clears_failed j) = if j === id then without_failure status else status
next id status (polls now) = status

unfoldable pub status_after : String → Status → List StateCall → Status
status_after id status [] = status
status_after id status (c ∷ cs) = status_after id (next id status c) cs

-- The minutes to wait after a number of failures.
abbrev pub wait_minutes : ℕ → ℕ
wait_minutes zero = 0
wait_minutes (suc zero) = 5
wait_minutes (suc (suc zero)) = 10
wait_minutes (suc (suc (suc zero))) = 20
wait_minutes (suc (suc (suc (suc _)))) = 30

abbrev pub skips : Status → ℕ → Bool
skips unseen now = false
skips (done pending) now = true
skips (failing n at pending) now =
    leb 5 n || (ltb 0 n && not (at == 0) && ltb now (at + wait_minutes n * minute))

-- The status that an entry shows.
abbrev shown : DownloadedJob → Status
shown job =
    if job.error === ""
    then done job.pending_tag_apply
    else failing job.retry_count job.last_attempt job.pending_tag_apply

status_of : State → String → Status
status_of s id = elim (get s.downloaded id) [ none ↦ unseen | some job ↦ shown job ]

put-status_of :
    (s : State) (j id : String) (job : DownloadedJob)
    → status_of (record s { downloaded = put s.downloaded j job }) id
      ≡ (if j === id then shown job else status_of s id)
unfolding status_of
put-status_of s j id job = rw (status_of, get-put s.downloaded j id job) (ground arith)

set_pending-status_of :
    (s : State) (j id : String) (p : Bool)
    → status_of (set_pending s j p) id
      ≡ (if j === id then with_pending p (status_of s id) else status_of s id)
unfolding status_of set_pending
set_pending-status_of s j id p = elim (Option-cases (get s.downloaded j)) [
  | inl e ↦ ground (arith, e, ===_iff j id)
  | inr (job, e) ↦
      let changed = get-put s.downloaded j id (record job { pending_tag_apply = p }) in
      ground (arith, e, ===_iff j id, changed)
]

clear_failed-status_of :
    (s : State) (j id : String)
    → status_of (clear_failed s j) id
      ≡ (if j === id then without_failure (status_of s id) else status_of s id)
unfolding status_of clear_failed
clear_failed-status_of s j id = elim (Option-cases (get s.downloaded j)) [
  | inl e ↦ ground (arith, e, ===_iff j id)
  | inr (job, e) ↦ ground (arith, e, ===_iff j id, get-delete s.downloaded j id)
]

call-status_of :
    (s : State) (c : StateCall) (id : String) → status_of (call s c) id ≡ next id (status_of s id) c
unfolding status_of call mark_downloaded mark_pending_tag_apply clear_pending_tag_apply set_pending
    mark_failed previous_retries clear_failed update_last_poll
call-status_of s (downloads j name dir files size now) id = put-status_of s j id _
call-status_of s (marks_pending j) id = set_pending-status_of s j id true
call-status_of s (clears_pending j) id = set_pending-status_of s j id false
call-status_of s (fails j name error now) id = put-status_of s j id _ ∙ ground (arith, ===_iff j id)
call-status_of s (clears_failed j) id = clear_failed-status_of s j id
call-status_of s (polls now) id = refl

run-status_of :
    (s : State) (cs : List StateCall) (id : String)
    → status_of (run s cs) id ≡ status_after id (status_of s id) cs
unfolding run status_after
run-status_of s [] id = refl
run-status_of s (c ∷ cs) id =
    run-status_of (call s c) cs id
    ∙ ap (λ status. status_after id status cs) (call-status_of s c id)

-- The backoff, up to the failure after which there is none.
backoff_minutes : (n : ℕ) → n < 5 → 0 < n → backoff n ≡ wait_minutes n * minute
unfolding backoff
backoff_minutes zero h some_failure = absurd (omega arith)
backoff_minutes (suc zero) h some_failure = refl
backoff_minutes (suc (suc zero)) h some_failure = refl
backoff_minutes (suc (suc (suc zero))) h some_failure = refl
backoff_minutes (suc (suc (suc (suc zero)))) h some_failure = refl
backoff_minutes (suc (suc (suc (suc (suc n))))) h some_failure = absurd (omega arith)

skipped-shown : (job : DownloadedJob) (now : ℕ) → skipped job now ≡ skips (shown job) now
unfolding skipped
skipped-shown job now = ground (arith, backoff_minutes job.retry_count)

is_downloaded-status_of :
    (s : State) (id : String) (now : ℕ) → is_downloaded s id now ≡ skips (status_of s id) now
unfolding is_downloaded status_of
is_downloaded-status_of s id now = elim (Option-cases (get s.downloaded id)) [
  | inl e ↦ rw (is_downloaded, status_of, e) refl
  | inr (job, e) ↦ rw (is_downloaded, status_of, e) (skipped-shown job now)
]

-- After any history of calls, whether a job is skipped at an instant depends only on the calls on that
-- job and is what a small machine says: never before it was seen; always once it is downloaded and
-- until it fails; and after it has failed n times in a row, always if n is 5 at least, otherwise for 5,
-- 10, 20 or 30 minutes from the last failure, for n from 1 to 4. A failure with an empty text counts as
-- a download, and one at the zero time is not waited for.
pub is_downloaded-run :
    (path : String) (cs : List StateCall) (id : String) (now : ℕ)
    → is_downloaded (run (new_state path) cs) id now ≡ skips (status_after id unseen cs) now
unfolding status_of new_state get
is_downloaded-run path cs id now =
    is_downloaded-status_of (run (new_state path) cs) id now
    ∙ ap (λ status. skips status now) (run-status_of (new_state path) cs id)
