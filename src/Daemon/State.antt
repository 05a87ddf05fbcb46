-- ===== src/Daemon/State.antt =====
-- internal/daemon/state.go: the jobs that the daemon has downloaded or failed to download. A locked
-- method is a step; `now` is what time.Now returns in it. The order of a map is that of its entries.
pub mod History
pub mod Recent
pub mod File
use rescale_interlink.Common.{
  ℕ, ◌-◌, ◌+◌, ◌*◌, ◌^◌, String, Bool, true, false, not, ◌&&◌, ◌||◌, List, [], ◌∷◌, none, some, ltb,
  leb, ◌==◌, ◌===◌, if◌then◌else◌, length, take, keep, map, suc,
}
use rescale_interlink.Common.Int.{ℤ, pos, ltb_ℤ, pos_part}
use rescale_interlink.Common.Map.{Map, get, put, delete}

-- DownloadedJob
pub record DownloadedJob : Type 0 where
  pub job_id : String
  pub job_name : String
  pub downloaded_at : ℕ
  pub output_dir : String
  pub file_count : ℕ
  pub total_size : ℕ
  pub error : String
  pub retry_count : ℕ
  pub last_attempt : ℕ
  pub pending_tag_apply : Bool

-- State
pub record State : Type 0 where
  pub downloaded : Map DownloadedJob
  pub version : String
  pub last_poll : ℕ
  pub file_path : String

-- NewState
unfoldable pub new_state : String → State
new_state file_path = record {
  downloaded = [];
  version = "1.0.0";
  last_poll = 0;
  file_path = file_path;
}

-- 5*time.Minute*time.Duration(1<<(job.RetryCount-1)), and at most 30*time.Minute
abbrev pub minute : ℕ
minute = 60000000000

unfoldable pub backoff : ℕ → ℕ
backoff retry_count =
    let doubled = 5 * minute * 2 ^ (retry_count - 1) in
    if ltb (30 * minute) doubled then 30 * minute else doubled

-- IsDownloaded, for the entry of the job.
unfoldable pub skipped : DownloadedJob → ℕ → Bool
unfolding backoff
skipped job now =
    if job.error === ""
    then true
    else if leb 5 job.retry_count
    then true
    else if ltb 0 job.retry_count && not (job.last_attempt == 0)
    then ltb now (job.last_attempt + backoff job.retry_count)
    else false

-- IsDownloaded
unfoldable pub is_downloaded : State → String → ℕ → Bool
is_downloaded s job_id now = elim (get s.downloaded job_id) [
  | none ↦ false
  | some job ↦ skipped job now
]

-- MarkDownloaded
unfoldable pub mark_downloaded : State → String → String → String → ℕ → ℕ → ℕ → State
mark_downloaded s job_id job_name output_dir file_count total_size now = record s {
  downloaded = put s.downloaded job_id (record {
    job_id = job_id;
    job_name = job_name;
    downloaded_at = now;
    output_dir = output_dir;
    file_count = file_count;
    total_size = total_size;
    error = "";
    retry_count = 0;
    last_attempt = 0;
    pending_tag_apply = false;
  });
}

-- The write through the pointer that MarkPendingTagApply and ClearPendingTagApply find.
unfoldable pub set_pending : State → String → Bool → State
set_pending s job_id pending = elim (get s.downloaded job_id) [
  | none ↦ s
  | some entry ↦ record s {
    downloaded = put s.downloaded job_id (record entry { pending_tag_apply = pending });
  }
]

-- MarkPendingTagApply
unfoldable pub mark_pending_tag_apply : State → String → State
unfolding set_pending
mark_pending_tag_apply s job_id = set_pending s job_id true

-- ClearPendingTagApply
unfoldable pub clear_pending_tag_apply : State → String → State
unfolding set_pending
clear_pending_tag_apply s job_id = set_pending s job_id false

-- PendingTagApplyJobs
pub pending_in : Map DownloadedJob → List String
pending_in [] = []
pending_in ((id, entry) ∷ m) = if entry.pending_tag_apply then id ∷ pending_in m else pending_in m

unfoldable pub pending_tag_apply_jobs : State → List String
unfolding pending_in
pending_tag_apply_jobs s = pending_in s.downloaded

-- The retries that MarkFailed finds.
unfoldable pub previous_retries : State → String → ℕ
previous_retries s job_id = elim (get s.downloaded job_id) [
  | none ↦ 0
  | some existing ↦ if existing.error === "" then 0 else existing.retry_count
]

-- MarkFailed; `error` is err.Error().
unfoldable pub mark_failed : State → String → String → String → ℕ → State
unfolding previous_retries
mark_failed s job_id job_name error now = record s {
  downloaded = put s.downloaded job_id (record {
    job_id = job_id;
    job_name = job_name;
    downloaded_at = now;
    output_dir = "";
    file_count = 0;
    total_size = 0;
    error = error;
    retry_count = previous_retries s job_id + 1;
    last_attempt = now;
    pending_tag_apply = false;
  });
}

-- ClearFailed
unfoldable pub clear_failed : State → String → State
clear_failed s job_id = elim (get s.downloaded job_id) [
  | none ↦ s
  | some job ↦ if job.error === "" then s else record s { downloaded = delete s.downloaded job_id }
]

-- UpdateLastPoll
unfoldable pub update_last_poll : State → ℕ → State
update_last_poll s now = record s { last_poll = now }

abbrev pub succeeded : DownloadedJob → Bool
succeeded job = job.error === ""

abbrev pub jobs : State → List DownloadedJob
jobs s = map (λ entry. entry.1) s.downloaded

-- GetDownloadedCount
pub get_downloaded_count : State → ℕ
get_downloaded_count s = length (keep succeeded (jobs s))

-- GetFailedCount
pub get_failed_count : State → ℕ
get_failed_count s = length (keep (λ job. not (succeeded job)) (jobs s))

-- GetFailedJobs
pub get_failed_jobs : State → List DownloadedJob
get_failed_jobs s = keep (λ job. not (succeeded job)) (jobs s)

-- The inner loop of GetRecentDownloads: downloads[i], and the downloads above it.
pub exchange : DownloadedJob → List DownloadedJob → DownloadedJob × List DownloadedJob
exchange at_i [] = (at_i, [])
exchange at_i (at_j ∷ above) =
    let swaps = ltb at_i.downloaded_at at_j.downloaded_at in
    let rest = exchange (if swaps then at_j else at_i) above in
    (rest.0, (if swaps then at_i else at_j) ∷ rest.1)

-- The outer loop, with as many rounds as there are downloads.
pub exchange_sort : ℕ → List DownloadedJob → List DownloadedJob
unfolding exchange
exchange_sort (suc rounds) (at_i ∷ above) =
    let pass = exchange at_i above in pass.0 ∷ exchange_sort rounds pass.1
exchange_sort _ downloads = downloads

-- GetRecentDownloads
pub get_recent_downloads : State → ℤ → List DownloadedJob
unfolding exchange_sort
get_recent_downloads s limit =
    let found = keep succeeded (jobs s) in
    let downloads = exchange_sort (length found) found in
    if ltb_ℤ (pos 0) limit && ltb_ℤ limit (pos (length downloads))
    then take (pos_part limit) downloads
    else downloads
