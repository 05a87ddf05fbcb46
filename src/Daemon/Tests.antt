-- ===== src/Daemon/Tests.antt =====
-- internal/daemon, at concrete inputs: a disk in memory, a small history and a small buffer.
use Prim.Native.Nat.{min}
use mathlib.Core.List.{Perm}
use rescale_interlink.Common.{
  ℕ, String, Bool, true, false, List, [], ◌∷◌, none, some, ◌≡◌, ◌≢◌, refl, arith, Option-cases, inl,
  inr, ===_self, ===_ne, keep, ◌+◌, ◌*◌,
}
use rescale_interlink.Common.Int.{pos}
use rescale_interlink.Common.Map.{Map, get, put, delete, get-put, get-delete}
use rescale_interlink.Daemon.State.{
  State, DownloadedJob, new_state, minute, is_downloaded, succeeded, jobs, get_recent_downloads,
}
use rescale_interlink.Daemon.State.History.{
  StateCall, downloads, fails, marks_pending, clears_failed, polls, run, unseen, status_after,
  skips, is_downloaded-run,
}
use rescale_interlink.Daemon.State.Recent.{IsNewestFirst, cut, get_recent_downloads_lem}
use rescale_interlink.Daemon.State.File.{
  ReadOutcome, contents, not_exist, present, absent, Os, save, load, migrate_state_file, save_text,
}
use rescale_interlink.Daemon.State.File.Laws.{
  OsLaws, Saves, save-Saves, load-save, migrate_state_file_lem, Kept,
}
use rescale_interlink.Daemon.LogBuffer.{
  LogEntryData, new_log_buffer, get_recent, read_from, add_entry,
}
use rescale_interlink.Daemon.LogBuffer.Window.{add_entries, get_recent-add_entries}
use rescale_interlink.Events.Ring.Recent.{last}

-- A job that fails twice, and another that is downloaded, fails and is cleared.
abbrev history : List StateCall
history =
    fails "a" "first" "timeout" 100
    ∷ downloads "b" "second" "out" 3 4096 200
    ∷ fails "a" "first" "timeout" 300
    ∷ marks_pending "b"
    ∷ fails "b" "second" "gone" 400
    ∷ clears_failed "b"
    ∷ polls 500
    ∷ []

is_downloaded-run_example :
    is_downloaded (run (new_state "state.json") history) "a" (300 + 9 * minute)
    ≡ skips (status_after "a" unseen history) (300 + 9 * minute)
is_downloaded-run_example = is_downloaded-run "state.json" history "a" (300 + 9 * minute)

-- The second wait is of 10 minutes.
waits : skips (status_after "a" unseen history) (300 + 9 * minute) ≡ true
unfolding status_after
waits = refl

waited : skips (status_after "a" unseen history) (300 + 10 * minute) ≡ false
unfolding status_after
waited = refl

-- Two downloads.
abbrev two_downloads : State
two_downloads =
    run (new_state "state.json")
      (downloads "a" "first" "out" 1 10 100 ∷ downloads "b" "second" "out" 2 20 200 ∷ [])

get_recent_downloads_lem_example :
    (newest : List DownloadedJob) × IsNewestFirst newest
    × Perm newest (keep succeeded (jobs two_downloads))
    × (get_recent_downloads two_downloads (pos 1) ≡ cut (pos 1) newest)
get_recent_downloads_lem_example = get_recent_downloads_lem two_downloads (pos 1)

abbrev Disk : Type 0
Disk = Map String

abbrev read : Disk → String → ReadOutcome
read d p = elim (get d p) [ none ↦ not_exist | some text ↦ contents text ]

abbrev rename_on : Disk → String → String → Disk × Bool
rename_on d p q = elim (get d p) [ none ↦ (d, false) | some text ↦ (put (delete d p) q text, true) ]

-- An encoding that keeps the version, which is enough for a state that has nothing else.
instance abbrev disk : Os Disk
disk = record {
  read_file = read;
  stat = λ d p. elim (get d p) [ none ↦ absent | some text ↦ present ];
  mkdir_all = λ d p. (d, true);
  write_file = λ d p text. (put d p text, true);
  rename = rename_on;
  remove = delete;
  dir = λ p. p;
  corrupt_path = λ p now. p;
  marshal = λ s. some s.version;
  unmarshal = λ text s. some (record s { version = text });
}

read-put : (d : Disk) (p text : String) → read (put d p text) p ≡ contents text
read-put d p text = ground (arith, get-put d p p text, ===_self p)

read-put_elsewhere : (d : Disk) (p text q : String) → p ≢ q → read (put d p text) q ≡ read d q
read-put_elsewhere d p text q h = ground (arith, get-put d p q text, ===_ne p q h)

read-delete_elsewhere : (d : Disk) (p q : String) → p ≢ q → read (delete d p) q ≡ read d q
read-delete_elsewhere d p q h = ground (arith, get-delete d p q, ===_ne p q h)

rename_on_reads :
    (d : Disk) (p q : String) → (rename_on d p q).1 ≡ true → read (rename_on d p q).0 q ≡ read d p
rename_on_reads d p q h = elim (Option-cases (get d p)) [
  | inl e ↦ ground (arith, e)
  | inr (text, e) ↦ ground (arith, e, read-put (delete d p) q text)
]

rename_on_fails :
    (d : Disk) (p q r : String)
    → (rename_on d p q).1 ≡ false
    → read (rename_on d p q).0 r ≡ read d r
rename_on_fails d p q r h = elim (Option-cases (get d p)) [
  | inl e ↦ ground (arith, e)
  | inr (text, e) ↦ ground (arith, e)
]

disk-OsLaws : OsLaws Disk
disk-OsLaws = record {
  mkdir_below = λ d q. refl;
  mkdir_keeps = λ d p q text h. h;
  write_reads = λ d p c h. read-put d p c;
  write_elsewhere = λ d p c q h. read-put_elsewhere d p c q h;
  rename_reads = rename_on_reads;
  rename_fails = rename_on_fails;
  remove_elsewhere = read-delete_elsewhere;
  stat_reads = λ d p c h. ground (arith, h);
}

abbrev old_disk : Disk
old_disk = ("old.json", "0.9.0") ∷ []

save-Saves_example :
    Saves old_disk "state.json" (some "1.0.0") (save old_disk (new_state "state.json"))
unfolding new_state
save-Saves_example = save-Saves disk-OsLaws old_disk (new_state "state.json")

load-save_example :
    load (save old_disk (new_state "state.json")).0 (new_state "state.json") "old.json" 7
    ≡ ((save old_disk (new_state "state.json")).0, new_state "state.json", true)
unfolding new_state save save_text get put delete
load-save_example =
    load-save disk-OsLaws old_disk (new_state "state.json") "old.json" 7
      (λ text e. ground (arith, e)) refl

migrate_state_file_lem_example :
    Kept disk-OsLaws
      (migrate_state_file old_disk "old.json" "state.json")
      "old.json"
      "state.json"
      "0.9.0"
    × (disk.stat old_disk "state.json" ≡ present
        → migrate_state_file old_disk "old.json" "state.json" ≡ old_disk)
unfolding get
migrate_state_file_lem_example =
    migrate_state_file_lem disk-OsLaws old_disk "old.json" "state.json" "0.9.0" refl

abbrev nothing : LogEntryData ℕ
nothing = record { timestamp = ""; level = ""; stage = ""; message = ""; fields = 0 }

abbrev entry : ℕ → LogEntryData ℕ
entry n = record { timestamp = "t"; level = "INFO"; stage = "Daemon"; message = "m"; fields = n }

get_recent-add_entries_example :
    get_recent
      (add_entries (new_log_buffer nothing (pos 3)) (entry 1 ∷ entry 2 ∷ entry 3 ∷ entry 4 ∷ []))
      nothing
      (pos 2)
    ≡ last
        (min 2 (new_log_buffer nothing (pos 3)).max_size)
        (entry 1 ∷ entry 2 ∷ entry 3 ∷ entry 4 ∷ [])
get_recent-add_entries_example =
    get_recent-add_entries nothing (pos 3) (entry 1 ∷ entry 2 ∷ entry 3 ∷ entry 4 ∷ []) (pos 2)

-- Five entries in a buffer of three.
shows_last_two :
    get_recent
      (add_entries (new_log_buffer nothing (pos 3)) (entry 1 ∷ entry 2 ∷ entry 3 ∷ entry 4 ∷ []))
      nothing
      (pos 2)
    ≡ entry 3 ∷ entry 4 ∷ []
unfolding get_recent add_entries new_log_buffer read_from add_entry
shows_last_two = refl
