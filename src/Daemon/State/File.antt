-- ===== src/Daemon/State/File.antt =====
-- internal/daemon/state.go: Load, Save and the migration of the state file. The operating system, the
-- encoding as JSON and the names that the standard library makes are parameters.
pub mod Laws
use Prim.Native.String.{◌++◌ as appended}
use rescale_interlink.Common.{
  ℕ, String, Bool, true, false, not, ◌&&◌, ◌||◌, Option, none, some, ◌===◌, if◌then◌else◌, [],
}
use rescale_interlink.Daemon.State.{State}

-- What os.ReadFile returns.
pub data ReadOutcome : Type 0 where
  contents : String → ReadOutcome
  not_exist : ReadOutcome
  unreadable : ReadOutcome

-- What os.Stat finds: a file, that there is none, or another error.
pub data StatOutcome : Type 0 where
  present : StatOutcome
  absent : StatOutcome
  unknown : StatOutcome

abbrev pub is_absent : StatOutcome → Bool
is_absent absent = true
is_absent _ = false

abbrev pub is_present : StatOutcome → Bool
is_present present = true
is_present _ = false

-- The calls of os, filepath, fmt and json on a disk `D`. An operation that can fail returns the disk it
-- leaves, and whether it succeeded.
pub record Os (D : Type 0) : Type 0 where
  pub read_file : D → String → ReadOutcome
  pub stat : D → String → StatOutcome
  pub mkdir_all : D → String → D × Bool
  pub write_file : D → String → String → D × Bool
  pub rename : D → String → String → D × Bool
  pub remove : D → String → D
  pub dir : String → String
  -- "%s.corrupt.%d"
  pub corrupt_path : String → ℕ → String
  -- json.MarshalIndent and json.Unmarshal, which fails with `none`.
  pub marshal : State → Option String
  pub unmarshal : String → State → Option State

pub data SaveError : Type 0 where
  mkdir_failed : SaveError
  marshal_failed : SaveError
  write_failed : SaveError
  rename_failed : SaveError

abbrev pub temporary : String → String
temporary path = appended path ".tmp"

module _ {D : Type 0} ⦃os : Os D⦄ where
  -- The part of Save from the write on.
  unfoldable pub save_text : D → String → String → D × Option SaveError
  save_text d path text =
      let written = os.write_file d (temporary path) text in
      let renamed = os.rename written.0 (temporary path) path in
      if not written.1
      then (written.0, some write_failed)
      else if not renamed.1
      then (os.remove renamed.0 (temporary path), some rename_failed)
      else (renamed.0, none)

  -- Save
  unfoldable pub save : D → State → D × Option SaveError
  unfolding save_text
  save d s =
      let made = os.mkdir_all d (os.dir s.file_path) in
      if not made.1 then (made.0, some mkdir_failed) else elim (os.marshal s) [
        | none ↦ (made.0, some marshal_failed)
        | some text ↦ save_text made.0 s.file_path text
      ]

  -- The fallback of migrateStateFile: copy and delete.
  pub copy_over : D → String → String → D
  copy_over d old_path new_path = elim (os.read_file d old_path) [
    | contents bytes ↦
        let written = os.write_file d new_path bytes in
        if not written.1 then written.0 else os.remove written.0 old_path
    | not_exist ↦ d
    | unreadable ↦ d
  ]

  -- migrateStateFile
  pub migrate_state_file : D → String → String → D
  unfolding copy_over
  migrate_state_file d old_path new_path =
      let made = (os.mkdir_all d (os.dir new_path)).0 in
      let renamed = os.rename made old_path new_path in
      if old_path === "" || new_path === "" || old_path === new_path
      then d
      else if is_absent (os.stat d old_path)
      then d
      else if is_present (os.stat d new_path)
      then d
      else if renamed.1
      then renamed.0
      else copy_over renamed.0 old_path new_path

  -- Load after the migration; the last component is whether it returns no error.
  pub load_file : D → State → ℕ → D × State × Bool
  load_file d s now = elim (os.read_file d s.file_path) [
    | not_exist ↦ (d, record s { downloaded = []; version = "1.0.0" }, true)
    | unreadable ↦ (d, s, false)
    | contents bytes ↦ elim (os.unmarshal bytes s) [
      | some loaded ↦ (d, loaded, true)
      | none ↦ (
        (os.rename d s.file_path (os.corrupt_path s.file_path now)).0,
        record s { downloaded = []; version = "1.0.0"; last_poll = 0 },
        true,
      )
    ]
  ]

  -- Load; `old_path` is what oldStateFilePath returns.
  pub load : D → State → String → ℕ → D × State × Bool
  unfolding load_file migrate_state_file
  load d s old_path now =
      let moved =
        if not (old_path === "") && not (old_path === s.file_path)
        then migrate_state_file d old_path s.file_path
        else d in
      load_file moved s now
