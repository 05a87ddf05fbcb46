-- ===== src/Daemon/LogBuffer.antt =====
-- internal/daemon/logbuffer.go. Each method holds the lock while it uses the buffer, so it is one step.
pub mod Window
use rescale_interlink.Common.{
  ℕ, zero, suc, ◌+◌, ◌-◌, ◌%◌, String, List, [], ◌∷◌, Option, none, some, ltb, leb, ◌==◌, ◌||◌,
  if◌then◌else◌, set, get_elem?, replicate,
}
use rescale_interlink.Common.Int.{ℤ, pos, ltb_ℤ, pos_part}

-- ipc.LogEntryData; `J` is map[string]interface{}.
pub record LogEntryData (J : Type 0) : Type 0 where
  pub timestamp : String
  pub level : String
  pub stage : String
  pub message : String
  pub fields : J

-- LogBuffer
pub record LogBuffer (J : Type 0) : Type 0 where
  pub entries : List (LogEntryData J)
  pub max_size : ℕ
  pub write_idx : ℕ
  pub count : ℕ

module _ {J : Type 0} where
  -- NewLogBuffer; `nil` is the zero entry that `make` fills the buffer with.
  unfoldable pub new_log_buffer : LogEntryData J → ℤ → LogBuffer J
  new_log_buffer nil max_size =
      let size = if ltb_ℤ (pos 0) max_size then pos_part max_size else 1000 in
      record { entries = replicate size nil; max_size = size; write_idx = 0; count = 0 }

  -- Add, of the entry that it makes from its arguments.
  unfoldable pub add_entry : LogBuffer J → LogEntryData J → LogBuffer J
  add_entry lb entry = record lb {
    entries = set lb.entries lb.write_idx entry;
    write_idx = (lb.write_idx + 1) % lb.max_size;
    count = if ltb lb.count lb.max_size then lb.count + 1 else lb.count;
  }

  -- Add; `timestamp` is time.Now() as text.
  pub add : LogBuffer J → String → String → String → String → J → LogBuffer J
  unfolding add_entry
  add lb timestamp level stage message fields = add_entry lb (record {
    timestamp = timestamp;
    level = level;
    stage = stage;
    message = message;
    fields = fields;
  })

  -- entries[idx], which is never out of range; `nil` stands for what a panic would be.
  abbrev pub entry_at : LogEntryData J → List (LogEntryData J) → ℕ → LogEntryData J
  entry_at nil entries idx = elim (get_elem? entries idx) [ none ↦ nil | some entry ↦ entry ]

  -- The loop of GetRecent, from i on, for a number of rounds.
  unfoldable pub read_from : LogBuffer J → LogEntryData J → ℕ → ℕ → ℕ → List (LogEntryData J)
  read_from lb nil start_idx i zero = []
  read_from lb nil start_idx i (suc rounds) =
      entry_at nil lb.entries ((start_idx + i) % lb.max_size)
      ∷ read_from lb nil start_idx (suc i) rounds

  -- GetRecent
  unfoldable pub get_recent : LogBuffer J → LogEntryData J → ℤ → List (LogEntryData J)
  unfolding read_from
  get_recent lb nil n =
      if ltb_ℤ n (pos 1) || lb.count == 0
      then []
      else let m = if ltb lb.count (pos_part n) then lb.count else pos_part n in
        let start_idx = (lb.write_idx + lb.max_size - m) % lb.max_size in
        read_from lb nil start_idx 0 m
