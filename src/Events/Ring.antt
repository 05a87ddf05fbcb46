-- ===== src/Events/Ring.antt =====
-- internal/events/ringbuffer.go. A method holds the lock from end to end, so it is one step.
pub mod Recent
use rescale_interlink.Common.{
  ℕ, ◌+◌, ◌%◌, Bool, true, false, not, List, ◌++◌, ltb, ◌==◌, if◌then◌else◌, set, take, drop,
  replicate,
}
use rescale_interlink.Common.Int.{ℤ, pos as nonneg, ltb_ℤ, pos_part}

-- RingBuffer
pub record RingBuffer (A : Type 0) : Type 0 where
  pub buf : List A
  pub cap : ℕ
  pub pos : ℕ
  pub full : Bool

module _ {A : Type 0} where
  -- NewRingBuffer; `nil` is the zero value that `make` fills the buffer with.
  unfoldable pub new_ring_buffer : A → ℤ → RingBuffer A
  new_ring_buffer nil capacity =
      let cap = if ltb_ℤ (nonneg 0) capacity then pos_part capacity else 50 in
      record { buf = replicate cap nil; cap = cap; pos = 0; full = false }

  -- Add
  pub add : RingBuffer A → A → RingBuffer A
  add rb event =
      let next = (rb.pos + 1) % rb.cap in
      record rb {
        buf = set rb.buf rb.pos event;
        pos = next;
        full = if next == 0 then true else rb.full;
      }

  -- Snapshot
  pub snapshot : RingBuffer A → List A
  snapshot rb = if not rb.full then take rb.pos rb.buf else drop rb.pos rb.buf ++ take rb.pos rb.buf
