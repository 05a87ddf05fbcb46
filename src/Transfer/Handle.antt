-- ===== src/Transfer/Handle.antt =====
-- internal/transfer/manager.go: a transfer's handle on the pool of threads. The pool is that of
-- internal/resources/manager.go, which the handles share. A method of a handle holds its lock from
-- end to end, and calls the pool under it.
pub mod Holding
use rescale_interlink.Common.{ℕ, ◌+◌, String, Bool, true, false, if◌then◌else◌}
use rescale_interlink.Common.Int.{ℤ, pos, ◌-ℤ◌, ltb_ℤ}
use rescale_interlink.Resources.Pool.{
  Manager, allocate_for_transfer, release_transfer, try_acquire, get_max_for_file_size,
}

-- Transfer
pub record Handle : Type 0 where
  pub id : String
  pub file_size : ℕ
  pub threads : ℕ
  pub completed : Bool

-- generateTransferID: the package's counter after it, and the identifier. `format` is
-- fmt.Sprintf("transfer-%d", …).
pub generate_transfer_id : (ℕ → String) → ℕ → ℕ × String
generate_transfer_id format counter = (counter + 1, format (counter + 1))

-- AllocateTransfer, given the new identifier.
pub allocate_transfer : ℕ → Manager → String → ℕ → ℕ → Manager × Handle
allocate_transfer cores m id file_size total_files =
    let (m', threads) = allocate_for_transfer cores m id file_size total_files in
    (m', record { id = id; file_size = file_size; threads = threads; completed = false })

-- `canUse`, before and after it is capped by what is wanted.
abbrev pub can_use : ℕ → Manager → Handle → ℤ
can_use cores m t = pos (get_max_for_file_size cores m t.file_size) -ℤ pos t.threads

abbrev pub capped : ℤ → ℤ → ℤ
capped max_wanted n = if ltb_ℤ max_wanted n then max_wanted else n

-- TryAcquireMore
pub try_acquire_more : ℕ → Manager → Handle → ℤ → (Manager × Handle) × ℕ
try_acquire_more cores m t max_wanted =
    if t.completed
    then ((m, t), 0)
    else if ltb_ℤ (pos 0) (can_use cores m t)
    then (let (m', acquired) = try_acquire m t.id (capped max_wanted (can_use cores m t)) in
        ((m', record t { threads = t.threads + acquired }), acquired))
    else ((m, t), 0)

-- Complete
pub complete_transfer : Manager → Handle → Manager × Handle
complete_transfer m t =
    if t.completed then (m, t) else (release_transfer m t.id, record t { completed = true })
