-- ===== src/Transfer/Handle/Holding.antt =====
-- internal/transfer/manager.go: what a handle holds of the pool.
use Prim.Native.Nat.{max}
use rescale_interlink.Resources.Pool.{
  obtainable, granted, calculate_desired_threads, Manager, grant, release_transfer, try_acquire,
  get_max_for_file_size, allocate_for_transfer,
}
use rescale_interlink.Resources.Pool.Balance.{delete_absent}
use rescale_interlink.Common.Int.{pos_part, ltb_ℤ, ℤ, ◌-ℤ◌, ◌+ℤ◌, pos}
use rescale_interlink.Common.{
  ◌+◌, ===_self, Bool-cases, inl, inr, ◌∙◌, ap, ap₂, ℕ, ◌≤◌, String, true, ◌≡◌, none, some, refl,
  arith, if◌then◌else◌,
}
use rescale_interlink.Common.Map.{get, put, delete, get-put}
use rescale_interlink.Transfer.Handle.{
  Handle, allocate_transfer, try_acquire_more, complete_transfer, can_use, capped,
}

-- The pool has the handle's threads under its identifier until it is completed, and then none.
pub record IsHolding (m : Manager) (t : Handle) : Type 0 where
  pub entry : get m.allocations t.id ≡ (if t.completed then none else some t.threads)

-- TryAcquire gives at most what is asked for, and adds it to the entry.
try_acquire_lem :
    (m : Manager) (id : String) (count : ℤ) (n : ℕ)
    → get m.allocations id ≡ some n
    → (get (try_acquire m id count).0.allocations id ≡ some (n + (try_acquire m id count).1))
      × ((try_acquire m id count).1 ≤ pos_part count)
unfolding try_acquire
try_acquire_lem m id count n h = elim (Bool-cases (ltb_ℤ (pos 0) (obtainable m count))) [
  | inl e ↦
      rw (try_acquire, h, e)
        (
          ground
              (arith, ===_self id, get-put m.allocations id id (n + pos_part (obtainable m count))),
          ground arith,
        )
  | inr e ↦ rw (try_acquire, h, e) (h ∙ ap some (omega arith), omega arith)
]

-- What the room below a bound allows, capped, keeps the sum within the bound.
room_lem :
    (bound threads : ℕ) (max_wanted : ℤ) (n : ℕ)
    → ltb_ℤ (pos 0) (pos bound -ℤ pos threads) ≡ true
    → n ≤ pos_part (capped max_wanted (pos bound -ℤ pos threads))
    → threads + n ≤ max threads bound
unfolding ◌-ℤ◌
room_lem bound threads max_wanted n h k = ground arith

-- For a handle that agrees with the pool, completed or not: after TryAcquireMore the two still agree,
-- the handle has as many more threads as are returned, and not more in all than the larger of what it
-- had and what GetMaxForFileSize says for its file.
pub try_acquire_more_lem :
    (cores : ℕ) (m : Manager) (t : Handle) (max_wanted : ℤ)
    → IsHolding m t
    → IsHolding
        (try_acquire_more cores m t max_wanted).0.0
        (try_acquire_more cores m t max_wanted).0.1
      × ((try_acquire_more cores m t max_wanted).0.1.threads
          ≤ max t.threads (get_max_for_file_size cores m t.file_size))
      × ((try_acquire_more cores m t max_wanted).0.1.threads
          ≡ t.threads + (try_acquire_more cores m t max_wanted).1)
unfolding try_acquire_more
try_acquire_more_lem cores m t max_wanted v = elim (Bool-cases t.completed) [
  | inl e ↦ simp (try_acquire_more, e) (v, omega arith, omega arith)
  | inr e ↦
      let open_entry : get m.allocations t.id ≡ some t.threads = ground (arith, v.entry) in
      let (kept, few) =
        try_acquire_lem m t.id (capped max_wanted (can_use cores m t)) t.threads open_entry in
      elim (Bool-cases (ltb_ℤ (pos 0) (can_use cores m t))) [
        | inl more ↦
            let most =
              room_lem (get_max_for_file_size cores m t.file_size) t.threads max_wanted _ more
                few in
            simp (try_acquire_more, e, more) (record { entry = kept }, most, refl)
        | inr none_left ↦ simp (try_acquire_more, e, none_left) (v, omega arith, omega arith)
      ]
]

minus_plus : (a : ℤ) (n : ℕ) → (a -ℤ pos n) +ℤ pos n ≡ a
unfolding ◌-ℤ◌ ◌+ℤ◌
minus_plus a n = ground arith

release_transfer-grant :
    (m : Manager) (id : String) (desired : ℕ)
    → get m.allocations id ≡ none
    → release_transfer (grant m id desired).0 id ≡ m
unfolding grant put delete release_transfer
release_transfer-grant m id desired h =
    let n = granted m desired in
    let there : get (put m.allocations id n) id ≡ some n =
      ground (arith, ===_self id, get-put m.allocations id id n) in
    let gone : delete (put m.allocations id n) id ≡ m.allocations = rw (===_self id) (
      ap (λ l. delete l id) (delete_absent m.allocations id h)
      ∙ delete_absent m.allocations id h) in
    rw (release_transfer, there)
      (ap₂ (λ a l. record m { available_threads = a; allocations = l })
        (minus_plus m.available_threads n) gone)

-- AllocateTransfer under an identifier that has no allocation and then Complete leave the pool as it
-- was, and a second Complete does nothing.
complete_transfer-allocate_transfer :
    (cores : ℕ) (m : Manager) (id : String) (size files : ℕ)
    → get m.allocations id ≡ none
    → let (m₁, t₁) = allocate_transfer cores m id size files in
      let (m₂, t₂) = complete_transfer m₁ t₁ in (m₂ ≡ m) × (complete_transfer m₂ t₂ ≡ (m₂, t₂))
unfolding allocate_transfer complete_transfer allocate_for_transfer
complete_transfer-allocate_transfer cores m id size files h =
    (release_transfer-grant m id (calculate_desired_threads cores m size files) h, refl)
