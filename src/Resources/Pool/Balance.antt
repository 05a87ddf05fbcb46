-- ===== src/Resources/Pool/Balance.antt =====
-- internal/resources/manager.go: the threads that are available and those that the transfers hold
-- make up the pool.
use rescale_interlink.Common.{
  ℕ, ◌+◌, ◌≤◌, String, [], ◌∷◌, ◌≡◌, refl, none, some, arith, length, ===_iff, suc, Option-cases,
  inl, inr, Bool-cases, List, ===_self,
}
use rescale_interlink.Common.Int.{pos_part, neg_part, ◌+ℤ◌, ◌-ℤ◌, ℤ, ltb_ℤ, pos}
use rescale_interlink.Common.Map.{Map, get, delete, get_or, get-delete, put}
use rescale_interlink.Resources.Pool.{
  Manager, new_manager, grant, release_transfer, try_acquire, Config, allocate_for_transfer,
  calculate_desired_threads, obtainable,
}

-- The threads that are held.
abbrev pub held : Map ℕ → ℕ
held [] = 0
held ((id, n) ∷ m) = n + held m

-- Each transfer has one entry, of one thread at least.
abbrev pub EachOnce : Map ℕ → Type 0
EachOnce [] = Unit {0}
EachOnce ((id, n) ∷ m) = (get m id ≡ none) × (1 ≤ n) × EachOnce m

pub delete_absent : (m : Map ℕ) (id : String) → get m id ≡ none → delete m id ≡ m
unfolding get delete
delete_absent [] id h = refl
delete_absent ((j, n) ∷ m) id h = ground (arith, delete_absent m id)

delete-EachOnce : (m : Map ℕ) (id : String) → EachOnce m → EachOnce (delete m id)
unfolding delete
delete-EachOnce [] id h = tt
delete-EachOnce ((j, n) ∷ m) id h = ground (arith, delete-EachOnce m id, get-delete m id j)

held-delete : (m : Map ℕ) (id : String) → EachOnce m → held m ≡ held (delete m id) + get_or m id 0
unfolding get delete
held-delete [] id h = omega arith
held-delete ((j, n) ∷ m) id h = ground (arith, held-delete m id, delete_absent m id, ===_iff j id)

length-delete :
    (m : Map ℕ) (id : String) (n : ℕ)
    → EachOnce m
    → get m id ≡ some n
    → (length m ≡ suc (length (delete m id))) × (1 ≤ n)
unfolding get delete
length-delete [] id n h e = ground arith
length-delete ((j, k) ∷ m) id n h e =
    ground (arith, length-delete m id n, delete_absent m id, ===_iff j id)

-- The available and the held threads make up the pool, and no more threads are lent beyond it than
-- there are transfers.
pub record IsBalanced (m : Manager) : Type 0 where
  pub once : EachOnce m.allocations
  pub balance :
      pos_part m.available_threads + held m.allocations
      ≡ m.total_threads + neg_part m.available_threads
  pub lent : neg_part m.available_threads ≤ length m.allocations

-- No more threads are held beyond the pool than there are transfers.
held_bound :
    (m : Manager) → IsBalanced m → held m.allocations ≤ m.total_threads + length m.allocations
held_bound m v = omega (arith, v.balance, v.lent)

new_manager-IsBalanced :
    (cores memory : ℕ) (config : Config) → IsBalanced (new_manager cores memory config)
unfolding new_manager
new_manager-IsBalanced cores memory config = record {
  once = tt;
  balance = ground arith;
  lent = ground arith;
}

grant-IsBalanced :
    (m : Manager) (id : String) (desired : ℕ)
    → get m.allocations id ≡ none
    → IsBalanced m
    → IsBalanced (grant m id desired).0
unfolding grant put ◌-ℤ◌
grant-IsBalanced m id desired f v =
    let same = delete_absent m.allocations id f in
    record {
      once = rw same (f, ground arith, v.once);
      balance = rw same (ground (arith, v.balance));
      lent = rw same (ground (arith, v.lent, v.balance));
    }

release_transfer-IsBalanced :
    (m : Manager) (id : String) → IsBalanced m → IsBalanced (release_transfer m id)
unfolding release_transfer ◌+ℤ◌
release_transfer-IsBalanced m id v = elim (Option-cases (get m.allocations id)) [
  | inl e ↦ rw (release_transfer, e) v
  | inr (n, e) ↦
      let (size, some_thread) = length-delete m.allocations id n v.once e in
      let sum = held-delete m.allocations id v.once in
      rw (release_transfer, e)
        (record {
          once = delete-EachOnce m.allocations id v.once;
          balance = ground (arith, v.balance, sum, e);
          lent = ground (arith, v.lent, size, some_thread);
        })
]

try_acquire-IsBalanced :
    (m : Manager) (id : String) (count : ℤ) → IsBalanced m → IsBalanced (try_acquire m id count).0
unfolding try_acquire put ◌-ℤ◌
try_acquire-IsBalanced m id count v = elim (Option-cases (get m.allocations id)) [
  | inl e ↦ rw (try_acquire, e) v
  | inr (n, e) ↦ elim (Bool-cases (ltb_ℤ (pos 0) (obtainable m count))) [
    | inl more ↦
        let sum = held-delete m.allocations id v.once in
        let (size, some_thread) = length-delete m.allocations id n v.once e in
        rw (try_acquire, e, more)
          (record {
            once = (
              ground (arith, get-delete m.allocations id id, ===_self id),
              omega (arith, some_thread),
              delete-EachOnce m.allocations id v.once,
            );
            balance = ground (arith, v.balance, sum, e);
            lent = ground (arith, v.lent, v.balance);
          })
    | inr none_left ↦ rw (try_acquire, e, none_left) v
  ]
]

-- A call on the pool.
pub data PoolCall : Type 0 where
  allocates : String → ℕ → ℕ → PoolCall
  releases : String → PoolCall
  acquires : String → ℤ → PoolCall

unfoldable pub pool_step : ℕ → Manager → PoolCall → Manager
pool_step cores m (allocates id size files) = (allocate_for_transfer cores m id size files).0
pool_step cores m (releases id) = release_transfer m id
pool_step cores m (acquires id count) = (try_acquire m id count).0

pub pool_run : ℕ → Manager → List PoolCall → Manager
pool_run cores m [] = m
pool_run cores m (c ∷ cs) = pool_run cores (pool_step cores m c) cs

-- A transfer is allocated under an identifier that has no allocation.
abbrev pub IsNew : Manager → PoolCall → Type 0
IsNew m (allocates id size files) = get m.allocations id ≡ none
IsNew m _ = Unit {0}

abbrev pub AreNew : ℕ → Manager → List PoolCall → Type 0
AreNew cores m [] = Unit {0}
AreNew cores m (c ∷ cs) = IsNew m c × AreNew cores (pool_step cores m c) cs

pool_step-IsBalanced :
    (cores : ℕ) (m : Manager) (c : PoolCall)
    → IsNew m c
    → IsBalanced m
    → IsBalanced (pool_step cores m c)
unfolding pool_step allocate_for_transfer
pool_step-IsBalanced cores m (allocates id size files) f v =
    grant-IsBalanced m id (calculate_desired_threads cores m size files) f v
pool_step-IsBalanced cores m (releases id) f v = release_transfer-IsBalanced m id v
pool_step-IsBalanced cores m (acquires id count) f v = try_acquire-IsBalanced m id count v

pool_run_from-IsBalanced :
    (cores : ℕ) (m : Manager) (cs : List PoolCall)
    → AreNew cores m cs
    → IsBalanced m
    → IsBalanced (pool_run cores m cs)
unfolding pool_run
pool_run_from-IsBalanced cores m [] f v = v
pool_run_from-IsBalanced cores m (c ∷ cs) (f, fs) v =
    pool_run_from-IsBalanced cores (pool_step cores m c) cs fs (pool_step-IsBalanced cores m c f v)

-- After any calls on a new manager, in which each transfer is allocated under an identifier that has no
-- allocation then: the available threads, which may be fewer than none, and the held ones make up the
-- pool, each transfer holds a thread at least, and the threads held exceed the pool by at most the
-- number of transfers.
pub pool_run-IsBalanced :
    (cores memory : ℕ) (config : Config) (cs : List PoolCall)
    → AreNew cores (new_manager cores memory config) cs
    → IsBalanced (pool_run cores (new_manager cores memory config) cs)
      × (held (pool_run cores (new_manager cores memory config) cs).allocations
          ≤ (pool_run cores (new_manager cores memory config) cs).total_threads
            + length (pool_run cores (new_manager cores memory config) cs).allocations)
pool_run-IsBalanced cores memory config cs f =
    let v =
      pool_run_from-IsBalanced cores (new_manager cores memory config) cs f
        (new_manager-IsBalanced cores memory config) in
    (v, held_bound _ v)
