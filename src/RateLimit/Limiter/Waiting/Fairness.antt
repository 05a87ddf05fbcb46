-- ===== src/RateLimit/Limiter/Waiting/Fairness.antt =====
-- internal/ratelimit/limiter.go: tokens go to those who wait in the order in which they came.
use rescale_interlink.Common.{
  ℕ, ◌+◌, ◌≤◌, ◌<◌, true, List, [], ◌∷◌, ◌++◌, ◌≡◌, refl, All, All-append, ◌==◌, arith, Bool-cases,
  inl, inr, subst, sym, ◌⊎◌, ap,
}
use rescale_interlink.Transfer.Float.{Float}
use rescale_interlink.RateLimit.Limiter.{
  RateLimiter, new_rate_limiter, refilled, try_acquire_unlocked, reconfigure, drain, set_cooldown,
  emit_utilization_notice,
}
use rescale_interlink.RateLimit.Limiter.Waiting.{
  granted, queued, is_front, rest, remove_ticket, enqueue, enter, poll, leave, LimiterCall, enters,
  polls, leaves, notifies, acquires, reconfigures, drains, cools, call, run,
}

-- Each ticket is older than those behind it.
abbrev pub InOrder : List ℕ → Type 0
InOrder [] = Unit {0}
InOrder (t ∷ ts) = All (λ u. t < u) ts × InOrder ts

-- Tickets up to a number.
abbrev pub UpTo : ℕ → List ℕ → Type 0
UpTo n ts = All (λ t. t ≤ n) ts

UpTo-weaken : (n m : ℕ) (ts : List ℕ) → n ≤ m → UpTo n ts → UpTo m ts
UpTo-weaken n m [] h v = tt
UpTo-weaken n m (t ∷ ts) h v = (omega (arith, v.0), UpTo-weaken n m ts h v.1)

All-remove_ticket :
    (P : ℕ → Type 0) (ts : List ℕ) (ticket : ℕ) → All P ts → All P (remove_ticket ts ticket)
unfolding remove_ticket
All-remove_ticket P [] ticket v = tt
All-remove_ticket P (t ∷ ts) ticket v = elim (Bool-cases (t == ticket)) [
  | inl e ↦ rw (remove_ticket, e) v.1
  | inr e ↦ rw (remove_ticket, e) (v.0, All-remove_ticket P ts ticket v.1)
]

InOrder-remove_ticket : (ts : List ℕ) (ticket : ℕ) → InOrder ts → InOrder (remove_ticket ts ticket)
unfolding remove_ticket
InOrder-remove_ticket [] ticket v = tt
InOrder-remove_ticket (t ∷ ts) ticket v = elim (Bool-cases (t == ticket)) [
  | inl e ↦ rw (remove_ticket, e) v.1
  | inr e ↦
      rw (remove_ticket, e)
        (All-remove_ticket (λ u. t < u) ts ticket v.0, InOrder-remove_ticket ts ticket v.1)
]

InOrder-last : (ts : List ℕ) (n : ℕ) → UpTo n ts → InOrder ts → InOrder (ts ++ (n + 1) ∷ [])
InOrder-last [] n h v = (tt, tt)
InOrder-last (t ∷ ts) n h v = (
  All-append (λ u. t < u) ts ((n + 1) ∷ []) v.0 (omega (arith, h.0), tt),
  InOrder-last ts n h.1 v.1,
)

UpTo-last : (ts : List ℕ) (n : ℕ) → UpTo n ts → UpTo (n + 1) (ts ++ (n + 1) ∷ [])
UpTo-last ts n h =
    All-append (λ t. t ≤ n + 1) ts ((n + 1) ∷ []) (UpTo-weaken n (n + 1) ts (omega arith) h)
      (omega arith, tt)

abbrev Queueing : ℕ → List ℕ → Type 0
Queueing n ts = InOrder ts × UpTo n ts

list_cases : (ts : List ℕ) → (ts ≡ []) ⊎ ((t : ℕ) × (us : List ℕ) × (ts ≡ t ∷ us))
list_cases [] = inl refl
list_cases (t ∷ ts) = inr (t, ts, refl)

Queueing-rest : (n : ℕ) (ts : List ℕ) → Queueing n ts → Queueing n (rest ts)
Queueing-rest n [] v = v
Queueing-rest n (t ∷ ts) v = (v.0.1, v.1.1)

front_of :
    (ts : List ℕ) (ticket : ℕ)
    → is_front ts ticket ≡ true
    → InOrder ts
    → (ts ≡ ticket ∷ rest ts) × All (λ u. ticket < u) (rest ts)
front_of [] ticket h v = ground (arith, h)
front_of (t ∷ ts) ticket h v =
    let e : t ≡ ticket = ground (arith, h) in
    (ap (λ u. u ∷ ts) e, subst (λ u. All (λ w. u < w) ts) e v.0)

UpTo-below : (n m : ℕ) (ts : List ℕ) → m ≡ n + 1 → UpTo n ts → All (λ t. t < m) ts
UpTo-below n m [] e v = tt
UpTo-below n m (t ∷ ts) e v = (omega (arith, v.0, e), UpTo-below n m ts e v.1)

module _ {F : Type 0} ⦃fl : Float F⦄ where
  IsQueue : RateLimiter F → Type 0
  IsQueue rl = Queueing rl.next_ticket rl.wait_queue

  -- Taking a token does not touch the queue.
  try_acquire_unlocked_queue :
      (rl : RateLimiter F) (now : ℕ)
      → ((try_acquire_unlocked rl now).0.wait_queue ≡ rl.wait_queue)
        × ((try_acquire_unlocked rl now).0.next_ticket ≡ rl.next_ticket)
  unfolding try_acquire_unlocked
  try_acquire_unlocked_queue rl now =
      elim (Bool-cases (fl.less_eq (fl.literal 1 1) (refilled rl now))) [
        | inl e ↦ rw (try_acquire_unlocked, e) (refl, refl)
        | inr e ↦ rw (try_acquire_unlocked, e) (refl, refl)
      ]

  emit_utilization_notice_queue :
      (rl : RateLimiter F) (now : ℕ)
      → ((emit_utilization_notice rl now).wait_queue ≡ rl.wait_queue)
        × ((emit_utilization_notice rl now).next_ticket ≡ rl.next_ticket)
  unfolding emit_utilization_notice
  emit_utilization_notice_queue rl now = ground arith

  same-IsQueue :
      (rl new : RateLimiter F)
      → (new.wait_queue ≡ rl.wait_queue) × (new.next_ticket ≡ rl.next_ticket)
      → IsQueue rl
      → IsQueue new
  unfolding IsQueue
  same-IsQueue rl new (e, f) v =
      subst (Queueing new.next_ticket) (sym e) (subst (λ n. Queueing n rl.wait_queue) (sym f) v)

  enqueue-IsQueue : (rl : RateLimiter F) → IsQueue rl → IsQueue (enqueue rl).0
  unfolding IsQueue enqueue
  enqueue-IsQueue rl v = (
    InOrder-last rl.wait_queue rl.next_ticket v.1 v.0,
    UpTo-last rl.wait_queue rl.next_ticket v.1,
  )

  try_acquire_unlocked-IsQueue :
      (rl : RateLimiter F) (now : ℕ) → IsQueue rl → IsQueue (try_acquire_unlocked rl now).0
  try_acquire_unlocked-IsQueue rl now v =
      same-IsQueue rl (try_acquire_unlocked rl now).0 (try_acquire_unlocked_queue rl now) v

  enter-IsQueue : (rl : RateLimiter F) (now : ℕ) → IsQueue rl → IsQueue (enter rl now).0
  unfolding enter
  enter-IsQueue rl now v =
      let tried = try_acquire_unlocked-IsQueue rl now v in
      elim (list_cases rl.wait_queue) [
        | inr (t, ts, e) ↦ rw (enter, e) (enqueue-IsQueue rl v)
        | inl e ↦ elim (Bool-cases (try_acquire_unlocked rl now).1) [
          | inl f ↦ rw (enter, e, f) tried
          | inr f ↦ rw (enter, e, f) (enqueue-IsQueue (try_acquire_unlocked rl now).0 tried)
        ]
      ]

  poll-IsQueue : (rl : RateLimiter F) (ticket now : ℕ) → IsQueue rl → IsQueue (poll rl ticket now).0
  unfolding poll IsQueue
  poll-IsQueue rl ticket now v =
      let tried = try_acquire_unlocked rl now in
      elim (Bool-cases (is_front rl.wait_queue ticket)) [
        | inr e ↦ rw (poll, e) v
        | inl e ↦ elim (Bool-cases tried.1) [
          | inl f ↦
              rw (poll, e, f)
                (subst (λ n. Queueing n (rest rl.wait_queue))
                  (sym (try_acquire_unlocked_queue rl now).1)
                  (Queueing-rest rl.next_ticket rl.wait_queue v))
          | inr f ↦ rw (poll, e, f) (try_acquire_unlocked-IsQueue rl now v)
        ]
      ]

  leave-IsQueue : (rl : RateLimiter F) (ticket : ℕ) → IsQueue rl → IsQueue (leave rl ticket)
  unfolding IsQueue leave
  leave-IsQueue rl ticket v = (
    InOrder-remove_ticket rl.wait_queue ticket v.0,
    All-remove_ticket (λ t. t ≤ rl.next_ticket) rl.wait_queue ticket v.1,
  )

  call-IsQueue : (rl : RateLimiter F) (c : LimiterCall F) → IsQueue rl → IsQueue (call rl c)
  unfolding call reconfigure drain set_cooldown IsQueue
  call-IsQueue rl (enters now) v = enter-IsQueue rl now v
  call-IsQueue rl (polls ticket now) v = poll-IsQueue rl ticket now v
  call-IsQueue rl (leaves ticket) v = leave-IsQueue rl ticket v
  call-IsQueue rl (notifies now) v =
      same-IsQueue rl (emit_utilization_notice rl now) (emit_utilization_notice_queue rl now) v
  call-IsQueue rl (acquires now) v = try_acquire_unlocked-IsQueue rl now v
  call-IsQueue rl (reconfigures rate burst) v = v
  call-IsQueue rl (drains now) v = v
  call-IsQueue rl (cools d now) v = v

  run-IsQueue : (rl : RateLimiter F) (cs : List (LimiterCall F)) → IsQueue rl → IsQueue (run rl cs)
  unfolding run
  run-IsQueue rl [] v = v
  run-IsQueue rl (c ∷ cs) v = run-IsQueue (call rl c) cs (call-IsQueue rl c v)

  -- Who may get a token next: with a ticket, only one older than all others that wait, and without one
  -- only if nobody waits; and a new ticket is younger than all that wait.
  pub record IsFair (rl : RateLimiter F) : Type 0 where
    pub fast : (now : ℕ) → (enter rl now).1 ≡ granted → rl.wait_queue ≡ []
    pub in_turn :
        (ticket now : ℕ)
        → (poll rl ticket now).1 ≡ granted
        → (rl.wait_queue ≡ ticket ∷ rest rl.wait_queue) × All (λ u. ticket < u) (rest rl.wait_queue)
    pub behind :
        (ticket now : ℕ) → (enter rl now).1 ≡ queued ticket → All (λ u. u < ticket) rl.wait_queue

  fast_path : (rl : RateLimiter F) (now : ℕ) → (enter rl now).1 ≡ granted → rl.wait_queue ≡ []
  unfolding enter enqueue
  fast_path rl now h = elim (list_cases rl.wait_queue) [
    | inl e ↦ e
    | inr (t, ts, e) ↦ ground (arith, e, h)
  ]

  front_granted :
      (rl : RateLimiter F) (ticket now : ℕ)
      → IsQueue rl
      → (poll rl ticket now).1 ≡ granted
      → (rl.wait_queue ≡ ticket ∷ rest rl.wait_queue) × All (λ u. ticket < u) (rest rl.wait_queue)
  unfolding poll IsQueue
  front_granted rl ticket now v h = elim (Bool-cases (is_front rl.wait_queue ticket)) [
    | inl e ↦ front_of rl.wait_queue ticket e v.0
    | inr e ↦ ground (arith, e, h)
  ]

  ticket_number :
      (rl : RateLimiter F) (ticket now : ℕ)
      → (enter rl now).1 ≡ queued ticket
      → ticket ≡ rl.next_ticket + 1
  unfolding enter enqueue
  ticket_number rl ticket now h =
      let same = (try_acquire_unlocked_queue rl now).1 in
      elim (list_cases rl.wait_queue) [
        | inl e ↦ ground (arith, e, h, same)
        | inr (t, ts, e) ↦ ground (arith, e, h)
      ]

  new_ticket :
      (rl : RateLimiter F) (ticket now : ℕ)
      → IsQueue rl
      → (enter rl now).1 ≡ queued ticket
      → All (λ u. u < ticket) rl.wait_queue
  unfolding IsQueue
  new_ticket rl ticket now v h =
      UpTo-below rl.next_ticket ticket rl.wait_queue (ticket_number rl ticket now h) v.1

  -- After any calls of any goroutines on a new limiter, in whatever order their steps come: Wait gets a
  -- token at once only if nobody waits, a waiter gets one only at the front of the queue and then all
  -- others that wait have younger tickets, and a new ticket is younger than all that wait.
  pub run-IsFair :
      (next_ticket : ℕ) (rate burst : F) (now : ℕ) (cs : List (LimiterCall F))
      → IsFair (run (new_rate_limiter next_ticket rate burst now) cs)
  unfolding new_rate_limiter IsQueue
  run-IsFair next_ticket rate burst now cs =
      let rl = run (new_rate_limiter next_ticket rate burst now) cs in
      let v = run-IsQueue (new_rate_limiter next_ticket rate burst now) cs (tt, tt) in
      record {
        fast = fast_path rl;
        in_turn = λ ticket at. front_granted rl ticket at v;
        behind = λ ticket at. new_ticket rl ticket at v;
      }
