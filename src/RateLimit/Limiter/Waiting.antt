-- ===== src/RateLimit/Limiter/Waiting.antt =====
-- internal/ratelimit/limiter.go: Wait as its locked parts, and the calls of all goroutines in sequence.
pub mod Fairness
pub mod Cooldown
use rescale_interlink.Common.{ℕ, ◌+◌, Bool, false, not, List, [], ◌∷◌, ◌++◌, ◌==◌, if◌then◌else◌}
use rescale_interlink.Transfer.Float.{Float}
use rescale_interlink.RateLimit.Limiter.{
  RateLimiter, try_acquire_unlocked, reconfigure, drain, set_cooldown, emit_utilization_notice,
}

-- What a locked part of Wait comes to: a token, a ticket, or nothing yet.
pub data Outcome : Type 0 where
  granted : Outcome
  queued : ℕ → Outcome
  not_yet : Outcome

-- Whether a ticket is at the front of a queue.
abbrev pub is_front : List ℕ → ℕ → Bool
is_front [] ticket = false
is_front (t ∷ ts) ticket = t == ticket

abbrev pub rest : List ℕ → List ℕ
rest [] = []
rest (t ∷ ts) = ts

-- The loop of the deferred function, which removes the ticket once.
pub remove_ticket : List ℕ → ℕ → List ℕ
remove_ticket [] ticket = []
remove_ticket (t ∷ ts) ticket =
    let others = remove_ticket ts ticket in if t == ticket then ts else t ∷ others

-- What a goroutine does with a limiter.
pub data LimiterCall (F : Type 0) : Type 0 where
  enters : ℕ → LimiterCall F
  polls : ℕ → ℕ → LimiterCall F
  leaves : ℕ → LimiterCall F
  notifies : ℕ → LimiterCall F
  acquires : ℕ → LimiterCall F
  reconfigures : F → F → LimiterCall F
  drains : ℕ → LimiterCall F
  cools : ℕ → ℕ → LimiterCall F

module _ {F : Type 0} ⦃fl : Float F⦄ where
  -- The decision of Wait: the fast path, or a ticket at the end of the queue.
  unfoldable pub enqueue : RateLimiter F → RateLimiter F × Outcome
  enqueue rl = (
    record rl {
      next_ticket = rl.next_ticket + 1;
      wait_queue = rl.wait_queue ++ (rl.next_ticket + 1) ∷ [];
    },
    queued (rl.next_ticket + 1),
  )

  unfoldable pub enter : RateLimiter F → ℕ → RateLimiter F × Outcome
  unfolding try_acquire_unlocked enqueue
  enter rl now =
      let tried = try_acquire_unlocked rl now in
      elim rl.wait_queue [
        | [] ↦ if tried.1 then (tried.0, granted) else enqueue tried.0
        | ◌∷◌ t ts ↦ enqueue rl
      ]

  -- A round of the poll loop of Wait.
  unfoldable pub poll : RateLimiter F → ℕ → ℕ → RateLimiter F × Outcome
  unfolding try_acquire_unlocked
  poll rl ticket now =
      let tried = try_acquire_unlocked rl now in
      if not (is_front rl.wait_queue ticket)
      then (rl, not_yet)
      else if tried.1
      then (record (tried.0) { wait_queue = rest rl.wait_queue }, granted)
      else (tried.0, not_yet)

  -- The deferred function of Wait.
  unfoldable pub leave : RateLimiter F → ℕ → RateLimiter F
  unfolding remove_ticket
  leave rl ticket = record rl { wait_queue = remove_ticket rl.wait_queue ticket }

  unfoldable pub call : RateLimiter F → LimiterCall F → RateLimiter F
  unfolding enter poll leave
  call rl (enters now) = (enter rl now).0
  call rl (polls ticket now) = (poll rl ticket now).0
  call rl (leaves ticket) = leave rl ticket
  call rl (notifies now) = emit_utilization_notice rl now
  call rl (acquires now) = (try_acquire_unlocked rl now).0
  call rl (reconfigures rate burst) = reconfigure rl rate burst
  call rl (drains now) = drain rl now
  call rl (cools d now) = set_cooldown rl d now

  unfoldable pub run : RateLimiter F → List (LimiterCall F) → RateLimiter F
  unfolding call
  run rl [] = rl
  run rl (c ∷ cs) = run (call rl c) cs
