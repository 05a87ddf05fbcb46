-- ===== src/RateLimit/Limiter/Waiting/Cooldown.antt =====
-- internal/ratelimit/limiter.go: a cooldown is only ever extended.
use Prim.Native.Nat.{max}
use rescale_interlink.Common.{ℕ, ◌+◌, ◌≤◌, List, [], ◌∷◌, ◌≡◌, arith}
use rescale_interlink.Transfer.Float.{Float}
use rescale_interlink.RateLimit.Limiter.{
  RateLimiter, try_acquire_unlocked, reconfigure, drain, set_cooldown, cooldown_remaining,
  emit_utilization_notice,
}
use rescale_interlink.RateLimit.Limiter.Waiting.{
  enqueue, enter, poll, leave, LimiterCall, enters, polls, leaves, notifies, acquires, reconfigures,
  drains, cools, call, run,
}

module _ {F : Type 0} ⦃fl : Float F⦄ where
  try_acquire_unlocked_cooldown :
      (rl : RateLimiter F) (now : ℕ)
      → (try_acquire_unlocked rl now).0.cooldown_end ≡ rl.cooldown_end
  unfolding try_acquire_unlocked
  try_acquire_unlocked_cooldown rl now = ground arith

  enter_cooldown : (rl : RateLimiter F) (now : ℕ) → (enter rl now).0.cooldown_end ≡ rl.cooldown_end
  unfolding enter enqueue
  enter_cooldown rl now = ground (arith, try_acquire_unlocked_cooldown rl now)

  poll_cooldown :
      (rl : RateLimiter F) (ticket now : ℕ) → (poll rl ticket now).0.cooldown_end ≡ rl.cooldown_end
  unfolding poll
  poll_cooldown rl ticket now = ground (arith, try_acquire_unlocked_cooldown rl now)

  call_cooldown :
      (rl : RateLimiter F) (c : LimiterCall F) → rl.cooldown_end ≤ (call rl c).cooldown_end
  unfolding call leave reconfigure drain set_cooldown emit_utilization_notice
  call_cooldown rl (enters now) = omega (arith, enter_cooldown rl now)
  call_cooldown rl (polls ticket now) = omega (arith, poll_cooldown rl ticket now)
  call_cooldown rl (leaves ticket) = omega arith
  call_cooldown rl (notifies now) = ground arith
  call_cooldown rl (acquires now) = omega (arith, try_acquire_unlocked_cooldown rl now)
  call_cooldown rl (reconfigures rate burst) = omega arith
  call_cooldown rl (drains now) = omega arith
  call_cooldown rl (cools d now) = ground arith

  run_cooldown :
      (rl : RateLimiter F) (cs : List (LimiterCall F)) → rl.cooldown_end ≤ (run rl cs).cooldown_end
  unfolding run
  run_cooldown rl [] = omega arith
  run_cooldown rl (c ∷ cs) = omega (arith, call_cooldown rl c, run_cooldown (call rl c) cs)

  -- SetCooldown makes what remains of a cooldown the longer of what remained and the new one; and after
  -- any further calls, shorter cooldowns among them, the cooldown still lasts until its end.
  pub set_cooldown_lem :
      (rl : RateLimiter F) (d now : ℕ) (cs : List (LimiterCall F)) (at : ℕ)
      → (cooldown_remaining (set_cooldown rl d now) now ≡ max (cooldown_remaining rl now) d)
        × (now + d ≤ at + cooldown_remaining (run (set_cooldown rl d now) cs) at)
  unfolding set_cooldown cooldown_remaining
  set_cooldown_lem rl d now cs at =
      (ground arith, ground (arith, run_cooldown (set_cooldown rl d now) cs))
