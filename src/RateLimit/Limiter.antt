-- ===== src/RateLimit/Limiter.antt =====
-- internal/ratelimit/limiter.go: a token bucket with a queue of waiters. Each locked part of a method is
-- a step; `now` is what time.Now returns in it. The hooks and the callback are represented by whether
-- they are set, and what the callback is called with by the times of the calls.
pub mod Waiting
use rescale_interlink.Common.{
  ℕ, ◌+◌, ◌-◌, Bool, true, false, not, ◌&&◌, ◌||◌, List, [], ◌∷◌, ◌++◌, Option, none, some, ltb,
  leb, ◌==◌, if◌then◌else◌,
}
use rescale_interlink.Transfer.Float.{Float}

-- RateLimiter. `next_ticket` is fifoTicketCounter, and the queue holds the numbers of its tickets.
pub record RateLimiter (F : Type 0) : Type 0 where
  pub tokens : F
  pub max_tokens : F
  pub refill_rate : F
  pub last_refill : ℕ
  pub cooldown_end : ℕ
  pub coordinator_wait : Bool
  pub coordinator_drain : Bool
  pub coordinator_cooldown : Bool
  pub degraded : Bool
  pub wait_queue : List ℕ
  pub next_ticket : ℕ
  pub hard_limit_per_s : F
  pub has_notify : Bool
  pub warning_active : Bool
  pub last_notify_time : ℕ
  pub notices : List ℕ

-- NotifyMinInterval
abbrev pub notify_min_interval : ℕ
notify_min_interval = 10000000000

module _ {F : Type 0} ⦃fl : Float F⦄ where
  -- NewRateLimiter, with what the counter of tickets has reached.
  unfoldable pub new_rate_limiter : ℕ → F → F → ℕ → RateLimiter F
  new_rate_limiter next_ticket tokens_per_second burst_size now = record {
    tokens = burst_size;
    max_tokens = burst_size;
    refill_rate = tokens_per_second;
    last_refill = now;
    cooldown_end = 0;
    coordinator_wait = false;
    coordinator_drain = false;
    coordinator_cooldown = false;
    degraded = false;
    wait_queue = [];
    next_ticket = next_ticket;
    hard_limit_per_s = fl.literal 0 1;
    has_notify = false;
    warning_active = false;
    last_notify_time = 0;
    notices = [];
  }

  -- SetCoordinatorHook
  pub set_coordinator_hook : RateLimiter F → Bool → Bool → Bool → RateLimiter F
  set_coordinator_hook rl wait_fn drain_fn cooldown_fn = record rl {
    coordinator_wait = wait_fn;
    coordinator_drain = drain_fn;
    coordinator_cooldown = cooldown_fn;
  }

  -- ClearCoordinatorHook
  pub clear_coordinator_hook : RateLimiter F → RateLimiter F
  unfolding set_coordinator_hook
  clear_coordinator_hook rl = set_coordinator_hook rl false false false

  -- SetHardLimit
  pub set_hard_limit : RateLimiter F → F → RateLimiter F
  set_hard_limit rl limit = record rl { hard_limit_per_s = limit }

  -- SetNotifyFunc
  pub set_notify_func : RateLimiter F → Bool → RateLimiter F
  set_notify_func rl fn = record rl { has_notify = fn }

  -- Utilization
  pub utilization : RateLimiter F → F
  utilization rl =
      if fl.less_eq rl.hard_limit_per_s (fl.literal 0 1)
      then fl.literal 0 1
      else fl.divided rl.refill_rate rl.hard_limit_per_s

  -- `util` in emitUtilizationNotice
  pub notice_utilization : RateLimiter F → F
  notice_utilization rl =
      if fl.less (fl.literal 0 1) rl.hard_limit_per_s
      then fl.divided rl.refill_rate rl.hard_limit_per_s
      else fl.literal 0 1

  -- The hysteresis on `warningActive`.
  pub warned : RateLimiter F → Bool
  unfolding notice_utilization
  warned rl =
      if fl.less_eq (fl.literal 60 100) (notice_utilization rl)
      then true
      else if fl.less (notice_utilization rl) (fl.literal 50 100)
      then false
      else rl.warning_active

  -- emitUtilizationNotice
  pub emit_utilization_notice : RateLimiter F → ℕ → RateLimiter F
  unfolding warned
  emit_utilization_notice rl now =
      let active = record rl { warning_active = warned rl } in
      if not rl.has_notify
      then rl
      else if not (warned rl)
      then active
      else if not (rl.last_notify_time == 0) && ltb now (rl.last_notify_time + notify_min_interval)
      then active
      else record active { last_notify_time = now; notices = now ∷ rl.notices }

  -- The tokens after a refill.
  unfoldable pub refilled : RateLimiter F → ℕ → F
  refilled rl now =
      let tokens = fl.plus rl.tokens (fl.times (fl.seconds now rl.last_refill) rl.refill_rate) in
      if fl.less rl.max_tokens tokens then rl.max_tokens else tokens

  -- tryAcquireUnlocked
  unfoldable pub try_acquire_unlocked : RateLimiter F → ℕ → RateLimiter F × Bool
  unfolding refilled
  try_acquire_unlocked rl now =
      let tokens = refilled rl now in
      if fl.less_eq (fl.literal 1 1) tokens
      then (record rl { tokens = fl.minus tokens (fl.literal 1 1); last_refill = now }, true)
      else (record rl { tokens = tokens; last_refill = now }, false)

  -- GetCurrentTokens
  pub get_current_tokens : RateLimiter F → ℕ → F
  unfolding refilled
  get_current_tokens rl now = refilled rl now

  -- timeUntilNextTokenUnlocked, in nanoseconds
  unfoldable pub time_until_next_token : RateLimiter F → ℕ
  time_until_next_token rl =
      let needed = fl.minus (fl.literal 1 1) rl.tokens in
      if fl.less_eq needed (fl.literal 0 1)
      then 0
      else fl.to_int (fl.times (fl.divided needed rl.refill_rate) (fl.literal 1000000000 1))

  -- Reconfigure
  pub reconfigure : RateLimiter F → F → F → RateLimiter F
  reconfigure rl rate burst = record rl {
    refill_rate = rate;
    max_tokens = burst;
    tokens = if fl.less burst rl.tokens then burst else rl.tokens;
  }

  -- Drain, of the local bucket.
  pub drain : RateLimiter F → ℕ → RateLimiter F
  drain rl now = record rl { tokens = fl.literal 0 1; last_refill = now }

  -- SetCooldown, of the local bucket.
  unfoldable pub set_cooldown : RateLimiter F → ℕ → ℕ → RateLimiter F
  set_cooldown rl d now = record rl {
    cooldown_end = if ltb rl.cooldown_end (now + d) then now + d else rl.cooldown_end;
  }

  -- CooldownRemaining, where the subtraction stops at 0 as the test `remaining <= 0` makes it.
  unfoldable pub cooldown_remaining : RateLimiter F → ℕ → ℕ
  cooldown_remaining rl now = if rl.cooldown_end == 0 then 0 else rl.cooldown_end - now
