-- ===== src/RateLimit/Server.antt =====
-- internal/ratelimit/coordinator/server.go and lease.go: the coordinator, which owns the token buckets
-- and the leases of its clients. Each part of a request that holds the lock is one step, and so is a
-- round of the cleanup or of the watchdog; `now` is what time.Now returns in it. The order of a map is
-- that of its entries.
pub mod Requests
pub mod Upkeep
pub mod Ownership
pub mod Steps
pub mod Invariant
pub mod Reclaim
pub mod Prompt
use Prim.Native.String.{◌++◌ as appended}
use rescale_interlink.Common.{
  ℕ, ◌+◌, ◌-◌, ◌*◌, ◌/◌, String, Bool, true, false, not, ◌&&◌, ◌||◌, List, [], ◌∷◌, ◌++◌, Option,
  none, some, ltb, leb, ◌==◌, ◌===◌, if◌then◌else◌, length, map, keep,
}
use rescale_interlink.Common.Map.{Map, get, put, delete}
use rescale_interlink.Transfer.Float.{Float}
use rescale_interlink.RateLimit.Limiter.{
  RateLimiter, new_rate_limiter, try_acquire_unlocked, time_until_next_token, cooldown_remaining,
  drain, set_cooldown, get_current_tokens,
}

-- time.Second and time.Millisecond
abbrev pub second : ℕ
second = 1000000000

abbrev pub millisecond : ℕ
millisecond = 1000000

-- LeaseDefaultTTL, LeaseRefreshInterval and StaleClientTimeout
abbrev pub lease_default_ttl : ℕ
lease_default_ttl = 60 * second

abbrev pub lease_refresh_interval : ℕ
lease_refresh_interval = 30 * second

abbrev pub stale_client_timeout : ℕ
stale_client_timeout = 2 * lease_default_ttl

-- ratelimit.ScopeConfig, of which the coordinator uses these.
pub record ScopeConfig (F : Type 0) : Type 0 where
  pub hard_limit_per_s : F
  pub target_rate : F
  pub burst_capacity : F

-- Registry, without the rules for endpoints.
pub record Registry (F : Type 0) : Type 0 where
  pub scope_configs : Map (ScopeConfig F)
  pub default_scope : String

-- clientState
pub record ClientState : Type 0 where
  pub client_id : String
  pub last_seen : ℕ
  pub lease_ids : List String
  pub bucket_keys : List String

-- LeaseGrant
pub record LeaseGrant (F : Type 0) : Type 0 where
  pub lease_id : String
  pub scope : String
  pub rate : F
  pub burst : F
  pub expires_at : ℕ
  pub refresh_by : ℕ

-- leaseState
pub record LeaseState (F : Type 0) : Type 0 where
  pub grant : LeaseGrant F
  pub client_id : String
  pub bucket_key : String

-- Server. The goroutine of a shutdown and the context are Booleans.
pub record Server (F : Type 0) : Type 0 where
  pub registry : Registry F
  pub buckets : Map (RateLimiter F)
  pub clients : Map ClientState
  pub leases : Map (LeaseState F)
  pub start_time : ℕ
  pub last_activity : ℕ
  pub idle_timeout : ℕ
  pub shutdown_scheduled : Bool
  pub cancelled : Bool

-- MessageType of a request.
pub data MessageType : Type 0 where
  acquire : MessageType
  acquire_lease : MessageType
  drain_bucket : MessageType
  cool_down : MessageType
  heartbeat : MessageType
  get_state : MessageType
  shutdown : MessageType
  unknown : String → MessageType

-- Request. A message of type AcquireLease carries the identifier that GenerateLeaseID draws for it.
pub record Request : Type 0 where
  pub message_type : MessageType
  pub client_id : String
  pub scope : String
  pub base_url : String
  pub key_hash : String
  pub cooldown_duration : ℕ
  pub drawn_lease_id : String

-- BucketState
pub record BucketState (F : Type 0) : Type 0 where
  pub scope : String
  pub tokens : F
  pub cooldown_remain_ms : ℕ
  pub active_clients : ℕ

-- StateInfo
pub record StateInfo (F : Type 0) : Type 0 where
  pub uptime : ℕ
  pub active_clients : ℕ
  pub active_leases : ℕ
  pub buckets : Map (BucketState F)

-- Response
pub data Response (F : Type 0) : Type 0 where
  granted : Response F
  wait : ℕ → Response F
  lease_granted : LeaseGrant F → Response F
  ok : Response F
  error : String → Response F
  state_data : StateInfo F → Response F

-- BucketKeyFromRequest and String of the key
abbrev pub bucket_key_of : Request → String
bucket_key_of req =
    appended req.base_url (appended "|" (appended req.key_hash (appended "|" req.scope)))

abbrev pub elem : String → List String → Bool
elem k [] = false
elem k (x ∷ xs) = x === k || elem k xs
