-- ===== src/RateLimit/Server/Requests.antt =====
-- internal/ratelimit/coordinator/server.go and lease.go: the requests of the clients. A request takes the
-- lock twice, in HandleRequest to track its client and in its handler; three of the handlers go on
-- without it, on the limiter of a bucket. Each of these parts is a function of its own, and other
-- requests and the cleanup may come between them.
use Prim.Native.String.{◌++◌ as appended}
use rescale_interlink.Common.{
  ℕ, ◌+◌, ◌-◌, ◌*◌, ◌/◌, String, true, false, List, [], ◌∷◌, ◌++◌, none, some, ltb, ◌==◌, ◌===◌,
  if◌then◌else◌, length, Option,
}
use rescale_interlink.Common.Map.{Map, get, put, get_or}
use rescale_interlink.Transfer.Float.{Float}
use rescale_interlink.RateLimit.Limiter.{
  RateLimiter, new_rate_limiter, try_acquire_unlocked, time_until_next_token, cooldown_remaining,
  drain, set_cooldown, get_current_tokens,
}
use rescale_interlink.RateLimit.Server.{
  second, millisecond, lease_default_ttl, lease_refresh_interval, ScopeConfig, Registry,
  ClientState, LeaseGrant, LeaseState, Server, MessageType, Request, BucketState, Response,
  bucket_key_of, elem, acquire, acquire_lease, drain_bucket, cool_down, heartbeat, get_state,
  shutdown, unknown, granted, wait, lease_granted, ok, error, state_data,
}

-- The lease is tracked in the client.
unfoldable pub track_lease : Map ClientState → String → String → Map ClientState
track_lease clients client_id lease_id = elim (get clients client_id) [
  | none ↦ clients
  | some client ↦
      put clients client_id (record client { lease_ids = client.lease_ids ++ lease_id ∷ [] })
]

-- The clients that use a bucket.
pub client_count : Map ClientState → String → ℕ
client_count [] key = 0
client_count ((id, client) ∷ m) key =
    (if elem key client.bucket_keys then 1 else 0) + client_count m key

module _ {F : Type 0} ⦃fl : Float F⦄ where
  -- NewServer
  unfoldable pub new_server : Registry F → ℕ → Server F
  new_server registry now = record {
    registry = registry;
    buckets = [];
    clients = [];
    leases = [];
    start_time = now;
    last_activity = now;
    idle_timeout = 5 * 60 * second;
    shutdown_scheduled = false;
    cancelled = false;
  }

  -- GetScopeConfig, with the zero value if the default scope has no configuration.
  unfoldable pub get_scope_config : Registry F → String → ScopeConfig F
  get_scope_config r scope = elim (get r.scope_configs scope) [
    | some cfg ↦ cfg
    | none ↦
        let zero : ScopeConfig F = record {
          hard_limit_per_s = fl.literal 0 1;
          target_rate = fl.literal 0 1;
          burst_capacity = fl.literal 0 1;
        } in
        get_or r.scope_configs r.default_scope zero
  ]

  -- EmergencyCap
  unfoldable pub emergency_cap : ScopeConfig F → F × F
  emergency_cap cfg =
      (fl.times (fl.divided cfg.hard_limit_per_s (fl.literal 4 1)) (fl.literal 1 2), fl.literal 1 1)

  -- CalculateLeaseFraction
  unfoldable pub calculate_lease_fraction : ScopeConfig F → ℕ → F × F
  calculate_lease_fraction cfg active_clients =
      let n = if active_clients == 0 then 1 else active_clients in
      (fl.divided cfg.target_rate (fl.of_int n), fl.divided cfg.burst_capacity (fl.of_int n))

  -- HandleRequest up to its Unlock: the client is tracked.
  unfoldable pub touch : Server F → Request → ℕ → Server F
  touch s req now =
      let active = record s { last_activity = now } in
      if req.client_id === "" then active else record active {
        clients = put s.clients req.client_id (elim (get s.clients req.client_id) [
          | none ↦ record {
            client_id = req.client_id;
            last_seen = now;
            lease_ids = [];
            bucket_keys = [];
          }
          | some client ↦ record client { last_seen = now }
        ]);
      }

  -- getOrCreateBucket; the new limiter is in the map too.
  pub get_or_create_bucket : Server F → Request → ℕ → RateLimiter F
  unfolding get_scope_config
  get_or_create_bucket s req now = elim (get s.buckets (bucket_key_of req)) [
    | some limiter ↦ limiter
    | none ↦
        let cfg = get_scope_config s.registry req.scope in
        new_rate_limiter 0 cfg.target_rate cfg.burst_capacity now
  ]

  -- The limiter that a request has found or made, as it is afterwards.
  unfoldable pub store_bucket : Server F → Request → RateLimiter F → Server F
  store_bucket s req limiter = record s { buckets = put s.buckets (bucket_key_of req) limiter }

  -- The loop of handleAcquire on the keys of the client.
  unfoldable pub track_bucket : Server F → Request → Server F
  track_bucket s req = elim (get s.clients req.client_id) [
    | none ↦ s
    | some client ↦ if elem (bucket_key_of req) client.bucket_keys then s else record s {
      clients =
          put s.clients req.client_id
            (record client { bucket_keys = client.bucket_keys ++ bucket_key_of req ∷ [] });
    }
  ]

  -- handleAcquire up to its Unlock
  unfoldable pub handle_acquire : Server F → Request → ℕ → Server F
  unfolding get_or_create_bucket store_bucket track_bucket
  handle_acquire s req now = track_bucket (store_bucket s req (get_or_create_bucket s req now)) req

  -- The rest of handleAcquire. Its three methods of the limiter have one time and are taken together.
  unfoldable pub acquire_from : RateLimiter F → ℕ → RateLimiter F × Response F
  acquire_from limiter now =
      let tried = try_acquire_unlocked limiter now in
      let until = time_until_next_token tried.0 in
      if ltb 0 (cooldown_remaining limiter now)
      then (limiter, wait (cooldown_remaining limiter now))
      else (
        tried.0,
        if tried.1 then granted else wait (if ltb until millisecond then millisecond else until),
      )

  -- The leases on a bucket.
  unfoldable pub lease_count : Map (LeaseState F) → String → ℕ
  lease_count [] key = 0
  lease_count ((id, ls) ∷ m) key = (if ls.bucket_key === key then 1 else 0) + lease_count m key

  -- The grant of handleAcquireLease.
  unfoldable pub new_grant : Server F → Request → ℕ → LeaseGrant F
  unfolding get_scope_config lease_count calculate_lease_fraction
  new_grant s req now =
      let share =
        calculate_lease_fraction (get_scope_config s.registry req.scope)
          (lease_count s.leases (bucket_key_of req) + 1) in
      record {
        lease_id = req.drawn_lease_id;
        scope = req.scope;
        rate = share.0;
        burst = share.1;
        expires_at = now + lease_default_ttl;
        refresh_by = now + lease_refresh_interval;
      }

  -- handleAcquireLease
  unfoldable pub handle_acquire_lease : Server F → Request → ℕ → Server F × Response F
  unfolding new_grant track_lease
  handle_acquire_lease s req now = (
    record s {
      leases = put s.leases req.drawn_lease_id (record {
        grant = new_grant s req now;
        client_id = req.client_id;
        bucket_key = bucket_key_of req;
      });
      clients = track_lease s.clients req.client_id req.drawn_lease_id;
    },
    lease_granted (new_grant s req now),
  )

  -- handleDrain and handleSetCooldown up to their Unlock
  unfoldable pub find_bucket : Server F → Request → ℕ → Server F
  unfolding get_or_create_bucket store_bucket
  find_bucket s req now = store_bucket s req (get_or_create_bucket s req now)

  -- The rest of handleSetCooldown
  unfoldable pub cool_limiter : RateLimiter F → Request → ℕ → RateLimiter F
  cool_limiter limiter req now =
      if ltb 0 req.cooldown_duration
      then set_cooldown limiter req.cooldown_duration now
      else limiter

  -- The body of the loop of handleHeartbeat.
  unfoldable pub refresh : Map (LeaseState F) → String → ℕ → Map (LeaseState F)
  refresh leases lease_id now = elim (get leases lease_id) [
    | none ↦ leases
    | some ls ↦
        let grant = record (ls.grant) {
          expires_at = now + lease_default_ttl;
          refresh_by = now + lease_refresh_interval;
        } in
        put leases lease_id (record ls { grant = grant })
  ]

  unfoldable pub refresh_all : Map (LeaseState F) → List String → ℕ → Map (LeaseState F)
  unfolding refresh
  refresh_all leases [] now = leases
  refresh_all leases (id ∷ ids) now = refresh_all (refresh leases id now) ids now

  -- handleHeartbeat
  unfoldable pub handle_heartbeat : Server F → Request → ℕ → Server F × Response F
  unfolding refresh_all
  handle_heartbeat s req now = (
    elim (get s.clients req.client_id) [
      | none ↦ s
      | some client ↦ record s { leases = refresh_all s.leases client.lease_ids now }
    ],
    ok,
  )

  pub bucket_states : Map (RateLimiter F) → Map ClientState → ℕ → Map (BucketState F)
  unfolding client_count
  bucket_states [] clients now = []
  bucket_states ((key, limiter) ∷ m) clients now =
      (
        key,
        record {
          scope = "";
          tokens = get_current_tokens limiter now;
          cooldown_remain_ms = cooldown_remaining limiter now / millisecond;
          active_clients = client_count clients key;
        },
      )
      ∷ bucket_states m clients now

  -- handleGetState
  unfoldable pub handle_get_state : Server F → ℕ → Server F × Response F
  unfolding bucket_states
  handle_get_state s now = (
    s,
    state_data (record {
      uptime = now - s.start_time;
      active_clients = length s.clients;
      active_leases = length s.leases;
      buckets = bucket_states s.buckets s.clients now;
    }),
  )

  -- handleShutdown, which lets a goroutine cancel the context later.
  unfoldable pub handle_shutdown : Server F → Server F × Response F
  handle_shutdown s = (record s { shutdown_scheduled = true }, ok)

  -- The switch of HandleRequest, each handler up to its Unlock; `none` if the handler goes on.
  unfoldable pub dispatch : MessageType → Server F → Request → ℕ → Server F × Option (Response F)
  unfolding handle_acquire handle_acquire_lease find_bucket handle_heartbeat handle_get_state
      handle_shutdown
  dispatch acquire s req now = (handle_acquire s req now, none)
  dispatch acquire_lease s req now =
      let done = handle_acquire_lease s req now in (done.0, some done.1)
  dispatch drain_bucket s req now = (find_bucket s req now, none)
  dispatch cool_down s req now = (find_bucket s req now, none)
  dispatch heartbeat s req now = let done = handle_heartbeat s req now in (done.0, some done.1)
  dispatch get_state s req now = let done = handle_get_state s now in (done.0, some done.1)
  dispatch shutdown s req now = let done = handle_shutdown s in (done.0, some done.1)
  dispatch (unknown type) s req now = (s, some (error (appended "unknown message type: " type)))

  -- What a handler goes on with, on the limiter that it has found; `none` if it is at its end.
  unfoldable pub rest_of_handler :
      MessageType → RateLimiter F → Request → ℕ → Option (RateLimiter F × Response F)
  unfolding acquire_from cool_limiter
  rest_of_handler acquire limiter req now = some (acquire_from limiter now)
  rest_of_handler drain_bucket limiter req now = some (drain limiter now, ok)
  rest_of_handler cool_down limiter req now = some (cool_limiter limiter req now, ok)
  rest_of_handler acquire_lease limiter req now = none
  rest_of_handler heartbeat limiter req now = none
  rest_of_handler get_state limiter req now = none
  rest_of_handler shutdown limiter req now = none
  rest_of_handler (unknown type) limiter req now = none

  -- The same in the map of buckets, where a limiter stays once it is made.
  unfoldable pub finish_request : Server F → Request → ℕ → Server F × Option (Response F)
  unfolding rest_of_handler store_bucket
  finish_request s req now = elim (get s.buckets (bucket_key_of req)) [
    | none ↦ (s, none)
    | some limiter ↦ elim (rest_of_handler req.message_type limiter req now) [
      | none ↦ (s, none)
      | some done ↦ (store_bucket s req done.0, some done.1)
    ]
  ]
