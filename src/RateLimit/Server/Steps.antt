-- ===== src/RateLimit/Server/Steps.antt =====
-- internal/ratelimit/coordinator/server.go: what happens to a coordinator, in any order. A step is what is
-- done under one lock, so a request is a step for its client, a step for its handler, and for some
-- handlers a step on a limiter, with any other steps between them.
use rescale_interlink.Common.{ℕ, String, List, [], ◌∷◌, ◌++◌, none, some, ◌===◌, if◌then◌else◌}
use rescale_interlink.Common.Map.{get, put}
use rescale_interlink.Transfer.Float.{Float}
use rescale_interlink.RateLimit.Limiter.{RateLimiter}
use rescale_interlink.RateLimit.Server.{
  Server, Request, MessageType, acquire, acquire_lease, drain_bucket, cool_down, heartbeat,
  get_state, shutdown, unknown,
}
use rescale_interlink.RateLimit.Server.Requests.{touch, dispatch, finish_request}
use rescale_interlink.RateLimit.Server.Upkeep.{stale_client_cleanup, idle_watchdog}

pub data ServerCall (F : Type 0) : Type 0 where
  -- HandleRequest up to its Unlock, its handler up to that, and the rest of the handler.
  arrives : Request → ℕ → ServerCall F
  handles : Request → ℕ → ServerCall F
  finishes : Request → ℕ → ServerCall F
  -- Any method of the limiter of a bucket.
  limits : String → (RateLimiter F → RateLimiter F) → ServerCall F
  cleans : ℕ → ServerCall F
  watches : ℕ → ServerCall F

module _ {F : Type 0} ⦃fl : Float F⦄ where
  unfoldable pub limit_bucket : Server F → String → (RateLimiter F → RateLimiter F) → Server F
  limit_bucket s key method = elim (get s.buckets key) [
    | none ↦ s
    | some limiter ↦ record s { buckets = put s.buckets key (method limiter) }
  ]

  unfoldable pub serve : Server F → ServerCall F → Server F
  unfolding limit_bucket
  serve s (arrives req now) = touch s req now
  serve s (handles req now) = (dispatch req.message_type s req now).0
  serve s (finishes req now) = (finish_request s req now).0
  serve s (limits key method) = limit_bucket s key method
  serve s (cleans now) = stale_client_cleanup s now
  serve s (watches now) = idle_watchdog s now

  unfoldable pub run : Server F → List (ServerCall F) → Server F
  unfolding serve
  run s [] = s
  run s (c ∷ cs) = run (serve s c) cs

  -- The lease that a handler grants to a client with a name that is not there: a cleanup has taken the
  -- client since its request came.
  abbrev pub granted_late : MessageType → Server F → Request → List String
  granted_late acquire_lease s req =
      if req.client_id === ""
      then []
      else elim (get s.clients req.client_id) [ none ↦ req.drawn_lease_id ∷ [] | some client ↦ [] ]
  granted_late acquire s req = []
  granted_late drain_bucket s req = []
  granted_late cool_down s req = []
  granted_late heartbeat s req = []
  granted_late get_state s req = []
  granted_late shutdown s req = []
  granted_late (unknown type) s req = []

  abbrev pub late_of : Server F → ServerCall F → List String
  late_of s (handles req now) = granted_late req.message_type s req
  late_of s (arrives req now) = []
  late_of s (finishes req now) = []
  late_of s (limits key method) = []
  late_of s (cleans now) = []
  late_of s (watches now) = []

  unfoldable pub late_leases : Server F → List (ServerCall F) → List String
  late_leases s [] = []
  late_leases s (c ∷ cs) = late_of s c ++ late_leases (serve s c) cs
