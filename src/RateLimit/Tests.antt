-- ===== src/RateLimit/Tests.antt =====
-- internal/ratelimit, at concrete inputs, with whole numbers for float64.
use Prim.Native.Nat.{max}
use rescale_interlink.Common.{
  ℕ, ◌+◌, ◌*◌, ◌≤◌, ◌≡◌, refl, List, [], ◌∷◌, ◌++◌, arith, Option, none, some, String,
}
use rescale_interlink.Common.Map.{get, put, delete}
use rescale_interlink.Transfer.Float.{Float}
use rescale_interlink.Transfer.Samples.{whole_numbers}
use rescale_interlink.RateLimit.Limiter.{
  RateLimiter, new_rate_limiter, set_cooldown, cooldown_remaining,
}
use rescale_interlink.RateLimit.Limiter.Waiting.{LimiterCall, enters, leaves, cools, run}
use rescale_interlink.RateLimit.Limiter.Waiting.Fairness.{IsFair, run-IsFair}
use rescale_interlink.RateLimit.Limiter.Waiting.Cooldown.{set_cooldown_lem}
use rescale_interlink.RateLimit.Server.{Registry, Request, acquire_lease, second, LeaseState}
use rescale_interlink.RateLimit.Server.Requests.{new_server, touch, dispatch, handle_acquire_lease}
use rescale_interlink.RateLimit.Server.Upkeep.{stale_client_cleanup}
use rescale_interlink.RateLimit.Server.Ownership.{Lists}
use rescale_interlink.RateLimit.Server.Steps.{
  ServerCall, arrives, handles, cleans, watches, late_leases, run as run_server,
}
use rescale_interlink.RateLimit.Server.Prompt.{handle_acquire_lease-Lists}
use rescale_interlink.RateLimit.Server.Reclaim.{IsReclaimed, stale_client_cleanup-run}

instance abbrev arithmetic : Float ℕ
arithmetic = whole_numbers

-- One token each second, and at most one at a time: the first goroutine takes it, three others wait and
-- the second of them gives up.
abbrev calls : List (LimiterCall ℕ)
calls = enters 0 ∷ enters 1 ∷ enters 2 ∷ enters 3 ∷ leaves 2 ∷ cools 5 4 ∷ []

abbrev limiter : RateLimiter ℕ
limiter = new_rate_limiter 0 1 1 0

run-IsFair_example : IsFair (run limiter calls)
run-IsFair_example = run-IsFair 0 1 1 0 calls

set_cooldown_lem_example :
    (cooldown_remaining (set_cooldown limiter 60 10) 10 ≡ max (cooldown_remaining limiter 10) 60)
    × (10 + 60 ≤ 20 + cooldown_remaining (run (set_cooldown limiter 60 10) (cools 5 20 ∷ [])) 20)
set_cooldown_lem_example = set_cooldown_lem limiter 60 10 (cools 5 20 ∷ []) 20

abbrev registry : Registry ℕ
registry = record {
  scope_configs =
      ("user", record { hard_limit_per_s = 8; target_rate = 6; burst_capacity = 12 }) ∷ [];
  default_scope = "user";
}

abbrev lease_request : String → String → Request
lease_request client id = record {
  message_type = acquire_lease;
  client_id = client;
  scope = "user";
  base_url = "https://platform";
  key_hash = "k";
  cooldown_duration = 0;
  drawn_lease_id = id;
}

abbrev rate_of : Option (LeaseState ℕ) → ℕ
rate_of none = 0
rate_of (some ls) = ls.grant.rate

-- The parts of a request with nothing between them.
abbrev whole : Request → ℕ → List (ServerCall ℕ)
whole req now = arrives req now ∷ handles req now ∷ []

-- Two clients take a lease, and one goes on.
abbrev server_calls : List (ServerCall ℕ)
server_calls =
    whole (lease_request "pid-1" "lease-1") 0
    ++ whole (lease_request "pid-2" "lease-2") (100 * second)

stale_client_cleanup-run_example :
    IsReclaimed
      (late_leases (new_server registry 0) server_calls)
      (run_server (new_server registry 0) server_calls)
      (stale_client_cleanup (run_server (new_server registry 0) server_calls) (130 * second))
      (130 * second)
stale_client_cleanup-run_example = stale_client_cleanup-run registry 0 server_calls (130 * second)

handle_acquire_lease-Lists_example :
    Lists
      (run_server (new_server registry 0) (
        arrives (lease_request "pid-1" "lease-1") 0
          ∷ (cleans (60 * second) ∷ watches (90 * second) ∷ [])
        ++ handles (lease_request "pid-1" "lease-1") (500 * second) ∷ [])).clients
      "lease-1"
      "pid-1"
handle_acquire_lease-Lists_example =
    handle_acquire_lease-Lists (new_server registry 0) (lease_request "pid-1" "lease-1") 0
      (500 * second) (cleans (60 * second) ∷ watches (90 * second) ∷ []) (λ e. cc) refl
      (omega arith, (tt, tt))

-- A cleanup between the parts of a request takes the client, and no client lists the lease.
abbrev late_calls : List (ServerCall ℕ)
late_calls =
    arrives (lease_request "pid-1" "lease-1") 0
    ∷ cleans (130 * second)
    ∷ handles (lease_request "pid-1" "lease-1") (130 * second)
    ∷ []

late_lease :
    (late_leases (new_server registry 0) late_calls ≡ "lease-1" ∷ [])
    × ((run_server (new_server registry 0) late_calls).clients ≡ [])
    × (rate_of (get (run_server (new_server registry 0) late_calls).leases "lease-1") ≡ 6)
unfolding run_server late_leases new_server get put delete touch dispatch handle_acquire_lease
    stale_client_cleanup
late_lease = (refl, refl, refl)

-- The rates of the two leases come to more than the target of 6.
lease_rates :
    rate_of (get (run_server (new_server registry 0) server_calls).leases "lease-1")
      + rate_of (get (run_server (new_server registry 0) server_calls).leases "lease-2")
    ≡ 9
unfolding run_server new_server get put delete touch dispatch handle_acquire_lease
lease_rates = refl

-- A lease that was granted to a client without a name is there after any time.
nameless_lease :
    rate_of (
      get
        (stale_client_cleanup
          (run_server (new_server registry 0) (whole (lease_request "" "lease-1") 0))
          (1000000 * second)).leases
        "lease-1")
    ≡ 6
unfolding run_server new_server get put delete touch dispatch handle_acquire_lease
    stale_client_cleanup
nameless_lease = refl
