-- ===== src/RateLimit/Server/Upkeep.antt =====
-- internal/ratelimit/coordinator/server.go: a round of the cleanup of stale clients and of the watchdog.
use rescale_interlink.Common.{
  ℕ, ◌+◌, String, Bool, true, ◌&&◌, List, [], ◌∷◌, none, some, ltb, ◌==◌, if◌then◌else◌, length,
  map,
}
use rescale_interlink.Common.Map.{Map, get, delete}
use rescale_interlink.RateLimit.Server.{stale_client_timeout, ClientState, LeaseState, Server}

-- The test of staleClientCleanup: now.Sub(client.lastSeen) > StaleClientTimeout
abbrev pub is_stale : ClientState → ℕ → Bool
is_stale client now = ltb (client.last_seen + stale_client_timeout) now

module _ {F : Type 0} where
  unfoldable pub delete_all : Map (LeaseState F) → List String → Map (LeaseState F)
  delete_all leases [] = leases
  delete_all leases (id ∷ ids) = delete_all (delete leases id) ids

  -- The body of the loop of staleClientCleanup, for the client of a key.
  unfoldable pub clean_client : Server F → ℕ → String → Server F
  unfolding delete_all
  clean_client s now id = elim (get s.clients id) [
    | none ↦ s
    | some client ↦
        if is_stale client now
        then record s {
          leases = delete_all s.leases client.lease_ids;
          clients = delete s.clients id;
        }
        else s
  ]

  unfoldable pub clean_clients : Server F → ℕ → List String → Server F
  unfolding clean_client
  clean_clients s now [] = s
  clean_clients s now (id ∷ ids) = clean_clients (clean_client s now id) now ids

  -- A round of staleClientCleanup
  unfoldable pub stale_client_cleanup : Server F → ℕ → Server F
  unfolding clean_clients
  stale_client_cleanup s now = clean_clients s now (map (λ entry. entry.0) s.clients)

  -- A round of idleWatchdog
  unfoldable pub idle_watchdog : Server F → ℕ → Server F
  idle_watchdog s now =
      if length s.clients == 0 && ltb (s.last_activity + s.idle_timeout) now
      then record s { cancelled = true }
      else s
