-- ===== src/RateLimit/Server/Invariant.antt =====
-- internal/ratelimit/coordinator/server.go: the steps, one by one, on the leases and their holders.
use rescale_interlink.Common.{
  ℕ, String, false, List, [], ◌∷◌, ◌++◌, none, some, ◌≡◌, ◌≢◌, sym, subst, arith, ◌===◌, ===_ne,
  Bool-cases, Option-cases, inl, inr, map, ltb, length, ◌==◌, ◌&&◌, ◌+◌, true, ===_self,
}
use rescale_interlink.Common.Map.{get}
use rescale_interlink.Transfer.Float.{Float}
use rescale_interlink.RateLimit.Limiter.{RateLimiter}
use rescale_interlink.RateLimit.Server.{
  LeaseState, Server, Request, MessageType, acquire, acquire_lease, drain_bucket, cool_down,
  heartbeat, get_state, shutdown, unknown, elem, bucket_key_of,
}
use rescale_interlink.RateLimit.Server.Requests.{
  touch, track_bucket, store_bucket, track_lease, get_or_create_bucket, handle_acquire,
  handle_acquire_lease, handle_heartbeat, handle_get_state, handle_shutdown, dispatch,
  finish_request, rest_of_handler, find_bucket,
}
use rescale_interlink.RateLimit.Server.Steps.{
  ServerCall, arrives, handles, finishes, limits, cleans, watches, serve, run, limit_bucket,
  granted_late, late_of, late_leases,
}
use rescale_interlink.RateLimit.Server.Upkeep.{
  is_stale, clean_client, clean_clients, stale_client_cleanup, idle_watchdog,
}
use rescale_interlink.RateLimit.Server.Ownership.{
  clash, elem-append, elem-append_right, Lists, Keeps, Keeps-refl, put-Keeps, track_lease-Keeps,
  track_lease-Lists, Owned, Keeps-Owned, put-Owned, refresh_all-Owned, forget-Owned,
}

module _ {F : Type 0} ⦃fl : Float F⦄ where
  touch-Keeps : (s : Server F) (req : Request) (now : ℕ) → Keeps s.clients (touch s req now).clients
  unfolding touch
  touch-Keeps s req now = elim (Bool-cases (req.client_id === "")) [
    | inl e ↦ rw (touch, e) (Keeps-refl s.clients)
    | inr e ↦ elim (Option-cases (get s.clients req.client_id)) [
      | inl f ↦
          rw (touch, e, f)
            (put-Keeps s.clients req.client_id _ λ client h id m. ground (arith, f, h))
      | inr (c, f) ↦
          rw (touch, e, f)
            (put-Keeps s.clients req.client_id (record c { last_seen = now })
              λ client h id m. ground (arith, f, h, m))
    ]
  ]

  track_bucket-Keeps : (s : Server F) (req : Request) → Keeps s.clients (track_bucket s req).clients
  unfolding track_bucket
  track_bucket-Keeps s req = elim (Option-cases (get s.clients req.client_id)) [
    | inl f ↦ rw (track_bucket, f) (Keeps-refl s.clients)
    | inr (c, f) ↦ elim (Bool-cases (elem (bucket_key_of req) c.bucket_keys)) [
      | inl e ↦ rw (track_bucket, f, e) (Keeps-refl s.clients)
      | inr e ↦
          rw (track_bucket, f, e)
            (put-Keeps s.clients req.client_id
              (record c { bucket_keys = c.bucket_keys ++ bucket_key_of req ∷ [] })
              λ client h id m. ground (arith, f, h, m))
    ]
  ]

  touch_leases : (s : Server F) (req : Request) (now : ℕ) → (touch s req now).leases ≡ s.leases
  unfolding touch
  touch_leases s req now = ground arith

  track_bucket_leases : (s : Server F) (req : Request) → (track_bucket s req).leases ≡ s.leases
  unfolding track_bucket
  track_bucket_leases s req = ground arith

  late_when_gone :
      (s : Server F) (req : Request)
      → req.client_id ≢ ""
      → get s.clients req.client_id ≡ none
      → elem req.drawn_lease_id (granted_late acquire_lease s req) ≡ true
  late_when_gone s req named gone =
      rw (===_ne req.client_id "" named, gone) (ground (arith, ===_self req.drawn_lease_id))

module _ {F : Type 0} ⦃fl : Float F⦄ (skip : List String) where
  -- The invariant of the coordinator, but for the leases of `skip`.
  pub record IsOwned (s : Server F) : Type 0 where
    pub owned :
        (id : String) (ls : LeaseState F)
        → get s.leases id ≡ some ls
        → ls.client_id ≢ ""
        → elem id skip ≡ false
        → Lists s.clients id ls.client_id

  Keeps-IsOwned :
      (s new : Server F)
      → Keeps s.clients new.clients
      → new.leases ≡ s.leases
      → IsOwned s
      → IsOwned new
  Keeps-IsOwned s new keeps same v = record {
    owned =
        subst (Owned skip new.clients) (sym same)
          (Keeps-Owned skip s.clients new.clients s.leases keeps v.owned);
  }

  touch-IsOwned : (s : Server F) (req : Request) (now : ℕ) → IsOwned s → IsOwned (touch s req now)
  touch-IsOwned s req now v =
      Keeps-IsOwned s (touch s req now) (touch-Keeps s req now) (touch_leases s req now) v

  track_bucket-IsOwned : (s : Server F) (req : Request) → IsOwned s → IsOwned (track_bucket s req)
  track_bucket-IsOwned s req v =
      Keeps-IsOwned s (track_bucket s req) (track_bucket-Keeps s req) (track_bucket_leases s req) v

  store_bucket-IsOwned :
      (s : Server F) (req : Request) (limiter : RateLimiter F)
      → IsOwned s
      → IsOwned (store_bucket s req limiter)
  unfolding store_bucket
  store_bucket-IsOwned s req limiter v = record { owned = v.owned }

  find_bucket-IsOwned :
      (s : Server F) (req : Request) (now : ℕ) → IsOwned s → IsOwned (find_bucket s req now)
  unfolding find_bucket
  find_bucket-IsOwned s req now v = store_bucket-IsOwned s req (get_or_create_bucket s req now) v

  handle_acquire-IsOwned :
      (s : Server F) (req : Request) (now : ℕ) → IsOwned s → IsOwned (handle_acquire s req now)
  unfolding handle_acquire
  handle_acquire-IsOwned s req now v =
      let found = store_bucket s req (get_or_create_bucket s req now) in
      track_bucket-IsOwned found req (store_bucket-IsOwned s req (get_or_create_bucket s req now) v)

  handle_acquire_lease-IsOwned :
      (s : Server F) (req : Request) (now : ℕ)
      → ((id : String) → elem id (granted_late acquire_lease s req) ≡ true → elem id skip ≡ true)
      → IsOwned s
      → IsOwned (handle_acquire_lease s req now).0
  unfolding handle_acquire_lease
  handle_acquire_lease-IsOwned s req now late v =
      let after = track_lease s.clients req.client_id req.drawn_lease_id in
      let kept =
        Keeps-Owned skip s.clients after s.leases
          (track_lease-Keeps s.clients req.client_id req.drawn_lease_id) v.owned in
      record {
        owned =
            put-Owned skip after s.leases req.drawn_lease_id _
              (λ named counted. elim (Option-cases (get s.clients req.client_id)) [
                | inl e ↦ absurd (
                    clash (elem req.drawn_lease_id skip)
                      (late req.drawn_lease_id (late_when_gone s req named e)) counted)
                | inr (c, e) ↦ track_lease-Lists s.clients req.client_id req.drawn_lease_id c e
              ])
              kept;
      }

  handle_heartbeat-IsOwned :
      (s : Server F) (req : Request) (now : ℕ) → IsOwned s → IsOwned (handle_heartbeat s req now).0
  unfolding handle_heartbeat
  handle_heartbeat-IsOwned s req now v = elim (Option-cases (get s.clients req.client_id)) [
    | inl e ↦ rw (handle_heartbeat, e) v
    | inr (c, e) ↦
        rw (handle_heartbeat, e)
          (record { owned = refresh_all-Owned skip s.clients s.leases c.lease_ids now v.owned })
  ]

  dispatch-IsOwned :
      (type : MessageType) (s : Server F) (req : Request) (now : ℕ)
      → ((id : String) → elem id (granted_late type s req) ≡ true → elem id skip ≡ true)
      → IsOwned s
      → IsOwned (dispatch type s req now).0
  unfolding dispatch handle_get_state handle_shutdown
  dispatch-IsOwned acquire s req now late v = handle_acquire-IsOwned s req now v
  dispatch-IsOwned acquire_lease s req now late v = handle_acquire_lease-IsOwned s req now late v
  dispatch-IsOwned drain_bucket s req now late v = find_bucket-IsOwned s req now v
  dispatch-IsOwned cool_down s req now late v = find_bucket-IsOwned s req now v
  dispatch-IsOwned heartbeat s req now late v = handle_heartbeat-IsOwned s req now v
  dispatch-IsOwned get_state s req now late v = v
  dispatch-IsOwned shutdown s req now late v = record { owned = v.owned }
  dispatch-IsOwned (unknown type) s req now late v = v

  limit_bucket-IsOwned :
      (s : Server F) (key : String) (method : RateLimiter F → RateLimiter F)
      → IsOwned s
      → IsOwned (limit_bucket s key method)
  unfolding limit_bucket
  limit_bucket-IsOwned s key method v = elim (Option-cases (get s.buckets key)) [
    | inl e ↦ rw (limit_bucket, e) v
    | inr (limiter, e) ↦ rw (limit_bucket, e) (record { owned = v.owned })
  ]

  finish_request-IsOwned :
      (s : Server F) (req : Request) (now : ℕ) → IsOwned s → IsOwned (finish_request s req now).0
  unfolding finish_request
  finish_request-IsOwned s req now v = elim (Option-cases (get s.buckets (bucket_key_of req))) [
    | inl e ↦ rw (finish_request, e) v
    | inr (limiter, e) ↦ elim (Option-cases (rest_of_handler req.message_type limiter req now)) [
      | inl f ↦ rw (finish_request, e, f) v
      | inr (done, f) ↦ rw (finish_request, e, f) (store_bucket-IsOwned s req done.0 v)
    ]
  ]

  clean_client-IsOwned :
      (s : Server F) (now : ℕ) (id : String) → IsOwned s → IsOwned (clean_client s now id)
  unfolding clean_client
  clean_client-IsOwned s now id v = elim (Option-cases (get s.clients id)) [
    | inl e ↦ rw (clean_client, e) v
    | inr (c, e) ↦ elim (Bool-cases (is_stale c now)) [
      | inl f ↦
          rw (clean_client, e, f)
            (record { owned = forget-Owned skip s.clients s.leases id c e v.owned })
      | inr f ↦ rw (clean_client, e, f) v
    ]
  ]

  pub clean_clients-IsOwned :
      (s : Server F) (now : ℕ) (ids : List String) → IsOwned s → IsOwned (clean_clients s now ids)
  unfolding clean_clients
  clean_clients-IsOwned s now [] v = v
  clean_clients-IsOwned s now (id ∷ ids) v =
      clean_clients-IsOwned (clean_client s now id) now ids (clean_client-IsOwned s now id v)

  idle_watchdog-IsOwned : (s : Server F) (now : ℕ) → IsOwned s → IsOwned (idle_watchdog s now)
  unfolding idle_watchdog
  idle_watchdog-IsOwned s now v =
      elim (Bool-cases (length s.clients == 0 && ltb (s.last_activity + s.idle_timeout) now)) [
        | inl e ↦ rw (idle_watchdog, e) (record { owned = v.owned })
        | inr e ↦ rw (idle_watchdog, e) v
      ]

  serve-IsOwned :
      (s : Server F) (c : ServerCall F)
      → ((id : String) → elem id (late_of s c) ≡ true → elem id skip ≡ true)
      → IsOwned s
      → IsOwned (serve s c)
  unfolding serve stale_client_cleanup
  serve-IsOwned s (arrives req now) late v = touch-IsOwned s req now v
  serve-IsOwned s (handles req now) late v = dispatch-IsOwned req.message_type s req now late v
  serve-IsOwned s (finishes req now) late v = finish_request-IsOwned s req now v
  serve-IsOwned s (limits key method) late v = limit_bucket-IsOwned s key method v
  serve-IsOwned s (cleans now) late v =
      clean_clients-IsOwned s now (map (λ entry. entry.0) s.clients) v
  serve-IsOwned s (watches now) late v = idle_watchdog-IsOwned s now v

  pub run-IsOwned :
      (s : Server F) (cs : List (ServerCall F))
      → ((id : String) → elem id (late_leases s cs) ≡ true → elem id skip ≡ true)
      → IsOwned s
      → IsOwned (run s cs)
  unfolding run late_leases
  run-IsOwned s [] late v = v
  run-IsOwned s (c ∷ cs) late v =
      run-IsOwned (serve s c) cs
        (λ id e. late id (elem-append_right id (late_of s c) (late_leases (serve s c) cs) e))
        (serve-IsOwned s c
          (λ id e. late id (elem-append id (late_of s c) (late_leases (serve s c) cs) e)) v)
