-- ===== src/RateLimit/Server/Prompt.antt =====
-- internal/ratelimit/coordinator/server.go: a request whose handler runs before its client is stale.
use rescale_interlink.Common.{
  ℕ, ◌+◌, ◌≤◌, String, false, List, [], ◌∷◌, ◌++◌, some, ◌≡◌, ◌≢◌, refl, sym, ap, subst, ◌∙◌, arith,
  ◌===◌, ===_iff, ===_ne, Bool-cases, Option-cases, inl, inr, All, ltb, if◌then◌else◌, ◌&&◌, ◌==◌,
  length,
}
use rescale_interlink.Common.Map.{Map, get, put, get-put, get-put_self}
use rescale_interlink.Transfer.Float.{Float}
use rescale_interlink.RateLimit.Limiter.{RateLimiter}
use rescale_interlink.RateLimit.Server.{
  Server, Request, MessageType, stale_client_timeout, ClientState, acquire, acquire_lease,
  drain_bucket, cool_down, heartbeat, get_state, shutdown, unknown, elem, bucket_key_of,
}
use rescale_interlink.RateLimit.Server.Requests.{
  touch, dispatch, finish_request, rest_of_handler, find_bucket, store_bucket, get_or_create_bucket,
  track_bucket, track_lease, handle_acquire, handle_acquire_lease, handle_heartbeat,
  handle_get_state, handle_shutdown,
}
use rescale_interlink.RateLimit.Server.Upkeep.{is_stale, stale_client_cleanup, idle_watchdog}
use rescale_interlink.RateLimit.Server.Ownership.{Lists, track_lease-Lists}
use rescale_interlink.RateLimit.Server.Steps.{
  ServerCall, arrives, handles, finishes, limits, cleans, watches, serve, run, limit_bucket,
}
use rescale_interlink.RateLimit.Server.Reclaim.{get-stale_client_cleanup, survivor}

-- A client that has sent something since `t`.
abbrev Seen : ℕ → String → Map ClientState → Type 0
Seen t name clients =
    (client : ClientState) × (get clients name ≡ some client) × (t ≤ client.last_seen)

-- The clock does not go back before `t`, and no cleanup comes later than the timeout after it.
abbrev pub InTime : {F : Type 0} → ℕ → ServerCall F → Type 0
InTime t (arrives req now) = t ≤ now
InTime t (cleans now) = now ≤ t + stale_client_timeout
InTime t (handles req now) = Unit {0}
InTime t (finishes req now) = Unit {0}
InTime t (limits key method) = Unit {0}
InTime t (watches now) = Unit {0}

put-Seen :
    (t : ℕ) (name k : String) (clients : Map ClientState) (new : ClientState)
    → ((old : ClientState) → get clients k ≡ some old → t ≤ old.last_seen → t ≤ new.last_seen)
    → Seen t name clients
    → Seen t name (put clients k new)
put-Seen t name k clients new h (c, e, l) = elim (Bool-cases (k === name)) [
  | inl same ↦
      let q : k ≡ name = (===_iff k name).0 same in
      (
        new,
        get-put clients k name new ∙ ap (λ b. if b then some new else get clients name) same,
        h c (ap (get clients) q ∙ e) l,
      )
  | inr other ↦ (
    c,
    get-put clients k name new ∙ ap (λ b. if b then some new else get clients name) other ∙ e,
    l,
  )
]

track_lease-Seen :
    (t : ℕ) (name k id : String) (clients : Map ClientState)
    → Seen t name clients
    → Seen t name (track_lease clients k id)
unfolding track_lease
track_lease-Seen t name k id clients v = elim (Option-cases (get clients k)) [
  | inl e ↦ rw (track_lease, e) v
  | inr (c, e) ↦
      rw (track_lease, e)
        (put-Seen t name k clients (record c { lease_ids = c.lease_ids ++ id ∷ [] })
          (λ old f l. ground (arith, e, f, l)) v)
]

module _ {F : Type 0} ⦃fl : Float F⦄ where
  touch-Seen :
      (t now : ℕ) (name : String) (s : Server F) (req : Request)
      → t ≤ now
      → Seen t name s.clients
      → Seen t name (touch s req now).clients
  unfolding touch
  touch-Seen t now name s req h v = elim (Bool-cases (req.client_id === "")) [
    | inl e ↦ rw (touch, e) v
    | inr e ↦ elim (Option-cases (get s.clients req.client_id)) [
      | inl f ↦ rw (touch, e, f) (put-Seen t name req.client_id s.clients _ (λ old g l. h) v)
      | inr (c, f) ↦
          rw (touch, e, f)
            (put-Seen t name req.client_id s.clients (record c { last_seen = now }) (λ old g l. h)
              v)
    ]
  ]

  track_bucket-Seen :
      (t : ℕ) (name : String) (s : Server F) (req : Request)
      → Seen t name s.clients
      → Seen t name (track_bucket s req).clients
  unfolding track_bucket
  track_bucket-Seen t name s req v = elim (Option-cases (get s.clients req.client_id)) [
    | inl f ↦ rw (track_bucket, f) v
    | inr (c, f) ↦ elim (Bool-cases (elem (bucket_key_of req) c.bucket_keys)) [
      | inl e ↦ rw (track_bucket, f, e) v
      | inr e ↦
          rw (track_bucket, f, e)
            (put-Seen t name req.client_id s.clients
              (record c { bucket_keys = c.bucket_keys ++ bucket_key_of req ∷ [] })
              (λ old g l. ground (arith, f, g, l)) v)
    ]
  ]

  dispatch-Seen :
      (type : MessageType) (t now : ℕ) (name : String) (s : Server F) (req : Request)
      → Seen t name s.clients
      → Seen t name (dispatch type s req now).0.clients
  unfolding dispatch handle_acquire handle_acquire_lease find_bucket store_bucket handle_heartbeat
      handle_get_state handle_shutdown
  dispatch-Seen acquire t now name s req v =
      track_bucket-Seen t name (store_bucket s req (get_or_create_bucket s req now)) req v
  dispatch-Seen acquire_lease t now name s req v =
      track_lease-Seen t name req.client_id req.drawn_lease_id s.clients v
  dispatch-Seen drain_bucket t now name s req v = v
  dispatch-Seen cool_down t now name s req v = v
  dispatch-Seen heartbeat t now name s req v = elim (Option-cases (get s.clients req.client_id)) [
    | inl e ↦ rw (handle_heartbeat, e) v
    | inr (c, e) ↦ rw (handle_heartbeat, e) v
  ]
  dispatch-Seen get_state t now name s req v = v
  dispatch-Seen shutdown t now name s req v = v
  dispatch-Seen (unknown type) t now name s req v = v

  finish_request_clients :
      (s : Server F) (req : Request) (now : ℕ) → (finish_request s req now).0.clients ≡ s.clients
  unfolding finish_request store_bucket
  finish_request_clients s req now = elim (Option-cases (get s.buckets (bucket_key_of req))) [
    | inl e ↦ rw (finish_request, e) refl
    | inr (limiter, e) ↦ elim (Option-cases (rest_of_handler req.message_type limiter req now)) [
      | inl f ↦ rw (finish_request, e, f) refl
      | inr (done, f) ↦ rw (finish_request, e, f) refl
    ]
  ]

  limit_bucket_clients :
      (s : Server F) (key : String) (method : RateLimiter F → RateLimiter F)
      → (limit_bucket s key method).clients ≡ s.clients
  unfolding limit_bucket
  limit_bucket_clients s key method = elim (Option-cases (get s.buckets key)) [
    | inl e ↦ rw (limit_bucket, e) refl
    | inr (limiter, e) ↦ rw (limit_bucket, e) refl
  ]

  idle_watchdog_clients : (s : Server F) (now : ℕ) → (idle_watchdog s now).clients ≡ s.clients
  unfolding idle_watchdog
  idle_watchdog_clients s now =
      elim (Bool-cases (length s.clients == 0 && ltb (s.last_activity + s.idle_timeout) now)) [
        | inl e ↦ rw (idle_watchdog, e) refl
        | inr e ↦ rw (idle_watchdog, e) refl
      ]

  stale_client_cleanup-Seen :
      (t now : ℕ) (name : String) (s : Server F)
      → now ≤ t + stale_client_timeout
      → Seen t name s.clients
      → Seen t name (stale_client_cleanup s now).clients
  stale_client_cleanup-Seen t now name s h (c, e, l) =
      let fresh : is_stale c now ≡ false = ground (arith, h, l) in
      (c, get-stale_client_cleanup s now name ∙ ap (λ o. survivor o now) e ∙ rw fresh refl, l)

  serve-Seen :
      (t : ℕ) (name : String) (s : Server F) (call : ServerCall F)
      → InTime t call
      → Seen t name s.clients
      → Seen t name (serve s call).clients
  unfolding serve
  serve-Seen t name s (arrives req now) h v = touch-Seen t now name s req h v
  serve-Seen t name s (handles req now) h v = dispatch-Seen req.message_type t now name s req v
  serve-Seen t name s (finishes req now) h v =
      subst (Seen t name) (sym (finish_request_clients s req now)) v
  serve-Seen t name s (limits key method) h v =
      subst (Seen t name) (sym (limit_bucket_clients s key method)) v
  serve-Seen t name s (cleans now) h v = stale_client_cleanup-Seen t now name s h v
  serve-Seen t name s (watches now) h v = subst (Seen t name) (sym (idle_watchdog_clients s now)) v

  run-Seen :
      (t : ℕ) (name : String) (s : Server F) (cs : List (ServerCall F))
      → All (InTime t) cs
      → Seen t name s.clients
      → Seen t name (run s cs).clients
  unfolding run
  run-Seen t name s [] h v = v
  run-Seen t name s (c ∷ cs) h v = run-Seen t name (serve s c) cs h.1 (serve-Seen t name s c h.0 v)

  touched :
      (s : Server F) (req : Request) (t : ℕ)
      → req.client_id ≢ ""
      → Seen t req.client_id (touch s req t).clients
  unfolding touch
  touched s req t named =
      let e = ===_ne req.client_id "" named in
      elim (Option-cases (get s.clients req.client_id)) [
        | inl f ↦ rw (touch, e, f) (_, get-put_self s.clients req.client_id _, omega arith)
        | inr (c, f) ↦ rw (touch, e, f) (_, get-put_self s.clients req.client_id _, omega arith)
      ]

  run-append : (s : Server F) (cs ds : List (ServerCall F)) → run s (cs ++ ds) ≡ run (run s cs) ds
  unfolding run
  run-append s [] ds = refl
  run-append s (c ∷ cs) ds = run-append (serve s c) cs ds

  -- When a client with a name asks for a lease, and between the two parts of the request any other steps
  -- are taken of which no cleanup comes later than the timeout after the first part, then the lease that
  -- the handler grants is listed by the client, which is there.
  pub handle_acquire_lease-Lists :
      (s : Server F) (req : Request) (t now : ℕ) (between : List (ServerCall F))
      → req.client_id ≢ ""
      → req.message_type ≡ acquire_lease
      → All (InTime t) between
      → Lists
          (run s (arrives req t ∷ between ++ handles req now ∷ [])).clients
          req.drawn_lease_id
          req.client_id
  unfolding run serve dispatch handle_acquire_lease
  handle_acquire_lease-Lists s req t now between named is_lease in_time =
      let before = run (touch s req t) between in
      let (c, e, l) =
        run-Seen t req.client_id (touch s req t) between in_time (touched s req t named) in
      subst (λ after. Lists after.clients req.drawn_lease_id req.client_id)
        (sym (run-append (touch s req t) between (handles req now ∷ [])))
        (subst
          (λ type. Lists (dispatch type before req now).0.clients req.drawn_lease_id req.client_id)
          (sym is_lease) (track_lease-Lists before.clients req.client_id req.drawn_lease_id c e))
