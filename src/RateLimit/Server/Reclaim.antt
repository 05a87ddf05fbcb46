-- ===== src/RateLimit/Server/Reclaim.antt =====
-- internal/ratelimit/coordinator/server.go: the leases and the clients that a cleanup leaves.
use rescale_interlink.Common.{
  ℕ, String, false, List, [], ◌∷◌, none, some, ◌≡◌, ◌≢◌, refl, ◌∙◌, arith, ◌===◌, ===_iff,
  Option-cases, inl, inr, map, if◌then◌else◌, Option,
}
use rescale_interlink.Common.Map.{Map, get, get-delete}
use rescale_interlink.Transfer.Float.{Float}
use rescale_interlink.RateLimit.Server.{ClientState, LeaseState, Server, Registry, elem}
use rescale_interlink.RateLimit.Server.Requests.{new_server}
use rescale_interlink.RateLimit.Server.Steps.{ServerCall, run, late_leases}
use rescale_interlink.RateLimit.Server.Upkeep.{
  is_stale, clean_client, clean_clients, stale_client_cleanup,
}
use rescale_interlink.RateLimit.Server.Ownership.{Lists}
use rescale_interlink.RateLimit.Server.Invariant.{clean_clients-IsOwned, run-IsOwned}

-- What a cleanup leaves of the entry of a client.
abbrev pub survivor : Option ClientState → ℕ → Option ClientState
survivor none now = none
survivor (some client) now = if is_stale client now then none else some client

survivor_twice : (o : Option ClientState) (now : ℕ) → survivor (survivor o now) now ≡ survivor o now
survivor_twice none now = refl
survivor_twice (some client) now = ground arith

-- A name that is no key has no entry.
unlisted :
    (clients : Map ClientState) (name : String)
    → elem name (map (λ entry. entry.0) clients) ≡ false
    → get clients name ≡ none
unfolding get
unlisted [] name h = refl
unlisted ((k, c) ∷ m) name h = ground (arith, unlisted m name, h)

module _ {F : Type 0} ⦃fl : Float F⦄ where
  get-clean_client :
      (s : Server F) (now : ℕ) (k name : String)
      → get (clean_client s now k).clients name
        ≡ (if k === name then survivor (get s.clients name) now else get s.clients name)
  unfolding clean_client
  get-clean_client s now k name = elim (Option-cases (get s.clients k)) [
    | inl e ↦ ground (arith, e, ===_iff k name)
    | inr (c, e) ↦ ground (arith, e, ===_iff k name, get-delete s.clients k name)
  ]

  get-clean_clients :
      (s : Server F) (now : ℕ) (ks : List String) (name : String)
      → get (clean_clients s now ks).clients name
        ≡ (if elem name ks then survivor (get s.clients name) now else get s.clients name)
  unfolding clean_clients
  get-clean_clients s now [] name = ground arith
  get-clean_clients s now (k ∷ ks) name =
      get-clean_clients (clean_client s now k) now ks name
      ∙ ground (arith, get-clean_client s now k name, survivor_twice (get s.clients name) now)

  pub get-stale_client_cleanup :
      (s : Server F) (now : ℕ) (name : String)
      → get (stale_client_cleanup s now).clients name ≡ survivor (get s.clients name) now
  unfolding stale_client_cleanup
  get-stale_client_cleanup s now name =
      get-clean_clients s now (map (λ entry. entry.0) s.clients) name
      ∙ ground (arith, unlisted s.clients name)

  -- What a cleanup leaves, but for the leases of `skip`.
  pub record IsReclaimed (skip : List String) (before after : Server F) (now : ℕ) : Type 0 where
    pub survivors :
        (name : String) → get after.clients name ≡ survivor (get before.clients name) now
    pub held :
        (id : String) (ls : LeaseState F)
        → get after.leases id ≡ some ls
        → ls.client_id ≢ ""
        → elem id skip ≡ false
        → Lists after.clients id ls.client_id

  -- After any steps of requests, limiters, cleanups and the watchdog on a new coordinator, in any order,
  -- a further cleanup takes away the clients that have sent nothing for longer than the timeout, and no
  -- others; and every lease that is left and was granted to a client with a name is listed by that
  -- client, which is there, except for the leases that a handler granted when its client was not there.
  pub stale_client_cleanup-run :
      (registry : Registry F) (start : ℕ) (cs : List (ServerCall F)) (now : ℕ)
      → IsReclaimed
          (late_leases (new_server registry start) cs)
          (run (new_server registry start) cs)
          (stale_client_cleanup (run (new_server registry start) cs) now)
          now
  unfolding stale_client_cleanup new_server get
  stale_client_cleanup-run registry start cs now =
      let first = new_server registry start in
      let s = run first cs in
      let keys = map (λ entry. entry.0) s.clients in
      let skip = late_leases first cs in
      let v =
        run-IsOwned skip first cs (λ id e. e) (record { owned = λ id ls h. ground (arith, h) }) in
      record {
        survivors = get-stale_client_cleanup s now;
        held = (clean_clients-IsOwned skip s now keys v).owned;
      }
