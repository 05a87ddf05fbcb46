-- ===== src/RateLimit/Server/Ownership.antt =====
-- internal/ratelimit/coordinator/server.go: the leases and the clients that hold them.
use rescale_interlink.Common.{
  ℕ, String, Bool, true, false, List, [], ◌∷◌, ◌++◌, none, some, ◌≡◌, ◌≢◌, sym, ap, subst, ◌∙◌,
  arith, ◌===◌, ===_iff, ===_self, Bool-cases, Option-cases, inl, inr, if◌then◌else◌,
}
use rescale_interlink.Common.Map.{Map, get, put, delete, get-put, get-put_self, get-delete}
use rescale_interlink.Transfer.Float.{Float}
use rescale_interlink.RateLimit.Server.{ClientState, LeaseState, elem}
use rescale_interlink.RateLimit.Server.Requests.{track_lease, refresh, refresh_all}
use rescale_interlink.RateLimit.Server.Upkeep.{delete_all}

pub elem-append : (k : String) (xs ys : List String) → elem k xs ≡ true → elem k (xs ++ ys) ≡ true
elem-append k [] ys h = ground (arith, h)
elem-append k (x ∷ xs) ys h = ground (arith, elem-append k xs ys, h)

pub elem-append_right :
    (k : String) (xs ys : List String) → elem k ys ≡ true → elem k (xs ++ ys) ≡ true
elem-append_right k [] ys h = h
elem-append_right k (x ∷ xs) ys h = ground (arith, elem-append_right k xs ys h)

elem_last : (k : String) (xs : List String) → elem k (xs ++ k ∷ []) ≡ true
elem_last k [] = ground (arith, ===_self k)
elem_last k (x ∷ xs) = ground (arith, elem_last k xs)

-- A client of a name that lists a lease.
abbrev pub Lists : Map ClientState → String → String → Type 0
Lists clients lease_id name =
    (client : ClientState) × (get clients name ≡ some client)
    × (elem lease_id client.lease_ids ≡ true)

pub clash : (b : Bool) → b ≡ true → b ≡ false → ⊥
clash true t f = ground (arith, f)
clash false t f = ground (arith, t)

same_client :
    (clients : Map ClientState) (k j : String) (c d : ClientState)
    → get clients k ≡ some c
    → get clients j ≡ some d
    → k ≡ j
    → c ≡ d
same_client clients k j c d e f q =
    let both : some c ≡ some d = sym e ∙ ap (get clients) q ∙ f in ground (arith, both)

not_owner :
    (clients : Map ClientState) (k j id : String) (c owner : ClientState)
    → get clients k ≡ some c
    → get clients j ≡ some owner
    → elem id owner.lease_ids ≡ true
    → elem id c.lease_ids ≡ false
    → (k === j) ≡ false
not_owner clients k j id c owner known there listed unlisted = elim (Bool-cases (k === j)) [
  | inr e ↦ e
  | inl e ↦
      let same = same_client clients k j c owner known there ((===_iff k j).0 e) in
      absurd (
        clash (elem id owner.lease_ids) listed
          (ap (λ d. elem id d.lease_ids) (sym same) ∙ unlisted))
]

-- Every client stays, and goes on listing its leases.
abbrev pub Keeps : Map ClientState → Map ClientState → Type 0
Keeps before after =
    (name : String) (client : ClientState)
    → get before name ≡ some client
    → (new : ClientState) × (get after name ≡ some new)
      × ((id : String) → elem id client.lease_ids ≡ true → elem id new.lease_ids ≡ true)

pub Keeps-refl : (clients : Map ClientState) → Keeps clients clients
Keeps-refl clients name client h = (client, h, λ id e. e)

pub put-Keeps :
    (clients : Map ClientState) (k : String) (new : ClientState)
    → ((client : ClientState)
        → get clients k ≡ some client
        → (id : String) → elem id client.lease_ids ≡ true
        → elem id new.lease_ids ≡ true)
    → Keeps clients (put clients k new)
put-Keeps clients k new h name client e = elim (Bool-cases (k === name)) [
  | inl same ↦
      let q : k ≡ name = (===_iff k name).0 same in
      (
        new,
        (get-put clients k name new ∙ ap (λ b. if b then some new else get clients name) same),
        h client (ap (get clients) q ∙ e),
      )
  | inr other ↦ (
    client,
    (get-put clients k name new ∙ ap (λ b. if b then some new else get clients name) other ∙ e),
    λ id m. m,
  )
]

pub track_lease-Keeps :
    (clients : Map ClientState) (name id : String) → Keeps clients (track_lease clients name id)
unfolding track_lease
track_lease-Keeps clients name id = elim (Option-cases (get clients name)) [
  | inl e ↦ rw (track_lease, e) (Keeps-refl clients)
  | inr (c, e) ↦
      rw (track_lease, e)
        (put-Keeps clients name (record c { lease_ids = c.lease_ids ++ id ∷ [] })
          λ client h k m. ground (arith, e, h, elem-append k c.lease_ids (id ∷ []), m))
]

pub track_lease-Lists :
    (clients : Map ClientState) (name id : String) (c : ClientState)
    → get clients name ≡ some c
    → Lists (track_lease clients name id) id name
unfolding track_lease
track_lease-Lists clients name id c e =
    let new = record c { lease_ids = c.lease_ids ++ id ∷ [] } in
    rw (track_lease, e) (new, get-put_self clients name new, elem_last id c.lease_ids)

module _ {F : Type 0} where
  pub get-delete_all :
      (leases : Map (LeaseState F)) (ids : List String) (id : String)
      → get (delete_all leases ids) id ≡ (if elem id ids then none else get leases id)
  unfolding delete_all
  get-delete_all leases [] id = ground arith
  get-delete_all leases (k ∷ ids) id =
      get-delete_all (delete leases k) ids id ∙ ground (arith, get-delete leases k id)

module _ {F : Type 0} (skip : List String) where
  -- The holder of each lease that was granted to a named client, but for those of `skip`, is a client
  -- that lists it.
  abbrev pub Owned : Map ClientState → Map (LeaseState F) → Type 0
  Owned clients leases =
      (id : String) (ls : LeaseState F)
      → get leases id ≡ some ls
      → ls.client_id ≢ ""
      → elem id skip ≡ false
      → Lists clients id ls.client_id

  pub Keeps-Owned :
      (before after : Map ClientState) (leases : Map (LeaseState F))
      → Keeps before after
      → Owned before leases
      → Owned after leases
  Keeps-Owned before after leases keeps v id ls h named counted =
      let (c, known, listed) = v id ls h named counted in
      let (new, there, still) = keeps ls.client_id c known in (new, there, still id listed)

  -- A lease of a client that lists it.
  pub put-Owned :
      (clients : Map ClientState) (leases : Map (LeaseState F)) (k : String) (new : LeaseState F)
      → (new.client_id ≢ "" → elem k skip ≡ false → Lists clients k new.client_id)
      → Owned clients leases
      → Owned clients (put leases k new)
  put-Owned clients leases k new h v id ls e named counted = elim (Bool-cases (k === id)) [
    | inl same ↦
        let q : k ≡ id = (===_iff k id).0 same in
        let is_new : new ≡ ls = ground (arith, get-put leases k id new, e, same) in
        subst (λ j. Lists clients j ls.client_id) q
          (subst (λ l. Lists clients k l.client_id) is_new
            (h (λ empty. named (sym (ap (λ l. l.client_id) is_new) ∙ empty))
              (ap (λ j. elem j skip) q ∙ counted)))
    | inr other ↦ v id ls (ground (arith, get-put leases k id new, e, other)) named counted
  ]

  -- A client goes with all that it lists.
  pub forget-Owned :
      (clients : Map ClientState) (leases : Map (LeaseState F)) (k : String) (c : ClientState)
      → get clients k ≡ some c
      → Owned clients leases
      → Owned (delete clients k) (delete_all leases c.lease_ids)
  forget-Owned clients leases k c known v id ls h named counted =
      let here : get leases id ≡ some ls =
        ground (arith, get-delete_all leases c.lease_ids id, h) in
      let unlisted : elem id c.lease_ids ≡ false =
        ground (arith, get-delete_all leases c.lease_ids id, h) in
      let (owner, there, listed) = v id ls here named counted in
      let other : (k === ls.client_id) ≡ false =
        not_owner clients k ls.client_id id c owner known there listed unlisted in
      (
        owner,
        get-delete clients k ls.client_id
            ∙ ap (λ b. if b then none else get clients ls.client_id) other
            ∙ there,
        listed,
      )

module _ {F : Type 0} ⦃fl : Float F⦄ (skip : List String) where
  refresh-Owned :
      (clients : Map ClientState) (leases : Map (LeaseState F)) (k : String) (now : ℕ)
      → Owned skip clients leases
      → Owned skip clients (refresh leases k now)
  unfolding refresh
  refresh-Owned clients leases k now v = elim (Option-cases (get leases k)) [
    | inl e ↦ rw (refresh, e) v
    | inr (ls, e) ↦ rw (refresh, e) (put-Owned skip clients leases k _ (v k ls e) v)
  ]

  pub refresh_all-Owned :
      (clients : Map ClientState) (leases : Map (LeaseState F)) (ids : List String) (now : ℕ)
      → Owned skip clients leases
      → Owned skip clients (refresh_all leases ids now)
  unfolding refresh_all
  refresh_all-Owned clients leases [] now v = v
  refresh_all-Owned clients leases (id ∷ ids) now v =
      refresh_all-Owned clients (refresh leases id now) ids now
        (refresh-Owned clients leases id now v)
