-- ===== src/Events/Bus/Subscribers.antt =====
-- internal/events/events.go: how often a channel is registered, and which channels are open.
use rescale_interlink.Common.{
  ℕ, zero, suc, ◌+◌, ◌≤◌, ◌<◌, String, Bool, true, false, not, List, [], ◌∷◌, ◌++◌, some, ◌≡◌, ◌≢◌,
  refl, arith, ap, ◌==◌, if◌then◌else◌, length, get_elem?, set, Bool-cases, inl, inr,
}
use rescale_interlink.Common.Map.{Map, get, get_or, put, delete}
use rescale_interlink.Events.Bus.{
  Channel, last_channel, without_last, swap_remove, remove_everywhere,
}

-- How often a channel is in a list.
abbrev pub times : ℕ → List ℕ → ℕ
times h [] = 0
times h (x ∷ xs) = (if x == h then 1 else 0) + times h xs

pub times-append : (h : ℕ) (xs ys : List ℕ) → times h (xs ++ ys) ≡ times h xs + times h ys
times-append h [] ys = omega arith
times-append h (x ∷ xs) ys = omega (arith, times-append h xs ys)

times_last :
    (h j : ℕ) (js : List ℕ) → times h (last_channel j js ∷ without_last (j ∷ js)) ≡ times h (j ∷ js)
times_last h j [] = omega arith
times_last h j (k ∷ ks) = omega (arith, times_last h k ks)

pub times-swap_remove : (h : ℕ) (xs : List ℕ) (ch : ℕ) → times h (swap_remove xs ch) ≤ times h xs
unfolding swap_remove
times-swap_remove h [] ch = omega arith
times-swap_remove h (x ∷ []) ch = ground arith
times-swap_remove h (x ∷ j ∷ js) ch = elim (Bool-cases (x == ch)) [
  | inl e ↦ rw (swap_remove, e) (omega (arith, times_last h j js))
  | inr e ↦ rw (swap_remove, e) (omega (arith, times-swap_remove h (j ∷ js) ch))
]

-- How often a channel is registered for the types.
abbrev pub typed : ℕ → Map (List ℕ) → ℕ
typed h [] = 0
typed h ((event_type, chs) ∷ m) = times h chs + typed h m

typed-delete : (h : ℕ) (m : Map (List ℕ)) (k : String) → typed h (delete m k) ≤ typed h m
unfolding delete
typed-delete h [] k = omega arith
typed-delete h ((j, chs) ∷ m) k = ground (arith, typed-delete h m k)

typed_split :
    (h : ℕ) (m : Map (List ℕ)) (k : String)
    → typed h (delete m k) + times h (get_or m k []) ≤ typed h m
unfolding get delete
typed_split h [] k = omega arith
typed_split h ((j, chs) ∷ m) k = ground (arith, typed-delete h m k, typed_split h m k)

pub typed-put :
    (h : ℕ) (m : Map (List ℕ)) (k : String) (chs : List ℕ)
    → typed h (put m k chs) + times h (get_or m k []) ≤ typed h m + times h chs
unfolding put
typed-put h m k chs = omega (arith, typed_split h m k)

pub times-get_or : (h : ℕ) (m : Map (List ℕ)) (k : String) → times h (get_or m k []) ≤ typed h m
times-get_or h m k = omega (arith, typed_split h m k)

pub typed-remove_everywhere :
    (h : ℕ) (m : Map (List ℕ)) (ch : ℕ) → typed h (remove_everywhere m ch) ≤ typed h m
unfolding remove_everywhere
typed-remove_everywhere h [] ch = omega arith
typed-remove_everywhere h ((k, chs) ∷ m) ch =
    omega (arith, times-swap_remove h chs ch, typed-remove_everywhere h m ch)

module _ {A : Type 0} where
  -- Whether there is an open channel of a number.
  abbrev pub open_at : List (Channel A) → ℕ → Bool
  open_at [] h = false
  open_at (c ∷ cs) zero = not c.is_closed
  open_at (c ∷ cs) (suc h) = open_at cs h

  pub open_at-set :
      (cs : List (Channel A)) (i h : ℕ) (c : Channel A)
      → c.is_closed ≡ false
      → open_at cs h ≡ true
      → open_at (set cs i c) h ≡ true
  open_at-set [] i h c e o = o
  open_at-set (x ∷ cs) zero zero c e o = ground (arith, e)
  open_at-set (x ∷ cs) zero (suc h) c e o = o
  open_at-set (x ∷ cs) (suc i) zero c e o = o
  open_at-set (x ∷ cs) (suc i) (suc h) c e o = open_at-set cs i h c e o

  pub open_at_other :
      (cs : List (Channel A)) (i h : ℕ) (c : Channel A)
      → i ≢ h
      → open_at (set cs i c) h ≡ open_at cs h
  open_at_other [] i h c e = refl
  open_at_other (x ∷ cs) zero zero c e = absurd (e refl)
  open_at_other (x ∷ cs) zero (suc h) c e = refl
  open_at_other (x ∷ cs) (suc i) zero c e = refl
  open_at_other (x ∷ cs) (suc i) (suc h) c e = open_at_other cs i h c λ q. e (ap suc q)

  pub open_at-append :
      (cs ds : List (Channel A)) (h : ℕ) → open_at cs h ≡ true → open_at (cs ++ ds) h ≡ true
  open_at-append [] ds h o = ground (arith, o)
  open_at-append (c ∷ cs) ds zero o = o
  open_at-append (c ∷ cs) ds (suc h) o = open_at-append cs ds h o

  pub open_at_new :
      (cs : List (Channel A)) (c : Channel A)
      → c.is_closed ≡ false
      → open_at (cs ++ c ∷ []) (length cs) ≡ true
  open_at_new [] c e = ground (arith, e)
  open_at_new (x ∷ cs) c e = open_at_new cs c e

  pub open_at_beyond : (cs : List (Channel A)) (h : ℕ) → open_at cs h ≡ true → h < length cs
  open_at_beyond [] h o = ground (arith, o)
  open_at_beyond (c ∷ cs) zero o = omega arith
  open_at_beyond (c ∷ cs) (suc h) o = omega (arith, open_at_beyond cs h o)

  -- What a lookup finds at an open channel.
  pub open_channel :
      (cs : List (Channel A)) (h : ℕ)
      → open_at cs h ≡ true
      → (c : Channel A) × (get_elem? cs h ≡ some c) × (c.is_closed ≡ false)
  open_channel [] h o = ground (arith, o)
  open_channel (c ∷ cs) zero o = (c, refl, ground (arith, o))
  open_channel (c ∷ cs) (suc h) o = open_channel cs h o

  pub open_at_same :
      (cs : List (Channel A)) (i h : ℕ) (c new : Channel A)
      → get_elem? cs i ≡ some c
      → new.is_closed ≡ c.is_closed
      → open_at (set cs i new) h ≡ open_at cs h
  open_at_same [] i h c new e f = refl
  open_at_same (x ∷ cs) zero zero c new e f = ground (arith, e, f)
  open_at_same (x ∷ cs) zero (suc h) c new e f = refl
  open_at_same (x ∷ cs) (suc i) zero c new e f = refl
  open_at_same (x ∷ cs) (suc i) (suc h) c new e f = open_at_same cs i h c new e f
