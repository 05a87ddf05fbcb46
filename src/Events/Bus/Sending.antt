-- ===== src/Events/Bus/Sending.antt =====
-- internal/events/events.go: the sends of Publish, and the receives of subscribers.
use rescale_interlink.Common.{
  ℕ, zero, suc, ◌≤◌, ◌<◌, Bool, true, false, List, [], ◌∷◌, ◌++◌, some, ◌≡◌, refl, arith, ◌∙◌, ltb,
  if◌then◌else◌, length, length-append, get_elem?, set, Bool-cases, Option-cases, inl, inr, All,
}
use rescale_interlink.Events.Bus.{Channel, EventBus, send_to, send_each, receive, rest_of}
use rescale_interlink.Events.Bus.Subscribers.{
  times, open_at, open_at-set, open_channel, open_at_same,
}

-- A conditional has what both of its branches have.
pub on_both {ℓ κ} :
    {X : Type ℓ} (P : X → Type κ) (b : Bool) (x y : X)
    → (b ≡ true → P x)
    → (b ≡ false → P y)
    → P (if b then x else y)
on_both P true x y p q = p refl
on_both P false x y p q = q refl

module _ {A : Type 0} where
  abbrev pub Fits : Channel A → Type 0
  Fits c = length c.buffer ≤ c.capacity

  pub All-set :
      (cs : List (Channel A)) (i : ℕ) (c : Channel A) → Fits c → All Fits cs → All Fits (set cs i c)
  All-set [] i c f v = tt
  All-set (x ∷ cs) zero c f v = (f, v.1)
  All-set (x ∷ cs) (suc i) c f v = (v.0, All-set cs i c f v.1)

  pub All-get_elem? :
      (cs : List (Channel A)) (i : ℕ) (c : Channel A)
      → get_elem? cs i ≡ some c
      → All Fits cs
      → Fits c
  All-get_elem? [] i c e v = ground (arith, e)
  All-get_elem? (x ∷ cs) zero c e v = ground (arith, e, v.0)
  All-get_elem? (x ∷ cs) (suc i) c e v = All-get_elem? cs i c e v.1

  length-rest_of : (xs : List A) → length (rest_of xs) ≤ length xs
  length-rest_of [] = omega arith
  length-rest_of (x ∷ xs) = omega arith

  -- A change of the channels and counters alone, after which every open channel is open.
  pub record Sends (eb new : EventBus A) : Type 0 where
    pub same_types : new.subscribers ≡ eb.subscribers
    pub same_all : new.all_events ≡ eb.all_events
    pub same_closed : new.closed ≡ eb.closed
    pub same_recent : new.recent_events ≡ eb.recent_events
    pub same_panicked : new.panicked ≡ eb.panicked
    pub still_open : (h : ℕ) → open_at eb.channels h ≡ true → open_at new.channels h ≡ true
    pub still_fits : All Fits eb.channels → All Fits new.channels

  Sends-refl : (eb : EventBus A) → Sends eb eb
  Sends-refl eb = record {
    same_types = refl;
    same_all = refl;
    same_closed = refl;
    same_recent = refl;
    same_panicked = refl;
    still_open = λ h o. o;
    still_fits = λ v. v;
  }

  pub Sends-trans : (a b c : EventBus A) → Sends a b → Sends b c → Sends a c
  Sends-trans a b c v w = record {
    same_types = w.same_types ∙ v.same_types;
    same_all = w.same_all ∙ v.same_all;
    same_closed = w.same_closed ∙ v.same_closed;
    same_recent = w.same_recent ∙ v.same_recent;
    same_panicked = w.same_panicked ∙ v.same_panicked;
    still_open = λ h o. w.still_open h (v.still_open h o);
    still_fits = λ f. w.still_fits (v.still_fits f);
  }

  pub send_to-Sends :
      (eb : EventBus A) (event : A) (ch : ℕ)
      → open_at eb.channels ch ≡ true
      → Sends eb (send_to eb event ch)
  unfolding send_to
  send_to-Sends eb event ch o =
      let (c, e, is_open) = open_channel eb.channels ch o in
      elim (Bool-cases (ltb (length c.buffer) c.capacity)) [
        | inl room ↦
            rw (send_to, e, is_open, room)
              (record {
                same_types = refl;
                same_all = refl;
                same_closed = refl;
                same_recent = refl;
                same_panicked = refl;
                still_open = λ h p.
                    open_at-set eb.channels ch h
                      (record c { buffer = c.buffer ++ event ∷ []; is_closed = false }) refl p;
                still_fits = λ v.
                    All-set eb.channels ch
                      (record c { buffer = c.buffer ++ event ∷ []; is_closed = false })
                      (ground (arith, room, length-append c.buffer (event ∷ []))) v;
              })
        | inr full ↦
            rw (send_to, e, is_open, full)
              (record {
                same_types = refl;
                same_all = refl;
                same_closed = refl;
                same_recent = refl;
                same_panicked = refl;
                still_open = λ h p. p;
                still_fits = λ v. v;
              })
      ]

  pub send_each-Sends :
      (eb : EventBus A) (event : A) (chs : List ℕ)
      → ((h : ℕ) → 0 < times h chs → open_at eb.channels h ≡ true)
      → Sends eb (send_each eb event chs)
  unfolding send_each
  send_each-Sends eb event [] opens = Sends-refl eb
  send_each-Sends eb event (ch ∷ chs) opens =
      let first = send_to-Sends eb event ch (opens ch (ground arith)) in
      Sends-trans eb (send_to eb event ch) (send_each (send_to eb event ch) event chs) first (
        send_each-Sends (send_to eb event ch) event chs
          λ h more. first.still_open h (opens h (omega arith)))

  pub receive-Sends : (eb : EventBus A) (ch : ℕ) → Sends eb (receive eb ch)
  unfolding receive
  receive-Sends eb ch = elim (Option-cases (get_elem? eb.channels ch)) [
    | inl e ↦ rw (receive, e) (Sends-refl eb)
    | inr (c, e) ↦
        let taken = record c { buffer = rest_of c.buffer } in
        rw (receive, e)
          (record {
            same_types = refl;
            same_all = refl;
            same_closed = refl;
            same_recent = refl;
            same_panicked = refl;
            still_open = λ h o. open_at_same eb.channels ch h c taken e refl ∙ o;
            still_fits = λ v.
                All-set eb.channels ch taken
                  (omega (arith, length-rest_of c.buffer, All-get_elem? eb.channels ch c e v)) v;
          })
  ]
