-- ===== src/Events/Bus/Closing.antt =====
-- internal/events/events.go: the closing of the channels by Close.
use rescale_interlink.Common.{
  ℕ, ◌+◌, ◌≤◌, ◌<◌, true, false, List, [], ◌∷◌, ◌≡◌, refl, arith, ◌∙◌, All,
}
use rescale_interlink.Common.Map.{Map}
use rescale_interlink.Events.Bus.{EventBus, close_channel, close_each, close_types, close_bus}
use rescale_interlink.Events.Bus.Subscribers.{times, typed, open_at, open_at_other, open_channel}
use rescale_interlink.Events.Bus.Sending.{on_both, Fits, All-set, All-get_elem?}
use rescale_interlink.Events.Bus.Wiring.{registered, IsWired}

module _ {A : Type 0} where
  -- A change in which only channels of `n` are closed.
  record Closes (n : ℕ → ℕ) (eb new : EventBus A) : Type 0 where
    still_quiet : eb.panicked ≡ false → new.panicked ≡ false
    others : (h : ℕ) → n h ≡ 0 → open_at new.channels h ≡ open_at eb.channels h
    fit_after : All Fits eb.channels → All Fits new.channels
    closed_kept : new.closed ≡ eb.closed
    recent_kept : new.recent_events ≡ eb.recent_events

  close_channel-Closes :
      (eb : EventBus A) (ch : ℕ)
      → open_at eb.channels ch ≡ true
      → Closes (λ h. times h (ch ∷ [])) eb (close_channel eb ch)
  unfolding close_channel
  close_channel-Closes eb ch o =
      let (c, e, is_open) = open_channel eb.channels ch o in
      let shut = record c { is_closed = true } in
      rw (close_channel, e, is_open)
        (record {
          still_quiet = λ q. q;
          others = λ h other. open_at_other eb.channels ch h shut (ground (arith, other));
          fit_after = λ v. All-set eb.channels ch shut (All-get_elem? eb.channels ch c e v) v;
          closed_kept = refl;
          recent_kept = refl;
        })

  Closes-trans :
      (n k l : ℕ → ℕ) (a b c : EventBus A)
      → ((h : ℕ) → n h + k h ≡ l h)
      → Closes n a b
      → Closes k b c
      → Closes l a c
  Closes-trans n k l a b c sum v w = record {
    still_quiet = λ q. w.still_quiet (v.still_quiet q);
    others = λ h e. w.others h (omega (arith, e, sum h)) ∙ v.others h (omega (arith, e, sum h));
    fit_after = λ f. w.fit_after (v.fit_after f);
    closed_kept = w.closed_kept ∙ v.closed_kept;
    recent_kept = w.recent_kept ∙ v.recent_kept;
  }

  Closes-none : (n : ℕ → ℕ) (eb : EventBus A) → Closes n eb eb
  Closes-none n eb = record {
    still_quiet = λ q. q;
    others = λ h e. refl;
    fit_after = λ v. v;
    closed_kept = refl;
    recent_kept = refl;
  }

  close_each-Closes :
      (eb : EventBus A) (chs : List ℕ)
      → ((h : ℕ) → times h chs ≤ 1)
      → ((h : ℕ) → 0 < times h chs → open_at eb.channels h ≡ true)
      → Closes (λ h. times h chs) eb (close_each eb chs)
  unfolding close_each
  close_each-Closes eb [] once opens = Closes-none (λ h. 0) eb
  close_each-Closes eb (ch ∷ chs) once opens =
      let first = close_channel-Closes eb ch (opens ch (ground arith)) in
      let mid = close_channel eb ch in
      let rest =
        close_each-Closes mid chs (λ h. omega (arith, once h))
          λ h some. first.others h (omega (arith, once h, some)) ∙ opens h (omega (arith, some)) in
      Closes-trans (λ h. times h (ch ∷ [])) (λ h. times h chs) (λ h. times h (ch ∷ chs)) eb mid
        (close_each mid chs) (λ h. omega arith) first rest

  close_types-Closes :
      (eb : EventBus A) (m : Map (List ℕ))
      → ((h : ℕ) → typed h m ≤ 1)
      → ((h : ℕ) → 0 < typed h m → open_at eb.channels h ≡ true)
      → Closes (λ h. typed h m) eb (close_types eb m)
  unfolding close_types
  close_types-Closes eb [] once opens = Closes-none (λ h. 0) eb
  close_types-Closes eb ((event_type, chs) ∷ m) once opens =
      let first =
        close_each-Closes eb chs (λ h. omega (arith, once h))
          λ h some. opens h (omega (arith, some)) in
      let mid = close_each eb chs in
      let rest =
        close_types-Closes mid m (λ h. omega (arith, once h))
          λ h some. first.others h (omega (arith, once h, some)) ∙ opens h (omega (arith, some)) in
      Closes-trans (λ h. times h chs) (λ h. typed h m) (λ h. typed h ((event_type, chs) ∷ m)) eb mid
        (close_types mid m) (λ h. omega arith) first rest

  -- The closing of all channels, once `closed` is set.
  closing : EventBus A → EventBus A
  closing eb = close_each (close_types (record eb { closed = true }) eb.subscribers) eb.all_events

  closing-Closes :
      (eb : EventBus A)
      → eb.closed ≡ false
      → IsWired eb
      → Closes (registered eb) (record eb { closed = true }) (closing eb)
  unfolding closing
  closing-Closes eb e v =
      let start : EventBus A = record eb { closed = true } in
      let first =
        close_types-Closes start eb.subscribers (λ h. omega (arith, v.once e h))
          λ h some. v.opens e h (omega (arith, some)) in
      let mid = close_types start eb.subscribers in
      let rest =
        close_each-Closes mid eb.all_events (λ h. omega (arith, v.once e h))
          λ h some.
            first.others h (omega (arith, v.once e h, some)) ∙ v.opens e h (omega (arith, some)) in
      Closes-trans (λ h. typed h eb.subscribers) (λ h. times h eb.all_events) (registered eb) start
        mid (close_each mid eb.all_events) (λ h. refl) first rest

  closed-IsWired :
      (eb : EventBus A) → eb.panicked ≡ false → All Fits eb.channels → eb.closed ≡ true → IsWired eb
  closed-IsWired eb q f e = record {
    quiet = q;
    fits = f;
    once = λ g. ground (arith, e, g);
    opens = λ g. ground (arith, e, g);
  }

  pub close_bus-IsWired : (eb : EventBus A) → IsWired eb → IsWired (close_bus eb)
  unfolding close_bus closing
  close_bus-IsWired eb v =
      on_both IsWired eb.closed _ _ (λ e. v)
        λ e.
          let all_closed = closing-Closes eb e v in
          closed-IsWired (closing eb) (all_closed.still_quiet v.quiet) (all_closed.fit_after v.fits)
            all_closed.closed_kept

  -- Close closes the bus and keeps the recent events.
  pub close_bus_kept :
      (eb : EventBus A)
      → IsWired eb
      → ((close_bus eb).closed ≡ true) × ((close_bus eb).recent_events ≡ eb.recent_events)
  unfolding close_bus closing
  close_bus_kept eb v =
      on_both {X = EventBus A} (λ new. (new.closed ≡ true) × (new.recent_events ≡ eb.recent_events))
        eb.closed _ _ (λ e. (e, refl))
        λ e.
          let all_closed = closing-Closes eb e v in (all_closed.closed_kept, all_closed.recent_kept)
