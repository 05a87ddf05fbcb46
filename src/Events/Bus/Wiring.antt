-- ===== src/Events/Bus/Wiring.antt =====
-- internal/events/events.go: the registered channels of an open bus.
use rescale_interlink.Common.{
  ℕ, ◌+◌, ◌≤◌, ◌<◌, String, true, false, List, [], ◌∷◌, ◌++◌, ◌≡◌, refl, arith, ap, sym, subst, ◌∙◌,
  ◌==◌, if◌then◌else◌, length, Bool-cases, inl, inr, All, All-append, ap₂,
}
use rescale_interlink.Common.Map.{Map, get_or, put}
use rescale_interlink.Events.Ring.{add as add_to_ring}
use rescale_interlink.Events.Bus.{
  Channel, EventBus, make_channel, subscribe, subscribe_all, send_each, publish, swap_remove,
  unsubscribe, remove_everywhere, unsubscribe_all,
}
use rescale_interlink.Events.Bus.Subscribers.{
  times, times-append, times-swap_remove, typed, typed-put, times-get_or, typed-remove_everywhere,
  open_at, open_at-append, open_at_new, open_at_beyond,
}
use rescale_interlink.Events.Bus.Sending.{on_both, Fits, Sends, send_each-Sends, Sends-trans}

module _ {A : Type 0} where
  -- How often a channel is registered.
  abbrev pub registered : EventBus A → ℕ → ℕ
  registered eb h = typed h eb.subscribers + times h eb.all_events

  -- Every channel that is registered on an open bus is open, and registered once.
  pub record IsWired (eb : EventBus A) : Type 0 where
    pub quiet : eb.panicked ≡ false
    pub fits : All Fits eb.channels
    pub once : eb.closed ≡ false → (h : ℕ) → registered eb h ≤ 1
    pub opens : eb.closed ≡ false → (h : ℕ) → 0 < registered eb h → open_at eb.channels h ≡ true

  registered-Sends :
      (eb new : EventBus A) (h : ℕ) → Sends eb new → registered new h ≡ registered eb h
  registered-Sends eb new h s =
      ap₂ (λ types all. typed h types + times h all) s.same_types s.same_all

  pub Sends-IsWired : (eb new : EventBus A) → Sends eb new → IsWired eb → IsWired new
  Sends-IsWired eb new s v = record {
    quiet = s.same_panicked ∙ v.quiet;
    fits = s.still_fits v.fits;
    once = λ e h. omega (arith, registered-Sends eb new h s, v.once (sym s.same_closed ∙ e) h);
    opens = λ e h some.
        s.still_open h
          (v.opens (sym s.same_closed ∙ e) h (omega (arith, some, registered-Sends eb new h s)));
  }

  -- Fewer registrations.
  fewer-IsWired :
      (eb : EventBus A) (types : Map (List ℕ)) (all : List ℕ)
      → ((h : ℕ) → typed h types + times h all ≤ registered eb h)
      → IsWired eb
      → IsWired (record eb { subscribers = types; all_events = all })
  fewer-IsWired eb types all less v = record {
    quiet = v.quiet;
    fits = v.fits;
    once = λ e h. omega (arith, v.once e h, less h);
    opens = λ e h some. v.opens e h (omega (arith, some, less h));
  }

  -- The sends of Publish on an open bus.
  unfoldable pub publish_sends : EventBus A → String → A → EventBus A
  publish_sends eb event_type event =
      send_each (send_each eb event (get_or eb.subscribers event_type [])) event eb.all_events

  pub publish_sends-Sends :
      (eb : EventBus A) (event_type : String) (event : A)
      → eb.closed ≡ false
      → IsWired eb
      → Sends eb (publish_sends eb event_type event)
  unfolding publish_sends
  publish_sends-Sends eb event_type event e v =
      let typed_chs = get_or eb.subscribers event_type [] in
      let first =
        send_each-Sends eb event typed_chs
          λ h some. v.opens e h (omega (arith, some, times-get_or h eb.subscribers event_type)) in
      let mid = send_each eb event typed_chs in
      Sends-trans eb mid (send_each mid event eb.all_events) first (
        send_each-Sends mid event eb.all_events
          λ h some. first.still_open h (v.opens e h (omega (arith, some))))

  pub publish_closed :
      (eb : EventBus A) (event_type : String) (event : A)
      → eb.closed ≡ true
      → publish eb event_type event ≡ eb
  unfolding publish
  publish_closed eb event_type event e = rw (publish, e) refl

  pub publish_open :
      (eb : EventBus A) (event_type : String) (event : A)
      → eb.closed ≡ false
      → publish eb event_type event ≡ record (publish_sends eb event_type event) {
        recent_events = add_to_ring (publish_sends eb event_type event).recent_events event;
      }
  unfolding publish publish_sends
  publish_open eb event_type event e =
      ap
        (λ b. if b then eb else record (publish_sends eb event_type event) {
          recent_events = add_to_ring (publish_sends eb event_type event).recent_events event;
        })
        e

  pub publish-IsWired :
      (eb : EventBus A) (event_type : String) (event : A)
      → IsWired eb
      → IsWired (publish eb event_type event)
  publish-IsWired eb event_type event v = elim (Bool-cases eb.closed) [
    | inl e ↦ subst IsWired (sym (publish_closed eb event_type event e)) v
    | inr e ↦
        let w =
          Sends-IsWired eb (publish_sends eb event_type event)
            (publish_sends-Sends eb event_type event e v) v in
        subst IsWired (sym (publish_open eb event_type event e))
          (record { quiet = w.quiet; fits = w.fits; once = w.once; opens = w.opens })
  ]

  fresh :
      (eb : EventBus A) → eb.closed ≡ false → IsWired eb → registered eb (length eb.channels) ≡ 0
  fresh eb e v = elim (Bool-cases (registered eb (length eb.channels) == 0)) [
    | inl none_there ↦ ground (arith, none_there)
    | inr some_there ↦
        let there = v.opens e (length eb.channels) (ground (arith, some_there)) in
        absurd (omega (arith, open_at_beyond eb.channels (length eb.channels) there))
  ]

  -- A new open channel that is registered once.
  registers-IsWired :
      (eb : EventBus A) (types : Map (List ℕ)) (all : List ℕ)
      → eb.closed ≡ false
      → ((h : ℕ)
          → typed h types + times h all
            ≤ registered eb h + (if length eb.channels == h then 1 else 0))
      → IsWired eb
      → IsWired
          (record (make_channel eb eb.buffer_size false) { subscribers = types; all_events = all })
  registers-IsWired eb types all e one_more v =
      let new : Channel A = record { buffer = []; capacity = eb.buffer_size; is_closed = false } in
      let n = length eb.channels in
      let unused = fresh eb e v in
      record {
        quiet = v.quiet;
        fits = All-append Fits eb.channels (new ∷ []) v.fits (omega arith, tt);
        once = λ f h. elim (Bool-cases (n == h)) [
          | inl same ↦
              let q : n ≡ h = ground (arith, same) in
              let none_there : registered eb h ≡ 0 = ap (registered eb) (sym q) ∙ unused in
              ground (arith, one_more h, same, none_there)
          | inr other ↦ ground (arith, one_more h, other, v.once e h)
        ];
        opens = λ f h some_there. elim (Bool-cases (n == h)) [
          | inl same ↦
              let q : n ≡ h = ground (arith, same) in
              subst (λ k. open_at (eb.channels ++ new ∷ []) k ≡ true) q
                (open_at_new eb.channels new refl)
          | inr other ↦
              let known : 0 < registered eb h = ground (arith, one_more h, other, some_there) in
              open_at-append eb.channels (new ∷ []) h (v.opens e h known)
        ];
      }

  -- A channel that is closed when it is made, for a subscriber that comes too late.
  late-IsWired : (eb : EventBus A) → IsWired eb → IsWired (make_channel eb 0 true)
  late-IsWired eb v = record {
    quiet = v.quiet;
    fits =
        All-append Fits eb.channels (record { buffer = []; capacity = 0; is_closed = true } ∷ [])
          v.fits (omega arith, tt);
    once = v.once;
    opens = λ e h some. open_at-append eb.channels _ h (v.opens e h some);
  }

  pub subscribe-IsWired :
      (eb : EventBus A) (event_type : String) → IsWired eb → IsWired (subscribe eb event_type).0
  unfolding subscribe
  subscribe-IsWired eb event_type v =
      let chs = get_or eb.subscribers event_type [] ++ length eb.channels ∷ [] in
      on_both {X = EventBus A × ℕ} (λ r. IsWired r.0) eb.closed _ _ (λ e. late-IsWired eb v)
        λ e.
          registers-IsWired eb (put eb.subscribers event_type chs) eb.all_events e
            (λ h. omega (
              arith,
              typed-put h eb.subscribers event_type chs,
              times-append h (get_or eb.subscribers event_type []) (length eb.channels ∷ []),
            ))
            v

  pub subscribe_all-IsWired : (eb : EventBus A) → IsWired eb → IsWired (subscribe_all eb).0
  unfolding subscribe_all
  subscribe_all-IsWired eb v =
      on_both {X = EventBus A × ℕ} (λ r. IsWired r.0) eb.closed _ _ (λ e. late-IsWired eb v)
        λ e.
          registers-IsWired eb eb.subscribers (eb.all_events ++ length eb.channels ∷ []) e
            (λ h. omega (arith, times-append h eb.all_events (length eb.channels ∷ []))) v

  pub unsubscribe-IsWired :
      (eb : EventBus A) (event_type : String) (ch : ℕ)
      → IsWired eb
      → IsWired (unsubscribe eb event_type ch)
  unfolding unsubscribe
  unsubscribe-IsWired eb event_type ch v =
      let chs = get_or eb.subscribers event_type [] in
      on_both IsWired eb.closed _ _ (λ e. v)
        λ e.
          fewer-IsWired eb (put eb.subscribers event_type (swap_remove chs ch)) eb.all_events
            (λ h. omega (
              arith,
              typed-put h eb.subscribers event_type (swap_remove chs ch),
              times-swap_remove h chs ch,
            ))
            v

  pub unsubscribe_all-IsWired :
      (eb : EventBus A) (ch : ℕ) → IsWired eb → IsWired (unsubscribe_all eb ch)
  unfolding unsubscribe_all
  unsubscribe_all-IsWired eb ch v =
      on_both IsWired eb.closed _ _ (λ e. v)
        λ e.
          fewer-IsWired eb (remove_everywhere eb.subscribers ch) (swap_remove eb.all_events ch)
            (λ h. omega (
              arith,
              typed-remove_everywhere h eb.subscribers ch,
              times-swap_remove h eb.all_events ch,
            ))
            v
