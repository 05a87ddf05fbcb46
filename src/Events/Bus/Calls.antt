-- ===== src/Events/Bus/Calls.antt =====
-- internal/events/events.go: any calls on a bus from NewEventBus on.
use rescale_interlink.Common.{
  ℕ, String, true, false, List, [], ◌∷◌, ◌≡◌, refl, arith, ap, sym, ◌∙◌, All,
}
use rescale_interlink.Common.Int.{ℤ, pos}
use rescale_interlink.Events.Ring.{new_ring_buffer, add as add_to_ring, snapshot}
use rescale_interlink.Events.Ring.Recent.{add_all, last, snapshot-add_all}
use rescale_interlink.Events.Bus.{
  EventBus, new_event_bus, subscribe, subscribe_all, publish, unsubscribe, unsubscribe_all, receive,
  reset_dropped_event_count, close_bus, recent, new_ring_buffer,
}
use rescale_interlink.Events.Bus.Sending.{on_both, Fits, receive-Sends}
use rescale_interlink.Events.Bus.Wiring.{
  IsWired, Sends-IsWired, publish_sends-Sends, publish_closed, publish_open, publish-IsWired,
  subscribe-IsWired, subscribe_all-IsWired, unsubscribe-IsWired, unsubscribe_all-IsWired,
}
use rescale_interlink.Events.Bus.Closing.{close_bus-IsWired, close_bus_kept}

-- The calls on a bus, a receive by a subscriber included.
pub data BusCall (A : Type 0) : Type 0 where
  subscribes : String → BusCall A
  subscribes_all : BusCall A
  publishes : String → A → BusCall A
  unsubscribes : String → ℕ → BusCall A
  unsubscribes_all : ℕ → BusCall A
  receives : ℕ → BusCall A
  resets : BusCall A
  closes : BusCall A

module _ {A : Type 0} where
  unfoldable pub step : EventBus A → BusCall A → EventBus A
  unfolding subscribe subscribe_all publish unsubscribe unsubscribe_all receive
      reset_dropped_event_count close_bus
  step eb (subscribes event_type) = (subscribe eb event_type).0
  step eb subscribes_all = (subscribe_all eb).0
  step eb (publishes event_type event) = publish eb event_type event
  step eb (unsubscribes event_type ch) = unsubscribe eb event_type ch
  step eb (unsubscribes_all ch) = unsubscribe_all eb ch
  step eb (receives ch) = receive eb ch
  step eb resets = (reset_dropped_event_count eb).0
  step eb closes = close_bus eb

  unfoldable pub run : EventBus A → List (BusCall A) → EventBus A
  unfolding step
  run eb [] = eb
  run eb (call ∷ calls) = run (step eb call) calls

  -- The events that are published before the first Close.
  unfoldable pub published : List (BusCall A) → List A
  published [] = []
  published (closes ∷ calls) = []
  published (publishes event_type event ∷ calls) = event ∷ published calls
  published (_ ∷ calls) = published calls

  step-IsWired : (eb : EventBus A) (call : BusCall A) → IsWired eb → IsWired (step eb call)
  unfolding step reset_dropped_event_count
  step-IsWired eb (subscribes event_type) v = subscribe-IsWired eb event_type v
  step-IsWired eb subscribes_all v = subscribe_all-IsWired eb v
  step-IsWired eb (publishes event_type event) v = publish-IsWired eb event_type event v
  step-IsWired eb (unsubscribes event_type ch) v = unsubscribe-IsWired eb event_type ch v
  step-IsWired eb (unsubscribes_all ch) v = unsubscribe_all-IsWired eb ch v
  step-IsWired eb (receives ch) v = Sends-IsWired eb (receive eb ch) (receive-Sends eb ch) v
  step-IsWired eb resets v = record {
    quiet = v.quiet;
    fits = v.fits;
    once = v.once;
    opens = v.opens;
  }
  step-IsWired eb closes v = close_bus-IsWired eb v

  pub run-IsWired :
      (eb : EventBus A) (calls : List (BusCall A)) → IsWired eb → IsWired (run eb calls)
  unfolding run
  run-IsWired eb [] v = v
  run-IsWired eb (call ∷ calls) v = run-IsWired (step eb call) calls (step-IsWired eb call v)

  -- The calls but for Publish and Close keep `closed` and the recent events.
  abbrev Keeps : EventBus A → EventBus A → Type 0
  Keeps eb new = (new.closed ≡ eb.closed) × (new.recent_events ≡ eb.recent_events)

  subscribe-Keeps : (eb : EventBus A) (event_type : String) → Keeps eb (subscribe eb event_type).0
  unfolding subscribe
  subscribe-Keeps eb event_type =
      on_both {X = EventBus A × ℕ} (λ r. Keeps eb r.0) eb.closed _ _ (λ e. (refl, refl))
        λ e. (refl, refl)

  subscribe_all-Keeps : (eb : EventBus A) → Keeps eb (subscribe_all eb).0
  unfolding subscribe_all
  subscribe_all-Keeps eb =
      on_both {X = EventBus A × ℕ} (λ r. Keeps eb r.0) eb.closed _ _ (λ e. (refl, refl))
        λ e. (refl, refl)

  unsubscribe-Keeps :
      (eb : EventBus A) (event_type : String) (ch : ℕ) → Keeps eb (unsubscribe eb event_type ch)
  unfolding unsubscribe
  unsubscribe-Keeps eb event_type ch =
      on_both (Keeps eb) eb.closed _ _ (λ e. (refl, refl)) λ e. (refl, refl)

  unsubscribe_all-Keeps : (eb : EventBus A) (ch : ℕ) → Keeps eb (unsubscribe_all eb ch)
  unfolding unsubscribe_all
  unsubscribe_all-Keeps eb ch =
      on_both (Keeps eb) eb.closed _ _ (λ e. (refl, refl)) λ e. (refl, refl)

  receive-Keeps : (eb : EventBus A) (ch : ℕ) → Keeps eb (receive eb ch)
  receive-Keeps eb ch = let s = receive-Sends eb ch in (s.same_closed, s.same_recent)

  -- A closed bus keeps what it recorded.
  step_when_closed :
      (eb : EventBus A) (call : BusCall A) → IsWired eb → eb.closed ≡ true → Keeps eb (step eb call)
  unfolding step reset_dropped_event_count
  step_when_closed eb (subscribes event_type) v e = subscribe-Keeps eb event_type
  step_when_closed eb subscribes_all v e = subscribe_all-Keeps eb
  step_when_closed eb (publishes event_type event) v e = (
    ap (λ new. new.closed) (publish_closed eb event_type event e),
    ap (λ new. new.recent_events) (publish_closed eb event_type event e),
  )
  step_when_closed eb (unsubscribes event_type ch) v e = unsubscribe-Keeps eb event_type ch
  step_when_closed eb (unsubscribes_all ch) v e = unsubscribe_all-Keeps eb ch
  step_when_closed eb (receives ch) v e = receive-Keeps eb ch
  step_when_closed eb resets v e = (refl, refl)
  step_when_closed eb closes v e = let kept = close_bus_kept eb v in (kept.0 ∙ sym e, kept.1)

  run_when_closed :
      (eb : EventBus A) (calls : List (BusCall A))
      → IsWired eb
      → eb.closed ≡ true
      → (run eb calls).recent_events ≡ eb.recent_events
  unfolding run
  run_when_closed eb [] v e = refl
  run_when_closed eb (call ∷ calls) v e =
      let kept = step_when_closed eb call v e in
      run_when_closed (step eb call) calls (step-IsWired eb call v) (kept.0 ∙ e) ∙ kept.1

  publish_recorded :
      (eb : EventBus A) (event_type : String) (event : A)
      → IsWired eb
      → eb.closed ≡ false
      → ((publish eb event_type event).closed ≡ false)
        × ((publish eb event_type event).recent_events ≡ add_to_ring eb.recent_events event)
  publish_recorded eb event_type event v e =
      let sent = publish_sends-Sends eb event_type event e v in
      (
        ap (λ new. new.closed) (publish_open eb event_type event e) ∙ sent.same_closed ∙ e,
        ap (λ new. new.recent_events) (publish_open eb event_type event e)
            ∙ ap (λ rb. add_to_ring rb event) sent.same_recent,
      )

  -- A call that keeps the recent events, before calls of which the statement is known.
  recorded_after :
      (eb : EventBus A) (call : BusCall A) (calls : List (BusCall A))
      → eb.closed ≡ false
      → Keeps eb (step eb call)
      → ((step eb call).closed ≡ false
          → (run (step eb call) calls).recent_events
            ≡ add_all (step eb call).recent_events (published calls))
      → (run (step eb call) calls).recent_events ≡ add_all eb.recent_events (published calls)
  recorded_after eb call calls e kept later =
      later (kept.0 ∙ e) ∙ ap (λ rb. add_all rb (published calls)) kept.1

  -- An open bus records what is published until it is closed.
  run_recorded :
      (eb : EventBus A) (calls : List (BusCall A))
      → IsWired eb
      → eb.closed ≡ false
      → (run eb calls).recent_events ≡ add_all eb.recent_events (published calls)
  unfolding run published step reset_dropped_event_count add_all
  run_recorded eb [] v e = refl
  run_recorded eb (subscribes event_type ∷ calls) v e =
      recorded_after eb (subscribes event_type) calls e (subscribe-Keeps eb event_type) (
        run_recorded (step eb (subscribes event_type)) calls
          (step-IsWired eb (subscribes event_type) v))
  run_recorded eb (subscribes_all ∷ calls) v e =
      recorded_after eb subscribes_all calls e (subscribe_all-Keeps eb)
        (run_recorded (step eb subscribes_all) calls (step-IsWired eb subscribes_all v))
  run_recorded eb (unsubscribes event_type ch ∷ calls) v e =
      recorded_after eb (unsubscribes event_type ch) calls e (unsubscribe-Keeps eb event_type ch) (
        run_recorded (step eb (unsubscribes event_type ch)) calls
          (step-IsWired eb (unsubscribes event_type ch) v))
  run_recorded eb (unsubscribes_all ch ∷ calls) v e =
      recorded_after eb (unsubscribes_all ch) calls e (unsubscribe_all-Keeps eb ch) (
        run_recorded (step eb (unsubscribes_all ch)) calls
          (step-IsWired eb (unsubscribes_all ch) v))
  run_recorded eb (receives ch ∷ calls) v e =
      recorded_after eb (receives ch) calls e (receive-Keeps eb ch)
        (run_recorded (step eb (receives ch)) calls (step-IsWired eb (receives ch) v))
  run_recorded eb (resets ∷ calls) v e =
      recorded_after eb resets calls e (refl, refl)
        (run_recorded (step eb resets) calls (step-IsWired eb resets v))
  run_recorded eb (publishes event_type event ∷ calls) v e =
      let sent = publish_recorded eb event_type event v e in
      run_recorded (publish eb event_type event) calls (publish-IsWired eb event_type event v)
        sent.0
      ∙ ap (λ rb. add_all rb (published calls)) sent.1
  run_recorded eb (closes ∷ calls) v e =
      let kept = close_bus_kept eb v in
      run_when_closed (close_bus eb) calls (close_bus-IsWired eb v) kept.0 ∙ kept.1

  pub new_event_bus-IsWired : (nil : A) (buffer_size : ℤ) → IsWired (new_event_bus nil buffer_size)
  unfolding new_event_bus
  new_event_bus-IsWired nil buffer_size = record {
    quiet = refl;
    fits = tt;
    once = λ e h. omega arith;
    opens = λ e h some. absurd (omega (arith, some));
  }

  -- Whatever calls follow on a new bus, a Close in between included: no send to a closed channel and no
  -- second close of a channel happens, no channel holds more than its capacity, and RecentEvents gives
  -- the last 50 of the events that were published before the first Close, in their order.
  pub run_recent :
      (nil : A) (buffer_size : ℤ) (calls : List (BusCall A))
      → ((run (new_event_bus nil buffer_size) calls).panicked ≡ false)
        × All Fits (run (new_event_bus nil buffer_size) calls).channels
        × (recent (run (new_event_bus nil buffer_size) calls) ≡ last 50 (published calls))
  unfolding recent new_event_bus new_ring_buffer
  run_recent nil buffer_size calls =
      let start = new_event_bus nil buffer_size in
      let v = run-IsWired start calls (new_event_bus-IsWired nil buffer_size) in
      (
        v.quiet,
        v.fits,
        ap snapshot (run_recorded start calls (new_event_bus-IsWired nil buffer_size) refl)
            ∙ snapshot-add_all nil (pos 50) (published calls),
      )
