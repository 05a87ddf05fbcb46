-- ===== src/Events/Bus/Offers.antt =====
-- internal/events/events.go: what one Publish does to each channel.
use rescale_interlink.Common.{
  ℕ, zero, suc, ◌+◌, ◌≤◌, ◌<◌, String, true, false, List, [], ◌∷◌, ◌++◌, Option, none, some, ◌≡◌,
  refl, arith, ap, sym, ◌∙◌, ltb, ◌==◌, if◌then◌else◌, length, get_elem?, set, Bool-cases, inl, inr,
}
use mathlib.Core.Option.{map as map_option}
use rescale_interlink.Common.Int.{ℤ}
use rescale_interlink.Common.Map.{get_or}
use rescale_interlink.Events.Bus.{Channel, EventBus, new_event_bus, send_to, send_each, publish}
use rescale_interlink.Events.Bus.Subscribers.{times, times-get_or, open_at, open_channel}
use rescale_interlink.Events.Bus.Sending.{send_to-Sends, send_each-Sends}
use rescale_interlink.Events.Bus.Wiring.{IsWired, publish_sends, publish_open}
use rescale_interlink.Events.Bus.Calls.{BusCall, run, run-IsWired, new_event_bus-IsWired}

module _ {A : Type 0} where
  -- An event put at the end of a buffer, if it has room.
  abbrev pub offered : A → Channel A → Channel A
  offered event c =
      if ltb (length c.buffer) c.capacity then record c { buffer = c.buffer ++ event ∷ [] } else c

  -- The same so many times.
  abbrev offers : ℕ → A → Option (Channel A) → Option (Channel A)
  offers n event none = none
  offers zero event (some c) = some c
  offers (suc n) event (some c) = offers n event (some (offered event c))

  get_elem?-set :
      (cs : List (Channel A)) (i h : ℕ) (c new : Channel A)
      → get_elem? cs i ≡ some c
      → get_elem? (set cs i new) h ≡ (if i == h then some new else get_elem? cs h)
  get_elem?-set [] i h c new e = ground (arith, e)
  get_elem?-set (x ∷ cs) zero zero c new e = refl
  get_elem?-set (x ∷ cs) zero (suc h) c new e = ground arith
  get_elem?-set (x ∷ cs) (suc i) zero c new e = ground arith
  get_elem?-set (x ∷ cs) (suc i) (suc h) c new e = ground (arith, get_elem?-set cs i h c new e)

  offers_none : (event : A) (c : Option (Channel A)) → offers 0 event c ≡ c
  offers_none event none = refl
  offers_none event (some c) = refl

  -- One send to an open channel.
  get_elem?-send_to :
      (eb : EventBus A) (event : A) (ch h : ℕ)
      → open_at eb.channels ch ≡ true
      → get_elem? (send_to eb event ch).channels h
        ≡ offers (if ch == h then 1 else 0) event (get_elem? eb.channels h)
  unfolding send_to
  get_elem?-send_to eb event ch h o =
      let (c, e, is_open) = open_channel eb.channels ch o in
      let full : Channel A = record c { buffer = c.buffer ++ event ∷ []; is_closed = false } in
      let at : get_elem? (set eb.channels ch full) h
          ≡ (if ch == h then some full else get_elem? eb.channels h) =
        get_elem?-set eb.channels ch h c full e in
      elim (Bool-cases (ltb (length c.buffer) c.capacity)) [
        | inl room ↦
            rw (send_to, e, is_open, room)
              (at ∙ elim (Bool-cases (ch == h)) [
                | inl same ↦
                    let q : h ≡ ch = ground (arith, same) in
                    let found : get_elem? eb.channels h ≡ some c =
                      ap (get_elem? eb.channels) q ∙ e in
                    rw (same, found, room, is_open) refl
                | inr other ↦ rw other (sym (offers_none event (get_elem? eb.channels h)))
              ])
        | inr no_room ↦
            rw (send_to, e, is_open, no_room)
              (elim (Bool-cases (ch == h)) [
                | inl same ↦
                    let q : h ≡ ch = ground (arith, same) in
                    let found : get_elem? eb.channels h ≡ some c =
                      ap (get_elem? eb.channels) q ∙ e in
                    rw (same, found, no_room) refl
                | inr other ↦ rw other (sym (offers_none event (get_elem? eb.channels h)))
              ])
      ]

  offers_of :
      (n k : ℕ) (event : A) (c : Option (Channel A)) → n ≡ k → offers n event c ≡ offers k event c
  offers_of n k event c e = ap (λ m. offers m event c) e

  offers_add :
      (n k : ℕ) (event : A) (c : Option (Channel A))
      → offers k event (offers n event c) ≡ offers (n + k) event c
  offers_add n k event none = refl
  offers_add zero k event (some c) = offers_of k (0 + k) event (some c) (omega arith)
  offers_add (suc n) k event (some c) =
      offers_add n k event (some (offered event c))
      ∙ offers_of (suc (n + k)) (suc n + k) event (some c) (omega arith)

  -- The sends to a list of open channels: each channel is offered the event as often as it is in the list.
  get_elem?-send_each :
      (eb : EventBus A) (event : A) (chs : List ℕ) (h : ℕ)
      → ((j : ℕ) → 0 < times j chs → open_at eb.channels j ≡ true)
      → get_elem? (send_each eb event chs).channels h
        ≡ offers (times h chs) event (get_elem? eb.channels h)
  unfolding send_each
  get_elem?-send_each eb event [] h opens = sym (offers_none event (get_elem? eb.channels h))
  get_elem?-send_each eb event (ch ∷ chs) h opens =
      let is_open = opens ch (ground arith) in
      let first = send_to-Sends eb event ch is_open in
      let mid = send_to eb event ch in
      get_elem?-send_each mid event chs h
        (λ j more. first.still_open j (opens j (omega (arith, more))))
      ∙ ap (offers (times h chs) event) (get_elem?-send_to eb event ch h is_open)
      ∙ offers_add (if ch == h then 1 else 0) (times h chs) event (get_elem? eb.channels h)

  -- How often a channel is offered an event of a type.
  abbrev pub receives_type : EventBus A → String → ℕ → ℕ
  receives_type eb event_type h =
      times h (get_or eb.subscribers event_type []) + times h eb.all_events

  publish-offers :
      (eb : EventBus A) (event_type : String) (event : A) (h : ℕ)
      → eb.closed ≡ false
      → IsWired eb
      → get_elem? (publish eb event_type event).channels h
        ≡ offers (receives_type eb event_type h) event (get_elem? eb.channels h)
  unfolding publish_sends
  publish-offers eb event_type event h e v =
      let chs = get_or eb.subscribers event_type [] in
      let opens : (j : ℕ) → 0 < times j chs → open_at eb.channels j ≡ true = λ j some_there.
        v.opens e j (omega (arith, some_there, times-get_or j eb.subscribers event_type)) in
      let mid = send_each eb event chs in
      let first = send_each-Sends eb event chs opens in
      ap (λ new. get_elem? new.channels h) (publish_open eb event_type event e)
      ∙ get_elem?-send_each mid event eb.all_events h
          (λ j some_there. first.still_open j (v.opens e j (omega (arith, some_there))))
      ∙ ap (offers (times h eb.all_events) event) (get_elem?-send_each eb event chs h opens)
      ∙ offers_add (times h chs) (times h eb.all_events) event (get_elem? eb.channels h)

  offers_once :
      (n : ℕ) (event : A) (c : Option (Channel A))
      → n ≤ 1
      → offers n event c ≡ (if ltb 0 n then map_option (offered event) c else c)
  offers_once zero event c l = offers_none event c
  offers_once (suc zero) event none l = refl
  offers_once (suc zero) event (some c) l = refl
  offers_once (suc (suc n)) event c l = absurd (omega (arith, l))

  -- On a bus that any calls have led to and that is not closed, Publish puts the event once at the end of
  -- the buffer of each channel that is registered for its type or for all events, if the buffer has room,
  -- leaves the channel as it is if it has none, and leaves every other channel as it is.
  pub publish_delivers :
      (nil : A) (buffer_size : ℤ) (calls : List (BusCall A)) (event_type : String) (event : A)
      (h : ℕ)
      → (run (new_event_bus nil buffer_size) calls).closed ≡ false
      → get_elem? (publish (run (new_event_bus nil buffer_size) calls) event_type event).channels h
        ≡ (if ltb 0 (receives_type (run (new_event_bus nil buffer_size) calls) event_type h)
            then map_option
                (offered event)
                (get_elem? (run (new_event_bus nil buffer_size) calls).channels h)
            else get_elem? (run (new_event_bus nil buffer_size) calls).channels h)
  publish_delivers nil buffer_size calls event_type event h e =
      let eb = run (new_event_bus nil buffer_size) calls in
      let v =
        run-IsWired (new_event_bus nil buffer_size) calls (new_event_bus-IsWired nil buffer_size) in
      publish-offers eb event_type event h e v
      ∙ offers_once (receives_type eb event_type h) event (get_elem? eb.channels h)
          (omega (arith, v.once e h, times-get_or h eb.subscribers event_type))
