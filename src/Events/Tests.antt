-- ===== src/Events/Tests.antt =====
-- internal/events at concrete inputs.
use rescale_interlink.Common.{
  ℕ, false, List, ◌≡◌, refl, [], ◌∷◌, All, get_elem?, ltb, if◌then◌else◌,
}
use rescale_interlink.Common.Int.{pos}
use rescale_interlink.Events.Ring.{new_ring_buffer, snapshot}
use rescale_interlink.Events.Ring.Recent.{add_all, last, snapshot-add_all}
use rescale_interlink.Events.Bus.{new_event_bus, publish, recent}
use rescale_interlink.Events.Bus.Sending.{Fits}
use rescale_interlink.Events.Bus.Calls.{
  BusCall, run, published, run_recent, subscribes, subscribes_all, publishes, unsubscribes,
  receives, resets, closes,
}
use rescale_interlink.Events.Bus.Offers.{offered, receives_type, publish_delivers}
use rescale_interlink.Common.Map.{get, put}
use mathlib.Core.Option.{map as map_option}

abbrev none_yet : ℕ
none_yet = 0

-- Four events in a buffer of three.
snapshot-add_all_example :
    snapshot (add_all (new_ring_buffer none_yet (pos 3)) (4 ∷ 5 ∷ 6 ∷ 7 ∷ []))
    ≡ last (new_ring_buffer none_yet (pos 3)).cap (4 ∷ 5 ∷ 6 ∷ 7 ∷ [])
snapshot-add_all_example = snapshot-add_all none_yet (pos 3) (4 ∷ 5 ∷ 6 ∷ 7 ∷ [])

-- Two subscribers of a bus whose channels hold one event, of which one leaves; a Close, and calls after it.
abbrev session : List (BusCall ℕ)
session =
    subscribes "log"
    ∷ subscribes_all
    ∷ publishes "log" 4
    ∷ publishes "log" 5
    ∷ receives 0
    ∷ resets
    ∷ unsubscribes "log" 0
    ∷ publishes "progress" 6
    ∷ closes
    ∷ publishes "log" 7
    ∷ subscribes "log"
    ∷ closes
    ∷ []

run_recent_example :
    ((run (new_event_bus none_yet (pos 1)) session).panicked ≡ false)
    × All Fits (run (new_event_bus none_yet (pos 1)) session).channels
    × (recent (run (new_event_bus none_yet (pos 1)) session) ≡ last 50 (published session))
run_recent_example = run_recent none_yet (pos 1) session

published_test : published session ≡ 4 ∷ 5 ∷ 6 ∷ []
unfolding published
published_test = refl

-- Before a Close: one subscriber of a type, and one of all events.
abbrev subscribing : List (BusCall ℕ)
subscribing = subscribes "log" ∷ subscribes_all ∷ publishes "progress" 4 ∷ []

still_open : (run (new_event_bus none_yet (pos 1)) subscribing).closed ≡ false
unfolding run new_event_bus get put
still_open = refl

-- The channel of the type has room and gets the event.
publish_delivers_example :
    get_elem? (publish (run (new_event_bus none_yet (pos 1)) subscribing) "log" 5).channels 0 ≡ (
      if ltb 0 (receives_type (run (new_event_bus none_yet (pos 1)) subscribing) "log" 0)
      then map_option
          (offered 5)
          (get_elem? (run (new_event_bus none_yet (pos 1)) subscribing).channels 0)
      else get_elem? (run (new_event_bus none_yet (pos 1)) subscribing).channels 0)
publish_delivers_example = publish_delivers none_yet (pos 1) subscribing "log" 5 0 still_open
