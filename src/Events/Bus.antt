-- ===== src/Events/Bus.antt =====
-- internal/events/events.go: the event bus. A method holds the lock from end to end, so it is one step;
-- publishes that run at the same time are taken one after the other. A channel is a number, the place of
-- its state in a heap, and a send to or a close of a closed channel, which panics in Go, sets `panicked`.
pub mod Subscribers
pub mod Sending
pub mod Wiring
pub mod Closing
pub mod Calls
pub mod Offers
use rescale_interlink.Common.{
  ℕ, ◌+◌, String, Bool, true, false, not, List, [], ◌∷◌, ◌++◌, Option, none, some, ltb, ◌==◌,
  if◌then◌else◌, length, get_elem?, set,
}
use rescale_interlink.Common.Int.{ℤ, pos, ltb_ℤ, pos_part}
use rescale_interlink.Common.Map.{Map, get_or, put}
use rescale_interlink.Events.Ring.{RingBuffer, new_ring_buffer, add as add_to_ring, snapshot}

-- chan Event, with its buffer in the order in which it is received.
pub record Channel (A : Type 0) : Type 0 where
  pub buffer : List A
  pub capacity : ℕ
  pub is_closed : Bool

-- EventBus, the heap of its channels included.
pub record EventBus (A : Type 0) : Type 0 where
  pub channels : List (Channel A)
  pub panicked : Bool
  pub subscribers : Map (List ℕ)
  pub all_events : List ℕ
  pub buffer_size : ℕ
  pub closed : Bool
  pub dropped_events : ℕ
  pub recent_events : RingBuffer A

-- EventBusDefaultBuffer and EventBusMaxBuffer
abbrev pub event_bus_default_buffer : ℕ
event_bus_default_buffer = 1000

abbrev pub event_bus_max_buffer : ℕ
event_bus_max_buffer = 5000

-- `bufferSize` in NewEventBus
abbrev pub bus_buffer : ℤ → ℕ
bus_buffer buffer_size =
    let size =
      if ltb_ℤ (pos 0) buffer_size then pos_part buffer_size else event_bus_default_buffer in
    if ltb event_bus_max_buffer size then event_bus_max_buffer else size

-- The last element, for subscribers[len(subscribers)-1]; `nil` for an empty list.
abbrev pub last_channel : ℕ → List ℕ → ℕ
last_channel nil [] = nil
last_channel nil (h ∷ hs) = last_channel h hs

abbrev pub without_last : List ℕ → List ℕ
without_last [] = []
without_last (h ∷ []) = []
without_last (h ∷ j ∷ hs) = h ∷ without_last (j ∷ hs)

-- The loop of Unsubscribe: the first place of the channel gets the last element, and the list is cut.
pub swap_remove : List ℕ → ℕ → List ℕ
swap_remove [] ch = []
swap_remove (h ∷ hs) ch =
    let others = swap_remove hs ch in
    if h == ch
    then elim hs [ [] ↦ [] | ◌∷◌ j js ↦ last_channel j js ∷ without_last (j ∷ js) ]
    else h ∷ others

-- The loop of UnsubscribeAll over the types.
pub remove_everywhere : Map (List ℕ) → ℕ → Map (List ℕ)
unfolding swap_remove
remove_everywhere [] ch = []
remove_everywhere ((event_type, chs) ∷ m) ch =
    (event_type, swap_remove chs ch) ∷ remove_everywhere m ch

module _ {A : Type 0} where
  -- NewEventBus; `nil` is the zero value of an event.
  unfoldable pub new_event_bus : A → ℤ → EventBus A
  new_event_bus nil buffer_size = record {
    channels = [];
    panicked = false;
    subscribers = [];
    all_events = [];
    buffer_size = bus_buffer buffer_size;
    closed = false;
    dropped_events = 0;
    recent_events = new_ring_buffer nil (pos 50);
  }

  -- make(chan Event, capacity); the new channel is the number of those there are.
  abbrev pub make_channel : EventBus A → ℕ → Bool → EventBus A
  make_channel eb capacity is_closed = record eb {
    channels =
        eb.channels ++ record { buffer = []; capacity = capacity; is_closed = is_closed } ∷ [];
  }

  -- Subscribe
  pub subscribe : EventBus A → String → EventBus A × ℕ
  subscribe eb event_type =
      let ch = length eb.channels in
      let made = make_channel eb eb.buffer_size false in
      let subscribers =
        put eb.subscribers event_type (get_or eb.subscribers event_type [] ++ ch ∷ []) in
      if eb.closed
      then (make_channel eb 0 true, ch)
      else (record made { subscribers = subscribers }, ch)

  -- SubscribeAll
  pub subscribe_all : EventBus A → EventBus A × ℕ
  subscribe_all eb =
      let ch = length eb.channels in
      let made = make_channel eb eb.buffer_size false in
      if eb.closed
      then (make_channel eb 0 true, ch)
      else (record made { all_events = eb.all_events ++ ch ∷ [] }, ch)

  -- The `select` of Publish on one channel.
  pub send_to : EventBus A → A → ℕ → EventBus A
  send_to eb event ch = elim (get_elem? eb.channels ch) [
    | none ↦ record eb { panicked = true }
    | some c ↦
        if c.is_closed
        then record eb { panicked = true }
        else if ltb (length c.buffer) c.capacity
        then record eb {
          channels = set eb.channels ch (record c { buffer = c.buffer ++ event ∷ [] });
        }
        else record eb { dropped_events = eb.dropped_events + 1 }
  ]

  -- A loop of Publish over channels.
  pub send_each : EventBus A → A → List ℕ → EventBus A
  unfolding send_to
  send_each eb event [] = eb
  send_each eb event (ch ∷ chs) = send_each (send_to eb event ch) event chs

  -- Publish; `event_type` is event.Type().
  pub publish : EventBus A → String → A → EventBus A
  unfolding send_each
  publish eb event_type event =
      let typed = send_each eb event (get_or eb.subscribers event_type []) in
      let sent = send_each typed event eb.all_events in
      if eb.closed then eb else record sent { recent_events = add_to_ring sent.recent_events event }

  -- close(ch)
  pub close_channel : EventBus A → ℕ → EventBus A
  close_channel eb ch = elim (get_elem? eb.channels ch) [
    | none ↦ record eb { panicked = true }
    | some c ↦
        if c.is_closed
        then record eb { panicked = true }
        else record eb { channels = set eb.channels ch (record c { is_closed = true }) }
  ]

  pub close_each : EventBus A → List ℕ → EventBus A
  unfolding close_channel
  close_each eb [] = eb
  close_each eb (ch ∷ chs) = close_each (close_channel eb ch) chs

  -- The loop of Close over the types.
  pub close_types : EventBus A → Map (List ℕ) → EventBus A
  unfolding close_each
  close_types eb [] = eb
  close_types eb ((event_type, chs) ∷ m) = close_types (close_each eb chs) m

  -- Close
  pub close_bus : EventBus A → EventBus A
  unfolding close_types
  close_bus eb =
      if eb.closed
      then eb
      else close_each (close_types (record eb { closed = true }) eb.subscribers) eb.all_events

  -- Unsubscribe; a list without the channel is put back as it is.
  pub unsubscribe : EventBus A → String → ℕ → EventBus A
  unfolding swap_remove
  unsubscribe eb event_type ch = if eb.closed then eb else record eb {
    subscribers =
        put eb.subscribers event_type (swap_remove (get_or eb.subscribers event_type []) ch);
  }

  -- UnsubscribeAll
  pub unsubscribe_all : EventBus A → ℕ → EventBus A
  unfolding remove_everywhere
  unsubscribe_all eb ch = if eb.closed then eb else record eb {
    subscribers = remove_everywhere eb.subscribers ch;
    all_events = swap_remove eb.all_events ch;
  }

  -- ResetDroppedEventCount
  pub reset_dropped_event_count : EventBus A → EventBus A × ℕ
  reset_dropped_event_count eb = (record eb { dropped_events = 0 }, eb.dropped_events)

  -- RecentEvents
  pub recent : EventBus A → List A
  recent eb = snapshot eb.recent_events

  abbrev pub rest_of : List A → List A
  rest_of [] = []
  rest_of (x ∷ xs) = xs

  -- A receive from a channel by its subscriber, which waits if there is nothing.
  pub receive : EventBus A → ℕ → EventBus A
  receive eb ch = elim (get_elem? eb.channels ch) [
    | none ↦ eb
    | some c ↦ record eb { channels = set eb.channels ch (record c { buffer = rest_of c.buffer }) }
  ]
