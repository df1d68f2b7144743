-- ===== src/Proxy/Udp/Relay.antt =====
-- src/proxy/udp.rs, `open_session`: the two relay tasks of one session, with its channel and its
-- cancellation token. What the sockets do is an input.
pub mod Order
pub mod Histories
mod Tests
use oxiduct.Base.{
  ℕ, Bool, true, false, ◌||◌, List, [], ◌∷◌, ◌++◌, Option, none, some, if◌then◌else◌, length, ltb,
}
use oxiduct.Proxy.Udp.{Packet}

-- The packets in the channel; those that the sockets have taken, each way; the increments of the
-- two counters. `open_end` says whether the session still holds the sending end of the channel.
pub record State : Type 0 where
  pub queue : List Packet
  pub open_end : Bool
  pub sent : List Packet
  pub delivered : List Packet
  pub bytes_up : List ℕ
  pub bytes_down : List ℕ
  pub last_activity : ℕ
  pub cancelled : Bool
  pub up_running : Bool
  pub down_running : Bool

unfoldable pub start : ℕ → State
start now = record {
  queue = [];
  open_end = true;
  sent = [];
  delivered = [];
  bytes_up = [];
  bytes_down = [];
  last_activity = now;
  cancelled = false;
  up_running = true;
  down_running = true;
}

-- A packet of the upstream socket, and what the send to the client comes to; or a failed `recv`. A
-- send fails, or has taken a number of bytes.
pub data Received : Type 0 where
  received : Packet → (took : Option ℕ) → Received
  broken : Received

pub data Event : Type 0 where
  -- The listener puts a packet into the channel, cancels the session, or drops it.
  enqueues : Packet → Event
  cancels drops : Event
  -- A turn of the loop of a task; `stop` says that the forced shutdown is seen.
  up_turn : (stop : Bool) → (now : ℕ) → (took : Option ℕ) → Event
  down_turn : (stop : Bool) → (now : ℕ) → Received → Event

-- The end of a task cancels the session.
abbrev pub end_up : State → State
end_up s = record s { up_running = false; cancelled = true }

abbrev pub end_down : State → State
end_down s = record s { down_running = false; cancelled = true }

-- The channel of 256 packets, whose receiving end the upward task holds.
abbrev pub has_room : State → Bool
has_room s = if s.up_running then ltb (length s.queue) 256 else false

unfoldable pub enqueue : State → Packet → (room : Bool) → State
enqueue s p true = record s { queue = s.queue ++ p ∷ [] }
enqueue s p false = s

unfoldable pub send_up : State → ℕ → Packet → List Packet → Option ℕ → State
send_up s now p rest none = end_up (record s { queue = rest; last_activity = now })
send_up s now p rest (some n) = record s {
  queue = rest;
  last_activity = now;
  sent = s.sent ++ p ∷ [];
  bytes_up = n ∷ s.bytes_up;
}

-- `recv`: the next packet; without one, the end once the sending end is gone, and a wait before.
unfoldable pub take_up : State → ℕ → Option ℕ → List Packet → (open_end : Bool) → State
unfolding send_up
take_up s now took (p ∷ rest) open_end = send_up s now p rest took
take_up s now took [] true = s
take_up s now took [] false = end_up s

unfoldable pub send_down : State → ℕ → Received → State
send_down s now broken = end_down s
send_down s now (received p none) = end_down (record s { last_activity = now })
send_down s now (received p (some n)) = record s {
  last_activity = now;
  delivered = s.delivered ++ p ∷ [];
  bytes_down = n ∷ s.bytes_down;
}

-- A turn of a task that has ended changes nothing; the shutdown and the token come first.
unfoldable pub turn_up : State → (running stop : Bool) → ℕ → Option ℕ → State
unfolding take_up
turn_up s false stop now took = s
turn_up s true true now took = end_up s
turn_up s true false now took = take_up s now took s.queue s.open_end

unfoldable pub turn_down : State → (running stop : Bool) → ℕ → Received → State
unfolding send_down
turn_down s false stop now r = s
turn_down s true true now r = end_down s
turn_down s true false now r = send_down s now r

unfoldable pub step : State → Event → State
unfolding enqueue turn_up turn_down
step s (enqueues p) = enqueue s p (has_room s)
step s cancels = record s { cancelled = true }
step s drops = record s { open_end = false }
step s (up_turn stop now took) = turn_up s s.up_running (stop || s.cancelled) now took
step s (down_turn stop now r) = turn_down s s.down_running (stop || s.cancelled) now r

unfoldable pub run : State → List Event → State
unfolding step
run s [] = s
run s (e ∷ es) = run (step s e) es
