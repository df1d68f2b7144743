-- ===== src/Proxy/Udp/Relay/Order.antt =====
-- src/proxy/udp.rs: the packets of a session, from its channel to its sockets and back.
use mathlib.Core.List.{append_assoc, append-nil}
use mathlib.Core.Path.{subst}
use oxiduct.Base.{
  ℕ, ◌≡◌, refl, sym, ap, ◌∙◌, Bool, true, false, ◌||◌, List, [], ◌∷◌, ◌++◌, Option, none, some,
}
use oxiduct.Proxy.Udp.{Packet}
use oxiduct.Proxy.Udp.Relay.{
  State, Received, received, broken, Event, enqueues, down_turn, has_room, enqueue, send_up,
  take_up, send_down, turn_up, turn_down,
}

-- What an event adds to the packets that the channel has taken, and to those that the upstream
-- socket has given to the task.
abbrev pub when : Bool → Packet → List Packet
when true p = p ∷ []
when false p = []

abbrev pub packet_of : Received → List Packet
packet_of (received p took) = p ∷ []
packet_of broken = []

abbrev pub read_by : (running stop : Bool) → Received → List Packet
read_by true false r = packet_of r
read_by running stop r = []

abbrev pub queued_at : State → Event → List Packet
queued_at s (enqueues p) = when (has_room s) p
queued_at s e = []

abbrev pub read_at : State → Event → List Packet
read_at s (down_turn stop now r) = read_by s.down_running (stop || s.cancelled) r
read_at s e = []

-- Against the packets of the client and those of the target: each direction has passed on a first
-- part of its packets; a running one leaves behind those in the channel, or none; and a session
-- with an ended task is cancelled.
pub record IsInOrder (s : State) (up down : List Packet) : Type 0 where
  pub up_rest : List Packet
  pub up_split : up ≡ s.sent ++ up_rest
  pub up_whole : s.up_running ≡ true → up_rest ≡ s.queue
  pub down_rest : List Packet
  pub down_split : down ≡ s.delivered ++ down_rest
  pub down_whole : s.down_running ≡ true → down_rest ≡ []
  pub ended : s.cancelled ≡ false → (s.up_running ≡ true) × (s.down_running ≡ true)

-- A longer text behind the same first part.
longer : (a f r b : List Packet) → a ≡ f ++ r → a ++ b ≡ f ++ (r ++ b)
longer a f r b e = ap (λ x. x ++ b) e ∙ append_assoc f r b

pub same :
    (s : State) (up down : List Packet) → IsInOrder s up down → IsInOrder s (up ++ []) (down ++ [])
same s up down h =
    subst (λ x. IsInOrder s x (down ++ [])) (sym (append-nil up))
      (subst (IsInOrder s up) (sym (append-nil down)) h)

pub true_ne_false : {b : Bool} → b ≡ true → b ≡ false → ⊥
true_ne_false p q = cc

pub enqueue_lem :
    (s : State) (p : Packet) (room : Bool) (up down : List Packet)
    → IsInOrder s up down
    → IsInOrder (enqueue s p room) (up ++ when room p) (down ++ [])
unfolding enqueue
enqueue_lem s p false up down h = same s up down h
enqueue_lem s p true up down h = record {
  up_rest = h.up_rest ++ p ∷ [];
  up_split = longer up s.sent h.up_rest (p ∷ []) h.up_split;
  up_whole = λ r. ap (λ x. x ++ p ∷ []) (h.up_whole r);
  down_rest = h.down_rest;
  down_split = append-nil down ∙ h.down_split;
  down_whole = h.down_whole;
  ended = h.ended;
}

-- The upward task has ended, and what it has sent is still a first part.
up_ended :
    (s : State) (up down : List Packet)
    → s.up_running ≡ false
    → s.cancelled ≡ true
    → (rest : List Packet) → up ≡ s.sent ++ rest
    → (down_rest : List Packet) → down ≡ s.delivered ++ down_rest
    → (s.down_running ≡ true → down_rest ≡ [])
    → IsInOrder s up down
up_ended s up down off done rest e down_rest f g = record {
  up_rest = rest;
  up_split = e;
  up_whole = λ r. absurd (true_ne_false r off);
  down_rest = down_rest;
  down_split = f;
  down_whole = g;
  ended = λ k. absurd (true_ne_false done k);
}

send_up_lem :
    (s : State) (now : ℕ) (p : Packet) (rest : List Packet) (took : Option ℕ)
    (up down : List Packet)
    → s.queue ≡ p ∷ rest
    → s.up_running ≡ true
    → IsInOrder s up down
    → IsInOrder (send_up s now p rest took) up down
unfolding send_up
send_up_lem s now p rest none up down q r h =
    up_ended (send_up s now p rest none) up down refl refl h.up_rest h.up_split h.down_rest
      h.down_split h.down_whole
send_up_lem s now p rest (some n) up down q r h = record {
  up_rest = rest;
  up_split =
      h.up_split
      ∙ ap (λ x. s.sent ++ x) (h.up_whole r ∙ q)
      ∙ sym (append_assoc s.sent (p ∷ []) rest);
  up_whole = λ z. refl;
  down_rest = h.down_rest;
  down_split = h.down_split;
  down_whole = h.down_whole;
  ended = h.ended;
}

take_up_lem :
    (s : State) (now : ℕ) (took : Option ℕ) (queue : List Packet) (open_end : Bool)
    (up down : List Packet)
    → s.queue ≡ queue
    → s.up_running ≡ true
    → IsInOrder s up down
    → IsInOrder (take_up s now took queue open_end) up down
unfolding take_up
take_up_lem s now took (p ∷ rest) open_end up down q r h =
    send_up_lem s now p rest took up down q r h
take_up_lem s now took [] true up down q r h = h
take_up_lem s now took [] false up down q r h =
    up_ended (take_up s now took [] false) up down refl refl h.up_rest h.up_split h.down_rest
      h.down_split h.down_whole

pub turn_up_lem :
    (s : State) (running stop : Bool) (now : ℕ) (took : Option ℕ) (up down : List Packet)
    → s.up_running ≡ running
    → IsInOrder s up down
    → IsInOrder (turn_up s running stop now took) up down
unfolding turn_up
turn_up_lem s false stop now took up down r h = h
turn_up_lem s true true now took up down r h =
    up_ended (turn_up s true true now took) up down refl refl h.up_rest h.up_split h.down_rest
      h.down_split h.down_whole
turn_up_lem s true false now took up down r h =
    take_up_lem s now took s.queue s.open_end up down refl r h

down_ended :
    (s : State) (up down : List Packet)
    → s.down_running ≡ false
    → s.cancelled ≡ true
    → (up_rest : List Packet) → up ≡ s.sent ++ up_rest
    → (s.up_running ≡ true → up_rest ≡ s.queue)
    → (rest : List Packet) → down ≡ s.delivered ++ rest
    → IsInOrder s up down
down_ended s up down off done up_rest f g rest e = record {
  up_rest = up_rest;
  up_split = f;
  up_whole = g;
  down_rest = rest;
  down_split = e;
  down_whole = λ r. absurd (true_ne_false r off);
  ended = λ k. absurd (true_ne_false done k);
}

pub turn_down_lem :
    (s : State) (running stop : Bool) (now : ℕ) (r : Received) (up down : List Packet)
    → s.down_running ≡ running
    → IsInOrder s up down
    → IsInOrder (turn_down s running stop now r) up (down ++ read_by running stop r)
unfolding turn_down send_down
turn_down_lem s false stop now r up down q h = subst (IsInOrder s up) (sym (append-nil down)) h
turn_down_lem s true true now r up down q h =
    down_ended (turn_down s true true now r) up (down ++ []) refl refl h.up_rest h.up_split
      h.up_whole h.down_rest (append-nil down ∙ h.down_split)
turn_down_lem s true false now broken up down q h =
    down_ended (send_down s now broken) up (down ++ []) refl refl h.up_rest h.up_split h.up_whole
      h.down_rest (append-nil down ∙ h.down_split)
turn_down_lem s true false now (received p none) up down q h =
    down_ended (send_down s now (received p none)) up (down ++ p ∷ []) refl refl h.up_rest
      h.up_split h.up_whole (h.down_rest ++ p ∷ [])
      (longer down s.delivered h.down_rest (p ∷ []) h.down_split)
turn_down_lem s true false now (received p (some n)) up down q h = record {
  up_rest = h.up_rest;
  up_split = h.up_split;
  up_whole = h.up_whole;
  down_rest = [];
  down_split =
      ap (λ x. x ++ p ∷ [])
        (h.down_split ∙ ap (λ x. s.delivered ++ x) (h.down_whole q) ∙ append-nil s.delivered)
      ∙ sym (append-nil (s.delivered ++ p ∷ []));
  down_whole = λ z. refl;
  ended = h.ended;
}
