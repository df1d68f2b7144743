-- ===== src/Proxy/Udp/Relay/Histories.antt =====
-- src/proxy/udp.rs: the relay tasks of a session over a whole history.
use mathlib.Core.List.{append_assoc, append-nil}
use mathlib.Core.Path.{subst}
use oxiduct.Base.{ℕ, refl, sym, true, false, ◌||◌, List, [], ◌∷◌, ◌++◌}
use oxiduct.Proxy.Udp.{Packet}
use oxiduct.Proxy.Udp.Relay.{
  State, start, Event, enqueues, cancels, drops, up_turn, down_turn, has_room, turn_up, step, run,
}
use oxiduct.Proxy.Udp.Relay.Order.{
  queued_at, read_at, IsInOrder, same, enqueue_lem, turn_up_lem, turn_down_lem, true_ne_false,
}

-- All packets that the channel has taken over a history, and all that the upstream socket has given.
unfoldable pub queued : State → List Event → List Packet
queued s [] = []
queued s (e ∷ es) = queued_at s e ++ queued (step s e) es

unfoldable pub read : State → List Event → List Packet
read s [] = []
read s (e ∷ es) = read_at s e ++ read (step s e) es

step_lem :
    (s : State) (e : Event) (up down : List Packet)
    → IsInOrder s up down
    → IsInOrder (step s e) (up ++ queued_at s e) (down ++ read_at s e)
unfolding step
step_lem s (enqueues p) up down h = enqueue_lem s p (has_room s) up down h
step_lem s cancels up down h =
    same (record s { cancelled = true }) up down
      (record {
        up_rest = h.up_rest;
        up_split = h.up_split;
        up_whole = h.up_whole;
        down_rest = h.down_rest;
        down_split = h.down_split;
        down_whole = h.down_whole;
        ended = λ k. absurd (true_ne_false refl k);
      })
step_lem s drops up down h =
    same (record s { open_end = false }) up down
      (record {
        up_rest = h.up_rest;
        up_split = h.up_split;
        up_whole = h.up_whole;
        down_rest = h.down_rest;
        down_split = h.down_split;
        down_whole = h.down_whole;
        ended = h.ended;
      })
step_lem s (up_turn stop now took) up down h =
    let next = turn_up s s.up_running (stop || s.cancelled) now took in
    same next up down (turn_up_lem s s.up_running (stop || s.cancelled) now took up down refl h)
step_lem s (down_turn stop now r) up down h =
    subst
      (λ x. IsInOrder (step s (down_turn stop now r)) x (down ++ read_at s (down_turn stop now r)))
      (sym (append-nil up))
      (turn_down_lem s s.down_running (stop || s.cancelled) now r up down refl h)

run_from :
    (s : State) (es : List Event) (up down : List Packet)
    → IsInOrder s up down
    → IsInOrder (run s es) (up ++ queued s es) (down ++ read s es)
unfolding run queued read
run_from s [] up down h = same s up down h
run_from s (e ∷ es) up down h =
    subst (λ x. IsInOrder (run (step s e) es) x (down ++ (read_at s e ++ read (step s e) es)))
      (append_assoc up (queued_at s e) (queued (step s e) es))
      (subst (IsInOrder (run (step s e) es) ((up ++ queued_at s e) ++ queued (step s e) es))
        (append_assoc down (read_at s e) (read (step s e) es))
        (run_from (step s e) es (up ++ queued_at s e) (down ++ read_at s e)
          (step_lem s e up down h)))

-- Over any history of a session, the upstream socket has taken a first part of the packets that
-- entered the channel, in order and as they were, and the client's socket a first part of those
-- that the upstream socket gave. While the upward task runs, the rest is what is in the channel;
-- while the downward one runs, there is none. A session with an ended task is cancelled.
pub run-start-IsInOrder :
    (now : ℕ) (es : List Event)
    → IsInOrder (run (start now) es) (queued (start now) es) (read (start now) es)
unfolding start
run-start-IsInOrder now es = run_from (start now) es [] [] (record {
  up_rest = [];
  up_split = refl;
  up_whole = λ r. refl;
  down_rest = [];
  down_split = refl;
  down_whole = λ r. refl;
  ended = λ k. (refl, refl);
})
