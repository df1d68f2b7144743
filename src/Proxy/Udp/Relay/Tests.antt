-- ===== src/Proxy/Udp/Relay/Tests.antt =====
-- The relay tasks of a UDP session at a concrete history.
use oxiduct.Base.{◌≡◌, refl, false, List, [], ◌∷◌, none, some}
use oxiduct.Proxy.Udp.Relay.{start, received, Event, enqueues, up_turn, down_turn, run}
use oxiduct.Proxy.Udp.Relay.Order.{IsInOrder}
use oxiduct.Proxy.Udp.Relay.Histories.{queued, read, run-start-IsInOrder}

-- Two packets go up; one comes down, and the second cannot be delivered.
abbrev history : List Event
history =
    enqueues (1 ∷ 2 ∷ [])
    ∷ enqueues (3 ∷ [])
    ∷ up_turn false 5 (some 2)
    ∷ down_turn false 6 (received (4 ∷ []) (some 1))
    ∷ up_turn false 7 (some 1)
    ∷ down_turn false 8 (received (5 ∷ []) none)
    ∷ up_turn false 9 (some 0)
    ∷ enqueues (6 ∷ [])
    ∷ []

passed_on :
    ((run (start 0) history).sent ≡ (1 ∷ 2 ∷ []) ∷ (3 ∷ []) ∷ [])
    × ((run (start 0) history).delivered ≡ (4 ∷ []) ∷ [])
    × ((run (start 0) history).bytes_up ≡ 1 ∷ 2 ∷ [])
    × ((run (start 0) history).up_running ≡ false)
unfolding run start
passed_on = (refl, refl, refl, refl)

run-start-IsInOrder_example :
    IsInOrder (run (start 0) history) (queued (start 0) history) (read (start 0) history)
run-start-IsInOrder_example = run-start-IsInOrder 0 history
