-- ===== src/Proxy/Udp/Tests.antt =====
-- Histories of a UDP listener at concrete inputs.
use oxiduct.Base.{
  inl, ◌≡◌, ◌↔◌, refl, true, false, List, [], ◌∷◌, ◌++◌, ◌≤◌, ◌*◌, ◌-◌, ◌+◌, some, arith, length,
  ℕ_discrete,
}
use mathlib.Core.List.{lookup}
use oxiduct.Base.Map.{contains, insert, forget, remove}
use oxiduct.Net.{v4, SocketAddr, SocketAddr-discrete}
use oxiduct.Text.{codes}
use oxiduct.Limits
use oxiduct.Config.{ProxyConfig, udp}
use oxiduct.Proxy.Udp.{
  cancel_all, retain, force, State, Session, closed, error, shutdown, total, active, start, drained,
  fast_path,
}
use oxiduct.Proxy.Udp.Open.{
  Opening, cancelled, timed_out, no_address, Upstream, upstream, Network, unspecified,
  open_upstream, next_move, IsOpened, open_upstream_iff,
}
use oxiduct.Proxy.Udp.Steps.{
  set_phase, update_sessions, opens, tests, inserts, ends, Event, packet, marks, stops,
  ticks_sessions, ticks_pending, forces, shuts_down, setup, dies, cleans, run, advance,
  cleanup_wait,
}
use oxiduct.Proxy.Udp.Caps.{HasCaps}
use oxiduct.Proxy.Udp.Histories.{run-start-IsCounted}
use oxiduct.Proxy.Udp.Slots.{IsCounted}
use oxiduct.Proxy.Udp.Setups.{tasks, marked, tasks-run}
use oxiduct.Proxy.Udp.Cleanup.{cleanup_wait-le}
use oxiduct.Proxy.Udp.Replacement.{IsFresh}
use oxiduct.Proxy.Udp.Insertions.{overtakes, is_calm, run-start-IsFresh}
use oxiduct.Proxy.Udp.Accounts.{total_of, closed_of, gauge_of}
use oxiduct.Proxy.Udp.Balance.{run-start-IsAccounted}
use oxiduct.Proxy.Udp.Drain.{drain_tick, drain_tick_iff}

abbrev cfg : ProxyConfig
cfg = record {
  name = codes "dns";
  listen = codes "0.0.0.0:53";
  target = codes "192.0.2.1:53";
  protocol = udp;
  connect_timeout_secs = 3;
  keepalive_idle_secs = 60;
  keepalive_interval_secs = 10;
  keepalive_retries = 6;
  user_timeout_ms = 90000;
  idle_timeout_secs = 300;
  half_close_timeout_secs = 30;
  max_connections = 2;
  max_per_ip = 0;
  proxy_protocol = false;
}

abbrev client : SocketAddr
client = record { ip = v4 (record { a = 10; b = 0; c = 0; d = 1 }); port = 4000 }

-- A first packet, up to the insertion of its session.
abbrev opening_up : List Event
opening_up = packet 0 client (1 ∷ []) ∷ marks ∷ setup 0 (opens 1) ∷ setup 0 tests ∷ []

abbrev inserting : List Event
inserting = setup 0 inserts ∷ setup 0 ends ∷ []

abbrev after : List Event → State
after evs = run cfg.idle_timeout_secs (start cfg) evs

histories : Unit {0}
unfolding run start fast_path advance contains SocketAddr-discrete ℕ_discrete Limits.try_acquire
    Limits.new Limits.drop Limits.reached_90pct lookup set_phase update_sessions insert forget
    remove cancel_all retain overtakes is_calm
histories = tt

one_session :
    ((after (opening_up ++ inserting)).metrics ≡ active 1 ∷ total ∷ [])
    × ((after (opening_up ++ inserting)).limits.state.total ≡ 1)
unfolding histories
one_session = (refl, refl)

-- A dead session is evicted by the next packet, which opens a new one.
re_created :
    (after (opening_up ++ inserting ++ dies 0 ∷ packet 9 client [] ∷ marks ∷ [])).metrics
    ≡ active 0 ∷ closed error 1 ∷ active 1 ∷ total ∷ []
unfolding histories
re_created = refl

-- A second packet looks its source up before the insertion, and marks it after: two sessions are
-- counted for one source, and the second replaces the first.
lookup_overtaken :
    (after (
      opening_up
      ++ packet 2 client [] ∷ inserting
      ++ marks ∷ setup 0 (opens 3) ∷ setup 0 tests ∷ inserting)).metrics
    ≡ active 1 ∷ total ∷ active 1 ∷ total ∷ []
unfolding histories
lookup_overtaken = refl

-- A session is inserted between the two tests of a drain tick: the listener leaves with it.
drain_overtaken :
    ((after (opening_up ++ stops ∷ ticks_sessions ∷ inserting ++ ticks_pending ∷ [])).listener
      ≡ drained)
    × (length
          (after (opening_up ++ stops ∷ ticks_sessions ∷ inserting ++ ticks_pending ∷ [])).sessions
        ≡ 1)
unfolding histories
drain_overtaken = (refl, refl)

-- A setup past its test of the forced shutdown inserts after the listener has shut down.
shutdown_overtaken :
    (after (opening_up ++ shuts_down ∷ forces ∷ inserting)).metrics
    ≡ active 1 ∷ total ∷ active 0 ∷ closed shutdown 0 ∷ []
unfolding histories
shutdown_overtaken = refl

-- The cleanup task, already past its wait, runs after the listener has shut its sessions: it counts
-- them as closed once more.
closed_twice :
    (after (opening_up ++ inserting ++ shuts_down ∷ forces ∷ cleans 3 ∷ [])).metrics
    ≡ active 0 ∷ closed error 1 ∷ active 0 ∷ closed shutdown 1 ∷ active 1 ∷ total ∷ []
unfolding histories
closed_twice = refl

run-start-IsCounted_example :
    IsCounted (run cfg.idle_timeout_secs (start cfg) (opening_up ++ inserting))
    × HasCaps cfg (run cfg.idle_timeout_secs (start cfg) (opening_up ++ inserting))
run-start-IsCounted_example =
    run-start-IsCounted cfg (opening_up ++ inserting) (inl (omega arith, omega arith))

one_setup :
    tasks client (run cfg.idle_timeout_secs (start cfg) opening_up).setups
    ≡ marked (
        contains SocketAddr-discrete client
          (run cfg.idle_timeout_secs (start cfg) opening_up).pending)
one_setup = tasks-run cfg opening_up client

drain_tick_iff_example :
    ((drain_tick cfg.idle_timeout_secs
        (run cfg.idle_timeout_secs (start cfg) (stops ∷ []))).listener
      ≡ drained)
    ↔ (((run cfg.idle_timeout_secs (start cfg) (stops ∷ [])).draining ≡ true)
        × ((run cfg.idle_timeout_secs (start cfg) (stops ∷ [])).sessions ≡ [])
        × ((run cfg.idle_timeout_secs (start cfg) (stops ∷ [])).setups ≡ []))
unfolding histories
drain_tick_iff_example = drain_tick_iff cfg (stops ∷ []) refl

abbrev resting : Session
resting = record {
  id = 0;
  tx = [];
  last_activity = 1000;
  cancelled = false;
  slot = record { src_ip = client.ip };
}

cleanup_wait-le_example :
    (cleanup_wait 300 2000 ((client, resting) ∷ []) ≤ 5000)
    × (cleanup_wait 300 2000 ((client, resting) ∷ []) ≤ 1000 + 300 * 1000 - 2000)
unfolding histories
cleanup_wait-le_example =
    cleanup_wait-le 300 2000 ((client, resting) ∷ []) client resting (omega arith) refl

run-start-IsFresh_example :
    IsFresh (run cfg.idle_timeout_secs (start cfg) (opening_up ++ inserting))
unfolding histories
run-start-IsFresh_example = run-start-IsFresh cfg (opening_up ++ inserting) refl

run-start-IsAccounted_example :
    let s = run cfg.idle_timeout_secs (start cfg) (opening_up ++ inserting) in
    (total_of s.metrics ≡ closed_of s.metrics + length s.sessions)
    × (gauge_of s.metrics ≡ length s.sessions)
    × (total_of (force s).metrics ≡ closed_of (force s).metrics)
    × (gauge_of (force s).metrics ≡ 0)
unfolding histories
run-start-IsAccounted_example = run-start-IsAccounted cfg (opening_up ++ inserting) refl (λ e. cc)

-- The history above is not calm.
overtaken :
    is_calm cfg.idle_timeout_secs (start cfg) (opening_up ++ packet 2 client [] ∷ inserting) ≡ false
unfolding histories
overtaken = refl

abbrev target : SocketAddr
target = record { ip = v4 (record { a = 192; b = 0; c = 2; d = 1 }); port = 53 }

-- A network that resolves the target, and binds and connects every address.
abbrev net : Network
net = record {
  addresses = some (target ∷ []);
  binds = λ local. true;
  connects = λ local peer. true;
  done_after = 3000;
  shutdown_after = some 3001;
}

abbrev socket : Upstream
socket = record { local = unspecified target.ip; target = target }

open_upstream_ends :
    (open_upstream cfg (record net { done_after = 3001 }) ≡ Opening.error timed_out)
    × (open_upstream cfg (record net { shutdown_after = some 3000 }) ≡ Opening.error cancelled)
    × (open_upstream cfg (record net { addresses = some [] }) ≡ Opening.error no_address)
    × (next_move 7 (open_upstream cfg net) ≡ opens 7)
unfolding open_upstream
open_upstream_ends = (refl, refl, refl, refl)

open_upstream_iff_example : (open_upstream cfg net ≡ upstream socket) ↔ IsOpened cfg net socket
open_upstream_iff_example = open_upstream_iff cfg net socket
