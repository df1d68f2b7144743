-- ===== src/Proxy/Tcp/Active/Tests.antt =====
-- The accept loop with its connection tasks at concrete histories.
use mathlib.Core.List.{lookup}
use oxiduct.Base.{◌+◌, ◌≤◌, ◌≡◌, refl, List, [], ◌∷◌, none, length, ℕ_discrete}
use oxiduct.Base.Map.{insert, remove}
use oxiduct.Net.{IpAddr-discrete}
use oxiduct.Limits
use oxiduct.Proxy.Tcp.Copy.{pass}
use oxiduct.Proxy.Tcp.Watchdog.{check, react}
use oxiduct.Proxy.Tcp.Relay
use oxiduct.Proxy.Tcp.Relay.Tests.{exchange}
use oxiduct.Proxy.Tcp.Handle.{Network, connected, written, handle}
use oxiduct.Proxy.Tcp.Handle.Accounts.{tally}
use oxiduct.Proxy.Tcp.Serve
use oxiduct.Proxy.Tcp.Serve.{returned}
use oxiduct.Proxy.Tcp.Serve.Tests.{cfg, client}
use oxiduct.Proxy.Tcp.Active.{Event, accepts, calls, ends, stops, joins, returns, start, run}
use oxiduct.Proxy.Tcp.Active.Gauge.{run-start-gauge}

abbrev net : Network
net = record {
  connect = connected;
  local_addr = none;
  write_header = written;
  taken = 0;
  now = 0;
  moves = exchange;
}

-- A connection whose task ends after the stop; its five calls are three before it and two after.
abbrev served : List Event
served =
    accepts client net
    ∷ calls 0
    ∷ calls 0
    ∷ calls 0
    ∷ stops
    ∷ ends 0
    ∷ calls 0
    ∷ calls 0
    ∷ ends 0
    ∷ joins 0
    ∷ returns
    ∷ []

loops : Unit {0}
unfolding run start Serve.start Serve.step Limits.new Limits.try_acquire Limits.drop
    Limits.reached_90pct insert remove lookup IpAddr-discrete ℕ_discrete handle Relay.run
    Relay.start pass check react
loops = tt

served_metrics :
    tally (run cfg (start cfg 1) served).made
    ≡ record { failures = 0; timeouts = 0; incs = 1; decs = 1; closes = 1 }
unfolding loops
served_metrics = refl

run-start-gauge_example :
    let s = run cfg (start cfg 1) served in
    let c = tally s.made in
    (c.decs ≤ c.incs)
    × (c.incs ≤ c.decs + length s.serve.running)
    × (s.serve.stage ≡ returned → (c.incs ≡ c.decs) × (c.closes ≡ c.incs))
run-start-gauge_example = run-start-gauge cfg 1 served

served_stage : (run cfg (start cfg 1) served).serve.stage ≡ returned
unfolding loops
served_stage = refl
