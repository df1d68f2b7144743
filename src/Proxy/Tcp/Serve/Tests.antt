-- ===== src/Proxy/Tcp/Serve/Tests.antt =====
-- The accept loop at concrete histories.
use mathlib.Core.List.{lookup}
use oxiduct.Base.{
  ◌+◌, ◌≡◌, refl, inl, true, false, List, [], ◌∷◌, none, some, arith, length, ℕ_discrete,
}
use oxiduct.Base.Map.{insert, remove}
use oxiduct.Net.{IpAddr, SocketAddr, v4, IpAddr-discrete}
use oxiduct.Text.{codes}
use oxiduct.Limits
use oxiduct.Limits.{lookup_ip}
use oxiduct.Limits.Lifetimes
use oxiduct.Limits.Lifetimes.{Inv}
use oxiduct.Config.{ProxyConfig, tcp}
use oxiduct.Proxy.Dispatch.{limit_max_connections, limit_max_per_ip, tcp_listener, run_graceful}
use oxiduct.Proxy.Tcp.Serve.{
  Event, stops, accepts, joins, returns, ends, total, refused, joining, returned, start, run,
}
use oxiduct.Proxy.Tcp.Serve.Slots.{snapshot, history, snapshot-run, run-start-Inv}
use oxiduct.Proxy.Tcp.Serve.Joined.{is_past, run-past, run-returned, joinings, endings, run-endings}

abbrev pub cfg : ProxyConfig
cfg = record {
  name = codes "mail";
  listen = codes "0.0.0.0:587";
  target = codes "192.0.2.1:587";
  protocol = tcp;
  connect_timeout_secs = 3;
  keepalive_idle_secs = 60;
  keepalive_interval_secs = 10;
  keepalive_retries = 6;
  user_timeout_ms = 90000;
  idle_timeout_secs = 300;
  half_close_timeout_secs = 30;
  max_connections = 1;
  max_per_ip = 0;
  proxy_protocol = false;
}

abbrev pub client : SocketAddr
client = record { ip = v4 (record { a = 10; b = 0; c = 0; d = 1 }); port = 4000 }

-- A connection, a second one past the cap, and the stop while the first one runs.
abbrev stopped : List Event
stopped = accepts client ∷ accepts client ∷ stops ∷ []

abbrev finished : List Event
finished = accepts client ∷ accepts client ∷ stops ∷ ends 0 ∷ joins 0 ∷ returns ∷ []

loops : Unit {0}
unfolding run start Limits.new Limits.try_acquire Limits.drop Limits.reached_90pct insert remove
    lookup IpAddr-discrete ℕ_discrete
loops = tt

stopped_metrics : (run (start cfg 1) stopped).metrics ≡ refused Limits.total ∷ total ∷ []
unfolding loops
stopped_metrics = refl

-- The listener waits for the running task.
not_yet : (run (start cfg 1) (accepts client ∷ stops ∷ returns ∷ [])).stage ≡ joining
unfolding loops
not_yet = refl

snapshot-run_example :
    snapshot (run (start cfg 1) stopped)
    ≡ Lifetimes.run (snapshot (start cfg 1)) (history (start cfg 1) stopped)
snapshot-run_example = snapshot-run (start cfg 1) stopped

run-start-Inv_example : Inv (snapshot (run (start cfg 1) stopped))
run-start-Inv_example = run-start-Inv cfg 1 stopped (inl (omega arith))

stopped_accepts :
    (is_past (run (run (start cfg 1) stopped) (accepts client ∷ [])).stage ≡ true)
    × ((run (run (start cfg 1) stopped) (accepts client ∷ [])).metrics
        ≡ (run (start cfg 1) stopped).metrics)
    × ((run (run (start cfg 1) stopped) (accepts client ∷ [])).next_id
        ≡ (run (start cfg 1) stopped).next_id)
unfolding loops
stopped_accepts = run-past (run (start cfg 1) stopped) (accepts client ∷ []) refl

run-returned_example :
    ((run (start cfg 1) finished).running ≡ [])
    × ((run (start cfg 1) finished).ended ≡ [])
    × ((run (start cfg 1) finished).limits.state.total ≡ 0)
    × ((ip : IpAddr) → lookup_ip ip (run (start cfg 1) finished).limits.state.per_ip ≡ none)
unfolding loops
run-returned_example = run-returned cfg 1 finished (inl (omega arith)) refl

waited_for :
    (run (run (start cfg 1) stopped) (
      endings (run (start cfg 1) stopped).running (
        joinings (
          length (run (start cfg 1) stopped).ended
          + length (run (start cfg 1) stopped).running)))).stage
    ≡ returned
unfolding loops
waited_for = run-endings (run (start cfg 1) stopped) refl

dispatched :
    (run_graceful cfg (λ protocol address. true) 1 ≡ (
      limit_max_connections cfg.name cfg.max_connections
          ∷ limit_max_per_ip cfg.name cfg.max_per_ip
          ∷ [],
      some (tcp_listener (start cfg 1)),
    ))
    × ((run_graceful cfg (λ protocol address. false) 1).1 ≡ none)
dispatched = (refl, refl)
