-- ===== src/Proxy/Dispatch.antt =====
-- src/proxy/mod.rs, `run_graceful`: the gauges of the configured limits, and the listener that the
-- protocol chooses, at its start. Whether its address can be bound is an input.
use oxiduct.Base.{ℕ, Bool, List, [], ◌∷◌, Option, none, some, if◌then◌else◌}
use oxiduct.Text.{Text}
use oxiduct.Config.{Protocol, ProxyConfig, tcp, udp}
use oxiduct.Proxy.Tcp.Serve
use oxiduct.Proxy.Udp

pub data Gauge : Type 0 where
  limit_max_connections limit_max_per_ip : (proxy : Text) → ℕ → Gauge

pub data Listener : Type 0 where
  tcp_listener : Serve.State → Listener
  udp_listener : Udp.State → Listener

-- `run_graceful` of the two protocols: none is the error of an address that cannot be bound.
abbrev pub listener : ProxyConfig → Protocol → (binds : Bool) → (next_id : ℕ) → Option Listener
listener cfg tcp binds next_id =
    if binds then some (tcp_listener (Serve.start cfg next_id)) else none
listener cfg udp binds next_id = if binds then some (udp_listener (Udp.start cfg)) else none

abbrev pub run_graceful :
    ProxyConfig → (binds : Protocol → Text → Bool) → (next_id : ℕ) → List Gauge × Option Listener
run_graceful cfg binds next_id = (
  limit_max_connections cfg.name cfg.max_connections
      ∷ limit_max_per_ip cfg.name cfg.max_per_ip
      ∷ [],
  listener cfg cfg.protocol (binds cfg.protocol cfg.listen) next_id,
)
