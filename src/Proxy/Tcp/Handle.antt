-- ===== src/Proxy/Tcp/Handle.antt =====
-- src/proxy/tcp.rs, `handle`: one accepted connection, from the connect to the target to the end of
-- the relay. What the network does comes from the environment.
pub mod Accounts
pub mod Announced
mod Tests
use oxiduct.Base.{
  ℕ, Bool, true, false, List, [], ◌∷◌, ◌++◌, Option, none, some, if◌then◌else◌, take,
}
use oxiduct.Net.{SocketAddr}
use oxiduct.Config.{ProxyConfig}
use oxiduct.SocketOpts.{SocketCall, apply_tcp}
use oxiduct.Proxy.ProxyProtocol.{v2_header}
use oxiduct.Proxy.Tcp.Watchdog.{Reason, Timeouts}
use oxiduct.Proxy.Tcp.Relay
use oxiduct.Proxy.Tcp.Relay.{Relay, Move, result, flow}

pub data Peer : Type 0 where
  inbound outbound : Peer

-- The connect to the target, under the shutdown and the timeout.
pub data Connected : Type 0 where
  shut_down connected failed timed_out : Connected

-- The write of the header, under the shutdown.
pub data Written : Type 0 where
  cancelled written broken : Written

pub record Network : Type 0 where
  pub connect : Connected
  pub local_addr : Option SocketAddr
  pub write_header : Written
  -- How many bytes of the header the target takes when the write is cancelled or breaks.
  pub taken : ℕ
  -- The clock at the relay's start, and the schedule of its tasks.
  pub now : ℕ
  pub moves : List Move

-- The socket options and the metrics, in the order of the calls.
pub data Effect : Type 0 where
  applied : Peer → List SocketCall → Effect
  connect_failure connect_timeout : Effect
  active_inc active_dec : Effect
  connection_closed : Reason → Effect

pub record Handled : Type 0 where
  pub effects : List Effect
  -- The bytes of the header that the target has taken, and the relay, if it was started.
  pub header : List ℕ
  pub relay : Option Relay
  -- Whether `handle` has returned.
  pub over : Bool

abbrev pub timeouts : ProxyConfig → Timeouts
timeouts cfg = record {
  idle_secs = cfg.idle_timeout_secs;
  half_close_secs = cfg.half_close_timeout_secs;
}

abbrev pub prepared : ProxyConfig → List Effect
prepared cfg = applied inbound (apply_tcp cfg) ∷ applied outbound (apply_tcp cfg) ∷ []

-- The relay with its gauge, by what `relay` returns, if it does.
unfoldable pub with_relay : ProxyConfig → List ℕ → Relay → Option (Reason × ℕ × ℕ) → Handled
with_relay cfg header r none = record {
  effects = prepared cfg ++ active_inc ∷ [];
  header = header;
  relay = some r;
  over = false;
}
with_relay cfg header r (some (reason, up_total, down_total)) = record {
  effects = prepared cfg ++ active_inc ∷ connection_closed reason ∷ active_dec ∷ [];
  header = header;
  relay = some r;
  over = true;
}

unfoldable pub relayed : ProxyConfig → Network → List ℕ → Handled
unfolding with_relay
relayed cfg net header =
    let r = Relay.run (timeouts cfg) (Relay.start net.now) net.moves in
    with_relay cfg header r (result r)

-- `handle` returns before the relay.
abbrev pub given_up : List Effect → List ℕ → Handled
given_up effects header = record { effects = effects; header = header; relay = none; over = true }

unfoldable pub with_header : ProxyConfig → Network → List ℕ → Written → Handled
unfolding relayed
with_header cfg net header cancelled = given_up (prepared cfg) (take net.taken header)
with_header cfg net header broken =
    given_up (prepared cfg ++ connect_failure ∷ []) (take net.taken header)
with_header cfg net header written = relayed cfg net header

abbrev pub unwrap_or : Option SocketAddr → SocketAddr → SocketAddr
unwrap_or none d = d
unwrap_or (some a) d = a

unfoldable pub on_connect : ProxyConfig → SocketAddr → Network → Connected → Handled
unfolding with_header
on_connect cfg peer net shut_down = given_up (applied inbound (apply_tcp cfg) ∷ []) []
on_connect cfg peer net failed =
    given_up (applied inbound (apply_tcp cfg) ∷ connect_failure ∷ []) []
on_connect cfg peer net timed_out =
    given_up (applied inbound (apply_tcp cfg) ∷ connect_timeout ∷ []) []
on_connect cfg peer net connected =
    if cfg.proxy_protocol
    then with_header cfg net (v2_header peer (unwrap_or net.local_addr peer)) net.write_header
    else relayed cfg net []

unfoldable pub handle : ProxyConfig → SocketAddr → Network → Handled
unfolding on_connect
handle cfg peer net = on_connect cfg peer net net.connect

-- All bytes that the target has taken from the proxy, in order.
abbrev pub up_sent : Option Relay → List ℕ
up_sent none = []
up_sent (some r) = (flow r.up_side.copying).sent

abbrev pub to_target : Handled → List ℕ
to_target h = h.header ++ up_sent h.relay
