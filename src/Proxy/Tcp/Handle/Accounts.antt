-- ===== src/Proxy/Tcp/Handle/Accounts.antt =====
-- src/proxy/tcp.rs, `handle`: the metrics of one connection, on each of its paths.
use oxiduct.Base.{ℕ, ◌+◌, ◌≤◌, ◌≡◌, true, false, List, [], ◌∷◌, Option, none, some, arith, if_cases}
use oxiduct.Net.{SocketAddr}
use oxiduct.Config.{ProxyConfig}
use oxiduct.Proxy.Tcp.Watchdog.{Reason}
use oxiduct.Proxy.Tcp.Relay.{Relay}
use oxiduct.Proxy.Tcp.Handle.{
  Connected, shut_down, connected, failed, timed_out, Written, cancelled, written, broken, Network,
  Effect, applied, connect_failure, connect_timeout, active_inc, active_dec, connection_closed,
  Handled, with_relay, relayed, with_header, on_connect, handle,
}

-- How often each metric is counted.
pub record Tally : Type 0 where
  pub failures : ℕ
  pub timeouts : ℕ
  pub incs : ℕ
  pub decs : ℕ
  pub closes : ℕ

abbrev pub tally : List Effect → Tally
tally [] = record { failures = 0; timeouts = 0; incs = 0; decs = 0; closes = 0 }
tally (applied p calls ∷ es) = tally es
tally (connect_failure ∷ es) = let c = tally es in record c { failures = c.failures + 1 }
tally (connect_timeout ∷ es) = let c = tally es in record c { timeouts = c.timeouts + 1 }
tally (active_inc ∷ es) = let c = tally es in record c { incs = c.incs + 1 }
tally (active_dec ∷ es) = let c = tally es in record c { decs = c.decs + 1 }
tally (connection_closed reason ∷ es) = let c = tally es in record c { closes = c.closes + 1 }

-- Whether the relay was started.
abbrev pub started : Option Relay → ℕ
started none = 0
started (some r) = 1

-- A relay that was started is counted as active until `handle` returns, and then as closed once; a
-- connection without one counts at most one failure or timeout.
pub record IsBalanced (h : Handled) : Type 0 where
  pub active : (tally h.effects).incs ≡ started h.relay
  pub inactive : h.over ≡ true → (tally h.effects).decs ≡ started h.relay
  pub still_active : h.over ≡ false → ((tally h.effects).decs ≡ 0) × (started h.relay ≡ 1)
  pub closed : (tally h.effects).closes ≡ (tally h.effects).decs
  pub failed : (tally h.effects).failures + (tally h.effects).timeouts + started h.relay ≤ 1

with_relay-IsBalanced :
    (cfg : ProxyConfig) (header : List ℕ) (r : Relay) (o : Option (Reason × ℕ × ℕ))
    → IsBalanced (with_relay cfg header r o)
unfolding with_relay
with_relay-IsBalanced cfg header r none = ground arith
with_relay-IsBalanced cfg header r (some (reason, up_total, down_total)) = ground arith

with_header-IsBalanced :
    (cfg : ProxyConfig) (net : Network) (header : List ℕ) (w : Written)
    → IsBalanced (with_header cfg net header w)
unfolding with_header relayed
with_header-IsBalanced cfg net header cancelled = ground arith
with_header-IsBalanced cfg net header broken = ground arith
with_header-IsBalanced cfg net header written = with_relay-IsBalanced cfg header _ _

on_connect-IsBalanced :
    (cfg : ProxyConfig) (peer : SocketAddr) (net : Network) (c : Connected)
    → IsBalanced (on_connect cfg peer net c)
unfolding on_connect relayed
on_connect-IsBalanced cfg peer net shut_down = ground arith
on_connect-IsBalanced cfg peer net failed = ground arith
on_connect-IsBalanced cfg peer net timed_out = ground arith
on_connect-IsBalanced cfg peer net connected =
    if_cases IsBalanced cfg.proxy_protocol _ _ (with_header-IsBalanced cfg net _ net.write_header)
      (with_relay-IsBalanced cfg [] _ _)

-- Whatever the network does, a connection whose relay was started is counted as active once, and as
-- inactive and as closed once when `handle` returns and not before; one whose relay was not started
-- is counted as none of these; and at most one of a connect failure, a connect timeout and a relay
-- happens.
pub handle-IsBalanced :
    (cfg : ProxyConfig) (peer : SocketAddr) (net : Network) → IsBalanced (handle cfg peer net)
unfolding handle
handle-IsBalanced cfg peer net = on_connect-IsBalanced cfg peer net net.connect
