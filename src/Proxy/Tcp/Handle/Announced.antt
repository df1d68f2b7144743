-- ===== src/Proxy/Tcp/Handle/Announced.antt =====
-- src/proxy/tcp.rs, `handle` with the PROXY protocol: what the target reads.
use mathlib.Core.Path.{subst}
use oxiduct.Base.{
  ℕ, ◌≡◌, refl, sym, ap, ◌∙◌, true, List, [], ◌++◌, Option, none, some, if◌then◌else◌, if_true,
}
use oxiduct.Net.{SocketAddr, IsSocketAddr, to_canonical}
use oxiduct.Config.{ProxyConfig}
use oxiduct.Proxy.ProxyProtocol.{v2_header}
use oxiduct.Proxy.ProxyProtocol.Decode.{Ends, decode, meant, decode-v2_header}
use oxiduct.Proxy.Tcp.Copy.{Copying}
use oxiduct.Proxy.Tcp.Copy.Stream.{Relayed}
use oxiduct.Proxy.Tcp.Watchdog.{Reason, both_eof}
use oxiduct.Proxy.Tcp.Relay
use oxiduct.Proxy.Tcp.Relay.{Relay, Side, returned, result, flow}
use oxiduct.Proxy.Tcp.Relay.Relaying.{run-start-IsRelaying}
use oxiduct.Proxy.Tcp.Relay.Closing.{run-Delivered, Delivered}
use oxiduct.Proxy.Tcp.Handle.{
  Connected, shut_down, connected, failed, timed_out, Written, cancelled, written, broken, Network,
  timeouts, with_relay, relayed, with_header, on_connect, handle, unwrap_or, to_target, up_sent,
}

-- The relay that `handle` runs.
abbrev pub relay_of : ProxyConfig → Network → Relay
relay_of cfg net = Relay.run (timeouts cfg) (Relay.start net.now) net.moves

-- Where a relay was started, it is the one of the schedule, behind a whole header.
with_relay_lem :
    (cfg : ProxyConfig) (header : List ℕ) (r : Relay) (o : Option (Reason × ℕ × ℕ))
    → ((with_relay cfg header r o).header ≡ header) × ((with_relay cfg header r o).relay ≡ some r)
unfolding with_relay
with_relay_lem cfg header r none = (refl, refl)
with_relay_lem cfg header r (some (reason, a, b)) = (refl, refl)

with_header_lem :
    (cfg : ProxyConfig) (net : Network) (header : List ℕ) (w : Written) (r : Relay)
    → (with_header cfg net header w).relay ≡ some r
    → ((with_header cfg net header w).header ≡ header) × (r ≡ relay_of cfg net)
unfolding with_header relayed
with_header_lem cfg net header cancelled r e = cc
with_header_lem cfg net header broken r e = cc
with_header_lem cfg net header written r e =
    let (h, k) = with_relay_lem cfg header (relay_of cfg net) (result (relay_of cfg net)) in (h, cc)

handle_lem :
    (cfg : ProxyConfig) (peer : SocketAddr) (net : Network) (c : Connected) (r : Relay)
    → cfg.proxy_protocol ≡ true
    → (on_connect cfg peer net c).relay ≡ some r
    → ((on_connect cfg peer net c).header ≡ v2_header peer (unwrap_or net.local_addr peer))
      × (r ≡ relay_of cfg net)
unfolding on_connect
handle_lem cfg peer net shut_down r on e = cc
handle_lem cfg peer net failed r on e = cc
handle_lem cfg peer net timed_out r on e = cc
handle_lem cfg peer net connected r on e =
    subst (λ h. (h.header ≡ header) × (r ≡ relay_of cfg net)) (sym taken)
      (with_header_lem cfg net header net.write_header r (subst (λ h. h.relay ≡ some r) taken e))
  where
    header : List ℕ
    header = v2_header peer (unwrap_or net.local_addr peer)

    taken :
        (if cfg.proxy_protocol
          then with_header cfg net header net.write_header
          else relayed cfg net [])
        ≡ with_header cfg net header net.write_header
    taken = if_true cfg.proxy_protocol _ _ on

-- What a task has sent is a first part of what it was given.
sent-given :
    (given : List ℕ) (c : Copying)
    → Relayed given c []
    → (unsent : List ℕ) × ((flow c).sent ++ unsent ≡ given)
sent-given given (Copying.running f) h = ([], h.0)
sent-given given (Copying.finished f end) h = (h.0, h.1)

-- The other end that the header names.
abbrev pub server_of : SocketAddr → Network → SocketAddr
server_of peer net = unwrap_or net.local_addr peer

abbrev pub ends_of : SocketAddr → Network → Ends
ends_of peer net =
    meant (to_canonical peer.ip) (to_canonical (server_of peer net).ip) peer.port
      (server_of peer net).port

-- A connection with the PROXY protocol on, whose relay was started, with its addresses in range.
module _ (cfg : ProxyConfig) (peer : SocketAddr) (net : Network) (r : Relay)
    (on : cfg.proxy_protocol ≡ true) (client : IsSocketAddr peer)
    (server : IsSocketAddr (server_of peer net))
    (started : (handle cfg peer net).relay ≡ some r) where
  facts :
      ((handle cfg peer net).header ≡ v2_header peer (server_of peer net)) × (r ≡ relay_of cfg net)
  unfolding handle
  facts = handle_lem cfg peer net net.connect r on started

  read :
      decode (to_target (handle cfg peer net))
      ≡ some (ends_of peer net, (flow r.up_side.copying).sent)
  read =
      ap (λ h. decode (h ++ up_sent (handle cfg peer net).relay)) facts.0
      ∙ ap (λ o. decode (v2_header peer (server_of peer net) ++ up_sent o)) started
      ∙ decode-v2_header peer (server_of peer net) (flow r.up_side.copying).sent client server

  -- The target reads from its connection the addresses of the client and of the socket that it
  -- connected to, as `decode-v2_header` says, and behind them a first part of the bytes that the
  -- client has given, and nothing else. (With the PROXY protocol on, the relay started, and the
  -- addresses in range.)
  pub decode-to_target :
      (payload unsent : List ℕ) × (decode (to_target (handle cfg peer net))
        ≡ some (ends_of peer net, payload))
      × (payload ++ unsent ≡ r.up_side.given)
  decode-to_target =
      let v = run-start-IsRelaying (timeouts cfg) net.now net.moves in
      let (unsent, split) = sent-given r.up_side.given r.up_side.copying (
        subst (λ x. Relayed x.up_side.given x.up_side.copying []) (sym facts.1)
          v.up_side.relayed) in
      ((flow r.up_side.copying).sent, unsent, read, split)

  -- When the connection then closes with the reason "eof", the target has read all bytes that the
  -- client has given, behind the addresses. (With the PROXY protocol on, the relay started, and the
  -- addresses in range.)
  pub decode-to_target_eof :
      r.watch ≡ returned both_eof
      → decode (to_target (handle cfg peer net)) ≡ some (ends_of peer net, r.up_side.given)
  decode-to_target_eof closed =
      let delivered : Delivered r.up_side =
        subst (λ x. Delivered x.up_side) (sym facts.1)
          (run-Delivered (timeouts cfg) net.now net.moves
            (ap (λ x. x.watch) (sym facts.1) ∙ closed)).0 in
      read
      ∙ ap (λ x. some (ends_of peer net, x)) (ap (λ c. (flow c).sent) delivered.1 ∙ delivered.2)
