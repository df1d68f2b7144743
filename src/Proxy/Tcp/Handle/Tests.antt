-- ===== src/Proxy/Tcp/Handle/Tests.antt =====
-- One connection at concrete inputs.
use oxiduct.Base.{ℕ, ◌≡◌, refl, true, List, [], ◌∷◌, ◌++◌, some, arith}
use oxiduct.Net.{SocketAddr, v4, IsSocketAddr}
use oxiduct.Text.{codes}
use oxiduct.Config.{ProxyConfig, tcp}
use oxiduct.SocketOpts.{apply_tcp}
use oxiduct.Proxy.ProxyProtocol.{v2_header}
use oxiduct.Proxy.ProxyProtocol.Decode.{decode}
use oxiduct.Proxy.Tcp.Copy.{pass}
use oxiduct.Proxy.Tcp.Watchdog.{both_eof, check, react}
use oxiduct.Proxy.Tcp.Relay
use oxiduct.Proxy.Tcp.Relay.{Relay}
use oxiduct.Proxy.Tcp.Relay.Tests.{exchange}
use oxiduct.Proxy.Tcp.Handle.{
  Network, connected, written, broken, inbound, outbound, applied, active_inc, active_dec,
  connection_closed, handle, to_target,
}
use oxiduct.Proxy.Tcp.Handle.Accounts.{IsBalanced, handle-IsBalanced}
use oxiduct.Proxy.Tcp.Handle.Announced.{relay_of, ends_of, decode-to_target, decode-to_target_eof}

abbrev cfg : ProxyConfig
cfg = record {
  name = codes "mail";
  listen = codes "0.0.0.0:587";
  target = codes "192.0.2.1:587";
  protocol = tcp;
  connect_timeout_secs = 3;
  keepalive_idle_secs = 60;
  keepalive_interval_secs = 10;
  keepalive_retries = 0;
  user_timeout_ms = 90000;
  idle_timeout_secs = 300;
  half_close_timeout_secs = 30;
  max_connections = 2;
  max_per_ip = 0;
  proxy_protocol = true;
}

abbrev client : SocketAddr
client = record { ip = v4 (record { a = 10; b = 0; c = 0; d = 1 }); port = 4000 }

abbrev server : SocketAddr
server = record { ip = v4 (record { a = 192; b = 0; c = 2; d = 9 }); port = 587 }

abbrev net : Network
net = record {
  connect = connected;
  local_addr = some server;
  write_header = written;
  taken = 0;
  now = 0;
  moves = exchange;
}

abbrev refused : Network
refused = record net { write_header = broken; taken = 3 }

connections : Unit {0}
unfolding handle Relay.run Relay.start pass check react
connections = tt

exchange_effects :
    (handle cfg client net).effects
    ≡ applied inbound (apply_tcp cfg)
      ∷ applied outbound (apply_tcp cfg)
      ∷ active_inc
      ∷ connection_closed both_eof
      ∷ active_dec
      ∷ []
unfolding connections
exchange_effects = refl

refused_header : to_target (handle cfg client refused) ≡ 13 ∷ 10 ∷ 13 ∷ []
unfolding connections v2_header
refused_header = refl

handle-IsBalanced_example : IsBalanced (handle cfg client net)
handle-IsBalanced_example = handle-IsBalanced cfg client net

client-IsSocketAddr : IsSocketAddr client
client-IsSocketAddr = omega arith

server-IsSocketAddr : IsSocketAddr server
server-IsSocketAddr = omega arith

exchange_read :
    (payload unsent : List ℕ) × (decode (to_target (handle cfg client net))
      ≡ some (ends_of client net, payload))
    × (payload ++ unsent ≡ (relay_of cfg net).up_side.given)
unfolding connections
exchange_read =
    decode-to_target cfg client net (relay_of cfg net) refl client-IsSocketAddr server-IsSocketAddr
      refl

decode-to_target_eof_example :
    decode (to_target (handle cfg client net)) ≡ some (ends_of client net, 104 ∷ 105 ∷ [])
unfolding connections
decode-to_target_eof_example =
    decode-to_target_eof cfg client net (relay_of cfg net) refl client-IsSocketAddr
      server-IsSocketAddr refl refl
