-- ===== src/SocketOpts/Tests.antt =====
-- The options at a concrete configuration.
use oxiduct.Base.{◌≡◌, ◌≤◌, ◌↔◌, arith, refl, false, [], ◌∷◌, none, some, All}
use oxiduct.Text.{codes, rsplit_once, parse_u16}
use oxiduct.Config.{ProxyConfig, tcp, ok, validate, check_host_port}
use oxiduct.SocketOpts.{set_tcp_keepalive, set_tcp_user_timeout, apply_tcp}
use oxiduct.SocketOpts.Ranges.{IsTaken, apply_tcp-IsTaken_iff}

abbrev cfg : ProxyConfig
cfg = record {
  name = codes "mail";
  listen = codes "0.0.0.0:587";
  target = codes "192.0.2.1:587";
  protocol = tcp;
  connect_timeout_secs = 3;
  keepalive_idle_secs = 60;
  keepalive_interval_secs = 10;
  keepalive_retries = 0;
  user_timeout_ms = 90000;
  idle_timeout_secs = 300;
  half_close_timeout_secs = 30;
  max_connections = 2;
  max_per_ip = 0;
  proxy_protocol = false;
}

-- A knob at 0 is left to the system.
asked :
    apply_tcp cfg
    ≡ set_tcp_keepalive (record { time_secs = 60; interval_secs = some 10; retries = none })
      ∷ set_tcp_user_timeout 90000
      ∷ []
unfolding apply_tcp
asked = refl

apply_tcp-IsTaken_iff_example : All IsTaken (apply_tcp cfg) ↔ (cfg.user_timeout_ms ≤ 2147483647)
unfolding validate check_host_port rsplit_once parse_u16
apply_tcp-IsTaken_iff_example = apply_tcp-IsTaken_iff cfg refl

-- A user timeout of about 35 days is accepted, and refused by the kernel.
abbrev long : ProxyConfig
long = record cfg { user_timeout_ms = 3000000000 }

long_refused : (validate long ≡ ok tt) × ¬ (All IsTaken (apply_tcp long))
unfolding validate check_host_port rsplit_once parse_u16
long_refused = (refl, λ taken. ground (arith, (apply_tcp-IsTaken_iff long refl).0 taken))
