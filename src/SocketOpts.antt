-- ===== src/SocketOpts.antt =====
-- src/socket_opts.rs: the options that `apply_tcp` asks the kernel for. Whether the kernel takes one
-- is only logged, so the calls are what the function comes to. (Linux: the user timeout is there.)
pub mod Ranges
mod Tests
use oxiduct.Base.{ℕ, List, [], ◌∷◌, ◌++◌, Option, none, some, ltb, if◌then◌else◌}
use oxiduct.Config.{ProxyConfig}

-- `TcpKeepalive`: the parts that are not set are left to the system.
pub record TcpKeepalive : Type 0 where
  pub time_secs : ℕ
  pub interval_secs : Option ℕ
  pub retries : Option ℕ

pub data SocketCall : Type 0 where
  set_tcp_keepalive : TcpKeepalive → SocketCall
  set_tcp_user_timeout : (ms : ℕ) → SocketCall

-- A knob at 0 is off.
abbrev pub enabled : ℕ → Option ℕ
enabled n = if ltb 0 n then some n else none

unfoldable pub keepalive_calls : ProxyConfig → List SocketCall
keepalive_calls cfg =
    if ltb 0 cfg.keepalive_idle_secs
    then set_tcp_keepalive (record {
      time_secs = cfg.keepalive_idle_secs;
      interval_secs = enabled cfg.keepalive_interval_secs;
      retries = enabled cfg.keepalive_retries;
    })
      ∷ []
    else []

unfoldable pub apply_tcp : ProxyConfig → List SocketCall
unfolding keepalive_calls
apply_tcp cfg =
    keepalive_calls cfg
    ++ (if ltb 0 cfg.user_timeout_ms then set_tcp_user_timeout cfg.user_timeout_ms ∷ [] else [])
