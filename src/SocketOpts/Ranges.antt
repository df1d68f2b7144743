-- ===== src/SocketOpts/Ranges.antt =====
-- src/socket_opts.rs after src/config.rs: which options of a validated proxy Linux takes.
use oxiduct.Base.{ℕ, ◌≤◌, ◌≡◌, ◌↔◌, Option, none, some, arith, All}
use oxiduct.Config.{ProxyConfig, ok, validate}
use oxiduct.Config.Valid.{validate_iff}
use oxiduct.SocketOpts.{SocketCall, set_tcp_keepalive, set_tcp_user_timeout, apply_tcp}

abbrev pub Within : ℕ → Option ℕ → Type 0
Within max none = Unit
Within max (some n) = (1 ≤ n) × (n ≤ max)

-- The ranges of tcp(7): TCP_KEEPIDLE and TCP_KEEPINTVL in 1..32767, TCP_KEEPCNT in 1..127, and
-- TCP_USER_TIMEOUT no negative `int`, here on.
abbrev pub IsTaken : SocketCall → Type 0
IsTaken (set_tcp_keepalive ka) =
    Within 32767 (some ka.time_secs) × Within 32767 ka.interval_secs × Within 127 ka.retries
IsTaken (set_tcp_user_timeout ms) = Within 2147483647 (some ms)

-- The options of a validated proxy are all in the ranges that the kernel takes exactly if its user
-- timeout is at most 2^31 - 1 ms, which the validation does not test.
pub apply_tcp-IsTaken_iff :
    (cfg : ProxyConfig)
    → validate cfg ≡ ok tt
    → All IsTaken (apply_tcp cfg) ↔ (cfg.user_timeout_ms ≤ 2147483647)
unfolding apply_tcp
apply_tcp-IsTaken_iff cfg h =
    let v = (validate_iff cfg).0 h in
    ((λ taken. ground (arith, v, taken)), λ le. ground (arith, v, le))
