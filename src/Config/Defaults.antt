-- ===== src/Config/Defaults.antt =====
-- src/config.rs, `defaults`: the built-in tuning values.
use oxiduct.Base.{ℕ}

abbrev pub connect_timeout_secs : ℕ
connect_timeout_secs = 3

abbrev pub keepalive_idle_secs : ℕ
keepalive_idle_secs = 60

abbrev pub keepalive_interval_secs : ℕ
keepalive_interval_secs = 10

abbrev pub keepalive_retries : ℕ
keepalive_retries = 6

abbrev pub user_timeout_ms : ℕ
user_timeout_ms = 90000

abbrev pub idle_timeout_secs : ℕ
idle_timeout_secs = 300

abbrev pub half_close_timeout_secs : ℕ
half_close_timeout_secs = 30

abbrev pub shutdown_grace_secs : ℕ
shutdown_grace_secs = 10

abbrev pub max_connections : ℕ
max_connections = 32000

abbrev pub max_per_ip : ℕ
max_per_ip = 320
