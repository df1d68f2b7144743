-- ===== src/Cli/Args.antt =====
-- src/cli.rs, `Args`: what the argument parser hands over. (The parser itself is generated code.)
use oxiduct.Base.{ℕ, Bool, Option}
use oxiduct.Text.{Text}
use oxiduct.Config.{Protocol}

pub record Args : Type 0 where
  pub config : Option Text
  pub listen : Option Text
  pub target : Option Text
  pub protocol : Protocol
  pub connect_timeout : ℕ
  pub keepalive_idle : ℕ
  pub keepalive_interval : ℕ
  pub keepalive_retries : ℕ
  pub user_timeout_ms : ℕ
  pub idle_timeout : ℕ
  pub half_close_timeout : ℕ
  pub max_connections : ℕ
  pub max_per_ip : ℕ
  pub proxy_protocol : Bool
  pub shutdown_grace : Option ℕ
  pub metrics_listen : Option Text
  pub log_level : Text
