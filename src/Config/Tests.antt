-- ===== src/Config/Tests.antt =====
-- Configurations at concrete inputs, after the unit tests of src/config.rs and src/cli.rs.
use oxiduct.Base.{◌≡◌, ◌↔◌, refl, false, List, map, [], ◌∷◌, none, some, ℕ_discrete}
use oxiduct.Base.Map.{contains}
use oxiduct.Text.{Text, codes, Text-discrete, rsplit_once, parse_u16, decimal}
use oxiduct.Cli.{expand_listen}
use oxiduct.Cli.Args.{Args}
use oxiduct.Config.Defaults
use oxiduct.Config.{
  tcp, ProxyConfig, TomlTuning, TomlProxy, TomlFile, LoadedConfig, Result, ok, err, missing_port,
  missing_host, invalid_port, duplicate_listen, no_proxies, check_host_port, validate,
}
use oxiduct.Config.Load.{auto_name, from_cli, from_toml, resolve, Socket-discrete, cli_config}
use oxiduct.Config.Address.{HostPort, check_host_port_iff, check_host_port-expand_listen}
use oxiduct.Config.Valid.{IsRunnable, validate_iff, IsUsable, loaded_of, resolve_iff}
use oxiduct.Config.Agree.{from_toml-entry_of, entry_of}

abbrev unset : TomlTuning
unset = record {
  connect_timeout = none;
  keepalive_idle = none;
  keepalive_interval = none;
  keepalive_retries = none;
  user_timeout_ms = none;
  idle_timeout = none;
  half_close_timeout = none;
  max_connections = none;
  max_per_ip = none;
  proxy_protocol = none;
}

abbrev entry : Text → Text → TomlProxy
entry listen target = record {
  name = none;
  listen = listen;
  target = target;
  protocol = tcp;
  knobs = unset;
}

abbrev file : List TomlProxy → TomlFile
file ps = record { defaults = unset; metrics_listen = none; shutdown_grace = none; proxies = ps }

configs : Unit {0}
unfolding resolve contains Text-discrete Socket-discrete ℕ_discrete from_toml from_cli auto_name
    validate check_host_port rsplit_once parse_u16 expand_listen decimal
configs = tt

abbrev outcome : Result LoadedConfig → Result (List Text)
outcome (ok loaded) = ok (map (λ c. c.name) loaded.proxies)
outcome (err e) = err e

check_host_port_shapes :
    (check_host_port (codes "[::1]:80") ≡ ok 80)
    × (check_host_port (codes "no-port") ≡ err (missing_port (codes "no-port")))
    × (check_host_port (codes ":80") ≡ err (missing_host (codes ":80")))
    × (check_host_port (codes "host:99999")
        ≡ err (invalid_port (codes "host:99999") (codes "99999")))
unfolding configs
check_host_port_shapes = (refl, refl, refl, refl)

expand_bare_port : expand_listen (codes "587") ≡ codes "0.0.0.0:587"
unfolding configs
expand_bare_port = refl

duplicates_rejected :
    outcome (
      resolve
        (file (entry (codes "9") (codes "a:1") ∷ entry (codes "0.0.0.0:9") (codes "b:2") ∷ [])))
    ≡ err (duplicate_listen (codes "0.0.0.0:9"))
unfolding configs
duplicates_rejected = refl

-- Two spellings of one port are two listen addresses to `load`.
spellings_accepted :
    outcome
      (resolve (file (entry (codes "9") (codes "a:1") ∷ entry (codes "+9") (codes "b:2") ∷ [])))
    ≡ ok (codes "proxy-0: 0.0.0.0:9 -> a:1" ∷ codes "proxy-1: 0.0.0.0:+9 -> b:2" ∷ [])
unfolding configs
spellings_accepted = refl

empty_rejected : outcome (resolve (file [])) ≡ err no_proxies
unfolding configs
empty_rejected = refl

abbrev args : Args
args = record {
  config = none;
  listen = some (codes "587");
  target = some (codes "mail.example.com:587");
  protocol = tcp;
  connect_timeout = Defaults.connect_timeout_secs;
  keepalive_idle = Defaults.keepalive_idle_secs;
  keepalive_interval = Defaults.keepalive_interval_secs;
  keepalive_retries = Defaults.keepalive_retries;
  user_timeout_ms = Defaults.user_timeout_ms;
  idle_timeout = Defaults.idle_timeout_secs;
  half_close_timeout = Defaults.half_close_timeout_secs;
  max_connections = Defaults.max_connections;
  max_per_ip = Defaults.max_per_ip;
  proxy_protocol = false;
  shutdown_grace = none;
  metrics_listen = none;
  log_level = codes "info";
}

abbrev mail : ProxyConfig
mail = cli_config args (codes "0.0.0.0:587") (codes "mail.example.com:587")

from_cli_full : from_cli args ≡ ok mail
unfolding configs
from_cli_full = refl

mail_valid : validate mail ≡ ok tt
unfolding configs
mail_valid = refl

from_toml-entry_of_example :
    from_toml 3 (entry_of args mail.name (codes "587") (codes "mail.example.com:587")) unset ≡ mail
from_toml-entry_of_example =
    from_toml-entry_of args mail (codes "587") (codes "mail.example.com:587") 3 unset refl refl
      from_cli_full

two_run : (validate mail ≡ ok tt) ↔ IsRunnable mail
two_run = validate_iff mail

colon_port : (check_host_port (codes "a:1") ≡ ok 1) ↔ HostPort (codes "a:1") 1
colon_port = check_host_port_iff (codes "a:1") 1

bare_port :
    (check_host_port (expand_listen (codes "587")) ≡ ok 587)
    × (expand_listen (expand_listen (codes "587")) ≡ expand_listen (codes "587"))
unfolding configs
bare_port = check_host_port-expand_listen (codes "587") 587 refl

abbrev two : TomlFile
two = file (entry (codes "9") (codes "a:1") ∷ entry (codes "10") (codes "b:2") ∷ [])

resolve_iff_example :
    (resolve two ≡ ok (loaded_of two)) ↔ (IsUsable two × (loaded_of two ≡ loaded_of two))
resolve_iff_example = resolve_iff two (loaded_of two)

two-IsUsable : IsUsable two
unfolding configs
two-IsUsable = (resolve_iff_example.0 refl).0
