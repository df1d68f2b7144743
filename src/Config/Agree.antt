-- ===== src/Config/Agree.antt =====
-- src/config.rs: the two ways to a configuration against each other, the command line and a file.
use oxiduct.Base.{ℕ, ◌≡◌, some, arith}
use oxiduct.Text.{Text}
use oxiduct.Cli.Args.{Args}
use oxiduct.Config.{ProxyConfig, TomlTuning, TomlProxy, ok}
use oxiduct.Config.Load.{from_cli, from_toml}

-- The entry that spells out what the arguments say, under a given name.
abbrev pub entry_of : Args → (name listen target : Text) → TomlProxy
entry_of args name listen target = record {
  name = some name;
  listen = listen;
  target = target;
  protocol = args.protocol;
  knobs = record {
    connect_timeout = some args.connect_timeout;
    keepalive_idle = some args.keepalive_idle;
    keepalive_interval = some args.keepalive_interval;
    keepalive_retries = some args.keepalive_retries;
    user_timeout_ms = some args.user_timeout_ms;
    idle_timeout = some args.idle_timeout;
    half_close_timeout = some args.half_close_timeout;
    max_connections = some args.max_connections;
    max_per_ip = some args.max_per_ip;
    proxy_protocol = some args.proxy_protocol;
  };
}

-- Where the arguments give a proxy, the file entry that spells them out, under that proxy's name,
-- resolves to the same proxy, at any place of the file and whatever its defaults are.
pub from_toml-entry_of :
    (args : Args) (cfg : ProxyConfig) (listen target : Text) (index : ℕ) (base : TomlTuning)
    → args.listen ≡ some listen
    → args.target ≡ some target
    → from_cli args ≡ ok cfg
    → from_toml index (entry_of args cfg.name listen target) base ≡ cfg
unfolding from_cli from_toml
from_toml-entry_of args cfg listen target index base l t e = ground arith
