-- ===== src/Config/Load.antt =====
-- src/config.rs: `from_cli`, `from_toml` and `load`. Reading a file and parsing TOML are given.
use oxiduct.Base.{ℕ, suc, Bool, true, false, List, [], ◌∷◌, ◌++◌, Option, none, some}
use oxiduct.Text.{Text, codes, Text-discrete, decimal}
use oxiduct.Base.Map.{contains}
use oxiduct.Cli.{expand_listen}
use oxiduct.Cli.Args.{Args}
use oxiduct.Config.Defaults
use oxiduct.Config.{
  Protocol, ProxyConfig, TomlTuning, TomlProxy, TomlFile, LoadedConfig, Result, ok, ◌>>=◌, ◌>>◌,
  bail_if, ok_or, no_listen, no_target, no_proxies, duplicate_name, duplicate_listen, reading,
  parsing, validate,
}

abbrev pub or {ℓ} : {A : Type ℓ} → Option A → Option A → Option A
or none b = b
or (some a) b = some a

abbrev pub unwrap_or {ℓ} : {A : Type ℓ} → Option A → A → A
unwrap_or none d = d
unwrap_or (some a) d = a

abbrev pub joined : Text → Text → Text
joined listen target = listen ++ (codes " -> " ++ target)

-- `Option::map`, then the address that the arguments must give.
abbrev pub expanded : Option Text → Option Text
expanded none = none
expanded (some s) = some (expand_listen s)

abbrev pub cli_config : Args → Text → Text → ProxyConfig
cli_config args listen target = record {
  name = joined listen target;
  listen = listen;
  target = target;
  protocol = args.protocol;
  connect_timeout_secs = args.connect_timeout;
  keepalive_idle_secs = args.keepalive_idle;
  keepalive_interval_secs = args.keepalive_interval;
  keepalive_retries = args.keepalive_retries;
  user_timeout_ms = args.user_timeout_ms;
  idle_timeout_secs = args.idle_timeout;
  half_close_timeout_secs = args.half_close_timeout;
  max_connections = args.max_connections;
  max_per_ip = args.max_per_ip;
  proxy_protocol = args.proxy_protocol;
}

unfoldable pub from_cli : Args → Result ProxyConfig
from_cli args = do
  listen ← ok_or (expanded args.listen) no_listen
  target ← ok_or args.target no_target
  validate (cli_config args listen target)
  ok (cli_config args listen target)

unfoldable pub auto_name : ℕ → Text → Text → Text
auto_name index listen target =
    codes "proxy-" ++ (decimal index ++ (codes ": " ++ joined listen target))

unfoldable pub from_toml : ℕ → TomlProxy → TomlTuning → ProxyConfig
from_toml index p base = record {
  name = unwrap_or p.name (auto_name index (expand_listen p.listen) p.target);
  listen = expand_listen p.listen;
  target = p.target;
  protocol = p.protocol;
  connect_timeout_secs =
      unwrap_or (or k.connect_timeout base.connect_timeout) Defaults.connect_timeout_secs;
  keepalive_idle_secs =
      unwrap_or (or k.keepalive_idle base.keepalive_idle) Defaults.keepalive_idle_secs;
  keepalive_interval_secs =
      unwrap_or (or k.keepalive_interval base.keepalive_interval) Defaults.keepalive_interval_secs;
  keepalive_retries =
      unwrap_or (or k.keepalive_retries base.keepalive_retries) Defaults.keepalive_retries;
  user_timeout_ms = unwrap_or (or k.user_timeout_ms base.user_timeout_ms) Defaults.user_timeout_ms;
  idle_timeout_secs = unwrap_or (or k.idle_timeout base.idle_timeout) Defaults.idle_timeout_secs;
  half_close_timeout_secs =
      unwrap_or (or k.half_close_timeout base.half_close_timeout) Defaults.half_close_timeout_secs;
  max_connections = unwrap_or (or k.max_connections base.max_connections) Defaults.max_connections;
  max_per_ip = unwrap_or (or k.max_per_ip base.max_per_ip) Defaults.max_per_ip;
  proxy_protocol = unwrap_or (or k.proxy_protocol base.proxy_protocol) false;
}
  where
    open p use {knobs as k}

-- `enumerate` and `map` over the entries, from an index on.
unfoldable pub resolve_from : ℕ → TomlTuning → List TomlProxy → List ProxyConfig
resolve_from index base [] = []
resolve_from index base (p ∷ ps) = from_toml index p base ∷ resolve_from (suc index) base ps

-- A listening socket: the protocol and the address.
pub record Socket : Type 0 where
  pub protocol : Protocol
  pub listen : Text

unfoldable pub Socket-discrete : Discrete Socket
unfolding Text-discrete
Socket-discrete = hlevel Text-discrete

abbrev pub socket : ProxyConfig → Socket
socket c = record { protocol = c.protocol; listen = c.listen }

-- The loop over the proxies, with the names and the sockets seen before.
unfoldable pub check_all : List Text → List Socket → List ProxyConfig → Result (Unit {0})
check_all names listens [] = ok tt
check_all names listens (c ∷ cs) = do
  validate c
  bail_if (contains Text-discrete c.name names) (duplicate_name c.name)
  bail_if (contains Socket-discrete (socket c) listens) (duplicate_listen c.listen)
  check_all (c.name ∷ names) (socket c ∷ listens) cs

abbrev pub none_given : List TomlProxy → Bool
none_given [] = true
none_given (p ∷ ps) = false

-- `load` after the file has been parsed.
unfoldable pub resolve : TomlFile → Result LoadedConfig
unfolding resolve_from check_all
resolve file = do
  bail_if (none_given file.proxies) no_proxies
  check_all [] [] (resolve_from 0 file.defaults file.proxies)
  ok (record {
    proxies = resolve_from 0 file.defaults file.proxies;
    metrics_listen = file.metrics_listen;
    shutdown_grace = file.shutdown_grace;
  })

-- The file system and the TOML parser.
module _ (read_to_string : Text → Option Text) (from_str : Text → Option TomlFile) where
  unfoldable pub load : Text → Result LoadedConfig
  unfolding resolve
  load path = do
    text ← ok_or (read_to_string path) (reading path)
    file ← ok_or (from_str text) (parsing path)
    resolve file
