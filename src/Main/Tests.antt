-- ===== src/Main/Tests.antt =====
-- Starts and shutdowns at concrete inputs.
use oxiduct.Base.{◌≡◌, refl, true, false, List, [], ◌∷◌, Option, none, some}
use oxiduct.Text.{Text, codes, rsplit_once, parse_u16}
use oxiduct.Cli.{expand_listen}
use oxiduct.Cli.Args.{Args}
use oxiduct.Config.{tcp, TomlFile, ok, check_host_port, validate}
use oxiduct.Config.Load.{cli_config, from_cli}
use oxiduct.Main.{
  Settings, of_args, settings, Task, exporter, succeeded, failed, panicked, exited, start, Event,
  ends, joins, none_left, signal, grace_elapses, exit_code, run,
}
use oxiduct.Main.Started.{IsStartable, settings-IsStartable}
use oxiduct.Main.Exit.{any_error, outcomes, run-start-exited}

abbrev args : Args
args = record {
  config = none;
  listen = some (codes "8080");
  target = some (codes "192.0.2.1:80");
  protocol = tcp;
  connect_timeout = 3;
  keepalive_idle = 60;
  keepalive_interval = 10;
  keepalive_retries = 3;
  user_timeout_ms = 0;
  idle_timeout = 300;
  half_close_timeout = 30;
  max_connections = 1000;
  max_per_ip = 0;
  proxy_protocol = false;
  shutdown_grace = none;
  metrics_listen = some (codes "127.0.0.1:9090");
  log_level = codes "info";
}

abbrev no_file : Text → Option Text
no_file path = none

abbrev no_parse : Text → Option TomlFile
no_parse text = none

abbrev started : Settings
started = of_args args (cli_config args (codes "0.0.0.0:8080") (codes "192.0.2.1:80"))

settings_of_args : settings no_file no_parse args ≡ ok started
unfolding from_cli validate check_host_port rsplit_once parse_u16 expand_listen
settings_of_args = refl

started-IsStartable : IsStartable started.proxies
started-IsStartable = settings-IsStartable no_file no_parse args started settings_of_args

abbrev two : List Task
two = exporter (codes "127.0.0.1:9090") ∷ exporter (codes "127.0.0.1:9091") ∷ []

-- One task fails within the grace period, the other ends after it.
abbrev late : List Event
late =
    signal
    ∷ ends 1 failed
    ∷ joins 0
    ∷ grace_elapses
    ∷ none_left
    ∷ ends 0 succeeded
    ∷ joins 0
    ∷ none_left
    ∷ []

early_failure :
    ((run (start two) (ends 0 panicked ∷ joins 0 ∷ signal ∷ [])).phase ≡ exited 1)
    × ((run (start two) (ends 0 succeeded ∷ joins 0 ∷ [])).phase ≡ exited 0)
    × ((run (start two) late).force_shutdown ≡ true)
unfolding run start
early_failure = (refl, refl, refl)

run-start-exited_example :
    (1 ≡ exit_code (any_error (outcomes (start two) late))) × ((run (start two) late).running ≡ [])
unfolding run start
run-start-exited_example = run-start-exited two late 1 refl refl
