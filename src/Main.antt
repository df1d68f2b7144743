-- ===== src/Main.antt =====
-- src/main.rs: the choice of the settings, the tasks that are started, and the shutdown. Reading a
-- file and parsing TOML are given, and so is when a task ends and how.
pub mod Started
pub mod Exit
mod Tests
use oxiduct.Base.{
  ℕ, Bool, true, false, ◌||◌, List, [], ◌∷◌, Option, none, some, map, get_elem?, remove_at,
}
use oxiduct.Text.{Text}
use oxiduct.Cli.Args.{Args}
use oxiduct.Config.Defaults
use oxiduct.Config.{ProxyConfig, TomlFile, LoadedConfig, Result, ok, err, ◌>>=◌}
use oxiduct.Config.Load.{or, unwrap_or, from_cli, load}

pub record Settings : Type 0 where
  pub proxies : List ProxyConfig
  pub metrics_listen : Option Text
  pub shutdown_grace : ℕ

abbrev pub of_file : Args → LoadedConfig → Settings
of_file args loaded = record {
  proxies = loaded.proxies;
  metrics_listen = or args.metrics_listen loaded.metrics_listen;
  shutdown_grace =
      unwrap_or (or args.shutdown_grace loaded.shutdown_grace) Defaults.shutdown_grace_secs;
}

abbrev pub of_args : Args → ProxyConfig → Settings
of_args args proxy = record {
  proxies = proxy ∷ [];
  metrics_listen = args.metrics_listen;
  shutdown_grace = unwrap_or args.shutdown_grace Defaults.shutdown_grace_secs;
}

module _ (read_to_string : Text → Option Text) (from_str : Text → Option TomlFile) where
  abbrev pub settings_at : Option Text → Args → Result Settings
  settings_at (some path) args = do
    loaded ← load read_to_string from_str path
    ok (of_file args loaded)
  settings_at none args = do proxy ← from_cli args; ok (of_args args proxy)

  abbrev pub settings : Args → Result Settings
  settings args = settings_at args.config args

pub data Task : Type 0 where
  exporter : Text → Task
  proxy : ProxyConfig → Task

abbrev pub exporters : Option Text → List Task → List Task
exporters none ts = ts
exporters (some addr) ts = exporter addr ∷ ts

-- What is spawned, in order.
unfoldable pub tasks : Settings → List Task
tasks s = exporters s.metrics_listen (map proxy s.proxies)

-- How a task ends: `Ok(Ok(()))`, `Ok(Err(e))`, `Err(e)`.
pub data Finished : Type 0 where
  succeeded failed panicked : Finished

abbrev pub is_error : Finished → Bool
is_error succeeded = false
is_error failed = true
is_error panicked = true

-- At the `select!`; in `drain` under the grace period; in `drain` after it; or exited.
pub data Phase : Type 0 where
  waiting draining forced : Phase
  exited : (code : ℕ) → Phase

-- The join set holds the tasks that run, and what those have given that are not yet joined.
pub record State : Type 0 where
  pub running : List Task
  pub finished : List Finished
  pub stop_accepting : Bool
  pub force_shutdown : Bool
  pub any_error : Bool
  pub phase : Phase

unfoldable pub start : List Task → State
start ts = record {
  running = ts;
  finished = [];
  stop_accepting = false;
  force_shutdown = false;
  any_error = false;
  phase = waiting;
}

pub data Event : Type 0 where
  -- A running task ends.
  ends : ℕ → Finished → Event
  -- `join_next` gives what a task has given, or finds no task left.
  joins : ℕ → Event
  none_left : Event
  signal : Event
  grace_elapses : Event

abbrev pub exit_code : Bool → ℕ
exit_code true = 1
exit_code false = 0

unfoldable pub end_task : State → ℕ → Option Task → Finished → State
end_task s i none f = s
end_task s i (some t) f = record s { running = remove_at i s.running; finished = f ∷ s.finished }

abbrev pub take_from : State → ℕ → State
take_from s i = record s { finished = remove_at i s.finished }

-- The first result before a signal ends the program; afterwards `drain` notes it.
unfoldable pub join : State → Phase → ℕ → Option Finished → State
join s phase i none = s
join s waiting i (some f) = record (take_from s i) { phase = exited (exit_code (is_error f)) }
join s draining i (some f) = record (take_from s i) { any_error = s.any_error || is_error f }
join s forced i (some f) = record (take_from s i) { any_error = s.any_error || is_error f }
join s (exited code) i (some f) = s

-- The empty join set: `drain` is done.
unfoldable pub finish : State → Phase → List Task → List Finished → State
finish s waiting [] [] = record s { phase = exited 0 }
finish s draining [] [] = record s { phase = exited (exit_code s.any_error) }
finish s forced [] [] = record s { phase = exited (exit_code s.any_error) }
finish s phase ts fs = s

unfoldable pub on_event : State → Phase → Event → State
unfolding end_task join finish
on_event s (exited code) e = s
on_event s phase (ends i f) = end_task s i (get_elem? s.running i) f
on_event s phase (joins i) = join s phase i (get_elem? s.finished i)
on_event s phase none_left = finish s phase s.running s.finished
on_event s waiting signal = record s { stop_accepting = true; phase = draining }
on_event s draining grace_elapses = record s { force_shutdown = true; phase = forced }
on_event s phase e = s

unfoldable pub run : State → List Event → State
unfolding on_event
run s [] = s
run s (e ∷ es) = run (on_event s s.phase e) es
