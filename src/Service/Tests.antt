-- ===== src/Service/Tests.antt =====
-- The whole program at a concrete history.
use oxiduct.Base.{Bool, ◌≡◌, inl, refl, true, false, List, [], ◌∷◌, All, length, arith, ℕ_discrete}
use mathlib.Core.List.{lookup}
use oxiduct.Base.Map.{insert, remove}
use oxiduct.Text.{Text, codes}
use oxiduct.Net.{IpAddr-discrete}
use oxiduct.Limits
use oxiduct.Config.{Protocol}
use oxiduct.Proxy.Tcp.Serve
use oxiduct.Proxy.Tcp.Serve.Tests.{cfg, client}
use oxiduct.Main
use oxiduct.Main.{Task, succeeded, failed, exited}
use oxiduct.Metrics.Exporter
use oxiduct.Service.{
  start, tcp_step, exporter_step, Event, moves, ends, joins, none_left, signal, update_at,
  node_step, run,
}
use oxiduct.Service.Nodes.{IsClean}
use oxiduct.Service.Shutdown.{run-start-IsClean}

abbrev two : List Task
two = Task.exporter (codes "127.0.0.1:9090") ∷ Task.proxy cfg ∷ []

abbrev all_bind : Protocol → Text → Bool
all_bind protocol address = true

-- A connection comes; the signal; both loops see it; the connection ends; both tasks return.
abbrev history : List Event
history =
    moves 1 (tcp_step (Serve.accepts client))
    ∷ moves 1 (tcp_step Serve.stops)
    ∷ signal
    ∷ moves 0 (exporter_step Exporter.stops)
    ∷ ends 0 succeeded
    ∷ moves 0 (tcp_step Serve.stops)
    ∷ ends 0 succeeded
    ∷ moves 0 (tcp_step (Serve.ends 0))
    ∷ moves 0 (tcp_step (Serve.joins 0))
    ∷ moves 0 (tcp_step Serve.returns)
    ∷ ends 0 succeeded
    ∷ joins 0
    ∷ joins 0
    ∷ none_left
    ∷ []

program : Unit {0}
unfolding run start update_at node_step Main.start Main.on_event Serve.step Serve.start
    Exporter.on_event Limits.new Limits.try_acquire Limits.drop Limits.reached_90pct insert remove
    lookup IpAddr-discrete ℕ_discrete
program = tt

-- A loop that is still at work cannot end, and one whose address is taken fails.
premature :
    (length (run (start all_bind two) (ends 1 succeeded ∷ [])).nodes ≡ 2)
    × ((run (start (λ protocol address. false) two) (ends 0 failed ∷ joins 0 ∷ [])).main.phase
        ≡ exited 1)
unfolding program
premature = (refl, refl)

run-start-IsClean_example :
    ((run (start all_bind two) history).nodes ≡ [])
    × All (λ p. IsClean p.0) (run (start all_bind two) history).past
    × (length (run (start all_bind two) history).past ≡ length two)
unfolding program
run-start-IsClean_example =
    run-start-IsClean all_bind two history (inl (tt, ((omega arith, omega arith), tt))) refl refl
