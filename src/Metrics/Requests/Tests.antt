-- ===== src/Metrics/Requests/Tests.antt =====
-- The exporter with slow clients.
use oxiduct.Base.{ℕ, ◌≡◌, refl, List, [], ◌∷◌, some, arith}
use oxiduct.Text.{codes}
use oxiduct.Metrics.Exporter
use oxiduct.Metrics.Handler
use oxiduct.Metrics.Handler.{reads}
use oxiduct.Metrics.Request.{on_read}
use oxiduct.Metrics.Requests.{Event, accepts, wakes, ends, start, run}
use oxiduct.Metrics.Requests.Release.{wakings, run-wakings}

abbrev rendered : ℕ → List ℕ
rendered t = codes "x 1\n"

-- One client sends a part of its line, the other nothing; neither request can end yet.
abbrev slow : List Event
slow =
    accepts 1 0
    ∷ accepts 2 400
    ∷ wakes 1 (record { now = 450; ios = reads (some (codes "GET")) ∷ [] })
    ∷ ends 1
    ∷ ends 0
    ∷ []

loops : Unit {0}
unfolding run Handler.wake Handler.start Exporter.on_event on_read
loops = tt

slow_running : (run rendered start slow).exporter.permits ≡ 14
unfolding loops
slow_running = refl

run-wakings_example :
    let s = run rendered (run rendered start slow) (wakings 10400 ([] ∷ [] ∷ [])) in
    (s.exporter.running ≡ []) × (s.exporter.permits ≡ 16)
unfolding loops
run-wakings_example =
    run-wakings rendered slow 10400 ([] ∷ [] ∷ []) refl (omega arith, (omega arith, tt))
