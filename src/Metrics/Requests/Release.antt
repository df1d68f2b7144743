-- ===== src/Metrics/Requests/Release.antt =====
-- src/metrics.rs: when the permits of the exporter come back.
use oxiduct.Base.{
  ℕ, zero, suc, ◌+◌, ◌≤◌, ◌≡◌, refl, sym, ap, ◌∙◌, List, [], ◌∷◌, Option, none, some, arith, All,
  length, get_elem?, remove_at, length-remove_alike, remove_at_past,
}
use oxiduct.Metrics.Exporter
use oxiduct.Metrics.Exporter.{accepting, backing_off, returned}
use oxiduct.Metrics.Exporter.Pool.{IsFull, on_event_lem}
use oxiduct.Metrics.Handler
use oxiduct.Metrics.Handler.{
  Io, Wake, over, reading, writing, flushing, closing, draining, expired, poll,
}
use oxiduct.Metrics.Handler.Deadlines.{IsOver, expired-request}
use oxiduct.Metrics.Requests.{
  State, start, Event, accepts, wakes, ends, stops, accept_fails, pause_ends, takes_up, spawned,
  on_loop, wake_at, end_task, end_at, step, run,
}

-- The requests and the running tasks correspond, and each holds a permit.
record Inv (s : State) : Type 0 where
  parallel : length s.requests ≡ length s.exporter.running
  full : IsFull s.exporter

running-end_task :
    (s : Exporter.State) (i : ℕ) (o : Option ℕ)
    → get_elem? s.running i ≡ o
    → (Exporter.end_task s i o).running ≡ remove_at i s.running
unfolding Exporter.end_task
running-end_task s i none e = sym (remove_at_past i s.running e)
running-end_task s i (some conn) e = refl

length-spawned :
    (s : State) (stage : Exporter.Stage) (permits conn now : ℕ)
    → length s.requests ≡ length s.exporter.running
    → length (spawned (takes_up stage permits) now s.requests)
      ≡ length
          (Exporter.on_event
            (record s.exporter { stage = stage; permits = permits })
            stage
            (Exporter.accepts conn)).running
unfolding Exporter.on_event Exporter.admit
length-spawned s stage permits conn now e = ground (arith, e)

length-wake_at :
    (render : ℕ → List ℕ) (i : ℕ) (w : Wake) (hs : List Handler.State)
    → length (wake_at render i w hs) ≡ length hs
unfolding wake_at
length-wake_at render i w [] = refl
length-wake_at render zero w (h ∷ hs) = refl
length-wake_at render (suc i) w (h ∷ hs) = omega (arith, length-wake_at render i w hs)

on_loop-Inv :
    (s : State) (e : Exporter.Event)
    → (Exporter.on_event s.exporter s.exporter.stage e).running ≡ s.exporter.running
    → Inv s
    → Inv (on_loop s e)
on_loop-Inv s e h v = record {
  parallel = v.parallel ∙ ap (λ (xs : List ℕ). length xs) (sym h);
  full = (on_event_lem s.exporter s.exporter.stage e v.full).0;
}

running-quiet :
    (s : Exporter.State) (stage : Exporter.Stage)
    → ((Exporter.on_event s stage Exporter.stops).running ≡ s.running)
      × ((Exporter.on_event s stage Exporter.accept_fails).running ≡ s.running)
      × ((Exporter.on_event s stage Exporter.pause_ends).running ≡ s.running)
unfolding Exporter.on_event
running-quiet s accepting = (refl, refl, refl)
running-quiet s backing_off = (refl, refl, refl)
running-quiet s returned = (refl, refl, refl)

end_task-Inv : (s : State) (i : ℕ) (stage : Handler.Stage) → Inv s → Inv (end_task s i stage)
unfolding end_task Exporter.on_event
end_task-Inv s i (over o) v = record {
  parallel =
      length-remove_alike i s.requests s.exporter.running v.parallel
      ∙ ap (λ (xs : List ℕ). length xs) (sym (running-end_task s.exporter i _ refl));
  full = (on_event_lem s.exporter s.exporter.stage (Exporter.ends i) v.full).0;
}
end_task-Inv s i (reading buf) v = v
end_task-Inv s i (writing bs) v = v
end_task-Inv s i flushing v = v
end_task-Inv s i closing v = v
end_task-Inv s i (draining since) v = v

end_at-Inv : (s : State) (i : ℕ) (o : Option Handler.State) → Inv s → Inv (end_at s i o)
end_at-Inv s i none v = v
end_at-Inv s i (some h) v = end_task-Inv s i h.stage v

step-Inv : (render : ℕ → List ℕ) (s : State) (e : Event) → Inv s → Inv (step render s e)
unfolding step
step-Inv render s (accepts conn now) v = record {
  parallel = length-spawned s s.exporter.stage s.exporter.permits conn now v.parallel;
  full = (on_event_lem s.exporter s.exporter.stage (Exporter.accepts conn) v.full).0;
}
step-Inv render s (wakes i w) v = record {
  parallel = length-wake_at render i w s.requests ∙ v.parallel;
  full = v.full;
}
step-Inv render s (ends i) v = end_at-Inv s i (get_elem? s.requests i) v
step-Inv render s stops v =
    on_loop-Inv s Exporter.stops (running-quiet s.exporter s.exporter.stage).0 v
step-Inv render s accept_fails v =
    on_loop-Inv s Exporter.accept_fails (running-quiet s.exporter s.exporter.stage).1 v
step-Inv render s pause_ends v =
    on_loop-Inv s Exporter.pause_ends (running-quiet s.exporter s.exporter.stage).2 v

run-Inv : (render : ℕ → List ℕ) (s : State) (es : List Event) → Inv s → Inv (run render s es)
unfolding run
run-Inv render s [] v = v
run-Inv render s (e ∷ es) v = run-Inv render (step render s e) es (step-Inv render s e v)

-- Each running task is woken once at a time, whatever its stream does, and ends if it can.
unfoldable pub wakings : ℕ → List (List Io) → List Event
wakings t [] = []
wakings t (ios ∷ rest) = wakes 0 (record { now = t; ios = ios }) ∷ ends 0 ∷ wakings t rest

-- Ten seconds have passed since the start of a request.
abbrev pub IsLate : ℕ → Handler.State → Type 0
IsLate t h = h.started + 10000 ≤ t

wake-IsOver :
    (render : ℕ → List ℕ) (t : ℕ) (ios : List Io) (h : Handler.State)
    → IsLate t h
    → IsOver (Handler.wake render h (record { now = t; ios = ios })).stage
unfolding Handler.wake
wake-IsOver render t ios h late = expired-request h.started t (poll render t h ios).stage late

end_first :
    (s : State) (h : Handler.State) (hs : List Handler.State)
    → s.requests ≡ h ∷ hs
    → IsOver h.stage
    → (end_at s 0 (get_elem? s.requests 0)).requests ≡ hs
unfolding end_task
end_first s h hs e (o, q) =
    ap (λ r. (end_at s 0 (get_elem? r 0)).requests) e
    ∙ ap (λ stage. (end_task s 0 stage).requests) q
    ∙ ap (remove_at 0) e

wakings_lem :
    (render : ℕ → List ℕ) (t : ℕ) (inputs : List (List Io)) (s : State) (hs : List Handler.State)
    → s.requests ≡ hs
    → length inputs ≡ length hs
    → All (IsLate t) hs
    → (run render s (wakings t inputs)).requests ≡ []
unfolding wakings run step
wakings_lem render t [] s [] e n late = e
wakings_lem render t [] s (h ∷ hs) e n late = ground (arith, n)
wakings_lem render t (ios ∷ rest) s [] e n late = ground (arith, n)
wakings_lem render t (ios ∷ rest) s (h ∷ hs) e n late =
    let w : Wake = record { now = t; ios = ios } in
    let woken = step render s (wakes 0 w) in
    wakings_lem render t rest (step render woken (ends 0)) hs
      (end_first woken (Handler.wake render h w) hs (ap (wake_at render 0 w) e)
        (wake-IsOver render t ios h late.0))
      (omega (arith, n)) late.1

-- No client keeps a permit: after any history, once ten seconds have passed since the start of every
-- running request, a single wake of each task, whatever its stream does then, ends it, and all
-- sixteen permits are there again.
pub run-wakings :
    (render : ℕ → List ℕ) (es : List Event) (t : ℕ) (inputs : List (List Io))
    → length inputs ≡ length (run render start es).requests
    → All (IsLate t) (run render start es).requests
    → let s = run render (run render start es) (wakings t inputs) in
      (s.exporter.running ≡ []) × (s.exporter.permits ≡ 16)
run-wakings render es t inputs n late =
    let v = run-Inv render start es (record { parallel = refl; full = refl }) in
    let s = run render (run render start es) (wakings t inputs) in
    let v' = run-Inv render (run render start es) (wakings t inputs) v in
    let gone = wakings_lem render t inputs (run render start es) _ refl n late in
    let none_left : length s.exporter.running ≡ 0 =
      sym v'.parallel ∙ ap (λ (hs : List Handler.State). length hs) gone in
    (no_items s.exporter.running none_left, omega (arith, v'.full, none_left))
  where
    no_items : (xs : List ℕ) → length xs ≡ 0 → xs ≡ []
    no_items [] e = refl
    no_items (x ∷ xs) e = ground (arith, e)
