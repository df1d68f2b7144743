-- ===== src/Metrics/Exporter/Pool.antt =====
-- src/metrics.rs, `serve`: the loop against a pool of tasks that knows of no semaphore.
use oxiduct.Base.{
  ℕ, zero, suc, ◌+◌, ◌<◌, ◌≡◌, ◌∙◌, refl, ap, Bool, true, false, List, [], ◌∷◌, Option, none, some,
  arith, length, ltb, get_elem?, remove_at,
}
use oxiduct.Metrics.Exporter.{
  max_inflight, Stage, accepting, backing_off, returned, State, start, Event, stops, accept_fails,
  pause_ends, accepts, ends, admit, end_task, on_event, run,
}

-- What one sees of the exporter.
pub record Pool : Type 0 where
  pub running : List ℕ
  pub dropped : List ℕ
  pub ended : List ℕ
  pub stage : Stage

abbrev pub pool : State → Pool
pool s = record { running = s.running; dropped = s.dropped; ended = s.ended; stage = s.stage }

-- A connection is taken up while fewer than sixteen tasks run.
abbrev pub settle : Pool → ℕ → (has_room : Bool) → Pool
settle p conn true = record p { running = conn ∷ p.running }
settle p conn false = record p { dropped = conn ∷ p.dropped }

abbrev pub finish : Pool → ℕ → Option ℕ → Pool
finish p i none = p
finish p i (some conn) = record p { running = remove_at i p.running; ended = conn ∷ p.ended }

unfoldable pub pool_step : Pool → Stage → Event → Pool
pool_step p stage (ends i) = finish p i (get_elem? p.running i)
pool_step p accepting stops = record p { stage = returned }
pool_step p accepting (accepts conn) = settle p conn (ltb (length p.running) 16)
pool_step p accepting accept_fails = record p { stage = backing_off }
pool_step p backing_off pause_ends = record p { stage = accepting }
pool_step p stage e = p

unfoldable pub pool_run : Pool → List Event → Pool
pool_run p [] = p
pool_run p (e ∷ es) = pool_run (pool_step p p.stage e) es

-- Each running task holds a permit.
abbrev pub IsFull : State → Type 0
IsFull s = s.permits + length s.running ≡ max_inflight

length-remove_at :
    (xs : List ℕ) (i x : ℕ) → get_elem? xs i ≡ some x → length (remove_at i xs) + 1 ≡ length xs
length-remove_at [] i x e = ground arith
length-remove_at (y ∷ xs) zero x e = omega arith
length-remove_at (y ∷ xs) (suc i) x e = omega (arith, length-remove_at xs i x e)

no_room : (n : ℕ) → n ≡ 16 → false ≡ ltb n 16
no_room n e = ground arith

room : (n : ℕ) → n < 16 → true ≡ ltb n 16
room n h = ground arith

admit_lem :
    (s : State) (n conn : ℕ)
    → s.permits ≡ n
    → IsFull s
    → IsFull (admit s n conn)
      × (pool (admit s n conn) ≡ settle (pool s) conn (ltb (length s.running) 16))
unfolding admit
admit_lem s zero conn e h =
    (h, ap (settle (pool s) conn) (no_room (length s.running) (omega arith)))
admit_lem s (suc n) conn e h =
    (omega arith, ap (settle (pool s) conn) (room (length s.running) (omega arith)))

end_task_lem :
    (s : State) (i : ℕ) (o : Option ℕ)
    → get_elem? s.running i ≡ o
    → IsFull s
    → IsFull (end_task s i o) × (pool (end_task s i o) ≡ finish (pool s) i o)
unfolding end_task
end_task_lem s i none e h = (h, refl)
end_task_lem s i (some conn) e h = (omega (arith, length-remove_at s.running i conn e), refl)

pub on_event_lem :
    (s : State) (stage : Stage) (e : Event)
    → IsFull s
    → IsFull (on_event s stage e) × (pool (on_event s stage e) ≡ pool_step (pool s) stage e)
unfolding on_event pool_step
on_event_lem s stage (ends i) h = end_task_lem s i (get_elem? s.running i) refl h
on_event_lem s accepting stops h = (h, refl)
on_event_lem s accepting (accepts conn) h = admit_lem s s.permits conn refl h
on_event_lem s accepting accept_fails h = (h, refl)
on_event_lem s accepting pause_ends h = (h, refl)
on_event_lem s backing_off stops h = (h, refl)
on_event_lem s backing_off (accepts conn) h = (h, refl)
on_event_lem s backing_off accept_fails h = (h, refl)
on_event_lem s backing_off pause_ends h = (h, refl)
on_event_lem s returned stops h = (h, refl)
on_event_lem s returned (accepts conn) h = (h, refl)
on_event_lem s returned accept_fails h = (h, refl)
on_event_lem s returned pause_ends h = (h, refl)

run_from :
    (s : State) (es : List Event)
    → IsFull s
    → IsFull (run s es) × (pool (run s es) ≡ pool_run (pool s) es)
unfolding run pool_run
run_from s [] h = (h, refl)
run_from s (e ∷ es) h =
    let (h', q) = on_event_lem s s.stage e h in
    let (h'', q') = run_from (on_event s s.stage e) es h' in (h'', q' ∙ ap (λ p. pool_run p es) q)

-- From its start, the exporter with its semaphore behaves as the pool that counts its tasks: after
-- every history the same connections are running, dropped and ended, in the same stage; and the
-- permits that are left are sixteen less the tasks that run.
pub run-pool_run :
    (es : List Event)
    → (pool (run start es) ≡ pool_run (pool start) es)
      × ((run start es).permits + length (run start es).running ≡ max_inflight)
run-pool_run es = let (h, q) = run_from start es refl in (q, h)
