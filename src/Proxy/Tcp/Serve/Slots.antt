-- ===== src/Proxy/Tcp/Serve/Slots.antt =====
-- src/proxy/tcp.rs, `serve_graceful`: to the limiter, the accept loop is a history of connections
-- that come and go.
use oxiduct.Base.{
  ℕ, zero, suc, ◌<◌, ◌≤◌, ◌≡◌, refl, sym, ap, ◌∙◌, ◌⊎◌, List, [], ◌∷◌, ◌++◌, Option, none, some,
  arith, length, length-append, get_elem?, remove_at,
}
use mathlib.Core.Path.{subst}
use oxiduct.Base.Words.{u32_mod}
use oxiduct.Net.{SocketAddr}
use oxiduct.Limits.{ConnLimits, Guard, Admission, admitted, rejected, try_acquire}
use oxiduct.Limits.Lifetimes
use oxiduct.Limits.Lifetimes.{
  Snapshot, Op, connect, close, Inv, fresh, granted, run-new-Inv, release_at,
}
use oxiduct.Config.{ProxyConfig}
use oxiduct.Proxy.Tcp.Serve.{
  Task, Stage, accepting, backing_off, joining, returned, State, start, Event, stops, accepts,
  accept_fails, pause_ends, joins, returns, ends, decide, accept, when, join, return_if_empty,
  end_task, step, run,
}

unfoldable pub guards : List Task → List Guard
guards [] = []
guards (t ∷ ts) = t.guard ∷ guards ts

-- What the limiter sees of the listener.
abbrev pub snapshot : State → Snapshot
snapshot s = record { limits = s.limits; guards = guards s.running }

-- What an event is to the limiter.
abbrev pub on_accept : Stage → SocketAddr → List Op
on_accept accepting peer = connect peer.ip ∷ []
on_accept stage peer = []

abbrev pub ops : State → Event → List Op
ops s (accepts peer) = on_accept s.stage peer
ops s (ends i) = close i ∷ []
ops s e = []

unfoldable pub history : State → List Event → List Op
history s [] = []
history s (e ∷ es) = ops s e ++ history (step s e) es

guards-remove_at : (i : ℕ) (ts : List Task) → guards (remove_at i ts) ≡ remove_at i (guards ts)
unfolding guards
guards-remove_at i [] = refl
guards-remove_at zero (t ∷ ts) = refl
guards-remove_at (suc i) (t ∷ ts) = ap (◌∷◌ t.guard) (guards-remove_at i ts)

get_elem?-guards :
    (i : ℕ) (ts : List Task) (o : Option Task)
    → get_elem? ts i ≡ o
    → get_elem? (guards ts) i ≡ elim o [ none ↦ none | some t ↦ some t.guard ]
unfolding guards
get_elem?-guards i [] o e = ground (arith, e)
get_elem?-guards zero (t ∷ ts) o e = ground (arith, e)
get_elem?-guards (suc i) (t ∷ ts) o e = get_elem?-guards i ts o e

decide-snapshot :
    (s : State) (peer : SocketAddr) (r : ConnLimits × Admission)
    → snapshot (decide s peer r) ≡ record { limits = r.0; guards = granted r.1 (guards s.running) }
unfolding guards
decide-snapshot s peer (l, rejected r) = refl
decide-snapshot s peer (l, admitted guard warnings) = refl

accept-snapshot :
    (s : State) (stage : Stage) (peer : SocketAddr)
    → snapshot (accept s stage peer) ≡ Lifetimes.run (snapshot s) (on_accept stage peer)
unfolding accept Lifetimes.run Lifetimes.step
accept-snapshot s accepting peer = decide-snapshot s peer (try_acquire s.limits peer.ip)
accept-snapshot s backing_off peer = refl
accept-snapshot s joining peer = refl
accept-snapshot s returned peer = refl

end_task-snapshot :
    (s : State) (i : ℕ) (o : Option Task)
    → get_elem? s.running i ≡ o
    → snapshot (end_task s i o) ≡ Lifetimes.step (snapshot s) (close i)
unfolding Lifetimes.step
end_task-snapshot s i none e = rw (get_elem?-guards i s.running none e) refl
end_task-snapshot s i (some t) e =
    rw (get_elem?-guards i s.running (some t) e, guards-remove_at i s.running) refl

when-snapshot :
    (s : State) (stage other : Stage) (next : State)
    → snapshot next ≡ snapshot s
    → snapshot (when stage other next s) ≡ snapshot s
when-snapshot s accepting accepting next e = e
when-snapshot s backing_off backing_off next e = e
when-snapshot s joining joining next e = e
when-snapshot s stage other next e = refl

join-snapshot : (s : State) (stage : Stage) (i : ℕ) → snapshot (join s stage i) ≡ snapshot s
join-snapshot s accepting i = refl
join-snapshot s joining i = refl
join-snapshot s backing_off i = refl
join-snapshot s returned i = refl

return-snapshot :
    (s : State) (stage : Stage) (ts : List Task) (ids : List ℕ)
    → snapshot (return_if_empty s stage ts ids) ≡ snapshot s
return-snapshot s joining [] [] = refl
return-snapshot s joining (t ∷ ts) ids = refl
return-snapshot s joining [] (i ∷ ids) = refl
return-snapshot s accepting ts ids = refl
return-snapshot s backing_off ts ids = refl
return-snapshot s returned ts ids = refl

step-snapshot : (s : State) (e : Event) → snapshot (step s e) ≡ Lifetimes.run (snapshot s) (ops s e)
unfolding step Lifetimes.run
step-snapshot s stops = when-snapshot s accepting s.stage _ refl
step-snapshot s (accepts peer) = accept-snapshot s s.stage peer
step-snapshot s accept_fails = when-snapshot s accepting s.stage _ refl
step-snapshot s pause_ends = when-snapshot s backing_off s.stage _ refl
step-snapshot s (joins i) = join-snapshot s s.stage i
step-snapshot s returns = return-snapshot s s.stage s.running s.ended
step-snapshot s (ends i) = end_task-snapshot s i (get_elem? s.running i) refl

run-append :
    (s : Snapshot) (xs ys : List Op)
    → Lifetimes.run s (xs ++ ys) ≡ Lifetimes.run (Lifetimes.run s xs) ys
unfolding Lifetimes.run
run-append s [] ys = refl
run-append s (op ∷ xs) ys = run-append (Lifetimes.step s op) xs ys

-- The accept loop refines the limiter's histories: whatever happens, the limiter and the guards of
-- the running tasks are those of the history in which each connection that the loop takes up asks
-- for a slot and each task that ends drops its guard.
pub snapshot-run :
    (s : State) (es : List Event) → snapshot (run s es) ≡ Lifetimes.run (snapshot s) (history s es)
unfolding run history Lifetimes.run
snapshot-run s [] = refl
snapshot-run s (e ∷ es) =
    snapshot-run (step s e) es
    ∙ ap (λ x. Lifetimes.run x (history (step s e) es)) (step-snapshot s e)
    ∙ sym (run-append (snapshot s) (ops s e) (history (step s e) es))

length-ops : (s : State) (e : Event) → length (ops s e) ≤ 1
length-ops s e = ground arith

length-history : (s : State) (es : List Event) → length (history s es) ≤ length es
unfolding history
length-history s [] = omega arith
length-history s (e ∷ es) = omega (
  arith,
  length-append (ops s e) (history (step s e) es),
  length-ops s e,
  length-history (step s e) es,
)

-- Over any history of a listener whose 32-bit counter cannot wrap, the limiter counts exactly the
-- running tasks, in total and for each address, and they pass neither enabled cap.
pub run-start-Inv :
    (cfg : ProxyConfig) (next_id : ℕ) (es : List Event)
    → ((0 < cfg.max_connections) × (cfg.max_connections < u32_mod)) ⊎ (length es < u32_mod)
    → Inv (snapshot (run (start cfg next_id) es))
unfolding start guards
run-start-Inv cfg next_id es h = subst Inv (sym (snapshot-run (start cfg next_id) es)) (
    run-new-Inv cfg.max_connections cfg.max_per_ip (history (start cfg next_id) es)
      (ground (arith, length-history (start cfg next_id) es)))
