-- ===== src/Proxy/Tcp/Active/Invariant.antt =====
-- src/proxy/tcp.rs: what every event of the accept loop and of its connection tasks keeps.
use oxiduct.Base.{
  length-remove_alike, ℕ, ◌+◌, ◌≡◌, refl, sym, ap, ◌∙◌, true, false, Bool, List, [], ◌∷◌, Option,
  none, some, arith, All, length, get_elem?,
}
use oxiduct.Net.{SocketAddr}
use oxiduct.Config.{ProxyConfig}
use oxiduct.Proxy.Tcp.Serve
use oxiduct.Proxy.Tcp.Serve.{Task, Stage, accepting, backing_off, joining, returned}
use oxiduct.Proxy.Tcp.Handle.{Network, Effect, handle}
use oxiduct.Proxy.Tcp.Handle.Accounts.{tally}
use oxiduct.Proxy.Tcp.Active.{
  Connection, State, Event, accepts, calls, ends, stops, accept_fails, pause_ends, returns, joins,
  spawned, accept, call, call_at, end_task, end_at, loop, step, run,
}
use oxiduct.Proxy.Tcp.Active.Sums.{
  owed, IsOrdered, handle-IsScripted, weigh, weigh-set_at, weigh-remove_at, length-set_at,
  tally_moves, All-get_elem, All-set_at, All-remove_at,
}
use oxiduct.Proxy.Tcp.Active.Tasks.{grown, grown_lem, length-accept, running-end_task, running-step}

-- What a connection has still to do to each metric.
abbrev pub incs_of : Connection → ℕ
incs_of c = (tally c.todo).incs

abbrev pub decs_of : Connection → ℕ
decs_of c = (tally c.todo).decs + owed c.over

abbrev pub called_decs_of : Connection → ℕ
called_decs_of c = (tally c.todo).decs

abbrev pub closes_of : Connection → ℕ
closes_of c = (tally c.todo).closes

abbrev pub IsOrderly : Connection → Type 0
IsOrderly c = IsOrdered c.todo c.over

-- The tasks and the connections correspond, and what has been called and what is still to be called
-- balance.
pub record Inv (s : State) : Type 0 where
  pub parallel : length s.connections ≡ length s.serve.running
  pub gauge :
      (tally s.made).incs + weigh incs_of s.connections
      ≡ (tally s.made).decs + weigh decs_of s.connections
  pub closes :
      (tally s.made).closes + weigh closes_of s.connections
      ≡ (tally s.made).decs + weigh called_decs_of s.connections
  pub ordered : All IsOrderly s.connections

fresh-Inv :
    (cfg : ProxyConfig) (peer : SocketAddr) (net : Network) (s : State) (next : Serve.State)
    (b : Bool)
    → length next.running ≡ grown b (length s.serve.running)
    → Inv s
    → Inv (spawned s next (handle cfg peer net) b)
unfolding weigh
fresh-Inv cfg peer net s next true e v =
    let h = handle-IsScripted cfg peer net in
    record {
      parallel = omega (arith, e, v.parallel);
      gauge = omega (arith, h.gauge, v.gauge);
      closes = omega (arith, h.closes, v.closes);
      ordered = (h.ordered, v.ordered);
    }
fresh-Inv cfg peer net s next false e v = record {
  parallel = omega (arith, e, v.parallel);
  gauge = v.gauge;
  closes = v.closes;
  ordered = v.ordered;
}

accept-Inv :
    (cfg : ProxyConfig) (s : State) (peer : SocketAddr) (net : Network)
    → Inv s
    → Inv (accept cfg s peer net)
unfolding accept Serve.step
accept-Inv cfg s peer net v =
    fresh-Inv cfg peer net s _ _
      (grown_lem (length s.serve.running) _ _ refl (length-accept s.serve s.serve.stage peer)) v

call-Inv :
    (s : State) (i : ℕ) (over : Bool) (todo : List Effect)
    → get_elem? s.connections i ≡ some (record { todo = todo; over = over })
    → Inv s
    → Inv (call s i over todo)
unfolding call
call-Inv s i over [] e v = v
call-Inv s i over (x ∷ es) e v =
    let c : Connection = record { todo = es; over = over } in
    let d : Connection = record { todo = x ∷ es; over = over } in
    let (incs, decs, closes) = tally_moves x es s.made in
    record {
      parallel = length-set_at i c s.connections ∙ v.parallel;
      gauge = omega (
        arith,
        incs,
        decs,
        v.gauge,
        weigh-set_at incs_of i c d s.connections e,
        weigh-set_at decs_of i c d s.connections e,
      );
      closes = omega (
        arith,
        closes,
        decs,
        v.closes,
        weigh-set_at closes_of i c d s.connections e,
        weigh-set_at called_decs_of i c d s.connections e,
      );
      ordered =
          All-set_at IsOrderly i c s.connections
            (All-get_elem IsOrderly i d s.connections e v.ordered).2 v.ordered;
    }

end_task-Inv :
    (s : State) (i : ℕ) (over : Bool) (todo : List Effect)
    → get_elem? s.connections i ≡ some (record { todo = todo; over = over })
    → Inv s
    → Inv (end_task s i over todo)
unfolding end_task Serve.step
end_task-Inv s i true [] e v =
    let d : Connection = record { todo = []; over = true } in
    record {
      parallel =
          length-remove_alike i s.connections s.serve.running v.parallel
          ∙ ap (λ (ts : List Task). length ts) (sym (running-end_task s.serve i _ refl));
      gauge = omega (
        arith,
        v.gauge,
        weigh-remove_at incs_of i d s.connections e,
        weigh-remove_at decs_of i d s.connections e,
      );
      closes = omega (
        arith,
        v.closes,
        weigh-remove_at closes_of i d s.connections e,
        weigh-remove_at called_decs_of i d s.connections e,
      );
      ordered = All-remove_at IsOrderly i s.connections v.ordered;
    }
end_task-Inv s i true (x ∷ es) e v = v
end_task-Inv s i false [] e v = v
end_task-Inv s i false (x ∷ es) e v = v

call_at-Inv :
    (s : State) (i : ℕ) (o : Option Connection)
    → get_elem? s.connections i ≡ o
    → Inv s
    → Inv (call_at s i o)
call_at-Inv s i none e v = v
call_at-Inv s i (some c) e v = call-Inv s i c.over c.todo e v

end_at-Inv :
    (s : State) (i : ℕ) (o : Option Connection)
    → get_elem? s.connections i ≡ o
    → Inv s
    → Inv (end_at s i o)
end_at-Inv s i none e v = v
end_at-Inv s i (some c) e v = end_task-Inv s i c.over c.todo e v

loop-Inv :
    (s : State) (e : Serve.Event)
    → (Serve.step s.serve e).running ≡ s.serve.running
    → Inv s
    → Inv (loop s e)
loop-Inv s e h v = record {
  parallel = v.parallel ∙ ap (λ (ts : List Task). length ts) (sym h);
  gauge = v.gauge;
  closes = v.closes;
  ordered = v.ordered;
}

step-Inv : (cfg : ProxyConfig) (s : State) (e : Event) → Inv s → Inv (step cfg s e)
unfolding step
step-Inv cfg s (accepts peer net) v = accept-Inv cfg s peer net v
step-Inv cfg s (calls i) v = call_at-Inv s i _ refl v
step-Inv cfg s (ends i) v = end_at-Inv s i _ refl v
step-Inv cfg s stops v = loop-Inv s _ (running-step s.serve).0 v
step-Inv cfg s accept_fails v = loop-Inv s _ (running-step s.serve).1 v
step-Inv cfg s pause_ends v = loop-Inv s _ (running-step s.serve).2 v
step-Inv cfg s returns v = loop-Inv s _ (running-step s.serve).3 v
step-Inv cfg s (joins i) v = loop-Inv s _ ((running-step s.serve).4 i) v

pub run-Inv : (cfg : ProxyConfig) (s : State) (es : List Event) → Inv s → Inv (run cfg s es)
unfolding run
run-Inv cfg s [] v = v
run-Inv cfg s (e ∷ es) v = run-Inv cfg (step cfg s e) es (step-Inv cfg s e v)
