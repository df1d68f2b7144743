-- ===== src/Proxy/Tcp/Active/Gauge.antt =====
-- src/proxy/tcp.rs: the gauge of active connections and the counter of closed ones, over any
-- interleaving of the connection tasks with the accept loop.
use oxiduct.Base.{
  ℕ, ◌+◌, ◌≤◌, ◌≡◌, refl, sym, ap, ◌∙◌, true, false, Bool, List, [], ◌∷◌, Option, none, some, arith,
  All, length, get_elem?,
}
use mathlib.Core.Path.{subst}
use oxiduct.Config.{ProxyConfig}
use oxiduct.Proxy.Tcp.Serve
use oxiduct.Proxy.Tcp.Serve.{Task, Stage, accepting, backing_off, joining, returned}
use oxiduct.Proxy.Tcp.Serve.Joined.{IsEmpty, step-IsEmpty}
use oxiduct.Proxy.Tcp.Handle.{Effect, Handled, handle}
use oxiduct.Proxy.Tcp.Handle.Accounts.{tally}
use oxiduct.Proxy.Tcp.Active.{
  Connection, State, start, Event, accepts, calls, ends, stops, accept_fails, pause_ends, returns,
  joins, spawned, accept, call, call_at, end_task, end_at, step, run,
}
use oxiduct.Proxy.Tcp.Active.Sums.{owed, IsOrdered, weigh}
use oxiduct.Proxy.Tcp.Active.Invariant.{
  incs_of, decs_of, called_decs_of, closes_of, IsOrderly, Inv, run-Inv,
}

-- A connection still owes the gauge at most one call down.
orderly_lem : (c : Connection) → IsOrderly c → (incs_of c ≤ decs_of c) × (decs_of c ≤ incs_of c + 1)
orderly_lem c h = bounds c.todo c.over h
  where
    bounds :
        (todo : List Effect) (over : Bool)
        → IsOrdered todo over
        → ((tally todo).incs ≤ (tally todo).decs + owed over)
          × ((tally todo).decs + owed over ≤ (tally todo).incs + 1)
    bounds [] true h = ground arith
    bounds [] false h = ground arith
    bounds (e ∷ es) over h = (h.0, h.1)

weigh_bounds :
    (cs : List Connection)
    → All IsOrderly cs
    → (weigh incs_of cs ≤ weigh decs_of cs) × (weigh decs_of cs ≤ weigh incs_of cs + length cs)
unfolding weigh
weigh_bounds [] h = ground arith
weigh_bounds (c ∷ cs) h = omega (arith, orderly_lem c h.0, weigh_bounds cs h.1)

weigh_none : (f : Connection → ℕ) (cs : List Connection) → length cs ≡ 0 → weigh f cs ≡ 0
unfolding weigh
weigh_none f [] e = refl
weigh_none f (c ∷ cs) e = ground arith

call-serve : (s : State) (i : ℕ) (o : Option Connection) → (call_at s i o).serve ≡ s.serve
unfolding call
call-serve s i none = refl
call-serve s i (some c) = ground arith

end-IsEmpty :
    (s : State) (i : ℕ) (o : Option Connection) → IsEmpty s.serve → IsEmpty (end_at s i o).serve
unfolding end_task
end-IsEmpty s i none v = v
end-IsEmpty s i (some c) v = ground (arith, v, step-IsEmpty s.serve (Serve.ends i) v)

accept-IsEmpty :
    (s : State) (next : Serve.State) (h : Handled) (b : Bool)
    → IsEmpty next
    → IsEmpty (spawned s next h b).serve
accept-IsEmpty s next h true v = v
accept-IsEmpty s next h false v = v

step-Empty :
    (cfg : ProxyConfig) (s : State) (e : Event) → IsEmpty s.serve → IsEmpty (step cfg s e).serve
unfolding step accept
step-Empty cfg s (accepts peer net) v =
    accept-IsEmpty s _ (handle cfg peer net) _ (step-IsEmpty s.serve (Serve.accepts peer) v)
step-Empty cfg s (calls i) v =
    subst (λ t. IsEmpty t) (sym (call-serve s i (get_elem? s.connections i))) v
step-Empty cfg s (ends i) v = end-IsEmpty s i (get_elem? s.connections i) v
step-Empty cfg s stops v = step-IsEmpty s.serve Serve.stops v
step-Empty cfg s accept_fails v = step-IsEmpty s.serve Serve.accept_fails v
step-Empty cfg s pause_ends v = step-IsEmpty s.serve Serve.pause_ends v
step-Empty cfg s returns v = step-IsEmpty s.serve Serve.returns v
step-Empty cfg s (joins i) v = step-IsEmpty s.serve (Serve.joins i) v

run-Empty :
    (cfg : ProxyConfig) (s : State) (es : List Event)
    → IsEmpty s.serve
    → IsEmpty (run cfg s es).serve
unfolding run
run-Empty cfg s [] v = v
run-Empty cfg s (e ∷ es) v = run-Empty cfg (step cfg s e) es (step-Empty cfg s e v)

-- Whatever the network does to the connections, and however their tasks interleave, the gauge of
-- active connections is never negative and never above the number of running tasks; and once the
-- listener has returned it is back at 0, and every relay that was counted as active has been
-- counted as closed.
pub run-start-gauge :
    (cfg : ProxyConfig) (next_id : ℕ) (es : List Event)
    → let s = run cfg (start cfg next_id) es in
      let c = tally s.made in
      (c.decs ≤ c.incs)
      × (c.incs ≤ c.decs + length s.serve.running)
      × (s.serve.stage ≡ returned → (c.incs ≡ c.decs) × (c.closes ≡ c.incs))
unfolding start weigh Serve.start
run-start-gauge cfg next_id es =
    let s = run cfg (start cfg next_id) es in
    let v =
      run-Inv cfg (start cfg next_id) es
        (record { parallel = refl; gauge = refl; closes = refl; ordered = tt }) in
    let (least, most) = weigh_bounds s.connections v.ordered in
    (
      omega (arith, v.gauge, least),
      omega (arith, v.gauge, most, v.parallel),
      λ e.
          let (gone, joined) = run-Empty cfg (start cfg next_id) es (λ q. (refl, refl)) e in
          let none_left : length s.connections ≡ 0 =
            v.parallel ∙ ap (λ (ts : List Task). length ts) gone in
          balanced s v none_left,
    )
  where
    balanced :
        (s : State)
        → Inv s
        → length s.connections ≡ 0
        → let c = tally s.made in (c.incs ≡ c.decs) × (c.closes ≡ c.incs)
    balanced s v e = omega (
      arith,
      v.gauge,
      v.closes,
      weigh_none incs_of s.connections e,
      weigh_none decs_of s.connections e,
      weigh_none closes_of s.connections e,
      weigh_none called_decs_of s.connections e,
    )
