-- ===== src/Proxy/Tcp/Relay/Closing.antt =====
-- src/proxy/tcp.rs, `relay`: what holds when a relay is over, over every schedule of its tasks.
use mathlib.Core.List.{append-nil}
use mathlib.Core.Path.{subst}
use oxiduct.Base.{
  Option, ℕ, ◌≤◌, ◌≡◌, refl, sym, ap, ◌∙◌, ◌⊎◌, inl, inr, true, false, List, [], ◌∷◌, ◌++◌, some,
  none, ◌≢◌, arith, length,
}
use oxiduct.Proxy.Tcp.{up, down, eof}
use oxiduct.Proxy.Tcp.Copy.{Flow, Copying, Pass, pass, on_read, write}
use oxiduct.Proxy.Tcp.Copy.Stream.{sum}
use oxiduct.Proxy.Tcp.Watchdog.{
  Reason, both_eof, idle_timeout, half_close_timeout, shutdown, reset, Timeouts,
}
use oxiduct.Proxy.Tcp.Relay.{
  pass_step, writing, Side, Relay, Watching, result, joined, returned, Move, passes, start, is_over,
  step, run, copy_step, moved,
}
use oxiduct.Proxy.Tcp.Relay.Sides.{end_of, IsSound}
use oxiduct.Proxy.Tcp.Relay.Completions.{length-pending, Watched}
use oxiduct.Proxy.Tcp.Relay.Relaying.{run-start-IsRelaying}

-- All bytes given are sent, in order, and counted, and the writer is shut down.
abbrev pub Delivered : Side → Type 0
Delivered x =
    (f : Flow) × (x.copying ≡ Copying.finished f eof)
    × (f.sent ≡ x.given)
    × (f.shut ≡ true)
    × (sum f.incs ≡ length x.given)

Delivered-of_eof :
    (given : List ℕ) (c : Copying)
    → IsSound false (record { copying = c; given = given })
    → end_of c ≡ some eof
    → Delivered (record { copying = c; given = given })
Delivered-of_eof given (Copying.running f) v e = cc
Delivered-of_eof given (Copying.finished f end) v e =
    let (unsent, split, rest, counts, le, exact) = v.relayed in
    let shut : f.shut ≡ true = v.clean refl e in
    let all : f.sent ≡ given =
      sym (append-nil f.sent) ∙ ap (◌++◌ f.sent) (sym (rest shut)) ∙ split in
    (f, ap (Copying.finished f) (ground arith), all, shut, exact shut ∙ ap (λ x. length x) all)

-- When a relay closes with the reason "eof", each direction has sent every byte that its reader
-- gave, in order, has shut its writer down, and has counted exactly these bytes, whatever the
-- schedule of the three tasks was.
pub run-Delivered :
    (t : Timeouts) (now : ℕ) (ms : List Move)
    → (run t (start now) ms).watch ≡ returned both_eof
    → Delivered (run t (start now) ms).up_side × Delivered (run t (start now) ms).down_side
run-Delivered t now ms e =
    let v = run-start-IsRelaying t now ms in
    let (calm, ups, downs) = subst (Watched (run t (start now) ms)) e v.consistent.watched in
    (
      Delivered-of_eof _ _ (subst (λ c. IsSound c (run t (start now) ms).up_side) calm v.up_side)
          ups,
      Delivered-of_eof _ _
          (subst (λ c. IsSound c (run t (start now) ms).down_side) calm v.down_side) downs,
    )

-- The channel of two places is never full when a task reports, so that no report waits.
pub length-channel :
    (t : Timeouts) (now : ℕ) (ms : List Move) → length (run t (start now) ms).channel ≤ 2
length-channel t now ms =
    let v = (run-start-IsRelaying t now ms).consistent in
    ground (arith, v.ups, v.downs, length-pending (run t (start now) ms).channel)

-- A watchdog that has returned has cancelled the tasks, or they are over.
stopped :
    (s : Relay) (reason : Reason)
    → Watched s (returned reason)
    → (s.cancelled ≡ true)
      ⊎ ((is_over s.up_side.copying ≡ true) × (is_over s.down_side.copying ≡ true))
stopped s both_eof (calm, ups, downs) = inr (ground (arith, ups), ground (arith, downs))
stopped s idle_timeout h = inl h
stopped s half_close_timeout h = inl h
stopped s shutdown h = inl h
stopped s reset h = inl h

-- A task that sees the cancellation is over, wherever in its pass it stands, and changes nothing for
-- the others but the channel and the clock.
module _ (s : Relay) (p : Pass) (seen : p.cancelled ≡ true) where
  up_over :
      (c : Copying)
      → s.up_side.copying ≡ c
      → (s.cancelled ≡ true) ⊎ (is_over c ≡ true)
      → is_over (copy_step s up c p).up_side.copying ≡ true
  unfolding copy_step moved pass
  up_over (Copying.running f) e k = ground arith
  up_over (Copying.finished f end) e k = ground (arith, ap is_over e)

  up_written :
      (chunk : List ℕ) (c : Copying)
      → s.up_side.copying ≡ c
      → (s.cancelled ≡ true) ⊎ (is_over c ≡ true)
      → is_over (copy_step s up c (writing chunk p)).up_side.copying ≡ true
  unfolding copy_step moved pass on_read write
  up_written [] (Copying.running f) e k = ground arith
  up_written (b ∷ bs) (Copying.running f) e k = ground arith
  up_written chunk (Copying.finished f end) e k = ground (arith, ap is_over e)

  up_stops :
      (o : Option (List ℕ))
      → (s.cancelled ≡ true) ⊎ (is_over s.up_side.copying ≡ true)
      → is_over (pass_step s up o p).up_side.copying ≡ true
  unfolding pass_step
  up_stops none k = up_over _ refl k
  up_stops (some chunk) k = up_written chunk _ refl k

  down_over :
      (c : Copying)
      → s.down_side.copying ≡ c
      → (s.cancelled ≡ true) ⊎ (is_over c ≡ true)
      → is_over (copy_step s down c p).down_side.copying ≡ true
  unfolding copy_step moved pass
  down_over (Copying.running f) e k = ground arith
  down_over (Copying.finished f end) e k = ground (arith, ap is_over e)

  down_written :
      (chunk : List ℕ) (c : Copying)
      → s.down_side.copying ≡ c
      → (s.cancelled ≡ true) ⊎ (is_over c ≡ true)
      → is_over (copy_step s down c (writing chunk p)).down_side.copying ≡ true
  unfolding copy_step moved pass on_read write
  down_written [] (Copying.running f) e k = ground arith
  down_written (b ∷ bs) (Copying.running f) e k = ground arith
  down_written chunk (Copying.finished f end) e k = ground (arith, ap is_over e)

  down_stops :
      (o : Option (List ℕ))
      → (s.cancelled ≡ true) ⊎ (is_over s.down_side.copying ≡ true)
      → is_over (pass_step s down o p).down_side.copying ≡ true
  unfolding pass_step
  down_stops none k = down_over _ refl k
  down_stops (some chunk) k = down_written chunk _ refl k

copy_step-up :
    (s : Relay) (c : Copying) (p : Pass)
    → ((copy_step s up c p).watch ≡ s.watch)
      × ((copy_step s up c p).cancelled ≡ s.cancelled)
      × ((copy_step s up c p).down_side ≡ s.down_side)
unfolding copy_step moved
copy_step-up s (Copying.running f) p = (refl, refl, refl)
copy_step-up s (Copying.finished f end) p = (refl, refl, refl)

pass_step-up :
    (s : Relay) (o : Option (List ℕ)) (p : Pass)
    → ((pass_step s up o p).watch ≡ s.watch)
      × ((pass_step s up o p).cancelled ≡ s.cancelled)
      × ((pass_step s up o p).down_side ≡ s.down_side)
unfolding pass_step
pass_step-up s none p = copy_step-up s s.up_side.copying p
pass_step-up s (some chunk) p = copy_step-up s s.up_side.copying (writing chunk p)

copy_step-down :
    (s : Relay) (c : Copying) (p : Pass)
    → ((copy_step s down c p).watch ≡ s.watch) × ((copy_step s down c p).up_side ≡ s.up_side)
unfolding copy_step moved
copy_step-down s (Copying.running f) p = (refl, refl)
copy_step-down s (Copying.finished f end) p = (refl, refl)

pass_step-down :
    (s : Relay) (o : Option (List ℕ)) (p : Pass)
    → ((pass_step s down o p).watch ≡ s.watch) × ((pass_step s down o p).up_side ≡ s.up_side)
unfolding pass_step
pass_step-down s none p = copy_step-down s s.down_side.copying p
pass_step-down s (some chunk) p = copy_step-down s s.down_side.copying (writing chunk p)

joined-ne-none :
    (w : Watching) (a b : Copying) (reason : Reason)
    → w ≡ returned reason
    → is_over a ≡ true
    → is_over b ≡ true
    → joined w a b ≢ none
joined-ne-none w a b reason e h k = ground arith

-- Once the watchdog has returned, the relay returns at the latest when each task has come to its
-- next look at the cancellation.
pub result-ne-none :
    (t : Timeouts) (now : ℕ) (ms : List Move) (reason : Reason) (p q : Pass)
    → (run t (start now) ms).watch ≡ returned reason
    → p.cancelled ≡ true
    → q.cancelled ≡ true
    → result (step t (step t (run t (start now) ms) (passes up p)) (passes down q)) ≢ none
unfolding step
result-ne-none t now ms reason p q e cp cq =
    joined-ne-none _ _ _ reason (c.0 ∙ b.0 ∙ e)
      (ap (λ x. is_over x.copying) c.1 ∙ up_stops s p cp s.up_chunk (ground (arith, over)))
      (down_stops s' q cq s'.down_chunk
        (ground (arith, over, b.1, ap (λ x. is_over x.copying) b.2)))
  where
    s : Relay
    s = run t (start now) ms

    s' : Relay
    s' = pass_step s up s.up_chunk p

    b : (s'.watch ≡ s.watch) × (s'.cancelled ≡ s.cancelled) × (s'.down_side ≡ s.down_side)
    b = pass_step-up s s.up_chunk p

    c :
        ((pass_step s' down s'.down_chunk q).watch ≡ s'.watch)
        × ((pass_step s' down s'.down_chunk q).up_side ≡ s'.up_side)
    c = pass_step-down s' s'.down_chunk q

    over :
        (s.cancelled ≡ true)
        ⊎ ((is_over s.up_side.copying ≡ true) × (is_over s.down_side.copying ≡ true))
    over = stopped s reason (subst (Watched s) e (run-start-IsRelaying t now ms).consistent.watched)
