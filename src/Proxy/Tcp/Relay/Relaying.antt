-- ===== src/Proxy/Tcp/Relay/Relaying.antt =====
-- src/proxy/tcp.rs, `relay`: what every move of its tasks keeps.
use oxiduct.Base.{Option, ℕ, ◌≡◌, refl, List, [], ◌∷◌, some, none, arith}
use oxiduct.Proxy.Tcp.{Dir, up, down}
use oxiduct.Proxy.Tcp.Copy.{Copying, Pass}
use oxiduct.Proxy.Tcp.Watchdog.{Timeouts, Check, Outcome, react, check}
use oxiduct.Proxy.Tcp.Relay.{
  reads, with_chunk, read_step, pass_step, writing, Relay, Watching, at_top, selecting, returned,
  Ready, Move, passes, checks, wakes, start, side, step, run, copy_step, moved, check_step,
  wake_step, checked, reacted, event,
}
use oxiduct.Proxy.Tcp.Relay.Sides.{IsSound, pass-IsSound, cancelled-IsSound, start-IsSound}
use oxiduct.Proxy.Tcp.Relay.Completions.{
  pending, IsConsistent, check-IsConsistent, chunk-IsConsistent,
}
use oxiduct.Proxy.Tcp.Relay.Wakes.{wake-IsConsistent}
use oxiduct.Proxy.Tcp.Relay.Passes.{copy_step-IsConsistent}

pub record IsRelaying (s : Relay) : Type 0 where
  pub up_side : IsSound s.cancelled s.up_side
  pub down_side : IsSound s.cancelled s.down_side
  pub consistent : IsConsistent s

start-IsRelaying : (now : ℕ) → IsRelaying (start now)
unfolding start pending
start-IsRelaying now = record {
  up_side = start-IsSound now;
  down_side = start-IsSound now;
  consistent = record {
    content = tt;
    ups = omega arith;
    downs = omega arith;
    watched = record { calm = refl; open_ = refl; ups = (refl, λ e. cc); downs = (refl, λ e. cc) };
  };
}

copy_step-IsRelaying :
    (s : Relay) (dir : Dir) (c : Copying) (p : Pass)
    → (side s dir).copying ≡ c
    → IsRelaying s
    → IsRelaying (copy_step s dir c p)
unfolding copy_step moved
copy_step-IsRelaying s dir (Copying.finished f end) p e v = v
copy_step-IsRelaying s up (Copying.running f) p e v = record {
  up_side = pass-IsSound s.cancelled s.up_side f s.last_activity p e v.up_side;
  down_side = v.down_side;
  consistent = copy_step-IsConsistent s up (Copying.running f) p e v.consistent;
}
copy_step-IsRelaying s down (Copying.running f) p e v = record {
  up_side = v.up_side;
  down_side = pass-IsSound s.cancelled s.down_side f s.last_activity p e v.down_side;
  consistent = copy_step-IsConsistent s down (Copying.running f) p e v.consistent;
}

-- A chunk and its time are nothing to the channel and the relayed bytes.
chunk-IsRelaying :
    (s : Relay) (dir : Dir) (o : Option (List ℕ)) (last : ℕ)
    → IsRelaying s
    → IsRelaying (with_chunk s dir o last)
chunk-IsRelaying s up o last v = record {
  up_side = v.up_side;
  down_side = v.down_side;
  consistent = chunk-IsConsistent s up o last v.consistent;
}
chunk-IsRelaying s down o last v = record {
  up_side = v.up_side;
  down_side = v.down_side;
  consistent = chunk-IsConsistent s down o last v.consistent;
}

read_step-IsRelaying :
    (s : Relay) (dir : Dir) (c : Copying) (o : Option (List ℕ)) (now : ℕ) (chunk : List ℕ)
    → IsRelaying s
    → IsRelaying (read_step s dir c o now chunk)
unfolding read_step
read_step-IsRelaying s dir (Copying.running f) none now (b ∷ bs) v =
    chunk-IsRelaying s dir (some (b ∷ bs)) now v
read_step-IsRelaying s dir (Copying.running f) none now [] v = v
read_step-IsRelaying s dir (Copying.running f) (some x) now chunk v = v
read_step-IsRelaying s dir (Copying.finished f end) o now chunk v = v

pass_step-IsRelaying :
    (s : Relay) (dir : Dir) (o : Option (List ℕ)) (p : Pass)
    → IsRelaying s
    → IsRelaying (pass_step s dir o p)
unfolding pass_step
pass_step-IsRelaying s dir none p v = copy_step-IsRelaying s dir _ p refl v
pass_step-IsRelaying s dir (some chunk) p v =
    chunk-IsRelaying (copy_step s dir (side s dir).copying (writing chunk p)) dir none
      s.last_activity (copy_step-IsRelaying s dir _ (writing chunk p) refl v)

-- The watchdog leaves the tasks as they are, and may cancel them.
checked-sides :
    (s : Relay) (c : Check)
    → IsRelaying s
    → IsSound (checked s c).cancelled (checked s c).up_side
      × IsSound (checked s c).cancelled (checked s c).down_side
checked-sides s (Check.stop reason c) v = (
  cancelled-IsSound s.cancelled c s.up_side v.up_side,
  cancelled-IsSound s.cancelled c s.down_side v.down_side,
)
checked-sides s (Check.wait w wake_ms) v = (v.up_side, v.down_side)

reacted-sides :
    (s : Relay) (o : Outcome)
    → IsRelaying s
    → IsSound (reacted s o).cancelled (reacted s o).up_side
      × IsSound (reacted s o).cancelled (reacted s o).down_side
reacted-sides s (Outcome.running w) v = (v.up_side, v.down_side)
reacted-sides s (Outcome.ended reason c) v = (
  cancelled-IsSound s.cancelled c s.up_side v.up_side,
  cancelled-IsSound s.cancelled c s.down_side v.down_side,
)

check_step-IsRelaying :
    (t : Timeouts) (s : Relay) (w : Watching) (now : ℕ)
    → s.watch ≡ w
    → IsRelaying s
    → IsRelaying (check_step t s w now)
unfolding check_step
check_step-IsRelaying t s (at_top w) now e v =
    let (ups, downs) = checked-sides s (check t w now s.last_activity) v in
    record {
      up_side = ups;
      down_side = downs;
      consistent = check-IsConsistent t s (at_top w) now e v.consistent;
    }
check_step-IsRelaying t s (selecting w) now e v = v
check_step-IsRelaying t s (returned r) now e v = v

wake_step-IsRelaying :
    (s : Relay) (w : Watching) (ready : Ready)
    → s.watch ≡ w
    → IsRelaying s
    → IsRelaying (wake_step s w ready)
unfolding wake_step
wake_step-IsRelaying s (at_top w) ready e v = v
wake_step-IsRelaying s (selecting w) ready e v =
    let (ups, downs) = reacted-sides s (react w (event s ready)) v in
    record {
      up_side = ups;
      down_side = downs;
      consistent = wake-IsConsistent s (selecting w) ready e v.consistent;
    }
wake_step-IsRelaying s (returned r) ready e v = v

run-IsRelaying :
    (t : Timeouts) (s : Relay) (ms : List Move) → IsRelaying s → IsRelaying (run t s ms)
unfolding run step
run-IsRelaying t s [] v = v
run-IsRelaying t s (passes dir p ∷ ms) v =
    run-IsRelaying t (step t s (passes dir p)) ms (pass_step-IsRelaying s dir _ p v)
run-IsRelaying t s (reads dir now chunk ∷ ms) v =
    run-IsRelaying t (step t s (reads dir now chunk)) ms
      (read_step-IsRelaying s dir _ _ now chunk v)
run-IsRelaying t s (checks now ∷ ms) v =
    run-IsRelaying t (step t s (checks now)) ms (check_step-IsRelaying t s _ now refl v)
run-IsRelaying t s (wakes ready ∷ ms) v =
    run-IsRelaying t (step t s (wakes ready)) ms (wake_step-IsRelaying s _ ready refl v)

pub run-start-IsRelaying :
    (t : Timeouts) (now : ℕ) (ms : List Move) → IsRelaying (run t (start now) ms)
run-start-IsRelaying t now ms = run-IsRelaying t (start now) ms (start-IsRelaying now)
