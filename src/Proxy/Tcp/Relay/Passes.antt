-- ===== src/Proxy/Tcp/Relay/Passes.antt =====
-- src/proxy/tcp.rs, `relay`: the channel of completions after a pass of a copying task.
use oxiduct.Base.{ℕ, ◌+◌, ◌≡◌, refl, ap, ◌++◌, arith, All, All-map, All-append}
use oxiduct.Proxy.Tcp.{Dir, up, down, End}
use oxiduct.Proxy.Tcp.Copy.{Flow, Copying, Pass}
use oxiduct.Proxy.Tcp.Watchdog.{both_eof, idle_timeout, half_close_timeout, shutdown, reset, Watch}
use oxiduct.Proxy.Tcp.Relay.{
  Side, Relay, Watching, at_top, selecting, returned, side, with_side, is_over, reports, moved,
  copy_step,
}
use oxiduct.Proxy.Tcp.Relay.Sides.{end_of}
use oxiduct.Proxy.Tcp.Relay.Completions.{
  pending, pending-append, once, IsWatching, Watched, Reported, IsConsistent,
}

-- A task that is still in its loop comes to a state of it, or to its end and a report.
abbrev came_to : Relay → Dir → Side → ℕ → Relay
came_to s dir x last = record (with_side s dir x) {
  channel = s.channel ++ reports dir x.copying;
  last_activity = last;
}

pending-reports :
    (c : Copying)
    → (pending up (reports up c) ≡ once (is_over c))
      × (pending down (reports up c) ≡ 0)
      × (pending up (reports down c) ≡ 0)
      × (pending down (reports down c) ≡ once (is_over c))
unfolding pending
pending-reports c = ground arith

content-reports :
    (s : Relay) (dir : Dir) (x : Side) (last : ℕ) (c : Copying)
    → x.copying ≡ c
    → All (Reported (came_to s dir x last)) (reports dir c)
content-reports s dir x last (Copying.running f) e = tt
content-reports s up x last (Copying.finished f end) e = (ap end_of e, tt)
content-reports s down x last (Copying.finished f end) e = (ap end_of e, tt)

-- A task in its loop has made no report.
module _ (s : Relay) (x : Side) (last : ℕ) (f : Flow) (v : IsConsistent s) where
  up-Reported :
      s.up_side.copying ≡ Copying.running f
      → (m : Dir × End) → Reported s m
      → Reported (came_to s up x last) m
  up-Reported e (up, end) r = ground (arith, e, r)
  up-Reported e (down, end) r = r

  down-Reported :
      s.down_side.copying ≡ Copying.running f
      → (m : Dir × End) → Reported s m
      → Reported (came_to s down x last) m
  down-Reported e (up, end) r = r
  down-Reported e (down, end) r = ground (arith, e, r)

  up-IsWatching :
      s.up_side.copying ≡ Copying.running f
      → (w : Watch) → IsWatching s w
      → IsWatching (came_to s up x last) w
  up-IsWatching e w k = record {
    calm = k.calm;
    open_ = k.open_;
    ups = ground (
      arith,
      k.ups,
      k.downs,
      e,
      pending-reports x.copying,
      pending-append up s.channel (reports up x.copying),
    );
    downs = ground (
      arith,
      k.ups,
      k.downs,
      e,
      pending-reports x.copying,
      pending-append down s.channel (reports up x.copying),
    );
  }

  up-Watched :
      s.up_side.copying ≡ Copying.running f
      → (w : Watching) → Watched s w
      → Watched (came_to s up x last) w
  up-Watched e (at_top w) k = up-IsWatching e w k
  up-Watched e (selecting w) (k, n) = (up-IsWatching e w k, n)
  up-Watched e (returned both_eof) k = ground (arith, e, k)
  up-Watched e (returned idle_timeout) k = k
  up-Watched e (returned half_close_timeout) k = k
  up-Watched e (returned shutdown) k = k
  up-Watched e (returned reset) k = k

  down-IsWatching :
      s.down_side.copying ≡ Copying.running f
      → (w : Watch) → IsWatching s w
      → IsWatching (came_to s down x last) w
  down-IsWatching e w k = record {
    calm = k.calm;
    open_ = k.open_;
    ups = ground (
      arith,
      k.ups,
      k.downs,
      e,
      pending-reports x.copying,
      pending-append up s.channel (reports down x.copying),
    );
    downs = ground (
      arith,
      k.ups,
      k.downs,
      e,
      pending-reports x.copying,
      pending-append down s.channel (reports down x.copying),
    );
  }

  down-Watched :
      s.down_side.copying ≡ Copying.running f
      → (w : Watching) → Watched s w
      → Watched (came_to s down x last) w
  down-Watched e (at_top w) k = down-IsWatching e w k
  down-Watched e (selecting w) (k, n) = (down-IsWatching e w k, n)
  down-Watched e (returned both_eof) k = ground (arith, e, k)
  down-Watched e (returned idle_timeout) k = k
  down-Watched e (returned half_close_timeout) k = k
  down-Watched e (returned shutdown) k = k
  down-Watched e (returned reset) k = k

  up-IsConsistent : s.up_side.copying ≡ Copying.running f → IsConsistent (came_to s up x last)
  up-IsConsistent e = record {
    content =
        All-append (Reported (came_to s up x last)) s.channel (reports up x.copying)
          (All-map (up-Reported e) s.channel v.content)
          (content-reports s up x last x.copying refl);
    ups = ground (arith, v.ups, counted up, pending-reports x.copying, e);
    downs = omega (arith, v.downs, counted down, pending-reports x.copying);
    watched = up-Watched e s.watch v.watched;
  }
    where
      counted :
          (d : Dir)
          → pending d (s.channel ++ reports up x.copying)
            ≡ pending d s.channel + pending d (reports up x.copying)
      counted d = pending-append d s.channel (reports up x.copying)

  down-IsConsistent : s.down_side.copying ≡ Copying.running f → IsConsistent (came_to s down x last)
  down-IsConsistent e = record {
    content =
        All-append (Reported (came_to s down x last)) s.channel (reports down x.copying)
          (All-map (down-Reported e) s.channel v.content)
          (content-reports s down x last x.copying refl);
    ups = omega (arith, v.ups, counted up, pending-reports x.copying);
    downs = ground (arith, v.downs, counted down, pending-reports x.copying, e);
    watched = down-Watched e s.watch v.watched;
  }
    where
      counted :
          (d : Dir)
          → pending d (s.channel ++ reports down x.copying)
            ≡ pending d s.channel + pending d (reports down x.copying)
      counted d = pending-append d s.channel (reports down x.copying)

pub copy_step-IsConsistent :
    (s : Relay) (dir : Dir) (c : Copying) (p : Pass)
    → (side s dir).copying ≡ c
    → IsConsistent s
    → IsConsistent (copy_step s dir c p)
unfolding copy_step moved
copy_step-IsConsistent s dir (Copying.finished f end) p e v = v
copy_step-IsConsistent s up (Copying.running f) p e v = up-IsConsistent s _ _ f v e
copy_step-IsConsistent s down (Copying.running f) p e v = down-IsConsistent s _ _ f v e
