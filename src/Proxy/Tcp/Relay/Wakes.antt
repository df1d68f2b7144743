-- ===== src/Proxy/Tcp/Relay/Wakes.antt =====
-- src/proxy/tcp.rs, `relay`: the flags of the watchdog and the channel after the end of its wait.
use mathlib.Core.Path.{subst}
use oxiduct.Base.{◌≡◌, refl, ap, true, false, ◌&&◌, ◌||◌, List, [], ◌∷◌, arith}
use oxiduct.Proxy.Tcp.{Dir, up, down, End, eof, err}
use oxiduct.Proxy.Tcp.Watchdog.{reset, Watch, Outcome, react, received, slept}
use oxiduct.Proxy.Tcp.Relay.{
  Relay, Watching, at_top, selecting, returned, Ready, shutdown_ready, channel_ready, sleep_ready,
  reacted, wake_step, event, receive, left_over, tail,
}
use oxiduct.Proxy.Tcp.Relay.Completions.{pending, IsWatching, Watched, IsConsistent}

-- The end of the wait, by what is ready.
abbrev woken : Relay → Watch → Ready → Relay
woken s w ready = record (reacted s (react w (event s ready))) {
  channel = left_over ready s.channel;
}

shutdown-IsConsistent :
    (s : Relay) (w : Watch) → IsConsistent s → IsConsistent (woken s w shutdown_ready)
unfolding react event
shutdown-IsConsistent s w v = record {
  content = v.content;
  ups = v.ups;
  downs = v.downs;
  watched = ground arith;
}

sleep-IsConsistent :
    (s : Relay) (w : Watch) → IsConsistent s → IsWatching s w → IsConsistent (woken s w sleep_ready)
unfolding react event
sleep-IsConsistent s w v k = record {
  content = v.content;
  ups = v.ups;
  downs = v.downs;
  watched = record { calm = k.calm; open_ = k.open_; ups = k.ups; downs = k.downs };
}

-- With both flags not yet set the channel is not closed.
receive-slept :
    (s : Relay) (w : Watch)
    → s.channel ≡ []
    → IsWatching s w
    → w.up_done && w.down_done ≡ false
    → receive s [] ≡ slept
unfolding receive pending
receive-slept s w e k n = ground (arith, k.ups.0, k.downs.0, ap (pending up) e, ap (pending down) e)

nothing-IsConsistent :
    (s : Relay) (w : Watch)
    → s.channel ≡ []
    → IsConsistent s
    → IsWatching s w
    → IsConsistent (record s { watch = at_top w; channel = [] })
unfolding pending
nothing-IsConsistent s w e v k = record {
  content = tt;
  ups = omega arith;
  downs = omega arith;
  watched = record {
    calm = k.calm;
    open_ = k.open_;
    ups = ground (arith, k.ups, ap (pending up) e);
    downs = ground (arith, k.downs, ap (pending down) e);
  };
}

react-err :
    (w : Watch) (d : Dir)
    → w.channel_open ≡ true
    → react w (received d err) ≡ Outcome.ended reset true
unfolding react
react-err w d h = ground arith

reset-IsConsistent :
    (s : Relay) (d : Dir) (ms : List (Dir × End))
    → s.channel ≡ (d, err) ∷ ms
    → IsConsistent s
    → IsConsistent
        (record s { watch = returned reset; channel = ms; cancelled = s.cancelled || true })
unfolding pending
reset-IsConsistent s up ms e v = record {
  content = (rw e at v.content).1;
  ups = omega (arith, v.ups, ap (pending up) e);
  downs = omega (arith, v.downs, ap (pending down) e);
  watched = ground arith;
}
reset-IsConsistent s down ms e v = record {
  content = (rw e at v.content).1;
  ups = omega (arith, v.ups, ap (pending up) e);
  downs = omega (arith, v.downs, ap (pending down) e);
  watched = ground arith;
}

channel-IsConsistent :
    (s : Relay) (w : Watch) (ms : List (Dir × End))
    → s.channel ≡ ms
    → IsConsistent s
    → IsWatching s w
    → w.up_done && w.down_done ≡ false
    → IsConsistent (record (reacted s (react w (receive s ms))) { channel = tail ms })
unfolding react receive pending
channel-IsConsistent s w [] e v k n = rw (receive-slept s w e k n) (nothing-IsConsistent s w e v k)
channel-IsConsistent s w ((up, eof) ∷ ms) e v k n = record {
  content = (rw e at v.content).1;
  ups = ground (arith, v.ups, ap (pending up) e);
  downs = ground (arith, v.downs, ap (pending down) e);
  watched = record {
    calm = ground (arith, k.calm);
    open_ = ground (arith, k.open_);
    ups = ground (arith, k.ups, k.open_, (rw e at v.content).0, ap (pending up) e);
    downs = ground (arith, k.downs, k.open_, (rw e at v.content).0, ap (pending down) e);
  };
}
channel-IsConsistent s w ((down, eof) ∷ ms) e v k n = record {
  content = (rw e at v.content).1;
  ups = ground (arith, v.ups, ap (pending up) e);
  downs = ground (arith, v.downs, ap (pending down) e);
  watched = record {
    calm = ground (arith, k.calm);
    open_ = ground (arith, k.open_);
    ups = ground (arith, k.ups, k.open_, (rw e at v.content).0, ap (pending up) e);
    downs = ground (arith, k.downs, k.open_, (rw e at v.content).0, ap (pending down) e);
  };
}
channel-IsConsistent s w ((up, err) ∷ ms) e v k n =
    rw (react-err w up k.open_) (reset-IsConsistent s up ms e v)
channel-IsConsistent s w ((down, err) ∷ ms) e v k n =
    rw (react-err w down k.open_) (reset-IsConsistent s down ms e v)

pub wake-IsConsistent :
    (s : Relay) (w : Watching) (ready : Ready)
    → s.watch ≡ w
    → IsConsistent s
    → IsConsistent (wake_step s w ready)
unfolding wake_step event
wake-IsConsistent s (at_top w) ready e v = v
wake-IsConsistent s (returned r) ready e v = v
wake-IsConsistent s (selecting w) shutdown_ready e v = shutdown-IsConsistent s w v
wake-IsConsistent s (selecting w) sleep_ready e v =
    sleep-IsConsistent s w v (subst (Watched s) e v.watched).0
wake-IsConsistent s (selecting w) channel_ready e v =
    let (k, n) = subst (Watched s) e v.watched in channel-IsConsistent s w s.channel refl v k n
