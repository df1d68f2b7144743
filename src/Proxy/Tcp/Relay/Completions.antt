-- ===== src/Proxy/Tcp/Relay/Completions.antt =====
-- src/proxy/tcp.rs, `relay`: the completions in the channel, the flags of the watchdog, and the
-- tasks that have left their loops.
use mathlib.Core.Path.{subst}
use oxiduct.Base.{
  Option, ℕ, ◌+◌, ◌≤◌, ◌≡◌, ◌∙◌, Bool, true, false, ◌&&◌, List, [], ◌∷◌, ◌++◌, some, arith, All,
  length,
}
use oxiduct.Proxy.Tcp.{Dir, up, down, End, eof}
use oxiduct.Proxy.Tcp.Watchdog
use oxiduct.Proxy.Tcp.Watchdog.{
  Reason, both_eof, idle_timeout, half_close_timeout, shutdown, reset, Timeouts, Watch, Check,
  Outcome, check, react, received, closed, slept, shutting_down,
}
use oxiduct.Proxy.Tcp.Relay.{
  with_chunk, Relay, Watching, at_top, selecting, returned, side, is_over, checked, check_step,
}
use oxiduct.Proxy.Tcp.Relay.Sides.{end_of}

-- How many completions of a direction are in the channel.
unfoldable pub pending : Dir → List (Dir × End) → ℕ
pending d [] = 0
pending up ((up, end) ∷ ms) = 1 + pending up ms
pending up ((down, end) ∷ ms) = pending up ms
pending down ((up, end) ∷ ms) = pending down ms
pending down ((down, end) ∷ ms) = 1 + pending down ms

abbrev pub once : Bool → ℕ
once true = 1
once false = 0

abbrev pub done : Dir → Watch → Bool
done up w = w.up_done
done down w = w.down_done

-- The completion of a direction is in the channel, or the watchdog has noted it; and what it has
-- noted was a clean end.
abbrev pub Noted : Relay → Watch → Dir → Type 0
Noted s w d =
    (pending d s.channel + once (done d w) ≡ once (is_over (side s d).copying))
    × (done d w ≡ true → end_of (side s d).copying ≡ some eof)

-- A watchdog that goes on has not cancelled, and its channel is open.
pub record IsWatching (s : Relay) (w : Watch) : Type 0 where
  pub calm : s.cancelled ≡ false
  pub open_ : w.channel_open ≡ true
  pub ups : Noted s w up
  pub downs : Noted s w down

-- The watchdog returns for two clean ends, or cancels the token.
abbrev pub Watched : Relay → Watching → Type 0
Watched s (at_top w) = IsWatching s w
Watched s (selecting w) = IsWatching s w × (w.up_done && w.down_done ≡ false)
Watched s (returned both_eof) =
    (s.cancelled ≡ false)
    × (end_of s.up_side.copying ≡ some eof)
    × (end_of s.down_side.copying ≡ some eof)
Watched s (returned idle_timeout) = s.cancelled ≡ true
Watched s (returned half_close_timeout) = s.cancelled ≡ true
Watched s (returned shutdown) = s.cancelled ≡ true
Watched s (returned reset) = s.cancelled ≡ true

-- A completion in the channel is that of a task that has left its loop.
abbrev pub Reported : Relay → Dir × End → Type 0
Reported s (d, end) = end_of (side s d).copying ≡ some end

pub record IsConsistent (s : Relay) : Type 0 where
  pub content : All (Reported s) s.channel
  pub ups : pending up s.channel ≤ once (is_over s.up_side.copying)
  pub downs : pending down s.channel ≤ once (is_over s.down_side.copying)
  pub watched : Watched s s.watch

pub pending-append :
    (d : Dir) (ms ns : List (Dir × End)) → pending d (ms ++ ns) ≡ pending d ms + pending d ns
unfolding pending
pending-append d [] ns = omega arith
pending-append up ((up, end) ∷ ms) ns = omega (arith, pending-append up ms ns)
pending-append up ((down, end) ∷ ms) ns = pending-append up ms ns
pending-append down ((up, end) ∷ ms) ns = pending-append down ms ns
pending-append down ((down, end) ∷ ms) ns = omega (arith, pending-append down ms ns)

pub length-pending : (ms : List (Dir × End)) → length ms ≡ pending up ms + pending down ms
unfolding pending
length-pending [] = omega arith
length-pending ((up, end) ∷ ms) = omega (arith, length-pending ms)
length-pending ((down, end) ∷ ms) = omega (arith, length-pending ms)

-- What the checks before the wait keep and find.
abbrev Finds : Watch → Check → Type 0
Finds w (Check.stop both_eof c) = (w.up_done ≡ true) × (w.down_done ≡ true) × (c ≡ false)
Finds w (Check.stop reason c) = c ≡ true
Finds w (Check.wait v wake_ms) =
    (v.up_done ≡ w.up_done)
    × (v.down_done ≡ w.down_done)
    × (v.channel_open ≡ w.channel_open)
    × (w.up_done && w.down_done ≡ false)

check-Finds : (t : Timeouts) (w : Watch) (now last : ℕ) → Finds w (check t w now last)
unfolding check Watchdog.check_half_close
check-Finds t w now last = ground arith

checked-IsConsistent :
    (s : Relay) (w : Watch) (c : Check)
    → Finds w c
    → IsConsistent s
    → IsWatching s w
    → IsConsistent (checked s c)
checked-IsConsistent s w (Check.stop both_eof c) (u, d, e) v k = record {
  content = v.content;
  ups = v.ups;
  downs = v.downs;
  watched = (ground (arith, k.calm), k.ups.1 u, k.downs.1 d);
}
checked-IsConsistent s w (Check.stop _ c) e v k = record {
  content = v.content;
  ups = v.ups;
  downs = v.downs;
  watched = ground arith;
}
checked-IsConsistent s w (Check.wait x wake_ms) (u, d, c, e) v k = record {
  content = v.content;
  ups = v.ups;
  downs = v.downs;
  watched = (
    record {
      calm = k.calm;
      open_ = c ∙ k.open_;
      ups = ground (arith, k.ups);
      downs = ground (arith, k.downs);
    },
    ground arith,
  );
}

pub check-IsConsistent :
    (t : Timeouts) (s : Relay) (w : Watching) (now : ℕ)
    → s.watch ≡ w
    → IsConsistent s
    → IsConsistent (check_step t s w now)
unfolding check_step
check-IsConsistent t s (at_top w) now e v =
    checked-IsConsistent s w (check t w now s.last_activity) (check-Finds t w now s.last_activity) v
      (subst (Watched s) e v.watched)
check-IsConsistent t s (selecting w) now e v = v
check-IsConsistent t s (returned r) now e v = v

-- A chunk that waits for its writer is nothing to the channel.
chunk-IsWatching :
    (s : Relay) (dir : Dir) (o : Option (List ℕ)) (last : ℕ) (w : Watch)
    → IsWatching s w
    → IsWatching (with_chunk s dir o last) w
chunk-IsWatching s up o last w k = record {
  calm = k.calm;
  open_ = k.open_;
  ups = k.ups;
  downs = k.downs;
}
chunk-IsWatching s down o last w k = record {
  calm = k.calm;
  open_ = k.open_;
  ups = k.ups;
  downs = k.downs;
}

chunk-Watched :
    (s : Relay) (dir : Dir) (o : Option (List ℕ)) (last : ℕ) (w : Watching)
    → Watched s w
    → Watched (with_chunk s dir o last) w
chunk-Watched s dir o last (at_top w) k = chunk-IsWatching s dir o last w k
chunk-Watched s dir o last (selecting w) (k, n) = (chunk-IsWatching s dir o last w k, n)
chunk-Watched s up o last (returned both_eof) h = h
chunk-Watched s up o last (returned idle_timeout) h = h
chunk-Watched s up o last (returned half_close_timeout) h = h
chunk-Watched s up o last (returned shutdown) h = h
chunk-Watched s up o last (returned reset) h = h
chunk-Watched s down o last (returned both_eof) h = h
chunk-Watched s down o last (returned idle_timeout) h = h
chunk-Watched s down o last (returned half_close_timeout) h = h
chunk-Watched s down o last (returned shutdown) h = h
chunk-Watched s down o last (returned reset) h = h

pub chunk-IsConsistent :
    (s : Relay) (dir : Dir) (o : Option (List ℕ)) (last : ℕ)
    → IsConsistent s
    → IsConsistent (with_chunk s dir o last)
chunk-IsConsistent s up o last v = record {
  content = v.content;
  ups = v.ups;
  downs = v.downs;
  watched = chunk-Watched s up o last s.watch v.watched;
}
chunk-IsConsistent s down o last v = record {
  content = v.content;
  ups = v.ups;
  downs = v.downs;
  watched = chunk-Watched s down o last s.watch v.watched;
}
