-- ===== src/Proxy/Udp/Histories.antt =====
-- src/proxy/udp.rs: the slots over a whole history of a listener.
use oxiduct.Base.{
  ℕ, ◌+◌, ◌<◌, ◌≡◌, ◌⊎◌, refl, ap, sym, List, [], ◌∷◌, Option, none, some, true, false, ◌==◌, arith,
  length, get_elem?, if_cases,
}
use oxiduct.Base.Words.{u32_mod}
use oxiduct.Net.{SocketAddr}
use oxiduct.Limits
use oxiduct.Limits.{ConnLimits}
use oxiduct.Limits.Lifetimes.{HasRoom, new-Inv}
use oxiduct.Config.{ProxyConfig}
use oxiduct.Proxy.Udp.{
  Listener, serving, missing, draining_tick, drained, shut, Session, Phase, opening, opened,
  checked, ending, Setup, State, Packet, start, session_of, try_send, touch, cancel, fast_path,
  evict, force,
}
use oxiduct.Proxy.Udp.Steps.{
  Move, opens, fails, tests, inserts, ends, Event, packet, marks, stops, ticks_sessions,
  ticks_pending, forces, shuts_down, setup, sends, receives, dies, cleans, step, run, advance,
  advance_at, update, when_serving, mark, tick_pending, when_id,
}
use oxiduct.Proxy.Udp.Guards.{
  guards, session_guards, setup_guards, phase_guards, session_guards-update_sessions,
  setup_guards-update_setups,
}
use oxiduct.Proxy.Udp.Slots.{
  IsCounted, retain_lem, retain-HasDistinctKeys, evict-IsCounted, refresh-IsCounted,
  slow_path-IsCounted, admit-IsCounted, rephase-IsCounted, release-IsCounted, insert-IsCounted,
  finish-IsCounted, update-HasDistinctKeys, cancel_all_lem,
}
use oxiduct.Proxy.Udp.Caps.{HasCaps, step-HasCaps, step-total}

fast_path-IsCounted :
    (s : State) (v : IsCounted s) (now : ℕ) (src : SocketAddr) (p : Packet) (o : Option Session)
    → session_of src s.sessions ≡ o
    → IsCounted (fast_path s now src p o)
unfolding fast_path
fast_path-IsCounted s v now src p none e = slow_path-IsCounted s v src p
fast_path-IsCounted s v now src p (some se) e =
    if_cases IsCounted se.cancelled _ _
      (slow_path-IsCounted (evict s src se) (evict-IsCounted s v src se e) src p)
      (refresh-IsCounted s v src se (try_send p (touch now se)) e (ground arith))

advance-IsCounted :
    (s : State) (v : IsCounted s) (i : ℕ) (t : Setup) (e : get_elem? s.setups i ≡ some t)
    (p : Phase) (m : Move)
    → t.phase ≡ p
    → IsCounted (advance s i t.src t.first p m)
unfolding advance
advance-IsCounted s v i t e (opening slot) (opens now) h =
    let c = rephase-IsCounted s v i t e (opened _) (sym (ap phase_guards h)) in
    record { slots = c.slots; keys = c.keys }
advance-IsCounted s v i t e (opening slot) fails h =
    release-IsCounted s v i t e slot (ap phase_guards h)
advance-IsCounted s v i t e (opened se) tests h =
    if_cases IsCounted s.forced _ _ (release-IsCounted s v i t e se.slot (ap phase_guards h)) (
      rephase-IsCounted s v i t e (checked (try_send t.first se))
        (ground (arith, ap phase_guards h)))
advance-IsCounted s v i t e (checked se) inserts h =
    insert-IsCounted s v i t e se (ap phase_guards h)
advance-IsCounted s v i t e ending ends h = finish-IsCounted s v i t e _ (ap phase_guards h)
advance-IsCounted s v i t e (opening slot) tests h = v
advance-IsCounted s v i t e (opening slot) inserts h = v
advance-IsCounted s v i t e (opening slot) ends h = v
advance-IsCounted s v i t e (opened se) (opens now) h = v
advance-IsCounted s v i t e (opened se) fails h = v
advance-IsCounted s v i t e (opened se) inserts h = v
advance-IsCounted s v i t e (opened se) ends h = v
advance-IsCounted s v i t e (checked se) (opens now) h = v
advance-IsCounted s v i t e (checked se) fails h = v
advance-IsCounted s v i t e (checked se) tests h = v
advance-IsCounted s v i t e (checked se) ends h = v
advance-IsCounted s v i t e ending (opens now) h = v
advance-IsCounted s v i t e ending fails h = v
advance-IsCounted s v i t e ending tests h = v
advance-IsCounted s v i t e ending inserts h = v

advance_at-IsCounted :
    (s : State) (v : IsCounted s) (i : ℕ) (o : Option Setup) (m : Move)
    → get_elem? s.setups i ≡ o
    → IsCounted (advance_at s i o m)
advance_at-IsCounted s v i none m e = v
advance_at-IsCounted s v i (some t) m e = advance-IsCounted s v i t e t.phase m refl

update-IsCounted :
    (s : State) (v : IsCounted s) (id : ℕ) (f : Session → Session)
    → ((se : Session) → (f se).slot ≡ se.slot)
    → IsCounted (update id f s)
update-IsCounted s v id f keeps = record {
  slots =
      rw
        (
          session_guards-update_sessions (when_id id f) kept s.sessions,
          setup_guards-update_setups (when_id id f) kept s.setups,
        )
        v.slots;
  keys = update-HasDistinctKeys (when_id id f) s.sessions v.keys;
}
  where
    kept : (se : Session) → (when_id id f se).slot ≡ se.slot
    kept se = ground (arith, keeps se)

-- What holds before and after a step of the listener holds whether or not it is taken.
pub when_serving_cases :
    (P : State → Type 0) (l : Listener) (next s : State) → P next → P s → P (when_serving l next s)
when_serving_cases P serving next s p q = p
when_serving_cases P (missing src first) next s p q = q
when_serving_cases P (draining_tick none_left) next s p q = q
when_serving_cases P drained next s p q = q
when_serving_cases P shut next s p q = q

mark-IsCounted :
    (s : State) (l : Listener)
    → HasRoom (record { limits = s.limits; guards = guards s })
    → IsCounted s
    → IsCounted (mark s l)
mark-IsCounted s (missing src p) room v = admit-IsCounted s v src p room
mark-IsCounted s serving room v = v
mark-IsCounted s (draining_tick none_left) room v = v
mark-IsCounted s drained room v = v
mark-IsCounted s shut room v = v

-- The listener alone moves.
moved : (s : State) (l : Listener) → IsCounted s → IsCounted (record s { listener = l })
moved s l v = record { slots = v.slots; keys = v.keys }

tick_pending-IsCounted : (s : State) (l : Listener) → IsCounted s → IsCounted (tick_pending s l)
tick_pending-IsCounted s (draining_tick true) v =
    if_cases IsCounted (length s.pending == 0) _ _ (moved s drained v) (moved s serving v)
tick_pending-IsCounted s (draining_tick false) v = moved s serving v
tick_pending-IsCounted s serving v = v
tick_pending-IsCounted s (missing src p) v = v
tick_pending-IsCounted s drained v = v
tick_pending-IsCounted s shut v = v

force-IsCounted : (s : State) → IsCounted s → IsCounted (force s)
force-IsCounted s v = rw (cancel_all_lem s.sessions) (record {
  slots = rw (session_guards-update_sessions cancel (λ se. refl) s.sessions) v.slots;
  keys = update-HasDistinctKeys cancel s.sessions v.keys;
})

pub step-IsCounted :
    (idle_secs : ℕ) (s : State) (ev : Event)
    → HasRoom (record { limits = s.limits; guards = guards s })
    → IsCounted s
    → IsCounted (step idle_secs s ev)
unfolding step
step-IsCounted idle_secs s (packet now src p) room v =
    when_serving_cases IsCounted s.listener _ s (fast_path-IsCounted s v now src p _ refl) v
step-IsCounted idle_secs s marks room v = mark-IsCounted s s.listener room v
step-IsCounted idle_secs s stops room v =
    when_serving_cases IsCounted s.listener _ s (record { slots = v.slots; keys = v.keys }) v
step-IsCounted idle_secs s ticks_sessions room v =
    when_serving_cases IsCounted s.listener _ s (if_cases IsCounted s.draining _ s (moved s _ v) v)
      v
step-IsCounted idle_secs s ticks_pending room v = tick_pending-IsCounted s s.listener v
step-IsCounted idle_secs s forces room v =
    when_serving_cases IsCounted s.listener _ s
      (if_cases IsCounted s.forced _ s (force-IsCounted s v) v) v
step-IsCounted idle_secs s shuts_down room v = record { slots = v.slots; keys = v.keys }
step-IsCounted idle_secs s (setup i m) room v = advance_at-IsCounted s v i _ m refl
step-IsCounted idle_secs s (sends id now) room v = update-IsCounted s v id _ (λ se. refl)
step-IsCounted idle_secs s (receives id now) room v = update-IsCounted s v id _ (λ se. refl)
step-IsCounted idle_secs s (dies id) room v = update-IsCounted s v id _ (λ se. refl)
step-IsCounted idle_secs s (cleans now) room v = record {
  slots = retain_lem idle_secs now s.limits s.metrics s.sessions (setup_guards s.setups) v.slots;
  keys = retain-HasDistinctKeys idle_secs now s.limits s.metrics s.sessions v.keys;
}

-- The counter cannot wrap: there is a total cap, or the history is short.
abbrev NeverWraps : ProxyConfig → State → List Event → Type 0
NeverWraps cfg s evs =
    ((0 < cfg.max_connections) × (cfg.max_connections < u32_mod))
    ⊎ (s.limits.state.total + length evs < u32_mod)

run-IsCounted :
    (cfg : ProxyConfig) (idle_secs : ℕ) (s : State) (evs : List Event)
    → NeverWraps cfg s evs
    → IsCounted s
    → HasCaps cfg s
    → IsCounted (run idle_secs s evs) × HasCaps cfg (run idle_secs s evs)
unfolding run
run-IsCounted cfg idle_secs s [] fits v h = (v, h)
run-IsCounted cfg idle_secs s (ev ∷ evs) fits v h =
    run-IsCounted cfg idle_secs (step idle_secs s ev) evs later
      (step-IsCounted idle_secs s ev room v) (step-HasCaps cfg idle_secs s ev h)
  where
    room : HasRoom (record { limits = s.limits; guards = guards s })
    room = ground (arith, fits, v.slots.total, h)

    later : NeverWraps cfg (step idle_secs s ev) evs
    later = ground (arith, fits, step-total idle_secs s ev)

-- Over any history of a listener whose 32-bit counter cannot wrap (it has a total cap, or fewer than
-- 2^32 events happen), the limiter counts exactly the slots of the sessions in the map and of the
-- setup tasks under way, in total and for each address; these pass neither enabled cap; the caps are
-- those configured; and a source has one session.
pub run-start-IsCounted :
    (cfg : ProxyConfig) (evs : List Event)
    → ((0 < cfg.max_connections) × (cfg.max_connections < u32_mod)) ⊎ (length evs < u32_mod)
    → IsCounted (run cfg.idle_timeout_secs (start cfg) evs)
      × HasCaps cfg (run cfg.idle_timeout_secs (start cfg) evs)
unfolding start session_guards setup_guards Limits.new
run-start-IsCounted cfg evs fits =
    run-IsCounted cfg cfg.idle_timeout_secs (start cfg) evs ground (arith, fits)
      (record { slots = new-Inv cfg.max_connections cfg.max_per_ip; keys = tt }) (refl, refl)
