-- ===== src/Proxy/Udp/Replacement.antt =====
-- src/proxy/udp.rs: when an insertion finds no session of its source.
use oxiduct.Base.{
  ℕ, zero, suc, ◌+◌, ◌≤◌, ◌<◌, ◌≡◌, refl, ◌≢◌, List, [], ◌∷◌, Option, none, some, arith, get_elem?,
  remove_at, ite, if_cases,
}
use oxiduct.Base.Map.{lookup-insert, lookup-remove}
use oxiduct.Net.{SocketAddr, SocketAddr-discrete}
use oxiduct.Proxy.Udp.{
  Session, Listener, missing, Phase, opening, opened, checked, ending, Setup, State, Packet,
  session_of, evict, slow_path, fast_path, try_send, touch,
}
use oxiduct.Proxy.Udp.Steps.{set_phase, at_phase, insert_session, update_setups}
use oxiduct.Proxy.Udp.Setups.{tasks, IsMarked}

abbrev pub live : Phase → ℕ
live ending = 0
live p = 1

-- How many setup tasks of a source have not come to their end.
unfoldable pub holding : SocketAddr → List Setup → ℕ
holding src [] = 0
holding src (t ∷ ts) = ite (SocketAddr-discrete src t.src) (live t.phase) 0 + holding src ts

holding-le-tasks : (src : SocketAddr) (ts : List Setup) → holding src ts ≤ tasks src ts
unfolding holding tasks
holding-le-tasks src [] = omega arith
holding-le-tasks src (t ∷ ts) = ground (arith, holding-le-tasks src ts)

holding-set_phase :
    (src : SocketAddr) (i : ℕ) (p : Phase) (ts : List Setup) (t : Setup)
    → get_elem? ts i ≡ some t
    → ite (SocketAddr-discrete src t.src) (live t.phase) 0 + holding src (set_phase i p ts)
      ≡ ite (SocketAddr-discrete src t.src) (live p) 0 + holding src ts
unfolding holding set_phase
holding-set_phase src i p [] t e = ground arith
holding-set_phase src zero p (u ∷ ts) t e = ground arith
holding-set_phase src (suc i) p (u ∷ ts) t e = omega (arith, holding-set_phase src i p ts t e)

pub holding-remove_at :
    (src : SocketAddr) (i : ℕ) (ts : List Setup) → holding src (remove_at i ts) ≤ holding src ts
unfolding holding
holding-remove_at src i [] = omega arith
holding-remove_at src zero (u ∷ ts) = omega arith
holding-remove_at src (suc i) (u ∷ ts) = omega (arith, holding-remove_at src i ts)

pub holding-update_setups :
    (src : SocketAddr) (f : Session → Session) (ts : List Setup)
    → holding src (update_setups f ts) ≡ holding src ts
unfolding holding update_setups
holding-update_setups src f [] = refl
holding-update_setups src f (t ∷ ts) = ground (arith, holding-update_setups src f ts)

-- The source whose lookup the listener has made and not yet marked.
abbrev pub looked_up : Listener → Option SocketAddr
looked_up (missing src p) = some src
looked_up l = none

-- No source with a setup task under way, nor the one looked up, has a session.
pub record IsFresh (s : State) : Type 0 where
  pub setups : (src : SocketAddr) → 0 < holding src s.setups → session_of src s.sessions ≡ none
  pub found :
      (src : SocketAddr) → looked_up s.listener ≡ some src → session_of src s.sessions ≡ none

-- Sessions may go, tasks may end, and the listener may forget.
pub shrunk :
    (s s' : State)
    → ((src : SocketAddr) → session_of src s.sessions ≡ none → session_of src s'.sessions ≡ none)
    → ((src : SocketAddr) → holding src s'.setups ≤ holding src s.setups)
    → ((src : SocketAddr) → looked_up s'.listener ≡ some src → looked_up s.listener ≡ some src)
    → IsFresh s
    → IsFresh s'
shrunk s s' gone fewer back v = record {
  setups = λ src h. gone src (v.setups src (omega (arith, h, fewer src)));
  found = λ src h. gone src (v.found src (back src h));
}

evict-none :
    (s : State) (src k : SocketAddr) (se : Session)
    → session_of k s.sessions ≡ none
    → session_of k (evict s src se).sessions ≡ none
evict-none s src k se e = ground (arith, lookup-remove SocketAddr-discrete src k s.sessions)

slow_path-IsFresh :
    (s : State) (src : SocketAddr) (p : Packet)
    → session_of src s.sessions ≡ none
    → IsFresh s
    → IsFresh (slow_path s src p)
slow_path-IsFresh s src p e v =
    if_cases IsFresh s.draining _ _ v
      (record { setups = v.setups; found = λ k h. ground (arith, e) })

pub fast_path-IsFresh :
    (s : State) (now : ℕ) (src : SocketAddr) (p : Packet) (o : Option Session)
    → session_of src s.sessions ≡ o
    → IsFresh s
    → IsFresh (fast_path s now src p o)
unfolding fast_path
fast_path-IsFresh s now src p none e v = slow_path-IsFresh s src p e v
fast_path-IsFresh s now src p (some se) e v =
    if_cases IsFresh se.cancelled _ _
      (slow_path-IsFresh (evict s src se) src p
        (ground (arith, lookup-remove SocketAddr-discrete src src s.sessions))
        (shrunk s _ (λ k h. evict-none s src k se h) (λ k. omega arith) (λ k h. h) v))
      (shrunk s _
        (λ k h.
          ground
            (arith, lookup-insert SocketAddr-discrete src k (try_send p (touch now se)) s.sessions))
        (λ k. omega arith) (λ k h. h) v)

-- A task that was under way stays so, or ends.
pub rephase-IsFresh :
    (s : State) (i : ℕ) (t : Setup) (p : Phase)
    → get_elem? s.setups i ≡ some t
    → live t.phase ≡ 1
    → IsFresh s
    → IsFresh (at_phase s i p)
rephase-IsFresh s i t p e under v =
    shrunk s _ (λ k h. h) (λ k. ground (arith, holding-set_phase k i p s.setups t e, live-le p))
      (λ k h. h) v
  where
    live-le : (p : Phase) → live p ≤ 1
    live-le (opening slot) = omega arith
    live-le (opened se) = omega arith
    live-le (checked se) = omega arith
    live-le ending = omega arith

-- The source is marked, so its task is the only one; the listener has not looked it up.
pub insert-IsFresh :
    (s : State) (i : ℕ) (t : Setup) (se : Session)
    → get_elem? s.setups i ≡ some t
    → live t.phase ≡ 1
    → looked_up s.listener ≢ some t.src
    → IsMarked s
    → IsFresh s
    → IsFresh (at_phase (insert_session s t.src se) i ending)
insert-IsFresh s i t se e under clear m v = record {
  setups = λ k h. ground (
    arith,
    holding-set_phase k i ending s.setups t e,
    holding-le-tasks t.src s.setups,
    m t.src,
    v.setups k,
    lookup-insert SocketAddr-discrete t.src k se s.sessions,
  );
  found = λ k h.
      ground (arith, v.found k h, clear, lookup-insert SocketAddr-discrete t.src k se s.sessions);
}
