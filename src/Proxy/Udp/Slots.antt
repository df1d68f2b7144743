-- ===== src/Proxy/Udp/Slots.antt =====
-- src/proxy/udp.rs: the slots of the sessions and the setup tasks against the limiter.
use mathlib.Core.List.{lookup}
use oxiduct.Base.{
  ℕ, ◌+◌, ◌≡◌, refl, ap, inl, inr, List, [], ◌∷◌, ◌++◌, Option, none, some, arith, get_elem?,
  remove_at, Option-cases, if_cases,
}
use oxiduct.Base.Map.{
  insert, remove, contains, HasDistinctKeys, insert-HasDistinctKeys, remove-HasDistinctKeys,
}
use oxiduct.Net.{SocketAddr, SocketAddr-discrete}
use oxiduct.Limits
use oxiduct.Limits.{ConnLimits, Guard, try_acquire, Admission, admitted, rejected}
use oxiduct.Limits.Lifetimes
use oxiduct.Limits.Lifetimes.{Inv, HasRoom, step-Inv, connect, granted}
use oxiduct.Proxy.Udp.{
  Session, Phase, ending, Setup, State, Packet, Metric, session_of, retain, admit, evict, verdict,
  closed, slow_path, decide, cancel, cancel_all,
}
use oxiduct.Proxy.Udp.Steps.{update_sessions, at_phase, insert_session, set_phase, replaced}
use oxiduct.Proxy.Udp.Guards.{
  weigh, weight_of, phase_guards, session_guards, setup_guards, guards, Same, Inv-of_Same,
  Inv-of_Less, weigh-append, weigh-insert, weigh-remove, weigh-set_phase, weigh-remove_at,
}

-- The limiter stands for these guards.
abbrev pub Counts : ConnLimits → List Guard → Type 0
Counts l gs = Inv (record { limits = l; guards = gs })

-- The slots of sessions and setup tasks are those that the limiter counts; a source has one session.
pub record IsCounted (s : State) : Type 0 where
  pub slots : Counts s.limits (guards s)
  pub keys : HasDistinctKeys SocketAddr-discrete s.sessions

pub retain_lem :
    (idle_secs now : ℕ) (l : ConnLimits) (log : List Metric) (m : List (SocketAddr × Session))
    (others : List Guard)
    → Counts l (session_guards m ++ others)
    → Counts
        (retain idle_secs now l log m).limits
        (session_guards (retain idle_secs now l log m).sessions ++ others)
unfolding retain session_guards weigh
retain_lem idle_secs now l log [] others v = v
retain_lem idle_secs now l log ((src, se) ∷ m) others v =
    elim (Option-cases (verdict idle_secs now se)) [
      | inr (why, e) ↦
          rw (e, retain)
            (retain_lem idle_secs now (Limits.drop l se.slot) (closed why 1 ∷ log) m others gone)
      | inl e ↦
          rw (e, retain)
            (Inv-of_Same _ _ _ back
              (retain_lem idle_secs now l log m (se.slot ∷ others) (Inv-of_Same _ _ _ forth v)))
    ]
  where
    gone : Counts (Limits.drop l se.slot) (session_guards m ++ others)
    gone = Inv-of_Less l se.slot _ _ (λ w. refl) v

    forth : Same (se.slot ∷ session_guards m ++ others) (session_guards m ++ se.slot ∷ others)
    forth w = omega (
      arith,
      weigh-append w (session_guards m) others,
      weigh-append w (session_guards m) (se.slot ∷ others),
    )

    back :
        Same
          (session_guards (retain idle_secs now l log m).sessions ++ se.slot ∷ others)
          (se.slot ∷ session_guards (retain idle_secs now l log m).sessions ++ others)
    back w = omega (
      arith,
      weigh-append w (session_guards (retain idle_secs now l log m).sessions) others,
      weigh-append w (session_guards (retain idle_secs now l log m).sessions) (se.slot ∷ others),
    )

pub retain-none :
    (idle_secs now : ℕ) (k : SocketAddr) (l : ConnLimits) (log : List Metric)
    (m : List (SocketAddr × Session))
    → session_of k m ≡ none
    → session_of k (retain idle_secs now l log m).sessions ≡ none
unfolding retain lookup
retain-none idle_secs now k l log [] e = refl
retain-none idle_secs now k l log ((src, se) ∷ m) e =
    elim (Option-cases (verdict idle_secs now se)) [
      | inr (why, h) ↦
          rw (h, retain)
            (retain-none idle_secs now k (Limits.drop l se.slot) (closed why 1 ∷ log) m
              (ground arith))
      | inl h ↦ rw (h, retain) (ground (arith, retain-none idle_secs now k l log m))
    ]

pub retain-HasDistinctKeys :
    (idle_secs now : ℕ) (l : ConnLimits) (log : List Metric) (m : List (SocketAddr × Session))
    → HasDistinctKeys SocketAddr-discrete m
    → HasDistinctKeys SocketAddr-discrete (retain idle_secs now l log m).sessions
unfolding retain
retain-HasDistinctKeys idle_secs now l log [] d = tt
retain-HasDistinctKeys idle_secs now l log ((src, se) ∷ m) d =
    elim (Option-cases (verdict idle_secs now se)) [
      | inr (why, h) ↦
          rw (h, retain)
            (retain-HasDistinctKeys idle_secs now (Limits.drop l se.slot) (closed why 1 ∷ log) m
              d.1)
      | inl h ↦
          rw (h, retain)
            (
              retain-none idle_secs now src l log m d.0,
              retain-HasDistinctKeys idle_secs now l log m d.1,
            )
    ]

module _ (s : State) (v : IsCounted s) where
  split :
      (w : Guard → ℕ)
      → weigh w (guards s) ≡ weigh w (session_guards s.sessions) + weigh w (setup_guards s.setups)
  split w = weigh-append w (session_guards s.sessions) (setup_guards s.setups)

  pub evict-IsCounted :
      (src : SocketAddr) (se : Session)
      → session_of src s.sessions ≡ some se
      → IsCounted (evict s src se)
  evict-IsCounted src se e = record {
    slots =
        Inv-of_Less s.limits se.slot (guards s) _
          (λ w. omega (
            arith,
            split w,
            weigh-append w (session_guards (remove SocketAddr-discrete src s.sessions))
                (setup_guards s.setups),
            weigh-remove w src se s.sessions v.keys e,
          ))
          v.slots;
    keys = remove-HasDistinctKeys SocketAddr-discrete src s.sessions v.keys;
  }

  -- A session that takes the place of one with the same slot.
  pub refresh-IsCounted :
      (src : SocketAddr) (se se' : Session)
      → session_of src s.sessions ≡ some se
      → se'.slot ≡ se.slot
      → IsCounted (record s { sessions = insert SocketAddr-discrete src se' s.sessions })
  refresh-IsCounted src se se' e same = record {
    slots =
        Inv-of_Same s.limits (guards s) _
          (λ w. ground (
            arith,
            split w,
            same,
            weigh-append w (session_guards (insert SocketAddr-discrete src se' s.sessions))
                (setup_guards s.setups),
            weigh-insert w src se' s.sessions,
          ))
          v.slots;
    keys = insert-HasDistinctKeys SocketAddr-discrete src se' s.sessions v.keys;
  }

  pub slow_path-IsCounted : (src : SocketAddr) (p : Packet) → IsCounted (slow_path s src p)
  slow_path-IsCounted src p =
      if_cases IsCounted s.draining _ _ v (record { slots = v.slots; keys = v.keys })

  -- The answer of the limiter.
  decide-IsCounted :
      (src : SocketAddr) (p : Packet) (r : ConnLimits × Admission)
      → Counts r.0 (granted r.1 (guards s))
      → IsCounted (decide s src p r)
  unfolding weigh setup_guards
  decide-IsCounted src p (l, rejected r) c = record { slots = c; keys = v.keys }
  decide-IsCounted src p (l, admitted slot warnings) c = record {
    slots =
        Inv-of_Same l (slot ∷ guards s) _
          (λ w. omega (
            arith,
            split w,
            weigh-append w (session_guards s.sessions) (slot ∷ setup_guards s.setups),
          ))
          c;
    keys = v.keys;
  }

  pub admit-IsCounted :
      (src : SocketAddr) (p : Packet)
      → HasRoom (record { limits = s.limits; guards = guards s })
      → IsCounted (admit s src p)
  unfolding admit Lifetimes.step
  admit-IsCounted src p room =
      if_cases IsCounted (contains SocketAddr-discrete src s.pending) _ _
        (record { slots = v.slots; keys = v.keys })
        (decide-IsCounted src p (try_acquire s.limits src.ip) (
          step-Inv (record { limits = s.limits; guards = guards s }) (connect src.ip) room v.slots))

module _ (s : State) (v : IsCounted s) (i : ℕ) (t : Setup) (e : get_elem? s.setups i ≡ some t) where
  -- A phase that holds the same slot.
  pub rephase-IsCounted :
      (p : Phase) → phase_guards p ≡ phase_guards t.phase → IsCounted (at_phase s i p)
  rephase-IsCounted p same = record {
    slots =
        Inv-of_Same s.limits (guards s) _
          (λ w. ground (
            arith,
            split s v w,
            same,
            weigh-append w (session_guards s.sessions) (setup_guards (set_phase i p s.setups)),
            weigh-set_phase w i p s.setups t e,
          ))
          v.slots;
    keys = v.keys;
  }

  -- The task comes to its end and gives its slot back.
  pub release-IsCounted :
      (slot : Guard)
      → phase_guards t.phase ≡ slot ∷ []
      → IsCounted (record (at_phase s i ending) { limits = Limits.drop s.limits slot })
  unfolding weigh
  release-IsCounted slot held = record {
    slots =
        Inv-of_Less s.limits slot (guards s) _
          (λ w. omega (
            arith,
            split s v w,
            ap (weigh w) held,
            weigh-append w (session_guards s.sessions) (setup_guards (set_phase i ending s.setups)),
            weigh-set_phase w i ending s.setups t e,
          ))
          v.slots;
    keys = v.keys;
  }

  replaced-Counts :
      (se : Session) (o : Option Session) (gs : List Guard)
      → session_of t.src s.sessions ≡ o
      → ((w : Guard → ℕ) → weight_of w o + weigh w gs ≡ weigh w (guards s))
      → Counts (replaced s.limits o) gs
  replaced-Counts se none gs h less =
      Inv-of_Same s.limits (guards s) gs (λ w. omega (arith, less w)) v.slots
  replaced-Counts se (some old) gs h less = Inv-of_Less s.limits old.slot (guards s) gs less v.slots

  pub insert-IsCounted :
      (se : Session)
      → phase_guards t.phase ≡ se.slot ∷ []
      → IsCounted (at_phase (insert_session s t.src se) i ending)
  unfolding weigh
  insert-IsCounted se held = record {
    slots = replaced-Counts se (session_of t.src s.sessions) _ refl (λ w. omega (
      arith,
      split s v w,
      ap (weigh w) held,
      weigh-append w (session_guards (insert SocketAddr-discrete t.src se s.sessions))
          (setup_guards (set_phase i ending s.setups)),
      weigh-insert w t.src se s.sessions,
      weigh-set_phase w i ending s.setups t e,
    ));
    keys = insert-HasDistinctKeys SocketAddr-discrete t.src se s.sessions v.keys;
  }

  pub finish-IsCounted :
      (pending : List SocketAddr)
      → phase_guards t.phase ≡ []
      → IsCounted (record s { pending = pending; setups = remove_at i s.setups })
  unfolding weigh
  finish-IsCounted pending held = record {
    slots =
        Inv-of_Same s.limits (guards s) _
          (λ w. omega (
            arith,
            split s v w,
            ap (weigh w) held,
            weigh-append w (session_guards s.sessions) (setup_guards (remove_at i s.setups)),
            weigh-remove_at w i s.setups t e,
          ))
          v.slots;
    keys = v.keys;
  }

pub session_of-update_sessions :
    (f : Session → Session) (k : SocketAddr) (m : List (SocketAddr × Session))
    → session_of k m ≡ none
    → session_of k (update_sessions f m) ≡ none
unfolding update_sessions lookup
session_of-update_sessions f k [] e = refl
session_of-update_sessions f k ((src, se) ∷ m) e = ground (arith, session_of-update_sessions f k m)

pub update-HasDistinctKeys :
    (f : Session → Session) (m : List (SocketAddr × Session))
    → HasDistinctKeys SocketAddr-discrete m
    → HasDistinctKeys SocketAddr-discrete (update_sessions f m)
unfolding update_sessions
update-HasDistinctKeys f [] d = tt
update-HasDistinctKeys f ((src, se) ∷ m) d =
    (session_of-update_sessions f src m d.0, update-HasDistinctKeys f m d.1)

-- Cancelling every session is an update of every session.
pub cancel_all_lem : (m : List (SocketAddr × Session)) → cancel_all m ≡ update_sessions cancel m
unfolding cancel_all update_sessions
cancel_all_lem [] = refl
cancel_all_lem ((src, se) ∷ m) = ap (◌∷◌ (src, cancel se)) (cancel_all_lem m)
