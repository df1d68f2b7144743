-- ===== src/Proxy/Udp/Guards.antt =====
-- src/proxy/udp.rs: the slots that sessions and setup tasks hold, and how the changes of the state
-- move them.
use mathlib.Core.List.{lookup}
use oxiduct.Base.{
  ℕ, zero, suc, ◌+◌, ◌≡◌, refl, ap, List, [], ◌∷◌, ◌++◌, Option, none, some, arith, length,
  get_elem?, remove_at, ite,
}
use oxiduct.Base.Map.{insert, remove, HasDistinctKeys, remove_of_none}
use oxiduct.Net.{SocketAddr, SocketAddr-discrete, IpAddr, IpAddr-discrete}
use oxiduct.Limits
use oxiduct.Limits.{ConnLimits, Guard}
use oxiduct.Limits.Lifetimes.{count, Inv, drop-Inv}
use oxiduct.Proxy.Udp.{
  Session, Phase, opening, opened, checked, ending, Setup, State, session_of, cancel_all,
}
use oxiduct.Proxy.Udp.Steps.{in_phase, set_phase, update_sessions, update_setups}

unfoldable pub weigh : (Guard → ℕ) → List Guard → ℕ
weigh w [] = 0
weigh w (g ∷ gs) = w g + weigh w gs

unfoldable pub session_guards : List (SocketAddr × Session) → List Guard
session_guards [] = []
session_guards ((src, se) ∷ m) = se.slot ∷ session_guards m

abbrev pub phase_guards : Phase → List Guard
phase_guards (opening slot) = slot ∷ []
phase_guards (opened se) = se.slot ∷ []
phase_guards (checked se) = se.slot ∷ []
phase_guards ending = []

unfoldable pub setup_guards : List Setup → List Guard
setup_guards [] = []
setup_guards (t ∷ ts) = phase_guards t.phase ++ setup_guards ts

abbrev pub guards : State → List Guard
guards s = session_guards s.sessions ++ setup_guards s.setups

-- The same guards in some order; the guards without one of them.
abbrev pub Same : List Guard → List Guard → Type 0
Same gs hs = (w : Guard → ℕ) → weigh w gs ≡ weigh w hs

abbrev pub Less : Guard → List Guard → List Guard → Type 0
Less g gs left = (w : Guard → ℕ) → w g + weigh w left ≡ weigh w gs

length-weigh : (gs : List Guard) → length gs ≡ weigh (λ g. 1) gs
unfolding weigh
length-weigh [] = refl
length-weigh (g ∷ gs) = omega (arith, length-weigh gs)

count-weigh :
    (ip : IpAddr) (gs : List Guard)
    → count ip gs ≡ weigh (λ g. ite (IpAddr-discrete ip g.src_ip) 1 0) gs
unfolding weigh count
count-weigh ip [] = refl
count-weigh ip (g ∷ gs) = omega (arith, count-weigh ip gs)

pub Inv-of_Same :
    (l : ConnLimits) (gs hs : List Guard)
    → Same gs hs
    → Inv (record { limits = l; guards = gs })
    → Inv (record { limits = l; guards = hs })
Inv-of_Same l gs hs same v = record {
  total = omega (arith, v.total, len);
  entry = λ ip. ground (arith, v.entry ip, each ip);
  under_total = λ h. omega (arith, v.under_total h, len);
  under_per_ip = λ ip h. omega (arith, v.under_per_ip ip h, each ip);
}
  where
    len : length gs ≡ length hs
    len = omega (arith, same (λ g. 1), length-weigh gs, length-weigh hs)

    each : (ip : IpAddr) → count ip gs ≡ count ip hs
    each ip = omega (arith, same _, count-weigh ip gs, count-weigh ip hs)

pub Inv-of_Less :
    (l : ConnLimits) (g : Guard) (gs left : List Guard)
    → Less g gs left
    → Inv (record { limits = l; guards = gs })
    → Inv (record { limits = Limits.drop l g; guards = left })
Inv-of_Less l g gs left less =
    drop-Inv l g gs left (omega (arith, less (λ g. 1), length-weigh gs, length-weigh left))
      (λ ip. omega (arith, less _, count-weigh ip gs, count-weigh ip left))

module _ (w : Guard → ℕ) where
  pub weigh-append : (gs hs : List Guard) → weigh w (gs ++ hs) ≡ weigh w gs + weigh w hs
  unfolding weigh
  weigh-append [] hs = omega arith
  weigh-append (g ∷ gs) hs = omega (arith, weigh-append gs hs)

  -- What a session of the map weighs: nothing if there is none.
  abbrev pub weight_of : Option Session → ℕ
  weight_of none = 0
  weight_of (some se) = w se.slot

  pub weigh-insert :
      (k : SocketAddr) (se : Session) (m : List (SocketAddr × Session))
      → weight_of (session_of k m) + weigh w (session_guards (insert SocketAddr-discrete k se m))
        ≡ w se.slot + weigh w (session_guards m)
  unfolding weigh session_guards insert lookup
  weigh-insert k se [] = omega arith
  weigh-insert k se ((j, old) ∷ m) = ground (arith, weigh-insert k se m)

  pub weigh-remove :
      (k : SocketAddr) (se : Session) (m : List (SocketAddr × Session))
      → HasDistinctKeys SocketAddr-discrete m
      → session_of k m ≡ some se
      → w se.slot + weigh w (session_guards (remove SocketAddr-discrete k m))
        ≡ weigh w (session_guards m)
  unfolding weigh session_guards remove lookup
  weigh-remove k se [] d e = ground arith
  weigh-remove k se ((j, old) ∷ m) d e =
      ground (arith, weigh-remove k se m d.1, remove_of_none SocketAddr-discrete k m)

  pub weigh-set_phase :
      (i : ℕ) (p : Phase) (ts : List Setup) (t : Setup)
      → get_elem? ts i ≡ some t
      → weigh w (phase_guards t.phase) + weigh w (setup_guards (set_phase i p ts))
        ≡ weigh w (phase_guards p) + weigh w (setup_guards ts)
  unfolding setup_guards set_phase
  weigh-set_phase i p [] t e = ground arith
  weigh-set_phase zero p (u ∷ ts) t e = ground (
    arith,
    weigh-append (phase_guards u.phase) (setup_guards ts),
    weigh-append (phase_guards p) (setup_guards ts),
  )
  weigh-set_phase (suc i) p (u ∷ ts) t e = omega (
    arith,
    weigh-set_phase i p ts t e,
    weigh-append (phase_guards u.phase) (setup_guards ts),
    weigh-append (phase_guards u.phase) (setup_guards (set_phase i p ts)),
  )

  pub weigh-remove_at :
      (i : ℕ) (ts : List Setup) (t : Setup)
      → get_elem? ts i ≡ some t
      → weigh w (phase_guards t.phase) + weigh w (setup_guards (remove_at i ts))
        ≡ weigh w (setup_guards ts)
  unfolding setup_guards
  weigh-remove_at i [] t e = ground arith
  weigh-remove_at zero (u ∷ ts) t e =
      ground (arith, weigh-append (phase_guards u.phase) (setup_guards ts))
  weigh-remove_at (suc i) (u ∷ ts) t e = omega (
    arith,
    weigh-remove_at i ts t e,
    weigh-append (phase_guards u.phase) (setup_guards ts),
    weigh-append (phase_guards u.phase) (setup_guards (remove_at i ts)),
  )

pub session_guards-cancel_all :
    (m : List (SocketAddr × Session)) → session_guards (cancel_all m) ≡ session_guards m
unfolding session_guards cancel_all
session_guards-cancel_all [] = refl
session_guards-cancel_all ((src, se) ∷ m) = ground (arith, session_guards-cancel_all m)

module _ (f : Session → Session) (keeps : (se : Session) → (f se).slot ≡ se.slot) where
  pub session_guards-update_sessions :
      (m : List (SocketAddr × Session)) → session_guards (update_sessions f m) ≡ session_guards m
  unfolding session_guards update_sessions
  session_guards-update_sessions [] = refl
  session_guards-update_sessions ((src, se) ∷ m) =
      ground (arith, keeps se, session_guards-update_sessions m)

  phase_guards-in_phase : (p : Phase) → phase_guards (in_phase f p) ≡ phase_guards p
  phase_guards-in_phase (opening slot) = refl
  phase_guards-in_phase (opened se) = ap (λ x. x ∷ []) (keeps se)
  phase_guards-in_phase (checked se) = ap (λ x. x ∷ []) (keeps se)
  phase_guards-in_phase ending = refl

  pub setup_guards-update_setups :
      (ts : List Setup) → setup_guards (update_setups f ts) ≡ setup_guards ts
  unfolding setup_guards update_setups
  setup_guards-update_setups [] = refl
  setup_guards-update_setups (t ∷ ts) =
      ground (arith, phase_guards-in_phase t.phase, setup_guards-update_setups ts)
