-- ===== src/Proxy/Udp/Open.antt =====
-- src/proxy/udp.rs, `open_session`: the upstream socket of a session, under one budget of time. The
-- resolver, the sockets and the clock are an input.
use oxiduct.Base.{
  ℕ, ◌*◌, ◌≤◌, ◌<◌, ◌≡◌, ◌↔◌, ap, sym, ◌∙◌, inl, inr, refl, Bool, true, false, List, [], ◌∷◌,
  Option, none, some, arith, leb, min, Bool-cases, if◌then◌else◌,
}
use oxiduct.Net.{IpAddr, SocketAddr, v4, v6}
use oxiduct.Config.{ProxyConfig}
use oxiduct.Proxy.Udp.Steps.{Move, opens, fails}

pub data Error : Type 0 where
  cancelled timed_out lookup_failed no_address bind_failed connect_failed : Error

pub record Upstream : Type 0 where
  pub local : SocketAddr
  pub target : SocketAddr

pub data Opening : Type 0 where
  upstream : Upstream → Opening
  error : Error → Opening

-- What the resolver answers, which local addresses can be bound and connected, when the last of
-- these steps ends, and when the forced shutdown is seen, in milliseconds.
pub record Network : Type 0 where
  pub addresses : Option (List SocketAddr)
  pub binds : SocketAddr → Bool
  pub connects : SocketAddr → SocketAddr → Bool
  pub done_after : ℕ
  pub shutdown_after : Option ℕ

-- The unspecified address of a family, with any port.
abbrev pub unspecified : IpAddr → SocketAddr
unspecified (v4 a) = record { ip = v4 (record { a = 0; b = 0; c = 0; d = 0 }); port = 0 }
unspecified (v6 a) = record {
  ip = v6 (record { s0 = 0; s1 = 0; s2 = 0; s3 = 0; s4 = 0; s5 = 0; s6 = 0; s7 = 0 });
  port = 0;
}

abbrev pub connected : Network → SocketAddr → SocketAddr → Opening
connected net local target =
    if net.binds local
    then (if net.connects local target
        then upstream (record { local = local; target = target })
        else error connect_failed)
    else error bind_failed

abbrev pub resolved : Network → Option (List SocketAddr) → Opening
resolved net none = error lookup_failed
resolved net (some []) = error no_address
resolved net (some (target ∷ rest)) = connected net (unspecified target.ip) target

-- The shutdown comes first in the `select!`; the steps come before their deadline.
abbrev pub seen_by : Option ℕ → ℕ → Bool
seen_by none t = false
seen_by (some at) t = leb at t

abbrev pub budget_ms : ProxyConfig → ℕ
budget_ms cfg = cfg.connect_timeout_secs * 1000

unfoldable pub open_upstream : ProxyConfig → Network → Opening
open_upstream cfg net =
    if seen_by net.shutdown_after (min net.done_after (budget_ms cfg))
    then error cancelled
    else if leb net.done_after (budget_ms cfg)
    then resolved net net.addresses
    else error timed_out

-- What a setup task then does.
abbrev pub next_move : ℕ → Opening → Move
next_move now (upstream u) = opens now
next_move now (error e) = fails

-- An address that leaves the host and the port open, in the family of a given one.
abbrev pub IsWildcardFor : IpAddr → SocketAddr → Type 0
IsWildcardFor (v4 a) local =
    local ≡ record { ip = v4 (record { a = 0; b = 0; c = 0; d = 0 }); port = 0 }
IsWildcardFor (v6 a) local = local ≡ record {
  ip = v6 (record { s0 = 0; s1 = 0; s2 = 0; s3 = 0; s4 = 0; s5 = 0; s6 = 0; s7 = 0 });
  port = 0;
}

unspecified_lem :
    (ip : IpAddr) (local : SocketAddr) → (local ≡ unspecified ip) ↔ IsWildcardFor ip local
unspecified_lem (v4 a) local = (λ e. e, λ e. e)
unspecified_lem (v6 a) local = (λ e. e, λ e. e)

-- What it takes to open a session: the first address of the target, a local address of its family
-- that can be bound and connected to it, all before the deadline and before the shutdown.
pub record IsOpened (cfg : ProxyConfig) (net : Network) (u : Upstream) : Type 0 where
  pub others : List SocketAddr
  pub first : net.addresses ≡ some (u.target ∷ others)
  pub local : IsWildcardFor u.target.ip u.local
  pub bound : net.binds u.local ≡ true
  pub connects : net.connects u.local u.target ≡ true
  pub in_time : net.done_after ≤ cfg.connect_timeout_secs * 1000
  pub running : (at : ℕ) → net.shutdown_after ≡ some at → net.done_after < at

seen_by_iff : (o : Option ℕ) (t : ℕ) → (seen_by o t ≡ false) ↔ ((at : ℕ) → o ≡ some at → t < at)
seen_by_iff none t = (λ h at e. cc, λ h. refl)
seen_by_iff (some a) t = (λ h at e. ground arith, λ h. ground (arith, h a refl))

connected_sound :
    (net : Network) (local target : SocketAddr) (u : Upstream)
    → connected net local target ≡ upstream u
    → (net.binds local ≡ true)
      × (net.connects local target ≡ true)
      × (local ≡ u.local)
      × (target ≡ u.target)
connected_sound net local target u e = ground arith

resolved_sound :
    (net : Network) (o : Option (List SocketAddr)) (u : Upstream)
    → resolved net o ≡ upstream u
    → (others : List SocketAddr) × (o ≡ some (u.target ∷ others))
      × (u.local ≡ unspecified u.target.ip)
      × (net.binds u.local ≡ true)
      × (net.connects u.local u.target ≡ true)
resolved_sound net none u e = absurd (cc)
resolved_sound net (some []) u e = absurd (cc)
resolved_sound net (some (target ∷ rest)) u e =
    let (b, c, l, t) = connected_sound net (unspecified target.ip) target u e in
    (
      rest,
      ap (λ (x : SocketAddr). some (x ∷ rest)) t,
      sym l ∙ ap (λ (x : SocketAddr). unspecified x.ip) t,
      ap net.binds (sym l) ∙ b,
      ap (net.connects u.local) (sym t)
          ∙ ap (λ (x : SocketAddr). net.connects x target) (sym l)
          ∙ c,
    )

open_sound :
    (cfg : ProxyConfig) (net : Network) (u : Upstream)
    → open_upstream cfg net ≡ upstream u
    → IsOpened cfg net u
unfolding open_upstream
open_sound cfg net u e =
    elim (Bool-cases (seen_by net.shutdown_after (min net.done_after (budget_ms cfg)))) [
      | inl shut ↦ ground arith
      | inr running ↦ elim (Bool-cases (leb net.done_after (budget_ms cfg))) [
        | inr late ↦ ground arith
        | inl in_time ↦
            let (others, first, local, bound, connects) =
              resolved_sound net net.addresses u (ground arith) in
            let within : net.done_after ≤ cfg.connect_timeout_secs * 1000 = ground arith in
            record {
              others = others;
              first = first;
              local = (unspecified_lem u.target.ip u.local).0 local;
              bound = bound;
              connects = connects;
              in_time = within;
              running = λ at e. omega (
                arith,
                within,
                (seen_by_iff net.shutdown_after (min net.done_after (budget_ms cfg))).0 running at
                    e,
              );
            }
      ]
    ]

in_budget : (t budget : ℕ) → t ≤ budget → leb t budget ≡ true
in_budget t budget h = ground arith

open_complete :
    (cfg : ProxyConfig) (net : Network) (u : Upstream)
    → IsOpened cfg net u
    → open_upstream cfg net ≡ upstream u
unfolding open_upstream
open_complete cfg net u o =
    let running =
      (seen_by_iff net.shutdown_after (min net.done_after (budget_ms cfg))).1
        (λ at e. omega (arith, o.running at e)) in
    let opened = (unspecified_lem u.target.ip u.local).1 o.local in
    let bound : net.binds (unspecified u.target.ip) ≡ true = ap net.binds (sym opened) ∙ o.bound in
    let connects : net.connects (unspecified u.target.ip) u.target ≡ true =
      ap (λ (x : SocketAddr). net.connects x u.target) (sym opened) ∙ o.connects in
    rw (running, in_budget net.done_after (budget_ms cfg) o.in_time, o.first, bound, connects)
      (ap (λ (x : SocketAddr). upstream (record { local = x; target = u.target })) (sym opened))

-- An upstream socket is opened exactly if the target resolves, a local address of the family of its
-- first address can be bound and connected to it, and this is done by the connect timeout and
-- before the forced shutdown is seen; it is then bound to that address, and connected to the first.
pub open_upstream_iff :
    (cfg : ProxyConfig) (net : Network) (u : Upstream)
    → (open_upstream cfg net ≡ upstream u) ↔ IsOpened cfg net u
open_upstream_iff cfg net u = (open_sound cfg net u, open_complete cfg net u)
