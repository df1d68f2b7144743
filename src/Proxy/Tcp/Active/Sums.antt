-- ===== src/Proxy/Tcp/Active/Sums.antt =====
-- src/proxy/tcp.rs: the calls of connection tasks, counted over a list of them.
use oxiduct.Base.{
  ℕ, zero, suc, ◌+◌, ◌≤◌, ◌≡◌, refl, true, false, Bool, List, [], ◌∷◌, Option, none, some, arith,
  All, length, get_elem?, remove_at, if_cases,
}
use oxiduct.Net.{SocketAddr}
use oxiduct.Config.{ProxyConfig}
use oxiduct.Proxy.Tcp.Watchdog.{Reason}
use oxiduct.Proxy.Tcp.Relay.{Relay}
use oxiduct.Proxy.Tcp.Handle.{
  Connected, shut_down, connected, failed, timed_out, Written, cancelled, written, broken, Network,
  Effect, applied, connect_failure, connect_timeout, active_inc, active_dec, connection_closed,
  Handled, with_relay, relayed, with_header, on_connect, handle,
}
use oxiduct.Proxy.Tcp.Handle.Accounts.{tally}
use oxiduct.Proxy.Tcp.Active.{Connection, set_at}

-- A relay that has not returned is still to be taken off the gauge.
abbrev pub owed : Bool → ℕ
owed true = 0
owed false = 1

-- What a task has still to do to the gauge, at each of its calls: it goes up at most once, and down
-- once after that.
abbrev pub IsOrdered : List Effect → Bool → Type 0
IsOrdered [] over = Unit
IsOrdered (e ∷ es) over =
    ((tally (e ∷ es)).incs ≤ (tally (e ∷ es)).decs + owed over)
    × ((tally (e ∷ es)).decs + owed over ≤ (tally (e ∷ es)).incs + 1)
    × IsOrdered es over

-- A script that leaves nothing behind.
pub record IsScript (todo : List Effect) (over : Bool) : Type 0 where
  pub gauge : (tally todo).incs ≡ (tally todo).decs + owed over
  pub closes : (tally todo).closes ≡ (tally todo).decs
  pub ordered : IsOrdered todo over

abbrev IsScripted : Handled → Type 0
IsScripted h = IsScript h.effects h.over

with_relay-IsScripted :
    (cfg : ProxyConfig) (header : List ℕ) (r : Relay) (o : Option (Reason × ℕ × ℕ))
    → IsScripted (with_relay cfg header r o)
unfolding with_relay
with_relay-IsScripted cfg header r none = ground arith
with_relay-IsScripted cfg header r (some (reason, up_total, down_total)) = ground arith

with_header-IsScripted :
    (cfg : ProxyConfig) (net : Network) (header : List ℕ) (w : Written)
    → IsScripted (with_header cfg net header w)
unfolding with_header relayed
with_header-IsScripted cfg net header cancelled = ground arith
with_header-IsScripted cfg net header broken = ground arith
with_header-IsScripted cfg net header written = with_relay-IsScripted cfg header _ _

on_connect-IsScripted :
    (cfg : ProxyConfig) (peer : SocketAddr) (net : Network) (c : Connected)
    → IsScripted (on_connect cfg peer net c)
unfolding on_connect relayed
on_connect-IsScripted cfg peer net shut_down = ground arith
on_connect-IsScripted cfg peer net failed = ground arith
on_connect-IsScripted cfg peer net timed_out = ground arith
on_connect-IsScripted cfg peer net connected =
    if_cases IsScripted cfg.proxy_protocol _ _ (with_header-IsScripted cfg net _ net.write_header)
      (with_relay-IsScripted cfg [] _ _)

pub handle-IsScripted :
    (cfg : ProxyConfig) (peer : SocketAddr) (net : Network) → IsScripted (handle cfg peer net)
unfolding handle
handle-IsScripted cfg peer net = on_connect-IsScripted cfg peer net net.connect

unfoldable pub weigh : (Connection → ℕ) → List Connection → ℕ
weigh f [] = 0
weigh f (c ∷ cs) = f c + weigh f cs

pub weigh-set_at :
    (f : Connection → ℕ) (i : ℕ) (c d : Connection) (cs : List Connection)
    → get_elem? cs i ≡ some d
    → weigh f (set_at i c cs) + f d ≡ weigh f cs + f c
unfolding weigh set_at
weigh-set_at f i c d [] e = cc
weigh-set_at f zero c d (x ∷ cs) e = ground (arith, e)
weigh-set_at f (suc i) c d (x ∷ cs) e = omega (arith, weigh-set_at f i c d cs e)

pub weigh-remove_at :
    (f : Connection → ℕ) (i : ℕ) (d : Connection) (cs : List Connection)
    → get_elem? cs i ≡ some d
    → weigh f (remove_at i cs) + f d ≡ weigh f cs
unfolding weigh
weigh-remove_at f i d [] e = cc
weigh-remove_at f zero d (x ∷ cs) e = ground (arith, e)
weigh-remove_at f (suc i) d (x ∷ cs) e = omega (arith, weigh-remove_at f i d cs e)

pub length-set_at :
    (i : ℕ) (c : Connection) (cs : List Connection) → length (set_at i c cs) ≡ length cs
unfolding set_at
length-set_at i c [] = refl
length-set_at zero c (x ∷ cs) = omega arith
length-set_at (suc i) c (x ∷ cs) = omega (arith, length-set_at i c cs)

-- A call moves its count from what is to be called to what has been called.
pub tally_moves :
    (e : Effect) (es made : List Effect)
    → ((tally (e ∷ made)).incs + (tally es).incs ≡ (tally made).incs + (tally (e ∷ es)).incs)
      × ((tally (e ∷ made)).decs + (tally es).decs ≡ (tally made).decs + (tally (e ∷ es)).decs)
      × ((tally (e ∷ made)).closes + (tally es).closes
          ≡ (tally made).closes + (tally (e ∷ es)).closes)
tally_moves (applied p ops) es made = ground arith
tally_moves connect_failure es made = ground arith
tally_moves connect_timeout es made = ground arith
tally_moves active_inc es made = ground arith
tally_moves active_dec es made = ground arith
tally_moves (connection_closed reason) es made = ground arith

pub All-get_elem :
    (P : Connection → Type 0) (i : ℕ) (c : Connection) (cs : List Connection)
    → get_elem? cs i ≡ some c
    → All P cs
    → P c
All-get_elem P i c [] e h = absurd (cc)
All-get_elem P zero c (d ∷ cs) e h = ground (arith, e, h)
All-get_elem P (suc i) c (d ∷ cs) e h = All-get_elem P i c cs e h.1

pub All-set_at :
    (P : Connection → Type 0) (i : ℕ) (c : Connection) (cs : List Connection)
    → P c
    → All P cs
    → All P (set_at i c cs)
unfolding set_at
All-set_at P i c [] p h = h
All-set_at P zero c (d ∷ cs) p h = (p, h.1)
All-set_at P (suc i) c (d ∷ cs) p h = (h.0, All-set_at P i c cs p h.1)

pub All-remove_at :
    (P : Connection → Type 0) (i : ℕ) (cs : List Connection) → All P cs → All P (remove_at i cs)
All-remove_at P i [] h = h
All-remove_at P zero (d ∷ cs) h = h.1
All-remove_at P (suc i) (d ∷ cs) h = (h.0, All-remove_at P i cs h.1)
