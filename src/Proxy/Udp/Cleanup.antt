-- ===== src/Proxy/Udp/Cleanup.antt =====
-- src/proxy/udp.rs: how long the cleanup task sleeps.
use mathlib.Core.List.{lookup}
use oxiduct.Base.{ℕ, ◌+◌, ◌-◌, ◌*◌, ◌≤◌, ◌<◌, ◌≡◌, List, [], ◌∷◌, some, arith}
use oxiduct.Net.{SocketAddr}
use oxiduct.Proxy.Udp.{Session, session_of}
use oxiduct.Proxy.Udp.Steps.{least, cleanup_wait, until_idle}

least-le :
    (bound : ℕ) (until : ℕ → ℕ) (m : List (SocketAddr × Session)) (src : SocketAddr) (se : Session)
    → session_of src m ≡ some se
    → least bound until m ≤ until se.last_activity
unfolding least lookup
least-le bound until [] src se e = ground arith
least-le bound until ((k, other) ∷ m) src se e = ground (arith, least-le bound until m src se)

-- With the idle timeout on, the cleanup task sleeps at most five seconds and not past the idle
-- deadline of any session in the map.
pub cleanup_wait-le :
    (idle_secs now : ℕ) (m : List (SocketAddr × Session)) (src : SocketAddr) (se : Session)
    → 0 < idle_secs
    → session_of src m ≡ some se
    → (cleanup_wait idle_secs now m ≤ 5000)
      × (cleanup_wait idle_secs now m ≤ se.last_activity + idle_secs * 1000 - now)
unfolding cleanup_wait
cleanup_wait-le idle_secs now m src se on e =
    ground (arith, least-le 5000 (until_idle idle_secs now) m src se e)
