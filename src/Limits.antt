-- ===== src/Limits.antt =====
-- src/limits.rs: the admission limits of one proxy. `ConnLimits` is the limiter with the state
-- behind its mutex; an operation takes it and returns the new one.
pub mod Lifetimes
pub mod Verdict
pub mod Warnings
mod Tests
use Prim.Native.String.{String}
use mathlib.Core.List.{lookup}
use oxiduct.Base.{
  ℕ, ◌+◌, ◌-◌, ◌*◌, ◌%◌, ◌^◌, Bool, true, false, not, ◌&&◌, List, [], ◌∷◌, ◌++◌, Option, none, some,
  ltb, leb, ◌==◌, if◌then◌else◌,
}
use oxiduct.Base.Map.{insert, remove}
use oxiduct.Base.Words.{u32_mod, saturating_sub}
use oxiduct.Net.{IpAddr, IpAddr-discrete}

pub data Reject : Type 0 where
  total per_ip : Reject

pub record IpStat : Type 0 where
  pub count : ℕ
  pub warned : Bool

-- The mutex's contents. (The lock is held for the whole of each operation.)
pub record State : Type 0 where
  pub total : ℕ
  pub per_ip : List (IpAddr × IpStat)
  pub total_warned : Bool

pub record ConnLimits : Type 0 where
  pub max_total : ℕ
  pub max_per_ip : ℕ
  pub state : State

-- The slot that a connection holds. Its limiter is the one that the operations thread.
pub record Guard : Type 0 where
  pub src_ip : IpAddr

-- The two `warn!` lines, with their fields `used` and `limit`.
pub data Warning : Type 0 where
  near_total : (used limit : ℕ) → Warning
  near_per_ip : IpAddr → (used limit : ℕ) → Warning

-- `Result<Guard, Reject>`, with the lines logged on the way.
pub data Admission : Type 0 where
  admitted : Guard → List Warning → Admission
  rejected : Reject → Admission

unfoldable pub new : ℕ → ℕ → ConnLimits
new max_total max_per_ip = record {
  max_total = max_total;
  max_per_ip = max_per_ip;
  state = record { total = 0; per_ip = []; total_warned = false };
}

-- `(used as u64) * 10 >= (cap as u64) * 9`, in 64-bit arithmetic.
unfoldable pub reached_90pct : ℕ → ℕ → Bool
reached_90pct used cap = leb (cap * 9 % 2 ^ 64) (used * 10 % 2 ^ 64)

unfoldable pub limit : Reject → ConnLimits → ℕ
limit total l = l.max_total
limit per_ip l = l.max_per_ip

unfoldable pub label : Reject → String
label total = "total"
label per_ip = "per_ip"

abbrev pub count_of : Option IpStat → ℕ
count_of none = 0
count_of (some st) = st.count

abbrev pub or_default : Option IpStat → IpStat
or_default none = record { count = 0; warned = false }
or_default (some st) = st

abbrev pub lookup_ip : IpAddr → List (IpAddr × IpStat) → Option IpStat
lookup_ip = lookup IpAddr-discrete

-- The bookkeeping after both caps have been passed: the new state and the warnings.
unfoldable pub admit : ConnLimits → IpAddr → ConnLimits × Admission
admit l src_ip =
    let total_now = (l.state.total + 1) % u32_mod in
    let total_should_warn =
      not l.state.total_warned && ltb 0 l.max_total && reached_90pct total_now l.max_total in
    let stat = or_default (lookup_ip src_ip l.state.per_ip) in
    let per_ip_count = (stat.count + 1) % u32_mod in
    let per_ip_should_warn =
      not stat.warned && ltb 0 l.max_per_ip && reached_90pct per_ip_count l.max_per_ip in
    (
      record l {
        state = record {
          total = total_now;
          per_ip =
              insert IpAddr-discrete src_ip
                (record {
                  count = per_ip_count;
                  warned = if per_ip_should_warn then true else stat.warned;
                })
                l.state.per_ip;
          total_warned = if total_should_warn then true else l.state.total_warned;
        };
      },
      admitted (record { src_ip = src_ip })
          ((if total_should_warn then near_total total_now l.max_total ∷ [] else [])
            ++ (if per_ip_should_warn
                then near_per_ip src_ip per_ip_count l.max_per_ip ∷ []
                else [])),
    )

unfoldable pub try_acquire : ConnLimits → IpAddr → ConnLimits × Admission
unfolding admit
try_acquire l src_ip =
    if ltb 0 l.max_total && leb l.max_total l.state.total
    then (l, rejected total)
    else if ltb 0 l.max_per_ip && leb l.max_per_ip (count_of (lookup_ip src_ip l.state.per_ip))
    then (l, rejected per_ip)
    else admit l src_ip

-- One entry after a release: its count falls, and an entry at 0 is removed.
unfoldable pub release_entry :
    IpAddr → Option IpStat → List (IpAddr × IpStat) → List (IpAddr × IpStat)
release_entry src_ip none m = m
release_entry src_ip (some stat) m =
    let count = saturating_sub stat.count 1 in
    if count == 0
    then remove IpAddr-discrete src_ip m
    else insert IpAddr-discrete src_ip (record stat { count = count }) m

-- `Drop for Guard`.
unfoldable pub drop : ConnLimits → Guard → ConnLimits
unfolding release_entry
drop l g = record l {
  state = record l.state {
    total = saturating_sub l.state.total 1;
    per_ip = release_entry g.src_ip (lookup_ip g.src_ip l.state.per_ip) l.state.per_ip;
  };
}
