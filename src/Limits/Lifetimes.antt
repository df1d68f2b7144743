-- ===== src/Limits/Lifetimes.antt =====
-- src/limits.rs over time: connections that ask for a slot and guards that are dropped. The live
-- guards are what the counters stand for.
use mathlib.Core.List.{lookup}
use oxiduct.Base.{
  ℕ, zero, suc, ◌+◌, ◌-◌, ◌%◌, ◌≤◌, ◌<◌, ◌≡◌, refl, ◌⊎◌, ite, List, [], ◌∷◌, Option, none, some,
  arith, length, get_elem?, remove_at,
}
use oxiduct.Base.Map.{insert, lookup-insert, lookup-remove}
use oxiduct.Base.Words.{u32_mod}
use oxiduct.Net.{IpAddr, IpAddr-discrete}
use oxiduct.Limits.{
  ConnLimits, IpStat, Guard, Admission, admitted, rejected, new, admit, try_acquire, drop,
  release_entry, count_of, lookup_ip, or_default,
}

-- How many of the guards come from an address.
unfoldable pub count : IpAddr → List Guard → ℕ
count ip [] = 0
count ip (g ∷ gs) = ite (IpAddr-discrete ip g.src_ip) 1 0 + count ip gs

pub count-le-length : (ip : IpAddr) (gs : List Guard) → count ip gs ≤ length gs
unfolding count
count-le-length ip [] = omega arith
count-le-length ip (g ∷ gs) = ground (arith, count-le-length ip gs)

-- A guard that leaves the list is one fewer for its own address and for no other.
count-remove_at :
    (ip : IpAddr) (i : ℕ) (gs : List Guard) (g : Guard)
    → get_elem? gs i ≡ some g
    → ite (IpAddr-discrete ip g.src_ip) 1 0 + count ip (remove_at i gs) ≡ count ip gs
unfolding count
count-remove_at ip i [] g e = ground arith
count-remove_at ip zero (h ∷ gs) g e = ground arith
count-remove_at ip (suc i) (h ∷ gs) g e = omega (arith, count-remove_at ip i gs g e)

length-remove_at :
    (i : ℕ) (gs : List Guard) (g : Guard)
    → get_elem? gs i ≡ some g
    → length (remove_at i gs) + 1 ≡ length gs
length-remove_at i [] g e = ground arith
length-remove_at zero (h ∷ gs) g e = omega arith
length-remove_at (suc i) (h ∷ gs) g e = omega (arith, length-remove_at i gs g e)

pub record Snapshot : Type 0 where
  pub limits : ConnLimits
  pub guards : List Guard

pub data Op : Type 0 where
  -- A connection from an address asks for a slot.
  connect : IpAddr → Op
  -- The guard at a place of the list is dropped, if there is one.
  close : ℕ → Op

-- What an admission adds to the live guards.
abbrev pub granted : Admission → List Guard → List Guard
granted (admitted g warnings) gs = g ∷ gs
granted (rejected r) gs = gs

abbrev pub release_at : Snapshot → ℕ → Option Guard → Snapshot
release_at s i none = s
release_at s i (some g) = record { limits = drop s.limits g; guards = remove_at i s.guards }

unfoldable pub step : Snapshot → Op → Snapshot
step s (connect ip) =
    let (l, a) = try_acquire s.limits ip in record { limits = l; guards = granted a s.guards }
step s (close i) = release_at s i (get_elem? s.guards i)

unfoldable pub run : Snapshot → List Op → Snapshot
unfolding step
run s [] = s
run s (op ∷ ops) = run (step s op) ops

-- The entry of an address with `n` live guards: none at 0.
abbrev pub tracked : ℕ → Option ℕ
tracked zero = none
tracked (suc n) = some (suc n)

abbrev pub entry_count : Option IpStat → Option ℕ
entry_count none = none
entry_count (some st) = some st.count

-- The counters are those of the live guards, and neither cap is passed.
pub record Inv (s : Snapshot) : Type 0 where
  pub total : s.limits.state.total ≡ length s.guards
  pub entry :
      (ip : IpAddr) → entry_count (lookup_ip ip s.limits.state.per_ip) ≡ tracked (count ip s.guards)
  pub under_total : 0 < s.limits.max_total → length s.guards ≤ s.limits.max_total
  pub under_per_ip :
      (ip : IpAddr) → 0 < s.limits.max_per_ip → count ip s.guards ≤ s.limits.max_per_ip

-- A new limiter, with no slot taken.
abbrev pub fresh : ℕ → ℕ → Snapshot
fresh max_total max_per_ip = record { limits = new max_total max_per_ip; guards = [] }

pub new-Inv : (max_total max_per_ip : ℕ) → Inv (fresh max_total max_per_ip)
unfolding new count lookup
new-Inv max_total max_per_ip = record {
  total = refl;
  entry = λ ip. refl;
  under_total = λ h. omega arith;
  under_per_ip = λ ip h. omega arith;
}

-- There is a number for one more guard.
abbrev pub HasRoom : Snapshot → Type 0
HasRoom s =
    ((0 < s.limits.max_total) × (s.limits.max_total < u32_mod)) ⊎ (length s.guards + 1 < u32_mod)

tracked_pos : (n : ℕ) → 0 < n → tracked n ≡ some n
tracked_pos zero h = elim h [ ]
tracked_pos (suc n) h = refl

pub count_of_entry : (o : Option IpStat) (n : ℕ) → entry_count o ≡ tracked n → count_of o ≡ n
count_of_entry none zero e = refl
count_of_entry none (suc n) e = cc
count_of_entry (some st) zero e = cc
count_of_entry (some st) (suc n) e = ground arith

release_entry_lem :
    (ip src : IpAddr) (o : Option IpStat) (m : List (IpAddr × IpStat))
    → lookup_ip src m ≡ o
    → entry_count (lookup_ip ip (release_entry src o m))
      ≡ ite (IpAddr-discrete ip src) (tracked (count_of o - 1)) (entry_count (lookup_ip ip m))
unfolding release_entry
release_entry_lem ip src none m e = ground arith
release_entry_lem ip src (some st) m e = ground (
  arith,
  tracked_pos (st.count - 1),
  lookup-remove IpAddr-discrete src ip m,
  lookup-insert IpAddr-discrete src ip (record st { count = st.count - 1 }) m,
)

-- A guard that is one of those counted is dropped.
pub drop-Inv :
    (l : ConnLimits) (g : Guard) (gs left : List Guard)
    → length left + 1 ≡ length gs
    → ((ip : IpAddr) → ite (IpAddr-discrete ip g.src_ip) 1 0 + count ip left ≡ count ip gs)
    → Inv (record { limits = l; guards = gs })
    → Inv (record { limits = drop l g; guards = left })
unfolding drop
drop-Inv l g gs left len each v = record {
  total = omega (arith, v.total, len);
  entry = λ ip. ground (
    arith,
    release_entry_lem ip g.src_ip _ l.state.per_ip refl,
    count_of_entry _ _ (v.entry g.src_ip),
    v.entry ip,
    each ip,
  );
  under_total = λ h. omega (arith, v.under_total h, len);
  under_per_ip = λ ip h. omega (arith, v.under_per_ip ip h, each ip);
}

pub close-Inv :
    (s : Snapshot) (i : ℕ) (g : Guard)
    → get_elem? s.guards i ≡ some g
    → Inv s
    → Inv (release_at s i (some g))
close-Inv s i g e v =
    drop-Inv s.limits g s.guards (remove_at i s.guards) (length-remove_at i s.guards g e)
      (λ ip. count-remove_at ip i s.guards g e) v

entry-insert :
    (j ip : IpAddr) (st : IpStat) (m : List (IpAddr × IpStat))
    → entry_count (lookup_ip j (insert IpAddr-discrete ip st m))
      ≡ ite (IpAddr-discrete j ip) (some st.count) (entry_count (lookup_ip j m))
entry-insert j ip st m = ground (arith, lookup-insert IpAddr-discrete ip j st m)

or_default-count : (o : Option IpStat) → (or_default o).count ≡ count_of o
or_default-count none = refl
or_default-count (some st) = refl

-- After both caps have been passed with room for one more.
module _ (s : Snapshot) (ip : IpAddr) (v : Inv s) where
  counted_now :
      length s.guards + 1 < u32_mod
      → ((or_default (lookup_ip ip s.limits.state.per_ip)).count + 1) % u32_mod
        ≡ count ip s.guards + 1
  counted_now room = omega (
    arith,
    or_default-count (lookup_ip ip s.limits.state.per_ip),
    count_of_entry _ _ (v.entry ip),
    count-le-length ip s.guards,
  )

  admit-Inv :
      (0 < s.limits.max_total → length s.guards < s.limits.max_total)
      → (0 < s.limits.max_per_ip → count ip s.guards < s.limits.max_per_ip)
      → length s.guards + 1 < u32_mod
      → Inv (record { limits = (admit s.limits ip).0; guards = record { src_ip = ip } ∷ s.guards })
  unfolding admit count
  admit-Inv ht hi room = record {
    total = omega (arith, v.total);
    entry = λ j.
        rw entry-insert
          (ground (arith, v.entry j, counted_now room, tracked_pos (1 + count ip s.guards)));
    under_total = λ h. omega (arith, ht h);
    under_per_ip = λ j h. ground (arith, hi h, v.under_per_ip j h);
  }

  -- The test that the code makes, in terms of the live guards.
  pub counts_lem :
      (s.limits.state.total ≡ length s.guards)
      × (count_of (lookup_ip ip s.limits.state.per_ip) ≡ count ip s.guards)
  counts_lem = (v.total, count_of_entry _ _ (v.entry ip))

  connect-Inv : HasRoom s → Inv (step s (connect ip))
  unfolding step try_acquire
  connect-Inv room = ground (arith, counts_lem, admit-Inv)

close_cases :
    (s : Snapshot) (i : ℕ) (o : Option Guard)
    → get_elem? s.guards i ≡ o
    → Inv s
    → Inv (release_at s i o)
close_cases s i none e v = v
close_cases s i (some g) e v = close-Inv s i g e v

pub step-Inv : (s : Snapshot) (op : Op) → HasRoom s → Inv s → Inv (step s op)
unfolding step
step-Inv s (connect ip) room v = connect-Inv s ip v room
step-Inv s (close i) room v = close_cases s i _ refl v

pub step-max_total : (s : Snapshot) (op : Op) → (step s op).limits.max_total ≡ s.limits.max_total
unfolding step try_acquire admit drop
step-max_total s (connect ip) = ground arith
step-max_total s (close i) = ground arith

pub length-remove_at-le : (i : ℕ) (gs : List Guard) → length (remove_at i gs) ≤ length gs
length-remove_at-le i [] = omega arith
length-remove_at-le zero (h ∷ gs) = omega arith
length-remove_at-le (suc i) (h ∷ gs) = omega (arith, length-remove_at-le i gs)

step-guards : (s : Snapshot) (op : Op) → length (step s op).guards ≤ length s.guards + 1
unfolding step
step-guards s (connect ip) = ground arith
step-guards s (close i) = ground (arith, length-remove_at-le i s.guards)

-- The counter cannot wrap during a history: it is capped, or the history is short.
abbrev pub NeverWraps : Snapshot → List Op → Type 0
NeverWraps s ops =
    ((0 < s.limits.max_total) × (s.limits.max_total < u32_mod))
    ⊎ (length s.guards + length ops < u32_mod)

run-Inv : (s : Snapshot) (ops : List Op) → NeverWraps s ops → Inv s → Inv (run s ops)
unfolding run
run-Inv s [] h v = v
run-Inv s (op ∷ ops) h v = run-Inv (step s op) ops later (step-Inv s op now v)
  where
    now : HasRoom s
    now = ground arith

    later : NeverWraps (step s op) ops
    later = ground (arith, step-max_total s op, step-guards s op)

-- Over any history of a new limiter that cannot wrap its 32-bit counter (it has a total cap, or
-- fewer than 2^32 operations happen), the counters are those of the live guards, an address has an
-- entry exactly while it has a live guard, and neither enabled cap is passed.
pub run-new-Inv :
    (max_total max_per_ip : ℕ) (ops : List Op)
    → ((0 < max_total) × (max_total < u32_mod)) ⊎ (length ops < u32_mod)
    → Inv (run (fresh max_total max_per_ip) ops)
unfolding new
run-new-Inv max_total max_per_ip ops h = run-Inv _ ops (ground arith) (new-Inv max_total max_per_ip)
