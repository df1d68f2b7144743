-- ===== src/Proxy/Tcp/Serve/Joined.antt =====
-- src/proxy/tcp.rs, `serve_graceful` after the stop, and what is left when it returns.
use oxiduct.Base.{
  ℕ, zero, suc, ◌+◌, ◌<◌, ◌≡◌, refl, ap, ◌∙◌, ◌⊎◌, Bool, true, false, List, [], ◌∷◌, Option, none,
  some, arith, length, remove_at,
}
use mathlib.Core.Path.{subst}
use native.Mathlib.Nat.{add-zero}
use oxiduct.Base.Words.{u32_mod}
use oxiduct.Net.{IpAddr}
use oxiduct.Limits.{IpStat, lookup_ip}
use oxiduct.Limits.Lifetimes.{count, entry_count, tracked}
use oxiduct.Config.{ProxyConfig}
use oxiduct.Proxy.Tcp.Serve.{
  Task, Stage, joining, returned, State, start, Event, joins, returns, ends, step, run,
  return_if_empty,
}
use oxiduct.Proxy.Tcp.Serve.Slots.{guards, run-start-Inv}

-- Past the accept loop.
abbrev pub is_past : Stage → Bool
is_past joining = true
is_past returned = true
is_past stage = false

step-past :
    (s : State) (e : Event)
    → is_past s.stage ≡ true
    → (is_past (step s e).stage ≡ true)
      × ((step s e).metrics ≡ s.metrics)
      × ((step s e).next_id ≡ s.next_id)
unfolding step
step-past s e h = ground arith

-- After the stop no connection is accepted, rejected or counted, whatever happens.
pub run-past :
    (s : State) (es : List Event)
    → is_past s.stage ≡ true
    → (is_past (run s es).stage ≡ true)
      × ((run s es).metrics ≡ s.metrics)
      × ((run s es).next_id ≡ s.next_id)
unfolding run
run-past s [] h = (h, refl, refl)
run-past s (e ∷ es) h =
    let (p, m, n) = step-past s e h in let (q, k, o) = run-past (step s e) es p in (q, k ∙ m, o ∙ n)

-- A listener that has returned has joined every task.
abbrev pub IsEmpty : State → Type 0
IsEmpty s = s.stage ≡ returned → (s.running ≡ []) × (s.ended ≡ [])

pub step-IsEmpty : (s : State) (e : Event) → IsEmpty s → IsEmpty (step s e)
unfolding step
step-IsEmpty s e v h = ground (arith, v)

run-IsEmpty : (s : State) (es : List Event) → IsEmpty s → IsEmpty (run s es)
unfolding run
run-IsEmpty s [] v = v
run-IsEmpty s (e ∷ es) v = run-IsEmpty (step s e) es (step-IsEmpty s e v)

no_entry : (o : Option IpStat) → entry_count o ≡ tracked 0 → o ≡ none
no_entry none e = refl
no_entry (some st) e = cc

-- When a listener whose 32-bit counter cannot wrap returns, no task is left, running or unjoined,
-- every slot has been given back, and no address has an entry in the limiter.
pub run-returned :
    (cfg : ProxyConfig) (next_id : ℕ) (es : List Event)
    → ((0 < cfg.max_connections) × (cfg.max_connections < u32_mod)) ⊎ (length es < u32_mod)
    → (run (start cfg next_id) es).stage ≡ returned
    → ((run (start cfg next_id) es).running ≡ [])
      × ((run (start cfg next_id) es).ended ≡ [])
      × ((run (start cfg next_id) es).limits.state.total ≡ 0)
      × ((ip : IpAddr) → lookup_ip ip (run (start cfg next_id) es).limits.state.per_ip ≡ none)
unfolding start guards count
run-returned cfg next_id es h e =
    let v = run-start-Inv cfg next_id es h in
    let (running, ended) = run-IsEmpty (start cfg next_id) es (λ q. (refl, refl)) e in
    let none_left : guards (run (start cfg next_id) es).running ≡ [] = ap guards running in
    (
      running,
      ended,
      v.total ∙ ap (λ x. length x) none_left,
      λ ip. no_entry _ (v.entry ip ∙ ap (λ gs. tracked (count ip gs)) none_left),
    )

-- Each running task ends, each ended one is joined, and the listener returns.
unfoldable pub joinings : ℕ → List Event
joinings zero = returns ∷ []
joinings (suc n) = joins 0 ∷ joinings n

unfoldable pub endings : List Task → List Event → List Event
endings [] rest = rest
endings (t ∷ ts) rest = ends 0 ∷ endings ts rest

length-remove_first {ℓ} :
    {A : Type ℓ} (n : ℕ) (xs : List A) → length xs ≡ suc n → length (remove_at 0 xs) ≡ n
length-remove_first n [] e = ground arith
length-remove_first n (x ∷ xs) e = omega (arith, e)

joinings_lem :
    (n : ℕ) (s : State)
    → s.stage ≡ joining
    → s.running ≡ []
    → length s.ended ≡ n
    → (run s (joinings n)).stage ≡ returned
unfolding joinings run step
joinings_lem zero s j r e = return_lem s s.ended j r refl e
  where
    return_lem :
        (s : State) (ids : List ℕ)
        → s.stage ≡ joining
        → s.running ≡ []
        → s.ended ≡ ids
        → length ids ≡ 0
        → (return_if_empty s s.stage s.running s.ended).stage ≡ returned
    return_lem s [] j r e n = ground (arith, j, r, e)
    return_lem s (i ∷ ids) j r e n = ground (arith, n)
joinings_lem (suc n) s j r e =
    joinings_lem n (step s (joins 0)) (ground (arith, j)) (ground (arith, j, r))
      (ground (arith, j, length-remove_first n s.ended e))

endings_lem :
    (ts : List Task) (n : ℕ) (s : State)
    → s.stage ≡ joining
    → s.running ≡ ts
    → length s.ended ≡ n
    → (run s (endings ts (joinings (n + length ts)))).stage ≡ returned
unfolding endings run step
endings_lem [] n s j r e = rw (add-zero n) (joinings_lem n s j r e)
endings_lem (t ∷ ts) n s j r e =
    subst (λ k. (run (step s (ends 0)) (endings ts (joinings k))).stage ≡ returned) (omega arith)
      (endings_lem ts (n + 1) (step s (ends 0)) (ground (arith, j, r)) (ground (arith, r))
        (ground (arith, r, e)))

-- A listener past its loop returns as soon as its tasks have ended and been joined: it waits for
-- nothing else.
pub run-endings :
    (s : State)
    → s.stage ≡ joining
    → (run s (endings s.running (joinings (length s.ended + length s.running)))).stage ≡ returned
run-endings s j = endings_lem s.running (length s.ended) s j refl refl
