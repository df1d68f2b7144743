-- ===== src/Service/Nodes.antt =====
-- The spawned tasks of the program: where their loops have come from, and what a returned one has
-- left.
use mathlib.Core.Path.{subst}
use oxiduct.Base.{
  ℕ, zero, suc, ◌+◌, ◌<◌, ◌≡◌, ◌⊎◌, inl, inr, refl, ap, sym, ◌∙◌, Bool, true, false, List, [], ◌∷◌,
  ◌++◌, some, arith, All, map, length, length-append, get_elem?, remove_at, if_cases,
}
use oxiduct.Base.Words.{u32_mod}
use oxiduct.Text.{Text}
use oxiduct.Config.{Protocol, ProxyConfig, tcp, udp}
use oxiduct.Proxy.Tcp.Serve
use oxiduct.Proxy.Tcp.Serve.Joined.{run-returned}
use oxiduct.Proxy.Udp
use oxiduct.Proxy.Dispatch.{tcp_listener, udp_listener, listener}
use oxiduct.Metrics.Exporter
use oxiduct.Main.{Task}
use oxiduct.Service.{
  Node, unbound, exporting, proxying, spawn, bound, Step, tcp_step, udp_step, exporter_step,
  node_step, has_returned, tcp_returned, udp_left, exporter_returned, update_at,
}

-- A total cap that a 32-bit counter can reach.
abbrev pub HasCap : ProxyConfig → Type 0
HasCap cfg = (0 < cfg.max_connections) × (cfg.max_connections < u32_mod)

abbrev pub TaskHasCap : Task → Type 0
TaskHasCap (Task.exporter addr) = Unit
TaskHasCap (Task.proxy cfg) = HasCap cfg

-- The counters of the TCP proxies cannot wrap: each has a total cap, or few events are left.
abbrev pub NeverWraps : List Task → (left : ℕ) → Type 0
NeverWraps ts left = All TaskHasCap ts ⊎ (left < u32_mod)

-- The loop of a node has come from its start, so that its counter cannot wrap in as many events more.
abbrev pub Reached : (left : ℕ) → Node → Type 0
Reached left unbound = Unit
Reached left (exporting s) = Unit
Reached left (proxying cfg (udp_listener s)) = Unit
Reached left (proxying cfg (tcp_listener s)) =
    (es : List Serve.Event) × (HasCap cfg ⊎ (length es + left < u32_mod))
    × (s ≡ Serve.run (Serve.start cfg 0) es)

pub Reached-weaken : (left : ℕ) (n : Node) → Reached (suc left) n → Reached left n
Reached-weaken left unbound r = tt
Reached-weaken left (exporting s) r = tt
Reached-weaken left (proxying cfg (udp_listener s)) r = tt
Reached-weaken left (proxying cfg (tcp_listener s)) (es, inl limit, q) = (es, inl limit, q)
Reached-weaken left (proxying cfg (tcp_listener s)) (es, inr few, q) =
    (es, inr (omega (arith, few)), q)

-- Nothing is left of a task: no connection and no slot of a TCP listener.
abbrev pub IsClean : Node → Type 0
IsClean unbound = ⊥
IsClean (exporting s) = s.stage ≡ Exporter.returned
IsClean (proxying cfg (udp_listener s)) = (s.listener ≡ Udp.drained) ⊎ (s.listener ≡ Udp.shut)
IsClean (proxying cfg (tcp_listener s)) =
    (s.running ≡ []) × (s.ended ≡ []) × (s.limits.state.total ≡ 0)

tcp_returned_lem : (t : Serve.Stage) → tcp_returned t ≡ true → t ≡ Serve.returned
tcp_returned_lem t e = ground arith

udp_left_lem : (l : Udp.Listener) → udp_left l ≡ true → (l ≡ Udp.drained) ⊎ (l ≡ Udp.shut)
udp_left_lem l e = ground arith

exporter_returned_lem : (t : Exporter.Stage) → exporter_returned t ≡ true → t ≡ Exporter.returned
exporter_returned_lem t e = ground arith

short_enough :
    (cfg : ProxyConfig) (es : List Serve.Event) (left : ℕ)
    → HasCap cfg ⊎ (length es + left < u32_mod)
    → HasCap cfg ⊎ (length es < u32_mod)
short_enough cfg es left (inl limit) = inl limit
short_enough cfg es left (inr few) = inr (omega (arith, few))

pub returned-IsClean : (left : ℕ) (n : Node) → Reached left n → has_returned n ≡ true → IsClean n
returned-IsClean left unbound r e = cc
returned-IsClean left (exporting s) r e = exporter_returned_lem s.stage e
returned-IsClean left (proxying cfg (udp_listener s)) r e = udp_left_lem s.listener e
returned-IsClean left (proxying cfg (tcp_listener s)) (es, limit, q) e =
    let (a, b, c, d) =
      run-returned cfg 0 es (short_enough cfg es left limit)
        (ap (λ (x : Serve.State). x.stage) (sym q) ∙ tcp_returned_lem s.stage e) in
    (
      ap (λ (x : Serve.State). x.running) q ∙ a,
      ap (λ (x : Serve.State). x.ended) q ∙ b,
      ap (λ (x : Serve.State). x.limits.state.total) q ∙ c,
    )

run-snoc :
    (s : Serve.State) (es : List Serve.Event) (e : Serve.Event)
    → Serve.step (Serve.run s es) e ≡ Serve.run s (es ++ e ∷ [])
unfolding Serve.run
run-snoc s [] e = refl
run-snoc s (d ∷ es) e = run-snoc (Serve.step s d) es e

one_more :
    (cfg : ProxyConfig) (es : List Serve.Event) (e : Serve.Event) (left : ℕ)
    → HasCap cfg ⊎ (length es + suc left < u32_mod)
    → HasCap cfg ⊎ (length (es ++ e ∷ []) + left < u32_mod)
one_more cfg es e left (inl limit) = inl limit
one_more cfg es e left (inr few) = inr (omega (arith, few, length-append es (e ∷ [])))

pub node_step-Reached :
    (left : ℕ) (n : Node) (e : Step) → Reached (suc left) n → Reached left (node_step n e)
unfolding node_step
node_step-Reached left (proxying cfg (tcp_listener s)) (tcp_step e) (es, limit, q) = (
  es ++ e ∷ [],
  one_more cfg es e left limit,
  ap (λ x. Serve.step x e) q ∙ run-snoc (Serve.start cfg 0) es e,
)
node_step-Reached left (proxying cfg (tcp_listener s)) (udp_step e) r =
    Reached-weaken left (proxying cfg (tcp_listener s)) r
node_step-Reached left (proxying cfg (tcp_listener s)) (exporter_step e) r =
    Reached-weaken left (proxying cfg (tcp_listener s)) r
node_step-Reached left (proxying cfg (udp_listener s)) (tcp_step e) r = tt
node_step-Reached left (proxying cfg (udp_listener s)) (udp_step e) r = tt
node_step-Reached left (proxying cfg (udp_listener s)) (exporter_step e) r = tt
node_step-Reached left (exporting s) (tcp_step e) r = tt
node_step-Reached left (exporting s) (udp_step e) r = tt
node_step-Reached left (exporting s) (exporter_step e) r = tt
node_step-Reached left unbound (tcp_step e) r = tt
node_step-Reached left unbound (udp_step e) r = tt
node_step-Reached left unbound (exporter_step e) r = tt

listener-Reached :
    (left : ℕ) (cfg : ProxyConfig) (p : Protocol) (binds : Bool)
    → HasCap cfg ⊎ (left < u32_mod)
    → Reached left (bound cfg (listener cfg p binds 0))
unfolding Serve.run
listener-Reached left cfg tcp true (inl limit) = ([], inl limit, refl)
listener-Reached left cfg tcp true (inr few) = ([], inr (omega (arith, few)), refl)
listener-Reached left cfg tcp false limit = tt
listener-Reached left cfg udp true limit = tt
listener-Reached left cfg udp false limit = tt

spawn-Reached :
    (left : ℕ) (binds : Protocol → Text → Bool) (t : Task)
    → TaskHasCap t ⊎ (left < u32_mod)
    → Reached left (spawn binds t)
spawn-Reached left binds (Task.exporter addr) h =
    if_cases (Reached left) (binds tcp addr) (exporting Exporter.start) unbound tt tt
spawn-Reached left binds (Task.proxy cfg) h =
    listener-Reached left cfg cfg.protocol (binds cfg.protocol cfg.listen) h

pub map-Reached :
    (left : ℕ) (binds : Protocol → Text → Bool) (ts : List Task)
    → NeverWraps ts left
    → All (Reached left) (map (spawn binds) ts)
map-Reached left binds [] h = tt
map-Reached left binds (t ∷ ts) (inl caps) =
    (spawn-Reached left binds t (inl caps.0), map-Reached left binds ts (inl caps.1))
map-Reached left binds (t ∷ ts) (inr few) =
    (spawn-Reached left binds t (inr few), map-Reached left binds ts (inr few))

pub length-map-spawn :
    (binds : Protocol → Text → Bool) (ts : List Task) → length (map (spawn binds) ts) ≡ length ts
length-map-spawn binds [] = refl
length-map-spawn binds (t ∷ ts) = omega (arith, length-map-spawn binds ts)

pub update_at-Reached :
    (left : ℕ) (i : ℕ) (n : Node) (ns : List Node)
    → Reached left n
    → All (Reached left) ns
    → All (Reached left) (update_at i n ns)
unfolding update_at
update_at-Reached left i n [] r h = tt
update_at-Reached left zero n (m ∷ ns) r h = (r, h.1)
update_at-Reached left (suc i) n (m ∷ ns) r h = (h.0, update_at-Reached left i n ns r h.1)

pub length-update_at : (i : ℕ) (n : Node) (ns : List Node) → length (update_at i n ns) ≡ length ns
unfolding update_at
length-update_at i n [] = refl
length-update_at zero n (m ∷ ns) = omega arith
length-update_at (suc i) n (m ∷ ns) = omega (arith, length-update_at i n ns)

pub remove_at-Reached :
    (left : ℕ) (i : ℕ) (ns : List Node)
    → All (Reached left) ns
    → All (Reached left) (remove_at i ns)
remove_at-Reached left i [] h = tt
remove_at-Reached left zero (m ∷ ns) h = h.1
remove_at-Reached left (suc i) (m ∷ ns) h = (h.0, remove_at-Reached left i ns h.1)

pub get_elem?-Reached :
    (left : ℕ) (i : ℕ) (ns : List Node) (n : Node)
    → get_elem? ns i ≡ some n
    → All (Reached left) ns
    → Reached left n
get_elem?-Reached left i [] n e h = cc
get_elem?-Reached left zero (m ∷ ns) n e h = subst (Reached left) (ground arith) h.0
get_elem?-Reached left (suc i) (m ∷ ns) n e h = get_elem?-Reached left i ns n e h.1

pub length-remove_at {ℓ} :
    {A : Type ℓ} (i : ℕ) (xs : List A) → i < length xs → length (remove_at i xs) + 1 ≡ length xs
length-remove_at i [] h = ground (arith, h)
length-remove_at zero (x ∷ xs) h = omega arith
length-remove_at (suc i) (x ∷ xs) h = omega (arith, length-remove_at i xs (omega (arith, h)))

pub in_range {ℓ} :
    {A : Type ℓ} (i : ℕ) (xs : List A) (x : A) → get_elem? xs i ≡ some x → i < length xs
in_range i [] x e = cc
in_range zero (y ∷ xs) x e = omega arith
in_range (suc i) (y ∷ xs) x e = omega (arith, in_range i xs x e)

pub found {ℓ} :
    {A : Type ℓ} (i : ℕ) (xs : List A) → i < length xs → (x : A) × (get_elem? xs i ≡ some x)
found i [] h = absurd (omega (arith, h))
found zero (x ∷ xs) h = (x, refl)
found (suc i) (x ∷ xs) h = found i xs (omega (arith, h))
