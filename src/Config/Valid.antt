-- ===== src/Config/Valid.antt =====
-- src/config.rs: which configurations `validate` accepts, and what a loaded file satisfies.
use oxiduct.Base.{
  ℕ, ◌≤◌, ◌≡◌, ◌≢◌, ◌↔◌, ◌⊎◌, inl, inr, refl, ap, sym, ◌∙◌, false, List, [], ◌∷◌, arith, All, map,
}
use oxiduct.Base.Map.{contains}
use oxiduct.Text.{Text, Text-discrete}
use oxiduct.Config.{
  ProxyConfig, TomlFile, TomlProxy, LoadedConfig, Result, ok, err, Error, check_host_port, validate,
}
use oxiduct.Config.Address.{HostPort, check_host_port_iff}
use oxiduct.Config.Load.{
  resolve_from, Socket, Socket-discrete, socket, check_all, resolve, none_given,
}

-- What a proxy can run with.
pub record IsRunnable (c : ProxyConfig) : Type 0 where
  pub listen : (port : ℕ) × HostPort c.listen port
  pub target : (port : ℕ) × HostPort c.target port × (port ≢ 0)
  pub connect_timeout : 1 ≤ c.connect_timeout_secs
  pub keepalive_idle : c.keepalive_idle_secs ≤ 32767
  pub keepalive_interval : c.keepalive_interval_secs ≤ 32767
  pub keepalive_retries : c.keepalive_retries ≤ 127

pub Result-cases {ℓ} :
    {A : Type ℓ} (r : Result A) → ((a : A) × (r ≡ ok a)) ⊎ ((e : Error) × (r ≡ err e))
Result-cases (ok a) = inl (a, refl)
Result-cases (err e) = inr (e, refl)

validate_sound : (c : ProxyConfig) → validate c ≡ ok tt → IsRunnable c
unfolding validate
validate_sound c h = elim (Result-cases (check_host_port c.listen)) [
  | inr (e, refused) ↦ ground arith
  | inl (p, listens) ↦ elim (Result-cases (check_host_port c.target)) [
    | inr (e, refused) ↦ ground arith
    | inl (q, targets) ↦ record {
      listen = (p, (check_host_port_iff c.listen p).0 listens);
      target = (q, (check_host_port_iff c.target q).0 targets, λ z. ground arith);
      connect_timeout = ground arith;
      keepalive_idle = ground arith;
      keepalive_interval = ground arith;
      keepalive_retries = ground arith;
    }
  ]
]

validate_complete : (c : ProxyConfig) → IsRunnable c → validate c ≡ ok tt
unfolding validate
validate_complete c r =
    let (p, listens) = r.listen in
    let (q, targets, pos) = r.target in
    ground (
      arith,
      (check_host_port_iff c.listen p).1 listens,
      (check_host_port_iff c.target q).1 targets,
      pos,
    )

-- `validate` accepts exactly the configurations with a listen address, a target address with a
-- nonzero port, a connect timeout of at least one second, and keepalive values that the kernel takes.
pub validate_iff : (c : ProxyConfig) → (validate c ≡ ok tt) ↔ IsRunnable c
validate_iff c = (validate_sound c, validate_complete c)

module _ {ℓ} {A : Type ℓ} where
  abbrev pub Distinct : List A → Type ℓ
  Distinct [] = Unit
  Distinct (x ∷ xs) = All (λ y. x ≢ y) xs × Distinct xs

  -- No member of the list is among those seen before.
  abbrev Apart : List A → List A → Type ℓ
  Apart seen [] = Unit
  Apart seen (x ∷ xs) = All (λ s. x ≢ s) seen × Apart seen xs

  Apart-cons :
      (s : A) (seen xs : List A) → Apart (s ∷ seen) xs ↔ (All (λ x. s ≢ x) xs × Apart seen xs)
  Apart-cons s seen [] = ((λ h. (tt, tt)), λ h. tt)
  Apart-cons s seen (x ∷ xs) =
      let (to, from) = Apart-cons s seen xs in
      (
        (λ h. (((λ e. h.0.0 (sym e)), (to h.1).0), (h.0.1, (to h.1).1))),
        λ h. (((λ e. h.0.0 (sym e)), h.1.0), from (h.0.1, h.1.1)),
      )

  Apart-nil : (xs : List A) → Apart [] xs
  Apart-nil [] = tt
  Apart-nil (x ∷ xs) = (tt, Apart-nil xs)

  contains-eq-false_iff :
      (same : Discrete A) (a : A) (xs : List A) → (contains same a xs ≡ false) ↔ All (λ x. a ≢ x) xs
  unfolding contains
  contains-eq-false_iff same a [] = ((λ e. tt), λ h. refl)
  contains-eq-false_iff same a (x ∷ xs) =
      let (to, from) = contains-eq-false_iff same a xs in
      ((λ e. ((λ q. ground arith), to (ground arith))), λ h. ground (arith, from h.1, h.0))

abbrev Accepts : List Text → List Socket → List ProxyConfig → Type 0
Accepts names listens cs =
    All IsRunnable cs
    × Distinct (map (λ c. c.name) cs)
    × Distinct (map socket cs)
    × Apart names (map (λ c. c.name) cs)
    × Apart listens (map socket cs)

check_all_sound :
    (names : List Text) (listens : List Socket) (cs : List ProxyConfig)
    → check_all names listens cs ≡ ok tt
    → Accepts names listens cs
unfolding check_all
check_all_sound names listens [] e = (tt, tt, tt, tt, tt)
check_all_sound names listens (c ∷ cs) e =
    let valid : validate c ≡ ok tt = ground arith in
    let name : contains Text-discrete c.name names ≡ false = ground arith in
    let listen : contains Socket-discrete (socket c) listens ≡ false = ground arith in
    let (runs, dn, dl, an, al) =
      check_all_sound (c.name ∷ names) (socket c ∷ listens) cs (ground arith) in
    let (fresh_name, an') = (Apart-cons c.name names _).0 an in
    let (fresh_listen, al') = (Apart-cons (socket c) listens _).0 al in
    (
      (validate_sound c valid, runs),
      (fresh_name, dn),
      (fresh_listen, dl),
      ((contains-eq-false_iff Text-discrete c.name names).0 name, an'),
      ((contains-eq-false_iff Socket-discrete (socket c) listens).0 listen, al'),
    )

check_all_complete :
    (names : List Text) (listens : List Socket) (cs : List ProxyConfig)
    → Accepts names listens cs
    → check_all names listens cs ≡ ok tt
unfolding check_all
check_all_complete names listens [] h = refl
check_all_complete names listens (c ∷ cs) (runs, dn, dl, an, al) = ground (
  arith,
  validate_complete c runs.0,
  (contains-eq-false_iff Text-discrete c.name names).1 an.0,
  (contains-eq-false_iff Socket-discrete (socket c) listens).1 al.0,
  check_all_complete (c.name ∷ names) (socket c ∷ listens) cs (
    runs.1,
    dn.1,
    dl.1,
    (Apart-cons c.name names _).1 (dn.0, an.1),
    (Apart-cons (socket c) listens _).1 (dl.0, al.1),
  ),
)

-- The entries of a file after the defaults have been filled in.
abbrev pub resolved : TomlFile → List ProxyConfig
resolved file = resolve_from 0 file.defaults file.proxies

-- What makes a parsed file usable.
pub record IsUsable (file : TomlFile) : Type 0 where
  pub some_proxy : file.proxies ≢ []
  pub runnable : All IsRunnable (resolved file)
  pub names : Distinct (map (λ c. c.name) (resolved file))
  pub sockets : Distinct (map socket (resolved file))

abbrev pub loaded_of : TomlFile → LoadedConfig
loaded_of file = record {
  proxies = resolved file;
  metrics_listen = file.metrics_listen;
  shutdown_grace = file.shutdown_grace;
}

resolve_sound :
    (file : TomlFile) (loaded : LoadedConfig)
    → resolve file ≡ ok loaded
    → IsUsable file × (loaded ≡ loaded_of file)
unfolding resolve
resolve_sound file loaded e =
    let (runs, dn, dl, an, al) = check_all_sound [] [] (resolved file) (ground arith) in
    (
      record { some_proxy = λ empty. ground arith; runnable = runs; names = dn; sockets = dl },
      ground arith,
    )

none_given_lem : (ps : List TomlProxy) → ps ≢ [] → none_given ps ≡ false
none_given_lem [] h = absurd (h refl)
none_given_lem (p ∷ ps) h = refl

resolve_complete : (file : TomlFile) → IsUsable file → resolve file ≡ ok (loaded_of file)
unfolding resolve
resolve_complete file u = ground (
  arith,
  none_given_lem file.proxies u.some_proxy,
  check_all_complete [] [] (resolved file)
      (u.runnable, u.names, u.sockets, Apart-nil _, Apart-nil _),
)

-- A parsed file loads exactly if it has a proxy, every proxy can run after the defaults are filled
-- in, no two have one name, and no two listen on one address with one protocol; what is loaded is
-- then its proxies in order, and its two global settings.
pub resolve_iff :
    (file : TomlFile) (loaded : LoadedConfig)
    → (resolve file ≡ ok loaded) ↔ (IsUsable file × (loaded ≡ loaded_of file))
resolve_iff file loaded =
    (resolve_sound file loaded, λ h. resolve_complete file h.0 ∙ ap ok (sym h.1))
