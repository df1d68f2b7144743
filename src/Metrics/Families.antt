-- ===== src/Metrics/Families.antt =====
-- src/metrics.rs, `Metrics`: the families of metrics, and their registration. The registry is
-- third-party code: it is a parameter.
use mathlib.Core.List.{reverse}
use oxiduct.Base.{
  ℕ, ◌≡◌, refl, ap, ◌∙◌, Bool, true, false, ◌&&◌, ◌||◌, not, List, [], ◌∷◌, Option, none, some, leb,
  ◌==◌, arith, if◌then◌else◌,
}
use oxiduct.Text.{Text, codes, Text-discrete}
use oxiduct.Base.Map.{contains}

pub data Kind : Type 0 where
  counter gauge : Kind

pub record Family : Type 0 where
  pub kind : Kind
  pub name : Text
  pub help : Text
  pub labels : List Text

-- The fields of `Metrics`.
pub data Field : Type 0 where
  connections_total connections_rejected connect_failures connect_timeouts bytes_total
        connections_closed active limit_max_connections limit_max_per_ip :
      Field

abbrev pub family : Field → Family
family connections_total = record {
  kind = counter;
  name = codes "oxiduct_connections_total";
  help = codes "Connections accepted / UDP sessions opened";
  labels = codes "proxy" ∷ codes "protocol" ∷ [];
}
family connections_rejected = record {
  kind = counter;
  name = codes "oxiduct_connections_rejected_total";
  help = codes "Connections refused by the connection limiter";
  labels = codes "proxy" ∷ codes "reason" ∷ [];
}
family connect_failures = record {
  kind = counter;
  name = codes "oxiduct_connect_failures_total";
  help = codes "Upstream TCP connect failures";
  labels = codes "proxy" ∷ [];
}
family connect_timeouts = record {
  kind = counter;
  name = codes "oxiduct_connect_timeouts_total";
  help = codes "Upstream TCP connect timeouts";
  labels = codes "proxy" ∷ [];
}
family bytes_total = record {
  kind = counter;
  name = codes "oxiduct_bytes_total";
  help = codes "Bytes relayed";
  labels = codes "proxy" ∷ codes "direction" ∷ [];
}
family connections_closed = record {
  kind = counter;
  name = codes "oxiduct_connections_closed_total";
  help = codes "Connections / sessions closed, by reason";
  labels = codes "proxy" ∷ codes "reason" ∷ [];
}
family active = record {
  kind = gauge;
  name = codes "oxiduct_active_connections";
  help = codes "Currently active connections / sessions";
  labels = codes "proxy" ∷ [];
}
family limit_max_connections = record {
  kind = gauge;
  name = codes "oxiduct_max_connections";
  help = codes "Configured total connection cap (0 = unlimited)";
  labels = codes "proxy" ∷ [];
}
family limit_max_per_ip = record {
  kind = gauge;
  name = codes "oxiduct_max_per_ip";
  help = codes "Configured per-source-IP connection cap (0 = unlimited)";
  labels = codes "proxy" ∷ [];
}

-- In the order of the registration.
abbrev pub fields : List Field
fields =
    connections_total ∷ connections_rejected ∷ connect_failures ∷ connect_timeouts ∷ bytes_total
    ∷ connections_closed ∷ active ∷ limit_max_connections ∷ limit_max_per_ip ∷ []

infixl 5 ◌>>=◌
abbrev ◌>>=◌ : {A B : Type 0} → Option A → (A → Option B) → Option B
none >>= f = none
some a >>= f = f a

-- `Opts`, the vector and `register`, each of which `expect` unwraps: none is a panic.
module _ {Registry : Type 0} (vector : Family → Bool)
    (register : Registry → Family → Option Registry) where
  abbrev pub registered : Registry → Family → Option Registry
  registered r f = if vector f then register r f else none

  unfoldable pub register_all : Registry → List Field → Option Registry
  register_all r [] = some r
  register_all r (f ∷ fs) = registered r (family f) >>= λ r'. register_all r' fs

  -- `Metrics::new`, from the new registry.
  abbrev pub new : Registry → Option Registry
  new r = register_all r fields

-- The documented rules: a name of letters, digits, underscores and colons that does not begin with
-- a digit, with a help text, and labels that are such names without colons, no two the same.
abbrev pub is_letter : ℕ → Bool
is_letter c = (leb b'a' c && leb c b'z') || (leb b'A' c && leb c b'Z') || c == b'_'

abbrev pub is_digit : ℕ → Bool
is_digit c = leb b'0' c && leb c b'9'

abbrev pub all : (ℕ → Bool) → Text → Bool
all p [] = true
all p (c ∷ cs) = p c && all p cs

abbrev pub is_label : Text → Bool
is_label [] = false
is_label (c ∷ cs) = is_letter c && all (λ d. is_letter d || is_digit d) cs

abbrev pub is_metric_name : Text → Bool
is_metric_name [] = false
is_metric_name (c ∷ cs) =
    (is_letter c || c == b':') && all (λ d. is_letter d || is_digit d || d == b':') cs

abbrev pub is_empty : Text → Bool
is_empty [] = true
is_empty (c ∷ cs) = false

abbrev pub are_labels : List Text → Bool
are_labels [] = true
are_labels (l ∷ ls) = is_label l && not (contains Text-discrete l ls) && are_labels ls

abbrev pub is_valid : Family → Bool
is_valid f = is_metric_name f.name && not (is_empty f.help) && are_labels f.labels

-- Valid families whose names are new, each among those before it too.
are_fresh : List Text → List Field → Bool
are_fresh known [] = true
are_fresh known (f ∷ fs) =
    is_valid (family f)
    && not (contains Text-discrete (family f).name known)
    && are_fresh ((family f).name ∷ known) fs

abbrev pub names_from : List Text → List Field → List Text
names_from known [] = known
names_from known (f ∷ fs) = names_from ((family f).name ∷ known) fs

both : (a b c : Bool) → a && b && c ≡ true → (a ≡ true) × (b ≡ true) × (c ≡ true)
both a b c h = ground arith

negation : (b : Bool) → not b ≡ true → b ≡ false
negation b h = ground arith

-- The metrics that the README lists.
abbrev pub documented : List Text
documented =
    codes "oxiduct_connections_total"
    ∷ codes "oxiduct_connections_rejected_total"
    ∷ codes "oxiduct_connect_failures_total"
    ∷ codes "oxiduct_connect_timeouts_total"
    ∷ codes "oxiduct_bytes_total"
    ∷ codes "oxiduct_connections_closed_total"
    ∷ codes "oxiduct_active_connections"
    ∷ codes "oxiduct_max_connections"
    ∷ codes "oxiduct_max_per_ip"
    ∷ []

registered_field :
    (f : Field) → contains Text-discrete (family f).name (names_from [] fields) ≡ true
unfolding contains Text-discrete
registered_field connections_total = refl
registered_field connections_rejected = refl
registered_field connect_failures = refl
registered_field connect_timeouts = refl
registered_field bytes_total = refl
registered_field connections_closed = refl
registered_field active = refl
registered_field limit_max_connections = refl
registered_field limit_max_per_ip = refl

fields_fresh : are_fresh [] fields ≡ true
unfolding are_fresh contains Text-discrete
fields_fresh = refl

module _ {Registry : Type 0} (vector : Family → Bool)
    (register : Registry → Family → Option Registry) (names : Registry → List Text)
    (accepts : (f : Family) → is_valid f ≡ true → vector f ≡ true)
    (adds : (r : Registry) (f : Family)
      → contains Text-discrete f.name (names r) ≡ false
      → (r' : Registry) × (register r f ≡ some r') × (names r' ≡ f.name ∷ names r)) where
  register_all_lem :
      (fs : List Field) (r : Registry) (known : List Text)
      → names r ≡ known
      → are_fresh known fs ≡ true
      → (r' : Registry) × (register_all vector register r fs ≡ some r')
        × (names r' ≡ names_from known fs)
  unfolding register_all are_fresh
  register_all_lem [] r known e h = (r, refl, e)
  register_all_lem (f ∷ fs) r known e h =
      let (valid, new_name, rest) =
        both (is_valid (family f)) (not (contains Text-discrete (family f).name known))
          (are_fresh ((family f).name ∷ known) fs) h in
      let (r', added, names') = adds r (family f) (
        ap (contains Text-discrete (family f).name) e
        ∙ negation (contains Text-discrete (family f).name known) new_name) in
      let (r'', q, k) =
        register_all_lem fs r' ((family f).name ∷ known)
          (names' ∙ ap (λ ns. (family f).name ∷ ns) e) rest in
      let one : registered vector register r (family f) ≡ some r' =
        ap (λ b. if b then register r (family f) else none) (accepts (family f) valid) ∙ added in
      (r'', ap (λ o. o >>= λ r1. register_all vector register r1 fs) one ∙ q, k)

  -- With a registry that is empty, takes every valid family and adds each one whose name is new,
  -- `Metrics::new` succeeds; the registry then has the nine names that the README documents and no
  -- other, and among them that of every field of `Metrics`.
  pub new_registers :
      (r : Registry)
      → names r ≡ []
      → (r' : Registry) × (new vector register r ≡ some r')
        × (reverse (names r') ≡ documented)
        × ((f : Field) → contains Text-discrete (family f).name (names r') ≡ true)
  unfolding contains Text-discrete
  new_registers r e =
      let (r', made, q) = register_all_lem fields r [] e fields_fresh in
      (
        r',
        made,
        ap reverse q,
        λ f. ap (contains Text-discrete (family f).name) q ∙ registered_field f,
      )
