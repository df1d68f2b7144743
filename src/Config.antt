-- ===== src/Config.antt =====
-- src/config.rs: the resolved configuration of a proxy, its validation, and the two ways to it, from
-- the command line's arguments and from a parsed file.
pub mod Defaults
pub mod Load
pub mod Address
pub mod Valid
pub mod Agree
mod Tests
use oxiduct.Base.{
  ℕ, ◌≡◌, Bool, true, false, List, [], ◌∷◌, ◌++◌, Option, none, some, ltb, ◌==◌, suc, if◌then◌else◌,
  ite,
}
use oxiduct.Text.{Text, codes, Text-discrete, rsplit_once, parse_u16, decimal}
use oxiduct.Cli.{expand_listen}

pub data Protocol : Type 0 where
  tcp udp : Protocol

pub record ProxyConfig : Type 0 where
  pub name : Text
  pub listen : Text
  pub target : Text
  pub protocol : Protocol
  pub connect_timeout_secs : ℕ
  pub keepalive_idle_secs : ℕ
  pub keepalive_interval_secs : ℕ
  pub keepalive_retries : ℕ
  pub user_timeout_ms : ℕ
  pub idle_timeout_secs : ℕ
  pub half_close_timeout_secs : ℕ
  pub max_connections : ℕ
  pub max_per_ip : ℕ
  pub proxy_protocol : Bool

-- The optional knobs of the `[defaults]` table, and of one `[[proxy]]` entry.
pub record TomlTuning : Type 0 where
  pub connect_timeout : Option ℕ
  pub keepalive_idle : Option ℕ
  pub keepalive_interval : Option ℕ
  pub keepalive_retries : Option ℕ
  pub user_timeout_ms : Option ℕ
  pub idle_timeout : Option ℕ
  pub half_close_timeout : Option ℕ
  pub max_connections : Option ℕ
  pub max_per_ip : Option ℕ
  pub proxy_protocol : Option Bool

pub record TomlProxy : Type 0 where
  pub name : Option Text
  pub listen : Text
  pub target : Text
  pub protocol : Protocol
  pub knobs : TomlTuning

pub record TomlFile : Type 0 where
  pub defaults : TomlTuning
  pub metrics_listen : Option Text
  pub shutdown_grace : Option ℕ
  pub proxies : List TomlProxy

pub record LoadedConfig : Type 0 where
  pub proxies : List ProxyConfig
  pub metrics_listen : Option Text
  pub shutdown_grace : Option ℕ

-- The bounded knobs that an error message can name.
pub data Knob : Type 0 where
  keepalive_idle keepalive_interval keepalive_retries : Knob

-- The error messages, with the values that they show and the contexts put around them.
pub data Error : Type 0 where
  missing_port missing_host : Text → Error
  invalid_port : (s port : Text) → Error
  invalid_listen invalid_target : (name : Text) → Error → Error
  zero_target_port zero_connect_timeout : (name : Text) → Error
  too_large : (name : Text) → Knob → (max : ℕ) → Error
  no_listen no_target no_proxies : Error
  duplicate_name duplicate_listen : Text → Error
  -- The file could not be read, or parsed.
  reading parsing : (path : Text) → Error

-- `anyhow::Result` with these errors.
pub data Result {ℓ} (A : Type ℓ) : Type ℓ where
  err : Error → Result A
  ok : A → Result A

-- The `?` operator.
infixl 5 ◌>>=◌
abbrev pub ◌>>=◌ {κ ℓ} : {B : Type κ} {A : Type ℓ} → Result A → (A → Result B) → Result B
err why >>= next = err why
ok value >>= next = next value

infixl 5 ◌>>◌
abbrev pub ◌>>◌ {κ} : {B : Type κ} → Result (Unit {0}) → Result B → Result B
checked >> next = checked >>= λ unit. next

-- `bail!` under a test.
abbrev pub bail_if : Bool → Error → Result (Unit {0})
bail_if true e = err e
bail_if false e = ok tt

abbrev pub ok_or {ℓ} : {A : Type ℓ} → Option A → Error → Result A
ok_or none e = err e
ok_or (some a) e = ok a

abbrev pub with_context {ℓ} : {A : Type ℓ} → Result A → (Error → Error) → Result A
with_context (ok a) wrap = ok a
with_context (err e) wrap = err (wrap e)

abbrev pub is_empty : Text → Bool
is_empty [] = true
is_empty (c ∷ cs) = false

unfoldable pub check_host_port : Text → Result ℕ
check_host_port s = do
  (host, port) ← ok_or (rsplit_once b':' s) (missing_port s)
  bail_if (is_empty host) (missing_host s)
  ok_or (parse_u16 port) (invalid_port s port)

abbrev pub max_keepalive_secs : ℕ
max_keepalive_secs = 32767

abbrev pub max_keepalive_retries : ℕ
max_keepalive_retries = 127

-- The loop over the bounded knobs.
unfoldable pub check_knobs : Text → List (Knob × ℕ × ℕ) → Result (Unit {0})
check_knobs name [] = ok tt
check_knobs name ((key, value, max) ∷ rest) = do
  bail_if (ltb max value) (too_large name key max)
  check_knobs name rest

unfoldable pub validate : ProxyConfig → Result (Unit {0})
unfolding check_knobs
validate c = do
  _ ← with_context (check_host_port c.listen) (invalid_listen c.name)
  target_port ← with_context (check_host_port c.target) (invalid_target c.name)
  bail_if (target_port == 0) (zero_target_port c.name)
  bail_if (c.connect_timeout_secs == 0) (zero_connect_timeout c.name)
  check_knobs c.name (
      (keepalive_idle, c.keepalive_idle_secs, max_keepalive_secs)
      ∷ (keepalive_interval, c.keepalive_interval_secs, max_keepalive_secs)
      ∷ (keepalive_retries, c.keepalive_retries, max_keepalive_retries)
      ∷ [])
