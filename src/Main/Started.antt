-- ===== src/Main/Started.antt =====
-- src/main.rs: what the settings that are chosen, and so the tasks that are started, satisfy.
use oxiduct.Base.{
  ◌≡◌, ◌≢◌, inl, inr, refl, sym, List, [], ◌∷◌, Option, none, some, arith, All, map, Option-cases,
}
use mathlib.Core.Path.{subst}
use oxiduct.Text.{Text}
use oxiduct.Cli.Args.{Args}
use oxiduct.Config.{ProxyConfig, TomlTuning, TomlProxy, TomlFile, LoadedConfig, ok}
use oxiduct.Config.Load.{resolve_from, socket, resolve, load, from_cli}
use oxiduct.Config.Valid.{IsRunnable, Result-cases, Distinct, validate_iff, resolve_iff}
use oxiduct.Main.{Settings, of_args, settings_at, settings}

-- Proxies that can run beside each other.
pub record IsStartable (ps : List ProxyConfig) : Type 0 where
  pub some_proxy : ps ≢ []
  pub runnable : All IsRunnable ps
  pub names : Distinct (map (λ c. c.name) ps)
  pub sockets : Distinct (map socket ps)

resolve_from_ne_nil :
    (base : TomlTuning) (ps : List TomlProxy) → ps ≢ [] → resolve_from 0 base ps ≢ []
unfolding resolve_from
resolve_from_ne_nil base [] h e = h refl
resolve_from_ne_nil base (p ∷ ps) h e = cc

single_ne_nil : (p : ProxyConfig) → p ∷ [] ≢ []
single_ne_nil p e = cc

from_cli-IsRunnable : (args : Args) (p : ProxyConfig) → from_cli args ≡ ok p → IsRunnable p
unfolding from_cli
from_cli-IsRunnable args p e = (validate_iff p).0 (ground arith)

module _ (read_to_string : Text → Option Text) (from_str : Text → Option TomlFile) where
  load_parsed :
      (path : Text) (loaded : LoadedConfig)
      → load read_to_string from_str path ≡ ok loaded
      → (file : TomlFile) × (resolve file ≡ ok loaded)
  unfolding load
  load_parsed path loaded e = elim (Option-cases (read_to_string path)) [
    | inl none_read ↦ ground arith
    | inr (text, read) ↦ elim (Option-cases (from_str text)) [
      | inl not_parsed ↦ ground arith
      | inr (file, parsed) ↦ (file, ground arith)
    ]
  ]

  load-IsStartable :
      (path : Text) (loaded : LoadedConfig)
      → load read_to_string from_str path ≡ ok loaded
      → IsStartable loaded.proxies
  load-IsStartable path loaded e =
      let (file, q) = load_parsed path loaded e in
      let (u, same) = (resolve_iff file loaded).0 q in
      subst (λ (l : LoadedConfig). IsStartable l.proxies) (sym same)
        (record {
          some_proxy = resolve_from_ne_nil file.defaults file.proxies u.some_proxy;
          runnable = u.runnable;
          names = u.names;
          sockets = u.sockets;
        })

  of_args_lem :
      (args : Args) (p : ProxyConfig) (s : Settings)
      → from_cli args ≡ ok p
      → settings_at read_to_string from_str none args ≡ ok s
      → of_args args p ≡ s
  of_args_lem args p s q e = ground arith

  settings_at-IsStartable :
      (config : Option Text) (args : Args) (s : Settings)
      → settings_at read_to_string from_str config args ≡ ok s
      → IsStartable s.proxies
  settings_at-IsStartable (some path) args s e =
      elim (Result-cases (load read_to_string from_str path)) [
        | inl (loaded, q) ↦ subst IsStartable (ground arith) (load-IsStartable path loaded q)
        | inr (error, q) ↦ ground arith
      ]
  settings_at-IsStartable none args s e = elim (Result-cases (from_cli args)) [
    | inl (p, q) ↦
        subst (λ (t : Settings). IsStartable t.proxies) (of_args_lem args p s q e)
          (record {
            some_proxy = single_ne_nil p;
            runnable = (from_cli-IsRunnable args p q, tt);
            names = (tt, tt);
            sockets = (tt, tt);
          })
    | inr (error, q) ↦ ground arith
  ]

  -- The proxies that are started, from a file or from the arguments, are there, have passed the
  -- validation's conditions, and differ in their names and in their sockets: the protocols with the
  -- texts of the listen addresses, which two spellings of one address pass.
  pub settings-IsStartable :
      (args : Args) (s : Settings)
      → settings read_to_string from_str args ≡ ok s
      → IsStartable s.proxies
  settings-IsStartable args s e = settings_at-IsStartable args.config args s e
