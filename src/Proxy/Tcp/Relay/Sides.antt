-- ===== src/Proxy/Tcp/Relay/Sides.antt =====
-- src/proxy/tcp.rs, `relay`: what one copying task has relayed of what its reader has given.
use mathlib.Core.List.{append-nil}
use oxiduct.Base.{
  ℕ, ◌≡◌, refl, sym, ap, ◌∙◌, Bool, true, false, List, [], ◌++◌, Option, none, some, arith,
  if◌then◌else◌, ◌||◌,
}
use oxiduct.Proxy.Tcp.{End, eof}
use oxiduct.Proxy.Tcp.Copy
use oxiduct.Proxy.Tcp.Copy.{Pass, Flow, Copying, write, on_read, pass}
use oxiduct.Proxy.Tcp.Copy.Stream.{Relayed, on_read-Relayed, then_input}
use oxiduct.Proxy.Tcp.Relay.{Side, gives, under}

-- The end that a task reports.
abbrev pub end_of : Copying → Option End
end_of (Copying.running f) = none
end_of (Copying.finished f end) = some end

-- Whether the writer has been shut down.
abbrev pub is_shut : Copying → Bool
is_shut (Copying.running f) = false
is_shut (Copying.finished f end) = f.shut

-- All that has been given is relayed, or a first part of it if the loop was left; and without a
-- cancellation a clean end comes with the shutdown of the writer.
pub record IsSound (cancelled : Bool) (x : Side) : Type 0 where
  pub relayed : Relayed x.given x.copying []
  pub clean : cancelled ≡ false → end_of x.copying ≡ some eof → is_shut x.copying ≡ true

-- By whether the cancellation was seen before the read.
pass_cases-Relayed :
    (given : List ℕ) (f : Flow) (p : Pass) (seen : Bool)
    → Relayed given (Copying.running f) []
    → Relayed
        (given ++ (if seen then [] else then_input p.read []))
        (if seen then Copying.finished f eof else on_read f p.read p)
        []
pass_cases-Relayed given f p true (e, shut, counts, incs) =
    ([], e ∙ sym (append-nil given), (λ t. refl), counts, omega (arith, incs), λ t. incs)
pass_cases-Relayed given f p false (e, shut, counts, incs) =
    on_read-Relayed (given ++ then_input p.read []) [] f p.read p
      (ap (λ x. x ++ then_input p.read []) (sym (append-nil f.sent) ∙ e), shut, counts, incs)

pass-clean :
    (cancelled : Bool) (f : Flow) (p : Pass)
    → cancelled ≡ false
    → end_of (pass f (under cancelled p)) ≡ some eof
    → is_shut (pass f (under cancelled p)) ≡ true
unfolding pass on_read write
pass-clean cancelled f p c e = ground arith

-- A pass from the shared clock on.
pub pass-IsSound :
    (cancelled : Bool) (x : Side) (f : Flow) (last : ℕ) (p : Pass)
    → x.copying ≡ Copying.running f
    → IsSound cancelled x
    → IsSound cancelled (record {
      copying = pass (record f { last_activity = last }) (under cancelled p);
      given = x.given ++ gives (under cancelled p);
    })
unfolding pass
pass-IsSound cancelled x f last p e v = record {
  relayed =
      pass_cases-Relayed x.given (record f { last_activity = last }) (under cancelled p)
        (under cancelled p).cancelled (rw e at v.relayed);
  clean = pass-clean cancelled (record f { last_activity = last }) p;
}

-- What is sound without the cancellation stays so with it.
pub cancelled-IsSound : (c d : Bool) (x : Side) → IsSound c x → IsSound (c || d) x
cancelled-IsSound c d x v = record { relayed = v.relayed; clean = λ e. v.clean (ground arith) }

-- A task at its start has been given nothing, and relayed nothing.
pub start-IsSound :
    (now : ℕ) → IsSound false (record { copying = Copying.running (Copy.start now); given = [] })
start-IsSound now = record { relayed = (refl, refl, omega arith, refl); clean = λ c e. cc }
