-- ===== src/Proxy/Tcp/Copy/Ends.antt =====
-- When and how a direction's loop is left.
use mathlib.Core.List.{Memᴰ}
use mathlib.Core.Path.{subst}
use oxiduct.Base.{
  ℕ, ◌≡◌, ◌≢◌, ◌⊎◌, refl, true, false, List, [], ◌∷◌, none, some, arith, All, All-mem,
}
use oxiduct.Proxy.Tcp.{End, eof, err}
use oxiduct.Proxy.Tcp.Copy.{Pass, Flow, start, Copying, running, finished, pass, resume, copy_dir}

-- A pass that no loop survives: it sees the cancellation, the end of the input, or an error.
abbrev pub IsLast : Pass → Type 0
IsLast p =
    (p.cancelled ≡ true)
    ⊎ (p.read ≡ some [])
    ⊎ (p.read ≡ none)
    ⊎ (p.cancelled_writing ≡ true)
    ⊎ (p.write_ok ≡ false)

abbrev pub IsOver : Copying → Type 0
IsOver c = (f : Flow) × (end : End) × (c ≡ finished f end)

pass_stops : (f : Flow) (p : Pass) → IsLast p → (g : Flow) → pass f p ≢ running g
unfolding pass
pass_stops f p h g e = ground arith

IsOver-of_stopped : (c : Copying) → ((g : Flow) → c ≢ running g) → IsOver c
IsOver-of_stopped (running g) h = absurd (h g refl)
IsOver-of_stopped (finished f end) h = (f, end, refl)

resume-IsOver : (c : Copying) (ps : List Pass) → IsOver c → IsOver (resume c ps)
unfolding resume
resume-IsOver c [] h = h
resume-IsOver (running f) (p ∷ ps) (g, end, e) = cc
resume-IsOver (finished f end) (p ∷ ps) h = (f, end, refl)

resume_stops :
    (c : Copying) (ps : List Pass) (p : Pass) → Memᴰ p ps → IsLast p → IsOver (resume c ps)
unfolding resume
resume_stops c [] p m h = elim m [ ]
resume_stops (running f) (q ∷ ps) p (Memᴰ.head e) h =
    resume-IsOver (pass f q) ps (IsOver-of_stopped _ (pass_stops f q (subst IsLast e h)))
resume_stops (running f) (q ∷ ps) p (Memᴰ.tail m) h = resume_stops (pass f q) ps p m h
resume_stops (finished f end) (q ∷ ps) p m h = (f, end, refl)

-- A direction's loop is left at the latest at a pass that sees the cancellation, the end of the
-- input, a read error, or a write that is cancelled or fails.
pub copy_dir-IsOver :
    (now : ℕ) (ps : List Pass) (p : Pass) → Memᴰ p ps → IsLast p → IsOver (copy_dir now ps)
unfolding copy_dir
copy_dir-IsOver now ps p m h = resume_stops (running (start now)) ps p m h

-- A pass that meets an error.
abbrev pub Fails : Pass → Type 0
Fails p = (p.read ≡ none) ⊎ (p.write_ok ≡ false)

All-units : (ps : List Pass) → All (λ p. Unit {0}) ps
All-units [] = tt
All-units (p ∷ ps) = (tt, All-units ps)

pass-Fails : (f g : Flow) (p : Pass) → pass f p ≡ finished g err → Fails p
unfolding pass
pass-Fails f g p e = ground arith

abbrev Explained : List Pass → Copying → Type 0
Explained all (running f) = Unit
Explained all (finished f eof) = Unit
Explained all (finished f err) = (p : Pass) × Memᴰ p all × Fails p

pass-Explained :
    (all : List Pass) (f : Flow) (p : Pass) (c : Copying)
    → Memᴰ p all
    → pass f p ≡ c
    → Explained all c
pass-Explained all f p (running g) m e = tt
pass-Explained all f p (finished g eof) m e = tt
pass-Explained all f p (finished g err) m e = (p, m, pass-Fails f g p e)

resume-Explained :
    (all : List Pass) (c : Copying) (ps : List Pass)
    → All (λ p. Memᴰ p all × Unit {0}) ps
    → Explained all c
    → Explained all (resume c ps)
unfolding resume
resume-Explained all c [] h x = x
resume-Explained all (running f) (p ∷ ps) ((m, _), h) x =
    resume-Explained all (pass f p) ps h (pass-Explained all f p _ m refl)
resume-Explained all (finished f end) (p ∷ ps) h x = x

-- A direction reports an error only if in one of its passes a read or a write has failed; so a
-- cancelled direction, or one that reaches the end of its input, reports a clean end.
pub copy_dir-err :
    (now : ℕ) (ps : List Pass) (f : Flow)
    → copy_dir now ps ≡ finished f err
    → (p : Pass) × Memᴰ p ps × Fails p
unfolding copy_dir
copy_dir-err now ps f e = subst (Explained ps) e (
    resume-Explained ps (running (start now)) ps
      (All-mem (λ p. Unit) ps ps (λ p m. m) (All-units ps)) tt)
