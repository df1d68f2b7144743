-- ===== src/Metrics/Handler/Deadlines.antt =====
-- src/metrics.rs, `REQUEST_TIMEOUT` and the bound of the drain: when a request is over at the
-- latest.
use oxiduct.Base.{
  ℕ, ◌+◌, ◌≤◌, ◌≡◌, ◌⊎◌, refl, sym, ap, ◌∙◌, inl, inr, List, [], ◌∷◌, ◌++◌, Option, none, some,
  arith, leb, if_cases,
}
use mathlib.Core.Path.{subst}
use oxiduct.Metrics.Handler.{
  Outcome, answered, timed_out, Stage, reading, writing, flushing, closing, draining, over, State,
  start, Io, reads, takes, write_fails, flushed, closed, Wake, drain, progress, poll, expired, wake,
  run, drain_ms,
}

abbrev pub IsOver : Stage → Type 0
IsOver stage = (o : Outcome) × (stage ≡ over o)

poll-over :
    (render : ℕ → List ℕ) (now : ℕ) (s : State) (o : Outcome) (ios : List Io)
    → s.stage ≡ over o
    → (poll render now s ios).stage ≡ over o
unfolding poll progress
poll-over render now s o [] e = e
poll-over render now s o (io ∷ ios) e =
    poll-over render now (progress render now s s.stage io) o ios
      (ap (λ stage. (progress render now s stage io).stage) e)

wake-over :
    (render : ℕ → List ℕ) (s : State) (w : Wake) (o : Outcome)
    → s.stage ≡ over o
    → (wake render s w).stage ≡ over o
unfolding wake
wake-over render s w o e = ap (expired s.started w.now) (poll-over render w.now s o w.ios e)

run-over :
    (render : ℕ → List ℕ) (s : State) (ws : List Wake) (o : Outcome)
    → s.stage ≡ over o
    → (run render s ws).stage ≡ over o
unfolding run
run-over render s [] o e = e
run-over render s (w ∷ ws) o e = run-over render (wake render s w) ws o (wake-over render s w o e)

-- A drain goes on as such, or is over.
abbrev DrainsOn : ℕ → Stage → Type 0
DrainsOn since stage = (stage ≡ draining since) ⊎ IsOver stage

poll-DrainsOn :
    (render : ℕ → List ℕ) (now : ℕ) (s : State) (since : ℕ) (ios : List Io)
    → s.stage ≡ draining since
    → DrainsOn since (poll render now s ios).stage
unfolding poll progress
poll-DrainsOn render now s since [] e = inl e
poll-DrainsOn render now s since (io ∷ ios) e = elim (on_io io) [
  | inl q ↦ poll-DrainsOn render now (progress render now s s.stage io) since ios q
  | inr (o, q) ↦ inr (o, poll-over render now (progress render now s s.stage io) o ios q)
]
  where
    on_drain : (chunk : Option (List ℕ)) → DrainsOn since (drain since chunk)
    on_drain none = inr (answered, refl)
    on_drain (some []) = inr (answered, refl)
    on_drain (some (x ∷ xs)) = inl refl

    stays : (io : Io) → DrainsOn since (progress render now s (draining since) io).stage
    stays (reads chunk) = on_drain chunk
    stays (takes n) = inl refl
    stays write_fails = inl refl
    stays (flushed ok) = inl refl
    stays closed = inl refl

    on_io : (io : Io) → DrainsOn since (progress render now s s.stage io).stage
    on_io io =
        subst (λ stage. DrainsOn since (progress render now s stage io).stage) (sym e) (stays io)

pub expired-request :
    (started now : ℕ) (stage : Stage) → started + 10000 ≤ now → IsOver (expired started now stage)
expired-request started now (reading buf) h = (timed_out, ground arith)
expired-request started now (writing bs) h = (timed_out, ground arith)
expired-request started now flushing h = (timed_out, ground arith)
expired-request started now closing h = (timed_out, ground arith)
expired-request started now (draining since) h =
    if_cases IsOver (leb (since + drain_ms) now) _ _ (answered, refl) (timed_out, ground arith)
expired-request started now (over o) h = (o, refl)

expired-drain :
    (started now since : ℕ) (stage : Stage)
    → since + 1000 ≤ now
    → DrainsOn since stage
    → IsOver (expired started now stage)
expired-drain started now since stage h (inl e) =
    subst (λ q. IsOver (expired started now q)) (sym e) (answered, ground arith)
expired-drain started now since stage h (inr (o, e)) = (o, ap (expired started now) e)

run-started :
    (render : ℕ → List ℕ) (s : State) (ws : List Wake) → (run render s ws).started ≡ s.started
unfolding run wake
run-started render s [] = refl
run-started render s (w ∷ ws) = run-started render (wake render s w) ws

run-append :
    (render : ℕ → List ℕ) (s : State) (xs ys : List Wake)
    → run render (run render s xs) ys ≡ run render s (xs ++ ys)
unfolding run
run-append render s [] ys = refl
run-append render s (w ∷ xs) ys = run-append render (wake render s w) xs ys

-- A request is over by any wake that comes ten seconds after its start, wherever it stands, and by
-- any wake that comes one second after its drain began; and it stays over.
pub run-start-IsOver :
    (render : ℕ → List ℕ) (now : ℕ) (ws later : List Wake) (w : Wake)
    → (now + 10000 ≤ w.now)
      ⊎ ((since : ℕ) × ((run render (start now) ws).stage ≡ draining since)
          × (since + 1000 ≤ w.now))
    → IsOver (run render (start now) (ws ++ w ∷ later)).stage
unfolding start wake run
run-start-IsOver render now ws later w h =
    let s = run render (start now) ws in
    let (o, e) = by h in
    (
      o,
      ap (λ (z : State). z.stage) (sym (run-append render (start now) ws (w ∷ later)))
          ∙ run-over render (wake render s w) later o e,
    )
  where
    by :
        (now + 10000 ≤ w.now)
          ⊎ ((since : ℕ) × ((run render (start now) ws).stage ≡ draining since)
              × (since + 1000 ≤ w.now))
        → IsOver (wake render (run render (start now) ws) w).stage
    by (inl h) = expired-request _ w.now _ (omega (arith, h, run-started render (start now) ws))
    by (inr (since, e, h)) =
        expired-drain _ w.now since _ h (poll-DrainsOn render w.now _ since w.ios e)
