-- ===== src/Metrics/Handler/Answered.antt =====
-- src/metrics.rs, `handle_request`: what the client has got, at every moment and at the end.
use mathlib.Core.List.{append-nil}
use mathlib.Core.Path.{subst}
use oxiduct.Base.{
  ℕ, ◌≡◌, ◌⊎◌, refl, sym, ap, ◌∙◌, inl, inr, Bool, List, [], ◌∷◌, ◌++◌, if◌then◌else◌, Option, some,
  leb, ◌+◌, if_cases,
}
use oxiduct.Metrics.Request
use oxiduct.Metrics.Request.{
  Reading, done, failed, on_read, read_from, read_request, asks_for_metrics, reply,
}
use oxiduct.Metrics.Request.Lines.{read_from-done}
use oxiduct.Metrics.Handler.{
  answered, broken, timed_out, Stage, reading, writing, flushing, closing, draining, over, State,
  start, Io, reads, takes, write_fails, flushed, closed, Wake, progress, poll, expired, wake, run,
  drain_ms,
}
use oxiduct.Metrics.Handler.Invariant.{after, Owes, IsPart, Inv, progress-Inv}

-- What the reads of a wake, and of all wakes, have given.
abbrev pub chunks : List Io → List (Option (List ℕ))
chunks [] = []
chunks (reads chunk ∷ ios) = chunk ∷ chunks ios
chunks (io ∷ ios) = chunks ios

abbrev pub given : List Wake → List (Option (List ℕ))
given [] = []
given (w ∷ ws) = chunks w.ios ++ given ws

read_from-cons :
    (r : Reading) (c : Option (List ℕ)) (cs : List (Option (List ℕ)))
    → read_from (read_from r (c ∷ [])) cs ≡ read_from r (c ∷ cs)
unfolding read_from
read_from-cons (Request.reading buf) c cs = refl
read_from-cons (done buf) c cs = read_from-done buf cs
read_from-cons failed c [] = refl
read_from-cons failed c (d ∷ cs) = refl

read_from-append :
    (r : Reading) (xs ys : List (Option (List ℕ)))
    → read_from (read_from r xs) ys ≡ read_from r (xs ++ ys)
unfolding read_from
read_from-append r [] ys = refl
read_from-append r (c ∷ xs) ys =
    ap (λ q. read_from q ys) (sym (read_from-cons r c xs))
    ∙ read_from-append (read_from r (c ∷ [])) xs ys
    ∙ read_from-cons r c (xs ++ ys)

read_from-after :
    (r : Reading) (io : Io) (ios : List Io)
    → read_from (after r io) (chunks ios) ≡ read_from r (chunks (io ∷ ios))
read_from-after r (reads chunk) ios = read_from-cons r chunk (chunks ios)
read_from-after r (takes n) ios = refl
read_from-after r write_fails ios = refl
read_from-after r (flushed ok) ios = refl
read_from-after r closed ios = refl

poll-Inv :
    (render : ℕ → List ℕ) (now : ℕ) (s : State) (ios : List Io) (r : Reading)
    → Inv render r s.sent s.stage
    → Inv render
        (read_from r (chunks ios))
        (poll render now s ios).sent
        (poll render now s ios).stage
unfolding poll read_from
poll-Inv render now s [] r v = v
poll-Inv render now s (io ∷ ios) r v =
    let next = progress render now s s.stage io in
    subst (λ q. Inv render q (poll render now next ios).sent (poll render now next ios).stage)
      (read_from-after r io ios)
      (poll-Inv render now next ios (after r io) (progress-Inv render now s s.stage io r v))

cut_off :
    (render : ℕ → List ℕ) (r : Reading) (sent : List ℕ) (late : Bool) (stage : Stage)
    → IsPart render r sent
    → Inv render r sent stage
    → Inv render r sent (if late then over timed_out else stage)
cut_off render r sent late stage part v = if_cases (Inv render r sent) late _ stage part v

expired-Inv :
    (render : ℕ → List ℕ) (r : Reading) (sent : List ℕ) (started now : ℕ) (stage : Stage)
    → Inv render r sent stage
    → Inv render r sent (expired started now stage)
expired-Inv render r sent started now (reading buf) v =
    cut_off render r sent _ (reading buf) (inl v.1) v
expired-Inv render r sent started now (writing bs) v =
    cut_off render r sent _ (writing bs) (inr (_, v)) v
expired-Inv render r sent started now flushing v = cut_off render r sent _ flushing (inr ([], v)) v
expired-Inv render r sent started now closing v = cut_off render r sent _ closing (inr ([], v)) v
expired-Inv render r sent started now (draining since) v =
    if_cases (Inv render r sent) (leb (since + drain_ms) now) (over answered) _ v
      (cut_off render r sent _ (draining since) (inr ([], v)) v)
expired-Inv render r sent started now (over o) v = v

run-Inv :
    (render : ℕ → List ℕ) (s : State) (ws : List Wake) (r : Reading)
    → Inv render r s.sent s.stage
    → Inv render (read_from r (given ws)) (run render s ws).sent (run render s ws).stage
unfolding run read_from
run-Inv render s [] r v = v
run-Inv render s (w ∷ ws) r v =
    let polled = poll render w.now s w.ios in
    let next = wake render s w in
    subst (λ q. Inv render q (run render next ws).sent (run render next ws).stage)
      (read_from-append r (chunks w.ios) (given ws))
      (run-Inv render next ws (read_from r (chunks w.ios)) (
        expired-Inv render (read_from r (chunks w.ios)) polled.sent s.started w.now polled.stage
          (poll-Inv render w.now s w.ios r v)))

Inv-IsPart :
    (render : ℕ → List ℕ) (r : Reading) (sent : List ℕ) (stage : Stage)
    → Inv render r sent stage
    → IsPart render r sent
Inv-IsPart render r sent (reading buf) v = inl v.1
Inv-IsPart render r sent (writing bs) v = inr (_, v)
Inv-IsPart render r sent flushing v = inr ([], v)
Inv-IsPart render r sent closing v = inr ([], v)
Inv-IsPart render r sent (draining since) v = inr ([], v)
Inv-IsPart render r sent (over answered) v = inr ([], v)
Inv-IsPart render r sent (over broken) v = v
Inv-IsPart render r sent (over timed_out) v = v

reply-Owes :
    (render : ℕ → List ℕ) (r : Reading) (sent rest : List ℕ)
    → Owes render r sent rest
    → (t : ℕ) × (reply r (render t) ≡ some (sent ++ rest))
unfolding reply
reply-Owes render r sent rest (t, buf, e, q) = (t, ap (λ z. reply z (render t)) e ∙ ap some (sym q))

-- At every moment the client has got nothing, or a first part of the reply to the request that was
-- read; when the handler has returned, it has got the whole reply. The metrics in it are those of
-- one moment.
pub run-start-reply :
    (render : ℕ → List ℕ) (now : ℕ) (ws : List Wake)
    → let s = run render (start now) ws in
      let r = read_request (given ws) in
      ((s.sent ≡ []) ⊎ ((rest : List ℕ) × (t : ℕ) × (reply r (render t) ≡ some (s.sent ++ rest))))
      × (s.stage ≡ over answered → (t : ℕ) × (reply r (render t) ≡ some s.sent))
unfolding start
run-start-reply render now ws =
    let s = run render (start now) ws in
    let r = read_request (given ws) in
    let v = run-Inv render (start now) ws (Request.reading []) (refl, refl) in
    (
      elim (Inv-IsPart render r s.sent s.stage v) [
        | inl e ↦ inl e
        | inr (rest, o) ↦ let (t, q) = reply-Owes render r s.sent rest o in inr (rest, t, q)
      ],
      λ e.
          let (t, q) = reply-Owes render r s.sent [] (subst (Inv render r s.sent) e v) in
          (t, q ∙ ap some (append-nil s.sent)),
    )
