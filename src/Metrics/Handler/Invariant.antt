-- ===== src/Metrics/Handler/Invariant.antt =====
-- src/metrics.rs, `handle_request`: what every step keeps of the reply.
use mathlib.Core.List.{append_assoc, append-nil}
use oxiduct.Base.{
  ℕ, ◌≡◌, ◌⊎◌, refl, sym, ap, ◌∙◌, inl, inr, Bool, true, false, List, [], ◌∷◌, ◌++◌, Option, none,
  some, take, drop, take-append-drop, ◌==◌, if_cases,
}
use oxiduct.Metrics.Response.{response}
use oxiduct.Metrics.Request
use oxiduct.Metrics.Request.{
  Reading, done, failed, on_read, read_from, read_request, asks_for_metrics, reply,
}
use oxiduct.Metrics.Request.Lines.{read_from-done}
use oxiduct.Metrics.Handler.{
  answered, broken, timed_out, Stage, reading, writing, flushing, closing, draining, over, State,
  Io, reads, takes, write_fails, flushed, closed, parts, written, after_read, write, drain,
  on_flush, progress,
}

-- The request as far as it has been read, after one more step.
abbrev pub after : Reading → Io → Reading
after r (reads chunk) = read_from r (chunk ∷ [])
after r io = r

abbrev pub concat : List (List ℕ) → List ℕ
concat [] = []
concat (b ∷ bs) = b ++ concat bs

-- What was sent is the reply to the request that was read, less a rest.
abbrev pub Owes : (ℕ → List ℕ) → Reading → List ℕ → List ℕ → Type 0
Owes render r sent rest =
    (t : ℕ) × (buf : List ℕ) × (r ≡ done buf)
    × (sent ++ rest ≡ response (asks_for_metrics buf) (render t))

abbrev pub IsPart : (ℕ → List ℕ) → Reading → List ℕ → Type 0
IsPart render r sent = (sent ≡ []) ⊎ ((rest : List ℕ) × Owes render r sent rest)

abbrev pub Inv : (ℕ → List ℕ) → Reading → List ℕ → Stage → Type 0
Inv render r sent (reading buf) = (r ≡ Request.reading buf) × (sent ≡ [])
Inv render r sent (writing bs) = Owes render r sent (concat bs)
Inv render r sent flushing = Owes render r sent []
Inv render r sent closing = Owes render r sent []
Inv render r sent (draining since) = Owes render r sent []
Inv render r sent (over answered) = Owes render r sent []
Inv render r sent (over broken) = IsPart render r sent
Inv render r sent (over timed_out) = IsPart render r sent

done-after : (r : Reading) (io : Io) (buf : List ℕ) → r ≡ done buf → after r io ≡ done buf
done-after r (reads chunk) buf e =
    ap (λ q. read_from q (chunk ∷ [])) e ∙ read_from-done buf (chunk ∷ [])
done-after r (takes n) buf e = e
done-after r write_fails buf e = e
done-after r (flushed ok) buf e = e
done-after r closed buf e = e

-- More reads do not change the reply.
Owes-after :
    (render : ℕ → List ℕ) (r : Reading) (io : Io) (sent rest : List ℕ)
    → Owes render r sent rest
    → Owes render (after r io) sent rest
Owes-after render r io sent rest (t, buf, e, q) = (t, buf, done-after r io buf e, q)

IsPart-after :
    (render : ℕ → List ℕ) (r : Reading) (io : Io) (sent : List ℕ)
    → IsPart render r sent
    → IsPart render (after r io) sent
IsPart-after render r io sent (inl e) = inl e
IsPart-after render r io sent (inr (rest, o)) = inr (rest, Owes-after render r io sent rest o)

concat-parts : (m : Bool) (rendered : List ℕ) → concat (parts m rendered) ≡ response m rendered
unfolding response
concat-parts true rendered = rw (append-nil rendered) refl
concat-parts false rendered = refl

written-Inv :
    (render : ℕ → List ℕ) (r : Reading) (sent : List ℕ) (bs : List (List ℕ))
    → Owes render r sent (concat bs)
    → Inv render r sent (written bs)
unfolding written
written-Inv render r sent [] o = o
written-Inv render r sent ([] ∷ bs) o = written-Inv render r sent bs o
written-Inv render r sent ((x ∷ xs) ∷ bs) o = o

after_read-Inv :
    (render : ℕ → List ℕ) (now : ℕ) (sent : List ℕ) (r : Reading)
    → sent ≡ []
    → Inv render r sent (after_read r (render now))
after_read-Inv render now sent failed e = inl e
after_read-Inv render now sent (Request.reading buf) e = (refl, e)
after_read-Inv render now sent (done buf) e =
    written-Inv render (done buf) sent (parts (asks_for_metrics buf) (render now)) (
      now,
      buf,
      refl,
      ap (λ xs. xs ++ concat (parts (asks_for_metrics buf) (render now))) e
          ∙ concat-parts (asks_for_metrics buf) (render now),
    )

write-Inv :
    (render : ℕ → List ℕ) (r : Reading) (s : State) (n : ℕ) (b : List ℕ) (bs : List (List ℕ))
    → Owes render r s.sent (concat (b ∷ bs))
    → Inv render r (write s n b bs).sent (write s n b bs).stage
unfolding write
write-Inv render r s n b bs (t, buf, e, q) =
    if_cases (λ (z : State). Inv render r z.sent z.stage) (n == 0) _ _
      (inr (concat (b ∷ bs), (t, buf, e, q)))
      (written-Inv render r (s.sent ++ take n b) (drop n b ∷ bs) (t, buf, e, regroup ∙ q))
  where
    regroup : (s.sent ++ take n b) ++ (drop n b ++ concat bs) ≡ s.sent ++ (b ++ concat bs)
    regroup =
        append_assoc s.sent (take n b) (drop n b ++ concat bs)
        ∙ ap (λ xs. s.sent ++ xs)
            (sym (append_assoc (take n b) (drop n b) (concat bs))
              ∙ ap (λ xs. xs ++ concat bs) (take-append-drop n b))

drain-Inv :
    (render : ℕ → List ℕ) (r : Reading) (sent : List ℕ) (since : ℕ) (chunk : Option (List ℕ))
    → Owes render r sent []
    → Inv render (after r (reads chunk)) sent (drain since chunk)
drain-Inv render r sent since none o = Owes-after render r (reads none) sent [] o
drain-Inv render r sent since (some []) o = Owes-after render r (reads (some [])) sent [] o
drain-Inv render r sent since (some (x ∷ xs)) o =
    Owes-after render r (reads (some (x ∷ xs))) sent [] o

flush-Inv :
    (render : ℕ → List ℕ) (r : Reading) (sent : List ℕ) (ok : Bool)
    → Owes render r sent []
    → Inv render r sent (on_flush ok)
flush-Inv render r sent true o = o
flush-Inv render r sent false o = inr ([], o)

pub progress-Inv :
    (render : ℕ → List ℕ) (now : ℕ) (s : State) (stage : Stage) (io : Io) (r : Reading)
    → Inv render r s.sent stage
    → Inv render
        (after r io)
        (progress render now s stage io).sent
        (progress render now s stage io).stage
unfolding progress read_from
progress-Inv render now s (reading buf) (reads chunk) r (e, none_sent) =
    rw (ap (λ q. read_from q (chunk ∷ [])) e)
      (after_read-Inv render now s.sent (on_read buf chunk) none_sent)
progress-Inv render now s (reading buf) (takes n) r v = v
progress-Inv render now s (reading buf) write_fails r v = v
progress-Inv render now s (reading buf) (flushed ok) r v = v
progress-Inv render now s (reading buf) closed r v = v
progress-Inv render now s (writing []) (reads chunk) r v =
    Owes-after render r (reads chunk) s.sent [] v
progress-Inv render now s (writing []) (takes n) r v = v
progress-Inv render now s (writing []) write_fails r v = v
progress-Inv render now s (writing []) (flushed ok) r v = v
progress-Inv render now s (writing []) closed r v = v
progress-Inv render now s (writing (b ∷ bs)) (reads chunk) r v =
    Owes-after render r (reads chunk) s.sent (concat (b ∷ bs)) v
progress-Inv render now s (writing (b ∷ bs)) (takes n) r v = write-Inv render r s n b bs v
progress-Inv render now s (writing (b ∷ bs)) write_fails r v = inr (concat (b ∷ bs), v)
progress-Inv render now s (writing (b ∷ bs)) (flushed ok) r v = v
progress-Inv render now s (writing (b ∷ bs)) closed r v = v
progress-Inv render now s flushing (reads chunk) r v = Owes-after render r (reads chunk) s.sent [] v
progress-Inv render now s flushing (takes n) r v = v
progress-Inv render now s flushing write_fails r v = v
progress-Inv render now s flushing (flushed ok) r v = flush-Inv render r s.sent ok v
progress-Inv render now s flushing closed r v = v
progress-Inv render now s closing (reads chunk) r v = Owes-after render r (reads chunk) s.sent [] v
progress-Inv render now s closing (takes n) r v = v
progress-Inv render now s closing write_fails r v = v
progress-Inv render now s closing (flushed ok) r v = v
progress-Inv render now s closing closed r v = v
progress-Inv render now s (draining since) (reads chunk) r v =
    drain-Inv render r s.sent since chunk v
progress-Inv render now s (draining since) (takes n) r v = v
progress-Inv render now s (draining since) write_fails r v = v
progress-Inv render now s (draining since) (flushed ok) r v = v
progress-Inv render now s (draining since) closed r v = v
progress-Inv render now s (over answered) (reads chunk) r v =
    Owes-after render r (reads chunk) s.sent [] v
progress-Inv render now s (over answered) (takes n) r v = v
progress-Inv render now s (over answered) write_fails r v = v
progress-Inv render now s (over answered) (flushed ok) r v = v
progress-Inv render now s (over answered) closed r v = v
progress-Inv render now s (over broken) (reads chunk) r v =
    IsPart-after render r (reads chunk) s.sent v
progress-Inv render now s (over broken) (takes n) r v = v
progress-Inv render now s (over broken) write_fails r v = v
progress-Inv render now s (over broken) (flushed ok) r v = v
progress-Inv render now s (over broken) closed r v = v
progress-Inv render now s (over timed_out) (reads chunk) r v =
    IsPart-after render r (reads chunk) s.sent v
progress-Inv render now s (over timed_out) (takes n) r v = v
progress-Inv render now s (over timed_out) write_fails r v = v
progress-Inv render now s (over timed_out) (flushed ok) r v = v
progress-Inv render now s (over timed_out) closed r v = v
