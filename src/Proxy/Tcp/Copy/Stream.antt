-- ===== src/Proxy/Tcp/Copy/Stream.antt =====
-- The bytes that a direction relays against the bytes that it reads.
use oxiduct.Base.{
  ℕ, ◌+◌, ◌%◌, ◌≡◌, refl, sym, ap, ◌∙◌, true, false, List, [], ◌∷◌, ◌++◌, Option, none, some,
  if_cases, length, take, drop, arith, length-append, take-append-drop, ◌≤◌,
}
use mathlib.Core.List.{append_assoc}
use mathlib.Core.Path.{subst}
use oxiduct.Base.Words.{u64_mod}
use oxiduct.Proxy.Tcp.{End, err}
use oxiduct.Proxy.Tcp.Copy.{
  Pass, Flow, start, Copying, running, finished, write, on_read, pass, resume, copy_dir,
}

-- The bytes that the reader gives before its end or its error.
abbrev pub then_input : Option (List ℕ) → List ℕ → List ℕ
then_input none rest = []
then_input (some []) rest = []
then_input (some (b ∷ bs)) rest = (b ∷ bs) ++ rest

abbrev pub input : List Pass → List ℕ
input [] = []
input (p ∷ ps) = then_input p.read (input ps)

abbrev pub sum : List ℕ → ℕ
sum [] = 0
sum (n ∷ ns) = n + sum ns

-- The task's total and the counter agree.
abbrev pub Counts : Flow → Type 0
Counts f = f.total ≡ sum f.incs % u64_mod

-- A loop that goes on has relayed all that it has read; one that is left has relayed a first part,
-- and all of it if it has shut the writer down.
abbrev pub Relayed : List ℕ → Copying → List ℕ → Type 0
Relayed all (running f) rest =
    (f.sent ++ rest ≡ all) × (f.shut ≡ false) × Counts f × (sum f.incs ≡ length f.sent)
Relayed all (finished f end) rest =
    (unsent : List ℕ) × (f.sent ++ unsent ≡ all)
    × (f.shut ≡ true → unsent ≡ [])
    × Counts f
    × (sum f.incs ≤ length f.sent)
    × (f.shut ≡ true → sum f.incs ≡ length f.sent)

write-Relayed :
    (all rest : List ℕ) (f : Flow) (chunk : List ℕ) (p : Pass)
    → f.sent ++ (chunk ++ rest) ≡ all
    → f.shut ≡ false
    → Counts f
    → sum f.incs ≡ length f.sent
    → Relayed all (write f chunk p) rest
unfolding write
write-Relayed all rest f chunk p e s c n =
    if_cases (λ o. Relayed all o rest) p.cancelled_writing _ _ cut
      (if_cases (λ o. Relayed all o rest) p.write_ok _ _ whole cut)
  where
    split : (f.sent ++ take p.taken chunk) ++ (drop p.taken chunk ++ rest) ≡ all
    split =
        append_assoc f.sent _ _
        ∙ ap (◌++◌ f.sent) (
            sym (append_assoc (take p.taken chunk) _ rest)
            ∙ ap (λ c. c ++ rest) (take-append-drop p.taken chunk))
        ∙ e

    cut : Relayed all (finished (record f { sent = f.sent ++ take p.taken chunk }) err) rest
    cut = (
      drop p.taken chunk ++ rest,
      split,
      (λ t. cc),
      c,
      omega (arith, length-append f.sent (take p.taken chunk)),
      (λ t. cc),
    )

    whole :
        (((f.sent ++ chunk) ++ rest) ≡ all)
        × (f.shut ≡ false)
        × ((f.total + length chunk) % u64_mod ≡ (length chunk + sum f.incs) % u64_mod)
        × (length chunk + sum f.incs ≡ length (f.sent ++ chunk))
    whole = (
      append_assoc f.sent chunk rest ∙ e,
      s,
      omega arith,
      omega (arith, length-append f.sent chunk),
    )

pub on_read-Relayed :
    (all rest : List ℕ) (f : Flow) (r : Option (List ℕ)) (p : Pass)
    → Relayed all (running f) (then_input r rest)
    → Relayed all (on_read f r p) rest
unfolding on_read
on_read-Relayed all rest f none p (e, s, c, n) = ([], e, (λ t. refl), c, omega (arith, n), (λ t. n))
on_read-Relayed all rest f (some []) p (e, s, c, n) =
    ([], e, (λ t. refl), c, omega (arith, n), (λ t. n))
on_read-Relayed all rest f (some (b ∷ bs)) p (e, s, c, n) =
    write-Relayed all rest _ (b ∷ bs) p e s c n

pass-Relayed :
    (all : List ℕ) (f : Flow) (p : Pass) (ps : List Pass)
    → Relayed all (running f) (input (p ∷ ps))
    → Relayed all (pass f p) (input ps)
unfolding pass
pass-Relayed all f p ps (e, s, c, n) =
    if_cases (λ o. Relayed all o (input ps)) p.cancelled _ _
      (input (p ∷ ps), e, (λ t. cc), c, omega (arith, n), (λ t. n))
      (on_read-Relayed all (input ps) f p.read p (e, s, c, n))

resume-Relayed :
    (all : List ℕ) (o : Copying) (ps : List Pass)
    → Relayed all o (input ps)
    → Relayed all (resume o ps) []
unfolding resume
resume-Relayed all o [] h = h
resume-Relayed all (running f) (p ∷ ps) h =
    resume-Relayed all (pass f p) ps (pass-Relayed all f p ps h)
resume-Relayed all (finished f end) (p ∷ ps) h = h

-- When a direction's loop is left, the writer has taken a first part of the bytes that the reader
-- gave before its end or error, in order and none twice; all of them, if the writer was shut down.
-- The counter's increments add up to the returned total modulo 2^64, and to no more than the bytes
-- that were taken; to exactly those, if the writer was shut down.
pub copy_dir-sent :
    (now : ℕ) (ps : List Pass) (f : Flow) (end : End)
    → copy_dir now ps ≡ finished f end
    → (unsent : List ℕ) × (f.sent ++ unsent ≡ input ps)
      × (f.shut ≡ true → unsent ≡ [])
      × (f.total ≡ sum f.incs % u64_mod)
      × (sum f.incs ≤ length f.sent)
      × (f.shut ≡ true → sum f.incs ≡ length f.sent)
unfolding copy_dir
copy_dir-sent now ps f end e =
    subst (λ o. Relayed (input ps) o []) e
      (resume-Relayed (input ps) (running (start now)) ps (refl, refl, omega arith, refl))
