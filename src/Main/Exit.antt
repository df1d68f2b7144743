-- ===== src/Main/Exit.antt =====
-- src/main.rs: what the exit status says about the tasks.
use mathlib.Core.Path.{subst}
use oxiduct.Base.{
  ℕ, zero, suc, ◌≡◌, ◌≢◌, refl, sym, ap, ◌∙◌, Bool, true, false, ◌||◌, List, [], ◌∷◌, ◌++◌, Option,
  none, some, arith, get_elem?, remove_at,
}
use oxiduct.Main.{
  Task, Finished, is_error, Phase, waiting, draining, forced, exited, State, start, Event, ends,
  joins, none_left, signal, grace_elapses, exit_code, end_task, join, finish, on_event, run,
}

unfoldable pub any_error : List Finished → Bool
any_error [] = false
any_error (f ∷ fs) = is_error f || any_error fs

abbrev pub given : Option Task → Finished → List Finished
given none f = []
given (some t) f = f ∷ []

-- What a task gives at an event.
abbrev pub given_at : State → Phase → Event → List Finished
given_at s (exited code) e = []
given_at s phase (ends i f) = given (get_elem? s.running i) f
given_at s phase e = []

-- What the tasks have given over a history.
unfoldable pub outcomes : State → List Event → List Finished
outcomes s [] = []
outcomes s (e ∷ es) = given_at s s.phase e ++ outcomes (on_event s s.phase e) es

-- `failure` says whether a task has given an error so far.
abbrev pub Tally : State → (failure : Bool) → Phase → Type 0
Tally s failure waiting =
    (s.stop_accepting ≡ false) × (failure ≡ s.any_error || any_error s.finished)
Tally s failure draining = failure ≡ s.any_error || any_error s.finished
Tally s failure forced = failure ≡ s.any_error || any_error s.finished
Tally s failure (exited code) =
    s.stop_accepting ≡ true → (code ≡ exit_code failure) × (s.running ≡ [])

any_error-remove_at :
    (fs : List Finished) (i : ℕ) (f : Finished)
    → get_elem? fs i ≡ some f
    → any_error fs ≡ is_error f || any_error (remove_at i fs)
unfolding any_error
any_error-remove_at [] i f e = ground arith
any_error-remove_at (g ∷ fs) zero f e = ground arith
any_error-remove_at (g ∷ fs) (suc i) f e = ground (arith, any_error-remove_at fs i f e)

any_error-append : (fs gs : List Finished) → any_error (fs ++ gs) ≡ any_error fs || any_error gs
unfolding any_error
any_error-append [] gs = refl
any_error-append (f ∷ fs) gs = ground (arith, any_error-append fs gs)

end_task-Tally :
    (s : State) (failure : Bool) (phase : Phase) (i : ℕ) (o : Option Task) (f : Finished)
    → ((code : ℕ) → phase ≢ exited code)
    → Tally s failure phase
    → Tally (end_task s i o f) (failure || any_error (given o f)) phase
unfolding end_task any_error
end_task-Tally s failure waiting i o f n h = ground arith
end_task-Tally s failure draining i o f n h = ground arith
end_task-Tally s failure forced i o f n h = ground arith
end_task-Tally s failure (exited code) i o f n h = absurd (n code refl)

true_ne_false : {b : Bool} → b ≡ false → b ≡ true → ⊥
true_ne_false p q = cc

or_assoc : (a b c : Bool) → a || (b || c) ≡ (a || b) || c
or_assoc a b c = ground arith

noted :
    (s : State) (failure : Bool) (i : ℕ) (f : Finished)
    → get_elem? s.finished i ≡ some f
    → failure ≡ s.any_error || any_error s.finished
    → failure ≡ (s.any_error || is_error f) || any_error (remove_at i s.finished)
noted s failure i f e h =
    h
    ∙ ap (λ x. s.any_error || x) (any_error-remove_at s.finished i f e)
    ∙ or_assoc s.any_error (is_error f) (any_error (remove_at i s.finished))

-- A state whose phase is the given one.
abbrev pub Tallied : State → Bool → Type 0
Tallied s failure = Tally s failure s.phase

join-Tally :
    (s : State) (failure : Bool) (phase : Phase) (i : ℕ) (o : Option Finished)
    → s.phase ≡ phase
    → get_elem? s.finished i ≡ o
    → Tally s failure phase
    → Tallied (join s phase i o) failure
unfolding join
join-Tally s failure phase i none q e h = subst (Tally s failure) (sym q) h
join-Tally s failure waiting i (some f) q e h = λ stopped. absurd (true_ne_false h.0 stopped)
join-Tally s failure draining i (some f) q e h =
    subst (Tally (join s draining i (some f)) failure) (sym q) (noted s failure i f e h)
join-Tally s failure forced i (some f) q e h =
    subst (Tally (join s forced i (some f)) failure) (sym q) (noted s failure i f e h)
join-Tally s failure (exited code) i (some f) q e h = subst (Tally s failure) (sym q) h

all_joined :
    (s : State) (failure : Bool)
    → s.finished ≡ []
    → failure ≡ s.any_error || any_error s.finished
    → exit_code s.any_error ≡ exit_code failure
unfolding any_error
all_joined s failure e h = ground (arith, h, e)

finish-Tally :
    (s : State) (failure : Bool) (phase : Phase) (ts : List Task) (fs : List Finished)
    → s.phase ≡ phase
    → s.running ≡ ts
    → s.finished ≡ fs
    → Tally s failure phase
    → Tallied (finish s phase ts fs) failure
unfolding finish any_error
finish-Tally s failure waiting [] [] q r e h = λ stopped. absurd (true_ne_false h.0 stopped)
finish-Tally s failure draining [] [] q r e h = λ stopped. (all_joined s failure e h, r)
finish-Tally s failure forced [] [] q r e h = λ stopped. (all_joined s failure e h, r)
finish-Tally s failure (exited code) ts fs q r e h = subst (Tally s failure) (sym q) h
finish-Tally s failure waiting (t ∷ ts) fs q r e h = subst (Tally s failure) (sym q) h
finish-Tally s failure waiting [] (f ∷ fs) q r e h = subst (Tally s failure) (sym q) h
finish-Tally s failure draining (t ∷ ts) fs q r e h = subst (Tally s failure) (sym q) h
finish-Tally s failure draining [] (f ∷ fs) q r e h = subst (Tally s failure) (sym q) h
finish-Tally s failure forced (t ∷ ts) fs q r e h = subst (Tally s failure) (sym q) h
finish-Tally s failure forced [] (f ∷ fs) q r e h = subst (Tally s failure) (sym q) h

or_false : (b : Bool) → b ≡ b || false
or_false b = ground arith

kept : (s : State) (failure : Bool) → Tallied s failure → Tallied s (failure || false)
kept s failure h = subst (Tallied s) (or_false failure) h

end_task-phase :
    (s : State) (i : ℕ) (o : Option Task) (f : Finished) → (end_task s i o f).phase ≡ s.phase
unfolding end_task
end_task-phase s i none f = refl
end_task-phase s i (some t) f = refl

ends-Tally :
    (s : State) (failure : Bool) (phase : Phase) (i : ℕ) (f : Finished)
    → ((code : ℕ) → phase ≢ exited code)
    → s.phase ≡ phase
    → Tally s failure phase
    → Tallied
        (end_task s i (get_elem? s.running i) f)
        (failure || any_error (given (get_elem? s.running i) f))
ends-Tally s failure phase i f n q h =
    let o = get_elem? s.running i in
    subst (Tally (end_task s i o f) (failure || any_error (given o f)))
      (sym (end_task-phase s i o f ∙ q)) (end_task-Tally s failure phase i o f n h)

pub on_event-Tally :
    (s : State) (failure : Bool) (phase : Phase) (e : Event)
    → s.phase ≡ phase
    → Tally s failure phase
    → Tallied (on_event s phase e) (failure || any_error (given_at s phase e))
unfolding on_event any_error
on_event-Tally s failure (exited code) e q h = kept s failure (subst (Tally s failure) (sym q) h)
on_event-Tally s failure waiting (ends i f) q h =
    ends-Tally s failure waiting i f (λ code z. cc) q h
on_event-Tally s failure waiting (joins i) q h =
    kept (join s waiting i (get_elem? s.finished i)) failure
      (join-Tally s failure waiting i (get_elem? s.finished i) q refl h)
on_event-Tally s failure waiting none_left q h =
    kept (finish s waiting s.running s.finished) failure
      (finish-Tally s failure waiting s.running s.finished q refl refl h)
on_event-Tally s failure waiting signal q h =
    kept (record s { stop_accepting = true; phase = draining }) failure h.1
on_event-Tally s failure waiting grace_elapses q h =
    kept s failure (subst (Tally s failure) (sym q) h)
on_event-Tally s failure draining (ends i f) q h =
    ends-Tally s failure draining i f (λ code z. cc) q h
on_event-Tally s failure draining (joins i) q h =
    kept (join s draining i (get_elem? s.finished i)) failure
      (join-Tally s failure draining i (get_elem? s.finished i) q refl h)
on_event-Tally s failure draining none_left q h =
    kept (finish s draining s.running s.finished) failure
      (finish-Tally s failure draining s.running s.finished q refl refl h)
on_event-Tally s failure draining signal q h = kept s failure (subst (Tally s failure) (sym q) h)
on_event-Tally s failure draining grace_elapses q h =
    kept (record s { force_shutdown = true; phase = forced }) failure h
on_event-Tally s failure forced (ends i f) q h = ends-Tally s failure forced i f (λ code z. cc) q h
on_event-Tally s failure forced (joins i) q h =
    kept (join s forced i (get_elem? s.finished i)) failure
      (join-Tally s failure forced i (get_elem? s.finished i) q refl h)
on_event-Tally s failure forced none_left q h =
    kept (finish s forced s.running s.finished) failure
      (finish-Tally s failure forced s.running s.finished q refl refl h)
on_event-Tally s failure forced signal q h = kept s failure (subst (Tally s failure) (sym q) h)
on_event-Tally s failure forced grace_elapses q h =
    kept s failure (subst (Tally s failure) (sym q) h)

run-Tally :
    (s : State) (failure : Bool) (es : List Event)
    → Tallied s failure
    → Tallied (run s es) (failure || any_error (outcomes s es))
unfolding run outcomes any_error
run-Tally s failure [] h = kept s failure h
run-Tally s failure (e ∷ es) h =
    let given = given_at s s.phase e in
    let rest = outcomes (on_event s s.phase e) es in
    subst (Tallied (run (on_event s s.phase e) es))
      (sym (or_assoc failure (any_error given) (any_error rest))
        ∙ ap (λ x. failure || x) (sym (any_error-append given rest)))
      (run-Tally (on_event s s.phase e) (failure || any_error given) es
        (on_event-Tally s failure s.phase e refl h))

-- A program that exits after a signal has joined all its tasks, and its exit status is 1 exactly if
-- a task has returned an error or panicked at any time since the start: before the signal, within
-- the grace period, or after it.
pub run-start-exited :
    (ts : List Task) (es : List Event) (code : ℕ)
    → (run (start ts) es).phase ≡ exited code
    → (run (start ts) es).stop_accepting ≡ true
    → (code ≡ exit_code (any_error (outcomes (start ts) es))) × ((run (start ts) es).running ≡ [])
unfolding start any_error
run-start-exited ts es code e stopped =
    subst (Tally (run (start ts) es) (any_error (outcomes (start ts) es))) e
      (run-Tally (start ts) false es (refl, refl)) stopped
