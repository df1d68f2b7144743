-- ===== src/Service/Moves.antt =====
-- The whole program: what a move of main does to its running tasks, and what it takes from them.
use oxiduct.Base.{ℕ, ◌≡◌, ◌≢◌, refl, List, [], ◌∷◌, Option, some, arith, get_elem?, remove_at}
use oxiduct.Main
use oxiduct.Main.{Task, Finished, Phase, exited, waiting, draining, forced, join, finish}
use oxiduct.Main.Exit.{given_at}

join_running :
    (m : Main.State) (phase : Phase) (i : ℕ) (o : Option Finished)
    → (join m phase i o).running ≡ m.running
unfolding join
join_running m phase i o = ground arith

finish_running :
    (m : Main.State) (phase : Phase) (ts : List Task) (fs : List Finished)
    → (finish m phase ts fs).running ≡ m.running
unfolding finish
finish_running m phase ts fs = ground arith

-- A move of main that is not the end of a task.
abbrev pub Quiet : Main.Event → Type 0
Quiet (Main.ends i f) = ⊥
Quiet e = Unit

pub quiet_lem :
    (m : Main.State) (phase : Phase) (e : Main.Event)
    → Quiet e
    → (given_at m phase e ≡ []) × ((Main.on_event m phase e).running ≡ m.running)
unfolding Main.on_event
quiet_lem m waiting (Main.joins i) q = (refl, join_running m waiting i (get_elem? m.finished i))
quiet_lem m draining (Main.joins i) q = (refl, join_running m draining i (get_elem? m.finished i))
quiet_lem m forced (Main.joins i) q = (refl, join_running m forced i (get_elem? m.finished i))
quiet_lem m waiting (Main.ends i f) q = elim q [ ]
quiet_lem m draining (Main.ends i f) q = elim q [ ]
quiet_lem m forced (Main.ends i f) q = elim q [ ]
quiet_lem m waiting Main.none_left q = (refl, finish_running m waiting m.running m.finished)
quiet_lem m draining Main.none_left q = (refl, finish_running m draining m.running m.finished)
quiet_lem m forced Main.none_left q = (refl, finish_running m forced m.running m.finished)
quiet_lem m waiting Main.signal q = (refl, refl)
quiet_lem m draining Main.signal q = (refl, refl)
quiet_lem m forced Main.signal q = (refl, refl)
quiet_lem m waiting Main.grace_elapses q = (refl, refl)
quiet_lem m draining Main.grace_elapses q = (refl, refl)
quiet_lem m forced Main.grace_elapses q = (refl, refl)
quiet_lem m (exited code) e q = (refl, refl)

-- The end of a running task, seen by main.
pub ends_lem :
    (m : Main.State) (phase : Phase) (i : ℕ) (f : Finished) (t : Task)
    → ((code : ℕ) → phase ≢ exited code)
    → get_elem? m.running i ≡ some t
    → (given_at m phase (Main.ends i f) ≡ f ∷ [])
      × ((Main.on_event m phase (Main.ends i f)).running ≡ remove_at i m.running)
unfolding Main.on_event Main.end_task
ends_lem m waiting i f t n e = rw e (refl, refl)
ends_lem m draining i f t n e = rw e (refl, refl)
ends_lem m forced i f t n e = rw e (refl, refl)
ends_lem m (exited code) i f t n e = absurd (n code refl)
