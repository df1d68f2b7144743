-- ===== src/Service/Shutdown.antt =====
-- The whole program: what the exit of main says about the listeners and their connections.
use mathlib.Core.Path.{subst}
use oxiduct.Base.{
  ℕ, ◌+◌, ◌≡◌, ◌≢◌, refl, ap, sym, ◌∙◌, Bool, true, false, ◌||◌, List, [], ◌∷◌, Option, none, some,
  arith, suc, All, All-map, map, length, get_elem?, if_cases, Bool-cases, inl, inr,
}
use oxiduct.Text.{Text}
use oxiduct.Config.{Protocol}
use oxiduct.Main
use oxiduct.Main.{
  Task, Finished, succeeded, failed, panicked, is_error, exit_code, Phase, exited, waiting,
  draining, forced, join, finish,
}
use oxiduct.Main.Exit.{any_error, Tally, Tallied, on_event-Tally}
use oxiduct.Service.{
  Node, State, start, Step, Event, moves, ends, joins, none_left, signal, grace_elapses, is_seen,
  node_step, gives, main_step, move, end_task, on_event, run,
}
use oxiduct.Service.Moves.{Quiet, quiet_lem, ends_lem}
use oxiduct.Service.Nodes.{
  NeverWraps, Reached, Reached-weaken, IsClean, returned-IsClean, node_step-Reached, map-Reached,
  length-map-spawn, update_at-Reached, length-update_at, remove_at-Reached, get_elem?-Reached,
  length-remove_at, in_range, found,
}

abbrev results : List (Node × Finished) → List Finished
results = map (λ p. p.1)

or_false : (b : Bool) → b || false ≡ b
or_false b = ground arith

or_comm : (a b : Bool) → a || (b || false) ≡ b || a
or_comm a b = ground arith

module _ (size : ℕ) where
  -- The nodes are the running tasks of main, and main knows how the others have ended.
  record IsTracked (left : ℕ) (s : State) : Type 0 where
    counted : length s.past + length s.nodes ≡ size
    parallel : length s.nodes ≡ length s.main.running
    reached : All (Reached left) s.nodes
    ended : All (λ p. Reached left p.0 × (gives p.0 p.1 ≡ true)) s.past
    tally : Tallied s.main (any_error (results s.past))

  IsTracked-weaken : (left : ℕ) (s : State) → IsTracked (suc left) s → IsTracked left s
  IsTracked-weaken left s v = record {
    counted = v.counted;
    parallel = v.parallel;
    reached = All-map (λ n r. Reached-weaken left n r) s.nodes v.reached;
    ended = All-map (λ p r. (Reached-weaken left p.0 r.0, r.1)) s.past v.ended;
    tally = v.tally;
  }

  main_step-IsTracked :
      (left : ℕ) (s : State) (e : Main.Event)
      → Quiet e
      → IsTracked left s
      → IsTracked left (main_step s e)
  unfolding any_error
  main_step-IsTracked left s e q v =
      let (none_given, running) = quiet_lem s.main s.main.phase e q in
      record {
        counted = v.counted;
        parallel = v.parallel ∙ ap (λ ts. length ts) (sym running);
        reached = v.reached;
        ended = v.ended;
        tally =
            subst (Tallied (Main.on_event s.main s.main.phase e))
              (ap (λ fs. any_error (results s.past) || any_error fs) none_given ∙ or_false _)
              (on_event-Tally s.main (any_error (results s.past)) s.main.phase e refl v.tally);
      }

  move-IsTracked :
      (left : ℕ) (s : State) (i : ℕ) (e : Step) (o : Option Node)
      → get_elem? s.nodes i ≡ o
      → IsTracked (suc left) s
      → IsTracked left (move s i e o)
  unfolding move
  move-IsTracked left s i e none h v = IsTracked-weaken left s v
  move-IsTracked left s i e (some n) h v =
      if_cases (IsTracked left) (is_seen s.main e) _ s
        (record {
          counted = omega (arith, v.counted, length-update_at i (node_step n e) s.nodes);
          parallel = length-update_at i (node_step n e) s.nodes ∙ v.parallel;
          reached =
              update_at-Reached left i (node_step n e) s.nodes
                (node_step-Reached left n e (get_elem?-Reached (suc left) i s.nodes n h v.reached))
                (IsTracked-weaken left s v).reached;
          ended = (IsTracked-weaken left s v).ended;
          tally = v.tally;
        })
        (IsTracked-weaken left s v)

  end_task-IsTracked :
      (left : ℕ) (s : State) (i : ℕ) (f : Finished) (o : Option Node)
      → ((code : ℕ) → s.main.phase ≢ exited code)
      → get_elem? s.nodes i ≡ o
      → IsTracked left s
      → IsTracked left (end_task s i f o)
  unfolding end_task any_error
  end_task-IsTracked left s i f none n h v = v
  end_task-IsTracked left s i f (some node) n h v = elim (Bool-cases (gives node f)) [
    | inr refused ↦ rw refused v
    | inl may ↦
        let inside = in_range i s.nodes node h in
        let (t, e) = found i s.main.running (omega (arith, inside, v.parallel)) in
        let (given, running) = ends_lem s.main s.main.phase i f t n e in
        rw may (record {
          counted = omega (arith, v.counted, length-remove_at i s.nodes inside);
          parallel = omega (
            arith,
            ap (λ xs. length xs) running,
            length-remove_at i s.nodes inside,
            length-remove_at i s.main.running (in_range i s.main.running t e),
            v.parallel,
          );
          reached = remove_at-Reached left i s.nodes v.reached;
          ended = ((get_elem?-Reached left i s.nodes node h v.reached, may), v.ended);
          tally =
              subst (Tallied (Main.on_event s.main s.main.phase (Main.ends i f)))
                (ap (λ fs. any_error (results s.past) || any_error fs) given
                  ∙ or_comm (any_error (results s.past)) (is_error f))
                (on_event-Tally s.main (any_error (results s.past)) s.main.phase (Main.ends i f)
                  refl v.tally);
        })
  ]

  on_event-IsTracked :
      (left : ℕ) (s : State) (phase : Phase) (e : Event)
      → s.main.phase ≡ phase
      → IsTracked (suc left) s
      → IsTracked left (on_event s phase e)
  unfolding on_event
  on_event-IsTracked left s (exited code) e q v = (IsTracked-weaken left s v)
  on_event-IsTracked left s waiting (moves i e) q v =
      move-IsTracked left s i e (get_elem? s.nodes i) refl v
  on_event-IsTracked left s waiting (ends i f) q v =
      end_task-IsTracked left s i f (get_elem? s.nodes i) (λ code z. cc) refl
        (IsTracked-weaken left s v)
  on_event-IsTracked left s waiting (joins i) q v =
      main_step-IsTracked left s (Main.joins i) tt (IsTracked-weaken left s v)
  on_event-IsTracked left s waiting none_left q v =
      main_step-IsTracked left s Main.none_left tt (IsTracked-weaken left s v)
  on_event-IsTracked left s waiting signal q v =
      main_step-IsTracked left s Main.signal tt (IsTracked-weaken left s v)
  on_event-IsTracked left s waiting grace_elapses q v =
      main_step-IsTracked left s Main.grace_elapses tt (IsTracked-weaken left s v)
  on_event-IsTracked left s draining (moves i e) q v =
      move-IsTracked left s i e (get_elem? s.nodes i) refl v
  on_event-IsTracked left s draining (ends i f) q v =
      end_task-IsTracked left s i f (get_elem? s.nodes i) (λ code z. cc) refl
        (IsTracked-weaken left s v)
  on_event-IsTracked left s draining (joins i) q v =
      main_step-IsTracked left s (Main.joins i) tt (IsTracked-weaken left s v)
  on_event-IsTracked left s draining none_left q v =
      main_step-IsTracked left s Main.none_left tt (IsTracked-weaken left s v)
  on_event-IsTracked left s draining signal q v =
      main_step-IsTracked left s Main.signal tt (IsTracked-weaken left s v)
  on_event-IsTracked left s draining grace_elapses q v =
      main_step-IsTracked left s Main.grace_elapses tt (IsTracked-weaken left s v)
  on_event-IsTracked left s forced (moves i e) q v =
      move-IsTracked left s i e (get_elem? s.nodes i) refl v
  on_event-IsTracked left s forced (ends i f) q v =
      end_task-IsTracked left s i f (get_elem? s.nodes i) (λ code z. cc) refl
        (IsTracked-weaken left s v)
  on_event-IsTracked left s forced (joins i) q v =
      main_step-IsTracked left s (Main.joins i) tt (IsTracked-weaken left s v)
  on_event-IsTracked left s forced none_left q v =
      main_step-IsTracked left s Main.none_left tt (IsTracked-weaken left s v)
  on_event-IsTracked left s forced signal q v =
      main_step-IsTracked left s Main.signal tt (IsTracked-weaken left s v)
  on_event-IsTracked left s forced grace_elapses q v =
      main_step-IsTracked left s Main.grace_elapses tt (IsTracked-weaken left s v)

  run-IsTracked : (s : State) (es : List Event) → IsTracked (length es) s → IsTracked 0 (run s es)
  unfolding run
  run-IsTracked s [] v = v
  run-IsTracked s (e ∷ es) v =
      run-IsTracked (on_event s s.main.phase e) es
        (on_event-IsTracked (length es) s s.main.phase e refl v)

-- Results without an error are those of returned loops, which have left nothing.
past-IsClean :
    (past : List (Node × Finished))
    → All (λ p. Reached 0 p.0 × (gives p.0 p.1 ≡ true)) past
    → any_error (results past) ≡ false
    → All (λ p. IsClean p.0) past
unfolding any_error gives
past-IsClean [] h e = tt
past-IsClean ((n, succeeded) ∷ past) h e =
    (returned-IsClean 0 n h.0.0 h.0.1, past-IsClean past h.1 e)
past-IsClean ((n, failed) ∷ past) h e = cc
past-IsClean ((n, panicked) ∷ past) h e = cc

no_error : (b : Bool) → 0 ≡ exit_code b → b ≡ false
no_error b e = ground arith

no_nodes : (ns : List Node) → length ns ≡ 0 → ns ≡ []
no_nodes ns e = ground arith

-- When the program exits with status 0 after a signal, and the 32-bit counter of no TCP proxy can
-- wrap (each proxy has a total cap, or fewer than 2^32 events happen), each of its tasks has
-- returned from its loop, whatever the order of its moves was: no connection task and no slot of a
-- TCP proxy is left, and no loop of a UDP proxy or of the exporter.
pub run-start-IsClean :
    (binds : Protocol → Text → Bool) (ts : List Task) (es : List Event)
    → NeverWraps ts (length es)
    → (run (start binds ts) es).main.phase ≡ exited 0
    → (run (start binds ts) es).main.stop_accepting ≡ true
    → ((run (start binds ts) es).nodes ≡ [])
      × All (λ p. IsClean p.0) (run (start binds ts) es).past
      × (length (run (start binds ts) es).past ≡ length ts)
unfolding start Main.start any_error
run-start-IsClean binds ts es fits e stopped =
    let s = run (start binds ts) es in
    let v = run-IsTracked (length ts) (start binds ts) es (record {
      counted = omega (arith, length-map-spawn binds ts);
      parallel = length-map-spawn binds ts;
      reached = map-Reached (length es) binds ts fits;
      ended = tt;
      tally = (refl, refl);
    }) in
    let (code, running) = subst (Tally s.main (any_error (results s.past))) e v.tally stopped in
    let none_running = no_nodes s.nodes (v.parallel ∙ ap (λ xs. length xs) running) in
    (
      none_running,
      past-IsClean s.past v.ended (no_error (any_error (results s.past)) code),
      omega (arith, v.counted, ap (λ xs. length xs) none_running),
    )
