-- ===== src/Proxy/Tcp/Watchdog/Outcomes.antt =====
-- Whole runs of the watchdog: what must have happened for each reason that it returns.
use mathlib.Core.List.{Memᴰ, append_assoc}
use mathlib.Core.Path.{subst}
use oxiduct.Base.{
  ◌+◌, ◌*◌, ◌≤◌, ◌<◌, ◌≡◌, inl, inr, Bool, true, false, not, ◌||◌, List, [], ◌∷◌, ◌++◌, arith, refl,
  All, sym, Option-cases, if_cases,
}
use oxiduct.Base.Words.{u64_max}
use oxiduct.Proxy.Tcp.{Dir, up, down, eof, err}
use oxiduct.Proxy.Tcp.Watchdog.{
  Reason, both_eof, idle_timeout, half_close_timeout, shutdown, reset, Watch, start, Timeouts,
  Event, Turn, Outcome, running, ended, Check, stop, wait, check, get_or_insert, turn, react,
  after_check, shutting_down, received, closed, slept, resume, watchdog,
}
use oxiduct.Proxy.Tcp.Watchdog.Deadlines.{check-stop}
use oxiduct.Proxy.Tcp.Watchdog.Known.{
  Occurs, Known, Mem-behind, Occurs-front, split_again, check-Known,
}

-- What must have happened for a reason to be returned. The grace period takes a clean end, then the
-- turn that arms it, then a turn at which it has passed since that turn and since the last activity.
abbrev pub Cause : Timeouts → List Turn → Reason → Type 0
Cause t rs both_eof =
    Occurs (λ r. r.event ≡ received up eof) rs × Occurs (λ r. r.event ≡ received down eof) rs
Cause t rs idle_timeout = (0 < t.idle_secs) × Occurs (λ r. r.last + t.idle_secs * 1000 ≤ r.now) rs
Cause t rs half_close_timeout =
    (0 < t.half_close_secs)
    × (before after : List Turn) × (armed late : Turn) × (rs ≡ before ++ armed ∷ after)
    × Occurs (λ r. (d : Dir) × (r.event ≡ received d eof)) before
    × Memᴰ late after
    × (armed.now + t.half_close_secs * 1000 ≤ late.now)
    × (late.last + t.half_close_secs * 1000 ≤ late.now)
Cause t rs shutdown = Occurs (λ r. r.event ≡ shutting_down) rs
Cause t rs reset = Occurs (λ r. (d : Dir) × (r.event ≡ received d err)) rs

abbrev pub cancels : Reason → Bool
cancels both_eof = false
cancels _ = true

abbrev is_up : Dir → Bool
is_up up = true
is_up down = false

module _ (t : Timeouts) (past rest : List Turn) (r : Turn) where
  abbrev turns : List Turn
  turns = past ++ r ∷ rest

  half_close_Cause :
      (w : Watch)
      → Known past w
      → 0 < t.half_close_secs
      → r.last + t.half_close_secs * 1000 ≤ r.now
      → get_or_insert w.half_close_since r.now + t.half_close_secs * 1000 ≤ r.now
      → Cause t turns half_close_timeout
  half_close_Cause w k on quiet long = elim (Option-cases w.half_close_since) [
    | inl e ↦ absurd (ground arith)
    | inr (n, e) ↦
        let (before, after, a, q, ending, at) = k.armed n e in
        (
          on,
          before,
          after ++ r ∷ rest,
          a,
          r,
          split_again past before after (r ∷ rest) a q,
          ending,
          Mem-behind r after rest,
          ground arith,
          quiet,
        )
  ]

  stop-Cause :
      (w : Watch) (reason : Reason) (cancelled : Bool)
      → r.now < u64_max
      → check t w r.now r.last ≡ stop reason cancelled
      → Known past w
      → Cause t turns reason × (cancelled ≡ cancels reason)
  stop-Cause w reason cancelled small e k =
      elim (check-stop t w r.now r.last reason cancelled small e) [
        | inl (q, c, u, d) ↦
            rw q ((Occurs-front _ past _ (k.up_end u), Occurs-front _ past _ (k.down_end d)), c)
        | inr (inl (q, c, on, late)) ↦ rw q ((on, (r, Mem-behind r past rest, late)), c)
        | inr (inr (q, c, on, one, quiet, long)) ↦ rw q (half_close_Cause w k on quiet long, c)
      ]

-- A running loop's variables are known from the turns so far, and a result has its cause among all.
abbrev Fine : Timeouts → (past whole : List Turn) → Outcome → Type 0
Fine t past whole (running w) = Known past w
Fine t past whole (ended reason cancelled) = Cause t whole reason × (cancelled ≡ cancels reason)

received-Known :
    (past : List Turn) (w : Watch) (r : Turn) (d : Dir)
    → r.event ≡ received d eof
    → Known (past ++ r ∷ []) w
    → Known
        (past ++ r ∷ [])
        (record w { up_done = is_up d || w.up_done; down_done = not (is_up d) || w.down_done })
received-Known past w r up q k = record {
  up_end = λ u. (r, Mem-behind r past [], q);
  down_end = k.down_end;
  armed = k.armed;
}
received-Known past w r down q k = record {
  up_end = k.up_end;
  down_end = λ u. (r, Mem-behind r past [], q);
  armed = k.armed;
}

react-Fine :
    (t : Timeouts) (past rest : List Turn) (w : Watch) (r : Turn) (e : Event)
    → r.event ≡ e
    → Known (past ++ r ∷ []) w
    → Fine t (past ++ r ∷ []) (past ++ r ∷ rest) (react w e)
unfolding react
react-Fine t past rest w r shutting_down q k = ((r, Mem-behind r past rest, q), refl)
react-Fine t past rest w r (received d err) q k =
    if_cases (Fine t (past ++ r ∷ []) (past ++ r ∷ rest)) w.channel_open _ _
      ((r, Mem-behind r past rest, (d, q)), refl) k
react-Fine t past rest w r (received up eof) q k =
    if_cases (Known (past ++ r ∷ [])) w.channel_open _ _ (received-Known past w r up q k) k
react-Fine t past rest w r (received down eof) q k =
    if_cases (Known (past ++ r ∷ [])) w.channel_open _ _ (received-Known past w r down q k) k
react-Fine t past rest w r closed q k = record {
  up_end = k.up_end;
  down_end = k.down_end;
  armed = k.armed;
}
react-Fine t past rest w r slept q k = k

after_check-Fine :
    (t : Timeouts) (past rest : List Turn) (w : Watch) (r : Turn) (c : Check)
    → r.now < u64_max
    → check t w r.now r.last ≡ c
    → Known past w
    → Fine t (past ++ r ∷ []) (past ++ r ∷ rest) (after_check c r.event)
after_check-Fine t past rest w r (stop reason cancelled) small e k =
    stop-Cause t past rest r w reason cancelled small e k
after_check-Fine t past rest w r (wait v wake_ms) small e k =
    react-Fine t past rest v r r.event refl (check-Known t w v past r wake_ms e k)

resume-Fine :
    (t : Timeouts) (o : Outcome) (past rs : List Turn)
    → All (λ r. r.now < u64_max) rs
    → Fine t past (past ++ rs) o
    → (reason : Reason) (cancelled : Bool) → resume t o rs ≡ ended reason cancelled
    → Cause t (past ++ rs) reason × (cancelled ≡ cancels reason)
unfolding resume turn
resume-Fine t (running w) past [] h f reason cancelled e = cc
resume-Fine t (ended reason' cancelled') past [] h f reason cancelled e =
    subst (Fine t past (past ++ [])) e f
resume-Fine t (running w) past (r ∷ rs) (small, h) f reason cancelled e =
    let regroup : (past ++ r ∷ []) ++ rs ≡ past ++ r ∷ rs = append_assoc past (r ∷ []) rs in
    subst (λ ts. Cause t ts reason × (cancelled ≡ cancels reason)) regroup
      (resume-Fine t (turn t w r) (past ++ r ∷ []) rs h
        (subst (λ ts. Fine t (past ++ r ∷ []) ts (turn t w r)) (sym regroup)
          (after_check-Fine t past rs w r _ small refl f))
        reason cancelled e)
resume-Fine t (ended reason' cancelled') past (r ∷ rs) h f reason cancelled e =
    subst (Fine t past (past ++ r ∷ rs)) e f

start-Known : Known [] start
start-Known = record { up_end = λ u. cc; down_end = λ u. cc; armed = λ n u. cc }

-- Whenever the watchdog returns, the reason it gives has its cause among the turns of its run, and
-- it has cancelled the directions unless that reason is the clean end: for "half_close_timeout", a
-- clean end, at a later turn the start of the grace period, and at a turn after that the whole
-- period passed since its start and since the last activity. (The clock stays below the largest
-- `u64`.)
pub watchdog-Cause :
    (t : Timeouts) (rs : List Turn) (reason : Reason) (cancelled : Bool)
    → All (λ r. r.now < u64_max) rs
    → watchdog t rs ≡ ended reason cancelled
    → Cause t rs reason × (cancelled ≡ cancels reason)
unfolding watchdog
watchdog-Cause t rs reason cancelled small e =
    resume-Fine t (running start) [] rs small start-Known reason cancelled e
