-- ===== src/Metrics/Handler.antt =====
-- src/metrics.rs, `handle_request` under its timeout: a request from its first read to the close.
-- The registry, the socket and the clock are an input.
pub mod Invariant
pub mod Answered
pub mod Deadlines
mod Tests
use oxiduct.Base.{
  ℕ, ◌+◌, Bool, true, false, ◌||◌, List, [], ◌∷◌, ◌++◌, Option, none, some, if◌then◌else◌, leb,
  ◌==◌, take, drop,
}
use oxiduct.Text.{codes}
use oxiduct.Metrics.Request
use oxiduct.Metrics.Request.{Reading, done, failed, on_read, asks_for_metrics}
use oxiduct.Metrics.Response.{header}

abbrev pub request_timeout_ms : ℕ
request_timeout_ms = 10000

abbrev pub drain_ms : ℕ
drain_ms = 1000

-- `handle_request` returns, returns an error, or is cut off.
pub data Outcome : Type 0 where
  answered broken timed_out : Outcome

-- Where it is: reading; writing, with the buffers that are left, the first one in part; flushing;
-- before the shutdown of the stream; draining, since a time; or over.
pub data Stage : Type 0 where
  reading : List ℕ → Stage
  writing : List (List ℕ) → Stage
  flushing closing : Stage
  draining : ℕ → Stage
  over : Outcome → Stage

pub record State : Type 0 where
  pub started : ℕ
  pub stage : Stage
  -- The bytes that the stream has taken.
  pub sent : List ℕ

unfoldable pub start : ℕ → State
start now = record { started = now; stage = reading []; sent = [] }

-- What the stream does: a read gives bytes, none at the end, or fails; a write takes some bytes, or
-- fails; the flush and the shutdown end.
pub data Io : Type 0 where
  reads : Option (List ℕ) → Io
  takes : ℕ → Io
  write_fails : Io
  flushed : Bool → Io
  closed : Io

-- A wake of the task: the clock, and what the stream does until the task waits again.
pub record Wake : Type 0 where
  pub now : ℕ
  pub ios : List Io

-- The status line with the headers, and the body, as they are written.
abbrev pub parts : Bool → List ℕ → List (List ℕ)
parts true rendered =
    header (codes "200 OK") (codes "text/plain; version=0.0.4") rendered ∷ rendered ∷ []
parts false rendered =
    header (codes "404 Not Found") (codes "text/plain") (codes "404 not found\n")
    ∷ codes "404 not found\n"
    ∷ []

-- `write_all` returns once nothing of its buffer is left.
unfoldable pub written : List (List ℕ) → Stage
written [] = flushing
written ([] ∷ bs) = written bs
written ((x ∷ xs) ∷ bs) = writing ((x ∷ xs) ∷ bs)

abbrev pub after_read : Reading → (rendered : List ℕ) → Stage
after_read failed rendered = over broken
after_read (Request.reading buf) rendered = reading buf
after_read (done buf) rendered = written (parts (asks_for_metrics buf) rendered)

-- A write that takes nothing is an error.
unfoldable pub write : State → ℕ → List ℕ → List (List ℕ) → State
unfolding written
write s n b bs =
    if n == 0
    then record s { stage = over broken }
    else record s { stage = written (drop n b ∷ bs); sent = s.sent ++ take n b }

-- The drain goes on while a read gives bytes.
abbrev pub drain : ℕ → Option (List ℕ) → Stage
drain since none = over answered
drain since (some []) = over answered
drain since (some (x ∷ xs)) = draining since

abbrev pub on_flush : Bool → Stage
on_flush true = closing
on_flush false = over broken

-- One step of `handle_request`, if the stream has one for it.
unfoldable pub progress : (ℕ → List ℕ) → ℕ → State → Stage → Io → State
unfolding on_read written write
progress render now s (reading buf) (reads chunk) = record s {
  stage = after_read (on_read buf chunk) (render now);
}
progress render now s (writing (b ∷ bs)) (takes n) = write s n b bs
progress render now s (writing (b ∷ bs)) write_fails = record s { stage = over broken }
progress render now s flushing (flushed ok) = record s { stage = on_flush ok }
progress render now s closing closed = record s { stage = draining now }
progress render now s (draining since) (reads chunk) = record s { stage = drain since chunk }
progress render now s stage io = record s { stage = stage }

-- The steps that it takes before it waits.
unfoldable pub poll : (ℕ → List ℕ) → ℕ → State → List Io → State
unfolding progress
poll render now s [] = s
poll render now s (io ∷ ios) = poll render now (progress render now s s.stage io) ios

-- The deadline of the drain, whose passing is no error, and that of the request.
abbrev pub expired : ℕ → ℕ → Stage → Stage
expired started now (over o) = over o
expired started now (draining since) =
    if leb (since + drain_ms) now
    then over answered
    else if leb (started + request_timeout_ms) now
    then over timed_out
    else draining since
expired started now stage = if leb (started + request_timeout_ms) now then over timed_out else stage

unfoldable pub wake : (ℕ → List ℕ) → State → Wake → State
unfolding poll
wake render s w =
    let next = poll render w.now s w.ios in
    record s { stage = expired s.started w.now next.stage; sent = next.sent }

unfoldable pub run : (ℕ → List ℕ) → State → List Wake → State
unfolding wake
run render s [] = s
run render s (w ∷ ws) = run render (wake render s w) ws
