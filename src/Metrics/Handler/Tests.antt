-- ===== src/Metrics/Handler/Tests.antt =====
-- A request with its timeout at concrete inputs.
use oxiduct.Base.{ℕ, ◌≡◌, ◌⊎◌, refl, inr, true, List, [], ◌∷◌, ◌++◌, some, arith}
use oxiduct.Text.{codes, decimal, Text-discrete}
use oxiduct.Metrics.Utf8.{decode_from}
use oxiduct.Metrics.Request.{
  read_from, first_line, is_metrics, word, skip_whitespace, after_word, read_request, reply,
}
use oxiduct.Metrics.Response.{response}
use oxiduct.Metrics.Handler.{
  answered, timed_out, over, draining, start, reads, takes, flushed, closed, Wake, progress, run,
}
use oxiduct.Metrics.Handler.Answered.{given, run-start-reply}
use oxiduct.Metrics.Handler.Deadlines.{IsOver, run-start-IsOver}

abbrev rendered : ℕ → List ℕ
rendered t = codes "x 1\n"

-- The line in two reads, the header and the body in three writes, and a drain that ends with the
-- input.
abbrev scrape : List Wake
scrape =
    record { now = 5; ios = reads (some (codes "GET /met")) ∷ [] }
    ∷ record { now = 9; ios = reads (some (codes "rics HTTP/1.1\r\n")) ∷ takes 30 ∷ [] }
    ∷ record { now = 11; ios = takes 100 ∷ takes 100 ∷ flushed true ∷ closed ∷ [] }
    ∷ record { now = 12; ios = reads (some (codes "Host: a\r\n\r\n")) ∷ reads (some []) ∷ [] }
    ∷ []

-- The same without the end of the input.
abbrev kept_open : List Wake
kept_open =
    record { now = 5; ios = reads (some (codes "GET / HTTP/1.1\n")) ∷ takes 200 ∷ [] }
    ∷ record { now = 11; ios = takes 200 ∷ flushed true ∷ closed ∷ [] }
    ∷ []

handlers : Unit {0}
unfolding run progress reply read_from decode_from first_line is_metrics word skip_whitespace
    after_word response decimal Text-discrete start
handlers = tt

scrape_ends : (run rendered (start 0) scrape).stage ≡ over answered
unfolding handlers
scrape_ends = refl

silent_ends :
    (run rendered (start 0) (record { now = 10000; ios = [] } ∷ [])).stage ≡ over timed_out
unfolding handlers
silent_ends = refl

kept_open_drains : (run rendered (start 0) kept_open).stage ≡ draining 11
unfolding handlers
kept_open_drains = refl

run-start-reply_example :
    let s = run rendered (start 0) scrape in
    let r = read_request (given scrape) in
    ((s.sent ≡ []) ⊎ ((rest : List ℕ) × (t : ℕ) × (reply r (rendered t) ≡ some (s.sent ++ rest))))
    × (s.stage ≡ over answered → (t : ℕ) × (reply r (rendered t) ≡ some s.sent))
run-start-reply_example = run-start-reply rendered 0 scrape

run-start-IsOver_example :
    IsOver (run rendered (start 0) (kept_open ++ record { now = 1011; ios = [] } ∷ [])).stage
run-start-IsOver_example =
    run-start-IsOver rendered 0 kept_open [] (record { now = 1011; ios = [] })
      (inr (11, kept_open_drains, omega arith))
