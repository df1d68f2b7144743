-- ===== src/Metrics/Tests.antt =====
-- The exporter at concrete inputs, after the unit tests of src/metrics.rs.
use mathlib.Core.List.{reverse}
use oxiduct.Base.{
  ℕ, ◌+◌, ◌≡◌, ◌↔◌, refl, true, false, List, [], ◌∷◌, Option, none, some, if◌then◌else◌, length,
  map, arith,
}
use oxiduct.Text.{Text, codes, decimal, Text-discrete}
use oxiduct.Base.Map.{contains}
use oxiduct.Metrics.Families.{Family, Field, family, documented, is_valid, new, new_registers}
use oxiduct.Metrics.Utf8.{decode_from, from_utf8_lossy}
use oxiduct.Metrics.Request.{
  failed, read_from, first_line, is_metrics, asks_for_metrics, has, word, skip_whitespace,
  after_word, read_request, reply,
}
use oxiduct.Metrics.Request.Lines.{reply-read_request}
use oxiduct.Metrics.Request.Target.{Asks, is_metrics_iff}
use oxiduct.Metrics.Response.{response}
use oxiduct.Metrics.Response.Reader.{read_message, answer, read_message-response}
use oxiduct.Metrics.Exporter.{
  max_inflight, Event, start, stops, accepts, ends, accept_fails, pause_ends, run,
}
use oxiduct.Metrics.Exporter.Pool.{pool, pool_run, run-pool_run}

requests : Unit {0}
unfolding reply read_from decode_from first_line is_metrics word skip_whitespace after_word response
    decimal Text-discrete
requests = tt

-- "GET /met", then the rest of the line.
split_request :
    reply
      (read_request (some (codes "GET /met") ∷ some (codes "rics HTTP/1.1\r\n\r\n") ∷ []))
      (codes "x 1\n")
    ≡ some (
        codes
          "HTTP/1.1 200 OK\r\nContent-Type: text/plain; version=0.0.4\r\nContent-Length: 4\r\nConnection: close\r\n\r\nx 1\n")
unfolding requests
split_request = refl

other_requests :
    (asks_for_metrics (codes "GET /metrics?a=b HTTP/1.1\n") ≡ true)
    × (asks_for_metrics (codes "GET /metricsx HTTP/1.1\n") ≡ false)
    × (asks_for_metrics (codes "POST /metrics HTTP/1.1\r\n") ≡ false)
    × (asks_for_metrics (codes "\nGET /metrics\n") ≡ false)
    × (asks_for_metrics [] ≡ false)
    × (read_request (some (codes "GET") ∷ none ∷ []) ≡ failed)
unfolding requests
other_requests = (refl, refl, refl, refl, refl, refl)

-- An overlong form, a lone continuation byte, and a truncated sequence before a newline.
lossy :
    (from_utf8_lossy (0xC0 ∷ 0x80 ∷ []) ≡ 0xFFFD ∷ 0xFFFD ∷ [])
    × (from_utf8_lossy (0xE2 ∷ 0x82 ∷ 0xAC ∷ []) ≡ 0x20AC ∷ [])
    × (from_utf8_lossy (0xE2 ∷ 0x82 ∷ 10 ∷ []) ≡ 0xFFFD ∷ 10 ∷ [])
    × (from_utf8_lossy (0xF0 ∷ 0x9F ∷ 0x98 ∷ 0x80 ∷ []) ≡ 0x1F600 ∷ [])
unfolding requests
lossy = (refl, refl, refl, refl)

abbrev chunks : List (List ℕ)
chunks = codes "GET /met" ∷ codes "rics HTTP/1.1\r\nHo" ∷ codes "st: a\r\n\r\n" ∷ []

reply-read_request_example :
    reply (read_request (map some chunks)) (codes "x 1\n")
    ≡ some (response (asks_for_metrics (codes "GET /metrics HTTP/1.1\r\n")) (codes "x 1\n"))
unfolding has
reply-read_request_example =
    reply-read_request chunks (codes "GET /metrics HTTP/1.1\r") (codes "Host: a\r\n\r\n")
      (codes "x 1\n") refl refl (omega arith) ((λ e. cc), ((λ e. cc), ((λ e. cc), tt)))

is_metrics_iff_example :
    (is_metrics (codes "GET /metrics?x HTTP/1.1") ≡ true) ↔ Asks (codes "GET /metrics?x HTTP/1.1")
is_metrics_iff_example = is_metrics_iff (codes "GET /metrics?x HTTP/1.1")

read_message-response_example :
    read_message (response true (codes "a\r\n\r\nb")) ≡ some (answer true (codes "a\r\n\r\nb"))
read_message-response_example = read_message-response true (codes "a\r\n\r\nb")

abbrev flood : List Event
flood =
    accepts 1
    ∷ accepts 2
    ∷ accepts 3
    ∷ accepts 4
    ∷ accepts 5
    ∷ accepts 6
    ∷ accepts 7
    ∷ accepts 8
    ∷ accepts 9
    ∷ accept_fails
    ∷ pause_ends
    ∷ accepts 10
    ∷ accepts 11
    ∷ accepts 12
    ∷ accepts 13
    ∷ accepts 14
    ∷ accepts 15
    ∷ accepts 16
    ∷ accepts 17
    ∷ ends 3
    ∷ accepts 18
    ∷ stops
    ∷ accepts 19
    ∷ []

flood_dropped : ((run start flood).dropped ≡ 17 ∷ []) × ((run start flood).ended ≡ 13 ∷ [])
unfolding run
flood_dropped = (refl, refl)

run-pool_run_example :
    (pool (run start flood) ≡ pool_run (pool start) flood)
    × ((run start flood).permits + length (run start flood).running ≡ max_inflight)
run-pool_run_example = run-pool_run flood

-- A registry that holds the names of its families.
abbrev register : List Text → Family → Option (List Text)
register ns f = if contains Text-discrete f.name ns then none else some (f.name ∷ ns)

register_adds :
    (ns : List Text) (f : Family)
    → contains Text-discrete f.name ns ≡ false
    → (ns' : List Text) × (register ns f ≡ some ns') × (ns' ≡ f.name ∷ ns)
register_adds ns f h = (f.name ∷ ns, rw h refl, refl)

new_registers_example :
    (r : List Text) × (new is_valid register [] ≡ some r)
    × (reverse r ≡ documented)
    × ((f : Field) → contains Text-discrete (family f).name r ≡ true)
new_registers_example = new_registers is_valid register (λ ns. ns) (λ f h. h) register_adds [] refl
