-- ===== src/Proxy/Tcp/Copy.antt =====
-- src/proxy/tcp.rs, `copy_dir`: one direction of a relay. What the reader, the writer and the
-- cancellation do in a pass of the loop comes from the environment.
pub mod Stream
pub mod Ends
use oxiduct.Base.{
  ℕ, ◌+◌, ◌%◌, Bool, true, false, List, [], ◌∷◌, ◌++◌, Option, none, some, if◌then◌else◌, length,
  take,
}
use oxiduct.Base.Words.{u64_mod}
use oxiduct.Proxy.Tcp.{Dir, End, eof, err}

-- One pass of the loop, as the environment decides it.
pub record Pass : Type 0 where
  -- The cancellation is seen before the read returns.
  pub cancelled : Bool
  -- `read`: none is an error, and no bytes are `Ok(0)`.
  pub read : Option (List ℕ)
  pub now : ℕ
  -- The cancellation is seen before `write_all` returns.
  pub cancelled_writing : Bool
  pub write_ok : Bool
  -- How many bytes the writer has taken when `write_all` is cancelled or fails.
  pub taken : ℕ

-- The loop's variables, and what it does to the writer, the shared clock and the counter.
pub record Flow : Type 0 where
  pub total : ℕ
  pub last_activity : ℕ
  -- All bytes that the writer has taken, in order.
  pub sent : List ℕ
  -- `writer.shutdown()` has been called.
  pub shut : Bool
  -- The arguments of `bytes.inc_by`, the latest first.
  pub incs : List ℕ

abbrev pub start : ℕ → Flow
start now = record { total = 0; last_activity = now; sent = []; shut = false; incs = [] }

pub data Copying : Type 0 where
  running : Flow → Copying
  -- The loop is left with this `end`, which is reported.
  finished : Flow → End → Copying

-- `writer.write_all(&buf[..n])` under `select!`, after the activity has been recorded.
unfoldable pub write : Flow → List ℕ → Pass → Copying
write f chunk p =
    if p.cancelled_writing
    then finished (record f { sent = f.sent ++ take p.taken chunk }) eof
    else if p.write_ok
    then running (record f {
      total = (f.total + length chunk) % u64_mod;
      sent = f.sent ++ chunk;
      incs = length chunk ∷ f.incs;
    })
    else finished (record f { sent = f.sent ++ take p.taken chunk }) err

unfoldable pub on_read : Flow → Option (List ℕ) → Pass → Copying
unfolding write
on_read f none p = finished (record f { shut = true }) err
on_read f (some []) p = finished (record f { shut = true }) eof
on_read f (some (b ∷ bs)) p = write (record f { last_activity = p.now }) (b ∷ bs) p

unfoldable pub pass : Flow → Pass → Copying
unfolding on_read
pass f p = if p.cancelled then finished f eof else on_read f p.read p

unfoldable pub resume : Copying → List Pass → Copying
resume c [] = c
resume (running f) (p ∷ ps) = resume (pass f p) ps
resume (finished f end) (p ∷ ps) = finished f end

-- `copy_dir` from the clock's value on.
unfoldable pub copy_dir : ℕ → List Pass → Copying
unfolding resume pass
copy_dir now ps = resume (running (start now)) ps

-- What is sent over the channel when the loop is left, and what the task returns.
abbrev pub report : Dir → Copying → Option ((Dir × End) × ℕ)
report dir (running f) = none
report dir (finished f end) = some ((dir, end), f.total)
