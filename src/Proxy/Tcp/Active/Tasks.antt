-- ===== src/Proxy/Tcp/Active/Tasks.antt =====
-- src/proxy/tcp.rs, `serve_graceful`: how many tasks run after each event of the listener.
use oxiduct.Base.{
  remove_at_past, ℕ, ◌+◌, ◌≡◌, ◌⊎◌, refl, sym, inl, inr, true, false, Bool, Option, none, some,
  arith, length, ltb, get_elem?, remove_at,
}
use oxiduct.Net.{SocketAddr}
use oxiduct.Limits.{ConnLimits, Admission, admitted, rejected, try_acquire}
use oxiduct.Proxy.Tcp.Serve
use oxiduct.Proxy.Tcp.Serve.{Task, Stage, accepting, backing_off, joining, returned}

-- The end of a task takes its place away from the listener.
pub running-end_task :
    (s : Serve.State) (i : ℕ) (o : Option Task)
    → get_elem? s.running i ≡ o
    → (Serve.end_task s i o).running ≡ remove_at i s.running
running-end_task s i none e = sym (remove_at_past i s.running e)
running-end_task s i (some t) e = refl

-- A connection adds one task, or none.
abbrev pub grown : Bool → ℕ → ℕ
grown true n = n + 1
grown false n = n

pub grown_lem : (n m : ℕ) (b : Bool) → ltb n m ≡ b → (m ≡ n) ⊎ (m ≡ n + 1) → m ≡ grown b n
grown_lem n m true e (inl h) = ground arith
grown_lem n m true e (inr h) = ground arith
grown_lem n m false e (inl h) = ground arith
grown_lem n m false e (inr h) = ground arith

length-decide :
    (s : Serve.State) (peer : SocketAddr) (r : ConnLimits × Admission)
    → (length (Serve.decide s peer r).running ≡ length s.running)
      ⊎ (length (Serve.decide s peer r).running ≡ length s.running + 1)
length-decide s peer (l, rejected r) = inl refl
length-decide s peer (l, admitted guard warnings) = inr (omega arith)

pub length-accept :
    (s : Serve.State) (stage : Stage) (peer : SocketAddr)
    → (length (Serve.accept s stage peer).running ≡ length s.running)
      ⊎ (length (Serve.accept s stage peer).running ≡ length s.running + 1)
unfolding Serve.accept
length-accept s accepting peer = length-decide s peer (try_acquire s.limits peer.ip)
length-accept s backing_off peer = inl refl
length-accept s joining peer = inl refl
length-accept s returned peer = inl refl

-- The events that neither start nor end a task.
when-running :
    (stage other : Stage) (next s : Serve.State)
    → next.running ≡ s.running
    → (Serve.when stage other next s).running ≡ s.running
when-running stage other next s e = ground (arith, e)

pub running-step :
    (s : Serve.State)
    → ((Serve.step s Serve.stops).running ≡ s.running)
      × ((Serve.step s Serve.accept_fails).running ≡ s.running)
      × ((Serve.step s Serve.pause_ends).running ≡ s.running)
      × ((Serve.step s Serve.returns).running ≡ s.running)
      × ((i : ℕ) → (Serve.step s (Serve.joins i)).running ≡ s.running)
unfolding Serve.step
running-step s = ground arith
