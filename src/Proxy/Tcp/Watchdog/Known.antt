-- ===== src/Proxy/Tcp/Watchdog/Known.antt =====
-- The variables of the watchdog, traced to the turns of its run.
use mathlib.Core.List.{Memᴰ, append_assoc}
use oxiduct.Base.{
  ℕ, ◌≡◌, ◌⊎◌, inl, inr, true, ◌||◌, List, [], ◌∷◌, ◌++◌, some, arith, refl, sym, ap, ◌∙◌,
  Bool-cases,
}
use oxiduct.Proxy.Tcp.{Dir, up, down, eof}
use oxiduct.Proxy.Tcp.Watchdog.{Watch, Timeouts, Turn, wait, check, received}

-- A turn of the run has a property.
abbrev pub Occurs : (Turn → Type 0) → List Turn → Type 0
Occurs P rs = (r : Turn) × Memᴰ r rs × P r

-- The period was armed at a time, at a turn behind that of a clean end.
abbrev pub IsArmed : ℕ → List Turn → Type 0
IsArmed n past =
    (before after : List Turn) × (armed : Turn) × (past ≡ before ++ armed ∷ after)
    × Occurs (λ r. (d : Dir) × (r.event ≡ received d eof)) before
    × (armed.now ≡ n)

-- The loop's variables, traced to the turns so far.
pub record Known (past : List Turn) (w : Watch) : Type 0 where
  pub up_end : w.up_done ≡ true → Occurs (λ r. r.event ≡ received up eof) past
  pub down_end : w.down_done ≡ true → Occurs (λ r. r.event ≡ received down eof) past
  pub armed : (n : ℕ) → w.half_close_since ≡ some n → IsArmed n past

Mem-front : (r : Turn) (xs ys : List Turn) → Memᴰ r xs → Memᴰ r (xs ++ ys)
Mem-front r [] ys m = elim m [ ]
Mem-front r (x ∷ xs) ys (Memᴰ.head e) = Memᴰ.head e
Mem-front r (x ∷ xs) ys (Memᴰ.tail m) = Memᴰ.tail (Mem-front r xs ys m)

pub Mem-behind : (r : Turn) (xs ys : List Turn) → Memᴰ r (xs ++ r ∷ ys)
Mem-behind r [] ys = Memᴰ.head refl
Mem-behind r (x ∷ xs) ys = Memᴰ.tail (Mem-behind r xs ys)

pub Occurs-front : (P : Turn → Type 0) (xs ys : List Turn) → Occurs P xs → Occurs P (xs ++ ys)
Occurs-front P xs ys (r, m, h) = (r, Mem-front r xs ys m, h)

pub split_again :
    (past before after ys : List Turn) (a : Turn)
    → past ≡ before ++ a ∷ after
    → past ++ ys ≡ before ++ a ∷ (after ++ ys)
split_again past before after ys a e = ap (λ xs. xs ++ ys) e ∙ append_assoc before (a ∷ after) ys

-- A clean end among the turns so far.
ended_dir :
    (past : List Turn) (w : Watch)
    → Known past w
    → (w.up_done || w.down_done) ≡ true
    → Occurs (λ a. (d : Dir) × (a.event ≡ received d eof)) past
ended_dir past w k one = elim (Bool-cases w.up_done) [
  | inl u ↦ let (a, n, e) = k.up_end u in (a, n, (up, e))
  | inr u ↦ let (a, n, e) = k.down_end (ground arith) in (a, n, (down, e))
]

-- What is known stays known.
Known-front : (past ys : List Turn) (w : Watch) → Known past w → Known (past ++ ys) w
Known-front past ys w k = record {
  up_end = λ u. Occurs-front _ past ys (k.up_end u);
  down_end = λ u. Occurs-front _ past ys (k.down_end u);
  armed = λ n u.
      let (before, after, a, e, ending, q) = k.armed n u in
      (before, after ++ ys, a, split_again past before after ys a e, ending, q);
}

check-same :
    (t : Timeouts) (w w' : Watch) (now last wake_ms : ℕ)
    → check t w now last ≡ wait w' wake_ms
    → (w'.up_done ≡ w.up_done)
      × (w'.down_done ≡ w.down_done)
      × ((w'.half_close_since ≡ w.half_close_since)
          ⊎ ((w'.half_close_since ≡ some now) × ((w.up_done || w.down_done) ≡ true)))
unfolding check
check-same t w w' now last wake_ms e = ground arith

pub check-Known :
    (t : Timeouts) (w w' : Watch) (past : List Turn) (r : Turn) (wake_ms : ℕ)
    → check t w r.now r.last ≡ wait w' wake_ms
    → Known past w
    → Known (past ++ r ∷ []) w'
check-Known t w w' past r wake_ms e k =
    let (same_up, same_down, since) = check-same t w w' r.now r.last wake_ms e in
    let v = Known-front past (r ∷ []) w k in
    record {
      up_end = λ u. v.up_end (sym same_up ∙ u);
      down_end = λ u. v.down_end (sym same_down ∙ u);
      armed = λ n u. elim since [
        | inl kept ↦ v.armed n (sym kept ∙ u)
        | inr (new, one) ↦ (past, [], r, refl, ended_dir past w k one, ground arith)
      ];
    }
