-- ===== src/Sched/Pick.antt =====
-- What `pick_next` of kernel/sched.c picks.
use la_os.Common.{
  ℕ, zero, suc, ◌+◌, ◌%◌, ◌^◌, ◌≤◌, ◌<◌, ◌≡◌, ◌≢◌, inl, inr, refl, sym, ap, subst, ◌∙◌, Bool, true,
  false, not, ◌&&◌, ◌==◌, ltb, Option, none, some, List, [], ◌∷◌, ◌++◌, arith, Bool-cases, if-both,
  split_and,
}
use la_os.Sched.{
  Status, running, Runqueue, Threads, Cpu, is_empty, is_running, runnable, first_runnable, scan,
  priorities, runs_on, choose, pick_next,
}

-- No thread of the list can run.
abbrev pub NoneRuns : Threads → (now : ℕ) → List ℕ → Type 0
NoneRuns th now [] = Unit {0}
NoneRuns th now (t ∷ ts) = (runnable th now t ≡ false) × NoneRuns th now ts

-- The thread `t` can run, and none in front of it in the list can.
pub record IsFirst (th : Threads) (now t : ℕ) (ts : List ℕ) : Type 0 where
  pub before : List ℕ
  pub after : List ℕ
  pub split : ts ≡ before ++ t ∷ after
  pub blocked_before : NoneRuns th now before
  pub can_run : runnable th now t ≡ true

-- A priority's bit is set exactly where its list has a thread.
abbrev pub IsLinked : Runqueue → Type 0
IsLinked rq = (prio : ℕ) → rq.bitmap prio ≡ not (is_empty (rq.heads prio))

pub data IsSearched (th : Threads) (now : ℕ) : List ℕ → Option ℕ → Type 0 where
  missed : {ts : List ℕ} → NoneRuns th now ts → IsSearched th now ts none
  met : {ts : List ℕ} {t : ℕ} → IsFirst th now t ts → IsSearched th now ts (some t)

IsSearched-cons :
    (th : Threads) (now u : ℕ) (ts : List ℕ) (r : Option ℕ)
    → runnable th now u ≡ false
    → IsSearched th now ts r
    → IsSearched th now (u ∷ ts) r
IsSearched-cons th now u ts r stuck (missed none_runs) = missed (stuck, none_runs)
IsSearched-cons th now u ts r stuck (met first) = met (record {
  before = u ∷ first.before;
  after = first.after;
  split = ap (λ us. u ∷ us) first.split;
  blocked_before = (stuck, first.blocked_before);
  can_run = first.can_run;
})

first_runnable-IsSearched :
    (th : Threads) (now : ℕ) (ts : List ℕ) → IsSearched th now ts (first_runnable th now ts)
unfolding first_runnable
first_runnable-IsSearched th now [] = missed tt
first_runnable-IsSearched th now (t ∷ ts) =
    if-both (IsSearched th now (t ∷ ts)) (runnable th now t) (some t) (first_runnable th now ts)
      (λ runs.
        met (record { before = []; after = ts; split = refl; blocked_before = tt; can_run = runs }))
      (λ stuck.
        IsSearched-cons th now t ts (first_runnable th now ts) stuck
          (first_runnable-IsSearched th now ts))

-- None of the priorities from `lo` up to `hi` has a thread that can run.
abbrev pub NoneIn : Runqueue → Threads → (now lo hi : ℕ) → Type 0
NoneIn rq th now lo hi = (p : ℕ) → lo ≤ p → p < hi → NoneRuns th now (rq.heads p)

-- The candidate of the priorities from `lo` up to `hi`: the first of the highest priority.
pub data IsFound (rq : Runqueue) (th : Threads) (now lo hi : ℕ) : Option (ℕ × ℕ) → Type 0 where
  nothing : NoneIn rq th now lo hi → IsFound rq th now lo hi none
  found :
      {t prio : ℕ}
      → lo ≤ prio
      → prio < hi
      → IsFirst th now t (rq.heads prio)
      → NoneIn rq th now lo prio
      → IsFound rq th now lo hi (some (t, prio))

module _ (rq : Runqueue) (th : Threads) (now : ℕ) where
  NoneIn-step :
      (lo hi : ℕ)
      → NoneRuns th now (rq.heads lo)
      → NoneIn rq th now (lo + 1) hi
      → NoneIn rq th now lo hi
  NoneIn-step lo hi here there p ge lt = elim (Bool-cases (p == lo)) [
    | inl eq ↦ subst (λ q. NoneRuns th now (rq.heads q)) (ground (arith, eq)) here
    | inr ne ↦ there p (ground (arith, ne)) lt
  ]

  IsFound-step :
      (lo hi : ℕ) (r : Option (ℕ × ℕ))
      → NoneRuns th now (rq.heads lo)
      → IsFound rq th now (lo + 1) hi r
      → IsFound rq th now lo hi r
  IsFound-step lo hi r here (nothing none_in) = nothing (NoneIn-step lo hi here none_in)
  IsFound-step lo hi r here (found ge lt first none_in) =
      found (omega (arith, ge)) lt first (NoneIn-step lo _ here none_in)

  empty-NoneRuns : (ts : List ℕ) → false ≡ not (is_empty ts) → NoneRuns th now ts
  empty-NoneRuns [] e = tt
  empty-NoneRuns (t ∷ ts) e = cc

  scan_here-IsFound :
      (lo hi : ℕ) (here : Option ℕ) (rest : Option (ℕ × ℕ))
      → lo < hi
      → IsSearched th now (rq.heads lo) here
      → IsFound rq th now (lo + 1) hi rest
      → IsFound rq th now lo hi (elim here [ some t ↦ some (t, lo) | none ↦ rest ])
  scan_here-IsFound lo hi none rest lt (missed none_runs) after =
      IsFound-step lo hi rest none_runs after
  scan_here-IsFound lo hi (some t) rest lt (met first) after =
      found (omega arith) lt first (λ p ge below. ground arith)

  scan-IsFound :
      (bits lo hi : ℕ)
      → hi ≡ lo + bits
      → IsLinked rq
      → IsFound rq th now lo hi (scan bits lo rq th now)
  unfolding scan
  scan-IsFound zero lo hi bound linked = nothing (λ p ge lt. ground arith)
  scan-IsFound (suc bits) lo hi bound linked =
      let after = scan-IsFound bits (lo + 1) hi (omega (arith, bound)) linked in
      if-both (IsFound rq th now lo hi) (rq.bitmap lo) _ (scan bits (lo + 1) rq th now)
        (λ on.
          scan_here-IsFound lo hi (first_runnable th now (rq.heads lo))
            (scan bits (lo + 1) rq th now) (omega (arith, bound))
            (first_runnable-IsSearched th now (rq.heads lo)) after)
        (λ off.
          IsFound-step lo hi (scan bits (lo + 1) rq th now)
            (empty-NoneRuns (rq.heads lo) (sym off ∙ linked lo)) after)

-- What runs next on the CPU `c`.
pub data IsPicked (c : Cpu) : ℕ → Type 0 where
  -- The current thread runs on: each thread of its priority or a higher one cannot run.
  same :
      c.current ≢ c.idle
      → c.threads.status c.current ≡ running
      → ((p : ℕ)
          → p < priorities
          → p ≤ c.threads.priority c.current
          → NoneRuns c.threads c.now (c.runqueue.heads p))
      → IsPicked c c.current
  -- The first thread that can run of the highest priority that has one.
  first :
      {t prio : ℕ}
      → prio < priorities
      → IsFirst c.threads c.now t (c.runqueue.heads prio)
      → NoneIn c.runqueue c.threads c.now 0 prio
      → (c.current ≢ c.idle
          → c.threads.status c.current ≡ running
          → prio ≤ c.threads.priority c.current)
      → IsPicked c t
  -- The idle thread, where no thread can run.
  idle :
      NoneIn c.runqueue c.threads c.now 0 priorities
      → (c.threads.status c.current ≡ running → c.current ≡ c.idle)
      → IsPicked c c.idle

is_running-running : (s : Status) → is_running s ≡ true → s ≡ running
is_running-running running e = refl
is_running-running Status.ready e = cc
is_running-running Status.blocked e = cc
is_running-running Status.sleeping e = cc
is_running-running Status.zombie e = cc
is_running-running Status.exited e = cc

running-is_running : (s : Status) → s ≡ running → is_running s ≡ true
running-is_running s e = ap is_running e

and-false-right : (a b : Bool) → (a && b) ≡ false → a ≡ true → b ≡ false
and-false-right true b e on = e
and-false-right false b e on = cc

pub and-false-left : (a b : Bool) → (a && b) ≡ false → b ≡ true → a ≡ false
and-false-left true b e on = cc
and-false-left false b e on = refl

module _ (c : Cpu) where
  abbrev runs_now : Bool
  runs_now = not (c.current == c.idle) && is_running (c.threads.status c.current)

  runs_now-true : runs_now ≡ true → (c.current ≢ c.idle) × (c.threads.status c.current ≡ running)
  runs_now-true on =
      let (away, runs) = split_and (not (c.current == c.idle)) _ on in
      ((λ e. ground (arith, away, e)), is_running-running _ runs)

  runs_now-away : c.current ≢ c.idle → c.threads.status c.current ≡ running → runs_now ≡ true
  runs_now-away away runs = elim (Bool-cases (c.current == c.idle)) [
    | inl e ↦ absurd (away (ground (arith, e)))
    | inr e ↦
        subst (λ b. (not b && is_running (c.threads.status c.current)) ≡ true) (sym e)
          (running-is_running _ runs)
  ]

  runs_now-idle : runs_now ≡ false → c.threads.status c.current ≡ running → c.current ≡ c.idle
  runs_now-idle off runs =
      let at_idle = and-false-left (not (c.current == c.idle)) _ off (running-is_running _ runs) in
      ground (arith, at_idle)

  first_below :
      (prio : ℕ)
      → (runs_now && ltb (c.threads.priority c.current) prio) ≡ false
      → c.current ≢ c.idle
      → c.threads.status c.current ≡ running
      → prio ≤ c.threads.priority c.current
  first_below prio off away runs =
      let not_lower = and-false-right runs_now _ off (runs_now-away away runs) in
      ground (arith, not_lower)

  choose-IsPicked :
      (r : Option (ℕ × ℕ))
      → IsFound c.runqueue c.threads c.now 0 priorities r
      → IsPicked c ((choose c r).0)
  choose-IsPicked none (nothing none_in) =
      if-both (IsPicked c) (runs_on c none) c.current c.idle
        (λ on.
          let (away, runs) = runs_now-true on in
          same away runs (λ p lt le. none_in p (omega arith) lt))
        (λ off. idle none_in (runs_now-idle off))
  choose-IsPicked (some (t, prio)) (found ge lt here none_in) =
      let picked = λ (off : runs_on c (some (t, prio)) ≡ false).
        first lt here none_in (first_below prio off) in
      if-both (λ (r : ℕ × Runqueue). IsPicked c r.0) (runs_on c (some (t, prio)))
        (c.current, c.runqueue) _
        (λ on.
          let (now_on, lower) = split_and runs_now _ on in
          let (away, runs) = runs_now-true now_on in
          same away runs (λ p in_range le. none_in p (omega arith) (ground (arith, lower))))
        (λ off.
          if-both (λ (r : ℕ × Runqueue). IsPicked c r.0) (t == c.current) (t, c.runqueue) _
            (λ self. picked off) (λ other. picked off))

-- Where the run queue counts a thread and its bits tell its lists that are not empty, `pick_next`
-- picks the first thread that can run of the highest priority that has one; but a current thread
-- that is running and not idle runs on where all others that can run have a lower priority, and
-- the idle thread is picked where no thread can run.
pub pick_next-IsPicked :
    (c : Cpu) → IsLinked c.runqueue → c.runqueue.count % 2 ^ 32 ≢ 0 → IsPicked c ((pick_next c).0)
unfolding pick_next
pick_next-IsPicked c linked counted =
    if-both (λ (r : ℕ × Cpu). IsPicked c r.0) (c.runqueue.count % 2 ^ 32 == 0) (c.idle, c) _
      (λ none_counted. absurd (counted (ground (arith, none_counted))))
      (λ some_counted.
        choose-IsPicked c _
          (scan-IsFound c.runqueue c.threads c.now priorities 0 priorities refl linked))
