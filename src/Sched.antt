-- ===== src/Sched.antt =====
-- kernel/sched.c, with the run queues of kernel/arch/x86_64/cpu.c: what one CPU runs next. A
-- thread is a number.
pub mod Pick
pub mod Schedule
mod Tests
use la_os.Common.{
  ℕ, zero, suc, ◌+◌, ◌%◌, ◌^◌, Bool, true, false, not, ◌&&◌, ◌||◌, ◌==◌, ltb, leb, if◌then◌else◌,
  Option, none, some, List, [], ◌∷◌, ◌++◌, Outcome, ok, panic, add64, sub64,
}

-- `thread_status_t`.
pub data Status : Type 0 where
  ready : Status
  running : Status
  blocked : Status
  sleeping : Status
  zombie : Status
  exited : Status

abbrev pub is_running : Status → Bool
is_running running = true
is_running ready = false
is_running blocked = false
is_running sleeping = false
is_running zombie = false
is_running exited = false

abbrev pub is_zombie : Status → Bool
is_zombie zombie = true
is_zombie running = false
is_zombie ready = false
is_zombie blocked = false
is_zombie sleeping = false
is_zombie exited = false

-- `SCHED_PRIO_COUNT`.
abbrev pub priorities : ℕ
priorities = 64

-- `runqueue_t`: `heads` are the lists from their heads, and `bitmap` the bits of `bitmap[0]`.
pub record Runqueue : Type 0 where
  pub heads : ℕ → List ℕ
  pub bitmap : ℕ → Bool
  pub count : ℕ

abbrev pub update {ℓ} : {A : Type ℓ} → (ℕ → A) → ℕ → A → ℕ → A
update f t a u = if u == t then a else f u

abbrev pub is_empty : List ℕ → Bool
is_empty [] = true
is_empty (t ∷ ts) = false

-- `list_del` of a thread that is in the list.
pub remove : ℕ → List ℕ → List ℕ
remove t [] = []
remove t (u ∷ us) = if u == t then us else u ∷ remove t us

-- `list_del`, and the bit of an empty list is cleared.
abbrev pub unlink : Runqueue → (prio t : ℕ) → Runqueue
unlink rq prio t = record rq {
  heads = update rq.heads prio (remove t (rq.heads prio));
  bitmap = update rq.bitmap prio (rq.bitmap prio && not (is_empty (remove t (rq.heads prio))));
}

-- `list_add_tail`, and the bit is set.
abbrev pub link_tail : Runqueue → (prio t : ℕ) → Runqueue
link_tail rq prio t = record rq {
  heads = update rq.heads prio (rq.heads prio ++ (t ∷ []));
  bitmap = update rq.bitmap prio true;
}

-- `list_add`, and the bit is set.
abbrev pub link : Runqueue → (prio t : ℕ) → Runqueue
link rq prio t = record rq {
  heads = update rq.heads prio (t ∷ rq.heads prio);
  bitmap = update rq.bitmap prio true;
}

-- `runqueue_enqueue_raw` and `runqueue_enqueue_tail_raw`.
abbrev pub runqueue_enqueue : Runqueue → (prio t : ℕ) → Runqueue
runqueue_enqueue rq prio t = record (link rq prio t) { count = add64 rq.count 1 }

abbrev pub runqueue_enqueue_tail : Runqueue → (prio t : ℕ) → Runqueue
runqueue_enqueue_tail rq prio t = record (link_tail rq prio t) { count = add64 rq.count 1 }

-- The fields of the threads that the scheduler uses.
pub record Threads : Type 0 where
  pub status : ℕ → Status
  pub priority : ℕ → ℕ
  pub wakeup_ticks : ℕ → ℕ
  pub ticks : ℕ → ℕ

-- `struct cpu_context`, and `g_ticks` as `now`.
pub record Cpu : Type 0 where
  pub preempt_count : ℕ
  pub need_resched : Bool
  pub current : ℕ
  pub idle : ℕ
  pub runqueue : Runqueue
  pub zombiequeue : Runqueue
  pub threads : Threads
  pub now : ℕ

-- The two tests of the loop of `pick_next`.
abbrev pub runnable_as : Status → (wakeup now : ℕ) → Bool
runnable_as ready wakeup now = true
runnable_as sleeping wakeup now = leb wakeup now
runnable_as running wakeup now = false
runnable_as blocked wakeup now = false
runnable_as zombie wakeup now = false
runnable_as exited wakeup now = false

abbrev pub runnable : Threads → (now t : ℕ) → Bool
runnable th now t = runnable_as (th.status t) (th.wakeup_ticks t) now

-- The inner loop of `pick_next`.
pub first_runnable : Threads → (now : ℕ) → List ℕ → Option ℕ
first_runnable th now [] = none
first_runnable th now (t ∷ ts) = if runnable th now t then some t else first_runnable th now ts

-- The outer loop of `pick_next`: `__builtin_ctzll` takes the bits that are set in ascending order,
-- so that each of them is met once on the way from bit `prio` up.
pub scan : (bits prio : ℕ) → Runqueue → Threads → (now : ℕ) → Option (ℕ × ℕ)
scan zero prio rq th now = none
scan (suc bits) prio rq th now =
    let rest = scan bits (prio + 1) rq th now in
    if rq.bitmap prio
    then elim (first_runnable th now (rq.heads prio)) [ some t ↦ some (t, prio) | none ↦ rest ]
    else rest

-- `prev` runs on, for a candidate of the priority `found_prio`, or none.
abbrev pub runs_on : Cpu → (candidate : Option (ℕ × ℕ)) → Bool
runs_on c none = not (c.current == c.idle) && is_running (c.threads.status c.current)
runs_on c (some (t, found_prio)) =
    not (c.current == c.idle)
    && is_running (c.threads.status c.current)
    && ltb (c.threads.priority c.current) found_prio

-- The thread that is picked, with the run queue after it: a candidate goes to the tail of its list.
abbrev pub choose : Cpu → (candidate : Option (ℕ × ℕ)) → ℕ × Runqueue
choose c none = (if runs_on c none then c.current else c.idle, c.runqueue)
choose c (some (t, prio)) =
    if runs_on c (some (t, prio))
    then (c.current, c.runqueue)
    else if t == c.current
    then (t, c.runqueue)
    else (t, link_tail (unlink c.runqueue prio t) prio t)

-- The states of `prev` and `next` at the end of `pick_next`.
abbrev pub hand_over : Threads → (prev next : ℕ) → Threads
hand_over th prev next =
    let started = update th.status next running in
    record th {
      status =
          update started prev
            (if not (prev == next) && is_running (started prev) then ready else started prev);
      ticks = update th.ticks prev (add64 (th.ticks prev) 1);
    }

pub pick_next : Cpu → ℕ × Cpu
pick_next c =
    let (next, rq) = choose c (scan priorities 0 c.runqueue c.threads c.now) in
    if c.runqueue.count % 2 ^ 32 == 0
    then (c.idle, c)
    else (next, record c { runqueue = rq; threads = hand_over c.threads c.current next })

-- A zombie moves from the run queue to the zombie queue.
abbrev pub bury : Cpu → Cpu
bury c =
    let prio = c.threads.priority c.current in
    record c {
      runqueue = record (unlink c.runqueue prio c.current) { count = sub64 c.runqueue.count 1 };
      zombiequeue = runqueue_enqueue c.zombiequeue prio c.current;
    }

-- `count <= ZOMBIE_MAX`, where `ZOMBIE_MAX` is 0 and the count is signed.
abbrev pub within_max : (count : ℕ) → Bool
within_max count = count == 0 || leb (2 ^ 63) count

-- `none` is `NULL`.
pub sched_idle_zombie : Cpu → Option ℕ × Cpu
sched_idle_zombie c =
    let c' = if is_zombie (c.threads.status c.current) then bury c else c in
    (if within_max c'.zombiequeue.count then none else some c.idle, c')

-- The thread that runs next, and the CPU as `sched_idle_zombie` and `pick_next` leave it.
pub next_thread : Cpu → ℕ × Cpu
next_thread c =
    let (for_zombie, c') = sched_idle_zombie c in
    elim for_zombie [ some t ↦ (t, c') | none ↦ pick_next c' ]

-- `__schedule` without the switch of stacks and page tables; `panic` is a voluntary call with
-- preemption disabled.
pub schedule : (preemptive : Bool) → Cpu → Outcome Cpu
schedule preemptive c =
    let (next, c') = next_thread (record c { need_resched = false }) in
    if not (c.preempt_count == 0)
    then if preemptive then ok c else panic
    else ok (record c' { current = next })
