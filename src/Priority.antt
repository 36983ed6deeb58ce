-- ===== src/Priority.antt =====
-- kernel/thread.c: the priorities of threads and their donations. A thread is a number, and the
-- fields of `struct thread` are functions of it.
pub mod Donation
use la_os.Common.{
  ℕ, zero, suc, ◌+◌, ◌-◌, Bool, true, false, ◌&&◌, ◌||◌, ◌==◌, ltb, if◌then◌else◌, Outcome, ok,
  panic, ◌>>=◌,
}

-- `SCHED_PRIO_COUNT`, which is `SCHED_PRIO_NONE` too.
abbrev pub sched_prio_count : ℕ
sched_prio_count = 64

-- `priority`, `base_priority`, `pi_donations` and whether `status` is `THREAD_BLOCKED`.
pub record Threads : Type 0 where
  pub priority : ℕ → ℕ
  pub base_priority : ℕ → ℕ
  pub pi_donations : ℕ → ℕ → ℕ
  pub blocked : ℕ → Bool

abbrev pub update {ℓ} : {A : Type ℓ} → (ℕ → A) → ℕ → A → ℕ → A
update f t a u = if u == t then a else f u

abbrev pub set_donation : (ℕ → ℕ → ℕ) → (t p n : ℕ) → ℕ → ℕ → ℕ
set_donation d t p n u q = if u == t && q == p then n else d u q

-- The loop of `thread_effective_priority`, at `i` with the rounds that are left.
unfoldable pub effective_loop : (rounds i : ℕ) → (donations : ℕ → ℕ) → (priority : ℕ) → ℕ
effective_loop zero i donations priority = priority
effective_loop (suc rounds) i donations priority =
    let rest = effective_loop rounds (i + 1) donations priority in
    if ltb 0 (donations i) then if ltb i priority then i else priority else rest

unfoldable pub thread_effective_priority : Threads → ℕ → ℕ
thread_effective_priority th t =
    effective_loop sched_prio_count 0 (th.pi_donations t) (th.base_priority t)

-- The field `priority` of `thread_apply_effective_priority`, whose old value has to be a priority.
unfoldable pub thread_apply_effective_priority : Threads → (t priority : ℕ) → Outcome Threads
thread_apply_effective_priority th t priority =
    if th.priority t == priority
    then ok th
    else if ltb (th.priority t) sched_prio_count
    then ok (record th { priority = update th.priority t priority })
    else panic

-- The two steps of `thread_priority_update_donation` on the counters.
unfoldable pub drop_donation : Threads → (t old : ℕ) → Outcome Threads
drop_donation th t old =
    if ltb old sched_prio_count
    then if th.pi_donations t old == 0
      then panic
      else ok (record th {
        pi_donations = set_donation th.pi_donations t old (th.pi_donations t old - 1);
      })
    else ok th

unfoldable pub add_donation : Threads → (t new : ℕ) → Outcome Threads
add_donation th t new =
    if ltb new sched_prio_count
    then if th.pi_donations t new == 0xffff
      then panic
      else ok (record th {
        pi_donations = set_donation th.pi_donations t new (th.pi_donations t new + 1);
      })
    else ok th

-- A null thread is left out, and so are negative priorities.
unfoldable pub thread_priority_update_donation : Threads → (t old new : ℕ) → Outcome Threads
thread_priority_update_donation th t old new =
    if ltb sched_prio_count old || ltb sched_prio_count new
    then panic
    else drop_donation th t old >>= (λ dropped.
      add_donation dropped t new
      >>= (λ added. thread_apply_effective_priority added t (thread_effective_priority added t)))
