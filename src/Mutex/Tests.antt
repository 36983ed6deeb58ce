-- ===== src/Mutex/Tests.antt =====
-- kernel/mutex.c at concrete runs: thread 1 takes the lock, then 2 and 3 queue for it.
use la_os.Common.{
  ℕ, ◌≡◌, refl, Bool, true, false, ◌==◌, if◌then◌else◌, List, [], ◌∷◌, Outcome, ok, panic, ◌⊎◌,
  arith, inl, inr,
}
use la_os.Priority.{
  effective_loop, thread_effective_priority, thread_apply_effective_priority, drop_donation,
  add_donation, thread_priority_update_donation,
}
use la_os.Mutex.{
  mutex_init, is_waiting, insert_waiter, wake_up_one, refresh_for, mutex_refresh_donation,
  mutex_attach_owner, detach_for, mutex_detach_owner, enqueue_current, mutex_unlock_raw,
}
use la_os.Mutex.Waiters.{IsPlaced, insert_waiter-IsPlaced}
use la_os.Mutex.System.{
  Pc, outside, entering, attaching, slow, asleep, inside, System, call, try_win, try_lose, attach,
  wait, wake, unlock, Reach, start, later,
}
use la_os.Mutex.Exclusion.{Contends}
use la_os.Mutex.Safety.{mutual_exclusion, no_lost_wakeup, Returns, section_at, sections_return}

-- A state that is reached.
record Trace : Type 0 where
  last : System
  reach : Reach last

outcome : {A : Type 0} (o : Outcome A) → ((a : A) × (o ≡ ok a)) ⊎ (o ≡ panic)
outcome (ok a) = inl (a, refl)
outcome panic = inr refl

verdict : (b : Bool) → (b ≡ true) ⊎ (b ≡ false)
verdict true = inl refl
verdict false = inr refl

-- The next step of thread `t`; a thread that is asleep and blocked stays where it is.
turn_at : (r : Trace) (t : ℕ) (p : Pc) → r.last.pc t ≡ p → Trace
turn_at r t outside e = record { last = _; reach = later r.reach (call t e) }
turn_at r t entering e = elim (verdict r.last.m.locked) [
  | inl shut ↦ record { last = _; reach = later r.reach (try_lose t e shut) }
  | inr open_lock ↦ record { last = _; reach = later r.reach (try_win t e open_lock) }
]
turn_at r t attaching e = elim (outcome (mutex_attach_owner r.last.m r.last.th t)) [
  | inl ((m', th'), done) ↦ record { last = _; reach = later r.reach (attach t m' th' e done) }
  | inr failed ↦ r
]
turn_at r t slow e = elim (verdict r.last.m.locked) [
  | inl shut ↦ elim (outcome (enqueue_current r.last.m r.last.th t)) [
    | inl ((m', th'), done) ↦ record { last = _; reach = later r.reach (wait t m' th' e shut done) }
    | inr failed ↦ r
  ]
  | inr open_lock ↦ r
]
turn_at r t asleep e = elim (verdict (r.last.th.blocked t)) [
  | inl blocked ↦ r
  | inr running ↦ record { last = _; reach = later r.reach (wake t e running) }
]
turn_at r t inside e = elim (outcome (mutex_unlock_raw r.last.m r.last.th)) [
  | inl ((m', th'), done) ↦ record { last = _; reach = later r.reach (unlock t m' th' e done) }
  | inr failed ↦ r
]

turns : Trace → List ℕ → Trace
turns r [] = r
turns r (t ∷ ts) = turns (turn_at r t (r.last.pc t) refl) ts

-- Thread 3 has a higher priority than all others.
abbrev base : ℕ → ℕ
base t = if t == 3 then 10 else 32

abbrev begin : System
begin = record {
  m = mutex_init;
  th = record {
    priority = base;
    base_priority = base;
    pi_donations = λ t p. 0;
    blocked = λ t. false;
  };
  pc = λ t. outside;
}

begun : Trace
begun = record {
  last = begin;
  reach = start begin (record {
    m = refl;
    donations = record {
      counted = λ u q lt. ground arith;
      base = λ u. ground arith;
      priority = λ u. ground arith;
    };
    running = λ t. refl;
    pc = λ t. refl;
  });
}

-- Thread 1 is inside, 2 and 3 are in the queue, 3 in front of 2.
queue_of_two : Trace
unfolding turns begun
queue_of_two = turns begun (1 ∷ 1 ∷ 1 ∷ 2 ∷ 2 ∷ 2 ∷ 3 ∷ 3 ∷ 3 ∷ [])

-- Thread 1 has unlocked, and 3 is woken.
one_woken : Trace
unfolding turns begun
one_woken = turns begun (1 ∷ 1 ∷ 1 ∷ 2 ∷ 2 ∷ 2 ∷ 3 ∷ 3 ∷ 3 ∷ 1 ∷ [])

-- Thread 3 stands in front, and thread 1 runs at its priority.
queue_order : (queue_of_two.last.m.waiters ≡ 3 ∷ 2 ∷ []) × (queue_of_two.last.th.priority 1 ≡ 10)
unfolding queue_of_two turns turn_at verdict outcome begun mutex_init mutex_attach_owner
    mutex_refresh_donation refresh_for enqueue_current is_waiting insert_waiter
    thread_priority_update_donation drop_donation add_donation thread_apply_effective_priority
    thread_effective_priority effective_loop
queue_order = (refl, refl)

-- Thread 1 has its own priority again.
woken : (one_woken.last.m.waiters ≡ 2 ∷ []) × (one_woken.last.th.priority 1 ≡ 32)
unfolding one_woken mutex_unlock_raw mutex_detach_owner detach_for wake_up_one turns turn_at verdict
    outcome begun mutex_init mutex_attach_owner mutex_refresh_donation refresh_for enqueue_current
    is_waiting insert_waiter thread_priority_update_donation drop_donation add_donation
    thread_apply_effective_priority thread_effective_priority effective_loop
woken = (refl, refl)

mutual_exclusion_example : ◌≡◌ {A = ℕ} 1 1
unfolding queue_of_two turns turn_at verdict outcome begun mutex_init mutex_attach_owner
    mutex_refresh_donation refresh_for enqueue_current is_waiting insert_waiter
    thread_priority_update_donation drop_donation add_donation thread_apply_effective_priority
    thread_effective_priority effective_loop
mutual_exclusion_example = mutual_exclusion queue_of_two.reach 1 1 refl refl

no_lost_wakeup_example : (u : ℕ) × Contends one_woken.last u
unfolding one_woken mutex_unlock_raw mutex_detach_owner detach_for wake_up_one turns turn_at verdict
    outcome begun mutex_init mutex_attach_owner mutex_refresh_donation refresh_for enqueue_current
    is_waiting insert_waiter thread_priority_update_donation drop_donation add_donation
    thread_apply_effective_priority thread_effective_priority effective_loop
no_lost_wakeup_example = no_lost_wakeup one_woken.reach 2 refl refl

sections_return_example : Returns (section_at (one_woken.last.pc 3) one_woken.last 3)
sections_return_example = sections_return one_woken.reach 3

insert_waiter-IsPlaced_example : IsPlaced base 4 (3 ∷ 2 ∷ []) (insert_waiter base 4 (3 ∷ 2 ∷ []))
insert_waiter-IsPlaced_example = insert_waiter-IsPlaced base 4 (3 ∷ 2 ∷ [])
