-- ===== src/Mutex.antt =====
-- kernel/mutex.c: the mutex, with the raw policy that kernel/config.h selects.
pub mod Waiters
pub mod Ownership
pub mod System
pub mod Exclusion
pub mod Safety
mod Tests
use la_os.Common.{
  ℕ, zero, suc, ◌+◌, ◌-◌, Bool, true, false, ◌==◌, ltb, if◌then◌else◌, Option, none, some, List, [],
  ◌∷◌, Outcome, ok, panic, ◌>>=◌, add64, sub64,
}
use la_os.Priority.{sched_prio_count, Threads, update, thread_priority_update_donation}

-- `struct mutex`, with the threads of its wait queue in their order and the queue's count.
pub record Mutex : Type 0 where
  pub locked : Bool
  pub owner : Option ℕ
  pub donated_priority : ℕ
  pub waiters : List ℕ
  pub count : ℕ

pub mutex_init : Mutex
mutex_init = record {
  locked = false;
  owner = none;
  donated_priority = sched_prio_count;
  waiters = [];
  count = 0;
}

-- A call under `waiters.lock`: the mutex and the threads after it.
abbrev pub Run : Type 0
Run = Outcome (Mutex × Threads)

-- `list_empty(&t->wait_node)` is its negation.
pub is_waiting : ℕ → List ℕ → Bool
is_waiting t [] = false
is_waiting t (u ∷ us) = if u == t then true else is_waiting t us

-- `__wake_up_one` on the queue of the mutex; the count is a 64-bit word.
pub wake_up_one : Mutex → Threads → Mutex × Threads
wake_up_one m th = elim m.waiters [
  | [] ↦ (m, th)
  | ◌∷◌ t ts ↦ (
    record m { waiters = ts; count = sub64 m.count 1 },
    record th { blocked = update th.blocked t false },
  )
]

-- The priority of the first waiter.
abbrev pub first_priority : Threads → List ℕ → ℕ
first_priority th [] = sched_prio_count
first_priority th (t ∷ ts) = th.priority t

abbrev pub mutex_waiter_priority : Mutex → Threads → ℕ
mutex_waiter_priority m th = first_priority th m.waiters

-- The walk of `mutex_add_waiter_locked`.
pub insert_waiter : (priority : ℕ → ℕ) → ℕ → List ℕ → List ℕ
insert_waiter priority t [] = t ∷ []
insert_waiter priority t (u ∷ us) =
    if ltb (priority t) (priority u) then t ∷ u ∷ us else u ∷ insert_waiter priority t us

abbrev pub mutex_add_waiter : Mutex → Threads → ℕ → Mutex
mutex_add_waiter m th t = record m { waiters = insert_waiter th.priority t m.waiters }

-- `mutex_refresh_donation_locked` for the owner `owner`.
pub refresh_for : (owner : Option ℕ) → Mutex → Threads → Run
refresh_for none m th = ok (record m { donated_priority = sched_prio_count }, th)
refresh_for (some t) m th =
    let new = mutex_waiter_priority m th in
    if m.donated_priority == new
    then ok (m, th)
    else thread_priority_update_donation th t m.donated_priority new
      >>= (λ th'. ok (record m { donated_priority = new }, th'))

pub mutex_refresh_donation : Mutex → Threads → Run
mutex_refresh_donation m th = refresh_for m.owner m th

-- The warning about a previous owner is output only.
pub mutex_attach_owner : Mutex → Threads → ℕ → Run
mutex_attach_owner m th owner =
    mutex_refresh_donation (record m { donated_priority = sched_prio_count; owner = some owner }) th

-- The donation to the owner `owner` is taken back.
pub detach_for : (owner : Option ℕ) → Mutex → Threads → Outcome Threads
detach_for none m th = ok th
detach_for (some t) m th =
    if ltb m.donated_priority sched_prio_count
    then thread_priority_update_donation th t m.donated_priority sched_prio_count
    else ok th

pub mutex_detach_owner : Mutex → Threads → Run
mutex_detach_owner m th =
    detach_for m.owner m th
    >>= (λ th'. ok (record m { donated_priority = sched_prio_count; owner = none }, th'))

-- `mutex_lock_raw` where `waiters.lock` is held and the second try has failed, up to `schedule()`.
pub enqueue_current : Mutex → Threads → ℕ → Run
enqueue_current m th t =
    let th' : Threads = record th { blocked = update th.blocked t true } in
    let m' : Mutex = record (mutex_add_waiter m th' t) { count = add64 m.count 1 } in
    if is_waiting t m.waiters then ok (m, th) else mutex_refresh_donation m' th'

-- The section of `mutex_unlock_raw` under `waiters.lock`.
pub mutex_unlock_raw : Mutex → Threads → Run
mutex_unlock_raw m th =
    mutex_detach_owner m th >>= (λ r. ok (wake_up_one (record r.0 { locked = false }) r.1))
