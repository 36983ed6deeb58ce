-- ===== src/Mutex/System.antt =====
-- Any number of threads that lock and unlock one mutex of kernel/mutex.c, interleaved in any order.
-- What runs under `waiters.lock` is one step, and so is a compare-and-exchange.
use la_os.Common.{ℕ, ◌≡◌, true, false, ok}
use la_os.Priority.{sched_prio_count, Threads, update}
use la_os.Priority.Donation.{OnlyDonation}
use la_os.Mutex.{Mutex, mutex_init, mutex_attach_owner, enqueue_current, mutex_unlock_raw}

-- Where a thread stands: in no call, before the first try of `mutex_lock_raw`, behind a first try
-- that has succeeded or failed, in `schedule()`, or between locking and unlocking.
pub data Pc : Type 0 where
  outside : Pc
  entering : Pc
  attaching : Pc
  slow : Pc
  asleep : Pc
  inside : Pc

pub record System : Type 0 where
  pub m : Mutex
  pub th : Threads
  pub pc : ℕ → Pc

abbrev pub moved : System → ℕ → Pc → System
moved s t p = record s { pc = update s.pc t p }

abbrev pub set_locked : Mutex → Mutex
set_locked m = record m { locked = true }

pub data Step (s : System) : System → Type 0 where
  call : (t : ℕ) → s.pc t ≡ outside → Step s (moved s t entering)
  try_win :
      (t : ℕ)
      → s.pc t ≡ entering
      → s.m.locked ≡ false
      → Step s (record s { m = set_locked s.m; pc = update s.pc t attaching })
  try_lose : (t : ℕ) → s.pc t ≡ entering → s.m.locked ≡ true → Step s (moved s t slow)
  attach :
      (t : ℕ) (m' : Mutex) (th' : Threads)
      → s.pc t ≡ attaching
      → mutex_attach_owner s.m s.th t ≡ ok (m', th')
      → Step s (record { m = m'; th = th'; pc = update s.pc t inside })
  second_win :
      (t : ℕ) (m' : Mutex) (th' : Threads)
      → s.pc t ≡ slow
      → s.m.locked ≡ false
      → mutex_attach_owner (set_locked s.m) s.th t ≡ ok (m', th')
      → Step s (record { m = m'; th = th'; pc = update s.pc t inside })
  wait :
      (t : ℕ) (m' : Mutex) (th' : Threads)
      → s.pc t ≡ slow
      → s.m.locked ≡ true
      → enqueue_current s.m s.th t ≡ ok (m', th')
      → Step s (record { m = m'; th = th'; pc = update s.pc t asleep })
  wake : (t : ℕ) → s.pc t ≡ asleep → s.th.blocked t ≡ false → Step s (moved s t entering)
  unlock :
      (t : ℕ) (m' : Mutex) (th' : Threads)
      → s.pc t ≡ inside
      → mutex_unlock_raw s.m s.th ≡ ok (m', th')
      → Step s (record { m = m'; th = th'; pc = update s.pc t outside })

-- After `mutex_init`, with no donation and no blocked thread.
pub record IsStart (s : System) : Type 0 where
  pub m : s.m ≡ mutex_init
  pub donations : OnlyDonation s.th 0 sched_prio_count
  pub running : (t : ℕ) → s.th.blocked t ≡ false
  pub pc : (t : ℕ) → s.pc t ≡ outside

pub data Reach : System → Type 0 where
  start : (s : System) → IsStart s → Reach s
  later : {s s' : System} → Reach s → Step s s' → Reach s'
