-- ===== src/Mutex/Safety.antt =====
-- The promises of the mutex of kernel/mutex.c, in every reachable state.
use la_os.Common.{
  ℕ, ◌≡◌, refl, subst, true, false, if◌then◌else◌, ok, arith, Bool-cases, inl, inr, ◌∙◌, if-true,
  if-false,
}
use la_os.Priority.{Threads}
use la_os.Mutex.{
  Mutex, Run, is_waiting, wake_up_one, mutex_attach_owner, enqueue_current, mutex_unlock_raw,
}
use la_os.Mutex.Ownership.{
  Donated, mutex_attach_owner-Donated, mutex_unlock_raw-Donated, enqueue_current-Donated, released,
}
use la_os.Mutex.System.{
  Pc, outside, entering, attaching, slow, asleep, inside, System, set_locked, Reach,
}
use la_os.Mutex.Exclusion.{holds, Contends, Inv, Reach-Inv, no_owner, awake, open-lock_free}

-- In every reachable state at most one thread holds the lock, from its successful
-- compare-and-exchange to its unlocking.
pub mutual_exclusion :
    {s : System} → Reach s → (t u : ℕ) → holds (s.pc t) ≡ true → holds (s.pc u) ≡ true → t ≡ u
mutual_exclusion r t u h h' = (Reach-Inv r).exclusive t u h h'

-- No wake-up is lost: in every reachable state where a thread waits in the queue and the lock is
-- open, some thread that is not blocked is about to try to take the lock.
pub no_lost_wakeup :
    {s : System}
    → Reach s
    → (t : ℕ) → is_waiting t s.m.waiters ≡ true
    → s.m.locked ≡ false
    → (u : ℕ) × Contends s u
no_lost_wakeup r t w open_lock = (Reach-Inv r).contended t w open_lock

-- The call under `waiters.lock` that a thread at `p` makes next.
pub section_at : Pc → System → ℕ → Run
section_at outside s t = ok (s.m, s.th)
section_at entering s t = ok (s.m, s.th)
section_at attaching s t = mutex_attach_owner s.m s.th t
section_at slow s t =
    if s.m.locked then enqueue_current s.m s.th t else mutex_attach_owner (set_locked s.m) s.th t
section_at asleep s t = ok (s.m, s.th)
section_at inside s t = mutex_unlock_raw s.m s.th

abbrev pub Returns : Run → Type 0
Returns call = (r : Mutex × Threads) × (call ≡ ok r)

section-Returns : (p : Pc) (s : System) (t : ℕ) → s.pc t ≡ p → Inv s → Returns (section_at p s t)
unfolding section_at
section-Returns outside s t here v = (_, refl)
section-Returns entering s t here v = (_, refl)
section-Returns attaching s t here v =
    let only = no_owner s (λ u o. ground (arith, v.owner_inside u o, v.exclusive u t)) v in
    let (m', th', done, d, k) = mutex_attach_owner-Donated t s.m s.th only in ((m', th'), done)
section-Returns slow s t here v = elim (Bool-cases s.m.locked) [
  | inl shut ↦
      let (m', th', done, d, k) =
        enqueue_current-Donated t s.m s.th (awake s t v (λ z. cc)) v.donated in
      (
        (m', th'),
        if-true s.m.locked (enqueue_current s.m s.th t) (mutex_attach_owner (set_locked s.m) s.th t)
              shut
            ∙ done,
      )
  | inr open_lock ↦
      let only = no_owner s (open-lock_free s open_lock v) v in
      let (m', th', done, d, k) = mutex_attach_owner-Donated t (set_locked s.m) s.th only in
      (
        (m', th'),
        if-false s.m.locked (enqueue_current s.m s.th t)
              (mutex_attach_owner (set_locked s.m) s.th t) open_lock
            ∙ done,
      )
]
section-Returns asleep s t here v = (_, refl)
section-Returns inside s t here v =
    let (th', done, only, b) =
      mutex_unlock_raw-Donated t s.m s.th (v.owned t here)
        (subst (λ o. Donated o s.m s.th) (v.owned t here) v.donated) in
    (wake_up_one (released s.m) th', done)

-- In every reachable state the call under `waiters.lock` that a thread makes next returns: no
-- donation is missing or overflows, and every priority is one of the 64.
pub sections_return : {s : System} → Reach s → (t : ℕ) → Returns (section_at (s.pc t) s t)
sections_return {s} r t = section-Returns (s.pc t) s t refl (Reach-Inv r)
