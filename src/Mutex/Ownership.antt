-- ===== src/Mutex/Ownership.antt =====
-- The owner of the mutex of kernel/mutex.c and the donation that it is given.
use la_os.Common.{
  ℕ, ◌≤◌, ◌<◌, ◌≡◌, ◌∙◌, refl, ap, subst, true, false, ◌==◌, ltb, Option, none, some, List, [], ◌∷◌,
  arith, Bool-cases, inl, inr, ok, ◌>>=◌, if-true, if-false, add64,
}
use la_os.Priority.{sched_prio_count, Threads, update}
use la_os.Priority.Donation.{OnlyDonation, no-OnlyDonation, thread_priority_update_donation-Donates}
use la_os.Mutex.{
  Mutex, Run, wake_up_one, first_priority, mutex_waiter_priority, refresh_for,
  mutex_refresh_donation, mutex_attach_owner, detach_for, mutex_detach_owner, enqueue_current,
  mutex_unlock_raw, is_waiting, insert_waiter,
}

-- The donation that the mutex has noted is the only one, and goes to the owner `owner`.
abbrev pub Donated : (owner : Option ℕ) → Mutex → Threads → Type 0
Donated none m th = (m.donated_priority ≡ sched_prio_count) × OnlyDonation th 0 sched_prio_count
Donated (some t) m th =
    (m.donated_priority ≤ sched_prio_count) × OnlyDonation th t m.donated_priority

-- What a call under `waiters.lock` leaves alone.
pub record Kept (m m' : Mutex) (th th' : Threads) : Type 0 where
  pub locked : m'.locked ≡ m.locked
  pub owner : m'.owner ≡ m.owner
  pub waiters : m'.waiters ≡ m.waiters
  pub count : m'.count ≡ m.count
  pub blocked : th'.blocked ≡ th.blocked

first_priority-le :
    (th : Threads) (ts : List ℕ)
    → ((u : ℕ) → th.priority u < sched_prio_count)
    → first_priority th ts ≤ sched_prio_count
first_priority-le th [] small = omega arith
first_priority-le th (t ∷ ts) small = omega (arith, small t)

-- The donation to the owner becomes the priority of the first waiter, and the call returns.
pub refresh_for-Donated :
    (t : ℕ) (m : Mutex) (th : Threads)
    → Donated (some t) m th
    → (m' : Mutex) × (th' : Threads) × (refresh_for (some t) m th ≡ ok (m', th'))
      × Donated (some t) m' th'
      × Kept m m' th th'
      × (m'.donated_priority ≡ mutex_waiter_priority m th)
unfolding refresh_for
refresh_for-Donated t m th (le, only) =
    let new = mutex_waiter_priority m th in
    elim (Bool-cases (m.donated_priority == new)) [
      | inl same ↦ (
        m,
        th,
        if-true (m.donated_priority == new) _ _ same,
        (le, only),
        record { locked = refl; owner = refl; waiters = refl; count = refl; blocked = refl },
        ground arith,
      )
      | inr other ↦
          let (th', moved, only', kept) =
            thread_priority_update_donation-Donates th t m.donated_priority new le
              (first_priority-le th m.waiters only.priority) only in
          let next : Threads → Run = λ x. ok (record m { donated_priority = new }, x) in
          (
            record m { donated_priority = new },
            th',
            if-false (m.donated_priority == new) _ _ other ∙ ap (λ o. o >>= next) moved,
            (first_priority-le th m.waiters only.priority, only'),
            record {
              locked = refl;
              owner = refl;
              waiters = refl;
              count = refl;
              blocked = kept.blocked;
            },
            refl,
          )
    ]

-- `t` becomes the owner of a mutex that has none.
pub mutex_attach_owner-Donated :
    (t : ℕ) (m : Mutex) (th : Threads)
    → OnlyDonation th 0 sched_prio_count
    → (m' : Mutex) × (th' : Threads) × (mutex_attach_owner m th t ≡ ok (m', th'))
      × Donated (some t) m' th'
      × Kept (record m { donated_priority = sched_prio_count; owner = some t }) m' th th'
unfolding mutex_attach_owner mutex_refresh_donation
mutex_attach_owner-Donated t m th only =
    let m₁ : Mutex = record m { donated_priority = sched_prio_count; owner = some t } in
    let (m', th', done, donated, kept, first) =
      refresh_for-Donated t m₁ th (omega arith, no-OnlyDonation th t 0 only) in
    (m', th', done, donated, kept)

detach_for-none :
    (t : ℕ) (m : Mutex) (th : Threads)
    → Donated (some t) m th
    → (th' : Threads) × (detach_for (some t) m th ≡ ok th')
      × OnlyDonation th' 0 sched_prio_count
      × (th'.blocked ≡ th.blocked)
unfolding detach_for
detach_for-none t m th (le, only) = elim (Bool-cases (ltb m.donated_priority sched_prio_count)) [
  | inl donated ↦
      let (th', moved, only', kept) =
        thread_priority_update_donation-Donates th t m.donated_priority sched_prio_count le
          (omega arith) only in
      (
        th',
        if-true (ltb m.donated_priority sched_prio_count) _ _ donated ∙ moved,
        no-OnlyDonation th' 0 t only',
        kept.blocked,
      )
  | inr not_donated ↦
      let full : m.donated_priority ≡ sched_prio_count = ground arith in
      (
        th,
        if-false (ltb m.donated_priority sched_prio_count) _ _ not_donated,
        no-OnlyDonation th 0 t (subst (OnlyDonation th t) full only),
        refl,
      )
]

-- The mutex that `mutex_unlock_raw` wakes a waiter of.
abbrev pub released : Mutex → Mutex
released m = record m { donated_priority = sched_prio_count; owner = none; locked = false }

-- The owner's unlocking returns, and takes the donation back.
pub mutex_unlock_raw-Donated :
    (t : ℕ) (m : Mutex) (th : Threads)
    → m.owner ≡ some t
    → Donated (some t) m th
    → (th' : Threads) × (mutex_unlock_raw m th ≡ ok (wake_up_one (released m) th'))
      × OnlyDonation th' 0 sched_prio_count
      × (th'.blocked ≡ th.blocked)
unfolding mutex_unlock_raw mutex_detach_owner
mutex_unlock_raw-Donated t m th is_owner donated =
    let (th', done, only, blocked) = detach_for-none t m th donated in
    let detached : Threads → Run =
      λ x. ok (record m { donated_priority = sched_prio_count; owner = none }, x) in
    let wake : Mutex × Threads → Run = λ r. ok (wake_up_one (record r.0 { locked = false }) r.1) in
    (
      th',
      ap (λ o. detach_for o m th >>= detached >>= wake) is_owner
          ∙ ap (λ o. o >>= detached >>= wake) done,
      only,
      blocked,
    )

-- The mutex and the threads with `t` in the queue.
abbrev pub queued : Mutex → Threads → ℕ → Mutex
queued m th t = record m {
  waiters = insert_waiter th.priority t m.waiters;
  count = add64 m.count 1;
}

abbrev pub with_blocked : Threads → ℕ → Threads
with_blocked th t = record th { blocked = update th.blocked t true }

refresh_none :
    (m : Mutex) (th : Threads)
    → Donated none m th
    → (m' : Mutex) × (th' : Threads) × (refresh_for none m th ≡ ok (m', th'))
      × Donated none m' th'
      × Kept m m' th th'
unfolding refresh_for
refresh_none m th (full, only) = (
  record m { donated_priority = sched_prio_count },
  th,
  refl,
  (refl, only),
  record { locked = refl; owner = refl; waiters = refl; count = refl; blocked = refl },
)

refresh-Donated :
    (owner : Option ℕ) (m : Mutex) (th : Threads)
    → Donated owner m th
    → (m' : Mutex) × (th' : Threads) × (refresh_for owner m th ≡ ok (m', th'))
      × Donated owner m' th'
      × Kept m m' th th'
refresh-Donated none m th d = refresh_none m th d
refresh-Donated (some t) m th d =
    let (m', th', done, donated, kept, first) = refresh_for-Donated t m th d in
    (m', th', done, donated, kept)

with_blocked-Donated :
    (owner : Option ℕ) (m : Mutex) (th : Threads) (t : ℕ)
    → Donated owner m th
    → Donated owner (queued m th t) (with_blocked th t)
with_blocked-Donated none m th t (full, only) =
    (full, record { counted = only.counted; base = only.base; priority = only.priority })
with_blocked-Donated (some u) m th t (le, only) =
    (le, record { counted = only.counted; base = only.base; priority = only.priority })

-- A thread that is not in the queue is put there and blocked, and the donation is brought up to
-- date.
pub enqueue_current-Donated :
    (t : ℕ) (m : Mutex) (th : Threads)
    → is_waiting t m.waiters ≡ false
    → Donated m.owner m th
    → (m' : Mutex) × (th' : Threads) × (enqueue_current m th t ≡ ok (m', th'))
      × Donated m.owner m' th'
      × Kept (queued m th t) m' (with_blocked th t) th'
unfolding enqueue_current mutex_refresh_donation
enqueue_current-Donated t m th new donated =
    let (m', th', done, donated', kept) =
      refresh-Donated m.owner (queued m th t) (with_blocked th t)
        (with_blocked-Donated m.owner m th t donated) in
    (m', th', if-false (is_waiting t m.waiters) _ _ new ∙ done, donated', kept)
