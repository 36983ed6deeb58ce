-- ===== src/Mutex/Exclusion.antt =====
-- What holds in every state that the threads of kernel/mutex.c reach.
use la_os.Common.{
  ℕ, ◌≡◌, ◌≢◌, ◌∙◌, refl, ap, subst, sym, Bool, true, false, ◌==◌, ltb, if◌then◌else◌, Option, none,
  some, List, [], ◌∷◌, arith, Bool-cases, inl, inr, ◌⊎◌, ok,
}
use la_os.Priority.{sched_prio_count, Threads, update}
use la_os.Priority.Donation.{OnlyDonation}
use la_os.Mutex.{Mutex, mutex_init, is_waiting, insert_waiter, wake_up_one, mutex_attach_owner}
use la_os.Mutex.Ownership.{
  Donated, Kept, mutex_attach_owner-Donated, released, mutex_unlock_raw-Donated, queued,
  with_blocked, enqueue_current-Donated,
}
use la_os.Mutex.System.{
  Pc, outside, entering, attaching, slow, asleep, inside, System, moved, set_locked, Step, call,
  try_win, try_lose, attach, second_win, wait, wake, unlock, IsStart, Reach, start, later,
}

-- The thread has taken the lock.
abbrev pub holds : Pc → Bool
holds attaching = true
holds inside = true
holds outside = false
holds entering = false
holds slow = false
holds asleep = false

-- The thread is about to try to take the lock.
abbrev pub active : Pc → Bool
active entering = true
active slow = true
active outside = false
active attaching = false
active asleep = false
active inside = false

abbrev pub Contends : System → ℕ → Type 0
Contends s t = (active (s.pc t) ≡ true) ⊎ ((s.pc t ≡ asleep) × (s.th.blocked t ≡ false))

abbrev pub Unique : List ℕ → Type 0
Unique [] = Unit {0}
Unique (t ∷ ts) = (is_waiting t ts ≡ false) × Unique ts

pub record Inv (s : System) : Type 0 where
  pub closed : (t : ℕ) → holds (s.pc t) ≡ true → s.m.locked ≡ true
  pub exclusive : (t u : ℕ) → holds (s.pc t) ≡ true → holds (s.pc u) ≡ true → t ≡ u
  pub owned : (t : ℕ) → s.pc t ≡ inside → s.m.owner ≡ some t
  pub owner_inside : (t : ℕ) → s.m.owner ≡ some t → s.pc t ≡ inside
  pub donated : Donated s.m.owner s.m s.th
  pub sleeping :
      (t : ℕ) → is_waiting t s.m.waiters ≡ true → (s.pc t ≡ asleep) × (s.th.blocked t ≡ true)
  pub unique : Unique s.m.waiters
  pub contended :
      (t : ℕ) → is_waiting t s.m.waiters ≡ true → s.m.locked ≡ false → (u : ℕ) × Contends s u

-- A thread that neither holds the lock nor waits goes on to try.
moved-Inv :
    (s : System) (t : ℕ) (p : Pc)
    → holds (s.pc t) ≡ false
    → holds p ≡ false
    → active p ≡ true
    → is_waiting t s.m.waiters ≡ false
    → Inv s
    → Inv (moved s t p)
moved-Inv s t p free free' tries out v = record {
  closed = λ u h. ground (arith, v.closed u);
  exclusive = λ u w h h'. ground (arith, v.exclusive u w);
  owned = λ u h. ground (arith, v.owned u);
  owner_inside = λ u h. ground (arith, v.owner_inside u);
  donated = v.donated;
  sleeping = λ u w. ground (arith, v.sleeping u);
  unique = v.unique;
  contended = λ u w open_lock. (t, inl (ground arith));
}

try_win-Inv :
    (s : System) (t : ℕ)
    → s.pc t ≡ entering
    → s.m.locked ≡ false
    → Inv s
    → Inv (record s { m = set_locked s.m; pc = update s.pc t attaching })
try_win-Inv s t here open_lock v = record {
  closed = λ u h. refl;
  exclusive = λ u w h h'. ground (arith, v.closed u, v.closed w);
  owned = λ u h. ground (arith, v.owned u);
  owner_inside = λ u h. ground (arith, v.owner_inside u);
  donated = again s.m.owner v.donated;
  sleeping = λ u w. ground (arith, v.sleeping u);
  unique = v.unique;
  contended = λ u w open_again. cc;
}
  where
    again : (o : Option ℕ) → Donated o s.m s.th → Donated o (set_locked s.m) s.th
    again none d = d
    again (some u) d = d

-- The state in which `t` has attached itself as the owner.
attached-Inv :
    (s : System) (t : ℕ) (m₀ m' : Mutex) (th' : Threads)
    → m₀.locked ≡ true
    → m₀.waiters ≡ s.m.waiters
    → is_waiting t s.m.waiters ≡ false
    → ((u : ℕ) → holds (s.pc u) ≡ true → u ≡ t)
    → Donated (some t) m' th'
    → Kept (record m₀ { donated_priority = sched_prio_count; owner = some t }) m' s.th th'
    → Inv s
    → Inv (record { m = m'; th = th'; pc = update s.pc t inside })
attached-Inv s t m₀ m' th' shut queue out alone d k v =
    let owner : m'.owner ≡ some t = k.owner in
    let queue' : m'.waiters ≡ s.m.waiters = k.waiters ∙ queue in
    let locked : m'.locked ≡ true = k.locked ∙ shut in
    let blocked : (u : ℕ) → th'.blocked u ≡ s.th.blocked u = λ u. ap (λ f. f u) k.blocked in
    let waiting : (u : ℕ) → is_waiting u m'.waiters ≡ is_waiting u s.m.waiters =
      λ u. ap (is_waiting u) queue' in
    record {
      closed = λ u h. locked;
      exclusive = λ u w h h'. ground (arith, alone u, alone w);
      owned = λ u h. ground (arith, alone u);
      owner_inside = λ u h. ground arith;
      donated = subst (λ o. Donated o m' th') (sym owner) d;
      sleeping = λ u w. ground (arith, v.sleeping u, waiting u, blocked u);
      unique = subst Unique (sym queue') v.unique;
      contended = λ u w open_lock. cc;
    }

ok-same : {A : Type 0} (x y : A) → ok x ≡ ok y → x ≡ y
ok-same x y e = cc

pub no_owner :
    (s : System) → ((u : ℕ) → s.m.owner ≡ some u → ⊥) → Inv s → OnlyDonation s.th 0 sched_prio_count
no_owner s none_inside v = from s.m.owner none_inside v.donated
  where
    from :
        (o : Option ℕ)
        → ((u : ℕ) → o ≡ some u → ⊥)
        → Donated o s.m s.th
        → OnlyDonation s.th 0 sched_prio_count
    from none n d = d.1
    from (some u) n d = absurd (n u refl)

-- Attaching returns, and the state after it is as it should be.
attach-Inv :
    (s : System) (t : ℕ) (m₀ m' : Mutex) (th' : Threads)
    → m₀.locked ≡ true
    → m₀.waiters ≡ s.m.waiters
    → is_waiting t s.m.waiters ≡ false
    → ((u : ℕ) → holds (s.pc u) ≡ true → u ≡ t)
    → ((u : ℕ) → s.m.owner ≡ some u → ⊥)
    → Inv s
    → mutex_attach_owner m₀ s.th t ≡ ok (m', th')
    → Inv (record { m = m'; th = th'; pc = update s.pc t inside })
attach-Inv s t m₀ m' th' shut queue out alone free v done =
    let (m₁, th₁, done', d, k) = mutex_attach_owner-Donated t m₀ s.th (no_owner s free v) in
    let same : (m₁, th₁) ≡ (m', th') = ok-same (m₁, th₁) (m', th') (sym done' ∙ done) in
    subst (λ (r : Mutex × Threads). Inv (record { m = r.0; th = r.1; pc = update s.pc t inside }))
      same (attached-Inv s t m₀ m₁ th₁ shut queue out alone d k v)

insert-is_waiting :
    (priority : ℕ → ℕ) (t u : ℕ) (ts : List ℕ)
    → is_waiting u (insert_waiter priority t ts) ≡ (if t == u then true else is_waiting u ts)
unfolding is_waiting insert_waiter
insert-is_waiting priority t u [] = refl
insert-is_waiting priority t u (w ∷ ws) = ground (arith, insert-is_waiting priority t u ws)

insert-Unique :
    (priority : ℕ → ℕ) (t : ℕ) (ts : List ℕ)
    → is_waiting t ts ≡ false
    → Unique ts
    → Unique (insert_waiter priority t ts)
unfolding is_waiting insert_waiter
insert-Unique priority t [] out unique = (refl, tt)
insert-Unique priority t (w ∷ ws) out unique = elim (Bool-cases (ltb (priority t) (priority w))) [
  | inl before ↦ rw before (out, unique)
  | inr behind ↦ rw behind (
    ground (arith, insert-is_waiting priority t w ws, unique.0),
    insert-Unique priority t ws (ground arith) unique.1,
  )
]

-- The state in which `t` has put itself into the queue.
asleep-Inv :
    (s : System) (t : ℕ) (m' : Mutex) (th' : Threads)
    → s.pc t ≡ slow
    → s.m.locked ≡ true
    → is_waiting t s.m.waiters ≡ false
    → Donated s.m.owner m' th'
    → Kept (queued s.m (with_blocked s.th t) t) m' (with_blocked s.th t) th'
    → Inv s
    → Inv (record { m = m'; th = th'; pc = update s.pc t asleep })
asleep-Inv s t m' th' here shut out d k v =
    let locked : m'.locked ≡ true = k.locked ∙ shut in
    let owner : m'.owner ≡ s.m.owner = k.owner in
    let blocked : (u : ℕ) → th'.blocked u ≡ (if u == t then true else s.th.blocked u) =
      λ u. ap (λ f. f u) k.blocked in
    let waiting : (u : ℕ)
        → is_waiting u m'.waiters ≡ (if t == u then true else is_waiting u s.m.waiters) =
      λ u. ap (is_waiting u) k.waiters ∙ insert-is_waiting s.th.priority t u s.m.waiters in
    record {
      closed = λ u h. locked;
      exclusive = λ u w h h'. ground (arith, v.exclusive u w);
      owned = λ u h. owner ∙ ground (arith, v.owned u);
      owner_inside = λ u h. ground (arith, v.owner_inside u);
      donated = subst (λ o. Donated o m' th') (sym owner) d;
      sleeping = λ u w. ground (arith, v.sleeping u, waiting u, blocked u);
      unique =
          subst Unique (sym k.waiters) (insert-Unique s.th.priority t s.m.waiters out v.unique);
      contended = λ u w open_lock. cc;
    }

-- The state in which `t` has unlocked, and has woken the first thread of the queue.
released-Inv :
    (s : System) (t : ℕ) (th' : Threads) (waiters : List ℕ)
    → s.pc t ≡ inside
    → waiters ≡ s.m.waiters
    → OnlyDonation th' 0 sched_prio_count
    → th'.blocked ≡ s.th.blocked
    → Inv s
    → Inv (record {
      m = (wake_up_one (record (released s.m) { waiters = waiters }) th').0;
      th = (wake_up_one (record (released s.m) { waiters = waiters }) th').1;
      pc = update s.pc t outside;
    })
unfolding wake_up_one is_waiting
released-Inv s t th' [] here queue d b v = record {
  closed = λ u h. ground (arith, v.exclusive u t);
  exclusive = λ u w h h'. ground (arith, v.exclusive u w);
  owned = λ u h. ground (arith, v.exclusive u t);
  owner_inside = λ u h. cc;
  donated = (refl, d);
  sleeping = λ u w. cc;
  unique = tt;
  contended = λ u w open_lock. cc;
}
released-Inv s t th' (w ∷ ws) here queue d b v =
    let blocked : (u : ℕ) → th'.blocked u ≡ s.th.blocked u = λ u. ap (λ f. f u) b in
    let waiting : (u : ℕ) → is_waiting u (w ∷ ws) ≡ is_waiting u s.m.waiters =
      λ u. ap (is_waiting u) queue in
    let unique : Unique (w ∷ ws) = subst Unique (sym queue) v.unique in
    record {
      closed = λ u h. ground (arith, v.exclusive u t);
      exclusive = λ u x h h'. ground (arith, v.exclusive u x);
      owned = λ u h. ground (arith, v.exclusive u t);
      owner_inside = λ u h. cc;
      donated = (refl, record { counted = d.counted; base = d.base; priority = d.priority });
      sleeping = λ u x. ground (arith, v.sleeping u, waiting u, blocked u, unique.0);
      unique = unique.1;
      contended = λ u x open_lock. (w, inr (ground (arith, v.sleeping w, waiting w), ground arith));
    }

-- A thread that is not in `schedule()` is not in the queue.
pub awake : (s : System) (t : ℕ) → Inv s → s.pc t ≢ asleep → is_waiting t s.m.waiters ≡ false
awake s t v other = ground (arith, v.sleeping t)

-- Where the lock is open, no thread holds it and it has no owner.
pub open-lock_free : (s : System) → s.m.locked ≡ false → Inv s → (u : ℕ) → s.m.owner ≡ some u → ⊥
open-lock_free s open_lock v u owner = ground (arith, v.owner_inside u, v.closed u)

Step-Inv : {s s' : System} → Step s s' → Inv s → Inv s'
unfolding wake_up_one
Step-Inv {s} (call t here) v =
    moved-Inv s t entering (ground arith) refl refl (awake s t v (λ z. cc)) v
Step-Inv {s} (try_win t here open_lock) v = try_win-Inv s t here open_lock v
Step-Inv {s} (try_lose t here shut) v =
    moved-Inv s t slow (ground arith) refl refl (awake s t v (λ z. cc)) v
Step-Inv {s} (attach t m' th' here done) v =
    attach-Inv s t s.m m' th' (v.closed t (ground arith)) refl (awake s t v (λ z. cc))
      (λ u h. v.exclusive u t h (ground arith))
      (λ u o. ground (arith, v.owner_inside u o, v.exclusive u t)) v done
Step-Inv {s} (second_win t m' th' here open_lock done) v =
    attach-Inv s t (set_locked s.m) m' th' refl refl (awake s t v (λ z. cc))
      (λ u h. ground (arith, v.closed u)) (open-lock_free s open_lock v) v done
Step-Inv {s} (wait t m' th' here shut done) v =
    let out = awake s t v (λ z. cc) in
    let (m₁, th₁, done', d, k) = enqueue_current-Donated t s.m s.th out v.donated in
    let same : (m₁, th₁) ≡ (m', th') = ok-same (m₁, th₁) (m', th') (sym done' ∙ done) in
    subst (λ (r : Mutex × Threads). Inv (record { m = r.0; th = r.1; pc = update s.pc t asleep }))
      same (asleep-Inv s t m₁ th₁ here shut out d k v)
Step-Inv {s} (wake t here running) v =
    moved-Inv s t entering (ground arith) refl refl (ground (arith, v.sleeping t)) v
Step-Inv {s} (unlock t m' th' here done) v =
    let (th₁, done', d, b) =
      mutex_unlock_raw-Donated t s.m s.th (v.owned t here)
        (subst (λ o. Donated o s.m s.th) (v.owned t here) v.donated) in
    let r = wake_up_one (released s.m) th₁ in
    let same : r ≡ (m', th') = ok-same r (m', th') (sym done' ∙ done) in
    subst (λ (x : Mutex × Threads). Inv (record { m = x.0; th = x.1; pc = update s.pc t outside }))
      same (released-Inv s t th₁ s.m.waiters here refl d b v)

start-Inv : (s : System) → IsStart s → Inv s
unfolding mutex_init is_waiting
start-Inv s b = record {
  closed = λ u h. ground (arith, b.pc u);
  exclusive = λ u w h h'. ground (arith, b.pc u);
  owned = λ u h. ground (arith, b.pc u);
  owner_inside = λ u h. let o : none ≡ some u = sym (ap (λ (m : Mutex). m.owner) b.m) ∙ h in cc;
  donated = subst (λ m. Donated m.owner m s.th) (sym b.m) (refl, b.donations);
  sleeping = λ u w. let n : false ≡ true = sym (ap (λ m. is_waiting u m.waiters) b.m) ∙ w in cc;
  unique = subst (λ (m : Mutex). Unique m.waiters) (sym b.m) tt;
  contended = λ u w open_lock.
      let n : false ≡ true = sym (ap (λ (m : Mutex). is_waiting u m.waiters) b.m) ∙ w in cc;
}

pub Reach-Inv : {s : System} → Reach s → Inv s
Reach-Inv (start s b) = start-Inv s b
Reach-Inv (later r step) = Step-Inv step (Reach-Inv r)
