-- ===== src/Sched/Schedule.antt =====
-- What `__schedule` of kernel/sched.c keeps.
use la_os.Common.{
  true-false, ℕ, ◌%◌, ◌^◌, ◌≡◌, ◌≢◌, ◌⊎◌, inl, inr, refl, sym, ap, subst, ◌∙◌, Bool, true, false,
  not, ◌&&◌, if◌then◌else◌, ◌==◌, Option, none, some, List, [], ◌∷◌, ◌++◌, Outcome, ok, panic,
  arith, Bool-cases, if-true, if-false, if-both,
}
use la_os.Sched.{
  Status, ready, running, Runqueue, Threads, Cpu, is_empty, is_running, is_zombie, update, remove,
  unlink, link, link_tail, runs_on, choose, hand_over, pick_next, bury, within_max,
  sched_idle_zombie, next_thread, schedule,
}
use la_os.Sched.Pick.{IsLinked, and-false-left}

-- The consistency of a CPU between two calls of the scheduler.
pub record IsConsistent (c : Cpu) : Type 0 where
  pub linked : IsLinked c.runqueue
  pub buried : IsLinked c.zombiequeue
  -- Only the current thread is running.
  pub alone : (t : ℕ) → c.threads.status t ≡ running → t ≡ c.current
  -- Where a zombie waits to be reaped, the idle thread runs.
  pub reaped : (within_max c.zombiequeue.count ≡ true) ⊎ (c.current ≡ c.idle)
  -- A running thread is idle or counted.
  pub counted :
      c.runqueue.count % 2 ^ 32 ≡ 0 → c.threads.status c.current ≡ running → c.current ≡ c.idle

ready-running : ready ≢ running
ready-running e = cc

zombie-running : true ≢ is_zombie running
zombie-running e = cc

update-cases {ℓ κ} :
    {A : Type ℓ} (P : A → Type κ) (f : ℕ → A) (t u : ℕ) (a : A)
    → (u ≡ t → P a)
    → (u ≢ t → P (f u))
    → P (update f t a u)
update-cases P f t u a here there =
    if-both P (u == t) a (f u) (λ e. here (ground (arith, e)))
      (λ e. there (λ eq. ground (arith, e, eq)))

-- A list and its bit that change together stay in step.
set-IsLinked :
    (rq : Runqueue) (prio : ℕ) (ts : List ℕ) (on : Bool)
    → on ≡ not (is_empty ts)
    → IsLinked rq
    → IsLinked (record rq { heads = update rq.heads prio ts; bitmap = update rq.bitmap prio on })
set-IsLinked rq prio ts on same linked p = elim (Bool-cases (p == prio)) [
  | inl e ↦
      if-true (p == prio) on (rq.bitmap p) e
      ∙ same
      ∙ sym (ap (λ us. not (is_empty us)) (if-true (p == prio) ts (rq.heads p) e))
  | inr e ↦
      if-false (p == prio) on (rq.bitmap p) e
      ∙ linked p
      ∙ sym (ap (λ us. not (is_empty us)) (if-false (p == prio) ts (rq.heads p) e))
]

filled-append : (ts us : List ℕ) (t : ℕ) → true ≡ not (is_empty (ts ++ (t ∷ us)))
filled-append [] us t = refl
filled-append (u ∷ ts) us t = refl

remove-empty :
    (t : ℕ) (ts : List ℕ)
    → (not (is_empty ts) && not (is_empty (remove t ts))) ≡ not (is_empty (remove t ts))
unfolding remove
remove-empty t [] = refl
remove-empty t (u ∷ us) = refl

unlink-IsLinked : (rq : Runqueue) (prio t : ℕ) → IsLinked rq → IsLinked (unlink rq prio t)
unlink-IsLinked rq prio t linked =
    set-IsLinked rq prio (remove t (rq.heads prio)) _
      (ap (λ b. b && not (is_empty (remove t (rq.heads prio)))) (linked prio)
        ∙ remove-empty t (rq.heads prio))
      linked

link_tail-IsLinked : (rq : Runqueue) (prio t : ℕ) → IsLinked rq → IsLinked (link_tail rq prio t)
link_tail-IsLinked rq prio t linked =
    set-IsLinked rq prio _ true (filled-append (rq.heads prio) [] t) linked

link-IsLinked : (rq : Runqueue) (prio t : ℕ) → IsLinked rq → IsLinked (link rq prio t)
link-IsLinked rq prio t linked = set-IsLinked rq prio (t ∷ rq.heads prio) true refl linked

choose-IsLinked : (c : Cpu) (r : Option (ℕ × ℕ)) → IsLinked c.runqueue → IsLinked (choose c r).1
choose-IsLinked c none linked = linked
choose-IsLinked c (some (t, prio)) linked =
    if-both (λ (r : ℕ × Runqueue). IsLinked r.1) (runs_on c (some (t, prio)))
      (c.current, c.runqueue) _ (λ on. linked)
      (λ off.
        if-both (λ (r : ℕ × Runqueue). IsLinked r.1) (t == c.current) (t, c.runqueue) _
          (λ self. linked)
          (λ other.
            link_tail-IsLinked (unlink c.runqueue prio t) prio t
              (unlink-IsLinked c.runqueue prio t linked)))

-- The count of the threads does not change.
choose-count : (c : Cpu) (r : Option (ℕ × ℕ)) → (choose c r).1.count ≡ c.runqueue.count
choose-count c none = refl
choose-count c (some (t, prio)) =
    if-both (λ (r : ℕ × Runqueue). r.1.count ≡ c.runqueue.count) (runs_on c (some (t, prio)))
      (c.current, c.runqueue) _ (λ on. refl)
      (λ off.
        if-both (λ (r : ℕ × Runqueue). r.1.count ≡ c.runqueue.count) (t == c.current)
          (t, c.runqueue) _ (λ self. refl) (λ other. refl))

module _ (th : Threads) (prev next : ℕ) where
  abbrev Stops : (t : ℕ) → Status → Type 0
  Stops t s = s ≡ running → t ≡ next

  prev-Stops : (s : Status) → Stops prev (if not (prev == next) && is_running s then ready else s)
  prev-Stops s =
      if-both (Stops prev) (not (prev == next) && is_running s) ready s
        (λ handed runs. absurd (ready-running runs))
        (λ kept runs.
          let is_next = and-false-left (not (prev == next)) _ kept (ap is_running runs) in
          ground (arith, is_next))

  hand_over-alone :
      ((t : ℕ) → th.status t ≡ running → t ≡ prev)
      → (t : ℕ) → Stops t ((hand_over th prev next).status t)
  hand_over-alone alone t =
      let started = update th.status next running in
      update-cases (Stops t) started prev t _
        (λ at_prev runs. at_prev ∙ prev-Stops (started prev) runs)
        (λ off_prev.
          update-cases (Stops t) th.status next t running (λ at_next runs. at_next)
            (λ off_next runs. absurd (off_prev (alone t runs))))

-- `next` runs from here on.
abbrev SwitchedTo : ℕ × Cpu → Type 0
SwitchedTo r = IsConsistent (record r.1 { current = r.0 })

module _ (c : Cpu) (v : IsConsistent c) where
  picked-SwitchedTo :
      (r : Option (ℕ × ℕ))
      → within_max c.zombiequeue.count ≡ true
      → c.runqueue.count % 2 ^ 32 ≢ 0
      → SwitchedTo (
        (choose c r).0,
        record c {
          runqueue = (choose c r).1;
          threads = hand_over c.threads c.current (choose c r).0;
        },
      )
  picked-SwitchedTo r few some_counted = record {
    linked = choose-IsLinked c r v.linked;
    buried = v.buried;
    alone = hand_over-alone c.threads c.current (choose c r).0 v.alone;
    reaped = inl few;
    counted = λ none_counted runs.
        absurd (some_counted (subst (λ n. n % 2 ^ 32 ≡ 0) (choose-count c r) none_counted));
  }

  -- The run queue is empty.
  idle-SwitchedTo :
      within_max c.zombiequeue.count ≡ true → c.runqueue.count % 2 ^ 32 ≡ 0 → SwitchedTo (c.idle, c)
  idle-SwitchedTo few none_counted = record {
    linked = v.linked;
    buried = v.buried;
    alone = λ t runs.
        let here = v.alone t runs in
        here ∙ v.counted none_counted (subst (λ u. c.threads.status u ≡ running) here runs);
    reaped = inl few;
    counted = λ z runs. refl;
  }

  pick_next-SwitchedTo : within_max c.zombiequeue.count ≡ true → SwitchedTo (pick_next c)
  unfolding pick_next
  pick_next-SwitchedTo few =
      if-both SwitchedTo (c.runqueue.count % 2 ^ 32 == 0) (c.idle, c) _
        (λ none_counted. idle-SwitchedTo few (ground (arith, none_counted)))
        (λ some_counted. picked-SwitchedTo _ few (λ z. ground (arith, some_counted, z)))

-- Before `next` is chosen: the current thread may be a zombie that has just been buried.
module _ (c : Cpu) (v : IsConsistent c) (dead : is_zombie (c.threads.status c.current) ≡ true) where
  not_running : c.threads.status c.current ≢ running
  not_running runs = zombie-running (sym dead ∙ ap is_zombie runs)

  bury-IsConsistent :
      (within_max (bury c).zombiequeue.count ≡ true) ⊎ (c.current ≡ c.idle) → IsConsistent (bury c)
  bury-IsConsistent reaped = record {
    linked = unlink-IsLinked c.runqueue (c.threads.priority c.current) c.current v.linked;
    buried = link-IsLinked c.zombiequeue (c.threads.priority c.current) c.current v.buried;
    alone = v.alone;
    reaped = reaped;
    counted = λ z runs. absurd (not_running runs);
  }

  bury-idle : SwitchedTo (c.idle, bury c)
  bury-idle = record {
    linked = unlink-IsLinked c.runqueue (c.threads.priority c.current) c.current v.linked;
    buried = link-IsLinked c.zombiequeue (c.threads.priority c.current) c.current v.buried;
    alone = λ t runs.
        absurd (not_running (subst (λ u. c.threads.status u ≡ running) (v.alone t runs) runs));
    reaped = inr refl;
    counted = λ z runs. refl;
  }

kept-idle : (c : Cpu) → IsConsistent c → c.current ≡ c.idle → SwitchedTo (c.idle, c)
kept-idle c v at_idle = record {
  linked = v.linked;
  buried = v.buried;
  alone = λ t runs. v.alone t runs ∙ at_idle;
  reaped = inr refl;
  counted = λ z runs. refl;
}

-- What follows `sched_idle_zombie` where it leaves the CPU `c`.
abbrev after_burial : (idle : ℕ) → Cpu → ℕ × Cpu
after_burial idle c = elim (if within_max c.zombiequeue.count then none else some idle) [
  | some t ↦ (t, c)
  | none ↦ pick_next c
]

after_burial-SwitchedTo :
    (idle : ℕ) (c : Cpu)
    → (within_max c.zombiequeue.count ≡ true → SwitchedTo (pick_next c))
    → (within_max c.zombiequeue.count ≡ false → SwitchedTo (idle, c))
    → SwitchedTo (after_burial idle c)
after_burial-SwitchedTo idle c few many =
    if-both (λ (r : Option ℕ). SwitchedTo (elim r [ some t ↦ (t, c) | none ↦ pick_next c ]))
      (within_max c.zombiequeue.count) none (some idle) few many

next_thread-SwitchedTo : (c : Cpu) → IsConsistent c → SwitchedTo (next_thread c)
unfolding next_thread sched_idle_zombie
next_thread-SwitchedTo c v =
    if-both (λ (d : Cpu). SwitchedTo (after_burial c.idle d))
      (is_zombie (c.threads.status c.current)) (bury c) c
      (λ dead.
        after_burial-SwitchedTo c.idle (bury c)
          (λ few. pick_next-SwitchedTo (bury c) (bury-IsConsistent c v dead (inl few)) few)
          (λ many. bury-idle c v dead))
      (λ alive. after_burial-SwitchedTo c.idle c (pick_next-SwitchedTo c v) (λ many.
        kept-idle c v (elim v.reaped [
          | inl few ↦ absurd (true-false (sym few ∙ many))
          | inr at_idle ↦ at_idle
        ])))

-- The call returns with the CPU consistent, and unchanged where preemption is disabled.
abbrev pub Keeps : Cpu → Outcome Cpu → Type 0
Keeps c o = (c' : Cpu) × (o ≡ ok c') × IsConsistent c' × (c.preempt_count ≢ 0 → c' ≡ c)

deferred-Keeps :
    (preemptive : Bool) (c : Cpu)
    → IsConsistent c
    → preemptive ≡ true
    → Keeps c (if preemptive then ok c else panic)
deferred-Keeps true c v e = (c, refl, v, λ disabled. refl)
deferred-Keeps false c v e = cc

-- Every call keeps the CPU consistent: the bits tell the lists of both queues, no thread but the
-- current one is running, the idle thread runs where a zombie waits to be reaped, and a running
-- thread is the idle one where the run queue counts none. The call returns unless it is voluntary
-- with preemption disabled; with preemption disabled a call that is not changes nothing.
pub schedule-IsConsistent :
    (preemptive : Bool) (c : Cpu)
    → IsConsistent c
    → ((c.preempt_count ≡ 0) ⊎ (preemptive ≡ true))
    → Keeps c (schedule preemptive c)
unfolding schedule
schedule-IsConsistent preemptive c v allowed =
    if-both (Keeps c) (not (c.preempt_count == 0)) (if preemptive then ok c else panic) _
      (λ disabled. deferred-Keeps preemptive c v (elim allowed [
        | inl enabled ↦ absurd (ground (arith, disabled, enabled))
        | inr deferred ↦ deferred
      ]))
      (λ enabled. (
        _,
        refl,
        next_thread-SwitchedTo (record c { need_resched = false })
            (record {
              linked = v.linked;
              buried = v.buried;
              alone = v.alone;
              reaped = v.reaped;
              counted = v.counted;
            }),
        λ disabled. absurd (disabled (ground (arith, enabled))),
      ))
