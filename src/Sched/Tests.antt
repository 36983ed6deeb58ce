-- ===== src/Sched/Tests.antt =====
-- Runs of the scheduler of kernel/sched.c on small CPUs.
use la_os.Common.{
  ℕ, ◌≡◌, refl, Bool, not, true, false, ◌==◌, List, [], ◌∷◌, inl, inr, arith, if◌then◌else◌,
  Bool-cases,
}
use la_os.Sched.{
  Status, ready, running, sleeping, Cpu, is_empty, remove, first_runnable, scan, pick_next,
  schedule,
}
use la_os.Sched.Pick.{IsPicked, pick_next-IsPicked}
use la_os.Sched.Schedule.{Keeps, schedule-IsConsistent}

-- Thread 1 is running at priority 32; 2 and 3 of the same priority wait, 4 sleeps at priority 8
-- until tick 50, and 9 is the idle thread.
abbrev statuses : ℕ → Status
statuses t = if t == 1 then running else if t == 4 then sleeping else ready

abbrev lists : ℕ → List ℕ
lists p = if p == 32 then 1 ∷ 2 ∷ 3 ∷ [] else if p == 8 then 4 ∷ [] else []

abbrev bits : ℕ → Bool
bits p = if p == 32 then true else if p == 8 then true else false

lists-bits : (p : ℕ) → bits p ≡ not (is_empty (lists p))
lists-bits p = elim (Bool-cases (p == 32)) [
  | inl e ↦ ground (arith, e)
  | inr e ↦ elim (Bool-cases (p == 8)) [
    | inl f ↦ ground (arith, e, f)
    | inr f ↦ ground (arith, e, f)
  ]
]

running-first : (t : ℕ) → statuses t ≡ running → t ≡ 1
running-first t runs = ground (arith, runs)

abbrev cpu : (now : ℕ) → Cpu
cpu now = record {
  preempt_count = 0;
  need_resched = true;
  current = 1;
  idle = 9;
  runqueue = record { heads = lists; bitmap = bits; count = 4 };
  zombiequeue = record { heads = λ p. []; bitmap = λ p. false; count = 0 };
  threads = record {
    status = statuses;
    priority = λ t. if t == 4 then 8 else 32;
    wakeup_ticks = λ t. 50;
    ticks = λ t. 0;
  };
  now = now;
}

-- The next thread of the same priority, or the sleeper once its time has come.
round_robin : ((pick_next (cpu 10)).0 ≡ 2) × ((pick_next (cpu 50)).0 ≡ 4)
unfolding pick_next scan first_runnable
round_robin = (refl, refl)

to_tail : (pick_next (cpu 10)).1.runqueue.heads 32 ≡ 1 ∷ 3 ∷ 2 ∷ []
unfolding pick_next scan first_runnable remove
to_tail = refl

pick_next-IsPicked_example : IsPicked (cpu 50) ((pick_next (cpu 50)).0)
pick_next-IsPicked_example = pick_next-IsPicked (cpu 50) (lists-bits) (λ z. omega (arith, z))

schedule-IsConsistent_example : Keeps (cpu 10) (schedule true (cpu 10))
schedule-IsConsistent_example =
    schedule-IsConsistent true (cpu 10)
      (record {
        linked = lists-bits;
        buried = λ prio. refl;
        alone = running-first;
        reaped = inl refl;
        counted = λ z runs. absurd (omega (arith, z));
      })
      (inl refl)
