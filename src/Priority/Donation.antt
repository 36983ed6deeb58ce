-- ===== src/Priority/Donation.antt =====
-- A thread that one lock donates to.
use la_os.Common.{
  ℕ, zero, suc, ◌+◌, ◌-◌, ◌≤◌, ◌<◌, ◌≡◌, ◌∙◌, refl, ◌&&◌, ◌||◌, ◌==◌, ltb, if◌then◌else◌, Outcome,
  ok, ◌>>=◌, arith, Bool-cases, inl, inr, if-true, if-false, ap,
}
use la_os.Priority.{
  sched_prio_count, Threads, update, set_donation, effective_loop, thread_effective_priority,
  thread_apply_effective_priority, drop_donation, add_donation, thread_priority_update_donation,
}

-- The only donation is one to `t` at the priority `p`, or there is none where `p` is no priority.
pub record OnlyDonation (th : Threads) (t p : ℕ) : Type 0 where
  pub counted :
      (u q : ℕ) → q < sched_prio_count → th.pi_donations u q ≡ (if u == t && q == p then 1 else 0)
  pub base : (u : ℕ) → th.base_priority u < sched_prio_count
  pub priority : (u : ℕ) → th.priority u < sched_prio_count

effective_loop-lt :
    (rounds i : ℕ) (d : ℕ → ℕ) (base : ℕ)
    → base < sched_prio_count
    → effective_loop rounds i d base < sched_prio_count
unfolding effective_loop
effective_loop-lt zero i d base small = small
effective_loop-lt (suc rounds) i d base small =
    ground (arith, effective_loop-lt rounds (i + 1) d base small)

-- Only the donations and the priority of one thread have changed.
pub record SameThreads (th th' : Threads) : Type 0 where
  pub base : th'.base_priority ≡ th.base_priority
  pub blocked : th'.blocked ≡ th.blocked

-- A call that returns threads with just the donation `p` to `t`.
abbrev pub Donates : Threads → (t p : ℕ) → Outcome Threads → Type 0
Donates th t p call = (th' : Threads) × (call ≡ ok th') × OnlyDonation th' t p × SameThreads th th'

drop-Donates :
    (th : Threads) (t old : ℕ)
    → old ≤ sched_prio_count
    → OnlyDonation th t old
    → Donates th t sched_prio_count (drop_donation th t old)
unfolding drop_donation
drop-Donates th t old le d = elim (Bool-cases (ltb old sched_prio_count)) [
  | inr none_yet ↦ (
    th,
    if-false (ltb old sched_prio_count) _ _ none_yet,
    record {
      counted = λ u q lt. d.counted u q lt ∙ ground arith;
      base = d.base;
      priority = d.priority;
    },
    record { base = refl; blocked = refl },
  )
  | inl one ↦
      let count : th.pi_donations t old ≡ 1 = ground (arith, d.counted t old) in
      (
        record th { pi_donations = set_donation th.pi_donations t old (th.pi_donations t old - 1) },
        if-true (ltb old sched_prio_count) _ _ one
            ∙ if-false (th.pi_donations t old == 0) _ _ (ground arith),
        record {
          counted = λ u q lt. ground (arith, d.counted u q lt);
          base = d.base;
          priority = d.priority;
        },
        record { base = refl; blocked = refl },
      )
]

add-Donates :
    (th : Threads) (t u new : ℕ)
    → new ≤ sched_prio_count
    → OnlyDonation th u sched_prio_count
    → Donates th t new (add_donation th t new)
unfolding add_donation
add-Donates th t u new le d = elim (Bool-cases (ltb new sched_prio_count)) [
  | inr no_new ↦ (
    th,
    if-false (ltb new sched_prio_count) _ _ no_new,
    record {
      counted = λ v q lt. d.counted v q lt ∙ ground arith;
      base = d.base;
      priority = d.priority;
    },
    record { base = refl; blocked = refl },
  )
  | inl one ↦
      let count : th.pi_donations t new ≡ 0 = ground (arith, d.counted t new) in
      (
        record th { pi_donations = set_donation th.pi_donations t new (th.pi_donations t new + 1) },
        if-true (ltb new sched_prio_count) _ _ one
            ∙ if-false (th.pi_donations t new == 0xffff) _ _ (ground arith),
        record {
          counted = λ v q lt. ground (arith, d.counted v q lt);
          base = d.base;
          priority = d.priority;
        },
        record { base = refl; blocked = refl },
      )
]

apply-Donates :
    (th : Threads) (t p priority : ℕ)
    → priority < sched_prio_count
    → OnlyDonation th t p
    → Donates th t p (thread_apply_effective_priority th t priority)
unfolding thread_apply_effective_priority
apply-Donates th t p priority small d = elim (Bool-cases (th.priority t == priority)) [
  | inl same ↦
      (th, if-true (th.priority t == priority) _ _ same, d, record { base = refl; blocked = refl })
  | inr changed ↦ (
    record th { priority = update th.priority t priority },
    if-false (th.priority t == priority) _ _ changed
        ∙ if-true (ltb (th.priority t) sched_prio_count) _ _ (ground (arith, d.priority t)),
    record { counted = d.counted; base = d.base; priority = λ u. ground (arith, d.priority u) },
    record { base = refl; blocked = refl },
  )
]

pub no-OnlyDonation :
    (th : Threads) (t u : ℕ)
    → OnlyDonation th u sched_prio_count
    → OnlyDonation th t sched_prio_count
no-OnlyDonation th t u d = record {
  counted = λ v q lt. d.counted v q lt ∙ ground arith;
  base = d.base;
  priority = d.priority;
}

-- A donation is moved from one priority to another.
pub thread_priority_update_donation-Donates :
    (th : Threads) (t old new : ℕ)
    → old ≤ sched_prio_count
    → new ≤ sched_prio_count
    → OnlyDonation th t old
    → Donates th t new (thread_priority_update_donation th t old new)
unfolding thread_priority_update_donation thread_effective_priority
thread_priority_update_donation-Donates th t old new le le' d =
    let (dropped, drop, none_left, kept) = drop-Donates th t old le d in
    let (added, add, one, kept') = add-Donates dropped t t new le' none_left in
    let priority = thread_effective_priority added t in
    let small : priority < sched_prio_count =
      effective_loop-lt sched_prio_count 0 (added.pi_donations t) (added.base_priority t)
        (one.base t) in
    let (applied, apply, done, kept'') = apply-Donates added t new priority small one in
    let apply_to : Threads → Outcome Threads =
      λ x. thread_apply_effective_priority x t (thread_effective_priority x t) in
    (
      applied,
      if-false (ltb sched_prio_count old || ltb sched_prio_count new) _ _ (ground arith)
          ∙ ap (λ o. o >>= (λ x. add_donation x t new >>= apply_to)) drop
          ∙ ap (λ o. o >>= apply_to) add
          ∙ apply,
      done,
      record {
        base = kept''.base ∙ kept'.base ∙ kept.base;
        blocked = kept''.blocked ∙ kept'.blocked ∙ kept.blocked;
      },
    )
