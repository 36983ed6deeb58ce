-- ===== src/BootPhase/Order.antt =====
-- The order of the phases of kernel/boot_phase.c.
use la_os.Common.{
  ℕ, zero, suc, ◌+◌, ◌-◌, ◌≤◌, ◌≡◌, ◌∙◌, ap, refl, Bool, true, false, ◌||◌, ◌==◌, ltb, leb, List,
  [], ◌∷◌, arith, ok, returned, length, Bool-cases, inl, inr,
}
use la_os.BootPhase.{
  boot_phase_early, boot_phase_services_ready, boot_phase_require, boot_phase_complete, Call,
  complete_all, in_order,
}

complete-next :
    (current phase : ℕ) (interrupts : Bool) (next : ℕ)
    → boot_phase_complete current phase interrupts ≡ ok next
    → (phase ≡ current + 1)
      × (interrupts ≡ false)
      × (next ≡ current + 1)
      × (next ≤ boot_phase_services_ready)
unfolding boot_phase_complete boot_phase_require
complete-next current phase interrupts next done =
    elim (Bool-cases (leb phase boot_phase_early || ltb boot_phase_services_ready phase)) [
      | inl bad ↦ ground (arith, done)
      | inr good ↦ elim (Bool-cases (current == phase - 1)) [
        | inl here ↦ ground (arith, rw (good, here) at done)
        | inr other ↦ ground (arith, rw (good, other) at done)
      ]
    ]

ok-next : (a b : ℕ) → ok a ≡ ok b → a ≡ b
ok-next a b e = ground arith

-- When a sequence of completions returns, from a phase of the enumeration on, its calls are the
-- next phases in their order, each with interrupts off, and the last of them is the phase then.
pub complete_all-in_order :
    (current : ℕ) (cs : List Call) (last : ℕ)
    → complete_all current cs ≡ ok last
    → current ≤ boot_phase_services_ready
    → (cs ≡ in_order current (length cs))
      × (last ≡ current + length cs)
      × (last ≤ boot_phase_services_ready)
unfolding complete_all
complete_all-in_order current [] last done le =
    (refl, omega (arith, ok-next current last done), omega (arith, ok-next current last done))
complete_all-in_order current (c ∷ cs) last done le =
    let (next, first, rest) =
      returned (boot_phase_complete current c.phase c.interrupts) (λ next. complete_all next cs)
        done in
    let (phase, off, is_next, below) = complete-next current c.phase c.interrupts next first in
    let (order, count, end) = complete_all-in_order next cs last rest below in
    (same_calls current next c cs phase off is_next order, omega (arith, is_next, count), end)
  where
    same_calls :
        (current next : ℕ) (c : Call) (cs : List Call)
        → c.phase ≡ current + 1
        → c.interrupts ≡ false
        → next ≡ current + 1
        → cs ≡ in_order next (length cs)
        → (c ∷ cs) ≡ in_order current (suc (length cs))
    same_calls current next c cs phase off is_next order =
        (λ i. record { phase = phase i; interrupts = off i } ∷ cs)
        ∙ ap (λ l. record { phase = current + 1; interrupts = false } ∷ l)
            (order ∙ ap (λ n. in_order n (length cs)) is_next)

-- The next phases, each completed with interrupts off, all complete.
pub in_order-complete_all :
    (current n : ℕ)
    → current + n ≤ boot_phase_services_ready
    → complete_all current (in_order current n) ≡ ok (current + n)
unfolding complete_all boot_phase_complete boot_phase_require
in_order-complete_all current zero le = ap ok (omega arith)
in_order-complete_all current (suc n) le =
    let good : (leb (current + 1) boot_phase_early || ltb boot_phase_services_ready (current + 1))
        ≡ false =
      ground arith in
    let here : (current == current + 1 - 1) ≡ true = ground arith in
    rw (good, here) (in_order-complete_all (current + 1) n (omega arith) ∙ ap ok (omega arith))
