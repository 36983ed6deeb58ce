-- ===== src/BootPhase.antt =====
-- kernel/boot_phase.c: the phases of the boot that are complete.
pub mod Order
mod Tests
use la_os.Common.{
  ℕ, zero, suc, ◌+◌, ◌-◌, ◌≤◌, ◌<◌, ◌≡◌, ◌∙◌, sym, ap, subst, refl, Bool, true, false, ◌||◌, ◌==◌,
  not, ltb, leb, if◌then◌else◌, List, [], ◌∷◌, arith, Outcome, ok, panic, ◌>>=◌, returned, length,
  Bool-cases, inl, inr,
}

-- `BOOT_PHASE_EARLY` and `BOOT_PHASE_SERVICES_READY`, the ends of the enumeration.
abbrev pub boot_phase_early : ℕ
boot_phase_early = 0

abbrev pub boot_phase_services_ready : ℕ
boot_phase_services_ready = 6

-- The argument `current` is `current_phase`.
unfoldable pub boot_phase_require : (current expected : ℕ) → Outcome ℕ
boot_phase_require current expected = if current == expected then ok current else panic

-- The new phase, where the call returns; `interrupts` is `interrupts_enabled()`.
pub boot_phase_complete : (current phase : ℕ) → (interrupts : Bool) → Outcome ℕ
boot_phase_complete current phase interrupts =
    if leb phase boot_phase_early || ltb boot_phase_services_ready phase
    then panic
    else boot_phase_require current (phase - 1) >>= (λ c. if interrupts then panic else ok phase)

-- A call of `boot_phase_complete`.
pub record Call : Type 0 where
  pub phase : ℕ
  pub interrupts : Bool

-- Calls one after another, from the phase `current` on.
pub complete_all : (current : ℕ) → List Call → Outcome ℕ
complete_all current [] = ok current
complete_all current (c ∷ cs) =
    boot_phase_complete current c.phase c.interrupts >>= (λ next. complete_all next cs)

-- The next `n` phases, each completed with interrupts off.
abbrev pub in_order : (current n : ℕ) → List Call
in_order current zero = []
in_order current (suc n) =
    record { phase = current + 1; interrupts = false } ∷ in_order (current + 1) n
