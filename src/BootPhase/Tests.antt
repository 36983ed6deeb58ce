-- ===== src/BootPhase/Tests.antt =====
-- kernel/boot_phase.c at concrete inputs.
use la_os.Common.{◌+◌, ◌≤◌, ◌≡◌, refl, true, false, List, [], ◌∷◌, arith, ok, panic, length}
use la_os.BootPhase.{
  boot_phase_require, boot_phase_complete, boot_phase_services_ready, Call, complete_all, in_order,
}
use la_os.BootPhase.Order.{complete_all-in_order, in_order-complete_all}

abbrev two_phases : List Call
two_phases =
    record { phase = 1; interrupts = false } ∷ record { phase = 2; interrupts = false } ∷ []

skipped : boot_phase_complete 0 2 false ≡ panic
unfolding boot_phase_complete boot_phase_require
skipped = refl

interrupted : boot_phase_complete 0 1 true ≡ panic
unfolding boot_phase_complete boot_phase_require
interrupted = refl

both_complete : complete_all 0 two_phases ≡ ok 2
unfolding complete_all boot_phase_complete boot_phase_require
both_complete = refl

complete_all-in_order_example :
    (two_phases ≡ in_order 0 (length two_phases))
    × (2 ≡ 0 + length two_phases)
    × (2 ≤ boot_phase_services_ready)
complete_all-in_order_example = complete_all-in_order 0 two_phases 2 both_complete (omega arith)

in_order-complete_all_example : complete_all 0 (in_order 0 6) ≡ ok (0 + 6)
in_order-complete_all_example = in_order-complete_all 0 6 (omega arith)
