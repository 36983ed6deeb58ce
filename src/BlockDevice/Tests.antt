-- ===== src/BlockDevice/Tests.antt =====
-- kernel/block_device.c at concrete inputs, where a device is a number.
use la_os.Common.{ℕ, ◌+◌, ◌≡◌, refl, none, get_elem?, panic}
use la_os.BootPhase.{boot_phase_require}
use la_os.BlockDevice.{
  Devices, pos, negsuc, block_device_register, block_device_get, block_device_reset,
}
use la_os.BlockDevice.Registry.{
  view, Registered, block_device_register-Registered, block_device_get-view,
}

abbrev two : Devices ℕ
two = record { slots = λ i. 70 + i; count = 2 }

no_device : block_device_get two (negsuc 0) ≡ none
unfolding block_device_get
no_device = refl

reset_late : block_device_reset 3 two ≡ panic
unfolding block_device_reset boot_phase_require
reset_late = refl

block_device_register-Registered_example : Registered two 90 (block_device_register two 90)
block_device_register-Registered_example = block_device_register-Registered two 90

block_device_get-view_example : block_device_get two (pos 1) ≡ get_elem? (view two) 1
block_device_get-view_example = block_device_get-view two 1
