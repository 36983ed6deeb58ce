-- ===== src/BlockDevice.antt =====
-- kernel/block_device.c: the registry of block devices, whose type `D` is a parameter.
pub mod Registry
mod Tests
use la_os.Common.{
  ℕ, zero, suc, ◌+◌, ◌-◌, Bool, true, false, ◌==◌, ltb, leb, if◌then◌else◌, Option, none, some,
  Outcome, ok, panic, ◌>>=◌,
}
use la_os.BootPhase.{boot_phase_require}

-- `MAX_BLOCK_DEVICES` and `BOOT_PHASE_MEMORY_READY`.
abbrev pub max_block_devices : ℕ
max_block_devices = 8

abbrev pub boot_phase_memory_ready : ℕ
boot_phase_memory_ready = 1

-- An `int`.
pub data ℤ : Type 0 where
  pos : ℕ → ℤ
  negsuc : ℕ → ℤ

-- `n - 1`.
abbrev pub pred_int : ℕ → ℤ
pred_int n = if n == 0 then negsuc 0 else pos (n - 1)

-- `g_devices` and `g_dev_count`.
pub record Devices (D : Type 0) : Type 0 where
  pub slots : ℕ → D
  pub count : ℕ

module _ {D : Type 0} where
  abbrev pub set_slot : (ℕ → D) → ℕ → D → ℕ → D
  set_slot slots at dev i = if i == at then dev else slots i

  -- `true` for the result 0, `false` for -1.
  pub block_device_register : Devices D → D → Bool × Devices D
  block_device_register r dev =
      if leb max_block_devices r.count
      then (false, r)
      else (true, record { slots = set_slot r.slots r.count dev; count = r.count + 1 })

  pub block_device_get : Devices D → ℤ → Option D
  block_device_get r (negsuc n) = none
  block_device_get r (pos i) = if leb r.count i then none else some (r.slots i)

  pub block_device_reset : (current_phase : ℕ) → Devices D → Outcome (Devices D)
  block_device_reset current_phase r =
      boot_phase_require current_phase boot_phase_memory_ready
      >>= (λ c. ok (record r { count = 0 }))

  -- `none` is -1; `read` is the call of the device's `read` with the arguments of `block_read`.
  abbrev pub read_of : {R : Type 0} → (read : D → R) → Option D → Option R
  read_of read none = none
  read_of read (some dev) = some (read dev)

  pub block_read : {R : Type 0} → (read : D → R) → Devices D → Option R
  block_read read r = read_of read (block_device_get r (pred_int r.count))
