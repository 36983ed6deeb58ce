-- ===== src/BlockDevice/Registry.antt =====
-- The registry of kernel/block_device.c as a list of devices.
use la_os.Common.{
  ℕ, zero, suc, ◌+◌, ◌-◌, ◌≤◌, ◌<◌, ◌≡◌, ◌∙◌, sym, ap, refl, Bool, true, false, ◌==◌, ltb, leb,
  none, some, List, [], ◌∷◌, ◌++◌, ◌⊎◌, inl, inr, arith, Bool-cases, if-true, if-false, if-both,
  length, get_elem?, length-append,
}
use la_os.BlockDevice.{
  max_block_devices, pos, negsuc, pred_int, Devices, set_slot, block_device_register,
  block_device_get, read_of, block_read,
}

last_index : (n : ℕ) → pred_int (n + 1) ≡ pos n
last_index n =
    if-false (n + 1 == 0) (negsuc 0) (pos (n + 1 - 1)) (ground arith) ∙ ap pos (omega arith)

module _ {D : Type 0} where
  -- The first `n` slots as a list.
  pub first_slots : (ℕ → D) → (n : ℕ) → List D
  first_slots slots zero = []
  first_slots slots (suc n) = first_slots slots n ++ (slots n ∷ [])

  -- The devices in the order of their registration.
  abbrev pub view : Devices D → List D
  view r = first_slots r.slots r.count

  same-first_slots :
      (f g : ℕ → D) (n : ℕ) → ((i : ℕ) → i < n → f i ≡ g i) → first_slots f n ≡ first_slots g n
  unfolding first_slots
  same-first_slots f g zero same = refl
  same-first_slots f g (suc n) same =
      ap (λ l. l ++ (f n ∷ [])) (same-first_slots f g n (λ i lt. same i (omega arith)))
      ∙ ap (λ d. first_slots g n ++ (d ∷ [])) (same n (omega arith))

  set_slot-first_slots :
      (slots : ℕ → D) (n : ℕ) (dev : D)
      → first_slots (set_slot slots n dev) (n + 1) ≡ first_slots slots n ++ (dev ∷ [])
  unfolding first_slots
  set_slot-first_slots slots n dev =
      ap (first_slots (set_slot slots n dev)) (next n)
      ∙ ap (λ l. l ++ (set_slot slots n dev n ∷ []))
          (same-first_slots (set_slot slots n dev) slots n
            (λ i lt. if-false (i == n) dev (slots i) (ground arith)))
      ∙ ap (λ d. first_slots slots n ++ (d ∷ [])) (if-true (n == n) dev (slots n) (ground arith))
    where
      next : (n : ℕ) → n + 1 ≡ suc n
      next n = omega arith

  -- The device is appended, or the registry is full and stays as it is.
  abbrev pub Registered : Devices D → D → Bool × Devices D → Type 0
  Registered r dev result =
      ((r.count < max_block_devices) × (result.0 ≡ true) × (view result.1 ≡ view r ++ (dev ∷ [])))
      ⊎ ((max_block_devices ≤ r.count) × (result ≡ (false, r)))

  -- Registering a device appends it to the list of devices, while there are fewer than eight, and
  -- fails without a change when there are eight or more.
  pub block_device_register-Registered :
      (r : Devices D) (dev : D) → Registered r dev (block_device_register r dev)
  unfolding block_device_register
  block_device_register-Registered r dev =
      if-both (Registered r dev) (leb max_block_devices r.count) (false, r) _
        (λ full. inr (ground arith, refl))
        (λ room. inl (ground arith, refl, set_slot-first_slots r.slots r.count dev))

  get-before : (xs ys : List D) (i : ℕ) → i < length xs → get_elem? (xs ++ ys) i ≡ get_elem? xs i
  get-before [] ys i lt = absurd (omega arith)
  get-before (x ∷ xs) ys zero lt = refl
  get-before (x ∷ xs) ys (suc i) lt = get-before xs ys i (omega arith)

  get-last : (xs : List D) (y : D) → get_elem? (xs ++ (y ∷ [])) (length xs) ≡ some y
  get-last [] y = refl
  get-last (x ∷ xs) y = get-last xs y

  get-none : (xs : List D) (i : ℕ) → length xs ≤ i → get_elem? xs i ≡ none
  get-none [] i le = refl
  get-none (x ∷ xs) zero le = absurd (omega arith)
  get-none (x ∷ xs) (suc i) le = get-none xs i (omega arith)

  first_slots-length : (slots : ℕ → D) (n : ℕ) → length (first_slots slots n) ≡ n
  unfolding first_slots
  first_slots-length slots zero = refl
  first_slots-length slots (suc n) =
      omega (arith, length-append (first_slots slots n) (slots n ∷ []), first_slots-length slots n)

  get-first_slots :
      (slots : ℕ → D) (n i : ℕ) → i < n → get_elem? (first_slots slots n) i ≡ some (slots i)
  unfolding first_slots
  get-first_slots slots zero i lt = absurd (omega arith)
  get-first_slots slots (suc n) i lt = elim (Bool-cases (ltb i n)) [
    | inl before ↦
        get-before (first_slots slots n) (slots n ∷ []) i
          (ground (arith, first_slots-length slots n))
        ∙ get-first_slots slots n i (ground arith)
    | inr here ↦
        let last : i ≡ n = ground arith in
        ap (get_elem? (first_slots slots n ++ (slots n ∷ [])))
          (last ∙ sym (first_slots-length slots n))
        ∙ get-last (first_slots slots n) (slots n)
        ∙ ap (λ j. some (slots j)) (sym last)
  ]

  -- `block_device_get` with an index from 0 on gives the device at that place of the list of
  -- devices, and `NULL` from its end on.
  pub block_device_get-view :
      (r : Devices D) (i : ℕ) → block_device_get r (pos i) ≡ get_elem? (view r) i
  unfolding block_device_get
  block_device_get-view r i = elim (Bool-cases (leb r.count i)) [
    | inl past ↦
        if-true (leb r.count i) none (some (r.slots i)) past
        ∙ sym (get-none (view r) i (ground (arith, first_slots-length r.slots r.count)))
    | inr inside ↦
        if-false (leb r.count i) none (some (r.slots i)) inside
        ∙ sym (get-first_slots r.slots r.count i (ground arith))
  ]

  -- While there are fewer than eight devices, `block_read` reads from the device that was
  -- registered last.
  pub block_device_register-block_read :
      {R : Type 0} (read : D → R) (r : Devices D) (dev : D)
      → r.count < max_block_devices
      → block_read read (block_device_register r dev).1 ≡ some (read dev)
  unfolding block_read block_device_register block_device_get
  block_device_register-block_read {R = R} read r dev room =
      let n = r.count in
      let r' : Devices D = record { slots = set_slot r.slots n dev; count = n + 1 } in
      ap (λ (x : Bool × Devices D). block_read {D = D} {R = R} read x.1)
        (if-false (leb max_block_devices n) (false, r) (true, r') (ground arith))
      ∙ ap (λ z. read_of {D = D} {R = R} read (block_device_get r' z)) (last_index n)
      ∙ ap (read_of {D = D} {R = R} read)
          (if-false (leb (n + 1) n) none (some (set_slot r.slots n dev n)) (ground arith))
      ∙ ap (λ d. some (read d)) (if-true (n == n) dev (r.slots n) (ground arith))
