-- ===== src/Vmm/View.antt =====
-- What the page tables of kernel/vmm.c translate, by the number of the page.
use la_os.Common.{
  ℕ, zero, suc, ◌+◌, ◌*◌, ◌/◌, ◌%◌, ◌≡◌, ◌≢◌, inl, inr, refl, ap, ◌∙◌, Bool, true, false, not, ◌&&◌,
  ◌==◌, if◌then◌else◌, Option, none, some, arith, Bool-cases, if-true, if-false, split_and,
  page_size,
}
use la_os.Vmm.{Entry, is_present, is_leaf, high_part, page_of, Memory, write, fill}

-- The digits of the number of a page: its index in a table of the level `n`, 0 for `PT_IDX`, and
-- what is above it.
abbrev pub above : (n p : ℕ) → ℕ
above zero p = p
above (suc n) p = above n p / 512

abbrev pub index : (n p : ℕ) → ℕ
index n p = above n p % 512

-- The pages that an entry of the level spans.
abbrev pub span : ℕ → ℕ
span zero = 1
span (suc n) = 512 * span n

abbrev pub has_blocks : ℕ → Bool
has_blocks zero = false
has_blocks (suc zero) = true
has_blocks (suc (suc zero)) = true
has_blocks (suc (suc (suc n))) = false

abbrev pub is_block : ℕ → Entry → Bool
is_block n e = has_blocks n && is_leaf e

abbrev pub block_address : (n : ℕ) → Entry → (p : ℕ) → ℕ
block_address n e p =
    e.frame / span n * span n * page_size + high_part e.bit + p % span n * page_size

-- The address of a page, and the bits of the entry that maps it.
abbrev pub Mapping : Type 0
Mapping = ℕ × (ℕ → Bool)

-- What an entry of the level `n` gives, where `rest` is what the table gives that it names.
abbrev pub through : (n : ℕ) → Entry → (p : ℕ) → (rest : Option Mapping) → Option Mapping
through n e p rest =
    if not (is_present e)
    then none
    else if is_block n e
    then some (block_address n e p, e.bit)
    else rest

unfoldable pub view : (n : ℕ) → Memory → (table p : ℕ) → Option Mapping
view zero mem table p =
    if is_present (mem table (index 0 p))
    then some (page_of (mem table (index 0 p)), (mem table (index 0 p)).bit)
    else none
view (suc n) mem table p =
    through (suc n) (mem table (index (suc n) p)) p
      (view n mem (page_of (mem table (index (suc n) p))) p)

pub write-here : (mem : Memory) (t i : ℕ) (e : Entry) → write mem t i e t i ≡ e
write-here mem t i e = if-true (t == t && (i == i)) e (mem t i) (ground arith)

pub write-there :
    (mem : Memory) (t i u j : ℕ) (e : Entry) → (u ≡ t → j ≢ i) → write mem t i e u j ≡ mem u j
write-there mem t i u j e off = elim (Bool-cases (u == t && (j == i))) [
  | inl on ↦
      let (same_table, same_index) = split_and (u == t) (j == i) on in
      absurd (off (ground (arith, same_table)) (ground (arith, same_index)))
  | inr e_off ↦ if-false (u == t && (j == i)) e (mem u j) e_off
]

pub fill-here : (mem : Memory) (t j : ℕ) (es : ℕ → Entry) → fill mem t es t j ≡ es j
fill-here mem t j es = if-true (t == t) (es j) (mem t j) (ground arith)

pub fill-there : (mem : Memory) (t u j : ℕ) (es : ℕ → Entry) → u ≢ t → fill mem t es u j ≡ mem u j
fill-there mem t u j es off = if-false (u == t) (es j) (mem u j) (ground (arith, off))

pick-same :
    (present block : Bool) (a rest rest' : Option Mapping)
    → (present ≡ true → block ≡ false → rest ≡ rest')
    → (if not present then none else if block then a else rest)
      ≡ (if not present then none else if block then a else rest')
pick-same false block a rest rest' same = refl
pick-same true true a rest rest' same = refl
pick-same true false a rest rest' same = same refl refl

pub through-same :
    (n : ℕ) (e : Entry) (p : ℕ) (rest rest' : Option Mapping)
    → (is_present e ≡ true → is_block n e ≡ false → rest ≡ rest')
    → through n e p rest ≡ through n e p rest'
through-same n e p rest rest' same =
    pick-same (is_present e) (is_block n e) (some (block_address n e p, e.bit)) rest rest' same

pub through-absent :
    (n : ℕ) (e : Entry) (p : ℕ) (rest : Option Mapping)
    → is_present e ≡ false
    → through n e p rest ≡ none
through-absent n e p rest off =
    if-true (not (is_present e)) none
      (if is_block n e then some (block_address n e p, e.bit) else rest) (ap not off)

pub through-block :
    (n : ℕ) (e : Entry) (p : ℕ) (rest : Option Mapping)
    → is_present e ≡ true
    → is_block n e ≡ true
    → through n e p rest ≡ some (block_address n e p, e.bit)
through-block n e p rest on block =
    if-false (not (is_present e)) none
      (if is_block n e then some (block_address n e p, e.bit) else rest) (ap not on)
    ∙ if-true (is_block n e) (some (block_address n e p, e.bit)) rest block

pub through-table :
    (n : ℕ) (e : Entry) (p : ℕ) (rest : Option Mapping)
    → is_present e ≡ true
    → is_block n e ≡ false
    → through n e p rest ≡ rest
through-table n e p rest on table =
    if-false (not (is_present e)) none
      (if is_block n e then some (block_address n e p, e.bit) else rest) (ap not on)
    ∙ if-false (is_block n e) (some (block_address n e p, e.bit)) rest table
