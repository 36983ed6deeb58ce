-- ===== src/Mmap/Loop.antt =====
-- The loop of `do_mmap` of kernel/arch/x86_64/syscall.c.
use la_os.Common.{
  ℕ, zero, suc, ◌+◌, ◌*◌, ◌≤◌, ◌<◌, ◌≡◌, ◌≢◌, ap, subst, sym, ◌∙◌, Bool, ◌==◌, none, some, arith,
  Bool-cases, inl, inr, page_size, Outcome, ok, ◌>>=◌, if◌then◌else◌,
}
use la_os.Vma.{vma_free}
use la_os.Mmap.{Process, set, page_for, map_round, rollback, map_loop}
use la_os.Mmap.Rollback.{set-here, set-there}
use la_os.Mmap.Round.{
  IsMapped, IsBalanced, released-IsRestored, IsRound, more, stopped, map_round-IsRound,
}

-- The first pages are mapped with the protection.
abbrev pub Holds : (mapped vaddr prot : ℕ) → Process → Type 0
Holds mapped vaddr prot s =
    (k : ℕ)
    → k < mapped
    → (phys : ℕ) × (phys ≢ 0) × (s.pages (vaddr + k * page_size) ≡ some (page_for phys prot))

Holds-more :
    (mapped vaddr prot phys : ℕ) (s s' : Process)
    → phys ≢ 0
    → s'.pages ≡ set s.pages (vaddr + mapped * page_size) (some (page_for phys prot))
    → Holds mapped vaddr prot s
    → Holds (mapped + 1) vaddr prot s'
Holds-more mapped vaddr prot phys s s' given eq held k lt = elim (Bool-cases (k == mapped)) [
  | inl e ↦
      let last : k ≡ mapped = ground (arith, e) in
      (
        phys,
        given,
        ap (λ f. f (vaddr + k * page_size)) eq
            ∙ ap (set s.pages (vaddr + mapped * page_size) (some (page_for phys prot)))
                {x = vaddr + k * page_size} {y = vaddr + mapped * page_size} (omega (arith, last))
            ∙ set-here s.pages (vaddr + mapped * page_size) (some (page_for phys prot)),
      )
  | inr other ↦
      let before = held k (ground (arith, other, lt)) in
      (
        before.0,
        before.1,
        ap (λ f. f (vaddr + k * page_size)) eq
            ∙ set-there s.pages (vaddr + mapped * page_size) (vaddr + k * page_size)
                (some (page_for phys prot)) (λ e. ground (arith, other, e))
            ∙ before.2,
      )
]

-- After the rollback the region is given back.
pub record IsUndone (vaddr length : ℕ) (s s' : Process) : Type 0 where
  pub vmas : s'.vmas ≡ (vma_free s.vmas vaddr length).1
  pub pages : (b : ℕ) → s'.pages b ≡ s.pages b
  pub balance : (x : ℕ) → s'.taken x + s.freed x ≡ s.taken x + s'.freed x
  pub tables : (x : ℕ) → s.in_tables x ≤ s'.in_tables x

-- All pages are mapped, or none is.
pub data IsLoop (total vaddr length prot : ℕ) (s : Process) : Outcome (ℕ × Process) → Type 0 where
  done :
      {s' : Process}
      → IsMapped total vaddr s s'
      → Holds total vaddr prot s'
      → IsLoop total vaddr length prot s (ok (vaddr, s'))
  undone :
      {s' : Process} → IsUndone vaddr length s s' → IsLoop total vaddr length prot s (ok (0, s'))

rollback-IsLoop :
    (mapped vaddr length prot total : ℕ) (s s' : Process)
    → ((k : ℕ) → k < mapped → s.pages (vaddr + k * page_size) ≡ none)
    → IsBalanced s
    → IsMapped mapped vaddr s s'
    → IsLoop total vaddr length prot s (rollback mapped vaddr length s')
unfolding rollback
rollback-IsLoop mapped vaddr length prot total s s' free balanced m =
    let (returns, r) = released-IsRestored mapped vaddr s s' free balanced m in
    subst
      (λ (o : Outcome Process).
        IsLoop total vaddr length prot s
          (o >>= λ x. ok (0, record x { vmas = (vma_free x.vmas vaddr length).1 })))
      (sym returns)
      (undone (record {
        vmas = ap (λ us. (vma_free us vaddr length).1) r.vmas;
        pages = r.pages;
        balance = r.balance;
        tables = r.tables;
      }))

round-IsLoop :
    (rounds mapped vaddr length prot total : ℕ) (s s1 : Process) (o : Outcome (Bool × Process))
    → total ≡ suc rounds + mapped
    → ((k : ℕ) → k < total → s.pages (vaddr + k * page_size) ≡ none)
    → IsBalanced s
    → Holds mapped vaddr prot s1
    → ((s' : Process)
        → IsMapped (mapped + 1) vaddr s s'
        → Holds (mapped + 1) vaddr prot s'
        → IsLoop total vaddr length prot s (map_loop rounds (mapped + 1) vaddr length prot s'))
    → IsRound mapped vaddr prot s s1 o
    → IsLoop total vaddr length prot s (
        o >>= λ r.
        if r.0
        then map_loop rounds (mapped + 1) vaddr length prot r.1
        else rollback mapped vaddr length r.1)
round-IsLoop rounds mapped vaddr length prot total s s1 o sum free balanced held next
      (more {s' = s'} m phys given eq) =
    next s' m (Holds-more mapped vaddr prot phys s1 s' given eq held)
round-IsLoop rounds mapped vaddr length prot total s s1 o sum free balanced held next
      (stopped {s' = s'} m) =
    rollback-IsLoop mapped vaddr length prot total s s' (λ k lt. free k (omega (arith, lt, sum)))
      balanced m

pub map_loop-IsLoop :
    (rounds mapped vaddr length prot total : ℕ) (s s1 : Process)
    → total ≡ rounds + mapped
    → ((k : ℕ) → k < total → s.pages (vaddr + k * page_size) ≡ none)
    → IsBalanced s
    → IsMapped mapped vaddr s s1
    → Holds mapped vaddr prot s1
    → IsLoop total vaddr length prot s (map_loop rounds mapped vaddr length prot s1)
unfolding map_loop
map_loop-IsLoop zero mapped vaddr length prot total s s1 sum free balanced m held =
    subst (λ t. IsLoop t vaddr length prot s (ok (vaddr, s1))) {x = mapped} {y = total}
      (omega (arith, sum)) (done m held)
map_loop-IsLoop (suc rounds) mapped vaddr length prot total s s1 sum free balanced m held =
    round-IsLoop rounds mapped vaddr length prot total s s1
      (map_round s1 (vaddr + mapped * page_size) prot) sum free balanced held
      (λ s' m' held'.
        map_loop-IsLoop rounds (mapped + 1) vaddr length prot total s s' (omega (arith, sum)) free
          balanced m' held')
      (map_round-IsRound mapped vaddr prot s s1
        (m.outside _ (λ k lt e. omega (arith, lt, e)) ∙ free mapped (omega (arith, sum))) balanced
        m)
