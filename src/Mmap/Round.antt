-- ===== src/Mmap/Round.antt =====
-- `do_mmap` of kernel/arch/x86_64/syscall.c, and `do_munmap` after it.
use la_os.Common.{
  ltb, panic, ◌≤◌, ℕ, zero, suc, ◌+◌, ◌*◌, ◌<◌, ◌≡◌, ◌≢◌, refl, sym, ap, subst, ◌∙◌, Bool, true,
  false, ◌==◌, none, some, arith, if-both, if-true, if-false, Bool-cases, inl, inr, ◌⊎◌, page_size,
  Outcome, ok, ◌>>=◌,
}
use la_os.Mmap.{
  Process, set, phys_of, first_page, page_for, map_free, map_round, mapped_or_free, pmm_alloc,
  other_pages, take_tables, release_loop,
}
use la_os.Mmap.Rollback.{
  set-here, set-there, one, one_self, loans, loans-same, loans-last, count-one, released,
  released-IsReleased, release_loop-released,
}

-- A page that is given back has been given by `pmm_alloc`.
abbrev pub IsBalanced : Process → Type 0
IsBalanced s = (x : ℕ) → s.freed x ≤ s.taken x + s.in_tables x

-- The thread's memory is as it was, and each page is out as often, but for those in tables.
pub record IsRestored (s s' : Process) : Type 0 where
  pub vmas : s'.vmas ≡ s.vmas
  pub pages : (b : ℕ) → s'.pages b ≡ s.pages b
  pub balance : (x : ℕ) → s'.taken x + s.freed x ≡ s.taken x + s'.freed x
  pub tables : (x : ℕ) → s.in_tables x ≤ s'.in_tables x

-- The first `mapped` pages from `vaddr` on have been mapped, and nothing else has changed.
pub record IsMapped (mapped vaddr : ℕ) (s s' : Process) : Type 0 where
  pub vmas : s'.vmas ≡ s.vmas
  pub outside :
      (b : ℕ) → ((k : ℕ) → k < mapped → b ≢ vaddr + k * page_size) → s'.pages b ≡ s.pages b
  pub balance :
      (x : ℕ) → s'.taken x + s.freed x ≡ s.taken x + s'.freed x + loans mapped vaddr s'.pages x
  pub tables : (x : ℕ) → s.in_tables x ≤ s'.in_tables x

-- An address is the start of one of the pages or of none.
page-cases :
    (mapped vaddr b : ℕ)
    → ((k : ℕ) × (k < mapped) × (b ≡ vaddr + k * page_size))
      ⊎ ((k : ℕ) → k < mapped → b ≢ vaddr + k * page_size)
page-cases zero vaddr b = inr (λ k lt e. omega (arith, lt))
page-cases (suc mapped) vaddr b = elim (Bool-cases (b == vaddr + mapped * page_size)) [
  | inl e ↦ inl (mapped, omega arith, ground (arith, e))
  | inr other ↦ elim (page-cases mapped vaddr b) [
    | inl found ↦ inl (found.0, omega (arith, found.1), found.2)
    | inr off ↦ inr (λ k lt e. elim (Bool-cases (k == mapped)) [
      | inl last ↦ (let at : k ≡ mapped = ground (arith, last) in ground (arith, other, e, at))
      | inr before ↦ off k (ground (arith, lt, before)) e
    ])
  ]
]

-- Releasing the mapped pages does not panic and restores the state, where they were not mapped
-- before.
pub released-IsRestored :
    (mapped vaddr : ℕ) (s s' : Process)
    → ((k : ℕ) → k < mapped → s.pages (vaddr + k * page_size) ≡ none)
    → IsBalanced s
    → IsMapped mapped vaddr s s'
    → (release_loop mapped vaddr s' ≡ ok (released mapped vaddr s'))
      × IsRestored s (released mapped vaddr s')
released-IsRestored mapped vaddr s s' free balanced m =
    let r = released-IsReleased mapped vaddr s' in
    (
      release_loop-released mapped vaddr s' (λ x.
          let balance = m.balance x in
          let tables = m.tables x in let out = balanced x in omega (arith, balance, tables, out)),
      record {
        vmas = r.vmas ∙ m.vmas;
        pages = λ b. elim (page-cases mapped vaddr b) [
          | inl found ↦
              ap (released mapped vaddr s').pages found.2
              ∙ r.inside found.0 found.1
              ∙ sym (free found.0 found.1)
              ∙ sym (ap s.pages found.2)
          | inr off ↦ r.outside b off ∙ m.outside b off
        ];
        balance = λ x.
            let balance = m.balance x in
            let taken = r.taken x in let freed = r.freed x in omega (arith, balance, taken, freed);
        tables =
            λ x. let tables = m.tables x in let same = r.tables x in omega (arith, tables, same);
      },
    )

-- The tables take pages and change nothing else.
record IsTabled (s s' : Process) : Type 0 where
  vmas : s'.vmas ≡ s.vmas
  pages : s'.pages ≡ s.pages
  taken : s'.taken ≡ s.taken
  freed : s'.freed ≡ s.freed
  tables : (x : ℕ) → s.in_tables x ≤ s'.in_tables x

set-more : (f : ℕ → ℕ) (a x : ℕ) → f x ≤ set f a (f a + 1) x
set-more f a x = elim (Bool-cases (x == a)) [
  | inl e ↦
      let same : f x ≡ f a = ap f {x = x} {y = a} (ground (arith, e)) in
      let now = if-true (x == a) (f a + 1) (f x) e in omega (arith, same, now)
  | inr e ↦ let now = if-false (x == a) (f a + 1) (f x) e in omega (arith, now)
]

take_tables-IsTabled : (missing : ℕ) (s : Process) → IsTabled s ((take_tables missing s).1)
unfolding take_tables
take_tables-IsTabled zero s = record {
  vmas = refl;
  pages = refl;
  taken = refl;
  freed = refl;
  tables = λ x. omega arith;
}
take_tables-IsTabled (suc missing) s =
    let phys = first_page s.supply in
    let s1 = record s { supply = other_pages s.supply } in
    let s2 = record s1 { in_tables = set s.in_tables phys (s.in_tables phys + 1) } in
    let rest = take_tables-IsTabled missing s2 in
    if-both (λ (r : Bool × Process). IsTabled s r.1) (phys == 0) (false, s1)
      (take_tables missing s2)
      (λ e. record {
        vmas = refl;
        pages = refl;
        taken = refl;
        freed = refl;
        tables = λ x. omega arith;
      })
      (λ e. record {
        vmas = rest.vmas;
        pages = rest.pages;
        taken = rest.taken;
        freed = rest.freed;
        tables = λ x.
            let one_more = set-more s.in_tables phys x in
            let more_tables = rest.tables x in omega (arith, one_more, more_tables);
      })

stay_balance : (t f0 t0 f l t' : ℕ) → t + f0 ≡ t0 + f + l → t' ≡ t → t' + f0 ≡ t0 + f + l
stay_balance t f0 t0 f l t' e same = omega (arith, e, same)

more_balance :
    (t f0 t0 f l t' one l' : ℕ)
    → t + f0 ≡ t0 + f + l
    → t' ≡ t + one
    → l' ≡ l + one
    → t' + f0 ≡ t0 + f + l'
more_balance t f0 t0 f l t' one l' e took loan = omega (arith, e, took, loan)

back_balance :
    (t f0 t0 f l t' one f' : ℕ)
    → t + f0 ≡ t0 + f + l
    → t' ≡ t + one
    → f' ≡ f + one
    → t' + f0 ≡ t0 + f' + l
back_balance t f0 t0 f l t' one f' e took gave = omega (arith, e, took, gave)

-- A round that has no page, or no table, changes nothing but the count of the page it gives back.
pub data IsRound (mapped vaddr prot : ℕ) (s s1 : Process) : Outcome (Bool × Process) → Type 0 where
  more :
      {s' : Process}
      → IsMapped (mapped + 1) vaddr s s'
      → (phys : ℕ) → phys ≢ 0
      → s'.pages ≡ set s1.pages (vaddr + mapped * page_size) (some (page_for phys prot))
      → IsRound mapped vaddr prot s s1 (ok (true, s'))
  stopped :
      {s' : Process} → IsMapped mapped vaddr s s' → IsRound mapped vaddr prot s s1 (ok (false, s'))

freed_balance : (t f0 t0 f1 f l : ℕ) → f1 ≡ f → t + f0 ≡ t0 + f + l → t + f0 ≡ t0 + f1 + l
freed_balance t f0 t0 f1 f l e h = omega (arith, e, h)

loans_balance : (t f0 t0 f l1 l : ℕ) → l1 ≡ l → t + f0 ≡ t0 + f + l → t + f0 ≡ t0 + f + l1
loans_balance t f0 t0 f l1 l e h = omega (arith, e, h)

room-test : (f t : ℕ) → f < t → ltb f t ≡ true
room-test f t lt = ground (arith, lt)

out_now :
    (t f0 t0 f l b b0 t1 : ℕ)
    → t + f0 ≡ t0 + f + l
    → f0 ≤ t0 + b0
    → b0 ≤ b
    → t1 ≡ t + 1
    → f < t1 + b
out_now t f0 t0 f l b b0 t1 e out grown took = omega (arith, e, out, grown, took)

pub map_round-IsRound :
    (mapped vaddr prot : ℕ) (s s' : Process)
    → s'.pages (vaddr + mapped * page_size) ≡ none
    → IsBalanced s
    → IsMapped mapped vaddr s s'
    → IsRound mapped vaddr prot s s' (map_round s' (vaddr + mapped * page_size) prot)
unfolding map_round
map_round-IsRound mapped vaddr prot s s' free balanced m =
    let cursor = vaddr + mapped * page_size in
    let phys = first_page s'.supply in
    let page = page_for phys prot in
    let s1 = (pmm_alloc s').1 in
    let s2 = record s1 { tables = other_pages s'.tables } in
    let call = take_tables (first_page s'.tables) s2 in
    let s3 = call.1 in
    let t = take_tables-IsTabled (first_page s'.tables) s2 in
    let s4 = record s3 { pages = set s3.pages cursor (some page) } in
    let s5 = record s3 { freed = set s3.freed phys (s3.freed phys + 1) } in
    if-both (IsRound mapped vaddr prot s s') (phys == 0) (ok (false, s1)) _
      (λ none_left. stopped (record {
        vmas = m.vmas;
        outside = m.outside;
        balance = λ x. stay_balance _ _ _ _ _ _ (m.balance x) (
            ap (λ f. f x)
              (if-true (phys == 0) s'.taken (set s'.taken phys (s'.taken phys + 1)) none_left));
        tables = m.tables;
      }))
      (λ given.
        let took : (x : ℕ) → s3.taken x ≡ s'.taken x + one phys x = λ x.
          ap (λ f. f x) t.taken
          ∙ ap (λ f. f x)
              (if-false (phys == 0) s'.taken (set s'.taken phys (s'.taken phys + 1)) given)
          ∙ count-one s'.taken phys x given in
        let same_freed : (x : ℕ) → s3.freed x ≡ s'.freed x = λ x. ap (λ f. f x) t.freed in
        let more_tables : (x : ℕ) → s.in_tables x ≤ s3.in_tables x =
          λ x. let a = m.tables x in let b = t.tables x in omega (arith, a, b) in
        subst
          (λ o.
            IsRound mapped vaddr prot s s'
              (map_free s1 cursor page o >>= λ r. mapped_or_free phys r))
          (sym free)
          (if-both (λ (r : Bool × Process). IsRound mapped vaddr prot s s' (mapped_or_free phys r))
            call.0 (true, s4) (false, s3)
            (λ has_table.
              more
                (record {
                  vmas = t.vmas ∙ m.vmas;
                  outside = λ b off.
                      set-there s3.pages cursor b (some page) (off mapped (omega arith))
                      ∙ ap (λ f. f b) t.pages
                      ∙ m.outside b (λ k lt. off k (omega (arith, lt)));
                  balance = λ x. freed_balance _ _ _ _ _ _ (same_freed x) (
                      more_balance _ _ _ _ _ _ (one phys x) _ (m.balance x) (took x) (
                        loans-last mapped vaddr s4.pages x
                        ∙ ap (λ n. n + one (phys_of (s4.pages cursor)) x)
                            (loans-same mapped vaddr s'.pages s4.pages x (λ b ge lt.
                              set-there s3.pages cursor b (some page) (λ e. omega (arith, e, lt))
                              ∙ ap (λ f. f b) t.pages))
                        ∙ ap (λ p. loans mapped vaddr s'.pages x + one (phys_of p) x)
                            (set-here s3.pages cursor (some page))));
                  tables = more_tables;
                })
                phys (λ z. ground (arith, given, z)) (ap (λ f. set f cursor (some page)) t.pages))
            (λ no_table.
              subst (λ o. IsRound mapped vaddr prot s s' (o >>= λ s''. ok (false, s'')))
                (sym (
                  if-true (ltb (s3.freed phys) (s3.taken phys + s3.in_tables phys)) (ok s5) panic (
                    room-test _ _ (
                      subst (λ n. n < s3.taken phys + s3.in_tables phys) (sym (same_freed phys))
                        (out_now _ _ _ _ _ _ _ _ (m.balance phys) (balanced phys) (more_tables phys)
                          (took phys ∙ ap (λ n. s'.taken phys + n) (one_self phys given)))))))
                (stopped (record {
                  vmas = t.vmas ∙ m.vmas;
                  outside = λ b off. ap (λ f. f b) t.pages ∙ m.outside b off;
                  balance = λ x.
                      loans_balance _ _ _ _ _ _
                        (loans-same mapped vaddr s'.pages s3.pages x
                          (λ b ge lt. ap (λ f. f b) t.pages))
                        (back_balance _ _ _ _ _ _ (one phys x) _ (m.balance x) (took x) (
                          count-one s3.freed phys x given
                          ∙ ap (λ n. n + one phys x) (same_freed x)));
                  tables = more_tables;
                })))))
