-- ===== src/Mmap/Rollback.antt =====
-- What the loops of kernel/arch/x86_64/syscall.c that unmap pages leave.
use la_os.Common.{
  ℕ, zero, suc, ◌+◌, ◌*◌, ◌≤◌, ◌<◌, ◌≡◌, ◌≢◌, refl, ap, ◌∙◌, false, ◌==◌, if◌then◌else◌, Option,
  none, arith, if-both, if-true, if-false, Bool-cases, inl, inr, page_size, Outcome, ok, panic,
  ◌>>=◌, ltb, subst, sym,
}
use la_os.Mmap.{Page, Process, set, phys_of, vmm_unmap, release, release_loop}

-- What `release` leaves where it does not panic.
abbrev pub gone : Process → (va : ℕ) → Process
gone s va =
    let phys = phys_of (s.pages va) in
    let s' = vmm_unmap s va in
    if phys == 0 then s' else record s' { freed = set s.freed phys (s.freed phys + 1) }

-- What the loop leaves where it does not panic.
pub released : (rounds va : ℕ) → Process → Process
released zero va s = s
released (suc rounds) va s = released rounds (va + page_size) (gone s va)

pub set-here {ℓ} : {A : Type ℓ} (f : ℕ → A) (a : ℕ) (x : A) → set f a x a ≡ x
set-here f a x = if-true (a == a) x (f a) (ground arith)

pub set-there {ℓ} : {A : Type ℓ} (f : ℕ → A) (a b : ℕ) (x : A) → b ≢ a → set f a x b ≡ f b
set-there f a b x ne = if-false (b == a) x (f b) (ground (arith, ne))

-- 1 for the page `x` itself, unless it is no page.
abbrev pub one : (phys x : ℕ) → ℕ
one phys x = if phys == 0 then 0 else if x == phys then 1 else 0

-- How often a page is mapped by the `rounds` pages from `va` on.
pub loans : (rounds va : ℕ) → (ℕ → Option Page) → (x : ℕ) → ℕ
loans zero va pages x = 0
loans (suc rounds) va pages x = one (phys_of (pages va)) x + loans rounds (va + page_size) pages x

-- Pages that agree on the region have the same loans.
pub loans-same :
    (rounds va : ℕ) (pages pages' : ℕ → Option Page) (x : ℕ)
    → ((b : ℕ) → va ≤ b → b < va + rounds * page_size → pages' b ≡ pages b)
    → loans rounds va pages' x ≡ loans rounds va pages x
unfolding loans
loans-same zero va pages pages' x same = refl
loans-same (suc rounds) va pages pages' x same =
    ap (λ p. one (phys_of p) x + loans rounds (va + page_size) pages' x)
      (same va (omega arith) (omega arith))
    ∙ ap (λ n. one (phys_of (pages va)) x + n)
        (loans-same rounds (va + page_size) pages pages' x
          (λ b ge lt. same b (omega (arith, ge)) (omega (arith, lt))))

plus : (a b c d : ℕ) → b ≡ a → d ≡ c → a + c ≡ b + d
plus a b c d e f = omega (arith, e, f)

plus_zero : (a b : ℕ) → b ≡ 0 → a ≡ a + b
plus_zero a b e = omega (arith, e)

zero_plus : (a : ℕ) → a ≡ 0 → 0 + a ≡ 0
zero_plus a e = omega (arith, e)

-- A region of pages that are not mapped has no loans.
pub loans-none :
    (rounds va : ℕ) (s : Process) (x : ℕ)
    → ((k : ℕ) → k < rounds → s.pages (va + k * page_size) ≡ none)
    → loans rounds va s.pages x ≡ 0
unfolding loans
loans-none zero va s x free = refl
loans-none (suc rounds) va s x free =
    ap (λ p. one (phys_of p) x + loans rounds (va + page_size) s.pages x)
      (ap s.pages {x = va} {y = va + 0 * page_size} (omega arith) ∙ free 0 (omega arith))
    ∙ zero_plus _ (
        loans-none rounds (va + page_size) s x (λ k lt.
          ap s.pages {x = va + page_size + k * page_size} {y = va + suc k * page_size} (omega arith)
          ∙ free (suc k) (omega (arith, lt))))

add_zero : (a b : ℕ) → b ≡ a → a + 0 ≡ 0 + b
add_zero a b e = omega (arith, e)

add_assoc : (a b c d : ℕ) → c ≡ d → a + (b + c) ≡ a + b + d
add_assoc a b c d e = omega (arith, e)

pub loans-last :
    (rounds va : ℕ) (pages : ℕ → Option Page) (x : ℕ)
    → loans (rounds + 1) va pages x
      ≡ loans rounds va pages x + one (phys_of (pages (va + rounds * page_size))) x
unfolding loans
loans-last zero va pages x =
    add_zero (one (phys_of (pages va)) x) _ (ap (λ b. one (phys_of (pages b)) x) (omega arith))
loans-last (suc rounds) va pages x =
    ap (λ n. loans n va pages x) {x = suc rounds + 1} {y = suc (rounds + 1)} (omega arith)
    ∙ ap (λ n. one (phys_of (pages va)) x + n) (loans-last rounds (va + page_size) pages x)
    ∙ add_assoc (one (phys_of (pages va)) x) (loans rounds (va + page_size) pages x) _ _
        (ap (λ b. one (phys_of (pages b)) x) (omega arith))

-- The state after the `rounds` pages from `va` on have been released.
pub record IsReleased (rounds va : ℕ) (s s' : Process) : Type 0 where
  pub vmas : s'.vmas ≡ s.vmas
  pub taken : (x : ℕ) → s'.taken x ≡ s.taken x
  pub tables : (x : ℕ) → s'.in_tables x ≡ s.in_tables x
  pub freed : (x : ℕ) → s'.freed x ≡ s.freed x + loans rounds va s.pages x
  pub inside : (k : ℕ) → k < rounds → s'.pages (va + k * page_size) ≡ none
  pub outside : (b : ℕ) → ((k : ℕ) → k < rounds → b ≢ va + k * page_size) → s'.pages b ≡ s.pages b

gone-vmas : (s : Process) (va : ℕ) → (gone s va).vmas ≡ s.vmas
gone-vmas s va =
    if-both (λ (r : Process). r.vmas ≡ s.vmas) (phys_of (s.pages va) == 0) _ _ (λ e. refl)
      (λ e. refl)

gone-pages : (s : Process) (va : ℕ) → (gone s va).pages ≡ set s.pages va none
gone-pages s va =
    if-both (λ (r : Process). r.pages ≡ set s.pages va none) (phys_of (s.pages va) == 0) _ _
      (λ e. refl) (λ e. refl)

gone-taken : (s : Process) (va : ℕ) → (gone s va).taken ≡ s.taken
gone-taken s va =
    if-both (λ (r : Process). r.taken ≡ s.taken) (phys_of (s.pages va) == 0) _ _ (λ e. refl)
      (λ e. refl)

gone-tables : (s : Process) (va : ℕ) → (gone s va).in_tables ≡ s.in_tables
gone-tables s va =
    if-both (λ (r : Process). r.in_tables ≡ s.in_tables) (phys_of (s.pages va) == 0) _ _ (λ e. refl)
      (λ e. refl)

pub count-one :
    (f : ℕ → ℕ) (phys x : ℕ) → (phys == 0) ≡ false → set f phys (f phys + 1) x ≡ f x + one phys x
count-one f phys x ne = elim (Bool-cases (x == phys)) [
  | inl e ↦
      let same : x ≡ phys = ground (arith, e) in
      let at_phys = ap f same in
      let once =
        if-false (phys == 0) 0 (if x == phys then 1 else 0) ne ∙ if-true (x == phys) 1 0 e in
      if-true (x == phys) (f phys + 1) (f x) e ∙ plus (f phys) (f x) 1 _ at_phys once
  | inr e ↦
      let never =
        if-false (phys == 0) 0 (if x == phys then 1 else 0) ne ∙ if-false (x == phys) 1 0 e in
      if-false (x == phys) (f phys + 1) (f x) e ∙ plus_zero (f x) _ never
]

gone-freed :
    (s : Process) (va x : ℕ) → (gone s va).freed x ≡ s.freed x + one (phys_of (s.pages va)) x
gone-freed s va x =
    let phys = phys_of (s.pages va) in
    if-both (λ (r : Process). r.freed x ≡ s.freed x + one phys x) (phys == 0) _ _
      (λ e. plus_zero (s.freed x) _ (if-true (phys == 0) 0 (if x == phys then 1 else 0) e))
      (λ e. count-one s.freed phys x e)

freed_sum : (a b c d e : ℕ) → a ≡ b + c → d ≡ e → a + d ≡ b + (c + e)
freed_sum a b c d e f g = omega (arith, f, g)

-- The first page, and the others.
inside-first :
    (rounds va : ℕ) (s s' : Process)
    → IsReleased rounds (va + page_size) (gone s va) s'
    → (k : ℕ) → k < suc rounds
    → s'.pages (va + k * page_size) ≡ none
inside-first rounds va s s' r zero lt =
    ap s'.pages {x = va + 0} {y = va} (omega arith)
    ∙ r.outside va (λ k lt e. omega (arith, e))
    ∙ ap (λ f. f va) (gone-pages s va)
    ∙ set-here s.pages va none
inside-first rounds va s s' r (suc k) lt =
    ap s'.pages {x = va + suc k * page_size} {y = va + page_size + k * page_size} (omega arith)
    ∙ r.inside k (omega (arith, lt))

pub released-IsReleased :
    (rounds va : ℕ) (s : Process) → IsReleased rounds va s (released rounds va s)
unfolding released loans
released-IsReleased zero va s = record {
  vmas = refl;
  taken = λ x. refl;
  tables = λ x. refl;
  freed = λ x. omega arith;
  inside = λ k lt. absurd (omega (arith, lt));
  outside = λ b off. refl;
}
released-IsReleased (suc rounds) va s =
    let s' = gone s va in
    let r = released-IsReleased rounds (va + page_size) s' in
    record {
      vmas = r.vmas ∙ gone-vmas s va;
      taken = λ x. r.taken x ∙ ap (λ f. f x) (gone-taken s va);
      tables = λ x. r.tables x ∙ ap (λ f. f x) (gone-tables s va);
      freed = λ x.
          r.freed x
          ∙ freed_sum (s'.freed x) (s.freed x) (one (phys_of (s.pages va)) x) _ _
              (gone-freed s va x)
              (loans-same rounds (va + page_size) s.pages s'.pages x (λ b ge lt.
                ap (λ f. f b) (gone-pages s va)
                ∙ set-there s.pages va b none (λ e. omega (arith, e, ge))));
      inside = inside-first rounds va s _ r;
      outside = λ b off.
          r.outside b (λ k lt e. off (k + 1) (omega (arith, lt)) (omega (arith, e)))
          ∙ ap (λ f. f b) (gone-pages s va)
          ∙ set-there s.pages va b none (λ e. off 0 (omega arith) (omega (arith, e)));
    }

pub one_self : (phys : ℕ) → (phys == 0) ≡ false → one phys phys ≡ 1
one_self phys ne =
    if-false (phys == 0) 0 (if phys == phys then 1 else 0) ne
    ∙ if-true (phys == phys) 1 0 (ground arith)

-- A page that is out is given back.
release-gone :
    (s : Process) (va : ℕ)
    → ((x : ℕ) → s.freed x + one (phys_of (s.pages va)) x ≤ s.taken x + s.in_tables x)
    → release s va ≡ ok (gone s va)
release-gone s va out =
    let phys = phys_of (s.pages va) in
    let s' = vmm_unmap s va in
    let s'' : Process = record s' { freed = set s.freed phys (s.freed phys + 1) } in
    elim (Bool-cases (phys == 0)) [
      | inl e ↦ if-true (phys == 0) (ok s') _ e ∙ ap ok (sym (if-true (phys == 0) s' s'' e))
      | inr e ↦
          let one_out = one_self phys e in
          let room = out phys in
          if-false (phys == 0) (ok s') _ e
          ∙ if-true (ltb (s.freed phys) (s.taken phys + s.in_tables phys)) (ok s'') panic
              (ground (arith, one_out, room))
          ∙ ap ok (sym (if-false (phys == 0) s' s'' e))
    ]

sum_left : (f o l t f' l' : ℕ) → f + (o + l) ≤ t → f' ≡ f + o → l' ≡ l → f' + l' ≤ t
sum_left f o l t f' l' le e g = omega (arith, le, e, g)

first_out : (f o l t : ℕ) → f + (o + l) ≤ t → f + o ≤ t
first_out f o l t le = omega (arith, le)

-- The loop does not panic where the pages that it gives back are out.
pub release_loop-released :
    (rounds va : ℕ) (s : Process)
    → ((x : ℕ) → s.freed x + loans rounds va s.pages x ≤ s.taken x + s.in_tables x)
    → release_loop rounds va s ≡ ok (released rounds va s)
unfolding release_loop released loans
release_loop-released zero va s out = refl
release_loop-released (suc rounds) va s out =
    let s' = gone s va in
    ap (λ (o : Outcome Process). o >>= λ s''. release_loop rounds (va + page_size) s'')
      (release-gone s va (λ x. first_out _ _ _ _ (out x)))
    ∙ release_loop-released rounds (va + page_size) s' (λ x.
      subst (λ n. s'.freed x + loans rounds (va + page_size) s'.pages x ≤ n)
        (sym (
          ap (λ f. f x + s'.in_tables x) (gone-taken s va)
          ∙ ap (λ f. s.taken x + f x) (gone-tables s va)))
        (sum_left _ _ _ _ _ _ (out x) (gone-freed s va x) (
          loans-same rounds (va + page_size) s.pages s'.pages x (λ b ge lt.
            ap (λ f. f b) (gone-pages s va)
            ∙ set-there s.pages va b none (λ e. omega (arith, e, ge))))))
