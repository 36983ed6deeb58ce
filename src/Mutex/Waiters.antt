-- ===== src/Mutex/Waiters.antt =====
-- The order of the wait queue of kernel/mutex.c.
use la_os.Common.{
  ℕ, ◌≤◌, ◌<◌, ◌≡◌, ◌∙◌, refl, ap, true, false, ltb, List, [], ◌∷◌, ◌++◌, arith, Bool-cases, inl,
  inr,
}
use la_os.Mutex.{insert_waiter}

module _ (priority : ℕ → ℕ) where
  -- All waiters have the priority `p` or a higher one.
  abbrev pub AllUpTo : (p : ℕ) → List ℕ → Type 0
  AllUpTo p [] = Unit {0}
  AllUpTo p (t ∷ ts) = (priority t ≤ p) × AllUpTo p ts

  -- The queue is empty or begins with a lower priority, a higher number, than `p`.
  abbrev pub BeginsAfter : (p : ℕ) → List ℕ → Type 0
  BeginsAfter p [] = Unit {0}
  BeginsAfter p (t ∷ ts) = p < priority t

  -- The new waiter stands in front of the first one of a lower priority, or at the end.
  pub record IsPlaced (t : ℕ) (ts ts' : List ℕ) : Type 0 where
    pub before : List ℕ
    pub after : List ℕ
    pub split : ts ≡ before ++ after
    pub joined : ts' ≡ before ++ t ∷ after
    pub up_to : AllUpTo (priority t) before
    pub behind : BeginsAfter (priority t) after

  insert-before :
      (t u : ℕ) (us : List ℕ)
      → ltb (priority t) (priority u) ≡ true
      → insert_waiter priority t (u ∷ us) ≡ t ∷ u ∷ us
  unfolding insert_waiter
  insert-before t u us before = rw before

  insert-behind :
      (t u : ℕ) (us : List ℕ)
      → ltb (priority t) (priority u) ≡ false
      → insert_waiter priority t (u ∷ us) ≡ u ∷ insert_waiter priority t us
  unfolding insert_waiter
  insert-behind t u us behind = rw behind

  -- In any queue, in the order of the priorities or not, a new waiter is put in front of the first
  -- waiter of a lower priority than its own, or at the end where there is none, and so behind all
  -- of its own priority that come before that; the others keep their places.
  pub insert_waiter-IsPlaced : (t : ℕ) (ts : List ℕ) → IsPlaced t ts (insert_waiter priority t ts)
  unfolding insert_waiter
  insert_waiter-IsPlaced t [] = record {
    before = [];
    after = [];
    split = refl;
    joined = refl;
    up_to = tt;
    behind = tt;
  }
  insert_waiter-IsPlaced t (u ∷ us) = elim (Bool-cases (ltb (priority t) (priority u))) [
    | inl before ↦ record {
      before = [];
      after = u ∷ us;
      split = refl;
      joined = insert-before t u us before;
      up_to = tt;
      behind = ground arith;
    }
    | inr behind ↦
        let rest = insert_waiter-IsPlaced t us in
        record {
          before = u ∷ rest.before;
          after = rest.after;
          split = ap (λ l. u ∷ l) rest.split;
          joined = insert-behind t u us behind ∙ ap (λ l. u ∷ l) rest.joined;
          up_to = (ground arith, rest.up_to);
          behind = rest.behind;
        }
  ]
