-- ===== src/Bench/Sort.antt =====
-- `qsort` with `cmp_double` (c_dispatch/benchmark_suite.c): its result is a permutation, and an
-- ascending one where no sample is a NaN.
use mathlib.Core.Bool.{Bool-set}
use mathlib.Core.List.{
  Mem, Perm, Pairwise, Pairwise-singleton, forall_mem-cons, mem-cons, mem-cons_self,
  mem-cons_of_mem,
}
use mathlib.Core.List.Perm
use mathlib.Core.Logic.Or
use hybrid_pqc_benchmarking.Prelude.{
  if-cases, ℕ, zero, suc, ◌≤◌, ◌<◌, ◌≡◌, refl, ap, ◌∙◌, sym, true, false, not, some, List, [], ◌∷◌,
  arith, length,
}
use hybrid_pqc_benchmarking.Prelude.Int.{ℤ, pos, leb_ℤ}
use hybrid_pqc_benchmarking.Bench.{Double, IsLawfulDouble, cmp_double, insert, qsort, get_elem?}

module _ {W : Type 0} ⦃d : Double W⦄ where
  infix 4 ◌≼◌
  abbrev pub ◌≼◌ : W → W → Type 0
  x ≼ y = d.lt y x ≡ false

  pub ≼_prop : (x y : W) → IsProp (x ≼ y)
  ≼_prop x y = Bool-set _ _

  abbrev pub IsSorted : List W → Type 0
  IsSorted = Pairwise ◌≼◌

  abbrev IsBelow : W → List W → Type 0
  IsBelow a l = (x : W) → Mem x l → a ≼ x

  IsBelow-cons : {a b : W} {l : List W} → a ≼ b → IsBelow a l → IsBelow a (b ∷ l)
  IsBelow-cons {a} p h = (forall_mem-cons (≼_prop a)).1 (p, h)

  insert-perm : (cmp : W → W → ℤ) (x : W) (l : List W) → Perm (insert cmp x l) (x ∷ l)
  unfolding insert
  insert-perm cmp x [] = Perm.rfl
  insert-perm cmp x (y ∷ ys) =
      if-cases (λ l. Perm l (x ∷ y ∷ ys)) (leb_ℤ (cmp x y) (pos 0)) (λ e. Perm.rfl)
        (λ e. Perm.trans (Perm.cons y (insert-perm cmp x ys)) (Perm.swap x y ys))

  pub qsort-perm : (cmp : W → W → ℤ) (l : List W) → Perm (qsort cmp l) l
  unfolding qsort
  qsort-perm cmp [] = Perm.rfl
  qsort-perm cmp (x ∷ l) =
      Perm.trans (insert-perm cmp x (qsort cmp l)) (Perm.cons x (qsort-perm cmp l))

  length-insert : (cmp : W → W → ℤ) (x : W) (l : List W) → length (insert cmp x l) ≡ suc (length l)
  unfolding insert
  length-insert cmp x [] = refl
  length-insert cmp x (y ∷ l) =
      if-cases (λ (k : List W). length k ≡ suc (suc (length l))) (leb_ℤ (cmp x y) (pos 0))
        (λ e. refl) (λ e. ap suc (length-insert cmp x l))

  pub length-qsort : (cmp : W → W → ℤ) (l : List W) → length (qsort cmp l) ≡ length l
  unfolding qsort
  length-qsort cmp [] = refl
  length-qsort cmp (x ∷ l) = length-insert cmp x (qsort cmp l) ∙ ap suc (length-qsort cmp l)

  module _ (L : IsLawfulDouble W) where
    abbrev pub AllNumbers : List W → Type 0
    AllNumbers l = (x : W) → Mem x l → L.is_number x ≡ true

    pub ≼_refl : (x : W) → x ≼ x
    ≼_refl x = ground (arith, L.lt_asymm x x)

    pub ≼_trans : (x y z : W) → L.is_number y ≡ true → x ≼ y → y ≼ z → x ≼ z
    ≼_trans x y z n p q = ground (arith, L.lt_split z y x n)

    -- The insertion test reads whether `y` is below `x`.
    insert_test : (x y : W) → leb_ℤ (cmp_double x y) (pos 0) ≡ not (d.lt y x)
    unfolding cmp_double
    insert_test x y = ground (arith, L.lt_asymm x y)

    insert-IsSorted :
        (x : W) (l : List W) → AllNumbers l → IsSorted l → IsSorted (insert cmp_double x l)
    unfolding insert
    insert-IsSorted x [] n s = Pairwise-singleton _ x
    insert-IsSorted x (y ∷ ys) n (Pairwise.cons below s) =
        if-cases IsSorted (leb_ℤ (cmp_double x y) (pos 0))
          (λ e.
            let le : x ≼ y = ground (arith, insert_test x y) in
            Pairwise.cons (IsBelow-cons le λ z m. ≼_trans x y z (n y mem-cons_self) le (below z m))
              (Pairwise.cons below s))
          (λ e.
            let lt : d.lt y x ≡ true = ground (arith, insert_test x y) in
            Pairwise.cons
              (λ z m.
                IsBelow-cons (L.lt_asymm y x lt) below z
                  ((Perm.mem_iff (insert-perm cmp_double x ys)).0 m))
              (insert-IsSorted x ys (λ z m. n z (mem-cons_of_mem y m)) s))

    pub qsort-IsSorted : (l : List W) → AllNumbers l → IsSorted (qsort cmp_double l)
    unfolding qsort
    qsort-IsSorted [] n = Pairwise.nil
    qsort-IsSorted (x ∷ l) n =
        insert-IsSorted x (qsort cmp_double l)
          (λ y m. n y (mem-cons_of_mem x ((Perm.mem_iff (qsort-perm cmp_double l)).0 m)))
          (qsort-IsSorted l (λ y m. n y (mem-cons_of_mem x m)))

  -- An index inside the list is that of a member.
  pub get_elem?-Mem :
      (l : List W) (i : ℕ) → i < length l → (x : W) × (get_elem? l i ≡ some x) × Mem x l
  unfolding get_elem?
  get_elem?-Mem [] i h = absurd (omega arith)
  get_elem?-Mem (x ∷ l) zero h = (x, refl, mem-cons_self)
  get_elem?-Mem (x ∷ l) (suc i) h =
      let (y, e, m) = get_elem?-Mem l i (omega arith) in (y, e, mem-cons_of_mem x m)

  get_elem?-Mem_of_some : (l : List W) (i : ℕ) (x : W) → get_elem? l i ≡ some x → Mem x l
  unfolding get_elem?
  get_elem?-Mem_of_some [] i x e = absurd (ground arith)
  get_elem?-Mem_of_some (y ∷ l) zero x e = mem-cons.1 (Or.inl (ground arith))
  get_elem?-Mem_of_some (y ∷ l) (suc i) x e = mem-cons_of_mem y (get_elem?-Mem_of_some l i x e)

  pub get_elem?-IsSorted :
      (L : IsLawfulDouble W) (l : List W) (i j : ℕ) (x y : W)
      → IsSorted l
      → i ≤ j
      → get_elem? l i ≡ some x
      → get_elem? l j ≡ some y
      → x ≼ y
  unfolding get_elem?
  get_elem?-IsSorted L [] i j x y s h p q = absurd (ground arith)
  get_elem?-IsSorted L (a ∷ l) zero zero x y s h p q = ground (arith, ≼_refl L x)
  get_elem?-IsSorted L (a ∷ l) zero (suc j) x y (Pairwise.cons below s) h p q =
      let same : a ≡ x = ground arith in rw (sym same) (below y (get_elem?-Mem_of_some l j y q))
  get_elem?-IsSorted L (a ∷ l) (suc i) zero x y s h p q = absurd (omega arith)
  get_elem?-IsSorted L (a ∷ l) (suc i) (suc j) x y (Pairwise.cons below s) h p q =
      get_elem?-IsSorted L l i j x y s (omega arith) p q
