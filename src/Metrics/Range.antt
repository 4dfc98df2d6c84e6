-- ===== src/Metrics/Range.antt =====
-- `metrics_min` and `metrics_max` (c/src/metrics.c) against the samples.
use mathlib.Core.List.{
  Mem, Mem-prop, forall_mem-cons, mem-cons, mem-cons_self, mem-cons_of_mem, not-mem-nil,
  eq-or-mem_of_mem-cons,
}
use mathlib.Core.Logic.Or
use hybrid_pqc_benchmarking.Prelude.{
  if-cases, ◌<◌, ◌≡◌, ◌⊎◌, inl, inr, refl, ◌∙◌, true, List, [], ◌∷◌, arith, length,
}
use hybrid_pqc_benchmarking.Bench.{Double, IsLawfulDouble}
use hybrid_pqc_benchmarking.Bench.Sort.{◌≼◌, AllNumbers, ≼_prop, ≼_refl, ≼_trans}
use hybrid_pqc_benchmarking.Metrics.{min_from, metrics_min, max_from, metrics_max}

-- `m` is one of the samples and stands in the relation to each of them.
pub record IsExtreme {W : Type 0} (R : W → W → Type 0) (m : W) (l : List W) : Type 0 where
  pub sample : Mem m l
  pub bound : (x : W) → Mem x l → R m x

Mem-keep :
    {W : Type 0} {m k y : W} {l : List W}
    → (m ≡ k) ⊎ (m ≡ y)
    → (x : W) → Mem x (m ∷ l)
    → Mem x (k ∷ y ∷ l)
Mem-keep {k} {y} (inl f) x h =
    Or.elim Mem-prop (eq-or-mem_of_mem-cons h) (λ e. mem-cons.1 (Or.inl (e ∙ f)))
      (λ i. mem-cons_of_mem k (mem-cons_of_mem y i))
Mem-keep {k} {y} (inr f) x h =
    Or.elim Mem-prop (eq-or-mem_of_mem-cons h)
      (λ e. mem-cons_of_mem k (mem-cons.1 (Or.inl (e ∙ f))))
      (λ i. mem-cons_of_mem k (mem-cons_of_mem y i))

module _ {W : Type 0} ⦃d : Double W⦄ (L : IsLawfulDouble W) where
  module _ (R : W → W → Type 0) (R_prop : (x y : W) → IsProp (R x y)) (R_refl : (x : W) → R x x)
      (R_trans : (x y z : W) → L.is_number y ≡ true → R x y → R y z → R x z) where
    IsExtreme-single : (m : W) → IsExtreme R m (m ∷ [])
    IsExtreme-single m = record {
      sample = mem-cons_self;
      bound = (forall_mem-cons (R_prop m)).1 (R_refl m, λ x i. absurd (not-mem-nil i));
    }

    -- A pass keeps `m`, one of two values, that bounds both.
    IsExtreme-keep :
        (r m k y : W) (l : List W)
        → L.is_number m ≡ true
        → R m k
        → R m y
        → (m ≡ k) ⊎ (m ≡ y)
        → IsExtreme R r (m ∷ l)
        → IsExtreme R r (k ∷ y ∷ l)
    IsExtreme-keep r m k y l n p q e s =
        let first = s.bound m mem-cons_self in
        record {
          sample = Mem-keep e r s.sample;
          bound = (forall_mem-cons (R_prop r)).1 (
            R_trans r m k n first p,
            (forall_mem-cons (R_prop r)).1
                (R_trans r m y n first q, λ x i. s.bound x (mem-cons_of_mem m i)),
          );
        }

  abbrev pub IsLeast : W → List W → Type 0
  IsLeast = IsExtreme ◌≼◌

  abbrev pub IsGreatest : W → List W → Type 0
  IsGreatest = IsExtreme (λ m x. x ≼ m)

  min_from-IsLeast : (m : W) (l : List W) → AllNumbers L (m ∷ l) → IsLeast (min_from m l) (m ∷ l)
  unfolding min_from
  min_from-IsLeast m [] n = IsExtreme-single ◌≼◌ ≼_prop (≼_refl L) (≼_trans L) m
  min_from-IsLeast m (x ∷ l) n =
      let keep = IsExtreme-keep ◌≼◌ ≼_prop (≼_refl L) (≼_trans L) in
      if-cases (λ k. IsLeast (min_from k l) (m ∷ x ∷ l)) (d.lt x m)
        (λ e.
          keep _ x m x l (n x (mem-cons_of_mem m mem-cons_self)) (L.lt_asymm x m e) (≼_refl L x)
            (inr refl) (min_from-IsLeast x l λ z i. n z (mem-cons_of_mem m i)))
        (λ e.
          keep _ m m x l (n m mem-cons_self) (≼_refl L m) e (inl refl)
            (min_from-IsLeast m l λ z i. n z (Mem-keep (inl refl) z i)))

  max_from-IsGreatest :
      (m : W) (l : List W) → AllNumbers L (m ∷ l) → IsGreatest (max_from m l) (m ∷ l)
  unfolding max_from
  max_from-IsGreatest m [] n =
      IsExtreme-single (λ a b. b ≼ a) (λ a b. ≼_prop b a) (≼_refl L)
        (λ x y z i p q. ≼_trans L z y x i q p) m
  max_from-IsGreatest m (x ∷ l) n =
      let keep =
        IsExtreme-keep (λ a b. b ≼ a) (λ a b. ≼_prop b a) (≼_refl L)
          (λ x y z i p q. ≼_trans L z y x i q p) in
      if-cases (λ k. IsGreatest (max_from k l) (m ∷ x ∷ l)) (d.lt m x)
        (λ e.
          keep _ x m x l (n x (mem-cons_of_mem m mem-cons_self)) (L.lt_asymm m x e) (≼_refl L x)
            (inr refl) (max_from-IsGreatest x l λ z i. n z (mem-cons_of_mem m i)))
        (λ e.
          keep _ m m x l (n m mem-cons_self) (≼_refl L m) e (inl refl)
            (max_from-IsGreatest m l λ z i. n z (Mem-keep (inl refl) z i)))

  -- For one sample or more, none of them a NaN, `metrics_min` is a sample that no other is below,
  -- and `metrics_max` a sample that is below no other.
  pub metrics-range :
      (vals : List W)
      → 0 < length vals
      → AllNumbers L vals
      → IsLeast (metrics_min vals) vals × IsGreatest (metrics_max vals) vals
  unfolding metrics_min metrics_max
  metrics-range [] h n = absurd (omega arith)
  metrics-range (x ∷ l) h n = (min_from-IsLeast x l n, max_from-IsGreatest x l n)
