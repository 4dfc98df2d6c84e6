-- ===== src/First/Weights.antt =====
-- c/bench_baselines.c: what the object of weights holds after the loop.
use hybrid_pqc_benchmarking.Prelude.{
  ℕ, ◌≡◌, ◌∙◌, Bool, true, false, ◌||◌, ◌++◌, All, if◌then◌else◌, if-cases, Bool-cases, inl, inr,
  Option, none, some, String, List, [], ◌∷◌, arith,
}
use hybrid_pqc_benchmarking.Algo.{AlgoCombo, is_pure_classical, is_pure_quantum}
use hybrid_pqc_benchmarking.Bench.{Double}
use hybrid_pqc_benchmarking.First.Costs.{
  CjsonTree, same_name, stable, algo_key, weight_entry, with_cost, add_baseline, weights_from,
}

-- cJSON, with memory at hand: a member is found under its name, up to case, and a printed object is
-- read as one that has the same members, each number `reread` from its digits.
pub record IsLawfulTree {W : Type 0} (json : CjsonTree W) : Type 0 where
  pub reread : W → W
  pub get-create : (name : String) → json.get_item json.create_object name ≡ none
  pub get-add_item :
      (o i : json.Object) (name : String)
      → json.get_item o name ≡ none
      → json.get_item (json.add_item o name i) name ≡ some i
  pub get-add_item_other :
      (o i : json.Object) (name other : String)
      → same_name name other ≡ false
      → json.get_item (json.add_item o name i) other ≡ json.get_item o other
  -- In an object whose other members are the texts "label" and "profile".
  pub get-add_number :
      (label profile : String) (x : W)
      → json.get_number
          (json.add_number
            (json.add_string (json.add_string json.create_object "label" label) "profile" profile)
            "stable_cost_ms"
            x)
          "stable_cost_ms"
        ≡ some x
  pub parses :
      (o : json.Object) (text : List ℕ)
      → json.print o ≡ some text
      → (o' : json.Object) × (json.parse text ≡ some o')
  pub parse-print_missing :
      (o o' : json.Object) (text : List ℕ) (name : String)
      → json.print o ≡ some text
      → json.parse text ≡ some o'
      → json.get_item o name ≡ none
      → json.get_item o' name ≡ none
  pub parse-print_number :
      (o o' i : json.Object) (text : List ℕ) (name inner : String) (x : W)
      → json.print o ≡ some text
      → json.parse text ≡ some o'
      → json.get_item o name ≡ some i
      → json.get_number i inner ≡ some x
      → (i' : json.Object) × (json.get_item o' name ≡ some i')
        × (json.get_number i' inner ≡ some (reread x))

abbrev pub is_baseline : AlgoCombo → Bool
is_baseline c = is_pure_classical c.profile || is_pure_quantum c.profile

-- No baseline that goes by this name.
abbrev pub avoids : {W : Type 0} ⦃d : Double W⦄ → CjsonTree W → String → AlgoCombo → Bool
avoids json name c =
    if is_baseline c then (if same_name (algo_key json c) name then false else true) else true

module _ {W : Type 0} ⦃d : Double W⦄ (json : CjsonTree W) (J : IsLawfulTree json)
    (handshake : AlgoCombo → ℕ → W) (num_runs : ℕ) where
  -- The object has this cost under a name, or nothing where there is none.
  abbrev pub Holds : json.Object → String → Option W → Type 0
  Holds o name none = json.get_item o name ≡ none
  Holds o name (some x) =
      (i : json.Object) × (json.get_item o name ≡ some i)
      × (json.get_number i "stable_cost_ms" ≡ some x)

  Holds-other :
      (o i : json.Object) (key name : String) (v : Option W)
      → same_name key name ≡ false
      → Holds o name v
      → Holds (json.add_item o key i) name v
  Holds-other o i key name none other h = J.get-add_item_other o i key name other ∙ h
  Holds-other o i key name (some x) other (k, e, f) =
      (k, J.get-add_item_other o i key name other ∙ e, f)

  with_cost-other :
      (o : json.Object) (c : AlgoCombo) (cost : Option W) (name : String) (v : Option W)
      → same_name (algo_key json c) name ≡ false
      → Holds o name v
      → Holds (with_cost json o c cost) name v
  with_cost-other o c none name v other h = h
  with_cost-other o c (some cost) name v other h =
      Holds-other o (weight_entry json c cost) (algo_key json c) name v other h

  with_cost-own :
      (o : json.Object) (c : AlgoCombo) (cost : Option W)
      → json.get_item o (algo_key json c) ≡ none
      → Holds (with_cost json o c cost) (algo_key json c) cost
  unfolding weight_entry
  with_cost-own o c none h = h
  with_cost-own o c (some cost) h = (
    weight_entry json c cost,
    J.get-add_item o (weight_entry json c cost) (algo_key json c) h,
    J.get-add_number c.label
        (if is_pure_classical c.profile then "pure_classical" else "pure_quantum") cost,
  )

  add_baseline-other :
      (o : json.Object) (c : AlgoCombo) (name : String) (v : Option W)
      → avoids json name c ≡ true
      → Holds o name v
      → Holds (add_baseline json handshake num_runs o c) name v
  unfolding add_baseline
  add_baseline-other o c name v free h =
      if-cases (λ z. Holds z name v) (is_baseline c)
        (λ baseline.
          with_cost-other o c (stable handshake num_runs c) name v
            (elim (Bool-cases (same_name (algo_key json c) name)) [
              | inl same ↦ absurd (grind arith)
              | inr other ↦ other
            ])
            h)
        (λ _. h)

  weights_from-other :
      (cs : List AlgoCombo) (o : json.Object) (name : String) (v : Option W)
      → All (λ c. avoids json name c ≡ true) cs
      → Holds o name v
      → Holds (weights_from json handshake num_runs o cs) name v
  unfolding weights_from
  weights_from-other [] o name v free h = h
  weights_from-other (c ∷ cs) o name v (free, rest) h =
      weights_from-other cs (add_baseline json handshake num_runs o c) name v rest
        (add_baseline-other o c name v free h)

  pub weights_from-own :
      (before after : List AlgoCombo) (c : AlgoCombo) (o : json.Object)
      → is_baseline c ≡ true
      → All (λ b. avoids json (algo_key json c) b ≡ true) before
      → All (λ b. avoids json (algo_key json c) b ≡ true) after
      → json.get_item o (algo_key json c) ≡ none
      → Holds
          (weights_from json handshake num_runs o (before ++ c ∷ after))
          (algo_key json c)
          (stable handshake num_runs c)
  unfolding weights_from add_baseline
  weights_from-own [] after c o baseline free_before free_after h =
      weights_from-other after (add_baseline json handshake num_runs o c) (algo_key json c)
        (stable handshake num_runs c) free_after
        (rw baseline (with_cost-own o c (stable handshake num_runs c) h))
  weights_from-own (b ∷ bs) after c o baseline (free, free_before) free_after h =
      weights_from-own bs after c (add_baseline json handshake num_runs o b) baseline free_before
        free_after (add_baseline-other o b (algo_key json c) none free h)
