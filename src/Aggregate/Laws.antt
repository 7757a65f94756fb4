-- ===== src/Aggregate/Laws.antt =====
-- What the aggregation functions compute over the values of a group.
use redis_graph.Base.{
  ℕ, ◌+◌, Bool, true, false, none, some, List, [], ◌∷◌, ◌≡◌, ◌⊎◌, inl, inr, refl, ap, sym, ◌∙◌,
  length, arith, Option-cases, Bool-cases, All, ltb, if◌then◌else◌,
}
use redis_graph.Value.{Machine, SiValue, to_double, double_val}
use redis_graph.Aggregate.{
  AggCtx, FuncCtx, sum, avg, max, min, count, not_a_number, step, finalize, step_all, sum_func,
  avg_func, max_func, sum_step, avg_step, max_step, min_step, count_step,
}

-- The values that are numbers, as doubles; the others have no part in the result.
abbrev pub numbers : Machine → List SiValue → List ℕ
numbers m [] = []
numbers m (v ∷ vs) = elim (to_double m v) [ none ↦ numbers m vs | some n ↦ n ∷ numbers m vs ]

-- The sum from the left, starting with a total.
abbrev pub total_from : Machine → ℕ → List ℕ → ℕ
total_from m t [] = t
total_from m t (n ∷ ns) = total_from m (m.double_add t n) ns

-- What one number does to a context that takes numbers.
abbrev advance : Machine → FuncCtx → ℕ → FuncCtx
advance m (sum k t) n = sum (k + 1) (m.double_add t n)
advance m (avg k t) n = avg (k + 1) (m.double_add t n)
advance m (max t) n = max (if m.double_lt t n then n else t)
advance m (min t) n = min (if m.double_lt n t then n else t)
advance m (count k) n = count k

abbrev advance_all : Machine → FuncCtx → List ℕ → FuncCtx
advance_all m f [] = f
advance_all m f (n ∷ ns) = advance_all m (advance m f n) ns

abbrev takes_numbers : FuncCtx → Bool
takes_numbers (count k) = false
takes_numbers _ = true

abbrev pub Among : ℕ → List ℕ → Type 0
Among r [] = ⊥
Among r (n ∷ ns) = (r ≡ n) ⊎ Among r ns

module _ (m : Machine) where
  step-number :
      (c : AggCtx) (f : FuncCtx) (v : SiValue) (n : ℕ)
      → c.fctx ≡ f
      → takes_numbers f ≡ true
      → to_double m v ≡ some n
      → ((step m c v).0.fctx ≡ advance m f n) × (takes_numbers (advance m f n) ≡ true)
  unfolding step sum_step avg_step max_step min_step count_step
  step-number c (sum k t) v n h i e = (ground arith, refl)
  step-number c (avg k t) v n h i e = (ground arith, refl)
  step-number c (max t) v n h i e = (ground arith, refl)
  step-number c (min t) v n h i e = (ground arith, refl)
  step-number c (count k) v n h i e = cc

  step-other :
      (c : AggCtx) (f : FuncCtx) (v : SiValue)
      → c.fctx ≡ f
      → takes_numbers f ≡ true
      → to_double m v ≡ none
      → (step m c v).0.fctx ≡ f
  unfolding step sum_step avg_step max_step min_step count_step not_a_number
  step-other c (sum k t) v h i e = ground arith
  step-other c (avg k t) v h i e = ground arith
  step-other c (max t) v h i e = ground arith
  step-other c (min t) v h i e = ground arith
  step-other c (count k) v h i e = cc

  numbers-none :
      (v : SiValue) (vs : List SiValue) → to_double m v ≡ none → numbers m (v ∷ vs) ≡ numbers m vs
  numbers-none v vs e = ground arith

  numbers-some :
      (v : SiValue) (vs : List SiValue) (n : ℕ)
      → to_double m v ≡ some n
      → numbers m (v ∷ vs) ≡ n ∷ numbers m vs
  numbers-some v vs n e = ground arith

  step_all-fctx :
      (c : AggCtx) (f : FuncCtx) (vs : List SiValue)
      → c.fctx ≡ f
      → takes_numbers f ≡ true
      → (step_all m c vs).fctx ≡ advance_all m f (numbers m vs)
  unfolding step_all
  step_all-fctx c f [] h i = h
  step_all-fctx c f (v ∷ vs) h i = elim (Option-cases (to_double m v)) [
    | inl e ↦
        step_all-fctx (step m c v).0 f vs (step-other c f v h i e) i
        ∙ ap (advance_all m f) (sym (numbers-none v vs e))
    | inr (n, e) ↦
        let (next, still) = step-number c f v n h i e in
        step_all-fctx (step m c v).0 (advance m f n) vs next still
        ∙ ap (advance_all m f) (sym (numbers-some v vs n e))
  ]

  advance_all-sum :
      (k t : ℕ) (ns : List ℕ) → advance_all m (sum k t) ns ≡ sum (k + length ns) (total_from m t ns)
  advance_all-sum k t [] = ground arith
  advance_all-sum k t (n ∷ ns) = advance_all-sum (k + 1) (m.double_add t n) ns ∙ ground arith

  advance_all-avg :
      (k t : ℕ) (ns : List ℕ) → advance_all m (avg k t) ns ≡ avg (k + length ns) (total_from m t ns)
  advance_all-avg k t [] = ground arith
  advance_all-avg k t (n ∷ ns) = advance_all-avg (k + 1) (m.double_add t n) ns ∙ ground arith

  finalize-sum : (c : AggCtx) (k t : ℕ) → c.fctx ≡ sum k t → (finalize m c).result ≡ double_val t
  unfolding finalize
  finalize-sum c k t h = ground arith

  finalize-avg :
      (c : AggCtx) (k t : ℕ)
      → c.fctx ≡ avg k t
      → (finalize m c).result
        ≡ (if ltb 0 k then double_val (m.double_div t (m.double_of_uint k)) else double_val 0)
  unfolding finalize
  finalize-avg c k t h = ground arith

  finalize-max : (c : AggCtx) (t : ℕ) → c.fctx ≡ max t → (finalize m c).result ≡ double_val t
  unfolding finalize
  finalize-max c t h = ground arith

  finalize-min : (c : AggCtx) (t : ℕ) → c.fctx ≡ min t → (finalize m c).result ≡ double_val t
  unfolding finalize
  finalize-min c t h = ground arith

  -- SUM is the sum, from 0 and in order, of the values that are numbers; the others change nothing.
  pub sum_of_group :
      (vs : List SiValue)
      → (finalize m (step_all m (sum_func m) vs)).result
        ≡ double_val (total_from m 0 (numbers m vs))
  unfolding sum_func
  sum_of_group vs =
      finalize-sum _ (0 + length (numbers m vs)) (total_from m 0 (numbers m vs))
        (step_all-fctx (sum_func m) (sum 0 0) vs refl refl ∙ advance_all-sum 0 0 (numbers m vs))

  -- AVG is that sum divided by how many of the values are numbers, and 0 if none is.
  pub avg_of_group :
      (vs : List SiValue)
      → (finalize m (step_all m (avg_func m) vs)).result ≡ (
          if ltb 0 (length (numbers m vs))
          then double_val (
              m.double_div
                (total_from m 0 (numbers m vs))
                (m.double_of_uint (length (numbers m vs))))
          else double_val 0)
  unfolding avg_func
  avg_of_group vs = finalize-avg _ (length (numbers m vs)) (total_from m 0 (numbers m vs)) (
      step_all-fctx (avg_func m) (avg 0 0) vs refl refl
      ∙ advance_all-avg 0 0 (numbers m vs)
      ∙ ap (λ k. avg k (total_from m 0 (numbers m vs))) (omega arith))

  -- The comparison of doubles orders those that are numbers, which a NaN is not.
  pub record IsOrdered (IsNumber : ℕ → Type 0) : Type 0 where
    pub lt_irrefl : (a : ℕ) → IsNumber a → m.double_lt a a ≡ false
    pub le_trans :
        (a b c : ℕ)
        → IsNumber a
        → IsNumber b
        → IsNumber c
        → m.double_lt b a ≡ false
        → m.double_lt c b ≡ false
        → m.double_lt c a ≡ false
    pub le_of_lt :
        (a b : ℕ) → IsNumber a → IsNumber b → m.double_lt a b ≡ true → m.double_lt b a ≡ false

  -- The result is at least the start and each number, and one of them.
  abbrev IsTop : ℕ → List ℕ → ℕ → Type 0
  IsTop t ns r =
      (m.double_lt r t ≡ false) × All (λ n. m.double_lt r n ≡ false) ns × ((r ≡ t) ⊎ Among r ns)

  module _ (IsNumber : ℕ → Type 0) (o : IsOrdered IsNumber) where
    advance_all-max :
        (t : ℕ) (ns : List ℕ)
        → IsNumber t
        → All IsNumber ns
        → (r : ℕ) × (advance_all m (max t) ns ≡ max r) × IsNumber r × IsTop t ns r
    advance_all-max t [] h all = (t, refl, h, (o.lt_irrefl t h, tt, inl refl))
    advance_all-max t (n ∷ ns) h (k, all) = elim (Bool-cases (m.double_lt t n)) [
      | inl more ↦
          let (r, e, l, top) = advance_all-max n ns k all in
          (
            r,
            rw more e,
            l,
            (o.le_trans t n r h k l (o.le_of_lt t n h k more) top.0, (top.0, top.1), inr top.2),
          )
      | inr less ↦
          let (r, e, l, top) = advance_all-max t ns h all in
          (
            r,
            rw less e,
            l,
            (
              top.0,
              (o.le_trans n t r k h l less top.0, top.1),
              elim top.2 [ inl x ↦ inl x | inr y ↦ inr (inr y) ],
            ),
          )
    ]

    -- MAX is at least each of the values that are numbers, and it is one of them or the -DBL_MAX
    -- that the context starts with, if the values are doubles that the comparison orders, no NaN
    -- among them.
    pub max_of_group :
        (vs : List SiValue)
        → IsNumber m.double_min
        → All IsNumber (numbers m vs)
        → (r : ℕ) × ((finalize m (step_all m (max_func m) vs)).result ≡ double_val r)
          × IsTop m.double_min (numbers m vs) r
    unfolding max_func
    max_of_group vs h all =
        let (r, e, l, top) = advance_all-max m.double_min (numbers m vs) h all in
        (r, finalize-max _ r (step_all-fctx (max_func m) (max m.double_min) vs refl refl ∙ e), top)
