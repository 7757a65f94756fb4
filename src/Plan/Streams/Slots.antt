-- ===== src/Plan/Streams/Slots.antt =====
-- src/execution_plan/ops/op_expand_all.c: the two slots of nodes that an expansion writes.
use redis_graph.Base.{
  ℕ, zero, suc, Bool, true, List, [], ◌∷◌, some, Bool-cases, inl, inr, get_elem?, set, ◌≡◌, refl,
  ap,
}
use redis_graph.Plan.Consume.{set_if}
use redis_graph.Plan.Expand.{set-again, set-back, set-both}

-- Writing twice is writing once, also if the slots are one.
pub set-twice : (xs : List ℕ) (i a b : ℕ) → set (set xs i a) i b ≡ set xs i b
set-twice [] i a b = refl
set-twice (x ∷ xs) zero a b = refl
set-twice (x ∷ xs) (suc i) a b = ap (λ ys. x ∷ ys) (set-twice xs i a b)

set-both_twice :
    (xs : List ℕ) (i j a b a' b' : ℕ)
    → set (set (set (set xs i a) j b) i a') j b' ≡ set (set xs i a') j b'
set-both_twice [] i j a b a' b' = refl
set-both_twice (x ∷ xs) zero zero a b a' b' = refl
set-both_twice (x ∷ xs) zero (suc j) a b a' b' = ap (λ ys. a' ∷ ys) (set-twice xs j b b')
set-both_twice (x ∷ xs) (suc i) zero a b a' b' = ap (λ ys. b' ∷ ys) (set-twice xs i a a')
set-both_twice (x ∷ xs) (suc i) (suc j) a b a' b' =
    ap (λ ys. x ∷ ys) (set-both_twice xs i j a b a' b')

module _ (s o : Bool) (xs : List ℕ) (i j : ℕ) where
  pub set_if-twice :
      (a b a' b' : ℕ)
      → set_if o (set_if s (set_if o (set_if s xs i a) j b) i a') j b'
        ≡ set_if o (set_if s xs i a') j b'
  set_if-twice a b a' b' = elim (Bool-cases s) [
    | inl es ↦ elim (Bool-cases o) [
      | inl eo ↦ rw (es, eo) (set-both_twice xs i j a b a' b')
      | inr eo ↦ rw (es, eo) (set-twice xs i a a')
    ]
    | inr es ↦ elim (Bool-cases o) [
      | inl eo ↦ rw (es, eo) (set-twice xs j b b')
      | inr eo ↦ rw (es, eo) refl
    ]
  ]

  -- What was written is undone where it was written.
  pub set_if-undone :
      (x y a b : ℕ)
      → (s ≡ true → get_elem? xs i ≡ some x)
      → (o ≡ true → get_elem? xs j ≡ some y)
      → set_if o (set_if s (set_if o (set_if s xs i a) j b) i x) j y ≡ xs
  set_if-undone x y a b hi hj = elim (Bool-cases s) [
    | inl es ↦ elim (Bool-cases o) [
      | inl eo ↦ rw (es, eo) (set-both xs i j x y a b (hi es) (hj eo))
      | inr eo ↦ rw (es, eo) (set-again xs i x a (hi es))
    ]
    | inr es ↦ elim (Bool-cases o) [
      | inl eo ↦ rw (es, eo) (set-again xs j y b (hj eo))
      | inr eo ↦ rw (es, eo) refl
    ]
  ]

  pub set_if-own :
      (a b : ℕ)
      → get_elem? xs i ≡ some a
      → get_elem? xs j ≡ some b
      → set_if o (set_if s xs i a) j b ≡ xs
  set_if-own a b hi hj = elim (Bool-cases s) [
    | inl es ↦ elim (Bool-cases o) [
      | inl eo ↦ rw (es, eo) (rw (set-back xs i a hi) (set-back xs j b hj))
      | inr eo ↦ rw (es, eo) (set-back xs i a hi)
    ]
    | inr es ↦ elim (Bool-cases o) [
      | inl eo ↦ rw (es, eo) (set-back xs j b hj)
      | inr eo ↦ rw (es, eo) refl
    ]
  ]
