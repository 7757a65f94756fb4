-- ===== src/Plan/Streams/Over.antt =====
-- src/execution_plan/execution_plan.c: an operation over a stream is a stream.
use redis_graph.Base.{
  ℕ, zero, suc, List, [], ◌∷◌, some, Run, ok, fault, out_of_fuel, get_elem?, set, ◌>>=◌, ◌≡◌, ◌≢◌,
  refl, ap, inl, inr, ◌==◌, ==_iff, Bool-cases, Run-cases,
}
use redis_graph.Plan.{
  OpNode, OpResult, op_depleted, op_ok, op_refresh, op_err, StreamState, stream_consuming,
}
use redis_graph.Plan.Execute.{
  OpBase, Streams, consume_and_pull, start_consuming, call, pull_from_streams, advance,
  pull_uninitialized, pull_depleted,
}
use redis_graph.Plan.TreeLaws.{get_elem?-set}
use redis_graph.Plan.Streams.{Layout, place, with_child}

set-set {ℓ} : {A : Type ℓ} (xs : List A) (i : ℕ) (a b : A) → set (set xs i a) i b ≡ set xs i b
set-set [] i a b = refl
set-set (x ∷ xs) zero a b = refl
set-set (x ∷ xs) (suc i) a b = ap (λ ys. x ∷ ys) (set-set xs i a b)

module _ {O : Type 0} where
  pub place_self : (l : Layout O) (i : ℕ) (n : OpNode O) → place l i n i ≡ some n
  place_self l i n = rw ((==_iff i i).1 refl) refl

  pub place_other : (l : Layout O) (i j : ℕ) (n : OpNode O) → j ≢ i → place l i n j ≡ l j
  place_other l i j n ne = elim (Bool-cases (j == i)) [
    | inl same ↦ absurd (ne ((==_iff j i).0 same))
    | inr other ↦ rw other refl
  ]

abbrev pub consuming : {O : Type 0} → OpNode O → OpNode O
consuming n = record n { state = stream_consuming }

module _ {O W : Type 0} where
  start_lem :
      (ns : List (OpNode O)) (i : ℕ) (n : OpNode O) (w : W)
      → get_elem? ns i ≡ some n
      → start_consuming (record { nodes = ns; world = w }) i
        ≡ ok (record { nodes = set ns i (consuming n); world = w })
  unfolding start_consuming
  start_lem ns i n w there = rw there refl

  -- A call on a node that was just written.
  call_lem :
      (f : W → O → Run (OpResult × W × O)) (ns : List (OpNode O)) (i : ℕ) (n m : OpNode O)
      (w w' : W) (op : O) (res : OpResult)
      → get_elem? ns i ≡ some n
      → f w m.operation ≡ ok (res, w', op)
      → call f (record { nodes = set ns i m; world = w }) i
        ≡ ok (res, record { nodes = set ns i (record m { operation = op }); world = w' })
  unfolding call
  call_lem f ns i n m w w' op res there does =
      rw (get_elem?-set ns i n m there, does, set-set ns i m (record m { operation = op })) refl

module _ {O W : Type 0} (ops : OpBase O W)
    (execute : Streams O W → ℕ → Run (OpResult × Streams O W))
    (restart : Streams O W → ℕ → Run (Streams O W)) where
  pub hand_lem :
      (ns : List (OpNode O)) (i : ℕ) (n : OpNode O) (w w' : W) (op : O) (res : OpResult)
      → get_elem? ns i ≡ some n
      → res ≢ op_refresh
      → ops.consume w n.operation ≡ ok (res, w', op)
      → consume_and_pull ops execute restart (record { nodes = ns; world = w }) i
        ≡ ok (
          res,
          record {
            nodes = set ns i (record n { operation = op; state = stream_consuming });
            world = w';
          },
        )
  unfolding consume_and_pull
  hand_lem ns i n w w' op op_refresh there ne does = absurd (ne refl)
  hand_lem ns i n w w' op op_ok there ne does =
      rw
        (
          start_lem ns i n w there,
          call_lem ops.consume ns i n (consuming n) w w' op op_ok there does,
        )
        refl
  hand_lem ns i n w w' op op_depleted there ne does =
      rw
        (
          start_lem ns i n w there,
          call_lem ops.consume ns i n (consuming n) w w' op op_depleted there does,
        )
        refl
  hand_lem ns i n w w' op op_err there ne does =
      rw
        (
          start_lem ns i n w there,
          call_lem ops.consume ns i n (consuming n) w w' op op_err there does,
        )
        refl

  pub stop_lem :
      (ns : List (OpNode O)) (i : ℕ) (n : OpNode O) (w : W)
      → get_elem? ns i ≡ some n
      → ops.consume w n.operation ≡ fault
      → consume_and_pull ops execute restart (record { nodes = ns; world = w }) i ≡ fault
  unfolding consume_and_pull call
  stop_lem ns i n w there does =
      rw (start_lem ns i n w there, get_elem?-set ns i n (consuming n) there, does) refl

  pub stop_lem_fuel :
      (ns : List (OpNode O)) (i : ℕ) (n : OpNode O) (w : W)
      → get_elem? ns i ≡ some n
      → ops.consume w n.operation ≡ out_of_fuel
      → consume_and_pull ops execute restart (record { nodes = ns; world = w }) i ≡ out_of_fuel
  unfolding consume_and_pull call
  stop_lem_fuel ns i n w there does =
      rw (start_lem ns i n w there, get_elem?-set ns i n (consuming n) there, does) refl

  -- With one child, the other two loops of PullFromStreams have nothing to do.
  pull_one_lem :
      (p : Streams O W) (i : ℕ) (n : OpNode O) (c : ℕ)
      → get_elem? p.nodes i ≡ some n
      → n.children ≡ c ∷ []
      → (pull_from_streams execute restart p i >>= λ pulled. elim pulled.0 [
        | op_ok ↦ execute pulled.1 i
        | _ ↦ ok pulled
      ])
        ≡ (execute p c >>= λ r. elim r.0 [ op_ok ↦ execute r.1 i | _ ↦ ok (op_depleted, r.1) ])
  unfolding pull_from_streams advance pull_uninitialized pull_depleted
  pull_one_lem p i n c there one =
      rw (there, one)
        (elim (Run-cases (execute p c)) [
          | inl ((op_ok, q), v) ↦ rw v refl
          | inl ((op_depleted, q), v) ↦ rw v refl
          | inl ((op_refresh, q), v) ↦ rw v refl
          | inl ((op_err, q), v) ↦ rw v refl
          | inr (inl v) ↦ rw v refl
          | inr (inr v) ↦ rw v refl
        ])

  pub ask_lem :
      (ns : List (OpNode O)) (i c : ℕ) (ps : List ℕ) (s : StreamState) (w w' w'' : W)
      (op op' op'' : O)
      → get_elem? ns i ≡ some (with_child op c ps s)
      → ops.consume w op ≡ ok (op_refresh, w', op')
      → ops.reset w' op' ≡ ok (op_ok, w'', op'')
      → consume_and_pull ops execute restart (record { nodes = ns; world = w }) i ≡ (
          execute
            (record { nodes = set ns i (with_child op'' c ps stream_consuming); world = w'' })
            c
          >>= λ r. elim r.0 [ op_ok ↦ execute r.1 i | _ ↦ ok (op_depleted, r.1) ])
  unfolding consume_and_pull
  ask_lem ns i c ps s w w' w'' op op' op'' there does undoes =
      let n = with_child op c ps s in
      let again = with_child op' c ps stream_consuming in
      let called = call_lem ops.consume ns i n (consuming n) w w' op' op_refresh there does in
      let reset = call_lem ops.reset ns i n again w' w'' op'' op_ok there undoes in
      let after = with_child op'' c ps stream_consuming in
      rw (start_lem ns i n w there, called, reset)
        (pull_one_lem (record { nodes = set ns i after; world = w'' }) i after c
          (get_elem?-set ns i n after there) refl)
