-- ===== src/Plan/Streams/Serve.antt =====
-- src/execution_plan/execution_plan.c: what an operation hands out, over a stream or by itself.
use redis_graph.Base.{
  ℕ, zero, suc, ◌+◌, ◌≤◌, List, [], ◌∷◌, some, ok, get_elem?, set, length, ◌≡◌, ◌≢◌, refl, sym, ◌∙◌,
  inr, arith,
}
use redis_graph.Plan.{
  OpNode, OpResult, op_depleted, op_ok, op_refresh, StreamState, stream_consuming,
}
use redis_graph.Plan.Execute.{OpBase, Streams, execute_op_node, reset_stream}
use redis_graph.Plan.TreeLaws.{get_elem?-set, get_elem?-set_other}
use redis_graph.Plan.Streams.{
  Layout, place, with_child, Agrees, Keeps, And, Only, Yields, Producing, produces, depletes,
  Serving, hands, asks, ends,
}
use redis_graph.Plan.Streams.Over.{place_self, hand_lem, ask_lem}
use redis_graph.Plan.Streams.Agree.{at_place, below_place, Agrees-set, Agrees-place, Keeps-set}

module _ {O W V C : Type 0} (ops : OpBase O W) (world : C → V → W) where
  Yields-weaken :
      (S : ℕ → Type 0) (i d d' : ℕ) (l : Layout O) (v : V) (ws : List V)
      → d ≤ d'
      → Yields ops world S i d l v ws
      → Yields ops world S i d' l v ws
  Yields-weaken S i d d' l v [] le y = λ ns γ fuel enough agree. y ns γ fuel (omega arith) agree
  Yields-weaken S i d d' l v (w ∷ ws) le (l', run, rest) = (
    l',
    λ ns γ fuel enough agree. run ns γ fuel (omega arith) agree,
    Yields-weaken S i d d' l' w ws le rest,
  )

  pub hand_out :
      (fuel : ℕ) (ns : List (OpNode O)) (i : ℕ) (n : OpNode O) (w w' : W) (op : O) (res : OpResult)
      → 1 ≤ fuel
      → get_elem? ns i ≡ some n
      → res ≢ op_refresh
      → ops.consume w n.operation ≡ ok (res, w', op)
      → execute_op_node ops fuel (record { nodes = ns; world = w }) i
        ≡ ok (
          res,
          record {
            nodes = set ns i (record n { operation = op; state = stream_consuming });
            world = w';
          },
        )
  unfolding execute_op_node
  hand_out zero ns i n w w' op res le there ne does = absurd (omega arith)
  hand_out (suc f) ns i n w w' op res le there ne does =
      hand_lem ops (execute_op_node ops f) (reset_stream ops f) ns i n w w' op res there ne does

  -- One round of an operation that asks, before what it then does.
  module _ (S : ℕ → Type 0) (i d : ℕ) (l l' : Layout O) (v g : V)
      (round : (ns : List (OpNode O)) (γ : C) (f : ℕ)
        → d ≤ f
        → Agrees S l ns
        → (ns' : List (OpNode O)) × (execute_op_node ops
              (suc f)
              (record { nodes = ns; world = world γ v })
              i
            ≡ execute_op_node ops f (record { nodes = ns'; world = world γ g }) i)
          × Keeps S ns ns'
          × Agrees S l' ns') where
    round_at :
        (ns : List (OpNode O)) (γ : C) (fuel : ℕ)
        → suc d ≤ fuel
        → Agrees S l ns
        → (f : ℕ) × (ns' : List (OpNode O)) × (d ≤ f)
          × (execute_op_node ops fuel (record { nodes = ns; world = world γ v }) i
              ≡ execute_op_node ops f (record { nodes = ns'; world = world γ g }) i)
          × Keeps S ns ns'
          × Agrees S l' ns'
    round_at ns γ zero le agree = absurd (omega arith)
    round_at ns γ (suc f) le agree =
        let (ns', run, keeps, agree') = round ns γ f (omega arith) agree in
        (f, ns', omega arith, run, keeps, agree')

    after_round :
        (ws : List V) → Yields ops world S i d l' g ws → Yields ops world S i (suc d) l v ws
    after_round [] y = λ ns γ fuel enough agree.
        let (f, ns', le, run, keeps, agree') = round_at ns γ fuel enough agree in
        let (p, run', keeps', same) = y ns' γ f le agree' in
        (p, run ∙ run', λ j out. keeps' j out ∙ keeps j out, same)
    after_round (w ∷ ws) (l'', y, rest) = (
      l'',
      λ ns γ fuel enough agree.
          let (f, ns', le, run, keeps, agree') = round_at ns γ fuel enough agree in
          let (ns'', run', keeps', agree'') = y ns' γ f le agree' in
          (ns'', run ∙ run', λ j out. keeps' j out ∙ keeps j out, agree''),
      Yields-weaken S i d (suc d) l'' w ws (omega arith) rest,
    )

  -- An operation over a stream is a stream of what it hands out.
  module _ (S : ℕ → Type 0) (i c d : ℕ) (ps : List ℕ) (apart : ¬ S i) where
    pub asks_round :
        (op op' op'' : O) (v v' b g : V) (s : StreamState) (l l' : Layout O) (f : ℕ)
        (ns : List (OpNode O)) (γ : C)
        → ops.consume (world γ v) op ≡ ok (op_refresh, world γ v', op')
        → ops.reset (world γ v') op' ≡ ok (op_ok, world γ b, op'')
        → d ≤ f
        → ((ns : List (OpNode O))
            → Agrees S l ns
            → (ns' : List (OpNode O)) × (execute_op_node ops f
                  (record { nodes = ns; world = world γ b })
                  c
                ≡ ok (op_ok, record { nodes = ns'; world = world γ g }))
              × Keeps S ns ns'
              × Agrees S l' ns')
        → Agrees (And S i) (place l i (with_child op c ps s)) ns
        → (ns' : List (OpNode O)) × (execute_op_node ops
              (suc f)
              (record { nodes = ns; world = world γ v })
              i
            ≡ execute_op_node ops f (record { nodes = ns'; world = world γ g }) i)
          × Keeps (And S i) ns ns'
          × Agrees (And S i) (place l' i (with_child op'' c ps stream_consuming)) ns'
    unfolding execute_op_node
    asks_round op op' op'' v v' b g s l l' f ns γ does undoes le child agree =
        let n = with_child op c ps s in
        let m = with_child op'' c ps stream_consuming in
        let there = at_place S i apart l n ns agree in
        let below = Agrees-set S i apart l n m ns (below_place S i apart l n ns agree) there in
        let (ns', run, keeps, agree') = child (set ns i m) below in
        (
          ns',
          ask_lem ops (execute_op_node ops f) (reset_stream ops f) ns i c ps s (world γ v)
                (world γ v') (world γ b) op op' op'' there does undoes
              ∙ rw run refl,
          Keeps-set S i apart m ns ns' keeps,
          Agrees-place S i apart l' m ns' agree' (keeps i apart ∙ get_elem?-set ns i n m there),
        )

    -- When the stream is depleted, so is the operation.
    pub ends_lem :
        (op op' op'' : O) (v v' b : V) (s : StreamState) (l : Layout O)
        → ((γ : C) → ops.consume (world γ v) op ≡ ok (op_refresh, world γ v', op'))
        → ((γ : C) → ops.reset (world γ v') op' ≡ ok (op_ok, world γ b, op''))
        → Yields ops world S c d l b []
        → (ns : List (OpNode O)) (γ : C) (fuel : ℕ) → suc d ≤ fuel
        → Agrees (And S i) (place l i (with_child op c ps s)) ns
        → (p : Streams O W) × (execute_op_node ops fuel (record { nodes = ns; world = world γ v }) i
            ≡ ok (op_depleted, p))
          × Keeps (And S i) ns p.nodes
          × ((w : V) × (p.world ≡ world γ w))
    unfolding execute_op_node
    ends_lem op op' op'' v v' b s l does undoes y ns γ zero le agree = absurd (omega arith)
    ends_lem op op' op'' v v' b s l does undoes y ns γ (suc f) le agree =
        let n = with_child op c ps s in
        let m = with_child op'' c ps stream_consuming in
        let there = at_place S i apart l n ns agree in
        let below = Agrees-set S i apart l n m ns (below_place S i apart l n ns agree) there in
        let (p, run, keeps, same) = y (set ns i m) γ f (omega arith) below in
        (
          p,
          ask_lem ops (execute_op_node ops f) (reset_stream ops f) ns i c ps s (world γ v)
                (world γ v') (world γ b) op op' op'' there (does γ) (undoes γ)
              ∙ rw run refl,
          Keeps-set S i apart m ns p.nodes keeps,
          same,
        )

    pub Serving-Yields :
        (op : O) (v b : V) (gs ws : List V) (l : Layout O) (s : StreamState)
        → Serving ops world op v b gs ws
        → Yields ops world S c d l b gs
        → Yields ops world (And S i) i (d + length gs + 1) (place l i (with_child op c ps s)) v ws
    unfolding execute_op_node
    Serving-Yields op v b gs (w ∷ ws) l s (hands op' does more) y =
        let n = with_child op c ps s in
        let m = with_child op' c ps stream_consuming in
        (
          place l i m,
          λ ns γ fuel enough agree.
              let there = at_place S i apart l n ns agree in
              let below =
                Agrees-set S i apart l n m ns (below_place S i apart l n ns agree) there in
              (
                set ns i m,
                hand_out fuel ns i n (world γ v) (world γ w) op' op_ok (omega arith) there (λ e. cc)
                    (does γ),
                λ j out. get_elem?-set_other ns i j m (λ e. out (inr (sym e))),
                Agrees-place S i apart l m (set ns i m) below (get_elem?-set ns i n m there),
              ),
          Serving-Yields op' w b gs ws l stream_consuming more y,
        )
    Serving-Yields op v b (g ∷ gs) ws l s (asks op' op'' v' does undoes more) (l', run, rest) =
        Yields-weaken (And S i) i (suc (d + length gs + 1)) (d + length (g ∷ gs) + 1)
          (place l i (with_child op c ps s)) v ws (omega arith)
          (after_round (And S i) i (d + length gs + 1) (place l i (with_child op c ps s))
            (place l' i (with_child op'' c ps stream_consuming)) v g
            (λ ns γ f le agree.
              asks_round op op' op'' v v' b g s l l' f ns γ (does γ) (undoes γ) (omega arith)
                (λ ns' agree'. run ns' γ f (omega arith) agree') agree)
            ws (Serving-Yields op'' g g gs ws l' stream_consuming more rest))
    Serving-Yields op v b [] [] l s (ends op' op'' v' does undoes) y = λ ns γ fuel enough agree.
        ends_lem op op' op'' v v' b s l does undoes y ns γ fuel (omega arith) agree

  -- An operation that scans is a stream of what it hands out.
  pub Producing-Yields :
      (i : ℕ) (l : Layout O) (n : OpNode O) (v : V) (ws : List V)
      → l i ≡ some n
      → Producing ops world n.operation v ws
      → Yields ops world (Only i) i 1 l v ws
  Producing-Yields i l n v (w ∷ ws) there (produces op' does more) =
      let m : OpNode O = record n { operation = op'; state = stream_consuming } in
      (
        place l i m,
        λ ns γ fuel enough agree.
            let at : get_elem? ns i ≡ some n = agree i refl ∙ there in
            (
              set ns i m,
              hand_out fuel ns i n (world γ v) (world γ w) op' op_ok enough at (λ e. cc) (does γ),
              λ j out. get_elem?-set_other ns i j m (λ e. out (sym e)),
              λ j e. rw e (get_elem?-set ns i n m at ∙ sym (place_self l i m)),
            ),
        Producing-Yields i (place l i m) m w ws (place_self l i m) more,
      )
  Producing-Yields i l n v [] there (depletes op' v' does) = λ ns γ fuel enough agree.
      let m : OpNode O = record n { operation = op'; state = stream_consuming } in
      let at : get_elem? ns i ≡ some n = agree i refl ∙ there in
      (
        record { nodes = set ns i m; world = world γ v' },
        hand_out fuel ns i n (world γ v) (world γ v') op' op_depleted enough at (λ e. cc) (does γ),
        λ j out. get_elem?-set_other ns i j m (λ e. out (sym e)),
        (v', refl),
      )
