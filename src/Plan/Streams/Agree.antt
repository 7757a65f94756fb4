-- ===== src/Plan/Streams/Agree.antt =====
-- src/execution_plan/execution_plan.c: what two plans share, when one more node is placed or changed.
use redis_graph.Base.{ℕ, List, some, get_elem?, set, ◌≡◌, ◌≢◌, refl, sym, ◌∙◌, inl, inr}
use redis_graph.Plan.{OpNode}
use redis_graph.Plan.TreeLaws.{get_elem?-set_other}
use redis_graph.Plan.Streams.{Layout, place, Agrees, Keeps, And}
use redis_graph.Plan.Streams.Over.{place_self, place_other}

not-at : (S : ℕ → Type 0) (i : ℕ) → ¬ S i → (j : ℕ) → S j → j ≢ i
not-at S i apart j s e = apart (rw e at s)

module _ {O : Type 0} (S : ℕ → Type 0) (i : ℕ) (apart : ¬ S i) where
  pub at_place :
      (l : Layout O) (n : OpNode O) (ns : List (OpNode O))
      → Agrees (And S i) (place l i n) ns
      → get_elem? ns i ≡ some n
  at_place l n ns agree = agree i (inr refl) ∙ place_self l i n

  pub below_place :
      (l : Layout O) (n : OpNode O) (ns : List (OpNode O))
      → Agrees (And S i) (place l i n) ns
      → Agrees S l ns
  below_place l n ns agree j s = agree j (inl s) ∙ place_other l i j n (not-at S i apart j s)

  pub Agrees-set :
      (l : Layout O) (n m : OpNode O) (ns : List (OpNode O))
      → Agrees S l ns
      → get_elem? ns i ≡ some n
      → Agrees S l (set ns i m)
  Agrees-set l n m ns agree there j s =
      get_elem?-set_other ns i j m (λ e. not-at S i apart j s (sym e)) ∙ agree j s

  pub Agrees-place :
      (l : Layout O) (n : OpNode O) (ns : List (OpNode O))
      → Agrees S l ns
      → get_elem? ns i ≡ some n
      → Agrees (And S i) (place l i n) ns
  Agrees-place l n ns agree there j (inl s) =
      agree j s ∙ sym (place_other l i j n (not-at S i apart j s))
  Agrees-place l n ns agree there j (inr e) = rw e (there ∙ sym (place_self l i n))

  pub Keeps-set :
      (m : OpNode O) (ns ns' : List (OpNode O)) → Keeps S (set ns i m) ns' → Keeps (And S i) ns ns'
  Keeps-set m ns ns' keeps j out =
      keeps j (λ s. out (inl s)) ∙ get_elem?-set_other ns i j m (λ e. out (inr (sym e)))
