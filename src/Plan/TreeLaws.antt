-- ===== src/Plan/TreeLaws.antt =====
-- The linking of operation nodes, src/execution_plan/execution_plan.c: what it does to the lists of
-- children.
use redis_graph.Base.{
  ℕ, zero, suc, Option, none, some, inl, inr, List, [], ◌∷◌, ◌++◌, ok, length, get_elem?, set,
  ==_iff, Option-cases, some-injective, ◌≡◌, ◌≢◌, refl, sym, ap, ◌∙◌, arith, All,
}
use mathlib.Core.List.{append_assoc, append-nil}
use redis_graph.Plan.{OpNode}
use redis_graph.Plan.Tree.{add_child, remove_child, remove_first, move_children, push_in_between}

pub get_elem?-set {ℓ} :
    {A : Type ℓ} (xs : List A) (i : ℕ) (a v : A)
    → get_elem? xs i ≡ some a
    → get_elem? (set xs i v) i ≡ some v
get_elem?-set [] i a v h = absurd (ground arith)
get_elem?-set (x ∷ xs) zero a v h = refl
get_elem?-set (x ∷ xs) (suc i) a v h = get_elem?-set xs i a v h

pub get_elem?-set_other {ℓ} :
    {A : Type ℓ} (xs : List A) (i j : ℕ) (v : A) → i ≢ j → get_elem? (set xs i v) j ≡ get_elem? xs j
get_elem?-set_other [] i j v h = refl
get_elem?-set_other (x ∷ xs) zero zero v h = absurd (h refl)
get_elem?-set_other (x ∷ xs) zero (suc j) v h = refl
get_elem?-set_other (x ∷ xs) (suc i) zero v h = refl
get_elem?-set_other (x ∷ xs) (suc i) (suc j) v h = get_elem?-set_other xs i j v (λ e. h (ap suc e))

remove_first-head : (c : ℕ) (cs : List ℕ) → remove_first c (c ∷ cs) ≡ cs
unfolding remove_first
remove_first-head c cs = ground (arith, ==_iff c c)

module _ {O : Type 0} where
  -- The children of a node; `none` where there is no node.
  abbrev pub children_of : Option (OpNode O) → Option (List ℕ)
  children_of none = none
  children_of (some n) = some n.children

  abbrev pub children_at : List (OpNode O) → ℕ → Option (List ℕ)
  children_at ns i = children_of (get_elem? ns i)

  -- Two lists of nodes with the same children.
  abbrev SameChildren : List (OpNode O) → List (OpNode O) → ℕ → List ℕ → Type 0
  SameChildren ns ns' p cs =
      (children_at ns' p ≡ some cs) × ((j : ℕ) → p ≢ j → children_at ns' j ≡ children_at ns j)

  node_of :
      (ns : List (OpNode O)) (i : ℕ) (cs : List ℕ)
      → children_at ns i ≡ some cs
      → (n : OpNode O) × (get_elem? ns i ≡ some (record n { children = cs }))
  node_of ns i cs h = elim (Option-cases (get_elem? ns i)) [
    | inl gone ↦ ground (arith, gone, h)
    | inr (n, there) ↦ (
      n,
      there
          ∙ ap (λ l. some (record n { children = l }))
              (some-injective (sym (ap children_of there) ∙ h)),
    )
  ]

  -- A write that keeps the children of a node.
  set-children :
      (ns : List (OpNode O)) (i : ℕ) (n v : OpNode O) (j : ℕ)
      → get_elem? ns i ≡ some n
      → v.children ≡ n.children
      → children_at (set ns i v) j ≡ children_at ns j
  set-children [] i n v j h e = refl
  set-children (x ∷ ns) zero n v zero h e = ground arith
  set-children (x ∷ ns) zero n v (suc j) h e = refl
  set-children (x ∷ ns) (suc i) n v zero h e = refl
  set-children (x ∷ ns) (suc i) n v (suc j) h e = set-children ns i n v j h e

  -- New children for p, then a write that keeps the children of c.
  relink-children :
      (ns : List (OpNode O)) (p c : ℕ) (a b v : OpNode O) (xs : List ℕ)
      → get_elem? ns p ≡ some a
      → get_elem? (set ns p (record a { children = xs })) c ≡ some b
      → v.children ≡ b.children
      → SameChildren ns (set (set ns p (record a { children = xs })) c v) p xs
  relink-children ns p c a b v xs ha hb e =
      let ns1 = set ns p (record a { children = xs }) in
      (
        set-children ns1 c b v p hb e
            ∙ ap children_of (get_elem?-set ns p a (record a { children = xs }) ha),
        λ j other.
            set-children ns1 c b v j hb e
            ∙ ap children_of (get_elem?-set_other ns p j (record a { children = xs }) other),
      )

  add_child-children :
      (ns : List (OpNode O)) (p c : ℕ) (ps cs : List ℕ)
      → p ≢ c
      → children_at ns p ≡ some ps
      → children_at ns c ≡ some cs
      → (ns' : List (OpNode O)) × (add_child ns p c ≡ ok ns') × SameChildren ns ns' p (ps ++ c ∷ [])
  unfolding add_child
  add_child-children ns p c ps cs apart hp hc =
      let (a, ha) = node_of ns p ps hp in
      let (b, hb) = node_of ns c cs hc in
      let xs = ps ++ c ∷ [] in
      let hb1 = get_elem?-set_other ns p c (record a { children = xs }) apart ∙ hb in
      let b' : OpNode O = record b { children = cs; parents = b.parents ++ p ∷ [] } in
      (
        set (set ns p (record a { children = xs })) c b',
        rw (ha, hb1) refl,
        relink-children ns p c (record a { children = ps }) (record b { children = cs }) b' xs ha
            hb1 refl,
      )

  remove_child-children :
      (ns : List (OpNode O)) (p c : ℕ) (ps cs : List ℕ)
      → p ≢ c
      → children_at ns p ≡ some ps
      → children_at ns c ≡ some cs
      → (ns' : List (OpNode O)) × (remove_child ns p c ≡ ok ns')
        × SameChildren ns ns' p (remove_first c ps)
  unfolding remove_child
  remove_child-children ns p c ps cs apart hp hc =
      let (a, ha) = node_of ns p ps hp in
      let (b, hb) = node_of ns c cs hc in
      let xs = remove_first c ps in
      let hb1 = get_elem?-set_other ns p c (record a { children = xs }) apart ∙ hb in
      let b' : OpNode O = record b { children = cs; parents = remove_first p b.parents } in
      (
        set (set ns p (record a { children = xs })) c b',
        rw (ha, hb1) refl,
        relink-children ns p c (record a { children = ps }) (record b { children = cs }) b' xs ha
            hb1 refl,
      )

  -- The children are nodes of the plan, and neither of the two.
  abbrev pub AreOthers : List (OpNode O) → ℕ → ℕ → List ℕ → Type 0
  AreOthers ns p c xs =
      All (λ x. ((ys : List ℕ) × (children_at ns x ≡ some ys)) × (p ≢ x) × (c ≢ x)) xs

  AreOthers-same :
      (ns ns' : List (OpNode O)) (p c : ℕ) (xs : List ℕ)
      → ((j : ℕ) → p ≢ j → c ≢ j → children_at ns' j ≡ children_at ns j)
      → AreOthers ns p c xs
      → AreOthers ns' p c xs
  AreOthers-same ns ns' p c [] same others = tt
  AreOthers-same ns ns' p c (x ∷ xs) same (((ys, h), np, nc), rest) =
      (((ys, same x np nc ∙ h), np, nc), AreOthers-same ns ns' p c xs same rest)

  move_children-children :
      (ps : List ℕ) (ns : List (OpNode O)) (p c : ℕ) (cs : List ℕ)
      → p ≢ c
      → children_at ns p ≡ some ps
      → children_at ns c ≡ some cs
      → AreOthers ns p c ps
      → (ns' : List (OpNode O)) × (move_children (length ps) ns p c ≡ ok ns')
        × (children_at ns' p ≡ some [])
        × (children_at ns' c ≡ some (cs ++ ps))
        × ((j : ℕ) → p ≢ j → c ≢ j → children_at ns' j ≡ children_at ns j)
  unfolding move_children
  move_children-children [] ns p c cs apart hp hc others =
      let (a, ha) = node_of ns p [] hp in
      (ns, rw ha refl, hp, hc ∙ ap some (sym (append-nil cs)), λ j _ _. refl)
  move_children-children (x ∷ ps) ns p c cs apart hp hc (((ys, hx), px, cx), others) =
      let (a, ha) = node_of ns p (x ∷ ps) hp in
      let (ns1, run1, (at1, same1)) = add_child-children ns c x cs ys cx hc hx in
      let hp1 = same1 p (λ e. apart (sym e)) ∙ hp in
      let hx1 = same1 x cx ∙ hx in
      let (ns2, run2, (at2, same2)) = remove_child-children ns1 p x (x ∷ ps) ys px hp1 hx1 in
      let same : (j : ℕ) → p ≢ j → c ≢ j → children_at ns2 j ≡ children_at ns j =
        λ j pj cj. same2 j pj ∙ same1 j cj in
      let (ns3, run3, done, all, same3) =
        move_children-children ps ns2 p c (cs ++ x ∷ []) apart
          (at2 ∙ ap some (remove_first-head x ps)) (same2 c apart ∙ at1)
          (AreOthers-same ns ns2 p c ps same others) in
      (
        ns3,
        rw (ha, run1, run2) run3,
        done,
        all ∙ ap some (append_assoc cs (x ∷ []) ps),
        λ j pj cj. same3 j pj cj ∙ same j pj cj,
      )

  -- Pushing a node between a parent and its children, all nodes of the plan and different from the
  -- two, ends; the parent then has that child only, the node has the children that the parent had
  -- behind its own, and every other node the children that it had.
  pub push_in_between-children :
      (ns : List (OpNode O)) (p c : ℕ) (ps cs : List ℕ) (j : ℕ)
      → p ≢ c
      → children_at ns p ≡ some ps
      → children_at ns c ≡ some cs
      → AreOthers ns p c ps
      → p ≢ j
      → c ≢ j
      → (ns' : List (OpNode O)) × (push_in_between ns p c ≡ ok ns')
        × (children_at ns' p ≡ some (c ∷ []))
        × (children_at ns' c ≡ some (cs ++ ps))
        × (children_at ns' j ≡ children_at ns j)
  unfolding push_in_between
  push_in_between-children ns p c ps cs j apart hp hc others pj cj =
      let (a, ha) = node_of ns p ps hp in
      let (ns1, run1, none_left, moved, same1) =
        move_children-children ps ns p c cs apart hp hc others in
      let (ns2, run2, (at2, same2)) =
        add_child-children ns1 p c [] (cs ++ ps) apart none_left moved in
      (ns2, rw (ha, run1) run2, at2, same2 c apart ∙ moved, same2 j pj ∙ same1 j pj cj)
