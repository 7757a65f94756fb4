-- ===== src/Grammar/Patterns.antt =====
-- src/parser/grammar.y: what the entities of a MATCH clause are, before and after their naming.
use redis_graph.Base.{
  ℕ, suc, Text, List, [], ◌∷◌, ◌++◌, Option, none, some, ◌≡◌, ◌⊎◌, inl, inr, refl, ap, sym, ◌∙◌,
}
use redis_graph.Value.{Machine, SiValue, string_val_c}
use redis_graph.Query.{AstEntity, new_node_entity, new_link_entity, name_from}
use redis_graph.Query.Passes.{written, AreWritten, alias_at}
use redis_graph.Grammar.{
  value, MapLiteral, last_pair, pair, map_literal, Properties, no_properties, braces, properties,
  NodePattern, node_full, node_labelled, node_aliased, node_empty, node, EdgePattern, edge_empty,
  edge_aliased, edge_labelled, edge_full, edge, LinkPattern, to_right, to_left, link, PatternChain,
  first_node, and_link, chain,
}

-- The keys and values of a pattern's properties, in the order in which they are pushed.
abbrev Pairs : Type 0
Pairs = List (Text × SiValue)

abbrev pub pairs_of : Machine → MapLiteral → Pairs
pairs_of m (last_pair k v) = (k, value m v) ∷ []
pairs_of m (pair k v more) = pairs_of m more ++ (k, value m v) ∷ []

abbrev pub asked_of : Machine → Properties → Pairs
asked_of m no_properties = []
asked_of m (braces b) = pairs_of m b

-- The alias that an entity is written with, if any, and its properties.
abbrev Drawn : Type 0
Drawn = Option Text × Pairs

abbrev pub node_drawn : Machine → NodePattern → Drawn
node_drawn m (node_full a l ps) = (some a, asked_of m ps)
node_drawn m (node_labelled l ps) = (none, asked_of m ps)
node_drawn m (node_aliased a ps) = (some a, asked_of m ps)
node_drawn m (node_empty ps) = (none, asked_of m ps)

abbrev pub edge_drawn : Machine → EdgePattern → Drawn
edge_drawn m (edge_empty ps) = (none, asked_of m ps)
edge_drawn m (edge_aliased a ps) = (some a, asked_of m ps)
edge_drawn m (edge_labelled l ps) = (none, asked_of m ps)
edge_drawn m (edge_full a l ps) = (some a, asked_of m ps)

abbrev pub link_drawn : Machine → LinkPattern → Drawn
link_drawn m (to_right e) = edge_drawn m e
link_drawn m (to_left e) = edge_drawn m e

abbrev pub chain_drawn : Machine → PatternChain → List Drawn
chain_drawn m (first_node n) = node_drawn m n ∷ []
chain_drawn m (and_link c l n) = chain_drawn m c ++ link_drawn m l ∷ node_drawn m n ∷ []

-- With the aliases of nameAnonymousNodes, from an index on.
abbrev pub with_names : ℕ → List Drawn → List (Text × Pairs)
with_names i [] = []
with_names i (d ∷ ds) = (alias_at i d.0, d.1) ∷ with_names (suc i) ds

written-append : (xs ys : Pairs) → written (xs ++ ys) ≡ written xs ++ written ys
written-append [] ys = refl
written-append (x ∷ xs) ys = ap (λ zs. string_val_c x.0 ∷ x.1 ∷ zs) (written-append xs ys)

map_literal-written : (m : Machine) (b : MapLiteral) → map_literal m b ≡ written (pairs_of m b)
unfolding map_literal
map_literal-written m (last_pair k v) = refl
map_literal-written m (pair k v more) =
    ap (λ xs. xs ++ string_val_c k ∷ value m v ∷ []) (map_literal-written m more)
    ∙ sym (written-append (pairs_of m more) ((k, value m v) ∷ []))

-- An entity has these properties, or none at all.
abbrev HasWritten : Option (List SiValue) → Pairs → Type 0
HasWritten props ps = (props ≡ some (written ps)) ⊎ ((props ≡ none) × (ps ≡ []))

properties-HasWritten :
    (m : Machine) (ps : Properties) → HasWritten (properties m ps) (asked_of m ps)
unfolding properties
properties-HasWritten m no_properties = inr (refl, refl)
properties-HasWritten m (braces b) = inl (ap some (map_literal-written m b))

abbrev IsDrawn : AstEntity → Drawn → Type 0
IsDrawn e d = (e.alias ≡ d.0) × HasWritten e.properties d.1

abbrev AreDrawn : List AstEntity → List Drawn → Type 0
AreDrawn [] [] = Unit
AreDrawn [] (d ∷ ds) = ⊥
AreDrawn (e ∷ es) [] = ⊥
AreDrawn (e ∷ es) (d ∷ ds) = IsDrawn e d × AreDrawn es ds

node-IsDrawn : (m : Machine) (n : NodePattern) → IsDrawn (node m n) (node_drawn m n)
unfolding node new_node_entity
node-IsDrawn m (node_full a l ps) = (refl, properties-HasWritten m ps)
node-IsDrawn m (node_labelled l ps) = (refl, properties-HasWritten m ps)
node-IsDrawn m (node_aliased a ps) = (refl, properties-HasWritten m ps)
node-IsDrawn m (node_empty ps) = (refl, properties-HasWritten m ps)

edge-IsDrawn : (m : Machine) (e : EdgePattern) → IsDrawn (edge m e) (edge_drawn m e)
unfolding edge new_link_entity
edge-IsDrawn m (edge_empty ps) = (refl, properties-HasWritten m ps)
edge-IsDrawn m (edge_aliased a ps) = (refl, properties-HasWritten m ps)
edge-IsDrawn m (edge_labelled l ps) = (refl, properties-HasWritten m ps)
edge-IsDrawn m (edge_full a l ps) = (refl, properties-HasWritten m ps)

link-IsDrawn : (m : Machine) (l : LinkPattern) → IsDrawn (link m l) (link_drawn m l)
unfolding link
link-IsDrawn m (to_right e) = edge-IsDrawn m e
link-IsDrawn m (to_left e) = edge-IsDrawn m e

AreDrawn-append :
    (es fs : List AstEntity) (ds cs : List Drawn)
    → AreDrawn es ds
    → AreDrawn fs cs
    → AreDrawn (es ++ fs) (ds ++ cs)
AreDrawn-append [] fs [] cs h k = k
AreDrawn-append [] fs (d ∷ ds) cs h k = absurd h
AreDrawn-append (e ∷ es) fs [] cs h k = absurd h
AreDrawn-append (e ∷ es) fs (d ∷ ds) cs (a, h) k = (a, AreDrawn-append es fs ds cs h k)

chain-AreDrawn : (m : Machine) (c : PatternChain) → AreDrawn (chain m c) (chain_drawn m c)
unfolding chain
chain-AreDrawn m (first_node n) = (node-IsDrawn m n, tt)
chain-AreDrawn m (and_link c l n) =
    AreDrawn-append (chain m c) (link m l ∷ node m n ∷ []) (chain_drawn m c)
      (link_drawn m l ∷ node_drawn m n ∷ []) (chain-AreDrawn m c)
      (link-IsDrawn m l, (node-IsDrawn m n, tt))

-- The name that nameAnonymousNodes gives at an index.
abbrev pub name_one : ℕ → AstEntity → AstEntity
name_one i e = elim e.alias [ none ↦ record e { alias = some (alias_at i none) } | some a ↦ e ]

AreDrawn-AreWritten :
    (i : ℕ) (es : List AstEntity) (ds : List Drawn)
    → AreDrawn es ds
    → AreWritten (name_from i es) (with_names i ds)
unfolding name_from
AreDrawn-AreWritten i [] [] h = tt
AreDrawn-AreWritten i [] (d ∷ ds) h = absurd h
AreDrawn-AreWritten i (e ∷ es) [] h = absurd h
AreDrawn-AreWritten i (e ∷ es) ((none, ps) ∷ ds) ((a, p), h) =
    rw a (refl, p, AreDrawn-AreWritten (suc i) es ds h)
AreDrawn-AreWritten i (e ∷ es) ((some b, ps) ∷ ds) ((a, p), h) =
    rw a (a, p, AreDrawn-AreWritten (suc i) es ds h)

-- After its naming, a chain has the properties that it was written with.
pub chain-AreWritten :
    (m : Machine) (c : PatternChain)
    → AreWritten (name_from 0 (chain m c)) (with_names 0 (chain_drawn m c))
chain-AreWritten m c = AreDrawn-AreWritten 0 (chain m c) (chain_drawn m c) (chain-AreDrawn m c)
