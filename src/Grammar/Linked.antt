-- ===== src/Grammar/Linked.antt =====
-- src/parser/grammar.y: a MATCH clause as BuildGraph goes through it, a node and links with a node
-- behind each.
use redis_graph.Base.{
  ℕ, suc, ◌+◌, List, [], ◌∷◌, ◌++◌, length, Option-cases, ◌≡◌, inl, inr, refl, ap, sym, ◌∙◌, arith,
  length-append,
}
use redis_graph.Value.{Machine}
use redis_graph.Query.{AstEntity, n_entity, n_link, new_node_entity, new_link_entity, name_from}
use redis_graph.Query.Build.{behind, AreLinked, link_names, node_names}
use redis_graph.Grammar.{
  NodePattern, node_full, node_labelled, node_aliased, node_empty, node, EdgePattern, edge_empty,
  edge_aliased, edge_labelled, edge_full, edge, LinkPattern, to_right, to_left, link, PatternChain,
  first_node, and_link, chain,
}
use redis_graph.Grammar.Patterns.{name_one}

abbrev pub start : Machine → PatternChain → AstEntity
start m (first_node n) = node m n
start m (and_link c l n) = start m c

abbrev pub links : Machine → PatternChain → List (AstEntity × AstEntity)
links m (first_node n) = []
links m (and_link c l n) = links m c ++ (link m l, node m n) ∷ []

-- The number of links.
abbrev pub link_count : PatternChain → ℕ
link_count (first_node n) = 0
link_count (and_link c l n) = link_count c + 1

behind-append : (ps qs : List (AstEntity × AstEntity)) → behind (ps ++ qs) ≡ behind ps ++ behind qs
behind-append [] qs = refl
behind-append (p ∷ ps) qs = ap (λ es. p.0 ∷ p.1 ∷ es) (behind-append ps qs)

chain-behind : (m : Machine) (c : PatternChain) → chain m c ≡ start m c ∷ behind (links m c)
unfolding chain
chain-behind m (first_node n) = refl
chain-behind m (and_link c l n) =
    ap (λ es. es ++ link m l ∷ node m n ∷ []) (chain-behind m c)
    ∙ ap (λ es. start m c ∷ es) (sym (behind-append (links m c) ((link m l, node m n) ∷ [])))

-- The links after nameAnonymousNodes, from an index on.
abbrev pub named_links : ℕ → List (AstEntity × AstEntity) → List (AstEntity × AstEntity)
named_links i [] = []
named_links i (p ∷ ps) = (name_one i p.0, name_one (suc i) p.1) ∷ named_links (suc (suc i)) ps

name_from-behind :
    (i : ℕ) (ps : List (AstEntity × AstEntity))
    → name_from i (behind ps) ≡ behind (named_links i ps)
unfolding name_from
name_from-behind i [] = refl
name_from-behind i (p ∷ ps) =
    ap (λ es. name_one i p.0 ∷ name_one (suc i) p.1 ∷ es) (name_from-behind (suc (suc i)) ps)

-- The named entities of a chain.
pub name_from-chain :
    (m : Machine) (c : PatternChain)
    → name_from 0 (chain m c) ≡ name_one 0 (start m c) ∷ behind (named_links 1 (links m c))
unfolding name_from
name_from-chain m c =
    ap (name_from 0) (chain-behind m c)
    ∙ ap (λ es. name_one 0 (start m c) ∷ es) (name_from-behind 1 (links m c))

name_one_type : (i : ℕ) (e : AstEntity) → (name_one i e).type ≡ e.type
name_one_type i e = elim (Option-cases e.alias) [
  | inl missing ↦ rw missing refl
  | inr (a, given) ↦ rw given refl
]

node_type : (m : Machine) (n : NodePattern) → (node m n).type ≡ n_entity
unfolding node new_node_entity
node_type m (node_full a l ps) = refl
node_type m (node_labelled l ps) = refl
node_type m (node_aliased a ps) = refl
node_type m (node_empty ps) = refl

edge_type : (m : Machine) (e : EdgePattern) → (edge m e).type ≡ n_link
unfolding edge new_link_entity
edge_type m (edge_empty ps) = refl
edge_type m (edge_aliased a ps) = refl
edge_type m (edge_labelled l ps) = refl
edge_type m (edge_full a l ps) = refl

link_type : (m : Machine) (l : LinkPattern) → (link m l).type ≡ n_link
unfolding link
link_type m (to_right e) = edge_type m e
link_type m (to_left e) = edge_type m e

pub start_type : (m : Machine) (c : PatternChain) → (name_one 0 (start m c)).type ≡ n_entity
start_type m (first_node n) = name_one_type 0 (node m n) ∙ node_type m n
start_type m (and_link c l n) = start_type m c

AreLinked-append :
    (ps : List (AstEntity × AstEntity)) (e f : AstEntity)
    → AreLinked ps
    → e.type ≡ n_link
    → f.type ≡ n_entity
    → AreLinked (ps ++ (e, f) ∷ [])
AreLinked-append [] e f h k l = (k, l, tt)
AreLinked-append (p ∷ ps) e f (a, b, h) k l = (a, b, AreLinked-append ps e f h k l)

links-AreLinked : (m : Machine) (c : PatternChain) → AreLinked (links m c)
links-AreLinked m (first_node n) = tt
links-AreLinked m (and_link c l n) =
    AreLinked-append (links m c) (link m l) (node m n) (links-AreLinked m c) (link_type m l)
      (node_type m n)

named_links-AreLinked :
    (i : ℕ) (ps : List (AstEntity × AstEntity)) → AreLinked ps → AreLinked (named_links i ps)
named_links-AreLinked i [] h = tt
named_links-AreLinked i (p ∷ ps) (a, b, h) = (
  name_one_type i p.0 ∙ a,
  name_one_type (suc i) p.1 ∙ b,
  named_links-AreLinked (suc (suc i)) ps h,
)

pub chain-AreLinked : (m : Machine) (c : PatternChain) → AreLinked (named_links 1 (links m c))
chain-AreLinked m c = named_links-AreLinked 1 (links m c) (links-AreLinked m c)

length-links : (m : Machine) (c : PatternChain) → length (links m c) ≡ link_count c
length-links m (first_node n) = refl
length-links m (and_link c l n) =
    omega (arith, length-append (links m c) ((link m l, node m n) ∷ []), length-links m c)

length-node_names :
    (i : ℕ) (ps : List (AstEntity × AstEntity)) → length (node_names (named_links i ps)) ≡ length ps
length-node_names i [] = refl
length-node_names i (p ∷ ps) = ap suc (length-node_names (suc (suc i)) ps)

length-link_names :
    (i : ℕ) (ps : List (AstEntity × AstEntity)) → length (link_names (named_links i ps)) ≡ length ps
length-link_names i [] = refl
length-link_names i (p ∷ ps) = ap suc (length-link_names (suc (suc i)) ps)

pub node_names_count :
    (m : Machine) (c : PatternChain)
    → length (node_names (named_links 1 (links m c))) ≡ link_count c
node_names_count m c = length-node_names 1 (links m c) ∙ length-links m c

pub link_names_count :
    (m : Machine) (c : PatternChain)
    → length (link_names (named_links 1 (links m c))) ≡ link_count c
link_names_count m c = length-link_names 1 (links m c) ∙ length-links m c
