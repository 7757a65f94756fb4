-- ===== src/Grammar/Aliases.antt =====
-- src/parser/grammar.y: the aliases of a MATCH clause, those of its nodes and those of its links.
use redis_graph.Base.{
  Bool, true, false, Text, List, [], ◌∷◌, map, Option, some, ◌≡◌, refl, ap, ap₂, sym, ◌∙◌,
}
use redis_graph.Value.{Machine, SiValue}
use redis_graph.Query.{AstEntity, name_from}
use redis_graph.Query.Passes.{AreWritten}
use redis_graph.Query.Build.{behind, link_names, node_names}
use redis_graph.Grammar.{PatternChain, chain}
use redis_graph.Grammar.Patterns.{chain_drawn, with_names, name_one, chain-AreWritten}
use redis_graph.Grammar.Linked.{start, links, named_links, name_from-chain}

-- Every second element, with the first one or without it.
abbrev pub every_other {ℓ} : {A : Type ℓ} → Bool → List A → List A
every_other b [] = []
every_other true (x ∷ xs) = x ∷ every_other false xs
every_other false (x ∷ xs) = every_other true xs

-- The names of the pattern's nodes (true) or links (false): as they are written, or anon_ with the
-- index in the pattern.
abbrev pub names_of : Machine → Bool → PatternChain → List (Option Text)
names_of m b c = every_other b (map (λ p. some (p.0)) (with_names 0 (chain_drawn m c)))

aliases-AreWritten :
    (es : List AstEntity) (ps : List (Text × List (Text × SiValue)))
    → AreWritten es ps
    → map (λ e. e.alias) es ≡ map (λ p. some (p.0)) ps
aliases-AreWritten [] [] w = refl
aliases-AreWritten [] (p ∷ ps) w = absurd w
aliases-AreWritten (e ∷ es) [] w = absurd w
aliases-AreWritten (e ∷ es) (p ∷ ps) (a, h, w) = ap₂ (λ x xs. x ∷ xs) a (aliases-AreWritten es ps w)

every_other-node_names :
    (ps : List (AstEntity × AstEntity))
    → every_other false (map (λ e. e.alias) (behind ps)) ≡ node_names ps
every_other-node_names [] = refl
every_other-node_names (p ∷ ps) = ap (λ xs. p.1.alias ∷ xs) (every_other-node_names ps)

every_other-link_names :
    (ps : List (AstEntity × AstEntity))
    → every_other true (map (λ e. e.alias) (behind ps)) ≡ link_names ps
every_other-link_names [] = refl
every_other-link_names (p ∷ ps) = ap (λ xs. p.0.alias ∷ xs) (every_other-link_names ps)

aliases_lem :
    (m : Machine) (c : PatternChain)
    → map (λ p. some (p.0)) (with_names 0 (chain_drawn m c))
      ≡ (name_one 0 (start m c)).alias ∷ map (λ e. e.alias) (behind (named_links 1 (links m c)))
aliases_lem m c =
    sym (
      aliases-AreWritten (name_from 0 (chain m c)) (with_names 0 (chain_drawn m c))
        (chain-AreWritten m c))
    ∙ ap (map (λ e. e.alias)) (name_from-chain m c)

pub names_of-nodes :
    (m : Machine) (c : PatternChain)
    → (name_one 0 (start m c)).alias ∷ node_names (named_links 1 (links m c)) ≡ names_of m true c
names_of-nodes m c = sym (
    ap (every_other true) (aliases_lem m c)
    ∙ ap (λ xs. (name_one 0 (start m c)).alias ∷ xs)
        (every_other-node_names (named_links 1 (links m c))))

pub names_of-links :
    (m : Machine) (c : PatternChain) → link_names (named_links 1 (links m c)) ≡ names_of m false c
names_of-links m c =
    sym (
      ap (every_other false) (aliases_lem m c) ∙ every_other-link_names (named_links 1 (links m c)))
