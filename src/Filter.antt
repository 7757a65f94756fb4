-- ===== src/Filter.antt =====
-- src/filter_tree/: the tree of predicates that a WHERE clause becomes. A tree that the code passes
-- by a pointer to a pointer is returned; a child that was removed is `null`.
pub mod Build
pub mod Prune
pub mod Apply
pub mod Split
pub mod Single
pub mod Meaning
use redis_graph.Base.{
  ℕ, Bool, true, false, ◌&&◌, ◌||◌, not, Text, text_eq, List, [], ◌∷◌, any, if◌then◌else◌,
}
use redis_graph.Value.{SiValue}
use redis_graph.Value.Compare.{CmpFunc}

-- The token codes of the grammar (src/parser/grammar.h) that stand in a filter.
pub data Op : Type 0 where
  or and eq gt ge lt le ne : Op

-- AST_FilterNode of src/parser/ast.h.
pub data AstFilter : Type 0 where
  constant : Text → Text → Op → SiValue → AstFilter
  varying : Text → Text → Op → Text → Text → AstFilter
  condition : AstFilter → Op → AstFilter → AstFilter

-- FT_FilterNode: alias, property, operator, the value or the other side, and the comparison.
pub data FilterNode : Type 0 where
  null : FilterNode
  constant : Text → Text → Op → SiValue → CmpFunc → FilterNode
  varying : Text → Text → Op → Text → Text → CmpFunc → FilterNode
  cond : FilterNode → Op → FilterNode → FilterNode

-- _vectorContains
unfoldable pub vector_contains : List Text → Text → Bool
vector_contains aliases item = any (λ current. text_eq current item) aliases
