-- ===== src/Query.antt =====
-- src/query_executor.c, and the query's syntax tree of src/parser/ast.h: what the executor reads of
-- a RETURN clause, and the two passes over a parsed query.
pub mod Passes
pub mod Pattern
pub mod Linking
pub mod Build
pub mod Collapsed
use redis_graph.Base.{
  ℕ, zero, suc, ◌+◌, Bool, true, false, ◌||◌, Option, none, some, Run, ok, fault, ◌>>=◌, deref,
  Text, codes, text_eq, List, [], ◌∷◌, ◌++◌, print_nat, any, if◌then◌else◌,
}
use redis_graph.Value.{Machine, SiValue, SiString, stringval}
use redis_graph.Graph.{Heap, Graph, Entity, Property, get_property, get_entity_by_alias}
use redis_graph.Filter.{AstFilter, Op, eq, and}
use redis_graph.Aggregate.{AggCtx, Registry, get_func}

-- AST_GraphEntity: `direction` is that of a link. The properties of a MATCH pattern are a key, its
-- value, the next key, and so on.
pub data EntityType : Type 0 where
  n_entity n_link : EntityType

pub data LinkDirection : Type 0 where
  left_to_right right_to_left dir_unknown : LinkDirection

pub record AstEntity : Type 0 where
  pub alias : Option Text
  pub label : Option Text
  pub properties : Option (List SiValue)
  pub type : EntityType
  pub direction : LinkDirection

pub data ReturnType : Type 0 where
  n_node n_prop n_agg_func : ReturnType

-- AST_ReturnElementNode with its AST_Variable.
pub record ReturnElement : Type 0 where
  pub var_alias : Option Text
  pub var_property : Option Text
  pub func : Option Text
  pub alias : Option Text
  pub type : ReturnType

pub record ReturnNode : Type 0 where
  pub elements : List ReturnElement
  pub distinct : Bool

pub data ColumnType : Type 0 where
  n_variable n_alias : ColumnType

pub record ColumnNode : Type 0 where
  pub alias : Text
  pub property : Option Text
  pub type : ColumnType

pub record OrderNode : Type 0 where
  pub columns : List ColumnNode
  pub descending : Bool

-- AST_QueryExpressionNode; the nodes that a query may lack are options.
pub record Query : Type 0 where
  pub entities : List AstEntity
  pub where_filters : Option AstFilter
  pub returns : ReturnNode
  pub order : Option OrderNode
  pub limit : Option ℕ

-- The constructors of src/parser/ast.c.
unfoldable pub new_node_entity : Option Text → Option Text → Option (List SiValue) → AstEntity
new_node_entity a l ps = record {
  alias = a;
  label = l;
  properties = ps;
  type = n_entity;
  direction = left_to_right;
}

unfoldable pub new_link_entity :
    Option Text → Option Text → Option (List SiValue) → LinkDirection → AstEntity
new_link_entity a l ps d = record {
  alias = a;
  label = l;
  properties = ps;
  type = n_link;
  direction = d;
}

unfoldable pub new_constant_predicate : Text → Text → Op → SiValue → AstFilter
new_constant_predicate a k op v = AstFilter.constant a k op v

unfoldable pub new_varying_predicate : Text → Text → Op → Text → Text → AstFilter
new_varying_predicate la lk op ra rk = AstFilter.varying la lk op ra rk

unfoldable pub new_condition : AstFilter → Op → AstFilter → AstFilter
new_condition l op r = AstFilter.condition l op r

-- The function's name is copied for aggregations only.
unfoldable pub new_return_element :
    ReturnType → Option Text → Option Text → Option Text → Option Text → ReturnElement
new_return_element t va vp f a = record {
  var_alias = va;
  var_property = vp;
  func = elim t [ n_agg_func ↦ f | _ ↦ none ];
  alias = a;
  type = t;
}

unfoldable pub new_column : Text → Option Text → ColumnType → ColumnNode
new_column a k n_variable = record { alias = a; property = k; type = n_variable }
new_column a k n_alias = record { alias = a; property = none; type = n_alias }

abbrev pub same_type : ReturnType → ReturnType → Bool
same_type n_node n_node = true
same_type n_prop n_prop = true
same_type n_agg_func n_agg_func = true
same_type _ _ = false

-- The property that one element asks for; its entity pointer and the property's name are followed
-- without a test.
unfoldable pub element_value : Heap → Graph → ReturnElement → Run (Option SiValue)
element_value h g r = do
  found ← get_entity_by_alias h g r.var_alias
  e ← deref found
  k ← deref r.var_property
  ok (get_property e k)

abbrev cons_value : SiValue → Option (List SiValue) → Option (List SiValue)
cons_value v none = none
cons_value v (some vs) = some (v ∷ vs)

abbrev with_value : Option SiValue → Run (Option (List SiValue)) → Run (Option (List SiValue))
with_value none rest = ok none
with_value (some v) rest = rest >>= λ vs. ok (cons_value v vs)

abbrev cons_func : AggCtx → Option (List AggCtx) → Option (List AggCtx)
cons_func f none = none
cons_func f (some fs) = some (f ∷ fs)

abbrev with_func : Option AggCtx → Run (Option (List AggCtx)) → Run (Option (List AggCtx))
with_func none rest = ok none
with_func (some f) rest = rest >>= λ fs. ok (cons_func f fs)

-- _ReturnClause_RetrieveValues: the loop ends with NULL at the first property that is not found.
unfoldable pub retrieve_values :
    Heap → Graph → ReturnType → List ReturnElement → Run (Option (List SiValue))
retrieve_values h g t [] = ok (some [])
retrieve_values h g t (r ∷ rs) =
    let rest = retrieve_values h g t rs in
    if same_type r.type t then (element_value h g r >>= λ found. with_value found rest) else rest

unfoldable pub retrieve_prop_values : Heap → Graph → ReturnNode → Run (Option (List SiValue))
retrieve_prop_values h g r = retrieve_values h g n_prop r.elements

unfoldable pub retrieve_group_keys : Heap → Graph → ReturnNode → Run (Option (List SiValue))
retrieve_group_keys h g r = retrieve_values h g n_prop r.elements

unfoldable pub retrieve_group_agg_vals : Heap → Graph → ReturnNode → Run (Option (List SiValue))
retrieve_group_agg_vals h g r = retrieve_values h g n_agg_func r.elements

unfoldable pub contains_collapsed_nodes : ReturnNode → Bool
contains_collapsed_nodes r = any (λ x. same_type x.type n_node) r.elements

unfoldable pub contains_aggregation : ReturnNode → Bool
contains_aggregation r = any (λ x. same_type x.type n_agg_func) r.elements

-- ReturnClause_GetAggFuncs: `none` is the reply "Invalid aggregation function".
unfoldable pub get_agg_funcs : Registry → List ReturnElement → Run (Option (List AggCtx))
get_agg_funcs reg [] = ok (some [])
get_agg_funcs reg (r ∷ rs) =
    let rest = get_agg_funcs reg rs in
    if same_type r.type n_agg_func
    then (deref r.func >>= λ name. with_func (get_func reg name) rest)
    else rest

-- nameAnonymousNodes, from index i on.
unfoldable pub name_from : ℕ → List AstEntity → List AstEntity
name_from i [] = []
name_from i (e ∷ es) =
    (elim e.alias [ none ↦ record e { alias = some (codes "anon_" ++ print_nat i) } | some a ↦ e ])
    ∷ name_from (suc i) es

unfoldable pub name_anonymous_nodes : Query → Query
unfolding name_from
name_anonymous_nodes q = record q { entities = name_from 0 q.entities }

-- A new filter goes to the right of an AND, or becomes the WHERE clause.
unfoldable pub introduce_filter : Option AstFilter → AstFilter → Option AstFilter
unfolding new_condition
introduce_filter none f = some f
introduce_filter (some l) f = some (new_condition l and f)

-- The inner loop of inlineProperties: a key without a value reads behind the vector, and an alias
-- that is NULL is copied by strdup.
unfoldable pub inline_pairs : Option Text → List SiValue → Option AstFilter → Run (Option AstFilter)
unfolding introduce_filter new_constant_predicate
inline_pairs alias [] f = ok f
inline_pairs alias (k ∷ []) f = fault
inline_pairs alias (k ∷ v ∷ rest) f = do
  name ← stringval k
  a ← deref alias
  inline_pairs alias rest (introduce_filter f (new_constant_predicate a name.str eq v))

unfoldable pub inline_entities : List AstEntity → Option AstFilter → Run (Option AstFilter)
unfolding inline_pairs
inline_entities [] f = ok f
inline_entities (e ∷ es) f = do
  f' ← elim e.properties [ none ↦ ok f | some ps ↦ inline_pairs e.alias ps f ]
  inline_entities es f'

unfoldable pub inline_properties : Query → Run Query
unfolding inline_entities
inline_properties q = do
  f ← inline_entities q.entities q.where_filters
  ok (record q { where_filters = f })

-- ParseQuery, after the parser; `none` is a parse error.
unfoldable pub parse_query : Option Query → Run (Option Query)
unfolding name_anonymous_nodes inline_properties
parse_query none = ok none
parse_query (some q) = do r ← inline_properties (name_anonymous_nodes q); ok (some r)
