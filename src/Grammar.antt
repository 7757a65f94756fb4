-- ===== src/Grammar.antt =====
-- src/parser/grammar.y: a query as the grammar derives it, a constructor for each production, and
-- what the actions of the productions make of it. A token comes with its attribute: strval is a text,
-- intval an integer and dval the bits of a double.
pub mod Patterns
pub mod Linked
pub mod Aliases
pub mod Sound
pub mod Accepted
use redis_graph.Base.{ℕ, ℤ, Text, Bool, true, false, List, [], ◌∷◌, ◌++◌, Option, none, some}
use redis_graph.Value.{Machine, SiValue, double_val, string_val_c, bool_val}
use redis_graph.Filter.{Op, AstFilter, eq, gt, lt, le, ge, ne, and, or}
use redis_graph.Query.{
  AstEntity, new_node_entity, new_link_entity, left_to_right, right_to_left, dir_unknown,
  new_constant_predicate, new_varying_predicate, new_condition, ReturnElement, ReturnNode, n_node,
  n_prop, n_agg_func, new_return_element, ColumnNode, n_variable, n_alias, new_column, OrderNode,
  Query,
}

-- The productions of value: the tokens INTEGER, STRING, FLOAT, TRUE and FALSE.
pub data Value : Type 0 where
  integer : ℤ → Value
  string : Text → Value
  float : ℕ → Value
  true_token false_token : Value

unfoldable pub value : Machine → Value → SiValue
value m (integer i) = double_val (m.double_of_int i)
value m (string s) = string_val_c s
value m (float d) = double_val d
value m true_token = bool_val 1
value m false_token = bool_val 0

-- { key: value, ... }
pub data MapLiteral : Type 0 where
  last_pair : Text → Value → MapLiteral
  pair : Text → Value → MapLiteral → MapLiteral

-- The pairs are pushed when what follows them has been.
unfoldable pub map_literal : Machine → MapLiteral → List SiValue
unfolding value
map_literal m (last_pair k v) = string_val_c k ∷ value m v ∷ []
map_literal m (pair k v more) = map_literal m more ++ string_val_c k ∷ value m v ∷ []

pub data Properties : Type 0 where
  no_properties : Properties
  braces : MapLiteral → Properties

unfoldable pub properties : Machine → Properties → Option (List SiValue)
unfolding map_literal
properties m no_properties = none
properties m (braces b) = some (map_literal m b)

-- (alias:label), (:label), (alias) and (), with properties.
pub data NodePattern : Type 0 where
  node_full : Text → Text → Properties → NodePattern
  node_labelled : Text → Properties → NodePattern
  node_aliased : Text → Properties → NodePattern
  node_empty : Properties → NodePattern

unfoldable pub node : Machine → NodePattern → AstEntity
unfolding properties new_node_entity
node m (node_full a l ps) = new_node_entity (some a) (some l) (properties m ps)
node m (node_labelled l ps) = new_node_entity none (some l) (properties m ps)
node m (node_aliased a ps) = new_node_entity (some a) none (properties m ps)
node m (node_empty ps) = new_node_entity none none (properties m ps)

-- [], [alias], [:label] and [alias:label], with properties.
pub data EdgePattern : Type 0 where
  edge_empty : Properties → EdgePattern
  edge_aliased : Text → Properties → EdgePattern
  edge_labelled : Text → Properties → EdgePattern
  edge_full : Text → Text → Properties → EdgePattern

unfoldable pub edge : Machine → EdgePattern → AstEntity
unfolding properties new_link_entity
edge m (edge_empty ps) = new_link_entity none none (properties m ps) dir_unknown
edge m (edge_aliased a ps) = new_link_entity (some a) none (properties m ps) dir_unknown
edge m (edge_labelled l ps) = new_link_entity none (some l) (properties m ps) dir_unknown
edge m (edge_full a l ps) = new_link_entity (some a) (some l) (properties m ps) dir_unknown

-- -edge-> and <-edge-
pub data LinkPattern : Type 0 where
  to_right to_left : EdgePattern → LinkPattern

unfoldable pub link : Machine → LinkPattern → AstEntity
unfolding edge
link m (to_right e) = record (edge m e) { direction = left_to_right }
link m (to_left e) = record (edge m e) { direction = right_to_left }

pub data PatternChain : Type 0 where
  first_node : NodePattern → PatternChain
  and_link : PatternChain → LinkPattern → NodePattern → PatternChain

unfoldable pub chain : Machine → PatternChain → List AstEntity
unfolding node link
chain m (first_node n) = node m n ∷ []
chain m (and_link c l n) = chain m c ++ link m l ∷ node m n ∷ []

pub data Relation : Type 0 where
  is_eq is_gt is_lt is_le is_ge is_ne : Relation

unfoldable pub op : Relation → Op
op is_eq = eq
op is_gt = gt
op is_lt = lt
op is_le = le
op is_ge = ge
op is_ne = ne

pub data Cond : Type 0 where
  between : Text → Text → Relation → Text → Text → Cond
  with_value : Text → Text → Relation → Value → Cond
  in_parentheses : Cond → Cond
  both either : Cond → Cond → Cond

unfoldable pub cond : Machine → Cond → AstFilter
unfolding value op new_varying_predicate new_constant_predicate new_condition
cond m (between b c d e f) = new_varying_predicate b c (op d) e f
cond m (with_value b c d e) = new_constant_predicate b c (op d) (value m e)
cond m (in_parentheses b) = cond m b
cond m (both b c) = new_condition (cond m b) and (cond m c)
cond m (either b c) = new_condition (cond m b) or (cond m c)

pub data WhereClause : Type 0 where
  no_where : WhereClause
  where_cond : Cond → WhereClause

unfoldable pub where_clause : Machine → WhereClause → Option AstFilter
unfolding cond
where_clause m no_where = none
where_clause m (where_cond c) = some (cond m c)

-- alias.property
pub record Variable : Type 0 where
  pub alias : Text
  pub property : Text

-- The function's name, the variable, and a name behind AS.
pub data AggFunc : Type 0 where
  applied : Text → Variable → AggFunc
  applied_as : Text → Variable → Text → AggFunc

unfoldable pub agg_func : AggFunc → ReturnElement
unfolding new_return_element
agg_func (applied f v) =
    new_return_element n_agg_func (some v.alias) (some v.property) (some f) none
agg_func (applied_as f v a) =
    new_return_element n_agg_func (some v.alias) (some v.property) (some f) (some a)

pub data ReturnItem : Type 0 where
  returned : Variable → ReturnItem
  returned_as : Variable → Text → ReturnItem
  aggregated : AggFunc → ReturnItem
  whole : Text → ReturnItem

unfoldable pub return_element : ReturnItem → ReturnElement
unfolding new_return_element agg_func
return_element (returned v) = new_return_element n_prop (some v.alias) (some v.property) none none
return_element (returned_as v a) =
    new_return_element n_prop (some v.alias) (some v.property) none (some a)
return_element (aggregated f) = agg_func f
return_element (whole a) = new_return_element n_node (some a) none none none

pub data ReturnItems : Type 0 where
  one_item : ReturnItem → ReturnItems
  and_item : ReturnItems → ReturnItem → ReturnItems

unfoldable pub return_elements : ReturnItems → List ReturnElement
unfolding return_element
return_elements (one_item r) = return_element r ∷ []
return_elements (and_item rs r) = return_elements rs ++ return_element r ∷ []

pub data ReturnClause : Type 0 where
  return_all return_distinct : ReturnItems → ReturnClause

unfoldable pub return_clause : ReturnClause → ReturnNode
unfolding return_elements
return_clause (return_all rs) = record { elements = return_elements rs; distinct = false }
return_clause (return_distinct rs) = record { elements = return_elements rs; distinct = true }

pub data ColumnName : Type 0 where
  column_variable : Variable → ColumnName
  column_alias : Text → ColumnName

unfoldable pub column_name : ColumnName → ColumnNode
unfolding new_column
column_name (column_variable v) = new_column v.alias (some v.property) n_variable
column_name (column_alias a) = new_column a none n_alias

pub data ColumnNames : Type 0 where
  one_column : ColumnName → ColumnNames
  and_column : ColumnNames → ColumnName → ColumnNames

unfoldable pub column_name_list : ColumnNames → List ColumnNode
unfolding column_name
column_name_list (one_column c) = column_name c ∷ []
column_name_list (and_column cs c) = column_name_list cs ++ column_name c ∷ []

pub data OrderClause : Type 0 where
  no_order : OrderClause
  order_by order_asc order_desc : ColumnNames → OrderClause

unfoldable pub order_clause : OrderClause → Option OrderNode
unfolding column_name_list
order_clause no_order = none
order_clause (order_by cs) = some (record { columns = column_name_list cs; descending = false })
order_clause (order_asc cs) = some (record { columns = column_name_list cs; descending = false })
order_clause (order_desc cs) = some (record { columns = column_name_list cs; descending = true })

-- A limit that is not negative.
pub data LimitClause : Type 0 where
  no_limit : LimitClause
  at_most : ℕ → LimitClause

unfoldable pub limit_clause : LimitClause → Option ℕ
limit_clause no_limit = none
limit_clause (at_most n) = some n

-- MATCH chain WHERE ... RETURN ... ORDER BY ... LIMIT ...
pub record Expr : Type 0 where
  pub matched : PatternChain
  pub filtered : WhereClause
  pub returns : ReturnClause
  pub order : OrderClause
  pub limit : LimitClause

unfoldable pub expr : Machine → Expr → Query
unfolding chain where_clause return_clause order_clause limit_clause
expr m x = record {
  entities = chain m x.matched;
  where_filters = where_clause m x.filtered;
  returns = return_clause x.returns;
  order = order_clause x.order;
  limit = limit_clause x.limit;
}
