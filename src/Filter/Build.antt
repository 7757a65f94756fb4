-- ===== src/Filter/Build.antt =====
-- Making and cloning filter trees, and the trees of src/parser/ast.c that they are made from.
use redis_graph.Base.{Option, none, some, Run, ok, fault, ◌>>=◌, Text}
use redis_graph.Value.{
  Machine, SiType, t_string, t_int32, t_int64, t_uint, t_bool, t_float, t_double, SiValue, clone,
}
use redis_graph.Value.Compare.{
  CmpFunc, cmp_string, cmp_int, cmp_long, cmp_uint, cmp_float, cmp_double,
}
use redis_graph.Filter.{Op, AstFilter, FilterNode, null, cond}

-- The switch of CreateConstFilterNode.
unfoldable pub cmp_for_type : SiType → Option CmpFunc
cmp_for_type t_string = some cmp_string
cmp_for_type t_int32 = some cmp_int
cmp_for_type t_int64 = some cmp_long
cmp_for_type t_uint = some cmp_uint
cmp_for_type t_bool = some cmp_int
cmp_for_type t_float = some cmp_float
cmp_for_type t_double = some cmp_double
cmp_for_type _ = none

unfoldable pub create_varying : Text → Text → Text → Text → Op → FilterNode
create_varying la lp ra rp op = FilterNode.varying la lp op ra rp cmp_double

-- NULL where no comparison function fits the value.
unfoldable pub const_with : Text → Text → Op → SiValue → Option CmpFunc → FilterNode
const_with a p op v (some f) = FilterNode.constant a p op v f
const_with a p op v none = null

unfoldable pub create_const : Text → Text → Op → SiValue → FilterNode
unfolding cmp_for_type const_with
create_const a p op v = const_with a p op v (cmp_for_type v.type)

-- BuildFiltersTree, the two children appended to the condition node.
unfoldable pub build_filters_tree : AstFilter → FilterNode
unfolding create_const create_varying
build_filters_tree (AstFilter.constant a p op v) = create_const a p op v
build_filters_tree (AstFilter.varying la lp op ra rp) = create_varying la lp ra rp op
build_filters_tree (AstFilter.condition l op r) =
    cond (build_filters_tree l) op (build_filters_tree r)

module _ (m : Machine) where
  -- FilterTree_Clone follows its argument without a test.
  unfoldable pub clone_tree : FilterNode → Run FilterNode
  unfolding clone create_const create_varying
  clone_tree null = fault
  clone_tree (FilterNode.constant a p op v f) = do w ← clone m v; ok (create_const a p op w)
  clone_tree (FilterNode.varying la lp op ra rp f) = ok (create_varying la lp ra rp op)
  clone_tree (cond l op r) = do a ← clone_tree l; b ← clone_tree r; ok (cond a op b)
