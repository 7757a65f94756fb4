-- ===== src/Graph.antt =====
-- src/graph/: entities with properties, nodes, edges and the graph of a query. Nodes and edges live
-- on a heap, where an address is an index, so that two pointers to one node see the same node. A
-- `Node **` into the graph's array is the index of its slot.
use redis_graph.Base.{
  ℕ, suc, Bool, true, false, not, ◌&&◌, Option, none, some, Run, ok, fault, ◌>>=◌, deref, Text,
  text_eq, ℤ, pos, negsuc, List, [], ◌∷◌, ◌++◌, length, get_elem?, set, ◌==◌, if◌then◌else◌,
}
use redis_graph.Value.{SiValue}

pub record Property : Type 0 where
  pub name : Text
  pub value : SiValue

-- GraphEntity; `prop_count` is the length of `properties`.
pub record Entity : Type 0 where
  pub id : ℤ
  pub properties : List Property

pub record Node : Type 0 where
  pub entity : Entity
  pub label : Option Text
  pub outgoing : List ℕ
  pub incoming : List ℕ

pub record Edge : Type 0 where
  pub entity : Entity
  pub src : ℕ
  pub dest : ℕ
  pub relationship : Option Text

pub record Heap : Type 0 where
  pub nodes : List Node
  pub edges : List Edge

-- INVALID_ENTITY_ID
abbrev pub invalid_id : ℤ
invalid_id = negsuc 0

abbrev pub int_eq : ℤ → ℤ → Bool
int_eq (pos a) (pos b) = a == b
int_eq (pos a) (negsuc b) = false
int_eq (negsuc a) (pos b) = false
int_eq (negsuc a) (negsuc b) = a == b

abbrev pub is_invalid : ℤ → Bool
is_invalid i = int_eq i invalid_id

unfoldable pub add_properties : Entity → List Property → Entity
add_properties e ps = record e { properties = e.properties ++ ps }

abbrev pub find_property : Text → List Property → Option SiValue
find_property k [] = none
find_property k (p ∷ ps) = if text_eq k p.name then some p.value else find_property k ps

-- GraphEntity_Get_Property; `none` is PROPERTY_NOTFOUND, the NULL pointer.
unfoldable pub get_property : Entity → Text → Option SiValue
get_property e k = find_property k e.properties

unfoldable pub new_node : ℤ → Option Text → Node
new_node i l = record {
  entity = record { id = i; properties = [] };
  label = l;
  outgoing = [];
  incoming = [];
}

unfoldable pub new_edge : ℤ → ℕ → ℕ → Option Text → Edge
new_edge i s d r = record {
  entity = record { id = i; properties = [] };
  src = s;
  dest = d;
  relationship = r;
}

unfoldable pub node_compare : Node → Node → Bool
node_compare a b = int_eq a.entity.id b.entity.id

unfoldable pub income_degree : Node → ℕ
income_degree n = length n.incoming

abbrev pub node_at : Heap → ℕ → Run Node
node_at h a = deref (get_elem? h.nodes a)

abbrev pub edge_at : Heap → ℕ → Run Edge
edge_at h a = deref (get_elem? h.edges a)

-- Node_ConnectNode: the two pushes, in order; the nodes may be one.
unfoldable pub connect_node : Heap → ℕ → ℕ → ℕ → Run Heap
connect_node h s d e = do
  n ← node_at h s
  let h' = record h { nodes = set h.nodes s (record n { outgoing = n.outgoing ++ e ∷ [] }) }
  k ← node_at h' d
  ok (record h' { nodes = set h'.nodes d (record k { incoming = k.incoming ++ e ∷ [] }) })

-- The arrays of the source: `nodes` and `node_aliases` have `node_count` entries each.
pub record Graph : Type 0 where
  pub nodes : List ℕ
  pub edges : List ℕ
  pub node_aliases : List (Option Text)
  pub edge_aliases : List (Option Text)

unfoldable pub new_graph : Graph
new_graph = record { nodes = []; edges = []; node_aliases = []; edge_aliases = [] }

-- _Graph_ContainsEntity compares pointers.
unfoldable pub contains_entity : ℕ → List ℕ → Bool
contains_entity a [] = false
contains_entity a (x ∷ xs) = let rest = contains_entity a xs in if x == a then true else rest

-- _Graph_GetEntityById; `id_of` reads the id behind a pointer.
unfoldable pub get_entity_by_id : (ℕ → Run ℤ) → List ℕ → ℤ → Run (Option ℕ)
get_entity_by_id id_of [] i = ok none
get_entity_by_id id_of (x ∷ xs) i = do
  j ← id_of x
  let rest = get_entity_by_id id_of xs i
  if int_eq j i then ok (some x) else rest

-- _Graph_GetEntityByAlias: the first entity of that alias; an alias that is NULL is read by strcmp.
unfoldable pub find_by_alias : List ℕ → List (Option Text) → Text → Run (Option ℕ)
find_by_alias (x ∷ xs) (a ∷ aliases) alias = do
  t ← deref a
  let rest = find_by_alias xs aliases alias
  if text_eq t alias then ok (some x) else rest
find_by_alias _ _ alias = ok none

unfoldable pub get_node_by_id : Heap → Graph → ℤ → Run (Option ℕ)
unfolding get_entity_by_id
get_node_by_id h g i =
    if is_invalid i
    then ok none
    else get_entity_by_id (λ a. node_at h a >>= λ n. ok n.entity.id) g.nodes i

unfoldable pub get_edge_by_id : Heap → Graph → ℤ → Run (Option ℕ)
unfolding get_entity_by_id
get_edge_by_id h g i =
    if is_invalid i
    then ok none
    else get_entity_by_id (λ a. edge_at h a >>= λ n. ok n.entity.id) g.edges i

unfoldable pub contains_node : Graph → ℕ → Bool
unfolding contains_entity
contains_node g a = contains_entity a g.nodes

unfoldable pub contains_edge : Graph → ℕ → Bool
unfolding contains_entity
contains_edge g a = contains_entity a g.edges

-- Graph_AddNode returns 0 where the node is there already.
unfoldable pub add_node : Graph → ℕ → Option Text → Graph × Bool
unfolding contains_node
add_node g a alias =
    if contains_node g a
    then (g, false)
    else (record g { nodes = g.nodes ++ a ∷ []; node_aliases = g.node_aliases ++ alias ∷ [] }, true)

-- _Graph_AddEdge
unfoldable pub add_edge : Graph → ℕ → Option Text → Graph
add_edge g e alias = record g {
  edges = g.edges ++ e ∷ [];
  edge_aliases = g.edge_aliases ++ alias ∷ [];
}

-- Graph_ConnectNodes; a failed assertion is a fault.
unfoldable pub connect_nodes : Heap → Graph → ℕ → ℕ → ℕ → Option Text → Run (Heap × Graph)
unfolding contains_node contains_edge connect_node add_edge
connect_nodes h g s d e alias =
    if contains_node g s && contains_node g d && not (contains_edge g e)
    then (do h' ← connect_node h s d e; ok (h', add_edge g e alias))
    else fault

unfoldable pub get_node_by_alias : Graph → Option Text → Run (Option ℕ)
get_node_by_alias g none = ok none
get_node_by_alias g (some alias) = find_by_alias g.nodes g.node_aliases alias

unfoldable pub get_edge_by_alias : Graph → Option Text → Run (Option ℕ)
get_edge_by_alias g none = ok none
get_edge_by_alias g (some alias) = find_by_alias g.edges g.edge_aliases alias

unfoldable pub read_edge_entity : Heap → Option ℕ → Run (Option Entity)
read_edge_entity h none = ok none
read_edge_entity h (some a) = do e ← edge_at h a; ok (some e.entity)

unfoldable pub read_node_entity : Heap → ℕ → Run (Option Entity)
read_node_entity h a = do n ← node_at h a; ok (some n.entity)

-- Graph_GetEntityByAlias, with the entity that its pointer leads to: a node first, then an edge.
unfoldable pub get_entity_by_alias : Heap → Graph → Option Text → Run (Option Entity)
unfolding read_edge_entity read_node_entity
get_entity_by_alias h g alias = do
  n ← get_node_by_alias g alias
  elim n [
    | some a ↦ read_node_entity h a
    | none ↦ (do e ← get_edge_by_alias g alias; read_edge_entity h e)
  ]

-- The loop of Graph_GetNDegreeNodes, over the slots of the graph.
unfoldable pub n_degree_nodes : Heap → ℕ → List ℕ → Run (List ℕ)
n_degree_nodes h degree [] = ok []
n_degree_nodes h degree (a ∷ rest) = do
  n ← node_at h a
  found ← n_degree_nodes h degree rest
  ok (if length n.incoming == degree then a ∷ found else found)

-- Graph_GetNodeAlias and Graph_GetEdgeAlias, on the arrays of nodes or edges.
unfoldable pub alias_of : ℕ → List ℕ → List (Option Text) → Option Text
alias_of a (x ∷ xs) (t ∷ ts) = let rest = alias_of a xs ts in if a == x then t else rest
alias_of a _ _ = none

-- Graph_GetNodeRef and Graph_GetEdgeRef: the first slot that holds the pointer.
unfoldable pub slot_of : ℕ → List ℕ → Option ℕ
slot_of a [] = none
slot_of a (x ∷ xs) =
    let rest = slot_of a xs in
    if a == x then some 0 else elim rest [ none ↦ none | some i ↦ some (suc i) ]

unfoldable pub node_alias : Graph → ℕ → Option Text
unfolding alias_of
node_alias g a = alias_of a g.nodes g.node_aliases

unfoldable pub edge_alias : Graph → ℕ → Option Text
unfolding alias_of
edge_alias g e = alias_of e g.edges g.edge_aliases

unfoldable pub node_ref : Graph → ℕ → Option ℕ
unfolding slot_of
node_ref g a = slot_of a g.nodes

unfoldable pub edge_ref : Graph → ℕ → Option ℕ
unfolding slot_of
edge_ref g e = slot_of e g.edges
