-- ===== src/Lib.antt =====
-- A model of the redis-graph module: a property graph kept in Redis, and the evaluation of Cypher
-- queries over it.
--
-- The program. GRAPH.CREATENODE and GRAPH.ADDEDGE (src/module.c) make nodes and edges (src/graph/),
-- put them into stores by label (src/stores/store.c), and put each edge, as a triplet of subject,
-- predicate and object, under six keys of a trie (src/hexastore/). A query is parsed, by a parser
-- that is generated from src/parser/grammar.y, to a syntax tree (src/parser/ast.h), which
-- src/query_executor.c completes and turns into a query graph and a filter tree (src/filter_tree/).
-- The execution plan (src/execution_plan/) is a tree of operations that pull from each other: scans
-- read a store, expansions read the hexastore by the prefix of a key, and both write what they find
-- into the slots of the query graph; filters drop what they reject. The records that remain are
-- grouped and aggregated (src/grouping/, src/aggregate/), or go to the result set (src/resultset/),
-- which tells rows apart by their text, compares them by their values (src/value.c,
-- src/value_cmp.c), and is replayed to the client.
--
-- The files.
--   Base: lists, texts as lists of bytes, decimal numbers, and Run, the outcome of code that may
--     fail. A fault is what C leaves undefined: a NULL that is read, a write behind a buffer, a failed
--     assertion.
--   Value: src/value.c. SIValue with its constructors; Cast, Parse and Print are the functions
--     SI_*_Cast, SI_ParseValue, SIValue_FromString, SIValue_ToString and SIValue_StringConcat;
--     Compare is src/value_cmp.c; Order, Concat and Roundtrip are proofs.
--   Graph: src/graph/. Nodes and edges stand in a Heap and are referred to by address. The arrays of
--     a Graph are lists.
--   Grammar: the productions of src/parser/grammar.y as trees, and what their actions make of them.
--     Patterns, Linked, Aliases, Sound and Accepted are proofs on the queries that it makes.
--   Filter: src/filter_tree/filter_tree.c. Build makes and clones trees, Prune cuts them as the
--     planner does, Apply evaluates them; Split, Meaning and Single are proofs.
--   Trie: the operations of src/util/triemap/ as an interface; Trie/Assoc is a list that has them.
--   Hexastore: src/hexastore/. Keys, Search, Update and Edges are proofs.
--   Aggregate: src/aggregate/. Laws are proofs.
--   Query: src/query_executor.c and the nodes of src/parser/ast.h; Query/Pattern is BuildGraph,
--     Query/Collapsed is ReturnClause_ExpandCollapsedNodes; Passes are proofs on ParseQuery, Linking
--     and Build on BuildGraph.
--   ResultSet: src/resultset/; ResultSet/Replay is ResultSet_Replay with the aggregation and the
--     order of a set. Limits, Distinct, Order and Reply are proofs.
--   Grouping: src/grouping/ and _aggregateRecord; Laws, Columns and Total are proofs.
--   Store: src/stores/store.c and GetHexaStore, over the keys of Redis as a function.
--   Plan: src/execution_plan/execution_plan.h; the nodes of a plan stand in a list and are referred
--     to by index. Tree is the linking of nodes, Execute the pulling from streams, Operations the
--     structures of src/execution_plan/ops/ and Consume what they do; Draft, Optimize, Filters
--     and Start are the parts of NewExecutionPlan (chains of operations, entry points and merging,
--     the placing of filters, the whole) with ExecutionPlan_Execute, Print is ExecutionPlanPrint.
--     TreeLaws, Expand and Pipeline are proofs, and so is Streams: an operation node as a
--     sequence of graphs, for plans in which no node has two children.
--   Commands: the commands of src/module.c that change a graph; Commands/Ask is QUERY and EXPLAIN;
--     Create, Link and Remove are proofs.
--   Tests: concrete data, and the theorems at it.
--
-- Numbers. Integers of w bits are natural numbers below 2 ^ w, with the wrap-around written out.
-- A float or a double is its bit pattern; what the processor and the C library do with it is the
-- record Machine, a parameter. Identifiers are ℤ, and theorems on the texts of keys ask that they
-- fit 64 bits. A text buffer's size is tested where the code writes into it; an array that grows is
-- a list, also the two arrays of a plan's node, which the code lets grow after it writes.
--
-- Loops are structural recursion over the lists that the code goes through, except in a plan. The
-- recursion of its execution, the walk along the edges of a graph and the recursion over its nodes
-- take fuel, one step for a level of the plan or a jump back, and end in out_of_fuel without it,
-- which also shows a loop that never ends. For a plan of one node, the entries of its store and 4 are
-- enough fuel, since each record that the root asks for takes an entry; for a plan without branches,
-- the graphs that each of its operations is given, a step for each operation, the rows and 3. A heap
-- is emptied in as many steps as it counts.
--
-- Not modelled: the generated lexer and parser (the query that is parsed is a parameter of
-- parse_query and of the commands; Grammar says what the parser's actions make, of a query without a
-- syntax error and without a negative limit),
-- the libraries under src/rmutil/ and src/util/ (interfaces TrieMap and HeapLib, with the laws that
-- their callers rely on), the Redis API, freeing of memory, printing for debugging, the log, and
-- the time that ends a query's reply. What malloc's memory holds before it is set is a parameter.
pub mod Base
pub mod Value
pub mod Grammar
pub mod Graph
pub mod Filter
pub mod Trie
pub mod Hexastore
pub mod Aggregate
pub mod Query
pub mod ResultSet
pub mod Grouping
pub mod Store
pub mod Plan
pub mod Commands
mod Tests
