-- ===== src/Tests.antt =====
-- The theorems at concrete inputs: the data that the examples share.
mod Filters
mod Disjunction
mod Values
mod Hexastores
mod Results
mod Commands
mod Queries
mod Plans
mod Operations
mod Chains
mod Edges
mod Sentences
use redis_graph.Base.{
  ℕ, ◌+◌, ◌/◌, ltb, Text, codes, [], ◌∷◌, List, some, none, pos, negsuc, print_nat, if◌then◌else◌,
  ◌==◌, ◌≡◌, false, true, refl, arith,
}
use redis_graph.Value.{Machine, SiValue, double_val, string_val_c, long_val}
use redis_graph.Value.Order.{IsAsymmetric, HasAsymmetricFloats}
use redis_graph.Graph.{Heap, Graph, Node, Edge, Property, new_node, new_edge}

-- A machine whose doubles are the natural numbers.
abbrev pub machine : Machine
machine = record {
  address = λ s. 0;
  float_lt = ltb;
  double_lt = ltb;
  double_add = λ a b. a + b;
  double_div = λ a b. if b == 0 then 0 else a / b;
  double_max = 1000;
  double_min = 0;
  double_of_int = λ i. elim i [ pos n ↦ n | negsuc n ↦ 0 ];
  double_of_uint = λ n. n;
  double_of_float = λ n. n;
  float_of_double = λ n. n;
  float_of_int = λ i. elim i [ pos n ↦ n | negsuc n ↦ 0 ];
  int_of_double = λ n. n;
  uint_of_double = λ n. n;
  int32_of_double = λ n. n;
  print_double = λ width n. print_nat n;
  strtod = λ s. none;
}

pub ltb-IsAsymmetric : IsAsymmetric ltb
ltb-IsAsymmetric a b h = ground arith

pub machine-HasAsymmetricFloats : HasAsymmetricFloats machine
machine-HasAsymmetricFloats = record {
  float_lt_asym = ltb-IsAsymmetric;
  double_lt_asym = ltb-IsAsymmetric;
}

-- Two people, with the ids 7 and 71, and what one knows of the other.
abbrev pub ann : Node
ann = record {
  entity = record {
    id = pos 7;
    properties = record { name = codes "age"; value = double_val 33 } ∷ [];
  };
  label = some (codes "person");
  outgoing = 0 ∷ [];
  incoming = [];
}

abbrev pub bob : Node
bob = record {
  entity = record { id = pos 71; properties = [] };
  label = some (codes "person");
  outgoing = [];
  incoming = 0 ∷ [];
}

abbrev pub knows : Edge
knows = record {
  entity = record { id = pos 5; properties = [] };
  src = 0;
  dest = 1;
  relationship = some (codes "knows");
}

-- The edge of a query, which has no id yet.
abbrev pub any_knows : Edge
any_knows = record {
  entity = record { id = negsuc 0; properties = [] };
  src = 0;
  dest = 1;
  relationship = some (codes "knows");
}

abbrev pub heap : Heap
heap = record { nodes = ann ∷ bob ∷ []; edges = knows ∷ any_knows ∷ [] }
