-- ===== src/Commands/Create.antt =====
-- What CREATENODE puts into the database.
use redis_graph.Base.{
  ℕ, suc, ◌*◌, ◌%◌, ◌≤◌, true, false, ◌||◌, none, some, ok, Text, text_eq, text_eq_refl, text_eq→≡,
  List, [], ◌∷◌, ◌++◌, ◌≡◌, ◌⊎◌, inl, inr, refl, ap, sym, ◌∙◌, arith, length, ◌==◌, ltb, Bool-cases,
  ℤ, print_int,
}
use redis_graph.Value.{Machine, SiValue}
use redis_graph.Value.Parse.{from_string}
use redis_graph.Trie.{TrieMap}
use redis_graph.Hexastore.{Triplet}
use redis_graph.Store.{store_node, store_id, store, Keyspace, store_insert, get_store, put}
use redis_graph.Commands.{simple, Db, create_node, made_node, insert_labelled, read_properties}

module _ (m : Machine) (nodes : TrieMap ℕ) (triplets : TrieMap Triplet) where
  -- The key is empty or leads to a store.
  abbrev pub IsStore : Keyspace nodes triplets → Text → Type 0
  IsStore ks k = (ks k ≡ none) ⊎ ((s : nodes.Map) × (ks k ≡ some (store s)))

  -- The store under the key has the address under the name.
  abbrev pub Holds : Keyspace nodes triplets → Text → Text → ℕ → Type 0
  Holds ks k name a = (s : nodes.Map) × (ks k ≡ some (store s)) × (nodes.find s name ≡ some a)

  get_store-IsStore :
      (ks : Keyspace nodes triplets) (k : Text)
      → IsStore ks k
      → (s : nodes.Map) × (ks' : Keyspace nodes triplets) × (get_store nodes triplets ks k
          ≡ ok (s, ks'))
        × ((j : Text) → text_eq k j ≡ false → ks' j ≡ ks j)
  unfolding get_store
  get_store-IsStore ks k (inl empty) = (
    nodes.empty,
    put nodes triplets ks k (some (store nodes.empty)),
    ground (arith, empty),
    λ j h. ground arith,
  )
  get_store-IsStore ks k (inr (s, h)) = (s, ks, ground (arith, h), λ j h. refl)

  pub store_insert-Holds :
      (ks : Keyspace nodes triplets) (k name : Text) (a : ℕ)
      → IsStore ks k
      → (ks' : Keyspace nodes triplets) × (store_insert nodes triplets ks k name a ≡ ok ks')
        × Holds ks' k name a
        × ((j : Text) → text_eq k j ≡ false → ks' j ≡ ks j)
  unfolding store_insert
  store_insert-Holds ks k name a there =
      let (s, ks', found, same) = get_store-IsStore ks k there in
      (
        put nodes triplets ks' k (some (store (nodes.add s name a))),
        rw found refl,
        (
          nodes.add s name a,
          rw (text_eq_refl k) refl,
          nodes.find-add s name name a ∙ rw (text_eq_refl name) refl,
        ),
        λ j h. rw h (same j h),
      )

  -- Keys that are the same, or not.
  pub IsStore-kept :
      (ks ks' : Keyspace nodes triplets) (k j name : Text) (a : ℕ)
      → Holds ks' k name a
      → (text_eq k j ≡ false → ks' j ≡ ks j)
      → IsStore ks j
      → IsStore ks' j
  IsStore-kept ks ks' k j name a (s, h, _) same there = elim (Bool-cases (text_eq k j)) [
    | inl one ↦ inr (s, ap ks' (sym (text_eq→≡ k j one)) ∙ h)
    | inr two ↦ rw (same two) there
  ]

  Holds-kept :
      (ks ks' : Keyspace nodes triplets) (k j name : Text) (a : ℕ)
      → Holds ks' k name a
      → (text_eq k j ≡ false → ks' j ≡ ks j)
      → Holds ks j name a
      → Holds ks' j name a
  Holds-kept ks ks' k j name a (s, h, f) same there = elim (Bool-cases (text_eq k j)) [
    | inl one ↦ (s, ap ks' (sym (text_eq→≡ k j one)) ∙ h, f)
    | inr two ↦ (there.0, same two ∙ there.1, there.2)
  ]

  -- A node is created with a label and n properties, at least one, where the two keys are empty or
  -- stores: the reply is its identifier, both stores have it under that name, no other key is
  -- changed, and the heap grows by the node with the label and the properties that were given.
  pub create_node_labelled :
      (unset : SiValue) (id : ℤ) (db : Db m nodes triplets) (command graph label : Text)
      (ps : List Text) (n : ℕ)
      → length ps ≡ 2 * n
      → 1 ≤ n
      → IsStore db.keys (store_id store_node graph none)
      → IsStore db.keys (store_id store_node graph (some label))
      → (db' : Db m nodes triplets) × (create_node m nodes triplets unset id db
            (command ∷ graph ∷ label ∷ ps)
          ≡ ok (simple (print_int id), db'))
        × Holds db'.keys (store_id store_node graph none) (print_int id) (length db.heap.nodes)
        × Holds db'.keys
            (store_id store_node graph (some label))
            (print_int id)
            (length db.heap.nodes)
        × ((j : Text)
            → ((text_eq (store_id store_node graph none) j
                  || text_eq (store_id store_node graph (some label)) j)
                ≡ true)
              ⊎ (db'.keys j ≡ db.keys j))
        × (db'.heap.nodes
            ≡ db.heap.nodes
              ++ made_node m nodes triplets id
                  (some label)
                  (read_properties (from_string m unset) ps)
                ∷ [])
  unfolding create_node insert_labelled
  create_node_labelled unset id db command graph label ps n even one all_there label_there =
      let ak = store_id store_node graph none in
      let lk = store_id store_node graph (some label) in
      let a = length db.heap.nodes in
      let name = print_int id in
      let node =
        made_node m nodes triplets id (some label) (read_properties (from_string m unset) ps) in
      let (ks, done, held, same) = store_insert-Holds db.keys ak name a all_there in
      let (ks', done', held', same') =
        store_insert-Holds ks lk name a
          (IsStore-kept db.keys ks ak lk name a held (same lk) label_there) in
      let long : ltb (length (command ∷ graph ∷ label ∷ ps)) 4 ≡ false = ground arith in
      let rest : suc (suc (suc (length ps))) % 2 ≡ 1 = omega arith in
      let odd : (length (command ∷ graph ∷ label ∷ ps) % 2 == 1) ≡ true = rw rest refl in
      (
        record { heap = record db.heap { nodes = db.heap.nodes ++ node ∷ [] }; keys = ks' },
        rw (long, odd, done, done') refl,
        Holds-kept ks ks' lk ak name a held' (same' ak) held,
        held',
        λ j. elim (Bool-cases (text_eq ak j || text_eq lk j)) [
          | inl one_of ↦ inl one_of
          | inr neither ↦ inr (same' j (ground arith) ∙ same j (ground arith))
        ],
        refl,
      )
