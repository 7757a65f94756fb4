-- ===== src/Commands/Link.antt =====
-- What ADDEDGE does with the nodes that it found.
use redis_graph.Base.{
  ℕ, zero, suc, true, false, not, none, some, ok, Text, text_eq, text_eq_refl, List, [], ◌∷◌, ◌++◌,
  ◌≡◌, refl, ap, sym, ◌∙◌, arith, if◌then◌else◌, length, get_elem?, get_elem?-last, set, ℤ,
  print_int,
}
use mathlib.Core.Path.{subst}
use redis_graph.Value.{Machine}
use redis_graph.Graph.{Heap, Node, Edge, Property, connect_node, is_invalid, new_edge}
use redis_graph.Trie.{TrieMap}
use redis_graph.Hexastore.{
  Triplet, Parts, key_parts, new_triplet, get_kind, kind_of_bits, has_id, has_relationship,
}
use redis_graph.Hexastore.Keys.{IsLong}
use redis_graph.Hexastore.Search.{Refers}
use redis_graph.Hexastore.Update.{is_key, find-insert_all_perm}
use redis_graph.Store.{store_edge, store_id, hexastore, get_hexastore, put, Keyspace}
use redis_graph.Commands.{simple, Db, place_edge, made_edge}
use redis_graph.Commands.Create.{IsStore, IsStore-kept, store_insert-Holds}

-- A node may be replaced by one with the same entity.
set-entity :
    (xs : List Node) (s i : ℕ) (k v n : Node)
    → get_elem? xs s ≡ some k
    → v.entity ≡ k.entity
    → get_elem? xs i ≡ some n
    → (n' : Node) × (get_elem? (set xs s v) i ≡ some n') × (n'.entity ≡ n.entity)
set-entity [] s i k v n hk hv hn = cc
set-entity (x ∷ xs) zero zero k v n hk hv hn = (v, refl, ground arith)
set-entity (x ∷ xs) zero (suc i) k v n hk hv hn = (n, hn, refl)
set-entity (x ∷ xs) (suc s) zero k v n hk hv hn = (n, hn, refl)
set-entity (x ∷ xs) (suc s) (suc i) k v n hk hv hn = set-entity xs s i k v n hk hv hn

connect_node-entities :
    (h : Heap) (s d e : ℕ) (n k : Node)
    → get_elem? h.nodes s ≡ some n
    → get_elem? h.nodes d ≡ some k
    → (h' : Heap) × (n' : Node) × (k' : Node) × (connect_node h s d e ≡ ok h')
      × (get_elem? h'.nodes s ≡ some n')
      × (n'.entity ≡ n.entity)
      × (get_elem? h'.nodes d ≡ some k')
      × (k'.entity ≡ k.entity)
      × (h'.edges ≡ h.edges)
unfolding connect_node
connect_node-entities h s d e n k hn hk =
    let v : Node = record n { outgoing = n.outgoing ++ e ∷ [] } in
    let grown = set h.nodes s v in
    let (n1, fn, en) = set-entity h.nodes s s n v n hn refl hn in
    let (k1, fk, ek) = set-entity h.nodes s d n v k hn refl hk in
    let w : Node = record k1 { incoming = k1.incoming ++ e ∷ [] } in
    let (n2, fn', en') = set-entity grown d s k1 w n1 fk refl fn in
    let (k2, fk', ek') = set-entity grown d d k1 w k1 fk refl fk in
    (
      record h { nodes = set grown d w },
      n2,
      k2,
      ground (arith, hn, fk),
      fn',
      en' ∙ en,
      fk',
      ek' ∙ ek,
      refl,
    )

new_triplet-Refers :
    (h : Heap) (s a d : ℕ) (n k : Node) (e : Edge)
    → get_elem? h.nodes s ≡ some n
    → get_elem? h.edges a ≡ some e
    → get_elem? h.nodes d ≡ some k
    → (t : Triplet) × (new_triplet h (some s) (some a) (some d) ≡ ok t)
      × (t.subject ≡ some s)
      × (t.predicate ≡ some a)
      × (t.object ≡ some d)
      × Refers h t n e k
unfolding new_triplet get_kind has_id has_relationship
new_triplet-Refers h s a d n k e hn he hk = (
  record {
    subject = some s;
    predicate = some a;
    object = some d;
    kind =
        kind_of_bits (not (is_invalid n.entity.id)) (not (is_invalid k.entity.id))
          (elim e.relationship [ none ↦ false | some r ↦ true ]);
  },
  ground (arith, hn, he, hk),
  refl,
  refl,
  refl,
  record {
    subject = s;
    predicate = a;
    object = d;
    subject_is = refl;
    predicate_is = refl;
    object_is = refl;
    subject_node = hn;
    predicate_edge = he;
    object_node = hk;
  },
)

module _ (m : Machine) (nodes : TrieMap ℕ) (triplets : TrieMap Triplet) where
  get_hexastore-found :
      (ks : Keyspace nodes triplets) (k : Text) (x : triplets.Map)
      → ks k ≡ some (hexastore x)
      → get_hexastore nodes triplets ks k ≡ ok (x, ks)
  unfolding get_hexastore
  get_hexastore-found ks k x h = ground (arith, h)

  -- Between two nodes with ids of 64 bits, where the key of the graph holds a hexastore, and the
  -- keys of the two stores of edges are other keys that hold stores or nothing, ADDEDGE replies the
  -- new identifier. The hexastore then has a triplet under the six keys that are made of it, from the
  -- source over the new edge to the destination; the edge is the one made with the identifier, the
  -- two nodes, the relationship and the properties; every other key of the hexastore is as it was.
  pub place_edge-hexastore :
      (id : ℤ) (db : Db m nodes triplets) (graph r : Text) (s d : ℕ) (n k : Node)
      (ps : List Property) (x : triplets.Map)
      → get_elem? db.heap.nodes s ≡ some n
      → get_elem? db.heap.nodes d ≡ some k
      → IsLong n.entity.id
      → IsLong k.entity.id
      → IsStore m nodes triplets db.keys (store_id store_edge graph none)
      → IsStore m nodes triplets db.keys (store_id store_edge graph (some r))
      → db.keys graph ≡ some (hexastore x)
      → text_eq (store_id store_edge graph none) graph ≡ false
      → text_eq (store_id store_edge graph (some r)) graph ≡ false
      → (db' : Db m nodes triplets) × (x' : triplets.Map) × (t : Triplet) × (parts : Parts)
        × (place_edge m nodes triplets db id graph s r d ps ≡ ok (simple (print_int id), db'))
        × (db'.keys graph ≡ some (hexastore x'))
        × (key_parts db'.heap t ≡ ok parts)
        × (t.subject ≡ some s)
        × (t.predicate ≡ some (length db.heap.edges))
        × (t.object ≡ some d)
        × (get_elem? db'.heap.edges (length db.heap.edges)
            ≡ some (made_edge m nodes triplets id s d r ps))
        × ((j : Text) → triplets.find x' j ≡ (if is_key parts j then some t else triplets.find x j))
  unfolding place_edge made_edge new_edge
  place_edge-hexastore id db graph r s d n k ps x hn hk ln lk all_there label_there hx apart
        apart' =
      let ek = store_id store_edge graph none in
      let lk' = store_id store_edge graph (some r) in
      let a = length db.heap.edges in
      let name = print_int id in
      let e = made_edge m nodes triplets id s d r ps in
      let h : Heap = record db.heap { edges = db.heap.edges ++ e ∷ [] } in
      let (ks, done, held, same) =
        store_insert-Holds m nodes triplets db.keys ek name a all_there in
      let (ks', done', held', same') =
        store_insert-Holds m nodes triplets ks lk' name a
          (IsStore-kept m nodes triplets db.keys ks ek lk' name a held (same lk') label_there) in
      let (h', n', k', linked, fn, en, fk, ek', edges) = connect_node-entities h s d a n k hn hk in
      let there : get_elem? h'.edges a ≡ some e =
        ap (λ es. get_elem? es a) edges ∙ get_elem?-last db.heap.edges e in
      let (t, made, subject, predicate, object, refers) =
        new_triplet-Refers h' s a d n' k' e fn there fk in
      let found = get_hexastore-found ks' graph x (same' graph apart' ∙ same graph apart ∙ hx) in
      let (parts, x', keys, inserted, finds) =
        find-insert_all_perm triplets h' t n' k' e r refers refl
          (subst (λ v. IsLong v.id) (sym en) ln) (subst (λ v. IsLong v.id) (sym ek') lk) x in
      (
        record { heap = h'; keys = put nodes triplets ks' graph (some (hexastore x')) },
        x',
        t,
        parts,
        ground (arith, done, done', linked, made, found, inserted),
        rw (text_eq_refl graph) refl,
        keys,
        subject,
        predicate,
        object,
        there,
        finds,
      )
