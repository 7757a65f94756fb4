-- ===== src/Hexastore/Update.antt =====
-- Insertion and removal of the six keys of an edge.
use redis_graph.Base.{
  ◌+◌, ◌≤◌, Bool, true, ◌||◌, none, some, ok, ◌>>=◌, Text, codes, ◌∷◌, ◌++◌, ◌≡◌, refl, ap, ◌∙◌,
  length, take, arith, text_eq, ltb, lt→ltb, print_int, length-take-le, length-take-le-length,
  if◌then◌else◌,
}
use native.Mathlib.Nat.{le_trans}
use redis_graph.Trie.{TrieMap}
use redis_graph.Graph.{Heap, Node, Edge}
use redis_graph.Hexastore.{
  Triplet, Parts, key_parts, key, spo_key, sop_key, pso_key, pos_key, osp_key, ops_key, add_key,
  delete_key, insert_all_perm, remove_all_perm,
}
use redis_graph.Hexastore.Keys.{IsLong, length-print_int, length-key}
use redis_graph.Hexastore.Search.{Refers, key_parts-Refers}

-- Whether a text is one of the six keys.
abbrev pub is_key : Parts → Text → Bool
is_key k j =
    text_eq (spo_key k) j
    || text_eq (sop_key k) j
    || text_eq (pso_key k) j
    || text_eq (pos_key k) j
    || text_eq (osp_key k) j
    || text_eq (ops_key k) j

nested_if {ℓ} :
    {A : Type ℓ} (a b c d e f : Bool) (x y : A)
    → (if f
        then x
        else if e
        then x
        else if d
        then x
        else if c
        then x
        else if b
        then x
        else if a
        then x
        else y)
      ≡ (if a || b || c || d || e || f then x else y)
nested_if a b c d e f x y = ground arith

if_twice {ℓ} :
    {A : Type ℓ} (b : Bool) (x y z : A)
    → (if b then x else if b then y else z) ≡ (if b then x else z)
if_twice b x y z = ground arith

-- The parts leave room in the buffer of the key.
pub record IsShort (k : Parts) : Type 0 where
  pub subject : length k.subject ≤ 20
  pub predicate : length k.predicate ≤ 63
  pub object : length k.object ≤ 20

module _ (trie : TrieMap Triplet) (k : Parts) (short : IsShort k) where
  open trie use {Map, add, find, delete}

  module _ (a b c : Text) (sum : length a + length b + length c ≤ 103) (tag : Text) where
    fits : length tag ≡ 4 → ltb (length (key tag a b c)) 128 ≡ true
    fits h = lt→ltb (length (key tag a b c)) 128 (omega (arith, length-key tag a b c))

    add_key-fits :
        length tag ≡ 4
        → (t : Triplet) (m : Map) → add_key trie (key tag a b c) t m ≡ ok (add m (key tag a b c) t)
    unfolding add_key
    add_key-fits h t m = rw (fits h) refl

    delete_key-fits :
        length tag ≡ 4
        → (m : Map) → delete_key trie (key tag a b c) m ≡ ok (delete m (key tag a b c))
    unfolding delete_key
    delete_key-fits h m = rw (fits h) refl

  pub insert_keys :
      (h : Heap) (m : Map) (t : Triplet)
      → key_parts h t ≡ ok k
      → (m' : Map) × (insert_all_perm trie h m t ≡ ok m')
        × ((j : Text) → find m' j ≡ (if is_key k j then some t else find m j))
  unfolding insert_all_perm
  insert_keys h m t e = (
    add
        (add (add (add (add (add m (spo_key k) t) (sop_key k) t) (pso_key k) t) (pos_key k) t)
          (osp_key k) t)
        (ops_key k) t,
    rw
        (
          e,
          add_key-fits k.subject k.predicate k.object (omega arith) (codes "SPO:") refl,
          add_key-fits k.subject k.object k.predicate (omega arith) (codes "SOP:") refl,
          add_key-fits k.predicate k.subject k.object (omega arith) (codes "PSO:") refl,
          add_key-fits k.predicate k.object k.subject (omega arith) (codes "POS:") refl,
          add_key-fits k.object k.subject k.predicate (omega arith) (codes "OSP:") refl,
          add_key-fits k.object k.predicate k.subject (omega arith) (codes "OPS:") refl,
        )
        refl,
    λ j. simp (trie.find-add) (
        nested_if (text_eq (spo_key k) j) (text_eq (sop_key k) j) (text_eq (pso_key k) j)
          (text_eq (pos_key k) j) (text_eq (osp_key k) j) (text_eq (ops_key k) j) (some t)
          (find m j)),
  )

  pub remove_keys :
      (h : Heap) (m : Map) (t : Triplet)
      → key_parts h t ≡ ok k
      → (m' : Map) × (remove_all_perm trie h m t ≡ ok m')
        × ((j : Text) → find m' j ≡ (if is_key k j then none else find m j))
  unfolding remove_all_perm
  remove_keys h m t e = (
    delete
        (delete
          (delete (delete (delete (delete m (spo_key k)) (sop_key k)) (pso_key k)) (pos_key k))
          (osp_key k))
        (ops_key k),
    rw
        (
          e,
          delete_key-fits k.subject k.predicate k.object (omega arith) (codes "SPO:") refl,
          delete_key-fits k.subject k.object k.predicate (omega arith) (codes "SOP:") refl,
          delete_key-fits k.predicate k.subject k.object (omega arith) (codes "PSO:") refl,
          delete_key-fits k.predicate k.object k.subject (omega arith) (codes "POS:") refl,
          delete_key-fits k.object k.subject k.predicate (omega arith) (codes "OSP:") refl,
          delete_key-fits k.object k.predicate k.subject (omega arith) (codes "OPS:") refl,
        )
        refl,
    λ j. simp (trie.find-delete) (
        nested_if (text_eq (spo_key k) j) (text_eq (sop_key k) j) (text_eq (pso_key k) j)
          (text_eq (pos_key k) j) (text_eq (osp_key k) j) (text_eq (ops_key k) j) none (find m j)),
  )

-- The parts that the code makes of nodes with ids of 64 bits.
abbrev parts_of : Node → Edge → Text → Node → Parts
parts_of n e r m = record {
  subject = take 31 (print_int n.entity.id);
  predicate = take 63 (r ++ b'@' ∷ print_int e.entity.id);
  object = take 31 (print_int m.entity.id);
}

parts_of-IsShort :
    (n m : Node) (e : Edge) (r : Text)
    → IsLong n.entity.id
    → IsLong m.entity.id
    → IsShort (parts_of n e r m)
parts_of-IsShort n m e r hn hm = record {
  subject =
      le_trans (length-take-le-length 31 (print_int n.entity.id)) (length-print_int n.entity.id hn);
  predicate = length-take-le 63 (r ++ b'@' ∷ print_int e.entity.id);
  object =
      le_trans (length-take-le-length 31 (print_int m.entity.id)) (length-print_int m.entity.id hm);
}

module _ (trie : TrieMap Triplet) (h : Heap) (t : Triplet) (n m : Node) (e : Edge) (r : Text) where
  open trie use {Map, find}

  -- For an edge with a relationship between nodes with ids of 64 bits, HexaStore_InsertAllPerm
  -- never reads behind its buffers, and afterwards exactly the six keys lead to the triplet, while
  -- every other key is as it was.
  pub find-insert_all_perm :
      Refers h t n e m
      → e.relationship ≡ some r
      → IsLong n.entity.id
      → IsLong m.entity.id
      → (store : Map)
      → (k : Parts) × (store' : Map) × (key_parts h t ≡ ok k)
        × (insert_all_perm trie h store t ≡ ok store')
        × ((j : Text) → find store' j ≡ (if is_key k j then some t else find store j))
  find-insert_all_perm f hr hn hm store =
      let parts = key_parts-Refers h t n m e r f hr in
      let (store', done, found) =
        insert_keys trie (parts_of n e r m) (parts_of-IsShort n m e r hn hm) h store t parts in
      (parts_of n e r m, store', parts, done, found)

  -- Removing the triplet that was inserted takes the six keys out, and leaves every other key as it
  -- was before the insertion.
  pub remove-insert_all_perm :
      Refers h t n e m
      → e.relationship ≡ some r
      → IsLong n.entity.id
      → IsLong m.entity.id
      → (store : Map)
      → (k : Parts) × (store' : Map) × (key_parts h t ≡ ok k)
        × ((insert_all_perm trie h store t >>= λ s. remove_all_perm trie h s t) ≡ ok store')
        × ((j : Text) → find store' j ≡ (if is_key k j then none else find store j))
  remove-insert_all_perm f hr hn hm store =
      let parts = key_parts-Refers h t n m e r f hr in
      let short = parts_of-IsShort n m e r hn hm in
      let (mid, done, found) = insert_keys trie (parts_of n e r m) short h store t parts in
      let (last, gone, lost) = remove_keys trie (parts_of n e r m) short h mid t parts in
      (
        parts_of n e r m,
        last,
        parts,
        rw done gone,
        λ j.
            lost j
            ∙ ap (λ x. if is_key (parts_of n e r m) j then none else x) (found j)
            ∙ if_twice (is_key (parts_of n e r m) j) none (some t) (find store j),
      )
