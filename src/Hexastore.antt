-- ===== src/Hexastore.antt =====
-- src/hexastore/: triplets, their text, and the six keys under which the trie holds each edge.
pub mod Keys
pub mod Search
pub mod Update
pub mod Edges
use redis_graph.Base.{
  ℕ, zero, suc, ◌+◌, ◌*◌, Bool, true, false, not, ◌||◌, Option, none, some, Run, ok, fault, ◌>>=◌,
  deref, Text, [], ◌∷◌, ◌++◌, codes, length, take, ltb, print_int, if◌then◌else◌,
}
use redis_graph.Graph.{Heap, Node, Edge, node_at, edge_at, is_invalid}
use redis_graph.Trie.{TrieMap}

pub data TripletKind : Type 0 where
  unknow p o op s sp so sop : TripletKind

-- The pointers of a triplet; `none` is NULL.
pub record Triplet : Type 0 where
  pub subject : Option ℕ
  pub predicate : Option ℕ
  pub object : Option ℕ
  pub kind : TripletKind

-- The bits of a kind: subject, object, predicate.
unfoldable pub kind_of_bits : Bool → Bool → Bool → TripletKind
kind_of_bits false false false = unknow
kind_of_bits false false true = p
kind_of_bits false true false = o
kind_of_bits false true true = op
kind_of_bits true false false = s
kind_of_bits true false true = sp
kind_of_bits true true false = so
kind_of_bits true true true = sop

unfoldable pub has_id : Heap → Option ℕ → Run Bool
has_id h none = ok false
has_id h (some a) = do n ← node_at h a; ok (not (is_invalid n.entity.id))

unfoldable pub has_relationship : Heap → Option ℕ → Run Bool
has_relationship h none = ok false
has_relationship h (some a) = do
  e ← edge_at h a
  ok (elim e.relationship [ none ↦ false | some r ↦ true ])

-- TripletGetKind
unfoldable pub get_kind : Heap → Triplet → Run TripletKind
unfolding kind_of_bits has_id has_relationship
get_kind h t = do
  a ← has_id h t.subject
  b ← has_id h t.object
  c ← has_relationship h t.predicate
  ok (kind_of_bits a b c)

unfoldable pub new_triplet : Heap → Option ℕ → Option ℕ → Option ℕ → Run Triplet
unfolding get_kind
new_triplet h a e b = do
  let t : Triplet = record { subject = a; predicate = e; object = b; kind = unknow }
  k ← get_kind h t
  ok (record t { kind = k })

unfoldable pub triplet_from_edge : Heap → ℕ → Run Triplet
unfolding new_triplet
triplet_from_edge h a = do e ← edge_at h a; new_triplet h (some e.src) (some a) (some e.dest)

-- `%ld` of the id of a node that is not tested for NULL.
unfoldable pub id_text : Heap → Option ℕ → Run Text
id_text h a = do b ← deref a; n ← node_at h b; ok (print_int n.entity.id)

-- The predicate: the relationship, "@", and the id if it is a valid one.
unfoldable pub predicate_text : Heap → Option ℕ → Run Text
predicate_text h a = do
  b ← deref a
  e ← edge_at h b
  r ← deref e.relationship
  ok (r ++ b'@' ∷ (if is_invalid e.entity.id then [] else print_int e.entity.id))

-- The switch of TripletToString.
unfoldable pub string_of_kind : Heap → Triplet → Run Text
unfolding id_text predicate_text
string_of_kind h t = elim t.kind [
  | s ↦ (do a ← id_text h t.subject; ok (codes "SPO:" ++ a))
  | p ↦ (do e ← predicate_text h t.predicate; ok (codes "POS:" ++ e))
  | o ↦ (do b ← id_text h t.object; ok (codes "OPS:" ++ b))
  | op ↦ (do
    b ← id_text h t.object
    e ← predicate_text h t.predicate
    ok (codes "OPS:" ++ (b ++ b':' ∷ e)))
  | so ↦ (do a ← id_text h t.subject; b ← id_text h t.object; ok (codes "SOP:" ++ (a ++ b':' ∷ b)))
  | sp ↦ (do
    a ← id_text h t.subject
    e ← predicate_text h t.predicate
    ok (codes "SPO:" ++ (a ++ b':' ∷ e)))
  | sop ↦ (do
    a ← id_text h t.subject
    b ← id_text h t.object
    e ← predicate_text h t.predicate
    ok (codes "SOP:" ++ (a ++ b':' ∷ (b ++ b':' ∷ e))))
  | unknow ↦ ok []
]

abbrev pub is_some {ℓ} : {A : Type ℓ} → Option A → Bool
is_some none = false
is_some (some a) = true

-- TripletToString, with its assertion.
unfoldable pub to_string : Heap → Triplet → Run Text
unfolding string_of_kind
to_string h t =
    if is_some t.subject || is_some t.predicate || is_some t.object
    then string_of_kind h t
    else fault

-- The three parts of a key, each cut to its buffer by snprintf.
pub record Parts : Type 0 where
  pub subject : Text
  pub predicate : Text
  pub object : Text

unfoldable pub key_predicate : Heap → Option ℕ → Run Text
key_predicate h a = do
  b ← deref a
  e ← edge_at h b
  r ← deref e.relationship
  ok (r ++ b'@' ∷ print_int e.entity.id)

unfoldable pub key_parts : Heap → Triplet → Run Parts
unfolding id_text key_predicate
key_parts h t = do
  a ← id_text h t.subject
  e ← key_predicate h t.predicate
  b ← id_text h t.object
  ok (record { subject = take 31 a; predicate = take 63 e; object = take 31 b })

-- `"XYZ:%s:%s:%s"`
abbrev pub key : Text → Text → Text → Text → Text
key tag a b c = tag ++ (a ++ b':' ∷ (b ++ b':' ∷ c))

abbrev pub spo_key : Parts → Text
spo_key k = key (codes "SPO:") k.subject k.predicate k.object

abbrev pub sop_key : Parts → Text
sop_key k = key (codes "SOP:") k.subject k.object k.predicate

abbrev pub pso_key : Parts → Text
pso_key k = key (codes "PSO:") k.predicate k.subject k.object

abbrev pub pos_key : Parts → Text
pos_key k = key (codes "POS:") k.predicate k.object k.subject

abbrev pub osp_key : Parts → Text
osp_key k = key (codes "OSP:") k.object k.subject k.predicate

abbrev pub ops_key : Parts → Text
ops_key k = key (codes "OPS:") k.object k.predicate k.subject

module _ (trie : TrieMap Triplet) where
  open trie use {Map, add, delete}

  -- The key is as long as snprintf says; of a longer one than the buffer holds, the trie would read
  -- behind the buffer.
  unfoldable pub add_key : Text → Triplet → Map → Run Map
  add_key k t m = if ltb (length k) 128 then ok (add m k t) else fault

  unfoldable pub delete_key : Text → Map → Run Map
  delete_key k m = if ltb (length k) 128 then ok (delete m k) else fault

  -- HexaStore_InsertAllPerm
  unfoldable pub insert_all_perm : Heap → Map → Triplet → Run Map
  insert_all_perm h m t = do
    k ← key_parts h t
    m1 ← add_key (spo_key k) t m
    m2 ← add_key (sop_key k) t m1
    m3 ← add_key (pso_key k) t m2
    m4 ← add_key (pos_key k) t m3
    m5 ← add_key (osp_key k) t m4
    add_key (ops_key k) t m5

  -- HexaStore_RemoveAllPerm
  unfoldable pub remove_all_perm : Heap → Map → Triplet → Run Map
  remove_all_perm h m t = do
    k ← key_parts h t
    m1 ← delete_key (spo_key k) m
    m2 ← delete_key (sop_key k) m1
    m3 ← delete_key (pso_key k) m2
    m4 ← delete_key (pos_key k) m3
    m5 ← delete_key (osp_key k) m4
    delete_key (ops_key k) m5
