-- ===== src/Hexastore/Search.antt =====
-- Which keys the prefix of a search finds.
use redis_graph.Base.{
  ℕ, ◌+◌, ◌*◌, ◌^◌, ◌≤◌, ◌<◌, true, false, ◌&&◌, some, ok, Text, [], ◌∷◌, ◌++◌, codes, ◌≡◌, ◌≢◌,
  ◌↔◌, refl, ap, ◌∙◌, sym, length, take, arith, ℤ, pos, print_int, print_nat, length-append,
  take-all, has_byte, is_prefix, is_prefix-append, text_eq, text_eq_iff, &&_iff,
  print_int-injective, print_nat-digit, get_elem?,
}
use mathlib.Core.List.{append_assoc}
use native.Mathlib.Nat.{le_trans}
use redis_graph.Graph.{Heap, Node, Edge, invalid_id}
use redis_graph.Hexastore.{Triplet, s, sp, Parts, to_string, key_parts, spo_key}
use redis_graph.Hexastore.Keys.{IsLong, length-print_int, is_prefix-separated, has_byte-print_int}

-- The triplet's three pointers lead to the nodes and the edge.
pub record Refers (h : Heap) (t : Triplet) (n : Node) (e : Edge) (m : Node) : Type 0 where
  pub subject : ℕ
  pub predicate : ℕ
  pub object : ℕ
  pub subject_is : t.subject ≡ some subject
  pub predicate_is : t.predicate ≡ some predicate
  pub object_is : t.object ≡ some object
  pub subject_node : get_elem? h.nodes subject ≡ some n
  pub predicate_edge : get_elem? h.edges predicate ≡ some e
  pub object_node : get_elem? h.nodes object ≡ some m

module _ (h : Heap) (t : Triplet) (n m : Node) (e : Edge) (r : Text) where
  pub key_parts-Refers :
      Refers h t n e m
      → e.relationship ≡ some r
      → key_parts h t
        ≡ ok (record {
          subject = take 31 (print_int n.entity.id);
          predicate = take 63 (r ++ b'@' ∷ print_int e.entity.id);
          object = take 31 (print_int m.entity.id);
        })
  unfolding key_parts
  key_parts-Refers f hr =
      rw
        (
          f.subject_is, f.predicate_is, f.object_is, f.subject_node, f.predicate_edge,
          f.object_node, hr,
        )
        refl

  pub to_string-sp :
      Refers h t n e m
      → t.kind ≡ sp
      → e.relationship ≡ some r
      → e.entity.id ≡ invalid_id
      → to_string h t ≡ ok (codes "SPO:" ++ (print_int n.entity.id ++ b':' ∷ (r ++ b'@' ∷ [])))
  unfolding to_string
  to_string-sp f k hr hi =
      ground (arith, f.subject_is, f.predicate_is, f.object_is, f.subject_node, f.predicate_edge)

  to_string-s :
      Refers h t n e m → t.kind ≡ s → to_string h t ≡ ok (codes "SPO:" ++ print_int n.entity.id)
  unfolding to_string
  to_string-s f k = ground (arith, f.subject_is, f.subject_node)

-- A relationship that a key has room for, and that cannot be mistaken for its end.
pub record IsPlain (r : Text) : Type 0 where
  pub short : length r ≤ 42
  pub no_at : has_byte b'@' r ≡ false

prefix-sp :
    (i j k o : ℤ) (r' r : Text)
    → IsLong j
    → IsLong k
    → IsPlain r
    → IsPlain r'
    → is_prefix (codes "SPO:" ++ (print_int i ++ b':' ∷ (r' ++ b'@' ∷ []))) (
        spo_key (record {
          subject = take 31 (print_int j);
          predicate = take 63 (r ++ b'@' ∷ print_int k);
          object = take 31 (print_int o);
        }))
      ≡ (text_eq (print_int i) (print_int j) && text_eq r' r)
prefix-sp i j k o r' r hj hk p p' =
    rw
      (
        take-all 31 (print_int j) (omega (arith, length-print_int j hj)),
        take-all 63 (r ++ b'@' ∷ print_int k)
            (omega (arith, p.short, length-append r (b'@' ∷ print_int k), length-print_int k hk)),
        is_prefix-separated b':' (print_int i) (print_int j) (r' ++ b'@' ∷ [])
            ((r ++ b'@' ∷ print_int k) ++ b':' ∷ take 31 (print_int o)) (has_byte-print_int i)
            (has_byte-print_int j),
        append_assoc r (b'@' ∷ print_int k) (b':' ∷ take 31 (print_int o)),
        is_prefix-separated b'@' r' r [] (print_int k ++ b':' ∷ take 31 (print_int o)) p'.no_at
            p.no_at,
      )
      (ground arith)

-- A search for the edges of one relationship out of one node finds exactly these: the key of a
-- stored triplet begins with the text of the search if and only if the subject's id and the
-- relationship are those searched for, given ids of 64 bits and relationships of at most 42 bytes
-- without "@".
pub search_by_subject_and_predicate :
    (h : Heap) (q t : Triplet) (n n' m m' : Node) (e e' : Edge) (r r' : Text)
    → Refers h q n' e' m'
    → Refers h t n e m
    → q.kind ≡ sp
    → e.relationship ≡ some r
    → e'.relationship ≡ some r'
    → e'.entity.id ≡ invalid_id
    → IsLong n.entity.id
    → IsLong e.entity.id
    → IsPlain r
    → IsPlain r'
    → (text : Text) × (k : Parts) × (to_string h q ≡ ok text)
      × (key_parts h t ≡ ok k)
      × ((is_prefix text (spo_key k) ≡ true) ↔ ((n'.entity.id ≡ n.entity.id) × (r' ≡ r)))
search_by_subject_and_predicate h q t n n' m m' e e' r r' fq ft kind hr hr' hi ln le p p' = (
  _,
  _,
  to_string-sp h q n' m' e' r' fq kind hr' hi,
  key_parts-Refers h t n m e r ft hr,
  (
    λ found.
        let both = (&&_iff _ _).0 (sym keys ∙ found) in
        (print_int-injective _ _ ((text_eq_iff _ _).0 both.0), (text_eq_iff _ _).0 both.1),
    λ same.
        keys
        ∙ (&&_iff _ _).1 ((text_eq_iff _ _).1 (ap print_int same.0), (text_eq_iff _ _).1 same.1),
  ),
)
  where
    keys :
        is_prefix (codes "SPO:" ++ (print_int n'.entity.id ++ b':' ∷ (r' ++ b'@' ∷ []))) (
          spo_key (record {
            subject = take 31 (print_int n.entity.id);
            predicate = take 63 (r ++ b'@' ∷ print_int e.entity.id);
            object = take 31 (print_int m.entity.id);
          }))
        ≡ (text_eq (print_int n'.entity.id) (print_int n.entity.id) && text_eq r' r)
    keys = prefix-sp n'.entity.id n.entity.id e.entity.id m.entity.id r' r ln le p p'

prefix-s :
    (i d : ℕ) (rest : Text)
    → 0 < i
    → d < 10
    → i * 10 + d < 2 ^ 63
    → is_prefix
        (codes "SPO:" ++ print_int (pos i))
        (codes "SPO:" ++ (take 31 (print_int (pos (i * 10 + d))) ++ rest))
      ≡ true
unfolding print_int
prefix-s i d rest h k long =
    let size = length-print_int (pos (i * 10 + d)) long in
    rw
      (
        take-all 31 (print_nat (i * 10 + d)) (le_trans size (omega arith)),
        print_nat-digit i d h k,
        append_assoc (print_nat i) ((48 + d) ∷ []) rest,
      )
      (is_prefix-append (print_nat i) ((48 + d) ∷ rest))

-- A search for all edges out of a node with the positive id n also finds every edge out of a node
-- whose id has one more digit.
pub search_by_subject_overlap :
    (h : Heap) (q t : Triplet) (n n' m m' : Node) (e e' : Edge) (r : Text) (i d : ℕ)
    → Refers h q n' e' m'
    → Refers h t n e m
    → q.kind ≡ s
    → e.relationship ≡ some r
    → n'.entity.id ≡ pos i
    → n.entity.id ≡ pos (i * 10 + d)
    → 0 < i
    → d < 10
    → i * 10 + d < 2 ^ 63
    → (text : Text) × (k : Parts) × (to_string h q ≡ ok text)
      × (key_parts h t ≡ ok k)
      × (is_prefix text (spo_key k) ≡ true)
      × (n'.entity.id ≢ n.entity.id)
search_by_subject_overlap h q t n n' m m' e e' r i d fq ft kind hr hi hj posi dig long = (
  _,
  _,
  to_string-s h q n' m' e' r fq kind,
  key_parts-Refers h t n m e r ft hr,
  rw (hi, hj) (prefix-s i d _ posi dig long),
  λ same. ground arith,
)
