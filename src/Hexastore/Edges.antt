-- ===== src/Hexastore/Edges.antt =====
-- What a hexastore holds, and which of it a search by subject and relationship gives.
use redis_graph.Base.{
  true, false, some, ok, Text, codes, ◌++◌, ◌∷◌, ◌≡◌, ◌↔◌, inl, inr, refl, ap, sym, ◌∙◌, arith,
  Bool-cases, text_eq, text_eq→≡, text_eq_refl, is_prefix, print_int, [], ok-injective,
  some-injective,
}
use mathlib.Core.List.{Memᴰ}
use redis_graph.Graph.{Heap, Node, Edge, invalid_id}
use redis_graph.Trie.{TrieMap}
use redis_graph.Hexastore.{Triplet, sp, Parts, key_parts, to_string, key, spo_key, insert_all_perm}
use redis_graph.Hexastore.Keys.{IsLong}
use redis_graph.Hexastore.Search.{Refers, IsPlain, to_string-sp, search_by_subject_and_predicate}
use redis_graph.Hexastore.Update.{is_key, find-insert_all_perm}

-- The triplet is that of an edge from a node, of a relationship that has at most 42 bytes, none of
-- them "@", where the edge and that node have ids of 64 bits: the keys have room for them, and the
-- delimiter behind the relationship ends it.
pub record IsEdge (h : Heap) (t : Triplet) (n : Node) (r : Text) : Type 0 where
  pub edge : Edge
  pub object : Node
  pub refers : Refers h t n edge object
  pub named : edge.relationship ≡ some r
  pub long_subject : IsLong n.entity.id
  pub long_edge : IsLong edge.entity.id
  pub plain : IsPlain r

-- The triplet of an edge, under one of its keys.
pub record IsEntry (h : Heap) (j : Text) (t : Triplet) : Type 0 where
  pub subject : Node
  pub relationship : Text
  pub parts : Parts
  pub edge : IsEdge h t subject relationship
  pub keyed : key_parts h t ≡ ok parts
  pub under : is_key parts j ≡ true

-- The keys of other orders do not begin like a search by subject and relationship.
under_spo :
    (k : Parts) (j text : Text)
    → is_key k j ≡ true
    → is_prefix (codes "SPO:" ++ text) j ≡ true
    → j ≡ spo_key k
under_spo k j text under found =
    let other : (tag : Text) (a b c : Text)
        → is_prefix (codes "SPO:" ++ text) (key tag a b c) ≡ false
        → text_eq (key tag a b c) j ≡ false =
      λ tag a b c apart. elim (Bool-cases (text_eq (key tag a b c) j)) [
        | inl same ↦
            absurd (ground (arith, sym (rw (text_eq→≡ (key tag a b c) j same) at apart) ∙ found))
        | inr differs ↦ differs
      ] in
    elim (Bool-cases (text_eq (spo_key k) j)) [
      | inl same ↦ sym (text_eq→≡ (spo_key k) j same)
      | inr differs ↦ absurd (
          ground (
            arith,
            under,
            differs,
            other (codes "SOP:") k.subject k.object k.predicate refl,
            other (codes "PSO:") k.predicate k.subject k.object refl,
            other (codes "POS:") k.predicate k.object k.subject refl,
            other (codes "OSP:") k.object k.subject k.predicate refl,
            other (codes "OPS:") k.object k.predicate k.subject refl,
          ))
    ]

first_key : (k : Parts) → is_key k (spo_key k) ≡ true
first_key k = rw (text_eq_refl (spo_key k)) refl

module _ (trie : TrieMap Triplet) (h : Heap) where
  -- Everything in the hexastore is the triplet of an edge, under one of its keys. Every edge stored
  -- has a relationship of at most 42 bytes without "@", and its id and its source's are of 64 bits.
  abbrev pub IsHexastore : trie.Map → Type 0
  IsHexastore m = (j : Text) (t : Triplet) → trie.find m j ≡ some t → IsEntry h j t

  -- The triplet stands under its first key.
  abbrev pub IsStored : trie.Map → Triplet → Type 0
  IsStored m t = (k : Parts) × (key_parts h t ≡ ok k) × (trie.find m (spo_key k) ≡ some t)

  -- The triplets that a search for the edges of a relationship out of a node gives are those stored
  -- of these edges.
  pub entries-IsStored :
      (m : trie.Map) (q t : Triplet) (n' m' : Node) (e' : Edge) (r' text : Text)
      → IsHexastore m
      → Refers h q n' e' m'
      → q.kind ≡ sp
      → e'.relationship ≡ some r'
      → e'.entity.id ≡ invalid_id
      → IsPlain r'
      → to_string h q ≡ ok text
      → ((j : Text) × Memᴰ (j, t) (trie.entries m text))
        ↔ ((n : Node) × IsEdge h t n r' × (n.entity.id ≡ n'.entity.id) × IsStored m t)
  entries-IsStored m q t n' m' e' r' text held fq kind hr' hi plain shown = (
    λ (j, mem).
        let both = (trie.mem-entries m text j t).0 mem in
        let entry = held j t both.1 in
        let x = entry.edge in
        let (text0, k, shown0, keyed, iff) =
          search_by_subject_and_predicate h q t entry.subject n' x.object m' x.edge e'
            entry.relationship r' fq x.refers kind x.named hr' hi x.long_subject x.long_edge x.plain
            plain in
        let at : text0 ≡ text = ok-injective (sym shown0 ∙ shown) in
        let here : entry.parts ≡ k = ok-injective (sym entry.keyed ∙ keyed) in
        let shape = ok-injective (sym (to_string-sp h q n' m' e' r' fq kind hr' hi) ∙ shown) in
        let spo : j ≡ spo_key entry.parts =
          under_spo entry.parts j (print_int n'.entity.id ++ b':' ∷ (r' ++ b'@' ∷ [])) entry.under
            (ap (λ z. is_prefix z j) shape ∙ both.0) in
        let (same, called) = iff.0 (rw (at, ← here, ← spo) (both.0)) in
        (entry.subject, rw called x, sym same, (entry.parts, entry.keyed, rw (← spo) (both.1))),
    λ (n, x, same, (k, keyed, found)).
        let (text0, k0, shown0, keyed0, iff) =
          search_by_subject_and_predicate h q t n n' x.object m' x.edge e' r' r' fq x.refers kind
            x.named hr' hi x.long_subject x.long_edge x.plain plain in
        let at : text0 ≡ text = ok-injective (sym shown0 ∙ shown) in
        let here : k0 ≡ k = ok-injective (sym keyed0 ∙ keyed) in
        (
          spo_key k,
          (trie.mem-entries m text (spo_key k) t).1
              (rw (← at, ← here) (iff.1 (sym same, refl)), found),
        ),
  )

  -- The triplet is that of an edge with a relationship of at most 42 bytes without "@", whose id and
  -- whose two nodes' ids are of 64 bits. Into a hexastore that holds only triplets of edges with such
  -- relationships, with ids of 64 bits for the edge and its source, each under one of its keys,
  -- inserting it under its six keys succeeds. The hexastore then holds only such triplets again, each
  -- under one of its keys, and the inserted one stands under its first key.
  pub insert_all_perm-IsHexastore :
      (m : trie.Map) (t : Triplet) (n : Node) (r : Text) (x : IsEdge h t n r)
      → IsLong x.object.entity.id
      → IsHexastore m
      → (m' : trie.Map) × (insert_all_perm trie h m t ≡ ok m') × IsHexastore m' × IsStored m' t
  insert_all_perm-IsHexastore m t n r x long held =
      let (k, m', keyed, done, finds) =
        find-insert_all_perm trie h t n x.object x.edge r x.refers x.named x.long_subject long m in
      (
        m',
        done,
        λ j t' found. elim (Bool-cases (is_key k j)) [
          | inl ours ↦
              let same : t ≡ t' = some-injective (sym (finds j ∙ rw ours refl) ∙ found) in
              rw (← same) (record {
                subject = n;
                relationship = r;
                parts = k;
                edge = x;
                keyed = keyed;
                under = ours;
              })
          | inr others ↦ held j t' (sym (finds j ∙ rw others refl) ∙ found)
        ],
        (k, keyed, finds (spo_key k) ∙ rw (first_key k) refl),
      )
