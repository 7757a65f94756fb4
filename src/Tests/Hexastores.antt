-- ===== src/Tests/Hexastores.antt =====
-- The hexastore: the theorems at two people and what one knows of the other.
use redis_graph.Base.{
  Text, codes, [], ok, true, none, some, refl, ◌≡◌, ◌≢◌, is_prefix, arith, if◌then◌else◌, ◌>>=◌,
}
use redis_graph.Trie.Assoc.{assoc}
use redis_graph.Hexastore.{
  Triplet, s, sop, Parts, to_string, key_parts, spo_key, insert_all_perm, remove_all_perm,
}
use redis_graph.Hexastore.Edges.{IsEdge, IsHexastore, IsStored, insert_all_perm-IsHexastore}
use redis_graph.Hexastore.Search.{Refers, IsPlain, search_by_subject_overlap}
use redis_graph.Hexastore.Update.{is_key, find-insert_all_perm, remove-insert_all_perm}
use redis_graph.Tests.{heap, ann, bob, knows, any_knows}

-- The stored edge, and the same as a search from a known subject.
abbrev stored : Triplet
stored = record { subject = some 0; predicate = some 0; object = some 1; kind = sop }

abbrev back : Triplet
back = record { subject = some 1; predicate = some 0; object = some 0; kind = sop }

abbrev by_subject : Triplet
by_subject = record { subject = some 0; predicate = some 1; object = some 1; kind = s }

stored-Refers : Refers heap stored ann knows bob
stored-Refers = record {
  subject = 0;
  predicate = 0;
  object = 1;
  subject_is = refl;
  predicate_is = refl;
  object_is = refl;
  subject_node = refl;
  predicate_edge = refl;
  object_node = refl;
}

back-Refers : Refers heap back bob knows ann
back-Refers = record {
  subject = 1;
  predicate = 0;
  object = 0;
  subject_is = refl;
  predicate_is = refl;
  object_is = refl;
  subject_node = refl;
  predicate_edge = refl;
  object_node = refl;
}

by_subject-Refers : Refers heap by_subject ann any_knows bob
by_subject-Refers = record {
  subject = 0;
  predicate = 1;
  object = 1;
  subject_is = refl;
  predicate_is = refl;
  object_is = refl;
  subject_node = refl;
  predicate_edge = refl;
  object_node = refl;
}

knows-IsPlain : IsPlain (codes "knows")
knows-IsPlain = record { short = omega arith; no_at = refl }

search_by_subject_overlap_example :
    (text : Text) × (k : Parts) × (to_string heap by_subject ≡ ok text)
    × (key_parts heap back ≡ ok k)
    × (is_prefix text (spo_key k) ≡ true)
    × (ann.entity.id ≢ bob.entity.id)
search_by_subject_overlap_example =
    search_by_subject_overlap heap by_subject back bob ann ann bob knows any_knows (codes "knows") 7
      1 by_subject-Refers back-Refers refl refl refl refl (omega arith) (omega arith) (omega arith)

find-insert_all_perm_example :
    (k : Parts) × (store' : (assoc Triplet).Map) × (key_parts heap stored ≡ ok k)
    × (insert_all_perm (assoc Triplet) heap [] stored ≡ ok store')
    × ((j : Text)
        → (assoc Triplet).find store' j
          ≡ (if is_key k j then some stored else (assoc Triplet).find [] j))
find-insert_all_perm_example =
    find-insert_all_perm (assoc Triplet) heap stored ann bob knows (codes "knows") stored-Refers
      refl (omega arith) (omega arith) []

remove-insert_all_perm_example :
    (k : Parts) × (store' : (assoc Triplet).Map) × (key_parts heap stored ≡ ok k)
    × ((insert_all_perm (assoc Triplet) heap [] stored >>= λ t.
          remove_all_perm (assoc Triplet) heap t stored)
        ≡ ok store')
    × ((j : Text)
        → (assoc Triplet).find store' j ≡ (if is_key k j then none else (assoc Triplet).find [] j))
remove-insert_all_perm_example =
    remove-insert_all_perm (assoc Triplet) heap stored ann bob knows (codes "knows") stored-Refers
      refl (omega arith) (omega arith) []

abbrev stored_edge : IsEdge heap stored ann (codes "knows")
stored_edge = record {
  edge = knows;
  object = bob;
  refers = stored-Refers;
  named = refl;
  long_subject = omega arith;
  long_edge = omega arith;
  plain = knows-IsPlain;
}

insert_all_perm-IsHexastore_example :
    (m' : (assoc Triplet).Map) × (insert_all_perm (assoc Triplet) heap [] stored ≡ ok m')
    × IsHexastore (assoc Triplet) heap m'
    × IsStored (assoc Triplet) heap m' stored
insert_all_perm-IsHexastore_example =
    insert_all_perm-IsHexastore (assoc Triplet) heap [] stored ann (codes "knows") stored_edge
      (omega arith) (λ j t h. absurd (ground (arith, h)))
