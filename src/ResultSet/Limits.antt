-- ===== src/ResultSet/Limits.antt =====
-- The limit of a result set that is not ordered, and the records of a distinct one.
use redis_graph.Base.{
  ◌≤◌, false, Option, Run, ok, ◌>>=◌, List, [], ◌∷◌, ◌++◌, length, take, leb, ◌==◌, ◌≡◌, ◌≢◌, refl,
  ap, ◌∙◌, sym, arith, Bool-cases, inl, inr, if◌then◌else◌, length-append, take-all,
  take-length-append,
}
use mathlib.Core.List.{append-nil, append_assoc}
use redis_graph.Value.{Machine}
use redis_graph.Trie.{TrieMap}
use redis_graph.ResultSet.{
  Record, HeapLib, ResultSet, resultset_ok, resultset_full, is_full, store_record, add_record,
}

module _ (m : Machine) (lib : HeapLib) (trie : TrieMap (Unit {0})) where
  -- Records offered in turn until the set is full, as the last operation of a plan does.
  unfoldable pub add_all : ResultSet lib trie → List (Option Record) → Run (ResultSet lib trie)
  add_all set [] = ok set
  add_all set (r ∷ rs) = add_record m lib trie set r >>= λ step. elim step.0 [
    | resultset_ok ↦ add_all step.1 rs
    | resultset_full ↦ ok step.1
  ]

  -- Neither ordered nor distinct.
  pub record IsPlain (set : ResultSet lib trie) : Type 0 where
    pub unordered : set.ordered ≡ false
    pub repeats : set.distinct ≡ false

  abbrev with_records : ResultSet lib trie → List (Option Record) → ResultSet lib trie
  with_records set rs = record set { records = rs }

  add_record-full :
      (set : ResultSet lib trie) (r : Option Record)
      → IsPlain set
      → set.limit ≢ 0
      → set.limit ≤ length set.records
      → add_record m lib trie set r ≡ ok (resultset_full, set)
  unfolding add_record is_full
  add_record-full set r p l h = ground (arith, p.unordered)

  add_record-room :
      (set : ResultSet lib trie) (r : Option Record)
      → IsPlain set
      → is_full m lib trie set ≡ false
      → add_record m lib trie set r ≡ ok (resultset_ok, with_records set (set.records ++ r ∷ []))
  unfolding add_record store_record
  add_record-room set r p h = ground (arith, p.unordered, p.repeats)

  is_full-limited :
      (set : ResultSet lib trie)
      → IsPlain set
      → set.limit ≢ 0
      → is_full m lib trie set ≡ leb set.limit (length set.records)
  unfolding is_full
  is_full-limited set p l = ground (arith, p.unordered)

  is_full-unlimited : (set : ResultSet lib trie) → set.limit ≡ 0 → is_full m lib trie set ≡ false
  unfolding is_full
  is_full-unlimited set l = ground arith

  add_all-limited :
      (set : ResultSet lib trie) (rs : List (Option Record))
      → IsPlain set
      → set.limit ≢ 0
      → length set.records ≤ set.limit
      → (set' : ResultSet lib trie) × (add_all set rs ≡ ok set')
        × (set'.records ≡ take set.limit (set.records ++ rs))
  unfolding add_all
  add_all-limited set [] p l h = (set, refl, rw append-nil (sym (take-all set.limit set.records h)))
  add_all-limited set (r ∷ rs) p l h = elim (Bool-cases (leb set.limit (length set.records))) [
    | inl full ↦
        let even : set.limit ≡ length set.records = ground arith in
        (
          set,
          rw (add_record-full set r p l (omega arith)) refl,
          sym (
              ap (λ n. take n (set.records ++ r ∷ rs)) even
              ∙ take-length-append set.records (r ∷ rs)),
        )
    | inr room ↦
        let grown = with_records set (set.records ++ r ∷ []) in
        let (set', done, kept) =
          add_all-limited grown rs (record { unordered = p.unordered; repeats = p.repeats }) l
            (ground (arith, length-append set.records (r ∷ []))) in
        (
          set',
          rw (add_record-room set r p (is_full-limited set p l ∙ room)) done,
          kept ∙ ap (take set.limit) (append_assoc set.records (r ∷ []) rs),
        )
  ]

  add_all-unlimited :
      (set : ResultSet lib trie) (rs : List (Option Record))
      → IsPlain set
      → set.limit ≡ 0
      → (set' : ResultSet lib trie) × (add_all set rs ≡ ok set')
        × (set'.records ≡ set.records ++ rs)
  unfolding add_all
  add_all-unlimited set [] p l = (set, refl, sym (rw append-nil refl))
  add_all-unlimited set (r ∷ rs) p l =
      let grown = with_records set (set.records ++ r ∷ []) in
      let (set', done, kept) =
        add_all-unlimited grown rs (record { unordered = p.unordered; repeats = p.repeats }) l in
      (
        set',
        rw (add_record-room set r p (is_full-unlimited set l)) done,
        kept ∙ append_assoc set.records (r ∷ []) rs,
      )

  -- An empty set that is neither ordered nor distinct keeps the first records up to its limit, in
  -- the order in which they are offered, and all of them if it has no limit.
  pub add_all_keeps_first :
      (set : ResultSet lib trie) (rs : List (Option Record))
      → IsPlain set
      → set.records ≡ []
      → (set' : ResultSet lib trie) × (add_all set rs ≡ ok set')
        × (set'.records ≡ (if set.limit == 0 then rs else take set.limit rs))
  add_all_keeps_first set rs p e = elim (Bool-cases (set.limit == 0)) [
    | inl none_set ↦
        let (set', done, kept) = add_all-unlimited set rs p (ground arith) in
        (set', done, rw none_set (kept ∙ ap (λ xs. xs ++ rs) e))
    | inr some_set ↦
        let (set', done, kept) = add_all-limited set rs p (ground arith) (rw e (omega arith)) in
        (set', done, rw some_set (kept ∙ ap (λ xs. take set.limit (xs ++ rs)) e))
  ]
