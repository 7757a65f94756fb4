-- ===== src/ResultSet/Distinct.antt =====
-- Distinct records: which of the records that are offered are kept.
use redis_graph.Base.{
  ◌%◌, ◌^◌, ◌<◌, Bool, true, false, ◌||◌, Option, none, some, ok, Text, text_eq, List, [], ◌∷◌,
  ◌++◌, length, take, ◌≡◌, refl, ap, ◌∙◌, sym, arith, if◌then◌else◌, take-all,
}
use mathlib.Core.List.{append-nil, append_assoc}
use redis_graph.Value.{Machine}
use redis_graph.Value.Print.{string_concat}
use redis_graph.Trie.{TrieMap}
use redis_graph.ResultSet.{
  Record, HeapLib, ResultSet, resultset_ok, is_full, encountered, store_new, store_record,
  add_record,
}
use redis_graph.ResultSet.Limits.{add_all}

-- Records with their texts.
abbrev pub offered : List (Record × Text) → List (Option Record)
offered [] = []
offered (r ∷ rs) = some r.0 ∷ offered rs

abbrev pub ArePrinted : Machine → List (Record × Text) → Type 0
ArePrinted m [] = Unit
ArePrinted m (r ∷ rs) = (string_concat m r.0 ≡ ok r.1) × (length r.1 < 2 ^ 16) × ArePrinted m rs

-- The first record of each text that is not among those before.
abbrev pub firsts : (Text → Bool) → List (Record × Text) → List (Option Record)
firsts before [] = []
firsts before (r ∷ rs) =
    let rest = firsts (λ t. text_eq r.1 t || before t) rs in
    if before r.1 then rest else some r.0 ∷ rest

abbrev is_there {ℓ} : {A : Type ℓ} → Option A → Bool
is_there none = false
is_there (some a) = true

module _ (m : Machine) (lib : HeapLib) (trie : TrieMap (Unit {0})) where
  pub record IsDistinct (set : ResultSet lib trie) : Type 0 where
    pub unordered : set.ordered ≡ false
    pub unlimited : set.limit ≡ 0
    pub once : set.distinct ≡ true

  abbrev after : ResultSet lib trie → Record → Text → ResultSet lib trie
  after set r t = record set {
    records = set.records ++ (if is_there (trie.find set.seen t) then [] else some r ∷ []);
    seen = trie.add set.seen t tt;
  }

  encountered-text :
      (set : ResultSet lib trie) (r : Record) (t : Text)
      → string_concat m r ≡ ok t
      → length t < 2 ^ 16
      → encountered m lib trie set (some r)
        ≡ ok (is_there (trie.find set.seen t), record set { seen = trie.add set.seen t tt })
  unfolding encountered
  encountered-text set r t h short =
      let size : length t % 2 ^ 16 ≡ length t = omega arith in
      let whole : take (length t % 2 ^ 16) t ≡ t =
        ap (λ n. take n t) size ∙ take-all (length t) t (omega arith) in
      rw (h, whole) refl

  store_new-unordered :
      (old : Bool) (set : ResultSet lib trie) (r : Record)
      → set.ordered ≡ false
      → store_new m lib trie (old, set) (some r)
        ≡ ok (record set { records = set.records ++ (if old then [] else some r ∷ []) })
  unfolding store_new store_record
  store_new-unordered true set r h =
      ap (λ rs. ok (record set { records = rs })) (sym (rw append-nil refl))
  store_new-unordered false set r h = ground (arith, h)

  is_full-unlimited : (set : ResultSet lib trie) → IsDistinct set → is_full m lib trie set ≡ false
  unfolding is_full
  is_full-unlimited set d = ground (arith, d.unordered, d.unlimited)

  add_record-distinct :
      (set : ResultSet lib trie) (r : Record) (t : Text)
      → IsDistinct set
      → string_concat m r ≡ ok t
      → length t < 2 ^ 16
      → add_record m lib trie set (some r) ≡ ok (resultset_ok, after set r t)
  unfolding add_record
  add_record-distinct set r t d h short =
      let stored =
        store_new-unordered (is_there (trie.find set.seen t))
          (record set { seen = trie.add set.seen t tt }) r d.unordered in
      ground (arith, is_full-unlimited set d, d.once, encountered-text set r t h short, stored)

  -- The trie has the texts before.
  abbrev HasSeen : ResultSet lib trie → (Text → Bool) → Type 0
  HasSeen set before = (t : Text) → is_there (trie.find set.seen t) ≡ before t

  after-HasSeen :
      (set : ResultSet lib trie) (r : Record) (t : Text) (before : Text → Bool)
      → HasSeen set before
      → HasSeen (after set r t) (λ u. text_eq t u || before u)
  after-HasSeen set r t before h u =
      ap is_there (trie.find-add set.seen t u tt) ∙ ground (arith, h u)

  add_all-firsts :
      (set : ResultSet lib trie) (rs : List (Record × Text)) (before : Text → Bool)
      → IsDistinct set
      → ArePrinted m rs
      → HasSeen set before
      → (set' : ResultSet lib trie) × (add_all m lib trie set (offered rs) ≡ ok set')
        × (set'.records ≡ set.records ++ firsts before rs)
  unfolding add_all
  add_all-firsts set [] before d p h = (set, refl, sym (rw append-nil refl))
  add_all-firsts set (r ∷ rs) before d p h =
      let next = after set r.0 r.1 in
      let (set', done, kept) =
        add_all-firsts next rs (λ t. text_eq r.1 t || before t)
          (record { unordered = d.unordered; unlimited = d.unlimited; once = d.once }) p.2
          (after-HasSeen set r.0 r.1 before h) in
      (
        set',
        rw (add_record-distinct set r.0 r.1 d p.0 p.1) done,
        kept
            ∙ append_assoc set.records _ (firsts (λ t. text_eq r.1 t || before t) rs)
            ∙ ap (λ xs. set.records ++ xs) (ground (arith, h r.1)),
      )

  -- An empty distinct set without order or limit keeps, of the records that are offered, the first
  -- one of each text, in their order, where every record can be printed in less than 2 ^ 16 bytes.
  pub add_all_keeps_distinct :
      (set : ResultSet lib trie) (rs : List (Record × Text))
      → IsDistinct set
      → ArePrinted m rs
      → set.records ≡ []
      → set.seen ≡ trie.empty
      → (set' : ResultSet lib trie) × (add_all m lib trie set (offered rs) ≡ ok set')
        × (set'.records ≡ firsts (λ t. false) rs)
  add_all_keeps_distinct set rs d p empty unseen =
      let (set', done, kept) =
        add_all-firsts set rs (λ t. false) d p
          (λ t. ap is_there (ap (λ x. trie.find x t) unseen ∙ trie.find-empty t)) in
      (set', done, kept ∙ ap (λ xs. xs ++ firsts (λ t. false) rs) empty)
