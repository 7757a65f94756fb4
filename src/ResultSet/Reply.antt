-- ===== src/ResultSet/Reply.antt =====
-- src/resultset/resultset.c: how many strings a reply has, and how many records a limit allows.
use redis_graph.Base.{
  ℕ, zero, suc, ◌+◌, ◌≤◌, Bool, not, ◌&&◌, true, false, Option, Run, ok, ◌>>=◌, Bool-cases, bind-ok,
  ok-injective, ap, ◌∙◌, sym, inl, inr, deref, Text, List, [], ◌∷◌, length, ◌≡◌, ◌≢◌, refl, arith,
  Ordering, ==_iff, if◌then◌else◌, ◌==◌, ltb, length-append,
}
use redis_graph.Value.{Machine}
use redis_graph.Value.Print.{string_concat}
use redis_graph.Trie.{TrieMap}
use redis_graph.ResultSet.{
  Record, ResultSet, HeapLib, AddStatus, resultset_ok, header_to_string, elem_compare, add_record,
  offer_record, replace_top, keep_in_heap, store_record, store_new, encountered, is_full, is_gt,
  uses_heap,
}
use redis_graph.ResultSet.Replay.{
  Reply, reverse_onto, poll_all, offer_all, sort_result_set, record_lines, stored_lines, lines_of,
  result_lines, result_size, replay,
}

length-reverse_onto : (ts out : List Text) → length (reverse_onto ts out) ≡ length ts + length out
unfolding reverse_onto
length-reverse_onto [] out = ground arith
length-reverse_onto (t ∷ ts) out = ground (arith, length-reverse_onto ts (t ∷ out))

module _ (m : Machine) where
  length-record_lines :
      (rs : List Record) (ts : List Text) → record_lines m rs ≡ ok ts → length ts ≡ length rs
  unfolding record_lines
  length-record_lines [] ts h = rw (← ok-injective h) refl
  length-record_lines (r ∷ rs) ts h =
      let (t, v, h1) = bind-ok (string_concat m r) _ h in
      let (more, w, h2) = bind-ok (record_lines m rs) _ h1 in
      rw (← ok-injective h2) (ap suc (length-record_lines rs more w))

  length-stored_lines :
      (rs : List (Option Record)) (ts : List Text)
      → stored_lines m rs ≡ ok ts
      → length ts ≡ length rs
  unfolding stored_lines
  length-stored_lines [] ts h = rw (← ok-injective h) refl
  length-stored_lines (r ∷ rs) ts h =
      let (vs, u, h0) = bind-ok (deref r) _ h in
      let (t, v, h1) = bind-ok (string_concat m vs) _ h0 in
      let (more, w, h2) = bind-ok (stored_lines m rs) _ h1 in
      rw (← ok-injective h2) (ap suc (length-stored_lines rs more w))

module _ (lib : HeapLib) where
  length-poll_all :
      (cmp : Record → Record → Run Ordering) (n : ℕ) (t : lib.Tree) (rs : List Record)
      → poll_all lib cmp n t ≡ ok rs
      → length rs ≡ lib.count t
  unfolding poll_all
  length-poll_all cmp zero t rs h = ground (arith, ==_iff (lib.count t) 0)
  length-poll_all cmp (suc n) t rs h = elim (Bool-cases (lib.count t == 0)) [
    | inl empty ↦
        rw (← ok-injective (rw (poll_all, empty) at h)) (sym ((==_iff (lib.count t) 0).0 empty))
    | inr full ↦
        let (top, there, h1) = bind-ok (deref (lib.peek t)) _ (rw (poll_all, full) at h) in
        let (t', v, h2) = bind-ok (lib.poll cmp t) _ h1 in
        let (more, w, h3) = bind-ok (poll_all lib cmp n t') _ h2 in
        let left = lib.count-poll cmp t t' v in
        let rest = length-poll_all cmp n t' more w in rw (← ok-injective h3) (omega arith)
  ]

  count-offer_all :
      (cmp : Record → Record → Run Ordering) (rs : List (Option Record)) (t t' : lib.Tree)
      → offer_all lib cmp t rs ≡ ok t'
      → lib.count t' ≡ lib.count t + length rs
  unfolding offer_all
  count-offer_all cmp [] t t' h = rw (← ok-injective h) (omega arith)
  count-offer_all cmp (r ∷ rs) t t' h =
      let (vs, u, h0) = bind-ok (deref r) _ h in
      let (t1, v, h1) = bind-ok (lib.offer cmp t vs) _ h0 in
      let one = lib.count-offer cmp t t1 vs v in
      let rest = count-offer_all cmp rs t1 t' h1 in omega arith

module _ (m : Machine) (lib : HeapLib) (trie : TrieMap (Unit {0})) where
  length-sort_result_set :
      (set : ResultSet lib trie) (rs : List (Option Record)) (out : List Record)
      → sort_result_set m lib trie set rs ≡ ok out
      → length out ≡ length rs
  unfolding sort_result_set
  length-sort_result_set set rs out h =
      let (t, v, h1) = bind-ok (offer_all lib (elem_compare m lib trie set) lib.new rs) _ h in
      let polled = length-poll_all lib (elem_compare m lib trie set) (lib.count t) t out h1 in
      let offered = count-offer_all lib (elem_compare m lib trie set) rs lib.new t v in
      let start = lib.count-new in omega arith

  -- The records of a heap or of a sorted array, in reverse.
  length-reversed :
      (n : ℕ) (x : Run (List Record)) (ts : List Text)
      → ((rs : List Record) → x ≡ ok rs → length rs ≡ n)
      → (x >>= λ rs. record_lines m rs >>= λ out. ok (reverse_onto out [])) ≡ ok ts
      → length ts ≡ n
  length-reversed n x ts size h =
      let (rs, v, h1) = bind-ok x _ h in
      let (out, w, h2) = bind-ok (record_lines m rs) _ h1 in
      let long = length-record_lines m rs out w in
      let turned = length-reverse_onto out [] in
      let many = size rs v in rw (← ok-injective h2) (omega arith)

  length-lines_of :
      (ordered unlimited : Bool) (set : ResultSet lib trie) (ts : List Text)
      → lines_of m lib trie ordered unlimited set ≡ ok ts
      → length ts ≡ (if ordered && not unlimited then lib.count set.heap else length set.records)
  unfolding lines_of
  length-lines_of false unlimited set ts h = length-stored_lines m set.records ts h
  length-lines_of true false set ts h =
      length-reversed (lib.count set.heap) _ ts
        (λ rs v.
          length-poll_all lib (elem_compare m lib trie set) (lib.count set.heap) set.heap rs v)
        h
  length-lines_of true true set ts h =
      length-reversed (length set.records) _ ts
        (λ rs v. length-sort_result_set set set.records rs v) h

  -- A reply that is made has the header and a line for each record or group that the set replays,
  -- one line less than the length that it announces.
  pub replay_announced :
      (set : ResultSet lib trie) (r : Reply)
      → replay m lib trie set ≡ ok r
      → (r.announced ≡ length r.lines + 1) × (length r.lines ≡ result_size m lib trie set + 1)
  unfolding replay result_lines result_size
  replay_announced set r h =
      let (title, v, h1) = bind-ok (header_to_string set.header) _ h in
      let (ts, w, h2) = bind-ok (result_lines m lib trie set) _ h1 in
      let long = length-lines_of set.ordered (set.limit == 0) set ts w in
      rw (← ok-injective h2) (omega arith, omega arith)

  -- What a set that made room for a record has kept, and that its heap is in the limit.
  abbrev HasRoom : ResultSet lib trie → ResultSet lib trie → Type 0
  HasRoom set set' =
      (set'.limit ≡ set.limit) × (set'.ordered ≡ set.ordered) × (lib.count set'.heap ≤ set.limit)

  HasRoom-offer_record :
      (set set' : ResultSet lib trie) (r : Record)
      → offer_record m lib trie set r ≡ ok set'
      → lib.count set.heap + 1 ≤ set.limit
      → HasRoom set set'
  unfolding offer_record
  HasRoom-offer_record set set' r h le =
      let (t, v, h1) = bind-ok (lib.offer (elem_compare m lib trie set) set.heap r) _ h in
      let one = lib.count-offer (elem_compare m lib trie set) set.heap t r v in
      rw (← ok-injective h1) (refl, refl, omega arith)

  HasRoom-replace_top :
      (set set' : ResultSet lib trie) (r : Record)
      → replace_top m lib trie set r ≡ ok set'
      → lib.count set.heap ≤ set.limit
      → HasRoom set set'
  unfolding replace_top
  HasRoom-replace_top set set' r h le =
      let (top, u, h0) = bind-ok (deref (lib.peek set.heap)) _ h in
      let (o, v, h1) = bind-ok (elem_compare m lib trie set top r) _ h0 in
      elim (Bool-cases (is_gt o)) [
        | inl swap ↦
            let (t, w, h2) =
              bind-ok (lib.poll (elem_compare m lib trie set) set.heap) _ (rw swap at h1) in
            let less = lib.count-poll (elem_compare m lib trie set) set.heap t w in
            HasRoom-offer_record (record set { heap = t }) set' r h2 (omega arith)
        | inr keep ↦ rw (← ok-injective (rw keep at h1)) (refl, refl, le)
      ]

  HasRoom-keep_in_heap :
      (set set' : ResultSet lib trie) (r : Record)
      → keep_in_heap m lib trie set r ≡ ok set'
      → lib.count set.heap ≤ set.limit
      → HasRoom set set'
  unfolding keep_in_heap
  HasRoom-keep_in_heap set set' r h le = elim (Bool-cases (ltb (lib.count set.heap) set.limit)) [
    | inl room ↦ HasRoom-offer_record set set' r (rw (keep_in_heap, room) at h) (ground arith)
    | inr full ↦ HasRoom-replace_top set set' r (rw (keep_in_heap, full) at h) le
  ]

  abbrev pub IsWithinLimit : ResultSet lib trie → Type 0
  IsWithinLimit set = (set.limit ≢ 0) × (result_size m lib trie set ≤ set.limit)

  store_record-IsWithinLimit :
      (set set' : ResultSet lib trie) (r : Option Record)
      → store_record m lib trie set r ≡ ok set'
      → is_full m lib trie set ≡ false
      → IsWithinLimit set
      → IsWithinLimit set'
  unfolding store_record is_full result_size
  store_record-IsWithinLimit set set' r h notfull within =
      elim (Bool-cases (uses_heap m lib trie set)) [
        | inl heaped ↦
            let (vs, u, h1) = bind-ok (deref r) _ (rw (store_record, heaped) at h) in
            let (limit, ordered, room) =
              HasRoom-keep_in_heap set set' vs h1 (ground (arith, within.1, heaped)) in
            ground (arith, within.0, heaped)
        | inr listed ↦ rw (← ok-injective (rw (store_record, listed) at h)) (
          within.0,
          ground (arith, within.1, within.0, listed, notfull, length-append set.records (r ∷ [])),
        )
      ]

  encountered-IsWithinLimit :
      (set set' : ResultSet lib trie) (r : Option Record) (old : Bool)
      → encountered m lib trie set r ≡ ok (old, set')
      → IsWithinLimit set
      → IsWithinLimit set' × (is_full m lib trie set' ≡ is_full m lib trie set)
  unfolding encountered is_full result_size
  encountered-IsWithinLimit set set' r old h within =
      let (vs, u, h0) = bind-ok (deref r) _ h in
      let (t, v, h1) = bind-ok (string_concat m vs) _ h0 in
      rw (← ap (λ x. x.1) (ok-injective h1)) (within, refl)

  store_new-IsWithinLimit :
      (old : Bool) (set set' : ResultSet lib trie) (r : Option Record)
      → store_new m lib trie (old, set) r ≡ ok set'
      → is_full m lib trie set ≡ false
      → IsWithinLimit set
      → IsWithinLimit set'
  unfolding store_new
  store_new-IsWithinLimit true set set' r h notfull within = rw (← ok-injective h) within
  store_new-IsWithinLimit false set set' r h notfull within =
      store_record-IsWithinLimit set set' r h notfull within

  stored-IsWithinLimit :
      (distinct : Bool) (set set' : ResultSet lib trie) (r : Option Record)
      → (if distinct
          then (encountered m lib trie set r >>= λ found. store_new m lib trie found r)
          else store_record m lib trie set r)
        ≡ ok set'
      → is_full m lib trie set ≡ false
      → IsWithinLimit set
      → IsWithinLimit set'
  stored-IsWithinLimit false set set' r h notfull within =
      store_record-IsWithinLimit set set' r h notfull within
  stored-IsWithinLimit true set set' r h notfull within =
      let (found, v, h1) = bind-ok (encountered m lib trie set r) _ h in
      let (still, same) = encountered-IsWithinLimit set found.1 r found.0 v within in
      store_new-IsWithinLimit found.0 found.1 set' r h1 (same ∙ notfull) still

  -- A result set with a limit that holds no more records than that holds no more after a record was
  -- offered, whether it is ordered, distinct, or neither.
  pub add_record-IsWithinLimit :
      (set set' : ResultSet lib trie) (r : Option Record) (status : AddStatus)
      → IsWithinLimit set
      → add_record m lib trie set r ≡ ok (status, set')
      → IsWithinLimit set'
  unfolding add_record
  add_record-IsWithinLimit set set' r status within h = elim (Bool-cases (is_full m lib trie set)) [
    | inl full ↦ rw (← ap (λ x. x.1) (ok-injective (rw full at h))) within
    | inr notfull ↦
        let (set1, v, h1) = bind-ok _ _ (rw (add_record, notfull) at h) in
        let same : (resultset_ok, set1) ≡ (status, set') = ok-injective h1 in
        rw (← ap (λ x. x.1) same) (stored-IsWithinLimit set.distinct set set1 r v notfull within)
  ]
