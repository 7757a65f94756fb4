-- ===== src/Trie/Assoc.antt =====
-- An association list with the newest pair first meets what the callers of a trie map rely on.
use mathlib.Core.List.{Memᴰ}
use mathlib.Core.List.Memᴰ
use mathlib.Core.Logic.{⊎_elim}
use redis_graph.Base.{
  true, Option, none, some, Text, text_eq, text_eq_iff, text_eq→≡, is_prefix, List, [], ◌∷◌, ◌≡◌,
  refl, ap, inl, inr, if◌then◌else◌, arith, Bool-cases, Option-cases,
}
use redis_graph.Trie.{TrieMap}

module _ {V : Type 0} where
  abbrev pub find : List (Text × V) → Text → Option V
  find [] j = none
  find ((k, v) ∷ m) j = if text_eq k j then some v else find m j

  abbrev pub delete : List (Text × V) → Text → List (Text × V)
  delete [] j = []
  delete ((k, v) ∷ m) j = if text_eq k j then delete m j else (k, v) ∷ delete m j

  abbrev pub cons_found : Text → Option V → List (Text × V) → List (Text × V)
  cons_found k none rest = rest
  cons_found k (some v) rest = (k, v) ∷ rest

  -- The pairs of the keys of the second list with the prefix, by what the first list finds.
  abbrev pub live : List (Text × V) → Text → List (Text × V) → List (Text × V)
  live full p [] = []
  live full p ((k, v) ∷ m) =
      if is_prefix p k then cons_found k (find full k) (live full p m) else live full p m

  pub find-delete :
      (m : List (Text × V)) (k j : Text)
      → find (delete m k) j ≡ (if text_eq k j then none else find m j)
  find-delete [] k j = ground arith
  find-delete ((i, v) ∷ m) k j =
      ground (arith, find-delete m k j, text_eq_iff i k, text_eq_iff i j, text_eq_iff k j)

  pub live_sound :
      (full : List (Text × V)) (p : Text) (m : List (Text × V)) (k : Text) (v : V)
      → Memᴰ (k, v) (live full p m)
      → (is_prefix p k ≡ true) × (find full k ≡ some v)
  live_sound full p [] k v h = absurd (Memᴰ.not-nil h)
  live_sound full p ((i, w) ∷ m) k v h = elim (Bool-cases (is_prefix p i)) [
    | inr out ↦ live_sound full p m k v (rw out at h)
    | inl fits ↦ elim (Option-cases (find full i)) [
      | inl gone ↦ live_sound full p m k v (rw (fits, gone) at h)
      | inr (u, there) ↦
          ⊎_elim
            (λ e.
              let ek : k ≡ i = ap (λ x. x.0) e in
              let ev : v ≡ u = ap (λ x. x.1) e in (rw ek fits, rw (ek, ev) there))
            (live_sound full p m k v) (Memᴰ.cases_cons (rw (fits, there) at h))
    ]
  ]

  pub live_complete :
      (full : List (Text × V)) (p : Text) (m : List (Text × V)) (k : Text) (v w : V)
      → find m k ≡ some w
      → find full k ≡ some v
      → is_prefix p k ≡ true
      → Memᴰ (k, v) (live full p m)
  live_complete full p [] k v w h f e = cc
  live_complete full p ((i, u) ∷ m) k v w h f e = elim (Bool-cases (text_eq i k)) [
    | inl same ↦ let ik = text_eq→≡ i k same in rw (ik, e, f) (Memᴰ.head refl)
    | inr other ↦
        let rest = live_complete full p m k v w (rw other at h) f e in
        elim (Bool-cases (is_prefix p i)) [
          | inr out ↦ rw out rest
          | inl fits ↦ elim (Option-cases (find full i)) [
            | inl gone ↦ rw (fits, gone) rest
            | inr (x, there) ↦ rw (fits, there) (Memᴰ.tail rest)
          ]
        ]
  ]

-- The list as a trie map.
abbrev pub assoc : (V : Type 0) → TrieMap V
assoc V = record {
  Map = List (Text × V);
  empty = [];
  add = λ m k v. (k, v) ∷ m;
  find = find;
  delete = delete;
  entries = λ m p. live m p m;
  find-empty = λ k. refl;
  find-add = λ m k j v. refl;
  find-delete = find-delete;
  mem-entries =
      λ m p k v. (live_sound m p m k v, λ both. live_complete m p m k v v both.1 both.1 both.0);
}
