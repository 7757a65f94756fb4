-- ===== src/Trie.antt =====
-- The trie map (src/util/triemap/), a library that the stores, the hexastore, the group cache and
-- the result set call: its operations with what their callers rely on.
pub mod Assoc
use mathlib.Core.List.{Memᴰ}
use redis_graph.Base.{
  ℕ, Bool, true, false, Option, none, some, Text, text_eq, is_prefix, text_eq_iff, text_eq→≡, List,
  [], ◌∷◌, ◌≡◌, refl, ◌↔◌, ◌⊎◌, inl, inr, if◌then◌else◌, arith, Option-cases, Bool-cases,
  text_eq_refl, sym, ◌∙◌,
}

-- TrieMap_Add replaces the value of a key that is there. `entries` is what an iterator over a prefix yields.
pub record TrieMap (V : Type 0) : Type 1 where
  pub Map : Type 0
  pub empty : Map
  pub add : Map → Text → V → Map
  pub find : Map → Text → Option V
  pub delete : Map → Text → Map
  pub entries : Map → Text → List (Text × V)
  pub find-empty : (k : Text) → find empty k ≡ none
  pub find-add :
      (m : Map) (k j : Text) (v : V)
      → find (add m k v) j ≡ (if text_eq k j then some v else find m j)
  pub find-delete :
      (m : Map) (k j : Text) → find (delete m k) j ≡ (if text_eq k j then none else find m j)
  pub mem-entries :
      (m : Map) (p k : Text) (v : V)
      → Memᴰ (k, v) (entries m p) ↔ ((is_prefix p k ≡ true) × (find m k ≡ some v))
