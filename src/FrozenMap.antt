-- ===== src/FrozenMap.antt =====
-- FrozenMapV1 (src/market_support_crewai_agent/runtime/state/persistent_map.py): a dict in
-- insertion order that is never mutated. `items` iterates in the order of the keys' `repr`.
pub mod Laws
pub mod Selection
pub mod Distinct
use market_support_crewai_ag.Prelude.{
  Bool, Eq, List, Option, [], bool_Eq, elem, if◌then◌else◌, is_some, keep, lex_le, list_Eq, map,
  nat_Eq, none, not, option_Eq, pair_Eq, some, sort_by, string_Eq, triple_Eq, ℕ, ◌==◌, ◌∷◌,
}

abbrev pub FrozenMap {ℓ κ} : Type ℓ → Type κ → Type (ℓ ⊔ κ)
FrozenMap K V = List (K × V)

-- `repr(key)`, as code points
pub record Repr {ℓ} (K : Type ℓ) : Type ℓ where
  pub repr : K → List ℕ

module _ {ℓ κ} {K : Type ℓ} {V : Type κ} where
  abbrev pub keys : FrozenMap K V → List K
  keys = map (λ e. e.0)

  abbrev pub values : FrozenMap K V → List V
  values = map (λ e. e.1)

module _ {ℓ κ} {K : Type ℓ} {V : Type κ} ⦃r : Repr K⦄ where
  -- `m.items()`
  unfoldable pub items : FrozenMap K V → List (K × V)
  items m = sort_by (λ a b. lex_le (r.repr a.0) (r.repr b.0)) m

module _ {ℓ κ} {K : Type ℓ} {V : Type κ} ⦃e : Eq K⦄ where
  -- `m.get(k)`
  abbrev pub get : K → FrozenMap K V → Option V
  get k [] = none
  get k ((j, v) ∷ m) = if k == j then some v else get k m

  -- `k in m`
  abbrev pub contains : K → FrozenMap K V → Bool
  contains k m = is_some (get k m)

  -- `d[k] = v`
  abbrev pub insert : K → V → FrozenMap K V → FrozenMap K V
  insert k v [] = (k, v) ∷ []
  insert k v ((j, w) ∷ m) = if k == j then (j, v) ∷ m else (j, w) ∷ insert k v m

  -- `with_updates`
  abbrev pub with_updates : FrozenMap K V → FrozenMap K V → FrozenMap K V
  with_updates m [] = m
  with_updates m ((k, v) ∷ items) = with_updates (insert k v m) items

  abbrev pub without_keys : FrozenMap K V → List K → FrozenMap K V
  without_keys m ks = keep (λ item. not (elem item.0 ks)) m

  -- The loop of `__init__`: `none` is the ValueError for a duplicate key.
  of_pairs_from : FrozenMap K V → List (K × V) → Option (FrozenMap K V)
  of_pairs_from copied [] = some copied
  of_pairs_from copied ((k, v) ∷ pairs) =
      let rest = of_pairs_from (insert k v copied) pairs in if contains k copied then none else rest

  unfoldable pub of_pairs : List (K × V) → Option (FrozenMap K V)
  unfolding of_pairs_from
  of_pairs = of_pairs_from []
