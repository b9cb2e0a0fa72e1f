-- ===== src/FrozenMap/Laws.antt =====
-- Lookups after an update of a FrozenMapV1, and predicates on all its items.
use market_support_crewai_ag.Prelude.{
  All, All-all, All-keep_map, All-sort_by, Bool, Bool-cases, Eq, List, Option, [], all, all-All, ap,
  arith, bool_Eq, elem, elem-singleton_ne, eq_iff, eq_refl, false, if◌then◌else◌, inl, inr, length,
  length-keep-le, list_Eq, nat_Eq, none, not, option_Eq, pair_Eq, refl, some, sort_by-All,
  string_Eq, subst, suc, triple_Eq, true, ◌==◌, ◌∷◌, ◌≡◌, ◌≢◌, ◌≤◌,
}
use market_support_crewai_ag.FrozenMap.{FrozenMap, Repr, get, insert, items, without_keys}

module _ {ℓ κ} {K : Type ℓ} {V : Type κ} ⦃e : Eq K⦄ where
  pub get-insert :
      (j k : K) (v : V) (m : FrozenMap K V)
      → get j (insert k v m) ≡ (if j == k then some v else get j m)
  get-insert j k v [] = refl
  get-insert j k v ((i, w) ∷ m) =
      ground (arith, eq_iff j k, eq_iff k i, eq_iff j i, get-insert j k v m)

  pub get-insert_self : (k : K) (v : V) (m : FrozenMap K V) → get k (insert k v m) ≡ some v
  get-insert_self k v m = ground (arith, get-insert k k v m, eq_refl k)

  pub get-without_keys :
      (j : K) (ks : List K) (m : FrozenMap K V)
      → get j (without_keys m ks) ≡ (if elem j ks then none else get j m)
  get-without_keys j ks [] = ground arith
  get-without_keys j ks ((i, w) ∷ m) = elim (Bool-cases (j == i)) [
    | inl same ↦
        ground (arith, get-without_keys j ks m, ap (λ (x : K). elem x ks) ((eq_iff j i).0 same))
    | inr other ↦ ground (arith, get-without_keys j ks m)
  ]

  -- an item that `get` finds has what every item has
  pub All-get {μ} :
      (P : K × V → Type μ) (k : K) {v : V} (m : FrozenMap K V)
      → All P m
      → get k m ≡ some v
      → P (k, v)
  All-get P k [] h g = absurd (cc)
  All-get P k {v} ((j, w) ∷ m) h g = elim (Bool-cases (k == j)) [
    | inl same ↦ subst P (ground (arith, eq_iff k j)) h.0
    | inr other ↦ All-get P k m h.1 (ground arith)
  ]

  pub All-insert {μ} :
      (P : K × V → Type μ) (k : K) (v : V) (m : FrozenMap K V)
      → P (k, v)
      → All P m
      → All P (insert k v m)
  All-insert P k v [] p h = (p, tt)
  All-insert P k v ((j, w) ∷ m) p h = elim (Bool-cases (k == j)) [
    | inl same ↦ rw same (subst P (ground (arith, eq_iff k j)) p, h.1)
    | inr other ↦ rw other (h.0, All-insert P k v m p h.1)
  ]

  pub length-insert-le :
      (k : K) (v : V) (m : FrozenMap K V) → length (insert k v m) ≤ suc (length m)
  length-insert-le k v [] = omega arith
  length-insert-le k v ((j, w) ∷ m) = ground (arith, length-insert-le k v m)

  pub length-without_keys-le :
      (m : FrozenMap K V) (ks : List K) → length (without_keys m ks) ≤ length m
  length-without_keys-le m ks = length-keep-le _ m

  -- A test that the overwritten value does not pass is passed afterwards by all that passed it.
  pub test-insert :
      (test : Option V → Bool) (j k : K) (w : V) (m : FrozenMap K V)
      → test (get k m) ≡ false
      → test (get j m) ≡ true
      → test (get j (insert k w m)) ≡ true
  test-insert test j k w m no_k yes_j = elim (Bool-cases (j == k)) [
    | inl same ↦ absurd (cc (ap (λ (x : K). test (get x m)) ((eq_iff j k).0 same)))
    | inr other ↦ rw get-insert (rw other yes_j)
  ]

  pub test-without_keys :
      (test : Option V → Bool) (j : K) (ks : List K) (m : FrozenMap K V)
      → elem j ks ≡ false
      → test (get j (without_keys m ks)) ≡ test (get j m)
  test-without_keys test j ks m absent = rw get-without_keys (rw absent)

  -- so with the removal of a key whose value does not pass it
  pub test-without_key :
      (test : Option V → Bool) (j k : K) (m : FrozenMap K V)
      → test (get k m) ≡ false
      → test (get j m) ≡ true
      → test (get j (without_keys m (k ∷ []))) ≡ true
  test-without_key test j k m no_k yes_j =
      let differ : j ≢ k = λ same. cc (ap (λ (x : K). test (get x m)) same) in
      rw (test-without_keys test j (k ∷ []) m (elem-singleton_ne j k differ)) yes_j

  pub get-insert_ne : (j k : K) (v : V) (m : FrozenMap K V) → j ≢ k → get j (insert k v m) ≡ get j m
  get-insert_ne j k v m differ = ground (arith, get-insert j k v m, eq_iff j k)

  pub get-without_key_ne :
      (j k : K) (m : FrozenMap K V) → j ≢ k → get j (without_keys m (k ∷ [])) ≡ get j m
  get-without_key_ne j k m differ = rw get-without_keys (rw (elem-singleton_ne j k differ))

  pub get-without_key_self : (k : K) (m : FrozenMap K V) → get k (without_keys m (k ∷ [])) ≡ none
  get-without_key_self k m = ground (arith, get-without_keys k (k ∷ []) m, eq_refl k)

  -- a predicate that holds of every item with the key left in
  pub All-without_keys {μ ν} :
      (P : K × V → Type μ) (Q : K × V → Type ν) (ks : List K)
      → ((x : K × V) → elem x.0 ks ≡ false → P x → Q x)
      → (m : FrozenMap K V) → All P m
      → All Q (without_keys m ks)
  All-without_keys P Q ks f m h =
      All-keep_map P Q (λ x. not (elem x.0 ks)) (λ x kept p. f x (ground arith) p) m h

-- a test over the items, in whatever order
module _ {ℓ κ} {K : Type ℓ} {V : Type κ} ⦃r : Repr K⦄ where
  pub all-items :
      (p : K × V → Bool) (m : FrozenMap K V) → All (λ e. p e ≡ true) m → all p (items m) ≡ true
  unfolding items
  all-items p m h = All-all p (items m) (All-sort_by _ (λ e. p e ≡ true) m h)

  pub items-All :
      (p : K × V → Bool) (m : FrozenMap K V) → all p (items m) ≡ true → All (λ e. p e ≡ true) m
  unfolding items
  items-All p m h = sort_by-All _ (λ e. p e ≡ true) m (all-All p (items m) h)

module _ {ℓ κ} {K : Type ℓ} {V : Type κ} ⦃e : Eq K⦄ where
  without_keys-absent : (k : K) (m : FrozenMap K V) → get k m ≡ none → without_keys m (k ∷ []) ≡ m
  without_keys-absent k [] absent = refl
  without_keys-absent k ((j, w) ∷ m) absent =
      let other : (k == j) ≡ false = ground arith in
      ground (arith, without_keys-absent k m (ground arith), eq_iff j k, eq_iff k j)

  -- a key that was added is removed without a trace
  pub without_keys-insert :
      (k : K) (v : V) (m : FrozenMap K V)
      → get k m ≡ none
      → without_keys (insert k v m) (k ∷ []) ≡ m
  without_keys-insert k v [] absent = ground (arith, eq_refl k)
  without_keys-insert k v ((j, w) ∷ m) absent =
      let other : (k == j) ≡ false = ground arith in
      ground (arith, without_keys-insert k v m (ground arith), eq_iff j k, eq_iff k j)
