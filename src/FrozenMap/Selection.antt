-- ===== src/FrozenMap/Selection.antt =====
-- Items of a FrozenMapV1 that a test selects, and their removal by key.
use market_support_crewai_ag.Prelude.{
  All, All-map, All-sort_by, Bool, Bool-cases, Eq, List, [], ap, arith, bool_Eq, elem, eq_iff,
  eq_refl, false, if_elim, inl, inr, keep, length, length-keep-le, length-map, length-sort_by,
  list_Eq, nat_Eq, not, option_Eq, pair_Eq, refl, string_Eq, triple_Eq, true, ◌&&◌, ◌++◌, ◌<◌, ◌==◌,
  ◌∷◌, ◌≡◌,
}
use market_support_crewai_ag.FrozenMap.{FrozenMap, Repr, items, keys, without_keys}
use market_support_crewai_ag.FrozenMap.Laws.{All-without_keys}

module _ {ℓ} {A : Type ℓ} where
  pub keep-append : (p : A → Bool) (xs ys : List A) → keep p (xs ++ ys) ≡ keep p xs ++ keep p ys
  keep-append p [] ys = refl
  keep-append p (x ∷ xs) ys = ground (arith, keep-append p xs ys)

  -- two filters in a row, in either order
  pub keep-keep :
      (p q r : A → Bool)
      → ((x : A) → (q x && p x) ≡ (r x && q x))
      → (xs : List A) → keep p (keep q xs) ≡ keep q (keep r xs)
  keep-keep p q r h [] = refl
  keep-keep p q r h (x ∷ xs) = ground (arith, keep-keep p q r h xs, h x)

module _ {ℓ} {A : Type ℓ} ⦃e : Eq A⦄ where
  pub elem-keep : (k : A) (p : A → Bool) (xs : List A) → elem k (keep p xs) ≡ (elem k xs && p k)
  elem-keep k p [] = refl
  elem-keep k p (x ∷ xs) = elim (Bool-cases (x == k)) [
    | inl same ↦ ground (arith, elem-keep k p xs, ap p ((eq_iff x k).0 same))
    | inr other ↦ ground (arith, elem-keep k p xs)
  ]

  -- Without one of its elements, a list is shorter.
  pub length-keep_ne-lt :
      (v : A) (xs : List A)
      → elem v xs ≡ true
      → length (keep (λ x. not (elem x (v ∷ []))) xs) < length xs
  length-keep_ne-lt v [] h = absurd (cc)
  length-keep_ne-lt v (x ∷ xs) h = elim (Bool-cases (x == v)) [
    | inl same ↦
        ground (arith, length-keep-le (λ x. not (elem x (v ∷ []))) xs, eq_iff x v, eq_iff v x)
    | inr other ↦ ground (arith, length-keep_ne-lt v xs (ground arith), eq_iff x v, eq_iff v x)
  ]

  pub elem_self : (xs : List A) → All (λ x. elem x xs ≡ true) xs
  elem_self [] = tt
  elem_self (x ∷ xs) =
      (ground (arith, eq_refl x), All-map _ _ (λ y h. ground arith) xs (elem_self xs))

  pub keep-All_ne :
      (v : A) (xs : List A) → elem v xs ≡ false → keep (λ x. not (elem x (v ∷ []))) xs ≡ xs
  keep-All_ne v [] h = refl
  keep-All_ne v (x ∷ xs) h = ground (arith, keep-All_ne v xs (ground arith), eq_iff x v, eq_iff v x)

module _ {ℓ κ} {K : Type ℓ} {V : Type κ} where
  pub keys-keep : (p : K → Bool) (m : FrozenMap K V) → keys (keep (λ x. p x.0) m) ≡ keep p (keys m)
  keys-keep p [] = refl
  keys-keep p (x ∷ m) = ground (arith, keys-keep p m)

  module _ ⦃e : Eq K⦄ where
    pub selected :
        (q : K × V → Bool) (m : FrozenMap K V)
        → All (λ x. q x ≡ true → elem x.0 (keys (keep q m)) ≡ true) m
    selected q [] = tt
    selected q (x ∷ m) = (
      λ h. rw h (ground (arith, eq_refl x.0)),
      All-map _ _
          (λ y f h.
            if_elim (λ l. elem y.0 (keys l) ≡ true) (q x) (x ∷ keep q m) (keep q m)
              (ground (arith, f h)) (f h))
          m (selected q m),
    )

    -- Nothing that the test selects is left when the selected keys are removed.
    pub without_keys-selected :
        (q : K × V → Bool) (m : FrozenMap K V)
        → All (λ x. q x ≡ false) (without_keys m (keys (keep q m)))
    without_keys-selected q m =
        All-without_keys _ _ (keys (keep q m)) (λ x absent f. ground (arith, f)) m (selected q m)

module _ {ℓ κ} {K : Type ℓ} {V : Type κ} ⦃e : Eq K⦄ where
  keys_self : (m : FrozenMap K V) → All (λ x. elem x.0 (keys m) ≡ true) m
  keys_self [] = tt
  keys_self (x ∷ m) =
      (ground (arith, eq_refl x.0), All-map _ _ (λ y h. ground (arith, h)) m (keys_self m))

  pub items-keys :
      ⦃r : Repr K⦄ → (m : FrozenMap K V) → All (λ x. elem x.0 (keys m) ≡ true) (items m)
  unfolding items
  items-keys m = All-sort_by _ _ m (keys_self m)

  pub length-items : ⦃r : Repr K⦄ → (m : FrozenMap K V) → length (items m) ≡ length m
  unfolding items
  length-items m = length-sort_by _ m

  pub length-without_key-lt :
      (k : K) (m : FrozenMap K V)
      → elem k (keys m) ≡ true
      → length (without_keys m (k ∷ [])) < length m
  length-without_key-lt k m h =
      let shorter = length-keep_ne-lt k (keys m) h in
      let same = keys-keep (λ (x : K). not (elem x (k ∷ []))) m in
      omega (
        arith,
        shorter,
        length-map (λ (x : K × V). x.0) m,
        length-map (λ (x : K × V). x.0) (without_keys m (k ∷ [])),
        ap length same,
      )

  -- what the keys left in satisfy, when the others are removed
  pub without_keys-others :
      (p : K → Bool) (m : FrozenMap K V)
      → All (λ x. p x.0 ≡ true) (without_keys m (keep (λ k. not (p k)) (keys m)))
  without_keys-others p m =
      All-without_keys _ _ (keep (λ k. not (p k)) (keys m))
        (λ x absent member. ground (arith, elem-keep x.0 (λ k. not (p k)) (keys m), member)) m
        (keys_self m)

pub keep-none {ℓ} :
    {A : Type ℓ} (p : A → Bool) (xs : List A) → All (λ x. p x ≡ false) xs → keep p xs ≡ []
keep-none p [] h = refl
keep-none p (x ∷ xs) h = ground (arith, h.0, keep-none p xs h.1)
