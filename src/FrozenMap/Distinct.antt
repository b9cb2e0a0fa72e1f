-- ===== src/FrozenMap/Distinct.antt =====
-- FrozenMapV1 as a dict: no key stands twice, so each item is what a lookup of its key finds.
use market_support_crewai_ag.Prelude.{
  All, All-insert_by, All-keep, All-sort_by, All-zip, Bool, Bool-cases, Eq, [], arith, bool_Eq,
  eq_iff, eq_refl, false, if_elim, if◌then◌else◌, inl, inr, insert_by, keep, list_Eq, nat_Eq, none,
  option_Eq, pair_Eq, refl, some, sort_by, string_Eq, triple_Eq, ◌==◌, ◌∷◌, ◌≡◌,
}
use market_support_crewai_ag.FrozenMap.{FrozenMap, Repr, get, insert, items}
use market_support_crewai_ag.FrozenMap.Laws.{All-insert}

module _ {ℓ κ} {K : Type ℓ} {V : Type κ} ⦃e : Eq K⦄ where
  abbrev pub Lacks : K → FrozenMap K V → Type 0
  Lacks k m = All (λ x. (k == x.0) ≡ false) m

  abbrev pub Distinct : FrozenMap K V → Type 0
  Distinct [] = Unit
  Distinct (x ∷ m) = Lacks x.0 m × Distinct m

  pub get-Lacks : (k : K) (m : FrozenMap K V) → Lacks k m → get k m ≡ none
  get-Lacks k [] h = refl
  get-Lacks k (x ∷ m) h = ground (arith, h.0, get-Lacks k m h.1)

  -- each item is what its key finds
  pub Distinct-get : (m : FrozenMap K V) → Distinct m → All (λ x. get x.0 m ≡ some x.1) m
  Distinct-get [] d = tt
  Distinct-get (x ∷ m) d = (
    ground (arith, eq_refl x.0),
    All-zip (λ y. (x.0 == y.0) ≡ false) (λ y. get y.0 m ≡ some y.1) _
        (λ y apart found. ground (arith, apart, found, eq_iff x.0 y.0, eq_iff y.0 x.0)) m d.0
        (Distinct-get m d.1),
  )

  Lacks-insert :
      (j k : K) (v : V) (m : FrozenMap K V) → (j == k) ≡ false → Lacks j m → Lacks j (insert k v m)
  Lacks-insert j k v m apart h = All-insert _ k v m apart h

  pub Distinct-insert : (k : K) (v : V) (m : FrozenMap K V) → Distinct m → Distinct (insert k v m)
  Distinct-insert k v [] d = (tt, tt)
  Distinct-insert k v ((j, w) ∷ m) d = elim (Bool-cases (k == j)) [
    | inl same ↦ rw same d
    | inr other ↦ rw other (
      Lacks-insert j k v m (ground (arith, other, eq_iff k j, eq_iff j k)) d.0,
      Distinct-insert k v m d.1,
    )
  ]

  pub Distinct-keep : (p : K × V → Bool) (m : FrozenMap K V) → Distinct m → Distinct (keep p m)
  Distinct-keep p [] d = tt
  Distinct-keep p (x ∷ m) d =
      if_elim Distinct (p x) (x ∷ keep p m) (keep p m) (All-keep _ p m d.0, Distinct-keep p m d.1)
        (Distinct-keep p m d.1)

  Distinct-insert_by :
      (le : K × V → K × V → Bool) (x : K × V) (m : FrozenMap K V)
      → Lacks x.0 m
      → Distinct m
      → Distinct (insert_by le x m)
  unfolding insert_by
  Distinct-insert_by le x [] h d = (tt, tt)
  Distinct-insert_by le x (y ∷ m) h d =
      if_elim Distinct (le x y) (x ∷ y ∷ m) (y ∷ insert_by le x m) (h, d)
        (
          All-insert_by le _ x m (ground (arith, h.0, eq_iff x.0 y.0, eq_iff y.0 x.0)) d.0,
          Distinct-insert_by le x m h.1 d.1,
        )

  pub Distinct-sort_by :
      (le : K × V → K × V → Bool) (m : FrozenMap K V) → Distinct m → Distinct (sort_by le m)
  unfolding sort_by
  Distinct-sort_by le [] d = tt
  Distinct-sort_by le (x ∷ m) d =
      Distinct-insert_by le x (sort_by le m) (All-sort_by le _ m d.0) (Distinct-sort_by le m d.1)

  get-insert_by :
      (le : K × V → K × V → Bool) (k : K) (x : K × V) (m : FrozenMap K V)
      → Lacks x.0 m
      → get k (insert_by le x m) ≡ (if k == x.0 then some x.1 else get k m)
  unfolding insert_by
  get-insert_by le k x [] h = refl
  get-insert_by le k x (y ∷ m) h =
      ground (arith, h.0, get-insert_by le k x m h.1, eq_iff k x.0, eq_iff k y.0, eq_iff x.0 y.0)

  get-sort_by :
      (le : K × V → K × V → Bool) (k : K) (m : FrozenMap K V)
      → Distinct m
      → get k (sort_by le m) ≡ get k m
  unfolding sort_by
  get-sort_by le k [] d = refl
  get-sort_by le k (x ∷ m) d =
      ground (
        arith,
        get-insert_by le k x (sort_by le m) (All-sort_by le _ m d.0),
        get-sort_by le k m d.1,
      )

  pub get-items :
      ⦃r : Repr K⦄ → (k : K) (m : FrozenMap K V) → Distinct m → get k (items m) ≡ get k m
  unfolding items
  get-items k m d = get-sort_by _ k m d

  pub Distinct-items : ⦃r : Repr K⦄ → (m : FrozenMap K V) → Distinct m → Distinct (items m)
  unfolding items
  Distinct-items m d = Distinct-sort_by _ m d

  pub All-items {μ} :
      ⦃r : Repr K⦄ → (P : K × V → Type μ) (m : FrozenMap K V) → All P m → All P (items m)
  unfolding items
  All-items P m h = All-sort_by _ P m h
