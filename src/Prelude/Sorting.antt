-- ===== src/Prelude/Sorting.antt =====
-- Python's `sorted` and `min` with a key, as a stable insertion sort and a first minimum.
use Prim.Native.Nat.{ℕ, suc}
use mathlib.Core.Path.{◌≡◌, refl}
use mathlib.Core.Logic.{inl, inr}
use mathlib.Core.Bool.{Bool, true, false, ◌&&◌, ◌||◌}
use mathlib.Core.Option.{}
use mathlib.Core.List.{List, [], ◌∷◌}
use native.Mathlib.Omega.{arith}
use market_support_crewai_ag.Prelude.Tests.{ltb, nat_eq, if◌then◌else◌, if_elim, Bool-cases}
use market_support_crewai_ag.Prelude.Lists.{length, All}

-- Python's `<=` on byte strings, and on texts by their code points.
abbrev pub lex_le : List ℕ → List ℕ → Bool
lex_le [] ys = true
lex_le (x ∷ xs) [] = false
lex_le (x ∷ xs) (y ∷ ys) = ltb x y || (nat_eq x y && lex_le xs ys)

abbrev pub lex_eq : List ℕ → List ℕ → Bool
lex_eq [] [] = true
lex_eq (x ∷ xs) (y ∷ ys) = nat_eq x y && lex_eq xs ys
lex_eq _ _ = false

-- The sort keys of the program: a number, then byte strings.
abbrev pub SortKey : Type 0
SortKey = ℕ × List ℕ × List ℕ

abbrev pub sort_key_le : SortKey → SortKey → Bool
sort_key_le (m, b, t) (n, c, u) =
    ltb m n
    || (nat_eq m n
        && ((lex_le b c && (if lex_eq b c then false else true)) || (lex_eq b c && lex_le t u)))

module _ {ℓ} {A : Type ℓ} (le : A → A → Bool) where
  unfoldable pub insert_by : A → List A → List A
  insert_by x [] = x ∷ []
  insert_by x (y ∷ ys) = if le x y then x ∷ y ∷ ys else y ∷ insert_by x ys

  unfoldable pub sort_by : List A → List A
  unfolding insert_by
  sort_by [] = []
  sort_by (x ∷ xs) = insert_by x (sort_by xs)

  -- the first of the least elements, as Python's `min`
  unfoldable pub min_by : A → List A → A
  min_by x [] = x
  min_by x (y ∷ ys) = min_by (if le x y then x else y) ys

  pub length-insert_by : (x : A) (xs : List A) → length (insert_by x xs) ≡ suc (length xs)
  unfolding insert_by
  length-insert_by x [] = refl
  length-insert_by x (y ∷ ys) = ground (arith, length-insert_by x ys)

  pub length-sort_by : (xs : List A) → length (sort_by xs) ≡ length xs
  unfolding sort_by
  length-sort_by [] = refl
  length-sort_by (x ∷ xs) = omega (arith, length-insert_by x (sort_by xs), length-sort_by xs)

  pub All-insert_by {κ} :
      (P : A → Type κ) (x : A) (xs : List A) → P x → All P xs → All P (insert_by x xs)
  unfolding insert_by
  All-insert_by P x [] p h = (p, tt)
  All-insert_by P x (y ∷ ys) p h =
      if_elim (All P) (le x y) (x ∷ y ∷ ys) (y ∷ insert_by x ys) (p, h)
        (h.0, All-insert_by P x ys p h.1)

  pub All-sort_by {κ} : (P : A → Type κ) (xs : List A) → All P xs → All P (sort_by xs)
  unfolding sort_by
  All-sort_by P [] h = tt
  All-sort_by P (x ∷ xs) h = All-insert_by P x (sort_by xs) h.0 (All-sort_by P xs h.1)

  insert_by-All {κ} :
      (P : A → Type κ) (x : A) (xs : List A) → All P (insert_by x xs) → All P (x ∷ xs)
  unfolding insert_by
  insert_by-All P x [] h = h
  insert_by-All P x (y ∷ ys) h = elim (Bool-cases (le x y)) [
    | inl first ↦ rw first at h
    | inr later ↦
        let (py, rest) = rw later at h in
        let (px, pys) = insert_by-All P x ys rest in (px, (py, pys))
  ]

  pub sort_by-All {κ} : (P : A → Type κ) (xs : List A) → All P (sort_by xs) → All P xs
  unfolding sort_by
  sort_by-All P [] h = tt
  sort_by-All P (x ∷ xs) h =
      let (p, rest) = insert_by-All P x (sort_by xs) h in (p, sort_by-All P xs rest)

  pub All-min_by {κ} : (P : A → Type κ) (x : A) (xs : List A) → P x → All P xs → P (min_by x xs)
  unfolding min_by
  All-min_by P x [] p h = p
  All-min_by P x (y ∷ ys) p h =
      All-min_by P (if le x y then x else y) ys (if_elim P (le x y) x y p h.0) h.1
