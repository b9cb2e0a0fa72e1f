-- ===== src/Prelude/Lists.antt =====
-- Lists measured by native numbers, Boolean filters, and predicates that hold of every element.
use Prim.Native.Nat.{ℕ, zero, suc, ◌+◌, ◌-◌, ◌≤◌}
use mathlib.Core.Path.{◌≡◌, refl}
use mathlib.Core.Logic.{◌≢◌, inl, inr}
use mathlib.Core.Bool.{Bool, true, false, ◌&&◌, ◌||◌}
use mathlib.Core.Option.{Option, none, some}
use mathlib.Core.List.{List, [], ◌∷◌, ◌++◌, map}
use native.Mathlib.Omega.{arith}
use market_support_crewai_ag.Prelude.Tests.{if◌then◌else◌, if_elim, Bool-cases}
use market_support_crewai_ag.Prelude.Equality.{Eq, ◌==◌, eq_iff}

module _ {ℓ} {A : Type ℓ} where
  abbrev pub length : List A → ℕ
  length [] = 0
  length (x ∷ xs) = suc (length xs)

  abbrev pub drop : ℕ → List A → List A
  drop zero xs = xs
  drop (suc n) [] = []
  drop (suc n) (x ∷ xs) = drop n xs

  abbrev pub take : ℕ → List A → List A
  take zero xs = []
  take (suc n) [] = []
  take (suc n) (x ∷ xs) = x ∷ take n xs

  -- `xs[-n:]`, for n > 0
  abbrev pub last_n : ℕ → List A → List A
  last_n n xs = drop (length xs - n) xs

  -- `xs[-n:]`, where `xs[-0:]` is the whole list
  abbrev pub tail_slice : ℕ → List A → List A
  tail_slice zero xs = xs
  tail_slice (suc n) xs = last_n (suc n) xs

  -- the elements of a comprehension's `if`
  abbrev pub keep : (A → Bool) → List A → List A
  keep p [] = []
  keep p (x ∷ xs) = if p x then x ∷ keep p xs else keep p xs

  abbrev pub any : (A → Bool) → List A → Bool
  any p [] = false
  any p (x ∷ xs) = p x || any p xs

  abbrev pub all : (A → Bool) → List A → Bool
  all p [] = true
  all p (x ∷ xs) = p x && all p xs

  -- `next((x for x in xs if p(x)), None)`
  abbrev pub find : (A → Bool) → List A → Option A
  find p [] = none
  find p (x ∷ xs) = if p x then some x else find p xs

  abbrev pub count : (A → Bool) → List A → ℕ
  count p [] = 0
  count p (x ∷ xs) = if p x then suc (count p xs) else count p xs

  abbrev pub All {κ} : (A → Type κ) → List A → Type κ
  All P [] = Unit
  All P (x ∷ xs) = P x × All P xs

  pub length-append : (xs ys : List A) → length (xs ++ ys) ≡ length xs + length ys
  length-append [] ys = omega arith
  length-append (x ∷ xs) ys = omega (arith, length-append xs ys)

  pub length-drop : (n : ℕ) (xs : List A) → length (drop n xs) ≡ length xs - n
  length-drop zero xs = omega arith
  length-drop (suc n) [] = omega arith
  length-drop (suc n) (x ∷ xs) = omega (arith, length-drop n xs)

  pub length-last_n-le : (n : ℕ) (xs : List A) → length (last_n n xs) ≤ n
  length-last_n-le n xs = omega (arith, length-drop (length xs - n) xs)

  pub length-tail_slice-le : (n : ℕ) (xs : List A) → 1 ≤ n → length (tail_slice n xs) ≤ n
  length-tail_slice-le zero xs h = absurd (omega (arith, h))
  length-tail_slice-le (suc n) xs h = length-last_n-le (suc n) xs

  pub length-keep-le : (p : A → Bool) (xs : List A) → length (keep p xs) ≤ length xs
  length-keep-le p [] = omega arith
  length-keep-le p (x ∷ xs) = ground (arith, length-keep-le p xs)

  pub All-keep {κ} : (P : A → Type κ) (p : A → Bool) (xs : List A) → All P xs → All P (keep p xs)
  All-keep P p [] h = h
  All-keep P p (x ∷ xs) h =
      let ih = All-keep P p xs h.1 in if_elim (All P) (p x) (x ∷ keep p xs) (keep p xs) (h.0, ih) ih

  pub All-keep_map {κ μ} :
      (P : A → Type κ) (Q : A → Type μ) (p : A → Bool)
      → ((x : A) → p x ≡ true → P x → Q x)
      → (xs : List A) → All P xs
      → All Q (keep p xs)
  All-keep_map P Q p f [] h = tt
  All-keep_map P Q p f (x ∷ xs) h = elim (Bool-cases (p x)) [
    | inl kept ↦ rw kept (f x kept h.0, All-keep_map P Q p f xs h.1)
    | inr dropped ↦ rw dropped (All-keep_map P Q p f xs h.1)
  ]

  pub All-append {κ} : (P : A → Type κ) (xs ys : List A) → All P xs → All P ys → All P (xs ++ ys)
  All-append P [] ys hx hy = hy
  All-append P (x ∷ xs) ys hx hy = (hx.0, All-append P xs ys hx.1 hy)

  pub All-drop {κ} : (P : A → Type κ) (n : ℕ) (xs : List A) → All P xs → All P (drop n xs)
  All-drop P zero xs h = h
  All-drop P (suc n) [] h = h
  All-drop P (suc n) (x ∷ xs) h = All-drop P n xs h.1

  pub All-tail_slice {κ} :
      (P : A → Type κ) (n : ℕ) (xs : List A) → All P xs → All P (tail_slice n xs)
  All-tail_slice P zero xs h = h
  All-tail_slice P (suc n) xs h = All-drop P (length xs - suc n) xs h

  pub All-kept {κ} :
      (Q : A → Type κ) (p : A → Bool)
      → ((x : A) → p x ≡ true → Q x)
      → (xs : List A) → All Q (keep p xs)
  All-kept Q p f [] = tt
  All-kept Q p f (x ∷ xs) = elim (Bool-cases (p x)) [
    | inl kept ↦ rw kept (f x kept, All-kept Q p f xs)
    | inr dropped ↦ rw dropped (All-kept Q p f xs)
  ]

  pub All-map {κ μ} :
      (P : A → Type κ) (Q : A → Type μ)
      → ((x : A) → P x → Q x)
      → (xs : List A) → All P xs
      → All Q xs
  All-map P Q f [] h = tt
  All-map P Q f (x ∷ xs) h = (f x h.0, All-map P Q f xs h.1)

  pub All-zip {κ μ ν} :
      (P : A → Type κ) (Q : A → Type μ) (R : A → Type ν)
      → ((x : A) → P x → Q x → R x)
      → (xs : List A) → All P xs
      → All Q xs
      → All R xs
  All-zip P Q R f [] p q = tt
  All-zip P Q R f (x ∷ xs) p q = (f x p.0 q.0, All-zip P Q R f xs p.1 q.1)

  -- a Boolean test that holds of every element
  pub all-All : (p : A → Bool) (xs : List A) → all p xs ≡ true → All (λ x. p x ≡ true) xs
  all-All p [] h = tt
  all-All p (x ∷ xs) h = (ground arith, all-All p xs (ground arith))

  pub All-all : (p : A → Bool) (xs : List A) → All (λ x. p x ≡ true) xs → all p xs ≡ true
  All-all p [] h = refl
  All-all p (x ∷ xs) h = ground (arith, All-all p xs h.1)

module _ {ℓ κ} {A : Type ℓ} {B : Type κ} (f : A → B) where
  pub length-map : (xs : List A) → length (map f xs) ≡ length xs
  length-map [] = refl
  length-map (x ∷ xs) = omega (arith, length-map xs)

  pub All-mapped {μ} : (P : B → Type μ) (xs : List A) → All (λ x. P (f x)) xs → All P (map f xs)
  All-mapped P [] h = tt
  All-mapped P (x ∷ xs) h = (h.0, All-mapped P xs h.1)

module _ {ℓ} {A : Type ℓ} ⦃e : Eq A⦄ where
  -- `a in xs`
  abbrev pub elem : A → List A → Bool
  elem a xs = any (λ x. x == a) xs

  pub ne-elem_singleton : (j k : A) → elem j (k ∷ []) ≡ false → j ≢ k
  ne-elem_singleton j k h = ground (arith, eq_iff k j)

  pub elem-singleton_ne : (j k : A) → j ≢ k → elem j (k ∷ []) ≡ false
  elem-singleton_ne j k h = ground (arith, eq_iff k j)

  pub elem-append_left : (a : A) (xs ys : List A) → elem a xs ≡ true → elem a (xs ++ ys) ≡ true
  elem-append_left a [] ys h = absurd (cc)
  elem-append_left a (x ∷ xs) ys h = ground (arith, elem-append_left a xs ys)

  pub elem-append_right : (a : A) (xs ys : List A) → elem a ys ≡ true → elem a (xs ++ ys) ≡ true
  elem-append_right a [] ys h = h
  elem-append_right a (x ∷ xs) ys h = ground (arith, elem-append_right a xs ys h)
