-- ===== src/Root/Ordered.antt =====
-- What the validation of a root (`_validate_root` of coordinator_retention.py) says of its orders
-- (coordinator_root_orders.py): the orders of expiry list what they are computed from, earliest
-- first.
use market_support_crewai_ag.Prelude.{
  All, All-insert_by, All-map, Bool, Bool-cases, List, [], arith, bool_Eq, eq_iff, false, inl, inr,
  insert_by, list_Eq, map, nat_Eq, option_Eq, pair_Eq, refl, sort_by, string_Eq, triple_Eq, true, ℕ,
  ◌==◌, ◌∷◌, ◌≡◌, ◌≤◌,
}
use market_support_crewai_ag.Audit.{audit_expires}
use market_support_crewai_ag.Errors.{ok}
use market_support_crewai_ag.FrozenMap.{FrozenMap, Repr, items}
use market_support_crewai_ag.Identity.{
  pair_Repr, scene_Eq, state_key_Eq, state_key_Repr, string_Repr, triple_Repr,
}
use market_support_crewai_ag.Records.{issued_expires}
use market_support_crewai_ag.Root.{CoordinatorStateRoot, RootOrderEntry, RootRecordKey}
use market_support_crewai_ag.Root.Orders.{
  action_row, entry_le, issued_row, order_rows, root_orders, with_root_orders,
}
use market_support_crewai_ag.Root.Validation.{indexes_valid, orders_eq, validate_root}
use market_support_crewai_ag.Schemas.{execution_type_Eq, reply_kind_Eq, status_Eq}
use market_support_crewai_ag.Text.{codes}
use mathlib.Core.List.{Perm}
use mathlib.Core.List.Perm

-- sorted by a number
abbrev pub Ascending {ℓ} : {A : Type ℓ} → (A → ℕ) → List A → Type ℓ
Ascending n [] = Unit
Ascending n (x ∷ xs) = All (λ y. n x ≤ n y) xs × Ascending n xs

module _ {ℓ κ} {A : Type ℓ} {B : Type κ} (f : A → B) (le : A → A → Bool) where
  insert_by-Perm : (x : A) (xs : List A) → Perm (map f (insert_by le x xs)) (f x ∷ map f xs)
  unfolding insert_by
  insert_by-Perm x [] = Perm.refl _
  insert_by-Perm x (y ∷ ys) = elim (Bool-cases (le x y)) [
    | inl first ↦ rw first (Perm.refl _)
    | inr later ↦
        rw later
          (Perm.trans (Perm.cons (f y) (insert_by-Perm x ys)) (Perm.swap (f x) (f y) (map f ys)))
  ]

  sort_by-Perm : (xs : List A) → Perm (map f (sort_by le xs)) (map f xs)
  unfolding sort_by
  sort_by-Perm [] = Perm.refl _
  sort_by-Perm (x ∷ xs) =
      Perm.trans (insert_by-Perm x (sort_by le xs)) (Perm.cons (f x) (sort_by-Perm xs))

module _ {ℓ} {A : Type ℓ} (n : A → ℕ) (le : A → A → Bool)
    (le_yes : (x y : A) → le x y ≡ true → n x ≤ n y)
    (le_no : (x y : A) → le x y ≡ false → n y ≤ n x) where
  insert_by-Ascending : (x : A) (xs : List A) → Ascending n xs → Ascending n (insert_by le x xs)
  unfolding insert_by
  insert_by-Ascending x [] h = (tt, tt)
  insert_by-Ascending x (y ∷ ys) h = elim (Bool-cases (le x y)) [
    | inl first ↦
        let x_le = le_yes x y first in
        rw first ((x_le, All-map _ _ (λ z y_le. omega (arith, x_le, y_le)) ys h.0), h)
    | inr later ↦
        rw later (
          All-insert_by le (λ z. n y ≤ n z) x ys (le_no x y later) h.0,
          insert_by-Ascending x ys h.1,
        )
  ]

  sort_by-Ascending : (xs : List A) → Ascending n (sort_by le xs)
  unfolding sort_by
  sort_by-Ascending [] = tt
  sort_by-Ascending (x ∷ xs) = insert_by-Ascending x (sort_by le xs) (sort_by-Ascending xs)

map-map {ℓ κ μ} :
    {A : Type ℓ} {B : Type κ} {C : Type μ} (g : B → C) (f : A → B) (xs : List A)
    → map g (map f xs) ≡ map (λ x. g (f x)) xs
map-map g f [] = refl
map-map g f (x ∷ xs) = rw (map-map g f xs) refl

-- the number and the record key of an entry
abbrev pub listed : RootOrderEntry → ℕ × RootRecordKey
listed e = (e.0, e.2)

-- `order` has one entry for each item of the map, with its number and its key, by ascending number
abbrev pub Lists {ℓ κ} :
    {K : Type ℓ} {V : Type κ}
    → (K × V → ℕ × RootRecordKey)
    → FrozenMap K V
    → List RootOrderEntry
    → Type 0
Lists entry m order = Ascending (λ e. e.0) order × Perm (map listed order) (map entry m)

entry_le-yes : (x y : RootOrderEntry) → entry_le x y ≡ true → x.0 ≤ y.0
entry_le-yes x y h = ground (arith, h)

entry_le-no : (x y : RootOrderEntry) → entry_le x y ≡ false → y.0 ≤ x.0
entry_le-no x y h = ground (arith, h)

order_rows-Lists {ℓ κ} :
    {K : Type ℓ} {V : Type κ} ⦃r : Repr K⦄ (row : K × V → RootOrderEntry) (m : FrozenMap K V)
    → Lists (λ e. listed (row e)) m (order_rows (map row (items m)))
unfolding order_rows items
order_rows-Lists row m = (
  sort_by-Ascending {A = RootOrderEntry} (λ e. e.0) entry_le entry_le-yes entry_le-no
      (map row (items m)),
  Perm.trans (sort_by-Perm listed entry_le (map row (items m)))
      (rw map-map (sort_by-Perm (λ e. listed (row e)) _ m)),
)

-- A root whose orders of expiry are right, and whose indexes are.
pub record IsOrdered (root : CoordinatorStateRoot) : Type 0 where
  pub indexes : indexes_valid root ≡ true
  pub issued :
      Lists
        (λ e. (issued_expires e.1, ((e.0).0, codes (e.0).1 ∷ [])))
        root.issued_records
        root.orders.issued_expiry_order
  pub tokens :
      Lists
        (λ e. (e.1.preparation.expires_at_monotonic_ns, ((e.0).0, codes (e.0).1 ∷ [])))
        root.prepared_feedback_tokens
        root.orders.prepared_token_expiry_order
  pub receipts :
      Lists
        (λ e. (e.1.expires_at_monotonic_ns, ((e.0).0, codes (e.0).1 ∷ [])))
        root.feedback_receipts
        root.orders.feedback_receipt_expiry_order
  pub audits :
      Lists
        (λ e. (audit_expires e.1, ((e.0).0, codes (e.0).1 ∷ [])))
        root.audit_records
        root.orders.audit_expiry_order
  pub ledger_rows :
      Lists
        (λ e. (e.1.expires_at_monotonic_ns, ((e.0).0, codes (e.0).1 ∷ codes (e.0).2 ∷ [])))
        root.action_ledger_records
        root.orders.action_ledger_expiry_order

module _ (root : CoordinatorStateRoot) where
  same_order :
      (a b : List RootOrderEntry) {K : Type 0} {V : Type 0} ⦃r : Repr K⦄
      (row : K × V → RootOrderEntry) (m : FrozenMap K V)
      → (a == b) ≡ true
      → b ≡ order_rows (map row (items m))
      → Lists (λ e. listed (row e)) m a
  same_order a b row m same computed = rw ((eq_iff a b).0 same, computed) (order_rows-Lists row m)

  -- A root that passes its validation has indexes that pass, and its orders of expiry of issued
  -- records, prepared tokens, feedback receipts, audits and ledger rows each list every item of
  -- their map exactly once, with its expiry and its key, by ascending expiry.
  pub validate_root-IsOrdered : validate_root root ≡ ok tt → IsOrdered root
  unfolding validate_root orders_eq with_root_orders root_orders issued_row action_row
  validate_root-IsOrdered valid =
      let indexes : indexes_valid root ≡ true = ground (arith, valid) in
      let orders : orders_eq root.orders (root_orders root) ≡ true = ground (arith, valid) in
      record {
        indexes = indexes;
        issued =
            same_order root.orders.issued_expiry_order (root_orders root).issued_expiry_order _
              root.issued_records (ground (arith, orders)) refl;
        tokens =
            same_order root.orders.prepared_token_expiry_order
              (root_orders root).prepared_token_expiry_order _ root.prepared_feedback_tokens
              (ground (arith, orders)) refl;
        receipts =
            same_order root.orders.feedback_receipt_expiry_order
              (root_orders root).feedback_receipt_expiry_order _ root.feedback_receipts
              (ground (arith, orders)) refl;
        audits =
            same_order root.orders.audit_expiry_order (root_orders root).audit_expiry_order _
              root.audit_records (ground (arith, orders)) refl;
        ledger_rows =
            same_order root.orders.action_ledger_expiry_order
              (root_orders root).action_ledger_expiry_order _ root.action_ledger_records
              (ground (arith, orders)) refl;
      }
