-- ===== src/ActionLedger/Keys.antt =====
-- The keys of the ledger's records.
use market_support_crewai_ag.Prelude.{
  All, All-append, All-keep, All-map, Bool, Bool-cases, List, [], ap, arith, bool_Eq, drop, elem,
  eq_refl, false, if_elim, inl, inr, keep, list_Eq, nat_Eq, option_Eq, pair_Eq, refl, string_Eq,
  subst, suc, sym, triple_Eq, true, zero, ℕ, ◌++◌, ◌==◌, ◌||◌, ◌∷◌, ◌≡◌,
}
use market_support_crewai_ag.ActionLedger.{DedupeKey, LedgerRecord, new_records, record_keys}
use market_support_crewai_ag.Identity.{
  pair_Repr, scene_Eq, state_key_Eq, state_key_Repr, string_Repr, triple_Repr,
}
use market_support_crewai_ag.Schemas.{execution_type_Eq, reply_kind_Eq, status_Eq}

pub elem-append :
    (k : DedupeKey) (xs ys : List DedupeKey) → elem k (xs ++ ys) ≡ (elem k xs || elem k ys)
elem-append k [] ys = refl
elem-append k (x ∷ xs) ys = ground (arith, elem-append k xs ys)

pub record_keys-append :
    (a b : List LedgerRecord) → record_keys (a ++ b) ≡ record_keys a ++ record_keys b
record_keys-append [] b = refl
record_keys-append (r ∷ a) b =
    ap (λ (l : List DedupeKey). r.dedupe_key ∷ l) (record_keys-append a b)

-- no two records have the same key
abbrev pub KeysDiffer : List LedgerRecord → Type 0
KeysDiffer [] = Unit
KeysDiffer (r ∷ records) =
    All (λ s. (r.dedupe_key == s.dedupe_key) ≡ false) records × KeysDiffer records

pub KeysDiffer-keep :
    (p : LedgerRecord → Bool) (records : List LedgerRecord)
    → KeysDiffer records
    → KeysDiffer (keep p records)
KeysDiffer-keep p [] d = tt
KeysDiffer-keep p (r ∷ records) d =
    if_elim KeysDiffer (p r) (r ∷ keep p records) (keep p records)
      (All-keep _ p records d.0, KeysDiffer-keep p records d.1) (KeysDiffer-keep p records d.1)

pub KeysDiffer-drop :
    (n : ℕ) (records : List LedgerRecord) → KeysDiffer records → KeysDiffer (drop n records)
KeysDiffer-drop zero [] d = d
KeysDiffer-drop zero (r ∷ records) d = d
KeysDiffer-drop (suc n) [] d = d
KeysDiffer-drop (suc n) (r ∷ records) d = KeysDiffer-drop n records d.1

pub KeysDiffer-append :
    (a b : List LedgerRecord)
    → KeysDiffer a
    → KeysDiffer b
    → All (λ s. elem s.dedupe_key (record_keys a) ≡ false) b
    → KeysDiffer (a ++ b)
KeysDiffer-append [] b da db apart = db
KeysDiffer-append (r ∷ a) b da db apart = (
  All-append _ a b da.0 (All-map _ _ (λ s absent. ground (arith, absent)) b apart),
  KeysDiffer-append a b da.1 db (All-map _ _ (λ s absent. ground (arith, absent)) b apart),
)

-- The keys of a ledger are those of its records.
abbrev pub SameKeys : List DedupeKey → List LedgerRecord → Type 0
SameKeys known_keys records = (k : DedupeKey) → elem k known_keys ≡ elem k (record_keys records)

-- what the loop over the candidates makes of the keys
pub new_records-keys :
    (candidates : List LedgerRecord) (known_keys : List DedupeKey) (k : DedupeKey)
    → elem k (new_records candidates known_keys).1
      ≡ (elem k known_keys || elem k (record_keys (new_records candidates known_keys).0))
unfolding new_records
new_records-keys [] known_keys k = ground arith
new_records-keys (r ∷ candidates) known_keys k = elim (Bool-cases (elem r.dedupe_key known_keys)) [
  | inl known ↦ rw known (new_records-keys candidates known_keys k)
  | inr new ↦ rw new (ground (arith, new_records-keys candidates (r.dedupe_key ∷ known_keys) k))
]

-- a key that is known is not stored again
pub new_records-apart :
    (candidates : List LedgerRecord) (known_keys : List DedupeKey)
    → All (λ s. elem s.dedupe_key known_keys ≡ false) (new_records candidates known_keys).0
unfolding new_records
new_records-apart [] known_keys = tt
new_records-apart (r ∷ candidates) known_keys = elim (Bool-cases (elem r.dedupe_key known_keys)) [
  | inl known ↦ rw known (new_records-apart candidates known_keys)
  | inr new ↦ rw new (
    new,
    All-map _ _ (λ s absent. ground (arith, absent)) _
        (new_records-apart candidates (r.dedupe_key ∷ known_keys)),
  )
]

pub new_records-KeysDiffer :
    (candidates : List LedgerRecord) (known_keys : List DedupeKey)
    → KeysDiffer (new_records candidates known_keys).0
unfolding new_records
new_records-KeysDiffer [] known_keys = tt
new_records-KeysDiffer (r ∷ candidates) known_keys =
    elim (Bool-cases (elem r.dedupe_key known_keys)) [
      | inl known ↦ rw known (new_records-KeysDiffer candidates known_keys)
      | inr new ↦ rw new (
        All-map _ _ (λ s absent. ground (arith, absent)) _
            (new_records-apart candidates (r.dedupe_key ∷ known_keys)),
        new_records-KeysDiffer candidates (r.dedupe_key ∷ known_keys),
      )
    ]

new_records-old :
    (r : LedgerRecord) (candidates : List LedgerRecord) (known_keys : List DedupeKey)
    → elem r.dedupe_key known_keys ≡ true
    → new_records (r ∷ candidates) known_keys ≡ new_records candidates known_keys
unfolding new_records
new_records-old r candidates known_keys known = rw known refl

new_records-new :
    (r : LedgerRecord) (candidates : List LedgerRecord) (known_keys : List DedupeKey)
    → elem r.dedupe_key known_keys ≡ false
    → (new_records (r ∷ candidates) known_keys).1
      ≡ (new_records candidates (r.dedupe_key ∷ known_keys)).1
unfolding new_records
new_records-new r candidates known_keys new = rw new refl

-- what the loop has gone through is known afterwards
abbrev pub AllKnown : List LedgerRecord → List DedupeKey → Type 0
AllKnown candidates known_keys = All (λ s. elem s.dedupe_key known_keys ≡ true) candidates

pub new_records-known :
    (candidates : List LedgerRecord) (known_keys : List DedupeKey)
    → All (λ s. elem s.dedupe_key (new_records candidates known_keys).1 ≡ true) candidates
new_records-known [] known_keys = tt
new_records-known (r ∷ candidates) known_keys = elim (Bool-cases (elem r.dedupe_key known_keys)) [
  | inl known ↦
      subst (AllKnown (r ∷ candidates))
        (ap (λ (x : List LedgerRecord × List DedupeKey). x.1)
          (sym (new_records-old r candidates known_keys known)))
        (
          ground (arith, new_records-keys candidates known_keys r.dedupe_key, known),
          new_records-known candidates known_keys,
        )
  | inr new ↦
      subst (AllKnown (r ∷ candidates)) (sym (new_records-new r candidates known_keys new)) (
        ground (
          arith,
          new_records-keys candidates (r.dedupe_key ∷ known_keys) r.dedupe_key,
          eq_refl r.dedupe_key,
        ),
        new_records-known candidates (r.dedupe_key ∷ known_keys),
      )
]

-- candidates whose keys are all known add nothing
pub new_records-none :
    (candidates : List LedgerRecord) (known_keys : List DedupeKey)
    → All (λ s. elem s.dedupe_key known_keys ≡ true) candidates
    → new_records candidates known_keys ≡ ([], known_keys)
unfolding new_records
new_records-none [] known_keys h = refl
new_records-none (r ∷ candidates) known_keys h =
    rw (h.0) (new_records-none candidates known_keys h.1)
