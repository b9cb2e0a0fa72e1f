-- ===== src/ConversationStore/Eviction.antt =====
-- The eviction of the least active sessions (`_enforce_session_cap_locked`).
use market_support_crewai_ag.Prelude.{
  All, All-keep, All-keep_map, All-map, All-min_by, Bool-cases, Option, [], arith, bool_Eq, elem,
  eq_iff, eq_refl, if_elim, inl, inr, keep, length, list_Eq, ltb, min_by, nat_Eq, none, option_Eq,
  pair_Eq, refl, string_Eq, subst, suc, sym, triple_Eq, true, zero, ℕ, ◌!=◌, ◌<◌, ◌==◌, ◌∙◌, ◌∷◌,
  ◌≡◌, ◌≢◌, ◌≤◌, ◌⊎◌,
}
use market_support_crewai_ag.ConversationStore.{
  ConversationSession, Sessions, StoreParameters, enforce_session_cap, less_active, without_oldest,
}
use market_support_crewai_ag.FrozenMap.{get, keys, without_keys}
use market_support_crewai_ag.FrozenMap.Distinct.{Distinct, Distinct-keep}
use market_support_crewai_ag.FrozenMap.Laws.{get-without_key_ne, get-without_keys}
use market_support_crewai_ag.FrozenMap.Selection.{length-without_key-lt}
use market_support_crewai_ag.Identity.{
  ConversationStateKey, pair_Repr, scene_Eq, state_key_Eq, state_key_Repr, string_Repr, triple_Repr,
}
use market_support_crewai_ag.Schemas.{execution_type_Eq, reply_kind_Eq, status_Eq}

module _ {M : Type 0} where
  -- with two sessions, one is not the preserved one
  others-some :
      (k : ConversationStateKey) (m : Sessions M)
      → Distinct m
      → 1 < length m
      → 0 < length (keep (λ e. e.0 != k) m)
  others-some k [] d two = omega arith
  others-some k (x ∷ []) d two = omega arith
  others-some k (x ∷ y ∷ m) d two = elim (Bool-cases (x.0 == k)) [
    | inr apart ↦ ground (arith, apart)
    | inl same ↦ ground (arith, same, d.0.0, eq_iff x.0 k, eq_iff y.0 k, eq_iff x.0 y.0)
  ]

  elem-keys : (m : Sessions M) → All (λ e. elem e.0 (keys m) ≡ true) m
  elem-keys [] = tt
  elem-keys (x ∷ m) =
      (ground (arith, eq_refl x.0), All-map _ _ (λ e h. ground (arith, h)) m (elem-keys m))

module _ {M : Type 0} (parameters : StoreParameters M) (preserve_key : ConversationStateKey) where
  abbrev candidates : Sessions M → Sessions M
  candidates m = keep (λ e. e.0 != preserve_key) m

  abbrev evicted : Sessions M → Sessions M
  evicted m = without_oldest parameters (candidates m) m

  -- an eviction removes a session that is there and not preserved, if there is one
  abbrev Removed : Sessions M → Sessions M → Type 0
  Removed m m' =
      (k : ConversationStateKey) × (elem k (keys m) ≡ true)
      × ((k != preserve_key) ≡ true)
      × (m' ≡ without_keys m (k ∷ []))

  without_oldest-Removed :
      (m l : Sessions M)
      → All (λ e. (elem e.0 (keys m) ≡ true) × ((e.0 != preserve_key) ≡ true)) l
      → (without_oldest parameters l m ≡ m) ⊎ Removed m (without_oldest parameters l m)
  unfolding without_oldest
  without_oldest-Removed m [] h = inl refl
  without_oldest-Removed m (first ∷ rest) h =
      let oldest = min_by (less_active parameters) first rest in
      let (member, apart_from) =
        All-min_by (less_active parameters)
          (λ e. (elem e.0 (keys m) ≡ true) × ((e.0 != preserve_key) ≡ true)) first rest h.0 h.1 in
      inr (oldest.0, member, apart_from, refl)

  evicted-Removed : (m : Sessions M) → (evicted m ≡ m) ⊎ Removed m (evicted m)
  evicted-Removed m = without_oldest-Removed m (candidates m) (
      All-keep_map _ _ (λ e. e.0 != preserve_key) (λ e apart_from member. (member, apart_from)) m
        (elem-keys m))

  evicted-shorter :
      (m l : Sessions M)
      → All (λ e. (elem e.0 (keys m) ≡ true) × ((e.0 != preserve_key) ≡ true)) l
      → 0 < length l
      → length (without_oldest parameters l m) < length m
  unfolding without_oldest
  evicted-shorter m [] h some_left = omega arith
  evicted-shorter m (first ∷ rest) h some_left =
      let (member, _) =
        All-min_by (less_active parameters)
          (λ e. (elem e.0 (keys m) ≡ true) × ((e.0 != preserve_key) ≡ true)) first rest h.0 h.1 in
      length-without_key-lt (min_by (less_active parameters) first rest).0 m member

  -- what an eviction keeps, the loop keeps
  enforce-keeps :
      (P : Sessions M → Type 0) (max_sessions : ℕ)
      → ((m : Sessions M) → P m → P (evicted m))
      → (fuel : ℕ) (m : Sessions M) → P m
      → P (enforce_session_cap parameters fuel max_sessions preserve_key m)
  unfolding enforce_session_cap
  enforce-keeps P max_sessions step zero m h = h
  enforce-keeps P max_sessions step (suc fuel) m h =
      if_elim P (ltb max_sessions (length m)) _ m
        (enforce-keeps P max_sessions step fuel (evicted m) (step m h)) h

  pub enforce-Distinct :
      (max_sessions fuel : ℕ) (m : Sessions M)
      → Distinct m
      → Distinct (enforce_session_cap parameters fuel max_sessions preserve_key m)
  enforce-Distinct max_sessions = enforce-keeps Distinct max_sessions (λ m d.
      elim (evicted-Removed m) [
        | inl same ↦ subst Distinct (sym same) d
        | inr (k, _, _, removed) ↦ subst Distinct (sym removed) (Distinct-keep _ m d)
      ])

  pub enforce-All :
      (P : ConversationStateKey × ConversationSession M → Type 0) (max_sessions fuel : ℕ)
      (m : Sessions M)
      → All P m
      → All P (enforce_session_cap parameters fuel max_sessions preserve_key m)
  enforce-All P max_sessions = enforce-keeps (All P) max_sessions (λ m h. elim (evicted-Removed m) [
    | inl same ↦ subst (All P) (sym same) h
    | inr (k, _, _, removed) ↦ subst (All P) (sym removed) (All-keep P _ m h)
  ])

  -- the preserved session stays
  pub enforce-preserved :
      (o : Option (ConversationSession M)) (max_sessions fuel : ℕ) (m : Sessions M)
      → get preserve_key m ≡ o
      → get preserve_key (enforce_session_cap parameters fuel max_sessions preserve_key m) ≡ o
  enforce-preserved o max_sessions =
      enforce-keeps (λ m. get preserve_key m ≡ o) max_sessions
        (λ m h. elim (evicted-Removed m) [
          | inl same ↦ subst (λ x. get preserve_key x ≡ o) (sym same) h
          | inr (k, _, apart_from, removed) ↦
              let apart : preserve_key ≢ k =
                λ same. ground (arith, apart_from, eq_iff k preserve_key, sym same) in
              subst (λ x. get preserve_key x ≡ o) (sym removed)
                (get-without_key_ne preserve_key k m apart ∙ h)
        ])

  -- another session stays or goes, it does not change
  pub enforce-other :
      (j : ConversationStateKey) (o : Option (ConversationSession M)) (max_sessions fuel : ℕ)
      (m : Sessions M)
      → (get j m ≡ o) ⊎ (get j m ≡ none)
      → (get j (enforce_session_cap parameters fuel max_sessions preserve_key m) ≡ o)
        ⊎ (get j (enforce_session_cap parameters fuel max_sessions preserve_key m) ≡ none)
  enforce-other j o max_sessions =
      enforce-keeps (λ m. (get j m ≡ o) ⊎ (get j m ≡ none)) max_sessions
        (λ m h. elim (evicted-Removed m) [
          | inl same ↦ subst (λ x. (get j x ≡ o) ⊎ (get j x ≡ none)) (sym same) h
          | inr (k, _, apart_from, removed) ↦
              subst (λ x. (get j x ≡ o) ⊎ (get j x ≡ none)) (sym removed)
                (elim (Bool-cases (elem j (k ∷ []))) [
                  | inl gone ↦ inr (rw get-without_keys (rw gone refl))
                  | inr stays ↦ rw get-without_keys (rw stays h)
                ])
        ])

  -- a round for each session is enough
  pub length-enforce-le :
      (max_sessions fuel : ℕ) (m : Sessions M)
      → Distinct m
      → 0 < max_sessions
      → length m ≤ fuel
      → length (enforce_session_cap parameters fuel max_sessions preserve_key m) ≤ max_sessions
  unfolding enforce_session_cap
  length-enforce-le max_sessions zero m d positive enough = omega arith
  length-enforce-le max_sessions (suc fuel) m d positive enough =
      elim (Bool-cases (ltb max_sessions (length m))) [
        | inr fits ↦ rw fits (ground (arith, fits))
        | inl over ↦
            let two : 1 < length m = ground (arith, over, positive) in
            let shorter =
              evicted-shorter m (candidates m)
                (All-keep_map _ _ (λ e. e.0 != preserve_key)
                  (λ e apart_from member. (member, apart_from)) m (elem-keys m))
                (others-some preserve_key m d two) in
            let d' : Distinct (evicted m) = elim (evicted-Removed m) [
              | inl same ↦ subst Distinct (sym same) d
              | inr (k, _, _, removed) ↦ subst Distinct (sym removed) (Distinct-keep _ m d)
            ] in
            rw over (length-enforce-le max_sessions fuel (evicted m) d' positive (omega arith))
      ]
