-- ===== src/ConversationStore/View.antt =====
-- What a conversation store remembers: the messages of each conversation at each time.
use market_support_crewai_ag.Prelude.{
  All, All-keep_map, Bool-cases, List, [], ap, arith, bool_Eq, elem, eq_iff, inl, inr, leb, list_Eq,
  nat_Eq, option_Eq, pair_Eq, refl, some, string_Eq, subst, triple_Eq, true, ℕ, ◌==◌, ◌∷◌, ◌≡◌, ◌≢◌,
  ◌≤◌,
}
use market_support_crewai_ag.ConversationStore.{
  ConversationMessage, ConversationSession, Sessions, expired_keys, live_messages,
}
use market_support_crewai_ag.FrozenMap.{get, keys, without_keys}
use market_support_crewai_ag.FrozenMap.Distinct.{Distinct, Distinct-get}
use market_support_crewai_ag.FrozenMap.Laws.{
  get-without_key_ne, get-without_key_self, get-without_keys,
}
use market_support_crewai_ag.Identity.{
  ConversationStateKey, pair_Repr, scene_Eq, state_key_Eq, state_key_Repr, string_Repr, triple_Repr,
}
use market_support_crewai_ag.Schemas.{execution_type_Eq, reply_kind_Eq, status_Eq}

module _ {M : Type 0} where
  abbrev pub recall : Sessions M → ConversationStateKey → ℕ → List (ConversationMessage M)
  recall sessions state_key t = live_messages t (get state_key sessions)

  elem-keys_All :
      (P : ConversationStateKey × ConversationSession M → Type 0) (k : ConversationStateKey)
      (l : Sessions M)
      → All P l
      → elem k (keys l) ≡ true
      → (v : ConversationSession M) × P (k, v)
  elem-keys_All P k [] h member = absurd (cc)
  elem-keys_All P k ((j, v) ∷ l) h member = elim (Bool-cases (j == k)) [
    | inl same ↦ (v, subst (λ (x : ConversationStateKey). P (x, v)) ((eq_iff j k).0 same) h.0)
    | inr apart ↦ elem-keys_All P k l h.1 (ground (arith, apart, member))
  ]

  -- an expired key leads to an expired session
  expired_keys-elem :
      (now : ℕ) (k : ConversationStateKey) (m : Sessions M)
      → Distinct m
      → elem k (expired_keys now m) ≡ true
      → (v : ConversationSession M) × (leb v.expires_at now ≡ true) × (get k m ≡ some v)
  expired_keys-elem now k m d member =
      let (v, both) =
        elem-keys_All (λ e. (leb e.1.expires_at now ≡ true) × (get e.0 m ≡ some e.1)) k _
          (All-keep_map (λ e. get e.0 m ≡ some e.1) _ (λ e. leb e.1.expires_at now)
            (λ e expired found. (expired, found)) m (Distinct-get m d))
          member in
      (v, both.0, both.1)

  -- an expired session has nothing to recall, whether it is still there or not
  pub recall-without_expired :
      (now t : ℕ) (k : ConversationStateKey) (m : Sessions M)
      → Distinct m
      → now ≤ t
      → recall (without_keys m (expired_keys now m)) k t ≡ recall m k t
  recall-without_expired now t k m d later = elim (Bool-cases (elem k (expired_keys now m))) [
    | inr kept ↦ rw get-without_keys (rw kept refl)
    | inl gone ↦
        let (v, expired, found) = expired_keys-elem now k m d gone in
        let over : leb v.expires_at t ≡ true = ground (arith, expired, later) in
        rw get-without_keys (rw gone (rw found (rw over refl)))
  ]

  pub recall-without_key :
      (now t : ℕ) (j k : ConversationStateKey) (m : Sessions M) (session : ConversationSession M)
      → get k m ≡ some session
      → leb session.expires_at now ≡ true
      → now ≤ t
      → recall (without_keys m (k ∷ [])) j t ≡ recall m j t
  recall-without_key now t j k m session found expired later = elim (Bool-cases (j == k)) [
    | inr apart ↦
        let differ : j ≢ k = λ same. ground (arith, apart, eq_iff j k, same) in
        ap (live_messages t) (get-without_key_ne j k m differ)
    | inl same ↦
        let equal = (eq_iff j k).0 same in
        let over : leb session.expires_at t ≡ true = ground (arith, expired, later) in
        rw equal (rw get-without_key_self (rw found (rw over refl)))
  ]
