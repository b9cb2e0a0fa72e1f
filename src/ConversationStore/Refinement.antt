-- ===== src/ConversationStore/Refinement.antt =====
-- The store against what it remembers: sessions with a time to live, of which the least active go
-- when there are too many. Cleanups are never seen.
use market_support_crewai_ag.Prelude.{
  Bool-cases, List, Option, String, [], ap, arith, bool_Eq, if_elim, if◌then◌else◌, inl, inr, leb,
  length, list_Eq, nat_Eq, none, option_Eq, pair_Eq, refl, some, string_Eq, triple_Eq, ℕ, ◌++◌, ◌+◌,
  ◌∙◌, ◌≡◌, ◌≢◌, ◌≤◌, ◌⊎◌,
}
use market_support_crewai_ag.ConversationStore.{
  ConversationMessage, ConversationSession, ConversationStore, Sessions, StoreParameters,
  cleanup_expired_locked, cleanup_if_due_locked, cleanup_sessions, get_recent, live_messages,
  recent_of, save_turn, trimmed, turn_messages, with_turn,
}
use market_support_crewai_ag.ConversationStore.Eviction.{enforce-other, enforce-preserved}
use market_support_crewai_ag.ConversationStore.View.{
  recall, recall-without_expired, recall-without_key,
}
use market_support_crewai_ag.FrozenMap.{get}
use market_support_crewai_ag.FrozenMap.Distinct.{Distinct, Distinct-keep}
use market_support_crewai_ag.FrozenMap.Laws.{get-insert_ne, get-insert_self}
use market_support_crewai_ag.Identity.{
  ConversationStateKey, pair_Repr, scene_Eq, state_key_Eq, state_key_Repr, string_Repr, triple_Repr,
}
use market_support_crewai_ag.Schemas.{execution_type_Eq, reply_kind_Eq, status_Eq}

module _ {M : Type 0} where
  abbrev pub Remembers : ConversationStore M → ConversationStore M → ℕ → Type 0
  Remembers before after now =
      (j : ConversationStateKey) (t : ℕ)
      → now ≤ t
      → recall after.sessions j t ≡ recall before.sessions j t

  cleanup_if_due-Remembers :
      (now : ℕ) (store : ConversationStore M)
      → Distinct store.sessions
      → Remembers store (cleanup_if_due_locked now store) now
  unfolding cleanup_if_due_locked cleanup_expired_locked
  cleanup_if_due-Remembers now store d j t later =
      if_elim (λ (s : ConversationStore M). recall s.sessions j t ≡ recall store.sessions j t)
        (leb store.next_cleanup_at now) _ store
        (recall-without_expired now t j store.sessions d later) refl

  cleanup_if_due-Distinct :
      (now : ℕ) (store : ConversationStore M)
      → Distinct store.sessions
      → Distinct (cleanup_if_due_locked now store).sessions
  unfolding cleanup_if_due_locked cleanup_expired_locked
  cleanup_if_due-Distinct now store d =
      if_elim (λ (s : ConversationStore M). Distinct s.sessions) (leb store.next_cleanup_at now) _
        store (Distinct-keep _ store.sessions d) d

  -- the lookup after the cleanup
  recent_of-recall :
      (k : ConversationStateKey) (now : ℕ) (store : ConversationStore M)
      (o : Option (ConversationSession M))
      → get k store.sessions ≡ o
      → ((recent_of k now store o).0 ≡ live_messages now o)
        × Remembers store (recent_of k now store o).1 now
  recent_of-recall k now store none at = (refl, λ j t later. refl)
  recent_of-recall k now store (some session) at = elim (Bool-cases (leb session.expires_at now)) [
    | inr live ↦ rw live (refl, λ j t later. refl)
    | inl over ↦
        rw over
          (refl, λ j t later. recall-without_key now t j k store.sessions session at over later)
  ]

  -- A look at a conversation answers what the store remembers of it at that time, and the store
  -- remembers the same afterwards, of every conversation at every later time.
  pub get_recent-recall :
      (k : ConversationStateKey) (now : ℕ) (store : ConversationStore M)
      → Distinct store.sessions
      → ((get_recent k now store).0 ≡ recall store.sessions k now)
        × Remembers store (get_recent k now store).1 now
  unfolding get_recent
  get_recent-recall k now store d =
      let cleaned = cleanup_if_due_locked now store in
      let seen = cleanup_if_due-Remembers now store d in
      let (answered, kept) = recent_of-recall k now cleaned (get k cleaned.sessions) refl in
      (answered ∙ seen k now (omega arith), λ j t later. kept j t later ∙ seen j t later)

  -- A cleanup changes nothing of what the store remembers from then on.
  pub cleanup_sessions-recall :
      (now : ℕ) (store : ConversationStore M)
      → Distinct store.sessions
      → Remembers store (cleanup_sessions now store).0 now
  unfolding cleanup_sessions cleanup_expired_locked
  cleanup_sessions-recall now store d j t later =
      recall-without_expired now t j store.sessions d later

  module _ (parameters : StoreParameters M) (k : ConversationStateKey)
      (user_content assistant_content : String) (now : ℕ) (store : ConversationStore M)
      (d : Distinct store.sessions) where
    abbrev cleaned : ConversationStore M
    cleaned = cleanup_if_due_locked now store

    abbrev saved : Sessions M
    saved = with_turn parameters k user_content assistant_content now cleaned

    -- what the conversation remembers after a turn: its last messages, until the time to live ends
    abbrev pub remembered : ℕ → List (ConversationMessage M)
    remembered t =
        if leb (now + store.ttl) t
        then []
        else trimmed store.max_messages (
            recall store.sessions k now
            ++ turn_messages parameters k user_content assistant_content now)

    cleaned-parameters : (cleaned.ttl ≡ store.ttl) × (cleaned.max_messages ≡ store.max_messages)
    unfolding cleanup_if_due_locked
    cleaned-parameters =
        if_elim
          (λ (s : ConversationStore M). (s.ttl ≡ store.ttl) × (s.max_messages ≡ store.max_messages))
          (leb store.next_cleanup_at now) _ store (refl, refl) (refl, refl)

    saved-own : (t : ℕ) → recall saved k t ≡ remembered t
    saved-own t =
        let seen = cleanup_if_due-Remembers now store d k now (omega arith) in
        rw get-insert_self (rw seen (rw (cleaned-parameters.0, cleaned-parameters.1) refl))

    -- A saved turn is remembered: until the time to live ends, its conversation is recalled as what
    -- was remembered of it followed by the turn, the last messages of these; from then on as empty.
    -- Of another conversation the store remembers the same as before, or nothing when it was evicted.
    pub save_turn-recall :
        ((t : ℕ)
          → recall (save_turn parameters k user_content assistant_content now store).sessions k t
            ≡ remembered t)
        × ((j : ConversationStateKey) (t : ℕ)
            → j ≢ k
            → now ≤ t
            → (recall (save_turn parameters k user_content assistant_content now store).sessions j t
                ≡ recall store.sessions j t)
              ⊎ (recall
                    (save_turn parameters k user_content assistant_content now store).sessions
                    j
                    t
                  ≡ []))
    unfolding save_turn
    save_turn-recall = (
      λ t.
          ap (live_messages t) (
            enforce-preserved parameters k (get k saved) store.max_sessions (length saved) saved
              refl)
          ∙ saved-own t,
      λ j t differ later.
          let unchanged : recall saved j t ≡ recall store.sessions j t =
            ap (live_messages t) (get-insert_ne j k _ cleaned.sessions differ)
            ∙ cleanup_if_due-Remembers now store d j t later in
          elim (enforce-other parameters k j (get j saved) store.max_sessions (length saved) saved
            (inl refl)) [
              | inl stays ↦ inl (ap (live_messages t) stays ∙ unchanged)
              | inr gone ↦ inr (ap (live_messages t) gone)
            ],
    )
