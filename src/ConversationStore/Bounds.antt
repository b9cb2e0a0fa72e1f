-- ===== src/ConversationStore/Bounds.antt =====
-- The bounds of the store: `_max_messages` and `_max_sessions`.
use market_support_crewai_ag.Prelude.{
  All, All-keep, Bool-cases, List, Option, String, [], arith, bool_Eq, eq_iff, if_elim, inl, inr,
  leb, length, length-last_n-le, list_Eq, ltb, nat_Eq, none, option_Eq, pair_Eq, refl, some,
  string_Eq, subst, triple_Eq, ℕ, ◌<◌, ◌==◌, ◌||◌, ◌∙◌, ◌∷◌, ◌≡◌, ◌≤◌,
}
use market_support_crewai_ag.ConversationStore.{
  ConversationMessage, ConversationSession, ConversationStore, Sessions, StoreParameters,
  cleanup_expired_locked, cleanup_if_due_locked, cleanup_sessions, expired_keys, get_recent,
  new_store, recent_of, save_turn, trimmed, with_turn,
}
use market_support_crewai_ag.ConversationStore.Eviction.{
  enforce-All, enforce-Distinct, length-enforce-le,
}
use market_support_crewai_ag.Errors.{some-injective}
use market_support_crewai_ag.FrozenMap.{get, without_keys}
use market_support_crewai_ag.FrozenMap.Distinct.{Distinct, Distinct-insert, Distinct-keep}
use market_support_crewai_ag.FrozenMap.Laws.{All-insert, length-without_keys-le}
use market_support_crewai_ag.Identity.{
  ConversationStateKey, pair_Repr, scene_Eq, state_key_Eq, state_key_Repr, string_Repr, triple_Repr,
}
use market_support_crewai_ag.Schemas.{execution_type_Eq, reply_kind_Eq, status_Eq}

pub record Bounded {M : Type 0} (max_messages max_sessions : ℕ) (sessions : Sessions M)
    : Type 0 where
  pub distinct : Distinct sessions
  pub short : All (λ e. length e.1.messages ≤ max_messages) sessions
  pub few : length sessions ≤ max_sessions
  pub positive : 0 < max_sessions

-- the calls of a store, each at a time
pub data StoreCall (M : Type 0) : Type 0 where
  read_recent : ConversationStateKey → ℕ → StoreCall M
  saved_turn : ConversationStateKey → String → String → ℕ → StoreCall M
  cleaned_up_sessions : ℕ → StoreCall M

module _ {M : Type 0} (parameters : StoreParameters M) where
  abbrev pub after_call : StoreCall M → ConversationStore M → ConversationStore M
  after_call (read_recent k now) store = (get_recent k now store).1
  after_call (saved_turn k user_content assistant_content now) store =
      save_turn parameters k user_content assistant_content now store
  after_call (cleaned_up_sessions now) store = (cleanup_sessions now store).0

  abbrev pub after_calls : List (StoreCall M) → ConversationStore M → ConversationStore M
  after_calls [] store = store
  after_calls (call ∷ calls) store = after_calls calls (after_call call store)

  abbrev pub IsBounded : ConversationStore M → Type 0
  IsBounded store = Bounded store.max_messages store.max_sessions store.sessions

  fewer-Bounded :
      (a b : ℕ) (m : Sessions M) (ks : List ConversationStateKey)
      → Bounded a b m
      → Bounded a b (without_keys m ks)
  fewer-Bounded a b m ks h = record {
    distinct = Distinct-keep _ m h.distinct;
    short = All-keep _ _ m h.short;
    few = let fewer = length-without_keys-le m ks in let most = h.few in omega arith;
    positive = h.positive;
  }

  cleanup_if_due-IsBounded :
      (now : ℕ) (store : ConversationStore M)
      → IsBounded store
      → IsBounded (cleanup_if_due_locked now store)
  unfolding cleanup_if_due_locked cleanup_expired_locked
  cleanup_if_due-IsBounded now store h =
      if_elim IsBounded (leb store.next_cleanup_at now) _ store
        (fewer-Bounded store.max_messages store.max_sessions store.sessions
          (expired_keys now store.sessions) h)
        h

  recent_of-IsBounded :
      (k : ConversationStateKey) (now : ℕ) (store : ConversationStore M)
      (o : Option (ConversationSession M))
      → IsBounded store
      → IsBounded (recent_of k now store o).1
  recent_of-IsBounded k now store none h = h
  recent_of-IsBounded k now store (some session) h =
      if_elim (λ (x : List (ConversationMessage M) × ConversationStore M). IsBounded x.1)
        (leb session.expires_at now) _ (session.messages, store)
        (fewer-Bounded store.max_messages store.max_sessions store.sessions (k ∷ []) h) h

  trimmed-le : (n : ℕ) (l : List (ConversationMessage M)) → length (trimmed n l) ≤ n
  trimmed-le n l = elim (Bool-cases (ltb n (length l))) [
    | inl long ↦ rw long (length-last_n-le n l)
    | inr fits ↦ rw fits (ground (arith, fits))
  ]

  same-limits :
      (now : ℕ) (store : ConversationStore M)
      → ((cleanup_if_due_locked now store).max_messages ≡ store.max_messages)
        × ((cleanup_if_due_locked now store).max_sessions ≡ store.max_sessions)
  unfolding cleanup_if_due_locked
  same-limits now store =
      if_elim
        (λ (s : ConversationStore M).
          (s.max_messages ≡ store.max_messages) × (s.max_sessions ≡ store.max_sessions))
        (leb store.next_cleanup_at now) _ store (refl, refl) (refl, refl)

  save_turn-IsBounded :
      (k : ConversationStateKey) (user_content assistant_content : String) (now : ℕ)
      (store : ConversationStore M)
      → IsBounded store
      → IsBounded (save_turn parameters k user_content assistant_content now store)
  unfolding save_turn
  save_turn-IsBounded k user_content assistant_content now store h =
      let cleaned = cleanup_if_due_locked now store in
      let before = cleanup_if_due-IsBounded now store h in
      let saved = with_turn parameters k user_content assistant_content now cleaned in
      let saved_distinct : Distinct saved = Distinct-insert k _ cleaned.sessions before.distinct in
      let saved_short : All (λ e. length e.1.messages ≤ cleaned.max_messages) saved =
        All-insert _ k _ cleaned.sessions (trimmed-le cleaned.max_messages _) before.short in
      let limits = same-limits now store in
      record {
        distinct =
            enforce-Distinct parameters k store.max_sessions (length saved) saved saved_distinct;
        short = enforce-All parameters k _ store.max_sessions (length saved) saved saved_short;
        few =
            let enough =
              length-enforce-le parameters k store.max_sessions (length saved) saved saved_distinct
                h.positive (omega arith) in
            omega (arith, enough, limits);
        positive = before.positive;
      }

  after_call-IsBounded :
      (call : StoreCall M) (store : ConversationStore M)
      → IsBounded store
      → IsBounded (after_call call store)
  unfolding get_recent cleanup_sessions cleanup_expired_locked
  after_call-IsBounded (read_recent k now) store h =
      recent_of-IsBounded k now (cleanup_if_due_locked now store) _
        (cleanup_if_due-IsBounded now store h)
  after_call-IsBounded (saved_turn k user_content assistant_content now) store h =
      save_turn-IsBounded k user_content assistant_content now store h
  after_call-IsBounded (cleaned_up_sessions now) store h =
      fewer-Bounded store.max_messages store.max_sessions store.sessions
        (expired_keys now store.sessions) h

  after_calls-IsBounded :
      (calls : List (StoreCall M)) (store : ConversationStore M)
      → IsBounded store
      → IsBounded (after_calls calls store)
  after_calls-IsBounded [] store h = h
  after_calls-IsBounded (call ∷ calls) store h =
      after_calls-IsBounded calls (after_call call store) (after_call-IsBounded call store h)

  new_store-IsBounded :
      (ttl_seconds max_messages max_sessions interval_seconds now : ℕ) (store : ConversationStore M)
      → new_store M ttl_seconds max_messages max_sessions interval_seconds now ≡ some store
      → IsBounded store
  unfolding new_store
  new_store-IsBounded ttl_seconds max_messages max_sessions interval_seconds now store made =
      elim (Bool-cases (ttl_seconds == 0 || (max_messages == 0 || max_sessions == 0))) [
        | inl refused ↦ absurd (ground (arith, refused, made))
        | inr accepted ↦ subst IsBounded (some-injective (rw accepted at made)) (record {
          distinct = tt;
          short = tt;
          few = omega arith;
          positive = ground (arith, accepted, eq_iff max_sessions 0);
        })
      ]

  abbrev SameLimits : ConversationStore M → ConversationStore M → Type 0
  SameLimits a b = (a.max_messages ≡ b.max_messages) × (a.max_sessions ≡ b.max_sessions)

  recent_of-SameLimits :
      (k : ConversationStateKey) (now : ℕ) (store : ConversationStore M)
      (o : Option (ConversationSession M))
      → SameLimits (recent_of k now store o).1 store
  recent_of-SameLimits k now store none = (refl, refl)
  recent_of-SameLimits k now store (some session) =
      if_elim (λ (x : List (ConversationMessage M) × ConversationStore M). SameLimits x.1 store)
        (leb session.expires_at now) _ (session.messages, store) (refl, refl) (refl, refl)

  after_call-SameLimits :
      (call : StoreCall M) (store : ConversationStore M) → SameLimits (after_call call store) store
  unfolding get_recent save_turn cleanup_sessions cleanup_expired_locked
  after_call-SameLimits (read_recent k now) store =
      let cleaned = cleanup_if_due_locked now store in
      let looked = recent_of-SameLimits k now cleaned (get k cleaned.sessions) in
      let due = same-limits now store in (looked.0 ∙ due.0, looked.1 ∙ due.1)
  after_call-SameLimits (saved_turn k user_content assistant_content now) store =
      same-limits now store
  after_call-SameLimits (cleaned_up_sessions now) store = (refl, refl)

  after_calls-SameLimits :
      (calls : List (StoreCall M)) (store : ConversationStore M)
      → SameLimits (after_calls calls store) store
  after_calls-SameLimits [] store = (refl, refl)
  after_calls-SameLimits (call ∷ calls) store =
      let rest = after_calls-SameLimits calls (after_call call store) in
      let first = after_call-SameLimits call store in (rest.0 ∙ first.0, rest.1 ∙ first.1)

  new_store-limits :
      (ttl_seconds max_messages max_sessions interval_seconds now : ℕ) (store : ConversationStore M)
      → new_store M ttl_seconds max_messages max_sessions interval_seconds now ≡ some store
      → (store.max_messages ≡ max_messages) × (store.max_sessions ≡ max_sessions)
  unfolding new_store
  new_store-limits ttl_seconds max_messages max_sessions interval_seconds now store made =
      elim (Bool-cases (ttl_seconds == 0 || (max_messages == 0 || max_sessions == 0))) [
        | inl refused ↦ absurd (ground (arith, refused, made))
        | inr accepted ↦
            subst
              (λ (s : ConversationStore M).
                (s.max_messages ≡ max_messages) × (s.max_sessions ≡ max_sessions))
              (some-injective (rw accepted at made)) (refl, refl)
      ]

  -- A store that was made and used, whatever the calls and their times, has one session for each
  -- conversation, at most `max_sessions` of them, and none with more than `max_messages` messages.
  pub after_calls-new_store :
      (ttl_seconds max_messages max_sessions interval_seconds now : ℕ) (store : ConversationStore M)
      (calls : List (StoreCall M))
      → new_store M ttl_seconds max_messages max_sessions interval_seconds now ≡ some store
      → Bounded max_messages max_sessions (after_calls calls store).sessions
  after_calls-new_store ttl_seconds max_messages max_sessions interval_seconds now store calls
        made =
      let used = after_calls calls store in
      let bounded = after_calls-IsBounded calls store (
        new_store-IsBounded ttl_seconds max_messages max_sessions interval_seconds now store
          made) in
      let same = after_calls-SameLimits calls store in
      let limits =
        new_store-limits ttl_seconds max_messages max_sessions interval_seconds now store made in
      subst (λ (n : ℕ). Bounded n max_sessions used.sessions) (same.0 ∙ limits.0)
        (subst (λ (n : ℕ). Bounded used.max_messages n used.sessions) (same.1 ∙ limits.1) bounded)
