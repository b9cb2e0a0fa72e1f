-- ===== src/ConversationStore.antt =====
-- src/market_support_crewai_agent/runtime/state/conversation_store.py. Times are microseconds.
-- `state_key_ref` is a digest, and `source_metadata_for_conversation_message` builds a record of
-- runtime/evidence/sources, of a type `M` here: both are parameters.
pub mod View
pub mod Eviction
pub mod Refinement
pub mod Bounds
use market_support_crewai_ag.Prelude.{
  Bool, List, Option, String, [], bool_Eq, if◌then◌else◌, keep, last_n, leb, length, list_Eq, ltb,
  min_by, nat_Eq, none, option_Eq, pair_Eq, some, sort_key_le, string_Eq, suc, triple_Eq, zero, ℕ,
  ◌!=◌, ◌*◌, ◌++◌, ◌+◌, ◌==◌, ◌||◌, ◌∷◌,
}
use market_support_crewai_ag.FrozenMap.{FrozenMap, get, insert, keys, without_keys}
use market_support_crewai_ag.Identity.{
  ConversationStateKey, pair_Repr, scene_Eq, state_key_Eq, state_key_Repr, string_Repr, triple_Repr,
}
use market_support_crewai_ag.Schemas.{execution_type_Eq, reply_kind_Eq, status_Eq}
use market_support_crewai_ag.Text.{codes}

pub data ConversationRole : Type 0 where
  user_role assistant_role : ConversationRole

pub record ConversationMessage (M : Type 0) : Type 0 where
  pub role : ConversationRole
  pub content : String
  pub created_at : ℕ
  pub source_metadata : M

pub record ConversationSession (M : Type 0) : Type 0 where
  pub last_active_at : ℕ
  pub expires_at : ℕ
  pub messages : List (ConversationMessage M)

abbrev pub Sessions : Type 0 → Type 0
Sessions M = FrozenMap ConversationStateKey (ConversationSession M)

pub record ConversationStore (M : Type 0) : Type 0 where
  pub ttl : ℕ
  pub max_messages : ℕ
  pub max_sessions : ℕ
  pub cleanup_interval : ℕ
  pub sessions : Sessions M
  pub next_cleanup_at : ℕ

pub record StoreParameters (M : Type 0) : Type 0 where
  pub state_key_ref : ConversationStateKey → String
  pub source_metadata_for_conversation_message : String → ConversationRole → ℕ → M

abbrev pub microseconds : ℕ
microseconds = 1000000

-- `__init__`, for arguments that are not negative; `none` is the ValueError.
unfoldable pub new_store :
    (M : Type 0) (ttl_seconds max_messages max_sessions cleanup_interval_seconds now : ℕ)
    → Option (ConversationStore M)
new_store M ttl_seconds max_messages max_sessions cleanup_interval_seconds now =
    if ttl_seconds == 0 || (max_messages == 0 || max_sessions == 0)
    then none
    else some (record {
      ttl = ttl_seconds * microseconds;
      max_messages = max_messages;
      max_sessions = max_sessions;
      cleanup_interval = cleanup_interval_seconds * microseconds;
      sessions = [];
      next_cleanup_at = now + cleanup_interval_seconds * microseconds;
    })

module _ {M : Type 0} where
  abbrev pub expired_keys : ℕ → Sessions M → List ConversationStateKey
  expired_keys now sessions = keys (keep (λ e. leb e.1.expires_at now) sessions)

  -- `_cleanup_expired_locked`: the sessions left and the number of those removed
  unfoldable pub cleanup_expired_locked : ℕ → Sessions M → Sessions M × ℕ
  cleanup_expired_locked now sessions =
      (without_keys sessions (expired_keys now sessions), length (expired_keys now sessions))

  unfoldable pub cleanup_if_due_locked : ℕ → ConversationStore M → ConversationStore M
  unfolding cleanup_expired_locked
  cleanup_if_due_locked now store =
      if leb store.next_cleanup_at now
      then record store {
        sessions = (cleanup_expired_locked now store.sessions).0;
        next_cleanup_at = now + store.cleanup_interval;
      }
      else store

  -- `cleanup_expired`
  unfoldable pub cleanup_sessions : ℕ → ConversationStore M → ConversationStore M × ℕ
  unfolding cleanup_expired_locked
  cleanup_sessions now store =
      let (sessions, removed) = cleanup_expired_locked now store.sessions in
      (
        record store { sessions = sessions; next_cleanup_at = now + store.cleanup_interval },
        removed,
      )

  abbrev pub session_count : ConversationStore M → ℕ
  session_count store = length store.sessions

  abbrev pub recent_of :
      ConversationStateKey
      → ℕ
      → ConversationStore M
      → Option (ConversationSession M)
      → List (ConversationMessage M) × ConversationStore M
  recent_of state_key now store none = ([], store)
  recent_of state_key now store (some session) =
      if leb session.expires_at now
      then ([], record store { sessions = without_keys store.sessions (state_key ∷ []) })
      else (session.messages, store)

  unfoldable pub get_recent :
      ConversationStateKey
      → ℕ
      → ConversationStore M
      → List (ConversationMessage M) × ConversationStore M
  unfolding cleanup_if_due_locked
  get_recent state_key now store =
      let cleaned = cleanup_if_due_locked now store in
      recent_of state_key now cleaned (get state_key cleaned.sessions)

  -- the messages of a session that goes on; a new one has none
  abbrev pub live_messages : ℕ → Option (ConversationSession M) → List (ConversationMessage M)
  live_messages now none = []
  live_messages now (some session) = if leb session.expires_at now then [] else session.messages

  abbrev pub trimmed : ℕ → List (ConversationMessage M) → List (ConversationMessage M)
  trimmed max_messages messages =
      if ltb max_messages (length messages) then last_n max_messages messages else messages

  module _ (parameters : StoreParameters M) where
    abbrev message_of : ConversationStateKey → ConversationRole → String → ℕ → ConversationMessage M
    message_of state_key role content now = record {
      role = role;
      content = content;
      created_at = now;
      source_metadata =
          parameters.source_metadata_for_conversation_message (parameters.state_key_ref state_key)
            role now;
    }

    abbrev pub turn_messages :
        ConversationStateKey → String → String → ℕ → List (ConversationMessage M)
    turn_messages state_key user_content assistant_content now =
        message_of state_key user_role user_content now
        ∷ message_of state_key assistant_role assistant_content now
        ∷ []

    -- `key=lambda item: (item[1].last_active_at, state_key_ref(item[0]))`
    unfoldable pub less_active :
        ConversationStateKey × ConversationSession M
        → ConversationStateKey × ConversationSession M
        → Bool
    unfolding codes
    less_active (j, a) (k, b) =
        sort_key_le (a.last_active_at, codes (parameters.state_key_ref j), [])
          (b.last_active_at, codes (parameters.state_key_ref k), [])

    unfoldable pub without_oldest :
        List (ConversationStateKey × ConversationSession M) → Sessions M → Sessions M
    without_oldest [] sessions = sessions
    without_oldest (first ∷ rest) sessions =
        without_keys sessions ((min_by less_active first rest).0 ∷ [])

    -- The `while` of `_enforce_session_cap_locked`, a round for each session. Where only the
    -- preserved session is left the source breaks, and the rounds here change nothing.
    unfoldable pub enforce_session_cap : ℕ → ℕ → ConversationStateKey → Sessions M → Sessions M
    unfolding without_oldest
    enforce_session_cap zero max_sessions preserve_key sessions = sessions
    enforce_session_cap (suc fuel) max_sessions preserve_key sessions =
        let rest =
          enforce_session_cap fuel max_sessions preserve_key
            (without_oldest (keep (λ e. e.0 != preserve_key) sessions) sessions) in
        if ltb max_sessions (length sessions) then rest else sessions

    abbrev pub with_turn :
        ConversationStateKey → String → String → ℕ → ConversationStore M → Sessions M
    with_turn state_key user_content assistant_content now store =
        insert state_key
          (record {
            last_active_at = now;
            expires_at = now + store.ttl;
            messages = trimmed store.max_messages (
                live_messages now (get state_key store.sessions)
                ++ turn_messages state_key user_content assistant_content now);
          })
          store.sessions

    unfoldable pub save_turn :
        ConversationStateKey → String → String → ℕ → ConversationStore M → ConversationStore M
    unfolding cleanup_if_due_locked enforce_session_cap
    save_turn state_key user_content assistant_content now store =
        let cleaned = cleanup_if_due_locked now store in
        let saved = with_turn state_key user_content assistant_content now cleaned in
        record cleaned {
          sessions = enforce_session_cap (length saved) store.max_sessions state_key saved;
        }
