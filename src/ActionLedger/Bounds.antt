-- ===== src/ActionLedger/Bounds.antt =====
-- The bounds of the ledger and the agreement of its keys with its records.
use market_support_crewai_ag.Prelude.{
  All-map, Bool, Bool-cases, List, Option, String, [], ap, arith, bool_Eq, elem, if_elim, inl, inr,
  last_n, length, length-keep-le, length-last_n-le, list_Eq, ltb, nat_Eq, none, option_Eq, pair_Eq,
  refl, some, string_Eq, subst, suc, sym, triple_Eq, zero, ℕ, ◌&&◌, ◌++◌, ◌-◌, ◌==◌, ◌||◌, ◌∙◌, ◌∷◌,
  ◌≡◌, ◌≤◌,
}
use market_support_crewai_ag.ActionLedger.{
  ActionLedger, DedupeKey, LedgerRecord, by_context_id, candidates_from, cleaned_with,
  cleanup_expired_records, clear_records, count_records, is_live, matching_records, new_ledger,
  new_records, recent_executed_for_conversation, recent_for_conversation, record_candidates,
  record_feedback, record_keys, stored_unless_empty, with_records,
}
use market_support_crewai_ag.ActionLedger.Keys.{
  KeysDiffer, KeysDiffer-append, KeysDiffer-drop, KeysDiffer-keep, SameKeys, elem-append,
  new_records-KeysDiffer, new_records-apart, new_records-keys, record_keys-append,
}
use market_support_crewai_ag.Errors.{some-injective}
use market_support_crewai_ag.Identity.{
  ConversationStateKey, pair_Repr, scene_Eq, state_key_Eq, state_key_Repr, string_Repr, triple_Repr,
}
use market_support_crewai_ag.Schemas.{
  ActionFeedbackRequest, executed, execution_type_Eq, reply_kind_Eq, status_Eq,
}

pub record Sound (max_records : ℕ) (ledger : ActionLedger) : Type 0 where
  pub limit : ledger.max_records ≡ max_records
  pub few : length ledger.records ≤ max_records
  pub same : SameKeys ledger.keys ledger.records
  pub differ : KeysDiffer ledger.records

-- the calls of a ledger; each but `clear` at a time
pub data LedgerCall : Type 0 where
  recorded_feedback : ActionFeedbackRequest → ConversationStateKey → ℕ → LedgerCall
  looked_up_recent : ConversationStateKey → ℕ → ℕ → LedgerCall
  looked_up_executed : ConversationStateKey → ℕ → ℕ → LedgerCall
  looked_up_context : String → ℕ → LedgerCall
  counted_records : ℕ → LedgerCall
  cleaned_up_records : ℕ → LedgerCall
  cleared_records : LedgerCall

cleaned_with-Sound :
    (n : ℕ) (o : Option ℕ) (now : ℕ) (ledger : ActionLedger)
    → Sound n ledger
    → Sound n (cleaned_with o now ledger).0
cleaned_with-Sound n none now ledger h = h
cleaned_with-Sound n (some ttl) now ledger h =
    if_elim (λ (x : ActionLedger × ℕ). Sound n x.0) _ (ledger, 0) _ h
      (record {
        limit = h.limit;
        few =
            let fewer = length-keep-le (is_live ttl now) ledger.records in
            let most = h.few in omega arith;
        same = λ k. refl;
        differ = KeysDiffer-keep (is_live ttl now) ledger.records h.differ;
      })

pub cleanup_expired_records-Sound :
    (n now : ℕ) (ledger : ActionLedger)
    → Sound n ledger
    → Sound n (cleanup_expired_records now ledger).0
unfolding cleanup_expired_records
cleanup_expired_records-Sound n now ledger h = cleaned_with-Sound n ledger.ttl now ledger h

SameKeys-append :
    (known_keys : List DedupeKey) (a b : List LedgerRecord)
    → SameKeys known_keys a
    → (k : DedupeKey)
    → (elem k known_keys || elem k (record_keys b)) ≡ elem k (record_keys (a ++ b))
SameKeys-append known_keys a b same k =
    ap (λ (x : Bool). x || elem k (record_keys b)) (same k)
    ∙ sym (elem-append k (record_keys a) (record_keys b))
    ∙ ap (λ (l : List DedupeKey). elem k l) (sym (record_keys-append a b))

with_records-Sound :
    (n : ℕ) (ledger : ActionLedger) (candidates : List LedgerRecord)
    → Sound n ledger
    → Sound n (
        with_records ledger
          (new_records candidates ledger.keys).0
          (new_records candidates ledger.keys).1)
unfolding with_records
with_records-Sound n ledger candidates h =
    let records = (new_records candidates ledger.keys).0 in
    let extended = ledger.records ++ records in
    let apart =
      All-map _ _ (λ s absent. sym (h.same s.dedupe_key) ∙ absent) records
        (new_records-apart candidates ledger.keys) in
    let differ : KeysDiffer extended =
      KeysDiffer-append ledger.records records h.differ
        (new_records-KeysDiffer candidates ledger.keys) apart in
    elim (Bool-cases (ltb ledger.max_records (length extended))) [
      | inl long ↦ rw long (record {
        limit = h.limit;
        few =
            subst (λ (m : ℕ). length (last_n ledger.max_records extended) ≤ m) h.limit
              (length-last_n-le ledger.max_records extended);
        same = λ k. refl;
        differ = KeysDiffer-drop (length extended - ledger.max_records) extended differ;
      })
      | inr fits ↦ rw fits (record {
        limit = h.limit;
        few = ground (arith, fits, h.limit);
        same = λ k.
            new_records-keys candidates ledger.keys k
            ∙ SameKeys-append ledger.keys ledger.records records h.same k;
        differ = differ;
      })
    ]

stored_unless_empty-Sound :
    (f : ConversationStateKey → String) (n : ℕ) (ledger : ActionLedger)
    (new : List LedgerRecord × List DedupeKey)
    → Sound n ledger
    → Sound n (with_records ledger new.0 new.1)
    → Sound n (stored_unless_empty f ledger new).1
stored_unless_empty-Sound f n ledger ([], known_keys) h stored = h
stored_unless_empty-Sound f n ledger (r ∷ records, known_keys) h stored = stored

record_candidates-Sound :
    (f : ConversationStateKey → String) (n : ℕ) (candidates : List LedgerRecord) (now : ℕ)
    (ledger : ActionLedger)
    → Sound n ledger
    → Sound n (record_candidates f candidates now ledger).1
record_candidates-Sound f n [] now ledger h = h
record_candidates-Sound f n (r ∷ candidates) now ledger h =
    let cleaned = (cleanup_expired_records now ledger).0 in
    let kept = cleanup_expired_records-Sound n now ledger h in
    stored_unless_empty-Sound f n cleaned (new_records (r ∷ candidates) cleaned.keys) kept
      (with_records-Sound n cleaned (r ∷ candidates) kept)

matching_records-Sound :
    (n : ℕ) (test : LedgerRecord → Bool) (limit now : ℕ) (ledger : ActionLedger)
    → Sound n ledger
    → Sound n (matching_records test limit now ledger).1
matching_records-Sound n test zero now ledger h = h
matching_records-Sound n test (suc limit) now ledger h =
    cleanup_expired_records-Sound n now ledger h

module _ (f : ConversationStateKey → String) where
  abbrev pub after_ledger_call : LedgerCall → ActionLedger → ActionLedger
  after_ledger_call (recorded_feedback feedback state_key now) ledger =
      (record_feedback f feedback state_key now ledger).1
  after_ledger_call (looked_up_recent state_key limit now) ledger =
      (recent_for_conversation state_key limit now ledger).1
  after_ledger_call (looked_up_executed state_key limit now) ledger =
      (recent_executed_for_conversation state_key limit now ledger).1
  after_ledger_call (looked_up_context context_id now) ledger =
      (by_context_id context_id now ledger).1
  after_ledger_call (counted_records now) ledger = (count_records now ledger).1
  after_ledger_call (cleaned_up_records now) ledger = (cleanup_expired_records now ledger).0
  after_ledger_call cleared_records ledger = clear_records ledger

  abbrev pub after_ledger_calls : List LedgerCall → ActionLedger → ActionLedger
  after_ledger_calls [] ledger = ledger
  after_ledger_calls (call ∷ calls) ledger =
      after_ledger_calls calls (after_ledger_call call ledger)

  pub after_ledger_call-Sound :
      (n : ℕ) (call : LedgerCall) (ledger : ActionLedger)
      → Sound n ledger
      → Sound n (after_ledger_call call ledger)
  unfolding record_feedback recent_for_conversation recent_executed_for_conversation by_context_id
      count_records clear_records
  after_ledger_call-Sound n (recorded_feedback feedback state_key now) ledger h =
      record_candidates-Sound f n (candidates_from f feedback state_key now 0 feedback.executions)
        now ledger h
  after_ledger_call-Sound n (looked_up_recent state_key limit now) ledger h =
      matching_records-Sound n (λ r. r.state_key == state_key) limit now ledger h
  after_ledger_call-Sound n (looked_up_executed state_key limit now) ledger h =
      matching_records-Sound n (λ r. r.state_key == state_key && r.execution.status == executed)
        limit now ledger h
  after_ledger_call-Sound n (looked_up_context context_id now) ledger h =
      cleanup_expired_records-Sound n now ledger h
  after_ledger_call-Sound n (counted_records now) ledger h =
      cleanup_expired_records-Sound n now ledger h
  after_ledger_call-Sound n (cleaned_up_records now) ledger h =
      cleanup_expired_records-Sound n now ledger h
  after_ledger_call-Sound n cleared_records ledger h = record {
    limit = h.limit;
    few = omega arith;
    same = λ k. refl;
    differ = tt;
  }

  after_ledger_calls-Sound :
      (n : ℕ) (calls : List LedgerCall) (ledger : ActionLedger)
      → Sound n ledger
      → Sound n (after_ledger_calls calls ledger)
  after_ledger_calls-Sound n [] ledger h = h
  after_ledger_calls-Sound n (call ∷ calls) ledger h =
      after_ledger_calls-Sound n calls (after_ledger_call call ledger)
        (after_ledger_call-Sound n call ledger h)

  -- A ledger that was made and used, whatever the calls and their times, has at most `max_records`
  -- records, no two with the same key, and its set of keys is the set of its records' keys.
  pub after_ledger_calls-new_ledger :
      (max_records : ℕ) (ttl_seconds : Option ℕ) (ledger : ActionLedger) (calls : List LedgerCall)
      → new_ledger max_records ttl_seconds ≡ some ledger
      → Sound max_records (after_ledger_calls calls ledger)
  unfolding new_ledger
  after_ledger_calls-new_ledger max_records ttl_seconds ledger calls made =
      elim (Bool-cases (max_records == 0 || ttl_seconds == some 0)) [
        | inl refused ↦ absurd (ground (arith, refused, made))
        | inr accepted ↦ after_ledger_calls-Sound max_records calls ledger (
            subst (Sound max_records) (some-injective (rw accepted at made))
              (record { limit = refl; few = omega arith; same = λ k. refl; differ = tt }))
      ]
