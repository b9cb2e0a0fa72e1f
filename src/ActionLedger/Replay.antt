-- ===== src/ActionLedger/Replay.antt =====
-- Feedback that is recorded twice.
use market_support_crewai_ag.Prelude.{
  All-map, Bool, Bool-cases, List, Option, String, [], ap, arith, bool_Eq, elem, eq_iff, false,
  if_elim, inl, inr, keep, length, length-append, length-keep-le, list_Eq, ltb, nat_Eq, none,
  option_Eq, pair_Eq, refl, some, string_Eq, subst, suc, sym, triple_Eq, true, ℕ, ◌++◌, ◌+◌, ◌-◌,
  ◌==◌, ◌||◌, ◌∷◌, ◌≡◌, ◌≤◌,
}
use market_support_crewai_ag.ActionLedger.{
  ActionLedger, DedupeKey, LedgerRecord, candidates_from, cleaned_with, cleanup_expired_records,
  is_live, new_records, record_candidates, record_feedback, record_keys, stored_unless_empty,
  with_records,
}
use market_support_crewai_ag.ActionLedger.Keys.{
  AllKnown, new_records-keys, new_records-known, new_records-none,
}
use market_support_crewai_ag.Identity.{
  ConversationStateKey, pair_Repr, scene_Eq, state_key_Eq, state_key_Repr, string_Repr, triple_Repr,
}
use market_support_crewai_ag.Schemas.{
  ActionExecutionFeedback, ActionFeedbackRequest, execution_type_Eq, reply_kind_Eq, status_Eq,
}

cleaned_with-none :
    (o : Option ℕ) (now : ℕ) (ledger : ActionLedger)
    → (cleaned_with o now ledger).1 ≡ 0
    → (cleaned_with o now ledger).0 ≡ ledger
cleaned_with-none none now ledger h = refl
cleaned_with-none (some ttl) now ledger h =
    let removed = length ledger.records - length (keep (is_live ttl now) ledger.records) in
    elim (Bool-cases (removed == 0)) [
      | inl nothing ↦ rw nothing refl
      | inr expired ↦ absurd (ground (arith, rw expired at h, eq_iff removed 0, expired))
    ]

cleanup_expired_records-none :
    (now : ℕ) (ledger : ActionLedger)
    → (cleanup_expired_records now ledger).1 ≡ 0
    → (cleanup_expired_records now ledger).0 ≡ ledger
unfolding cleanup_expired_records
cleanup_expired_records-none now ledger h = cleaned_with-none ledger.ttl now ledger h

cleaned_with-le :
    (o : Option ℕ) (now : ℕ) (ledger : ActionLedger)
    → (length (cleaned_with o now ledger).0.records ≤ length ledger.records)
      × ((cleaned_with o now ledger).0.max_records ≡ ledger.max_records)
cleaned_with-le none now ledger = (omega arith, refl)
cleaned_with-le (some ttl) now ledger =
    if_elim
      (λ (x : ActionLedger × ℕ).
        (length x.0.records ≤ length ledger.records) × (x.0.max_records ≡ ledger.max_records))
      _ (ledger, 0) _ (omega arith, refl) (length-keep-le (is_live ttl now) ledger.records, refl)

cleanup_expired_records-le :
    (now : ℕ) (ledger : ActionLedger)
    → (length (cleanup_expired_records now ledger).0.records ≤ length ledger.records)
      × ((cleanup_expired_records now ledger).0.max_records ≡ ledger.max_records)
unfolding cleanup_expired_records
cleanup_expired_records-le now ledger = cleaned_with-le ledger.ttl now ledger

length-new_records-le :
    (candidates : List LedgerRecord) (known_keys : List DedupeKey)
    → length (new_records candidates known_keys).0 ≤ length candidates
unfolding new_records
length-new_records-le [] known_keys = omega arith
length-new_records-le (r ∷ candidates) known_keys = ground (
  arith,
  length-new_records-le candidates known_keys,
  length-new_records-le candidates (r.dedupe_key ∷ known_keys),
)

with_records-keys :
    (ledger : ActionLedger) (records : List LedgerRecord) (known_keys : List DedupeKey)
    → length ledger.records + length records ≤ ledger.max_records
    → (with_records ledger records known_keys).keys ≡ known_keys
unfolding with_records
with_records-keys ledger records known_keys fits =
    let short : ltb ledger.max_records (length (ledger.records ++ records)) ≡ false =
      ground (arith, length-append ledger.records records, fits) in
    rw short refl

left_known : {a b c : Bool} → a ≡ (b || c) → c ≡ false → a ≡ true → b ≡ true
left_known {a} {b} {c} split absent known = ground arith

module _ (f : ConversationStateKey → String) where
  -- what was gone through is known, whether something was stored or not
  stored-known :
      (ledger : ActionLedger) (candidates : List LedgerRecord)
      (new : List LedgerRecord × List DedupeKey)
      → AllKnown candidates new.1
      → (new.0 ≡ [] → AllKnown candidates ledger.keys)
      → length ledger.records + length new.0 ≤ ledger.max_records
      → AllKnown candidates (stored_unless_empty f ledger new).1.keys
  stored-known ledger candidates ([], known_keys) known old fits = old refl
  stored-known ledger candidates (r ∷ records, known_keys) known old fits =
      subst (AllKnown candidates) (sym (with_records-keys ledger (r ∷ records) known_keys fits))
        known

  recorded-known :
      (candidates : List LedgerRecord) (now : ℕ) (ledger : ActionLedger)
      → length ledger.records + length candidates ≤ ledger.max_records
      → AllKnown candidates (record_candidates f candidates now ledger).1.keys
  recorded-known [] now ledger fits = tt
  recorded-known (r ∷ candidates) now ledger fits =
      let cleaned = (cleanup_expired_records now ledger).0 in
      let all = r ∷ candidates in
      let new = new_records all cleaned.keys in
      let known = new_records-known all cleaned.keys in
      let (fewer, limit) = cleanup_expired_records-le now ledger in
      let bound = length-new_records-le all cleaned.keys in
      stored-known cleaned all new known
        (λ nothing.
          All-map _ _
            (λ s after.
              left_known (new_records-keys all cleaned.keys s.dedupe_key)
                (ap (λ (l : List LedgerRecord). elem s.dedupe_key (record_keys l)) nothing) after)
            all known)
        (omega arith)

  -- the keys do not depend on the time of receipt
  candidates-known :
      (feedback : ActionFeedbackRequest) (state_key : ConversationStateKey) (now later index : ℕ)
      (executions : List ActionExecutionFeedback) (known_keys : List DedupeKey)
      → AllKnown (candidates_from f feedback state_key now index executions) known_keys
      → AllKnown (candidates_from f feedback state_key later index executions) known_keys
  unfolding candidates_from
  candidates-known feedback state_key now later index [] known_keys h = tt
  candidates-known feedback state_key now later index (e ∷ executions) known_keys h =
      (h.0, candidates-known feedback state_key now later (index + 1) executions known_keys h.1)

  length-candidates :
      (feedback : ActionFeedbackRequest) (state_key : ConversationStateKey) (now index : ℕ)
      (executions : List ActionExecutionFeedback)
      → length (candidates_from f feedback state_key now index executions) ≡ length executions
  unfolding candidates_from
  length-candidates feedback state_key now index [] = refl
  length-candidates feedback state_key now index (e ∷ executions) =
      ap suc (length-candidates feedback state_key now (index + 1) executions)

  known-again :
      (candidates : List LedgerRecord) (later : ℕ) (ledger : ActionLedger)
      → AllKnown candidates ledger.keys
      → (cleanup_expired_records later ledger).1 ≡ 0
      → record_candidates f candidates later ledger ≡ (0, ledger)
  known-again [] later ledger known fresh = refl
  known-again (r ∷ candidates) later ledger known fresh =
      let all = r ∷ candidates in
      let same = cleanup_expired_records-none later ledger fresh in
      subst (λ (x : ActionLedger). stored_unless_empty f x (new_records all x.keys) ≡ (0, ledger))
        (sym same) (ap (stored_unless_empty f ledger) (new_records-none all ledger.keys known))

  -- Feedback that is recorded again is not stored again: the second call stores nothing and leaves
  -- the ledger, when no record has expired by then and the first call had room for the executions.
  pub record_feedback-again :
      (feedback : ActionFeedbackRequest) (state_key : ConversationStateKey) (now later : ℕ)
      (ledger : ActionLedger)
      → length ledger.records + length feedback.executions ≤ ledger.max_records
      → (cleanup_expired_records later (record_feedback f feedback state_key now ledger).1).1 ≡ 0
      → record_feedback f feedback state_key later
          (record_feedback f feedback state_key now ledger).1
        ≡ (0, (record_feedback f feedback state_key now ledger).1)
  unfolding record_feedback
  record_feedback-again feedback state_key now later ledger room fresh =
      let candidates = candidates_from f feedback state_key now 0 feedback.executions in
      let size = length-candidates feedback state_key now 0 feedback.executions in
      let stored = (record_candidates f candidates now ledger).1 in
      known-again (candidates_from f feedback state_key later 0 feedback.executions) later stored
        (candidates-known feedback state_key now later 0 feedback.executions stored.keys
          (recorded-known candidates now ledger (omega arith)))
        fresh
