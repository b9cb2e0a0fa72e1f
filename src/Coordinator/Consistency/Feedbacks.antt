-- ===== src/Coordinator/Consistency/Feedbacks.antt =====
-- The invariant across feedback: its preparation, its commit and the drop of a token
-- (coordinator_feedback.py).
use market_support_crewai_ag.Prelude.{
  All-map, Bool, Bool-cases, List, Option, Option-cases, String, [], arith, bool_Eq, eq_iff, inl,
  inr, list_Eq, nat_Eq, none, option_Eq, pair_Eq, refl, some, string_Eq, subst, sym, triple_Eq,
  true, ℕ, ◌==◌, ◌∷◌, ◌≡◌,
}
use market_support_crewai_ag.Coordinator.Config.{CoordinatorConfig}
use market_support_crewai_ag.Coordinator.Consistency.{Consistent, IsConsistent, is_listed}
use market_support_crewai_ag.Coordinator.Effects.{apply_effect_transitions, apply_transition}
use market_support_crewai_ag.Coordinator.Feedback.{
  commit_feedback_candidate, fed_back_root, lookup, with_feedback,
}
use market_support_crewai_ag.Coordinator.Feedback.Commits.{commit_feedback_candidate-some}
use market_support_crewai_ag.Coordinator.Feedback.Isolation.{found_at}
use market_support_crewai_ag.Coordinator.Hashing.{Hashing}
use market_support_crewai_ag.Coordinator.Ledger.{transition_for}
use market_support_crewai_ag.Coordinator.Validity.{key-of_complete}
use market_support_crewai_ag.Errors.{ok}
use market_support_crewai_ag.FrozenMap.{get, insert}
use market_support_crewai_ag.FrozenMap.Distinct.{Distinct-insert}
use market_support_crewai_ag.FrozenMap.Laws.{All-get, All-insert, get-insert}
use market_support_crewai_ag.Identity.{
  pair_Repr, scene_Eq, state_key_Eq, state_key_Repr, string_Repr, triple_Repr,
}
use market_support_crewai_ag.Records.{
  CompleteIssuedResponseRecord, FeedbackCommitResult, IssuedEffect, IssuedResponseRecord,
  PreparedEffectTransition, PreparedFeedback, complete, issued_found,
}
use market_support_crewai_ag.Root.{ActionKey, CoordinatorStateRoot, IssuedKey}
use market_support_crewai_ag.Root.Validation.{
  Issued, action_entry_valid, action_target_valid, effect_has_action, find_effect, is_complete_for,
  is_complete_with_effect, is_pending_for,
}
use market_support_crewai_ag.Schemas.{execution_type_Eq, reply_kind_Eq, status_Eq}

-- what the action index asks of an effect list is what it asks once transitions are applied
effect_has_action-apply_transition :
    (action_id : String) (t : Option PreparedEffectTransition) (e : IssuedEffect)
    → effect_has_action action_id (some (apply_transition t e))
      ≡ effect_has_action action_id (some e)
unfolding apply_transition
effect_has_action-apply_transition action_id none e = refl
effect_has_action-apply_transition action_id (some t) e = ground arith

effect_key-apply_transition :
    (t : Option PreparedEffectTransition) (e : IssuedEffect)
    → (apply_transition t e).effect_key ≡ e.effect_key
unfolding apply_transition
effect_key-apply_transition none e = refl
effect_key-apply_transition (some t) e = ground arith

find_effect-apply_effect_transitions :
    (action_id effect_key : String) (effects : List IssuedEffect)
    (transitions : List PreparedEffectTransition)
    → effect_has_action action_id
        (find_effect effect_key (apply_effect_transitions effects transitions))
      ≡ effect_has_action action_id (find_effect effect_key effects)
unfolding apply_effect_transitions
find_effect-apply_effect_transitions action_id effect_key [] transitions = refl
find_effect-apply_effect_transitions action_id effect_key (e ∷ rest) transitions =
    let t = transition_for e.effect_key transitions in
    rw (effect_key-apply_transition t e) (elim (Bool-cases (e.effect_key == effect_key)) [
      | inl here ↦ rw here (effect_has_action-apply_transition action_id t e)
      | inr there ↦
          rw there (find_effect-apply_effect_transitions action_id effect_key rest transitions)
    ])

-- a test that the new value passes where the overwritten one did is passed by all that passed it
test-insert_keeps :
    (test : Option IssuedResponseRecord → Bool) (j k : IssuedKey) (w : IssuedResponseRecord)
    (m : Issued)
    → (test (get k m) ≡ true → test (some w) ≡ true)
    → test (get j m) ≡ true
    → test (get j (insert k w m)) ≡ true
test-insert_keeps test j k w m keeps passed = elim (Bool-cases (j == k)) [
  | inl same ↦
      let equal = (eq_iff j k).0 same in
      let at_k : test (get k m) ≡ true = rw (sym equal) passed in
      rw get-insert (rw same (keeps at_k))
  | inr apart ↦ rw get-insert (rw apart passed)
]

-- `p` names the request of the response that it is about, as the lookup finds it
abbrev pub NamesRequest : CoordinatorStateRoot → PreparedFeedback → Type 0
NamesRequest root p =
    (r : CompleteIssuedResponseRecord)
    → lookup root p.state_key p.response_id ≡ issued_found r
    → r.request_id ≡ p.request_id

-- a complete record is replaced by one with the same identity, response and actions
module _ (root : CoordinatorStateRoot) (h : IsConsistent root) (key : IssuedKey)
    (r r' : CompleteIssuedResponseRecord) (found : get key root.issued_records ≡ some (complete r))
    (own_state : r'.state_key ≡ r.state_key) (own_request : r'.request_id ≡ r.request_id)
    (own_response : r'.response ≡ r.response)
    (own_actions : (action_id effect_key : String)
      → effect_has_action action_id (find_effect effect_key r'.effects)
        ≡ effect_has_action action_id (find_effect effect_key r.effects)) where
  abbrev issued' : Issued
  issued' = insert key (complete r') root.issued_records

  kept :
      (test : Option IssuedResponseRecord → Bool) (j : IssuedKey)
      → (test (some (complete r)) ≡ true → test (some (complete r')) ≡ true)
      → test (get j root.issued_records) ≡ true
      → test (get j issued') ≡ true
  kept test j passes passed =
      test-insert_keeps test j key (complete r') root.issued_records
        (λ before. passes (rw (sym found) before)) passed

  action_kept :
      (e : String × ActionKey)
      → action_entry_valid root.issued_records root.response_index e ≡ true
      → action_entry_valid issued' root.response_index e ≡ true
  action_kept (action_id, (state_key, response_id, effect_key)) valid =
      elim (Option-cases (get response_id root.response_index)) [
        | inl absent ↦ absurd (ground (arith, absent, valid))
        | inr (j, at) ↦
            let target : action_target_valid root.issued_records action_id state_key effect_key
                  (some j)
                ≡ true =
              rw at at valid in
            let leads =
              kept (is_complete_with_effect action_id effect_key) j
                (λ before. rw own_actions before) (ground arith) in
            rw at (ground (arith, target, leads))
      ]

  pub replaced-Consistent :
      Consistent issued' root.pending_request_by_state root.response_index root.action_index
  replaced-Consistent =
      let same = key-of_complete h.indexed key r found in
      record {
        indexed = record {
          pending_valid =
              All-map _ _ (λ e valid. kept (is_pending_for e.0) e.1 (λ no. absurd (cc)) valid)
                root.pending_request_by_state h.indexed.pending_valid;
          responses_valid =
              All-map _ _
                (λ e valid. kept (is_complete_for e.0) e.1 (λ before. rw own_response before) valid)
                root.response_index h.indexed.responses_valid;
          actions_valid = All-map _ _ action_kept root.action_index h.indexed.actions_valid;
          keys_valid =
              All-insert _ key (complete r') root.issued_records
                (ground (
                  arith,
                  eq_iff r'.state_key key.0,
                  eq_iff r'.request_id key.1,
                  own_state,
                  own_request,
                  same,
                ))
                h.indexed.keys_valid;
        };
        distinct = Distinct-insert key _ root.issued_records h.distinct;
        listed =
            All-insert _ key (complete r') root.issued_records
              (rw own_response (
                All-get (λ e. is_listed root.response_index e ≡ true) key root.issued_records
                  h.listed found))
              h.listed;
      }

-- A commit of feedback that succeeds keeps the root consistent, when the prepared feedback names
-- the request of the response it is about, which the code does not check.
pub commit_feedback_candidate-IsConsistent :
    (hashing : Hashing) (p : PreparedFeedback) (now_ns now_ms : ℕ) (config : CoordinatorConfig)
    (root candidate : CoordinatorStateRoot) (result : FeedbackCommitResult)
    → IsConsistent root
    → NamesRequest root p
    → commit_feedback_candidate hashing p now_ns now_ms config root ≡ ok (candidate, result)
    → IsConsistent candidate
unfolding fed_back_root with_feedback
commit_feedback_candidate-IsConsistent hashing p now_ns now_ms config root candidate result h names
      done =
    let (issued, revision, (found, _), built, _) =
      commit_feedback_candidate-some hashing p now_ns now_ms config root candidate result done in
    let (key, (_, own_state, at_key)) = found_at root p.state_key p.response_id issued found in
    let own = key-of_complete h.indexed key issued at_key in
    let own_key : key ≡ (p.state_key, p.request_id) =
      ground (arith, own, own_state, names issued found) in
    let at : get (p.state_key, p.request_id) root.issued_records ≡ some (complete issued) =
      rw (sym own_key) at_key in
    subst IsConsistent built (
      replaced-Consistent root h (p.state_key, p.request_id) issued
        (with_feedback hashing p now_ns now_ms config issued) at refl refl refl
        (λ action_id effect_key.
          find_effect-apply_effect_transitions action_id effect_key issued.effects p.transitions))
