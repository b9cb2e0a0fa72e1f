-- ===== src/Lib.antt =====
-- A model of the market-support agent's runtime, above all of its reply state: the coordinator that
-- reserves, commits and replays replies, takes feedback on their effects, and keeps both within
-- capacities and retentions. The code is src/market_support_crewai_agent/runtime/state/ of the
-- repository (below: state/), and single modules beside it.
--
-- The parts and how they interact. The coordinator (state/transaction_coordinator.py) holds one
-- immutable root. Each public method reads clocks and random tokens, computes a candidate root from
-- the current one by a pure function, and publishes it: the candidate is bounded, its orders are
-- computed, it is validated, and it replaces the root. An exception before that leaves the root.
--
--   Prelude: lists, Boolean tests, decidable equality (class Eq), sorting, as Python has them.
--   FrozenMap: state/persistent_map.py, a list of pairs in insertion order.
--   Text: the JSON and repr texts that order keys. Errors: state/coordinator_errors.py; code that
--     may raise returns a Result.
--   Identity: ConversationStateKey (runtime/identity/models.py, state_key.py).
--   Schemas: the reply and feedback data of src/market_support_crewai_agent/schemas/;
--     Schemas.Feedback: the validators of the executions of a feedback (schemas/feedback.py).
--   Audit, with children Labels, Validation and Build: the audit records and their checks
--     (state/audit_*.py, state/coordinator_audit.py).
--   Records: the record types of conversations, effects and transactions.
--   Root: state/coordinator_state.py; Root.Orders: state/coordinator_root_orders.py;
--     Root.Validation: the checks of a root (_validate_root); Root.Ordered: what they say of the
--     orders.
--   Coordinator, with a child for each module state/coordinator_*.py: Config, Hashing (the digests,
--     an argument), Retention, Ledger, Reservations, Effects, ReplyCommit, Feedback, Cleanup, and
--     Transactions, the methods of the coordinator.
--   Coordinator.Validity: the invariant behind the validation, across the operations;
--     Coordinator.Consistency: the stronger one that evictions, cleanups and feedback need, and the
--     sequences of calls.
--   ConversationStore: state/conversation_store.py, and what it remembers.
--   ActionLedger: state/action_ledger.py.
--   Alignment: the loop of runtime/validation/alignment_loop.py, which asks for verdicts on a
--     candidate reply and remedies it, with children Postconditions (alignment_postconditions.py),
--     Loop, Rounds and Termination.
--   Retry: runtime/integrations/crewai/retry.py. DocumentCache: the cache of
--     runtime/integrations/document_mcp/cache.py.
--   Samples and Tests: a root with a pending and an answered request, and the theorems applied
--     to it.
--
-- State and operations. A dict and a FrozenMapV1 are association lists; a frozenset of keys is a
-- list read by membership. The thirteen order fields of the root stand in one record. Numbers are
-- non-negative integers; the epoch -1 of a session without turns is `none`. What a call reads from
-- clocks, `secrets` and `uuid4` is an argument (Readings, CallInputs). A method is a state
-- transformer on the coordinator that returns a value or an error; the lock of the code makes the
-- methods a sequence of such transformers.
--
-- Fuel. The loop of `enforce_session_capacity` is given one round for each session, that of
-- `_enforce_inactive_record_capacities` one for each ledger row; each round removes one. So it is
-- for the sessions of the conversation store. The alignment loop is given a number of rounds, and
-- ends within three.
--
-- Not modelled: SHA-256 (the three digests are an argument), pydantic's validation of requests
-- before they reach the coordinator (but for the executions of a feedback), the provider's
-- process-wide instance, and the other packages of the agent (planning, policy, evidence, recall,
-- prompts, rendering, integrations, server), which call the coordinator. The remediator of the alignment loop calls models and is a parameter,
-- as are the digest and the bytes of a plan; the delays between retries are left out.
pub mod Prelude
pub mod FrozenMap
pub mod Text
pub mod Errors
pub mod Identity
pub mod Schemas
pub mod Audit
pub mod Records
pub mod Root
pub mod Coordinator
pub mod ConversationStore
pub mod ActionLedger
pub mod Alignment
pub mod Retry
pub mod DocumentCache
pub mod Samples
pub mod Tests
