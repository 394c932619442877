-- ===== src/Protocol/Ledger/Guards.antt =====
-- What the ledger's handlers ask of the phases: that an admitted or dispatched call is the one that
-- the phase has prepared (`admit_model_call`, `start_provider_dispatch` and `reconcile_model_call`
-- in src/execution_protocol/reducer.rs).
use Prim.Native.Char.{code}
use Prim.Native.String.{[] as empty_text, ◌∷◌ as text_cons}
use rustgrid_agent.Prelude.{
  ℕ, String, Bool, true, false, not, ◌&&◌, ◌||◌, Option, none, some, List, [], ◌∷◌, ◌==◌, nat_eq,
  leb, any, ◌⊎◌, inl, inr, is_some, is_some_and, if◌then◌else◌,
}
use rustgrid_agent.Map.{values}
use rustgrid_agent.Protocol.Stage.{NodeKind}
use rustgrid_agent.Protocol.Violation.{
  ProtocolViolation, Result, ok, err, discovery_contract, planning_contract, mutation_contract,
  validation_contract, review_contract, reject_if, ok_or, ◌>>=◌, ◌>>◌,
}
use rustgrid_agent.Protocol.Model.{
  ModelCallAdmission, ModelCallState, ExecutionNode, ExecutionState, PreparedAction,
  PreparedMutation, LoggedEvent, ReviewState, admission_eq,
}

-- `char::is_whitespace`
unfoldable pub is_whitespace : ℕ → Bool
is_whitespace c =
    leb 9 c && leb c 13
    || nat_eq c 32
    || nat_eq c 0x85
    || nat_eq c 0xA0
    || nat_eq c 0x1680
    || leb 0x2000 c && leb c 0x200A
    || nat_eq c 0x2028
    || nat_eq c 0x2029
    || nat_eq c 0x202F
    || nat_eq c 0x205F
    || nat_eq c 0x3000

-- `value.trim().is_empty()`
unfoldable pub trim_is_empty : String → Bool
trim_is_empty empty_text = true
trim_is_empty (text_cons c s) = is_whitespace (code c) && trim_is_empty s

-- The last prepared mutation action for the call: the log is read from its end.
unfoldable pub prepared_mutation_for : String → List LoggedEvent → Option PreparedMutation
prepared_mutation_for call_id [] = none
prepared_mutation_for call_id (LoggedEvent.mutation_prepared p ∷ log) =
    let rest = prepared_mutation_for call_id log in
    if is_some rest then rest else if p.admission.call_id == call_id then some p else none
prepared_mutation_for call_id (_ ∷ log) = prepared_mutation_for call_id log

-- Some logged preparation is for this call and this attempt.
unfoldable pub logged_for_attempt : String → String → List LoggedEvent → Bool
logged_for_attempt call_id attempt_id [] = false
logged_for_attempt call_id attempt_id (LoggedEvent.mutation_prepared p ∷ log) =
    p.admission.call_id == call_id && p.policy_attempt_id == attempt_id
    || logged_for_attempt call_id attempt_id log
logged_for_attempt call_id attempt_id (_ ∷ log) = logged_for_attempt call_id attempt_id log

abbrev pub is_consumed : ModelCallState → Bool
is_consumed (ModelCallState.reconciled_consumed actual_cost_micros duration_ms) = true
is_consumed _ = false

unfoldable pub attempt_already_consumed : Option PreparedMutation → ExecutionState → Bool
attempt_already_consumed none st = false
attempt_already_consumed (some p) st =
    any
      (λ existing.
        is_consumed existing.state
        && logged_for_attempt existing.admission.call_id p.policy_attempt_id st.event_log)
      (values st.budgets.model_calls)

unfoldable pub matches_prepared :
    Option PreparedAction
    → ModelCallAdmission
    → ProtocolViolation
    → ProtocolViolation
    → Result (Unit {0})
matches_prepared current admission missing mismatch = do
  prepared ← ok_or current missing
  reject_if (not (admission_eq prepared.admission admission)) mismatch
  ok tt

unfoldable pub mutation_admission : NodeKind → ProtocolViolation
mutation_admission NodeKind.validation_repair =
    validation_contract "repair_model_call_without_authoritative_action"
mutation_admission _ = mutation_contract "mutation_call_without_prepared_action"

unfoldable pub mutation_guard :
    ExecutionState → ExecutionNode → ModelCallAdmission → Result (Unit {0})
mutation_guard st node admission =
    if is_some st.implementation || is_some st.validation
    then (do
      prepared ←
          ok_or (prepared_mutation_for admission.call_id st.event_log)
            (mutation_admission node.kind)
      reject_if (not (admission_eq prepared.admission admission))
          (mutation_contract "mutation_call_does_not_match_prepared_admission")
      ok tt)
    else ok tt

unfoldable pub review_guard : Option ReviewState → ModelCallAdmission → Result (Unit {0})
review_guard none admission = ok tt
review_guard (some review) admission =
    matches_prepared review.current_action admission
      (review_contract "review_call_without_prepared_action")
      (review_contract "review_call_does_not_match_prepared_admission")

-- The four tests by the kind of the node.
unfoldable pub guards_by_kind :
    NodeKind → ExecutionState → ExecutionNode → ModelCallAdmission → Result (Unit {0})
guards_by_kind NodeKind.discovery st node admission =
    if is_some st.repository_profile
    then matches_prepared st.current_discovery_action admission
        (discovery_contract "discovery_call_without_prepared_action")
        (discovery_contract "discovery_call_does_not_match_prepared_admission")
    else ok tt
guards_by_kind NodeKind.planning st node admission =
    if is_some st.planning
    then matches_prepared st.current_planning_action admission
        (planning_contract "planning_call_without_prepared_action")
        (planning_contract "planning_call_does_not_match_prepared_admission")
    else ok tt
guards_by_kind NodeKind.implementation st node admission = mutation_guard st node admission
guards_by_kind NodeKind.validation_repair st node admission = mutation_guard st node admission
guards_by_kind NodeKind.review st node admission = review_guard st.review admission
guards_by_kind NodeKind.completion_evaluation st node admission = review_guard st.review admission
guards_by_kind _ st node admission = ok tt

unfoldable pub admission_guards :
    ExecutionState → ExecutionNode → ModelCallAdmission → Result (Unit {0})
unfolding guards_by_kind
admission_guards st node admission = guards_by_kind node.kind st node admission

-- An action that is prepared for this call must carry the dispatched payload.
unfoldable pub payload_mismatch : Option PreparedAction → String → String → Bool
payload_mismatch current call_id payload_hash = is_some_and current λ prepared.
    prepared.admission.call_id == call_id
    && (not (prepared.payload_identity == payload_hash)
        || not (prepared.admission.payload_hash == payload_hash))

-- The `?` on a result whose error becomes a violation.
abbrev pub returned : ProtocolViolation ⊎ String → Result String
returned (inl e) = err e
returned (inr hash) = ok hash

unfoldable pub mutation_dispatch_guard :
    Option PreparedMutation → String → String → Result (Unit {0})
mutation_dispatch_guard none call_id payload_hash = ok tt
mutation_dispatch_guard (some prepared) call_id payload_hash = do
  hash ← returned prepared.request_payload_hash
  reject_if
      (not (hash == payload_hash)
        || not (prepared.admission.payload_hash == payload_hash)
        || not (prepared.request_call_id == call_id))
      (mutation_contract "serialized_mutation_payload_mismatch")
  ok tt

abbrev pub review_action : Option ReviewState → Option PreparedAction
review_action none = none
review_action (some review) = review.current_action

unfoldable pub review_payload_mismatch : Option PreparedAction → String → String → Bool
review_payload_mismatch current call_id payload_hash = is_some_and current λ prepared.
    prepared.admission.call_id == call_id
    && (not (prepared.payload_identity == payload_hash)
        || not (prepared.admission.payload_hash == payload_hash)
        || not (prepared.envelope_call_id == call_id))

unfoldable pub dispatch_guards : ExecutionState → String → String → Result (Unit {0})
dispatch_guards st call_id payload_hash = do
  reject_if (payload_mismatch st.current_discovery_action call_id payload_hash)
      (discovery_contract "serialized_discovery_payload_mismatch")
  reject_if (payload_mismatch st.current_planning_action call_id payload_hash)
      (planning_contract "serialized_planning_payload_mismatch")
  mutation_dispatch_guard (prepared_mutation_for call_id st.event_log) call_id payload_hash
  reject_if (review_payload_mismatch (review_action st.review) call_id payload_hash)
      (review_contract "serialized_review_payload_mismatch")
  ok tt
