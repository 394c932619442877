-- ===== src/Examples/Store.antt =====
-- An event store whose payloads are numbers to add.
use rustgrid_agent.Prelude.{
  ℕ, ◌+◌, String, ◌≡◌, refl, ap, ◌∙◌, ◌↔◌, Bool, true, false, none, some, [], ◌∷◌, arith, ◌==◌,
  eq_iff, nat_eq, ltb, Bool-cases, inl, inr,
}
use rustgrid_agent.Words.{saturating_add_u64}
use rustgrid_agent.Map.{get, insert, contains_key}
use rustgrid_agent.Protocol.Violation.{ok, err, invariant, revision_conflict, reject_if, ◌>>=◌}
use rustgrid_agent.Protocol.Ledger.Guards.{is_whitespace, trim_is_empty}
use rustgrid_agent.Protocol.EventLog.Identity.{
  validate_wire_identity, byte_length, starts_with_space, ends_with_space, has_control,
}
use rustgrid_agent.Protocol.EventLog.{
  EffectObservationBinding, ProtocolEventContext, ProtocolEventEnvelope, Aggregate, AppendOutcome,
  Reducers, next_sequence, require_trusted_bootstrap, validate_intrinsic_context,
  validate_context_against_state, validate_context_against, expected_semantic_identity,
  expected_event_id, check_semantic_identity, validate_event_envelope, commit, apply_new,
  append_event,
}
use rustgrid_agent.Protocol.EventLog.Accept.{IsFramed}
use rustgrid_agent.Protocol.EventLog.Numbering.{is_numbered, IsLogged, append_event-IsLogged}
use rustgrid_agent.Protocol.EventLog.Repeat.{rival_refused}
use rustgrid_agent.Protocol.EventLog.Later.{Later, append_event-Later}
use rustgrid_agent.Protocol.EventStore.{
  StoreParts, InMemoryEventStore, with_trust, validate_pristine_bootstrap, new, restore, append,
}
use rustgrid_agent.Protocol.EventStore.Replay.{
  IsFaithful, IsReplayed, Reached, Reached-IsReplayed, append-append_event, restore-IsReplayed,
  restore_reached,
}

text-discrete : Discrete String
text-discrete a b = elim (Bool-cases (a == b)) [
  | inl e ↦ yes ((eq_iff a b).0 e)
  | inr e ↦ no (λ q. ground (arith, eq_iff a b))
]

number-discrete : Discrete ℕ
number-discrete a b = elim (Bool-cases (nat_eq a b)) [
  | inl e ↦ yes (ground arith)
  | inr e ↦ no (λ q. ground arith)
]

binding-discrete : Discrete EffectObservationBinding
binding-discrete = hlevel (text-discrete, number-discrete)

context-discrete : Discrete ProtocolEventContext
context-discrete = hlevel (text-discrete, number-discrete)

envelope-discrete : Discrete (ProtocolEventEnvelope ℕ)
envelope-discrete = hlevel (text-discrete, number-discrete)

aggregate-discrete : Discrete (Aggregate ℕ ℕ)
aggregate-discrete = hlevel (text-discrete, number-discrete)

abbrev same : Aggregate ℕ ℕ → Aggregate ℕ ℕ → Bool
same a b = elim (aggregate-discrete a b) [ yes _ ↦ true | no _ ↦ false ]

same_exact : (a b : Aggregate ℕ ℕ) → (same a b ≡ true) ↔ (a ≡ b)
same_exact a b = ground (arith, aggregate-discrete a b)

-- A number is added; the sum stays below a hundred. The names of the events stand for their hashes.
abbrev adding : Reducers ℕ ℕ
adding = record {
  canonical_hash = λ e. ok e.semantic_identity;
  semantic_identity = λ key context p. ok key;
  derive_event_id = λ execution attempt identity. identity;
  expected_node_owner = λ st p. none;
  has_node = λ st n. false;
  payload_adds_node = λ p n. false;
  progress_guards = λ st p. ok tt;
  apply_payload = λ p st. ok (record st { body = st.body + p });
  validate_invariants = λ st. reject_if (ltb 99 st.body) (invariant "sum");
}

abbrev blank : Aggregate ℕ ℕ → Aggregate ℕ ℕ
blank st = record st {
  trusted_bootstrap = true;
  aggregate_revision = 0;
  terminal = false;
  event_log = [];
  event_payload_hashes = [];
  body = 0;
}

abbrev parts : StoreParts ℕ ℕ
parts = record { reducers = adding; bootstrap_from = λ st. ok (blank st); same = same }

adding-IsFramed : IsFramed adding
adding-IsFramed = record {
  trusted = λ p st st' h. ground arith;
  revision = λ p st st' h. ground arith;
  log = λ p st st' h. ground arith;
  hashes = λ p st st' h. ground arith;
  execution = λ p st st' h. ground arith;
}

parts-IsFaithful : IsFaithful parts
parts-IsFaithful = record {
  framed = adding-IsFramed;
  exact = same_exact;
  empty = λ st b h. ground arith;
  unmarked = λ b st. refl;
}

abbrev start : Aggregate ℕ ℕ
start = record {
  trusted_bootstrap = true;
  aggregate_revision = 0;
  execution_id = "run";
  execution_attempt = 1;
  repository_revision = "r0";
  terminal = false;
  event_log = [];
  event_payload_hashes = [];
  body = 0;
}

-- The first event of the run, under a name.
abbrev first_event : String → ℕ → ProtocolEventEnvelope ℕ
first_event name n = record {
  protocol_version = 1;
  event_schema_version = 2;
  event_id = name;
  execution_id = "run";
  execution_attempt = 1;
  sequence = 1;
  aggregate_revision_before = 0;
  context = record {
    causation_id = none;
    correlation_id = "attempt";
    node_id = none;
    effect_observation = none;
  };
  repository_revision = "r0";
  semantic_key = name;
  semantic_identity = name;
  occurred_at_ms = 5;
  payload = n;
}

abbrev after : Aggregate ℕ ℕ
after = record start {
  aggregate_revision = 1;
  event_log = record { envelope = first_event "add" 7; payload_hash = "add" } ∷ [];
  event_payload_hashes = ("add", "add") ∷ [];
  body = 7;
}

start-IsLogged : IsLogged start
unfolding is_numbered
start-IsLogged = record { counted = refl; indexed = refl; numbered = refl; covered = λ id h. refl }

added : append_event adding start (first_event "add" 7) ≡ ok (after, AppendOutcome.applied 1)
unfolding append_event apply_new commit require_trusted_bootstrap validate_event_envelope
    validate_context_against validate_context_against_state validate_intrinsic_context
    check_semantic_identity expected_event_id expected_semantic_identity next_sequence
    validate_wire_identity byte_length starts_with_space ends_with_space has_control is_whitespace
    trim_is_empty get insert contains_key saturating_add_u64
added = refl

rival_next : validate_event_envelope adding start (first_event "rival" 2) ≡ ok tt
unfolding validate_event_envelope validate_context_against validate_context_against_state
    validate_intrinsic_context check_semantic_identity expected_event_id expected_semantic_identity
    next_sequence validate_wire_identity byte_length starts_with_space ends_with_space has_control
    is_whitespace trim_is_empty contains_key
rival_next = refl

abbrev opened_store : InMemoryEventStore ℕ ℕ
opened_store = record { trusted_initial = start; state = start }

abbrev added_store : InMemoryEventStore ℕ ℕ
added_store = record { trusted_initial = start; state = after }

opens_start : new parts start ≡ ok opened_store
unfolding new validate_pristine_bootstrap require_trusted_bootstrap
opens_start = ground (arith, (same_exact start start).1 refl)

appends :
    append parts opened_store (first_event "add" 7) ≡ ok (added_store, AppendOutcome.applied 1)
appends =
    append-append_event parts parts-IsFaithful opened_store (first_event "add" 7)
      (Reached-IsReplayed parts parts-IsFaithful opened_store (Reached.opened start opens_start))
    ∙ ap (λ m. m >>= λ next. ok (record opened_store { state = next.0 }, next.1)) added

-- The next event, after `after`.
abbrev second_event : ProtocolEventEnvelope ℕ
second_event = record (first_event "more" 5) {
  sequence = 2;
  aggregate_revision_before = 1;
  context = record {
    causation_id = some "add";
    correlation_id = "attempt";
    node_id = none;
    effect_observation = none;
  };
}

abbrev later : Aggregate ℕ ℕ
later = record start {
  aggregate_revision = 2;
  event_log =
      record { envelope = first_event "add" 7; payload_hash = "add" }
      ∷ record { envelope = second_event; payload_hash = "more" }
      ∷ [];
  event_payload_hashes = ("add", "add") ∷ ("more", "more") ∷ [];
  body = 12;
}

added_more : append_event adding after second_event ≡ ok (later, AppendOutcome.applied 2)
unfolding append_event apply_new commit require_trusted_bootstrap validate_event_envelope
    validate_context_against validate_context_against_state validate_intrinsic_context
    check_semantic_identity expected_event_id expected_semantic_identity next_sequence
    validate_wire_identity byte_length starts_with_space ends_with_space has_control is_whitespace
    trim_is_empty get insert contains_key saturating_add_u64
added_more = refl

append_event-Later_example :
    append_event adding later (first_event "add" 7) ≡ ok (later, AppendOutcome.idempotent_replay 1)
append_event-Later_example =
    append_event-Later adding adding-IsFramed start after later (first_event "add" 7) 1
      start-IsLogged.covered added
      (Later.next second_event (AppendOutcome.applied 2) Later.now added_more)

rival_refused_example :
    append_event adding after (first_event "rival" 2) ≡ err (revision_conflict 0 1)
unfolding get
rival_refused_example =
    rival_refused adding adding-IsFramed start after (first_event "add" 7) (first_event "rival" 2) 1
      "rival" added rival_next refl refl refl (omega arith)

append_event-IsLogged_example : IsLogged after
append_event-IsLogged_example =
    append_event-IsLogged adding adding-IsFramed start after (first_event "add" 7)
      (AppendOutcome.applied 1) start-IsLogged (omega arith) added

append-append_event_example : append parts opened_store (first_event "add" 7) ≡ (
    append_event adding start (first_event "add" 7) >>= λ next.
    ok (record opened_store { state = next.0 }, next.1))
append-append_event_example =
    append-append_event parts parts-IsFaithful opened_store (first_event "add" 7)
      (Reached-IsReplayed parts parts-IsFaithful opened_store (Reached.opened start opens_start))

restore_reached_example : restore parts start (with_trust false after) ≡ ok added_store
restore_reached_example = restore_reached parts parts-IsFaithful added_store false (
    Reached.appended opened_store (AppendOutcome.applied 1) (first_event "add" 7)
      (Reached.opened start opens_start) appends)

restore-IsReplayed_example :
    IsReplayed parts added_store
    × (start ≡ start)
    × (after ≡ with_trust true (with_trust false after))
restore-IsReplayed_example =
    restore-IsReplayed parts parts-IsFaithful start (with_trust false after) added_store
      restore_reached_example
