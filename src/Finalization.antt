-- ===== src/Finalization.antt =====
-- src/finalization.rs, with the endings of src/reporting.rs that it calls: what a terminal outcome
-- writes, in order. The answers of the calls that can fail are given.
pub mod Effects
use rustgrid_agent.Prelude.{Bool, true, false, List, [], ◌∷◌, ◌++◌, if◌then◌else◌}
use rustgrid_agent.Lifecycle.{RunPhase, can_transition_to, set_phase}
use rustgrid_agent.Outcome.{RunOutcome}

pub data AgentRunStatus : Type 0 where
  succeeded failed cancelled : AgentRunStatus

pub data TicketStatus : Type 0 where
  todo in_progress awaiting_review blocked : TicketStatus

-- The writes: `journal_error` and `journal_phase` to the local journal, the others to the control
-- plane.
pub data Effect : Type 0 where
  journal_error : Effect
  journal_phase : RunPhase → Effect
  report_token_consumption report_step create_comment : Effect
  set_ticket_status : TicketStatus → Effect
  update_run : AgentRunStatus → Effect

-- A call under `?`, with its answer; a call whose error only warns; a call of `set_phase`.
pub data Action : Type 0 where
  must : Effect → Bool → Action
  warn : Effect → Action
  phase : RunPhase → Action

abbrev pub phase_effects : RunPhase → RunPhase → List Effect
phase_effects p q = if can_transition_to p q then Effect.journal_phase q ∷ [] else []

-- What is attempted, the phase of the run afterwards, and whether no `?` returned early.
unfoldable pub perform : List Action → RunPhase → List Effect × RunPhase × Bool
perform [] p = ([], p, true)
perform (Action.must e true ∷ rest) p =
    let (effects, q, done) = perform rest p in (e ∷ effects, q, done)
perform (Action.must e false ∷ rest) p = (e ∷ [], p, false)
perform (Action.warn e ∷ rest) p = let (effects, q, done) = perform rest p in (e ∷ effects, q, done)
perform (Action.phase q ∷ rest) p =
    let (effects, q', done) = perform rest (set_phase p q) in
    (phase_effects p q ++ effects, q', done)

-- Which of the calls under `?` succeed.
pub record Answers : Type 0 where
  pub consumption_ok : Bool
  pub journal_ok : Bool
  pub step_ok : Bool
  pub comment_ok : Bool
  pub ticket_ok : Bool
  pub run_ok : Bool

-- `Reporter::cancel`
unfoldable pub cancel : Answers → List Action
cancel a =
    Action.must Effect.journal_error a.journal_ok
    ∷ Action.phase RunPhase.cancelled
    ∷ Action.must Effect.report_step a.step_ok
    ∷ Action.must Effect.create_comment a.comment_ok
    ∷ Action.must (Effect.set_ticket_status TicketStatus.todo) a.ticket_ok
    ∷ Action.must (Effect.update_run AgentRunStatus.cancelled) a.run_ok
    ∷ []

abbrev pub is_timed_out : RunPhase → Bool
is_timed_out RunPhase.timed_out = true
is_timed_out _ = false

-- What `fail` and `fail_retryable` attempt after the phase, whatever fails.
abbrev pub report_failure : TicketStatus → List Action
report_failure status =
    Action.warn Effect.report_step
    ∷ Action.warn Effect.create_comment
    ∷ Action.warn (Effect.set_ticket_status status)
    ∷ Action.warn (Effect.update_run AgentRunStatus.failed)
    ∷ []

-- `Reporter::fail`, called in phase `p`
unfoldable pub fail : RunPhase → List Action
fail p =
    Action.warn Effect.journal_error
    ∷ ((if is_timed_out p then [] else Action.phase RunPhase.blocked ∷ [])
        ++ report_failure TicketStatus.blocked)

-- `Reporter::fail_retryable`
unfoldable pub fail_retryable : List Action
fail_retryable =
    Action.warn Effect.journal_error
    ∷ Action.phase RunPhase.failed
    ∷ report_failure TicketStatus.todo

-- The branches of `finalize`, called in phase `p`.
unfoldable pub actions_for : RunOutcome → RunPhase → Answers → List Action
unfolding cancel fail fail_retryable
actions_for (RunOutcome.succeeded summary) p a =
    Action.must Effect.report_token_consumption a.consumption_ok
    ∷ Action.phase RunPhase.succeeded
    ∷ Action.must (Effect.update_run AgentRunStatus.succeeded) a.run_ok
    ∷ []
actions_for (RunOutcome.lease_lost failure) p a = Action.warn Effect.journal_error ∷ []
actions_for (RunOutcome.cancelled failure) p a =
    Action.warn Effect.report_token_consumption ∷ cancel a
actions_for (RunOutcome.timed_out failure) p a =
    Action.warn Effect.report_token_consumption
    ∷ Action.phase RunPhase.timed_out
    ∷ fail (set_phase p RunPhase.timed_out)
actions_for (RunOutcome.blocked failure) p a = Action.warn Effect.report_token_consumption ∷ fail p
actions_for (RunOutcome.failed failure) p a =
    Action.warn Effect.report_token_consumption ∷ fail_retryable

abbrev pub is_succeeded : RunOutcome → Bool
is_succeeded (RunOutcome.succeeded summary) = true
is_succeeded _ = false

-- What is attempted, the phase afterwards, and whether `finalize` returns `Ok`.
unfoldable pub finalize : RunOutcome → RunPhase → Answers → List Effect × RunPhase × Bool
unfolding perform actions_for set_phase
finalize outcome p a =
    let (effects, q, done) = perform (actions_for outcome p a) p in
    (effects, q, if is_succeeded outcome then done else false)
