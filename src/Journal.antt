-- ===== src/Journal.antt =====
-- src/journal.rs: the journal of a run, its checkpoints in an event store, and the adoption of a
-- journal by the run that recovers another. The dependency state is kept and never looked at, so its
-- type is a parameter.
pub mod Edits
pub mod Store
pub mod Filesystem
pub mod Recovery
use rustgrid_agent.Prelude.{
  ℕ, String, Bool, true, false, not, ◌&&◌, ◌||◌, Option, none, some, ◌==◌, nat_eq, is_some_and,
  if◌then◌else◌,
}
use rustgrid_agent.Lifecycle.{RunPhase, is_terminal}
use rustgrid_agent.TokenConsumption.{TokenConsumption, no_tokens}

pub data JournalOperation : Type 0 where
  load persist validate adopt : JournalOperation

pub data JournalResult {ℓ} (A : Type ℓ) : Type ℓ where
  ok : A → JournalResult A
  err : JournalOperation → JournalResult A

pub data RecoveryPlan : Type 0 where
  fresh : RecoveryPlan
  resume_from_commit : String → RecoveryPlan
  resume_from_pull_request : String → String → ℕ → RecoveryPlan

pub record ExecutorCheckpoint : Type 0 where
  pub kind : String
  pub id : String
  pub state : String

-- The serialized fields.
pub record RunJournal {ℓ} (D : Type ℓ) : Type ℓ where
  pub schema_version : ℕ  -- u8
  pub run_id : String
  pub ticket_id : String
  pub phase : RunPhase
  pub last_sequence : ℕ  -- u64
  pub branch : Option String
  pub commit : Option String
  pub pull_request_url : Option String
  pub pull_request_number : Option ℕ
  pub progress_sequence : ℕ  -- u64
  pub last_error : Option String
  pub executor : Option ExecutorCheckpoint
  pub recovery_source_run_id : Option String
  pub token_consumption : TokenConsumption
  pub dependency_state : Option D

abbrev plan_of : Option String → Option String → Option ℕ → JournalResult RecoveryPlan
plan_of none none none = ok RecoveryPlan.fresh
plan_of (some commit) none none = ok (RecoveryPlan.resume_from_commit commit)
plan_of (some commit) (some url) (some number) =
    ok (RecoveryPlan.resume_from_pull_request commit url number)
plan_of _ _ _ = err JournalOperation.validate

abbrev pub is_succeeded_phase : RunPhase → Bool
is_succeeded_phase RunPhase.succeeded = true
is_succeeded_phase _ = false

-- `phase.is_terminal() && phase != Succeeded`
unfoldable pub is_unsuccessful : RunPhase → Bool
unfolding is_terminal
is_unsuccessful phase = is_terminal phase && not (is_succeeded_phase phase)

unfoldable pub has_retained_executor : Option ExecutorCheckpoint → Bool
has_retained_executor executor = is_some_and executor (λ e. e.state == "retained")

module _ {ℓ} {D : Type ℓ} where
  unfoldable pub recovery_plan : RunJournal D → JournalResult RecoveryPlan
  recovery_plan j = plan_of j.commit j.pull_request_url j.pull_request_number

  -- The journal that `create_with_store` writes where there is none.
  unfoldable pub new_journal : String → String → RunJournal D
  new_journal run_id ticket_id = record {
    schema_version = 1;
    run_id = run_id;
    ticket_id = ticket_id;
    phase = RunPhase.claimed;
    last_sequence = 0;
    branch = none;
    commit = none;
    pull_request_url = none;
    pull_request_number = none;
    progress_sequence = 0;
    last_error = none;
    executor = none;
    recovery_source_run_id = none;
    token_consumption = no_tokens;
    dependency_state = none;
  }

  -- The tests of `create_with_store` on a journal that it has read.
  unfoldable pub reopen : String → String → RunJournal D → JournalResult (RunJournal D)
  reopen run_id ticket_id j =
      if not (j.run_id == run_id) || not (j.ticket_id == ticket_id)
      then err JournalOperation.validate
      else if not (nat_eq j.schema_version 1)
      then err JournalOperation.validate
      else ok j

  unfoldable pub at_phase : RunPhase → ℕ → RunJournal D → RunJournal D
  at_phase phase sequence j = record j { phase = phase; last_sequence = sequence }

  -- What adoption writes.
  unfoldable pub adopted : String → String → RunJournal D → RunJournal D
  adopted run_id source_run_id j = record j {
    run_id = run_id;
    phase = RunPhase.claimed;
    last_sequence = 0;
    progress_sequence = 0;
    last_error = none;
    token_consumption = no_tokens;
    recovery_source_run_id = some source_run_id;
  }

  -- `adopt_recovery` on the journal that it has read: the journal, and whether it is to be written.
  unfoldable pub adopt_recovery :
      String → String → String → RunJournal D → JournalResult (RunJournal D × Bool)
  unfolding adopted
  adopt_recovery run_id ticket_id source_run_id j =
      if not (nat_eq j.schema_version 1) || not (j.ticket_id == ticket_id)
      then err JournalOperation.validate
      else if j.run_id == run_id && is_some_and j.recovery_source_run_id (λ s. s == source_run_id)
      then ok (j, false)
      else if not (j.run_id == source_run_id)
      then err JournalOperation.validate
      else if not (is_unsuccessful j.phase)
      then err JournalOperation.validate
      else if not (has_retained_executor j.executor)
      then err JournalOperation.validate
      else ok (adopted run_id source_run_id j, true)
