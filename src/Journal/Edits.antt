-- ===== src/Journal/Edits.antt =====
-- The operations of a journal that is open: `checkpoint`, `resume_active_run` and the `record_*`
-- methods of src/journal.rs, each as what it does to the journal and whether it writes it.
use rustgrid_agent.Prelude.{
  ℕ, String, ◌≡◌, refl, ◌∙◌, Bool, true, none, some, List, [], ◌∷◌, arith, Bool-cases, inl, inr,
  if◌then◌else◌,
}
use rustgrid_agent.Lifecycle.{RunPhase, is_terminal}
use rustgrid_agent.TokenConsumption.{TokenConsumption}
use rustgrid_agent.Journal.{RunJournal, at_phase}

-- One call.
pub data JournalEdit {ℓ} (D : Type ℓ) : Type ℓ where
  checkpoint : RunPhase → ℕ → JournalEdit D
  resume_active_run : JournalEdit D
  record_branch record_commit record_error : String → JournalEdit D
  record_pull_request : String → ℕ → JournalEdit D
  record_progress_sequence : ℕ → JournalEdit D
  record_token_consumption : TokenConsumption → JournalEdit D
  record_dependency_state : D → JournalEdit D
  record_executor : String → String → String → JournalEdit D

module _ {ℓ} {D : Type ℓ} where
  unfoldable pub resumed : RunJournal D → RunJournal D
  resumed j =
      if is_terminal j.phase then record j { phase = RunPhase.claimed; last_error = none } else j

  unfoldable pub edited : JournalEdit D → RunJournal D → RunJournal D
  unfolding at_phase resumed
  edited (JournalEdit.checkpoint phase sequence) j = at_phase phase sequence j
  edited JournalEdit.resume_active_run j = resumed j
  edited (JournalEdit.record_branch branch) j = record j { branch = some branch }
  edited (JournalEdit.record_commit commit) j = record j { commit = some commit }
  edited (JournalEdit.record_pull_request url number) j = record j {
    pull_request_url = some url;
    pull_request_number = some number;
  }
  edited (JournalEdit.record_progress_sequence sequence) j = record j {
    progress_sequence = sequence;
  }
  edited (JournalEdit.record_error error) j = record j { last_error = some error }
  edited (JournalEdit.record_token_consumption consumption) j = record j {
    token_consumption = consumption;
  }
  edited (JournalEdit.record_dependency_state state) j = record j { dependency_state = some state }
  edited (JournalEdit.record_executor kind id state) j = record j {
    executor = some (record { kind = kind; id = id; state = state });
  }

  -- Only the resumption of a run that has not ended writes nothing.
  unfoldable pub writes : JournalEdit D → RunJournal D → Bool
  writes JournalEdit.resume_active_run j = is_terminal j.phase
  writes _ j = true

  unfoldable pub edited_all : List (JournalEdit D) → RunJournal D → RunJournal D
  edited_all [] j = j
  edited_all (e ∷ es) j = edited_all es (edited e j)

  -- Whose journal it is, and in which schema.
  pub record SameIdentity (j j' : RunJournal D) : Type 0 where
    pub run : j'.run_id ≡ j.run_id
    pub ticket : j'.ticket_id ≡ j.ticket_id
    pub version : j'.schema_version ≡ j.schema_version

  resumed-SameIdentity : (j : RunJournal D) → SameIdentity j (resumed j)
  unfolding resumed
  resumed-SameIdentity j = elim (Bool-cases (is_terminal j.phase)) [
    | inl e ↦ record { run = ground arith; ticket = ground arith; version = ground arith }
    | inr e ↦ record { run = ground arith; ticket = ground arith; version = ground arith }
  ]

  pub edited-SameIdentity : (e : JournalEdit D) (j : RunJournal D) → SameIdentity j (edited e j)
  unfolding edited at_phase
  edited-SameIdentity JournalEdit.resume_active_run j = resumed-SameIdentity j
  edited-SameIdentity (JournalEdit.checkpoint phase sequence) j = record {
    run = refl;
    ticket = refl;
    version = refl;
  }
  edited-SameIdentity _ j = record { run = refl; ticket = refl; version = refl }

  pub edited_all-SameIdentity :
      (es : List (JournalEdit D)) (j : RunJournal D) → SameIdentity j (edited_all es j)
  unfolding edited_all
  edited_all-SameIdentity [] j = record { run = refl; ticket = refl; version = refl }
  edited_all-SameIdentity (e ∷ es) j =
      let here = edited-SameIdentity e j in
      let rest = edited_all-SameIdentity es (edited e j) in
      record {
        run = rest.run ∙ here.run;
        ticket = rest.ticket ∙ here.ticket;
        version = rest.version ∙ here.version;
      }
