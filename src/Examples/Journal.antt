-- ===== src/Examples/Journal.antt =====
-- A journal that is checkpointed, and one that is adopted (src/journal.rs).
use rustgrid_agent.Prelude.{
  String, ◌≡◌, refl, Bool, true, false, Option, none, some, List, [], ◌∷◌, inl, inr, ◌⊎◌, ◌==◌,
  arith, eq_refl, Option-cases, if◌then◌else◌,
}
use rustgrid_agent.Map.{Map, get, contains_key, insert, get-insert, is_some-get}
use rustgrid_agent.Lifecycle.{RunPhase, is_terminal}
use rustgrid_agent.Journal.{
  RunJournal, JournalResult, ok, err, JournalOperation, new_journal, adopt_recovery, adopted,
  is_unsuccessful, has_retained_executor,
}
use rustgrid_agent.Journal.Edits.{JournalEdit, edited, edited_all}
use rustgrid_agent.Journal.Recovery.{adoption_exclusive}
use rustgrid_agent.Journal.Store.{
  EventStore, IsAtomic, create_with_store, checkpoint, perform, checkpoint_reopens,
}
use rustgrid_agent.Journal.Filesystem.{
  FileSystem, IsFileSystem, Paths, Same, sync_parent, load, write_temporary, replace_file,
  persist_atomic, filesystem_event_store,
}
use rustgrid_agent.Journal.Filesystem.Atomic.{
  filesystem_event_store-IsAtomic, operation_interrupted_on_disk,
}

abbrev Journal : Type 0
Journal = RunJournal (Unit {0})

-- A file holds an encoded journal, or a part of one that cannot be read back.
abbrev Content : Type 0
Content = Option Journal

abbrev text : Journal → Content
text j = some j

abbrev parsed : Content → JournalResult Journal
parsed none = err JournalOperation.validate
parsed (some j) = ok j

abbrev moved : String → Map Content → Option Content → Map Content × Bool
moved q x none = (x, false)
moved q x (some b) = (insert q b x, true)

-- Files in memory; with `room` they are written in full, without it a write leaves a part and fails.
abbrev disk : Bool → FileSystem (Map Content) Content
disk room = record {
  is_file = λ p x. contains_key p x;
  read = λ p x. get p x;
  create_dir_all = λ d x. (x, true);
  open_truncated = λ p x. (insert p none x, true);
  write_all = λ p b x. (insert p (if room then b else none) x, room);
  sync_all = λ p x. (x, true);
  rename = λ p q x. moved q x (get p x);
  open_directory = λ d x. true;
  sync_directory = λ d x. (x, true);
}

insert-Same :
    (room : Bool) (p q : String) (b : Content) (x : Map Content)
    → (p == q) ≡ false
    → Same (disk room) q x (insert p b x)
insert-Same room p q b x differ = (
  ground (arith, get-insert p q b x, is_some-get q x, is_some-get q (insert p b x)),
  ground (arith, get-insert p q b x),
)

insert_there :
    (q : String) (b : Content) (x : Map Content)
    → (contains_key q (insert q b x) ≡ true) × (get q (insert q b x) ≡ some b)
insert_there q b x = (
  ground (arith, get-insert q q b x, eq_refl q, is_some-get q (insert q b x)),
  ground (arith, get-insert q q b x, eq_refl q),
)

disk_renamed :
    (p q : String) (x : Map Content)
    → (moved q x (get p x)).1 ≡ true
    → (contains_key q (moved q x (get p x)).0 ≡ contains_key p x)
      × (get q (moved q x (get p x)).0 ≡ get p x)
disk_renamed p q x h = elim (Option-cases (get p x)) [
  | inl e ↦ absurd (ground arith)
  | inr (b, e) ↦
      (ground (arith, insert_there q b x, is_some-get p x), ground (arith, insert_there q b x))
]

disk_unrenamed :
    (room : Bool) (p q : String) (x : Map Content)
    → (moved q x (get p x)).1 ≡ false
    → Same (disk room) q x (moved q x (get p x)).0
disk_unrenamed room p q x h = elim (Option-cases (get p x)) [
  | inl e ↦ (ground arith, ground arith)
  | inr (b, e) ↦ absurd (ground arith)
]

disk_content :
    (room : Bool) (p : String) (b : Content) (x : Map Content)
    → room ≡ true
    → (contains_key p (insert p (if room then b else none) x) ≡ true)
      × (get p (insert p (if room then b else none) x) ≡ some b)
disk_content true p b x h = insert_there p b x
disk_content false p b x h = absurd (ground arith)

disk-IsFileSystem : (room : Bool) → IsFileSystem (disk room)
disk-IsFileSystem room = record {
  directories = λ d p x. (refl, refl);
  opening = λ p q x differ. insert-Same room p q none x differ;
  writing = λ p q b x differ. insert-Same room p q (if room then b else none) x differ;
  content = λ p b x opened written. disk_content room p b (insert p none x) written;
  syncing = λ p q x. (refl, refl);
  syncing_directory = λ d q x. (refl, refl);
  renamed = λ p q x h. disk_renamed p q x h;
  unrenamed = λ p q x h. disk_unrenamed room p q x h;
}

abbrev paths : Paths
paths = record {
  path = "runs/journal.json";
  parent = some "runs";
  temporary = "runs/journal.json.tmp";
}

abbrev store : EventStore (Unit {0}) (Map Content) Content
store = filesystem_event_store (disk true) paths text parsed

store-IsAtomic : IsAtomic store
store-IsAtomic =
    filesystem_event_store-IsAtomic (disk true) (disk-IsFileSystem true) paths refl text parsed
      λ j. refl

abbrev started : Journal
started = new_journal "run" "ticket"

started_version : started.schema_version ≡ 1
unfolding new_journal
started_version = refl

checkpoint_reopens_example :
    (create_with_store store started.run_id started.ticket_id
      (checkpoint store RunPhase.executing 7 started []).1).1
    ≡ ok (checkpoint store RunPhase.executing 7 started []).0
unfolding checkpoint persist_atomic replace_file write_temporary sync_parent get insert
checkpoint_reopens_example =
    checkpoint_reopens store store-IsAtomic RunPhase.executing 7 started [] started_version refl

-- A run that failed and kept its sandbox.
abbrev retained : Journal
retained = record {
  schema_version = 1;
  run_id = "run";
  ticket_id = "ticket";
  phase = RunPhase.failed;
  last_sequence = 12;
  branch = some "branch";
  commit = some "commit";
  pull_request_url = none;
  pull_request_number = none;
  progress_sequence = 4;
  last_error = some "error";
  executor = some (record { kind = "docker"; id = "container"; state = "retained" });
  recovery_source_run_id = none;
  token_consumption = record { input_tokens = 9; cached_input_tokens = 2; output_tokens = 3 };
  dependency_state = none;
}

abbrev taken_over : Journal
taken_over = record retained {
  run_id = "retry";
  phase = RunPhase.claimed;
  last_sequence = 0;
  progress_sequence = 0;
  last_error = none;
  token_consumption = record { input_tokens = 0; cached_input_tokens = 0; output_tokens = 0 };
  recovery_source_run_id = some "run";
}

taken_over_eq : adopt_recovery "retry" "ticket" "run" retained ≡ ok (taken_over, true)
unfolding adopt_recovery adopted is_unsuccessful has_retained_executor is_terminal
taken_over_eq = refl

-- The retrying run works on, and fails without having kept its sandbox.
abbrev work : List (JournalEdit (Unit {0}))
work =
    JournalEdit.checkpoint RunPhase.executing 3
    ∷ JournalEdit.record_executor "docker" "other" "destroyed"
    ∷ JournalEdit.checkpoint RunPhase.failed 4
    ∷ []

adoption_exclusive_example :
    (is_unsuccessful (edited_all work taken_over).phase ≡ false
      → adopt_recovery "late" "ticket" "run" (edited_all work taken_over)
        ≡ err JournalOperation.validate)
    × ((last : Journal) (written : Bool)
        → adopt_recovery "late" "ticket" "run" (edited_all work taken_over) ≡ ok (last, written)
        → (◌≡◌ {A = String} "retry" "run")
          × (has_retained_executor (edited_all work taken_over).executor ≡ true))
adoption_exclusive_example =
    adoption_exclusive "retry" "late" "ticket" "run" "ticket" "run" retained taken_over work
      taken_over_eq refl

-- The journal's file from before, on a disk without room.
abbrev before : Map Content
before = ("runs/journal.json", text started) ∷ []

before_eq : load (disk false) paths before ≡ ok (some (text started))
unfolding load get contains_key
before_eq = refl

abbrev cramped : EventStore (Unit {0}) (Map Content) Content
cramped = filesystem_event_store (disk false) paths text parsed

abbrev committing : JournalEdit (Unit {0})
committing = JournalEdit.record_commit "commit"

operation_interrupted_on_disk_example :
    ((create_with_store cramped started.run_id started.ticket_id
        (perform cramped committing started before).1).1
      ≡ ok (edited committing started))
    ⊎ ((create_with_store cramped started.run_id started.ticket_id
          (perform cramped committing started before).1).1
        ≡ (create_with_store cramped started.run_id started.ticket_id before).1)
operation_interrupted_on_disk_example =
    operation_interrupted_on_disk (disk false) (disk-IsFileSystem false) paths refl text parsed
      (λ j. refl) committing started before (text started) started_version before_eq
