-- ===== src/Journal/Filesystem.antt =====
-- `FilesystemEventStore` of src/journal.rs, which writes a temporary file and renames it. The file
-- system is outside the source: it is the record FileSystem, with the laws in IsFileSystem.
pub mod Atomic
use rustgrid_agent.Prelude.{
  ℕ, String, ◌≡◌, refl, sym, ap, ◌∙◌, Bool, true, false, ◌⊎◌, inl, inr, Option, none, some, arith,
  ◌==◌, Bool-cases, Option-cases, if◌then◌else◌,
}
use rustgrid_agent.Journal.{RunJournal, JournalResult, ok, err, JournalOperation}
use rustgrid_agent.Journal.Edits.{JournalEdit, edited}
use rustgrid_agent.Journal.Store.{
  EventStore, IsAtomic, create_with_store, perform, operation_interrupted,
}

-- Calls on a state of the file system, each with its success. A written file is named by its path.
pub record FileSystem (S B : Type 0) : Type 0 where
  pub is_file : String → S → Bool
  pub read : String → S → Option B
  pub create_dir_all : String → S → S × Bool
  pub open_truncated : String → S → S × Bool
  pub write_all : String → B → S → S × Bool
  pub sync_all : String → S → S × Bool
  pub rename : String → String → S → S × Bool
  pub open_directory : String → S → Bool
  pub sync_directory : String → S → S × Bool

-- `path.parent()` and `path.with_extension("json.tmp")`
pub record Paths : Type 0 where
  pub path : String
  pub parent : Option String
  pub temporary : String

-- The first failure ends the sequence.
abbrev pub and_then : {S : Type 0} → S × Bool → (S → S × Bool) → S × Bool
and_then r next = if r.1 then next r.0 else (r.0, false)

module _ {S B : Type 0} (fs : FileSystem S B) where
  unfoldable pub sync_parent : String → S → S × Bool
  sync_parent parent x =
      if fs.open_directory parent x then fs.sync_directory parent x else (x, false)

  unfoldable pub load : Paths → S → JournalResult (Option B)
  load paths x =
      if fs.is_file paths.path x
      then elim (fs.read paths.path x) [
        | none ↦ err JournalOperation.load
        | some bytes ↦ ok (some bytes)
      ]
      else ok none

  unfoldable pub write_temporary : Paths → B → String → S → S × Bool
  write_temporary paths contents parent x = and_then (fs.create_dir_all parent x) λ x1.
      and_then (fs.open_truncated paths.temporary x1) λ x2.
        and_then (fs.write_all paths.temporary contents x2) λ x3. fs.sync_all paths.temporary x3

  unfoldable pub replace_file : Paths → B → String → S → S × Bool
  replace_file paths contents parent x =
      and_then (write_temporary paths contents parent x)
        λ x4. and_then (fs.rename paths.temporary paths.path x4) λ x5. sync_parent parent x5

  unfoldable pub persist_atomic : Paths → B → S → S × Bool
  persist_atomic paths contents x = elim paths.parent [
    | none ↦ (x, false)
    | some parent ↦ replace_file paths contents parent x
  ]

  -- The file is as it was: there, and with the same content.
  abbrev pub Same : String → S → S → Type 0
  Same p x y = (fs.is_file p y ≡ fs.is_file p x) × (fs.read p y ≡ fs.read p x)

-- What is relied on: a write to one file leaves the others as they are, whether it succeeds or fails;
-- opened and written in full, a file has the content; directories and syncs change no file; a
-- rename gives the target the file of the source, or fails and leaves the target as it is.
pub record IsFileSystem {S B : Type 0} (fs : FileSystem S B) : Type 0 where
  pub directories : (d p : String) (x : S) → Same fs p x (fs.create_dir_all d x).0
  pub opening : (p q : String) (x : S) → (p == q) ≡ false → Same fs q x (fs.open_truncated p x).0
  pub writing :
      (p q : String) (b : B) (x : S) → (p == q) ≡ false → Same fs q x (fs.write_all p b x).0
  pub content :
      (p : String) (b : B) (x : S)
      → (fs.open_truncated p x).1 ≡ true
      → (fs.write_all p b (fs.open_truncated p x).0).1 ≡ true
      → (fs.is_file p (fs.write_all p b (fs.open_truncated p x).0).0 ≡ true)
        × (fs.read p (fs.write_all p b (fs.open_truncated p x).0).0 ≡ some b)
  pub syncing : (p q : String) (x : S) → Same fs q x (fs.sync_all p x).0
  pub syncing_directory : (d q : String) (x : S) → Same fs q x (fs.sync_directory d x).0
  pub renamed :
      (p q : String) (x : S)
      → (fs.rename p q x).1 ≡ true
      → (fs.is_file q (fs.rename p q x).0 ≡ fs.is_file p x)
        × (fs.read q (fs.rename p q x).0 ≡ fs.read p x)
  pub unrenamed :
      (p q : String) (x : S) → (fs.rename p q x).1 ≡ false → Same fs q x (fs.rename p q x).0

-- The store of the journals on such a file system, with their encoding.
abbrev pub filesystem_event_store {ℓ} :
    {D : Type ℓ} {S B : Type 0}
    → FileSystem S B
    → Paths
    → (RunJournal D → B)
    → (B → JournalResult (RunJournal D))
    → EventStore D S B
filesystem_event_store fs paths encode decode = record {
  load = load fs paths;
  persist_atomic = persist_atomic fs paths;
  encode = encode;
  decode = decode;
}
