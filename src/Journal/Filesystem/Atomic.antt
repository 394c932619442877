-- ===== src/Journal/Filesystem/Atomic.antt =====
-- `FilesystemEventStore` of src/journal.rs replaces the journal's file as a whole.
use mathlib.Core.Path.{subst}
use rustgrid_agent.Prelude.{
  String, ◌≡◌, refl, sym, ap, ◌∙◌, Bool, true, false, ◌⊎◌, inl, inr, Option, none, some, arith,
  ◌==◌, Bool-cases, Option-cases, if◌then◌else◌,
}
use rustgrid_agent.Journal.{RunJournal, JournalResult, ok}
use rustgrid_agent.Journal.Edits.{JournalEdit, edited}
use rustgrid_agent.Journal.Store.{IsAtomic, create_with_store, perform, operation_interrupted}
use rustgrid_agent.Journal.Filesystem.{
  FileSystem, IsFileSystem, Paths, Same, and_then, sync_parent, load, write_temporary, replace_file,
  persist_atomic, filesystem_event_store,
}

and_then_done :
    {S : Type 0} (r : S × Bool) (next : S → S × Bool)
    → (and_then r next).1 ≡ true
    → (r.1 ≡ true) × ((next r.0).1 ≡ true) × ((and_then r next).0 ≡ (next r.0).0)
and_then_done r next h = elim (Bool-cases r.1) [
  | inl e ↦ (e, ground arith, ground arith)
  | inr e ↦ absurd (ground arith)
]

and_then_state :
    {S : Type 0} (P : S → Type 0) (r : S × Bool) (next : S → S × Bool)
    → P r.0
    → ((y : S) → P y → P (next y).0)
    → P (and_then r next).0
and_then_state P r next h step = elim (Bool-cases r.1) [
  | inl e ↦ subst P (sym (ap (λ b. (if b then next r.0 else (r.0, false)).0) e)) (step r.0 h)
  | inr e ↦ subst P (sym (ap (λ b. (if b then next r.0 else (r.0, false)).0) e)) h
]

and_then_onward :
    {S : Type 0} (r : S × Bool) (next : S → S × Bool) → r.1 ≡ true → and_then r next ≡ next r.0
and_then_onward r next e = ap (λ b. if b then next r.0 else (r.0, false)) e

and_then_stops :
    {S : Type 0} (r : S × Bool) (next : S → S × Bool) → r.1 ≡ false → and_then r next ≡ (r.0, false)
and_then_stops r next e = ap (λ b. if b then next r.0 else (r.0, false)) e

module _ {S B : Type 0} (fs : FileSystem S B) (lawful : IsFileSystem fs) (paths : Paths)
    (apart : (paths.temporary == paths.path) ≡ false) where
  onward : (p : String) (x y z : S) → Same fs p x y → Same fs p y z → Same fs p x z
  onward p x y z s t = (t.0 ∙ s.0, t.1 ∙ s.1)

  -- Until the rename, the journal's file is as it was.
  write_temporary-Same :
      (contents : B) (parent : String) (x : S)
      → Same fs paths.path x (write_temporary fs paths contents parent x).0
  unfolding write_temporary
  write_temporary-Same contents parent x =
      and_then_state (Same fs paths.path x) (fs.create_dir_all parent x)
        (λ x1. and_then (fs.open_truncated paths.temporary x1) λ x2.
          and_then (fs.write_all paths.temporary contents x2) λ x3. fs.sync_all paths.temporary x3)
        (lawful.directories parent paths.path x)
        λ x1 s1.
          and_then_state (Same fs paths.path x) (fs.open_truncated paths.temporary x1)
            (λ x2.
              and_then (fs.write_all paths.temporary contents x2)
                λ x3. fs.sync_all paths.temporary x3)
            (onward paths.path x x1 (fs.open_truncated paths.temporary x1).0 s1
              (lawful.opening paths.temporary paths.path x1 apart))
            λ x2 s2.
              and_then_state (Same fs paths.path x) (fs.write_all paths.temporary contents x2)
                (λ x3. fs.sync_all paths.temporary x3)
                (onward paths.path x x2 (fs.write_all paths.temporary contents x2).0 s2
                  (lawful.writing paths.temporary paths.path contents x2 apart))
                λ x3 s3.
                  onward paths.path x x3 (fs.sync_all paths.temporary x3).0 s3
                    (lawful.syncing paths.temporary paths.path x3)

  -- The temporary file that is renamed has the whole content.
  write_temporary_content :
      (contents : B) (parent : String) (x : S)
      → (write_temporary fs paths contents parent x).1 ≡ true
      → (fs.is_file paths.temporary (write_temporary fs paths contents parent x).0 ≡ true)
        × (fs.read paths.temporary (write_temporary fs paths contents parent x).0 ≡ some contents)
  unfolding write_temporary
  write_temporary_content contents parent x h =
      let made =
        and_then_done (fs.create_dir_all parent x)
          (λ x1. and_then (fs.open_truncated paths.temporary x1) λ x2.
            and_then (fs.write_all paths.temporary contents x2)
              λ x3. fs.sync_all paths.temporary x3)
          h in
      let x1 = (fs.create_dir_all parent x).0 in
      let opened =
        and_then_done (fs.open_truncated paths.temporary x1)
          (λ x2.
            and_then (fs.write_all paths.temporary contents x2)
              λ x3. fs.sync_all paths.temporary x3)
          made.1 in
      let x2 = (fs.open_truncated paths.temporary x1).0 in
      let written =
        and_then_done (fs.write_all paths.temporary contents x2)
          (λ x3. fs.sync_all paths.temporary x3) opened.1 in
      let x3 = (fs.write_all paths.temporary contents x2).0 in
      let there = lawful.content paths.temporary contents x1 opened.0 written.0 in
      let synced = lawful.syncing paths.temporary paths.temporary x3 in
      let at = made.2 ∙ opened.2 ∙ written.2 in
      (
        ap (fs.is_file paths.temporary) at ∙ synced.0 ∙ there.0,
        ap (fs.read paths.temporary) at ∙ synced.1 ∙ there.1,
      )

  sync_parent-Same : (parent : String) (x : S) → Same fs paths.path x (sync_parent fs parent x).0
  unfolding sync_parent
  sync_parent-Same parent x = elim (Bool-cases (fs.open_directory parent x)) [
    | inl e ↦ (
      ground (arith, lawful.syncing_directory parent paths.path x),
      ground (arith, lawful.syncing_directory parent paths.path x),
    )
    | inr e ↦ (ground arith, ground arith)
  ]

  -- The file has the content, or the write reported a failure and the file is as it was.
  abbrev Replaced : B → S → S × Bool → Type 0
  Replaced contents x r =
      ((fs.is_file paths.path r.0 ≡ true) × (fs.read paths.path r.0 ≡ some contents))
      ⊎ ((r.1 ≡ false) × Same fs paths.path x r.0)

  renamed-Replaced :
      (contents : B) (parent : String) (x w : S)
      → Same fs paths.path x w
      → (fs.is_file paths.temporary w ≡ true) × (fs.read paths.temporary w ≡ some contents)
      → Replaced contents x
          (and_then (fs.rename paths.temporary paths.path w) λ y. sync_parent fs parent y)
  renamed-Replaced contents parent x w kept there =
      let r = fs.rename paths.temporary paths.path w in
      elim (Bool-cases r.1) [
        | inl e ↦
            let (file, text) = lawful.renamed paths.temporary paths.path w e in
            let synced = sync_parent-Same parent r.0 in
            subst (Replaced contents x) (sym (and_then_onward r (λ y. sync_parent fs parent y) e))
              (inl (synced.0 ∙ file ∙ there.0, synced.1 ∙ text ∙ there.1))
        | inr e ↦
            subst (Replaced contents x) (sym (and_then_stops r (λ y. sync_parent fs parent y) e)) (
              inr (
                refl,
                onward paths.path x w r.0 kept (lawful.unrenamed paths.temporary paths.path w e),
              ))
      ]

  replace_file-Replaced :
      (contents : B) (parent : String) (x : S)
      → Replaced contents x (replace_file fs paths contents parent x)
  unfolding replace_file
  replace_file-Replaced contents parent x =
      let r = write_temporary fs paths contents parent x in
      let kept = write_temporary-Same contents parent x in
      let next : S → S × Bool =
        λ w. and_then (fs.rename paths.temporary paths.path w) λ y. sync_parent fs parent y in
      elim (Bool-cases r.1) [
        | inl e ↦ subst (Replaced contents x) (sym (and_then_onward r next e)) (
            renamed-Replaced contents parent x r.0 kept
              (write_temporary_content contents parent x e))
        | inr e ↦ subst (Replaced contents x) (sym (and_then_stops r next e)) (inr (refl, kept))
      ]

  persist_in :
      (contents : B) (x : S) (parent : Option String)
      → Replaced contents x
          (elim parent [ none ↦ (x, false) | some d ↦ replace_file fs paths contents d x ])
  persist_in contents x none = inr (refl, (refl, refl))
  persist_in contents x (some d) = replace_file-Replaced contents d x

  persist_atomic-Replaced :
      (contents : B) (x : S) → Replaced contents x (persist_atomic fs paths contents x)
  unfolding persist_atomic
  persist_atomic-Replaced contents x = persist_in contents x paths.parent

  load-Same : (x y : S) → Same fs paths.path x y → load fs paths y ≡ load fs paths x
  unfolding load
  load-Same x y s = elim (Option-cases (fs.read paths.path x)) [
    | inl e ↦ ground (arith, s)
    | inr (b, e) ↦ ground (arith, s)
  ]

  load_there :
      (b : B) (y : S)
      → (fs.is_file paths.path y ≡ true) × (fs.read paths.path y ≡ some b)
      → load fs paths y ≡ ok (some b)
  unfolding load
  load_there b y there = ground (arith, there)

module _ {ℓ} {D : Type ℓ} {S B : Type 0} (fs : FileSystem S B) (lawful : IsFileSystem fs)
    (paths : Paths) (apart : (paths.temporary == paths.path) ≡ false) (encode : RunJournal D → B)
    (decode : B → JournalResult (RunJournal D))
    (read_back : (j : RunJournal D) → decode (encode j) ≡ ok j) where
  pub filesystem_event_store-IsAtomic : IsAtomic (filesystem_event_store fs paths encode decode)
  filesystem_event_store-IsAtomic = record {
    written = λ b x done. elim (persist_atomic-Replaced fs lawful paths apart b x) [
      | inl there ↦ load_there fs lawful paths apart b (persist_atomic fs paths b x).0 there
      | inr (failed, kept) ↦ absurd (ground arith)
    ];
    unwritten = λ b x failed. elim (persist_atomic-Replaced fs lawful paths apart b x) [
      | inl there ↦ inr (load_there fs lawful paths apart b (persist_atomic fs paths b x).0 there)
      | inr (_, kept) ↦ inl (load-Same fs lawful paths apart x (persist_atomic fs paths b x).0 kept)
    ];
    read_back = read_back;
  }

  -- On a file system with the laws, where the temporary file is not the journal's and an encoded journal
  -- reads back, over a journal of schema 1 that is there and whose file can be read: whatever operation
  -- is called, and whichever of its calls to the file system fails, opening the journal again gives
  -- the journal after the operation, or what opening it gave before.
  pub operation_interrupted_on_disk :
      (e : JournalEdit D) (j : RunJournal D) (x : S) (b : B)
      → j.schema_version ≡ 1
      → load fs paths x ≡ ok (some b)
      → let s = filesystem_event_store fs paths encode decode in
        let y = (perform s e j x).1 in
        ((create_with_store s j.run_id j.ticket_id y).1 ≡ ok (edited e j))
        ⊎ ((create_with_store s j.run_id j.ticket_id y).1
            ≡ (create_with_store s j.run_id j.ticket_id x).1)
  operation_interrupted_on_disk e j x b version before =
      operation_interrupted (filesystem_event_store fs paths encode decode)
        filesystem_event_store-IsAtomic e j x b version before
