-- ===== src/Simulation/Files.antt =====
-- The files of pkg/simulation/executor.go as a function from paths to contents: what the executor promises.
use mup.Base.{
  ℕ, ◌≡◌, ◌∙◌, refl, ap, List, [], ◌∷◌, Option, none, some, inl, inr, Option-cases, Bool-cases,
  if◌then◌else◌,
}
use mup.Base.Text.{Text, text_eq}
use mup.Base.Dict.{Dict, lookup, insert, delete, lookup-insert, lookup-delete}
use mup.Base.Results.{Result}
use mup.Simulation.{
  SimulationState, SimulatedFile, Config, should_fail, record_operation, record_failure,
  add_operation, allocate_pid, find_process,
}
use mup.Simulation.Executor.{
  Call, to_create_directory, to_upload_file, to_upload_content, to_download_file, to_remove_file,
  to_remove_directory, to_execute, to_mongo_execute, to_background, to_kill, to_stop, to_query,
  perform, perform_all, unless_configured, create_directory, upload_file, upload_content,
  download_file, found_download, remove_file, remove_directory, execute, mongo_execute, background,
  start_process, kill_process, stop_process, set_stopped, query, uploaded_content,
}
use mup.Simulation.Failures.{failure_of}

abbrev pub Contents : Type 0
Contents = Text → Option Text

abbrev content_of : Option SimulatedFile → Option Text
content_of none = none
content_of (some f) = some f.content

abbrev pub contents : SimulationState → Contents
contents s path = content_of (lookup path s.files)

abbrev write : Text → Text → Contents → Contents
write path content c j = if text_eq path j then some content else c j

abbrev unless : Option Text → Contents → Contents → Contents
unless none new old = new
unless (some message) new old = old

module _ (config : Config) (read_file : Text → Option Text) where
  -- An upload that no failure is configured for writes, the removal of a file removes, and nothing else does
  -- anything.
  unfoldable pub effect : Call → Contents → Contents
  effect (to_upload_file local_path path) c =
      unless (failure_of config read_file (to_upload_file local_path path))
        (write path (uploaded_content config read_file local_path) c) c
  effect (to_upload_content content path) c =
      unless (failure_of config read_file (to_upload_content content path)) (write path content c) c
  effect (to_remove_file path) c = λ j. if text_eq path j then none else c j
  effect (to_create_directory path mode) c = c
  effect (to_download_file path local_path) c = c
  effect (to_remove_directory path) c = c
  effect (to_execute command) c = c
  effect (to_mongo_execute host command) c = c
  effect (to_background command) c = c
  effect (to_kill pid) c = c
  effect (to_stop pid) c = c
  effect (to_query type target) c = c

  unfoldable pub effects : List Call → Contents → Contents
  effects [] c = c
  effects (call ∷ calls) c = effects calls (effect call c)

  contents-insert :
      (path j content : Text) (f : SimulatedFile) (files : Dict SimulatedFile)
      → f.content ≡ content
      → content_of (lookup j (insert path f files))
        ≡ (if text_eq path j then some content else content_of (lookup j files))
  contents-insert path j content f files e = elim (Bool-cases (text_eq path j)) [
    | inl b ↦ rw (lookup-insert path j f files, b, e) refl
    | inr b ↦ rw (lookup-insert path j f files, b) refl
  ]

  contents-delete :
      (path j : Text) (files : Dict SimulatedFile)
      → content_of (lookup j (delete path files))
        ≡ (if text_eq path j then none else content_of (lookup j files))
  contents-delete path j files = elim (Bool-cases (text_eq path j)) [
    | inl b ↦ rw (lookup-delete path j files, b) refl
    | inr b ↦ rw (lookup-delete path j files, b) refl
  ]

  -- A method that writes no file, if it fails or not.
  unless_configured-files :
      {A : Type 0} (operation target type recorded details : Text)
      (next : SimulationState → Result A × SimulationState) (s : SimulationState)
      → (next s).1.files ≡ s.files
      → (unless_configured config read_file operation target
          (record_failure type recorded details)
          next
          s).1.files
        ≡ s.files
  unfolding unless_configured record_failure add_operation
  unless_configured-files operation target type recorded details next s h =
      elim (Option-cases (should_fail config operation target)) [
        | inl e ↦ rw (e, unless_configured) h
        | inr (x, e) ↦ rw (e, unless_configured) refl
      ]

  found_download-files :
      (path local_path : Text) (s : SimulationState)
      → (found_download config read_file path local_path s).1.files ≡ s.files
  unfolding found_download record_operation add_operation
  found_download-files path local_path s = elim (Option-cases (lookup path s.files)) [
    | inl e ↦ rw (e, found_download) refl
    | inr (f, e) ↦ rw (e, found_download) refl
  ]

  set_stopped-files :
      (pid : ℕ) (s : SimulationState) → (set_stopped config read_file pid s).files ≡ s.files
  unfolding set_stopped
  set_stopped-files pid s = elim (Option-cases (find_process pid s.processes)) [
    | inl e ↦ rw (e, set_stopped) refl
    | inr (p, e) ↦ rw (e, set_stopped) refl
  ]

  abbrev look : Text → Dict SimulatedFile → Option Text
  look j files = content_of (lookup j files)

  -- An upload that looks for a failure and then writes.
  write-effect :
      {A : Type 0} (operation path type recorded details content : Text)
      (next : SimulationState → Result A × SimulationState) (s : SimulationState) (j : Text)
      → look j (next s).1.files ≡ write path content (contents s) j
      → look j
          (unless_configured config read_file operation path
            (record_failure type recorded details)
            next
            s).1.files
        ≡ unless
            (should_fail config operation path)
            (write path content (contents s))
            (contents s)
            j
  unfolding unless_configured record_failure add_operation
  write-effect operation path type recorded details content next s j h =
      elim (Option-cases (should_fail config operation path)) [
        | inl e ↦ rw (e, unless_configured) h
        | inr (x, e) ↦ rw (e, unless_configured) refl
      ]

  perform-effect :
      (call : Call) (s : SimulationState) (j : Text)
      → contents (perform config read_file call s).1 j ≡ effect call (contents s) j
  unfolding perform effect failure_of create_directory upload_file upload_content download_file
      remove_file remove_directory execute mongo_execute background start_process kill_process
      stop_process query allocate_pid record_operation add_operation
  perform-effect (to_upload_file local_path path) s j =
      write-effect _ path _ _ _ _ _ s j (contents-insert path j _ _ s.files refl)
  perform-effect (to_upload_content content path) s j =
      write-effect _ path _ _ _ content _ s j (contents-insert path j _ _ s.files refl)
  perform-effect (to_remove_file path) s j = contents-delete path j s.files
  perform-effect (to_create_directory path mode) s j =
      ap (look j) (unless_configured-files _ _ _ _ _ _ s refl)
  perform-effect (to_download_file path local_path) s j =
      ap (look j) (unless_configured-files _ _ _ _ _ _ s (found_download-files path local_path s))
  perform-effect (to_remove_directory path) s j = refl
  perform-effect (to_execute command) s j = ap (look j) (unless_configured-files _ _ _ _ _ _ s refl)
  perform-effect (to_mongo_execute host command) s j =
      ap (look j) (unless_configured-files _ _ _ _ _ _ s refl)
  perform-effect (to_background command) s j =
      ap (look j) (unless_configured-files _ _ _ _ _ _ s refl)
  perform-effect (to_kill pid) s j = ap (look j) (set_stopped-files pid s)
  perform-effect (to_stop pid) s j = ap (look j) (set_stopped-files pid s)
  perform-effect (to_query type target) s j = refl

  -- The effect at a path depends on the contents at that path only.
  effect-cong :
      (call : Call) (c d : Contents)
      → ((j : Text) → c j ≡ d j)
      → (j : Text) → effect call c j ≡ effect call d j
  unfolding effect
  effect-cong (to_upload_file local_path path) c d h j =
      elim (Option-cases (failure_of config read_file (to_upload_file local_path path))) [
        | inl e ↦ rw (e, h j) refl
        | inr (x, e) ↦ rw (e, h j) refl
      ]
  effect-cong (to_upload_content content path) c d h j =
      elim (Option-cases (failure_of config read_file (to_upload_content content path))) [
        | inl e ↦ rw (e, h j) refl
        | inr (x, e) ↦ rw (e, h j) refl
      ]
  effect-cong (to_remove_file path) c d h j = rw (h j) refl
  effect-cong (to_create_directory path mode) c d h j = h j
  effect-cong (to_download_file path local_path) c d h j = h j
  effect-cong (to_remove_directory path) c d h j = h j
  effect-cong (to_execute command) c d h j = h j
  effect-cong (to_mongo_execute host command) c d h j = h j
  effect-cong (to_background command) c d h j = h j
  effect-cong (to_kill pid) c d h j = h j
  effect-cong (to_stop pid) c d h j = h j
  effect-cong (to_query type target) c d h j = h j

  effects-cong :
      (calls : List Call) (c d : Contents)
      → ((j : Text) → c j ≡ d j)
      → (j : Text) → effects calls c j ≡ effects calls d j
  unfolding effects
  effects-cong [] c d h j = h j
  effects-cong (call ∷ calls) c d h j = effects-cong calls _ _ (effect-cong call c d h) j

  -- After any calls, the content of each path is what the calls' effects on a function from paths to contents
  -- make of the contents before: writes of uploads that are not configured to fail, and removals of files.
  pub perform_all-effects :
      (calls : List Call) (s : SimulationState) (j : Text)
      → contents (perform_all config read_file calls s) j ≡ effects calls (contents s) j
  unfolding perform_all effects
  perform_all-effects [] s j = refl
  perform_all-effects (call ∷ calls) s j =
      perform_all-effects calls _ j ∙ effects-cong calls _ _ (perform-effect call s) j
