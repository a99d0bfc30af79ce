-- ===== src/Simulation/Numbers.antt =====
-- The numbers that pkg/simulation/types.go hands out: those of operations and of processes.
use mup.Base.{
  ℕ, zero, suc, ◌≤◌, ◌<◌, ◌≡◌, sym, refl, List, [], ◌∷◌, ◌++◌, Option, some, inl, inr, length,
  get_elem?, arith, ◌==◌, Bool-cases, Option-cases, if◌then◌else◌, ==_iff, ◌⊎◌,
}
use mup.Base.Text.{Text}
use mup.Base.Dict.{Dict, lookup}
use mup.Base.Results.{Result}
use mup.Simulation.{
  SimulationState, SimulatedFile, SimulatedDirectory, SimulatedProcess, Processes, Config,
  Operation, find_process, put_process, generate_operation_id, add_operation, record_operation,
  record_failure, allocate_pid, new_simulation_state, should_fail,
}
use mup.Simulation.Executor.{
  Call, to_create_directory, to_upload_file, to_upload_content, to_download_file, to_remove_file,
  to_remove_directory, to_execute, to_mongo_execute, to_background, to_kill, to_stop, to_query,
  perform, perform_all, unless_configured, create_directory, upload_file, upload_content,
  download_file, remove_file, remove_directory, execute, mongo_execute, background, start_process,
  found_download, kill_process, stop_process, set_stopped, query, add_files, add_dirs,
  add_processes, new_executor,
}

-- A process is found under its number, which is below the next one and at least 1000.
abbrev PidsBelow : ℕ → Processes → Type 0
PidsBelow next ps =
    (pid : ℕ) (p : SimulatedProcess)
    → find_process pid ps ≡ some p
    → (p.pid ≡ pid) × (1000 ≤ pid) × (pid < next)

abbrev IdsInOrder : List Operation → Type 0
IdsInOrder ops =
    (i : ℕ) (op : Operation) → get_elem? ops i ≡ some op → op.id ≡ generate_operation_id i

pub record IsNumbered (s : SimulationState) : Type 0 where
  pub ids_in_order : IdsInOrder s.operations
  pub pids_below : PidsBelow s.next_pid s.processes
  pub starts_at : 1000 ≤ s.next_pid

find_process-put :
    (pid j : ℕ) (p : SimulatedProcess) (ps : Processes)
    → find_process j (put_process pid p ps) ≡ (if pid == j then some p else find_process j ps)
unfolding find_process put_process
find_process-put pid j p [] = refl
find_process-put pid j p ((other, q) ∷ ps) = ground (arith, find_process-put pid j p ps)

put_process-PidsBelow :
    (next pid : ℕ) (p : SimulatedProcess) (ps : Processes)
    → PidsBelow next ps
    → (p.pid ≡ pid) × (1000 ≤ pid) × (pid < next)
    → PidsBelow next (put_process pid p ps)
put_process-PidsBelow next pid p ps h k j q e = elim (Bool-cases (pid == j)) [
  | inl b ↦
      let f : some p ≡ some q = rw (find_process-put pid j p ps, b) at e in
      let g : p ≡ q = cc in let same : pid ≡ j = (==_iff pid j).0 b in rw (sym g, sym same) k
  | inr b ↦ h j q (rw (find_process-put pid j p ps, b) at e)
]

get_elem?-snoc :
    (xs : List Operation) (x y : Operation) (i : ℕ)
    → get_elem? (xs ++ x ∷ []) i ≡ some y
    → (get_elem? xs i ≡ some y) ⊎ ((i ≡ length xs) × (x ≡ y))
get_elem?-snoc [] x y zero e = inr (refl, cc)
get_elem?-snoc [] x y (suc i) e = absurd (cc e)
get_elem?-snoc (z ∷ xs) x y zero e = inl e
get_elem?-snoc (z ∷ xs) x y (suc i) e = elim (get_elem?-snoc xs x y i e) [
  | inl h ↦ inl h
  | inr (h, k) ↦ inr (omega (arith, h), k)
]

add_operation-IsNumbered :
    (type target details result message : Text) (s : SimulationState)
    → IsNumbered s
    → IsNumbered (add_operation type target details result message s)
unfolding add_operation
add_operation-IsNumbered type target details result message s h = record {
  ids_in_order = λ i op e. elim (get_elem?-snoc s.operations _ op i e) [
    | inl f ↦ h.ids_in_order i op f
    | inr (f, g) ↦ rw (sym g, f) refl
  ];
  pids_below = h.pids_below;
  starts_at = h.starts_at;
}

files-IsNumbered :
    (files : Dict SimulatedFile) (s : SimulationState)
    → IsNumbered s
    → IsNumbered (record s { files = files })
files-IsNumbered files s h = record {
  ids_in_order = h.ids_in_order;
  pids_below = h.pids_below;
  starts_at = h.starts_at;
}

dirs-IsNumbered :
    (dirs : Dict SimulatedDirectory) (s : SimulationState)
    → IsNumbered s
    → IsNumbered (record s { dirs = dirs })
dirs-IsNumbered dirs s h = record {
  ids_in_order = h.ids_in_order;
  pids_below = h.pids_below;
  starts_at = h.starts_at;
}

-- A new process under the next number.
process-IsNumbered :
    (p : SimulatedProcess) (s : SimulationState)
    → p.pid ≡ s.next_pid
    → IsNumbered s
    → IsNumbered
        (record s { next_pid = suc s.next_pid; processes = put_process s.next_pid p s.processes })
process-IsNumbered p s e h = record {
  ids_in_order = h.ids_in_order;
  pids_below =
      put_process-PidsBelow (suc s.next_pid) s.next_pid p s.processes
        (λ pid q f.
          let (same, low, high) = h.pids_below pid q f in (same, low, omega (arith, high)))
        (e, h.starts_at, omega arith);
  starts_at = omega (arith, h.starts_at);
}

record_operation-IsNumbered :
    (type target details : Text) (s : SimulationState)
    → IsNumbered s
    → IsNumbered (record_operation type target details s)
unfolding record_operation
record_operation-IsNumbered type target details s h =
    add_operation-IsNumbered type target details _ _ s h

module _ (config : Config) (read_file : Text → Option Text) where
  unless_configured-IsNumbered :
      {A : Type 0} (operation target type recorded details : Text)
      (next : SimulationState → Result A × SimulationState) (s : SimulationState)
      → IsNumbered s
      → IsNumbered (next s).1
      → IsNumbered
          (unless_configured config read_file operation target
            (record_failure type recorded details)
            next
            s).1
  unfolding unless_configured record_failure
  unless_configured-IsNumbered operation target type recorded details next s h k =
      elim (Option-cases (should_fail config operation target)) [
        | inl e ↦ rw (e, unless_configured) k
        | inr (x, e) ↦
            rw (e, unless_configured) (add_operation-IsNumbered type recorded details _ _ s h)
      ]

  set_stopped-IsNumbered :
      (pid : ℕ) (s : SimulationState)
      → IsNumbered s
      → IsNumbered (set_stopped config read_file pid s)
  unfolding set_stopped
  set_stopped-IsNumbered pid s h = elim (Option-cases (find_process pid s.processes)) [
    | inl e ↦ rw (e, set_stopped) h
    | inr (p, e) ↦
        rw (e, set_stopped)
          (record {
            ids_in_order = h.ids_in_order;
            pids_below =
                put_process-PidsBelow s.next_pid pid _ s.processes h.pids_below
                  (h.pids_below pid p e);
            starts_at = h.starts_at;
          })
  ]

  download-IsNumbered :
      (path local_path : Text) (s : SimulationState)
      → IsNumbered s
      → IsNumbered (found_download config read_file path local_path s).1
  unfolding found_download
  download-IsNumbered path local_path s h = elim (Option-cases (lookup path s.files)) [
    | inl e ↦ rw (e, found_download) h
    | inr (f, e) ↦ rw (e, found_download) (record_operation-IsNumbered _ _ _ s h)
  ]

  perform-IsNumbered :
      (call : Call) (s : SimulationState)
      → IsNumbered s
      → IsNumbered (perform config read_file call s).1
  unfolding perform create_directory upload_file upload_content download_file remove_file
      remove_directory execute mongo_execute background start_process kill_process stop_process
      query allocate_pid
  perform-IsNumbered (to_create_directory path mode) s h =
      unless_configured-IsNumbered _ _ _ _ _ _ s h
        (record_operation-IsNumbered _ _ _ _ (dirs-IsNumbered _ s h))
  perform-IsNumbered (to_upload_file local_path path) s h =
      unless_configured-IsNumbered _ _ _ _ _ _ s h
        (record_operation-IsNumbered _ _ _ _ (files-IsNumbered _ s h))
  perform-IsNumbered (to_upload_content content path) s h =
      unless_configured-IsNumbered _ _ _ _ _ _ s h
        (record_operation-IsNumbered _ _ _ _ (files-IsNumbered _ s h))
  perform-IsNumbered (to_download_file path local_path) s h =
      unless_configured-IsNumbered _ _ _ _ _ _ s h (download-IsNumbered path local_path s h)
  perform-IsNumbered (to_remove_file path) s h =
      record_operation-IsNumbered _ _ _ _ (files-IsNumbered _ s h)
  perform-IsNumbered (to_remove_directory path) s h =
      record_operation-IsNumbered _ _ _ _ (dirs-IsNumbered _ s h)
  perform-IsNumbered (to_execute command) s h =
      unless_configured-IsNumbered _ _ _ _ _ _ s h (record_operation-IsNumbered _ _ _ s h)
  perform-IsNumbered (to_mongo_execute host command) s h =
      unless_configured-IsNumbered _ _ _ _ _ _ s h (record_operation-IsNumbered _ _ _ s h)
  perform-IsNumbered (to_background command) s h =
      unless_configured-IsNumbered _ _ _ _ _ _ s h
        (record_operation-IsNumbered _ _ _ _ (process-IsNumbered _ s refl h))
  perform-IsNumbered (to_kill pid) s h =
      record_operation-IsNumbered _ _ _ _ (set_stopped-IsNumbered pid s h)
  perform-IsNumbered (to_stop pid) s h =
      record_operation-IsNumbered _ _ _ _ (set_stopped-IsNumbered pid s h)
  perform-IsNumbered (to_query type target) s h = record_operation-IsNumbered _ _ _ s h

  perform_all-IsNumbered :
      (calls : List Call) (s : SimulationState)
      → IsNumbered s
      → IsNumbered (perform_all config read_file calls s)
  unfolding perform_all
  perform_all-IsNumbered [] s h = h
  perform_all-IsNumbered (call ∷ calls) s h =
      perform_all-IsNumbered calls _ (perform-IsNumbered call s h)

add_files-IsNumbered :
    (files : Dict Text) (s : SimulationState) → IsNumbered s → IsNumbered (add_files files s)
unfolding add_files
add_files-IsNumbered [] s h = h
add_files-IsNumbered ((path, content) ∷ files) s h =
    add_files-IsNumbered files _ (files-IsNumbered _ s h)

add_dirs-IsNumbered :
    (paths : List Text) (s : SimulationState) → IsNumbered s → IsNumbered (add_dirs paths s)
unfolding add_dirs
add_dirs-IsNumbered [] s h = h
add_dirs-IsNumbered (path ∷ paths) s h = add_dirs-IsNumbered paths _ (dirs-IsNumbered _ s h)

add_processes-IsNumbered :
    (commands : List Text) (s : SimulationState)
    → IsNumbered s
    → IsNumbered (add_processes commands s)
unfolding add_processes allocate_pid
add_processes-IsNumbered [] s h = h
add_processes-IsNumbered (command ∷ commands) s h =
    add_processes-IsNumbered commands _ (process-IsNumbered _ s refl h)

new-IsNumbered : IsNumbered new_simulation_state
unfolding new_simulation_state find_process
new-IsNumbered = record {
  ids_in_order = λ i op e. absurd (cc e);
  pids_below = λ pid p e. absurd (cc e);
  starts_at = omega arith;
}

-- After any calls on a new executor, whatever is configured: the operation at each position has the id of that
-- position, and each process is found under its own number, which is at least 1000 and below the next one.
pub perform_all-numbers :
    (config : Config) (read_file : Text → Option Text) (calls : List Call)
    → IsNumbered (perform_all config read_file calls (new_executor config))
unfolding new_executor
perform_all-numbers config read_file calls = perform_all-IsNumbered config read_file calls _ (
    add_processes-IsNumbered _ _
      (add_dirs-IsNumbered _ _ (add_files-IsNumbered _ _ new-IsNumbered)))
