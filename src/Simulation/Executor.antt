-- ===== src/Simulation/Executor.antt =====
-- pkg/simulation/executor.go: the methods of the simulated executor, and runs of them. A method that only
-- records and answers with a constant is a `query`.
use mup.Base.{
  ℕ, zero, suc, ◌+◌, ◌/◌, ◌%◌, Bool, true, false, ◌||◌, List, [], ◌∷◌, ◌++◌, Option, none, some,
  length, ltb, if◌then◌else◌,
}
use mup.Base.Text.{Text, codes, show_nat}
use mup.Base.Dict.{Dict, lookup, insert, delete}
use mup.Base.Results.{Error, Result, ok, err}
use mup.Simulation.{
  SimulationState, SimulatedProcess, ProcessState, Config, running, stopped, record_operation,
  record_failure, allocate_pid, should_fail, get_response, fields, create_parents, dir_fuel,
  find_process, put_process, new_simulation_state,
}

-- `%o`; every round divides by eight.
unfoldable pub octal_fuel : ℕ → ℕ → Text
octal_fuel zero n = []
octal_fuel (suc f) n =
    let front = octal_fuel f (n / 8) in
    if ltb n 8 then (b'0' + n) ∷ [] else front ++ (b'0' + n % 8) ∷ []

abbrev pub put_file : Text → Text → SimulationState → SimulationState
put_file path content s = record s {
  files = insert path (record { path = path; content = content; mode = 420 }) s.files;
}

-- The first word and the others.
abbrev command_of : List Text → Text
command_of [] = []
command_of (t ∷ ts) = t

abbrev args_of : List Text → List Text
args_of [] = []
args_of (t ∷ ts) = ts

abbrev pub pid_target : ℕ → Text
pid_target pid = codes "pid:" ++ show_nat pid

abbrev pub placeholder : Text → Text
placeholder path = codes "simulated file content from " ++ path

unfoldable pub is_running : ProcessState → Bool
is_running ProcessState.running = true
is_running ProcessState.stopped = false
is_running ProcessState.failed = false

-- A call of a method.
pub data Call : Type 0 where
  to_create_directory : Text → ℕ → Call
  to_upload_file : Text → Text → Call
  to_upload_content : Text → Text → Call
  to_download_file : Text → Text → Call
  to_remove_file : Text → Call
  to_remove_directory : Text → Call
  to_execute : Text → Call
  to_mongo_execute : Text → Text → Call
  to_background : Text → Call
  to_kill : ℕ → Call
  to_stop : ℕ → Call
  to_query : Text → Text → Call

unfoldable pub is_known {ℓ} : {A : Type ℓ} → Option A → Bool
is_known none = false
is_known (some a) = true

unfoldable pub file_exists : Config → (Text → Bool) → Text → SimulationState → Bool
file_exists config stat path s =
    if config.allow_real_file_reads
    then stat path || is_known (lookup path s.files) || is_known (lookup path s.dirs)
    else is_known (lookup path s.files) || is_known (lookup path s.dirs)

module _ (config : Config) (read_file : Text → Option Text) where
  -- A method that first looks for a configured failure of `operation` on `target`, and records it.
  unfoldable pub unless_configured {ℓ} :
      {A : Type ℓ}
      → Text
      → Text
      → (Text → SimulationState → SimulationState)
      → (SimulationState → Result A × SimulationState)
      → SimulationState
      → Result A × SimulationState
  unless_configured operation target note next s = elim (should_fail config operation target) [
    | some message ↦ (err message, note message s)
    | none ↦ next s
  ]

  abbrev pub done : Result (Unit {0})
  done = ok tt

  unfoldable pub create_directory : Text → ℕ → SimulationState → Result (Unit {0}) × SimulationState
  create_directory path mode =
      unless_configured (codes "create_directory") path
        (record_failure (codes "create_directory") path [])
        (λ s. (
          done,
          record_operation (codes "create_directory") path
              (codes "mode=" ++ octal_fuel (suc mode) mode)
              (record s { dirs = create_parents (dir_fuel path) mode path s.dirs }),
        ))

  unfoldable pub uploaded_content : Text → Text
  uploaded_content local_path =
      if config.allow_real_file_reads
      then elim (read_file local_path) [ none ↦ placeholder local_path | some content ↦ content ]
      else placeholder local_path

  unfoldable pub upload_file : Text → Text → SimulationState → Result (Unit {0}) × SimulationState
  upload_file local_path remote_path =
      unless_configured (codes "upload_file") remote_path
        (record_failure (codes "upload_file") remote_path local_path)
        (λ s. (
          done,
          record_operation (codes "upload_file") remote_path local_path
              (put_file remote_path (uploaded_content local_path) s),
        ))

  unfoldable pub upload_content :
      Text → Text → SimulationState → Result (Unit {0}) × SimulationState
  upload_content content remote_path =
      unless_configured (codes "upload_content") remote_path
        (record_failure (codes "upload_content") remote_path [])
        (λ s. (
          done,
          record_operation (codes "upload_content") remote_path
              (show_nat (length content) ++ codes " bytes") (put_file remote_path content s),
        ))

  unfoldable pub found_download :
      Text → Text → SimulationState → Result (Unit {0}) × SimulationState
  found_download remote_path local_path s = elim (lookup remote_path s.files) [
    | none ↦ (err (codes "file not found in simulated filesystem: " ++ remote_path), s)
    | some f ↦ (done, record_operation (codes "download_file") remote_path local_path s)
  ]

  unfoldable pub download_file : Text → Text → SimulationState → Result (Unit {0}) × SimulationState
  download_file remote_path local_path =
      unless_configured (codes "download_file") remote_path
        (record_failure (codes "download_file") remote_path local_path)
        (found_download remote_path local_path)

  unfoldable pub remove_file : Text → SimulationState → SimulationState
  remove_file path s =
      record_operation (codes "remove_file") path [] (record s { files = delete path s.files })

  unfoldable pub remove_directory : Text → SimulationState → SimulationState
  remove_directory path s =
      record_operation (codes "remove_directory") path [] (record s { dirs = delete path s.dirs })

  unfoldable pub execute : Text → SimulationState → Result Text × SimulationState
  execute command =
      unless_configured (codes "execute") command (record_failure (codes "execute") command [])
        (λ s. (
          ok (get_response config command),
          record_operation (codes "execute") (codes "shell") command s,
        ))

  unfoldable pub mongo_execute : Text → Text → SimulationState → Result Text × SimulationState
  mongo_execute host command =
      unless_configured (codes "mongo_execute") (host ++ codes ": " ++ command)
        (record_failure (codes "mongo_execute") host command)
        (λ s. (
          ok (get_response config command),
          record_operation (codes "mongo_execute") host command s,
        ))

  unfoldable pub start_process : Text → SimulationState → Result ℕ × SimulationState
  start_process command s =
      let (pid, s1) = allocate_pid s in
      let process : SimulatedProcess = record {
        pid = pid;
        command = command_of (fields command);
        args = args_of (fields command);
        state = running;
      } in
      (
        ok pid,
        record_operation (codes "start_process") (pid_target pid) command
            (record s1 { processes = put_process pid process s1.processes }),
      )

  -- A failure is looked for under another name than it is recorded.
  unfoldable pub background : Text → SimulationState → Result ℕ × SimulationState
  background command =
      unless_configured (codes "background") command
        (record_failure (codes "start_process") command []) (start_process command)

  unfoldable pub is_process_running : ℕ → SimulationState → Bool
  is_process_running pid s = elim (find_process pid s.processes) [
    | none ↦ false
    | some p ↦ is_running p.state
  ]

  unfoldable pub set_stopped : ℕ → SimulationState → SimulationState
  set_stopped pid s = elim (find_process pid s.processes) [
    | none ↦ s
    | some p ↦ record s { processes = put_process pid (record p { state = stopped }) s.processes }
  ]

  unfoldable pub kill_process : ℕ → SimulationState → SimulationState
  kill_process pid s =
      record_operation (codes "kill_process") (pid_target pid) [] (set_stopped pid s)

  unfoldable pub stop_process : ℕ → SimulationState → SimulationState
  stop_process pid s =
      record_operation (codes "stop_process") (pid_target pid) [] (set_stopped pid s)

  unfoldable pub query : Text → Text → SimulationState → SimulationState
  query type target s = record_operation type target [] s

  abbrev pub error_of {ℓ} : {A : Type ℓ} → Result A → Option Error
  error_of (ok a) = none
  error_of (err e) = some e

  abbrev pub outcome {ℓ} :
      {A : Type ℓ} → Result A × SimulationState → Option Error × SimulationState
  outcome (r, s) = (error_of r, s)

  unfoldable pub perform : Call → SimulationState → Option Error × SimulationState
  perform (to_create_directory path mode) s = outcome (create_directory path mode s)
  perform (to_upload_file local_path path) s = outcome (upload_file local_path path s)
  perform (to_upload_content content path) s = outcome (upload_content content path s)
  perform (to_download_file path local_path) s = outcome (download_file path local_path s)
  perform (to_remove_file path) s = (none, remove_file path s)
  perform (to_remove_directory path) s = (none, remove_directory path s)
  perform (to_execute command) s = outcome (execute command s)
  perform (to_mongo_execute host command) s = outcome (mongo_execute host command s)
  perform (to_background command) s = outcome (background command s)
  perform (to_kill pid) s = (none, kill_process pid s)
  perform (to_stop pid) s = (none, stop_process pid s)
  perform (to_query type target) s = (none, query type target s)

  unfoldable pub perform_all : List Call → SimulationState → SimulationState
  perform_all [] s = s
  perform_all (c ∷ calls) s = perform_all calls (perform c s).1

-- NewExecutor. Go goes over the existing files in any order; each has its own path.
unfoldable pub add_files : Dict Text → SimulationState → SimulationState
add_files [] s = s
add_files ((path, content) ∷ files) s = add_files files (put_file path content s)

unfoldable pub add_dirs : List Text → SimulationState → SimulationState
add_dirs [] s = s
add_dirs (path ∷ paths) s =
    add_dirs paths (record s { dirs = insert path (record { path = path; mode = 493 }) s.dirs })

unfoldable pub add_processes : List Text → SimulationState → SimulationState
add_processes [] s = s
add_processes (command ∷ commands) s =
    let (pid, s1) = allocate_pid s in
    let process : SimulatedProcess = record {
      pid = pid;
      command = command;
      args = [];
      state = running;
    } in
    add_processes commands (record s1 { processes = put_process pid process s1.processes })

unfoldable pub new_executor : Config → SimulationState
new_executor c =
    add_processes c.running_processes
      (add_dirs c.existing_directories (add_files c.existing_files new_simulation_state))
