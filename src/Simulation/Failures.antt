-- ===== src/Simulation/Failures.antt =====
-- How the calls of pkg/simulation/executor.go fail, and what they record.
use mup.Base.{◌≡◌, true, [], ◌∷◌, ◌++◌, Option, none, some, length}
use mup.Base.Text.{Text, codes}
use mup.Base.Dict.{lookup}
use mup.Base.Results.{Error}
use mup.Simulation.{SimulationState, Config, Operation, should_fail, generate_operation_id}
use mup.Simulation.Executor.{
  Call, to_create_directory, to_upload_file, to_upload_content, to_download_file, to_remove_file,
  to_remove_directory, to_execute, to_mongo_execute, to_background, to_kill, to_stop, to_query,
  is_known,
}

-- One operation more, under the next number, with this result and message.
pub record Logged (result message : Text) (s t : SimulationState) : Type 0 where
  pub operation : Operation
  pub added : t.operations ≡ s.operations ++ operation ∷ []
  pub numbered : operation.id ≡ generate_operation_id (length s.operations)
  pub with_result : operation.result ≡ result
  pub with_message : operation.error ≡ message

-- Nothing but the operations differs.
pub record SameWorld (s t : SimulationState) : Type 0 where
  pub same_files : t.files ≡ s.files
  pub same_dirs : t.dirs ≡ s.dirs
  pub same_processes : t.processes ≡ s.processes
  pub same_next : t.next_pid ≡ s.next_pid

module _ (config : Config) (read_file : Text → Option Text) where
  -- The failure that is configured for a call, by the name and the target that the call asks for.
  -- Removals, signals and queries do not ask.
  unfoldable pub failure_of : Call → Option Text
  failure_of (to_create_directory path mode) = should_fail config (codes "create_directory") path
  failure_of (to_upload_file local_path path) = should_fail config (codes "upload_file") path
  failure_of (to_upload_content content path) = should_fail config (codes "upload_content") path
  failure_of (to_download_file path local_path) = should_fail config (codes "download_file") path
  failure_of (to_remove_file path) = none
  failure_of (to_remove_directory path) = none
  failure_of (to_execute command) = should_fail config (codes "execute") command
  failure_of (to_mongo_execute host command) =
      should_fail config (codes "mongo_execute") (host ++ codes ": " ++ command)
  failure_of (to_background command) = should_fail config (codes "background") command
  failure_of (to_kill pid) = none
  failure_of (to_stop pid) = none
  failure_of (to_query type target) = none

  -- A download finds its file; no other call needs one.
  abbrev pub Finds : Call → SimulationState → Type 0
  Finds (to_download_file path local_path) s = is_known (lookup path s.files) ≡ true
  Finds call s = Unit

  -- The three ways in which a call ends.
  pub data Performed (call : Call) (s : SimulationState)
      : Option Error × SimulationState → Type 0 where
    succeeded :
        (t : SimulationState)
        → failure_of call ≡ none
        → Finds call s
        → Logged (codes "success") [] s t
        → Performed call s (none, t)
    refused :
        (message : Text) (t : SimulationState)
        → failure_of call ≡ some message
        → Logged (codes "failure") message s t
        → SameWorld s t
        → Performed call s (some message, t)
    missing :
        (path local_path : Text)
        → call ≡ to_download_file path local_path
        → failure_of call ≡ none
        → lookup path s.files ≡ none
        → Performed call s (some (codes "file not found in simulated filesystem: " ++ path), s)
