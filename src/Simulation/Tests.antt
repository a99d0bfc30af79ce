-- ===== src/Simulation/Tests.antt =====
-- A run of the simulated executor, and the theorems at it.
use mup.Base.{◌≡◌, refl, true, false, List, [], ◌∷◌, Option, none, some, arith}
use mup.Base.Text.{Text, codes, text_eq, show_fuel, show_nat, split}
use mup.Base.Text.Path.{
  before_slash, clean_path, clean_parts, push_part, pop_part, is_blank, is_rooted, finish_path,
  join_parts, dir_name,
}
use mup.Base.Dict.{lookup, insert, delete}
use mup.Simulation.{
  Config, SimulatedDirectory, set_failure, set_response, create_parents, is_top,
  new_simulation_state, pad_left, generate_operation_id, add_operation, record_operation,
  record_failure, allocate_pid, find_failure, should_fail, get_response, words, without_empty,
  fields, ensure_dir, find_process, put_process, dir_fuel,
}
use mup.Simulation.Executor.{
  Call, to_create_directory, to_upload_content, to_background, to_kill, perform, perform_all,
  new_executor, octal_fuel, unless_configured, create_directory, upload_content, background,
  start_process, kill_process, set_stopped, execute, add_files, add_dirs, add_processes,
  is_process_running, is_running,
}
use mup.Simulation.Parents.{Loop, IsParent, IsMade, create_parents-Loops}
use mup.Simulation.Failures.{failure_of}
use mup.Simulation.Numbers.{IsNumbered, perform_all-numbers}
use mup.Simulation.Files.{contents, effect, effects, perform_all-effects}

program : Unit {0}
unfolding text_eq show_fuel show_nat lookup insert delete set_failure set_response create_parents
    is_top new_simulation_state pad_left generate_operation_id add_operation record_operation
    record_failure allocate_pid find_failure should_fail get_response words without_empty fields
    before_slash clean_path clean_parts push_part pop_part is_blank is_rooted finish_path join_parts
    split dir_name ensure_dir find_process put_process perform perform_all new_executor octal_fuel
    unless_configured create_directory upload_content background start_process kill_process
    set_stopped execute add_files add_dirs add_processes is_process_running is_running failure_of
    effect effects
program = tt

abbrev config : Config
config = record {
  responses = (codes "whoami", codes "mongodb") ∷ [];
  failures =
      (record {
        operation = codes "upload_content";
        target = codes "/b";
        error = codes "disk full";
      })
      ∷ [];
  allow_real_file_reads = false;
  existing_files = (codes "/a", codes "x") ∷ [];
  existing_directories = codes "/data" ∷ [];
  running_processes = codes "mongod" ∷ [];
}

abbrev no_file : Text → Option Text
no_file path = none

abbrev calls : List Call
calls =
    to_create_directory (codes "/data/db/x") 493
    ∷ to_upload_content (codes "y") (codes "/a")
    ∷ to_upload_content (codes "z") (codes "/b")
    ∷ to_background (codes " mongod  --config f ")
    ∷ to_kill 1000
    ∷ []

process_runs :
    is_process_running config no_file 1001 (perform_all config no_file calls (new_executor config))
    ≡ true
unfolding program
process_runs = refl

process_killed :
    is_process_running config no_file 1000 (perform_all config no_file calls (new_executor config))
    ≡ false
unfolding program
process_killed = refl

file_written :
    contents (perform_all config no_file calls (new_executor config)) (codes "/a")
    ≡ some (codes "y")
unfolding program
file_written = refl

id_of_twelfth : generate_operation_id 11 ≡ codes "op-0012"
unfolding program
id_of_twelfth = refl

perform_all-numbers_example : IsNumbered (perform_all config no_file calls (new_executor config))
perform_all-numbers_example = perform_all-numbers config no_file calls

perform_all-effects_example :
    contents (perform_all config no_file calls (new_executor config)) (codes "/b")
    ≡ effects config no_file calls (contents (new_executor config)) (codes "/b")
perform_all-effects_example =
    perform_all-effects config no_file calls (new_executor config) (codes "/b")

upload_fails :
    failure_of config no_file (to_upload_content (codes "z") (codes "/b"))
    ≡ some (codes "disk full")
unfolding program
upload_fails = refl

abbrev path : Text
path = codes "/data//db"

create_parents-Loops_example :
    Loop 493 path [] (create_parents (dir_fuel path) 493 path [])
    × ((other : Text)
        → IsParent path other
        → is_top other ≡ false
        → (d : SimulatedDirectory) × (lookup other (create_parents (dir_fuel path) 493 path [])
            ≡ some d))
    × ((j : Text) (d : SimulatedDirectory)
        → lookup j [] ≡ some d
        → lookup j (create_parents (dir_fuel path) 493 path []) ≡ some d)
    × ((j : Text) (d : SimulatedDirectory)
        → lookup {V = SimulatedDirectory} j [] ≡ none
        → lookup j (create_parents (dir_fuel path) 493 path []) ≡ some d
        → IsMade 493 path j d)
create_parents-Loops_example = create_parents-Loops 493 (dir_fuel path) path [] (omega arith)

-- filepath.Dir cleans what it returns.
dir_name_unclean :
    (dir_name (codes "/a//b") ≡ codes "/a")
    × (dir_name (codes "a/../../x") ≡ codes "..")
    × (dir_name (codes "/../x/") ≡ codes "/x")
    × (dir_name (codes "./x") ≡ codes ".")
unfolding program
dir_name_unclean = (refl, refl, refl, refl)
