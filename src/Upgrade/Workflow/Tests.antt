-- ===== src/Upgrade/Workflow/Tests.antt =====
-- Small upgrades run, and the theorems at such runs.
use mathlib.Core.List.Perm
use mup.Base.{ℕ, suc, ◌≡◌, refl, Bool, true, false, List, [], ◌∷◌, none, ◌⊎◌}
use mup.Base.Int.{pos}
use mup.Base.Text.{Text, codes, text_eq, show_fuel, show_nat, show_int, atoi, split}
use mup.Base.Dict.{lookup, insert}
use mup.Base.Results.{Result, ok, err}
use mup.Topology.{Topology, is_local_host, all_of, get_topology_type}
use mup.Upgrade.{
  FailoverEvent, count_checkpoint, count_completed, get_completed_node_count, get_nodes_by_status,
  get_total_node_count, initialize_state, is_completed, is_failed, is_in_progress, is_skipped,
  new_node, new_phase, phase_starts, set_node_status, set_phase_status, update_node_state,
  update_phase_state, with_status,
}
use mup.Upgrade.Prompt.{
  PromptLevel, PromptResponse, answer_round, choice_of, clean, critical_context, is_node_level,
  is_yes, node_context, parse_prompt_level, phase_context, prompt, prompt_for_failover, prompt_loop,
  should_prompt,
}
use mup.Upgrade.Env.{
  Env, ReplicaSetMember, World, call, create_checkpoint, execute_all, execute_hooks, execute_one,
  fail, ignore_error, register, save_state, set_node, set_phase, succeed, update, wrap_error, ◌>>◌,
}
use mup.Upgrade.ReplicaSet.{
  await_election, detect_node_role, find_primary, find_role, has_new_primary, host_port,
  seen_primary, step_down_primary, wait_for_primary,
}
use mup.Upgrade.Upgrader.{
  UpgradeConfig, add_name, ask, ask_node, ask_phase, begin_phase, execute_phase, finish_node,
  finish_phase, handle_prompt_response, hook, is_overall_completed, is_paused, is_phase_completed,
  is_phase_level, mark_paused, pause, phase_done, phase_response, phase_steps, replace_node,
  run_phase, shard_names, shard_phase, skip_node, upgrade_node, with_failure_hook,
}
use mup.Upgrade.Workflow.{
  after_checks, complete_upgrade, initial_state, mark_resumed, pre_flight, replace_standalone,
  resume, resume_paused, run_upgrade, scan_word, show_overall_status, upgrade, upgrade_all_shards,
  upgrade_first, upgrade_local, upgrade_phases, upgrade_sharded, upgrade_shards, upgrade_single,
  upgrade_single_set, upgrade_standalone, upgrade_standalone_node, upgrade_topology,
  upgrade_unsharded, with_cleanup,
}
use mup.Upgrade.Local.{
  address, ask_failover, ask_fcv, check_metadata, check_path, detect_roles, fail_over, fail_over_if,
  fcv_response, is_critical_level, is_primary, local_impl, node_done, note_role, post_upgrade_tasks,
  record_failover, role_or_secondary, set_role, shard_members, start_node_upgrade, step_down_node,
  unless_skip, unless_skipped, upgrade_config_servers, upgrade_fcv_if, upgrade_member,
  upgrade_members, upgrade_mongos, upgrade_mongos_node, upgrade_primary, upgrade_replica_set,
  upgrade_replica_set_node, upgrade_secondaries, upgrade_shard, validate_prerequisites,
}
use mup.Base.Text.Case.{
  contains, first_field, has_prefix, to_lower, trim_left, trim_right, trim_space, until_space,
}
use mup.Version.{
  parse_version, compare, to_string, series_key, allowed_transitions, validate_upgrade_path,
  validate_upgrade_path_strings,
}
use mup.Upgrade.Prompt.Dialogue
use mup.Upgrade.Prompt.Dialogue.{prompt-Ends}
use mup.Upgrade.Keeps.Phases.{NotCompleted}
use mup.Upgrade.Workflow.Completion.{Ends, upgrade-Ends}
use mup.Upgrade.Workflow.Invariant.{IsNamed, Follows, upgrade-Follows}
use mup.Upgrade.Workflow.Allowed.{NotChecked, upgrade_allowed}

-- The whole program, for the runs to unfold.
program : Unit {0}
unfolding split atoi add_name address after_checks all_of allowed_transitions answer_round ask
    ask_failover ask_fcv ask_node ask_phase await_election begin_phase call check_metadata
    check_path choice_of clean compare complete_upgrade contains count_checkpoint count_completed
    create_checkpoint critical_context detect_node_role detect_roles execute_all execute_hooks
    execute_one execute_phase fail fail_over fail_over_if fcv_response find_primary find_role
    finish_node finish_phase first_field get_completed_node_count get_nodes_by_status
    get_topology_type get_total_node_count handle_prompt_response has_new_primary has_prefix hook
    host_port ignore_error initial_state initialize_state insert is_completed is_critical_level
    is_failed is_in_progress is_local_host is_node_level is_overall_completed is_paused
    is_phase_completed is_phase_level is_primary is_skipped is_yes local_impl lookup mark_paused
    mark_resumed new_node new_phase node_context node_done note_role parse_prompt_level
    parse_version pause phase_context phase_done phase_response phase_starts phase_steps
    post_upgrade_tasks pre_flight prompt prompt_for_failover prompt_loop record_failover register
    replace_node replace_standalone resume resume_paused role_or_secondary run_phase run_upgrade
    save_state scan_word seen_primary series_key set_node set_node_status set_phase set_phase_status
    set_role shard_members shard_names shard_phase should_prompt show_fuel show_int show_nat
    show_overall_status skip_node start_node_upgrade step_down_node step_down_primary succeed
    text_eq to_lower to_string trim_left trim_right trim_space unless_skip unless_skipped
    until_space update update_node_state update_phase_state upgrade upgrade_all_shards
    upgrade_config_servers upgrade_fcv_if upgrade_first upgrade_local upgrade_member upgrade_members
    upgrade_mongos upgrade_mongos_node upgrade_node upgrade_phases upgrade_primary
    upgrade_replica_set upgrade_replica_set_node upgrade_secondaries upgrade_shard upgrade_sharded
    upgrade_shards upgrade_single upgrade_single_set upgrade_standalone upgrade_standalone_node
    upgrade_topology upgrade_unsharded validate_prerequisites validate_upgrade_path
    validate_upgrade_path_strings wait_for_primary with_cleanup with_failure_hook with_status
    wrap_error ◌>>◌
program = tt

abbrev members : List ReplicaSetMember
members =
    (record { host = codes "a"; port = pos 27017; state_str = codes "PRIMARY"; is_primary = true })
    ∷ []

-- A world that counts the nodes that are stopped; nothing fails in it.
abbrev small_env : Env ℕ
small_env = record {
  clock = λ w. (7, w);
  write_state = λ s w. (none, w);
  archive_state = λ s w. (none, w);
  stop_node = λ id w. (none, suc w);
  start_node = λ id w. (none, w);
  wait_for_node_healthy = λ id w. (none, w);
  verify_node_version = λ id version w. (none, w);
  get_replica_set_status = λ name hosts w. (ok members, w);
  connect = λ host w. (none, w);
  step_down = λ host w. (none, w);
  arrange = λ names w. names;
  arrange_perm = λ names w. Perm.refl names;
  remaining_checks = λ w. (none, w);
  setup_version_directories = λ w. (none, w);
  regenerate_supervisor_config = λ w. (none, w);
  start_new_supervisor = λ w. (none, w);
  cleanup_next_symlink = λ w. w;
  update_metadata = λ w. (none, w);
  upgrade_fcv = λ w. (none, w);
  stop_old_supervisor = λ w. (none, w);
  switch_symlinks = λ w. (none, w);
}

abbrev standalone : Topology Text
standalone = record {
  global = record {
    user = [];
    ssh_port = pos 22;
    deploy_dir = [];
    data_dir = [];
    log_dir = [];
    config_dir = [];
    runtime_config = none;
  };
  mongod_nodes =
      (record {
        host = codes "a";
        port = pos 27017;
        replica_set = [];
        deploy_dir = [];
        data_dir = [];
        log_dir = [];
        config_dir = [];
        runtime_config = none;
      })
      ∷ [];
  mongos_nodes = [];
  config_nodes = [];
}

abbrev config : UpgradeConfig Text ℕ
config = record {
  from_version = codes "6.0.5";
  to_version = codes "7.0.1";
  metadata_version = codes "6.0.5";
  upgrade_fcv = false;
  parallel_shards = false;
  prompt_level = PromptLevel.node;
  topology = standalone;
  dry_run = false;
  is_local = true;
  hooks = [];
}

abbrev start : World ℕ
start = record {
  state =
      initialize_state (codes "upg-1") (codes "c") (codes "mongo-6.0.5") (codes "mongo-7.0.1") 1;
  stdin = codes "v" ∷ codes " C " ∷ [];
  outside = 0;
}

abbrev dialogue : List Text
dialogue = codes "a" ∷ codes "no" ∷ codes "x" ∷ codes "abort" ∷ codes "YES" ∷ codes "c" ∷ []

-- After a look at the status the user goes on, and the node is stopped once.
run-nodes : (upgrade small_env config (local_impl small_env config) start).1.outside ≡ 1
unfolding program
run-nodes = refl

run-none : (upgrade small_env config (local_impl small_env config) start).0 ≡ none
unfolding program
run-none = refl

start-NotCompleted : NotCompleted start.state
unfolding NotCompleted is_overall_completed initialize_state
start-NotCompleted = refl

upgrade-Ends_example :
    Ends standalone
      (upgrade small_env config (local_impl small_env config) start).0
      (upgrade small_env config (local_impl small_env config) start).1.state
upgrade-Ends_example = upgrade-Ends small_env config start refl start-NotCompleted

start-IsNamed : IsNamed start.state
unfolding initialize_state lookup
start-IsNamed = (λ host n e. absurd (cc e), λ phase p e. absurd (cc e))

upgrade-Follows_example :
    Follows start.state (upgrade small_env config (local_impl small_env config) start).1.state
    × Follows start.state (resume small_env config (local_impl small_env config) start).1.state
upgrade-Follows_example = upgrade-Follows small_env config start start-IsNamed

start-NotChecked : NotChecked start.state
unfolding initialize_state lookup phase_done
start-NotChecked = refl

upgrade_allowed_example :
    (codes "6.0.5" ≡ codes "6.0.5")
    × (validate_upgrade_path_strings (codes "6.0.5") (codes "7.0.1") ≡ none)
upgrade_allowed_example = upgrade_allowed small_env config start refl start-NotChecked run-none

-- A confirmed abort after an unconfirmed one.
prompt-Ends_example :
    (should_prompt PromptLevel.node (node_context (codes "a") [] start.state) ≡ true
      × Dialogue.Ends PromptLevel.node dialogue
          (prompt PromptLevel.node (node_context (codes "a") [] start.state) dialogue))
    ⊎ (should_prompt PromptLevel.node (node_context (codes "a") [] start.state) ≡ false
        × (prompt PromptLevel.node (node_context (codes "a") [] start.state) dialogue
            ≡ (ok PromptResponse.continue, dialogue)))
prompt-Ends_example =
    prompt-Ends PromptLevel.node (node_context (codes "a") [] start.state) dialogue

dialogue-aborts :
    prompt PromptLevel.node (node_context (codes "a") [] start.state) dialogue
    ≡ (ok PromptResponse.abort, codes "c" ∷ [])
unfolding program
dialogue-aborts = refl

abbrev is_unchanged : Result FailoverEvent → Bool
is_unchanged (err e) = false
is_unchanged (ok f) = text_eq f.old_primary f.new_primary

-- The node is still the primary after its step-down, and the failover counts as done.
step_down_unchanged : is_unchanged (step_down_primary small_env (codes "a:27017") [] [] 0).0 ≡ true
unfolding program
step_down_unchanged = refl
