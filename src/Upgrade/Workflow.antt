-- ===== src/Upgrade/Workflow.antt =====
-- pkg/upgrade/upgrade.go: Upgrade and Resume, which order the phases by the topology, and NewUpgrader's
-- choice of the state to go on from.
pub mod Standalone
pub mod Shards
pub mod Path
pub mod Completion
pub mod Kept
pub mod Invariant
pub mod Allowed
mod Tests
use mup.Base.{
  ℕ, length, Bool, true, false, not, ◌||◌, List, [], ◌∷◌, ◌++◌, Option, none, some, if◌then◌else◌,
}
use mup.Base.Text.{Text, codes, text_eq, show_nat}
use mup.Base.Text.Case.{first_field}
use mup.Base.Results.{Error, Result, ok, err}
use mup.Topology.{Topology, MongodNode, get_topology_type}
use mup.Upgrade.{UpgradeState, NodeStatus, OverallStatus}
use mup.Upgrade.Env.{
  Env, World, Action, HookContext, succeed, fail, call, set_node, save_state, create_checkpoint,
  ◌>>◌, wrap_error, ignore_error,
}
use mup.Upgrade.ReplicaSet.{host_port}
use mup.Upgrade.Upgrader.{
  UpgradeConfig, Impl, hook_context, prefixed, is_overall_completed, is_paused, shard_names,
  shard_phase, hook, execute_phase, ask_node, upgrade_node,
}

-- The state that NewUpgrader goes on from: one that LoadState finds, whatever upgrade it is of.
unfoldable pub initial_state : Result UpgradeState → UpgradeState → UpgradeState
initial_state (ok existing) fresh = existing
initial_state (err e) fresh = fresh

abbrev expected_one : ℕ → Error
expected_one found = codes "expected 1 mongod for standalone, found " ++ show_nat found

abbrev cannot_resume : Text → Error
cannot_resume status =
    codes "cannot resume: upgrade status is " ++ status ++ codes " (expected paused)"

unfoldable pub show_overall_status : OverallStatus → Text
show_overall_status OverallStatus.in_progress = codes "in_progress"
show_overall_status OverallStatus.completed = codes "completed"
show_overall_status OverallStatus.failed = codes "failed"
show_overall_status OverallStatus.rolled_back = codes "rolled_back"
show_overall_status OverallStatus.paused = codes "paused"

module _ {V W : Type 0} (env : Env W) (config : UpgradeConfig V W) where
  unfoldable pub replace_standalone : MongodNode V → Action W
  replace_standalone node w =
      let host = host_port node.host node.port in
      let (e, w1) =
        upgrade_node env config (codes "mongod") node.host node.port (codes "STANDALONE")
          (ignore_error (save_state env) (set_node env host NodeStatus.in_progress [] w)) in
      elim e [
        | some m ↦ (
          some (codes "failed to upgrade " ++ host ++ codes ": " ++ m),
          ignore_error (save_state env) (set_node env host NodeStatus.failed m w1),
        )
        | none ↦ (
          none,
          ignore_error (create_checkpoint env) (set_node env host NodeStatus.completed [] w1),
        )
      ]

  unfoldable pub upgrade_standalone_node : MongodNode V → Action W
  upgrade_standalone_node node =
      ask_node env config (host_port node.host node.port) (codes "STANDALONE")
      >> replace_standalone node

  unfoldable pub upgrade_standalone : List (MongodNode V) → Action W
  upgrade_standalone (node ∷ []) = upgrade_standalone_node node
  upgrade_standalone [] = fail (expected_one 0)
  upgrade_standalone (node ∷ other ∷ nodes) = fail (expected_one (length (node ∷ other ∷ nodes)))

module _ {V W : Type 0} (env : Env W) (config : UpgradeConfig V W) (impl : Impl W) where
  unfoldable pub upgrade_shards : List Text → Action W
  upgrade_shards [] = succeed
  upgrade_shards (name ∷ names) =
      wrap_error (prefixed (codes "failed to upgrade shard " ++ name))
        (execute_phase env config (shard_phase name) (impl.upgrade_shard name))
      >> upgrade_shards names

  unfoldable pub upgrade_all_shards : Action W
  upgrade_all_shards w =
      if config.parallel_shards
      then fail (codes "parallel shard upgrades not yet implemented") w
      else upgrade_shards (env.arrange (shard_names config.topology.mongod_nodes []) w.outside) w

  unfoldable pub upgrade_sharded : Action W
  upgrade_sharded =
      wrap_error (prefixed (codes "config server upgrade failed"))
        (execute_phase env config (codes "config-servers") impl.upgrade_config_servers)
      >> wrap_error (prefixed (codes "shard upgrade failed")) upgrade_all_shards
      >> wrap_error (prefixed (codes "mongos upgrade failed"))
          (execute_phase env config (codes "mongos") impl.upgrade_mongos)

  -- `rsName` is the name of the first node. A topology with no mongod is standalone by its type.
  unfoldable pub upgrade_first : List (MongodNode V) → Action W
  upgrade_first [] = succeed
  upgrade_first (node ∷ nodes) = impl.upgrade_shard node.replica_set

  unfoldable pub upgrade_single_set : Action W
  upgrade_single_set =
      wrap_error (prefixed (codes "replica set upgrade failed"))
        (execute_phase env config (codes "shard") (upgrade_first config.topology.mongod_nodes))

  unfoldable pub upgrade_single : Action W
  upgrade_single = wrap_error (prefixed (codes "standalone upgrade failed")) (
      execute_phase env config (codes "shard")
        (upgrade_standalone env config config.topology.mongod_nodes))

  unfoldable pub upgrade_unsharded : Action W
  upgrade_unsharded w =
      if text_eq (get_topology_type config.topology) (codes "replica_set")
      then upgrade_single_set w
      else upgrade_single w

  -- The branches of the topology's type; there is no other type.
  unfoldable pub upgrade_topology : Action W
  upgrade_topology w =
      if text_eq (get_topology_type config.topology) (codes "sharded")
      then upgrade_sharded w
      else upgrade_unsharded w

  abbrev mark_completed : World W → World W
  mark_completed w = record w {
    state = record w.state { overall_status = OverallStatus.completed };
  }

  -- Neither the archive nor the hook can fail the upgrade.
  unfoldable pub complete_upgrade : Action W
  complete_upgrade w =
      let w1 = mark_completed w in
      succeed (
        ignore_error (hook env config (hook_context (codes "on-upgrade-complete")))
          (ignore_error (call (env.archive_state w1.state)) w1))

  unfoldable pub upgrade_phases : Action W
  upgrade_phases =
      upgrade_topology
      >> wrap_error (prefixed (codes "post-upgrade tasks failed"))
          (execute_phase env config (codes "post-upgrade") impl.post_upgrade_tasks)
      >> complete_upgrade

  -- The deferred removal of the link to the next version, unless the upgrade is completed.
  unfoldable pub with_cleanup : Action W → Action W
  with_cleanup work w =
      let (e, w1) = work w in
      (
        e,
        if is_overall_completed w1.state.overall_status
            then w1
            else record w1 { outside = env.cleanup_next_symlink w1.outside },
      )

  unfoldable pub upgrade_local : Action W
  upgrade_local =
      wrap_error (prefixed (codes "failed to setup version directories"))
        (call env.setup_version_directories)
      >> wrap_error (prefixed (codes "failed to generate supervisor config"))
          (call env.regenerate_supervisor_config)
      >> with_cleanup (
          wrap_error (prefixed (codes "failed to start new supervisor"))
            (call env.start_new_supervisor)
          >> upgrade_phases)

  -- The pre-flight phase, the only one after whose error the hook on-upgrade-failure runs.
  unfoldable pub pre_flight : Action W
  pre_flight w =
      let (e, w1) = execute_phase env config (codes "pre-flight") impl.validate_prerequisites w in
      elim e [
        | none ↦ (none, w1)
        | some m ↦
            let failure = prefixed (codes "pre-flight validation failed") m in
            (
              some failure,
              ignore_error
                  (hook env config
                    (record (hook_context (codes "on-upgrade-failure")) { error = some failure }))
                  w1,
            )
      ]

  unfoldable pub after_checks : Action W
  after_checks w = if config.is_local then upgrade_local w else upgrade_phases w

  unfoldable pub run_upgrade : Action W
  run_upgrade =
      wrap_error (prefixed (codes "on-upgrade-start hook failed"))
        (hook env config (hook_context (codes "on-upgrade-start")))
      >> pre_flight
      >> after_checks

  -- A dry run only makes the checks; what it prints is not modelled.
  unfoldable pub upgrade : Action W
  upgrade w =
      if config.dry_run
      then wrap_error (prefixed (codes "pre-flight validation failed")) impl.validate_prerequisites
          w
      else run_upgrade w

  -- The first word of the next line, empty at the end of the input.
  unfoldable pub scan_word : List Text → Text × List Text
  scan_word [] = ([], [])
  scan_word (line ∷ rest) = (first_field line, rest)

  unfoldable pub mark_resumed : UpgradeState → UpgradeState
  mark_resumed s = record s {
    overall_status = OverallStatus.in_progress;
    user_pause_requested = false;
  }

  unfoldable pub resume_paused : Action W
  resume_paused w =
      let (answer, rest) = scan_word w.stdin in
      if text_eq answer (codes "yes") || text_eq answer (codes "y")
      then upgrade (record w { state = mark_resumed w.state; stdin = rest })
      else fail (codes "resume cancelled by user") (record w { stdin = rest })

  unfoldable pub resume : Action W
  resume w =
      if is_paused w.state.overall_status
      then resume_paused w
      else fail (cannot_resume (show_overall_status w.state.overall_status)) w
