-- ===== src/Upgrade/Upgrader.antt =====
-- pkg/upgrade/upgrade.go: the phased workflow. The steps of the concrete upgrader, which the code calls
-- through UpgraderInterface, are the fields of `Impl`. Printing and fixed pauses are not modelled.
use mup.Base.{ℕ, Bool, true, false, List, [], ◌∷◌, ◌++◌, Option, none, some, if◌then◌else◌}
use mup.Base.Text.{Text, codes, text_eq, show_int}
use mup.Base.Int.{ℤ}
use mup.Base.Dict.{Dict, lookup}
use mup.Base.Results.{Error, ok, err}
use mup.Topology.{Topology, MongodNode, is_empty}
use mup.Upgrade.{UpgradeState, NodeStatus, PhaseState, PhaseStatus, OverallStatus}
use mup.Upgrade.Prompt.{
  PromptLevel, PromptResponse, PromptContext, is_node_level, prompt, phase_context, node_context,
}
use mup.Upgrade.Env.{
  Env, Action, Hook, HookContext, succeed, fail, call, execute_hooks, set_node, set_phase, update,
  save_state, create_checkpoint, ◌>>◌, wrap_error, ignore_error,
}
use mup.Upgrade.ReplicaSet.{host_port}

pub record UpgradeConfig (V W : Type 0) : Type 0 where
  pub from_version : Text
  pub to_version : Text
  pub metadata_version : Text
  pub upgrade_fcv : Bool
  pub parallel_shards : Bool
  pub prompt_level : PromptLevel
  pub topology : Topology V
  pub dry_run : Bool
  pub is_local : Bool
  pub hooks : Dict (List (Hook W))

-- UpgraderInterface, as far as the workflow calls it.
pub record Impl (W : Type 0) : Type 0 where
  pub validate_prerequisites : Action W
  pub upgrade_config_servers : Action W
  pub upgrade_shard : Text → Action W
  pub upgrade_mongos : Action W
  pub post_upgrade_tasks : Action W

abbrev pub hook_context : Text → HookContext
hook_context type = record {
  hook_type = type;
  phase = [];
  node = [];
  node_role = [];
  shard_name = [];
  error = none;
}

-- An error with the text that `fmt.Errorf` puts before it.
abbrev pub prefixed : Text → Error → Error
prefixed message e = message ++ codes ": " ++ e

unfoldable pub is_phase_completed : PhaseStatus → Bool
is_phase_completed PhaseStatus.completed = true
is_phase_completed PhaseStatus.not_started = false
is_phase_completed PhaseStatus.in_progress = false
is_phase_completed PhaseStatus.failed = false

-- The test of a map's entry that may be missing.
unfoldable pub phase_done : Option PhaseState → Bool
phase_done none = false
phase_done (some p) = is_phase_completed p.status

unfoldable pub is_phase_level : PromptLevel → Bool
is_phase_level PromptLevel.phase = true
is_phase_level PromptLevel.none = false
is_phase_level PromptLevel.node = false
is_phase_level PromptLevel.critical = false
is_phase_level (PromptLevel.other s) = false

unfoldable pub is_overall_completed : OverallStatus → Bool
is_overall_completed OverallStatus.completed = true
is_overall_completed OverallStatus.in_progress = false
is_overall_completed OverallStatus.failed = false
is_overall_completed OverallStatus.rolled_back = false
is_overall_completed OverallStatus.paused = false

unfoldable pub is_paused : OverallStatus → Bool
is_paused OverallStatus.paused = true
is_paused OverallStatus.in_progress = false
is_paused OverallStatus.completed = false
is_paused OverallStatus.failed = false
is_paused OverallStatus.rolled_back = false

-- The names of the shards in the order of their first node.
unfoldable pub add_name : Text → List Text → List Text
add_name name [] = name ∷ []
add_name name (other ∷ names) =
    let rest = add_name name names in if text_eq other name then other ∷ names else other ∷ rest

unfoldable pub shard_names : {V : Type 0} → List (MongodNode V) → List Text → List Text
shard_names [] names = names
shard_names (node ∷ nodes) names =
    shard_names nodes (if is_empty node.replica_set then names else add_name node.replica_set names)

unfoldable pub shard_phase : Text → Text
shard_phase name = codes "shard-" ++ name

module _ {V W : Type 0} (env : Env W) (config : UpgradeConfig V W) where
  unfoldable pub hook : HookContext → Action W
  hook c = execute_hooks config.hooks c

  -- A prompt's reply, with what is done for each response.
  unfoldable pub ask : PromptContext → (PromptResponse → Action W) → (Error → Error) → Action W
  ask c act wrap w =
      let (reply, rest) = prompt config.prompt_level c w.stdin in
      elim reply [
        | err e ↦ fail (wrap e) (record w { stdin = rest })
        | ok r ↦ act r (record w { stdin = rest })
      ]

  unfoldable pub mark_paused : Text → ℕ → UpgradeState → UpgradeState
  mark_paused reason now s = record s {
    overall_status = OverallStatus.paused;
    paused_at = now;
    paused_reason = reason;
    user_pause_requested = true;
  }

  -- A pause ends with an error in any case.
  unfoldable pub pause : Text → Action W
  pause reason w =
      (wrap_error (prefixed (codes "failed to save pause state")) (create_checkpoint env)
          >> fail (codes "upgrade paused"))
        (update env (mark_paused reason) w)

  unfoldable pub phase_response : PromptResponse → Action W
  phase_response PromptResponse.pause = pause (codes "User requested pause")
  phase_response PromptResponse.abort = fail (codes "upgrade aborted by user")
  phase_response PromptResponse.continue = succeed
  phase_response PromptResponse.skip = succeed

  unfoldable pub ask_phase : Text → Action W
  ask_phase phase w =
      if is_phase_level config.prompt_level
      then ask (phase_context phase w.state) phase_response (prefixed (codes "prompt failed")) w
      else succeed w

  -- After the work of a phase. The hook cannot fail it.
  unfoldable pub finish_phase : Text → Action W
  finish_phase phase w = wrap_error (prefixed (codes "checkpoint failed")) (create_checkpoint env) (
      ignore_error (hook (record (hook_context (codes "after-phase")) { phase = phase }))
        (set_phase env phase PhaseStatus.completed w))

  unfoldable pub run_phase : Text → Action W → Action W
  run_phase phase work w =
      let (e, w1) = work w in
      elim e [
        | some m ↦
            (some m, ignore_error (save_state env) (set_phase env phase PhaseStatus.failed w1))
        | none ↦ finish_phase phase w1
      ]

  unfoldable pub begin_phase : Text → Action W
  begin_phase phase w =
      wrap_error (prefixed (codes "failed to save state")) (save_state env)
        (set_phase env phase PhaseStatus.in_progress w)

  -- What a phase that is not completed comes to.
  unfoldable pub phase_steps : Text → Action W → Action W
  phase_steps phase work =
      ask_phase phase
      >> wrap_error (prefixed (codes "before-phase hook failed"))
          (hook (record (hook_context (codes "before-phase")) { phase = phase }))
      >> begin_phase phase
      >> run_phase phase work

  unfoldable pub execute_phase : Text → Action W → Action W
  execute_phase phase work w =
      if phase_done (lookup phase w.state.phases) then succeed w else phase_steps phase work w

  unfoldable pub skip_node : Text → Action W
  skip_node host w =
      let w1 = set_node env host NodeStatus.skipped (codes "User skipped") w in
      let s = w1.state in
      fail (codes "node skipped") (
        ignore_error (save_state env)
          (record w1 { state = record s { skipped_nodes = s.skipped_nodes ++ host ∷ [] } }))

  unfoldable pub handle_prompt_response : Text → PromptResponse → Action W
  handle_prompt_response host PromptResponse.skip = skip_node host
  handle_prompt_response host PromptResponse.pause = pause (codes "User requested pause")
  handle_prompt_response host PromptResponse.abort = fail (codes "upgrade aborted by user")
  handle_prompt_response host PromptResponse.continue = succeed

  unfoldable pub ask_node : Text → Text → Action W
  ask_node host role w =
      if is_node_level config.prompt_level
      then ask (node_context host role w.state) (handle_prompt_response host) (λ e. e) w
      else succeed w

  abbrev pub node_hook_context : Text → Text → Text → HookContext
  node_hook_context type host role = record (hook_context type) { node = host; node_role = role }

  -- The steps that replace the process of a node.
  unfoldable pub replace_node : Text → Action W
  replace_node id =
      wrap_error (prefixed (codes "failed to stop process")) (call (env.stop_node id))
      >> wrap_error (prefixed (codes "failed to start process")) (call (env.start_node id))
      >> wrap_error (prefixed (codes "health check failed")) (call (env.wait_for_node_healthy id))
      >> wrap_error (prefixed (codes "version verification failed"))
          (call (env.verify_node_version id config.to_version))

  -- The deferred hook of a node that failed.
  unfoldable pub with_failure_hook : Text → Text → Action W → Action W
  with_failure_hook host role work w =
      let (e, w1) = work w in
      elim e [
        | none ↦ (none, w1)
        | some m ↦ (
          some m,
          ignore_error
              (hook
                (record (node_hook_context (codes "on-node-failure") host role) { error = some m }))
              w1,
        )
      ]

  unfoldable pub finish_node : Text → Text → Action W
  finish_node host role w = succeed (
      ignore_error (create_checkpoint env) (
        set_node env host NodeStatus.completed []
          (ignore_error (hook (node_hook_context (codes "after-node-upgrade") host role)) w)))

  -- `kind` is mongod or mongos.
  unfoldable pub upgrade_node : Text → Text → ℤ → Text → Action W
  upgrade_node kind host port role =
      let node = host_port host port in
      wrap_error (prefixed (codes "before-node-upgrade hook failed"))
        (hook (node_hook_context (codes "before-node-upgrade") node role))
      >> with_failure_hook node role (replace_node (kind ++ codes "-" ++ show_int port))
      >> finish_node node role
