-- ===== src/Upgrade/Env.antt =====
-- What an upgrade meets outside of its own state: the clock, the disk, hooks, processes of nodes and
-- the driver of MongoDB. `W` is the state of all that. The hooks' registry is that of
-- pkg/upgrade/hooks.go.
use mup.Base.{ℕ, Bool, List, [], ◌∷◌, ◌++◌, Option, none, some}
use mup.Base.Text.{Text, codes}
use mup.Base.Int.{ℤ}
use mup.Base.Dict.{Dict, lookup, insert}
use mup.Base.Results.{Error, Result}
use mup.Base.Actions.{Method}
unfoldable pub use mup.Base.Actions.{◌>>◌, wrap_error, ignore_error}
use mathlib.Core.List.{Perm}
use mup.Upgrade.{
  UpgradeState, update_node_state, update_phase_state, count_checkpoint, NodeStatus, PhaseStatus,
}

-- Of the context of a hook, the fields that say where it runs.
pub record HookContext : Type 0 where
  pub hook_type : Text
  pub phase : Text
  pub node : Text
  pub node_role : Text
  pub shard_name : Text
  pub error : Option Error

pub record Hook (W : Type 0) : Type 0 where
  pub name : Text
  pub hook_type : Text
  pub run : HookContext → W → Option Error × W

pub record ReplicaSetMember : Type 0 where
  pub host : Text
  pub port : ℤ
  pub state_str : Text
  pub is_primary : Bool

-- `write_state` marshals the state and writes its file through a temporary one, `archive_state` is
-- ArchiveState. `connect` and `step_down` are the connection to a primary and its command. `arrange`
-- is the order in which Go goes over the keys of a map. The last block is the rest of LocalUpgrader.
pub record Env (W : Type 0) : Type 0 where
  pub clock : W → ℕ × W
  pub write_state : UpgradeState → W → Option Error × W
  pub archive_state : UpgradeState → W → Option Error × W
  pub stop_node : Text → W → Option Error × W
  pub start_node : Text → W → Option Error × W
  pub wait_for_node_healthy : Text → W → Option Error × W
  pub verify_node_version : Text → Text → W → Option Error × W
  pub get_replica_set_status : Text → List Text → W → Result (List ReplicaSetMember) × W
  pub connect : Text → W → Option Error × W
  pub step_down : Text → W → Option Error × W
  pub arrange : List Text → W → List Text
  pub arrange_perm : (names : List Text) (w : W) → Perm (arrange names w) names
  pub remaining_checks : W → Option Error × W
  pub setup_version_directories : W → Option Error × W
  pub regenerate_supervisor_config : W → Option Error × W
  pub start_new_supervisor : W → Option Error × W
  pub cleanup_next_symlink : W → W
  pub update_metadata : W → Option Error × W
  pub upgrade_fcv : W → Option Error × W
  pub stop_old_supervisor : W → Option Error × W
  pub switch_symlinks : W → Option Error × W

-- `stdin` is the lines of the input that are not read yet.
pub record World (W : Type 0) : Type 0 where
  pub state : UpgradeState
  pub stdin : List Text
  pub outside : W

abbrev pub Action : Type 0 → Type 0
Action W = Method (World W)

module _ {W : Type 0} where
  unfoldable pub succeed : Action W
  succeed w = (none, w)

  unfoldable pub fail : Error → Action W
  fail e w = (some e, w)

  -- A call of the environment that may fail.
  unfoldable pub call : (W → Option Error × W) → Action W
  call f w = let (e, v) = f w.outside in (e, record w { outside = v })

  -- HookRegistry.Register
  abbrev pub hooks_of : Option (List (Hook W)) → List (Hook W)
  hooks_of none = []
  hooks_of (some hooks) = hooks

  unfoldable pub register : Hook W → Dict (List (Hook W)) → Dict (List (Hook W))
  register h r = insert h.hook_type (hooks_of (lookup h.hook_type r) ++ h ∷ []) r

  -- Execute of a hook, with the error's message.
  unfoldable pub execute_one : HookContext → Hook W → Action W
  execute_one c h =
      wrap_error (λ e. codes "hook " ++ h.name ++ codes " failed: " ++ e) (call (h.run c))

  -- The loop of HookRegistry.Execute, which stops at the first error.
  unfoldable pub execute_all : HookContext → List (Hook W) → Action W
  execute_all c [] = succeed
  execute_all c (h ∷ hooks) =
      wrap_error (λ e. codes "hook execution failed: " ++ e) (execute_one c h)
      >> execute_all c hooks

  unfoldable pub execute_hooks : Dict (List (Hook W)) → HookContext → Action W
  execute_hooks r c = execute_all c (hooks_of (lookup c.hook_type r))

module _ {W : Type 0} (env : Env W) where
  -- A method of the state, which reads the clock.
  unfoldable pub update : (ℕ → UpgradeState → UpgradeState) → World W → World W
  update f w = let (now, v) = env.clock w.outside in record w { state = f now w.state; outside = v }

  unfoldable pub set_node : Text → NodeStatus → Text → World W → World W
  set_node host status message = update (λ now. update_node_state now host status message)

  unfoldable pub set_phase : Text → PhaseStatus → World W → World W
  set_phase phase status = update (λ now. update_phase_state now phase status)

  unfoldable pub save_state : Action W
  save_state w = let w1 = update count_checkpoint w in call (env.write_state w1.state) w1

  unfoldable pub create_checkpoint : Action W
  create_checkpoint = wrap_error (λ e. codes "checkpoint failed: " ++ e) save_state
