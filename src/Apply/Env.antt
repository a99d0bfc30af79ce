-- ===== src/Apply/Env.antt =====
-- What an apply meets outside of its own state: the clock, the disk, the commands of hooks, the
-- executor of operations and the user who pauses. `W` is the state of all that.
use mup.Base.{ℕ, Bool, List, ◌++◌, Option}
use mup.Base.Text.{Text, codes}
use mup.Base.Results.{Error, Result}
use mup.Base.Actions.{Method}
unfoldable pub use mup.Base.Actions.{◌>>◌, wrap_error, on_failure}
use mathlib.Core.List.{Perm}
use mup.Plan.{Plan, PlannedOperation, Hook, HookEvent}
use mup.Apply.{ApplyState, OperationResult}

-- `write_state` makes the directory of the path, marshals the state and writes the file.
-- `run_command` runs a hook's command line with the added environment under its timeout.
-- `validate` and `execute` are the two methods of the interface OperationExecutor.
-- `arrange` chooses in which order the operations of a parallel group take effect.
pub record Env (W : Type 0) : Type 0 where
  pub clock : W → ℕ × W
  pub new_uuid : W → Text × W
  pub make_dir : Text → W → Option Error × W
  pub write_state : Text → ApplyState → W → Option Error × W
  pub load_plan : Text → W → Result Plan × W
  pub run_command : Hook → List Text → W → (Text × Option Error) × W
  pub validate : PlannedOperation → W → Option Error × W
  pub execute : PlannedOperation → W → Result OperationResult × W
  pub arrange : List PlannedOperation → W → List PlannedOperation
  pub arrange_perm : (ops : List PlannedOperation) (w : W) → Perm (arrange ops w) ops
  pub is_paused : W → Bool
  pub hooks : HookEvent → Option Hook
  pub cluster_dir : Text

pub record World (W : Type 0) : Type 0 where
  pub state : ApplyState
  pub outside : W

-- A method with a result of type `error`.
abbrev pub Action : Type 0 → Type 0
Action W = Method (World W)

module _ {W : Type 0} where
  -- A call of the environment that may fail.
  unfoldable pub call : (W → Option Error × W) → Action W
  call f w = let (e, v) = f w.outside in (e, record w { outside = v })

module _ {W : Type 0} (env : Env W) where
  -- A method of the state, which reads the clock.
  unfoldable pub update : (ℕ → ApplyState → ApplyState) → World W → World W
  update f w = let (now, v) = env.clock w.outside in record { state = f now w.state; outside = v }

  -- filepath.Join of parts that are clean and not empty.
  abbrev join : Text → Text → Text
  join a b = a ++ codes "/" ++ b

  unfoldable pub get_state_dir : Text
  get_state_dir = join env.cluster_dir (codes "state")

  unfoldable pub get_state_path : Text → Text
  unfolding get_state_dir
  get_state_path state_id = join get_state_dir (state_id ++ codes ".json")

  unfoldable pub get_checkpoint_dir : Text → Text
  unfolding get_state_dir
  get_checkpoint_dir state_id = join get_state_dir (state_id ++ codes "-checkpoints")

  unfoldable pub get_checkpoint_path : Text → Text → Text
  unfolding get_checkpoint_dir
  get_checkpoint_path state_id checkpoint_id =
      join (get_checkpoint_dir state_id) (checkpoint_id ++ codes ".json")

  unfoldable pub get_plan_path : Text → Text
  get_plan_path plan_id = env.cluster_dir ++ codes "/plans/" ++ plan_id ++ codes ".json"

  unfoldable pub save_state : Action W
  unfolding get_state_path
  save_state w = call (env.write_state (get_state_path w.state.state_id) w.state) w
