-- ===== src/Apply/Hooks.antt =====
-- pkg/apply/hooks.go: running lifecycle hooks.
use mup.Base.{List, [], ◌∷◌, ◌++◌, Option, none, some, map, if◌then◌else◌}
use mup.Base.Text.{Text, codes}
use mup.Base.Results.{Error}
use mup.Plan.{Plan, Hook, HookEvent}
use mup.Apply.{
  ApplyState, ApplyStatus, Level, pending, running, paused, completed, failed, rolled_back, info,
  warn, error, log,
}
use mup.Apply.Env.{Env, World, Action, update}

unfoldable pub show_status : ApplyStatus → Text
show_status pending = codes "pending"
show_status running = codes "running"
show_status paused = codes "paused"
show_status completed = codes "completed"
show_status failed = codes "failed"
show_status rolled_back = codes "rolled_back"

-- A variable that is left out when it is empty.
abbrev optional : Text → Text → List Text
optional name [] = []
optional name (c ∷ value) = (name ++ c ∷ value) ∷ []

abbrev assignment : Text × Text → Text
assignment (k, v) = k ++ b'=' ∷ v

-- Go leaves the order in which a map is listed open; here it is the order of insertion.
unfoldable pub prepare_hook_environment : Hook → Plan → ApplyState → List Text
unfolding show_status
prepare_hook_environment hook p s =
    (codes "MUP_CLUSTER_NAME=" ++ p.cluster_name)
    ∷ (codes "MUP_OPERATION=" ++ p.operation)
    ∷ (codes "MUP_PLAN_ID=" ++ p.plan_id)
    ∷ (codes "MUP_STATE_ID=" ++ s.state_id)
    ∷ (codes "MUP_CURRENT_PHASE=" ++ s.current_phase)
    ∷ (codes "MUP_STATUS=" ++ show_status s.status)
    ∷ (optional (codes "MUP_VERSION=") p.version
        ++ (optional (codes "MUP_VARIANT=") p.variant
            ++ (map assignment p.environment ++ map assignment hook.environment)))

module _ {W : Type 0} (env : Env W) where
  -- The log line of a hook, in the current phase.
  unfoldable pub note_hook : Level → Text → World W → World W
  note_hook level message = update env (λ now s. log now level s.current_phase [] message s)

  -- What follows the command: its error is passed on unless the hook says to go on.
  unfoldable pub finish_hook : Hook → Text × Option Error → Action W
  finish_hook hook (output, none) w = (
    none,
    note_hook info
        (codes "Hook " ++ hook.name ++ codes " completed successfully\nOutput: " ++ output) w,
  )
  finish_hook hook (output, some err) w =
      let logged =
        note_hook error
          (codes "Hook " ++ hook.name ++ codes " failed: " ++ err ++ codes "\nOutput: " ++ output)
          w in
      if hook.continue_on_error
      then (
        none,
        note_hook warn
            (codes "Hook " ++ hook.name ++ codes " failed but continuing due to continue_on_error")
            logged,
      )
      else (some (codes "hook " ++ hook.name ++ codes " failed: " ++ err), logged)

  unfoldable pub execute_custom_hook : Hook → Plan → Action W
  unfolding prepare_hook_environment
  execute_custom_hook hook p w =
      let w1 = note_hook info (codes "Executing hook: " ++ hook.name) w in
      let (result, v) =
        env.run_command hook (prepare_hook_environment hook p w1.state) w1.outside in
      finish_hook hook result (record w1 { outside = v })

  unfoldable pub execute_hook : HookEvent → Plan → Action W
  execute_hook event p w = elim (env.hooks event) [
    | none ↦ (none, w)
    | some hook ↦ execute_custom_hook hook p w
  ]
