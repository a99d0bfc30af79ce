-- ===== src/Apply/Applier/Quiet.antt =====
-- Steps that only log, save or run a hook: what the apply records of its progress stays as it is.
use mup.Base.{
  ◌≡◌, ◌∙◌, Bool, true, false, Option, none, some, inl, inr, arith, Bool-cases, Option-cases,
  if◌then◌else◌,
}
use mup.Base.Text.{Text}
use mup.Base.Results.{Error}
use mup.Plan.{Plan, Hook, HookEvent, PlannedPhase}
use mup.Apply.{ApplyState, Level, log}
use mup.Apply.Env.{Env, World, Action, update, save_state, on_failure, call, wrap_error, ◌>>◌}
use mup.Apply.Hooks.{execute_custom_hook, execute_hook, note_hook, finish_hook}
use mup.Apply.Checkpoints.{create_checkpoint_file, write_checkpoint, add_checkpoint}
use mup.Apply.Applier.{note_phase, run_phase_hook, run_apply_hook}

-- The two states differ at most in the log, the checkpoints and the time of the last update.
pub record Quiet (s t : ApplyState) : Type 0 where
  pub same_status : t.status ≡ s.status
  pub same_phase : t.current_phase ≡ s.current_phase
  pub same_phases : t.phase_states ≡ s.phase_states
  pub same_operations : t.operation_states ≡ s.operation_states
  pub same_errors : t.errors ≡ s.errors
  pub same_plan : t.plan_id ≡ s.plan_id

pub Quiet-refl : (s : ApplyState) → Quiet s s
Quiet-refl s = ground arith

pub Quiet-trans : {s t u : ApplyState} → Quiet s t → Quiet t u → Quiet s u
Quiet-trans h k = record {
  same_status = k.same_status ∙ h.same_status;
  same_phase = k.same_phase ∙ h.same_phase;
  same_phases = k.same_phases ∙ h.same_phases;
  same_operations = k.same_operations ∙ h.same_operations;
  same_errors = k.same_errors ∙ h.same_errors;
  same_plan = k.same_plan ∙ h.same_plan;
}

-- An action of which this holds, whether it fails or not.
abbrev pub IsQuiet : {W : Type 0} → Action W → Type 0
IsQuiet {W} m = (w : World W) → Quiet w.state (m w).1.state

-- Rules for the ways in which actions are put together.
module _ {W : Type 0} where
  call-Quiet : (f : W → Option Error × W) → IsQuiet (call f)
  unfolding call
  call-Quiet f w = Quiet-refl w.state

  pub wrap_error-Quiet : (f : Error → Error) (m : Action W) → IsQuiet m → IsQuiet (wrap_error f m)
  unfolding wrap_error
  wrap_error-Quiet f m h w = elim (Option-cases (m w).0) [
    | inl e ↦ rw (e, wrap_error) (h w)
    | inr (x, e) ↦ rw (e, wrap_error) (h w)
  ]

  >>-Quiet : (m k : Action W) → IsQuiet m → IsQuiet k → IsQuiet (m >> k)
  unfolding ◌>>◌
  >>-Quiet m k h i w = elim (Option-cases (m w).0) [
    | inl e ↦ rw (e, ◌>>◌) (Quiet-trans (h w) (i (m w).1))
    | inr (x, e) ↦ rw (e, ◌>>◌) (h w)
  ]

  pub on_failure-Quiet :
      (handle : Error → World W → World W) (m : Action W) (w : World W)
      → ((e : Error) (v : World W) → Quiet v.state (handle e v).state)
      → Quiet w.state (m w).1.state
      → Quiet w.state (on_failure handle m w).state
  unfolding on_failure
  on_failure-Quiet handle m w h k = elim (Option-cases (m w).0) [
    | inl e ↦ rw (e, on_failure) k
    | inr (x, e) ↦ rw (e, on_failure) (Quiet-trans k (h x (m w).1))
  ]

  if-Quiet :
      (b : Bool) (s : ApplyState) (r r' : Option Error × World W)
      → Quiet s r.1.state
      → Quiet s r'.1.state
      → Quiet s (if b then r else r').1.state
  if-Quiet true s r r' h k = h
  if-Quiet false s r r' h k = k

module _ {W : Type 0} (env : Env W) where
  note_hook-Quiet :
      (level : Level) (message : Text) (w : World W)
      → Quiet w.state (note_hook env level message w).state
  unfolding note_hook update log
  note_hook-Quiet level message w = ground arith

  pub note_phase-Quiet :
      (level : Level) (phase message : Text) (w : World W)
      → Quiet w.state (note_phase env level phase message w).state
  unfolding note_phase update log
  note_phase-Quiet level phase message w = ground arith

  pub save_state-Quiet : IsQuiet (save_state env)
  unfolding save_state
  save_state-Quiet w = call-Quiet _ w

  finish_hook-Quiet :
      (hook : Hook) (result : Text × Option Error) → IsQuiet (finish_hook env hook result)
  unfolding finish_hook
  finish_hook-Quiet hook (output, none) w = note_hook-Quiet _ _ w
  finish_hook-Quiet hook (output, some err) w = elim (Bool-cases hook.continue_on_error) [
    | inl e ↦ rw e (Quiet-trans (note_hook-Quiet _ _ w) (note_hook-Quiet _ _ _))
    | inr e ↦ rw e (note_hook-Quiet _ _ w)
  ]

  pub execute_custom_hook-Quiet :
      (hook : Hook) (p : Plan) → IsQuiet (execute_custom_hook env hook p)
  unfolding execute_custom_hook
  execute_custom_hook-Quiet hook p w =
      Quiet-trans (note_hook-Quiet _ _ w) (finish_hook-Quiet hook _ _)

  pub execute_hook-Quiet : (event : HookEvent) (p : Plan) → IsQuiet (execute_hook env event p)
  unfolding execute_hook
  execute_hook-Quiet event p w = elim (Option-cases (env.hooks event)) [
    | inl e ↦ rw (e, execute_hook) (Quiet-refl w.state)
    | inr (hook, e) ↦ rw (e, execute_hook) (execute_custom_hook-Quiet hook p w)
  ]

  pub run_phase_hook-Quiet :
      (which : Text) (hook : Option Hook) (phase : PlannedPhase) (p : Plan)
      → IsQuiet (run_phase_hook env which hook phase p)
  unfolding run_phase_hook
  run_phase_hook-Quiet which none phase p w = Quiet-refl w.state
  run_phase_hook-Quiet which (some hook) phase p w =
      let ran = execute_custom_hook-Quiet hook p w in
      elim (Option-cases (execute_custom_hook env hook p w).0) [
        | inl e ↦ rw (e, run_phase_hook) ran
        | inr (x, e) ↦
            rw (e, run_phase_hook)
              (if-Quiet hook.continue_on_error _ _ _ (Quiet-trans ran (note_phase-Quiet _ _ _ _))
                ran)
      ]

  pub run_apply_hook-Quiet :
      (event : HookEvent) (which phase : Text) (p : Plan) (w : World W)
      → Quiet w.state (run_apply_hook env event which phase p w).state
  unfolding run_apply_hook
  run_apply_hook-Quiet event which phase p w =
      on_failure-Quiet _ (execute_hook env event p) w (λ e. note_phase-Quiet _ phase _)
        (execute_hook-Quiet event p w)

  add_checkpoint-Quiet :
      (id description path : Text) (w : World W)
      → Quiet w.state (add_checkpoint env id description path w).state
  unfolding add_checkpoint update
  add_checkpoint-Quiet id description path w = ground arith

  write_checkpoint-Quiet : (description : Text) → IsQuiet (write_checkpoint env description)
  unfolding write_checkpoint
  write_checkpoint-Quiet description w =
      >>-Quiet _ _ (wrap_error-Quiet _ _ (call-Quiet _))
        (λ v.
          Quiet-trans (add_checkpoint-Quiet _ description _ v)
            (wrap_error-Quiet _ _ save_state-Quiet _))
        _

  pub create_checkpoint_file-Quiet :
      (description : Text) → IsQuiet (create_checkpoint_file env description)
  unfolding create_checkpoint_file
  create_checkpoint_file-Quiet description w =
      >>-Quiet _ _ (wrap_error-Quiet _ _ (call-Quiet _)) (write_checkpoint-Quiet description) w
