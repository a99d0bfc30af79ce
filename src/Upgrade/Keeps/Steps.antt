-- ===== src/Upgrade/Keeps/Steps.antt =====
-- What the steps of pkg/upgrade/upgrade.go keep.
use mup.Base.{ℕ, Option, inl, inr, Option-cases}
use mup.Base.Text.{Text}
use mup.Base.Int.{ℤ}
use mup.Base.Dict.{lookup}
use mup.Base.Results.{Error, Result-cases}
use mup.Upgrade.{UpgradeState, NodeStatus, PhaseStatus, update_phase_state}
use mup.Upgrade.Prompt.{PromptContext, PromptResponse, prompt, is_node_level}
use mup.Upgrade.Env.{
  Env, World, Action, HookContext, call, set_phase, wrap_error, ignore_error, succeed, fail,
}
use mup.Upgrade.Upgrader.{
  UpgradeConfig, hook, ask, pause, mark_paused, phase_response, ask_phase, finish_phase, run_phase,
  begin_phase, execute_phase, phase_steps, skip_node, handle_prompt_response, ask_node,
  replace_node, with_failure_hook, finish_node, upgrade_node, is_phase_level, phase_done,
}
use mup.Upgrade.Keeps.{
  Keeps, Kept, call-Keeps, fail-Keeps, succeed-Keeps, wrap_error-Keeps, >>-Keeps, if-Keeps,
  execute_hooks-Keeps, update-Keeps, save_state-Keeps, create_checkpoint-Keeps, set_node-Keeps,
}

-- A pause writes the status too.
abbrev pub Pausable : {V W : Type 0} → Env W → UpgradeConfig V W → (UpgradeState → Type 0) → Type 0
Pausable env config P =
    (reason : Text) (now : ℕ) (s : UpgradeState) → P s → P (mark_paused env config reason now s)

module _ {V W : Type 0} (env : Env W) (config : UpgradeConfig V W) (P : UpgradeState → Type 0)
    (kept : Kept P) (pausable : Pausable env config P) where
  pub hook-Keeps : (c : HookContext) → Keeps P (hook env config c)
  unfolding hook
  hook-Keeps c = execute_hooks-Keeps P _ c

  pub ask-Keeps :
      (c : PromptContext) (act : PromptResponse → Action W) (f : Error → Error)
      → ((r : PromptResponse) → Keeps P (act r))
      → Keeps P (ask env config c act f)
  unfolding ask fail
  ask-Keeps c act f h = record {
    after = λ w p. elim (Result-cases (prompt config.prompt_level c w.stdin).0) [
      | inl (x, e) ↦ rw (e, ask) p
      | inr (r, e) ↦ rw (e, ask) ((h r).after _ p)
    ];
  }

  pub pause-Keeps : (reason : Text) → Keeps P (pause env config reason)
  unfolding pause
  pause-Keeps reason = record {
    after = λ w p.
        (>>-Keeps P _ _ (wrap_error-Keeps P _ _ (create_checkpoint-Keeps env P kept))
            (fail-Keeps P _)).after
          _ (update-Keeps env P _ (pausable reason) w p);
  }

  phase_response-Keeps : (r : PromptResponse) → Keeps P (phase_response env config r)
  unfolding phase_response
  phase_response-Keeps PromptResponse.pause = pause-Keeps _
  phase_response-Keeps PromptResponse.abort = fail-Keeps P _
  phase_response-Keeps PromptResponse.continue = succeed-Keeps P
  phase_response-Keeps PromptResponse.skip = succeed-Keeps P

  pub ask_phase-Keeps : (phase : Text) → Keeps P (ask_phase env config phase)
  unfolding ask_phase
  ask_phase-Keeps phase = record {
    after = λ w p.
        if-Keeps P (is_phase_level config.prompt_level) (ask env config _ _ _) succeed w
          ((ask-Keeps _ _ _ phase_response-Keeps).after w p) ((succeed-Keeps P).after w p);
  }

  skip_node-Keeps : (host : Text) → Keeps P (skip_node env config host)
  unfolding skip_node fail ignore_error
  skip_node-Keeps host = record {
    after = λ w p.
        (save_state-Keeps env P kept).after _
          (kept.node_skipped host _ (set_node-Keeps env P kept host NodeStatus.skipped _ w p));
  }

  pub handle_prompt_response-Keeps :
      (host : Text) (r : PromptResponse) → Keeps P (handle_prompt_response env config host r)
  unfolding handle_prompt_response
  handle_prompt_response-Keeps host PromptResponse.skip = skip_node-Keeps host
  handle_prompt_response-Keeps host PromptResponse.pause = pause-Keeps _
  handle_prompt_response-Keeps host PromptResponse.abort = fail-Keeps P _
  handle_prompt_response-Keeps host PromptResponse.continue = succeed-Keeps P

  pub ask_node-Keeps : (host role : Text) → Keeps P (ask_node env config host role)
  unfolding ask_node
  ask_node-Keeps host role = record {
    after = λ w p.
        if-Keeps P (is_node_level config.prompt_level) (ask env config _ _ _) succeed w
          ((ask-Keeps _ _ _ (handle_prompt_response-Keeps host)).after w p)
          ((succeed-Keeps P).after w p);
  }

  replace_node-Keeps : (id : Text) → Keeps P (replace_node env config id)
  unfolding replace_node
  replace_node-Keeps id =
      let step : (f : Error → Error) (g : W → Option Error × W) → Keeps P (wrap_error f (call g)) =
        λ f g. wrap_error-Keeps P f (call g) (call-Keeps P g) in
      >>-Keeps P _ _ (>>-Keeps P _ _ (>>-Keeps P _ _ (step _ _) (step _ _)) (step _ _)) (step _ _)

  with_failure_hook-Keeps :
      (host role : Text) (m : Action W)
      → Keeps P m
      → Keeps P (with_failure_hook env config host role m)
  unfolding with_failure_hook ignore_error
  with_failure_hook-Keeps host role m h = record {
    after = λ w p. elim (Option-cases (m w).0) [
      | inl e ↦ rw (e, with_failure_hook) (h.after w p)
      | inr (x, e) ↦ rw (e, with_failure_hook) ((hook-Keeps _).after _ (h.after w p))
    ];
  }

  finish_node-Keeps : (host role : Text) → Keeps P (finish_node env config host role)
  unfolding finish_node succeed ignore_error
  finish_node-Keeps host role = record {
    after = λ w p.
        (create_checkpoint-Keeps env P kept).after _
          (set_node-Keeps env P kept host _ _ _ ((hook-Keeps _).after w p));
  }

  pub upgrade_node-Keeps :
      (kind host : Text) (port : ℤ) (role : Text)
      → Keeps P (upgrade_node env config kind host port role)
  unfolding upgrade_node
  upgrade_node-Keeps kind host port role =
      >>-Keeps P _ _
        (>>-Keeps P _ _ (wrap_error-Keeps P _ _ (hook-Keeps _))
          (with_failure_hook-Keeps _ role _ (replace_node-Keeps _)))
        (finish_node-Keeps _ role)

-- The phases that may be written without harm to the predicate.
abbrev pub KeptBy : (UpgradeState → Type 0) → Text → Type 0
KeptBy P phase =
    (now : ℕ) (status : PhaseStatus) (s : UpgradeState)
    → P s
    → P (update_phase_state now phase status s)

module _ {V W : Type 0} (env : Env W) (config : UpgradeConfig V W) (P : UpgradeState → Type 0)
    (kept : Kept P) (pausable : Pausable env config P) (phase : Text) (by : KeptBy P phase) where
  set_phase-Keeps :
      (status : PhaseStatus) (w : World W) → P w.state → P (set_phase env phase status w).state
  unfolding set_phase
  set_phase-Keeps status w p = update-Keeps env P _ (λ now s. by now status s) w p

  finish_phase-Keeps : Keeps P (finish_phase env config phase)
  unfolding finish_phase ignore_error
  finish_phase-Keeps = record {
    after = λ w p. (wrap_error-Keeps P _ _ (create_checkpoint-Keeps env P kept)).after _ (
        (hook-Keeps env config P kept pausable _).after _
          (set_phase-Keeps PhaseStatus.completed w p));
  }

  run_phase-Keeps : (work : Action W) → Keeps P work → Keeps P (run_phase env config phase work)
  unfolding run_phase ignore_error
  run_phase-Keeps work h = record {
    after = λ w p. elim (Option-cases (work w).0) [
      | inl e ↦ rw (e, run_phase) (finish_phase-Keeps.after _ (h.after w p))
      | inr (x, e) ↦
          rw (e, run_phase)
            ((save_state-Keeps env P kept).after _
              (set_phase-Keeps PhaseStatus.failed _ (h.after w p)))
    ];
  }

  begin_phase-Keeps : Keeps P (begin_phase env config phase)
  unfolding begin_phase
  begin_phase-Keeps = record {
    after = λ w p.
        (wrap_error-Keeps P _ _ (save_state-Keeps env P kept)).after _
          (set_phase-Keeps PhaseStatus.in_progress w p);
  }

  phase_steps-Keeps : (work : Action W) → Keeps P work → Keeps P (phase_steps env config phase work)
  unfolding phase_steps
  phase_steps-Keeps work h =
      >>-Keeps P _ _
        (>>-Keeps P _ _
          (>>-Keeps P _ _ (ask_phase-Keeps env config P kept pausable phase)
            (wrap_error-Keeps P _ _ (hook-Keeps env config P kept pausable _)))
          begin_phase-Keeps)
        (run_phase-Keeps work h)

  pub execute_phase-Keeps :
      (work : Action W) → Keeps P work → Keeps P (execute_phase env config phase work)
  unfolding execute_phase
  execute_phase-Keeps work h = record {
    after = λ w p.
        if-Keeps P (phase_done (lookup phase w.state.phases)) succeed
          (phase_steps env config phase work) w ((succeed-Keeps P).after w p)
          ((phase_steps-Keeps work h).after w p);
  }
