-- ===== src/Upgrade/Workflow/Kept.antt =====
-- What a whole upgrade keeps, of a predicate that its end keeps too.
use mup.Base.{◌||◌, Option, inl, inr, Bool-cases, Option-cases}
use mup.Base.Text.{codes, text_eq}
use mup.Base.Results.{Error}
use mup.Upgrade.{UpgradeState, OverallStatus}
use mup.Upgrade.Env.{Env, Action, HookContext, call, wrap_error, ignore_error, succeed, fail}
use mup.Upgrade.Upgrader.{UpgradeConfig, Impl, hook, execute_phase, is_overall_completed}
use mup.Upgrade.Local.{local_impl}
use mup.Upgrade.Keeps.{
  Keeps, call-Keeps, fail-Keeps, wrap_error-Keeps, >>-Keeps, execute_hooks-Keeps, if-Keeps,
}
use mup.Upgrade.Workflow.{
  complete_upgrade, upgrade_phases, with_cleanup, upgrade_local, pre_flight, after_checks,
  run_upgrade, upgrade, resume, resume_paused, mark_resumed, scan_word,
}
use mup.Upgrade.Workflow.Shards.{Sound}
use mup.Upgrade.Workflow.Path.{upgrade_topology-Keeps, post_upgrade-Keeps}

module _ {V W : Type 0} (env : Env W) (config : UpgradeConfig V W) {P : UpgradeState → Type 0}
    (sound : Sound env config (local_impl env config) P)
    (completes : (t : UpgradeState)
      → P t
      → P (record t { overall_status = OverallStatus.completed })) where
  abbrev steps : Impl W
  steps = local_impl env config

  hook-all : (c : HookContext) → Keeps P (hook env config c)
  unfolding hook
  hook-all c = execute_hooks-Keeps P _ c

  complete_upgrade-Keeps : Keeps P (complete_upgrade env config steps)
  unfolding complete_upgrade succeed ignore_error
  complete_upgrade-Keeps = record {
    after = λ w p.
        (hook-all _).after _ ((call-Keeps P (env.archive_state _)).after _ (completes w.state p));
  }

  upgrade_phases-Keeps : Keeps P (upgrade_phases env config steps)
  unfolding upgrade_phases
  upgrade_phases-Keeps =
      >>-Keeps P _ _
        (>>-Keeps P _ _ (upgrade_topology-Keeps env config sound)
          (post_upgrade-Keeps env config sound _))
        complete_upgrade-Keeps

  with_cleanup-Keeps : (m : Action W) → Keeps P m → Keeps P (with_cleanup env config steps m)
  unfolding with_cleanup
  with_cleanup-Keeps m h = record {
    after = λ w p. elim (Bool-cases (is_overall_completed (m w).1.state.overall_status)) [
      | inl e ↦ rw (e, with_cleanup) (h.after w p)
      | inr e ↦ rw (e, with_cleanup) (h.after w p)
    ];
  }

  call_wrapped-Keeps :
      (f : Error → Error) (g : W → Option Error × W) → Keeps P (wrap_error f (call g))
  call_wrapped-Keeps f g = wrap_error-Keeps P f (call g) (call-Keeps P g)

  upgrade_local-Keeps : Keeps P (upgrade_local env config steps)
  unfolding upgrade_local
  upgrade_local-Keeps =
      >>-Keeps P _ _
        (>>-Keeps P _ _ (call_wrapped-Keeps _ env.setup_version_directories)
          (call_wrapped-Keeps _ env.regenerate_supervisor_config))
        (with_cleanup-Keeps _
          (>>-Keeps P _ _ (call_wrapped-Keeps _ env.start_new_supervisor) upgrade_phases-Keeps))

  after_checks-Keeps : Keeps P (after_checks env config steps)
  unfolding after_checks
  after_checks-Keeps = record {
    after = λ w p.
        if-Keeps P config.is_local (upgrade_local env config steps)
          (upgrade_phases env config steps) w (upgrade_local-Keeps.after w p)
          (upgrade_phases-Keeps.after w p);
  }

  pre_flight-Keeps : Keeps P (pre_flight env config steps)
  unfolding pre_flight ignore_error
  pre_flight-Keeps = record {
    after = λ w p.
        let q = (sound.phases (codes "pre-flight") _ sound.steps.validate).after w p in
        elim (Option-cases
          (execute_phase env config (codes "pre-flight") steps.validate_prerequisites w).0) [
            | inl e ↦ rw (e, pre_flight) q
            | inr (x, e) ↦ rw (e, pre_flight) ((hook-all _).after _ q)
          ];
  }

  run_upgrade-Keeps : Keeps P (run_upgrade env config steps)
  unfolding run_upgrade
  run_upgrade-Keeps =
      >>-Keeps P _ _ (>>-Keeps P _ _ (wrap_error-Keeps P _ _ (hook-all _)) pre_flight-Keeps)
        after_checks-Keeps

  pub upgrade-Keeps : Keeps P (upgrade env config steps)
  unfolding upgrade
  upgrade-Keeps = record {
    after = λ w p.
        if-Keeps P config.dry_run (wrap_error _ steps.validate_prerequisites)
          (run_upgrade env config steps) w ((wrap_error-Keeps P _ _ sound.steps.validate).after w p)
          (run_upgrade-Keeps.after w p);
  }

  module _ (resumes : (t : UpgradeState) → P t → P (mark_resumed env config steps t)) where
    resume_paused-Keeps : Keeps P (resume_paused env config steps)
    unfolding resume_paused fail
    resume_paused-Keeps = record {
      after = λ w p.
          let word = (scan_word env config steps w.stdin).0 in
          elim (Bool-cases (text_eq word (codes "yes") || text_eq word (codes "y"))) [
            | inl e ↦ rw (e, resume_paused) (upgrade-Keeps.after _ (resumes w.state p))
            | inr e ↦ rw (e, resume_paused) p
          ];
    }

    pub resume-Keeps : Keeps P (resume env config steps)
    unfolding resume
    resume-Keeps = record {
      after = λ w p.
          if-Keeps P _ (resume_paused env config steps) (fail _) w (resume_paused-Keeps.after w p)
            ((fail-Keeps P _).after w p);
    }
