-- ===== src/Upgrade/Workflow/Completion.antt =====
-- How a local upgrade ends.
use mup.Base.{
  ◌≡◌, refl, Bool, true, false, Option, none, some, inl, inr, Bool-cases, Option-cases,
  if◌then◌else◌,
}
use mup.Base.Text.{Text, codes}
use mup.Base.Results.{Error}
use mup.Topology.{Topology}
use mup.Upgrade.{UpgradeState, OverallStatus}
use mup.Upgrade.Env.{Env, World, Action, HookContext, call, wrap_error, ◌>>◌, ignore_error, succeed}
use mup.Upgrade.Upgrader.{UpgradeConfig, Impl, is_overall_completed, hook, execute_phase}
use mup.Upgrade.Workflow.{
  run_upgrade, after_checks, complete_upgrade, upgrade_phases, with_cleanup, upgrade_local,
  pre_flight, upgrade,
}
use mup.Upgrade.Local.{local_impl}
use mup.Upgrade.Keeps.{
  Keeps, Establishes, call-Keeps, wrap_error-Keeps, >>-Keeps, >>-Establishes_second,
  execute_hooks-Keeps,
}
use mup.Upgrade.Workflow.Path.{
  IsPhase, NotCompleted-Sound, upgrade_topology-Keeps, post_upgrade-Keeps,
  topology_and_post-Establishes,
}
use mup.Upgrade.Keeps.Phases.{Done-status, Done, NotCompleted, execute_phase-Establishes}

pub data Ends {V : Type 0} (t : Topology V) : Option Error → UpgradeState → Type 0 where
  finished :
      {s : UpgradeState}
      → is_overall_completed s.overall_status ≡ true
      → ((p : Text) → IsPhase t p → Done p s)
      → Ends t none s
  stopped : {e : Error} {s : UpgradeState} → NotCompleted s → Ends t (some e) s

module _ {V W : Type 0} (env : Env W) (config : UpgradeConfig V W) where
  abbrev impl : Impl W
  impl = local_impl env config

  abbrev Outcome : Option Error × World W → Type 0
  Outcome r = Ends config.topology r.0 r.1.state

  hook-all : (P : UpgradeState → Type 0) (c : HookContext) → Keeps P (hook env config c)
  unfolding hook
  hook-all P c = execute_hooks-Keeps P _ c

  abbrev marked : World W → UpgradeState
  marked w = record w.state { overall_status = OverallStatus.completed }

  complete_upgrade-Ends :
      (w : World W)
      → ((p : Text) → IsPhase config.topology p → Done p w.state)
      → Outcome (complete_upgrade env config impl w)
  unfolding complete_upgrade succeed ignore_error is_overall_completed
  complete_upgrade-Ends w d =
      finished
        ((hook-all (λ s. is_overall_completed s.overall_status ≡ true) _).after _ (
          (call-Keeps (λ s. is_overall_completed s.overall_status ≡ true)
              (env.archive_state (marked w))).after
            _ refl))
        (λ p h.
          (hook-all (Done p) _).after _ (
            (call-Keeps (Done p) (env.archive_state (marked w))).after _ (Done-status p _ (d p h))))

  if-Ends :
      (b : Bool) (r r' : Option Error × World W)
      → Outcome r
      → Outcome r'
      → Outcome (if b then r else r')
  if-Ends true r r' h i = h
  if-Ends false r r' h i = i

  abbrev checks_phase : Action W
  checks_phase = execute_phase env config (codes "pre-flight") impl.validate_prerequisites

  -- A failure before the end leaves the upgrade not completed.
  >>-Ends :
      (m k : Action W) (w : World W)
      → NotCompleted (m w).1.state
      → ((m w).0 ≡ none → Outcome (k (m w).1))
      → Outcome ((m >> k) w)
  unfolding ◌>>◌
  >>-Ends m k w h i = elim (Option-cases (m w).0) [
    | inl e ↦ rw (e, ◌>>◌) (i e)
    | inr (x, e) ↦ rw (e, ◌>>◌) (stopped h)
  ]

  upgrade_phases-Ends :
      (w : World W)
      → NotCompleted w.state
      → Done (codes "pre-flight") w.state
      → Outcome (upgrade_phases env config impl w)
  unfolding upgrade_phases
  upgrade_phases-Ends w h d =
      let sound = NotCompleted-Sound env config in
      >>-Ends _ _ w
        ((>>-Keeps _ _ _ (upgrade_topology-Keeps env config sound)
            (post_upgrade-Keeps env config sound _)).after
          w h)
        (λ n. complete_upgrade-Ends _ (λ p i. topology_and_post-Establishes env config _ p i w d n))

  with_cleanup-Ends :
      (m : Action W) (w : World W) → Outcome (m w) → Outcome (with_cleanup env config impl m w)
  unfolding with_cleanup
  with_cleanup-Ends m w h = elim (Bool-cases (is_overall_completed (m w).1.state.overall_status)) [
    | inl e ↦ rw (e, with_cleanup) h
    | inr e ↦ rw (e, with_cleanup) h
  ]

  call_wrapped-Keeps :
      (P : UpgradeState → Type 0) (f : Error → Error) (g : W → Option Error × W)
      → Keeps P (wrap_error f (call g))
  call_wrapped-Keeps P f g = wrap_error-Keeps P f (call g) (call-Keeps P g)

  -- The calls that prepare a local upgrade record nothing.
  prepared-Keeps :
      (P : UpgradeState → Type 0) (f g : Error → Error)
      → Keeps P (
          wrap_error f (call env.setup_version_directories)
          >> wrap_error g (call env.regenerate_supervisor_config))
  prepared-Keeps P f g =
      >>-Keeps P _ _ (call_wrapped-Keeps P f env.setup_version_directories)
        (call_wrapped-Keeps P g env.regenerate_supervisor_config)

  started-Ends :
      (f : Error → Error) (w : World W)
      → NotCompleted w.state
      → Done (codes "pre-flight") w.state
      → Outcome ((wrap_error f (call env.start_new_supervisor) >> upgrade_phases env config impl) w)
  started-Ends f w h d =
      >>-Ends _ _ w ((call_wrapped-Keeps NotCompleted f env.start_new_supervisor).after w h) (λ n.
        upgrade_phases-Ends _
          ((call_wrapped-Keeps NotCompleted f env.start_new_supervisor).after w h)
          ((call_wrapped-Keeps (Done _) f env.start_new_supervisor).after w d))

  upgrade_local-Ends :
      (w : World W)
      → NotCompleted w.state
      → Done (codes "pre-flight") w.state
      → Outcome (upgrade_local env config impl w)
  unfolding upgrade_local
  upgrade_local-Ends w h d = >>-Ends _ _ w ((prepared-Keeps NotCompleted _ _).after w h) (λ n.
      with_cleanup-Ends _ _ (
        started-Ends _ _ ((prepared-Keeps NotCompleted _ _).after w h)
          ((prepared-Keeps (Done _) _ _).after w d)))

  after_checks-Ends :
      (w : World W)
      → NotCompleted w.state
      → Done (codes "pre-flight") w.state
      → Outcome (after_checks env config impl w)
  unfolding after_checks
  after_checks-Ends w h d =
      if-Ends config.is_local _ _ (upgrade_local-Ends w h d) (upgrade_phases-Ends w h d)

  pre_flight-Keeps : Keeps NotCompleted (pre_flight env config impl)
  unfolding pre_flight ignore_error
  pre_flight-Keeps = record {
    after = λ w p.
        let sound = NotCompleted-Sound env config in
        let q = (sound.phases (codes "pre-flight") _ sound.steps.validate).after w p in
        elim (Option-cases (checks_phase w).0) [
          | inl e ↦ rw (e, pre_flight) q
          | inr (x, e) ↦ rw (e, pre_flight) ((hook-all NotCompleted _).after _ q)
        ];
  }

  pre_flight-Establishes : Establishes (Done (codes "pre-flight")) (pre_flight env config impl)
  unfolding pre_flight
  pre_flight-Establishes = record {
    when_done = λ w n. elim (Option-cases (checks_phase w).0) [
      | inl e ↦
          rw (e, pre_flight)
            ((execute_phase-Establishes env config (codes "pre-flight") _).when_done w e)
      | inr (x, e) ↦ absurd (cc (rw (e, pre_flight) at n))
    ];
  }

  run_upgrade-Ends : (w : World W) → NotCompleted w.state → Outcome (run_upgrade env config impl w)
  unfolding run_upgrade
  run_upgrade-Ends w h =
      let checked =
        >>-Keeps NotCompleted _ _ (wrap_error-Keeps NotCompleted _ _ (hook-all NotCompleted _))
          pre_flight-Keeps in
      >>-Ends _ _ w (checked.after w h) (λ n.
        after_checks-Ends _ (checked.after w h)
          ((>>-Establishes_second _ _ _ pre_flight-Establishes).when_done w n))

if_false-Ends :
    {V W : Type 0} {t : Topology V} (b : Bool) (r r' : Option Error × World W)
    → b ≡ false
    → Ends t r'.0 r'.1.state
    → Ends t (if b then r else r').0 (if b then r else r').1.state
if_false-Ends true r r' e h = absurd (cc e)
if_false-Ends false r r' e h = h

-- A local upgrade that is not a dry run, from a state that is not completed, ends in one of two ways. It
-- returns no error, and then its status is completed and so is each phase of its topology: the checks, the
-- config servers, each replica set and the mongos of a sharded cluster, or the one shard of another, and the
-- tasks after them. Or it returns an error, and its status is not completed.
pub upgrade-Ends :
    {V W : Type 0} (env : Env W) (config : UpgradeConfig V W) (w : World W)
    → config.dry_run ≡ false
    → NotCompleted w.state
    → Ends config.topology
        (upgrade env config (local_impl env config) w).0
        (upgrade env config (local_impl env config) w).1.state
unfolding upgrade
upgrade-Ends env config w e h = if_false-Ends config.dry_run _ _ e (run_upgrade-Ends env config w h)
