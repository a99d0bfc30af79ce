-- ===== src/Upgrade/Workflow/Allowed.antt =====
-- An upgrade that succeeds is one that the rules on versions allow.
use mup.Base.{
  ◌≡◌, Bool, true, false, Option, none, inl, inr, Bool-cases, Option-cases, if◌then◌else◌,
}
use mup.Base.Text.{Text, codes, text_eq, text_eq_iff}
use mup.Base.Dict.{lookup}
use mup.Base.Results.{Error}
use mup.Version.{validate_upgrade_path_strings}
use mup.Upgrade.{UpgradeState}
use mup.Upgrade.Env.{Env, World, Action, HookContext, fail}
use mup.Upgrade.Upgrader.{UpgradeConfig, hook, phase_done, run_phase, phase_steps, execute_phase}
use mup.Upgrade.Local.{local_impl, check_metadata, check_path, validate_prerequisites}
use mup.Upgrade.Keeps.{
  Keeps, Establishes, >>-none, >>-Establishes_first, >>-Establishes_second, wrap_error-Establishes,
  wrap_error-Keeps, execute_hooks-Keeps,
}
use mup.Upgrade.Workflow.{pre_flight, run_upgrade, upgrade}

abbrev pub NotChecked : UpgradeState → Type 0
NotChecked s = phase_done (lookup (codes "pre-flight") s.phases) ≡ false

module _ {V W : Type 0} (env : Env W) (config : UpgradeConfig V W) where
  -- The two conditions do not depend on the state.
  abbrev pub IsAllowed : UpgradeState → Type 0
  IsAllowed s =
      (config.metadata_version ≡ config.from_version)
      × (validate_upgrade_path_strings config.from_version config.to_version ≡ none)

  const-Keeps : (m : Action W) → Keeps IsAllowed m
  const-Keeps m = record { after = λ w p. p }

  abbrev SameVersion : UpgradeState → Type 0
  SameVersion s = config.metadata_version ≡ config.from_version

  check_metadata-Establishes : Establishes SameVersion (check_metadata env config)
  unfolding check_metadata fail
  check_metadata-Establishes = record {
    when_done = λ w n. elim (Bool-cases (text_eq config.metadata_version config.from_version)) [
      | inl e ↦ (text_eq_iff config.metadata_version config.from_version).0 e
      | inr e ↦ absurd (cc (rw e at n))
    ];
  }

  abbrev PathAllowed : UpgradeState → Type 0
  PathAllowed s = validate_upgrade_path_strings config.from_version config.to_version ≡ none

  check_path-Establishes : Establishes PathAllowed (check_path env config)
  unfolding check_path
  check_path-Establishes = record { when_done = λ w n. n }

  validate-Establishes : Establishes IsAllowed (validate_prerequisites env config)
  unfolding validate_prerequisites
  validate-Establishes = record {
    when_done = λ w n. (
      (>>-Establishes_first SameVersion _ _
            (>>-Establishes_first SameVersion _ _ check_metadata-Establishes
              (record { after = λ v p. p }))
            (record { after = λ v p. p })).when_done
          w n,
      (>>-Establishes_first PathAllowed _ _
            (>>-Establishes_second PathAllowed _ _
              (wrap_error-Establishes PathAllowed _ _ check_path-Establishes))
            (record { after = λ v p. p })).when_done
          w n,
    );
  }

  run_phase-Establishes :
      (q : Text) (work : Action W)
      → Establishes IsAllowed work
      → Establishes IsAllowed (run_phase env config q work)
  unfolding run_phase
  run_phase-Establishes q work h = record {
    when_done = λ w n. elim (Option-cases (work w).0) [
      | inl e ↦ h.when_done w e
      | inr (x, e) ↦ absurd (cc (rw (e, run_phase) at n))
    ];
  }

  execute_phase-IsAllowed :
      (q : Text) (work : Action W) (w : World W)
      → Establishes IsAllowed work
      → phase_done (lookup q w.state.phases) ≡ false
      → (execute_phase env config q work w).0 ≡ none
      → IsAllowed w.state
  unfolding execute_phase phase_steps
  execute_phase-IsAllowed q work w h c n =
      (>>-Establishes_second IsAllowed _ _ (run_phase-Establishes q work h)).when_done w (rw c at n)

  pre_flight-IsAllowed :
      (w : World W)
      → NotChecked w.state
      → (pre_flight env config (local_impl env config) w).0 ≡ none
      → IsAllowed w.state
  unfolding pre_flight local_impl
  pre_flight-IsAllowed w c n =
      elim (Option-cases
        (execute_phase env config (codes "pre-flight") (validate_prerequisites env config) w).0) [
          | inl e ↦ execute_phase-IsAllowed _ _ w validate-Establishes c e
          | inr (x, e) ↦ absurd (cc (rw (e, pre_flight) at n))
        ]

  hook-NotChecked : (c : HookContext) → Keeps NotChecked (hook env config c)
  unfolding hook
  hook-NotChecked c = execute_hooks-Keeps NotChecked _ c

  run_upgrade-IsAllowed :
      (w : World W)
      → NotChecked w.state
      → (run_upgrade env config (local_impl env config) w).0 ≡ none
      → IsAllowed w.state
  unfolding run_upgrade
  run_upgrade-IsAllowed w c n =
      let checked = (>>-none _ _ w n).0 in
      pre_flight-IsAllowed _ ((wrap_error-Keeps NotChecked _ _ (hook-NotChecked _)).after w c)
        (>>-none _ _ w checked).1

if_false-none :
    {W : Type 0} (b : Bool) (r r' : Option Error × World W)
    → b ≡ false
    → (if b then r else r').0 ≡ none
    → r'.0 ≡ none
if_false-none true r r' e n = absurd (cc e)
if_false-none false r r' e n = n

-- Where a local upgrade that is not a dry run starts from a record whose checks are not completed and returns
-- no error, the metadata of the cluster had the version it upgrades from, and the rules on versions allow
-- the path to the other.
pub upgrade_allowed :
    {V W : Type 0} (env : Env W) (config : UpgradeConfig V W) (w : World W)
    → config.dry_run ≡ false
    → NotChecked w.state
    → (upgrade env config (local_impl env config) w).0 ≡ none
    → (config.metadata_version ≡ config.from_version)
      × (validate_upgrade_path_strings config.from_version config.to_version ≡ none)
unfolding upgrade
upgrade_allowed env config w d c n =
    run_upgrade-IsAllowed env config w c (if_false-none config.dry_run _ _ d n)
