-- ===== src/Upgrade/Keeps/Phases.antt =====
-- A phase that is completed stays so, and an upgrade is completed only at its end.
use mup.Base.{ℕ, ◌≡◌, refl, true, false, inl, inr, Bool-cases, Option-cases}
use mup.Base.Text.{Text, text_eq, text_eq_iff}
use mup.Base.Dict.{lookup, lookup-insert, lookup-insert_self}
use mup.Upgrade.{
  UpgradeState, OverallStatus, PhaseStatus, update_phase_state, update_node_state, count_checkpoint,
  set_phase_status, new_phase, or_new,
}
use mup.Upgrade.Env.{Env, World, Action, set_phase, update, ignore_error, succeed}
use mup.Upgrade.Upgrader.{
  UpgradeConfig, phase_done, is_phase_completed, is_overall_completed, mark_paused, execute_phase,
  phase_steps, run_phase, finish_phase,
}
use mup.Upgrade.Keeps.{
  Keeps, Establishes, Kept, wrap_error-Keeps, create_checkpoint-Keeps, >>-Establishes_second,
}
use mup.Upgrade.Keeps.Steps.{Pausable, KeptBy, hook-Keeps, execute_phase-Keeps}

pub Done : Text → UpgradeState → Type 0
Done p s = phase_done (lookup p s.phases) ≡ true

unfoldable pub NotCompleted : UpgradeState → Type 0
NotCompleted s = is_overall_completed s.overall_status ≡ false

pub Done-IsProp : (p : Text) (s : UpgradeState) → IsProp (Done p s)
unfolding Done
Done-IsProp p s = hlevel

pub Done-status :
    (p : Text) (s : UpgradeState)
    → Done p s
    → Done p (record s { overall_status = OverallStatus.completed })
unfolding Done
Done-status p s h = h

pub Done-Kept : (p : Text) → Kept (Done p)
unfolding Done count_checkpoint update_node_state
Done-Kept p = record {
  counted = λ now s h. h;
  node_updated = λ now host status message s h. h;
  node_skipped = λ host s h. h;
  role_set = λ host role n s e h. h;
  failed_over = λ event s h. h;
}

pub Done-Pausable :
    {V W : Type 0} (env : Env W) (config : UpgradeConfig V W) (p : Text)
    → Pausable env config (Done p)
unfolding Done mark_paused
Done-Pausable env config p reason now s h = h

pub NotCompleted-Kept : Kept NotCompleted
unfolding NotCompleted count_checkpoint update_node_state
NotCompleted-Kept = record {
  counted = λ now s h. h;
  node_updated = λ now host status message s h. h;
  node_skipped = λ host s h. h;
  role_set = λ host role n s e h. h;
  failed_over = λ event s h. h;
}

pub NotCompleted-Pausable :
    {V W : Type 0} (env : Env W) (config : UpgradeConfig V W) → Pausable env config NotCompleted
unfolding NotCompleted mark_paused is_overall_completed
NotCompleted-Pausable env config reason now s h = refl

pub NotCompleted-KeptBy : (phase : Text) → KeptBy NotCompleted phase
unfolding NotCompleted update_phase_state
NotCompleted-KeptBy phase now status s h = h

Done-KeptBy : (p q : Text) → text_eq q p ≡ false → KeptBy (Done p) q
unfolding Done update_phase_state
Done-KeptBy p q e now status s h =
    rw
      (
        lookup-insert q p (set_phase_status now status (or_new (lookup q s.phases) (new_phase q)))
            s.phases,
        e,
      )
      h

update_phase_state-Done :
    (now : ℕ) (q : Text) (s : UpgradeState)
    → Done q (update_phase_state now q PhaseStatus.completed s)
unfolding Done update_phase_state set_phase_status phase_done is_phase_completed
update_phase_state-Done now q s =
    rw
      (lookup-insert_self q
        (set_phase_status now PhaseStatus.completed (or_new (lookup q s.phases) (new_phase q)))
        s.phases)
      refl

module _ {V W : Type 0} (env : Env W) (config : UpgradeConfig V W) where
  finish_phase-Done : (q : Text) (w : World W) → Done q (finish_phase env config q w).1.state
  unfolding finish_phase ignore_error set_phase update
  finish_phase-Done q w =
      (wrap_error-Keeps (Done q) _ _ (create_checkpoint-Keeps env (Done q) (Done-Kept q))).after _ (
        (hook-Keeps env config (Done q) (Done-Kept q) (Done-Pausable env config q) _).after _
          (update_phase_state-Done _ q w.state))

  run_phase-Establishes :
      (q : Text) (work : Action W) → Establishes (Done q) (run_phase env config q work)
  unfolding run_phase
  run_phase-Establishes q work = record {
    when_done = λ w n. elim (Option-cases (work w).0) [
      | inl e ↦ rw (e, run_phase) (finish_phase-Done q (work w).1)
      | inr (x, e) ↦ absurd (cc (rw (e, run_phase) at n))
    ];
  }

  -- A phase that does not fail is completed after it.
  pub execute_phase-Establishes :
      (q : Text) (work : Action W) → Establishes (Done q) (execute_phase env config q work)
  unfolding execute_phase phase_steps succeed Done
  execute_phase-Establishes q work = record {
    when_done = λ w n. elim (Bool-cases (phase_done (lookup q w.state.phases))) [
      | inl e ↦ rw e e
      | inr e ↦ rw e (
          (>>-Establishes_second (Done q) _ _ (run_phase-Establishes q work)).when_done w
            (rw e at n))
    ];
  }

  Done-again :
      (p q : Text) (work : Action W) (w : World W)
      → q ≡ p
      → Done p w.state
      → Done p (execute_phase env config q work w).1.state
  unfolding execute_phase succeed Done
  Done-again p q work w e d = let f : phase_done (lookup q w.state.phases) ≡ true = rw e d in rw f d

  -- A phase leaves those completed that are.
  pub execute_phase-Done :
      (p q : Text) (work : Action W)
      → Keeps (Done p) work
      → Keeps (Done p) (execute_phase env config q work)
  execute_phase-Done p q work h = elim (Bool-cases (text_eq q p)) [
    | inr e ↦
        execute_phase-Keeps env config (Done p) (Done-Kept p) (Done-Pausable env config p) q
          (Done-KeptBy p q e) work h
    | inl e ↦ record { after = λ w d. Done-again p q work w ((text_eq_iff q p).0 e) d }
  ]
