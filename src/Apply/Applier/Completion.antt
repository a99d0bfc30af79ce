-- ===== src/Apply/Applier/Completion.antt =====
-- What `Apply` and `Resume` return, and the state that they leave.
use mathlib.Core.List.{append-nil, append_assoc, not-mem-nil, mem-append}
use mathlib.Core.Path.{subst}
use mathlib.Core.Logic.Or
use mup.Base.{
  ◌≡◌, refl, sym, ◌∙◌, ◌⊎◌, inl, inr, true, List, [], ◌∷◌, ◌++◌, none, some, arith, Bool-cases,
  Option-cases,
}
use mup.Base.Text.{Text, codes}
use mup.Base.Results.{Error}
use mup.Plan.{Plan, PlannedPhase, after_apply, on_success, on_error}
use mup.Apply.{
  ApplyStatus, completed, failed, paused, is_resumable, error, update_status, fail_phase, log,
  can_resume,
}
use mup.Apply.Env.{Env, World, update, save_state, on_failure}
use mup.Apply.Applier.{
  Outcome, execute_phase, run_apply_hook, note_phase, set_status, save_or_give_up, fail_apply,
  pause_apply, complete_apply, apply_phases, start_apply, apply, phase_failed,
}
use mup.Apply.Applier.Groups.{Ops}
use mup.Apply.Applier.Progress.{ops_of}
use mup.Apply.Applier.Contract.{IsDone-prop, AllDone, Grows, execute_phase-Completes}
use mup.Apply.Applier.Quiet.{
  Quiet, Quiet-trans, save_state-Quiet, on_failure-Quiet, note_phase-Quiet, run_apply_hook-Quiet,
}

-- The operations of the phases, in order.
abbrev pub operations_of : List PlannedPhase → Ops
operations_of [] = []
operations_of (phase ∷ phases) = phase.operations ++ operations_of phases

-- What a call returned and left behind.
abbrev pub Run : Type 0 → Type 0
Run W = Outcome × World W

-- With no error: the returned state is the one left, completed, with the operations completed.
pub record Success {W : Type 0} (ops : Ops) (r : Run W) : Type 0 where
  pub returned : r.0.state ≡ some r.1.state
  pub finished : r.1.state.status ≡ completed
  pub all_done : AllDone ops r.1

-- With an error: no state is returned, since it could not be saved, or one that can be resumed.
pub record Failure {W : Type 0} (r : Run W) : Type 0 where
  pub resumable :
      (r.0.state ≡ none) ⊎ ((r.0.state ≡ some r.1.state) × (can_resume r.1.state ≡ true))

-- The two ways in which a call ends.
pub data Ends {W : Type 0} (ops : Ops) (r : Run W) : Type 0 where
  success : r.0.error ≡ none → Success ops r → Ends ops r
  failure : (e : Error) → r.0.error ≡ some e → Failure r → Ends ops r

module _ {W : Type 0} (env : Env W) where
  pub set_status-ops :
      (status : ApplyStatus) (w : World W) → ops_of (set_status env status w) ≡ ops_of w
  unfolding set_status update update_status
  set_status-ops status w = ground arith

  pub set_status-status :
      (status : ApplyStatus) (w : World W) → (set_status env status w).state.status ≡ status
  unfolding set_status update update_status
  set_status-status status w = ground arith

  pub save_or_give_up-Ends :
      (ops : Ops) (message : Text) (rest : World W → Run W) (w : World W)
      → ((v : World W) → Quiet w.state v.state → Ends ops (rest v))
      → Ends ops (save_or_give_up env message rest w)
  unfolding save_or_give_up
  save_or_give_up-Ends ops message rest w h = elim (Option-cases (save_state env w).0) [
    | inl e ↦ rw (e, save_or_give_up) (h (save_state env w).1 (save_state-Quiet env w))
    | inr (x, e) ↦
        rw (e, save_or_give_up) (failure (message ++ x) refl (record { resumable = inl refl }))
  ]

  pub AllDone-Quiet :
      (ops : Ops) (w v : World W) → Quiet w.state v.state → AllDone ops w → AllDone ops v
  AllDone-Quiet ops w v q h op at = rw q.same_operations (h op at)

  -- A state whose status allows a resume.
  pub resumable_at :
      (s : ApplyStatus) (v : World W)
      → v.state.status ≡ s
      → is_resumable s ≡ true
      → can_resume v.state ≡ true
  unfolding can_resume
  resumable_at s v e r = rw e r

  complete_apply-Ends :
      (ops : Ops) (p : Plan) (w : World W) → AllDone ops w → Ends ops (complete_apply env p w)
  unfolding complete_apply
  complete_apply-Ends ops p w h =
      let w0 = set_status env completed w in
      save_or_give_up-Ends ops (codes "failed to save completed state: ") _ w0 λ w1 saved.
        let w2 = run_apply_hook env after_apply (codes "after_apply") [] p w1 in
        let w3 = run_apply_hook env on_success (codes "on_success") [] p w2 in
        let quiet : Quiet w0.state w3.state = Quiet-trans saved (
          Quiet-trans (run_apply_hook-Quiet env after_apply (codes "after_apply") [] p w1)
            (run_apply_hook-Quiet env on_success (codes "on_success") [] p w2)) in
        success refl (record {
          returned = refl;
          finished = quiet.same_status ∙ set_status-status completed w;
          all_done =
              AllDone-Quiet ops w0 w3 quiet (λ op at. rw (set_status-ops completed w) (h op at));
        })

  pause_apply-Ends : (ops : Ops) (w : World W) → Ends ops (pause_apply env w)
  unfolding pause_apply
  pause_apply-Ends ops w =
      let w0 = set_status env paused w in
      save_or_give_up-Ends ops (codes "failed to save paused state: ") _ w0 λ w1 saved.
        failure (codes "apply paused by user") refl (record {
          resumable =
              inr (
                refl,
                resumable_at paused w1 (saved.same_status ∙ set_status-status paused w) refl,
              );
        })

  fail_phase-status :
      (name : Text) (e : Error) (w : World W)
      → (update env (λ now s. fail_phase now name e s) w).state.status ≡ w.state.status
  unfolding update fail_phase log
  fail_phase-status name e w = refl

  fail_apply-Ends :
      (ops : Ops) (phase : PlannedPhase) (e : Error) (p : Plan) (w : World W)
      → Ends ops (fail_apply env phase e p w)
  unfolding fail_apply
  fail_apply-Ends ops phase e p w =
      let w1 = update env (λ now s. fail_phase now phase.name e s) (set_status env failed w) in
      let handle : Error → World W → World W =
        λ x. note_phase env error phase.name (codes "failed to save state: " ++ x) in
      let w2 = on_failure handle (save_state env) w1 in
      let w3 = run_apply_hook env on_error (codes "on_error") phase.name p w2 in
      let saved =
        on_failure-Quiet handle (save_state env) w1
          (λ x. note_phase-Quiet env error phase.name (codes "failed to save state: " ++ x))
          (save_state-Quiet env w1) in
      let quiet : Quiet w1.state w3.state =
        Quiet-trans saved (run_apply_hook-Quiet env on_error (codes "on_error") phase.name p w2) in
      let status : w3.state.status ≡ failed =
        quiet.same_status
        ∙ (fail_phase-status phase.name e (set_status env failed w) ∙ set_status-status failed w) in
      failure (phase_failed phase e) refl
        (record { resumable = inr (refl, resumable_at failed w3 status refl) })

  pub Ends-eq : {xs ys : Ops} (r : Run W) → xs ≡ ys → Ends xs r → Ends ys r
  Ends-eq r e h = subst (λ (l : Ops). Ends l r) e h

  pub AllDone-append :
      (xs ys : Ops) (w v : World W) → Grows w v → AllDone xs w → AllDone ys v → AllDone (xs ++ ys) v
  AllDone-append xs ys w v g h k op at =
      Or.elim (IsDone-prop op.id v) (mem-append.0 at) (λ m. g op.id (h op m)) (k op)

  apply_phases-Ends :
      (before : Ops) (phases : List PlannedPhase) (p : Plan) (w : World W)
      → AllDone before w
      → Ends (before ++ operations_of phases) (apply_phases env phases p w)
  unfolding apply_phases
  apply_phases-Ends before [] p w h =
      Ends-eq _ (sym (append-nil before)) (complete_apply-Ends before p w h)
  apply_phases-Ends before (phase ∷ phases) p w h =
      let w' = (execute_phase env phase p w).1 in
      elim (Option-cases (execute_phase env phase p w).0) [
        | inr (x, e) ↦ rw (e, apply_phases) (fail_apply-Ends _ phase x p w')
        | inl e ↦ elim (Bool-cases (env.is_paused w'.outside)) [
          | inl c ↦ rw (e, apply_phases) (rw c (pause_apply-Ends _ w'))
          | inr c ↦
              let (done, grows) = execute_phase-Completes env phase p w e in
              rw (e, apply_phases)
                (rw c (
                  Ends-eq _ (append_assoc before phase.operations (operations_of phases)) (
                    apply_phases-Ends (before ++ phase.operations) phases p w'
                      (AllDone-append before phase.operations w w' grows h done))))
        ]
      ]

  -- `Apply` returns no error only with a completed state in which each operation of the plan is
  -- completed. If it returns an error, it returns no state or one that can be resumed.
  pub apply-Ends : (p : Plan) (v : W) → Ends (operations_of p.phases) (apply env p v)
  unfolding apply
  apply-Ends p v =
      save_or_give_up-Ends (operations_of p.phases) (codes "failed to save initial state: ") _
        (start_apply env p v)
        λ w saved. apply_phases-Ends [] p.phases p _ (λ op at. absurd (not-mem-nil at))
