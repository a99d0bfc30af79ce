-- ===== src/Apply/Store/Restored.antt =====
-- A state that is restored from a checkpoint can be resumed where the checkpoint was made.
use mup.Base.{◌≡◌, refl, sym, ◌∙◌, true, inl, inr, Option-cases}
use mup.Base.Text.{Text}
use mup.Base.Results.{Result, ok, err}
use mup.Apply.{ApplyState, update_status, log, can_resume}
use mup.Apply.Env.{Env, World, update, save_state}
use mup.Apply.Store.{restore_from_checkpoint, mark_restored}
use mup.Apply.Applier.Quiet.{Quiet, save_state-Quiet}

-- What a restored state keeps of the checkpoint's.
pub record IsRestored (loaded s : ApplyState) : Type 0 where
  pub resumable : can_resume s ≡ true
  pub same_phase : s.current_phase ≡ loaded.current_phase
  pub same_phases : s.phase_states ≡ loaded.phase_states
  pub same_operations : s.operation_states ≡ loaded.operation_states
  pub same_plan : s.plan_id ≡ loaded.plan_id

IsRestored-Quiet : (loaded s t : ApplyState) → IsRestored loaded s → Quiet s t → IsRestored loaded t
unfolding can_resume
IsRestored-Quiet loaded s t h q = record {
  resumable = rw q.same_status h.resumable;
  same_phase = q.same_phase ∙ h.same_phase;
  same_phases = q.same_phases ∙ h.same_phases;
  same_operations = q.same_operations ∙ h.same_operations;
  same_plan = q.same_plan ∙ h.same_plan;
}

module _ {W : Type 0} (env : Env W) where
  mark-IsRestored : (id : Text) (w : World W) → IsRestored w.state (mark_restored env id w).state
  unfolding mark_restored update update_status log can_resume
  mark-IsRestored id w = record {
    resumable = refl;
    same_phase = refl;
    same_phases = refl;
    same_operations = refl;
    same_plan = refl;
  }

  -- If `RestoreFromCheckpoint` returns a state then it can be resumed, and its plan, its current
  -- phase and the records of its phases and operations are those of the checkpoint.
  pub restore_from_checkpoint-IsRestored :
      (loaded : Result ApplyState) (id : Text) (v : W) (s : ApplyState)
      → (restore_from_checkpoint env loaded id v).0 ≡ ok s
      → (start : ApplyState) × (loaded ≡ ok start) × IsRestored start s
  unfolding restore_from_checkpoint
  restore_from_checkpoint-IsRestored (err e) id v s h = absurd (cc h)
  restore_from_checkpoint-IsRestored (ok start) id v s h =
      let w = mark_restored env id (record { state = start; outside = v }) in
      let marked = mark-IsRestored id (record { state = start; outside = v }) in
      let saved =
        IsRestored-Quiet start w.state (save_state env w).1.state marked (save_state-Quiet env w) in
      elim (Option-cases (save_state env w).0) [
        | inr (x, e) ↦ absurd (cc (rw (e, restore_from_checkpoint) at h))
        | inl e ↦
            let same : (save_state env w).1.state ≡ s = cc (rw (e, restore_from_checkpoint) at h) in
            (start, refl, rw (sym same) saved)
      ]
