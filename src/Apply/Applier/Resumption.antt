-- ===== src/Apply/Applier/Resumption.antt =====
-- What `Resume` does.
use mup.Base.{
  ◌≡◌, ◌≢◌, false, ap, inl, inr, true, List, [], ◌∷◌, ◌++◌, none, some, Bool-cases, Option,
}
use mup.Base.Text.{Text, codes, text_eq, text_eq_iff}
use mup.Base.Results.{Error, Result, ok, err}
use mup.Plan.{Plan, PlannedPhase}
use mup.Apply.{running, error, can_resume}
use mup.Apply.Env.{Env, World, save_state, get_plan_path}
use mup.Apply.Applier.{set_status, find_phase_index}
use mup.Apply.Hooks.{show_status}
use mup.Apply.Applier.Completion.{operations_of, Run, Ends}

-- `phases` is what is left of `all` from the first phase with that name on.
pub record IsRest (name : Text) (all phases : List PlannedPhase) : Type 0 where
  pub first : PlannedPhase
  pub others : List PlannedPhase
  pub skipped : List PlannedPhase
  pub begins : phases ≡ first ∷ others
  pub named : first.name ≡ name
  pub split : all ≡ skipped ++ phases

IsRest-skip :
    (x : PlannedPhase) {name : Text} {all phases : List PlannedPhase}
    → IsRest name all phases
    → IsRest name (x ∷ all) phases
IsRest-skip x r = record {
  first = r.first;
  others = r.others;
  skipped = x ∷ r.skipped;
  begins = r.begins;
  named = r.named;
  split = ap (λ (l : List PlannedPhase). x ∷ l) r.split;
}

pub find_phase_index-IsRest :
    (name : Text) (all phases : List PlannedPhase)
    → find_phase_index name all ≡ some phases
    → IsRest name all phases
unfolding find_phase_index
find_phase_index-IsRest name [] phases e = absurd (cc)
find_phase_index-IsRest name (x ∷ all) phases e = elim (Bool-cases (text_eq x.name name)) [
  | inl same ↦
      let found : some (x ∷ all) ≡ some phases = (rw same at e) in
      record {
        first = x;
        others = all;
        skipped = [];
        begins = cc found;
        named = (text_eq_iff x.name name).0 same;
        split = cc found;
      }
  | inr other ↦ IsRest-skip x (find_phase_index-IsRest name all phases (rw other at e))
]

-- None of the phases has that name.
abbrev pub Lacks : Text → List PlannedPhase → Type 0
Lacks name [] = Unit
Lacks name (phase ∷ phases) = (phase.name ≢ name) × Lacks name phases

module _ {W : Type 0} (env : Env W) where
  -- The save of the running state with which a resume begins, and the plan that is loaded after it.
  abbrev pub first_save : World W → Option Error × World W
  first_save w = save_state env (set_status env running w)

  abbrev pub loaded : World W → Result Plan
  loaded w = (env.load_plan (get_plan_path env w.state.plan_id) (first_save w).1.outside).0

  -- Why a resume is refused, and with which error: by the status of the state, by a save that fails, by
  -- a plan that cannot be loaded or that has no phase of the current phase's name.
  pub data Refusal (w : World W) : Error → Type 0 where
    not_resumable :
        can_resume w.state ≡ false
        → Refusal w (codes "cannot resume apply in status: " ++ show_status w.state.status)
    not_saved :
        (e : Error)
        → can_resume w.state ≡ true
        → (first_save w).0 ≡ some e
        → Refusal w (codes "failed to save resumed state: " ++ e)
    not_loaded :
        (e : Error)
        → can_resume w.state ≡ true
        → (first_save w).0 ≡ none
        → loaded w ≡ err e
        → Refusal w (codes "failed to load plan: " ++ e)
    no_phase :
        (p : Plan)
        → can_resume w.state ≡ true
        → (first_save w).0 ≡ none
        → loaded w ≡ ok p
        → Lacks w.state.current_phase p.phases
        → Refusal w (codes "could not find current phase: " ++ w.state.current_phase)

  -- The ways in which a resume of the state of `w` ends: it is refused for one of these reasons and
  -- returns no state, or it runs the phases of the plan that was loaded, from the current phase of
  -- the state on.
  pub data Resumes (w : World W) (r : Run W) : Type 0 where
    refused : (e : Error) → Refusal w e → r.0.error ≡ some e → r.0.state ≡ none → Resumes w r
    resumed :
        (p : Plan) (phases : List PlannedPhase)
        → can_resume w.state ≡ true
        → (first_save w).0 ≡ none
        → loaded w ≡ ok p
        → IsRest w.state.current_phase p.phases phases
        → Ends (operations_of phases) r
        → Resumes w r
