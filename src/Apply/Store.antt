-- ===== src/Apply/Store.antt =====
-- pkg/apply/state.go and checkpoint.go: the states on disk, which one is the current one, and the
-- restoring of one. The directory of the states and what the files in it parse to are arguments.
pub mod Latest
pub mod Restored
use mup.Base.{
  ◌≡◌, Bool, true, false, not, ◌||◌, List, [], ◌∷◌, ◌++◌, Option, none, some, ltb, ◌==◌,
  if◌then◌else◌,
}
use mup.Base.Text.{Text, codes, text_eq}
use mup.Base.Results.{Error, Result, ok, err, ◌>>=◌}
use mup.Apply.{ApplyState, paused, info, update_status, log}
use mup.Apply.Env.{Env, World, Action, update, save_state}

-- filepath.Ext of a name without slashes: what follows the last dot, with the dot.
unfoldable pub extension : Text → Text
extension [] = []
extension (c ∷ s) = elim (extension s) [ [] ↦ if c == b'.' then c ∷ s else [] | d ∷ t ↦ d ∷ t ]

-- An entry of the directory; `content` is what LoadStateFromFile makes of it.
pub record Entry : Type 0 where
  pub name : Text
  pub is_dir : Bool
  pub content : Result ApplyState

pub data Listing : Type 0 where
  missing : Listing
  unlistable : Error → Listing
  entries : List Entry → Listing

unfoldable pub is_skipped : Entry → Bool
is_skipped entry = entry.is_dir || not (text_eq (extension entry.name) (codes ".json"))

-- The loop: a file that cannot be loaded is skipped.
unfoldable pub states_of : List Entry → List ApplyState
states_of [] = []
states_of (entry ∷ rest) =
    let states = states_of rest in
    if is_skipped entry
    then states
    else elim entry.content [ err e ↦ states | ok state ↦ state ∷ states ]

unfoldable pub list_states : Listing → Result (List ApplyState)
list_states missing = ok []
list_states (unlistable e) = err (codes "failed to read state directory: " ++ e)
list_states (entries es) = ok (states_of es)

-- The loop with the latest state so far, which is nil at first.
unfoldable pub latest_from : Option ApplyState → List ApplyState → Option ApplyState
latest_from latest [] = latest
latest_from none (state ∷ states) = latest_from (some state) states
latest_from (some latest) (state ∷ states) =
    latest_from (some (if ltb latest.started_at state.started_at then state else latest)) states

-- The result is none where the code returns a nil state without an error.
unfoldable pub get_current_state : Listing → Result (Option ApplyState)
get_current_state listing = elim (list_states listing) [
  | err e ↦ err e
  | ok states ↦ elim states [
    | [] ↦ err (codes "no state found")
    | s ∷ rest ↦ ok (latest_from none (s ∷ rest))
  ]
]

module _ {W : Type 0} (env : Env W) where
  -- The part of RestoreFromCheckpoint after the checkpoint is loaded.
  unfoldable pub mark_restored : Text → World W → World W
  mark_restored checkpoint_id w =
      update env
        (λ now s.
          log now info s.current_phase [] (codes "Restored from checkpoint: " ++ checkpoint_id) s)
        (update env (λ now s. update_status now paused s) w)

  -- `loaded` is what the checkpoint's file parses to.
  unfoldable pub restore_from_checkpoint : Result ApplyState → Text → W → Result ApplyState × W
  restore_from_checkpoint (err e) checkpoint_id v =
      (err (codes "failed to load checkpoint: " ++ codes "failed to load checkpoint: " ++ e), v)
  restore_from_checkpoint (ok state) checkpoint_id v =
      let (e, w) =
        save_state env (mark_restored checkpoint_id (record { state = state; outside = v })) in
      elim e [
        | some x ↦ (err (codes "failed to save restored state: " ++ x), w.outside)
        | none ↦ (ok w.state, w.outside)
      ]
