-- ===== src/Apply/Checkpoints.antt =====
-- pkg/apply/checkpoint.go: snapshots of the state on disk, named by the second of their creation.
use mup.Base.{ℕ, ◌+◌, ◌/◌, Bool, [], ◌∷◌, ◌++◌}
use mup.Base.Text.{Text, codes, show_nat}
use mup.Base.Dict.{Dict}
use mup.Apply.{ApplyStatus, OperationState, completed}
use mup.Apply.Env.{
  Env, World, Action, ◌>>◌, wrap_error, call, update, save_state, get_checkpoint_dir,
  get_checkpoint_path,
}

-- The clock counts nanoseconds, and `Unix` whole seconds.
abbrev second : ℕ
second = 1_000_000_000

unfoldable pub checkpoint_id_at : ℕ → Text
checkpoint_id_at now = codes "checkpoint-" ++ show_nat (now / second)

abbrev is_completed : ApplyStatus → Bool
is_completed completed = Bool.true
is_completed _ = Bool.false

unfoldable pub count_completed_operations : Dict OperationState → ℕ
count_completed_operations [] = 0
count_completed_operations ((_, o) ∷ rest) = elim (is_completed o.status) [
  | Bool.true ↦ count_completed_operations rest + 1
  | Bool.false ↦ count_completed_operations rest
]

module _ {W : Type 0} (env : Env W) where
  -- The append to `state.Checkpoints`, which `CreateCheckpoint` makes without the mutex and with
  -- no log line.
  unfoldable pub add_checkpoint : Text → Text → Text → World W → World W
  add_checkpoint id description path = update env (λ now s. record s {
    checkpoints =
        s.checkpoints
        ++ record {
          id = id;
          description = description;
          timestamp = now;
          phase = s.current_phase;
          operation = [];
          state_path = path;
        }
          ∷ [];
  })

  -- The part after the directory is there.
  unfoldable pub write_checkpoint : Text → Action W
  write_checkpoint description w =
      let (now, v) = env.clock w.outside in
      let id = checkpoint_id_at now in
      let path = get_checkpoint_path env w.state.state_id id in
      let w1 : World W = record w { outside = v } in
      (wrap_error (λ e. codes "failed to save checkpoint: " ++ e)
            (call (env.write_state path w1.state))
          >> (λ w2.
              wrap_error (λ e. codes "failed to save state after checkpoint: " ++ e)
                (save_state env) (add_checkpoint id description path w2)))
        w1

  unfoldable pub create_checkpoint_file : Text → Action W
  create_checkpoint_file description w =
      (wrap_error (λ e. codes "failed to create checkpoint directory: " ++ e)
            (call (env.make_dir (get_checkpoint_dir env w.state.state_id)))
          >> write_checkpoint description)
        w
