-- ===== src/Upgrade/Keeps.antt =====
-- Predicates on the recorded state that the actions of an upgrade keep, whether they fail or not, and
-- those that they establish when they do not fail.
pub mod Steps
pub mod Phases
use mup.Base.{
  ℕ, ◌≡◌, ◌∙◌, sym, refl, Bool, true, false, List, [], ◌∷◌, ◌++◌, Option, none, some, inl, inr,
  arith, Bool-cases, Option-cases, if◌then◌else◌,
}
use mup.Base.Text.{Text}
use mup.Base.Dict.{Dict, lookup, insert}
use mup.Base.Results.{Error, Result, ok, err, Result-cases}
use mup.Upgrade.{
  UpgradeState, NodeStatus, PhaseStatus, NodeState, FailoverEvent, update_node_state,
  update_phase_state, count_checkpoint,
}
use mup.Upgrade.Prompt.{PromptContext, PromptResponse, prompt}
use mup.Upgrade.Env.{
  Env, World, Action, Hook, HookContext, succeed, fail, call, execute_one, execute_all,
  execute_hooks, hooks_of, update, set_node, set_phase, save_state, create_checkpoint, ◌>>◌,
  wrap_error, ignore_error,
}

module _ {W : Type 0} where
  pub record Keeps (P : UpgradeState → Type 0) (m : Action W) : Type 0 where
    pub after : (w : World W) → P w.state → P (m w).1.state

  pub record Establishes (P : UpgradeState → Type 0) (m : Action W) : Type 0 where
    pub when_done : (w : World W) → (m w).0 ≡ none → P (m w).1.state

  pub call-Keeps : (P : UpgradeState → Type 0) (f : W → Option Error × W) → Keeps P (call f)
  unfolding call
  call-Keeps P f = record { after = λ w p. p }

  pub fail-Keeps : (P : UpgradeState → Type 0) (e : Error) → Keeps P (fail e)
  unfolding fail
  fail-Keeps P e = record { after = λ w p. p }

  pub succeed-Keeps : (P : UpgradeState → Type 0) → Keeps P succeed
  unfolding succeed
  succeed-Keeps P = record { after = λ w p. p }

  pub fail-none : (e : Error) (w : World W) {A : Type 0} → (fail e w).0 ≡ none → A
  unfolding fail
  fail-none e w h = absurd (cc h)

  pub wrap_error-Keeps :
      (P : UpgradeState → Type 0) (f : Error → Error) (m : Action W)
      → Keeps P m
      → Keeps P (wrap_error f m)
  unfolding wrap_error
  wrap_error-Keeps P f m h = record {
    after = λ w p. elim (Option-cases (m w).0) [
      | inl e ↦ rw (e, wrap_error) (h.after w p)
      | inr (x, e) ↦ rw (e, wrap_error) (h.after w p)
    ];
  }

  pub >>-Keeps :
      (P : UpgradeState → Type 0) (m k : Action W) → Keeps P m → Keeps P k → Keeps P (m >> k)
  unfolding ◌>>◌
  >>-Keeps P m k h i = record {
    after = λ w p. elim (Option-cases (m w).0) [
      | inl e ↦ rw (e, ◌>>◌) (i.after (m w).1 (h.after w p))
      | inr (x, e) ↦ rw (e, ◌>>◌) (h.after w p)
    ];
  }

  pub if-Keeps :
      (P : UpgradeState → Type 0) (b : Bool) (m k : Action W) (w : World W)
      → P (m w).1.state
      → P (k w).1.state
      → P (if b then m w else k w).1.state
  if-Keeps P true m k w h i = h
  if-Keeps P false m k w h i = i

  pub fail-Establishes : (P : UpgradeState → Type 0) (e : Error) → Establishes P (fail e)
  fail-Establishes P e = record { when_done = λ w n. fail-none e w n }

  pub if-Establishes :
      (P : UpgradeState → Type 0) (b : Bool) (m k : Action W)
      → Establishes P m
      → Establishes P k
      → Establishes P (λ w. if b then m w else k w)
  if-Establishes P true m k h i = record { when_done = λ w n. h.when_done w n }
  if-Establishes P false m k h i = record { when_done = λ w n. i.when_done w n }

  pub wrap_error-Establishes :
      (P : UpgradeState → Type 0) (f : Error → Error) (m : Action W)
      → Establishes P m
      → Establishes P (wrap_error f m)
  unfolding wrap_error
  wrap_error-Establishes P f m h = record {
    when_done = λ w n. elim (Option-cases (m w).0) [
      | inl e ↦ rw (e, wrap_error) (h.when_done w e)
      | inr (x, e) ↦ absurd (cc (rw (e, wrap_error) at n))
    ];
  }

  pub >>-none :
      (m k : Action W) (w : World W)
      → ((m >> k) w).0 ≡ none
      → ((m w).0 ≡ none) × ((k (m w).1).0 ≡ none)
  unfolding ◌>>◌
  >>-none m k w n = elim (Option-cases (m w).0) [
    | inl e ↦ (e, rw (e, ◌>>◌) at n)
    | inr (x, e) ↦ absurd (cc (rw (e, ◌>>◌) at n))
  ]

  -- What the first action establishes has to be kept by the second.
  pub >>-Establishes_first :
      (P : UpgradeState → Type 0) (m k : Action W)
      → Establishes P m
      → Keeps P k
      → Establishes P (m >> k)
  unfolding ◌>>◌
  >>-Establishes_first P m k h i = record {
    when_done = λ w n. elim (Option-cases (m w).0) [
      | inl e ↦ rw (e, ◌>>◌) (i.after (m w).1 (h.when_done w e))
      | inr (x, e) ↦ absurd (cc (rw (e, ◌>>◌) at n))
    ];
  }

  pub >>-Establishes_second :
      (P : UpgradeState → Type 0) (m k : Action W) → Establishes P k → Establishes P (m >> k)
  unfolding ◌>>◌
  >>-Establishes_second P m k h = record {
    when_done = λ w n. elim (Option-cases (m w).0) [
      | inl e ↦ rw (e, ◌>>◌) (h.when_done (m w).1 (rw (e, ◌>>◌) at n))
      | inr (x, e) ↦ absurd (cc (rw (e, ◌>>◌) at n))
    ];
  }

  execute_one-Keeps :
      (P : UpgradeState → Type 0) (c : HookContext) (h : Hook W) → Keeps P (execute_one c h)
  unfolding execute_one
  execute_one-Keeps P c h = wrap_error-Keeps P _ _ (call-Keeps P (h.run c))

  execute_all-Keeps :
      (P : UpgradeState → Type 0) (c : HookContext) (hooks : List (Hook W))
      → Keeps P (execute_all c hooks)
  unfolding execute_all
  execute_all-Keeps P c [] = succeed-Keeps P
  execute_all-Keeps P c (h ∷ hooks) =
      >>-Keeps P _ _ (wrap_error-Keeps P _ _ (execute_one-Keeps P c h))
        (execute_all-Keeps P c hooks)

  pub execute_hooks-Keeps :
      (P : UpgradeState → Type 0) (r : Dict (List (Hook W))) (c : HookContext)
      → Keeps P (execute_hooks r c)
  unfolding execute_hooks
  execute_hooks-Keeps P r c = execute_all-Keeps P c (hooks_of (lookup c.hook_type r))

module _ {W : Type 0} (env : Env W) (P : UpgradeState → Type 0) where
  pub update-Keeps :
      (f : ℕ → UpgradeState → UpgradeState)
      → ((now : ℕ) (s : UpgradeState) → P s → P (f now s))
      → (w : World W) → P w.state
      → P (update env f w).state
  unfolding update
  update-Keeps f h w p = h _ _ p

-- The writes of an upgrade, but for those of phases, of its status and of failovers.
pub record Kept (P : UpgradeState → Type 0) : Type 0 where
  pub counted : (now : ℕ) (s : UpgradeState) → P s → P (count_checkpoint now s)
  pub node_updated :
      (now : ℕ) (host : Text) (status : NodeStatus) (message : Text) (s : UpgradeState)
      → P s
      → P (update_node_state now host status message s)
  pub node_skipped :
      (host : Text) (s : UpgradeState)
      → P s
      → P (record s { skipped_nodes = s.skipped_nodes ++ host ∷ [] })
  pub role_set :
      (host role : Text) (n : NodeState) (s : UpgradeState)
      → lookup host s.nodes ≡ some n
      → P s
      → P (record s { nodes = insert host (record n { role = role }) s.nodes })
  pub failed_over :
      (event : FailoverEvent) (s : UpgradeState)
      → P s
      → P (record s { failovers = s.failovers ++ event ∷ [] })

module _ {W : Type 0} (env : Env W) (P : UpgradeState → Type 0) (kept : Kept P) where
  pub save_state-Keeps : Keeps P (save_state env)
  unfolding save_state
  save_state-Keeps = record {
    after = λ w p.
        let w1 = update env count_checkpoint w in
        (call-Keeps P (env.write_state w1.state)).after w1
          (update-Keeps env P count_checkpoint kept.counted w p);
  }

  pub create_checkpoint-Keeps : Keeps P (create_checkpoint env)
  unfolding create_checkpoint
  create_checkpoint-Keeps = wrap_error-Keeps P _ _ save_state-Keeps

  pub set_node-Keeps :
      (host : Text) (status : NodeStatus) (message : Text) (w : World W)
      → P w.state
      → P (set_node env host status message w).state
  unfolding set_node
  set_node-Keeps host status message w p =
      update-Keeps env P _ (λ now s. kept.node_updated now host status message s) w p
