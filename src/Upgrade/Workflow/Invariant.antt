-- ===== src/Upgrade/Workflow/Invariant.antt =====
-- What every upgrade keeps of its record, however it ends.
use mathlib.Core.List.{append-nil, append_assoc}
use mup.Base.{
  ℕ, ◌≤◌, ◌≡◌, ◌∙◌, sym, refl, ap, List, [], ◌∷◌, ◌++◌, Option, none, some, inl, inr, arith,
  Bool-cases,
}
use mup.Base.Text.{Text, text_eq, text_eq_iff}
use mup.Base.Dict.{Dict, lookup, insert, lookup-insert}
use mup.Upgrade.{
  UpgradeState, OverallStatus, NodeState, PhaseState, NodeStatus, PhaseStatus, FailoverEvent,
  update_node_state, update_phase_state, count_checkpoint, set_node_status, set_phase_status,
  new_node, new_phase, or_new,
}
use mup.Upgrade.Env.{Env}
use mup.Upgrade.Upgrader.{UpgradeConfig, mark_paused}
use mup.Upgrade.Keeps.{Kept}
use mup.Upgrade.Keeps.Steps.{Pausable, execute_phase-Keeps}
use mup.Upgrade.Env.{World}
use mup.Upgrade.Local.{local_impl}
use mup.Upgrade.Local.Kept.{local_impl-Keeps}
use mup.Upgrade.Workflow.{upgrade, resume, mark_resumed}
use mup.Upgrade.Workflow.Shards.{Sound}
use mup.Upgrade.Workflow.Kept.{upgrade-Keeps, resume-Keeps}

-- An entry of a node has its address and the versions of the upgrade.
pub record IsNode (previous target host : Text) (n : NodeState) : Type 0 where
  pub at_host : n.host_port ≡ host
  pub from_version : n.previous_version ≡ previous
  pub to_version : n.target_version ≡ target

abbrev NodesNamed : Text → Text → Dict NodeState → Type 0
NodesNamed previous target nodes =
    (host : Text) (n : NodeState) → lookup host nodes ≡ some n → IsNode previous target host n

abbrev PhasesNamed : Dict PhaseState → Type 0
PhasesNamed phases = (phase : Text) (p : PhaseState) → lookup phase phases ≡ some p → p.name ≡ phase

-- Each entry is that of its key.
abbrev pub IsNamed : UpgradeState → Type 0
IsNamed s = NodesNamed s.previous_version s.target_version s.nodes × PhasesNamed s.phases

-- The upgrade is still the one it was.
abbrev SameUpgrade : UpgradeState → UpgradeState → Type 0
SameUpgrade s t =
    (t.upgrade_id ≡ s.upgrade_id)
    × (t.cluster_name ≡ s.cluster_name)
    × (t.previous_version ≡ s.previous_version)
    × (t.target_version ≡ s.target_version)

-- Checkpoints are counted up, and failovers are added at the end.
abbrev Grows : UpgradeState → UpgradeState → Type 0
Grows s t =
    (s.checkpoint_count ≤ t.checkpoint_count)
    × (events : List FailoverEvent) × (t.failovers ≡ s.failovers ++ events)

pub record Follows (s t : UpgradeState) : Type 0 where
  pub is_named : IsNamed t
  pub same_upgrade : SameUpgrade s t
  pub grows : Grows s t

insert-All :
    {A : Type 0} (P : Text → A → Type 0) (host : Text) (n : A) (nodes : Dict A)
    → P host n
    → ((j : Text) (m : A) → lookup j nodes ≡ some m → P j m)
    → (j : Text) (m : A) → lookup j (insert host n nodes) ≡ some m
    → P j m
insert-All P host n nodes h all j m e = elim (Bool-cases (text_eq host j)) [
  | inl b ↦
      let found : some n ≡ some m = rw (lookup-insert host j n nodes, b) at e in
      let same : n ≡ m = cc in rw (sym same, sym ((text_eq_iff host j).0 b)) h
  | inr b ↦ all j m (rw (lookup-insert host j n nodes, b) at e)
]

pub Follows-refl : (s : UpgradeState) → IsNamed s → Follows s s
Follows-refl s h = record {
  is_named = h;
  same_upgrade = (refl, refl, refl, refl);
  grows = (omega arith, [], sym (append-nil s.failovers));
}

or_new-IsNode :
    (s : UpgradeState) (host : Text) (o : Option NodeState)
    → ((n : NodeState) → o ≡ some n → IsNode s.previous_version s.target_version host n)
    → IsNode s.previous_version s.target_version host (or_new o (new_node host s))
unfolding new_node
or_new-IsNode s host none h = record { at_host = refl; from_version = refl; to_version = refl }
or_new-IsNode s host (some n) h = h n refl

or_new-named :
    (phase : Text) (o : Option PhaseState)
    → ((p : PhaseState) → o ≡ some p → p.name ≡ phase)
    → (or_new o (new_phase phase)).name ≡ phase
unfolding new_phase
or_new-named phase none h = refl
or_new-named phase (some p) h = h p refl

module _ (s : UpgradeState) where
  update_node-Follows :
      (now : ℕ) (host : Text) (status : NodeStatus) (message : Text) (t : UpgradeState)
      → Follows s t
      → Follows s (update_node_state now host status message t)
  unfolding update_node_state set_node_status
  update_node-Follows now host status message t f =
      let old = or_new-IsNode t host (lookup host t.nodes) (f.is_named.0 host) in
      record {
        is_named = (
          insert-All (IsNode t.previous_version t.target_version) host _ t.nodes
              (record {
                at_host = old.at_host;
                from_version = old.from_version;
                to_version = old.to_version;
              })
              f.is_named.0,
          f.is_named.1,
        );
        same_upgrade = f.same_upgrade;
        grows = f.grows;
      }

  pub update_phase-Follows :
      (phase : Text) (now : ℕ) (status : PhaseStatus) (t : UpgradeState)
      → Follows s t
      → Follows s (update_phase_state now phase status t)
  unfolding update_phase_state set_phase_status
  update_phase-Follows phase now status t f = record {
    is_named = (
      f.is_named.0,
      insert-All (λ j p. p.name ≡ j) phase _ t.phases
          (or_new-named phase (lookup phase t.phases) (f.is_named.1 phase)) f.is_named.1,
    );
    same_upgrade = f.same_upgrade;
    grows = f.grows;
  }

  set_role-Follows :
      (host role : Text) (n : NodeState) (t : UpgradeState)
      → lookup host t.nodes ≡ some n
      → Follows s t
      → Follows s (record t { nodes = insert host (record n { role = role }) t.nodes })
  set_role-Follows host role n t e f =
      let old = f.is_named.0 host n e in
      record {
        is_named = (
          insert-All (IsNode t.previous_version t.target_version) host (record n { role = role })
              t.nodes
              (record {
                at_host = old.at_host;
                from_version = old.from_version;
                to_version = old.to_version;
              })
              f.is_named.0,
          f.is_named.1,
        );
        same_upgrade = f.same_upgrade;
        grows = f.grows;
      }

  pub Follows-Kept : Kept (Follows s)
  unfolding count_checkpoint
  Follows-Kept = record {
    counted = λ now t f. record {
      is_named = f.is_named;
      same_upgrade = f.same_upgrade;
      grows = (omega (arith, f.grows.0), f.grows.1, f.grows.2);
    };
    node_updated = update_node-Follows;
    node_skipped = λ host t f. record {
      is_named = f.is_named;
      same_upgrade = f.same_upgrade;
      grows = f.grows;
    };
    role_set = set_role-Follows;
    failed_over = λ event t f. record {
      is_named = f.is_named;
      same_upgrade = f.same_upgrade;
      grows = (
        f.grows.0,
        f.grows.1 ++ event ∷ [],
        ap (λ l. l ++ event ∷ []) f.grows.2 ∙ append_assoc s.failovers f.grows.1 (event ∷ []),
      );
    };
  }

  Follows-status :
      (status : OverallStatus) (t : UpgradeState)
      → Follows s t
      → Follows s (record t { overall_status = status })
  Follows-status status t f = record {
    is_named = f.is_named;
    same_upgrade = f.same_upgrade;
    grows = f.grows;
  }

module _ {V W : Type 0} (env : Env W) (config : UpgradeConfig V W) (s : UpgradeState) where
  Follows-Pausable : Pausable env config (Follows s)
  unfolding mark_paused
  Follows-Pausable reason now t f = record {
    is_named = f.is_named;
    same_upgrade = f.same_upgrade;
    grows = f.grows;
  }

  mark_resumed-Follows :
      (t : UpgradeState)
      → Follows s t
      → Follows s (mark_resumed env config (local_impl env config) t)
  unfolding mark_resumed
  mark_resumed-Follows t f = record {
    is_named = f.is_named;
    same_upgrade = f.same_upgrade;
    grows = f.grows;
  }

  Follows-Sound : Sound env config (local_impl env config) (Follows s)
  Follows-Sound = record {
    kept = Follows-Kept s;
    pausable = Follows-Pausable;
    phases = λ q work h.
        execute_phase-Keeps env config (Follows s) (Follows-Kept s) Follows-Pausable q
          (update_phase-Follows s q) work h;
    steps = local_impl-Keeps env config (Follows s) (Follows-Kept s) Follows-Pausable;
  }

-- However an upgrade ends, and a resumed one too: in its record each entry of a node is that of its address
-- and has the versions of the upgrade, and each entry of a phase is that of its name; the upgrade keeps its
-- id, its cluster and its versions, its number of checkpoints has not gone down, and the failovers recorded
-- before are still there, in front of new ones.
pub upgrade-Follows :
    {V W : Type 0} (env : Env W) (config : UpgradeConfig V W) (w : World W)
    → IsNamed w.state
    → Follows w.state (upgrade env config (local_impl env config) w).1.state
      × Follows w.state (resume env config (local_impl env config) w).1.state
upgrade-Follows env config w h =
    let sound = Follows-Sound env config w.state in
    let start = Follows-refl w.state h in
    (
      (upgrade-Keeps env config sound (Follows-status w.state _)).after w start,
      (resume-Keeps env config sound (Follows-status w.state _)
            (mark_resumed-Follows env config w.state)).after
          w start,
    )
