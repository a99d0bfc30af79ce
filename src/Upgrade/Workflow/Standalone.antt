-- ===== src/Upgrade/Workflow/Standalone.antt =====
-- What the upgrade of a standalone node keeps.
use mup.Base.{List, [], ◌∷◌, inl, inr, Option-cases}
use mup.Base.Text.{codes}
use mup.Topology.{MongodNode}
use mup.Upgrade.{UpgradeState, NodeStatus}
use mup.Upgrade.Env.{Env, World, Action, save_state, set_node, ignore_error}
use mup.Upgrade.ReplicaSet.{host_port}
use mup.Upgrade.Upgrader.{UpgradeConfig, upgrade_node}
use mup.Upgrade.Workflow.{replace_standalone, upgrade_standalone_node, upgrade_standalone}
use mup.Upgrade.Keeps.{
  Keeps, Kept, >>-Keeps, fail-Keeps, save_state-Keeps, create_checkpoint-Keeps, set_node-Keeps,
}
use mup.Upgrade.Keeps.Steps.{Pausable, ask_node-Keeps, upgrade_node-Keeps}

module _ {V W : Type 0} (env : Env W) (config : UpgradeConfig V W) (P : UpgradeState → Type 0)
    (kept : Kept P) (pausable : Pausable env config P) where
  abbrev started : MongodNode V → World W → World W
  started node w =
      ignore_error (save_state env)
        (set_node env (host_port node.host node.port) NodeStatus.in_progress [] w)

  started-after : (node : MongodNode V) (w : World W) → P w.state → P (started node w).state
  unfolding ignore_error
  started-after node w p =
      (save_state-Keeps env P kept).after _ (set_node-Keeps env P kept _ _ _ w p)

  abbrev replaced : MongodNode V → Action W
  replaced node = upgrade_node env config (codes "mongod") node.host node.port (codes "STANDALONE")

  replace_standalone-Keeps : (node : MongodNode V) → Keeps P (replace_standalone env config node)
  unfolding replace_standalone ignore_error
  replace_standalone-Keeps node = record {
    after = λ w p.
        let q =
          (upgrade_node-Keeps env config P kept pausable (codes "mongod") node.host node.port
              (codes "STANDALONE")).after
            (started node w) (started-after node w p) in
        elim (Option-cases (replaced node (started node w)).0) [
          | inl e ↦
              rw (e, replace_standalone)
                ((create_checkpoint-Keeps env P kept).after _ (set_node-Keeps env P kept _ _ _ _ q))
          | inr (x, e) ↦
              rw (e, replace_standalone)
                ((save_state-Keeps env P kept).after _ (set_node-Keeps env P kept _ _ _ _ q))
        ];
  }

  pub upgrade_standalone-Keeps :
      (nodes : List (MongodNode V)) → Keeps P (upgrade_standalone env config nodes)
  unfolding upgrade_standalone upgrade_standalone_node
  upgrade_standalone-Keeps [] = fail-Keeps P _
  upgrade_standalone-Keeps (node ∷ []) =
      >>-Keeps P _ _ (ask_node-Keeps env config P kept pausable _ _) (replace_standalone-Keeps node)
  upgrade_standalone-Keeps (node ∷ other ∷ nodes) = fail-Keeps P _
