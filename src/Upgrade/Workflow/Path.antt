-- ===== src/Upgrade/Workflow/Path.antt =====
-- What the phases of a topology keep and complete, in a local upgrade.
use mup.Base.{◌≡◌, Bool, true, false, List, [], ◌∷◌, none}
use mathlib.Core.List.{Mem}
use mup.Base.Text.{Text, codes, text_eq}
use mup.Base.Results.{Error}
use mup.Topology.{Topology, MongodNode, get_topology_type, is_empty}
use mup.Upgrade.{UpgradeState}
use mup.Upgrade.Env.{Env, World, Action, wrap_error, ◌>>◌}
use mup.Upgrade.Upgrader.{UpgradeConfig, Impl, shard_phase, execute_phase}
use mup.Upgrade.Workflow.{
  upgrade_all_shards, upgrade_sharded, upgrade_first, upgrade_unsharded, upgrade_single_set,
  upgrade_single, upgrade_topology,
}
use mup.Upgrade.Local.{local_impl}
use mup.Upgrade.Local.Kept.{local_impl-Keeps}
use mup.Upgrade.Keeps.{
  Keeps, Establishes, if-Establishes, succeed-Keeps, wrap_error-Keeps, >>-Keeps,
  wrap_error-Establishes, >>-Establishes_first, >>-Establishes_second, if-Keeps,
}
use mup.Upgrade.Workflow.Shards.{Sound, upgrade_all_shards-Keeps, upgrade_all_shards-Establishes}
use mup.Upgrade.Workflow.Standalone.{upgrade_standalone-Keeps}
use mup.Upgrade.Keeps.Steps.{execute_phase-Keeps}
use mup.Upgrade.Keeps.Phases.{
  Done-Kept, Done-Pausable, NotCompleted-Kept, NotCompleted-Pausable, NotCompleted-KeptBy, Done,
  NotCompleted, execute_phase-Establishes, execute_phase-Done,
}

abbrev pub is_sharded : {V : Type 0} → Topology V → Bool
is_sharded t = text_eq (get_topology_type t) (codes "sharded")

-- The phases of a topology.
pub data IsPhase {V : Type 0} (t : Topology V) : Text → Type 0 where
  checks : IsPhase t (codes "pre-flight")
  config_servers : is_sharded t ≡ true → IsPhase t (codes "config-servers")
  mongos : is_sharded t ≡ true → IsPhase t (codes "mongos")
  shard :
      {node : MongodNode V}
      → is_sharded t ≡ true
      → Mem node t.mongod_nodes
      → is_empty node.replica_set ≡ false
      → IsPhase t (shard_phase node.replica_set)
  only_shard : is_sharded t ≡ false → IsPhase t (codes "shard")
  post_upgrade : IsPhase t (codes "post-upgrade")

-- The local steps are sound for both predicates.
pub Done-Sound :
    {V W : Type 0} (env : Env W) (config : UpgradeConfig V W) (p : Text)
    → Sound env config (local_impl env config) (Done p)
Done-Sound env config p = record {
  kept = Done-Kept p;
  pausable = Done-Pausable env config p;
  phases = execute_phase-Done env config p;
  steps = local_impl-Keeps env config (Done p) (Done-Kept p) (Done-Pausable env config p);
}

pub NotCompleted-Sound :
    {V W : Type 0} (env : Env W) (config : UpgradeConfig V W)
    → Sound env config (local_impl env config) NotCompleted
NotCompleted-Sound env config = record {
  kept = NotCompleted-Kept;
  pausable = NotCompleted-Pausable env config;
  phases = λ q work h.
      execute_phase-Keeps env config NotCompleted NotCompleted-Kept
        (NotCompleted-Pausable env config) q (NotCompleted-KeptBy q) work h;
  steps =
      local_impl-Keeps env config NotCompleted NotCompleted-Kept (NotCompleted-Pausable env config);
}

module _ {V W : Type 0} (env : Env W) (config : UpgradeConfig V W) where
  abbrev pub impl : Impl W
  impl = local_impl env config

  module _ {P : UpgradeState → Type 0} (sound : Sound env config impl P) where
    wrapped-Keeps :
        (q : Text) (f : Error → Error) (work : Action W)
        → Keeps P work
        → Keeps P (wrap_error f (execute_phase env config q work))
    wrapped-Keeps q f work h = wrap_error-Keeps P f _ (sound.phases q work h)

    upgrade_sharded-Keeps : Keeps P (upgrade_sharded env config impl)
    unfolding upgrade_sharded
    upgrade_sharded-Keeps =
        >>-Keeps P _ _
          (>>-Keeps P _ _ (wrapped-Keeps _ _ _ sound.steps.config_servers)
            (wrap_error-Keeps P _ _ (upgrade_all_shards-Keeps env config impl sound)))
          (wrapped-Keeps _ _ _ sound.steps.mongos)

    upgrade_first-Keeps :
        (nodes : List (MongodNode V)) → Keeps P (upgrade_first env config impl nodes)
    unfolding upgrade_first
    upgrade_first-Keeps [] = succeed-Keeps P
    upgrade_first-Keeps (node ∷ nodes) = sound.steps.shard _

    upgrade_unsharded-Keeps : Keeps P (upgrade_unsharded env config impl)
    unfolding upgrade_unsharded upgrade_single_set upgrade_single
    upgrade_unsharded-Keeps = record {
      after = λ w p.
          if-Keeps P _ (upgrade_single_set env config impl) (upgrade_single env config impl) w
            ((wrapped-Keeps _ _ _ (upgrade_first-Keeps _)).after w p)
            ((wrapped-Keeps _ _ _
                (upgrade_standalone-Keeps env config P sound.kept sound.pausable _)).after
              w p);
    }

    pub upgrade_topology-Keeps : Keeps P (upgrade_topology env config impl)
    unfolding upgrade_topology
    upgrade_topology-Keeps = record {
      after = λ w p.
          if-Keeps P _ (upgrade_sharded env config impl) (upgrade_unsharded env config impl) w
            (upgrade_sharded-Keeps.after w p) (upgrade_unsharded-Keeps.after w p);
    }

    pub post_upgrade-Keeps :
        (f : Error → Error)
        → Keeps P
            (wrap_error f (execute_phase env config (codes "post-upgrade") impl.post_upgrade_tasks))
    post_upgrade-Keeps f = wrapped-Keeps _ f _ sound.steps.post

  wrapped-Establishes :
      (q : Text) (f : Error → Error) (work : Action W)
      → Establishes (Done q) (wrap_error f (execute_phase env config q work))
  wrapped-Establishes q f work =
      wrap_error-Establishes (Done q) f _ (execute_phase-Establishes env config q work)

  sharded-Establishes :
      (p : Text)
      → is_sharded config.topology ≡ true
      → Establishes (Done p) (upgrade_sharded env config impl)
      → Establishes (Done p) (upgrade_topology env config impl)
  unfolding upgrade_topology
  sharded-Establishes p e h = record { when_done = λ w n. rw e (h.when_done w (rw e at n)) }

  upgrade_unsharded-Establishes :
      Establishes (Done (codes "shard")) (upgrade_unsharded env config impl)
  unfolding upgrade_unsharded upgrade_single_set upgrade_single
  upgrade_unsharded-Establishes =
      if-Establishes _ _ (upgrade_single_set env config impl) (upgrade_single env config impl)
        (wrapped-Establishes _ _ _) (wrapped-Establishes _ _ _)

  unsharded-Establishes :
      is_sharded config.topology ≡ false
      → Establishes (Done (codes "shard")) (upgrade_topology env config impl)
  unfolding upgrade_topology
  unsharded-Establishes e = record {
    when_done = λ w n. rw e (upgrade_unsharded-Establishes.when_done w (rw e at n));
  }

  -- All phases of the topology, after which come the post-upgrade tasks.
  abbrev pub topology_and_post : (Error → Error) → Action W
  topology_and_post f =
      upgrade_topology env config impl
      >> wrap_error f (execute_phase env config (codes "post-upgrade") impl.post_upgrade_tasks)

  then_post :
      (f : Error → Error) (p : Text)
      → Establishes (Done p) (upgrade_topology env config impl)
      → Establishes (Done p) (topology_and_post f)
  then_post f p h = >>-Establishes_first _ _ _ h (post_upgrade-Keeps (Done-Sound env config p) f)

  mongos-Keeps :
      (p : Text) (f : Error → Error)
      → Keeps
          (Done p)
          (wrap_error f (execute_phase env config (codes "mongos") impl.upgrade_mongos))
  mongos-Keeps p f =
      wrapped-Keeps (Done-Sound env config p) _ f _ (Done-Sound env config p).steps.mongos

  shards-Keeps :
      (p : Text) (f : Error → Error)
      → Keeps (Done p) (wrap_error f (upgrade_all_shards env config impl))
  shards-Keeps p f =
      wrap_error-Keeps _ f _ (upgrade_all_shards-Keeps env config impl (Done-Sound env config p))

  pub topology_and_post-Establishes :
      (f : Error → Error) (p : Text)
      → IsPhase config.topology p
      → (w : World W) → Done (codes "pre-flight") w.state
      → (topology_and_post f w).0 ≡ none
      → Done p (topology_and_post f w).1.state
  unfolding upgrade_sharded
  topology_and_post-Establishes f _ checks w d n =
      let sound = Done-Sound env config (codes "pre-flight") in
      (>>-Keeps _ _ _ (upgrade_topology-Keeps sound) (post_upgrade-Keeps sound f)).after w d
  topology_and_post-Establishes f _ post_upgrade w d n =
      (>>-Establishes_second _ _ _ (wrapped-Establishes _ f _)).when_done w n
  topology_and_post-Establishes f _ (config_servers e) w d n =
      (then_post f _ (
          sharded-Establishes _ e (
            >>-Establishes_first _ _ _
              (>>-Establishes_first _ _ _ (wrapped-Establishes _ _ _) (shards-Keeps _ _))
              (mongos-Keeps _ _)))).when_done
        w n
  topology_and_post-Establishes f _ (mongos e) w d n =
      (then_post f _ (
          sharded-Establishes _ e
            (>>-Establishes_second _ _ _ (wrapped-Establishes _ _ _)))).when_done
        w n
  topology_and_post-Establishes f _ (shard {node = node} e h b) w d n =
      (then_post f _ (
          sharded-Establishes _ e (
            >>-Establishes_first _ _ _
              (>>-Establishes_second _ _ _ (
                wrap_error-Establishes _ _ _ (
                  upgrade_all_shards-Establishes env config impl node (Done-Sound env config _) h
                    b)))
              (mongos-Keeps _ _)))).when_done
        w n
  topology_and_post-Establishes f _ (only_shard e) w d n =
      (then_post f _ (unsharded-Establishes e)).when_done w n
