-- ===== src/Upgrade/Workflow/Shards.antt =====
-- What the upgrade of all shards completes.
use mup.Base.{◌≡◌, sym, false, List, [], ◌∷◌, inl, inr, Bool-cases}
use mathlib.Core.List.{Mem, mem-cons, mem-cons_self, mem-cons_of_mem, not-mem-nil}
use mathlib.Core.List.Perm
use mathlib.Core.Logic.Or
use mup.Base.Text.{Text, text_eq, text_eq_iff}
use mup.Topology.{MongodNode, is_empty}
use mup.Upgrade.{UpgradeState}
use mup.Upgrade.Env.{Env, World, Action, fail}
use mup.Upgrade.Upgrader.{UpgradeConfig, Impl, shard_names, add_name, shard_phase, execute_phase}
use mup.Upgrade.Workflow.{upgrade_shards, upgrade_all_shards}
use mup.Upgrade.Local.Kept.{ImplKeeps}
use mup.Upgrade.Keeps.{
  Keeps, Establishes, Kept, fail-Keeps, fail-Establishes, if-Establishes, succeed-Keeps,
  wrap_error-Keeps, >>-Keeps, wrap_error-Establishes, >>-Establishes_first, >>-Establishes_second,
  if-Keeps,
}
use mup.Upgrade.Keeps.Steps.{Pausable}
use mup.Upgrade.Keeps.Phases.{Done-IsProp, Done, execute_phase-Establishes}

Mem-IsProp : (x : Text) (names : List Text) → IsProp (Mem x names)
Mem-IsProp x names = hlevel

add_name_self : (name : Text) (names : List Text) → Mem name (add_name name names)
unfolding add_name
add_name_self name [] = mem-cons_self
add_name_self name (other ∷ names) = elim (Bool-cases (text_eq other name)) [
  | inl e ↦ rw e (rw (sym ((text_eq_iff other name).0 e)) mem-cons_self)
  | inr e ↦ rw e (mem-cons_of_mem other (add_name_self name names))
]

add_name_old : (x name : Text) (names : List Text) → Mem x names → Mem x (add_name name names)
unfolding add_name
add_name_old x name [] h = absurd (not-mem-nil h)
add_name_old x name (other ∷ names) h = elim (Bool-cases (text_eq other name)) [
  | inl e ↦ rw e h
  | inr e ↦ rw e (
      Or.elim (Mem-IsProp _ _) (mem-cons.0 h) (λ same. rw same mem-cons_self)
        (λ later. mem-cons_of_mem other (add_name_old x name names later)))
]

shard_names_old :
    {V : Type 0} (x : Text) (nodes : List (MongodNode V)) (names : List Text)
    → Mem x names
    → Mem x (shard_names nodes names)
unfolding shard_names
shard_names_old x [] names h = h
shard_names_old x (node ∷ nodes) names h = elim (Bool-cases (is_empty node.replica_set)) [
  | inl e ↦ rw e (shard_names_old x nodes names h)
  | inr e ↦ rw e (shard_names_old x nodes _ (add_name_old x node.replica_set names h))
]

-- Each replica set of the topology is a shard.
shard_names-Mem :
    {V : Type 0} (node : MongodNode V) (nodes : List (MongodNode V)) (names : List Text)
    → Mem node nodes
    → is_empty node.replica_set ≡ false
    → Mem node.replica_set (shard_names nodes names)
unfolding shard_names
shard_names-Mem node [] names h e = absurd (not-mem-nil h)
shard_names-Mem node (other ∷ nodes) names h e =
    Or.elim (Mem-IsProp _ _) (mem-cons.0 h)
      (λ same.
        rw (sym same, e)
          (shard_names_old node.replica_set nodes _ (add_name_self node.replica_set names)))
      (λ later. shard_names-Mem node nodes _ later e)

-- What the workflow keeps, of a predicate that phases keep when their work does.
pub record Sound {V W : Type 0} (env : Env W) (config : UpgradeConfig V W) (impl : Impl W)
    (P : UpgradeState → Type 0) : Type 0 where
  pub kept : Kept P
  pub pausable : Pausable env config P
  pub phases :
      (q : Text) (work : Action W) → Keeps P work → Keeps P (execute_phase env config q work)
  pub steps : ImplKeeps P impl

module _ {V W : Type 0} (env : Env W) (config : UpgradeConfig V W) (impl : Impl W) where
  abbrev shards_in_order : World W → List Text
  shards_in_order w = env.arrange (shard_names config.topology.mongod_nodes []) w.outside

  abbrev ordered_shards : Action W
  ordered_shards w = upgrade_shards env config impl (shards_in_order w) w

  upgrade_shards-Keeps :
      {P : UpgradeState → Type 0} (sound : Sound env config impl P) (names : List Text)
      → Keeps P (upgrade_shards env config impl names)
  unfolding upgrade_shards
  upgrade_shards-Keeps {P} sound [] = succeed-Keeps P
  upgrade_shards-Keeps {P} sound (name ∷ names) =
      >>-Keeps P _ _ (wrap_error-Keeps P _ _ (sound.phases _ _ (sound.steps.shard name)))
        (upgrade_shards-Keeps sound names)

  ordered_shards-Keeps :
      {P : UpgradeState → Type 0} → Sound env config impl P → Keeps P ordered_shards
  ordered_shards-Keeps sound = record {
    after = λ w d. (upgrade_shards-Keeps sound (shards_in_order w)).after w d;
  }

  pub upgrade_all_shards-Keeps :
      {P : UpgradeState → Type 0}
      → Sound env config impl P
      → Keeps P (upgrade_all_shards env config impl)
  unfolding upgrade_all_shards
  upgrade_all_shards-Keeps {P} sound = record {
    after = λ w d.
        if-Keeps P config.parallel_shards (fail _) ordered_shards w ((fail-Keeps P _).after w d)
          ((ordered_shards-Keeps sound).after w d);
  }

  upgrade_shards-Establishes :
      (x : Text) (names : List Text)
      → Sound env config impl (Done (shard_phase x))
      → Mem x names
      → Establishes (Done (shard_phase x)) (upgrade_shards env config impl names)
  unfolding upgrade_shards
  upgrade_shards-Establishes x [] sound h = absurd (not-mem-nil h)
  upgrade_shards-Establishes x (name ∷ names) sound h = record {
    when_done = λ w n.
        Or.elim (Done-IsProp _ _) (mem-cons.0 h)
          (λ same.
            (>>-Establishes_first _ _ _
                (wrap_error-Establishes _ _ _ (rw same (execute_phase-Establishes env config _ _)))
                (upgrade_shards-Keeps sound names)).when_done
              w n)
          (λ later.
            (>>-Establishes_second _ _ _ (upgrade_shards-Establishes x names sound later)).when_done
              w n);
  }

  pub upgrade_all_shards-Establishes :
      (node : MongodNode V)
      → Sound env config impl (Done (shard_phase node.replica_set))
      → Mem node config.topology.mongod_nodes
      → is_empty node.replica_set ≡ false
      → Establishes (Done (shard_phase node.replica_set)) (upgrade_all_shards env config impl)
  unfolding upgrade_all_shards
  upgrade_all_shards-Establishes node sound h e =
      if-Establishes _ config.parallel_shards (fail _) ordered_shards (fail-Establishes _ _)
        (record {
          when_done = λ w n.
              (upgrade_shards-Establishes node.replica_set (shards_in_order w) sound (
                  (Perm.mem_iff (env.arrange_perm _ w.outside)).1
                    (shard_names-Mem node config.topology.mongod_nodes [] h e))).when_done
                w n;
        })
