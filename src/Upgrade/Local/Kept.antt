-- ===== src/Upgrade/Local/Kept.antt =====
-- What the steps of pkg/upgrade/local.go keep.
use mup.Base.{
  Bool, true, false, List, [], ◌∷◌, Option, none, some, inl, inr, Bool-cases, Option-cases,
}
use mup.Base.Text.{Text, text_eq}
use mup.Base.Dict.{lookup}
use mup.Base.Results.{Error, Result-cases}
use mup.Topology.{MongosNode, ConfigNode}
use mup.Upgrade.{UpgradeState, NodeStatus}
use mup.Upgrade.Prompt.{PromptResponse, prompt_for_failover}
use mup.Upgrade.Env.{Env, World, Action, succeed, fail, call, wrap_error, ignore_error, ◌>>◌}
use mup.Upgrade.ReplicaSet.{step_down_primary}
use mup.Upgrade.Upgrader.{UpgradeConfig, Impl, ask, ask_node}
use mup.Upgrade.Local.{
  Member, address, node_done, unless_skipped, validate_prerequisites, unless_skip, ask_failover,
  record_failover, step_down_node, fail_over, set_role, start_node_upgrade, upgrade_member,
  fail_over_if, upgrade_replica_set_node, is_primary, upgrade_secondaries, upgrade_primary,
  upgrade_replica_set, upgrade_config_servers, upgrade_members, upgrade_shard, upgrade_mongos_node,
  upgrade_mongos, fcv_response, is_critical_level, upgrade_fcv_if, ask_fcv, check_metadata,
  check_path, post_upgrade_tasks, local_impl,
}
use mup.Upgrade.Keeps.{
  Keeps, Kept, call-Keeps, fail-Keeps, succeed-Keeps, wrap_error-Keeps, >>-Keeps, if-Keeps,
  save_state-Keeps, set_node-Keeps,
}
use mup.Upgrade.Keeps.Steps.{Pausable, hook-Keeps, ask-Keeps, ask_node-Keeps, upgrade_node-Keeps}

pub record ImplKeeps {W : Type 0} (P : UpgradeState → Type 0) (impl : Impl W) : Type 0 where
  pub validate : Keeps P impl.validate_prerequisites
  pub config_servers : Keeps P impl.upgrade_config_servers
  pub shard : (name : Text) → Keeps P (impl.upgrade_shard name)
  pub mongos : Keeps P impl.upgrade_mongos
  pub post : Keeps P impl.post_upgrade_tasks

module _ {V W : Type 0} (env : Env W) (config : UpgradeConfig V W) (P : UpgradeState → Type 0)
    (kept : Kept P) (pausable : Pausable env config P) where
  unless_skip-Keeps :
      (asked work : Action W)
      → Keeps P asked
      → Keeps P work
      → Keeps P (unless_skip env config asked work)
  unfolding unless_skip succeed
  unless_skip-Keeps asked work h i = record {
    after = λ w p. elim (Option-cases (asked w).0) [
      | inl e ↦ rw (e, unless_skip) (i.after _ (h.after w p))
      | inr (x, e) ↦ elim (Bool-cases (unless_skipped (some x))) [
        | inl b ↦ rw (e, b, unless_skip) (h.after w p)
        | inr b ↦ rw (e, b, unless_skip) (h.after w p)
      ]
    ];
  }

  ask_failover-Keeps : Keeps P (ask_failover env config)
  unfolding ask_failover fail succeed
  ask_failover-Keeps = record {
    after = λ w p. elim (Result-cases (prompt_for_failover w.stdin).0) [
      | inl (x, e) ↦ rw (e, ask_failover) p
      | inr (PromptResponse.continue, e) ↦ rw (e, ask_failover) p
      | inr (PromptResponse.skip, e) ↦ rw (e, ask_failover) p
      | inr (PromptResponse.pause, e) ↦ rw (e, ask_failover) p
      | inr (PromptResponse.abort, e) ↦ rw (e, ask_failover) p
    ];
  }

  step_down_node-Keeps :
      (node rs_name : Text) (hosts : List Text)
      → Keeps P (step_down_node env config node rs_name hosts)
  unfolding step_down_node record_failover fail succeed ignore_error
  step_down_node-Keeps node rs_name hosts = record {
    after = λ w p. elim (Result-cases (step_down_primary env node rs_name hosts w.outside).0) [
      | inl (x, e) ↦ rw (e, step_down_node) p
      | inr (event, e) ↦
          rw (e, step_down_node)
            ((hook-Keeps env config P kept pausable _).after _
              ((save_state-Keeps env P kept).after _ (kept.failed_over event _ p)))
    ];
  }

  fail_over-Keeps :
      (node rs_name : Text) (hosts : List Text) → Keeps P (fail_over env config node rs_name hosts)
  unfolding fail_over
  fail_over-Keeps node rs_name hosts =
      >>-Keeps P _ _
        (>>-Keeps P _ _ ask_failover-Keeps
          (wrap_error-Keeps P _ _ (hook-Keeps env config P kept pausable _)))
        (step_down_node-Keeps node rs_name hosts)

  set_role-Keeps :
      (node role : Text) (w : World W) → P w.state → P (set_role env config node role w).state
  unfolding set_role
  set_role-Keeps node role w p = elim (Option-cases (lookup node w.state.nodes)) [
    | inl e ↦ rw (e, set_role) p
    | inr (n, e) ↦ rw (e, set_role) (kept.role_set node role n _ e p)
  ]

  start_node_upgrade-Keeps : (node role : Text) → Keeps P (start_node_upgrade env config node role)
  unfolding start_node_upgrade succeed ignore_error
  start_node_upgrade-Keeps node role = record {
    after = λ w p.
        (save_state-Keeps env P kept).after _ (
          set_role-Keeps node role _
            (set_node-Keeps env P kept node NodeStatus.in_progress [] w p));
  }

  last_hook-Keeps : (m : Action W) → Keeps P m → Keeps P (λ w. succeed (ignore_error m w))
  unfolding succeed ignore_error
  last_hook-Keeps m h = record { after = λ w p. h.after w p }

  upgrade_member-Keeps :
      (m : Member) (role rs_name : Text) → Keeps P (upgrade_member env config m role rs_name)
  unfolding upgrade_member
  upgrade_member-Keeps m role rs_name =
      >>-Keeps P _ _
        (>>-Keeps P _ _
          (>>-Keeps P _ _ (start_node_upgrade-Keeps _ role)
            (wrap_error-Keeps P _ _ (hook-Keeps env config P kept pausable _)))
          (upgrade_node-Keeps env config P kept pausable _ m.host m.port role))
        (last_hook-Keeps _ (hook-Keeps env config P kept pausable _))

  fail_over_if-Keeps :
      (b : Bool) (node rs_name : Text) (hosts : List Text)
      → Keeps P (fail_over_if env config b node rs_name hosts)
  unfolding fail_over_if
  fail_over_if-Keeps true node rs_name hosts = fail_over-Keeps node rs_name hosts
  fail_over_if-Keeps false node rs_name hosts = succeed-Keeps P

  pub upgrade_replica_set_node-Keeps :
      (m : Member) (role rs_name : Text) (hosts : List Text) (primary : Bool)
      → Keeps P (upgrade_replica_set_node env config m role rs_name hosts primary)
  unfolding upgrade_replica_set_node
  upgrade_replica_set_node-Keeps m role rs_name hosts primary = record {
    after = λ w p.
        if-Keeps P (node_done (lookup (address m) w.state.nodes)) succeed
          (unless_skip env config (ask_node env config (address m) role) (
            fail_over_if env config primary (address m) rs_name hosts
            >> upgrade_member env config m role rs_name))
          w ((succeed-Keeps P).after w p)
          ((unless_skip-Keeps _ _ (ask_node-Keeps env config P kept pausable _ role) (
              >>-Keeps P _ _ (fail_over_if-Keeps primary _ rs_name hosts)
                (upgrade_member-Keeps m role rs_name))).after
            w p);
  }

  upgrade_secondaries-Keeps :
      (rs_name : Text) (hosts : List Text) (members : List (Member × Text))
      → Keeps P (upgrade_secondaries env config rs_name hosts members)
  unfolding upgrade_secondaries
  upgrade_secondaries-Keeps rs_name hosts [] = succeed-Keeps P
  upgrade_secondaries-Keeps rs_name hosts ((m, role) ∷ members) =
      elim (Bool-cases (is_primary role)) [
        | inl e ↦ rw e (upgrade_secondaries-Keeps rs_name hosts members)
        | inr e ↦ rw e (
            >>-Keeps P _ _ (upgrade_replica_set_node-Keeps m role rs_name hosts false)
              (upgrade_secondaries-Keeps rs_name hosts members))
      ]

  upgrade_primary-Keeps :
      (rs_name : Text) (hosts : List Text) (primary : Option Member)
      → Keeps P (upgrade_primary env config rs_name hosts primary)
  unfolding upgrade_primary
  upgrade_primary-Keeps rs_name hosts none = succeed-Keeps P
  upgrade_primary-Keeps rs_name hosts (some m) =
      upgrade_replica_set_node-Keeps m _ rs_name hosts true

  upgrade_replica_set-Keeps :
      (rs_name : Text) (members : List Member)
      → Keeps P (upgrade_replica_set env config rs_name members)
  unfolding upgrade_replica_set
  upgrade_replica_set-Keeps rs_name [] = record { after = λ w p. (fail-Keeps P _).after w p }
  upgrade_replica_set-Keeps rs_name (m ∷ members) = record {
    after = λ w p.
        (>>-Keeps P _ _ (upgrade_secondaries-Keeps rs_name _ _)
            (upgrade_primary-Keeps rs_name _ _)).after
          _ p;
  }

  upgrade_members-Keeps :
      (name : Text) (members : List Member) → Keeps P (upgrade_members env config name members)
  unfolding upgrade_members
  upgrade_members-Keeps name [] = fail-Keeps P _
  upgrade_members-Keeps name (m ∷ members) = upgrade_replica_set-Keeps name (m ∷ members)

  upgrade_shard-Keeps : (name : Text) → Keeps P (upgrade_shard env config name)
  unfolding upgrade_shard
  upgrade_shard-Keeps name = upgrade_members-Keeps name _

  upgrade_config_servers-Keeps :
      (nodes : List (ConfigNode V)) → Keeps P (upgrade_config_servers env config nodes)
  unfolding upgrade_config_servers
  upgrade_config_servers-Keeps [] = succeed-Keeps P
  upgrade_config_servers-Keeps (node ∷ nodes) = upgrade_replica_set-Keeps node.replica_set _

  upgrade_mongos_node-Keeps : (node : MongosNode V) → Keeps P (upgrade_mongos_node env config node)
  unfolding upgrade_mongos_node ignore_error
  upgrade_mongos_node-Keeps node =
      unless_skip-Keeps _ _ (ask_node-Keeps env config P kept pausable _ _) (record {
        after = λ w p.
            (wrap_error-Keeps P _ _
                (upgrade_node-Keeps env config P kept pausable _ node.host node.port _)).after
              _ ((save_state-Keeps env P kept).after _ (set_node-Keeps env P kept _ _ _ w p));
      })

  upgrade_mongos-Keeps : (nodes : List (MongosNode V)) → Keeps P (upgrade_mongos env config nodes)
  unfolding upgrade_mongos
  upgrade_mongos-Keeps [] = succeed-Keeps P
  upgrade_mongos-Keeps (node ∷ nodes) =
      >>-Keeps P _ _ (upgrade_mongos_node-Keeps node) (upgrade_mongos-Keeps nodes)

  fcv_response-Keeps : (r : PromptResponse) → Keeps P (fcv_response env config r)
  unfolding fcv_response
  fcv_response-Keeps PromptResponse.abort = fail-Keeps P _
  fcv_response-Keeps PromptResponse.continue = succeed-Keeps P
  fcv_response-Keeps PromptResponse.skip = succeed-Keeps P
  fcv_response-Keeps PromptResponse.pause = succeed-Keeps P

  ask_fcv-Keeps : Keeps P (ask_fcv env config)
  unfolding ask_fcv
  ask_fcv-Keeps = record {
    after = λ w p.
        if-Keeps P (is_critical_level env config config.prompt_level) (ask env config _ _ _) succeed
          w ((ask-Keeps env config P kept pausable _ _ _ fcv_response-Keeps).after w p)
          ((succeed-Keeps P).after w p);
  }

  call_wrapped-Keeps :
      (f : Error → Error) (g : W → Option Error × W) → Keeps P (wrap_error f (call g))
  call_wrapped-Keeps f g = wrap_error-Keeps P f (call g) (call-Keeps P g)

  upgrade_fcv-Keeps : (asked : Bool) → Keeps P (upgrade_fcv_if env config asked)
  unfolding upgrade_fcv_if
  upgrade_fcv-Keeps true = >>-Keeps P _ _ ask_fcv-Keeps (call_wrapped-Keeps _ env.upgrade_fcv)
  upgrade_fcv-Keeps false = succeed-Keeps P

  post_upgrade_tasks-Keeps : Keeps P (post_upgrade_tasks env config)
  unfolding post_upgrade_tasks
  post_upgrade_tasks-Keeps =
      >>-Keeps P _ _
        (>>-Keeps P _ _
          (>>-Keeps P _ _ (call-Keeps P env.update_metadata) (upgrade_fcv-Keeps config.upgrade_fcv))
          (last_hook-Keeps _ (call-Keeps P env.stop_old_supervisor)))
        (call_wrapped-Keeps _ env.switch_symlinks)

  check_metadata-Keeps : Keeps P (check_metadata env config)
  unfolding check_metadata
  check_metadata-Keeps = record {
    after = λ w p.
        if-Keeps P (text_eq config.metadata_version config.from_version) succeed (fail _) w
          ((succeed-Keeps P).after w p) ((fail-Keeps P _).after w p);
  }

  check_path-Keeps : Keeps P (check_path env config)
  unfolding check_path
  check_path-Keeps = record { after = λ w p. p }

  validate_prerequisites-Keeps : Keeps P (validate_prerequisites env config)
  unfolding validate_prerequisites
  validate_prerequisites-Keeps =
      >>-Keeps P _ _ (>>-Keeps P _ _ check_metadata-Keeps (wrap_error-Keeps P _ _ check_path-Keeps))
        (call-Keeps P env.remaining_checks)

  -- Each step that the workflow calls keeps the predicate.
  pub local_impl-Keeps : ImplKeeps P (local_impl env config)
  unfolding local_impl
  local_impl-Keeps = record {
    validate = validate_prerequisites-Keeps;
    config_servers = upgrade_config_servers-Keeps _;
    shard = upgrade_shard-Keeps;
    mongos = upgrade_mongos-Keeps _;
    post = post_upgrade_tasks-Keeps;
  }
