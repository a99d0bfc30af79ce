-- ===== src/Upgrade/Local.antt =====
-- pkg/upgrade/local.go: the steps of a local upgrade. The checks of the cluster's health, the files of a
-- version and the supervisor are calls of the environment.
pub mod Kept
use mup.Base.{
  ℕ, Bool, true, false, not, ◌&&◌, List, [], ◌∷◌, ◌++◌, Option, none, some, map, if◌then◌else◌,
}
use mup.Base.Text.{Text, codes, text_eq}
use mup.Base.Int.{ℤ}
use mup.Base.Dict.{lookup, insert, Dict}
use mup.Base.Results.{Error, Result, ok, err}
use mup.Topology.{Topology, MongodNode, ConfigNode, MongosNode}
use mup.Version.{validate_upgrade_path_strings}
use mup.Upgrade.{UpgradeState, NodeState, NodeStatus, FailoverEvent, is_completed}
use mup.Upgrade.Prompt.{PromptLevel, PromptResponse, Reply, prompt_for_failover, critical_context}
use mup.Upgrade.Env.{
  Env, World, Action, HookContext, succeed, fail, call, set_node, save_state, ◌>>◌, wrap_error,
  ignore_error,
}
use mup.Upgrade.ReplicaSet.{host_port, detect_node_role, step_down_primary}
use mup.Upgrade.Upgrader.{
  UpgradeConfig, Impl, hook_context, node_hook_context, prefixed, hook, ask, ask_node, upgrade_node,
}

unfoldable pub node_done : Option NodeState → Bool
node_done none = false
node_done (some node) = is_completed node.status

-- What a set of replicas is upgraded by: the host and the port of a node.
pub record Member : Type 0 where
  pub host : Text
  pub port : ℤ

unfoldable pub address : Member → Text
address m = host_port m.host m.port

unfoldable pub is_primary : Text → Bool
is_primary role = text_eq role (codes "PRIMARY")

-- The members with their roles in their order, and the last one that is a primary.
pub record Roles : Type 0 where
  pub members : List (Member × Text)
  pub primary : Option Member

unfoldable pub role_or_secondary : Result Text → Text
role_or_secondary (ok role) = role
role_or_secondary (err e) = codes "SECONDARY"

unfoldable pub note_role : Member → Text → Roles → Roles
note_role m role r = record {
  members = r.members ++ (m, role) ∷ [];
  primary = if is_primary role then some m else r.primary;
}

abbrev pub no_roles : Roles
no_roles = record { members = []; primary = none }

-- A node that an error leaves out of the phase.
unfoldable pub unless_skipped : Option Error → Bool
unless_skipped none = false
unless_skipped (some e) = text_eq e (codes "node skipped")

abbrev fcv_operation : Text
fcv_operation = codes "Upgrade Feature Compatibility Version (FCV)"

module _ {V W : Type 0} (env : Env W) (config : UpgradeConfig V W) where
  unfoldable pub check_metadata : Action W
  check_metadata w =
      if text_eq config.metadata_version config.from_version
      then succeed w
      else fail (codes "metadata version mismatch") w

  unfoldable pub check_path : Action W
  check_path w = (validate_upgrade_path_strings config.from_version config.to_version, w)

  -- The message of the first check is shortened.
  unfoldable pub validate_prerequisites : Action W
  validate_prerequisites =
      check_metadata
      >> wrap_error (prefixed (codes "invalid upgrade path")) check_path
      >> call env.remaining_checks

  -- `continue` and `return nil` after a skipped node, the error otherwise.
  unfoldable pub unless_skip : Action W → Action W → Action W
  unless_skip asked work w =
      let (e, w1) = asked w in
      elim e [
        | none ↦ work w1
        | some m ↦ if unless_skipped (some m) then succeed w1 else (some m, w1)
      ]

  unfoldable pub ask_failover : Action W
  ask_failover w =
      let (reply, rest) = prompt_for_failover w.stdin in
      let w1 = record w { stdin = rest } in
      elim reply [
        | err e ↦ fail (codes "failover prompt failed: " ++ e) w1
        | ok PromptResponse.abort ↦ fail (codes "failover aborted by user") w1
        | ok PromptResponse.continue ↦ succeed w1
        | ok PromptResponse.skip ↦ succeed w1
        | ok PromptResponse.pause ↦ succeed w1
      ]

  abbrev set_hook_context : Text → Text → Text → Text → HookContext
  set_hook_context type node role rs_name = record (node_hook_context env config type node role) {
    shard_name = rs_name;
  }

  unfoldable pub record_failover : FailoverEvent → World W → World W
  record_failover event w = record w {
    state = record w.state { failovers = w.state.failovers ++ event ∷ [] };
  }

  unfoldable pub step_down_node : Text → Text → List Text → Action W
  step_down_node node rs_name hosts w =
      let (result, v) = step_down_primary env node rs_name hosts w.outside in
      let w1 = record w { outside = v } in
      elim result [
        | err e ↦ fail (codes "failed to step down primary: " ++ e) w1
        | ok event ↦ succeed (
            ignore_error
              (hook env config (
                set_hook_context (codes "after-primary-stepdown") node (codes "SECONDARY") rs_name))
              (ignore_error (save_state env) (record_failover event w1)))
      ]

  -- What comes before the upgrade of a primary.
  unfoldable pub fail_over : Text → Text → List Text → Action W
  fail_over node rs_name hosts =
      ask_failover
      >> wrap_error (prefixed (codes "before-primary-stepdown hook failed")) (
          hook env config
            (set_hook_context (codes "before-primary-stepdown") node (codes "PRIMARY") rs_name))
      >> step_down_node node rs_name hosts

  unfoldable pub set_role : Text → Text → World W → World W
  set_role node role w = elim (lookup node w.state.nodes) [
    | none ↦ w
    | some s ↦ record w {
      state = record w.state { nodes = insert node (record s { role = role }) w.state.nodes };
    }
  ]

  unfoldable pub start_node_upgrade : Text → Text → Action W
  start_node_upgrade node role w = succeed (
      ignore_error (save_state env)
        (set_role node role (set_node env node NodeStatus.in_progress [] w)))

  -- The upgrade proper, with the hooks around it.
  unfoldable pub upgrade_member : Member → Text → Text → Action W
  upgrade_member m role rs_name =
      let node = address m in
      start_node_upgrade node role
      >> wrap_error (prefixed (codes "before-secondary-upgrade hook failed"))
          (hook env config (set_hook_context (codes "before-secondary-upgrade") node role rs_name))
      >> upgrade_node env config (codes "mongod") m.host m.port role
      >> λ w. succeed (
          ignore_error
            (hook env config (set_hook_context (codes "after-secondary-upgrade") node role rs_name))
            w)

  unfoldable pub fail_over_if : Bool → Text → Text → List Text → Action W
  fail_over_if true node rs_name hosts = fail_over node rs_name hosts
  fail_over_if false node rs_name hosts = succeed

  unfoldable pub upgrade_replica_set_node : Member → Text → Text → List Text → Bool → Action W
  upgrade_replica_set_node m role rs_name hosts primary w =
      if node_done (lookup (address m) w.state.nodes)
      then succeed w
      else unless_skip (ask_node env config (address m) role)
          (fail_over_if primary (address m) rs_name hosts >> upgrade_member m role rs_name) w

  -- The roles of the members that are not completed.
  unfoldable pub detect_roles :
      Text → List Text → Dict NodeState → List Member → Roles → W → Roles × W
  detect_roles rs_name hosts nodes [] roles v = (roles, v)
  detect_roles rs_name hosts nodes (m ∷ members) roles v =
      let skipped = detect_roles rs_name hosts nodes members roles v in
      let (role, v1) = detect_node_role env (address m) rs_name hosts v in
      let noted =
        detect_roles rs_name hosts nodes members (note_role m (role_or_secondary role) roles) v1 in
      if node_done (lookup (address m) nodes) then skipped else noted

  unfoldable pub upgrade_secondaries : Text → List Text → List (Member × Text) → Action W
  upgrade_secondaries rs_name hosts [] = succeed
  upgrade_secondaries rs_name hosts ((m, role) ∷ members) =
      let rest = upgrade_secondaries rs_name hosts members in
      if is_primary role then rest else upgrade_replica_set_node m role rs_name hosts false >> rest

  unfoldable pub upgrade_primary : Text → List Text → Option Member → Action W
  upgrade_primary rs_name hosts none = succeed
  upgrade_primary rs_name hosts (some m) =
      upgrade_replica_set_node m (codes "PRIMARY") rs_name hosts true

  -- `rs_name` is the name that the first node has.
  unfoldable pub upgrade_replica_set : Text → List Member → Action W
  upgrade_replica_set rs_name [] w = fail (codes "no nodes to upgrade") w
  upgrade_replica_set rs_name (m ∷ members) w =
      let hosts = map address (m ∷ members) in
      let (roles, v) = detect_roles rs_name hosts w.state.nodes (m ∷ members) no_roles w.outside in
      (upgrade_secondaries rs_name hosts roles.members
          >> upgrade_primary rs_name hosts roles.primary)
        (record w { outside = v })

  -- ConfigNodes as members: convertConfigToMongod, of which the host and the port are read.
  abbrev pub config_member : ConfigNode V → Member
  config_member node = record { host = node.host; port = node.port }

  abbrev pub mongod_member : MongodNode V → Member
  mongod_member node = record { host = node.host; port = node.port }

  unfoldable pub upgrade_config_servers : List (ConfigNode V) → Action W
  upgrade_config_servers [] = succeed
  upgrade_config_servers (node ∷ nodes) =
      upgrade_replica_set node.replica_set (map config_member (node ∷ nodes))

  unfoldable pub shard_members : Text → List (MongodNode V) → List Member
  shard_members name [] = []
  shard_members name (node ∷ nodes) =
      let rest = shard_members name nodes in
      if text_eq node.replica_set name then mongod_member node ∷ rest else rest

  -- The nodes found have the name of the shard.
  unfoldable pub upgrade_members : Text → List Member → Action W
  upgrade_members name [] = fail (codes "no nodes found for shard " ++ name)
  upgrade_members name (m ∷ members) = upgrade_replica_set name (m ∷ members)

  unfoldable pub upgrade_shard : Text → Action W
  upgrade_shard name = upgrade_members name (shard_members name config.topology.mongod_nodes)

  unfoldable pub upgrade_mongos_node : MongosNode V → Action W
  upgrade_mongos_node node =
      let host = host_port node.host node.port in
      unless_skip (ask_node env config host (codes "MONGOS")) (λ w.
        wrap_error (prefixed (codes "failed to upgrade mongos " ++ host))
          (upgrade_node env config (codes "mongos") node.host node.port (codes "MONGOS"))
          (ignore_error (save_state env) (set_node env host NodeStatus.in_progress [] w)))

  unfoldable pub upgrade_mongos : List (MongosNode V) → Action W
  upgrade_mongos [] = succeed
  upgrade_mongos (node ∷ nodes) = upgrade_mongos_node node >> upgrade_mongos nodes

  unfoldable pub fcv_response : PromptResponse → Action W
  fcv_response PromptResponse.abort = fail (codes "FCV upgrade aborted by user")
  fcv_response PromptResponse.continue = succeed
  fcv_response PromptResponse.skip = succeed
  fcv_response PromptResponse.pause = succeed

  unfoldable pub is_critical_level : PromptLevel → Bool
  is_critical_level PromptLevel.critical = true
  is_critical_level PromptLevel.none = false
  is_critical_level PromptLevel.phase = false
  is_critical_level PromptLevel.node = false
  is_critical_level (PromptLevel.other s) = false

  unfoldable pub ask_fcv : Action W
  ask_fcv w =
      if is_critical_level config.prompt_level
      then ask env config (critical_context fcv_operation w.state) fcv_response (λ e. e) w
      else succeed w

  unfoldable pub upgrade_fcv_if : Bool → Action W
  upgrade_fcv_if true =
      ask_fcv >> wrap_error (prefixed (codes "FCV upgrade failed")) (call env.upgrade_fcv)
  upgrade_fcv_if false = succeed

  unfoldable pub post_upgrade_tasks : Action W
  post_upgrade_tasks =
      call env.update_metadata
      >> upgrade_fcv_if config.upgrade_fcv
      >> (λ w. succeed (ignore_error (call env.stop_old_supervisor) w))
      >> wrap_error (prefixed (codes "failed to switch symlinks")) (call env.switch_symlinks)

  -- LocalUpgrader as an UpgraderInterface.
  unfoldable pub local_impl : Impl W
  local_impl = record {
    validate_prerequisites = validate_prerequisites;
    upgrade_config_servers = upgrade_config_servers config.topology.config_nodes;
    upgrade_shard = upgrade_shard;
    upgrade_mongos = upgrade_mongos config.topology.mongos_nodes;
    post_upgrade_tasks = post_upgrade_tasks;
  }
