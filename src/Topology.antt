-- ===== src/Topology.antt =====
-- pkg/topology/topology.go: the topology of a cluster, its defaults, its validation and its
-- queries. `V` is the type of the values of a runtime configuration, Go's `any`: they are only
-- copied. Fields that no function of the file reads (systemd, OS and resource settings, priority,
-- hidden, votes, members of a replica set) are left out. The reading of the YAML file is not
-- modelled. `join` is filepath.Join.
pub mod Checks
pub mod Validation
pub mod NodeId
pub mod Ports
pub mod Allocation
pub mod Allocator
mod Tests
use mup.Base.{
  ℕ, ◌≡◌, Bool, true, false, not, ◌&&◌, ◌||◌, List, [], ◌∷◌, ◌++◌, map, Option, none, some, length,
  ltb, ◌==◌, if◌then◌else◌,
}
use mup.Base.Int.{ℤ, pos, ltb_ℤ, eqb_ℤ}
use mup.Base.Text.{Text, codes, text_eq, show_int, split, scan_int}
use mup.Base.Dict.{Dict, lookup, insert}
use mup.Base.Results.{Error, Result, ok, err, ◌>>=◌}

pub record GlobalConfig (V : Type 0) : Type 0 where
  pub user : Text
  pub ssh_port : ℤ
  pub deploy_dir : Text
  pub data_dir : Text
  pub log_dir : Text
  pub config_dir : Text
  pub runtime_config : Option (Dict V)

pub record MongodNode (V : Type 0) : Type 0 where
  pub host : Text
  pub port : ℤ
  pub replica_set : Text
  pub deploy_dir : Text
  pub data_dir : Text
  pub log_dir : Text
  pub config_dir : Text
  pub runtime_config : Option (Dict V)

pub record MongosNode (V : Type 0) : Type 0 where
  pub host : Text
  pub port : ℤ
  pub deploy_dir : Text
  pub log_dir : Text
  pub config_dir : Text
  pub runtime_config : Option (Dict V)

pub record ConfigNode (V : Type 0) : Type 0 where
  pub host : Text
  pub port : ℤ
  pub replica_set : Text
  pub deploy_dir : Text
  pub data_dir : Text
  pub log_dir : Text
  pub config_dir : Text
  pub runtime_config : Option (Dict V)

-- `mongod_nodes`, `mongos_nodes` and `config_nodes` are `Mongod`, `Mongos` and `ConfigSvr`.
pub record Topology (V : Type 0) : Type 0 where
  pub global : GlobalConfig V
  pub mongod_nodes : List (MongodNode V)
  pub mongos_nodes : List (MongosNode V)
  pub config_nodes : List (ConfigNode V)

abbrev pub is_empty : Text → Bool
is_empty [] = true
is_empty (c ∷ t) = false

abbrev pub or_default : Text → Text → Text
or_default own default = if is_empty own then default else own

unfoldable pub is_local_host : Text → Bool
is_local_host host =
    text_eq host (codes "localhost")
    || text_eq host (codes "127.0.0.1")
    || text_eq host (codes "::1")

-- A check of all elements with an early return.
unfoldable pub all_of {ℓ} : {A : Type ℓ} → (A → Bool) → List A → Bool
all_of f [] = true
all_of f (x ∷ xs) = if f x then all_of f xs else false

-- The loop of a validation, with the ports that it has seen; it stops at the first error.
unfoldable pub check_all {ℓ} :
    {A : Type ℓ} → (A → Dict Bool → Result (Dict Bool)) → List A → Dict Bool → Result (Dict Bool)
check_all check [] seen = ok seen
check_all check (x ∷ xs) seen = check x seen >>= check_all check xs

abbrev pub port_key : Text → ℤ → Text
port_key host port = host ++ b':' ∷ show_int port

unfoldable pub is_seen : Text → Dict Bool → Bool
is_seen key seen = elim (lookup key seen) [ none ↦ false | some b ↦ b ]

-- The end of the three loops' bodies.
unfoldable pub claim_port : Text → ℤ → Dict Bool → Result (Dict Bool)
claim_port host port seen =
    if ltb_ℤ (pos 0) port
    then (if is_seen (port_key host port) seen
        then err (codes "duplicate port " ++ show_int port ++ codes " on host " ++ host)
        else ok (insert (port_key host port) true seen))
    else ok seen

unfoldable pub get_node_id : Text → ℤ → Text
get_node_id host port = host ++ b':' ∷ show_int port

abbrev pub error_of {ℓ} : {A : Type ℓ} → Result A → Option Error
error_of (ok a) = none
error_of (err e) = some e

unfoldable pub parse_node_id : Text → Result (Text × ℤ)
parse_node_id id = elim (split b':' id) [
  | [] ↦ err (codes "invalid node ID format: " ++ id)
  | host ∷ rest ↦ elim rest [
    | [] ↦ err (codes "invalid node ID format: " ++ id)
    | number ∷ more ↦ elim more [
      | _ ∷ _ ↦ err (codes "invalid node ID format: " ++ id)
      | [] ↦ elim (scan_int number) [
        | none ↦ err (codes "invalid port in node ID: " ++ id)
        | some port ↦ ok (host, port)
      ]
    ]
  ]
]

module _ {V : Type 0} where
  -- The loop that fills in the global settings that a node lacks.
  unfoldable pub merge_settings : Dict V → Dict V → Dict V
  merge_settings [] own = own
  merge_settings ((key, value) ∷ settings) own =
      merge_settings settings (elim (lookup key own) [ some _ ↦ own | none ↦ insert key value own ])

  -- none is the nil map.
  abbrev pub merge_runtime_config : Option (Dict V) → Option (Dict V) → Option (Dict V)
  merge_runtime_config none own = own
  merge_runtime_config (some settings) none = some (merge_settings settings [])
  merge_runtime_config (some settings) (some own) = some (merge_settings settings own)

  abbrev pub default_mongod : GlobalConfig V → MongodNode V → MongodNode V
  default_mongod g node = record node {
    deploy_dir = or_default node.deploy_dir g.deploy_dir;
    data_dir = or_default node.data_dir g.data_dir;
    log_dir = or_default node.log_dir g.log_dir;
    config_dir = or_default node.config_dir g.config_dir;
    runtime_config = merge_runtime_config g.runtime_config node.runtime_config;
  }

  abbrev pub default_mongos : GlobalConfig V → MongosNode V → MongosNode V
  default_mongos g node = record node {
    deploy_dir = or_default node.deploy_dir g.deploy_dir;
    log_dir = or_default node.log_dir g.log_dir;
    config_dir = or_default node.config_dir g.config_dir;
    runtime_config = merge_runtime_config g.runtime_config node.runtime_config;
  }

  abbrev pub default_config : GlobalConfig V → ConfigNode V → ConfigNode V
  default_config g node = record node {
    deploy_dir = or_default node.deploy_dir g.deploy_dir;
    data_dir = or_default node.data_dir g.data_dir;
    log_dir = or_default node.log_dir g.log_dir;
    config_dir = or_default node.config_dir g.config_dir;
    runtime_config = merge_runtime_config g.runtime_config node.runtime_config;
  }

  unfoldable pub apply_defaults : Topology V → Topology V
  apply_defaults t = record t {
    mongod_nodes = map (default_mongod t.global) t.mongod_nodes;
    mongos_nodes = map (default_mongos t.global) t.mongos_nodes;
    config_nodes = map (default_config t.global) t.config_nodes;
  }

  unfoldable pub is_local_deployment : Topology V → Bool
  unfolding all_of is_local_host
  is_local_deployment t =
      all_of (λ (node : MongodNode V). is_local_host node.host) t.mongod_nodes
      && all_of (λ (node : MongosNode V). is_local_host node.host) t.mongos_nodes
      && all_of (λ (node : ConfigNode V). is_local_host node.host) t.config_nodes

  unfoldable pub check_mongod : Bool → MongodNode V → Dict Bool → Result (Dict Bool)
  check_mongod is_local node seen =
      if is_empty node.host
      then err (codes "mongod node missing host")
      else if eqb_ℤ node.port (pos 0) && not is_local
      then err (codes "mongod node " ++ node.host ++ codes " missing port")
      else claim_port node.host node.port seen

  unfoldable pub check_mongos : Bool → MongosNode V → Dict Bool → Result (Dict Bool)
  check_mongos is_local node seen =
      if is_empty node.host
      then err (codes "mongos node missing host")
      else if eqb_ℤ node.port (pos 0) && not is_local
      then err (codes "mongos node " ++ node.host ++ codes " missing port")
      else claim_port node.host node.port seen

  unfoldable pub check_config : Bool → ConfigNode V → Dict Bool → Result (Dict Bool)
  check_config is_local node seen =
      if is_empty node.host
      then err (codes "config server node missing host")
      else if eqb_ℤ node.port (pos 0) && not is_local
      then err (codes "config server node " ++ node.host ++ codes " missing port")
      else if is_empty node.replica_set
      then err (codes "config server node " ++ node.host ++ codes " missing replica_set")
      else claim_port node.host node.port seen

  unfoldable pub check_nodes : Topology V → Result (Dict Bool)
  check_nodes t =
      let is_local = is_local_deployment t in
      check_all (check_mongod is_local) t.mongod_nodes []
      >>= check_all (check_mongos is_local) t.mongos_nodes
      >>= check_all (check_config is_local) t.config_nodes

  abbrev pub fill_global : (Text → Text → Text) → GlobalConfig V → GlobalConfig V
  fill_global join g = record g {
    data_dir = or_default g.data_dir (join g.deploy_dir (codes "data"));
    log_dir = or_default g.log_dir (join g.deploy_dir (codes "logs"));
    config_dir = or_default g.config_dir (join g.deploy_dir (codes "conf"));
  }

  -- The error and the topology, in which the directories have been filled in.
  unfoldable pub validate : (Text → Text → Text) → Topology V → Option Error × Topology V
  unfolding check_nodes
  validate join t =
      if length t.mongod_nodes == 0 && length t.mongos_nodes == 0 && length t.config_nodes == 0
      then (some (codes "topology must contain at least one node"), t)
      else if is_empty t.global.user
      then (some (codes "global.user is required"), t)
      else if is_empty t.global.deploy_dir
      then (some (codes "global.deploy_dir is required"), t)
      else let filled : Topology V = record t { global = fill_global join t.global } in
        (error_of (check_nodes filled), filled)

  unfoldable pub get_topology_type : Topology V → Text
  get_topology_type t =
      if ltb 0 (length t.mongos_nodes) || ltb 0 (length t.config_nodes)
      then codes "sharded"
      else if all_of (λ (node : MongodNode V). is_empty node.replica_set) t.mongod_nodes
      then codes "standalone"
      else codes "replica_set"
