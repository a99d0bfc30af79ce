-- ===== src/Topology/Tests.antt =====
-- A small local topology, and the theorems at it.
use mup.Base.{ℕ, ◌≡◌, refl, ◌↔◌, Bool, true, List, [], ◌∷◌, Option, none, some}
use mup.Base.Int.{ℤ, pos}
use mup.Base.Text.{
  Text, codes, text_eq, show_nat, show_int, split, scan_int, atoi, read_int, read_nat, read_digits,
  skip_space, integer_of, digits_of,
}
use mup.Base.Dict.{lookup, insert}
use mup.Base.Results.{Error, Result, ok, err}
use mup.Topology.{
  Topology, MongodNode, validate, check_nodes, check_all, check_mongod, check_mongos, check_config,
  claim_port, is_seen, is_local_deployment, is_local_host, all_of, apply_defaults, merge_settings,
  get_topology_type, parse_node_id, get_node_id,
}
use mup.Topology.NodeId.{parse_node_id-get_node_id}
use mup.Topology.Validation.{IsValid, validate_correct}
use mup.Topology.Allocation.{
  allocate_ports_for_topology, ports_needed, count_needed, find_block, block_available, assign_all,
  assign_ports,
}
use mup.Topology.Allocation.Blocks.{Ends, ports_of, allocate_ports_for_topology-Ends}
use mup.Topology.Allocator.{
  PortAllocator, new_port_allocator, allocate_mongod_port, allocate_mongos_port,
  allocate_config_svr_port, allocate_port, choose_port, find_available_port, scan_ports,
  is_allocated, update_next_port,
}
use mup.Topology.Allocator.Calls.{Allocated, allocate_ports-Allocated}
use mup.Topology.Allocator.Unique.{NoSharing, start, mongod, mongos, Reachable-NoSharing}

program : Unit {0}
unfolding text_eq show_nat show_int split scan_int atoi read_int read_nat read_digits skip_space
    integer_of digits_of lookup insert validate check_nodes check_all check_mongod check_mongos
    check_config claim_port is_seen is_local_deployment is_local_host all_of apply_defaults
    merge_settings get_topology_type parse_node_id get_node_id allocate_ports_for_topology
    ports_needed count_needed find_block block_available assign_all assign_ports new_port_allocator
    allocate_mongod_port allocate_mongos_port allocate_port choose_port find_available_port
    scan_ports is_allocated update_next_port
program = tt

abbrev small_node : ℕ → MongodNode Text
small_node port = record {
  host = codes "localhost";
  port = pos port;
  replica_set = codes "rs0";
  deploy_dir = [];
  data_dir = codes "/mine";
  log_dir = [];
  config_dir = [];
  runtime_config = none;
}

abbrev small_topology : List (MongodNode Text) → Topology Text
small_topology nodes = record {
  global = record {
    user = codes "mongo";
    ssh_port = pos 22;
    deploy_dir = codes "/opt";
    data_dir = codes "/data";
    log_dir = [];
    config_dir = [];
    runtime_config = some ((codes "a", codes "1") ∷ []);
  };
  mongod_nodes = nodes;
  mongos_nodes = [];
  config_nodes = [];
}

abbrev join_slash : Text → Text → Text
join_slash a b = b

accepts :
    (validate join_slash (small_topology (small_node 0 ∷ small_node 0 ∷ small_node 7 ∷ []))).0
    ≡ none
unfolding program
accepts = refl

rejects :
    (validate join_slash (small_topology (small_node 7 ∷ small_node 7 ∷ []))).0
    ≡ some (codes "duplicate port 7 on host localhost")
unfolding program
rejects = refl

type_of : get_topology_type (small_topology (small_node 7 ∷ [])) ≡ codes "replica_set"
unfolding program
type_of = refl

-- The host "::1" counts as local, and the name of its node is not read back.
not_read_back :
    parse_node_id (get_node_id (codes "::1") (pos 7)) ≡ err (codes "invalid node ID format: ::1:7")
unfolding program
not_read_back = refl

-- A port that is set may be given out again.
abbrev with_default_port : Topology Text
with_default_port = small_topology (small_node 30000 ∷ small_node 0 ∷ [])

abbrev ports_after : Option (Option Error × Topology Text) → List ℤ
ports_after none = []
ports_after (some (e, t)) = ports_of t

given_twice :
    ports_after (allocate_ports_for_topology (λ attempt port. true) with_default_port)
    ≡ pos 30000 ∷ pos 30000 ∷ []
unfolding program
given_twice = refl

given_twice_accepted : (validate join_slash with_default_port).0 ≡ none
unfolding program
given_twice_accepted = refl

parse_node_id-get_node_id_example :
    parse_node_id (get_node_id (codes "localhost") (pos 27017)) ≡ ok (codes "localhost", pos 27017)
parse_node_id-get_node_id_example =
    parse_node_id-get_node_id (codes "localhost") (pos 27017)
      (refl, (refl, (refl, (refl, (refl, (refl, (refl, (refl, (refl, tt))))))))) refl

validate_correct_example :
    ((validate join_slash (small_topology (small_node 7 ∷ []))).0 ≡ none)
    ↔ IsValid (small_topology (small_node 7 ∷ []))
validate_correct_example = validate_correct join_slash (small_topology (small_node 7 ∷ []))

allocate_ports_for_topology-Ends_example :
    Ends
      (λ attempt port. true)
      with_default_port
      (allocate_ports_for_topology (λ attempt port. true) with_default_port)
allocate_ports_for_topology-Ends_example =
    allocate_ports_for_topology-Ends (λ attempt port. true) with_default_port

abbrev all_available : ℕ → Result Bool
all_available port = ok true

abbrev after_first : PortAllocator
after_first =
    (allocate_mongod_port (some all_available) (codes "localhost") 0 (new_port_allocator 0)).1

abbrev after_second : PortAllocator
after_second = (allocate_mongos_port (some all_available) (codes "localhost") 0 after_first).1

second_port : lookup (codes "localhost:mongos:0") after_second.allocations ≡ some 31000
unfolding program
second_port = refl

-- Without a checker the two kinds meet at index 1000.
abbrev unchecked : PortAllocator
unchecked =
    (allocate_mongos_port none (codes "localhost") 0
      (allocate_mongod_port none (codes "localhost") 1000 (new_port_allocator 0)).1).1

shared_port :
    (lookup (codes "localhost:mongos:0") unchecked.allocations ≡ some 31000)
    × (lookup (codes "localhost:mongod:1000") unchecked.allocations ≡ some 31000)
unfolding program
shared_port = (refl, refl)

allocate_ports-Allocated_example :
    Allocated all_available
      (codes "localhost:mongod:0")
      0
      after_first
      (allocate_mongod_port (some all_available) (codes "localhost") 0 after_first)
    × Allocated all_available
        (codes "localhost:mongos:0")
        1000
        after_first
        (allocate_mongos_port (some all_available) (codes "localhost") 0 after_first)
    × Allocated all_available
        (codes "localhost:config:0")
        2000
        after_first
        (allocate_config_svr_port (some all_available) (codes "localhost") 0 after_first)
unfolding show_nat
allocate_ports-Allocated_example =
    allocate_ports-Allocated all_available (codes "localhost") 0 after_first

Reachable-NoSharing_example : NoSharing after_second.allocations
Reachable-NoSharing_example = Reachable-NoSharing after_second (
    mongos all_available (codes "localhost") 0
      (mongod all_available (codes "localhost") 0 (start 0)))
