-- ===== src/Topology/Allocation.antt =====
-- pkg/topology/port_allocator.go, AllocatePortsForTopology: ports for the nodes of a local
-- deployment that have none. `available` is isPortAvailable, which asks the system: its answer may
-- depend on the attempt. A result of none is the panic of an index out of range. Printing and
-- waiting are left out.
pub mod Blocks
use mup.Base.{
  ℕ, zero, suc, ◌+◌, ◌*◌, ◌≡◌, Bool, true, false, not, List, [], ◌∷◌, ◌++◌, Option, none, some,
  get_elem?, ◌==◌, if◌then◌else◌,
}
use mup.Base.Int.{ℤ, pos, eqb_ℤ}
use mup.Base.Text.{Text, codes, show_nat}
use mup.Base.Results.{Error}
use mup.Topology.{Topology, MongodNode, MongosNode, ConfigNode, is_local_deployment}

abbrev pub default_base_port : ℕ
default_base_port = 30000

abbrev pub max_attempts : ℕ
max_attempts = 10

abbrev pub port_increment : ℕ
port_increment = 100

-- The nodes of a list that need a port, `get` being the port of a node.
unfoldable pub count_needed {ℓ} : {N : Type ℓ} → (N → ℤ) → List N → ℕ
count_needed get [] = 0
count_needed get (node ∷ nodes) =
    let rest = count_needed get nodes in if eqb_ℤ (get node) (pos 0) then suc rest else rest

abbrev pub ports_from : ℕ → ℕ → List ℕ
ports_from base zero = []
ports_from base (suc n) = base ∷ ports_from (suc base) n

-- The inner loop: it stops at the first port that is not available.
unfoldable pub block_available : (ℕ → Bool) → ℕ → ℕ → Bool
block_available available base zero = true
block_available available base (suc n) =
    if available base then block_available available (suc base) n else false

-- The outer loop, with the attempt and the number of attempts left.
unfoldable pub find_block : (ℕ → ℕ → Bool) → ℕ → ℕ → ℕ → Option ℕ
unfolding block_available
find_block available needed attempt zero = none
find_block available needed attempt (suc left) =
    let try_base = default_base_port + attempt * port_increment in
    if block_available (available attempt) try_base needed
    then some try_base
    else find_block available needed (suc attempt) left

-- A loop that assigns ports, with the index that it has reached.
unfoldable pub assign_ports {ℓ} :
    {N : Type ℓ} → (N → ℤ) → (ℤ → N → N) → List ℕ → ℕ → List N → Option (List N × ℕ)
assign_ports get put ports index [] = some ([], index)
assign_ports get put ports index (node ∷ nodes) =
    if eqb_ℤ (get node) (pos 0)
    then (elim (get_elem? ports index) [
      | none ↦ none
      | some port ↦ elim (assign_ports get put ports (suc index) nodes) [
        | none ↦ none
        | some (nodes', index') ↦ some (put (pos port) node ∷ nodes', index')
      ]
    ])
    else elim (assign_ports get put ports index nodes) [
      | none ↦ none
      | some (nodes', index') ↦ some (node ∷ nodes', index')
    ]

module _ {V : Type 0} where
  abbrev pub mongod_port : MongodNode V → ℤ
  mongod_port node = node.port

  abbrev pub mongos_port : MongosNode V → ℤ
  mongos_port node = node.port

  abbrev pub config_port : ConfigNode V → ℤ
  config_port node = node.port

  abbrev pub set_mongod_port : ℤ → MongodNode V → MongodNode V
  set_mongod_port port node = record node { port = port }

  abbrev pub set_mongos_port : ℤ → MongosNode V → MongosNode V
  set_mongos_port port node = record node { port = port }

  abbrev pub set_config_port : ℤ → ConfigNode V → ConfigNode V
  set_config_port port node = record node { port = port }

  unfoldable pub ports_needed : Topology V → ℕ
  ports_needed t =
      count_needed mongod_port t.mongod_nodes
      + count_needed mongos_port t.mongos_nodes
      + count_needed config_port t.config_nodes

  -- Config servers first, then mongod nodes, and mongos nodes last.
  unfoldable pub assign_all : List ℕ → Topology V → Option (Topology V)
  assign_all ports t = elim (assign_ports config_port set_config_port ports 0 t.config_nodes) [
    | none ↦ none
    | some (configs, i) ↦ elim (assign_ports mongod_port set_mongod_port ports i t.mongod_nodes) [
      | none ↦ none
      | some (mongods, j) ↦ elim (assign_ports mongos_port set_mongos_port ports j t.mongos_nodes) [
        | none ↦ none
        | some (mongoses, k) ↦
            some
              (record t { config_nodes = configs; mongod_nodes = mongods; mongos_nodes = mongoses })
      ]
    ]
  ]

  unfoldable pub allocate_ports_for_topology :
      (ℕ → ℕ → Bool) → Topology V → Option (Option Error × Topology V)
  allocate_ports_for_topology available t =
      if not (is_local_deployment t)
      then some (some (codes "port allocation is only for local deployments"), t)
      else if ports_needed t == 0
      then some (none, t)
      else elim (find_block available (ports_needed t) 0 max_attempts) [
        | none ↦ some (
          some (
              codes "failed to find "
              ++ show_nat (ports_needed t)
              ++ codes " contiguous available ports after "
              ++ show_nat max_attempts
              ++ codes " attempts"),
          t,
        )
        | some base ↦ elim (assign_all (ports_from base (ports_needed t)) t) [
          | none ↦ none
          | some t' ↦ some (none, t')
        ]
      ]
