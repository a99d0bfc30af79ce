-- ===== src/Topology/Allocator.antt =====
-- pkg/topology/port_allocator.go: `PortAllocator`, which gives each node of a local deployment a
-- port and remembers it. Ports and indexes are numbers that are not negative. The checker asks the
-- system, so its answers are an argument of each call. GetAllocatedPorts, which sorts the ports, is
-- left out.
pub mod Calls
pub mod Unique
use mup.Base.{
  ℕ, zero, suc, ◌+◌, ◌≡◌, Bool, true, false, ◌||◌, List, [], ◌∷◌, ◌++◌, Option, none, some, leb,
  ◌==◌, if◌then◌else◌,
}
use mup.Base.Text.{Text, codes, show_nat}
use mup.Base.Dict.{Dict, lookup, insert}
use mup.Base.Results.{Error, Result, ok, err}
use mup.Topology.Allocation.{default_base_port}

abbrev pub mongod_port_offset : ℕ
mongod_port_offset = 0

abbrev pub mongos_port_offset : ℕ
mongos_port_offset = 1000

abbrev pub config_svr_port_offset : ℕ
config_svr_port_offset = 2000

abbrev pub max_port_scan_attempts : ℕ
max_port_scan_attempts = 1000

abbrev pub PortChecker : Type 0
PortChecker = ℕ → Result Bool

pub record PortAllocator : Type 0 where
  pub base_port : ℕ
  pub next_port : ℕ
  pub allocations : Dict ℕ

-- The constructor; the checker is no part of the record here.
unfoldable pub new_port_allocator : ℕ → PortAllocator
new_port_allocator base_port =
    let base = if base_port == 0 then default_base_port else base_port in
    record { base_port = base; next_port = base; allocations = [] }

unfoldable pub is_allocated : ℕ → Dict ℕ → Bool
is_allocated port [] = false
is_allocated port ((_, allocated) ∷ rest) =
    if allocated == port then true else is_allocated port rest

abbrev pub scan_failed : ℕ → Error
scan_failed start =
    codes "failed to find available port after "
    ++ show_nat max_port_scan_attempts
    ++ codes " attempts starting from "
    ++ show_nat start

abbrev pub check_error : ℕ → Error → Error
check_error port e = codes "failed to check port " ++ show_nat port ++ codes ": " ++ e

-- The loop, with the number of attempts left.
unfoldable pub scan_ports : PortChecker → Dict ℕ → ℕ → ℕ → ℕ → Result ℕ
scan_ports check allocations start zero port = err (scan_failed start)
scan_ports check allocations start (suc left) port =
    let next = scan_ports check allocations start left (suc port) in
    if is_allocated port allocations then next else elim (check port) [
      | err e ↦ err (check_error port e)
      | ok available ↦ if available then ok port else next
    ]

unfoldable pub find_available_port : PortChecker → Dict ℕ → ℕ → Result ℕ
find_available_port check allocations start =
    scan_ports check allocations start max_port_scan_attempts start

unfoldable pub update_next_port : ℕ → PortAllocator → PortAllocator
update_next_port port pa = if leb pa.next_port port then record pa { next_port = suc port } else pa

-- The port to take, given the first candidate: without a checker it is the candidate.
unfoldable pub choose_port : Option PortChecker → Dict ℕ → ℕ → Result ℕ
choose_port none allocations port = ok port
choose_port (some check) allocations port = find_available_port check allocations port

-- What the three functions share, given the id of the node and the offset of its kind.
unfoldable pub allocate_port :
    Option PortChecker → Text → ℕ → PortAllocator → Result ℕ × PortAllocator
allocate_port checker id offset pa = elim (lookup id pa.allocations) [
  | some port ↦ (ok port, pa)
  | none ↦ elim (choose_port checker pa.allocations (pa.base_port + offset)) [
    | err e ↦ (err e, pa)
    | ok port ↦
        (ok port, update_next_port port (record pa { allocations = insert id port pa.allocations }))
  ]
]

unfoldable pub allocate_mongod_port :
    Option PortChecker → Text → ℕ → PortAllocator → Result ℕ × PortAllocator
allocate_mongod_port checker host index =
    allocate_port checker (host ++ codes ":mongod:" ++ show_nat index) (mongod_port_offset + index)

unfoldable pub allocate_mongos_port :
    Option PortChecker → Text → ℕ → PortAllocator → Result ℕ × PortAllocator
allocate_mongos_port checker host index =
    allocate_port checker (host ++ codes ":mongos:" ++ show_nat index) (mongos_port_offset + index)

unfoldable pub allocate_config_svr_port :
    Option PortChecker → Text → ℕ → PortAllocator → Result ℕ × PortAllocator
allocate_config_svr_port checker host index =
    allocate_port checker (host ++ codes ":config:" ++ show_nat index)
      (config_svr_port_offset + index)
