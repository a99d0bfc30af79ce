-- ===== src/Lib.antt =====
-- mup deploys and upgrades MongoDB clusters: it turns a request into a plan of phases and
-- operations, applies the plan step by step with its progress on disk, and locks the cluster for the
-- time. This library models the parts that decide what happens.
--
-- - Version (pkg/upgrade/version.go): versions, their order and the check of an upgrade path.
--   `parse_version`, `compare`, `to_string`, `validate_upgrade_path` are ParseVersion, Compare,
--   String, ValidateUpgradePath. Children: Order, Series, Ladder (the path described on its own, and
--   chains of upgrades), Parse.
-- - Plan (pkg/plan/plan.go): the types of plans and their queries. Plan.Validator is validator.go,
--   the runner of checks. Plan.Store is store.go: plans in files, with JSON and SHA-256 as
--   parameters and the disk as a map from paths to contents.
-- - Apply (pkg/apply/state.go): ApplyState and its methods. Apply.Hooks is hooks.go,
--   Apply.Checkpoints is CreateCheckpoint of checkpoint.go, and Apply.Applier is applier.go with
--   Apply and Resume. Apply.Store is the choice of the current state and RestoreFromCheckpoint. A method of ApplyState is a function on the state that takes the time as
--   `now`. Apply.Env is the interface to all that is outside: the clock, the disk, the commands of
--   hooks, the executor of operations and the user's pause. An action takes the state and the state
--   of the outside and returns an error or none with both. Each proof holds for every such
--   environment.
-- - Lock (pkg/apply/lock.go): the locks on clusters, with the disk as a map from clusters to files.
--   Held, Ownership and Race are about several processes, Cleanup about expired locks.
-- - Topology (pkg/topology/topology.go): the topology of a cluster, its defaults and Validate.
--   Topology.Allocation is AllocatePortsForTopology of pkg/topology/port_allocator.go, and
--   Topology.Allocator is its PortAllocator.
-- - Upgrade (pkg/upgrade/state.go): the record of an upgrade and its methods. Upgrade.Prompt is
--   prompt.go with the input as a list of lines; Upgrade.Env is the interface to the clock, the disk,
--   the processes of nodes and the driver of MongoDB, with the registry of hooks.go;
--   Upgrade.ReplicaSet is replica_set.go, Upgrade.Upgrader the phases and nodes of upgrade.go,
--   Upgrade.Workflow its Upgrade and Resume, and Upgrade.Local the steps of local.go. Upgrade.Keeps
--   has the rules for what such actions keep and establish; its predicates are instances. An action
--   takes the record, the unread input and the outside, as in Apply.
-- - Simulation (pkg/simulation/types.go, config.go): the state of the executor that only simulates, and
--   Simulation.Executor its methods (executor.go). Parents, Failures, Numbers and Files are about its
--   loop over directories, its configured failures, its numbers and its files.
-- - Base: lists, integers, texts as bytes, decimal printing and reading, maps and results: Go's
--   language and standard library, as far as the parts above use them.
--
-- The parts meet in Apply: it takes plans of Plan, and it writes the texts and maps of Base. A
-- command takes a lock of Lock before it applies. The checks of Upgrade.Local use the paths of Version, and
-- the workflow the types of Topology. Base.Actions has the actions that Apply and Upgrade share.
--
-- Go's `int` is an integer, with its 64-bit range where a text is read. Times and durations are
-- numbers of nanoseconds that are not negative. Each loop is a recursion on
-- the list it goes over or on the rounds of the code, with one on fuel, the length of the path for the
-- directories of the simulation, which is shown to be enough, and the searches for ports on the number of attempts left, 10 blocks and 1000
-- ports, which are the bounds of the code.
--
-- Operations of a parallel group run one after another in an order that the environment picks, as
-- each one locks the state for each of its writes; interleavings inside an operation are not
-- modelled. Nor are JSON and YAML, files beyond the maps above, the printing to the terminal, the
-- goroutine that renews locks, the rollback (which the code does not have), and the handlers,
-- planners and executors that drive hosts.
pub mod Base
pub mod Version
pub mod Plan
pub mod Apply
pub mod Lock
pub mod Topology
pub mod Upgrade
pub mod Simulation
