-- ===== src/Upgrade.antt =====
-- pkg/upgrade/state.go: what is recorded of an upgrade. A map is an association list; `now` is a
-- reading of the clock, and a zero time is 0.
pub mod Prompt
pub mod Env
pub mod ReplicaSet
pub mod Upgrader
pub mod Workflow
pub mod Local
pub mod Keeps
use mup.Base.{
  ℕ, suc, ◌+◌, Bool, true, false, ◌||◌, List, [], ◌∷◌, ◌++◌, Option, none, some, length,
  if◌then◌else◌,
}
use mup.Base.Text.{Text, codes}
use mup.Base.Dict.{Dict, lookup, insert}

pub data NodeStatus : Type 0 where
  pending : NodeStatus
  in_progress : NodeStatus
  completed : NodeStatus
  failed : NodeStatus
  rolled_back : NodeStatus
  skipped : NodeStatus

pub data PhaseStatus : Type 0 where
  not_started : PhaseStatus
  in_progress : PhaseStatus
  completed : PhaseStatus
  failed : PhaseStatus

pub data OverallStatus : Type 0 where
  in_progress : OverallStatus
  completed : OverallStatus
  failed : OverallStatus
  rolled_back : OverallStatus
  paused : OverallStatus

pub record NodeState : Type 0 where
  pub status : NodeStatus
  pub host_port : Text
  pub start_timestamp : ℕ
  pub completion_timestamp : ℕ
  pub previous_version : Text
  pub target_version : Text
  pub error_details : Text
  pub retry_count : ℕ
  pub role : Text

pub record PhaseState : Type 0 where
  pub name : Text
  pub status : PhaseStatus
  pub nodes_in_phase : List Text
  pub phase_start_timestamp : ℕ
  pub last_checkpoint_time : ℕ

pub record FailoverEvent : Type 0 where
  pub timestamp : ℕ
  pub replica_set : Text
  pub old_primary : Text
  pub new_primary : Text
  pub reason : Text
  pub election_time_ms : ℕ

pub record UpgradeState : Type 0 where
  pub upgrade_id : Text
  pub cluster_name : Text
  pub previous_version : Text
  pub target_version : Text
  pub upgrade_started_at : ℕ
  pub last_updated_at : ℕ
  pub overall_status : OverallStatus
  pub current_phase : Text
  pub phases : Dict PhaseState
  pub nodes : Dict NodeState
  pub checkpoint_count : ℕ
  pub last_checkpoint : ℕ
  pub paused_at : ℕ
  pub paused_reason : Text
  pub prompt_level : Text
  pub skipped_nodes : List Text
  pub user_pause_requested : Bool
  pub failovers : List FailoverEvent

unfoldable pub initialize_state : Text → Text → Text → Text → ℕ → UpgradeState
initialize_state id cluster previous target now = record {
  upgrade_id = id;
  cluster_name = cluster;
  previous_version = previous;
  target_version = target;
  upgrade_started_at = now;
  last_updated_at = now;
  overall_status = OverallStatus.in_progress;
  current_phase = codes "pre-flight";
  phases = [];
  nodes = [];
  checkpoint_count = 0;
  last_checkpoint = 0;
  paused_at = 0;
  paused_reason = [];
  prompt_level = [];
  skipped_nodes = [];
  user_pause_requested = false;
  failovers = [];
}

-- A node that the map does not have yet; Go leaves its status empty, and a write of it follows.
unfoldable pub new_node : Text → UpgradeState → NodeState
new_node host s = record {
  status = NodeStatus.pending;
  host_port = host;
  start_timestamp = 0;
  completion_timestamp = 0;
  previous_version = s.previous_version;
  target_version = s.target_version;
  error_details = [];
  retry_count = 0;
  role = [];
}

abbrev pub or_new {ℓ} : {A : Type ℓ} → Option A → A → A
or_new none a = a
or_new (some b) a = b

unfoldable pub is_in_progress : NodeStatus → Bool
is_in_progress NodeStatus.in_progress = true
is_in_progress NodeStatus.pending = false
is_in_progress NodeStatus.completed = false
is_in_progress NodeStatus.failed = false
is_in_progress NodeStatus.rolled_back = false
is_in_progress NodeStatus.skipped = false

unfoldable pub is_completed : NodeStatus → Bool
is_completed NodeStatus.completed = true
is_completed NodeStatus.pending = false
is_completed NodeStatus.in_progress = false
is_completed NodeStatus.failed = false
is_completed NodeStatus.rolled_back = false
is_completed NodeStatus.skipped = false

unfoldable pub is_failed : NodeStatus → Bool
is_failed NodeStatus.failed = true
is_failed NodeStatus.pending = false
is_failed NodeStatus.in_progress = false
is_failed NodeStatus.completed = false
is_failed NodeStatus.rolled_back = false
is_failed NodeStatus.skipped = false

unfoldable pub is_skipped : NodeStatus → Bool
is_skipped NodeStatus.skipped = true
is_skipped NodeStatus.pending = false
is_skipped NodeStatus.in_progress = false
is_skipped NodeStatus.completed = false
is_skipped NodeStatus.failed = false
is_skipped NodeStatus.rolled_back = false

-- An error message that is empty leaves the one before.
abbrev pub error_or : Text → Text → Text
error_or [] old = old
error_or (c ∷ message) old = c ∷ message

-- The writes of UpdateNodeState to the node.
unfoldable pub set_node_status : ℕ → NodeStatus → Text → NodeState → NodeState
unfolding is_in_progress is_completed is_failed is_skipped
set_node_status now status message node = record node {
  status = status;
  start_timestamp = if is_in_progress status then now else node.start_timestamp;
  completion_timestamp =
      if is_completed status || is_failed status || is_skipped status
      then now
      else node.completion_timestamp;
  error_details = error_or message node.error_details;
  retry_count = if is_failed status then suc node.retry_count else node.retry_count;
}

unfoldable pub update_node_state : ℕ → Text → NodeStatus → Text → UpgradeState → UpgradeState
unfolding new_node set_node_status
update_node_state now host status message s = record s {
  nodes =
      insert host
        (set_node_status now status message (or_new (lookup host s.nodes) (new_node host s)))
        s.nodes;
  last_updated_at = now;
}

unfoldable pub new_phase : Text → PhaseState
new_phase phase = record {
  name = phase;
  status = PhaseStatus.not_started;
  nodes_in_phase = [];
  phase_start_timestamp = 0;
  last_checkpoint_time = 0;
}

unfoldable pub phase_starts : PhaseStatus → Bool
phase_starts PhaseStatus.in_progress = true
phase_starts PhaseStatus.not_started = false
phase_starts PhaseStatus.completed = false
phase_starts PhaseStatus.failed = false

unfoldable pub set_phase_status : ℕ → PhaseStatus → PhaseState → PhaseState
unfolding phase_starts
set_phase_status now status p = record p {
  status = status;
  phase_start_timestamp = if phase_starts status then now else p.phase_start_timestamp;
}

unfoldable pub update_phase_state : ℕ → Text → PhaseStatus → UpgradeState → UpgradeState
unfolding new_phase set_phase_status
update_phase_state now phase status s = record s {
  phases =
      insert phase (set_phase_status now status (or_new (lookup phase s.phases) (new_phase phase)))
        s.phases;
  current_phase = phase;
  last_updated_at = now;
}

-- The first writes of SaveState, which come before the file is written.
unfoldable pub count_checkpoint : ℕ → UpgradeState → UpgradeState
count_checkpoint now s = record s {
  last_updated_at = now;
  last_checkpoint = now;
  checkpoint_count = suc s.checkpoint_count;
}

unfoldable pub with_status : (NodeStatus → Bool) → Dict NodeState → List NodeState
with_status f [] = []
with_status f ((host, node) ∷ nodes) =
    let rest = with_status f nodes in if f node.status then node ∷ rest else rest

unfoldable pub get_nodes_by_status : (NodeStatus → Bool) → UpgradeState → List NodeState
unfolding with_status
get_nodes_by_status f s = with_status f s.nodes

unfoldable pub count_completed : Dict NodeState → ℕ
unfolding is_completed
count_completed [] = 0
count_completed ((host, node) ∷ nodes) =
    let count = count_completed nodes in if is_completed node.status then suc count else count

unfoldable pub get_completed_node_count : UpgradeState → ℕ
unfolding count_completed
get_completed_node_count s = count_completed s.nodes

unfoldable pub get_total_node_count : UpgradeState → ℕ
get_total_node_count s = length s.nodes
