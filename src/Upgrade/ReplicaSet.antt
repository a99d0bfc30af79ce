-- ===== src/Upgrade/ReplicaSet.antt =====
-- pkg/upgrade/replica_set.go: roles of nodes and the step-down of a primary.

use mup.Base.{
  ℕ, zero, suc, ◌-◌, ◌/◌, Bool, false, not, ◌&&◌, ◌||◌, List, [], ◌∷◌, ◌++◌, none, some,
  if◌then◌else◌,
}
use mup.Base.Text.{Text, codes, text_eq, show_int}
use mup.Base.Text.Case.{contains}
use mup.Base.Int.{ℤ}
use mup.Base.Results.{Error, Result, ok, err}
use mup.Topology.{is_empty}
use mup.Upgrade.{FailoverEvent}
use mup.Upgrade.Env.{Env, ReplicaSetMember}

unfoldable pub host_port : Text → ℤ → Text
host_port host port = host ++ codes ":" ++ show_int port

abbrev pub member_host_port : ReplicaSetMember → Text
member_host_port m = host_port m.host m.port

unfoldable pub find_role : Text → List ReplicaSetMember → Result Text
find_role node [] = err (codes "node " ++ node ++ codes " not found in replica set")
find_role node (m ∷ members) =
    let rest = find_role node members in
    if text_eq (member_host_port m) node then ok m.state_str else rest

-- The primary that a status reports; `old` where it reports none.
unfoldable pub find_primary : Text → List ReplicaSetMember → Text
find_primary old [] = old
find_primary old (m ∷ members) =
    let rest = find_primary old members in if m.is_primary then member_host_port m else rest

-- What a round of the wait knows of the new primary after its status.
unfoldable pub seen_primary : Text → Result (List ReplicaSetMember) → Text
seen_primary before (err e) = before
seen_primary before (ok members) = find_primary before members

-- The round ends the wait: only a status that was read does.
unfoldable pub has_new_primary : Text → Text → Result (List ReplicaSetMember) → Bool
has_new_primary old before (err e) = false
has_new_primary old before (ok members) =
    let new = seen_primary before (ok members) in not (is_empty new) && not (text_eq new old)

-- 30 seconds in steps of 2.
abbrev pub election_rounds : ℕ
election_rounds = 15

abbrev is_disconnect : Error → Bool
is_disconnect e = contains (codes "connection") e || contains (codes "socket") e

module _ {W : Type 0} (env : Env W) where
  unfoldable pub detect_node_role : Text → Text → List Text → W → Result Text × W
  detect_node_role node rs_name hosts w =
      let (status, w1) = env.get_replica_set_status rs_name hosts w in
      elim status [ err e ↦ (err e, w1) | ok members ↦ (find_role node members, w1) ]

  unfoldable pub wait_for_primary : Text → Text → List Text → ℕ → Text → W → Text × W
  wait_for_primary old rs_name hosts zero new w = (new, w)
  wait_for_primary old rs_name hosts (suc rounds) new w =
      let (status, w1) = env.get_replica_set_status rs_name hosts w in
      let later = wait_for_primary old rs_name hosts rounds (seen_primary new status) w1 in
      if has_new_primary old new status then (seen_primary new status, w1) else later

  -- After the command: the wait, and the event of a new primary.
  unfoldable pub await_election : ℕ → Text → Text → List Text → W → Result FailoverEvent × W
  await_election start old rs_name hosts w =
      let (new, w1) = wait_for_primary old rs_name hosts election_rounds [] w in
      let (now, w2) = env.clock w1 in
      if is_empty new then (err (codes "no new primary elected within 30s"), w2) else (
        ok (record {
          timestamp = start;
          replica_set = rs_name;
          old_primary = old;
          new_primary = new;
          reason = codes "stepdown";
          election_time_ms = (now - start) / 1_000_000;
        }),
        w2,
      )

  -- The command is expected to cut the connection.
  unfoldable pub step_down_primary : Text → Text → List Text → W → Result FailoverEvent × W
  step_down_primary primary rs_name hosts w =
      let (start, w1) = env.clock w in
      let (refused, w2) = env.connect primary w1 in
      elim refused [
        | some e ↦ (err (codes "failed to connect to primary: " ++ e), w2)
        | none ↦
            let (e, w3) = env.step_down primary w2 in
            elim e [
              | none ↦ await_election start primary rs_name hosts w3
              | some m ↦
                  if is_disconnect m
                  then await_election start primary rs_name hosts w3
                  else (err (codes "stepdown command failed: " ++ m), w3)
            ]
      ]
