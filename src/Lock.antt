-- ===== src/Lock.antt =====
-- pkg/apply/lock.go: locks on clusters, kept in one file for each cluster.
-- The disk is a map from cluster names to lock files: the path of a file is a function of the
-- name. A file holds a lock or something that cannot be read or parsed. Times and durations are
-- numbers that are not negative. Each reading of the clock and the result of each write or removal
-- is an argument. A write goes to a second file that is renamed, so one that fails changes nothing.
pub mod Held
pub mod Ownership
pub mod Race
pub mod Cleanup
mod Tests
use mup.Base.{
  ℕ, ◌+◌, ◌*◌, ◌≡◌, Bool, true, false, not, ◌&&◌, List, [], ◌∷◌, ◌++◌, map, Option, none, some, ltb,
  ◌==◌, if◌then◌else◌,
}
use mup.Base.Text.{Text, codes, text_eq}
use mup.Base.Dict.{Dict, lookup, insert, delete}
use mup.Base.Results.{Error, Result, ok, err}

-- `lock_timeout` is kept as the duration that the code prints.
pub record ClusterLock : Type 0 where
  pub cluster_name : Text
  pub plan_id : Text
  pub operation : Text
  pub locked_by : Text
  pub locked_at : ℕ
  pub expires_at : ℕ
  pub lock_timeout : ℕ
  pub renew_count : ℕ

pub data LockFile : Type 0 where
  held : ClusterLock → LockFile
  unreadable : Error → LockFile

abbrev pub Disk : Type 0
Disk = Dict LockFile

unfoldable pub get_lock : Text → Disk → Result ClusterLock
get_lock cluster d = elim (lookup cluster d) [
  | none ↦ err (codes "no lock found for cluster " ++ cluster)
  | some (held lock) ↦ ok lock
  | some (unreadable e) ↦ err (codes "failed to read lock file: " ++ e)
]

-- `io` is the result of the file operations, none where they succeed.
unfoldable pub save_lock : Option Error → ClusterLock → Disk → Option Error × Disk
save_lock none lock d = (none, insert lock.cluster_name (held lock) d)
save_lock (some e) lock d = (some e, d)

unfoldable pub remove_file : Option Error → Text → Disk → Option Error × Disk
remove_file none cluster d = (none, delete cluster d)
remove_file (some e) cluster d = (some (codes "failed to remove lock file: " ++ e), d)

abbrev pub default_timeout : ℕ
default_timeout = 24 * 3600 * 1_000_000_000

abbrev pub timeout_or_default : ℕ → ℕ
timeout_or_default timeout = if timeout == 0 then default_timeout else timeout

-- `format` is `Format(time.RFC3339)`.
abbrev pub locked_message : (ℕ → Text) → Text → ClusterLock → Error
locked_message format cluster lock =
    codes "cluster "
    ++ cluster
    ++ codes " is locked by "
    ++ lock.locked_by
    ++ codes " (plan: "
    ++ lock.plan_id
    ++ codes ", operation: "
    ++ lock.operation
    ++ codes ", expires: "
    ++ format lock.expires_at
    ++ codes ")"

-- The first half of `AcquireLock`: nothing is wrong unless a lock is there that has not expired.
-- A file that cannot be read is no lock.
unfoldable pub check_free : (ℕ → Text) → Text → ℕ → Disk → Option Error
unfolding get_lock
check_free format cluster now d = elim (get_lock cluster d) [
  | err _ ↦ none
  | ok lock ↦ if ltb now lock.expires_at then some (locked_message format cluster lock) else none
]

-- The lock that the second half makes. `locked_at` and `before_expiry` are two readings.
abbrev pub new_lock : Text → Text → Text → Text → ℕ → ℕ → ℕ → ClusterLock
new_lock me cluster plan_id operation timeout locked_at before_expiry = record {
  cluster_name = cluster;
  plan_id = plan_id;
  operation = operation;
  locked_by = me;
  locked_at = locked_at;
  expires_at = before_expiry + timeout;
  lock_timeout = timeout;
  renew_count = 0;
}

-- The second half: the write.
unfoldable pub take_lock : Option Error → ClusterLock → Disk → Result ClusterLock × Disk
unfolding save_lock
take_lock io lock d =
    let (e, d') = save_lock io lock d in
    elim e [ none ↦ (ok lock, d') | some x ↦ (err (codes "failed to save lock: " ++ x), d') ]

-- `me` is what getLockedByIdentifier returns.
unfoldable pub acquire_lock :
    (ℕ → Text)
    → Option Error
    → Text
    → ℕ
    → ℕ
    → ℕ
    → Text
    → Text
    → Text
    → ℕ
    → Disk
    → Result ClusterLock × Disk
acquire_lock format io me now locked_at before_expiry cluster plan_id operation timeout d =
    elim (check_free format cluster now d) [
      | some e ↦ (err e, d)
      | none ↦
          take_lock io
            (new_lock me cluster plan_id operation (timeout_or_default timeout) locked_at
              before_expiry)
            d
    ]

abbrev pub not_owner : ClusterLock → ClusterLock → Error
not_owner current lock =
    codes "cannot renew lock: owned by " ++ current.locked_by ++ codes ", not " ++ lock.locked_by

-- The caller's lock is written through its pointer, also where the save fails after that.
unfoldable pub renew_lock :
    Option Error → ℕ → ℕ → ClusterLock → ℕ → Disk → (Option Error × ClusterLock) × Disk
unfolding save_lock
renew_lock io now before_expiry lock extension d = elim (get_lock lock.cluster_name d) [
  | err e ↦ ((some (codes "lock not found: " ++ e), lock), d)
  | ok current ↦
      if not (text_eq current.locked_by lock.locked_by)
      then ((some (not_owner current lock), lock), d)
      else if ltb current.expires_at now
      then ((some (codes "cannot renew expired lock"), lock), d)
      else let renewed : ClusterLock = record lock {
        expires_at = before_expiry + extension;
        renew_count = lock.renew_count + 1;
      } in
        let (e, d') = save_lock io renewed d in
        elim e [
          | none ↦ ((none, renewed), d')
          | some x ↦ ((some (codes "failed to save renewed lock: " ++ x), renewed), d')
        ]
]

unfoldable pub release_lock : Option Error → ℕ → Text → ClusterLock → Disk → Option Error × Disk
unfolding remove_file
release_lock io now cluster lock d = elim (get_lock cluster d) [
  | err _ ↦ (none, d)
  | ok current ↦
      if not (text_eq current.locked_by lock.locked_by) && ltb now current.expires_at
      then (
        some (
            codes "cannot release lock: owned by "
            ++ current.locked_by
            ++ codes ", not "
            ++ lock.locked_by),
        d,
      )
      else remove_file io cluster d
]

unfoldable pub is_locked : ℕ → Text → Disk → Bool
unfolding get_lock
is_locked now cluster d = elim (get_lock cluster d) [
  | err _ ↦ false
  | ok lock ↦ if ltb lock.expires_at now then false else true
]

unfoldable pub force_unlock : Option Error → Text → Disk → Option Error × Disk
unfolding remove_file
force_unlock io cluster d = remove_file io cluster d

-- The body of the loop of `CleanupExpiredLocks`: a removal that fails is only reported.
unfoldable pub cleanup_one : Option Error → ℕ → Text → Disk → Disk
unfolding get_lock remove_file
cleanup_one io now cluster d = elim (get_lock cluster d) [
  | err _ ↦ d
  | ok lock ↦ if ltb lock.expires_at now then (remove_file io cluster d).1 else d
]

-- The loop over the names in the directory. Each cluster has its own result and its own reading.
unfoldable pub cleanup_from : (Text → Option Error) → (Text → ℕ) → List Text → Disk → Disk
unfolding cleanup_one
cleanup_from io clock [] d = d
cleanup_from io clock (name ∷ names) d =
    cleanup_from io clock names (cleanup_one (io name) (clock name) name d)

abbrev pub clusters_of : Disk → List Text
clusters_of d = map (λ (entry : Text × LockFile). entry.0) d

abbrev pub listing_error : Option Error → Option Error
listing_error none = none
listing_error (some e) = some (codes "failed to read clusters directory: " ++ e)

-- `listing` is the failure to read the directory, if any; one that is missing is an empty disk.
unfoldable pub cleanup_expired_locks :
    Option Error → (Text → Option Error) → (Text → ℕ) → Disk → Option Error × Disk
unfolding cleanup_from
cleanup_expired_locks (some e) io clock d = (listing_error (some e), d)
cleanup_expired_locks none io clock d = (none, cleanup_from io clock (clusters_of d) d)
