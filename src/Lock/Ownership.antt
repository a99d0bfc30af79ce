-- ===== src/Lock/Ownership.antt =====
-- A lock that has not expired stays with its owner, whatever the other processes do.
use mathlib.Core.Path.{subst}
use mup.Base.{
  ℕ, ◌+◌, ◌≤◌, ◌<◌, ◌≡◌, ◌≢◌, refl, true, Option, none, some, inl, inr, arith, Bool-cases,
  Option-cases,
}
use mup.Base.Text.{Text, text_eq, text_eq_iff}
use mup.Base.Dict.{lookup-insert_self}
use mup.Base.Results.{Error, ok, err}
use mup.Lock.{
  ClusterLock, held, locked_message, Disk, save_lock, check_free, new_lock, timeout_or_default,
  take_lock, acquire_lock, renew_lock, release_lock, is_locked, force_unlock, cleanup_expired_locks,
  clusters_of,
}
use mup.Lock.Held.{
  HoldsLock, get_lock-held, text_eq-false, ltb-false, acquire_lock-refused, acquire_lock-HoldsLock,
  renew_lock-other, renew_lock-refused, release_lock-HoldsLock, cleanup_from-HoldsLock,
  take_lock-other, remove_file-other,
}

-- What a process that is not the owner of the lock of a cluster can do before it expires. A step takes place
-- as a whole, but for an acquire of another cluster, of which the write may come by itself;
-- `mup.Lock.Race` is about such a write for this cluster. A lock is removed by force at other clusters only.
pub data Step (cluster : Text) (lock : ClusterLock) : Disk → Disk → Type 0 where
  acquires :
      (format : ℕ → Text) (io : Option Error) (me : Text) (now locked_at before_expiry : ℕ)
      (target plan_id operation : Text) (timeout : ℕ) (d : Disk)
      → now < lock.expires_at
      → Step cluster lock d
          (acquire_lock format io me now locked_at before_expiry target plan_id operation timeout
            d).1
  renews :
      (io : Option Error) (now before_expiry : ℕ) (other : ClusterLock) (extension : ℕ) (d : Disk)
      → other.locked_by ≢ lock.locked_by
      → Step cluster lock d (renew_lock io now before_expiry other extension d).1
  releases :
      (io : Option Error) (now : ℕ) (target : Text) (other : ClusterLock) (d : Disk)
      → other.locked_by ≢ lock.locked_by
      → now < lock.expires_at
      → Step cluster lock d (release_lock io now target other d).1
  cleans :
      (listing : Option Error) (io : Text → Option Error) (clock : Text → ℕ) (d : Disk)
      → ((name : Text) → clock name ≤ lock.expires_at)
      → Step cluster lock d (cleanup_expired_locks listing io clock d).1
  writes :
      (io : Option Error) (other : ClusterLock) (d : Disk)
      → other.cluster_name ≢ cluster
      → Step cluster lock d (take_lock io other d).1
  forces :
      (io : Option Error) (target : Text) (d : Disk)
      → target ≢ cluster
      → Step cluster lock d (force_unlock io target d).1

pub data Steps (cluster : Text) (lock : ClusterLock) : Disk → Disk → Type 0 where
  done : (d : Disk) → Steps cluster lock d d
  next : {d e f : Disk} → Step cluster lock d e → Steps cluster lock e f → Steps cluster lock d f

renew_lock-HoldsLock :
    (cluster : Text) (lock : ClusterLock) (d : Disk) (io : Option Error) (now before_expiry : ℕ)
    (other : ClusterLock) (extension : ℕ)
    → HoldsLock cluster lock d
    → other.locked_by ≢ lock.locked_by
    → HoldsLock cluster lock (renew_lock io now before_expiry other extension d).1
renew_lock-HoldsLock cluster lock d io now before_expiry other extension h ne =
    elim (Bool-cases (text_eq other.cluster_name cluster)) [
      | inl e ↦
          rw
            (renew_lock-refused cluster lock d h io now before_expiry other extension
              ((text_eq_iff other.cluster_name cluster).0 e) ne)
            h
      | inr e ↦
          renew_lock-other cluster lock d h io now before_expiry other extension
            (text_eq-false other.cluster_name cluster e)
    ]

Step-HoldsLock :
    (cluster : Text) (lock : ClusterLock) (d e : Disk)
    → Step cluster lock d e
    → HoldsLock cluster lock d
    → HoldsLock cluster lock e
unfolding cleanup_expired_locks force_unlock
Step-HoldsLock cluster lock _ _
      (acquires format io me now locked_at before_expiry target plan_id operation timeout d live)
      h =
    acquire_lock-HoldsLock cluster lock d h format io me now locked_at before_expiry target plan_id
      operation timeout live
Step-HoldsLock cluster lock _ _ (renews io now before_expiry other extension d ne) h =
    renew_lock-HoldsLock cluster lock d io now before_expiry other extension h ne
Step-HoldsLock cluster lock _ _ (releases io now target other d ne live) h =
    release_lock-HoldsLock cluster lock d h io now target other ne live
Step-HoldsLock cluster lock _ _ (cleans none io clock d live) h =
    cleanup_from-HoldsLock cluster lock io clock (clusters_of d) d live h
Step-HoldsLock cluster lock _ _ (cleans (some e) io clock d live) h = h
Step-HoldsLock cluster lock _ _ (writes io other d ne) h =
    take_lock-other cluster lock d h io other ne
Step-HoldsLock cluster lock _ _ (forces io target d ne) h =
    remove_file-other cluster lock d h io target ne

is_locked-held :
    (cluster : Text) (lock : ClusterLock) (d : Disk) (now : ℕ)
    → HoldsLock cluster lock d
    → now ≤ lock.expires_at
    → is_locked now cluster d ≡ true
unfolding is_locked
is_locked-held cluster lock d now h live =
    rw (get_lock-held cluster lock d h, is_locked, ltb-false lock.expires_at now live)

-- While a cluster's file holds a lock, other processes may take any number of such steps. After them
-- the file still holds it.
pub Steps-HoldsLock :
    (cluster : Text) (lock : ClusterLock) (d e : Disk)
    → Steps cluster lock d e
    → HoldsLock cluster lock d
    → HoldsLock cluster lock e
Steps-HoldsLock cluster lock _ _ (done d) h = h
Steps-HoldsLock cluster lock _ _ (next s r) h =
    Steps-HoldsLock cluster lock _ _ r (Step-HoldsLock cluster lock _ _ s h)

take_lock-ok :
    (lock got : ClusterLock) (io : Option Error) (d : Disk)
    → (take_lock io lock d).0 ≡ ok got
    → (lock ≡ got) × HoldsLock lock.cluster_name lock (take_lock io lock d).1
unfolding take_lock save_lock
take_lock-ok lock got none d h = (cc h, lookup-insert_self lock.cluster_name (held lock) d)
take_lock-ok lock got (some e) d h = absurd (cc h)

-- A lock that an acquire returns is in the cluster's file, in the caller's name and for the given
-- time, and the file held no lock before that had not expired.
pub record Owns (cluster me : Text) (expiry : ℕ) (lock : ClusterLock) (d : Disk) : Type 0 where
  pub on_disk : HoldsLock cluster lock d
  pub own_name : lock.locked_by ≡ me
  pub own_expiry : lock.expires_at ≡ expiry

pub acquire_lock-Owns :
    (format : ℕ → Text) (io : Option Error) (me : Text) (now locked_at before_expiry : ℕ)
    (cluster plan_id operation : Text) (timeout : ℕ) (d : Disk) (lock : ClusterLock)
    → (acquire_lock format io me now locked_at before_expiry cluster plan_id operation timeout d).0
      ≡ ok lock
    → Owns cluster me
        (before_expiry + timeout_or_default timeout)
        lock
        (acquire_lock format io me now locked_at before_expiry cluster plan_id operation timeout
          d).1
unfolding acquire_lock
acquire_lock-Owns format io me now locked_at before_expiry cluster plan_id operation timeout d lock
      h =
    let made =
      new_lock me cluster plan_id operation (timeout_or_default timeout) locked_at before_expiry in
    elim (Option-cases (check_free format cluster now d)) [
      | inl e ↦
          let got = take_lock-ok made lock io d (rw (e, acquire_lock) at h) in
          rw (e, acquire_lock)
            (subst
              (λ l.
                Owns cluster me (before_expiry + timeout_or_default timeout) l
                  (take_lock io made d).1)
              got.0 (record { on_disk = got.1; own_name = refl; own_expiry = refl }))
      | inr (x, e) ↦ absurd (cc (rw (e, acquire_lock) at h))
    ]

-- A lock that AcquireLock returned excludes the others: after any number of steps of other processes,
-- and at any time before it expires, the cluster counts as locked, and an AcquireLock for it, by anyone,
-- is refused with the message that names the lock's owner and leaves the disk as it is. The steps are:
-- before the lock expires, an AcquireLock, a ReleaseLock with a lock of another owner, and a CleanupExpiredLocks; a
-- RenewLock of another owner's lock; and for other clusters also a ForceUnlock and the write of an AcquireLock
-- that checked before. A ForceUnlock of this cluster and the write of an AcquireLock that checked it
-- before are not among them.
pub acquire_lock-excludes :
    (format : ℕ → Text) (io : Option Error) (me : Text) (now locked_at before_expiry : ℕ)
    (cluster plan_id operation : Text) (timeout : ℕ) (d e : Disk) (lock : ClusterLock)
    → (acquire_lock format io me now locked_at before_expiry cluster plan_id operation timeout d).0
      ≡ ok lock
    → Steps cluster lock
        (acquire_lock format io me now locked_at before_expiry cluster plan_id operation timeout
          d).1
        e
    → (io' : Option Error) (you : Text) (later locked_at' before_expiry' : ℕ)
      (plan_id' operation' : Text) (timeout' : ℕ)
    → later < before_expiry + timeout_or_default timeout
    → (is_locked later cluster e ≡ true)
      × (acquire_lock format io' you later locked_at' before_expiry' cluster plan_id' operation'
            timeout' e
          ≡ (err (locked_message format cluster lock), e))
acquire_lock-excludes format io me now locked_at before_expiry cluster plan_id operation timeout d e
      lock h steps io' you later locked_at' before_expiry' plan_id' operation' timeout' live =
    let owns =
      acquire_lock-Owns format io me now locked_at before_expiry cluster plan_id operation timeout d
        lock h in
    let now_held = Steps-HoldsLock cluster lock _ e steps owns.on_disk in
    let still : later < lock.expires_at = omega (arith, owns.own_expiry) in
    (
      is_locked-held cluster lock e later now_held (omega arith),
      acquire_lock-refused cluster lock e now_held format io' you later locked_at' before_expiry'
          plan_id' operation' timeout' still,
    )
