-- ===== src/Lock/Race.antt =====
-- `AcquireLock` reads the lock file and then writes it, and nothing holds the file in between.
use mup.Base.{ℕ, ◌+◌, ◌<◌, ◌≡◌, ◌≢◌, refl, sym, Option, none, some}
use mup.Base.Text.{Text}
use mup.Base.Dict.{lookup, lookup-insert_self}
use mup.Base.Results.{Error, Result, ok, err}
use mup.Lock.{
  ClusterLock, Disk, get_lock, save_lock, check_free, take_lock, new_lock, timeout_or_default,
  acquire_lock, renew_lock, locked_message, not_owner,
}
use mup.Lock.Held.{HoldsLock, get_lock-held, text_ne, acquire_lock-refused}

check_free-none :
    (format : ℕ → Text) (cluster : Text) (now : ℕ) (d : Disk)
    → lookup cluster d ≡ none
    → check_free format cluster now d ≡ none
unfolding check_free get_lock
check_free-none format cluster now d h = rw (h, check_free, get_lock)

-- The renewal of a lock by another than its owner on the disk.
renew_lock-not_owner :
    (io : Option Error) (now before_expiry : ℕ) (mine yours : ClusterLock) (extension : ℕ)
    (d : Disk)
    → HoldsLock mine.cluster_name yours d
    → mine.locked_by ≢ yours.locked_by
    → renew_lock io now before_expiry mine extension d ≡ ((some (not_owner yours mine), mine), d)
unfolding renew_lock
renew_lock-not_owner io now before_expiry mine yours extension d h ne =
    rw
      (
        get_lock-held mine.cluster_name yours d h,
        renew_lock,
        text_ne yours.locked_by mine.locked_by (λ e. ne (sym e)),
      )
      refl

-- The arguments of a call of AcquireLock, and its readings of the clock.
pub record Caller : Type 0 where
  pub name : Text
  pub plan_id : Text
  pub operation : Text
  pub timeout : ℕ
  pub now : ℕ
  pub locked_at : ℕ
  pub before_expiry : ℕ

-- The lock that such a call makes.
abbrev pub lock_for : Text → Caller → ClusterLock
lock_for cluster c =
    new_lock c.name cluster c.plan_id c.operation (timeout_or_default c.timeout) c.locked_at
      c.before_expiry

abbrev pub acquire : (ℕ → Text) → Text → Caller → Disk → Result ClusterLock × Disk
acquire format cluster c =
    acquire_lock format none c.name c.now c.locked_at c.before_expiry cluster c.plan_id c.operation
      c.timeout

module _ (format : ℕ → Text) (cluster : Text) (me you : Caller) (d : Disk) where
  -- My write, and your write after it.
  abbrev pub after_mine : Result ClusterLock × Disk
  after_mine = take_lock none (lock_for cluster me) d

  abbrev pub after_both : Result ClusterLock × Disk
  after_both = take_lock none (lock_for cluster you) after_mine.1

  -- What comes of the calls of the two, by the order of their checks and writes.
  pub record Races : Type 0 where
    -- Both checks pass if they come before the writes,
    pub my_check : check_free format cluster me.now d ≡ none
    pub your_check : check_free format cluster you.now d ≡ none
    -- and both calls return their lock.
    pub mine_returned : after_mine.0 ≡ ok (lock_for cluster me)
    pub yours_returned : after_both.0 ≡ ok (lock_for cluster you)
    -- The disk then has yours, and neither a renewal of mine is possible
    pub on_disk : get_lock cluster after_both.1 ≡ ok (lock_for cluster you)
    pub not_renewed :
        (io : Option Error) (now before_expiry extension : ℕ)
        → renew_lock io now before_expiry (lock_for cluster me) extension after_both.1 ≡ (
          (some (not_owner (lock_for cluster you) (lock_for cluster me)), lock_for cluster me),
          after_both.1,
        )
    -- nor would your call have succeeded as a whole after mine as a whole.
    pub mine_whole : acquire format cluster me d ≡ after_mine
    pub yours_whole :
        acquire format cluster you after_mine.1
        ≡ (err (locked_message format cluster (lock_for cluster me)), after_mine.1)

acquire_lock-free :
    (format : ℕ → Text) (cluster : Text) (c : Caller) (d : Disk)
    → lookup cluster d ≡ none
    → acquire format cluster c d ≡ take_lock none (lock_for cluster c) d
unfolding acquire_lock
acquire_lock-free format cluster c d free =
    rw (check_free-none format cluster c.now d free, acquire_lock) refl

-- Two processes call AcquireLock for a cluster without a lock file, and all writes succeed. If
-- each one's check comes before the other's write, both checks pass, both calls return their lock,
-- and the file holds the lock of the one that wrote last. The first then has a lock that the disk does
-- not know: every renewal of it is refused with the other's name. If the second call comes as a whole after
-- the first one, and before the first lock expires, it is refused instead.
pub acquire_lock-races :
    (format : ℕ → Text) (cluster : Text) (me you : Caller) (d : Disk)
    → lookup cluster d ≡ none
    → me.name ≢ you.name
    → you.now < me.before_expiry + timeout_or_default me.timeout
    → Races format cluster me you d
unfolding take_lock save_lock
acquire_lock-races format cluster me you d free ne early = record {
  my_check = check_free-none format cluster me.now d free;
  your_check = check_free-none format cluster you.now d free;
  mine_returned = refl;
  yours_returned = refl;
  on_disk = get_lock-held cluster (lock_for cluster you) _ (lookup-insert_self cluster _ _);
  not_renewed = λ io now before_expiry extension.
      renew_lock-not_owner io now before_expiry (lock_for cluster me) (lock_for cluster you)
        extension _ (lookup-insert_self cluster _ _) ne;
  mine_whole = acquire_lock-free format cluster me d free;
  yours_whole =
      acquire_lock-refused cluster (lock_for cluster me) _ (lookup-insert_self cluster _ _) format
        none you.name you.now you.locked_at you.before_expiry you.plan_id you.operation you.timeout
        early;
}
