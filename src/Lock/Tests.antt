-- ===== src/Lock/Tests.antt =====
-- Small runs of the lock functions, and the theorems at such runs.
use mup.Base.{ℕ, ◌≡◌, ◌≢◌, refl, true, [], none, arith}
use mup.Base.Text.{Text, codes, text_eq}
use mup.Base.Dict.{lookup, insert, delete}
use mup.Base.Results.{ok, err, is_ok}
use mup.Lock.{
  ClusterLock, LockFile, Disk, get_lock, save_lock, remove_file, check_free, locked_message,
  new_lock, take_lock, acquire_lock, renew_lock, release_lock, is_locked, cleanup_one, cleanup_from,
  cleanup_expired_locks,
}
use mup.Lock.Ownership.{Steps, next, done, acquires, renews, acquire_lock-excludes}
use mup.Lock.Held.{text_eq-false}
use mup.Lock.Race.{Caller, Races, acquire_lock-races}
use mup.Lock.Cleanup.{survivor, lookup-cleanup_expired_locks}

program : Unit {0}
unfolding text_eq lookup insert delete get_lock save_lock remove_file check_free take_lock
    acquire_lock renew_lock release_lock is_locked cleanup_one cleanup_from cleanup_expired_locks
program = tt

abbrev rfc3339 : ℕ → Text
rfc3339 time = codes "later"

abbrev taken : ClusterLock
taken = new_lock (codes "ann@a:1") (codes "prod") (codes "p1") (codes "deploy") 60 100 100

abbrev foreign : ClusterLock
foreign = new_lock (codes "bob@b:2") (codes "test") (codes "p2") (codes "deploy") 60 100 100

abbrev after_acquire : Disk
after_acquire =
    (acquire_lock rfc3339 none (codes "ann@a:1") 100 100 100 (codes "prod") (codes "p1")
      (codes "deploy") 60 []).1

-- At the time at which it expires a lock counts, and gives way to another one.
boundary_is_locked : is_locked 160 (codes "prod") after_acquire ≡ true
unfolding program
boundary_is_locked = refl

boundary_is_free :
    is_ok
      (acquire_lock rfc3339 none
        (codes "bob@b:2")
        160
        160
        160
        (codes "prod")
        (codes "p2")
        (codes "deploy")
        60
        after_acquire).0
    ≡ true
unfolding program
boundary_is_free = refl

returned :
    (acquire_lock rfc3339 none
      (codes "ann@a:1")
      100
      100
      100
      (codes "prod")
      (codes "p1")
      (codes "deploy")
      60
      []).0
    ≡ ok taken
unfolding program
returned = refl

abbrev between : Disk
between =
    (acquire_lock rfc3339 none (codes "bob@b:2") 110 110 110 (codes "test") (codes "p2")
      (codes "deploy") 60 after_acquire).1

other_owner : foreign.locked_by ≢ taken.locked_by
unfolding text_eq
other_owner = text_eq-false foreign.locked_by taken.locked_by refl

steps : Steps (codes "prod") taken after_acquire (renew_lock none 120 120 foreign 60 between).1
steps =
    next
      (acquires rfc3339 none (codes "bob@b:2") 110 110 110 (codes "test") (codes "p2")
        (codes "deploy") 60 after_acquire (omega arith))
      (next (renews none 120 120 foreign 60 between other_owner) (done _))

acquire_lock-excludes_example :
    (is_locked 150 (codes "prod") (renew_lock none 120 120 foreign 60 between).1 ≡ true)
    × (acquire_lock rfc3339 none
          (codes "bob@b:2")
          150
          150
          150
          (codes "prod")
          (codes "p2")
          (codes "deploy")
          60
          (renew_lock none 120 120 foreign 60 between).1
        ≡ (
          err (locked_message rfc3339 (codes "prod") taken),
          (renew_lock none 120 120 foreign 60 between).1,
        ))
acquire_lock-excludes_example =
    acquire_lock-excludes rfc3339 none (codes "ann@a:1") 100 100 100 (codes "prod") (codes "p1")
      (codes "deploy") 60 [] (renew_lock none 120 120 foreign 60 between).1 taken returned steps
      none (codes "bob@b:2") 150 150 150 (codes "p2") (codes "deploy") 60 (omega arith)

lookup-nothing : lookup {V = LockFile} (codes "prod") [] ≡ none
unfolding lookup
lookup-nothing = refl

abbrev ann : Caller
ann = record {
  name = codes "ann@a:1";
  plan_id = codes "p1";
  operation = codes "deploy";
  timeout = 0;
  now = 5;
  locked_at = 6;
  before_expiry = 6;
}

abbrev bob : Caller
bob = record ann {
  name = codes "bob@b:2";
  plan_id = codes "p2";
  operation = codes "upgrade";
  now = 7;
}

other_name : ann.name ≢ bob.name
unfolding text_eq
other_name = text_eq-false ann.name bob.name refl

acquire_lock-races_example : Races rfc3339 (codes "prod") ann bob []
acquire_lock-races_example =
    acquire_lock-races rfc3339 (codes "prod") ann bob [] lookup-nothing other_name (omega arith)

lookup-cleanup_expired_locks_example :
    ((cleanup_expired_locks none (λ name. none) (λ name. 200) after_acquire).0 ≡ none)
    × (lookup
          (codes "prod")
          (cleanup_expired_locks none (λ name. none) (λ name. 200) after_acquire).1
        ≡ survivor none 200 (lookup (codes "prod") after_acquire))
lookup-cleanup_expired_locks_example =
    lookup-cleanup_expired_locks none (λ name. none) (λ name. 200) (codes "prod") after_acquire
