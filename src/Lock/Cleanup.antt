-- ===== src/Lock/Cleanup.antt =====
-- What the cleanup leaves: every lock that has not expired, and no other one that can be removed.
use mup.Base.{
  ℕ, ◌≡◌, ◌≢◌, refl, ◌∙◌, Bool, true, false, List, [], ◌∷◌, Option, none, some, inl, inr, ltb,
  if◌then◌else◌, Bool-cases, Option-cases,
}
use mup.Base.Text.{Text, text_eq, text_eq_iff, text_eq_refl}
use mup.Base.Dict.{lookup, lookup-delete}
use mup.Base.Results.{Error}
use mup.Lock.{
  ClusterLock, LockFile, held, unreadable, Disk, get_lock, remove_file, cleanup_one, cleanup_from,
  clusters_of, cleanup_expired_locks, listing_error,
}

-- What is to stay of a cluster's file: a lock goes if it has expired and the removal succeeds.
abbrev pub survivor : Option Error → ℕ → Option LockFile → Option LockFile
survivor io now none = none
survivor io now (some (unreadable e)) = some (unreadable e)
survivor none now (some (held lock)) = if ltb lock.expires_at now then none else some (held lock)
survivor (some e) now (some (held lock)) = some (held lock)

survivor-twice_if :
    (late : Bool) (lock : ClusterLock) (now : ℕ)
    → ltb lock.expires_at now ≡ late
    → survivor none now (if late then none else some (held lock))
      ≡ (if late then none else some (held lock))
survivor-twice_if true lock now e = refl
survivor-twice_if false lock now e = rw e

survivor-twice :
    (io : Option Error) (now : ℕ) (file : Option LockFile)
    → survivor io now (survivor io now file) ≡ survivor io now file
survivor-twice io now none = refl
survivor-twice io now (some (unreadable e)) = refl
survivor-twice none now (some (held lock)) =
    survivor-twice_if (ltb lock.expires_at now) lock now refl
survivor-twice (some e) now (some (held lock)) = refl

lookup-remove_file_self :
    (io : Option Error) (c : Text) (d : Disk) (lock : ClusterLock) (now : ℕ)
    → lookup c d ≡ some (held lock)
    → ltb lock.expires_at now ≡ true
    → lookup c (remove_file io c d).1 ≡ survivor io now (some (held lock))
unfolding remove_file
lookup-remove_file_self none c d lock now h late = rw (late, lookup-delete c c d, text_eq_refl c)
lookup-remove_file_self (some e) c d lock now h late = h

survivor-kept :
    (io : Option Error) (now : ℕ) (lock : ClusterLock)
    → ltb lock.expires_at now ≡ false
    → survivor io now (some (held lock)) ≡ some (held lock)
survivor-kept none now lock e = rw e
survivor-kept (some x) now lock e = refl

cleanup_one-held :
    (io : Option Error) (now : ℕ) (c : Text) (d : Disk) (lock : ClusterLock)
    → lookup c d ≡ some (held lock)
    → cleanup_one io now c d ≡ (if ltb lock.expires_at now then (remove_file io c d).1 else d)
unfolding cleanup_one get_lock
cleanup_one-held io now c d lock h = rw (h, get_lock, cleanup_one)

cleanup_one-no_lock :
    (io : Option Error) (now : ℕ) (c : Text) (d : Disk)
    → ((lock : ClusterLock) → lookup c d ≢ some (held lock))
    → cleanup_one io now c d ≡ d
unfolding cleanup_one get_lock
cleanup_one-no_lock io now c d h = elim (Option-cases (lookup c d)) [
  | inl e ↦ rw (e, get_lock, cleanup_one)
  | inr (held lock, e) ↦ absurd (h lock e)
  | inr (unreadable x, e) ↦ rw (e, get_lock, cleanup_one)
]

lookup-cleanup_one_held :
    (io : Option Error) (now : ℕ) (c : Text) (d : Disk) (lock : ClusterLock)
    → lookup c d ≡ some (held lock)
    → lookup c (cleanup_one io now c d) ≡ survivor io now (some (held lock))
lookup-cleanup_one_held io now c d lock h = elim (Bool-cases (ltb lock.expires_at now)) [
  | inl e ↦ rw (cleanup_one-held io now c d lock h, e) (lookup-remove_file_self io c d lock now h e)
  | inr e ↦ rw (cleanup_one-held io now c d lock h, e, survivor-kept io now lock e) h
]

lookup-cleanup_one_self :
    (io : Option Error) (now : ℕ) (c : Text) (d : Disk)
    → lookup c (cleanup_one io now c d) ≡ survivor io now (lookup c d)
lookup-cleanup_one_self io now c d = elim (Option-cases (lookup c d)) [
  | inl e ↦ rw (cleanup_one-no_lock io now c d (λ lock f. cc (e, f)), e)
  | inr (held lock, e) ↦ rw e (lookup-cleanup_one_held io now c d lock e)
  | inr (unreadable x, e) ↦ rw (cleanup_one-no_lock io now c d (λ lock f. cc (e, f)), e)
]

lookup-remove_file_other :
    (io : Option Error) (name c : Text) (d : Disk)
    → text_eq name c ≡ false
    → lookup c (remove_file io name d).1 ≡ lookup c d
unfolding remove_file
lookup-remove_file_other none name c d ne = rw (lookup-delete name c d, ne)
lookup-remove_file_other (some e) name c d ne = refl

lookup-if_other :
    (b : Bool) (io : Option Error) (name c : Text) (d : Disk)
    → text_eq name c ≡ false
    → lookup c (if b then (remove_file io name d).1 else d) ≡ lookup c d
lookup-if_other true io name c d ne = lookup-remove_file_other io name c d ne
lookup-if_other false io name c d ne = refl

lookup-cleanup_one_other :
    (io : Option Error) (now : ℕ) (name c : Text) (d : Disk)
    → text_eq name c ≡ false
    → lookup c (cleanup_one io now name d) ≡ lookup c d
lookup-cleanup_one_other io now name c d ne = elim (Option-cases (lookup name d)) [
  | inl e ↦ rw (cleanup_one-no_lock io now name d (λ lock f. cc (e, f)))
  | inr (held lock, e) ↦
      rw (cleanup_one-held io now name d lock e)
        (lookup-if_other (ltb lock.expires_at now) io name c d ne)
  | inr (unreadable x, e) ↦ rw (cleanup_one-no_lock io now name d (λ lock f. cc (e, f)))
]

-- The cleanup goes over the names one by one: a name that is listed is cleaned at least once.
contains : Text → List Text → Bool
contains c [] = false
contains c (name ∷ names) = if text_eq name c then true else contains c names

survivor-again :
    (listed : Bool) (io : Option Error) (now : ℕ) (file : Option LockFile)
    → (if listed then survivor io now (survivor io now file) else survivor io now file)
      ≡ survivor io now file
survivor-again true io now file = survivor-twice io now file
survivor-again false io now file = refl

cleaned : (Text → Option Error) → (Text → ℕ) → Text → List Text → Disk → Option LockFile
cleaned io clock c names d =
    if contains c names then survivor (io c) (clock c) (lookup c d) else lookup c d

cleaned_self :
    (io : Text → Option Error) (clock : Text → ℕ) (names : List Text) (name c : Text) (d : Disk)
    → text_eq name c ≡ true
    → cleaned io clock c names (cleanup_one (io name) (clock name) name d)
      ≡ survivor (io c) (clock c) (lookup c d)
unfolding cleaned
cleaned_self io clock names name c d e =
    rw ((text_eq_iff name c).0 e, lookup-cleanup_one_self (io c) (clock c) c d)
      (survivor-again (contains c names) (io c) (clock c) (lookup c d))

lookup-cleanup_from :
    (io : Text → Option Error) (clock : Text → ℕ) (names : List Text) (c : Text) (d : Disk)
    → lookup c (cleanup_from io clock names d) ≡ cleaned io clock c names d
unfolding cleanup_from contains cleaned
lookup-cleanup_from io clock [] c d = refl
lookup-cleanup_from io clock (name ∷ names) c d = elim (Bool-cases (text_eq name c)) [
  | inl e ↦ rw e (
      lookup-cleanup_from io clock names c (cleanup_one (io name) (clock name) name d)
      ∙ cleaned_self io clock names name c d e)
  | inr e ↦ rw e (
      lookup-cleanup_from io clock names c (cleanup_one (io name) (clock name) name d)
      ∙ rw (lookup-cleanup_one_other (io name) (clock name) name c d e))
]

lookup-unlisted : (c : Text) (d : Disk) → contains c (clusters_of d) ≡ false → lookup c d ≡ none
unfolding contains lookup
lookup-unlisted c [] h = refl
lookup-unlisted c ((name, file) ∷ d) h = elim (Bool-cases (text_eq name c)) [
  | inl e ↦ absurd (cc (rw e at h))
  | inr e ↦ rw e (lookup-unlisted c d (rw e at h))
]

lookup-cleanup_from_all :
    (io : Text → Option Error) (clock : Text → ℕ) (c : Text) (d : Disk)
    → lookup c (cleanup_from io clock (clusters_of d) d) ≡ survivor (io c) (clock c) (lookup c d)
unfolding cleaned
lookup-cleanup_from_all io clock c d =
    lookup-cleanup_from io clock (clusters_of d) c d
    ∙ elim (Bool-cases (contains c (clusters_of d))) [
      | inl e ↦ rw e
      | inr e ↦ rw (e, lookup-unlisted c d e)
    ]

-- What is left of a cluster's file, by how the reading of the directory went.
abbrev pub left_by : Option Error → Option Error → ℕ → Option LockFile → Option LockFile
left_by none io now file = survivor io now file
left_by (some e) io now file = file

-- CleanupExpiredLocks returns an error just where it cannot read the directory, and then every cluster's file is
-- as it was. Otherwise a cluster's file is as it was, except that it is gone if it held a
-- lock that had expired when the loop came to it and the removal succeeded.
pub lookup-cleanup_expired_locks :
    (listing : Option Error) (io : Text → Option Error) (clock : Text → ℕ) (c : Text) (d : Disk)
    → ((cleanup_expired_locks listing io clock d).0 ≡ listing_error listing)
      × (lookup c (cleanup_expired_locks listing io clock d).1
          ≡ left_by listing (io c) (clock c) (lookup c d))
unfolding cleanup_expired_locks
lookup-cleanup_expired_locks (some e) io clock c d = (refl, refl)
lookup-cleanup_expired_locks none io clock c d = (refl, lookup-cleanup_from_all io clock c d)
