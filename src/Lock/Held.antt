-- ===== src/Lock/Held.antt =====
-- What each lock function does to the disk when a cluster's file holds a lock.
use mup.Base.{
  ℕ, ◌+◌, ◌≤◌, ◌<◌, ◌≡◌, ◌≢◌, sym, Bool, true, false, List, [], ◌∷◌, Option, none, some, inl, inr,
  arith, Bool-cases, Option-cases, ltb, if◌then◌else◌,
}
use mup.Base.Text.{Text, text_eq, text_eq_iff}
use mup.Base.Dict.{lookup, lookup-insert, lookup-delete}
use mup.Base.Results.{Error, ok, err, Result-cases}
use mup.Lock.{
  ClusterLock, held, locked_message, Disk, get_lock, save_lock, remove_file, check_free, take_lock,
  acquire_lock, renew_lock, release_lock, cleanup_one, cleanup_from,
}

-- The file of the cluster holds this lock.
abbrev pub HoldsLock : Text → ClusterLock → Disk → Type 0
HoldsLock cluster lock d = lookup cluster d ≡ some (held lock)

pub get_lock-held :
    (cluster : Text) (lock : ClusterLock) (d : Disk)
    → HoldsLock cluster lock d
    → get_lock cluster d ≡ ok lock
unfolding get_lock
get_lock-held cluster lock d h = rw (h, get_lock)

pub text_eq-false : (a b : Text) → text_eq a b ≡ false → a ≢ b
text_eq-false a b h e = ground (arith, text_eq_iff a b)

pub text_ne : (a b : Text) → a ≢ b → text_eq a b ≡ false
text_ne a b h = ground (arith, text_eq_iff a b)

ltb-true : (a b : ℕ) → a < b → ltb a b ≡ true
ltb-true a b h = ground arith

pub ltb-false : (a b : ℕ) → b ≤ a → ltb a b ≡ false
ltb-false a b h = ground arith

if-HoldsLock :
    (cluster : Text) (lock : ClusterLock) (b : Bool) (r r' : Option Error × Disk)
    → HoldsLock cluster lock r.1
    → HoldsLock cluster lock r'.1
    → HoldsLock cluster lock (if b then r else r').1
if-HoldsLock cluster lock true r r' h k = h
if-HoldsLock cluster lock false r r' h k = k

module _ (cluster : Text) (lock : ClusterLock) (d : Disk) (h : HoldsLock cluster lock d) where
  save_lock-other :
      (io : Option Error) (other : ClusterLock)
      → other.cluster_name ≢ cluster
      → HoldsLock cluster lock (save_lock io other d).1
  unfolding save_lock
  save_lock-other none other ne = ground (
    arith,
    lookup-insert other.cluster_name cluster (held other) d,
    text_eq_iff other.cluster_name cluster,
  )
  save_lock-other (some e) other ne = h

  pub remove_file-other :
      (io : Option Error) (other : Text)
      → other ≢ cluster
      → HoldsLock cluster lock (remove_file io other d).1
  unfolding remove_file
  remove_file-other none other ne =
      ground (arith, lookup-delete other cluster d, text_eq_iff other cluster)
  remove_file-other (some e) other ne = h

module _ (cluster : Text) (lock : ClusterLock) (d : Disk) (h : HoldsLock cluster lock d) where
  pub take_lock-other :
      (io : Option Error) (other : ClusterLock)
      → other.cluster_name ≢ cluster
      → HoldsLock cluster lock (take_lock io other d).1
  unfolding take_lock
  take_lock-other io other ne = elim (Option-cases (save_lock io other d).0) [
    | inl e ↦ rw (e, take_lock) (save_lock-other cluster lock d h io other ne)
    | inr (x, e) ↦ rw (e, take_lock) (save_lock-other cluster lock d h io other ne)
  ]

  check_free-held :
      (format : ℕ → Text) (now : ℕ)
      → now < lock.expires_at
      → check_free format cluster now d ≡ some (locked_message format cluster lock)
  unfolding check_free
  check_free-held format now live =
      rw (get_lock-held cluster lock d h, check_free, ltb-true now lock.expires_at live)

  pub acquire_lock-refused :
      (format : ℕ → Text) (io : Option Error) (me : Text) (now locked_at before_expiry : ℕ)
      (plan_id operation : Text) (timeout : ℕ)
      → now < lock.expires_at
      → acquire_lock format io me now locked_at before_expiry cluster plan_id operation timeout d
        ≡ (err (locked_message format cluster lock), d)
  unfolding acquire_lock
  acquire_lock-refused format io me now locked_at before_expiry plan_id operation timeout live =
      rw (check_free-held format now live, acquire_lock)

  acquire_lock-other :
      (format : ℕ → Text) (io : Option Error) (me : Text) (now locked_at before_expiry : ℕ)
      (target plan_id operation : Text) (timeout : ℕ)
      → target ≢ cluster
      → HoldsLock cluster lock
          (acquire_lock format io me now locked_at before_expiry target plan_id operation timeout
            d).1
  unfolding acquire_lock
  acquire_lock-other format io me now locked_at before_expiry target plan_id operation timeout ne =
      elim (Option-cases (check_free format target now d)) [
        | inl e ↦ rw (e, acquire_lock) (take_lock-other io _ ne)
        | inr (x, e) ↦ rw (e, acquire_lock) h
      ]

  pub acquire_lock-HoldsLock :
      (format : ℕ → Text) (io : Option Error) (me : Text) (now locked_at before_expiry : ℕ)
      (target plan_id operation : Text) (timeout : ℕ)
      → now < lock.expires_at
      → HoldsLock cluster lock
          (acquire_lock format io me now locked_at before_expiry target plan_id operation timeout
            d).1
  acquire_lock-HoldsLock format io me now locked_at before_expiry target plan_id operation timeout
        live =
      elim (Bool-cases (text_eq target cluster)) [
        | inl e ↦
            rw
              (
                (text_eq_iff target cluster).0 e,
                acquire_lock-refused format io me now locked_at before_expiry plan_id operation
                    timeout live,
              )
              h
        | inr e ↦
            acquire_lock-other format io me now locked_at before_expiry target plan_id operation
              timeout (text_eq-false target cluster e)
      ]

  pub renew_lock-other :
      (io : Option Error) (now before_expiry : ℕ) (other : ClusterLock) (extension : ℕ)
      → other.cluster_name ≢ cluster
      → HoldsLock cluster lock (renew_lock io now before_expiry other extension d).1
  unfolding renew_lock
  renew_lock-other io now before_expiry other extension ne =
      let renewed : ClusterLock = record other {
        expires_at = before_expiry + extension;
        renew_count = other.renew_count + 1;
      } in
      let saved = save_lock-other cluster lock d h io renewed ne in
      elim (Result-cases (get_lock other.cluster_name d)) [
        | inl (x, e) ↦ rw (e, renew_lock) h
        | inr (current, e) ↦ elim (Bool-cases (text_eq current.locked_by other.locked_by)) [
          | inr f ↦ rw (e, renew_lock, f) h
          | inl f ↦ elim (Bool-cases (ltb current.expires_at now)) [
            | inl g ↦ rw (e, renew_lock, f, g) h
            | inr g ↦ elim (Option-cases (save_lock io renewed d).0) [
              | inl k ↦ rw (e, renew_lock, f, g, k) saved
              | inr (x, k) ↦ rw (e, renew_lock, f, g, k) saved
            ]
          ]
        ]
      ]

  pub renew_lock-refused :
      (io : Option Error) (now before_expiry : ℕ) (other : ClusterLock) (extension : ℕ)
      → other.cluster_name ≡ cluster
      → other.locked_by ≢ lock.locked_by
      → (renew_lock io now before_expiry other extension d).1 ≡ d
  unfolding renew_lock
  renew_lock-refused io now before_expiry other extension same ne = rw (
    same,
    get_lock-held cluster lock d h,
    renew_lock,
    text_ne lock.locked_by other.locked_by (λ e. ne (sym e)),
  )

  pub release_lock-HoldsLock :
      (io : Option Error) (now : ℕ) (target : Text) (other : ClusterLock)
      → other.locked_by ≢ lock.locked_by
      → now < lock.expires_at
      → HoldsLock cluster lock (release_lock io now target other d).1
  unfolding release_lock
  release_lock-HoldsLock io now target other ne live = elim (Bool-cases (text_eq target cluster)) [
    | inl e ↦
        rw
          (
            (text_eq_iff target cluster).0 e,
            get_lock-held cluster lock d h,
            release_lock,
            text_ne lock.locked_by other.locked_by (λ e. ne (sym e)),
            ltb-true now lock.expires_at live,
          )
          h
    | inr e ↦ elim (Result-cases (get_lock target d)) [
      | inl (x, f) ↦ rw (f, release_lock) h
      | inr (current, f) ↦
          rw (f, release_lock)
            (if-HoldsLock cluster lock _ _ _ h
              (remove_file-other cluster lock d h io target (text_eq-false target cluster e)))
    ]
  ]

  cleanup_one-kept :
      (io : Option Error) (now : ℕ) → now ≤ lock.expires_at → cleanup_one io now cluster d ≡ d
  unfolding cleanup_one
  cleanup_one-kept io now live =
      rw (get_lock-held cluster lock d h, cleanup_one, ltb-false lock.expires_at now live)

  cleanup_one-other :
      (io : Option Error) (now : ℕ) (target : Text)
      → target ≢ cluster
      → HoldsLock cluster lock (cleanup_one io now target d)
  unfolding cleanup_one
  cleanup_one-other io now target ne = elim (Result-cases (get_lock target d)) [
    | inl (x, f) ↦ rw (f, cleanup_one) h
    | inr (current, f) ↦ elim (Bool-cases (ltb current.expires_at now)) [
      | inl g ↦ rw (f, cleanup_one, g) (remove_file-other cluster lock d h io target ne)
      | inr g ↦ rw (f, cleanup_one, g) h
    ]
  ]

  cleanup_one-HoldsLock :
      (io : Option Error) (now : ℕ) (target : Text)
      → now ≤ lock.expires_at
      → HoldsLock cluster lock (cleanup_one io now target d)
  cleanup_one-HoldsLock io now target live = elim (Bool-cases (text_eq target cluster)) [
    | inl e ↦ rw ((text_eq_iff target cluster).0 e, cleanup_one-kept io now live) h
    | inr e ↦ cleanup_one-other io now target (text_eq-false target cluster e)
  ]

pub cleanup_from-HoldsLock :
    (cluster : Text) (lock : ClusterLock) (io : Text → Option Error) (clock : Text → ℕ)
    (names : List Text) (d : Disk)
    → ((name : Text) → clock name ≤ lock.expires_at)
    → HoldsLock cluster lock d
    → HoldsLock cluster lock (cleanup_from io clock names d)
unfolding cleanup_from
cleanup_from-HoldsLock cluster lock io clock [] d live h = h
cleanup_from-HoldsLock cluster lock io clock (name ∷ names) d live h =
    cleanup_from-HoldsLock cluster lock io clock names _ live
      (cleanup_one-HoldsLock cluster lock d h (io name) (clock name) name (live name))
