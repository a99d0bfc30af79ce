-- ===== src/Plan/Store/Deleted.antt =====
-- What DeletePlan of pkg/plan/store.go removes.
use mup.Base.{◌≡◌, ◌≢◌, refl, Bool, false, ◌++◌, Option, none, some}
use mup.Base.Text.{Text, codes, text_eq, text_eq_refl}
use mup.Base.Dict.{lookup, delete, lookup-delete}
use mup.Base.Results.{Error, ok, err}
use mup.Plan.Store.{
  Disk, Codec, Io, get_store_path, checksum_path, delete_files, load_plan, verify_plan, delete_plan,
}
use mup.Plan.Store.Kept.{text_eq-longer}

-- The two ends of a deletion.
pub data Deletes (codec : Codec) (storage_dir cluster id : Text) (d : Disk)
    : Option Error × Disk → Type 0 where
  deleted :
      {d' : Disk}
      → load_plan codec storage_dir cluster id d' ≡ err (codes "plan not found: " ++ id)
      → ((b : Bool) → verify_plan codec storage_dir cluster id d' ≢ ok b)
      → ((j : Text)
          → text_eq (get_store_path storage_dir cluster id) j ≡ false
          → text_eq (checksum_path (get_store_path storage_dir cluster id)) j ≡ false
          → lookup j d' ≡ lookup j d)
      → Deletes codec storage_dir cluster id d (none, d')
  kept : {e : Error} → Deletes codec storage_dir cluster id d (some e, d)

deleted_self :
    (path : Text) (d : Disk) → lookup path (delete (checksum_path path) (delete path d)) ≡ none
deleted_self path d =
    rw
      (
        lookup-delete (checksum_path path) path (delete path d),
        text_eq-longer path (codes "sha256") b'.',
        lookup-delete path path d,
        text_eq_refl path,
      )
      refl

deleted_other :
    (path j : Text) (d : Disk)
    → text_eq path j ≡ false
    → text_eq (checksum_path path) j ≡ false
    → lookup j (delete (checksum_path path) (delete path d)) ≡ lookup j d
deleted_other path j d a b =
    rw (lookup-delete (checksum_path path) j (delete path d), b, lookup-delete path j d, a) refl

load_missing :
    (codec : Codec) (storage_dir cluster id : Text) (d : Disk)
    → lookup (get_store_path storage_dir cluster id) d ≡ none
    → load_plan codec storage_dir cluster id d ≡ err (codes "plan not found: " ++ id)
unfolding load_plan
load_missing codec storage_dir cluster id d e = rw (e, load_plan) refl

verify_missing :
    (codec : Codec) (storage_dir cluster id : Text) (d : Disk)
    → lookup (get_store_path storage_dir cluster id) d ≡ none
    → (b : Bool) → verify_plan codec storage_dir cluster id d ≢ ok b
unfolding verify_plan
verify_missing codec storage_dir cluster id d e b f = absurd (cc (rw (e, verify_plan) at f))

delete_files-Deletes :
    (codec : Codec) (storage_dir : Text) (remove : Option Error) (cluster id : Text) (d : Disk)
    → Deletes codec storage_dir cluster id d
        (delete_files codec storage_dir remove (get_store_path storage_dir cluster id) d)
unfolding delete_files
delete_files-Deletes codec storage_dir none cluster id d =
    let path = get_store_path storage_dir cluster id in
    deleted (load_missing codec storage_dir cluster id _ (deleted_self path d))
      (verify_missing codec storage_dir cluster id _ (deleted_self path d))
      (λ j a b. deleted_other path j d a b)
delete_files-Deletes codec storage_dir (some e) cluster id d = kept

-- A plan that DeletePlan removed is not found by LoadPlan, VerifyPlan fails for it, and no file but the plan's
-- and its checksum's changes; where DeletePlan fails, nothing changes.
pub delete_plan-Deletes :
    (codec : Codec) (storage_dir : Text) (io : Io) (cluster id : Text) (d : Disk)
    → Deletes codec storage_dir cluster id d (delete_plan codec storage_dir io cluster id d)
unfolding delete_plan
delete_plan-Deletes codec storage_dir io cluster id d =
    delete_files-Deletes codec storage_dir io.remove cluster id d
