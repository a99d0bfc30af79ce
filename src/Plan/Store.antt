-- ===== src/Plan/Store.antt =====
-- pkg/plan/store.go: plans in files, each with a checksum beside it. The disk is a map from paths to
-- contents. JSON and SHA-256 are parameters. `io` holds the results of the file operations; one that
-- fails changes nothing, and a file that is there can be read. A removal whose result the code ignores is
-- one that succeeds. Parts of paths are clean and not empty.
pub mod Kept
pub mod Deleted
mod Tests
use mup.Base.{ℕ, Bool, true, false, List, [], ◌∷◌, ◌++◌, Option, none, some, ◌==◌, if◌then◌else◌}
use mup.Base.Text.{Text, codes, text_eq}
use mup.Base.Dict.{Dict, lookup, insert, delete}
use mup.Base.Results.{Error, Result, ok, err}
use mup.Topology.{is_empty}
use mup.Plan.{Plan}

abbrev pub Disk : Type 0
Disk = Dict Text

-- `encode` and `decode` are json.MarshalIndent and json.Unmarshal, `checksum` is SHA-256 in hexadecimal.
pub record Codec : Type 0 where
  pub encode : Plan → Result Text
  pub decode : Text → Result Plan
  pub checksum : Text → Text

pub record Io : Type 0 where
  pub mkdir : Option Error
  pub write : Option Error
  pub rename : Option Error
  pub write_checksum : Option Error
  pub remove : Option Error

module _ (storage_dir : Text) where
  unfoldable pub get_plans_dir : Text → Text
  get_plans_dir cluster = storage_dir ++ codes "/clusters/" ++ cluster ++ codes "/plans"

  unfoldable pub get_store_path : Text → Text → Text
  get_store_path cluster id = get_plans_dir cluster ++ codes "/" ++ id ++ codes ".json"

abbrev pub temp_path : Text → Text
temp_path path = path ++ codes ".tmp"

abbrev pub checksum_path : Text → Text
checksum_path path = path ++ codes ".sha256"

-- The id and the time that a plan gets where it has none.
unfoldable pub with_identity : Text → ℕ → Plan → Plan
with_identity fresh now p = record p {
  plan_id = if is_empty p.plan_id then fresh else p.plan_id;
  created_at = if p.created_at == 0 then now else p.created_at;
}

abbrev failed {ℓ} : {A : Type ℓ} → Text → Error → Disk → Result A × Disk
failed message e d = (err (message ++ codes ": " ++ e), d)

module _ (codec : Codec) where
  -- The checksum is written last; that it could not be is only printed.
  unfoldable pub write_checksum : Option Error → Text → Text → Disk → Disk
  write_checksum none path bytes d = insert (checksum_path path) (codec.checksum bytes) d
  write_checksum (some e) path bytes d = d

  unfoldable pub rename_plan :
      Option Error → Option Error → Text → Text → Text → Disk → Result Text × Disk
  rename_plan (some e) last id path bytes d =
      failed (codes "failed to rename plan file") e (delete (temp_path path) d)
  rename_plan none last id path bytes d =
      (ok id, write_checksum last path bytes (delete (temp_path path) (insert path bytes d)))

  unfoldable pub write_plan :
      Option Error → Option Error → Option Error → Text → Text → Text → Disk → Result Text × Disk
  write_plan (some e) rename last id path bytes d = failed (codes "failed to write plan file") e d
  write_plan none rename last id path bytes d =
      rename_plan rename last id path bytes (insert (temp_path path) bytes d)

  unfoldable pub encode_plan :
      Option Error → Option Error → Option Error → Text → Plan → Disk → Result Text × Disk
  encode_plan write rename last path p d = elim (codec.encode p) [
    | err e ↦ failed (codes "failed to serialize plan") e d
    | ok bytes ↦ write_plan write rename last p.plan_id path bytes d
  ]

module _ (codec : Codec) (storage_dir : Text) where
  unfoldable pub store_plan :
      Option Error → Option Error → Option Error → Option Error → Plan → Disk → Result Text × Disk
  store_plan (some e) write rename last p d = failed (codes "failed to create plans directory") e d
  store_plan none write rename last p d =
      encode_plan codec write rename last (get_store_path storage_dir p.cluster_name p.plan_id) p d

  unfoldable pub save_plan : Io → Text → ℕ → Plan → Disk → Result Text × Disk
  save_plan io fresh now p d =
      store_plan io.mkdir io.write io.rename io.write_checksum (with_identity fresh now p) d

  unfoldable pub load_plan : Text → Text → Disk → Result Plan
  load_plan cluster id d = elim (lookup (get_store_path storage_dir cluster id) d) [
    | none ↦ err (codes "plan not found: " ++ id)
    | some bytes ↦ elim (codec.decode bytes) [
      | err e ↦ err (codes "failed to load plan: " ++ e)
      | ok p ↦ ok p
    ]
  ]

  unfoldable pub same_checksum : Text → Option Text → Bool
  same_checksum bytes none = false
  same_checksum bytes (some stored) = text_eq (codec.checksum bytes) stored

  unfoldable pub verify_plan : Text → Text → Disk → Result Bool
  verify_plan cluster id d =
      let path = get_store_path storage_dir cluster id in
      elim (lookup path d) [
        | none ↦ err (codes "failed to read plan file: file does not exist")
        | some bytes ↦ ok (same_checksum bytes (lookup (checksum_path path) d))
      ]

  -- A file that is not there counts as removed.
  unfoldable pub delete_files : Option Error → Text → Disk → Option Error × Disk
  delete_files (some e) path d = (some (codes "failed to remove plan file: " ++ e), d)
  delete_files none path d = (none, delete (checksum_path path) (delete path d))

  unfoldable pub delete_plan : Io → Text → Text → Disk → Option Error × Disk
  delete_plan io cluster id d = delete_files io.remove (get_store_path storage_dir cluster id) d
